-- ===== src/Sched/Queues.antt =====
-- What the lists of threads in src/kern/thread.c hold, between two operations.
use mathlib.Core.Path.{subst}
use operating_systems_final.Prelude.{
  ℕ, ◌<◌, ◌≡◌, refl, sym, ap, ◌∙◌, ◌≢◌, ◌⊎◌, inl, inr, true, false, some, List, [], ◌∷◌, ◌++◌,
  arith, ◌==◌, Bool-cases, All,
}
use operating_systems_final.Thread.{Next, ThreadList}
use operating_systems_final.Thread.Chains.{Holds, NotIn, Frame, Holds-frame}
use operating_systems_final.Sched.{
  Sched, nthr, ThreadState, uninitialized, waiting, running, ready, exited, update, set_state,
}

abbrev pub In : ℕ → List ℕ → Type 0
In t [] = ⊥
In t (x ∷ xs) = (x ≡ t) ⊎ In t xs

abbrev pub Waits : Sched → ℕ → ℕ → Type 0
Waits s c t = (s.state t ≡ waiting) × (s.wait_cond t ≡ some c)

-- The ready list holds `queue`, which are the threads that are ready, and the list of each condition
-- holds `waits c`, which are those that wait for it. Only a thread itself waits
-- for its child_exit. A slot of the table is free or has a number below nthr, and a free one belongs
-- to no live thread.
pub record Core (s : Sched) (queue : List ℕ) (waits : ℕ → List ℕ) : Type 0 where
  pub on_ready : Holds s.next s.ready_list queue
  pub on_wait : (c : ℕ) → Holds s.next (s.wait_list c) (waits c)
  pub are_ready : All (λ t. s.state t ≡ ready) queue
  pub are_waiting : (c : ℕ) → All (Waits s c) (waits c)
  pub queued : (t : ℕ) → s.state t ≡ ready → In t queue
  pub listed : (t c : ℕ) → s.state t ≡ waiting → s.wait_cond t ≡ some c → In t (waits c)
  pub own : (t c : ℕ) → s.state t ≡ waiting → s.wait_cond t ≡ some c → c < nthr → c ≡ t
  pub in_table : (t : ℕ) → s.thrtab t ≡ true → t < nthr
  pub vacant : (t : ℕ) → s.thrtab t ≡ false → (s.state t ≡ uninitialized) ⊎ (s.state t ≡ exited)

-- The same with the current thread running, and no other, as it is while a thread runs.
pub record IsSound (s : Sched) (queue : List ℕ) (waits : ℕ → List ℕ) : Type 0 where
  pub core : Core s queue waits
  pub runs : s.state s.current ≡ running
  pub single : (t : ℕ) → s.state t ≡ running → t ≡ s.current

pub update_self {ℓ} : {A : Type ℓ} (f : ℕ → A) (t : ℕ) (v : A) → update f t v t ≡ v
update_self f t v = let e : (t == t) ≡ true = ground arith in rw e refl

pub update_ne {ℓ} : {A : Type ℓ} (f : ℕ → A) (t u : ℕ) (v : A) → u ≢ t → update f t v u ≡ f u
update_ne f t u v h = let e : (u == t) ≡ false = ground arith in rw e refl

pub All-imp :
    (P Q : ℕ → Type 0) (xs : List ℕ) → ((u : ℕ) → In u xs → P u → Q u) → All P xs → All Q xs
All-imp P Q [] h a = tt
All-imp P Q (x ∷ xs) h a = (h x (inl refl) a.0, All-imp P Q xs (λ u i. h u (inr i)) a.1)

pub All-In : (P : ℕ → Type 0) (xs : List ℕ) (u : ℕ) → All P xs → In u xs → P u
All-In P [] u a i = absurd i
All-In P (x ∷ xs) u a (inl e) = subst P e a.0
All-In P (x ∷ xs) u a (inr i) = All-In P xs u a.1 i

pub In-left : (u : ℕ) (xs ys : List ℕ) → In u xs → In u (xs ++ ys)
In-left u [] ys i = absurd i
In-left u (x ∷ xs) ys (inl e) = inl e
In-left u (x ∷ xs) ys (inr i) = inr (In-left u xs ys i)

pub In-right : (u : ℕ) (xs ys : List ℕ) → In u ys → In u (xs ++ ys)
In-right u [] ys i = i
In-right u (x ∷ xs) ys i = inr (In-right u xs ys i)

pub All-append : (P : ℕ → Type 0) (xs ys : List ℕ) → All P xs → All P ys → All P (xs ++ ys)
All-append P [] ys a b = b
All-append P (x ∷ xs) ys a b = (a.0, All-append P xs ys a.1 b)

-- A thread in another state is not among threads that are all in one.
pub NotIn-state :
    (s : Sched) (a b : ThreadState) (t : ℕ) (xs : List ℕ)
    → (a ≡ b → ⊥)
    → s.state t ≡ b
    → All (λ u. s.state u ≡ a) xs
    → NotIn t xs
NotIn-state s a b t xs d e h =
    All-imp (λ u. s.state u ≡ a) (λ u. u ≢ t) xs (λ u i q same. d (sym q ∙ ap s.state same ∙ e)) h

-- Lists apart from the links that change hold what they held.
pub Frame-Holds :
    {next next' : Next} {l : ThreadList} (xs ys : List ℕ)
    → Frame next next' xs
    → All (λ u. NotIn u xs) ys
    → Holds next l ys
    → Holds next' l ys
Frame-Holds {next} {next'} {l} xs ys f a h =
    Holds-frame next next' l ys
      (All-imp (λ u. NotIn u xs) (λ u. next' u ≡ next u) ys (λ u i. f u) a) h

-- A thread that is in no list changes its state to one that puts it in none.
pub set_state-Core :
    (s : Sched) (q : List ℕ) (w : ℕ → List ℕ) (t : ℕ) (a : ThreadState)
    → Core s q w
    → (s.state t ≡ ready → ⊥)
    → (s.state t ≡ waiting → ⊥)
    → (a ≡ ready → ⊥)
    → (a ≡ waiting → ⊥)
    → (s.thrtab t ≡ false → (a ≡ uninitialized) ⊎ (a ≡ exited))
    → Core (set_state t a s) q w
set_state-Core s q w t a k not_ready not_waiting off off' slot =
    let stays : (u : ℕ) → u ≢ t → update s.state t a u ≡ s.state u =
      λ u d. update_ne s.state t u a d in
    record {
      on_ready = k.on_ready;
      on_wait = k.on_wait;
      are_ready =
          All-imp (λ u. s.state u ≡ ready) _ q
            (λ u i p. stays u (λ b. not_ready (ap s.state (sym b) ∙ p)) ∙ p) k.are_ready;
      are_waiting = λ d.
          All-imp (Waits s d) _ (w d)
            (λ u i p. (stays u (λ b. not_waiting (ap s.state (sym b) ∙ p.0)) ∙ p.0, p.1))
            (k.are_waiting d);
      queued = λ u p. ground (arith, k.queued u, off);
      listed = λ u d p r. ground (arith, k.listed u d, off');
      own = λ u d p r b. ground (arith, k.own u d, off');
      in_table = k.in_table;
      vacant = λ u e. elim (Bool-cases (u == t)) [
        | inl same ↦ rw same (slot (subst (λ z. s.thrtab z ≡ false) (ground arith) e))
        | inr other ↦ rw other (k.vacant u e)
      ];
    }
