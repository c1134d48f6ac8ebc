-- ===== src/Sched/Wakeup.antt =====
-- condition_wait of src/kern/thread.c.
use mathlib.Core.Path.{subst}
use operating_systems_final.Prelude.{
  ℕ, ◌<◌, ◌≡◌, refl, sym, ap, ◌∙◌, ◌≢◌, inl, inr, true, none, some, List, [], ◌∷◌, ◌++◌, arith,
  ◌==◌, Bool-cases, All,
}
use operating_systems_final.Thread.{link}
use operating_systems_final.Thread.Chains.{NotIn, NotIn-append, Frame, NotIn-right, link_ne}
use operating_systems_final.Thread.Lists.{tlinsert-append}
use operating_systems_final.Sched.{
  Sched, nthr, ThreadState, waiting, running, ready, update, is_running, join_wait_list,
  condition_wait,
}
use operating_systems_final.Sched.Queues.{
  Waits, Core, IsSound, update_self, update_ne, All-imp, In-left, In-right, All-append, NotIn-state,
  Frame-Holds,
}
use operating_systems_final.Sched.Switch.{suspend_self-none, suspend_self-blocked, waiting_only}

-- A running thread is in no list.
unlisted_ready :
    (s : Sched) (q : List ℕ) (w : ℕ → List ℕ) (t : ℕ) → Core s q w → s.state t ≡ running → NotIn t q
unlisted_ready s q w t k e = NotIn-state s ready running t q (λ b. cc) e k.are_ready

pub unlisted_wait :
    (s : Sched) (q : List ℕ) (w : ℕ → List ℕ) (c t : ℕ)
    → Core s q w
    → s.state t ≡ running
    → NotIn t (w c)
unlisted_wait s q w c t k e =
    All-imp (Waits s c) (λ u. u ≢ t) (w c)
      (λ u i p same. let bad : waiting ≡ running = sym p.0 ∙ ap s.state same ∙ e in cc)
      (k.are_waiting c)

flip_NotIn : (t : ℕ) (xs : List ℕ) → NotIn t xs → All (λ u. NotIn u (t ∷ [])) xs
flip_NotIn t xs h =
    All-imp (λ u. u ≢ t) (λ u. NotIn u (t ∷ [])) xs (λ u i d. (λ e. d (sym e), tt)) h

-- Two lists of threads whose states or conditions differ share no thread.
pub apart_lists :
    (P Q : ℕ → Type 0) (xs ys : List ℕ)
    → ((u : ℕ) → P u → Q u → ⊥)
    → All P xs
    → All Q ys
    → All (λ u. NotIn u xs) ys
apart_lists P Q xs ys d a b =
    All-imp Q (λ u. NotIn u xs) ys
      (λ u i q. All-imp P (λ v. v ≢ u) xs (λ v j p e. d u (subst P e p) q) a) b

-- Threads that are in neither part are not in the longer list.
apart_joined :
    (P : ℕ → Type 0) (xs ys : List ℕ) (t : ℕ)
    → ((u : ℕ) → P u → NotIn u xs)
    → ((u : ℕ) → P u → t ≢ u)
    → All P ys
    → All (λ u. NotIn u (xs ++ (t ∷ []))) ys
apart_joined P xs ys t a b h =
    All-imp P (λ u. NotIn u (xs ++ (t ∷ []))) ys
      (λ u i p. NotIn-append u xs (t ∷ []) (a u p) (b u p, tt)) h

-- A thread that waits for one condition is not in the list of another.
pub other_list :
    (s : Sched) (q : List ℕ) (w : ℕ → List ℕ) (c d u : ℕ)
    → Core s q w
    → d ≢ c
    → Waits s d u
    → NotIn u (w c)
other_list s q w c d u k differ p =
    All-imp (Waits s c) (λ v. v ≢ u) (w c)
      (λ v i r same.
        let conds : some d ≡ some c = sym p.1 ∙ ap s.wait_cond (sym same) ∙ r.1 in differ (cc))
      (k.are_waiting c)

-- The caller joins the list of the condition, at its end.
join_wait_list-Core :
    (s : Sched) (q : List ℕ) (w : ℕ → List ℕ) (c : ℕ)
    → IsSound s q w
    → (c < nthr → c ≡ s.current)
    → (s' : Sched) × (join_wait_list c s ≡ some s')
      × Core s' q (update w c (w c ++ (s.current ∷ [])))
      × (s'.current ≡ s.current)
      × (s'.state ≡ update s.state s.current waiting)
unfolding join_wait_list
join_wait_list-Core s q w c sound mine =
    let k = sound.core in
    let t = s.current in
    let run = sound.runs in
    let once : Frame s.next (link s.next t none) (t ∷ []) =
      λ u a. link_ne s.next t u none (λ e. a.0 (sym e)) in
    let away = unlisted_wait s q w c t k run in
    let start = Frame-Holds (t ∷ []) (w c) once (flip_NotIn t (w c) away) (k.on_wait c) in
    let (l, next, e, h, f) =
      tlinsert-append (link s.next t none) (s.wait_list c) (w c) t start away in
    let both : Frame s.next next (w c ++ (t ∷ [])) =
      λ u a. f u a ∙ link_ne s.next t u none (λ b. (NotIn-right u (w c) (t ∷ []) a).0 (sym b)) in
    let differs : (u : ℕ) (a : ThreadState) → (running ≡ a → ⊥) → s.state u ≡ a → t ≢ u =
      λ u a d p b. d (sym run ∙ ap s.state b ∙ p) in
    let stays : (u : ℕ) → t ≢ u → update s.state t waiting u ≡ s.state u =
      λ u d. update_ne s.state t u waiting (λ b. d (sym b)) in
    let still : (d : ℕ)
        → All
            (λ u.
              (update s.state t waiting u ≡ waiting) × (update s.wait_cond t (some c) u ≡ some d))
            (w d) =
      λ d.
        All-imp (Waits s d)
          (λ u. (update s.state t waiting u ≡ waiting) × (update s.wait_cond t (some c) u ≡ some d))
          (w d)
          (λ u i p.
            let far = differs u waiting (λ b. cc) p.0 in
            (stays u far ∙ p.0, update_ne s.wait_cond t u (some c) (λ b. far (sym b)) ∙ p.1))
          (k.are_waiting d) in
    (
      record s {
        state = update s.state t waiting;
        wait_cond = update s.wait_cond t (some c);
        wait_list = update s.wait_list c l;
        next = next;
      },
      rw (e, join_wait_list) refl,
      record {
        on_ready =
            Frame-Holds (w c ++ (t ∷ [])) q both
              (apart_joined (λ u. s.state u ≡ ready) (w c) q t
                (λ u p.
                  NotIn-state s waiting ready u (w c) (λ b. cc) p
                    (waiting_only s c (w c) (k.are_waiting c)))
                (λ u p. differs u ready (λ b. cc) p) k.are_ready)
              k.on_ready;
        on_wait = λ d. elim (Bool-cases (d == c)) [
          | inl same ↦ rw same h
          | inr other ↦ rw other (
              Frame-Holds (w c ++ (t ∷ [])) (w d) both
                (apart_joined (Waits s d) (w c) (w d) t
                  (λ u p. other_list s q w c d u k (ground arith) p)
                  (λ u p. differs u waiting (λ b. cc) p.0) (k.are_waiting d))
                (k.on_wait d))
        ];
        are_ready =
            All-imp (λ u. s.state u ≡ ready) (λ u. update s.state t waiting u ≡ ready) q
              (λ u i p. stays u (differs u ready (λ b. cc) p) ∙ p) k.are_ready;
        are_waiting = λ d. elim (Bool-cases (d == c)) [
          | inl same ↦ rw same (
              subst
                (λ z.
                  All
                    (λ u.
                      (update s.state t waiting u ≡ waiting)
                      × (update s.wait_cond t (some c) u ≡ some z))
                    (w c ++ (t ∷ [])))
                (ground arith)
                (All-append _ (w c) (t ∷ []) (still c)
                  ((update_self s.state t waiting, update_self s.wait_cond t (some c)), tt)))
          | inr other ↦ rw other (still d)
        ];
        queued = λ u p. ground (arith, k.queued u, run);
        listed = λ u d p r. elim (Bool-cases (u == t)) [
          | inl mine ↦
              let same : (d == c) ≡ true = ground arith in
              rw same (In-right u (w c) (t ∷ []) (inl (ground arith)))
          | inr theirs ↦ elim (Bool-cases (d == c)) [
            | inl same ↦ rw same (In-left u (w c) (t ∷ []) (ground (arith, k.listed u c)))
            | inr other ↦ rw other (ground (arith, k.listed u d))
          ]
        ];
        own = λ u d p r b. ground (arith, k.own u d, mine);
        in_table = k.in_table;
        vacant = λ u p. ground (arith, k.vacant u, run);
      },
      refl,
      refl,
    )

-- With no thread to run, a wait is a panic.
pub condition_wait-none :
    (s : Sched) (c : ℕ) (w : ℕ → List ℕ)
    → IsSound s [] w
    → (c < nthr → c ≡ s.current)
    → condition_wait c s ≡ none
unfolding condition_wait
condition_wait-none s c w q mine =
    let (s₁, e, core, same, st) = join_wait_list-Core s [] w c q mine in
    rw (ap is_running q.runs, e, suspend_self-none s₁ core.on_ready) refl

-- In a sound state with a ready thread, a caller that waits for a condition, which may not be another
-- thread's child_exit, stands at the end of its list, and the first ready thread runs.
pub condition_wait-turn :
    (s : Sched) (x c : ℕ) (rest : List ℕ) (w : ℕ → List ℕ)
    → IsSound s (x ∷ rest) w
    → (c < nthr → c ≡ s.current)
    → (s' : Sched) × (condition_wait c s ≡ some s')
      × IsSound s' rest (update w c (w c ++ (s.current ∷ [])))
      × (s'.current ≡ x)
unfolding condition_wait
condition_wait-turn s x c rest w q mine =
    let (s₁, e, core, same, st) = join_wait_list-Core s (x ∷ rest) w c q mine in
    let asleep : s₁.state s₁.current ≡ waiting =
      ap s₁.state same ∙ ap (λ f. f s.current) st ∙ update_self s.state s.current waiting in
    let (s₂, e₂, sound, runs, _) =
      suspend_self-blocked s₁ x rest (update w c (w c ++ (s.current ∷ []))) core (λ b. cc) (λ b. cc)
        (λ u r.
          let far : update s.state s.current waiting u ≡ running = sym (ap (λ f. f u) st) ∙ r in
          ground (arith, q.single u, far)) in
    (s₂, rw (ap is_running q.runs, e, e₂) refl, sound, runs)
