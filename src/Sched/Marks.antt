-- ===== src/Sched/Marks.antt =====
-- The loop of condition_broadcast in src/kern/thread.c: it marks the threads of a list as ready.
use mathlib.Core.Path.{subst}
use operating_systems_final.Prelude.{
  ℕ, zero, suc, ◌<◌, ◌≡◌, refl, sym, ◌∙◌, ◌≢◌, ◌⊎◌, inl, inr, true, Option, none, some, List, [],
  ◌∷◌, arith, ◌==◌, Bool-cases, length, All,
}
use operating_systems_final.Thread.Chains.{NotIn, IsDistinct, IsChain}
use operating_systems_final.Sched.{Sched, ready, update, mark_ready, waits_for}
use operating_systems_final.Sched.Queues.{In, Waits, update_self, update_ne, All-imp, All-In}

-- The value at each of the threads, and that of `f` at the others.
abbrev pub set_all {ℓ} : {A : Type ℓ} → List ℕ → A → (ℕ → A) → ℕ → A
set_all [] v f = f
set_all (x ∷ xs) v f = set_all xs v (update f x v)

set_all-keep {ℓ} :
    {A : Type ℓ} (xs : List ℕ) (v : A) (f : ℕ → A) (u : ℕ) → f u ≡ v → set_all xs v f u ≡ v
set_all-keep [] v f u e = e
set_all-keep (x ∷ xs) v f u e =
    set_all-keep xs v (update f x v) u
      (elim (Bool-cases (u == x)) [ inl same ↦ rw same refl | inr other ↦ rw other e ])

pub set_all-In {ℓ} :
    {A : Type ℓ} (xs : List ℕ) (v : A) (f : ℕ → A) (u : ℕ) → In u xs → set_all xs v f u ≡ v
set_all-In [] v f u i = absurd i
set_all-In (x ∷ xs) v f u (inl e) =
    set_all-keep xs v (update f x v) u (subst (λ z. update f x v z ≡ v) e (update_self f x v))
set_all-In (x ∷ xs) v f u (inr i) = set_all-In xs v (update f x v) u i

pub set_all-NotIn {ℓ} :
    {A : Type ℓ} (xs : List ℕ) (v : A) (f : ℕ → A) (u : ℕ) → NotIn u xs → set_all xs v f u ≡ f u
set_all-NotIn [] v f u a = refl
set_all-NotIn (x ∷ xs) v f u a =
    set_all-NotIn xs v (update f x v) u a.1 ∙ update_ne f x u v (λ e. a.0 (sym e))

pub In-cases : (u : ℕ) (xs : List ℕ) → In u xs ⊎ NotIn u xs
In-cases u [] = inr tt
In-cases u (x ∷ xs) = elim (Bool-cases (u == x)) [
  | inl same ↦ inl (inl (ground arith))
  | inr other ↦ elim (In-cases u xs) [ inl i ↦ inl (inr i) | inr a ↦ inr ((λ e. ground arith), a) ]
]

Waits-waits_for :
    (s : Sched) (c t : ℕ) → Waits s c t → waits_for c (s.state t) (s.wait_cond t) ≡ true
Waits-waits_for s c t p = rw (p.0, p.1) (ground arith)

-- The loop ends, and each thread of the list is ready and waits for nothing.
pub mark_ready-set_all :
    (k c : ℕ) (s : Sched) (thr : Option ℕ) (xs : List ℕ)
    → IsChain s.next thr xs
    → IsDistinct xs
    → All (Waits s c) xs
    → length xs < k
    → mark_ready k c thr s
      ≡ some
          (record s { state = set_all xs ready s.state; wait_cond = set_all xs none s.wait_cond })
unfolding mark_ready
mark_ready-set_all zero c s thr xs ch d p h = absurd (omega arith)
mark_ready-set_all (suc k) c s none [] ch d p h = refl
mark_ready-set_all (suc k) c s (some t) [] ch d p h = cc
mark_ready-set_all (suc k) c s none (x ∷ xs) ch d p h = cc
mark_ready-set_all (suc k) c s (some t) (x ∷ xs) ch d p h =
    let same : x ≡ t = cc in
    let s₁ : Sched = record s {
      state = update s.state x ready;
      wait_cond = update s.wait_cond x none;
    } in
    let still : All (Waits s₁ c) xs =
      All-imp (λ u. u ≢ x) (Waits s₁ c) xs
        (λ u i a.
          let old = All-In (Waits s c) xs u p.1 i in
          (update_ne s.state x u ready a ∙ old.0, update_ne s.wait_cond x u none a ∙ old.1))
        d.0 in
    let rest = mark_ready-set_all k c s₁ (s.next x) xs ch.1 d.1 still (omega arith) in
    subst
      (λ z.
        mark_ready (suc k) c (some z) s
        ≡ some (record s {
          state = set_all (x ∷ xs) ready s.state;
          wait_cond = set_all (x ∷ xs) none s.wait_cond;
        }))
      same (rw (Waits-waits_for s c x p.0) rest)
