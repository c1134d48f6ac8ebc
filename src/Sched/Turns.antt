-- ===== src/Sched/Turns.antt =====
-- How soon a ready thread of src/kern/thread.c runs.
use mathlib.Core.Path.{subst}
use mathlib.Core.List.{append_assoc}
use operating_systems_final.Prelude.{
  ℕ, zero, suc, ◌≡◌, refl, sym, ap, ◌∙◌, List, [], ◌∷◌, ◌++◌, arith, length,
}
use operating_systems_final.Sched.{Sched}
use operating_systems_final.Sched.Queues.{IsSound}
use operating_systems_final.Sched.Steps.{Switch, Keep, Turn, Switch-Turn, Keep-IsSound}

-- Calls of which `n` give the processor to the next thread.
pub data Run : ℕ → Sched → Sched → Type 0 where
  stay : {s : Sched} → Run zero s s
  switch : {n : ℕ} {s s' s'' : Sched} → Switch s s' → Run n s' s'' → Run (suc n) s s''
  keep : {n : ℕ} {s s' s'' : Sched} → Keep s s' → Run n s' s'' → Run n s s''

-- A turn moves every other ready thread one place forward.
move_forward :
    (x t : ℕ) (xs ys : List ℕ) (s' : Sched)
    → Turn s' ((x ∷ xs) ++ (t ∷ ys))
    → (ys' : List ℕ) × (w' : ℕ → List ℕ) × IsSound s' (xs ++ (t ∷ ys')) w'
move_forward x t xs ys s' turn =
    let tail : (xs ++ (t ∷ ys)) ++ turn.more ≡ turn.rest = cc in
    (
      (ys ++ turn.more) ++ turn.late,
      turn.waits,
      subst (λ r. IsSound s' r turn.waits)
          (ap (λ r. r ++ turn.late) (sym tail ∙ append_assoc xs (t ∷ ys) turn.more)
            ∙ append_assoc xs (t ∷ ys ++ turn.more) turn.late)
          turn.sound,
    )

starts :
    (n t : ℕ) (xs ys : List ℕ) (w : ℕ → List ℕ) {s s' s'' : Sched}
    → IsSound s (xs ++ (t ∷ ys)) w
    → n ≡ length xs
    → Run n s s'
    → Switch s' s''
    → s''.current ≡ t
starts n t (x ∷ xs) ys w sound count stay last = absurd (omega arith)
starts n t [] ys w {s} {s'} {s''} sound count stay last =
    let turn = Switch-Turn s s'' (t ∷ ys) w sound last in
    let first : t ≡ turn.first = cc in turn.current ∙ sym first
starts n t [] ys w sound count (switch step more) last = absurd (omega arith)
starts n t (x ∷ xs) ys w {s = s} sound count (switch {n = m} {s' = s₁} step more) last =
    let turn = Switch-Turn s s₁ ((x ∷ xs) ++ (t ∷ ys)) w sound step in
    let (ys', w', sound') = move_forward x t xs ys s₁ turn in
    starts m t xs ys' w' sound' (omega arith) more last
starts n t xs ys w {s = s} sound count (keep {s' = s₁} step more) last =
    let (late, w', sound') = Keep-IsSound s s₁ (xs ++ (t ∷ ys)) w sound step in
    starts n t xs (ys ++ late) w'
      (subst (λ r. IsSound s₁ r w') (append_assoc xs (t ∷ ys) late) sound') count more last

-- From a sound state on, where the memory of every struct thread that thread_spawn and
-- thread_fork_to_user take is cleared, a ready thread runs: when as many yields, waits and exits
-- have passed as there are ready threads before it, it is the one that the next of these starts,
-- with any broadcasts, spawns, forks and recycled threads between them. A fork, which runs the child
-- at once and puts its parent at the end of the ready list, is not counted as a turn.
pub Run-starts :
    (t : ℕ) (xs ys : List ℕ) (w : ℕ → List ℕ) {s s' s'' : Sched}
    → IsSound s (xs ++ (t ∷ ys)) w
    → Run (length xs) s s'
    → Switch s' s''
    → s''.current ≡ t
Run-starts t xs ys w sound run last = starts (length xs) t xs ys w sound refl run last
