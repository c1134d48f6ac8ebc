-- ===== src/Sched/Joins.antt =====
-- thread_join of src/kern/thread.c.
use operating_systems_final.Prelude.{
  ℕ, ◌<◌, ◌≡◌, refl, sym, ap, ◌∙◌, ◌≢◌, ◌⊎◌, inl, inr, Bool, true, false, not, ◌&&◌, ◌||◌, some,
  List, [], ◌∷◌, ◌++◌, arith, ltb, leb, ◌==◌, if◌then◌else◌, Bool-cases,
}
use operating_systems_final.Sched.{
  Sched, nthr, exited, update, is_exited, joined, refused, asleep, recycle_thread, await_child,
  thread_join,
}
use operating_systems_final.Sched.Queues.{IsSound}
use operating_systems_final.Sched.Wakeup.{condition_wait-turn}
use operating_systems_final.Sched.Exits.{recycle_thread-IsSound, is_exited-true}

-- Whether a number is that of a child of the running thread.
abbrev pub is_child : ℕ → Sched → Bool
is_child tid s = ltb 0 tid && (ltb tid nthr && (s.thrtab tid && (s.parent tid == s.current)))

-- The thread has left the table, its children are its parent's, and nothing else has changed.
pub record Recycled (tid : ℕ) (s s' : Sched) : Type 0 where
  pub slots : (t : ℕ) → s'.thrtab t ≡ (if t == tid then false else s.thrtab t)
  pub parents :
      (t : ℕ)
      → s'.parent t
        ≡ (if ltb 0 t && (s.thrtab t && (s.parent t == tid)) then s.parent tid else s.parent t)
  pub others : record s' { thrtab = s.thrtab; parent = s.parent } ≡ s

below_nthr :
    (s : Sched) (t a : ℕ)
    → (s.thrtab t ≡ true → t < nthr)
    → ((ltb 0 t && ltb t nthr) && (s.thrtab t && (s.parent t == a)))
      ≡ (ltb 0 t && (s.thrtab t && (s.parent t == a)))
below_nthr s t a h = elim (Bool-cases (s.thrtab t)) [
  | inl used ↦ let low : ltb t nthr ≡ true = ground (arith, h used) in rw (low, used) (ground arith)
  | inr free ↦ rw free (ground arith)
]

-- What becomes of the table when an exited thread of it is recycled.
recycle_thread-Recycled :
    (s : Sched) (tid : ℕ) (q : List ℕ) (w : ℕ → List ℕ)
    → IsSound s q w
    → is_child tid s ≡ true
    → is_exited (s.state tid) ≡ true
    → (s' : Sched) × (recycle_thread tid s ≡ some s') × Recycled tid s s'
unfolding recycle_thread
recycle_thread-Recycled s tid q w sound child over =
    let test : ((ltb 0 tid && ltb tid nthr) && (s.thrtab tid && is_exited (s.state tid))) ≡ true =
      rw over (ground (arith, child)) in
    (
      _,
      rw (test, recycle_thread) refl,
      record {
        slots = λ t. refl;
        parents = λ t.
            ap (λ b. if b then s.parent tid else s.parent t)
              (below_nthr s t tid (sound.core.in_table t));
        others = refl;
      },
    )

refused_step :
    (s : Sched) (tid : ℕ) → is_child tid s ≡ false → thread_join tid s ≡ some (refused, s)
unfolding thread_join
refused_step s tid e = elim (Bool-cases (tid == 0 || leb nthr tid)) [
  | inl out ↦ rw (out, thread_join) refl
  | inr within ↦
      let stranger : not (s.thrtab tid && (s.parent tid == s.current)) ≡ true =
        ground (arith, e, within) in
      rw (within, stranger, thread_join) refl
]

child_step : (s : Sched) (tid : ℕ) → is_child tid s ≡ true → thread_join tid s ≡ await_child tid s
unfolding thread_join
child_step s tid e =
    let within : (tid == 0 || leb nthr tid) ≡ false = ground (arith, e) in
    let mine : not (s.thrtab tid && (s.parent tid == s.current)) ≡ false = ground (arith, e) in
    rw (within, mine, thread_join) refl

-- With a ready thread in a sound state, `thread_join` refuses a thread that is not a child of its caller and
-- changes nothing; it recycles a child that has exited, whose slot is then free and whose children are
-- its parent's, and changes nothing else; for any other child it puts its caller at the end of those that wait for the
-- caller's child_exit, and the first ready thread runs. The state stays sound.
pub thread_join-IsSound :
    (s : Sched) (tid x : ℕ) (rest : List ℕ) (w : ℕ → List ℕ)
    → IsSound s (x ∷ rest) w
    → ((is_child tid s ≡ false) × (thread_join tid s ≡ some (refused, s)))
      ⊎ ((s' : Sched) × (is_child tid s ≡ true)
          × (((s.state tid ≡ exited)
                × (thread_join tid s ≡ some (joined tid, s'))
                × Recycled tid s s'
                × IsSound s' (x ∷ rest) w)
              ⊎ ((s.state tid ≢ exited)
                  × (thread_join tid s ≡ some (asleep, s'))
                  × IsSound s' rest (update w s.current (w s.current ++ (s.current ∷ [])))
                  × (s'.current ≡ x))))
unfolding thread_join await_child
thread_join-IsSound s tid x rest w sound = elim (Bool-cases (is_child tid s)) [
  | inr no_child ↦ inl (no_child, refused_step s tid no_child)
  | inl child ↦
      let go = child_step s tid child in
      elim (Bool-cases (is_exited (s.state tid))) [
        | inl over ↦
            let (s', e, r) = recycle_thread-Recycled s tid (x ∷ rest) w sound child over in
            let (sound', same) = recycle_thread-IsSound s s' tid (x ∷ rest) w sound e in
            inr (
              s',
              child,
              inl (
                is_exited-true (s.state tid) over,
                go ∙ rw (over, e, await_child) refl,
                r,
                sound',
              ),
            )
        | inr busy ↦
            let (s', e, sound', runs) =
              condition_wait-turn s x s.current rest w sound (λ h. refl) in
            inr (
              s',
              child,
              inr (
                λ f. let bad : true ≡ false = sym (ap is_exited f) ∙ busy in cc,
                go ∙ rw (busy, e, await_child) refl,
                sound',
                runs,
              ),
            )
      ]
]
