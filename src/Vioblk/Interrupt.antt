-- ===== src/Vioblk/Interrupt.antt =====
-- vioblk_isr of src/kern/vioblk.c, over the threads of Sched.
use operating_systems_final.Prelude.{
  ℕ, suc, ◌%◌, ◌≡◌, refl, Option, none, some, List, [], ◌++◌, ◌==◌, if◌then◌else◌,
}
use operating_systems_final.Sched.{Sched, nthr, then_say, condition_broadcast, update}
use operating_systems_final.Sched.Queues.{IsSound}
use operating_systems_final.Sched.Exits.{condition_broadcast-wakes}

-- What the interrupt service routine writes to `interrupt_ack`, if it does, and the threads behind it;
-- `cond` is the condition `used_updated`.
unfoldable vioblk_isr : ℕ → ℕ → ℕ → Sched → Option (Option ℕ × Sched)
vioblk_isr k cond status s =
    let used = status % 2 in
    let rest = then_say (some used) (condition_broadcast k cond s) in
    if used == 0 then some (none, s) else rest

-- In a sound state, an interrupt for a used buffer is acknowledged, and all that wait for one are
-- ready; the thread that was interrupted runs on.
vioblk_isr-wakes :
    (cond status : ℕ) (s : Sched) (q : List ℕ) (w : ℕ → List ℕ)
    → IsSound s q w
    → status % 2 ≡ 1
    → (s' : Sched) × (vioblk_isr (suc nthr) cond status s ≡ some (some 1, s'))
      × IsSound s' (q ++ w cond) (update w cond [])
      × (s'.current ≡ s.current)
unfolding vioblk_isr
vioblk_isr-wakes cond status s q w sound used =
    let (s', e, sound', same) = condition_broadcast-wakes cond s q w sound in
    (s', rw (used, e) refl, sound', same)
