-- ===== src/Sched/Exits.antt =====
-- The end of a thread: condition_broadcast while a thread runs, thread_exit, recycle_thread and the
-- loop of thread_join in src/kern/thread.c.
use mathlib.Core.Path.{subst}
use operating_systems_final.Prelude.{
  ℕ, suc, ◌≡◌, refl, sym, ap, ◌∙◌, ◌≢◌, inl, inr, Bool, true, false, ◌&&◌, none, some, List, [],
  ◌∷◌, ◌++◌, arith, ltb, ◌==◌, if◌then◌else◌, Bool-cases,
}
use operating_systems_final.Thread.Chains.{Holds}
use operating_systems_final.Sched.{
  Sched, nthr, main_tid, ThreadState, uninitialized, stopped, exited, running, waiting, ready,
  update, set_state, is_exited, condition_broadcast, thread_exit, recycle_thread,
}
use operating_systems_final.Sched.Queues.{
  Core, IsSound, All-In, In-right, set_state-Core, update_self, update_ne,
}
use operating_systems_final.Sched.Marks.{In-cases}
use operating_systems_final.Sched.Switch.{suspend_self-blocked, suspend_self-none}
use operating_systems_final.Sched.Wakeup.{unlisted_wait}
use operating_systems_final.Sched.Broadcast.{Woken, condition_broadcast-Woken}
use operating_systems_final.Sched.Room.{waits-bound}

-- A broadcast starts no thread.
Woken-running :
    (c u : ℕ) (s s' : Sched) (q : List ℕ) (w : ℕ → List ℕ)
    → Woken c s s' q w
    → s'.state u ≡ running
    → s.state u ≡ running
Woken-running c u s s' q w woken r = elim (In-cases u (w c)) [
  | inl i ↦
      let awake =
        All-In (λ v. s'.state v ≡ ready) (q ++ w c) u woken.core.are_ready (In-right u q (w c) i) in
      let bad : ready ≡ running = sym awake ∙ r in cc
  | inr a ↦ sym (woken.others u a) ∙ r
]

-- In a sound state, the running thread makes all that wait for a condition ready, in the order in which they came and
-- behind those that were ready, and runs on; no thread waits for the condition then. The table is
-- large enough for any list.
pub condition_broadcast-wakes :
    (c : ℕ) (s : Sched) (q : List ℕ) (w : ℕ → List ℕ)
    → IsSound s q w
    → (s' : Sched) × (condition_broadcast (suc nthr) c s ≡ some s')
      × IsSound s' (q ++ w c) (update w c [])
      × (s'.current ≡ s.current)
condition_broadcast-wakes c s q w sound =
    let room = waits-bound s q w c sound.core in
    let (s', e, woken) = condition_broadcast-Woken (suc nthr) c s q w sound.core (omega arith) in
    let away = unlisted_wait s q w c s.current sound.core sound.runs in
    (
      s',
      e,
      record {
        core = woken.core;
        runs = ap s'.state woken.current ∙ woken.others s.current away ∙ sound.runs;
        single = λ u r. sound.single u (Woken-running c u s s' q w woken r) ∙ sym woken.current;
      },
      woken.current,
    )

exit_broadcast :
    (s : Sched) (q : List ℕ) (w : ℕ → List ℕ)
    → IsSound s q w
    → let p = s.parent s.current in
      let over = set_state s.current exited s in
      (s₂ : Sched) × (condition_broadcast (suc nthr) p over ≡ some s₂) × Woken p over s₂ q w
exit_broadcast s q w sound =
    let t = s.current in
    let p = s.parent t in
    let over = set_state t exited s in
    let run = sound.runs in
    let core =
      set_state-Core s q w t exited sound.core (λ b. let bad : running ≡ ready = sym run ∙ b in cc)
        (λ b. let bad : running ≡ waiting = sym run ∙ b in cc) (λ b. cc) (λ b. cc)
        (λ b. inr refl) in
    let room = waits-bound over q w p core in
    condition_broadcast-Woken (suc nthr) p over q w core (omega arith)

-- With no thread to run, an exit is a panic.
pub thread_exit-none :
    (s : Sched) (q : List ℕ) (w : ℕ → List ℕ)
    → IsSound s q w
    → s.current ≢ main_tid
    → q ++ w (s.parent s.current) ≡ []
    → thread_exit (suc nthr) s ≡ none
unfolding thread_exit
thread_exit-none s q w sound other_than nobody =
    let not_main : (s.current == main_tid) ≡ false = ground (arith, other_than) in
    let (s₂, e₂, woken) = exit_broadcast s q w sound in
    let stuck =
      suspend_self-none s₂
        (subst (λ v. Holds s₂.next s₂.ready_list v) nobody woken.core.on_ready) in
    rw (not_main, e₂, thread_exit, stuck) refl

-- In a sound state, a thread that is not the main one and exits makes its parent ready if that waits
-- for it; the first of the ready threads runs, if there is one, and the thread stays exited.
pub thread_exit-turn :
    (s : Sched) (x : ℕ) (q rest : List ℕ) (w : ℕ → List ℕ)
    → IsSound s q w
    → s.current ≢ main_tid
    → q ++ w (s.parent s.current) ≡ x ∷ rest
    → (s' : Sched) × (thread_exit (suc nthr) s ≡ some s')
      × IsSound s' rest (update w (s.parent s.current) [])
      × (s'.current ≡ x)
      × (s'.state s.current ≡ exited)
unfolding thread_exit
thread_exit-turn s x q rest w sound other_than split =
    let not_main : (s.current == main_tid) ≡ false = ground (arith, other_than) in
    let t = s.current in
    let p = s.parent t in
    let over = set_state t exited s in
    let run = sound.runs in
    let (s₂, e₂, woken) = exit_broadcast s q w sound in
    let away = unlisted_wait s q w p t sound.core run in
    let stopped_t : s₂.state t ≡ exited = woken.others t away ∙ update_self s.state t exited in
    let stopped_current : s₂.state s₂.current ≡ exited = ap s₂.state woken.current ∙ stopped_t in
    let alone : (u : ℕ) → s₂.state u ≡ running → u ≡ s₂.current = λ u r.
      let before = Woken-running p u over s₂ q w woken r in
      let was : s.state u ≡ running = ground arith in sound.single u was ∙ sym woken.current in
    let core₂ = subst (λ v. Core s₂ v (update w p [])) split woken.core in
    let (s', e, sound', runs, st) =
      suspend_self-blocked s₂ x rest (update w p []) core₂
        (λ b. let bad : exited ≡ running = sym stopped_current ∙ b in cc)
        (λ b. let bad : exited ≡ ready = sym stopped_current ∙ b in cc) alone in
    let other : t ≢ x =
      λ b. let bad : exited ≡ ready = sym stopped_t ∙ ap s₂.state b ∙ core₂.are_ready.0 in cc in
    (
      s',
      rw (not_main, e₂, thread_exit, e) refl,
      sound',
      runs,
      ap (λ f. f t) st ∙ update_ne s₂.state x t running other ∙ stopped_t,
    )

-- The table behind `recycle_thread`.
abbrev pub recycled : ℕ → Sched → Sched
recycled tid s = record s {
  thrtab = update s.thrtab tid false;
  parent = λ t.
      if (ltb 0 t && ltb t nthr) && (s.thrtab t && (s.parent t == tid))
      then s.parent tid
      else s.parent t;
}

recycled-IsSound :
    (s : Sched) (tid : ℕ) (q : List ℕ) (w : ℕ → List ℕ)
    → IsSound s q w
    → s.state tid ≡ exited
    → IsSound (recycled tid s) q w
recycled-IsSound s tid q w sound over =
    let k = sound.core in
    record {
      core = record {
        on_ready = k.on_ready;
        on_wait = k.on_wait;
        are_ready = k.are_ready;
        are_waiting = k.are_waiting;
        queued = k.queued;
        listed = k.listed;
        own = k.own;
        in_table = λ u e. ground (arith, k.in_table u);
        vacant = λ u e. ground (arith, k.vacant u, over);
      };
      runs = sound.runs;
      single = sound.single;
    }

pub is_exited-true : (a : ThreadState) → is_exited a ≡ true → a ≡ exited
is_exited-true exited e = refl
is_exited-true uninitialized e = cc
is_exited-true stopped e = cc
is_exited-true waiting e = cc
is_exited-true running e = cc
is_exited-true ready e = cc

both_true : (a b : Bool) → a && b ≡ true → (a ≡ true) × (b ≡ true)
both_true true true e = (refl, refl)
both_true true false e = cc
both_true false b e = cc

-- An exited thread's slot is given back to the table.
pub recycle_thread-IsSound :
    (s s' : Sched) (tid : ℕ) (q : List ℕ) (w : ℕ → List ℕ)
    → IsSound s q w
    → recycle_thread tid s ≡ some s'
    → IsSound s' q w × (s'.current ≡ s.current)
unfolding recycle_thread
recycle_thread-IsSound s s' tid q w sound e =
    let test = (ltb 0 tid && ltb tid nthr) && (s.thrtab tid && is_exited (s.state tid)) in
    elim (Bool-cases test) [
      | inl ok ↦
          let (_, used_and_over) = both_true (ltb 0 tid && ltb tid nthr) _ ok in
          let over = is_exited-true (s.state tid) ((both_true (s.thrtab tid) _ used_and_over).1) in
          let done : recycle_thread tid s ≡ some (recycled tid s) = rw (ok, recycle_thread) refl in
          let same : recycled tid s ≡ s' = cc in
          (
            subst (λ z. IsSound z q w) same (recycled-IsSound s tid q w sound over),
            ap (λ z. z.current) (sym same),
          )
      | inr bad ↦ let stuck : recycle_thread tid s ≡ none = rw (bad, recycle_thread) refl in cc
    ]
