-- ===== src/Sched/Spawn.antt =====
-- New threads: thread_spawn and thread_fork_to_user of src/kern/thread.c.
use mathlib.Core.Path.{subst}
use operating_systems_final.Prelude.{
  ℕ, zero, suc, ◌+◌, ◌≤◌, ◌<◌, ◌≡◌, refl, sym, ap, ◌∙◌, ◌≢◌, inl, inr, Bool, true, false, some,
  List, [], ◌∷◌, ◌++◌, arith, ◌==◌, Bool-cases,
}
use operating_systems_final.Thread.{ThreadList, empty_list}
use operating_systems_final.Sched.{
  Sched, nthr, ThreadState, uninitialized, exited, running, waiting, ready, update, set_state,
  free_tid, thread_spawn, thread_fork_to_user,
}
use operating_systems_final.Sched.Queues.{Core, IsSound, set_state-Core, update_self, update_ne}
use operating_systems_final.Sched.Switch.{insert_ready-Core, used-state}

-- The slot that is found is free.
pub free_tid-free :
    (n tid t : ℕ) (used : ℕ → Bool)
    → free_tid n tid used ≡ some t
    → (used t ≡ false) × (tid ≤ t) × (t < tid + n)
unfolding free_tid
free_tid-free zero tid t used e = cc
free_tid-free (suc n) tid t used e = elim (Bool-cases (used tid)) [
  | inl busy ↦
      let skip : free_tid (suc n) tid used ≡ free_tid n (suc tid) used = rw busy refl in
      let (a, b, c) = free_tid-free n (suc tid) t used (sym skip ∙ e) in
      (a, omega arith, omega arith)
  | inr free ↦
      let here : free_tid (suc n) tid used ≡ some tid = rw free refl in
      let same : tid ≡ t = cc in (subst (λ z. used z ≡ false) same free, omega arith, omega arith)
]

-- The state of a thread in a free slot.
idle_slot :
    (s : Sched) (q : List ℕ) (w : ℕ → List ℕ) (t : ℕ) (a : ThreadState)
    → Core s q w
    → s.thrtab t ≡ false
    → (uninitialized ≡ a → ⊥)
    → (exited ≡ a → ⊥)
    → s.state t ≡ a
    → ⊥
idle_slot s q w t a k free d d' e = elim (k.vacant t free) [
  | inl u ↦ d (sym u ∙ e)
  | inr u ↦ d' (sym u ∙ e)
]

-- A slot that is taken, before its thread has a state.
take_slot :
    (s : Sched) (q : List ℕ) (w : ℕ → List ℕ) (t : ℕ) (found : ThreadList)
    → Core s q w
    → s.thrtab t ≡ false
    → t < nthr
    → found ≡ empty_list
    → Core
        (record s {
          thrtab = update s.thrtab t true;
          parent = update s.parent t s.current;
          wait_list = update s.wait_list t found;
        })
        q
        (update w t [])
take_slot s q w t found k free h blank = record {
  on_ready = k.on_ready;
  on_wait = λ d. elim (Bool-cases (d == t)) [
    | inl same ↦ rw (same, blank) (record { chain = refl; tail = refl; distinct = tt })
    | inr other ↦ rw other (k.on_wait d)
  ];
  are_ready = k.are_ready;
  are_waiting = λ d. elim (Bool-cases (d == t)) [
    | inl same ↦ rw same tt
    | inr other ↦ rw other (k.are_waiting d)
  ];
  queued = k.queued;
  listed = λ u d p r. elim (Bool-cases (d == t)) [
    | inl same ↦
        let mine : d ≡ t = ground arith in
        let owner = k.own u d p r (subst (λ z. z < nthr) (sym mine) h) in
        absurd (
          idle_slot s q w t waiting k free (λ b. cc) (λ b. cc)
            (subst (λ z. s.state z ≡ waiting) (sym owner ∙ mine) p))
    | inr other ↦ rw other (k.listed u d p r)
  ];
  own = k.own;
  in_table = λ u e. ground (arith, k.in_table u, h);
  vacant = λ u e. ground (arith, k.vacant u);
}

-- In a sound state with a free slot, a new thread stands at the end of the ready list, its parent is
-- the caller, which runs on, and nobody waits for its child_exit, where the memory of the new `struct
-- thread` holds an empty list there.
pub thread_spawn-Core :
    (s : Sched) (q : List ℕ) (w : ℕ → List ℕ) (t : ℕ) (found : ThreadList)
    → IsSound s q w
    → found ≡ empty_list
    → free_tid 15 1 s.thrtab ≡ some t
    → (s' : Sched) × (thread_spawn found s ≡ some (t, s'))
      × IsSound s' (q ++ (t ∷ [])) (update w t [])
      × (s'.current ≡ s.current)
      × (s'.parent t ≡ s.current)
unfolding thread_spawn
thread_spawn-Core s q w t found sound blank e =
    let k = sound.core in
    let (free, low, high) = free_tid-free 15 1 t s.thrtab e in
    let slot : Sched = record s {
      thrtab = update s.thrtab t true;
      parent = update s.parent t s.current;
      wait_list = update s.wait_list t found;
    } in
    let idle = idle_slot s q w t in
    let (l, next, put, core) =
      insert_ready-Core slot q (update w t []) t (take_slot s q w t found k free high blank)
        (idle ready k free (λ b. cc) (λ b. cc)) (idle waiting k free (λ b. cc) (λ b. cc))
        (update_self s.thrtab t true) in
    let other : s.current ≢ t =
      λ b. idle running k free (λ b. cc) (λ b. cc) (ap s.state (sym b) ∙ sound.runs) in
    (
      record (set_state t ready slot) { ready_list = l; next = next },
      rw (e, thread_spawn, put) refl,
      record {
        core = core;
        runs = update_ne s.state t s.current ready other ∙ sound.runs;
        single = λ u r. ground (arith, sound.single u);
      },
      refl,
      update_self s.parent t s.current,
    )

-- A fork runs the new thread at once, and its caller stands at the end of the ready list.
pub thread_fork_to_user-Core :
    (s : Sched) (q : List ℕ) (w : ℕ → List ℕ) (t : ℕ) (found : ThreadList)
    → IsSound s q w
    → found ≡ empty_list
    → free_tid 15 1 s.thrtab ≡ some t
    → (s' : Sched) × (thread_fork_to_user found s ≡ some (t, s'))
      × IsSound s' (q ++ (s.current ∷ [])) (update w t [])
      × (s'.current ≡ t)
      × (s'.parent t ≡ s.current)
unfolding thread_fork_to_user
thread_fork_to_user-Core s q w t found sound blank e =
    let k = sound.core in
    let (free, low, high) = free_tid-free 15 1 t s.thrtab e in
    let slot : Sched = record s {
      thrtab = update s.thrtab t true;
      parent = update s.parent t s.current;
      wait_list = update s.wait_list t found;
    } in
    let idle = idle_slot s q w t in
    let taken = take_slot s q w t found k free high blank in
    let begun =
      set_state-Core slot q (update w t []) t running taken (idle ready k free (λ b. cc) (λ b. cc))
        (idle waiting k free (λ b. cc) (λ b. cc)) (λ b. cc) (λ b. cc)
        (λ b. let bad : true ≡ false = sym (update_self s.thrtab t true) ∙ b in cc) in
    let other : s.current ≢ t =
      λ b. idle running k free (λ b. cc) (λ b. cc) (ap s.state (sym b) ∙ sound.runs) in
    let on : update s.state t running s.current ≡ running =
      update_ne s.state t s.current running other ∙ sound.runs in
    let (l, next, put, core) =
      insert_ready-Core (set_state t running slot) q (update w t []) s.current begun
        (λ b. let bad : running ≡ ready = sym on ∙ b in cc)
        (λ b. let bad : running ≡ waiting = sym on ∙ b in cc)
        (update_ne s.thrtab t s.current true other ∙ used-state s q w s.current k sound.runs) in
    (
      record (set_state s.current ready (set_state t running slot)) {
        ready_list = l;
        next = next;
        current = t;
      },
      rw (e, thread_fork_to_user, put) refl,
      record {
        core = record {
          on_ready = core.on_ready;
          on_wait = core.on_wait;
          are_ready = core.are_ready;
          are_waiting = core.are_waiting;
          queued = core.queued;
          listed = core.listed;
          own = core.own;
          in_table = core.in_table;
          vacant = core.vacant;
        };
        runs = ground (arith, other);
        single = λ u r. ground (arith, sound.single u);
      },
      refl,
      update_self s.parent t s.current,
    )
