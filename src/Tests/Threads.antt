-- ===== src/Tests/Threads.antt =====
-- The theorems of Sched at concrete states of the threads: the main thread, the idle thread and a
-- thread that main has spawned.
use operating_systems_final.Prelude.{
  ℕ, ◌<◌, ◌≡◌, refl, ap, ◌≢◌, ◌⊎◌, inl, inr, true, false, ◌||◌, Option, none, some, List, [], ◌∷◌,
  arith, ◌==◌, if◌then◌else◌, Bool-cases,
}
use operating_systems_final.Thread.{empty_list, tlinsert, tlremove, unlink_first}
use operating_systems_final.Sched.{
  Sched, nthr, update, uninitialized, running, waiting, ready, exited, thread_init, thread_yield,
  suspend_self, resume, switch_to, condition_wait, condition_broadcast, thread_exit, thread_spawn,
  entered, Lock, lock_loop, lock_acquire, free_tid,
}
use operating_systems_final.Sched.{thread_join, joined, refused, asleep}
use operating_systems_final.Sched.Joins.{is_child, Recycled, thread_join-IsSound}
use operating_systems_final.Sched.Queues.{IsSound}
use operating_systems_final.Sched.Wakeup.{condition_wait-turn}
use operating_systems_final.Sched.Spawn.{thread_spawn-Core}
use operating_systems_final.Sched.Exits.{condition_broadcast-wakes, thread_exit-turn}
use operating_systems_final.Sched.Steps.{yields, boots, Reachable-IsSound}
use operating_systems_final.Sched.Turns.{stay, switch, Run-starts}
use operating_systems_final.Sched.Locks.{
  World, begins, uses, acquires, inside, trying, outside, Used-exclusive,
}

abbrev nobody : ℕ → List ℕ
nobody c = []

-- Main runs, and the idle thread and thread 1 are ready.
abbrev three_threads : Sched
three_threads = record {
  thrtab = λ t. (t == 0 || t == 1) || t == 15;
  state = λ t. if t == 0 then running else if t == 1 || t == 15 then ready else uninitialized;
  parent = λ t. 0;
  wait_cond = λ t. none;
  next = λ t. if t == 15 then some 1 else none;
  ready_list = record { head = some 15; tail = some 1 };
  wait_list = λ c. empty_list;
  current = 0;
}

three_threads-IsSound : IsSound three_threads (15 ∷ 1 ∷ []) nobody
three_threads-IsSound = record {
  core = record {
    on_ready = record {
      chain = (refl, (refl, refl));
      tail = refl;
      distinct = ((λ e. omega arith, tt), (tt, tt));
    };
    on_wait = λ c. record { chain = refl; tail = refl; distinct = tt };
    are_ready = (refl, (refl, tt));
    are_waiting = λ c. tt;
    queued = λ t p. elim (Bool-cases (t == 15)) [
      | inl e ↦ inl (ground arith)
      | inr e ↦ inr (inl (ground arith))
    ];
    listed = λ t c p r. ground arith;
    own = λ t c p r d. ground arith;
    in_table = λ t p. ground arith;
    vacant = λ t p. ground arith;
  };
  runs = refl;
  single = λ t r. ground arith;
}

-- Thread 15, a child of main, runs, and main waits for the condition.
abbrev main_waits : ℕ → Sched
main_waits c = record {
  thrtab = λ t. t == 0 || t == 15;
  state = λ t. if t == 15 then running else if t == 0 then waiting else uninitialized;
  parent = λ t. 0;
  wait_cond = λ t. if t == 0 then some c else none;
  next = λ t. none;
  ready_list = empty_list;
  wait_list = λ d. if d == c then record { head = some 0; tail = some 0 } else empty_list;
  current = 15;
}

main_waits-IsSound :
    (c : ℕ) → (c < nthr → c ≡ 0) → IsSound (main_waits c) [] (update nobody c (0 ∷ []))
main_waits-IsSound c own = record {
  core = record {
    on_ready = record { chain = refl; tail = refl; distinct = tt };
    on_wait = λ d. elim (Bool-cases (d == c)) [
      | inl e ↦ rw e (record { chain = (refl, refl); tail = refl; distinct = (tt, tt) })
      | inr e ↦ rw e (record { chain = refl; tail = refl; distinct = tt })
    ];
    are_ready = tt;
    are_waiting = λ d. elim (Bool-cases (d == c)) [
      | inl e ↦ rw e (((refl, ap some (ground arith)), tt))
      | inr e ↦ rw e tt
    ];
    queued = λ t p. ground arith;
    listed = λ t d p r.
        let zero_waits : 0 ≡ t = ground arith in
        let same : (d == c) ≡ true = ground arith in rw same (inl zero_waits);
    own = λ t d p r b. ground (arith, own);
    in_table = λ t p. ground arith;
    vacant = λ t p. ground arith;
  };
  runs = refl;
  single = λ t r. ground arith;
}

condition_wait-turn_example :
    (s' : Sched) × (condition_wait 16 three_threads ≡ some s')
    × IsSound s' (1 ∷ []) (update nobody 16 (0 ∷ []))
    × (s'.current ≡ 15)
condition_wait-turn_example =
    condition_wait-turn three_threads 15 16 (1 ∷ []) nobody three_threads-IsSound (λ h. omega arith)

condition_broadcast-wakes_example :
    (s' : Sched) × (condition_broadcast 17 16 (main_waits 16) ≡ some s')
    × IsSound s' (0 ∷ []) (update (update nobody 16 (0 ∷ [])) 16 [])
    × (s'.current ≡ 15)
condition_broadcast-wakes_example =
    condition_broadcast-wakes 16 (main_waits 16) [] (update nobody 16 (0 ∷ []))
      (main_waits-IsSound 16 (λ h. omega arith))

thread_exit-turn_example :
    (s' : Sched) × (thread_exit 17 (main_waits 0) ≡ some s')
    × IsSound s' [] (update (update nobody 0 (0 ∷ [])) 0 [])
    × (s'.current ≡ 0)
    × (s'.state 15 ≡ exited)
thread_exit-turn_example =
    thread_exit-turn (main_waits 0) 0 [] [] (update nobody 0 (0 ∷ []))
      (main_waits-IsSound 0 (λ h. refl)) (λ e. omega arith) refl

thread_spawn-Core_example :
    (s' : Sched) × (thread_spawn empty_list three_threads ≡ some (2, s'))
    × IsSound s' (15 ∷ 1 ∷ 2 ∷ []) (update nobody 2 [])
    × (s'.current ≡ 0)
    × (s'.parent 2 ≡ 0)
unfolding free_tid
thread_spawn-Core_example =
    thread_spawn-Core three_threads (15 ∷ 1 ∷ []) nobody 2 empty_list three_threads-IsSound refl
      refl

-- The first two states that follow when all threads yield.
abbrev or_same : Sched → Option Sched → Sched
or_same s none = s
or_same s (some s') = s'

abbrev once : Sched
once = or_same three_threads (thread_yield three_threads)

abbrev twice : Sched
twice = or_same once (thread_yield once)

Run-starts_example : twice.current ≡ 1
unfolding thread_yield suspend_self resume switch_to tlremove unlink_first tlinsert
Run-starts_example =
    Run-starts 1 (15 ∷ []) [] nobody three_threads-IsSound
      (switch {s = three_threads} {s' = once} {s'' = once} (yields refl) stay) (yields refl)

Reachable-IsSound_example :
    (q : List ℕ) × (w : ℕ → List ℕ) × IsSound (or_same three_threads (thread_init (λ t. none))) q w
unfolding thread_init tlinsert
Reachable-IsSound_example = Reachable-IsSound (boots (λ t. none) refl)

abbrev free_lock : Lock
free_lock = record { cond = 16; tid = none }

abbrev held_lock : Lock
held_lock = record { cond = 16; tid = some 15 }

abbrev one_inside : World
one_inside = record {
  sched = three_threads;
  lock = record { cond = 16; tid = some 0 };
  phase = update (λ t. outside) 0 inside;
}

Used-exclusive_example : one_inside.sched.current ≡ 0
unfolding lock_acquire lock_loop
Used-exclusive_example =
    Used-exclusive {v = one_inside} 0 0
      (uses (begins three_threads free_lock refl) (
        acquires entered (record { cond = 16; tid = some 0 }) three_threads
          (λ e. let bad : outside ≡ trying = e in cc) refl))
      refl refl

-- Main runs, thread 1 is ready, and thread 15, a child of main, has exited.
abbrev one_over : Sched
one_over = record three_threads {
  state = λ t.
      if t == 0
      then running
      else if t == 1
      then ready
      else if t == 15
      then exited
      else uninitialized;
  next = λ t. none;
  ready_list = record { head = some 1; tail = some 1 };
}

one_over-IsSound : IsSound one_over (1 ∷ []) nobody
one_over-IsSound = record {
  core = record {
    on_ready = record { chain = (refl, refl); tail = refl; distinct = (tt, tt) };
    on_wait = λ c. record { chain = refl; tail = refl; distinct = tt };
    are_ready = (refl, tt);
    are_waiting = λ c. tt;
    queued = λ t p. inl (ground arith);
    listed = λ t c p r. ground arith;
    own = λ t c p r d. ground arith;
    in_table = λ t p. ground arith;
    vacant = λ t p. ground arith;
  };
  runs = refl;
  single = λ t r. ground arith;
}

thread_join-IsSound_example :
    ((is_child 15 one_over ≡ false) × (thread_join 15 one_over ≡ some (refused, one_over)))
    ⊎ ((s' : Sched) × (is_child 15 one_over ≡ true)
        × (((one_over.state 15 ≡ exited)
              × (thread_join 15 one_over ≡ some (joined 15, s'))
              × Recycled 15 one_over s'
              × IsSound s' (1 ∷ []) nobody)
            ⊎ ((one_over.state 15 ≢ exited)
                × (thread_join 15 one_over ≡ some (asleep, s'))
                × IsSound s' [] (update nobody 0 (0 ∷ []))
                × (s'.current ≡ 1))))
thread_join-IsSound_example = thread_join-IsSound one_over 15 1 [] nobody one_over-IsSound
