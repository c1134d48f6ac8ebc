-- ===== src/Sched/Steps.antt =====
-- What a thread of src/kern/thread.c can do to the table and the lists of threads, and that these
-- stay sound from thread_init on.
use mathlib.Core.Path.{subst}
use mathlib.Core.List.{append-nil}
use operating_systems_final.Prelude.{
  ℕ, suc, ◌<◌, ◌≡◌, refl, sym, ◌≢◌, ◌⊎◌, inl, inr, Option, none, some, List, [], ◌∷◌, ◌++◌, arith,
}
use operating_systems_final.Thread.{Next, empty_list, link, tlinsert}
use operating_systems_final.Sched.{
  Sched, nthr, main_tid, idle_tid, update, free_tid, static_threads, thread_init, thread_yield,
  condition_wait, condition_broadcast, thread_exit, thread_spawn, thread_fork_to_user,
  recycle_thread,
}
use operating_systems_final.Sched.Queues.{IsSound}
use operating_systems_final.Sched.Switch.{thread_yield-turn, thread_yield-none}
use operating_systems_final.Sched.Wakeup.{condition_wait-turn, condition_wait-none}
use operating_systems_final.Sched.Spawn.{thread_spawn-Core, thread_fork_to_user-Core}
use operating_systems_final.Sched.Exits.{
  condition_broadcast-wakes, thread_exit-turn, thread_exit-none, recycle_thread-IsSound,
}

-- The calls that give the processor to the next thread, where they do not panic.
pub data Switch (s s' : Sched) : Type 0 where
  yields : thread_yield s ≡ some s' → Switch s s'
  waits : (c : ℕ) → (c < nthr → c ≡ s.current) → condition_wait c s ≡ some s' → Switch s s'
  exits : s.current ≢ main_tid → thread_exit (suc nthr) s ≡ some s' → Switch s s'

-- The other calls that change the table or a list. The memory of a new struct thread is taken to be
-- cleared, which kmalloc does not ensure: its list of threads that wait is then empty.
pub data Keep (s s' : Sched) : Type 0 where
  wakes : (c : ℕ) → condition_broadcast (suc nthr) c s ≡ some s' → Keep s s'
  spawns : (t : ℕ) → thread_spawn empty_list s ≡ some (t, s') → Keep s s'
  forks : (t : ℕ) → thread_fork_to_user empty_list s ≡ some (t, s') → Keep s s'
  collects : (t : ℕ) → recycle_thread t s ≡ some s' → Keep s s'

-- The first of the threads that are ready, `more` of them just made so, runs; `late` join behind.
pub record Turn (s' : Sched) (q : List ℕ) : Type 0 where
  pub first : ℕ
  pub rest : List ℕ
  pub more : List ℕ
  pub late : List ℕ
  pub waits : ℕ → List ℕ
  pub split : q ++ more ≡ first ∷ rest
  pub sound : IsSound s' (rest ++ late) waits
  pub current : s'.current ≡ first

thread_yield-Turn :
    (s s' : Sched) (q : List ℕ) (w : ℕ → List ℕ)
    → IsSound s q w
    → thread_yield s ≡ some s'
    → Turn s' q
thread_yield-Turn s s' [] w sound e = let stuck = thread_yield-none s w sound in cc
thread_yield-Turn s s' (x ∷ rest) w sound e =
    let (s₁, e₁, sound₁, runs) = thread_yield-turn s x rest w sound in
    let same : s₁ ≡ s' = cc in
    record {
      first = x;
      rest = rest;
      more = [];
      late = s.current ∷ [];
      waits = w;
      split = append-nil (x ∷ rest);
      sound = subst (λ z. IsSound z (rest ++ (s.current ∷ [])) w) same sound₁;
      current = subst (λ z. z.current ≡ x) same runs;
    }

condition_wait-Turn :
    (s s' : Sched) (c : ℕ) (q : List ℕ) (w : ℕ → List ℕ)
    → IsSound s q w
    → (c < nthr → c ≡ s.current)
    → condition_wait c s ≡ some s'
    → Turn s' q
condition_wait-Turn s s' c [] w sound mine e =
    let stuck = condition_wait-none s c w sound mine in cc
condition_wait-Turn s s' c (x ∷ rest) w sound mine e =
    let (s₁, e₁, sound₁, runs) = condition_wait-turn s x c rest w sound mine in
    let same : s₁ ≡ s' = cc in
    let w' = update w c (w c ++ (s.current ∷ [])) in
    record {
      first = x;
      rest = rest;
      more = [];
      late = [];
      waits = w';
      split = append-nil (x ∷ rest);
      sound =
          subst (λ z. IsSound z (rest ++ []) w') same
            (subst (λ r. IsSound s₁ r w') (sym (append-nil rest)) sound₁);
      current = subst (λ z. z.current ≡ x) same runs;
    }

thread_exit-Turn :
    (s s' : Sched) (q r : List ℕ) (w : ℕ → List ℕ)
    → IsSound s q w
    → s.current ≢ main_tid
    → q ++ w (s.parent s.current) ≡ r
    → thread_exit (suc nthr) s ≡ some s'
    → Turn s' q
thread_exit-Turn s s' q [] w sound other nobody e =
    let stuck = thread_exit-none s q w sound other nobody in cc
thread_exit-Turn s s' q (x ∷ rest) w sound other split e =
    let (s₁, e₁, sound₁, runs, over) = thread_exit-turn s x q rest w sound other split in
    let same : s₁ ≡ s' = cc in
    let w' = update w (s.parent s.current) [] in
    record {
      first = x;
      rest = rest;
      more = w (s.parent s.current);
      late = [];
      waits = w';
      split = split;
      sound =
          subst (λ z. IsSound z (rest ++ []) w') same
            (subst (λ r. IsSound s₁ r w') (sym (append-nil rest)) sound₁);
      current = subst (λ z. z.current ≡ x) same runs;
    }

-- A call that gives the processor away gives it to the first of the threads that are ready.
pub Switch-Turn :
    (s s' : Sched) (q : List ℕ) (w : ℕ → List ℕ) → IsSound s q w → Switch s s' → Turn s' q
Switch-Turn s s' q w sound (yields e) = thread_yield-Turn s s' q w sound e
Switch-Turn s s' q w sound (waits c mine e) = condition_wait-Turn s s' c q w sound mine e
Switch-Turn s s' q w sound (exits other e) = thread_exit-Turn s s' q _ w sound other refl e

Option-cases {ℓ} : {A : Type ℓ} → (o : Option A) → (o ≡ none) ⊎ ((a : A) × (o ≡ some a))
Option-cases none = inl refl
Option-cases (some a) = inr (a, refl)

spawned :
    (s s' : Sched) (t : ℕ) (q : List ℕ) (w : ℕ → List ℕ)
    → IsSound s q w
    → thread_spawn empty_list s ≡ some (t, s')
    → (late : List ℕ) × (w' : ℕ → List ℕ) × IsSound s' (q ++ late) w'
unfolding thread_spawn
spawned s s' t q w sound e = elim (Option-cases (free_tid 15 1 s.thrtab)) [
  | inl full ↦ let stuck : thread_spawn empty_list s ≡ none = rw (full, thread_spawn) refl in cc
  | inr (u, found) ↦
      let (s₁, e₁, sound₁, runs, _) = thread_spawn-Core s q w u empty_list sound refl found in
      let same : s₁ ≡ s' = cc in
      (u ∷ [], update w u [], subst (λ z. IsSound z (q ++ (u ∷ [])) (update w u [])) same sound₁)
]

forked :
    (s s' : Sched) (t : ℕ) (q : List ℕ) (w : ℕ → List ℕ)
    → IsSound s q w
    → thread_fork_to_user empty_list s ≡ some (t, s')
    → (late : List ℕ) × (w' : ℕ → List ℕ) × IsSound s' (q ++ late) w'
unfolding thread_fork_to_user
forked s s' t q w sound e = elim (Option-cases (free_tid 15 1 s.thrtab)) [
  | inl full ↦
      let stuck : thread_fork_to_user empty_list s ≡ none = rw (full, thread_fork_to_user) refl in
      cc
  | inr (u, found) ↦
      let (s₁, e₁, sound₁, runs, _) =
        thread_fork_to_user-Core s q w u empty_list sound refl found in
      let same : s₁ ≡ s' = cc in
      (
        s.current ∷ [],
        update w u [],
        subst (λ z. IsSound z (q ++ (s.current ∷ [])) (update w u [])) same sound₁,
      )
]

-- The other calls leave the ready threads in their places.
pub Keep-IsSound :
    (s s' : Sched) (q : List ℕ) (w : ℕ → List ℕ)
    → IsSound s q w
    → Keep s s'
    → (late : List ℕ) × (w' : ℕ → List ℕ) × IsSound s' (q ++ late) w'
Keep-IsSound s s' q w sound (wakes c e) =
    let (s₁, e₁, sound₁, runs) = condition_broadcast-wakes c s q w sound in
    let same : s₁ ≡ s' = cc in
    (w c, update w c [], subst (λ z. IsSound z (q ++ w c) (update w c [])) same sound₁)
Keep-IsSound s s' q w sound (spawns t e) = spawned s s' t q w sound e
Keep-IsSound s s' q w sound (forks t e) = forked s s' t q w sound e
Keep-IsSound s s' q w sound (collects t e) = (
  [],
  w,
  subst (λ r. IsSound s' r w) (sym (append-nil q)) (recycle_thread-IsSound s s' t q w sound e).0,
)

-- `thread_init` leaves the main thread running and the idle thread ready.
pub boot :
    (next : Next) (s : Sched) → thread_init next ≡ some s → IsSound s (idle_tid ∷ []) (λ c. [])
unfolding thread_init tlinsert
boot next s e =
    let b : Sched = record (static_threads next) {
      ready_list = record { head = some idle_tid; tail = some idle_tid };
      next = link next idle_tid none;
    } in
    let e' : thread_init next ≡ some b = refl in
    let same : b ≡ s = cc in
    subst (λ z. IsSound z (idle_tid ∷ []) (λ c. [])) same
      (record {
        core = record {
          on_ready = record { chain = (refl, refl); tail = refl; distinct = (tt, tt) };
          on_wait = λ c. record { chain = refl; tail = refl; distinct = tt };
          are_ready = (refl, tt);
          are_waiting = λ c. tt;
          queued = λ t p. inl (ground arith);
          listed = λ t c p r. ground arith;
          own = λ t c p r d. ground arith;
          in_table = λ t p. ground arith;
          vacant = λ t p. ground arith;
        };
        runs = refl;
        single = λ t r. ground arith;
      })

-- The states that calls lead to from `thread_init` on.
pub data Reachable : Sched → Type 0 where
  boots : {s : Sched} → (next : Next) → thread_init next ≡ some s → Reachable s
  switches : {s s' : Sched} → Reachable s → Switch s s' → Reachable s'
  keeps : {s s' : Sched} → Reachable s → Keep s s' → Reachable s'

-- Where the memory of every struct thread that thread_spawn and thread_fork_to_user take from
-- kmalloc is cleared, which kmalloc does not ensure: in every state that the calls on threads
-- reach from thread_init on, one thread runs, the ready list holds the threads that are ready, each
-- once, and the list of every condition holds those that wait for it.
pub Reachable-IsSound : {s : Sched} → Reachable s → (q : List ℕ) × (w : ℕ → List ℕ) × IsSound s q w
Reachable-IsSound (boots {s} next e) = (idle_tid ∷ [], λ c. [], boot next s e)
Reachable-IsSound (switches {s} {s'} r step) =
    let (q, w, sound) = Reachable-IsSound r in
    let turn = Switch-Turn s s' q w sound step in (turn.rest ++ turn.late, turn.waits, turn.sound)
Reachable-IsSound (keeps {s} {s'} r step) =
    let (q, w, sound) = Reachable-IsSound r in
    let (late, w', sound') = Keep-IsSound s s' q w sound step in (q ++ late, w', sound')
