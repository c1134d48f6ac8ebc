-- ===== src/Sched/Locks.antt =====
-- The sleep lock of src/kern/lock.h, with threads that take and release it.
use operating_systems_final.Prelude.{
  ℕ, suc, ◌≤◌, ◌≡◌, refl, sym, ap, ◌∙◌, ◌≢◌, ◌⊎◌, inl, inr, true, false, Option, none, some, List,
  [], ◌∷◌, ◌++◌, arith, ◌==◌, Bool-cases, Option-cases,
}
use operating_systems_final.Sched.{
  Sched, nthr, update, Lock, Acquired, entered, sleeping, then_say_both, lock_loop, lock_acquire,
  lock_release, holds_lock, condition_wait,
}
use operating_systems_final.Sched.Queues.{IsSound}
use operating_systems_final.Sched.Wakeup.{condition_wait-turn}
use operating_systems_final.Sched.Exits.{condition_broadcast-wakes}
use operating_systems_final.Sched.Steps.{Switch, Keep}

-- A caller of `lock_acquire` has a free lock at once and runs on; it waits for one that is held,
-- behind those that wait already, and the first ready thread runs. The lock's condition is no
-- thread's child_exit.
pub lock_acquire-turn :
    (lk : Lock) (s : Sched) (x : ℕ) (rest : List ℕ) (w : ℕ → List ℕ)
    → IsSound s (x ∷ rest) w
    → nthr ≤ lk.cond
    → (lk.tid ≡ none → lock_acquire lk s ≡ some (entered, record lk { tid = some s.current }, s))
      × ((h : ℕ)
          → lk.tid ≡ some h
          → (s' : Sched) × (lock_acquire lk s ≡ some (sleeping, lk, s'))
            × IsSound s' rest (update w lk.cond (w lk.cond ++ (s.current ∷ [])))
            × (s'.current ≡ x))
unfolding lock_acquire lock_loop
lock_acquire-turn lk s x rest w sound private_cond = (
  λ e. rw e refl,
  λ h e.
      let (s', f, sound', runs) =
        condition_wait-turn s x lk.cond rest w sound (λ b. absurd (omega arith)) in
      (s', rw (e, f) refl, sound', runs),
)

holds_lock-true : (o : Option ℕ) (t : ℕ) → holds_lock o t ≡ true → o ≡ some t
holds_lock-true none t e = cc
holds_lock-true (some u) t e = ap some (ground arith)

holds_lock-false : (o : Option ℕ) (t : ℕ) → (o ≡ some t → ⊥) → holds_lock o t ≡ false
holds_lock-false o t d = elim (Bool-cases (holds_lock o t)) [
  | inl e ↦ absurd (d (holds_lock-true o t e))
  | inr e ↦ e
]

-- In a sound state, `lock_release` by the thread that holds the lock frees it and makes all that wait for it ready, in
-- the order in which they came; by any other thread it is a panic.
pub lock_release-wakes :
    (lk : Lock) (s : Sched) (q : List ℕ) (w : ℕ → List ℕ)
    → IsSound s q w
    → (lk.tid ≡ some s.current
        → (s' : Sched) × (lock_release (suc nthr) lk s ≡ some (record lk { tid = none }, s'))
          × IsSound s' (q ++ w lk.cond) (update w lk.cond [])
          × (s'.current ≡ s.current))
      × ((lk.tid ≡ some s.current → ⊥) → lock_release (suc nthr) lk s ≡ none)
unfolding lock_release
lock_release-wakes lk s q w sound = (
  λ e.
      let (s', f, sound', same) = condition_broadcast-wakes lk.cond s q w sound in
      let mine : (s.current == s.current) ≡ true = ground arith in
      (s', rw (e, mine, f) refl, sound', same),
  λ d. rw (holds_lock-false lk.tid s.current d) refl,
)

-- Where a thread is in its use of the lock.
pub data Phase : Type 0 where
  outside trying inside : Phase

pub record World : Type 0 where
  pub sched : Sched
  pub lock : Lock
  pub phase : ℕ → Phase

abbrev pub phase_after : Acquired → Phase
phase_after entered = inside
phase_after sleeping = trying

-- A thread is inside from the return of its `lock_acquire` to its `lock_release`; one that has gone to
-- sleep in `lock_acquire` tries, and when it runs it goes on in the loop there. Threads that do not
-- try do as they like between the calls of the lock.
pub data Use (v : World) : World → Type 0 where
  acquires :
      (a : Acquired) (lk : Lock) (s : Sched)
      → v.phase v.sched.current ≢ trying
      → lock_acquire v.lock v.sched ≡ some (a, lk, s)
      → Use v
          (record { sched = s; lock = lk; phase = update v.phase v.sched.current (phase_after a) })
  wakes_up :
      (a : Acquired) (lk : Lock) (s : Sched)
      → v.phase v.sched.current ≡ trying
      → lock_loop v.lock v.sched ≡ some (a, lk, s)
      → Use v
          (record { sched = s; lock = lk; phase = update v.phase v.sched.current (phase_after a) })
  releases :
      (lk : Lock) (s : Sched)
      → v.phase v.sched.current ≢ trying
      → lock_release (suc nthr) v.lock v.sched ≡ some (lk, s)
      → Use v (record { sched = s; lock = lk; phase = update v.phase v.sched.current outside })
  runs_on :
      (s : Sched)
      → v.phase v.sched.current ≢ trying
      → Switch v.sched s ⊎ Keep v.sched s
      → Use v (record v { sched = s })

pub data Used : World → Type 0 where
  begins :
      (s : Sched) (lk : Lock)
      → lk.tid ≡ none
      → Used (record { sched = s; lock = lk; phase = λ t. outside })
  uses : {v v' : World} → Used v → Use v v' → Used v'

abbrev Guarded : World → Type 0
Guarded v = (t : ℕ) → v.phase t ≡ inside → v.lock.tid ≡ some t

-- The loop with a lock that is held sleeps once.
loop_held :
    (lk : Lock) (s : Sched) (h : ℕ)
    → lk.tid ≡ some h
    → lock_loop lk s ≡ then_say_both sleeping lk (condition_wait lk.cond s)
unfolding lock_loop
loop_held lk s h e =
    ap
      (λ o. elim o [
        | none ↦ some (entered, record lk { tid = some s.current }, s)
        | some t ↦ then_say_both sleeping lk (condition_wait lk.cond s)
      ])
      e

-- The loop has the lock for its caller where it ends, and leaves it as it is where it sleeps.
taken :
    (lk lk' : Lock) (s s' : Sched)
    → lock_loop lk s ≡ some (entered, lk', s')
    → (lk.tid ≡ none) × (lk'.tid ≡ some s.current)
unfolding lock_loop
taken lk lk' s s' e = elim (Option-cases lk.tid) [
  | inl free ↦
      let step : lock_loop lk s ≡ some (entered, record lk { tid = some s.current }, s) =
        rw free refl in
      let same : record lk { tid = some s.current } ≡ lk' = cc in (free, ap (λ z. z.tid) (sym same))
  | inr (h, held) ↦ elim (Option-cases (condition_wait lk.cond s)) [
    | inl stuck ↦
        let step : lock_loop lk s ≡ none =
          loop_held lk s h held ∙ ap (then_say_both sleeping lk) stuck in
        cc
    | inr (u, asleep) ↦
        let step : lock_loop lk s ≡ some (sleeping, lk, u) =
          loop_held lk s h held ∙ ap (then_say_both sleeping lk) asleep in
        let bad : sleeping ≡ entered = cc in cc
  ]
]

left_alone : (lk lk' : Lock) (s s' : Sched) → lock_loop lk s ≡ some (sleeping, lk', s') → lk ≡ lk'
unfolding lock_loop
left_alone lk lk' s s' e = elim (Option-cases lk.tid) [
  | inl free ↦
      let step : lock_loop lk s ≡ some (entered, record lk { tid = some s.current }, s) =
        rw free refl in
      let bad : entered ≡ sleeping = cc in cc
  | inr (h, held) ↦ elim (Option-cases (condition_wait lk.cond s)) [
    | inl stuck ↦
        let step : lock_loop lk s ≡ none =
          loop_held lk s h held ∙ ap (then_say_both sleeping lk) stuck in
        cc
    | inr (u, asleep) ↦
        let step : lock_loop lk s ≡ some (sleeping, lk, u) =
          loop_held lk s h held ∙ ap (then_say_both sleeping lk) asleep in
        cc
  ]
]

released :
    (lk lk' : Lock) (s s' : Sched)
    → lock_release (suc nthr) lk s ≡ some (lk', s')
    → lk.tid ≡ some s.current
unfolding lock_release
released lk lk' s s' e = elim (Bool-cases (holds_lock lk.tid s.current)) [
  | inl h ↦ holds_lock-true lk.tid s.current h
  | inr h ↦ let stuck : lock_release (suc nthr) lk s ≡ none = rw (h, lock_release) refl in cc
]

loop-Guarded :
    (v : World) (a : Acquired) (lk : Lock) (s : Sched) (t : ℕ)
    → Guarded v
    → lock_loop v.lock v.sched ≡ some (a, lk, s)
    → update v.phase v.sched.current (phase_after a) t ≡ inside
    → lk.tid ≡ some t
loop-Guarded v entered lk s t g e p = elim (Bool-cases (t == v.sched.current)) [
  | inl me ↦ (taken v.lock lk v.sched s e).1 ∙ ap some (ground arith)
  | inr other ↦
      let before : v.phase t ≡ inside = ground arith in
      let free = (taken v.lock lk v.sched s e).0 in
      let held = g t before in let bad : none ≡ some t = sym free ∙ held in cc
]
loop-Guarded v sleeping lk s t g e p = elim (Bool-cases (t == v.sched.current)) [
  | inl me ↦ let bad : trying ≡ inside = ground arith in cc
  | inr other ↦
      let before : v.phase t ≡ inside = ground arith in
      ap (λ z. z.tid) (sym (left_alone v.lock lk v.sched s e)) ∙ g t before
]

Use-Guarded : {v v' : World} → Guarded v → Use v v' → Guarded v'
unfolding lock_acquire
Use-Guarded {v} g (acquires a lk s idle e) t p = loop-Guarded v a lk s t g e p
Use-Guarded {v} g (wakes_up a lk s busy e) t p = loop-Guarded v a lk s t g e p
Use-Guarded {v} g (releases lk s idle e) t p =
    let held = released v.lock lk v.sched s e in
    elim (Bool-cases (t == v.sched.current)) [
      | inl me ↦ let bad : outside ≡ inside = ground arith in cc
      | inr other ↦
          let before : some v.sched.current ≡ some t = sym held ∙ g t (ground arith) in
          let same : v.sched.current ≡ t = cc in ground arith
    ]
Use-Guarded {v} g (runs_on s idle step) t p = g t p

Used-Guarded : {v : World} → Used v → Guarded v
Used-Guarded (begins s lk e) t p = cc
Used-Guarded (uses r step) t p = Use-Guarded (Used-Guarded r) step t p

-- In every state that threads reach which take and release a lock from its free state on, no two
-- threads are at a time between the return of their lock_acquire and their lock_release, where a
-- thread that has slept in lock_acquire goes on with its loop there.
pub Used-exclusive :
    {v : World} (t u : ℕ) → Used v → v.phase t ≡ inside → v.phase u ≡ inside → t ≡ u
Used-exclusive t u v p r = let g = Used-Guarded v in let left = g t p in let right = g u r in cc
