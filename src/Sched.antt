-- ===== src/Sched.antt =====
-- The threads of src/kern/thread.c and the sleep lock of src/kern/lock.h. A thread is named by its
-- id, and so is its `struct thread`; condition number t is the `child_exit` of thread t, and those
-- from 16 on are all others. A function that can put its caller to sleep is modelled up to the
-- switch to the next thread; `current` is the thread that runs then. `none`: the kernel panics.
pub mod Broadcast
pub mod Exits
pub mod Joins
pub mod Locks
pub mod Marks
pub mod Queues
pub mod Room
pub mod Spawn
pub mod Steps
pub mod Switch
pub mod Turns
pub mod Wakeup
use mathlib.Core.Option
use operating_systems_final.Prelude.{
  ℕ, zero, suc, Bool, true, false, not, ◌&&◌, ◌||◌, Option, none, some, ltb, leb, ◌==◌,
  if◌then◌else◌,
}
use operating_systems_final.Thread.{
  Next, ThreadList, empty_list, link, tlclear, tlempty, tlinsert, tlremove, tlappend,
}

abbrev pub nthr : ℕ
nthr = 16

abbrev pub main_tid : ℕ
main_tid = 0

-- `enum thread_state`
pub data ThreadState : Type 0 where
  uninitialized stopped waiting running ready exited : ThreadState

pub record Sched : Type 0 where
  pub thrtab : ℕ → Bool
  pub state : ℕ → ThreadState
  pub parent : ℕ → ℕ
  pub wait_cond : ℕ → Option ℕ
  pub next : Next
  pub ready_list : ThreadList
  pub wait_list : ℕ → ThreadList
  pub current : ℕ

abbrev pub update {ℓ} : {A : Type ℓ} → (ℕ → A) → ℕ → A → ℕ → A
update f t v u = if u == t then v else f u

abbrev pub is_running : ThreadState → Bool
is_running running = true
is_running _ = false

abbrev pub is_ready : ThreadState → Bool
is_ready ready = true
is_ready _ = false

abbrev pub is_exited : ThreadState → Bool
is_exited exited = true
is_exited _ = false

-- Whether a waiting thread waits for the condition: the two assertions of `condition_broadcast`.
abbrev pub waits_for : ℕ → ThreadState → Option ℕ → Bool
waits_for c waiting (some d) = d == c
waits_for c _ _ = false

abbrev pub set_state : ℕ → ThreadState → Sched → Sched
set_state t v s = record s { state = update s.state t v }

-- `tlinsert(&ready_list, thr)`
abbrev pub insert_ready : ℕ → Sched → Option Sched
insert_ready t s = elim (tlinsert t s.ready_list s.next) [
  | none ↦ none
  | some (l, next) ↦ some (record s { ready_list = l; next = next })
]

-- The end of `suspend_self`: the next thread has been taken from the ready list, and its state is
-- looked at before the caller's.
unfoldable pub switch_to : ℕ → Sched → Option Sched
switch_to t s =
    let s₁ = set_state t running s in
    if not (is_ready (s.state t))
    then none
    else if is_running (s₁.state s.current)
    then (elim (insert_ready s.current (set_state s.current ready s₁)) [
      | none ↦ none
      | some s₂ ↦ some (record s₂ { current = t })
    ])
    else some (record s₁ { current = t })

-- What `suspend_self` does with the thread that `tlremove` gives.
unfoldable pub resume : Option ℕ × ThreadList × Next → Sched → Option Sched
resume (none, l, next) s = none
resume (some t, l, next) s = switch_to t (record s { ready_list = l; next = next })

unfoldable pub suspend_self : Sched → Option Sched
suspend_self s = resume (tlremove s.ready_list s.next) s

unfoldable pub thread_yield : Sched → Option Sched
thread_yield s = if is_running (s.state s.current) then suspend_self s else none

-- `condition_wait` up to its call of `suspend_self`.
unfoldable pub join_wait_list : ℕ → Sched → Option Sched
join_wait_list c s =
    let t = s.current in
    elim (tlinsert t (s.wait_list c) (link s.next t none)) [
      | none ↦ none
      | some (l, next) ↦ some (record s {
        state = update s.state t waiting;
        wait_cond = update s.wait_cond t (some c);
        wait_list = update s.wait_list c l;
        next = next;
      })
    ]

unfoldable pub condition_wait : ℕ → Sched → Option Sched
condition_wait c s =
    if not (is_running (s.state s.current))
    then none
    else (elim (join_wait_list c s) [ none ↦ none | some s' ↦ suspend_self s' ])

-- The loop of `condition_broadcast` from the thread `thr` on; it walks at most `k` links.
unfoldable pub mark_ready : ℕ → ℕ → Option ℕ → Sched → Option Sched
mark_ready zero c thr s = none
mark_ready (suc k) c none s = some s
mark_ready (suc k) c (some t) s =
    let rest =
      mark_ready k c (s.next t)
        (record s { state = update s.state t ready; wait_cond = update s.wait_cond t none }) in
    if waits_for c (s.state t) (s.wait_cond t) then rest else none

-- `tlappend` and `tlclear` behind the loop.
unfoldable pub append_waiting : ℕ → Sched → Option Sched
append_waiting c s = elim (tlappend s.ready_list (s.wait_list c) s.next) [
  | none ↦ none
  | some (l₀, l₁, next) ↦
      some
        (record s { ready_list = l₀; wait_list = update s.wait_list c (tlclear l₁); next = next })
]

unfoldable pub condition_broadcast : ℕ → ℕ → Sched → Option Sched
condition_broadcast k c s =
    if tlempty (s.wait_list c) then some s else (elim (mark_ready k c (s.wait_list c).head s) [
      | none ↦ none
      | some s' ↦ append_waiting c s'
    ])

-- `none` also for the halt when the main thread exits.
unfoldable pub thread_exit : ℕ → Sched → Option Sched
thread_exit k s =
    let told = condition_broadcast k (s.parent s.current) (set_state s.current exited s) in
    if s.current == main_tid then none else (elim told [ none ↦ none | some s' ↦ suspend_self s' ])

abbrev pub idle_tid : ℕ
idle_tid = 15

-- The static tables, with the links that are found.
abbrev pub static_threads : Next → Sched
static_threads next = record {
  thrtab = λ t. t == main_tid || t == idle_tid;
  state = λ t. if t == main_tid then running else if t == idle_tid then ready else uninitialized;
  parent = λ t. main_tid;
  wait_cond = λ t. none;
  next = next;
  ready_list = empty_list;
  wait_list = λ c. empty_list;
  current = main_tid;
}

-- `thread_init`, with `init_idle_thread`
unfoldable pub thread_init : Next → Option Sched
thread_init next = insert_ready idle_tid (static_threads next)

-- One pass of the loop in `idle_thread_func`, which sleeps when no other thread is ready.
unfoldable pub idle_pass : Sched → Option Sched
idle_pass s = if tlempty s.ready_list then some s else thread_yield s

-- The search for a free slot of `thrtab` from `tid` on, over `n` slots.
unfoldable pub free_tid : ℕ → ℕ → (ℕ → Bool) → Option ℕ
free_tid zero tid used = none
free_tid (suc n) tid used =
    let rest = free_tid n (suc tid) used in if used tid then rest else some tid

-- `thread_spawn`: the id of the new thread, which stands at the end of the ready list. Nothing sets
-- its `child_exit`, so that the list of this condition is what the memory held, `found`.
unfoldable pub thread_spawn : ThreadList → Sched → Option (ℕ × Sched)
thread_spawn found s = elim (free_tid 15 1 s.thrtab) [
  | none ↦ none
  | some tid ↦
      elim (insert_ready tid (record s {
        thrtab = update s.thrtab tid true;
        state = update s.state tid ready;
        parent = update s.parent tid s.current;
        wait_list = update s.wait_list tid found;
      })) [ none ↦ none | some s' ↦ some (tid, s') ]
]

-- `thread_fork_to_user`, up to its switch to the child, which runs at once.
unfoldable pub thread_fork_to_user : ThreadList → Sched → Option (ℕ × Sched)
thread_fork_to_user found s = elim (free_tid 15 1 s.thrtab) [
  | none ↦ none
  | some tid ↦
      elim (insert_ready s.current (record s {
        thrtab = update s.thrtab tid true;
        state = update (update s.state tid running) s.current ready;
        parent = update s.parent tid s.current;
        wait_list = update s.wait_list tid found;
      })) [ none ↦ none | some s' ↦ some (tid, record s' { current = tid }) ]
]

-- `recycle_thread`: the slot is free, and the thread's children are its parent's.
unfoldable pub recycle_thread : ℕ → Sched → Option Sched
recycle_thread tid s =
    if (ltb 0 tid && ltb tid nthr) && (s.thrtab tid && is_exited (s.state tid))
    then some (record s {
      thrtab = update s.thrtab tid false;
      parent = λ t.
          if (ltb 0 t && ltb t nthr) && (s.thrtab t && (s.parent t == tid))
          then s.parent tid
          else s.parent t;
    })
    else none

-- What a call of `thread_join` does until it ends or goes to sleep.
pub data Joined : Type 0 where
  joined : ℕ → Joined
  refused : Joined
  asleep : Joined

abbrev pub then_say {ℓ} : {A : Type ℓ} → A → Option Sched → Option (A × Sched)
then_say a none = none
then_say a (some s) = some (a, s)

abbrev pub then_say_both {ℓ} : {A B : Type ℓ} → A → B → Option Sched → Option (A × B × Sched)
then_say_both a b none = none
then_say_both a b (some s) = some (a, b, s)

-- The loop of `thread_join`, at its test.
unfoldable pub await_child : ℕ → Sched → Option (Joined × Sched)
await_child tid s =
    if is_exited (s.state tid)
    then then_say (joined tid) (recycle_thread tid s)
    else then_say asleep (condition_wait s.current s)

-- `thread_join` up to its end or its first sleep, behind which `await_child` goes on.
unfoldable pub thread_join : ℕ → Sched → Option (Joined × Sched)
thread_join tid s =
    if tid == 0 || leb nthr tid
    then some (refused, s)
    else if not (s.thrtab tid && (s.parent tid == s.current))
    then some (refused, s)
    else await_child tid s

-- The search of `thread_join_any` from `tid` on, over `n` slots: an exited child, or how many
-- children there are.
unfoldable pub find_exited : ℕ → ℕ → ℕ → Sched → Option ℕ × ℕ
find_exited zero tid count s = (none, count)
find_exited (suc n) tid count s =
    let is_child = s.thrtab tid && (s.parent tid == s.current) in
    let rest = find_exited n (suc tid) (if is_child then suc count else count) s in
    if is_child && is_exited (s.state tid) then (some tid, count) else rest

-- `thread_join_any` up to its end or its sleep.
unfoldable pub thread_join_any : Sched → Option (Joined × Sched)
thread_join_any s =
    let (found, count) = find_exited 15 1 0 s in
    elim found [
      | some tid ↦ thread_join tid s
      | none ↦ if count == 0 then none else then_say asleep (condition_wait s.current s)
    ]

-- `thread_join_any` behind its sleep; `none` also for the panic on a spurious signal.
unfoldable pub collect_child : Sched → Option (ℕ × Sched)
collect_child s = elim ((find_exited 15 1 0 s).0) [
  | none ↦ none
  | some tid ↦ then_say tid (recycle_thread tid s)
]

-- `struct lock`, with the number of its condition; `none` for the thread id -1.
pub record Lock : Type 0 where
  pub cond : ℕ
  pub tid : Option ℕ

-- How far a thread gets in `lock_acquire`: the call returns, or the thread sleeps in its loop.
pub data Acquired : Type 0 where
  entered : Acquired
  sleeping : Acquired

-- The loop of `lock_acquire` from its test on, to which a thread that wakes up in it comes back.
unfoldable pub lock_loop : Lock → Sched → Option (Acquired × Lock × Sched)
lock_loop lk s = elim lk.tid [
  | none ↦ some (entered, record lk { tid = some s.current }, s)
  | some t ↦ then_say_both sleeping lk (condition_wait lk.cond s)
]

unfoldable pub lock_acquire : Lock → Sched → Option (Acquired × Lock × Sched)
lock_acquire lk s = lock_loop lk s

abbrev pub holds_lock : Option ℕ → ℕ → Bool
holds_lock none t = false
holds_lock (some u) t = u == t

unfoldable pub lock_release : ℕ → Lock → Sched → Option (Lock × Sched)
lock_release k lk s =
    if not (holds_lock lk.tid s.current)
    then none
    else then_say (record lk { tid = none }) (condition_broadcast k lk.cond s)
