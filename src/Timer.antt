-- ===== src/Timer.antt =====
-- The alarms of src/kern/timer.c. The `sleep_list` of alarms linked by their `next` fields is the
-- list of those alarms; a call reads the clock (`get_mtime`) through an argument, and the comparator
-- that `set_mtcmp` writes is a field of the state.
pub mod Insert
pub mod Wake
use operating_systems_final.Prelude.{
  ℕ, ◌+◌, ◌-◌, ◌/◌, ◌^◌, Bool, true, false, ◌&&◌, List, [], ◌∷◌, ltb, leb, if◌then◌else◌, add64,
}

-- `struct alarm`; its condition variable is named by a number.
pub record Alarm : Type 0 where
  pub cond : ℕ
  pub twake : ℕ

pub record Timer : Type 0 where
  pub sleep_list : List Alarm
  pub next_tick : ℕ
  pub mtcmp : ℕ

abbrev pub uint64_max : ℕ
uint64_max = 2 ^ 64 - 1

-- TIMER_FREQ / TICK_FREQ
abbrev pub tick_period : ℕ
tick_period = 10_000_000 / 50

-- `timer_init`: the variable `next_tick` keeps its static initial value.
unfoldable pub timer_init : Timer → Timer
timer_init t = record t { mtcmp = tick_period }

unfoldable pub alarm_init : ℕ → ℕ → Alarm
alarm_init now cond = record { cond = cond; twake = now }

unfoldable pub alarm_reset : ℕ → Alarm → Alarm
alarm_reset now al = record al { twake = now }

-- The wake-up time `tcnt` ticks on, held at UINT64_MAX where the sum would wrap.
unfoldable pub wake_time : ℕ → ℕ → ℕ
wake_time twake tcnt = if ltb (uint64_max - twake) tcnt then uint64_max else twake + tcnt

-- The loop of `alarm_sleep` behind its variable `prev`.
unfoldable pub insert_after : Alarm → List Alarm → List Alarm
insert_after al [] = al ∷ []
insert_after al (n ∷ rest) =
    let walked = insert_after al rest in if leb al.twake n.twake then al ∷ n ∷ rest else n ∷ walked

-- Whether `alarm_sleep` puts the alarm at the head.
unfoldable pub goes_first : Alarm → List Alarm → Bool
goes_first al [] = true
goes_first al (h ∷ t) = leb al.twake h.twake

unfoldable pub insert_alarm : Alarm → List Alarm → List Alarm
insert_alarm al [] = al ∷ []
insert_alarm al (h ∷ t) = if leb al.twake h.twake then al ∷ h ∷ t else h ∷ insert_after al t

-- What `alarm_sleep` does up to the wait: the alarm with its new time, the timer, and whether the
-- caller goes to sleep on the alarm's condition.
unfoldable pub alarm_sleep : ℕ → Alarm → ℕ → Timer → Alarm × Timer × Bool
alarm_sleep now al tcnt t =
    let al' = record al { twake = wake_time al.twake tcnt } in
    let first = goes_first al' t.sleep_list in
    if ltb al'.twake now then (al', t, false) else (
      al',
      record t {
        sleep_list = insert_alarm al' t.sleep_list;
        mtcmp = if first && ltb al'.twake t.next_tick then al'.twake else t.mtcmp;
      },
      true,
    )

-- The loop of `timer_intr_handler`: the conditions it broadcasts in order, and the list left.
unfoldable pub wake_loop : ℕ → List Alarm → List ℕ × List Alarm
wake_loop now [] = ([], [])
wake_loop now (h ∷ t) =
    let rest = wake_loop now t in if leb h.twake now then (h.cond ∷ rest.0, rest.1) else ([], h ∷ t)

-- The comparator value that `timer_intr_handler` programs.
unfoldable pub next_mtcmp : List Alarm → ℕ → ℕ
next_mtcmp [] next_tick = next_tick
next_mtcmp (h ∷ t) next_tick = if ltb h.twake next_tick then h.twake else next_tick

unfoldable pub timer_intr_handler : ℕ → Timer → List ℕ × Timer
timer_intr_handler now t =
    let (woken, left) = wake_loop now t.sleep_list in
    let next_tick = if ltb t.next_tick now then add64 t.next_tick tick_period else t.next_tick in
    (woken, record { sleep_list = left; next_tick = next_tick; mtcmp = next_mtcmp left next_tick })
