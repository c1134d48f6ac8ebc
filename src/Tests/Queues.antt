-- ===== src/Tests/Queues.antt =====
-- The ring buffers of the serial driver and the alarms on concrete inputs.
use mathlib.Core.List.{Perm}
use operating_systems_final.Prelude.{
  ℕ, suc, ◌≤◌, ◌<◌, ◌≡◌, refl, ◌⊎◌, true, false, List, [], ◌∷◌, ◌++◌, map, arith, replicate,
}
use operating_systems_final.Uart.{RingBuf, UartDevice, rbuf_full, rbuf_empty, uart_isr}
use operating_systems_final.Uart.Ring.{IsValid}
use operating_systems_final.Uart.Transfer.{Served, uart_isr-Served}
use operating_systems_final.Timer.{
  Alarm, Timer, timer_intr_handler, alarm_sleep, wake_time, tick_period,
}
use operating_systems_final.Timer.Insert.{NotBefore, IsSorted, alarm_sleep-IsSorted}
use operating_systems_final.Timer.Wake.{due, later, IsArmed, timer_intr_handler-due}

-- Two bytes, on both sides of the wrap-around of the positions.
abbrev storage : List ℕ
storage = 66 ∷ replicate 62 0 ++ (65 ∷ [])

abbrev wrapped : RingBuf
wrapped = record { hpos = 65535; tpos = 1; bytes = storage }

wrapped-IsValid : IsValid wrapped
wrapped-IsValid = record {
  storage = refl;
  head_word = omega arith;
  tail_word = omega arith;
  fits = omega arith;
}

abbrev device : UartDevice
device = record { ier = 1; rxovrcnt = 0; refcnt = 1; rxbuf = wrapped; txbuf = wrapped }

wrapped_room : rbuf_full wrapped ≡ false
unfolding rbuf_full
wrapped_room = refl

wrapped_more : rbuf_empty wrapped ≡ false
unfolding rbuf_empty
wrapped_more = refl

-- A byte has come, and the line is free.
uart_isr-Served_example : Served 33 88 device (uart_isr 33 88 device)
uart_isr-Served_example = uart_isr-Served 33 88 device wrapped-IsValid wrapped-IsValid

abbrev early : Alarm
early = record { cond = 1; twake = 100 }

abbrev late : Alarm
late = record { cond = 2; twake = 900 }

abbrev clock : Timer
clock = record { sleep_list = early ∷ late ∷ []; next_tick = 200000; mtcmp = 100 }

clock-IsSorted : IsSorted clock.sleep_list
clock-IsSorted = ((omega arith, tt), (tt, tt))

clock-IsArmed : IsArmed clock
clock-IsArmed = record { tick = omega arith; alarms = (omega arith, (omega arith, tt)) }

timer_intr_handler-due_example :
    let (woken, t') = timer_intr_handler 500 clock in
    (woken ≡ map (λ (a : Alarm). a.cond) (due 500 clock.sleep_list))
    × (t'.sleep_list ≡ later 500 clock.sleep_list)
    × IsSorted t'.sleep_list
    × NotBefore (suc 500) t'.sleep_list
timer_intr_handler-due_example = timer_intr_handler-due 500 clock clock-IsSorted

alarm_sleep-IsSorted_example :
    let (al', t', asleep) = alarm_sleep 40 (record { cond = 3; twake = 40 }) 20 clock in
    ((asleep ≡ false) × (al'.twake < 40) × (t' ≡ clock))
    ⊎ ((asleep ≡ true)
        × (40 ≤ al'.twake)
        × IsSorted t'.sleep_list
        × Perm t'.sleep_list (al' ∷ clock.sleep_list))
alarm_sleep-IsSorted_example =
    alarm_sleep-IsSorted 40 (record { cond = 3; twake = 40 }) 20 clock clock-IsSorted

abbrev idle_clock : Timer
idle_clock = record { sleep_list = []; next_tick = 0; mtcmp = 0 }

short_sleep : (10 ≤ wake_time 10 50) × (wake_time 10 50 < tick_period)
unfolding wake_time
short_sleep = (omega arith, omega arith)
