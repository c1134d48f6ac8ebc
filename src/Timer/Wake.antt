-- ===== src/Timer/Wake.antt =====
-- The timer interrupt of src/kern/timer.c: who wakes, and when the next interrupt comes.
use mathlib.Core.Path.{subst}
use operating_systems_final.Prelude.{
  ℕ, suc, ◌≤◌, ◌<◌, ◌≡◌, refl, sym, ap, inl, inr, true, false, List, [], ◌∷◌, map, arith, ltb, leb,
  if◌then◌else◌, Bool-cases,
}
use operating_systems_final.Timer.{
  Alarm, Timer, wake_loop, next_mtcmp, timer_intr_handler, alarm_sleep, tick_period, timer_init,
  insert_alarm, goes_first, wake_time, insert_after,
}
use operating_systems_final.Timer.Insert.{NotBefore, NotBefore-mono, IsSorted}

-- The alarms that are due at time `now`.
pub due : ℕ → List Alarm → List Alarm
due now [] = []
due now (a ∷ l) = let rest = due now l in if leb a.twake now then a ∷ rest else rest

pub later : ℕ → List Alarm → List Alarm
later now [] = []
later now (a ∷ l) = let rest = later now l in if leb a.twake now then rest else a ∷ rest

none_due :
    (now n : ℕ) (l : List Alarm) → now < n → NotBefore n l → (due now l ≡ []) × (later now l ≡ l)
unfolding due later
none_due now n [] h k = (refl, refl)
none_due now n (a ∷ l) h k =
    let (none_left, all_left) = none_due now n l h k.1 in
    let late : leb a.twake now ≡ false = ground (arith, k.0) in
    (rw late none_left, rw late (ap (λ r. a ∷ r) all_left))

wake_loop-due :
    (now : ℕ) (l : List Alarm)
    → IsSorted l
    → wake_loop now l ≡ (map (λ (a : Alarm). a.cond) (due now l), later now l)
unfolding wake_loop due later
wake_loop-due now [] s = refl
wake_loop-due now (a ∷ l) s = elim (Bool-cases (leb a.twake now)) [
  | inl e ↦
      let ih = wake_loop-due now l s.1 in
      rw e (ap (λ (p : List ℕ × List Alarm). (a.cond ∷ p.0, p.1)) ih)
  | inr e ↦
      let (none_left, all_left) = none_due now a.twake l (ground arith) s.0 in
      rw (e, none_left, all_left) refl
]

NotBefore-later : (n now : ℕ) (l : List Alarm) → NotBefore n l → NotBefore n (later now l)
unfolding later
NotBefore-later n now [] k = tt
NotBefore-later n now (a ∷ l) k = elim (Bool-cases (leb a.twake now)) [
  | inl e ↦ rw e (NotBefore-later n now l k.1)
  | inr e ↦ rw e (k.0, NotBefore-later n now l k.1)
]

later-IsSorted :
    (now : ℕ) (l : List Alarm)
    → IsSorted l
    → IsSorted (later now l) × NotBefore (suc now) (later now l)
unfolding later
later-IsSorted now [] s = (tt, tt)
later-IsSorted now (a ∷ l) s =
    let (ih, after) = later-IsSorted now l s.1 in
    elim (Bool-cases (leb a.twake now)) [
      | inl e ↦ rw e (ih, after)
      | inr e ↦ rw e ((NotBefore-later a.twake now l s.0, ih), (ground arith, after))
    ]

-- On a sorted list the interrupt broadcasts exactly the alarms that are due, in the order of the
-- list, and keeps exactly the others, all of which are still to come and sorted.
pub timer_intr_handler-due :
    (now : ℕ) (t : Timer)
    → IsSorted t.sleep_list
    → let (woken, t') = timer_intr_handler now t in
      (woken ≡ map (λ (a : Alarm). a.cond) (due now t.sleep_list))
      × (t'.sleep_list ≡ later now t.sleep_list)
      × IsSorted t'.sleep_list
      × NotBefore (suc now) t'.sleep_list
unfolding timer_intr_handler
timer_intr_handler-due now t s =
    let e = wake_loop-due now t.sleep_list s in
    let (sorted, after) = later-IsSorted now t.sleep_list s in (rw e, rw e, rw e sorted, rw e after)

-- The next timer interrupt comes no later than the next tick and than any sleeping alarm.
pub record IsArmed (t : Timer) : Type 0 where
  pub tick : t.mtcmp ≤ t.next_tick
  pub alarms : NotBefore t.mtcmp t.sleep_list

abbrev AtMost : List Alarm → ℕ → ℕ → Type 0
AtMost l n m = (m ≤ n) × NotBefore m l

next_mtcmp-le : (l : List Alarm) (n : ℕ) → IsSorted l → AtMost l n (next_mtcmp l n)
unfolding next_mtcmp
next_mtcmp-le [] n s = (omega arith, tt)
next_mtcmp-le (a ∷ l) n s = elim (Bool-cases (ltb a.twake n)) [
  | inl e ↦
      let same : next_mtcmp (a ∷ l) n ≡ a.twake = rw e in
      subst (AtMost (a ∷ l) n) (sym same) (ground arith, (omega arith, s.0))
  | inr e ↦
      let same : next_mtcmp (a ∷ l) n ≡ n = rw e in
      subst (AtMost (a ∷ l) n) (sym same)
        (omega arith, (ground arith, NotBefore-mono l (ground arith) s.0))
]

-- Each timer interrupt leaves the comparator armed for every alarm that still sleeps.
pub timer_intr_handler-IsArmed :
    (now : ℕ) (t : Timer) → IsSorted t.sleep_list → IsArmed (timer_intr_handler now t).1
unfolding timer_intr_handler
timer_intr_handler-IsArmed now t s =
    let left = (wake_loop now t.sleep_list).1 in
    let tick = (timer_intr_handler now t).1.next_tick in
    let e = wake_loop-due now t.sleep_list s in
    let sorted : IsSorted left = rw e (later-IsSorted now t.sleep_list s).0 in
    let (low, all_low) = next_mtcmp-le left tick sorted in record { tick = low; alarms = all_low }

NotBefore-insert_after :
    (n : ℕ) (al : Alarm) (l : List Alarm)
    → n ≤ al.twake
    → NotBefore n l
    → NotBefore n (insert_after al l)
unfolding insert_after
NotBefore-insert_after n al [] h k = (h, tt)
NotBefore-insert_after n al (b ∷ l) h k = elim (Bool-cases (leb al.twake b.twake)) [
  | inl e ↦ rw e (h, k)
  | inr e ↦ rw e (k.0, NotBefore-insert_after n al l h k.1)
]

NotBefore-insert_alarm :
    (n : ℕ) (al : Alarm) (l : List Alarm)
    → n ≤ al.twake
    → NotBefore n l
    → NotBefore n (insert_alarm al l)
unfolding insert_alarm
NotBefore-insert_alarm n al [] h k = (h, tt)
NotBefore-insert_alarm n al (b ∷ l) h k = elim (Bool-cases (leb al.twake b.twake)) [
  | inl e ↦ rw e (h, k)
  | inr e ↦ rw e (k.0, NotBefore-insert_after n al l h k.1)
]

before_first :
    (al : Alarm) (l : List Alarm) → goes_first al l ≡ true → IsSorted l → NotBefore al.twake l
unfolding goes_first
before_first al [] e s = tt
before_first al (b ∷ l) e s = (ground arith, NotBefore-mono l (ground arith) s.0)

after_head :
    (n : ℕ) (al : Alarm) (l : List Alarm) → goes_first al l ≡ false → NotBefore n l → n ≤ al.twake
unfolding goes_first
after_head n al [] e k = cc
after_head n al (b ∷ l) e k = ground (arith, k.0)

-- On an armed timer with a sorted list `alarm_sleep` keeps the comparator armed, the new alarm
-- included.
pub alarm_sleep-IsArmed :
    (now : ℕ) (al : Alarm) (tcnt : ℕ) (t : Timer)
    → IsSorted t.sleep_list
    → IsArmed t
    → IsArmed (alarm_sleep now al tcnt t).1
unfolding alarm_sleep
alarm_sleep-IsArmed now al tcnt t s armed =
    let w = wake_time al.twake tcnt in
    let al' = record al { twake = w } in
    let l = t.sleep_list in
    elim (Bool-cases (ltb (wake_time al.twake tcnt) now)) [
      | inl e ↦ rw e armed
      | inr e ↦ elim (Bool-cases (goes_first al' l)) [
        | inl f ↦ elim (Bool-cases (ltb (wake_time al.twake tcnt) t.next_tick)) [
          | inl g ↦
              rw (e, f, g)
                (record {
                  tick = ground arith;
                  alarms = NotBefore-insert_alarm w al' l (omega arith) (before_first al' l f s);
                })
          | inr g ↦
              rw (e, f, g)
                (record {
                  tick = armed.tick;
                  alarms =
                      NotBefore-insert_alarm t.mtcmp al' l (ground (arith, armed.tick))
                        armed.alarms;
                })
        ]
        | inr f ↦
            rw (e, f)
              (record {
                tick = armed.tick;
                alarms =
                    NotBefore-insert_alarm t.mtcmp al' l (after_head t.mtcmp al' l f armed.alarms)
                      armed.alarms;
              })
      ]
    ]

-- Before the first timer interrupt the comparator is not armed: any alarm that `alarm_sleep` takes
-- first after `timer_init`, for a time before the end of the first tick, is left behind a
-- comparator value later than its wake-up time.
pub timer_init_late :
    (now : ℕ) (al : Alarm) (tcnt : ℕ) (t : Timer)
    → t.next_tick ≡ 0
    → now ≤ wake_time al.twake tcnt
    → wake_time al.twake tcnt < tick_period
    → let (al', t', asleep) = alarm_sleep now al tcnt (timer_init t) in
      (asleep ≡ true) × (al'.twake < t'.mtcmp)
unfolding alarm_sleep timer_init
timer_init_late now al tcnt t start due_later early =
    let e : ltb (wake_time al.twake tcnt) now ≡ false = ground arith in
    let g : ltb (wake_time al.twake tcnt) t.next_tick ≡ false = ground arith in
    elim (Bool-cases (goes_first (record al { twake = wake_time al.twake tcnt }) t.sleep_list)) [
      | inl f ↦ rw (e, f, g) (refl, early)
      | inr f ↦ rw (e, f) (refl, early)
    ]
