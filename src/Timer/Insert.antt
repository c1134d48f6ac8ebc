-- ===== src/Timer/Insert.antt =====
-- The order of the sleep list of src/kern/timer.c under alarm_sleep.
use mathlib.Core.List.{Perm}
use mathlib.Core.List.Perm
use operating_systems_final.Prelude.{
  ℕ, ◌+◌, ◌≤◌, ◌<◌, min, ◌≡◌, refl, ◌⊎◌, inl, inr, true, false, List, [], ◌∷◌, arith, ltb, leb,
  Bool-cases, All,
}
use operating_systems_final.Timer.{
  Alarm, Timer, wake_time, insert_after, insert_alarm, alarm_sleep, uint64_max,
}

-- No alarm of the list wakes before time `n`.
abbrev pub NotBefore : ℕ → List Alarm → Type 0
NotBefore n l = All (λ (b : Alarm). n ≤ b.twake) l

-- In the order of the wake-up times.
abbrev pub IsSorted : List Alarm → Type 0
IsSorted [] = Unit
IsSorted (a ∷ l) = NotBefore a.twake l × IsSorted l

pub NotBefore-mono : {m n : ℕ} (l : List Alarm) → m ≤ n → NotBefore n l → NotBefore m l
NotBefore-mono [] h k = tt
NotBefore-mono (a ∷ l) h k = (omega (arith, k.0), NotBefore-mono l h k.1)

NotBefore-insert_after :
    {n : ℕ} (al : Alarm) (l : List Alarm)
    → n ≤ al.twake
    → NotBefore n l
    → NotBefore n (insert_after al l)
unfolding insert_after
NotBefore-insert_after al [] h k = (h, tt)
NotBefore-insert_after al (b ∷ l) h k = elim (Bool-cases (leb al.twake b.twake)) [
  | inl e ↦ rw e (h, k)
  | inr e ↦ rw e (k.0, NotBefore-insert_after al l h k.1)
]

insert_after-IsSorted : (al : Alarm) (l : List Alarm) → IsSorted l → IsSorted (insert_after al l)
unfolding insert_after
insert_after-IsSorted al [] s = (tt, tt)
insert_after-IsSorted al (b ∷ l) s = elim (Bool-cases (leb al.twake b.twake)) [
  | inl e ↦ rw e ((ground arith, NotBefore-mono l (ground arith) s.0), s)
  | inr e ↦ rw e (NotBefore-insert_after al l (ground arith) s.0, insert_after-IsSorted al l s.1)
]

insert_after-perm : (al : Alarm) (l : List Alarm) → Perm (insert_after al l) (al ∷ l)
unfolding insert_after
insert_after-perm al [] = Perm.refl (al ∷ [])
insert_after-perm al (b ∷ l) = elim (Bool-cases (leb al.twake b.twake)) [
  | inl e ↦ rw e (Perm.refl (al ∷ b ∷ l))
  | inr e ↦ rw e (Perm.trans (Perm.cons b (insert_after-perm al l)) (Perm.swap al b l))
]

pub insert_alarm-IsSorted :
    (al : Alarm) (l : List Alarm) → IsSorted l → IsSorted (insert_alarm al l)
unfolding insert_alarm
insert_alarm-IsSorted al [] s = (tt, tt)
insert_alarm-IsSorted al (b ∷ l) s = elim (Bool-cases (leb al.twake b.twake)) [
  | inl e ↦ rw e ((ground arith, NotBefore-mono l (ground arith) s.0), s)
  | inr e ↦ rw e (NotBefore-insert_after al l (ground arith) s.0, insert_after-IsSorted al l s.1)
]

pub insert_alarm-perm : (al : Alarm) (l : List Alarm) → Perm (insert_alarm al l) (al ∷ l)
unfolding insert_alarm
insert_alarm-perm al [] = Perm.refl (al ∷ [])
insert_alarm-perm al (b ∷ l) = elim (Bool-cases (leb al.twake b.twake)) [
  | inl e ↦ rw e (Perm.refl (al ∷ b ∷ l))
  | inr e ↦ rw e (Perm.trans (Perm.cons b (insert_after-perm al l)) (Perm.swap al b l))
]

-- The wake-up time never wraps: it is the sum of the two times, or UINT64_MAX where that is smaller.
pub wake_time-min :
    (twake tcnt : ℕ) → twake ≤ uint64_max → wake_time twake tcnt ≡ min uint64_max (twake + tcnt)
unfolding wake_time
wake_time-min twake tcnt h = ground arith

-- What a call of `alarm_sleep` leaves: a caller whose time has passed returns and the list is as it
-- was; any other sleeps, its alarm has joined the list, and the list is still sorted.
pub alarm_sleep-IsSorted :
    (now : ℕ) (al : Alarm) (tcnt : ℕ) (t : Timer)
    → IsSorted t.sleep_list
    → let (al', t', asleep) = alarm_sleep now al tcnt t in
      ((asleep ≡ false) × (al'.twake < now) × (t' ≡ t))
      ⊎ ((asleep ≡ true)
          × (now ≤ al'.twake)
          × IsSorted t'.sleep_list
          × Perm t'.sleep_list (al' ∷ t.sleep_list))
unfolding alarm_sleep
alarm_sleep-IsSorted now al tcnt t s =
    let al' = record al { twake = wake_time al.twake tcnt } in
    elim (Bool-cases (ltb (wake_time al.twake tcnt) now)) [
      | inl e ↦ rw e (inl (refl, ground arith, refl))
      | inr e ↦ rw e (
          inr (
            refl,
            ground arith,
            insert_alarm-IsSorted al' t.sleep_list s,
            insert_alarm-perm al' t.sleep_list,
          ))
    ]
