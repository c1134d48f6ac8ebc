-- ===== src/Sched/Room.antt =====
-- How many threads a list of src/kern/thread.c can hold: no more than the table.
use operating_systems_final.Prelude.{
  ℕ, zero, suc, ◌≤◌, ◌<◌, ◌≡◌, refl, sym, ap, ◌∙◌, ◌≢◌, inl, inr, false, List, [], ◌∷◌, arith, ◌==◌,
  if◌then◌else◌, Bool-cases, length, All,
}
use operating_systems_final.Thread.Chains.{NotIn, IsDistinct}
use operating_systems_final.Sched.{Sched, nthr, uninitialized, exited, waiting}
use operating_systems_final.Sched.Queues.{Waits, Core, All-imp}

-- The other numbers of the list.
abbrev without : ℕ → List ℕ → List ℕ
without n [] = []
without n (x ∷ xs) = let rest = without n xs in if x == n then rest else x ∷ rest

without-NotIn : (n : ℕ) (xs : List ℕ) → NotIn n xs → without n xs ≡ xs
without-NotIn n [] a = refl
without-NotIn n (x ∷ xs) a =
    let e : (x == n) ≡ false = ground (arith, a.0) in
    rw e (ap (λ r. x ∷ r) (without-NotIn n xs a.1))

length-without : (n : ℕ) (xs : List ℕ) → IsDistinct xs → length xs ≤ suc (length (without n xs))
length-without n [] d = omega arith
length-without n (x ∷ xs) d = elim (Bool-cases (x == n)) [
  | inl same ↦
      let gone =
        without-NotIn n xs
          (All-imp (λ u. u ≢ x) (λ u. u ≢ n) xs (λ u i a. ground (arith, a)) d.0) in
      rw (same, gone) (omega arith)
  | inr other ↦ rw other (let rest = length-without n xs d.1 in omega arith)
]

without-All : (P : ℕ → Type 0) (n : ℕ) (xs : List ℕ) → All P xs → All P (without n xs)
without-All P n [] a = tt
without-All P n (x ∷ xs) a = elim (Bool-cases (x == n)) [
  | inl same ↦ rw same (without-All P n xs a.1)
  | inr other ↦ rw other ((a.0, without-All P n xs a.1))
]

without-IsDistinct : (n : ℕ) (xs : List ℕ) → IsDistinct xs → IsDistinct (without n xs)
without-IsDistinct n [] d = tt
without-IsDistinct n (x ∷ xs) d = elim (Bool-cases (x == n)) [
  | inl same ↦ rw same (without-IsDistinct n xs d.1)
  | inr other ↦ rw other ((without-All (λ u. u ≢ x) n xs d.0, without-IsDistinct n xs d.1))
]

without-below : (n : ℕ) (xs : List ℕ) → All (λ u. u < suc n) xs → All (λ u. u < n) (without n xs)
without-below n [] a = tt
without-below n (x ∷ xs) a = elim (Bool-cases (x == n)) [
  | inl same ↦ rw same (without-below n xs a.1)
  | inr other ↦ let low = a.0 in rw other ((ground arith, without-below n xs a.1))
]

-- Different numbers below n are at most n.
distinct_below : (n : ℕ) (xs : List ℕ) → IsDistinct xs → All (λ u. u < n) xs → length xs ≤ n
distinct_below zero [] d a = omega arith
distinct_below zero (x ∷ xs) d a = let low = a.0 in absurd (omega arith)
distinct_below (suc n) xs d a =
    let rest = distinct_below n (without n xs) (without-IsDistinct n xs d) (without-below n xs a) in
    let one = length-without n xs d in omega arith

-- No more threads wait for a condition than the table has room for.
pub waits-bound :
    (s : Sched) (q : List ℕ) (w : ℕ → List ℕ) (c : ℕ) → Core s q w → length (w c) ≤ nthr
waits-bound s q w c k = distinct_below nthr (w c) (k.on_wait c).distinct (
    All-imp (Waits s c) (λ u. u < nthr) (w c)
      (λ u i p. elim (Bool-cases (s.thrtab u)) [
        | inl used ↦ k.in_table u used
        | inr free ↦ elim (k.vacant u free) [
          | inl b ↦ let bad : uninitialized ≡ waiting = sym b ∙ p.0 in cc
          | inr b ↦ let bad : exited ≡ waiting = sym b ∙ p.0 in cc
        ]
      ])
      (k.are_waiting c))
