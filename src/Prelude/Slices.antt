-- ===== src/Prelude/Slices.antt =====
-- `take` and `drop` in combination.
use operating_systems_final.Prelude.Lists.{length, take, drop}
use Prim.Native.Nat.{ℕ, zero, suc, ◌+◌, ◌-◌, ◌≤◌}
use mathlib.Core.Path.{◌≡◌, refl, ap}
use mathlib.Core.List.{List, [], ◌∷◌, ◌++◌}
use native.Mathlib.Omega.{arith}

module _ {ℓ} {A : Type ℓ} where
  pub take_empty : (n : ℕ) → take {A = A} n [] ≡ []
  take_empty zero = refl
  take_empty (suc n) = refl

  pub drop_empty : (n : ℕ) → drop {A = A} n [] ≡ []
  drop_empty zero = refl
  drop_empty (suc n) = refl

module _ {ℓ} {A : Type ℓ} where
  pub take-add : (n m : ℕ) (xs : List A) → take (n + m) xs ≡ take n xs ++ take m (drop n xs)
  take-add zero m xs = ap (λ k. take k xs) (omega arith)
  take-add (suc n) m [] = rw (take_empty, take_empty)
  take-add (suc n) m (x ∷ xs) =
      let e : suc n + m ≡ suc (n + m) = omega arith in rw e (ap (λ l. x ∷ l) (take-add n m xs))

  pub drop-add : (n m : ℕ) (xs : List A) → drop (n + m) xs ≡ drop m (drop n xs)
  drop-add zero m xs = ap (λ k. drop k xs) (omega arith)
  drop-add (suc n) m [] = rw (drop_empty, drop_empty)
  drop-add (suc n) m (x ∷ xs) =
      let e : suc n + m ≡ suc (n + m) = omega arith in rw e (drop-add n m xs)

  pub drop-take : (p m : ℕ) (xs : List A) → drop p (take m xs) ≡ take (m - p) (drop p xs)
  drop-take zero m xs = ap (λ k. take k xs) (omega arith)
  drop-take (suc p) m [] = rw (take_empty, drop_empty, take_empty)
  drop-take (suc p) zero (x ∷ xs) = let e : 0 - suc p ≡ 0 = omega arith in rw e
  drop-take (suc p) (suc m) (x ∷ xs) =
      let e : suc m - suc p ≡ m - p = omega arith in rw e (drop-take p m xs)

  pub take-take : (n m : ℕ) (xs : List A) → n ≤ m → take n (take m xs) ≡ take n xs
  take-take zero m xs h = refl
  take-take (suc n) zero xs h = absurd (omega arith)
  take-take (suc n) (suc m) [] h = refl
  take-take (suc n) (suc m) (x ∷ xs) h = ap (λ l. x ∷ l) (take-take n m xs (omega arith))

  pub take-append :
      (m k : ℕ) (xs ys : List A) → m ≡ length xs + k → take m (xs ++ ys) ≡ xs ++ take k ys
  take-append m k [] ys e = ap (λ j. take j ys) (omega arith)
  take-append m k (x ∷ xs) ys e =
      let e' : m ≡ suc (length xs + k) = omega arith in
      rw e' (ap (λ l. x ∷ l) (take-append (length xs + k) k xs ys refl))

  pub drop-append : (m k : ℕ) (xs ys : List A) → m ≡ length xs + k → drop m (xs ++ ys) ≡ drop k ys
  drop-append m k [] ys e = ap (λ j. drop j ys) (omega arith)
  drop-append m k (x ∷ xs) ys e =
      let e' : m ≡ suc (length xs + k) = omega arith in
      rw e' (drop-append (length xs + k) k xs ys refl)

  pub take_all : (n : ℕ) (xs : List A) → length xs ≤ n → take n xs ≡ xs
  take_all zero [] h = refl
  take_all zero (x ∷ xs) h = absurd (omega arith)
  take_all (suc n) [] h = refl
  take_all (suc n) (x ∷ xs) h = ap (λ l. x ∷ l) (take_all n xs (omega arith))

  pub drop_all : (n : ℕ) (xs : List A) → length xs ≤ n → drop n xs ≡ []
  drop_all zero [] h = refl
  drop_all zero (x ∷ xs) h = absurd (omega arith)
  drop_all (suc n) [] h = refl
  drop_all (suc n) (x ∷ xs) h = drop_all n xs (omega arith)
