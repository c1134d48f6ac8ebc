-- ===== src/String/Compare.antt =====
-- The comparisons of src/kern/string.c as relations on C strings.
use operating_systems_final.Prelude.{
  ℕ, zero, suc, ◌<◌, ◌≡◌, refl, ◌↔◌, ◌⊎◌, inl, inr, Option, none, some, List, [], ◌∷◌, arith, ◌==◌,
  if◌then◌else◌, Bool-cases, length, take, ℤ, pos, negsuc,
}
use operating_systems_final.String.{strcmp, strcmp_bytes, strncmp, strlen}

-- The C string at a pointer: the bytes before the first zero.
abbrev pub cstr : List ℕ → List ℕ
cstr [] = []
cstr (x ∷ s) = let rest = cstr s in if x == 0 then [] else x ∷ rest

strcmp_bytes_zero : (s t : List ℕ) → (strcmp_bytes s t ≡ pos 0) ↔ (cstr s ≡ cstr t)
unfolding strcmp_bytes
strcmp_bytes_zero [] [] = (λ e. refl, λ e. refl)
strcmp_bytes_zero [] (y ∷ t) = (λ e. ground arith, λ e. ground arith)
strcmp_bytes_zero (x ∷ s) [] = (λ e. ground arith, λ e. ground arith)
strcmp_bytes_zero (x ∷ s) (y ∷ t) =
    let (to, from) = strcmp_bytes_zero s t in (λ e. ground (arith, to), λ e. ground (arith, from))

-- `strcmp` returns 0 exactly for equal C strings.
pub strcmp-zero : (s t : List ℕ) → (strcmp (some s) (some t) ≡ pos 0) ↔ (cstr s ≡ cstr t)
unfolding strcmp
strcmp-zero s t = strcmp_bytes_zero s t

-- The C strings in dictionary order, the bytes compared as unsigned numbers.
abbrev pub Before : List ℕ → List ℕ → Type 0
Before s [] = ⊥
Before [] (y ∷ t) = Unit
Before (x ∷ s) (y ∷ t) = (x < y) ⊎ ((x ≡ y) × Before s t)

strcmp_bytes_neg : (s t : List ℕ) → strcmp_bytes s t ≡ negsuc 0 → Before (cstr s) (cstr t)
unfolding strcmp_bytes
strcmp_bytes_neg [] [] e = cc
strcmp_bytes_neg [] (y ∷ t) e = ground arith
strcmp_bytes_neg (x ∷ s) [] e = ground arith
strcmp_bytes_neg (x ∷ s) (y ∷ t) e = elim (Bool-cases (x == 0)) [
  | inl zx ↦ elim (Bool-cases (y == 0)) [ inl zy ↦ absurd (ground arith) | inr ny ↦ rw (zx, ny) tt ]
  | inr nx ↦ elim (Bool-cases (y == 0)) [
    | inl zy ↦ absurd (ground arith)
    | inr ny ↦
        rw (nx, ny)
          (elim (Bool-cases (x == y)) [
            | inl same ↦ inr (ground arith, strcmp_bytes_neg s t (ground arith))
            | inr other ↦ inl (ground arith)
          ])
  ]
]

abbrev pub flip : ℤ → ℤ
flip (pos zero) = pos 0
flip (pos (suc n)) = negsuc n
flip (negsuc n) = pos (suc n)

strcmp_bytes_swap : (s t : List ℕ) → strcmp_bytes t s ≡ flip (strcmp_bytes s t)
unfolding strcmp_bytes
strcmp_bytes_swap [] [] = refl
strcmp_bytes_swap [] (y ∷ t) = ground arith
strcmp_bytes_swap (x ∷ s) [] = ground arith
strcmp_bytes_swap (x ∷ s) (y ∷ t) = ground (arith, strcmp_bytes_swap s t)

-- Swapping the arguments of `strcmp` changes the sign of its result, null pointers included.
pub strcmp-flip : (s t : Option (List ℕ)) → strcmp t s ≡ flip (strcmp s t)
unfolding strcmp
strcmp-flip none none = refl
strcmp-flip none (some t) = refl
strcmp-flip (some s) none = refl
strcmp-flip (some s) (some t) = strcmp_bytes_swap s t

-- A negative result of `strcmp` means that the first C string stands before the second in
-- dictionary order.
pub strcmp-Before : (s t : List ℕ) → strcmp (some s) (some t) ≡ negsuc 0 → Before (cstr s) (cstr t)
unfolding strcmp
strcmp-Before s t e = strcmp_bytes_neg s t e

pub strlen-cstr : (s : List ℕ) → strlen s ≡ length (cstr s)
unfolding strlen
strlen-cstr [] = refl
strlen-cstr (x ∷ s) = ground (arith, strlen-cstr s)

take-nil : (n : ℕ) → take {A = ℕ} n [] ≡ []
take-nil zero = refl
take-nil (suc n) = refl

-- `strncmp` returns 0 exactly where the C strings agree in their first `n` bytes.
pub strncmp-take :
    (s t : List ℕ) (n : ℕ) → (strncmp s t n ≡ pos 0) ↔ (take n (cstr s) ≡ take n (cstr t))
unfolding strncmp
strncmp-take s t zero = (λ e. refl, λ e. refl)
strncmp-take [] [] (suc n) = (λ e. refl, λ e. refl)
strncmp-take [] (y ∷ t) (suc n) = (λ e. ground arith, λ e. ground arith)
strncmp-take (x ∷ s) [] (suc n) = (λ e. ground arith, λ e. ground arith)
strncmp-take (x ∷ s) (y ∷ t) (suc n) =
    let (to, from) = strncmp-take s t n in (λ e. ground (arith, to), λ e. ground (arith, from))
