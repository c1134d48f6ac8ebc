-- ===== src/String/Copy.antt =====
-- The copies of src/kern/string.c: what they write, and what they leave alone.
use operating_systems_final.Prelude.{
  ℕ, zero, suc, ◌≤◌, ◌<◌, ◌≡◌, refl, ap, ◌↔◌, inl, inr, List, [], ◌∷◌, ◌++◌, arith, ◌==◌,
  Bool-cases, length, take, drop, replicate, pos,
}
use operating_systems_final.String.{strncpy, memset, memcpy, memcmp, strlen}
use operating_systems_final.String.Compare.{cstr}

-- `memcpy` replaces the first `n` bytes of the target by those of the source, and no others.
pub memcpy_lem :
    (dst src : List ℕ) (n : ℕ)
    → n ≤ length dst
    → n ≤ length src
    → memcpy dst src n ≡ take n src ++ drop n dst
unfolding memcpy
memcpy_lem dst src zero hd hs = refl
memcpy_lem [] src (suc n) hd hs = absurd (omega arith)
memcpy_lem (d ∷ dst) [] (suc n) hd hs = absurd (omega arith)
memcpy_lem (d ∷ dst) (x ∷ src) (suc n) hd hs =
    ap (λ l. x ∷ l) (memcpy_lem dst src n (omega arith) (omega arith))

pub length-memcpy : (dst src : List ℕ) (n : ℕ) → length (memcpy dst src n) ≡ length dst
unfolding memcpy
length-memcpy dst src zero = refl
length-memcpy [] src (suc n) = refl
length-memcpy (d ∷ dst) [] (suc n) = refl
length-memcpy (d ∷ dst) (x ∷ src) (suc n) = ap suc (length-memcpy dst src n)

pub memset_lem :
    (dst : List ℕ) (c n : ℕ) → n ≤ length dst → memset dst c n ≡ replicate n c ++ drop n dst
unfolding memset
memset_lem dst c zero h = refl
memset_lem [] c (suc n) h = absurd (omega arith)
memset_lem (d ∷ dst) c (suc n) h = ap (λ l. c ∷ l) (memset_lem dst c n (omega arith))

take_cons_eq : (x y : ℕ) (s t : List ℕ) → x ∷ s ≡ y ∷ t → (x ≡ y) × (s ≡ t)
take_cons_eq x y s t e = (cc, cc)

pub memcmp-zero :
    (p q : List ℕ) (n : ℕ)
    → n ≤ length p
    → n ≤ length q
    → (memcmp p q n ≡ pos 0) ↔ (take n p ≡ take n q)
unfolding memcmp
memcmp-zero p q zero hp hq = (λ e. refl, λ e. refl)
memcmp-zero [] q (suc n) hp hq = absurd (omega arith)
memcmp-zero (x ∷ p) [] (suc n) hp hq = absurd (omega arith)
memcmp-zero (x ∷ p) (y ∷ q) (suc n) hp hq =
    let (to, from) = memcmp-zero p q n (omega arith) (omega arith) in
    (λ e. ground (arith, to), λ e. ground (arith, from))

-- A block copied by `memcpy` compares equal to its source under `memcmp`.
pub memcmp-memcpy :
    (dst src : List ℕ) (n : ℕ)
    → n ≤ length dst
    → n ≤ length src
    → memcmp (memcpy dst src n) src n ≡ pos 0
unfolding memcpy memcmp
memcmp-memcpy dst src zero hd hs = refl
memcmp-memcpy [] src (suc n) hd hs = absurd (omega arith)
memcmp-memcpy (d ∷ dst) [] (suc n) hd hs = absurd (omega arith)
memcmp-memcpy (d ∷ dst) (x ∷ src) (suc n) hd hs = ground (arith, memcmp-memcpy dst src n)

-- Where the source string is shorter than `n` and the target has room, `strncpy` leaves the source
-- string in the target.
pub cstr-strncpy :
    (dst src : List ℕ) (n : ℕ)
    → strlen src < n
    → n ≤ length dst
    → cstr (strncpy dst src n) ≡ cstr src
unfolding strncpy strlen
cstr-strncpy dst src zero short room = absurd (omega arith)
cstr-strncpy [] src (suc n) short room = absurd (omega arith)
cstr-strncpy (d ∷ dst) [] (suc n) short room = refl
cstr-strncpy (d ∷ dst) (x ∷ src) (suc n) short room = elim (Bool-cases (x == 0)) [
  | inl e ↦ rw e refl
  | inr e ↦ rw (e, e) (ap (λ l. x ∷ l) (cstr-strncpy dst src n (ground arith) (omega arith)))
]

-- Where the source string has `n` bytes or more, `strncpy` copies its first `n` bytes, writes no
-- terminator and leaves what stands behind them.
pub strncpy_full :
    (dst src : List ℕ) (n : ℕ)
    → n ≤ strlen src
    → n ≤ length dst
    → strncpy dst src n ≡ take n src ++ drop n dst
unfolding strncpy strlen
strncpy_full dst src zero long room = refl
strncpy_full [] src (suc n) long room = absurd (omega arith)
strncpy_full (d ∷ dst) [] (suc n) long room = absurd (omega arith)
strncpy_full (d ∷ dst) (x ∷ src) (suc n) long room = elim (Bool-cases (x == 0)) [
  | inl e ↦ absurd (ground arith)
  | inr e ↦ rw e (ap (λ l. x ∷ l) (strncpy_full dst src n (ground arith) (omega arith)))
]
