-- ===== src/Plic/Bits.antt =====
-- Setting and clearing bits of words, for the enable bits of src/kern/plic.c.
use operating_systems_final.Prelude.{
  ℕ, zero, suc, ◌+◌, ◌-◌, ◌*◌, ◌/◌, ◌%◌, ◌≡◌, refl, sym, ap, ◌∙◌, inl, inr, true, false, not, ◌&&◌,
  ◌||◌, arith, ◌==◌, if◌then◌else◌, Bool-cases,
}
use operating_systems_final.Plic.{bit, with_bit, without_bit}

odd_even : (s w : ℕ) → (2 * s + w % 2) % 2 ≡ w % 2
odd_even s w = omega arith

half_of : (s w : ℕ) → (2 * s + w % 2) / 2 ≡ s
half_of s w = omega arith

not_first : (c : ℕ) → (suc c == 0) ≡ false
not_first c = ground arith

not_later : (b : ℕ) → (0 == suc b) ≡ false
not_later b = ground arith

both_later : (b c : ℕ) → (suc c == suc b) ≡ (c == b)
both_later b c = elim (Bool-cases (c == b)) [
  | inl e ↦ let f : (suc c == suc b) ≡ true = ground (arith, e) in f ∙ sym e
  | inr e ↦ let f : (suc c == suc b) ≡ false = ground (arith, e) in f ∙ sym e
]

half_kept : (w : ℕ) → (if w % 2 == 1 then w else w + 1) / 2 ≡ w / 2
half_kept w = elim (Bool-cases (w % 2 == 1)) [
  | inl e ↦ rw e refl
  | inr e ↦ rw e (ground (arith, e))
]

half_left : (w : ℕ) → (if w % 2 == 1 then w - 1 else w) / 2 ≡ w / 2
half_left w = elim (Bool-cases (w % 2 == 1)) [
  | inl e ↦ rw e (ground (arith, e))
  | inr e ↦ rw e refl
]

-- Exactly the bit `b` has been set.
pub bit-with_bit : (b c w : ℕ) → bit (with_bit w b) c ≡ ((c == b) || bit w c)
unfolding bit with_bit
bit-with_bit zero zero w = elim (Bool-cases (w % 2 == 1)) [
  | inl e ↦ rw (e, e) refl
  | inr e ↦ let f : ((w + 1) % 2 == 1) ≡ true = ground (arith, e) in rw (e, f) refl
]
bit-with_bit zero (suc c) w =
    ap (λ t. bit t c) (half_kept w) ∙ sym (ap (λ t. t || bit (w / 2) c) (not_first c))
bit-with_bit (suc b) zero w =
    ap (λ x. x == 1) (odd_even (with_bit (w / 2) b) w)
    ∙ sym (ap (λ t. t || (w % 2 == 1)) (not_later b))
bit-with_bit (suc b) (suc c) w =
    ap (λ x. bit x c) (half_of (with_bit (w / 2) b) w)
    ∙ bit-with_bit b c (w / 2)
    ∙ sym (ap (λ t. t || bit (w / 2) c) (both_later b c))

-- Exactly the bit `b` has been cleared.
pub bit-without_bit : (b c w : ℕ) → bit (without_bit w b) c ≡ (not (c == b) && bit w c)
unfolding bit without_bit
bit-without_bit zero zero w = elim (Bool-cases (w % 2 == 1)) [
  | inl e ↦ let f : ((w - 1) % 2 == 1) ≡ false = ground (arith, e) in rw (e, f) refl
  | inr e ↦ rw (e, e) refl
]
bit-without_bit zero (suc c) w =
    ap (λ t. bit t c) (half_left w) ∙ sym (ap (λ t. not t && bit (w / 2) c) (not_first c))
bit-without_bit (suc b) zero w =
    ap (λ x. x == 1) (odd_even (without_bit (w / 2) b) w)
    ∙ sym (ap (λ t. not t && (w % 2 == 1)) (not_later b))
bit-without_bit (suc b) (suc c) w =
    ap (λ x. bit x c) (half_of (without_bit (w / 2) b) w)
    ∙ bit-without_bit b c (w / 2)
    ∙ sym (ap (λ t. not t && bit (w / 2) c) (both_later b c))
