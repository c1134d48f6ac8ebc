-- ===== src/Plic/Sources.antt =====
-- The priority and the enable bits of each source of src/kern/plic.c.
use mathlib.Core.Path.{ap₂}
use operating_systems_final.Prelude.{
  ℕ, ◌%◌, ◌<◌, ◌≡◌, refl, sym, ap, ◌∙◌, ◌≢◌, inl, inr, Bool, true, false, not, ◌&&◌, ◌||◌, arith,
  ◌==◌, if◌then◌else◌, Bool-cases,
}
use operating_systems_final.Plic.{
  Regs, plic_srccnt, bit, with_bit, without_bit, store_reg, prio_addr, enable_addr, is_source,
  is_pair, plic_set_source_priority, plic_enable_source_for_context,
  plic_disable_source_for_context,
}
use operating_systems_final.Plic.Bits.{bit-with_bit, bit-without_bit}

-- What the controller keeps of a source.
abbrev pub priority : Regs → ℕ → ℕ
priority r s = r (prio_addr s)

abbrev pub enabled : Regs → ℕ → ℕ → Bool
enabled r c s = bit (r (enable_addr c s)) (s % 32)

pub store_reg_self : (a v : ℕ) (r : Regs) → store_reg a v r a ≡ v
unfolding store_reg
store_reg_self a v r = let e : (a == a) ≡ true = ground arith in rw e refl

pub store_reg_other : (a b v : ℕ) (r : Regs) → b ≢ a → store_reg a v r b ≡ r b
unfolding store_reg
store_reg_other a b v r d = let e : (b == a) ≡ false = ground arith in rw e refl

is_source-range : (s : ℕ) → is_source s ≡ true → s < plic_srccnt
is_source-range s h = ground (arith, h)

is_pair-range : (c s : ℕ) → is_pair c s ≡ true → s < plic_srccnt
is_pair-range c s h = is_source-range s (ground (arith, h))

same_word :
    (c s c' s' : ℕ)
    → s < plic_srccnt
    → s' < plic_srccnt
    → enable_addr c' s' ≡ enable_addr c s
    → (s' % 32 == s % 32) ≡ (c' == c && s' == s)
same_word c s c' s' small small' same = elim (Bool-cases (s' % 32 == s % 32)) [
  | inl e ↦
      let l : s' % 32 ≡ s % 32 = ground (arith, e) in
      let src : s' ≡ s = omega (arith, l) in
      let ctx : c' ≡ c = omega (arith, l) in
      let f : (c' == c && s' == s) ≡ true = ground (arith, src, ctx) in e ∙ sym f
  | inr e ↦
      let d : s' ≢ s =
        λ x. let g : (s' % 32 == s % 32) ≡ true = ground (arith, ap (λ y. y % 32) x) in cc in
      let g : (s' == s) ≡ false = ground (arith, d) in
      let f : (c' == c && s' == s) ≡ false = ground (arith, g) in e ∙ sym f
]

other_word : (c s c' s' : ℕ) → enable_addr c' s' ≢ enable_addr c s → (c' == c && s' == s) ≡ false
other_word c s c' s' d = elim (Bool-cases (c' == c && s' == s)) [
  | inr e ↦ e
  | inl e ↦
      let ctx : c' ≡ c = ground (arith, e) in
      let src : s' ≡ s = ground (arith, e) in absurd (d (ap₂ (λ x y. enable_addr x y) ctx src))
]

-- A word of enable bits, where one of its bits became `f` of it.
enabled-update :
    (c s c' s' v : ℕ) (r : Regs) (f : Bool → Bool → Bool)
    → s < plic_srccnt
    → s' < plic_srccnt
    → ((b : Bool) → f false b ≡ b)
    → ((k : ℕ) → bit v k ≡ f (k == s % 32) (bit (r (enable_addr c s)) k))
    → enabled (store_reg (enable_addr c s) v r) c' s' ≡ f (c' == c && s' == s) (enabled r c' s')
enabled-update c s c' s' v r f small small' idle bits =
    elim (Bool-cases (enable_addr c' s' == enable_addr c s)) [
      | inl e ↦
          let same : enable_addr c' s' ≡ enable_addr c s = ground (arith, e) in
          let test : (s' % 32 == s % 32) ≡ (c' == c && s' == s) =
            same_word c s c' s' small small' same in
          ap (λ a. bit (store_reg (enable_addr c s) v r a) (s' % 32)) same
          ∙ ap (λ w. bit w (s' % 32)) (store_reg_self (enable_addr c s) v r)
          ∙ bits (s' % 32)
          ∙ ap (λ t. f t (bit (r (enable_addr c s)) (s' % 32))) test
          ∙ ap (λ a. f (c' == c && s' == s) (bit (r a) (s' % 32))) (sym same)
      | inr e ↦
          let differ : enable_addr c' s' ≢ enable_addr c s = ground (arith, e) in
          let test : (c' == c && s' == s) ≡ false = other_word c s c' s' differ in
          ap (λ w. bit w (s' % 32))
            (store_reg_other (enable_addr c s) (enable_addr c' s') v r differ)
          ∙ sym (idle (enabled r c' s'))
          ∙ ap (λ t. f t (enabled r c' s')) (sym test)
    ]

-- Of the bits of the sources below 1024, enabling a source sets exactly its bit of the context,
-- and none if the context or the source is out of range.
pub plic_enable_source_for_context-enabled :
    (c s c' s' : ℕ) (r : Regs)
    → s' < plic_srccnt
    → enabled (plic_enable_source_for_context c s r) c' s'
      ≡ ((is_pair c s && (c' == c && s' == s)) || enabled r c' s')
unfolding plic_enable_source_for_context
plic_enable_source_for_context-enabled c s c' s' r small = elim (Bool-cases (is_pair c s)) [
  | inr e ↦ rw e refl
  | inl e ↦
      let a = enable_addr c s in
      rw e (
        enabled-update c s c' s' (with_bit (r a) (s % 32)) r (λ t b. t || b) (is_pair-range c s e)
          small (λ b. refl) (λ k. bit-with_bit (s % 32) k (r a)))
]

-- Disabling a source clears its bit of the context, where both are in range, and no other.
pub plic_disable_source_for_context-enabled :
    (c s c' s' : ℕ) (r : Regs)
    → s' < plic_srccnt
    → enabled (plic_disable_source_for_context c s r) c' s'
      ≡ (not (is_pair c s && (c' == c && s' == s)) && enabled r c' s')
unfolding plic_disable_source_for_context
plic_disable_source_for_context-enabled c s c' s' r small = elim (Bool-cases (is_pair c s)) [
  | inr e ↦ rw e refl
  | inl e ↦
      let a = enable_addr c s in
      rw e (
        enabled-update c s c' s' (without_bit (r a) (s % 32)) r (λ t b. not t && b)
          (is_pair-range c s e) small (λ b. refl) (λ k. bit-without_bit (s % 32) k (r a)))
]

pub plic_set_source_priority-priority :
    (s level s' : ℕ) (r : Regs)
    → priority (plic_set_source_priority s level r) s'
      ≡ (if is_source s && s' == s then level else priority r s')
unfolding plic_set_source_priority
plic_set_source_priority-priority s level s' r = elim (Bool-cases (is_source s)) [
  | inr e ↦ rw e refl
  | inl e ↦ elim (Bool-cases (s' == s)) [
    | inl f ↦
        let same : prio_addr s' ≡ prio_addr s = ground (arith, f) in
        rw (e, f) (ap (store_reg (prio_addr s) level r) same ∙ store_reg_self (prio_addr s) level r)
    | inr f ↦
        let d : prio_addr s' ≢ prio_addr s = ground (arith, f) in
        rw (e, f) (store_reg_other (prio_addr s) (prio_addr s') level r d)
  ]
]

pub plic_set_source_priority-enabled :
    (s level c' s' : ℕ) (r : Regs)
    → enabled (plic_set_source_priority s level r) c' s' ≡ enabled r c' s'
unfolding plic_set_source_priority
plic_set_source_priority-enabled s level c' s' r = elim (Bool-cases (is_source s)) [
  | inr e ↦ rw e refl
  | inl e ↦
      let small = is_source-range s e in
      let d : enable_addr c' s' ≢ prio_addr s = omega (arith, small) in
      rw e (ap (λ w. bit w (s' % 32)) (store_reg_other (prio_addr s) (enable_addr c' s') level r d))
]

pub plic_enable_source_for_context-priority :
    (c s s' : ℕ) (r : Regs)
    → s' < plic_srccnt
    → priority (plic_enable_source_for_context c s r) s' ≡ priority r s'
unfolding plic_enable_source_for_context
plic_enable_source_for_context-priority c s s' r small = elim (Bool-cases (is_pair c s)) [
  | inr e ↦ rw e refl
  | inl e ↦
      let a = enable_addr c s in
      let d : prio_addr s' ≢ a = omega (arith, small) in
      rw e (store_reg_other a (prio_addr s') (with_bit (r a) (s % 32)) r d)
]
