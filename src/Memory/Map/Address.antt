-- ===== src/Memory/Map/Address.antt =====
-- Addresses and their pages, for the page tables of src/kern/memory.c.
use mathlib.Core.Path.{ap₂}
use operating_systems_final.Prelude.{
  ℕ, ◌+◌, ◌*◌, ◌/◌, ◌%◌, ◌^◌, ◌<◌, ◌≡◌, refl, sym, ap, ◌∙◌, inl, inr, Bool, true, false, ◌&&◌,
  Option, arith, ◌==◌, if◌then◌else◌, Bool-cases,
}
use operating_systems_final.Memory.{Pte, Memory, vpn2, vpn1, vpn0}
use operating_systems_final.Memory.Map.Lookup.{lookup, entry_of}

-- Whether two addresses are in the same page, of the 2 ^ 27 that the tables tell apart.
abbrev pub same_page : ℕ → ℕ → Bool
same_page a b = (a / 2 ^ 12) % 2 ^ 27 == (b / 2 ^ 12) % 2 ^ 27

page_split : (a : ℕ) → (a / 2 ^ 12) % 2 ^ 27 ≡ 2 ^ 18 * vpn2 a + 2 ^ 9 * vpn1 a + vpn0 a
page_split a = omega arith

digits :
    (a b c x y z : ℕ)
    → a < 512
    → b < 512
    → c < 512
    → x < 512
    → y < 512
    → z < 512
    → (a == x && (b == y && c == z)) ≡ (2 ^ 18 * a + 2 ^ 9 * b + c == 2 ^ 18 * x + 2 ^ 9 * y + z)
digits a b c x y z ha hb hc hx hy hz =
    elim (Bool-cases (2 ^ 18 * a + 2 ^ 9 * b + c == 2 ^ 18 * x + 2 ^ 9 * y + z)) [
      | inl e ↦
          let l : 2 ^ 18 * a + 2 ^ 9 * b + c ≡ 2 ^ 18 * x + 2 ^ 9 * y + z = ground arith in
          let fst : (a == x) ≡ true = ground (arith, l) in
          let snd : (b == y) ≡ true = ground (arith, l) in
          let trd : (c == z) ≡ true = ground (arith, l) in rw (e, fst, snd, trd) refl
      | inr e ↦ elim (Bool-cases (a == x && (b == y && c == z))) [
        | inr f ↦ f ∙ sym e
        | inl f ↦
            let fst : a ≡ x = ground arith in
            let snd : b ≡ y = ground arith in
            let trd : c ≡ z = ground arith in
            let l : (2 ^ 18 * a + 2 ^ 9 * b + c == 2 ^ 18 * x + 2 ^ 9 * y + z) ≡ true =
              ground (arith, fst, snd, trd) in
            cc
      ]
    ]

pub same_page-vpn :
    (a b : ℕ) → (vpn2 a == vpn2 b && (vpn1 a == vpn1 b && vpn0 a == vpn0 b)) ≡ same_page a b
same_page-vpn a b =
    digits (vpn2 a) (vpn1 a) (vpn0 a) (vpn2 b) (vpn1 b) (vpn0 b) (omega arith) (omega arith)
      (omega arith) (omega arith) (omega arith) (omega arith)
    ∙ ap₂ (λ x y. x == y) (sym (page_split a)) (sym (page_split b))

-- An entry that one page got, where those of other pages stayed, read by address.
pub entry_of-update :
    (root vma w : ℕ) (m m' : Memory) (o : Option Pte)
    → entry_of root vma m' ≡ o
    → ((a b c : ℕ)
        → (a == vpn2 vma && (b == vpn1 vma && c == vpn0 vma)) ≡ false
        → lookup root a b c m' ≡ lookup root a b c m)
    → entry_of root w m' ≡ (if same_page w vma then o else entry_of root w m)
entry_of-update root vma w m m' o found others = elim (Bool-cases (same_page w vma)) [
  | inr f ↦ rw f (others (vpn2 w) (vpn1 w) (vpn0 w) (same_page-vpn w vma ∙ f))
  | inl t ↦
      let all = same_page-vpn w vma ∙ t in
      let two : vpn2 w ≡ vpn2 vma = ground (arith, all) in
      let one : vpn1 w ≡ vpn1 vma = ground (arith, all) in
      let zero : vpn0 w ≡ vpn0 vma = ground (arith, all) in
      rw t (
        ap (λ x. lookup root x (vpn1 w) (vpn0 w) m') two
        ∙ ap (λ x. lookup root (vpn2 vma) x (vpn0 w) m') one
        ∙ ap (λ x. lookup root (vpn2 vma) (vpn1 vma) x m') zero
        ∙ found)
]
