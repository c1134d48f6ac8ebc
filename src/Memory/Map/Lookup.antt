-- ===== src/Memory/Map/Lookup.antt =====
-- What the page tables of src/kern/memory.c map an address to, by the three indices of its page.
use mathlib.Core.Path.{subst}
use mathlib.Core.Option.{some-injective}
use operating_systems_final.Prelude.{
  ℕ, ◌≡◌, refl, ap, ◌∙◌, ◌⊎◌, inl, inr, Bool, true, false, Option, none, some, if◌then◌else◌,
  Bool-cases,
}
use operating_systems_final.Memory.{
  Pte, Memory, vpn2, vpn1, vpn0, verify_flags, is_ok, points_on, descend, find_leaf, walk_on,
  walk_pt,
}

-- The levels of a lookup, from the entry that has been reached.
abbrev pub from_low : Pte → Option Pte
from_low e₀ = if is_ok (verify_flags e₀.flags) then some e₀ else none

abbrev pub from_mid : ℕ → Memory → Pte → Option Pte
from_mid i₀ m e₁ = if points_on e₁.flags then from_low (m.tables e₁.ppn i₀) else none

abbrev pub from_top : ℕ → ℕ → Memory → Pte → Option Pte
from_top i₁ i₀ m e₂ = if points_on e₂.flags then from_mid i₀ m (m.tables e₂.ppn i₁) else none

-- The entry for a page, if the tables lead to a valid one.
abbrev pub lookup : ℕ → ℕ → ℕ → ℕ → Memory → Option Pte
lookup root i₂ i₁ i₀ m = from_top i₁ i₀ m (m.tables root i₂)

-- The entry for the page of an address.
abbrev pub entry_of : ℕ → ℕ → Memory → Option Pte
entry_of root vma m = lookup root (vpn2 vma) (vpn1 vma) (vpn0 vma) m

-- The entry is in the table of the page `pt₀`, which two entries lead to.
pub record Leads (root i₂ i₁ i₀ : ℕ) (m : Memory) (e : Pte) : Type 0 where
  pub on₂ : points_on (m.tables root i₂).flags ≡ true
  pub on₁ : points_on (m.tables (m.tables root i₂).ppn i₁).flags ≡ true
  pub ok₀ : is_ok (verify_flags e.flags) ≡ true
  pub here : m.tables (m.tables (m.tables root i₂).ppn i₁).ppn i₀ ≡ e

if_some :
    (b : Bool) (x : Option Pte) (e : Pte)
    → (if b then x else none) ≡ some e
    → (b ≡ true) × (x ≡ some e)
if_some true x e h = (refl, h)
if_some false x e h = cc

pub lookup-Leads :
    (root i₂ i₁ i₀ : ℕ) (m : Memory) (e : Pte)
    → lookup root i₂ i₁ i₀ m ≡ some e
    → Leads root i₂ i₁ i₀ m e
lookup-Leads root i₂ i₁ i₀ m e found =
    let (on₂, rest) = if_some _ _ e found in
    let (on₁, last) = if_some _ _ e rest in
    let (ok₀, here) = if_some _ _ e last in
    let same : m.tables (m.tables (m.tables root i₂).ppn i₁).ppn i₀ ≡ e = some-injective _ _ here in
    record {
      on₂ = on₂;
      on₁ = on₁;
      ok₀ = subst (λ f. is_ok (verify_flags f.flags) ≡ true) same ok₀;
      here = same;
    }

pub Leads-lookup :
    (root i₂ i₁ i₀ : ℕ) (m : Memory) (e : Pte)
    → Leads root i₂ i₁ i₀ m e
    → lookup root i₂ i₁ i₀ m ≡ some e
Leads-lookup root i₂ i₁ i₀ m e l =
    let e₀ = m.tables (m.tables (m.tables root i₂).ppn i₁).ppn i₀ in
    let valid : is_ok (verify_flags e₀.flags) ≡ true =
      ap (λ f. is_ok (verify_flags f.flags)) l.here ∙ l.ok₀ in
    rw (l.on₂, l.on₁, valid) (ap some l.here)

-- A walk that may not create tables finds the place of the entry, if there is one.
pub walk_pt-lookup :
    (root vma : ℕ) (m : Memory)
    → let pt₁ = (m.tables root (vpn2 vma)).ppn in
      let pt₀ = (m.tables pt₁ (vpn1 vma)).ppn in
      ((entry_of root vma m ≡ none) × (walk_pt false root vma m ≡ some (none, m)))
      ⊎ (Leads root (vpn2 vma) (vpn1 vma) (vpn0 vma) m (m.tables pt₀ (vpn0 vma))
          × (walk_pt false root vma m ≡ some (some (pt₀, vpn0 vma), m)))
unfolding walk_pt walk_on descend find_leaf
walk_pt-lookup root vma m =
    let e₂ = m.tables root (vpn2 vma) in
    let e₁ = m.tables e₂.ppn (vpn1 vma) in
    let e₀ = m.tables e₁.ppn (vpn0 vma) in
    elim (Bool-cases (points_on e₂.flags)) [
      | inr e ↦ inl (rw e (refl, refl))
      | inl e ↦ elim (Bool-cases (points_on e₁.flags)) [
        | inr f ↦ inl (rw (e, f) (refl, refl))
        | inl f ↦ elim (Bool-cases (is_ok (verify_flags e₀.flags))) [
          | inr g ↦ inl (rw (e, f, g) (refl, refl))
          | inl g ↦ inr (record { on₂ = e; on₁ = f; ok₀ = g; here = refl }, rw (e, f, g) refl)
        ]
      ]
    ]

from_mid-same :
    (i₀ : ℕ) (m m' : Memory) (e₁ : Pte)
    → (points_on e₁.flags ≡ true → m'.tables e₁.ppn i₀ ≡ m.tables e₁.ppn i₀)
    → from_mid i₀ m' e₁ ≡ from_mid i₀ m e₁
from_mid-same i₀ m m' e₁ h = elim (Bool-cases (points_on e₁.flags)) [
  | inl e ↦ rw e (ap from_low (h e))
  | inr e ↦ rw e refl
]

-- Memories that agree on the way of a lookup agree on its outcome.
pub lookup-same :
    (root i₂ i₁ i₀ : ℕ) (m m' : Memory)
    → let e₂ = m.tables root i₂ in
      let e₁ = m.tables e₂.ppn i₁ in
      m'.tables root i₂ ≡ e₂
      → (points_on e₂.flags ≡ true → m'.tables e₂.ppn i₁ ≡ e₁)
      → (points_on e₂.flags ≡ true
          → points_on e₁.flags ≡ true
          → m'.tables e₁.ppn i₀ ≡ m.tables e₁.ppn i₀)
      → lookup root i₂ i₁ i₀ m' ≡ lookup root i₂ i₁ i₀ m
lookup-same root i₂ i₁ i₀ m m' a b c =
    let e₂ = m.tables root i₂ in
    let e₁ = m.tables e₂.ppn i₁ in
    ap (from_top i₁ i₀ m') a ∙ elim (Bool-cases (points_on e₂.flags)) [
      | inl e ↦ rw e (ap (from_mid i₀ m') (b e) ∙ from_mid-same i₀ m m' e₁ (c e))
      | inr e ↦ rw e refl
    ]
