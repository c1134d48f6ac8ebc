-- ===== src/Memory/Map/Entries.antt =====
-- Changes of one entry of a page table of src/kern/memory.c.
use mathlib.Core.Path.{subst}
use operating_systems_final.Prelude.{
  ℕ, ◌%◌, ◌^◌, ◌<◌, ◌≡◌, refl, sym, ap, ◌∙◌, ◌≢◌, inl, inr, true, false, ◌&&◌, none, arith, ◌==◌,
  Bool-cases,
}
use operating_systems_final.Memory.{
  Pte, Memory, null_pte, ptab_pte, points_on, verify_flags, is_ok, set_entry,
}
use operating_systems_final.Memory.Map.Lookup.{lookup, lookup-same, from_mid, from_top}
use operating_systems_final.Memory.Map.Space.{
  Role, top, mid, low, leaf, IsSpace, IsBlank, Same, null_off,
}

pub set_entry_self : (m : Memory) (pt i : ℕ) (e : Pte) → (set_entry m pt i e).tables pt i ≡ e
unfolding set_entry
set_entry_self m pt i e =
    let a : (pt == pt) ≡ true = ground arith in
    let b : (i == i) ≡ true = ground arith in rw (a, b) refl

pub set_entry_page :
    (m : Memory) (pt i p j : ℕ) (e : Pte) → p ≢ pt → (set_entry m pt i e).tables p j ≡ m.tables p j
unfolding set_entry
set_entry_page m pt i p j e d = let a : (p == pt) ≡ false = ground arith in rw a refl

pub set_entry_index :
    (m : Memory) (pt i p j : ℕ) (e : Pte) → j ≢ i → (set_entry m pt i e).tables p j ≡ m.tables p j
unfolding set_entry
set_entry_index m pt i p j e d =
    let a : (j == i) ≡ false = ground arith in
    let b : (p == pt && j == i) ≡ false = ground (arith, a) in rw b refl

pub set_entry_free :
    (m : Memory) (pt i : ℕ) (e : Pte) → (set_entry m pt i e).free_list ≡ m.free_list
unfolding set_entry
set_entry_free m pt i e = refl

pub set_entry_other :
    (m : Memory) (pt i p j : ℕ) (e : Pte)
    → (p == pt && j == i) ≡ false
    → (set_entry m pt i e).tables p j ≡ m.tables p j
unfolding set_entry
set_entry_other m pt i p j e d = rw d refl

-- The entry at a place is the new one, if it is that place, or the old one.
set_entry-cases :
    (P : Pte → Type 0) (m : Memory) (pt i p j : ℕ) (e : Pte)
    → (p ≡ pt → j ≡ i → P e)
    → P (m.tables p j)
    → P ((set_entry m pt i e).tables p j)
unfolding set_entry
set_entry-cases P m pt i p j e new old = elim (Bool-cases (p == pt && j == i)) [
  | inl here ↦ rw here (new (ground arith) (ground arith))
  | inr there ↦ rw there old
]

pub set_entry-IsSpace :
    {root : ℕ} {role : ℕ → Role} {m : Memory} (pt i : ℕ) (e : Pte)
    → IsSpace root role m
    → (role pt ≡ top → points_on e.flags ≡ true → role e.ppn ≡ mid i)
    → ((a : ℕ) → role pt ≡ mid a → points_on e.flags ≡ true → role e.ppn ≡ low a i)
    → ((a b : ℕ)
        → role pt ≡ low a b
        → is_ok (verify_flags e.flags) ≡ true
        → e.flags.u ≡ true
        → role e.ppn ≡ leaf a b i)
    → e.ppn < 2 ^ 44
    → IsSpace root role (set_entry m pt i e)
unfolding set_entry
set_entry-IsSpace {root} {role} {m} pt i e s in_top in_mid in_low small = record {
  tops = s.tops;
  mids = λ a.
      set_entry-cases (λ t. points_on t.flags ≡ true → role t.ppn ≡ mid a) m pt i root a e
        (λ here at o.
          subst (λ x. role e.ppn ≡ mid x) (sym at) (in_top (ap role (sym here) ∙ s.tops) o))
        (s.mids a);
  lows = λ p a b r.
      set_entry-cases (λ t. points_on t.flags ≡ true → role t.ppn ≡ low a b) m pt i p b e
        (λ here at o.
          subst (λ x. role e.ppn ≡ low a x) (sym at) (in_mid a (ap role (sym here) ∙ r) o))
        (s.lows p a b r);
  leaves = λ p a b c r.
      set_entry-cases
        (λ t. is_ok (verify_flags t.flags) ≡ true → t.flags.u ≡ true → role t.ppn ≡ leaf a b c) m pt
        i p c e
        (λ here at o u.
          subst (λ x. role e.ppn ≡ leaf a b x) (sym at) (in_low a b (ap role (sym here) ∙ r) o u))
        (s.leaves p a b c r);
  narrow =
      λ p j. set_entry-cases (λ t. t.ppn < 2 ^ 44) m pt i p j e (λ here at. small) (s.narrow p j);
  free = s.free;
  distinct = s.distinct;
}

-- A lookup through an entry for a blank table finds nothing.
pub blank_none :
    (k : ℕ) (m : Memory) (p j : ℕ) → m.tables p j ≡ null_pte → from_mid k m (m.tables p j) ≡ none
blank_none k m p j e = let off = ap (λ t. points_on t.flags) e ∙ null_off in rw off refl

pub ptab_on : (p : ℕ) → points_on (ptab_pte p).flags ≡ true
unfolding points_on verify_flags
ptab_on p = refl

pub into_blank :
    (j k p : ℕ) (m : Memory)
    → m.tables p j ≡ null_pte
    → p < 2 ^ 44
    → from_top j k m (ptab_pte p) ≡ none
into_blank j k p m blank small =
    let number : p % 2 ^ 44 ≡ p = omega arith in rw (ptab_on p, number) (blank_none k m p j blank)

-- A new table behind an entry that led nowhere.
pub set_mid-Same :
    {root : ℕ} {role : ℕ → Role} {m : Memory} (p i : ℕ)
    → IsSpace root role m
    → role p ≡ mid i
    → IsBlank m p
    → p < 2 ^ 44
    → points_on (m.tables root i).flags ≡ false
    → let m' = set_entry m root i (ptab_pte p) in
      IsSpace root role m'
      × Same root m m'
      × (m'.tables root i ≡ ptab_pte p)
      × ((ptab_pte p).ppn ≡ p)
      × (points_on (m'.tables root i).flags ≡ true)
set_mid-Same {root} {role} {m} p i s r blank small off =
    let m' = set_entry m root i (ptab_pte p) in
    let number : (ptab_pte p).ppn ≡ p = omega arith in
    let other : p ≢ root = λ b. let bad : mid i ≡ top = sym r ∙ ap role b ∙ s.tops in cc in
    let kept : (q j : ℕ) (a : Role) → role q ≡ a → (a ≡ top → ⊥) → m'.tables q j ≡ m.tables q j =
      λ q j a e d. set_entry_page m root i q j (ptab_pte p) (λ b. d (sym e ∙ ap role b ∙ s.tops)) in
    (
      set_entry-IsSpace root i (ptab_pte p) s (λ t o. ap role number ∙ r)
          (λ a t o. let bad : mid a ≡ top = sym t ∙ s.tops in cc)
          (λ a b t o u. let bad : low a b ≡ top = sym t ∙ s.tops in cc) (omega arith),
      λ a b c. elim (Bool-cases (a == i)) [
        | inl same ↦
            let new : lookup root i b c m' ≡ none =
              ap (from_top b c m') (set_entry_self m root i (ptab_pte p))
              ∙ into_blank b c p m' ((kept p b (mid i) r (λ z. cc)) ∙ blank b) small in
            let old : lookup root i b c m ≡ none = rw off refl in
            subst (λ z. lookup root z b c m' ≡ lookup root z b c m) (ground arith) (new ∙ sym old)
        | inr differ ↦
            lookup-same root a b c m m'
              (set_entry_index m root i root a (ptab_pte p) (ground arith))
              (λ o. kept _ b (mid a) (s.mids a o) (λ z. cc))
              (λ o o'. kept _ c (low a b) (s.lows _ a b (s.mids a o) o') (λ z. cc))
      ],
      set_entry_self m root i (ptab_pte p),
      number,
      ap (λ t. points_on t.flags) (set_entry_self m root i (ptab_pte p)) ∙ ptab_on p,
    )
