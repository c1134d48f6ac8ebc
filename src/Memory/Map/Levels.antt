-- ===== src/Memory/Map/Levels.antt =====
-- Changes of entries in the two lower levels of the page tables of src/kern/memory.c.
use mathlib.Core.Path.{ap₂}
use operating_systems_final.Prelude.{
  ℕ, ◌%◌, ◌^◌, ◌<◌, ◌≡◌, refl, sym, ap, ◌∙◌, ◌≢◌, inl, inr, true, false, ◌&&◌, none, arith, ◌==◌,
  Bool-cases,
}
use operating_systems_final.Memory.{
  Pte, Memory, null_pte, ptab_pte, points_on, verify_flags, is_ok, set_entry,
}
use operating_systems_final.Memory.Map.Lookup.{lookup, lookup-same, from_low, from_mid, from_top}
use operating_systems_final.Memory.Map.Space.{
  Role, top, mid, low, leaf, IsSpace, IsBlank, Same, null_bad,
}
use operating_systems_final.Memory.Map.Entries.{
  set_entry_self, set_entry_page, set_entry_other, set_entry-IsSpace, ptab_on,
}

through :
    (k p : ℕ) (m : Memory) → m.tables p k ≡ null_pte → p < 2 ^ 44 → from_mid k m (ptab_pte p) ≡ none
through k p m blank small =
    let number : p % 2 ^ 44 ≡ p = omega arith in
    let bad = ap (λ t. is_ok (verify_flags t.flags)) blank ∙ null_bad in
    rw (ptab_on p, number, bad) refl

-- A new table behind an entry of the middle level that led nowhere.
pub set_low-Same :
    {root : ℕ} {role : ℕ → Role} {m : Memory} (p q i j : ℕ)
    → IsSpace root role m
    → role q ≡ mid i
    → role p ≡ low i j
    → IsBlank m p
    → p < 2 ^ 44
    → points_on (m.tables q j).flags ≡ false
    → let m' = set_entry m q j (ptab_pte p) in
      IsSpace root role m'
      × Same root m m'
      × (m'.tables q j ≡ ptab_pte p)
      × ((a b : ℕ) → role a ≡ top → m'.tables a b ≡ m.tables a b)
set_low-Same {root} {role} {m} p q i j s rq rp blank small off =
    let e = ptab_pte p in
    let m' = set_entry m q j e in
    let number : e.ppn ≡ p = omega arith in
    let apart : (a : ℕ) (x : Role) → role a ≡ x → (x ≡ mid i → ⊥) → a ≢ q =
      λ a x r d b. d (sym r ∙ ap role b ∙ rq) in
    let roots : (a b : ℕ) → role a ≡ top → m'.tables a b ≡ m.tables a b =
      λ a b r. set_entry_page m q j a b e (apart a top r (λ z. cc)) in
    (
      set_entry-IsSpace q j e s (λ t o. let bad : mid i ≡ top = sym rq ∙ t in cc)
          (λ a t o.
            let both : mid i ≡ mid a = sym rq ∙ t in
            let same : i ≡ a = cc in ap role number ∙ rp ∙ ap (λ z. low z j) same)
          (λ a b t o u. let bad : mid i ≡ low a b = sym rq ∙ t in cc) (omega arith),
      λ a b c.
          let e₂ = m.tables root a in
          elim (Bool-cases (points_on e₂.flags)) [
            | inr dead ↦ ap (from_top b c m') (roots root a s.tops) ∙ (rw dead refl)
            | inl on ↦ elim (Bool-cases (e₂.ppn == q && b == j)) [
              | inr differ ↦
                  lookup-same root a b c m m' (roots root a s.tops)
                    (λ o. set_entry_other m q j e₂.ppn b e differ)
                    (λ o o'.
                      set_entry_page m q j _ c e
                        (apart _ (low a b) (s.lows _ a b (s.mids a o) o') (λ z. cc)))
              | inl here ↦
                  let page : e₂.ppn ≡ q = ground arith in
                  let index : b ≡ j = ground arith in
                  let new : lookup root a b c m' ≡ none =
                    ap (from_top b c m') (roots root a s.tops)
                    ∙ (rw on (
                        ap (from_mid c m') (ap₂ m'.tables page index ∙ set_entry_self m q j e)
                        ∙ through c p m'
                            (set_entry_page m q j p c e (apart p (low i j) rp (λ z. cc)) ∙ blank c)
                            small)) in
                  let old : lookup root a b c m ≡ none = rw on (
                    let dead : points_on (m.tables e₂.ppn b).flags ≡ false =
                      ap (λ t. points_on t.flags) (ap₂ m.tables page index) ∙ off in
                    rw dead refl) in
                  new ∙ sym old
            ]
          ],
      set_entry_self m q j e,
      roots,
    )

-- A valid or invalid entry in a table of the last level: no other page is mapped otherwise.
pub set_leaf-Same :
    {root : ℕ} {role : ℕ → Role} {m : Memory} (q i j k : ℕ) (e : Pte)
    → IsSpace root role m
    → role q ≡ low i j
    → (is_ok (verify_flags e.flags) ≡ true → e.flags.u ≡ true → role e.ppn ≡ leaf i j k)
    → e.ppn < 2 ^ 44
    → let m' = set_entry m q k e in
      IsSpace root role m'
      × ((a b c : ℕ)
          → (a == i && (b == j && c == k)) ≡ false
          → lookup root a b c m' ≡ lookup root a b c m)
set_leaf-Same {root} {role} {m} q i j k e s rq good small =
    let m' = set_entry m q k e in
    let apart : (a : ℕ) (x : Role) → role a ≡ x → (x ≡ low i j → ⊥) → a ≢ q =
      λ a x r d b. d (sym r ∙ ap role b ∙ rq) in
    (
      set_entry-IsSpace q k e s (λ t o. let bad : low i j ≡ top = sym rq ∙ t in cc)
          (λ a t o. let bad : low i j ≡ mid a = sym rq ∙ t in cc)
          (λ a b t o u.
            let both : low i j ≡ low a b = sym rq ∙ t in
            let same : i ≡ a = cc in
            let same' : j ≡ b = cc in good o u ∙ ap₂ (λ x y. leaf x y k) same same')
          small,
      λ a b c differ.
          lookup-same root a b c m m'
            (set_entry_page m q k root a e (apart root top s.tops (λ z. cc)))
            (λ o. set_entry_page m q k _ b e (apart _ (mid a) (s.mids a o) (λ z. cc)))
            (λ o o'.
              let e₁ = m.tables (m.tables root a).ppn b in
              let there : role e₁.ppn ≡ low a b = s.lows _ a b (s.mids a o) o' in
              elim (Bool-cases (e₁.ppn == q && c == k)) [
                | inr other ↦ set_entry_other m q k e₁.ppn c e other
                | inl here ↦
                    let page : e₁.ppn ≡ q = ground arith in
                    let both : low a b ≡ low i j = sym there ∙ ap role page ∙ rq in
                    let same : a ≡ i = cc in
                    let same' : b ≡ j = cc in
                    let clash : (a == i && (b == j && c == k)) ≡ true = ground arith in cc
              ]),
    )

-- The page itself is mapped by the new entry, if that is valid.
pub set_leaf-lookup :
    {root : ℕ} {role : ℕ → Role} {m : Memory} (q i j k : ℕ) (e : Pte)
    → IsSpace root role m
    → role q ≡ low i j
    → points_on (m.tables root i).flags ≡ true
    → points_on (m.tables (m.tables root i).ppn j).flags ≡ true
    → (m.tables (m.tables root i).ppn j).ppn ≡ q
    → lookup root i j k (set_entry m q k e) ≡ from_low e
set_leaf-lookup {root} {role} {m} q i j k e s rq on on' page =
    let m' = set_entry m q k e in
    let apart : (a : ℕ) (x : Role) → role a ≡ x → (x ≡ low i j → ⊥) → a ≢ q =
      λ a x r d b. d (sym r ∙ ap role b ∙ rq) in
    let e₂ = m.tables root i in
    let e₁ = m.tables e₂.ppn j in
    ap (from_top j k m') (set_entry_page m q k root i e (apart root top s.tops (λ z. cc)))
    ∙ rw on (
        ap (from_mid k m')
          (set_entry_page m q k e₂.ppn j e (apart _ (mid i) (s.mids i on) (λ z. cc)))
        ∙ rw on' (ap from_low (ap (λ z. m'.tables z k) page ∙ set_entry_self m q k e)))
