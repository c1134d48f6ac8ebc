-- ===== src/Memory/Map/Place.antt =====
-- The last level of walk_pt of src/kern/memory.c where it may map a page.
use operating_systems_final.Prelude.{
  ℕ, suc, ◌≤◌, ◌<◌, ◌≡◌, refl, sym, ap, ◌∙◌, ◌⊎◌, inl, inr, true, false, ◌&&◌, none, some, arith,
  ◌==◌, Bool-cases, length,
}
use operating_systems_final.Memory.{
  Pte, Memory, no_flags, leaf_pte, points_on, verify_flags, is_ok, set_entry, find_leaf,
}
use operating_systems_final.Memory.Map.Lookup.{lookup, from_low}
use operating_systems_final.Memory.Map.Space.{
  Role, unused, top, mid, low, leaf, assign, assign_self, IsSpace, memory_alloc_page-IsSpace,
}
use operating_systems_final.Memory.Map.Levels.{set_leaf-Same, set_leaf-lookup}
use operating_systems_final.Memory.Map.Create.{Grown, assign-Grown, first_free, counted}

-- The entry for a page, after a walk that had to end at one.
pub record Placed (root : ℕ) (role : ℕ → Role) (m : Memory) (i j k : ℕ) (m' : Memory)
    (role' : ℕ → Role) (entry : Pte) : Type 0 where
  pub space : IsSpace root role' m'
  pub others :
      (a b c : ℕ)
      → (a == i && (b == j && c == k)) ≡ false
      → lookup root a b c m' ≡ lookup root a b c m
  pub found : lookup root i j k m' ≡ some entry
  pub origin :
      (lookup root i j k m ≡ some entry)
      ⊎ ((lookup root i j k m ≡ none) × (role entry.ppn ≡ unused) × (role' entry.ppn ≡ leaf i j k))
  pub grown : Grown role role'

readable_ok :
    (p : ℕ) → is_ok (verify_flags (leaf_pte p (record no_flags { r = true })).flags) ≡ true
unfolding verify_flags
readable_ok p = refl

through_both :
    (root q i j k : ℕ) (m : Memory)
    → points_on (m.tables root i).flags ≡ true
    → points_on (m.tables (m.tables root i).ppn j).flags ≡ true
    → (m.tables (m.tables root i).ppn j).ppn ≡ q
    → lookup root i j k m ≡ from_low (m.tables q k)
through_both root q i j k m on on' page = rw (on, on') (ap (λ z. from_low (m.tables z k)) page)

pub find_leaf-Placed :
    (root q i j k : ℕ) (role : ℕ → Role) (m : Memory)
    → IsSpace root role m
    → role q ≡ low i j
    → points_on (m.tables root i).flags ≡ true
    → points_on (m.tables (m.tables root i).ppn j).flags ≡ true
    → (m.tables (m.tables root i).ppn j).ppn ≡ q
    → 0 < length m.free_list
    → (m' : Memory) × (role' : ℕ → Role) × (entry : Pte) × (find_leaf true q k m
        ≡ some (some (q, k), m'))
      × Placed root role m i j k m' role' entry
      × (length m.free_list ≤ suc (length m'.free_list))
unfolding find_leaf
find_leaf-Placed root q i j k role m s rq on on' page h =
    let now = through_both root q i j k m on on' page in
    elim (Bool-cases (is_ok (verify_flags (m.tables q k).flags))) [
      | inl ok ↦
          let found : lookup root i j k m ≡ some (m.tables q k) = now ∙ (rw ok refl) in
          (
            m,
            role,
            m.tables q k,
            rw ok refl,
            record {
              space = s;
              others = λ a b c d. refl;
              found = found;
              origin = inl found;
              grown = λ x d. refl;
            },
            omega arith,
          )
      | inr bad ↦
          let (p, ps, e) = first_free m.free_list h in
          let (m₁, taken, s₁, blank, same₁, was, small, left, kept) =
            memory_alloc_page-IsSpace p ps (leaf i j k) s e in
          let t = leaf_pte p (record no_flags { r = true }) in
          let number : t.ppn ≡ p = omega arith in
          let grown = assign-Grown role p (leaf i j k) was in
          let in_use : role q ≡ unused → ⊥ = λ z. let clash : unused ≡ low i j = sym z ∙ rq in cc in
          let root_in : role root ≡ unused → ⊥ =
            λ z. let clash : unused ≡ top = sym z ∙ s.tops in cc in
          let mid_in : role (m.tables root i).ppn ≡ unused → ⊥ =
            λ z. let clash : unused ≡ mid i = sym z ∙ s.mids i on in cc in
          let kept_root = kept root i root_in in
          let kept_mid : m₁.tables (m₁.tables root i).ppn j ≡ m.tables (m.tables root i).ppn j =
            ap (λ x. m₁.tables x.ppn j) kept_root ∙ kept _ j mid_in in
          let rq₁ = grown q in_use ∙ rq in
          let (s₂, others) =
            set_leaf-Same q i j k t s₁ rq₁ (λ o u. let clash : true ≡ false = sym u in cc)
              (omega arith) in
          (
            set_entry m₁ q k t,
            assign role p (leaf i j k),
            t,
            rw (bad, taken) refl,
            record {
              space = s₂;
              others = λ a b c d. others a b c d ∙ same₁ a b c;
              found =
                  set_leaf-lookup q i j k t s₁ rq₁ (ap (λ x. points_on x.flags) kept_root ∙ on)
                    (ap (λ x. points_on x.flags) kept_mid ∙ on') (ap (λ x. x.ppn) kept_mid ∙ page)
                  ∙ (rw (readable_ok p) refl);
              origin = inr (
                now ∙ (rw bad refl),
                ap role number ∙ was,
                ap (assign role p (leaf i j k)) number ∙ assign_self role p (leaf i j k),
              );
              grown = grown;
            },
            counted m m₁ q k t ps p e left,
          )
    ]
