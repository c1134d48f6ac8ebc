-- ===== src/Memory/Map/Cut.antt =====
-- The uses of pages once one is unmapped, for unmap_user_page of src/kern/memory.c.
use mathlib.Core.Path.{ap₂}
use operating_systems_final.Prelude.{
  ℕ, ◌^◌, ◌<◌, ◌≡◌, refl, sym, ap, ◌∙◌, ◌≢◌, ◌⊎◌, inl, inr, true, false, ◌&&◌, ◌||◌, arith, ◌==◌,
  if◌then◌else◌, Bool-cases,
}
use operating_systems_final.Sched.Queues.{All-imp}
use operating_systems_final.Memory.{
  Memory, null_pte, points_on, verify_flags, is_ok, memory_free_page,
}
use operating_systems_final.Memory.Map.Space.{
  Role, unused, top, elsewhere, mid, low, leaf, IsSpace, null_bad,
}

-- Tables for the entries `i` and `j` that the walk does not reach lose that use.
abbrev demote : ℕ → ℕ → Role → Role
demote i j unused = unused
demote i j top = top
demote i j elsewhere = elsewhere
demote i j (mid a) = if a == i then elsewhere else mid a
demote i j (low a b) = if a == i && b == j then elsewhere else low a b
demote i j (leaf a b c) = leaf a b c

demote-mid : (i j a : ℕ) (r : Role) → demote i j r ≡ mid a → (r ≡ mid a) × ((a == i) ≡ false)
demote-mid i j a unused e = cc
demote-mid i j a top e = cc
demote-mid i j a elsewhere e = cc
demote-mid i j a (leaf x y z) e = cc
demote-mid i j a (mid x) e = elim (Bool-cases (x == i)) [
  | inl t ↦ let bad : elsewhere ≡ mid a = sym (rw t refl) ∙ e in cc
  | inr f ↦
      let same : mid x ≡ mid a = sym (rw f refl) ∙ e in
      let index : x ≡ a = cc in (same, ap (λ z. z == i) (sym index) ∙ f)
]
demote-mid i j a (low x y) e = elim (Bool-cases (x == i && y == j)) [
  | inl t ↦ let bad : elsewhere ≡ mid a = sym (rw t refl) ∙ e in cc
  | inr f ↦ let bad : low x y ≡ mid a = sym (rw f refl) ∙ e in cc
]

demote-low :
    (i j a b : ℕ) (r : Role) → demote i j r ≡ low a b → (r ≡ low a b) × ((a == i && b == j) ≡ false)
demote-low i j a b unused e = cc
demote-low i j a b top e = cc
demote-low i j a b elsewhere e = cc
demote-low i j a b (leaf x y z) e = cc
demote-low i j a b (mid x) e = elim (Bool-cases (x == i)) [
  | inl t ↦ let bad : elsewhere ≡ low a b = sym (rw t refl) ∙ e in cc
  | inr f ↦ let bad : mid x ≡ low a b = sym (rw f refl) ∙ e in cc
]
demote-low i j a b (low x y) e = elim (Bool-cases (x == i && y == j)) [
  | inl t ↦ let bad : elsewhere ≡ low a b = sym (rw t refl) ∙ e in cc
  | inr f ↦
      let same : low x y ≡ low a b = sym (rw f refl) ∙ e in
      let first : x ≡ a = cc in
      let second : y ≡ b = cc in (same, sym (ap₂ (λ u v. u == i && v == j) first second) ∙ f)
]

demote-leaf : (i j a b c : ℕ) (r : Role) → demote i j r ≡ leaf a b c → r ≡ leaf a b c
demote-leaf i j a b c unused e = cc
demote-leaf i j a b c top e = cc
demote-leaf i j a b c elsewhere e = cc
demote-leaf i j a b c (leaf x y z) e = e
demote-leaf i j a b c (mid x) e = elim (Bool-cases (x == i)) [
  | inl t ↦ let bad : elsewhere ≡ leaf a b c = sym (rw t refl) ∙ e in cc
  | inr f ↦ let bad : mid x ≡ leaf a b c = sym (rw f refl) ∙ e in cc
]
demote-leaf i j a b c (low x y) e = elim (Bool-cases (x == i && y == j)) [
  | inl t ↦ let bad : elsewhere ≡ leaf a b c = sym (rw t refl) ∙ e in cc
  | inr f ↦ let bad : low x y ≡ leaf a b c = sym (rw f refl) ∙ e in cc
]

demote-other : (i j a b : ℕ) → (a == i && b == j) ≡ false → demote i j (low a b) ≡ low a b
demote-other i j a b f = rw f refl

module _ (role : ℕ → Role) (p q t i j k : ℕ) (rp : role p ≡ leaf i j k) (rq : role q ≡ low i j)
    (rt : role t ≡ mid i) where
  -- The page `p` has been freed, and of the tables for `i` and `j` only `t` and `q` are left.
  abbrev pub cut : ℕ → Role
  cut x = if x == p then unused else if x == q || x == t then role x else demote i j (role x)

  pub cut_page : cut p ≡ unused
  cut_page = let at : (p == p) ≡ true = ground arith in rw at refl

  cut_table : (x : ℕ) → x ≢ p → (x ≡ q) ⊎ (x ≡ t) → cut x ≡ role x
  cut_table x d h =
      let a : (x == p) ≡ false = ground arith in
      let b : (x == q || x == t) ≡ true = elim h [ inl e ↦ ground arith | inr e ↦ ground arith ] in
      rw (a, b) refl

  cut_other : (x : ℕ) → x ≢ p → demote i j (role x) ≡ role x → cut x ≡ role x
  cut_other x d e =
      let a : (x == p) ≡ false = ground arith in
      elim (Bool-cases (x == q || x == t)) [ inl b ↦ rw (a, b) refl | inr b ↦ rw (a, b) e ]

  -- What a use tells of a page.
  cut-cases :
      (x : ℕ) (r : Role)
      → cut x ≡ r
      → (r ≡ unused → ⊥)
      → (x ≢ p)
        × (((x ≡ q) × (role x ≡ r)) ⊎ (((x ≡ t) × (role x ≡ r)) ⊎ (demote i j (role x) ≡ r)))
  cut-cases x r e d = elim (Bool-cases (x == p)) [
    | inl a ↦ let bad : unused ≡ r = sym (rw a refl) ∙ e in absurd (d (sym bad))
    | inr a ↦
        let away : x ≢ p = ground arith in
        (
          away,
          elim (Bool-cases (x == q)) [
            | inl b ↦ inl (ground arith, sym (rw (a, b) refl) ∙ e)
            | inr b ↦ elim (Bool-cases (x == t)) [
              | inl c ↦ inr (inl (ground arith, sym (rw (a, b, c) refl) ∙ e))
              | inr c ↦ inr (inr (sym (rw (a, b, c) refl) ∙ e))
            ]
          ],
        )
  ]

  cut-mid : (x a : ℕ) → cut x ≡ mid a → (role x ≡ mid a) × ((x ≡ t) ⊎ ((a == i) ≡ false))
  cut-mid x a e = elim (cut-cases x (mid a) e (λ b. cc)).1 [
    | inl (there, r) ↦ let bad : low i j ≡ mid a = sym rq ∙ ap role (sym there) ∙ r in cc
    | inr (inl (there, r)) ↦ (r, inl there)
    | inr (inr d) ↦ let (r, f) = demote-mid i j a (role x) d in (r, inr f)
  ]

  cut-low :
      (x a b : ℕ) → cut x ≡ low a b → (role x ≡ low a b) × ((x ≡ q) ⊎ ((a == i && b == j) ≡ false))
  cut-low x a b e = elim (cut-cases x (low a b) e (λ z. cc)).1 [
    | inl (there, r) ↦ (r, inl there)
    | inr (inl (there, r)) ↦ let bad : mid i ≡ low a b = sym rt ∙ ap role (sym there) ∙ r in cc
    | inr (inr d) ↦ let (r, f) = demote-low i j a b (role x) d in (r, inr f)
  ]

  pub cut-leaf : (x a b c : ℕ) → cut x ≡ leaf a b c → role x ≡ leaf a b c
  cut-leaf x a b c e = elim (cut-cases x (leaf a b c) e (λ z. cc)).1 [
    | inl (there, r) ↦ r
    | inr (inl (there, r)) ↦ r
    | inr (inr d) ↦ demote-leaf i j a b c (role x) d
  ]

  away : (x : ℕ) (r : Role) → role x ≡ r → (r ≡ leaf i j k → ⊥) → x ≢ p
  away x r e d same = d (sym e ∙ ap role same ∙ rp)

  cut_to_low :
      (m : Memory) (root x a b : ℕ)
      → IsSpace root role m
      → (m.tables t j).ppn ≡ q
      → cut x ≡ mid a
      → points_on (m.tables x b).flags ≡ true
      → cut (m.tables x b).ppn ≡ low a b
  cut_to_low m root x a b s to_q r on =
      let (was, place) = cut-mid x a r in
      let next = s.lows x a b was on in
      let far = away (m.tables x b).ppn (low a b) next (λ z. cc) in
      elim (Bool-cases (a == i && b == j)) [
        | inr f ↦ cut_other _ far (ap (demote i j) next ∙ demote-other i j a b f ∙ sym next) ∙ next
        | inl here ↦ elim place [
          | inl at ↦
              let index : b ≡ j = ground arith in
              let to : (m.tables x b).ppn ≡ q = ap₂ (λ u v. (m.tables u v).ppn) at index ∙ to_q in
              cut_table _ far (inl to) ∙ next
          | inr f ↦ let bad : (a == i && b == j) ≡ false = rw f refl in cc
        ]
      ]

  cut_to_leaf :
      (m : Memory) (root x a b c : ℕ)
      → IsSpace root role m
      → m.tables q k ≡ null_pte
      → cut x ≡ low a b
      → is_ok (verify_flags (m.tables x c).flags) ≡ true
      → (m.tables x c).flags.u ≡ true
      → cut (m.tables x c).ppn ≡ leaf a b c
  cut_to_leaf m root x a b c s gone r ok user =
      let (was, place) = cut-low x a b r in
      let next = s.leaves x a b c was ok user in
      let far : (m.tables x c).ppn ≢ p = λ same.
        let both : leaf a b c ≡ leaf i j k = sym next ∙ ap role same ∙ rp in
        let first : a ≡ i = cc in
        let second : b ≡ j = cc in
        let third : c ≡ k = cc in
        elim place [
          | inl at ↦
              let bad : true ≡ false =
                sym ok
                ∙ ap (λ e. is_ok (verify_flags e.flags)) (ap₂ m.tables at third ∙ gone)
                ∙ null_bad in
              cc
          | inr f ↦ let clash : (a == i && b == j) ≡ true = ground (arith, first, second) in cc
        ] in
      cut_other _ far (ap (demote i j) next ∙ sym next) ∙ next

  -- The page is free, and the tables still make a tree.
  pub memory_free_page-IsSpace :
      (m : Memory) (root : ℕ)
      → IsSpace root role m
      → (m.tables root i).ppn ≡ t
      → (m.tables t j).ppn ≡ q
      → m.tables q k ≡ null_pte
      → p < 2 ^ 44
      → IsSpace root cut (memory_free_page p m)
  unfolding memory_free_page
  memory_free_page-IsSpace m root s to_t to_q gone small = record {
    tops =
        cut_other root (away root top s.tops (λ z. cc)) (ap (demote i j) s.tops ∙ sym s.tops)
        ∙ s.tops;
    mids = λ a on.
        let next = s.mids a on in
        let far = away (m.tables root a).ppn (mid a) next (λ z. cc) in
        elim (Bool-cases (a == i)) [
          | inl here ↦
              let index : a ≡ i = ground arith in
              cut_table _ far (inr (ap (λ z. (m.tables root z).ppn) index ∙ to_t)) ∙ next
          | inr f ↦ cut_other _ far (ap (demote i j) next ∙ (rw f refl) ∙ sym next) ∙ next
        ];
    lows = λ x a b r on. cut_to_low m root x a b s to_q r on;
    leaves = λ x a b c r ok user. cut_to_leaf m root x a b c s gone r ok user;
    narrow = s.narrow;
    free = (
      (cut_page, small),
      All-imp _ _ m.free_list
          (λ x there f.
            (cut_other x (away x unused f.0 (λ z. cc)) (ap (demote i j) f.0 ∙ sym f.0) ∙ f.0, f.1))
          s.free,
    );
    distinct =
        (All-imp _ _ m.free_list (λ x there f. away x unused f.0 (λ z. cc)) s.free, s.distinct);
  }
