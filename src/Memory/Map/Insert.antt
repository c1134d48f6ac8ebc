-- ===== src/Memory/Map/Insert.antt =====
-- memory_alloc_and_map_page of src/kern/memory.c, as an insertion into the map that the tables are.
use mathlib.Core.Path.{subst}
use operating_systems_final.Prelude.{
  ℕ, ◌+◌, ◌^◌, ◌≤◌, ◌<◌, ◌≡◌, refl, sym, ap, ◌∙◌, ◌⊎◌, inl, inr, true, false, not, ◌&&◌, ◌||◌, none,
  some, arith, ◌==◌, if◌then◌else◌, Bool-cases, length, set,
}
use operating_systems_final.Memory.{
  Flags, Pte, Memory, vpn2, vpn1, vpn0, points_on, verify_flags, is_ok, set_entry, walk_on, walk_pt,
}
use operating_systems_final.Memory.Map.{
  with_flags, set_flags_at, memory_set_page_flags, memory_alloc_and_map_page,
}
use operating_systems_final.Memory.Map.Lookup.{lookup, entry_of, lookup-Leads, walk_pt-lookup}
use operating_systems_final.Memory.Map.Address.{same_page, entry_of-update}
use operating_systems_final.Memory.Map.Space.{Role, unused, low, leaf, IsSpace, Same}
use operating_systems_final.Memory.Map.Entries.{set_entry_free}
use operating_systems_final.Memory.Map.Levels.{set_leaf-Same, set_leaf-lookup}
use operating_systems_final.Memory.Map.Create.{
  Grown, Grown-unused, Grown-trans, descend-top, descend-mid,
}
use operating_systems_final.Memory.Map.Place.{Placed, find_leaf-Placed}

-- A walk that may create tables and map a page ends at an entry.
walk_pt-Placed :
    (root vma : ℕ) (role : ℕ → Role) (m : Memory)
    → IsSpace root role m
    → 3 ≤ length m.free_list
    → (m' : Memory) × (role' : ℕ → Role) × (entry : Pte) × (place : ℕ × ℕ) × (walk_pt true root vma
          m
        ≡ some (some place, m'))
      × Placed root role m (vpn2 vma) (vpn1 vma) (vpn0 vma) m' role' entry
      × (length m.free_list ≤ 3 + length m'.free_list)
unfolding walk_pt walk_on
walk_pt-Placed root vma role m s h =
    let i = vpn2 vma in
    let j = vpn1 vma in
    let k = vpn0 vma in
    let (p₁, m₁, role₁, step₁, t₁) = descend-top root i role m s (omega arith) in
    let (p₀, m₀, role₀, step₀, t₀, roots) =
      descend-mid root p₁ i j role₁ m₁ t₁.space t₁.use_of (omega (arith, t₁.room)) in
    let on : points_on (m₀.tables root i).flags ≡ true =
      ap (λ t. points_on t.flags) (roots i) ∙ t₁.on in
    let next : (m₀.tables root i).ppn ≡ p₁ = ap (λ t. t.ppn) (roots i) ∙ t₁.leads in
    let on' = ap (λ z. points_on (m₀.tables z j).flags) next ∙ t₀.on in
    let next' = ap (λ z. (m₀.tables z j).ppn) next ∙ t₀.leads in
    let (m', role', entry, step, placed, room) =
      find_leaf-Placed root p₀ i j k role₀ m₀ t₀.space t₀.use_of on on' next'
        (omega (arith, t₁.room, t₀.room)) in
    let same : Same root m m₀ = λ a b c. t₀.same a b c ∙ t₁.same a b c in
    let grown = Grown-trans role role₁ role₀ t₁.grown t₀.grown in
    (
      m',
      role',
      entry,
      (p₀, k),
      rw (step₁, step₀) step,
      record {
        space = placed.space;
        others = λ a b c d. placed.others a b c d ∙ same a b c;
        found = placed.found;
        origin = elim placed.origin [
          | inl e ↦ inl (sym (same i j k) ∙ e)
          | inr (e, was, now) ↦
              inr (sym (same i j k) ∙ e, Grown-unused role role₀ entry.ppn grown was, now)
        ];
        grown = Grown-trans role role₀ role' grown placed.grown;
      },
      omega (arith, t₁.room, t₀.room, room),
    )

with_flags_ok :
    (f want : Flags)
    → is_ok (verify_flags f) ≡ true
    → (want.r || not want.w) ≡ true
    → is_ok (verify_flags (with_flags f want)) ≡ true
unfolding verify_flags
with_flags_ok f want ok sane = elim (Bool-cases f.v) [
  | inl v ↦ elim (Bool-cases want.r) [
    | inl r ↦ rw (v, r) refl
    | inr r ↦ let w : want.w ≡ false = ground (arith, r, sane) in rw (v, r, w) refl
  ]
  | inr v ↦ let bad : is_ok (verify_flags f) ≡ false = rw v refl in cc
]

-- A page that is mapped gets the wanted flags and keeps its entry's page number.
pub memory_set_page_flags-lookup :
    {root : ℕ} {role : ℕ → Role} {m : Memory} (vma : ℕ) (want : Flags) (e : Pte)
    → IsSpace root role m
    → entry_of root vma m ≡ some e
    → (want.r || not want.w) ≡ true
    → (want.u ≡ true → role e.ppn ≡ leaf (vpn2 vma) (vpn1 vma) (vpn0 vma))
    → (m' : Memory) × (memory_set_page_flags root vma want m ≡ some m')
      × IsSpace root role m'
      × (entry_of root vma m' ≡ some (record e { flags = with_flags e.flags want }))
      × ((a b c : ℕ)
          → (a == vpn2 vma && (b == vpn1 vma && c == vpn0 vma)) ≡ false
          → lookup root a b c m' ≡ lookup root a b c m)
      × (m'.free_list ≡ m.free_list)
unfolding memory_set_page_flags set_flags_at
memory_set_page_flags-lookup {root} {role} {m} vma want e s found sane used =
    let i = vpn2 vma in
    let j = vpn1 vma in
    let k = vpn0 vma in
    let l = lookup-Leads root i j k m e found in
    let q = (m.tables (m.tables root i).ppn j).ppn in
    let new : Pte = record e { flags = with_flags e.flags want } in
    let rq : role q ≡ low i j = s.lows _ i j (s.mids i l.on₂) l.on₁ in
    let ok = with_flags_ok e.flags want l.ok₀ sane in
    let small = subst (λ t. t.ppn < 2 ^ 44) l.here (s.narrow q k) in
    let (space, others) = set_leaf-Same q i j k new s rq (λ o u. used u) small in
    elim (walk_pt-lookup root vma m) [
      | inl (missing, step) ↦ let clash : none ≡ some e = sym missing ∙ found in cc
      | inr (leads, step) ↦ (
        set_entry m q k new,
        rw step (
            rw (ap (λ t. is_ok (verify_flags t.flags)) l.here ∙ l.ok₀) (
              ap (λ t. some (set_entry m q k (record t { flags = with_flags t.flags want })))
                l.here)),
        space,
        set_leaf-lookup q i j k new s rq l.on₂ l.on₁ refl ∙ (rw ok refl),
        others,
        set_entry_free m q k new,
      )
    ]

-- The memory after a page was mapped, where it was not, and got the wanted flags.
pub record Inserted (root : ℕ) (role : ℕ → Role) (m : Memory) (vma : ℕ) (want : Flags) (m' : Memory)
    (role' : ℕ → Role) (entry : Pte) : Type 0 where
  pub space : IsSpace root role' m'
  pub reads :
      (w : ℕ) → entry_of root w m' ≡ (if same_page w vma then some entry else entry_of root w m)
  pub flags : entry.flags ≡ record want { v = true; a = entry.flags.a; d = entry.flags.d }
  pub origin :
      ((entry_of root vma m ≡ none) × (role entry.ppn ≡ unused))
      ⊎ ((e : Pte) × (entry_of root vma m ≡ some e) × (entry.ppn ≡ e.ppn))
  pub use_of : role' entry.ppn ≡ leaf (vpn2 vma) (vpn1 vma) (vpn0 vma)
  pub grown : Grown role role'
  pub room : length m.free_list ≤ 3 + length m'.free_list

valid_v : (f : Flags) → is_ok (verify_flags f) ≡ true → f.v ≡ true
unfolding verify_flags
valid_v f ok = elim (Bool-cases f.v) [
  | inl v ↦ v
  | inr v ↦ let bad : is_ok (verify_flags f) ≡ false = rw v refl in cc
]

-- A valid entry for user code is of a page that is the one of its place.
pub entry_leaf :
    {root : ℕ} {role : ℕ → Role} {m : Memory} (i j k : ℕ) (e : Pte)
    → IsSpace root role m
    → lookup root i j k m ≡ some e
    → e.flags.u ≡ true
    → role e.ppn ≡ leaf i j k
entry_leaf {root} {role} {m} i j k e s found user =
    let l = lookup-Leads root i j k m e found in
    let ok = ap (λ t. is_ok (verify_flags t.flags)) l.here ∙ l.ok₀ in
    ap (λ t. role t.ppn) (sym l.here)
    ∙ s.leaves _ i j k (s.lows _ i j (s.mids i l.on₂) l.on₁) ok (ap (λ t. t.flags.u) l.here ∙ user)

-- In a space whose tables make a tree, with three free pages, wanted flags that have R where they
-- have W, and an address whose page has no entry or one for user code, `memory_alloc_and_map_page`
-- succeeds: the entry of the page is valid and has the wanted flags R, W, X, U and G, every other
-- page reads the entry it had, the page is a free one or the one that was mapped there, the tables
-- still make a tree, and at most three pages have been taken.
pub memory_alloc_and_map_page-insert :
    {root : ℕ} {role : ℕ → Role} {m : Memory} (vma : ℕ) (want : Flags)
    → IsSpace root role m
    → 3 ≤ length m.free_list
    → (want.r || not want.w) ≡ true
    → ((e : Pte) → entry_of root vma m ≡ some e → e.flags.u ≡ true)
    → (m' : Memory) × (role' : ℕ → Role) × (entry : Pte) × (memory_alloc_and_map_page root vma want
          m
        ≡ some m')
      × Inserted root role m vma want m' role' entry
unfolding memory_alloc_and_map_page
memory_alloc_and_map_page-insert {root} {role} {m} vma want s h sane user =
    let i = vpn2 vma in
    let j = vpn1 vma in
    let k = vpn0 vma in
    let (m₁, role₁, e, place, step, placed, room) = walk_pt-Placed root vma role m s h in
    let used : role₁ e.ppn ≡ leaf i j k = elim placed.origin [
      | inl same ↦
          let was = entry_leaf i j k e s same (user e same) in
          placed.grown e.ppn (λ z. let clash : unused ≡ leaf i j k = sym z ∙ was in cc) ∙ was
      | inr (fresh, free, now) ↦ now
    ] in
    let (m', set, space, found, others, left) =
      memory_set_page_flags-lookup vma want e placed.space placed.found sane (λ u. used) in
    let new : Pte = record e { flags = with_flags e.flags want } in
    let l = lookup-Leads root i j k m₁ e placed.found in
    (
      m',
      role₁,
      new,
      rw (step, memory_alloc_and_map_page) set,
      record {
        space = space;
        reads = λ w.
            entry_of-update root vma w m m' (some new) found
              (λ a b c d. others a b c d ∙ placed.others a b c d);
        flags =
            ap (λ b. record want { v = b; a = e.flags.a; d = e.flags.d }) (valid_v e.flags l.ok₀);
        origin = elim placed.origin [
          | inl same ↦ inr (e, same, refl)
          | inr (fresh, free, now) ↦ inl (fresh, free)
        ];
        use_of = used;
        grown = placed.grown;
        room = omega (arith, room, ap length left);
      },
    )
