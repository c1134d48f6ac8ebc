-- ===== src/Memory/Map/Ranges.antt =====
-- memory_alloc_and_map_range of src/kern/memory.c against its pages, one by one.
use operating_systems_final.Prelude.{
  ℕ, zero, suc, ◌+◌, ◌-◌, ◌*◌, ◌/◌, ◌%◌, ◌^◌, ◌≤◌, ◌<◌, ◌≡◌, refl, sym, ap, ◌∙◌, inl, inr, Bool,
  true, false, not, ◌||◌, Option, none, some, List, arith, ltb, Bool-cases, length, add64,
}
use operating_systems_final.Memory.{
  Flags, Memory, page_size, covers, verify_flags, is_ok, page_ok, memory_validate_vptr_len,
}
use operating_systems_final.Memory.Validate.{memory_validate_vptr_len-Decides}
use operating_systems_final.Memory.Map.{
  memory_alloc_and_map_page, range_loop, memory_alloc_and_map_range,
}
use operating_systems_final.Memory.Map.Lookup.{entry_of, lookup-Leads, walk_pt-lookup}
use operating_systems_final.Memory.Map.Address.{same_page}
use operating_systems_final.Memory.Map.Space.{Role, IsSpace}
use operating_systems_final.Memory.Map.Rounds.{
  map_pages, pages_from, in_pages, UserOnly, Wanted, Filled, map_pages-Filled,
}

length-pages_from : (n addr : ℕ) → length (pages_from addr n) ≡ n
length-pages_from zero addr = refl
length-pages_from (suc n) addr = ap suc (length-pages_from n (addr + page_size))

behind :
    (o : Option Memory) (f g : Memory → Option Memory)
    → ((m : Memory) → f m ≡ g m)
    → (elim o [ none ↦ none | some m ↦ f m ]) ≡ (elim o [ none ↦ none | some m ↦ g m ])
behind none f g h = refl
behind (some m) f g h = h m

range_loop-map_pages :
    (n k root addr end : ℕ) (want : Flags) (m : Memory)
    → n ≤ k
    → end ≤ addr + n * page_size
    → (0 < n → addr + n * page_size < end + page_size)
    → end + page_size < 2 ^ 64
    → range_loop (λ a. memory_alloc_and_map_page root a want) (suc k) addr end m
      ≡ map_pages root want (pages_from addr n) m
unfolding range_loop map_pages
range_loop-map_pages zero k root addr end want m fuel all few small =
    let e : ltb addr end ≡ false = ground arith in rw e refl
range_loop-map_pages (suc n) zero root addr end want m fuel all few small = absurd (omega arith)
range_loop-map_pages (suc n) (suc k) root addr end want m fuel all few small =
    let tight = few (omega arith) in
    let e : ltb addr end ≡ true = ground (arith, tight) in
    let next : add64 addr page_size ≡ addr + page_size = omega (arith, tight, small) in
    let f = λ (a : ℕ). memory_alloc_and_map_page root a want in
    rw e (
      behind (memory_alloc_and_map_page root addr want m) _ _ (λ m'.
        ap (λ a. range_loop f (suc k) a end m') next
        ∙ range_loop-map_pages n k root (addr + page_size) end want m' (omega arith) (omega arith)
            (λ h. omega (arith, tight)) small))

-- For a range that ends more than a page below 2 ^ 64, with one round more than it has pages,
-- `memory_alloc_and_map_range` is the same as `memory_alloc_and_map_page` for the addresses a page
-- apart from its start on, one after another, as many as its size has pages when it is rounded up,
-- and panics where one of these panics.
pub memory_alloc_and_map_range-map_pages :
    (k root vma size : ℕ) (want : Flags) (m : Memory)
    → (size + 4095) / page_size ≤ k
    → vma + size + page_size < 2 ^ 64
    → memory_alloc_and_map_range (suc k) root vma size want m
      ≡ map_pages root want (pages_from vma ((size + 4095) / page_size)) m
unfolding memory_alloc_and_map_range
memory_alloc_and_map_range-map_pages k root vma size want m fuel small =
    let end : add64 vma size ≡ vma + size = omega arith in
    rw end (
      range_loop-map_pages ((size + 4095) / page_size) k root vma (vma + size) want m fuel
        (omega arith) (λ h. omega arith) small)

covers_anyway :
    (want f : Flags) (a d : Bool)
    → covers (record want { v = true; a = false; d = false }) f ≡ true
    → covers (record want { v = true; a = a; d = d }) f ≡ true
covers_anyway want f a d h = ground (arith, h)

-- A page whose entry has the wanted flags passes the test that validation makes.
pub page_ok-Wanted :
    (root w : ℕ) (m : Memory) (want f : Flags)
    → Wanted want (entry_of root w m)
    → covers (record want { v = true; a = false; d = false }) f ≡ true
    → page_ok root f m w ≡ true
unfolding page_ok
page_ok-Wanted root w m want f (e, found, flags) h =
    let i = (w / 2 ^ 30) % 512 in
    let j = (w / 2 ^ 21) % 512 in
    let k = (w / 2 ^ 12) % 512 in
    let q = (m.tables (m.tables root i).ppn j).ppn in
    let l = lookup-Leads root i j k m e found in
    let valid = ap (λ t. is_ok (verify_flags t.flags)) l.here ∙ l.ok₀ in
    let enough =
      ap (λ t. covers t.flags f) l.here
      ∙ ap (λ t. covers t f) flags
      ∙ covers_anyway want f e.flags.a e.flags.d h in
    elim (walk_pt-lookup root w m) [
      | inl (missing, step) ↦ let clash : none ≡ some e = sym missing ∙ found in cc
      | inr (leads, step) ↦ rw (step, valid) enough
    ]

in_pages-pages_from :
    (n j addr w : ℕ)
    → j < n
    → same_page w (addr + j * page_size) ≡ true
    → in_pages w (pages_from addr n) ≡ true
in_pages-pages_from zero j addr w h e = absurd (omega arith)
in_pages-pages_from (suc n) zero addr w h e =
    let hit : same_page w addr ≡ true = ap (same_page w) (omega arith) ∙ e in rw hit refl
in_pages-pages_from (suc n) (suc j) addr w h e = elim (Bool-cases (same_page w addr)) [
  | inl a ↦ rw a refl
  | inr a ↦ rw a (
      in_pages-pages_from n j (addr + page_size) w (omega arith)
        (ap (same_page w) (omega arith) ∙ e))
]

-- From a page boundary on, every address of the range is in one of the pages.
inside-pages_from :
    (vma size a : ℕ)
    → vma % page_size ≡ 0
    → vma ≤ a
    → a < vma + size
    → in_pages a (pages_from vma ((size + 4095) / page_size)) ≡ true
inside-pages_from vma size a whole from below =
    let same : same_page a (vma + (a - vma) / page_size * page_size) ≡ true =
      let same_number : a / 4096 ≡ (vma + (a - vma) / 4096 * 4096) / 4096 = omega arith in
      ground (arith, same_number) in
    in_pages-pages_from ((size + 4095) / page_size) ((a - vma) / page_size) vma a (omega arith) same

-- The entry of an address in one of the pages.
in_pages-Wanted :
    {root : ℕ} {role role' : ℕ → Role} {m m' : Memory} {vs : List ℕ} {want : Flags} (w : ℕ)
    → Filled root role m vs want m' role'
    → in_pages w vs ≡ true
    → Wanted want (entry_of root w m')
in_pages-Wanted w filled hit = elim (filled.reads w) [
  | inl (there, found) ↦ found
  | inr (miss, same) ↦ let clash : true ≡ false = sym hit ∙ miss in cc
]

-- In a space whose tables make a tree, with three free pages for each page of a range that starts at
-- a page boundary and ends more than a page below 2 ^ 64, wanted flags with U, and with R where
-- they have W, and no page of the range mapped for the kernel alone, `memory_alloc_and_map_range`
-- succeeds: every address of the range is mapped with the wanted flags, the addresses of other
-- pages have the entries they had, and `memory_validate_vptr_len` accepts the range for any flags
-- that V and the wanted flags cover.
pub memory_validate_vptr_len-memory_alloc_and_map_range :
    {root : ℕ} {role : ℕ → Role} {m : Memory} (k vma size : ℕ) (want f : Flags)
    → IsSpace root role m
    → 3 * ((size + 4095) / page_size) ≤ length m.free_list
    → (want.r || not want.w) ≡ true
    → want.u ≡ true
    → UserOnly root m (pages_from vma ((size + 4095) / page_size))
    → covers (record want { v = true; a = false; d = false }) f ≡ true
    → (size + 4095) / page_size ≤ k
    → vma + size + page_size < 2 ^ 64
    → vma % page_size ≡ 0
    → (m' : Memory) × (role' : ℕ → Role) × (memory_alloc_and_map_range (suc k) root vma size want m
        ≡ some m')
      × Filled root role m (pages_from vma ((size + 4095) / page_size)) want m' role'
      × ((a : ℕ) → vma ≤ a → a < vma + size → Wanted want (entry_of root a m'))
      × (memory_validate_vptr_len (suc k) root m' vma size f ≡ some true)
memory_validate_vptr_len-memory_alloc_and_map_range {root} {role} {m} k vma size want f s room sane
      user only enough fuel small whole =
    let n = (size + 4095) / page_size in
    let (m', role', step, filled) =
      map_pages-Filled root want (pages_from vma n) role m s
        (omega (arith, room, length-pages_from n vma)) sane user only in
    let mapped : (a : ℕ) → vma ≤ a → a < vma + size → Wanted want (entry_of root a m') =
      λ a from below. in_pages-Wanted a filled (inside-pages_from vma size a whole from below) in
    (
      m',
      role',
      memory_alloc_and_map_range-map_pages k root vma size want m fuel small ∙ step,
      filled,
      mapped,
      elim (memory_validate_vptr_len-Decides k root vma size m' f (omega arith) small) [
        | inl (answer, all) ↦ answer
        | inr (answer, (j, inside, bad)) ↦
            let w = vma + j * page_size in
            let good : page_ok root f m' w ≡ true =
              page_ok-Wanted root w m' want f (mapped w (omega arith) (omega arith)) enough in
            let clash : true ≡ false = sym good ∙ bad in cc
      ],
    )
