-- ===== src/Memory/Map.antt =====
-- The calls of src/kern/memory.c that map and unmap pages of a memory space, which is named by the
-- page of its root table. `none` is a panic; a loop over addresses runs on fuel.
pub mod Address
pub mod Create
pub mod Cut
pub mod Entries
pub mod Faults
pub mod Insert
pub mod Levels
pub mod Lookup
pub mod Place
pub mod Reclaim
pub mod Release
pub mod Remove
pub mod Ranges
pub mod Rounds
pub mod Space
use operating_systems_final.Prelude.{
  ℕ, zero, suc, ◌+◌, ◌-◌, ◌*◌, ◌/◌, ◌%◌, Bool, true, false, not, ◌&&◌, Option, none, some, ltb, leb,
  ◌==◌, if◌then◌else◌, add64,
}
use operating_systems_final.Memory.{
  Flags, Pte, Memory, no_flags, page_size, set_entry, memory_free_page, verify_flags, is_ok, covers,
  walk_pt, unmap_user_page,
}

-- USER_BASE and USER_TOP, which are also USER_START_VMA and USER_END_VMA.
abbrev pub user_base : ℕ
user_base = 3221225472

abbrev pub user_top : ℕ
user_top = 3489660928

-- `(flags & (V|A|D)) | (rwxug_flags & (R|W|X|U|G))`
abbrev pub with_flags : Flags → Flags → Flags
with_flags old want = record want { v = old.v; a = old.a; d = old.d }

-- What `memory_set_page_flags` does with the entry that the walk finds.
unfoldable pub set_flags_at : Flags → Option (Option (ℕ × ℕ) × Memory) → Option Memory
set_flags_at want none = none
set_flags_at want (some (none, m)) = none
set_flags_at want (some (some (pt, i), m)) =
    let e = m.tables pt i in
    if is_ok (verify_flags e.flags)
    then some (set_entry m pt i (record e { flags = with_flags e.flags want }))
    else none

-- Where there is no entry the page is mapped first, and then the kernel panics all the same.
unfoldable pub memory_set_page_flags : ℕ → ℕ → Flags → Memory → Option Memory
memory_set_page_flags root vma want m = set_flags_at want (walk_pt false root vma m)

unfoldable pub memory_alloc_and_map_page : ℕ → ℕ → Flags → Memory → Option Memory
memory_alloc_and_map_page root vma want m = elim (walk_pt true root vma m) [
  | none ↦ none
  | some (place, m') ↦ memory_set_page_flags root vma want m'
]

-- The loop of the two calls on ranges, from `addr` on.
unfoldable pub range_loop : (ℕ → Memory → Option Memory) → ℕ → ℕ → ℕ → Memory → Option Memory
range_loop f zero addr end m = none
range_loop f (suc k) addr end m =
    let rest = λ (m' : Memory). range_loop f k (add64 addr page_size) end m' in
    if ltb addr end then (elim (f addr m) [ none ↦ none | some m' ↦ rest m' ]) else some m

unfoldable pub memory_alloc_and_map_range : ℕ → ℕ → ℕ → ℕ → Flags → Memory → Option Memory
memory_alloc_and_map_range k root vma size want m =
    range_loop (λ addr. memory_alloc_and_map_page root addr want) k vma (add64 vma size) m

unfoldable pub memory_set_range_flags : ℕ → ℕ → ℕ → ℕ → Flags → Memory → Option Memory
memory_set_range_flags k root vp size want m =
    range_loop (λ addr. memory_set_page_flags root addr want) k vp (add64 vp size) m

abbrev pub rwu_flags : Flags
rwu_flags = record no_flags { r = true; w = true; u = true }

unfoldable pub memory_handle_page_fault : ℕ → ℕ → Memory → Option Memory
memory_handle_page_fault root vptr m =
    let addr = vptr / page_size * page_size in
    if leb user_base addr && ltb addr user_top
    then memory_alloc_and_map_page root addr rwu_flags m
    else none

-- `memory_unmap_and_free_user` over `k` pages from `vma` on.
unfoldable pub unmap_loop : ℕ → ℕ → ℕ → Memory → Option Memory
unmap_loop zero root vma m = some m
unmap_loop (suc k) root vma m = elim (unmap_user_page root vma m) [
  | none ↦ none
  | some (r, m') ↦ unmap_loop k root (vma + page_size) m'
]

unfoldable pub memory_unmap_and_free_user : ℕ → Memory → Option Memory
memory_unmap_and_free_user root m = unmap_loop ((user_top - user_base) / page_size) root user_base m

-- The memory and the page of the active space's root table, with that of the main space.
pub record Spaces : Type 0 where
  pub memory : Memory
  pub active : ℕ
  pub main : ℕ

unfoldable pub memory_space_reclaim : Spaces → Option Spaces
memory_space_reclaim s = elim (memory_unmap_and_free_user s.active s.memory) [
  | none ↦ none
  | some m ↦ some (record s { memory = memory_free_page s.active m; active = s.main })
]

-- The loop of `memory_validate_vstr`, over at most `k` bytes; `bytes` are the contents of the pages.
-- Out of fuel it is `none`.
unfoldable pub vstr_entry :
    (ℕ → ℕ → ℕ) → Flags → ℕ → Option Bool → Option (Option (ℕ × ℕ) × Memory) → Option Bool
vstr_entry bytes want addr rest none = some false
vstr_entry bytes want addr rest (some (none, m)) = some false
vstr_entry bytes want addr rest (some (some (pt, i), m)) =
    let e = m.tables pt i in
    if not (is_ok (verify_flags e.flags) && covers e.flags want)
    then some false
    else if bytes e.ppn (addr % page_size) == 0
    then some true
    else rest

unfoldable pub memory_validate_vstr : ℕ → (ℕ → ℕ → ℕ) → ℕ → Memory → ℕ → Flags → Option Bool
memory_validate_vstr zero bytes root m addr want = none
memory_validate_vstr (suc k) bytes root m addr want =
    vstr_entry bytes want addr (memory_validate_vstr k bytes root m (add64 addr 1) want)
      (walk_pt false root addr m)
