-- ===== src/Memory/Map/Faults.antt =====
-- memory_handle_page_fault of src/kern/memory.c, and unmap_user_page behind it.
use operating_systems_final.Prelude.{
  ℕ, ◌*◌, ◌/◌, ◌≤◌, ◌<◌, ◌≡◌, refl, sym, ap, ◌∙◌, ◌⊎◌, inl, inr, true, false, not, ◌&&◌, ◌||◌, none,
  some, ◌∷◌, arith, ltb, leb, Bool-cases, length,
}
use operating_systems_final.Errno.{done}
use operating_systems_final.Memory.{Flags, Pte, Memory, page_size, unmap_user_page}
use operating_systems_final.Memory.Map.{
  user_base, user_top, rwu_flags, memory_alloc_and_map_page, memory_handle_page_fault,
}
use operating_systems_final.Memory.Map.Lookup.{entry_of}
use operating_systems_final.Memory.Map.Address.{same_page, entry_of-update}
use operating_systems_final.Memory.Map.Space.{Role, unused, IsSpace}
use operating_systems_final.Memory.Map.Insert.{Inserted, memory_alloc_and_map_page-insert}
use operating_systems_final.Memory.Map.Remove.{unmap_user_page-mapped}

-- A fault in user space maps the page of the address for reading and writing.
pub memory_handle_page_fault-insert :
    {root : ℕ} {role : ℕ → Role} {m : Memory} (vptr : ℕ)
    → IsSpace root role m
    → 3 ≤ length m.free_list
    → ((e : Pte) → entry_of root (vptr / page_size * page_size) m ≡ some e → e.flags.u ≡ true)
    → user_base ≤ vptr
    → vptr < user_top
    → (m' : Memory) × (role' : ℕ → Role) × (entry : Pte) × (memory_handle_page_fault root vptr m
        ≡ some m')
      × Inserted root role m (vptr / page_size * page_size) rwu_flags m' role' entry
      × (entry_of root vptr m' ≡ some entry)
unfolding memory_handle_page_fault
memory_handle_page_fault-insert {root} {role} {m} vptr s room only low high =
    let addr = vptr / page_size * page_size in
    let inside : (leb user_base addr && ltb addr user_top) ≡ true = ground arith in
    let same : same_page vptr addr ≡ true = ground arith in
    let (m', role', entry, step, i) =
      memory_alloc_and_map_page-insert addr rwu_flags s room refl only in
    (m', role', entry, rw (memory_handle_page_fault, inside) step, i, i.reads vptr ∙ (rw same refl))

-- A fault elsewhere is a panic.
pub memory_handle_page_fault_outside :
    (root vptr : ℕ) (m : Memory)
    → (vptr < user_base) ⊎ (user_top ≤ vptr)
    → memory_handle_page_fault root vptr m ≡ none
unfolding memory_handle_page_fault
memory_handle_page_fault_outside root vptr m outside =
    let addr = vptr / page_size * page_size in
    let e : (leb user_base addr && ltb addr user_top) ≡ false = elim outside [
      | inl h ↦ ground arith
      | inr h ↦ ground arith
    ] in
    rw e refl

-- In a space whose tables make a tree, with three free pages and wanted flags with U, and with R
-- where they have W, a page without an entry is mapped by `memory_alloc_and_map_page` and unmapped
-- again by `unmap_user_page`, both with success: every address reads the entry that it had at
-- first, and the page that was taken, a free one, is at the head of the free list.
pub unmap_user_page-memory_alloc_and_map_page :
    {root : ℕ} {role : ℕ → Role} {m : Memory} (vma : ℕ) (want : Flags)
    → IsSpace root role m
    → 3 ≤ length m.free_list
    → (want.r || not want.w) ≡ true
    → want.u ≡ true
    → entry_of root vma m ≡ none
    → (m' : Memory) × (m'' : Memory) × (role'' : ℕ → Role) × (page : ℕ) × (memory_alloc_and_map_page
          root vma want m
        ≡ some m')
      × (unmap_user_page root vma m' ≡ some (done 0, m''))
      × IsSpace root role'' m''
      × ((w : ℕ) → entry_of root w m'' ≡ entry_of root w m)
      × (role page ≡ unused)
      × (m''.free_list ≡ page ∷ m'.free_list)
unmap_user_page-memory_alloc_and_map_page {root} {role} {m} vma want s room sane user fresh =
    let (m', role', entry, step, i) =
      memory_alloc_and_map_page-insert vma want s room sane
        (λ e f. let clash : none ≡ some e = sym fresh ∙ f in cc) in
    let self : same_page vma vma ≡ true = ground arith in
    let found : entry_of root vma m' ≡ some entry = i.reads vma ∙ (rw self refl) in
    let is_user : entry.flags.u ≡ true = ap (λ f. f.u) i.flags ∙ user in
    let (m'', role'', undo, r) = unmap_user_page-mapped vma entry i.space found is_user in
    (
      m',
      m'',
      role'',
      entry.ppn,
      step,
      undo,
      r.space,
      λ w.
          let old = entry_of-update root vma w m m none fresh (λ a b c d. refl) in
          r.reads w ∙ elim (Bool-cases (same_page w vma)) [
            | inl e ↦ rw e (sym (old ∙ (rw e refl)))
            | inr e ↦ rw e (i.reads w ∙ (rw e refl))
          ],
      elim i.origin [
        | inl (missing, free) ↦ free
        | inr (e, there, same) ↦ let clash : none ≡ some e = sym fresh ∙ there in cc
      ],
      r.freed,
    )
