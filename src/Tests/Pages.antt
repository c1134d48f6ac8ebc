-- ===== src/Tests/Pages.antt =====
-- Runs of the calls of src/kern/memory.c that map and unmap pages: a space with one page for user
-- code, at 0xC0000000, in page 4 behind the tables in the pages 1, 2 and 3.
use mathlib.Core.Path.{ap₂}
use operating_systems_final.Prelude.{
  ℕ, ◌+◌, ◌≤◌, ◌<◌, ◌≡◌, refl, sym, ap, ◌∙◌, ◌⊎◌, inl, true, false, none, some, [], ◌∷◌, arith,
  ◌==◌, if◌then◌else◌,
}
use operating_systems_final.Errno.{done, fail, einval, eaccess}
use operating_systems_final.Sched.Queues.{In}
use operating_systems_final.Memory.{
  Pte, Memory, null_pte, ptab_pte, leaf_pte, set_entry, memory_validate_vptr_len, unmap_user_page,
}
use operating_systems_final.Memory.Map.{
  user_base, rwu_flags, memory_alloc_and_map_page, memory_alloc_and_map_range, Spaces,
  memory_unmap_and_free_user, memory_space_reclaim,
}
use operating_systems_final.Memory.Map.Lookup.{entry_of}
use operating_systems_final.Memory.Map.Space.{
  Role, unused, top, elsewhere, mid, low, leaf, IsSpace, null_off, null_bad,
}
use operating_systems_final.Memory.Map.Entries.{set_entry-IsSpace}
use operating_systems_final.Memory.Map.Insert.{Inserted, memory_alloc_and_map_page-insert}
use operating_systems_final.Memory.Map.Remove.{Removed, unmap_user_page-remove}
use operating_systems_final.Memory.Map.Rounds.{map_pages, pages_from, Filled, Wanted}
use operating_systems_final.Memory.Map.Ranges.{
  memory_alloc_and_map_range-map_pages, memory_validate_vptr_len-memory_alloc_and_map_range,
}
use operating_systems_final.Memory.Map.Reclaim.{
  Emptied, memory_unmap_and_free_user-Emptied, memory_space_reclaim-lost,
}
use operating_systems_final.Memory.Map.Faults.{unmap_user_page-memory_alloc_and_map_page}

abbrev pub roles : ℕ → Role
roles q =
    if q == 1
    then top
    else if q == 2
    then mid 3
    else if q == 3
    then low 3 0
    else if q == 4
    then leaf 3 0 0
    else if q == 5
    then unused
    else if q == 6
    then unused
    else if q == 7
    then unused
    else elsewhere

abbrev pub bare : Memory
bare = record { tables = λ p j. null_pte; free_list = 5 ∷ 6 ∷ 7 ∷ [] }

abbrev mapped : Memory
mapped =
    set_entry (set_entry (set_entry bare 1 3 (ptab_pte 2)) 2 0 (ptab_pte 3)) 3 0
      (leaf_pte 4 rwu_flags)

pub bare-IsSpace : IsSpace 1 roles bare
bare-IsSpace = record {
  tops = refl;
  mids = λ i on. let bad : true ≡ false = sym on ∙ null_off in cc;
  lows = λ p i j r on. let bad : true ≡ false = sym on ∙ null_off in cc;
  leaves = λ p i j k r ok u. let bad : true ≡ false = sym ok ∙ null_bad in cc;
  narrow = λ p j. omega arith;
  free = ((refl, omega arith), ((refl, omega arith), ((refl, omega arith), tt)));
  distinct = ((λ e. omega arith, (λ e. omega arith, tt)), ((λ e. omega arith, tt), (tt, tt)));
}

mapped-IsSpace : IsSpace 1 roles mapped
mapped-IsSpace =
    set_entry-IsSpace 3 0 (leaf_pte 4 rwu_flags)
      (set_entry-IsSpace 2 0 (ptab_pte 3)
        (set_entry-IsSpace 1 3 (ptab_pte 2) bare-IsSpace (λ r on. refl)
          (λ a r on. let bad : top ≡ mid a = r in cc)
          (λ a b r ok u. let bad : top ≡ low a b = r in cc) (omega arith))
        (λ r on. let bad : mid 3 ≡ top = r in cc)
        (λ a r on.
          let same : mid 3 ≡ mid a = r in let index : 3 ≡ a = cc in ap (λ x. low x 0) index)
        (λ a b r ok u. let bad : mid 3 ≡ low a b = r in cc) (omega arith))
      (λ r on. let bad : low 3 0 ≡ top = r in cc) (λ a r on. let bad : low 3 0 ≡ mid a = r in cc)
      (λ a b r ok u.
        let same : low 3 0 ≡ low a b = r in
        let first : 3 ≡ a = cc in let second : 0 ≡ b = cc in ap₂ (λ x y. leaf x y 0) first second)
      (omega arith)

pub bare_entry : (w : ℕ) → entry_of 1 w bare ≡ none
bare_entry w = rw null_off refl

memory_alloc_and_map_page-insert_example :
    (m' : Memory) × (role' : ℕ → Role) × (entry : Pte) × (memory_alloc_and_map_page 1 user_base
        rwu_flags bare
      ≡ some m')
    × Inserted 1 roles bare user_base rwu_flags m' role' entry
memory_alloc_and_map_page-insert_example =
    memory_alloc_and_map_page-insert user_base rwu_flags bare-IsSpace (omega arith) refl
      (λ e f. let clash : none ≡ some e = sym (bare_entry user_base) ∙ f in cc)

unmap_user_page-remove_example :
    ((entry_of 1 user_base mapped ≡ none)
      × (unmap_user_page 1 user_base mapped ≡ some (fail einval, mapped)))
    ⊎ ((e : Pte) × (entry_of 1 user_base mapped ≡ some e)
        × (((e.flags.u ≡ false)
              × (unmap_user_page 1 user_base mapped ≡ some (fail eaccess, mapped)))
            ⊎ ((e.flags.u ≡ true)
                × ((m' : Memory) × (role' : ℕ → Role) × (unmap_user_page 1 user_base mapped
                      ≡ some (done 0, m'))
                    × Removed 1 roles mapped user_base e m' role'))))
unmap_user_page-remove_example = unmap_user_page-remove user_base mapped-IsSpace

memory_unmap_and_free_user-Emptied_example :
    (m' : Memory) × (role' : ℕ → Role) × (memory_unmap_and_free_user 1 mapped ≡ some m')
    × Emptied 1 roles mapped m' role'
memory_unmap_and_free_user-Emptied_example = memory_unmap_and_free_user-Emptied mapped-IsSpace

abbrev spaces : Spaces
spaces = record { memory = mapped; active = 1; main = 9 }

memory_space_reclaim-lost_example :
    (s' : Spaces) × (memory_space_reclaim spaces ≡ some s')
    × (s'.active ≡ 9)
    × In 1 s'.memory.free_list
    × (In 2 s'.memory.free_list → ⊥)
memory_space_reclaim-lost_example =
    memory_space_reclaim-lost spaces roles 2 3 0 mapped-IsSpace (inl refl)

memory_alloc_and_map_range-map_pages_example :
    memory_alloc_and_map_range 3 1 user_base 5000 rwu_flags mapped
    ≡ map_pages 1 rwu_flags (pages_from user_base 2) mapped
memory_alloc_and_map_range-map_pages_example =
    memory_alloc_and_map_range-map_pages 2 1 user_base 5000 rwu_flags mapped (omega arith)
      (omega arith)

memory_validate_vptr_len-memory_alloc_and_map_range_example :
    (m' : Memory) × (role' : ℕ → Role) × (memory_alloc_and_map_range 2 1 user_base 100 rwu_flags
        bare
      ≡ some m')
    × Filled 1 roles bare (pages_from user_base 1) rwu_flags m' role'
    × ((a : ℕ) → user_base ≤ a → a < user_base + 100 → Wanted rwu_flags (entry_of 1 a m'))
    × (memory_validate_vptr_len 2 1 m' user_base 100 rwu_flags ≡ some true)
memory_validate_vptr_len-memory_alloc_and_map_range_example =
    memory_validate_vptr_len-memory_alloc_and_map_range 1 user_base 100 rwu_flags rwu_flags
      bare-IsSpace (omega arith) refl refl
      (λ w e h f. let clash : none ≡ some e = sym (bare_entry w) ∙ f in cc) refl (omega arith)
      (omega arith) refl

unmap_user_page-memory_alloc_and_map_page_example :
    (m' : Memory) × (m'' : Memory) × (role'' : ℕ → Role) × (page : ℕ) × (memory_alloc_and_map_page 1
        user_base rwu_flags bare
      ≡ some m')
    × (unmap_user_page 1 user_base m' ≡ some (done 0, m''))
    × IsSpace 1 role'' m''
    × ((w : ℕ) → entry_of 1 w m'' ≡ entry_of 1 w bare)
    × (roles page ≡ unused)
    × (m''.free_list ≡ page ∷ m'.free_list)
unmap_user_page-memory_alloc_and_map_page_example =
    unmap_user_page-memory_alloc_and_map_page user_base rwu_flags bare-IsSpace (omega arith) refl
      refl (bare_entry user_base)
