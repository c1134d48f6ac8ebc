-- ===== src/Elf/Segments.antt =====
-- What load_segment, a part of elf_load of src/kern/elf.c, maps and stores.
use mathlib.Core.Path.{ap₂}
use mathlib.Core.List.{append_assoc}
use operating_systems_final.Prelude.{
  ℕ, zero, suc, ◌+◌, ◌-◌, ◌*◌, ◌/◌, ◌%◌, ◌^◌, ◌≤◌, ◌<◌, ◌≡◌, refl, ap, ◌∙◌, inl, inr, true, Option,
  none, some, List, [], ◌∷◌, ◌++◌, arith, ◌==◌, if◌then◌else◌, Bool-cases, length, add64, sub64,
}
use operating_systems_final.Errno.{done}
use operating_systems_final.Io.{IoOps, ioread, ioseek}
use operating_systems_final.Io.Laws.{slice, IsFile}
use operating_systems_final.Memory.{Memory, page_size, page_ok}
use operating_systems_final.Memory.Map.{user_top, memory_alloc_and_map_range}
use operating_systems_final.Memory.Map.Lookup.{entry_of}
use operating_systems_final.Memory.Map.Space.{Role, IsSpace}
use operating_systems_final.Memory.Map.Rounds.{UserOnly, pages_from, Filled, Wanted}
use operating_systems_final.Memory.Map.Ranges.{
  page_ok-Wanted, memory_validate_vptr_len-memory_alloc_and_map_range,
}
use operating_systems_final.Vioblk.Coherent.{length-slice}
use operating_systems_final.Elf.{
  ElfPhdr, Loader, Store, copied, cleared, rwxu_flags, w_flags, are_writable, pages_at, store_at,
  load_segment,
}

abbrev WritableIn : ℕ → Memory → ℕ → ℕ → Type 0
WritableIn root m vma size = (a : ℕ) → vma ≤ a → a < vma + size → page_ok root w_flags m a ≡ true

are_writable_inside :
    (k root vma size a : ℕ) (m : Memory)
    → WritableIn root m vma size
    → vma ≤ a
    → a + k * page_size < vma + size + page_size
    → vma + size + page_size < 2 ^ 64
    → are_writable k root m a ≡ true
unfolding are_writable
are_writable_inside zero root vma size a m w from below small = refl
are_writable_inside (suc k) root vma size a m w from below small =
    let here : page_ok root w_flags m a ≡ true = w a from (omega arith) in
    let next : add64 a page_size ≡ a + page_size = omega arith in
    rw here (
      ap (are_writable k root m) next
      ∙ are_writable_inside k root vma size (a + page_size) m w (omega arith) (omega arith) small)

-- A store inside a range that starts at a page boundary, all of which is mapped to be written.
store_at_inside :
    {D : Type 0} (root vma size addr n : ℕ) (what : Store) (s : Loader D)
    → WritableIn root s.memory vma size
    → vma % page_size ≡ 0
    → vma ≤ addr
    → addr + n ≤ vma + size
    → vma + size + page_size < 2 ^ 64
    → store_at root addr n what s ≡ some (record s { stores = s.stores ++ (what ∷ []) })
unfolding store_at are_writable
store_at_inside root vma size addr n what s w whole from fits small =
    let first = addr / page_size * page_size in
    let base : vma ≤ first = omega arith in
    let good : are_writable (pages_at addr n) root s.memory first ≡ true =
      elim (Bool-cases (n == 0)) [
        | inl e ↦ rw e refl
        | inr e ↦
            let some_bytes : 0 < n = ground arith in
            rw e (
              are_writable_inside ((addr % page_size + n + 4095) / page_size) root vma size first
                s.memory w base (omega arith) small)
      ] in
    ap (λ b. if b then some (record s { stores = s.stores ++ (what ∷ []) }) else none) good

-- load_segment where its range is mapped and its stores meet no fault.
load_segment_steps :
    {D : Type 0} (ops : IoOps D) (root n : ℕ) (p : ElfPhdr) (s : Loader D) (m : Memory)
    (io₁ io₂ : D) (new : List ℕ) (s' : Loader D)
    → memory_alloc_and_map_range
        (suc ((p.p_memsz + 4095) / page_size))
        root
        p.p_vaddr
        p.p_memsz
        rwxu_flags
        s.memory
      ≡ some m
    → (ioseek ops s.io p.p_offset).1 ≡ io₁
    → ioread ops io₁ p.p_filesz ≡ (done n, new, io₂)
    → store_at root p.p_vaddr
        (length new)
        (copied p.p_vaddr new)
        (record s { io = io₂; memory = m })
      ≡ some s'
    → load_segment ops root p s
      ≡ store_at root
          (add64 p.p_vaddr p.p_filesz)
          (sub64 p.p_memsz p.p_filesz)
          (cleared (add64 p.p_vaddr p.p_filesz) (sub64 p.p_memsz p.p_filesz))
          s'
unfolding load_segment
load_segment_steps {D} ops root n p s m io₁ io₂ new s' mapped sought got put =
    let clear : Loader D → Option (Loader D) =
      store_at root (add64 p.p_vaddr p.p_filesz) (sub64 p.p_memsz p.p_filesz)
        (cleared (add64 p.p_vaddr p.p_filesz) (sub64 p.p_memsz p.p_filesz)) in
    let after : ioread ops (ioseek ops s.io p.p_offset).1 p.p_filesz ≡ (done n, new, io₂) =
      ap (λ d. ioread ops d p.p_filesz) sought ∙ got in
    rw (mapped, load_segment)
      (ap
          (λ t.
            elim (store_at root p.p_vaddr (length t.1) (copied p.p_vaddr t.1)
              (record s { io = t.2; memory = m })) [ none ↦ none | some u ↦ clear u ])
          after
        ∙ ap (λ o. elim o [ none ↦ none | some u ↦ clear u ]) put)

-- A segment that starts at a page boundary and ends below the end of user space, whose bytes in the
-- file are in place and no more than it has in memory, is loaded into a space whose tables make a
-- tree, where there are three free pages for each of its pages and none of them is mapped for the
-- kernel alone: every address of it is mapped for user code to read, write and execute, the
-- addresses of other pages have the entries they had, no store meets a page fault, the stores are that of the
-- bytes of the file at its start and that of zeros behind them up to its end, in this order, and the file is
-- the same.
pub load_segment-Filled :
    {D : Type 0} {root : ℕ} {role : ℕ → Role} (ops : IoOps D) (F : IsFile ops) (p : ElfPhdr)
    (s : Loader D)
    → F.Ok s.io
    → p.p_offset + p.p_filesz ≤ length (F.bytes s.io)
    → p.p_filesz ≤ p.p_memsz
    → p.p_vaddr % page_size ≡ 0
    → p.p_vaddr + p.p_memsz < user_top
    → IsSpace root role s.memory
    → UserOnly root s.memory (pages_from p.p_vaddr ((p.p_memsz + 4095) / page_size))
    → 3 * ((p.p_memsz + 4095) / page_size) ≤ length s.memory.free_list
    → (s' : Loader D) × (role' : ℕ → Role) × (load_segment ops root p s ≡ some s')
      × (s'.stores
          ≡ s.stores
            ++ (copied p.p_vaddr (slice p.p_offset p.p_filesz (F.bytes s.io))
                ∷ cleared (p.p_vaddr + p.p_filesz) (p.p_memsz - p.p_filesz)
                ∷ []))
      × ((a : ℕ)
          → p.p_vaddr ≤ a
          → a < p.p_vaddr + p.p_memsz
          → Wanted rwxu_flags (entry_of root a s'.memory))
      × Filled root role s.memory
          (pages_from p.p_vaddr ((p.p_memsz + 4095) / page_size))
          rwxu_flags
          s'.memory
          role'
      × F.Ok s'.io
      × (F.bytes s'.io ≡ F.bytes s.io)
load_segment-Filled {D} {root} {role} ops F p s ok fits short whole inside space only room =
    let v = p.p_vaddr in
    let fs = p.p_filesz in
    let ms = p.p_memsz in
    let (m, role', mapped, filled, wanted, valid) =
      memory_validate_vptr_len-memory_alloc_and_map_range ((ms + 4095) / page_size) v ms rwxu_flags
        rwxu_flags space room refl refl only refl (omega arith) (omega arith) whole in
    let to_write : WritableIn root m v ms =
      λ a from below. page_ok-Wanted root a m rwxu_flags w_flags (wanted a from below) refl in
    let (sought, ok₁, moved) = F.seek_lem s.io p.p_offset ok (omega arith) in
    let io₁ = F.seek s.io p.p_offset in
    let there : F.pos io₁ + fs ≤ length (F.bytes io₁) =
      omega (arith, moved.at, ap length moved.same, fits) in
    let (got, ok₂, moved₂) = F.read_lem io₁ fs ok₁ there in
    let new = slice (F.pos io₁) fs (F.bytes io₁) in
    let same : new ≡ slice p.p_offset fs (F.bytes s.io) =
      ap₂ (λ x l. slice x fs l) moved.at moved.same in
    let s₁ : Loader D = record s { io = F.after_read io₁ fs; memory = m } in
    let s₂ : Loader D = record s₁ { stores = s.stores ++ (copied v new ∷ []) } in
    let put =
      store_at_inside root v ms v (length new) (copied v new) s₁ to_write whole (omega arith)
        (omega (arith, length-slice (F.pos io₁) fs (F.bytes io₁) there, short)) (omega arith) in
    let start : add64 v fs ≡ v + fs = omega (arith, short, inside) in
    let rest : sub64 ms fs ≡ ms - fs = omega (arith, short, inside) in
    let clear =
      store_at_inside root v ms (v + fs) (ms - fs) (cleared (v + fs) (ms - fs)) s₂ to_write whole
        (omega arith) (omega (arith, short)) (omega arith) in
    (
      record s₂ { stores = s₂.stores ++ (cleared (v + fs) (ms - fs) ∷ []) },
      role',
      load_segment_steps ops root fs p s m io₁ (F.after_read io₁ fs) new s₂ mapped
            (ap (λ t. t.1) sought) got put
          ∙ ap₂ (λ x n. store_at root x n (cleared x n) s₂) start rest
          ∙ clear,
      append_assoc s.stores (copied v new ∷ []) (cleared (v + fs) (ms - fs) ∷ [])
          ∙ ap (λ l. s.stores ++ (copied v l ∷ cleared (v + fs) (ms - fs) ∷ [])) same,
      wanted,
      filled,
      ok₂,
      moved₂.same ∙ moved.same,
    )
