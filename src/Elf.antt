-- ===== src/Elf.antt =====
-- elf_load of src/kern/elf.c over any I/O object and the page tables of Memory. What it stores at
-- the program's addresses is a list of stores, in their order; a store to a page that is not mapped to be
-- written is a page fault in the kernel, at which smode_excp_handler of src/kern/excp.c panics. `none`
-- is a panic, or a step on a header of which a failed ioread has put nothing in place.
pub mod Headers
pub mod Segments
use operating_systems_final.Prelude.{
  ℕ, zero, suc, ◌+◌, ◌*◌, ◌/◌, ◌%◌, Bool, true, false, not, ◌&&◌, ◌||◌, Option, none, some, List,
  [], ◌∷◌, ◌++◌, ltb, leb, ◌==◌, if◌then◌else◌, length, get_or, add64, sub64,
}
use operating_systems_final.Errno.{Reply, done, fail, einval}
use operating_systems_final.Io.{IoOps, ioread, ioseek}
use operating_systems_final.Memory.{Flags, Memory, no_flags, page_size, page_ok}
use operating_systems_final.Memory.Map.{user_base, user_top, memory_alloc_and_map_range}

-- The value of the `n` bytes from `off` on, the lowest first.
unfoldable pub le_value : List ℕ → ℕ → ℕ → ℕ
le_value b off zero = 0
le_value b off (suc n) = get_or b off 0 + 256 * le_value b (suc off) n

-- `struct elf64_hdr` and `struct elf64_phdr`, as far as they are used.
pub record ElfHdr : Type 0 where
  pub e_ident : ℕ → ℕ
  pub e_type : ℕ
  pub e_machine : ℕ
  pub e_entry : ℕ
  pub e_phoff : ℕ
  pub e_phentsize : ℕ
  pub e_phnum : ℕ

pub record ElfPhdr : Type 0 where
  pub p_type : ℕ
  pub p_offset : ℕ
  pub p_vaddr : ℕ
  pub p_filesz : ℕ
  pub p_memsz : ℕ

unfoldable pub elf_hdr : List ℕ → ElfHdr
elf_hdr b = record {
  e_ident = λ i. get_or b i 0;
  e_type = le_value b 16 2;
  e_machine = le_value b 18 2;
  e_entry = le_value b 24 8;
  e_phoff = le_value b 32 8;
  e_phentsize = le_value b 54 2;
  e_phnum = le_value b 56 2;
}

unfoldable pub elf_phdr : List ℕ → ElfPhdr
elf_phdr b = record {
  p_type = le_value b 0 4;
  p_offset = le_value b 8 8;
  p_vaddr = le_value b 16 8;
  p_filesz = le_value b 32 8;
  p_memsz = le_value b 40 8;
}

-- The tests of the file's header: the magic number, the class, the encoding, the ABI, the type and the
-- machine.
unfoldable pub is_executable : ElfHdr → Bool
is_executable h =
    (h.e_ident 0 == 127 && (h.e_ident 1 == 69 && (h.e_ident 2 == 76 && h.e_ident 3 == 70)))
    && (h.e_ident 4 == 2
        && (h.e_ident 5 == 1
            && ((h.e_ident 7 == 0 || h.e_ident 7 == 1) && (h.e_type == 2 && h.e_machine == 243))))

abbrev pub rwxu_flags : Flags
rwxu_flags = record no_flags { r = true; w = true; x = true; u = true }

-- What is stored from an address on: some bytes, or zeros.
pub data Store : Type 0 where
  copied : ℕ → List ℕ → Store
  cleared : ℕ → ℕ → Store

pub record Loader (D : Type 0) : Type 0 where
  pub io : D
  pub memory : Memory
  pub stores : List Store
  pub entry : Option ℕ

-- `shorter n` is -1000 + n - 64, for a file with a header of only n bytes.
pub data Loaded : Type 0 where
  loaded : Loaded
  refused : Loaded
  shorter : ℕ → Loaded

abbrev pub w_flags : Flags
w_flags = record no_flags { w = true }

-- Whether `k` pages from an address on are mapped to be written.
unfoldable pub are_writable : ℕ → ℕ → Memory → ℕ → Bool
are_writable zero root m addr = true
are_writable (suc k) root m addr =
    let rest = are_writable k root m (add64 addr page_size) in
    if page_ok root w_flags m addr then rest else false

-- The number of pages that `n` bytes from an address on touch.
abbrev pub pages_at : ℕ → ℕ → ℕ
pages_at addr n = if n == 0 then 0 else (addr % page_size + n + 4095) / page_size

-- A store of `n` bytes from an address on; `none` is the panic at a page fault.
unfoldable pub store_at : {D : Type 0} → ℕ → ℕ → ℕ → Store → Loader D → Option (Loader D)
store_at root addr n what s =
    if are_writable (pages_at addr n) root s.memory (addr / page_size * page_size)
    then some (record s { stores = s.stores ++ (what ∷ []) })
    else none

-- The bounds that a segment has to keep.
abbrev pub out_of_bounds : ElfPhdr → Bool
out_of_bounds p = ltb p.p_vaddr user_base || leb user_top (add64 p.p_vaddr p.p_memsz)

module _ {D : Type 0} (ops : IoOps D) (root : ℕ) where
  -- What is done for a loadable segment within bounds.
  unfoldable pub load_segment : ElfPhdr → Loader D → Option (Loader D)
  load_segment p s =
      let pages = (p.p_memsz + 4095) / page_size in
      let io = (ioseek ops s.io p.p_offset).1 in
      elim (memory_alloc_and_map_range (suc pages) root p.p_vaddr p.p_memsz rwxu_flags s.memory) [
        | none ↦ none
        | some m ↦
            let (reply, new, io') = ioread ops io p.p_filesz in
            let start = add64 p.p_vaddr p.p_filesz in
            let rest = sub64 p.p_memsz p.p_filesz in
            elim (store_at root p.p_vaddr (length new) (copied p.p_vaddr new)
              (record s { io = io'; memory = m })) [
                | none ↦ none
                | some s' ↦ store_at root start rest (cleared start rest) s'
              ]
      ]

  -- A round behind the ioread of its program header, with the rounds that are left.
  unfoldable pub load_round :
      (Loader D → Option (Loaded × Loader D))
      → Reply × List ℕ × D
      → Loader D
      → Option (Loaded × Loader D)
  load_round next (fail e, b, io) s = none
  load_round next (done n, b, io) s =
      let p = elf_phdr b in
      let s' = record s { io = io } in
      if ltb n 56
      then some (refused, s')
      else if not (p.p_type == 1)
      then next s'
      else if out_of_bounds p
      then some (refused, s')
      else (elim (load_segment p s') [ none ↦ none | some s'' ↦ next s'' ])

  -- The rounds from `idx` on, `k` of them being left. The product of an `int` is taken to fit one.
  unfoldable pub load_loop : ElfHdr → ℕ → ℕ → Loader D → Option (Loaded × Loader D)
  load_loop h zero idx s = some (loaded, s)
  load_loop h (suc k) idx s =
      let io = (ioseek ops s.io (add64 (idx * h.e_phentsize) h.e_phoff)).1 in
      load_round (load_loop h k (suc idx)) (ioread ops io 56) s

  unfoldable pub load_checked : Reply × List ℕ × D → Loader D → Option (Loaded × Loader D)
  load_checked (fail e, b, io) s = none
  load_checked (done n, b, io) s =
      let h = elf_hdr b in
      let s' = record s { io = io } in
      if ltb n 64
      then some (shorter n, s')
      else if is_executable h
      then load_loop h h.e_phnum 0 (record s' { entry = some h.e_entry })
      else some (refused, s')

  unfoldable pub elf_load : Loader D → Option (Loaded × Loader D)
  elf_load s = load_checked (ioread ops s.io 64) s
