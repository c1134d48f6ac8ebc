-- ===== src/Elf/Headers.antt =====
-- Which files and segments elf_load of src/kern/elf.c takes.
use operating_systems_final.Prelude.{
  ℕ, suc, ◌+◌, ◌/◌, ◌^◌, ◌≤◌, ◌<◌, ◌≡◌, refl, ◌≢◌, ◌⊎◌, inl, inr, true, false, some, List, arith,
  ltb, leb, Bool-cases, add64,
}
use operating_systems_final.Errno.{done}
use operating_systems_final.Io.{IoOps, ioread}
use operating_systems_final.Memory.{Memory, page_size}
use operating_systems_final.Memory.Map.{user_base, user_top, range_loop, memory_alloc_and_map_range}
use operating_systems_final.Elf.{
  ElfPhdr, Loader, Loaded, loaded, refused, shorter, elf_hdr, is_executable, rwxu_flags,
  out_of_bounds, load_checked, elf_load,
}

-- A file that is shorter than its header or is no RISC-V executable is not loaded: but for the state of
-- the I/O object nothing changes, neither the entry point nor the memory.
pub elf_load-refuses :
    {D : Type 0} (ops : IoOps D) (root n : ℕ) (b : List ℕ) (io : D) (s : Loader D)
    → ioread ops s.io 64 ≡ (done n, b, io)
    → (n < 64) ⊎ (is_executable (elf_hdr b) ≡ false)
    → (out : Loaded) × (elf_load ops root s ≡ some (out, record s { io = io })) × (out ≢ loaded)
unfolding elf_load load_checked
elf_load-refuses ops root n b io s got bad = elim (Bool-cases (ltb n 64)) [
  | inl e ↦ (shorter n, rw (got, load_checked) (rw e refl), λ x. cc)
  | inr e ↦
      let f : is_executable (elf_hdr b) ≡ false = elim bad [
        | inl small ↦ let t : ltb n 64 ≡ true = ground (arith, small) in cc
        | inr other ↦ other
      ] in
      (refused, rw (got, load_checked) (rw (e, f) refl), λ x. cc)
]

-- A segment that starts at or above the start of user space and whose size takes its end around 2
-- ^ 64, to below the end of user space, passes the test of its bounds, and mapping its range
-- leaves the memory as it was: nothing is mapped for it.
pub out_of_bounds-memory_alloc_and_map_range :
    (root : ℕ) (p : ElfPhdr) (m : Memory)
    → user_base ≤ p.p_vaddr
    → p.p_memsz < 2 ^ 64
    → 2 ^ 64 ≤ p.p_vaddr + p.p_memsz
    → p.p_vaddr + p.p_memsz < 2 ^ 64 + user_top
    → (out_of_bounds p ≡ false)
      × (memory_alloc_and_map_range
            (suc ((p.p_memsz + 4095) / page_size))
            root
            p.p_vaddr
            p.p_memsz
            rwxu_flags
            m
          ≡ some m)
unfolding memory_alloc_and_map_range range_loop
out_of_bounds-memory_alloc_and_map_range root p m low small around short =
    let e : ltb p.p_vaddr user_base ≡ false = ground (arith, low) in
    let f : leb user_top (add64 p.p_vaddr p.p_memsz) ≡ false = ground (arith, around, short) in
    let g : ltb p.p_vaddr (add64 p.p_vaddr p.p_memsz) ≡ false =
      ground (arith, small, around, short) in
    (rw (e, f) refl, rw g refl)
