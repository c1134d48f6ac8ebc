-- ===== src/Tests/Loading.antt =====
-- Runs of elf_load in src/kern/elf.c, of sysread in src/kern/syscall.c, and of the interrupts of src/kern/intr.c and src/kern/plic.c.
use operating_systems_final.Prelude.{
  ℕ, suc, ◌+◌, ◌-◌, ◌/◌, ◌^◌, ◌≤◌, ◌<◌, ◌≡◌, refl, sym, ◌∙◌, false, ◌&&◌, ◌||◌, none, some, List,
  [], ◌∷◌, arith, ◌==◌, if◌then◌else◌, pos, negsuc,
}
use operating_systems_final.Errno.{done}
use operating_systems_final.Io.{ioread}
use operating_systems_final.Io.Lit.{Lit, iolit_ops, iolit_read}
use operating_systems_final.Io.Lit.Contract.{IsValid, iolit-IsFile}
use operating_systems_final.Memory.Map.{user_base, memory_alloc_and_map_range}
use operating_systems_final.Memory.Map.Space.{Role}
use operating_systems_final.Memory.Map.Lookup.{entry_of}
use operating_systems_final.Memory.Map.Rounds.{pages_from, Filled, Wanted}
use operating_systems_final.Elf.{
  ElfPhdr, Loader, copied, cleared, rwxu_flags, out_of_bounds, load_segment,
}
use operating_systems_final.Elf.Headers.{out_of_bounds-memory_alloc_and_map_range}
use operating_systems_final.Elf.Segments.{load_segment-Filled}
use operating_systems_final.Plic.{
  Regs, is_pair, store_reg, claim_addr, plic_claim_irq, plic_claim_context_interrupt,
  plic_enable_source_for_context,
}
use operating_systems_final.Plic.Sources.{enabled, plic_enable_source_for_context-enabled}
use operating_systems_final.Intr.{
  Intr, at_least_one, intr_init, intr_register_isr, intr_enable_irq, extern_intr_handler,
}
use operating_systems_final.Intr.Dispatch.{OnlyIrq, extern_intr_handler-registered}
use operating_systems_final.Process.{System, iotab_of, process_fork}
use operating_systems_final.Process.Calls.{States, sysread, sysread-process_fork}
use operating_systems_final.Io.{IoOps}
use operating_systems_final.Io.Laws.{slice, file_reader}
use operating_systems_final.Vioblk.{Vioblk, vioblk_io_ops}
use operating_systems_final.Vioblk.Reads.{vioblk-IsFile, device_bytes}
use operating_systems_final.Tests.Blocks.{list_works, list_transfer, zeros, zeros-IsCoherent}
use operating_systems_final.Tests.Pages.{roles, bare, bare-IsSpace, bare_entry}

abbrev program : Lit
program = record { buf = 1 ∷ 2 ∷ 3 ∷ 4 ∷ 5 ∷ []; size = 5; pos = 0 }

program-IsValid : IsValid program
program-IsValid = record { storage = omega arith; within = omega arith; word = omega arith }

abbrev fresh : Loader Lit
fresh = record { io = program; memory = bare; stores = []; entry = none }

abbrev segment : ElfPhdr
segment = record { p_type = 1; p_offset = 1; p_vaddr = user_base; p_filesz = 3; p_memsz = 10 }

load_segment-Filled_example :
    (s' : Loader Lit) × (role' : ℕ → Role) × (load_segment iolit_ops 1 segment fresh ≡ some s')
    × (s'.stores ≡ copied user_base (2 ∷ 3 ∷ 4 ∷ []) ∷ cleared (user_base + 3) 7 ∷ [])
    × ((a : ℕ) → user_base ≤ a → a < user_base + 10 → Wanted rwxu_flags (entry_of 1 a s'.memory))
    × Filled 1 roles bare (pages_from user_base 1) rwxu_flags s'.memory role'
    × IsValid s'.io
    × (iolit-IsFile.bytes s'.io ≡ iolit-IsFile.bytes program)
load_segment-Filled_example =
    load_segment-Filled iolit_ops iolit-IsFile segment fresh program-IsValid (omega arith)
      (omega arith) refl (omega arith) bare-IsSpace
      (λ w e h f. let clash : none ≡ some e = sym (bare_entry w) ∙ f in cc) (omega arith)

short_read :
    ioread iolit_ops program 64 ≡ (done 5, 1 ∷ 2 ∷ 3 ∷ 4 ∷ 5 ∷ [], record program { pos = 5 })
unfolding ioread iolit_read
short_read = refl

abbrev endless : ElfPhdr
endless = record segment { p_memsz = 2 ^ 64 - 4096 }

out_of_bounds-memory_alloc_and_map_range_example :
    (out_of_bounds endless ≡ false)
    × (memory_alloc_and_map_range
          (suc ((endless.p_memsz + 4095) / 4096))
          1
          user_base
          endless.p_memsz
          rwxu_flags
          bare
        ≡ some bare)
out_of_bounds-memory_alloc_and_map_range_example =
    out_of_bounds-memory_alloc_and_map_range 1 endless bare (omega arith) (omega arith)
      (omega arith) (omega arith)

abbrev asking : Regs
asking a = if a == claim_addr 1 then 10 else 0

abbrev booting : Intr ℕ
booting = record {
  isrtab = λ k. record { isr = none; prio = pos 0 };
  regs = λ a. 3;
  sip = 4;
  sie = 0;
  intr_initialized = false;
  kernel = 100;
}

asking_ten : plic_claim_irq asking ≡ 10
unfolding plic_claim_irq plic_claim_context_interrupt
asking_ten = refl

extern_intr_handler-registered_example :
    (i₁ i₂ : Intr ℕ) × (intr_register_isr (pos 10) (negsuc 4) (λ n k. k + n) (intr_init booting)
      ≡ some i₁)
    × (intr_enable_irq (pos 10) i₁ ≡ some i₂)
    × OnlyIrq 10 (at_least_one (negsuc 4)) i₂.regs 11
    × (i₂.kernel ≡ 100)
    × (extern_intr_handler (record i₂ { regs = asking })
        ≡ some (record i₂ { regs = store_reg (claim_addr 1) 10 asking; kernel = 110 }))
extern_intr_handler-registered_example =
    extern_intr_handler-registered 10 11 (negsuc 4) (λ n k. k + n) booting asking (omega arith)
      (omega arith) (omega arith) (omega arith) asking_ten

plic_enable_source_for_context-enabled_example :
    enabled (plic_enable_source_for_context 1 40 booting.regs) 1 41
    ≡ ((is_pair 1 40 && (1 == 1 && 41 == 40)) || enabled booting.regs 1 41)
plic_enable_source_for_context-enabled_example =
    plic_enable_source_for_context-enabled 1 40 1 41 booting.regs (omega arith)

-- The parent has the block device open as number 1, at the position 100.
abbrev forking : System
forking = record { iotabs = (none ∷ some 6 ∷ []) ∷ []; exited = []; refcnts = λ o. 1 }

abbrev block_device : ℕ → IoOps (Vioblk (List ℕ))
block_device y = vioblk_io_ops list_transfer

sysread-process_fork_example :
    (st₁ st₂ : States (Vioblk (List ℕ))) × (sysread block_device
        (iotab_of forking 0)
        (some 1)
        2
        (λ y. zeros)
      ≡ (done 2, slice 100 2 (device_bytes list_works zeros), st₁))
    × (sysread block_device (iotab_of (process_fork 0 forking) 1) (some 1) 3 st₁
        ≡ (done 3, slice 102 3 (device_bytes list_works zeros), st₂))
sysread-process_fork_example =
    sysread-process_fork block_device forking 0 1 6 2 3 (λ y. zeros)
      (file_reader (vioblk-IsFile list_works)) (omega arith) refl zeros-IsCoherent (omega arith)
      (omega arith) (omega arith)
