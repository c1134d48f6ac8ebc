-- ===== src/Tests/System.antt =====
-- Devices, thread lists and page tables on concrete inputs.
use operating_systems_final.Prelude.{
  ℕ, ◌+◌, ◌<◌, ◌≡◌, refl, inl, inr, true, ◌&&◌, none, some, List, [], ◌∷◌, arith, ◌==◌,
  if◌then◌else◌, length, replicate,
}
use operating_systems_final.String.{strcmp, strcmp_bytes}
use operating_systems_final.Device.{Device, called, device_register, register_from, device_open}
use operating_systems_final.Device.Registry.{IsTable, IsUsed, device_register-open}
use operating_systems_final.Thread.{Next, ThreadList}
use operating_systems_final.Thread.Chains.{Holds}
use operating_systems_final.Process.{
  System, sysclose, close_entry, verify_fd, process_fork, process_exit,
}
use operating_systems_final.Process.Counts.{count, total}
use operating_systems_final.Process.Sound.{IsSound, Step, Reached, Reached-IsSound}
use operating_systems_final.Heap.{Heap}
use operating_systems_final.Heap.Blocks
use operating_systems_final.Heap.Blocks.{IsFresh, Handed, kmalloc-Handed}
use operating_systems_final.Memory.{Memory, Flags, no_flags, null_pte, memory_validate_vptr_len}
use operating_systems_final.Memory.Validate.{Decides, memory_validate_vptr_len-Decides}

-- Threads 1 and 2 in a list, thread 5 in another.
abbrev linked : Next
linked t = if t == 1 then some 2 else none

abbrev two : ThreadList
two = record { head = some 1; tail = some 2 }

abbrev one : ThreadList
one = record { head = some 5; tail = some 5 }

abbrev ids : List ℕ
ids = 1 ∷ 2 ∷ []

two-Holds : Holds linked two (1 ∷ 2 ∷ [])
two-Holds = record {
  chain = (refl, (refl, refl));
  tail = refl;
  distinct = ((λ e. omega arith, tt), (tt, tt));
}

one-Holds : Holds linked one (5 ∷ [])
one-Holds = record { chain = (refl, refl); tail = refl; distinct = (tt, tt) }

-- A table of one serial device and two empty slots.
abbrev serial : Device ℕ
serial = record { name = some (115 ∷ []); openfn = some (λ aux. aux + 1); aux = 40 }

abbrev slot : Device ℕ
slot = record { name = none; openfn = none; aux = 0 }

abbrev table : List (Device ℕ)
table = serial ∷ slot ∷ slot ∷ []

abbrev second : Device ℕ
second = record { name = some (115 ∷ []); openfn = some (λ aux. aux); aux = 9 }

table-IsTable : IsTable table
table-IsTable = inr (IsUsed.used (115 ∷ []) _ refl refl, inl ((refl, refl), ((refl, refl), tt)))

registered : device_register (115 ∷ []) (λ aux. aux) 9 table ≡ some (1, serial ∷ second ∷ slot ∷ [])
unfolding register_from strcmp strcmp_bytes
registered = refl

device_register-open_example :
    (device_open (115 ∷ []) 1 (serial ∷ second ∷ slot ∷ []) ≡ called 9)
    × IsTable (serial ∷ second ∷ slot ∷ [])
    × ((other : List ℕ) (i : ℕ) (r : ℕ)
        → device_open other i table ≡ called r
        → device_open other i (serial ∷ second ∷ slot ∷ []) ≡ called r)
device_register-open_example =
    device_register-open (115 ∷ []) (λ aux. aux) 9 table 1 (serial ∷ second ∷ slot ∷ [])
      table-IsTable registered

-- Page 1 is the root table, 2 and 3 are those below it; one page, at 0x3000, is mapped.
abbrev readable : Flags
readable = record no_flags { v = true; r = true }

abbrev space : Memory
space = record {
  tables = λ p i.
      if p == 1 && i == 0
      then record { flags = record no_flags { v = true }; ppn = 2 }
      else if p == 2 && i == 0
      then record { flags = record no_flags { v = true }; ppn = 3 }
      else if p == 3 && i == 3
      then record { flags = readable; ppn = 9 }
      else null_pte;
  free_list = 20 ∷ [];
}

abbrev wants_read : Flags
wants_read = record no_flags { r = true }

memory_validate_vptr_len-Decides_example :
    Decides 1 wants_read space 12288
      (12288 + 5000)
      (memory_validate_vptr_len 3 1 space 12288 5000 wants_read)
memory_validate_vptr_len-Decides_example =
    memory_validate_vptr_len-Decides 2 1 12288 5000 space wants_read (omega arith) (omega arith)

-- Two processes share object 7; the second of them alone holds object 8.
abbrev shared : System
shared = record {
  iotabs = (some 7 ∷ replicate 15 none) ∷ (some 7 ∷ some 8 ∷ replicate 14 none) ∷ [];
  exited = [];
  refcnts = λ o. if o == 7 then 2 else if o == 8 then 1 else 0;
}

shared-IsSound : IsSound shared
unfolding count total
shared-IsSound = record { sized = (refl, (refl, tt)); counted = λ o. ground arith }

after_close : 1 < length (sysclose 0 (some 0) shared).1.iotabs
unfolding sysclose close_entry verify_fd
after_close = omega arith

after_fork : 0 < length (process_fork 1 (sysclose 0 (some 0) shared).1).iotabs
unfolding sysclose close_entry verify_fd process_fork
after_fork = omega arith

Reached-IsSound_example : IsSound (process_exit 0 (process_fork 1 (sysclose 0 (some 0) shared).1))
Reached-IsSound_example =
    Reached-IsSound
      (Reached.next
        (Reached.next (Reached.next Reached.here (Step.closes 0 (some 0) shared))
          (Step.forks 1 (sysclose 0 (some 0) shared).1 after_close))
        (Step.exits 0 (process_fork 1 (sysclose 0 (some 0) shared).1) after_fork))
      shared-IsSound

abbrev region : Heap
region = record { start = 8192; end = 8256 }

region-IsValid : Blocks.IsValid region
region-IsValid = record { ordered = omega arith; word = omega arith; aligned = omega arith }
