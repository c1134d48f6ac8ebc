-- ===== src/Heap.antt =====
-- The kernel heap of src/kern/ezheap.c: blocks are cut from the end of one region of memory, which
-- is given up for a new page when that leaves more room. Addresses are numbers below 2^64.
pub mod Blocks
use operating_systems_final.Prelude.{
  ℕ, ◌+◌, ◌-◌, ◌*◌, ◌/◌, ◌^◌, ◌&&◌, Option, none, some, ltb, leb, ◌==◌, if◌then◌else◌, add64, sub64,
}

-- `heap_start` and `heap_end`
pub record Heap : Type 0 where
  pub start : ℕ
  pub end : ℕ

abbrev pub page_size : ℕ
page_size = 4096

-- `heap_init`, whose assertion panics if the region is empty.
unfoldable pub heap_init : ℕ → ℕ → Option Heap
heap_init start end = if ltb start end then some (record { start = start; end = end }) else none

-- The size rounded up to a multiple of 16 bytes, in `size_t`.
abbrev pub rounded : ℕ → ℕ
rounded size = sub64 (add64 size 16) 1 / 16 * 16

-- `page` is what `memory_alloc_page` returns if it is called; `none`: the kernel panics.
unfoldable pub kmalloc : ℕ → ℕ → Heap → Option (ℕ × Heap)
kmalloc page size h =
    let n = rounded size in
    if ltb page_size n
    then none
    else if leb n (sub64 h.end h.start)
    then some (h.end - n, record h { end = h.end - n })
    else if ltb (sub64 h.end h.start) (page_size - n)
    then some (page + page_size - n, record { start = page; end = page + page_size - n })
    else some (page, h)

-- The block of `kcalloc`, with the bytes of memory behind the memset. `none` is a panic, or a size of
-- 0, by which the code divides.
unfoldable pub kcalloc : ℕ → ℕ → ℕ → Heap → (ℕ → ℕ) → Option (ℕ × Heap × (ℕ → ℕ))
kcalloc page n size h bytes =
    if size == 0
    then none
    else if ltb ((2 ^ 64 - 1) / size) n
    then none
    else (elim (kmalloc page (n * size) h) [
      | none ↦ none
      | some (p, h') ↦ some (p, h', λ a. if leb p a && ltb a (p + n * size) then 0 else bytes a)
    ])
