-- ===== src/Heap/Blocks.antt =====
-- The blocks that kmalloc of src/kern/ezheap.c hands out.
use native.Mathlib.Nat.{div-lt_iff_lt-mul}
use operating_systems_final.Prelude.{
  ℕ, ◌+◌, ◌-◌, ◌*◌, ◌/◌, ◌%◌, ◌^◌, ◌≤◌, ◌<◌, ◌≡◌, refl, ◌⊎◌, inl, inr, false, ◌&&◌, some, arith,
  ltb, leb, ◌==◌, if◌then◌else◌, Bool-cases, sub64,
}
use operating_systems_final.Heap.{Heap, page_size, rounded, kmalloc, kcalloc}

-- A region inside the address space whose end is aligned to 16 bytes.
pub record IsValid (h : Heap) : Type 0 where
  pub ordered : h.start ≤ h.end
  pub word : h.end < 2 ^ 64
  pub aligned : h.end % 16 ≡ 0

-- A page of its own, away from the region.
pub record IsFresh (page : ℕ) (h : Heap) : Type 0 where
  pub word : page + page_size < 2 ^ 64
  pub aligned : page % page_size ≡ 0
  pub apart : (page + page_size ≤ h.start) ⊎ (h.end ≤ page)

-- The bytes from `a` to `b` are among those from `c` to `d`.
abbrev pub Inside : ℕ → ℕ → ℕ → ℕ → Type 0
Inside a b c d = (c ≤ a) × (b ≤ d)

-- What an allocation of `n` bytes at `p` leaves: the block is aligned, stands in the old region or in
-- the page, and shares nothing with the new region, which stands in one of the two as well.
pub record Handed (page n : ℕ) (h : Heap) (p : ℕ) (h' : Heap) : Type 0 where
  pub aligned : p % 16 ≡ 0
  pub block : Inside p (p + n) h.start h.end ⊎ Inside p (p + n) page (page + page_size)
  pub region : Inside h'.start h'.end h.start h.end ⊎ Inside h'.start h'.end page (page + page_size)
  pub apart : (p + n ≤ h'.start) ⊎ (h'.end ≤ p)
  pub valid : IsValid h'

rounded_lem :
    (size : ℕ)
    → size ≤ page_size
    → (size ≤ rounded size) × (rounded size ≤ page_size) × (rounded size % 16 ≡ 0)
rounded_lem size h = (omega arith, omega arith, omega arith)

-- With a fresh page at hand, `kmalloc` of at most a page returns a block of at least the size asked
-- for that is aligned to 16 bytes and shares no byte with what the heap has left, whichever of its
-- three ways it takes.
pub kmalloc-Handed :
    (page size : ℕ) (h : Heap)
    → IsValid h
    → IsFresh page h
    → size ≤ page_size
    → (p : ℕ) × (h' : Heap) × (kmalloc page size h ≡ some (p, h'))
      × (size ≤ rounded size)
      × Handed page (rounded size) h p h'
unfolding kmalloc
kmalloc-Handed page size h v f small =
    let n = rounded size in
    let (enough, few, even) = rounded_lem size small in
    let ordered = v.ordered in
    let word = v.word in
    let even_end = v.aligned in
    let page_word = f.word in
    let page_even = f.aligned in
    let fits : ltb page_size n ≡ false = ground arith in
    elim (Bool-cases (leb n (sub64 h.end h.start))) [
      | inl e ↦
          let room : n ≤ h.end - h.start = ground arith in
          (
            h.end - n,
            record h { end = h.end - n },
            rw (fits, e) refl,
            enough,
            record {
              aligned = omega arith;
              block = inl (omega arith, omega arith);
              region = inl (omega arith, omega arith);
              apart = inr (omega arith);
              valid = record { ordered = omega arith; word = omega arith; aligned = omega arith };
            },
          )
      | inr e ↦ elim (Bool-cases (ltb (sub64 h.end h.start) (page_size - n))) [
        | inl g ↦ (
          page + page_size - n,
          record { start = page; end = page + page_size - n },
          rw (fits, e, g) refl,
          enough,
          record {
            aligned = omega arith;
            block = inr (omega arith, omega arith);
            region = inr (omega arith, omega arith);
            apart = inr (omega arith);
            valid = record { ordered = omega arith; word = omega arith; aligned = omega arith };
          },
        )
        | inr g ↦ (
          page,
          h,
          rw (fits, e, g) refl,
          enough,
          record {
            aligned = omega arith;
            block = inr (omega arith, omega arith);
            region = inl (omega arith, omega arith);
            apart = stays f.apart;
            valid = v;
          },
        )
      ]
    ]
  where
    stays :
        (page + page_size ≤ h.start) ⊎ (h.end ≤ page)
        → (page + rounded size ≤ h.start) ⊎ (h.end ≤ page)
    stays (inl a) = inl (omega (arith, (rounded_lem size small).1))
    stays (inr a) = inr a

-- With a fresh page at hand, `kcalloc` of `n` things of a size of at least 1, together at most a page,
-- does the same as `kmalloc` of their size, and clears the block and no byte outside of it.
pub kcalloc-Handed :
    (page n size a : ℕ) (h : Heap) (bytes : ℕ → ℕ)
    → IsValid h
    → IsFresh page h
    → 0 < size
    → n * size ≤ page_size
    → (p : ℕ) × (h' : Heap) × (bytes' : ℕ → ℕ) × (kcalloc page n size h bytes
        ≡ some (p, h', bytes'))
      × (n * size ≤ rounded (n * size))
      × Handed page (rounded (n * size)) h p h'
      × (bytes' a ≡ (if leb p a && ltb a (p + n * size) then 0 else bytes a))
unfolding kcalloc
kcalloc-Handed page n size a h bytes v f positive small =
    let (p, h', step, enough, handed) = kmalloc-Handed page (n * size) h v f small in
    let some_size : (size == 0) ≡ false = ground (arith, positive) in
    let fits : ltb ((2 ^ 64 - 1) / size) n ≡ false =
      elim (Bool-cases (ltb ((2 ^ 64 - 1) / size) n)) [
        | inr e ↦ e
        | inl e ↦
            let less : (2 ^ 64 - 1) / size < n = ground (arith, e) in
            let big : 2 ^ 64 - 1 < n * size = (div-lt_iff_lt-mul positive).0 less in
            absurd (omega (arith, big, small))
      ] in
    (
      p,
      h',
      (λ b. if leb p b && ltb b (p + n * size) then 0 else bytes b),
      rw (some_size, fits, step) refl,
      enough,
      handed,
      refl,
    )
