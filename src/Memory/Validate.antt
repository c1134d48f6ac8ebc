-- ===== src/Memory/Validate.antt =====
-- memory_validate_vptr_len of src/kern/memory.c: which pages it looks at.
use operating_systems_final.Prelude.{
  ℕ, zero, suc, ◌+◌, ◌*◌, ◌^◌, ◌≤◌, ◌<◌, ◌≡◌, refl, ap, ◌∙◌, ◌⊎◌, inl, inr, Bool, true, false,
  Option, some, arith, ltb, Bool-cases, add64,
}
use operating_systems_final.Memory.{
  Flags, Memory, page_size, page_ok, validate_loop, memory_validate_vptr_len,
}

-- Every address that is a number of whole pages behind `addr` and before `end` is in a good page.
abbrev pub Checked : ℕ → Flags → Memory → ℕ → ℕ → Type 0
Checked root want m addr end =
    (j : ℕ) → addr + j * page_size < end → page_ok root want m (addr + j * page_size) ≡ true

-- The loop ends, with the answer whether all of these are.
abbrev pub Decides : ℕ → Flags → Memory → ℕ → ℕ → Option Bool → Type 0
Decides root want m addr end out =
    ((out ≡ some true) × Checked root want m addr end)
    ⊎ ((out ≡ some false)
        × ((j : ℕ) × (addr + j * page_size < end)
            × (page_ok root want m (addr + j * page_size) ≡ false)))

module _ (root : ℕ) (want : Flags) (m : Memory) where
  onward :
      (addr end : ℕ) (out : Option Bool)
      → page_ok root want m addr ≡ true
      → Decides root want m (addr + page_size) end out
      → Decides root want m addr end out
  onward addr end out good (inl (e, all)) = inl (e, each)
    where
      each : Checked root want m addr end
      each zero h = ap (page_ok root want m) (omega arith) ∙ good
      each (suc j) h = ap (page_ok root want m) (omega arith) ∙ all j (omega arith)
  onward addr end out good (inr (e, (j, h, bad))) =
      inr (e, (suc j, omega arith, ap (page_ok root want m) (omega arith) ∙ bad))

  validate_loop-Decides :
      (k addr end : ℕ)
      → end ≤ addr + k * page_size
      → end + page_size < 2 ^ 64
      → Decides root want m addr end (validate_loop (suc k) root want m addr end)
  unfolding validate_loop
  validate_loop-Decides zero addr end fuel small =
      let e : ltb addr end ≡ false = ground arith in rw e (inl (refl, λ j h. absurd (omega arith)))
  validate_loop-Decides (suc k) addr end fuel small = elim (Bool-cases (ltb addr end)) [
    | inr e ↦ rw e (inl (refl, λ j h. absurd (ground arith)))
    | inl e ↦ elim (Bool-cases (page_ok root want m addr)) [
      | inr f ↦
          rw (e, f) (inr (refl, (0, ground arith, ap (page_ok root want m) (omega arith) ∙ f)))
      | inl f ↦
          let next : add64 addr page_size ≡ addr + page_size = ground arith in
          rw (e, f, next)
            (onward addr end _ f
              (validate_loop-Decides k (addr + page_size) end (omega arith) small))
    ]
  ]

-- For a range that ends more than a page below 2 ^ 64, with one round more than it has pages,
-- `memory_validate_vptr_len` ends, and its answer is whether every address that is a number of whole pages behind the start of the range and
-- inside it is mapped with the wanted flags.
pub memory_validate_vptr_len-Decides :
    (k root vp len : ℕ) (m : Memory) (want : Flags)
    → len ≤ k * page_size
    → vp + len + page_size < 2 ^ 64
    → Decides root want m vp (vp + len) (memory_validate_vptr_len (suc k) root m vp len want)
unfolding memory_validate_vptr_len
memory_validate_vptr_len-Decides k root vp len m want fuel small =
    let end : add64 vp len ≡ vp + len = omega arith in
    rw end (validate_loop-Decides root want m k vp (vp + len) (omega arith) small)

-- For a range of at most one page in length only the page of its first byte is looked at, also where
-- the range reaches into the next page.
pub memory_validate_vptr_len_first :
    (k root vp len : ℕ) (m : Memory) (want : Flags)
    → 0 < len
    → len ≤ page_size
    → vp + len + page_size < 2 ^ 64
    → memory_validate_vptr_len (suc (suc k)) root m vp len want ≡ some (page_ok root want m vp)
unfolding memory_validate_vptr_len validate_loop
memory_validate_vptr_len_first k root vp len m want some_bytes short small =
    let e : ltb vp (add64 vp len) ≡ true = ground arith in
    let f : ltb (add64 vp page_size) (add64 vp len) ≡ false = ground arith in
    elim (Bool-cases (page_ok root want m vp)) [
      | inl g ↦ rw (e, g, f) refl
      | inr g ↦ rw (e, g) refl
    ]
