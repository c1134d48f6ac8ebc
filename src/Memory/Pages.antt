-- ===== src/Memory/Pages.antt =====
-- The page allocator and the page table walk of src/kern/memory.c.
use operating_systems_final.Prelude.{
  ℕ, ◌≡◌, refl, ◌≢◌, inl, inr, true, false, Option, none, some, arith, ◌==◌, Bool-cases,
}
use operating_systems_final.Memory.{
  Memory, null_pte, vpn2, vpn1, vpn0, memory_alloc_page, memory_free_page, descend, find_leaf,
  walk_on, walk_pt, points_on, is_ok, verify_flags,
}

-- A page that has been freed is the next to be allocated, with all of its entries cleared; the other
-- pages keep theirs, and the free list is as before.
pub alloc-free :
    (p : ℕ) (m : Memory)
    → (m' : Memory) × (memory_alloc_page (memory_free_page p m) ≡ some (p, m'))
      × (m'.free_list ≡ m.free_list)
      × ((j : ℕ) → m'.tables p j ≡ null_pte)
      × ((q j : ℕ) → q ≢ p → m'.tables q j ≡ m.tables q j)
unfolding memory_alloc_page memory_free_page
alloc-free p m =
    let at : (p == p) ≡ true = ground arith in
    (
      _,
      refl,
      refl,
      λ j. rw at refl,
      λ q j other. let ne : (q == p) ≡ false = ground arith in rw ne refl,
    )

-- A walk that may not create tables never panics and leaves the memory as it was.
pub walk_pt_pure :
    (root vma : ℕ) (m : Memory)
    → (out : Option (ℕ × ℕ)) × (walk_pt false root vma m ≡ some (out, m))
unfolding walk_pt walk_on descend find_leaf
walk_pt_pure root vma m = elim (Bool-cases (points_on (m.tables root (vpn2 vma)).flags)) [
  | inr e ↦ rw e (none, refl)
  | inl e ↦
      let pt₁ = (m.tables root (vpn2 vma)).ppn in
      elim (Bool-cases (points_on (m.tables pt₁ (vpn1 vma)).flags)) [
        | inr f ↦ rw (e, f) (none, refl)
        | inl f ↦
            let pt₀ = (m.tables pt₁ (vpn1 vma)).ppn in
            elim (Bool-cases (is_ok (verify_flags (m.tables pt₀ (vpn0 vma)).flags))) [
              | inr g ↦ rw (e, f, g) (none, refl)
              | inl g ↦ rw (e, f, g) (some (pt₀, vpn0 vma), refl)
            ]
      ]
]
