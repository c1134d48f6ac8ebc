-- ===== src/Memory/Map/Rounds.antt =====
-- memory_alloc_and_map_page of src/kern/memory.c, page after page.
use operating_systems_final.Prelude.{
  ℕ, zero, suc, ◌+◌, ◌*◌, ◌≤◌, ◌≡◌, refl, sym, ap, ◌∙◌, ◌⊎◌, inl, inr, Bool, true, false, not, ◌||◌,
  Option, none, some, List, [], ◌∷◌, arith, if◌then◌else◌, Bool-cases, length,
}
use operating_systems_final.Memory.{Flags, Pte, Memory, page_size}
use operating_systems_final.Memory.Map.{memory_alloc_and_map_page}
use operating_systems_final.Memory.Map.Lookup.{entry_of}
use operating_systems_final.Memory.Map.Address.{same_page}
use operating_systems_final.Memory.Map.Space.{Role, IsSpace}
use operating_systems_final.Memory.Map.Create.{Grown, Grown-trans}
use operating_systems_final.Memory.Map.Insert.{memory_alloc_and_map_page-insert}

-- Each of these pages is mapped; `none` once one cannot be.
unfoldable pub map_pages : ℕ → Flags → List ℕ → Memory → Option Memory
map_pages root want [] m = some m
map_pages root want (v ∷ vs) m = elim (memory_alloc_and_map_page root v want m) [
  | none ↦ none
  | some m' ↦ map_pages root want vs m'
]

-- `n` addresses a page apart, from `addr` on.
abbrev pub pages_from : ℕ → ℕ → List ℕ
pages_from addr zero = []
pages_from addr (suc n) = addr ∷ pages_from (addr + page_size) n

-- Whether an address is in one of these pages.
abbrev pub in_pages : ℕ → List ℕ → Bool
in_pages w [] = false
in_pages w (v ∷ vs) = if same_page w v then true else in_pages w vs

-- None of these pages is mapped for the kernel alone.
abbrev pub UserOnly : ℕ → Memory → List ℕ → Type 0
UserOnly root m vs =
    (w : ℕ) (e : Pte) → in_pages w vs ≡ true → entry_of root w m ≡ some e → e.flags.u ≡ true

-- An entry with the wanted flags, and valid.
abbrev pub Wanted : Flags → Option Pte → Type 0
Wanted want o =
    (e : Pte) × (o ≡ some e) × (e.flags ≡ record want { v = true; a = e.flags.a; d = e.flags.d })

-- The memory after these pages have been mapped.
pub record Filled (root : ℕ) (role : ℕ → Role) (m : Memory) (vs : List ℕ) (want : Flags)
    (m' : Memory) (role' : ℕ → Role) : Type 0 where
  pub space : IsSpace root role' m'
  pub reads :
      (w : ℕ)
      → ((in_pages w vs ≡ true) × Wanted want (entry_of root w m'))
        ⊎ ((in_pages w vs ≡ false) × (entry_of root w m' ≡ entry_of root w m))
  pub grown : Grown role role'

some_user :
    (b : Bool) (new e : Pte) (old : Option Pte)
    → new.flags.u ≡ true
    → (old ≡ some e → e.flags.u ≡ true)
    → (if b then some new else old) ≡ some e
    → e.flags.u ≡ true
some_user true new e old user h f = let same : new ≡ e = cc in ap (λ t. t.flags.u) (sym same) ∙ user
some_user false new e old user h f = h f

first : (v : ℕ) (vs : List ℕ) → in_pages v (v ∷ vs) ≡ true
first v vs = let here : same_page v v ≡ true = ground arith in rw here refl

later : (w v : ℕ) (vs : List ℕ) → in_pages w vs ≡ true → in_pages w (v ∷ vs) ≡ true
later w v vs hit = elim (Bool-cases (same_page w v)) [ inl a ↦ rw a refl | inr a ↦ rw a hit ]

pub map_pages-Filled :
    (root : ℕ) (want : Flags) (vs : List ℕ) (role : ℕ → Role) (m : Memory)
    → IsSpace root role m
    → 3 * length vs ≤ length m.free_list
    → (want.r || not want.w) ≡ true
    → want.u ≡ true
    → UserOnly root m vs
    → (m' : Memory) × (role' : ℕ → Role) × (map_pages root want vs m ≡ some m')
      × Filled root role m vs want m' role'
unfolding map_pages
map_pages-Filled root want [] role m s room sane user only =
    (m, role, refl, record { space = s; reads = λ w. inr (refl, refl); grown = λ q d. refl })
map_pages-Filled root want (v ∷ vs) role m s room sane user only =
    let (m₁, role₁, new, step, i) =
      memory_alloc_and_map_page-insert v want s (omega arith) sane
        (λ e f. only v e (first v vs) f) in
    let new_user : new.flags.u ≡ true = ap (λ f. f.u) i.flags ∙ user in
    let (m', role', rest, filled) =
      map_pages-Filled root want vs role₁ m₁ i.space (omega (arith, i.room)) sane user (λ w e hit f.
        some_user (same_page w v) new e (entry_of root w m) new_user (only w e (later w v vs hit))
          (sym (i.reads w) ∙ f)) in
    (
      m',
      role',
      rw (step, map_pages) rest,
      record {
        space = filled.space;
        reads = λ w. elim (filled.reads w) [
          | inl (hit, found) ↦ inl (later w v vs hit, found)
          | inr (miss, same) ↦ elim (Bool-cases (same_page w v)) [
            | inl a ↦ inl (rw a refl, (new, same ∙ i.reads w ∙ (rw a refl), i.flags))
            | inr a ↦ inr (rw a miss, same ∙ i.reads w ∙ (rw a refl))
          ]
        ];
        grown = Grown-trans role role₁ role' i.grown filled.grown;
      },
    )
