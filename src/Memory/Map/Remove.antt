-- ===== src/Memory/Map/Remove.antt =====
-- unmap_user_page of src/kern/memory.c, as a removal from the map that the tables are.
use mathlib.Core.Path.{subst}
use mathlib.Core.Option.{some-injective}
use operating_systems_final.Prelude.{
  ℕ, ◌≡◌, refl, sym, ap, ◌∙◌, ◌≢◌, ◌⊎◌, inl, inr, true, false, none, some, ◌∷◌, arith,
  if◌then◌else◌, Bool-cases,
}
use operating_systems_final.Errno.{done, fail, eaccess, einval}
use operating_systems_final.Memory.{
  Pte, Memory, null_pte, vpn2, vpn1, vpn0, set_entry, memory_free_page, unmap_user_page,
}
use operating_systems_final.Memory.Map.Lookup.{lookup, entry_of, Leads-lookup, walk_pt-lookup}
use operating_systems_final.Memory.Map.Address.{same_page, entry_of-update}
use operating_systems_final.Memory.Map.Space.{Role, unused, top, mid, low, leaf, IsSpace, null_bad}
use operating_systems_final.Memory.Map.Entries.{set_entry_self, set_entry_page}
use operating_systems_final.Memory.Map.Levels.{set_leaf-Same, set_leaf-lookup}
use operating_systems_final.Memory.Map.Insert.{entry_leaf}
use operating_systems_final.Memory.Map.Cut.{cut, cut_page, cut-leaf, memory_free_page-IsSpace}

-- The memory after a page was unmapped: it is free, and nothing else is mapped otherwise.
pub record Removed (root : ℕ) (role : ℕ → Role) (m : Memory) (vma : ℕ) (e : Pte) (m' : Memory)
    (role' : ℕ → Role) : Type 0 where
  pub space : IsSpace root role' m'
  pub reads : (w : ℕ) → entry_of root w m' ≡ (if same_page w vma then none else entry_of root w m)
  pub was : role e.ppn ≡ leaf (vpn2 vma) (vpn1 vma) (vpn0 vma)
  pub now : role' e.ppn ≡ unused
  pub freed : m'.free_list ≡ e.ppn ∷ m.free_list
  pub back : (q a b c : ℕ) → role' q ≡ leaf a b c → role q ≡ leaf a b c

-- In a space whose tables make a tree, unmapping a page has three outcomes: -EINVAL where the page
-- has no entry and -EACCESS where its entry is not for user code, both with the memory as it was;
-- else 0, with the page that was mapped there at the head of the free list, no entry for it, the
-- entry it had for every other page, and tables that still make a tree.
pub unmap_user_page-remove :
    {root : ℕ} {role : ℕ → Role} {m : Memory} (vma : ℕ)
    → IsSpace root role m
    → ((entry_of root vma m ≡ none) × (unmap_user_page root vma m ≡ some (fail einval, m)))
      ⊎ ((e : Pte) × (entry_of root vma m ≡ some e)
          × (((e.flags.u ≡ false) × (unmap_user_page root vma m ≡ some (fail eaccess, m)))
              ⊎ ((e.flags.u ≡ true)
                  × ((m' : Memory) × (role' : ℕ → Role) × (unmap_user_page root vma m
                        ≡ some (done 0, m'))
                      × Removed root role m vma e m' role'))))
unfolding unmap_user_page set_entry memory_free_page
unmap_user_page-remove {root} {role} {m} vma s =
    let i = vpn2 vma in
    let j = vpn1 vma in
    let k = vpn0 vma in
    let t = (m.tables root i).ppn in
    let q = (m.tables t j).ppn in
    let e = m.tables q k in
    elim (walk_pt-lookup root vma m) [
      | inl (missing, step) ↦ inl (missing, rw (step, unmap_user_page) refl)
      | inr (l, step) ↦
          let found : entry_of root vma m ≡ some e = Leads-lookup root i j k m e l in
          inr (
            e,
            found,
            elim (Bool-cases e.flags.u) [
              | inr system ↦ inl (system, rw (step, system, unmap_user_page) refl)
              | inl user ↦
                  let rq = s.lows t i j (s.mids i l.on₂) l.on₁ in
                  let rp = entry_leaf i j k e s found user in
                  let (s₁, others) =
                    set_leaf-Same q i j k null_pte s rq
                      (λ o u. let clash : true ≡ false = sym u in cc) (omega arith) in
                  let away : (x : ℕ) (r : Role) → role x ≡ r → (r ≡ low i j → ⊥) → x ≢ q =
                    λ x r a d b. d (sym a ∙ ap role b ∙ rq) in
                  let m₁ = set_entry m q k null_pte in
                  let kept_root =
                    set_entry_page m q k root i null_pte (away root top s.tops (λ z. cc)) in
                  let kept_mid =
                    set_entry_page m q k t j null_pte (away t (mid i) (s.mids i l.on₂) (λ z. cc)) in
                  let gone : lookup root i j k m₁ ≡ none =
                    set_leaf-lookup q i j k null_pte s rq l.on₂ l.on₁ refl ∙ (rw null_bad refl) in
                  inr (
                    user,
                    (
                      set_entry (memory_free_page e.ppn m) q k null_pte,
                      cut role e.ppn q t i j k rp rq (s.mids i l.on₂),
                      rw (step, user, unmap_user_page) refl,
                      record {
                        space =
                            memory_free_page-IsSpace role e.ppn q t i j k rp rq (s.mids i l.on₂) m₁
                              root s₁ (ap (λ x. x.ppn) kept_root) (ap (λ x. x.ppn) kept_mid)
                              (set_entry_self m q k null_pte) (s.narrow q k);
                        reads = λ w. entry_of-update root vma w m m₁ none gone others;
                        was = rp;
                        now = cut_page role e.ppn q t i j k rp rq (s.mids i l.on₂);
                        freed = refl;
                        back = λ x a b c h.
                            cut-leaf role e.ppn q t i j k rp rq (s.mids i l.on₂) x a b c h;
                      },
                    ),
                  )
            ],
          )
    ]

-- A page that is mapped for user code can be unmapped.
pub unmap_user_page-mapped :
    {root : ℕ} {role : ℕ → Role} {m : Memory} (vma : ℕ) (e : Pte)
    → IsSpace root role m
    → entry_of root vma m ≡ some e
    → e.flags.u ≡ true
    → (m' : Memory) × (role' : ℕ → Role) × (unmap_user_page root vma m ≡ some (done 0, m'))
      × Removed root role m vma e m' role'
unmap_user_page-mapped {root} {role} {m} vma e s found user = elim (unmap_user_page-remove vma s) [
  | inl (missing, step) ↦ let clash : none ≡ some e = sym missing ∙ found in cc
  | inr (e', found', outcome) ↦
      let same : e' ≡ e = some-injective _ _ (sym found' ∙ found) in
      elim outcome [
        | inl (system, step) ↦
            let clash : false ≡ true = sym system ∙ ap (λ t. t.flags.u) same ∙ user in cc
        | inr (user', (m', role', step, removed)) ↦
            (m', role', step, subst (λ t. Removed root role m vma t m' role') same removed)
      ]
]
