-- ===== src/Memory/Map/Reclaim.antt =====
-- memory_unmap_and_free_user and memory_space_reclaim of src/kern/memory.c.
use operating_systems_final.Prelude.{
  ℕ, zero, suc, ◌+◌, ◌-◌, ◌*◌, ◌/◌, ◌%◌, ◌^◌, ◌≤◌, ◌<◌, ◌≡◌, refl, sym, ap, ◌∙◌, ◌⊎◌, inl, inr,
  Bool, true, false, ◌&&◌, some, arith, ltb, leb, if◌then◌else◌, Bool-cases,
}
use operating_systems_final.Sched.Queues.{In, All-In}
use operating_systems_final.Memory.{Pte, Memory, page_size, memory_free_page}
use operating_systems_final.Memory.Map.{
  user_base, user_top, memory_unmap_and_free_user, Spaces, memory_space_reclaim,
}
use operating_systems_final.Memory.Map.Lookup.{entry_of}
use operating_systems_final.Memory.Map.Address.{same_page}
use operating_systems_final.Memory.Map.Space.{Role, unused, top, mid, low, leaf, IsSpace}
use operating_systems_final.Memory.Map.Rounds.{pages_from, in_pages}
use operating_systems_final.Memory.Map.Release.{kept, Released, unmap_loop-Released}

one_page :
    (addr w : ℕ)
    → addr % page_size ≡ 0
    → addr + page_size ≤ 2 ^ 39
    → same_page w addr ≡ (leb addr (w % 2 ^ 39) && ltb (w % 2 ^ 39) (addr + page_size))
one_page addr w whole small = elim (Bool-cases (same_page w addr)) [
  | inl e ↦
      let same : (w / 2 ^ 12) % 2 ^ 27 ≡ (addr / 2 ^ 12) % 2 ^ 27 = ground (arith, e) in
      let f : leb addr (w % 2 ^ 39) ≡ true = ground (arith, same) in
      let g : ltb (w % 2 ^ 39) (addr + page_size) ≡ true = ground (arith, same) in rw (e, f, g) refl
  | inr e ↦ elim (Bool-cases (leb addr (w % 2 ^ 39) && ltb (w % 2 ^ 39) (addr + page_size))) [
    | inr f ↦ e ∙ sym f
    | inl f ↦
        let low : addr ≤ w % 2 ^ 39 = ground (arith, f) in
        let high : w % 2 ^ 39 < addr + page_size = ground (arith, f) in
        let same : (w / 2 ^ 12) % 2 ^ 27 ≡ (addr / 2 ^ 12) % 2 ^ 27 = omega (arith, low, high) in
        let clash : same_page w addr ≡ true = ground (arith, same) in cc
  ]
]

longer :
    (k addr x : ℕ)
    → (leb addr x && ltb x (addr + page_size)) ≡ false
    → (leb (addr + page_size) x && ltb x (addr + page_size + k * page_size))
      ≡ (leb addr x && ltb x (addr + suc k * page_size))
longer k addr x h = elim (Bool-cases (leb addr x)) [
  | inr e ↦ let f : leb (addr + page_size) x ≡ false = ground (arith, e) in rw (e, f) refl
  | inl e ↦
      let f : leb (addr + page_size) x ≡ true = ground (arith, e, h) in
      rw (e, f) (ap (ltb x) (omega arith))
]

-- The pages of a range are those of its addresses, of which 39 bits count.
in_pages-range :
    (k addr w : ℕ)
    → addr % page_size ≡ 0
    → addr + k * page_size ≤ 2 ^ 39
    → in_pages w (pages_from addr k)
      ≡ (leb addr (w % 2 ^ 39) && ltb (w % 2 ^ 39) (addr + k * page_size))
in_pages-range zero addr w whole small = elim (Bool-cases (leb addr (w % 2 ^ 39))) [
  | inl e ↦
      let f : ltb (w % 2 ^ 39) (addr + 0 * page_size) ≡ false = ground (arith, e) in rw (e, f) refl
  | inr e ↦ rw e refl
]
in_pages-range (suc k) addr w whole small =
    let one = one_page addr w whole (omega arith) in
    elim (Bool-cases (same_page w addr)) [
      | inl e ↦
          let f : leb addr (w % 2 ^ 39) ≡ true = ground (arith, e, one) in
          let g : ltb (w % 2 ^ 39) (addr + suc k * page_size) ≡ true = ground (arith, e, one) in
          rw (e, f, g) refl
      | inr e ↦ rw e (
          in_pages-range k (addr + page_size) w (omega arith) (omega arith)
          ∙ longer k addr (w % 2 ^ 39) (sym one ∙ e))
    ]

-- Whether the page of an address is one of user space.
abbrev pub user_address : ℕ → Bool
user_address w = leb user_base (w % 2 ^ 39) && ltb (w % 2 ^ 39) user_top

-- The memory that `memory_unmap_and_free_user` leaves.
pub record Emptied (root : ℕ) (role : ℕ → Role) (m m' : Memory) (role' : ℕ → Role) : Type 0 where
  pub space : IsSpace root role' m'
  pub reads :
      (w : ℕ)
      → entry_of root w m'
        ≡ (if user_address w then kept (entry_of root w m) else entry_of root w m)
  pub freed :
      (w : ℕ) (e : Pte)
      → user_address w ≡ true
      → entry_of root w m ≡ some e
      → e.flags.u ≡ true
      → In e.ppn m'.free_list
  pub only :
      (q : ℕ)
      → In q m'.free_list
      → In q m.free_list ⊎ ((a : ℕ) × (b : ℕ) × (c : ℕ) × (role q ≡ leaf a b c))

emptied :
    (k root : ℕ) (role : ℕ → Role) (m m' : Memory) (role' : ℕ → Role)
    → user_base + k * page_size ≡ user_top
    → Released root role m (pages_from user_base k) m' role'
    → Emptied root role m m' role'
emptied k root role m m' role' whole r =
    let inside : (w : ℕ) → in_pages w (pages_from user_base k) ≡ user_address w = λ w.
      in_pages-range k user_base w refl (omega arith)
      ∙ ap (λ t. leb user_base (w % 2 ^ 39) && ltb (w % 2 ^ 39) t) whole in
    record {
      space = r.space;
      reads = λ w.
          r.reads w
          ∙ ap (λ t. if t then kept (entry_of root w m) else entry_of root w m) (inside w);
      freed = λ w e here found user. r.freed w e (inside w ∙ here) found user;
      only = r.only;
    }

-- In a space whose tables make a tree, `memory_unmap_and_free_user` succeeds, with tables that
-- still make a tree: an address of user space keeps its entry only if that is not for user code,
-- every other address keeps its entry, every page that a user entry of user space led to is free,
-- and no page is free but those, or others that user code had, and those that were free before.
pub memory_unmap_and_free_user-Emptied :
    {root : ℕ} {role : ℕ → Role} {m : Memory}
    → IsSpace root role m
    → (m' : Memory) × (role' : ℕ → Role) × (memory_unmap_and_free_user root m ≡ some m')
      × Emptied root role m m' role'
unfolding memory_unmap_and_free_user
memory_unmap_and_free_user-Emptied {root} {role} {m} s =
    let k = (user_top - user_base) / page_size in
    let (m', role', step, released) = unmap_loop-Released k root user_base role m s in
    (m', role', step, emptied k root role m m' role' (omega arith) released)

-- In a space whose tables make a tree, `memory_space_reclaim` succeeds, makes the main space the
-- active one and frees the root table, but a page that is a table of one of the two lower levels
-- of the space is not free then.
pub memory_space_reclaim-lost :
    (s : Spaces) (role : ℕ → Role) (p i j : ℕ)
    → IsSpace s.active role s.memory
    → (role p ≡ mid i) ⊎ (role p ≡ low i j)
    → (s' : Spaces) × (memory_space_reclaim s ≡ some s')
      × (s'.active ≡ s.main)
      × In s.active s'.memory.free_list
      × (In p s'.memory.free_list → ⊥)
unfolding memory_space_reclaim memory_free_page
memory_space_reclaim-lost s role p i j space table =
    let (m', role', step, e) = memory_unmap_and_free_user-Emptied space in
    let not_free : In p s.memory.free_list → ⊥ = λ there.
      let free = All-In _ _ p space.free there in
      elim table [
        | inl t ↦ let clash : mid i ≡ unused = sym t ∙ free.0 in cc
        | inr t ↦ let clash : low i j ≡ unused = sym t ∙ free.0 in cc
      ] in
    (
      record s { memory = memory_free_page s.active m'; active = s.main },
      rw (step, memory_space_reclaim) refl,
      refl,
      inl refl,
      λ there. elim there [
        | inl root ↦ elim table [
          | inl t ↦ let clash : top ≡ mid i = sym space.tops ∙ ap role root ∙ t in cc
          | inr t ↦ let clash : top ≡ low i j = sym space.tops ∙ ap role root ∙ t in cc
        ]
        | inr tail ↦ elim (e.only p tail) [
          | inl old ↦ not_free old
          | inr (a, b, c, page) ↦ elim table [
            | inl t ↦ let clash : leaf a b c ≡ mid i = sym page ∙ t in cc
            | inr t ↦ let clash : leaf a b c ≡ low i j = sym page ∙ t in cc
          ]
        ]
      ],
    )
