-- ===== src/Memory/Map/Space.antt =====
-- What the pages of a memory space are for, in src/kern/memory.c: the tables make a tree whose pages
-- are apart from each other, from the pages that are mapped for user code and from the free ones.
use mathlib.Core.Path.{subst}
use operating_systems_final.Prelude.{
  ℕ, ◌^◌, ◌<◌, ◌≡◌, refl, sym, ap, ◌∙◌, ◌≢◌, inl, inr, true, false, some, List, ◌∷◌, arith, ◌==◌,
  if◌then◌else◌, Bool-cases, All,
}
use operating_systems_final.Thread.Chains.{IsDistinct}
use operating_systems_final.Sched.Queues.{All-imp, All-In}
use operating_systems_final.Memory.{
  Memory, null_pte, points_on, verify_flags, is_ok, memory_alloc_page,
}
use operating_systems_final.Memory.Map.Lookup.{lookup, lookup-same}

-- The use of a page: a free one, the root table, a table for one entry of the root or of such a
-- table, a page that is mapped, or any other.
pub data Role : Type 0 where
  unused top elsewhere : Role
  mid : ℕ → Role
  low : ℕ → ℕ → Role
  leaf : ℕ → ℕ → ℕ → Role

abbrev pub assign : (ℕ → Role) → ℕ → Role → ℕ → Role
assign role p r q = if q == p then r else role q

pub assign_self : (role : ℕ → Role) (p : ℕ) (r : Role) → assign role p r p ≡ r
assign_self role p r = let e : (p == p) ≡ true = ground arith in rw e refl

pub assign_ne : (role : ℕ → Role) (p q : ℕ) (r : Role) → q ≢ p → assign role p r q ≡ role q
assign_ne role p q r h = let e : (q == p) ≡ false = ground arith in rw e refl

-- Entries lead to pages of the right use, user pages each have one place, and the free pages are
-- apart. Page numbers have 44 bits.
pub record IsSpace (root : ℕ) (role : ℕ → Role) (m : Memory) : Type 0 where
  pub tops : role root ≡ top
  pub mids : (i : ℕ) → points_on (m.tables root i).flags ≡ true → role (m.tables root i).ppn ≡ mid i
  pub lows :
      (p i j : ℕ)
      → role p ≡ mid i
      → points_on (m.tables p j).flags ≡ true
      → role (m.tables p j).ppn ≡ low i j
  pub leaves :
      (p i j k : ℕ)
      → role p ≡ low i j
      → is_ok (verify_flags (m.tables p k).flags) ≡ true
      → (m.tables p k).flags.u ≡ true
      → role (m.tables p k).ppn ≡ leaf i j k
  pub narrow : (p j : ℕ) → (m.tables p j).ppn < 2 ^ 44
  pub free : All (λ p. (role p ≡ unused) × (p < 2 ^ 44)) m.free_list
  pub distinct : IsDistinct m.free_list

abbrev pub IsBlank : Memory → ℕ → Type 0
IsBlank m p = (j : ℕ) → m.tables p j ≡ null_pte

-- The lookups of two memories agree.
abbrev pub Same : ℕ → Memory → Memory → Type 0
Same root m m' = (i j k : ℕ) → lookup root i j k m' ≡ lookup root i j k m

pub null_off : points_on null_pte.flags ≡ false
unfolding points_on verify_flags
null_off = refl

pub null_bad : is_ok (verify_flags null_pte.flags) ≡ false
unfolding verify_flags
null_bad = refl

module _ {root : ℕ} {role : ℕ → Role} {m : Memory} (s : IsSpace root role m) where
  -- What a lookup goes through.
  pub mid_of :
      (i : ℕ) → points_on (m.tables root i).flags ≡ true → role (m.tables root i).ppn ≡ mid i
  mid_of i e = s.mids i e

  pub low_of :
      (i j : ℕ)
      → let e₂ = m.tables root i in
        points_on e₂.flags ≡ true
        → points_on (m.tables e₂.ppn j).flags ≡ true
        → role (m.tables e₂.ppn j).ppn ≡ low i j
  low_of i j e f = s.lows (m.tables root i).ppn i j (s.mids i e) f

  -- Memories that agree on all tables of the space agree on its lookups.
  pub tables-Same :
      (m' : Memory)
      → ((p j : ℕ) → (role p ≡ unused → ⊥) → m'.tables p j ≡ m.tables p j)
      → Same root m m'
  tables-Same m' h i j k =
      lookup-same root i j k m m' (h root i (λ e. let bad : unused ≡ top = sym e ∙ s.tops in cc))
        (λ a. h _ j (λ e. let bad : unused ≡ mid i = sym e ∙ mid_of i a in cc))
        (λ a b. h _ k (λ e. let bad : unused ≡ low i j = sym e ∙ low_of i j a b in cc))

-- A page is taken from the list of free ones and put to use.
pub memory_alloc_page-IsSpace :
    {root : ℕ} {role : ℕ → Role} {m : Memory} (p : ℕ) (ps : List ℕ) (r : Role)
    → IsSpace root role m
    → m.free_list ≡ p ∷ ps
    → (m' : Memory) × (memory_alloc_page m ≡ some (p, m'))
      × IsSpace root (assign role p r) m'
      × IsBlank m' p
      × Same root m m'
      × (role p ≡ unused)
      × (p < 2 ^ 44)
      × (m'.free_list ≡ ps)
      × ((q j : ℕ) → (role q ≡ unused → ⊥) → m'.tables q j ≡ m.tables q j)
unfolding memory_alloc_page
memory_alloc_page-IsSpace {root} {role} {m} p ps r s e =
    let m' : Memory = record {
      tables = λ q j. if q == p then null_pte else m.tables q j;
      free_list = ps;
    } in
    let free = subst (λ l. All (λ q. (role q ≡ unused) × (q < 2 ^ 44)) l) e s.free in
    let distinct = subst IsDistinct e s.distinct in
    let was = free.0.0 in
    let others : (q j : ℕ) → q ≢ p → m'.tables q j ≡ m.tables q j =
      λ q j d. let ne : (q == p) ≡ false = ground arith in rw ne refl in
    let at : (p == p) ≡ true = ground arith in
    let blank : IsBlank m' p = λ j. rw at refl in
    let cleared : (q j : ℕ) → (q == p) ≡ true → m'.tables q j ≡ null_pte =
      λ q j here. rw here refl in
    let apart : (q : ℕ) (a : Role) → role q ≡ a → (unused ≡ a → ⊥) → q ≢ p =
      λ q a e d b. d (sym was ∙ ap role (sym b) ∙ e) in
    let stays : (q : ℕ) (a : Role) → role q ≡ a → (unused ≡ a → ⊥) → assign role p r q ≡ a =
      λ q a e d. assign_ne role p q r (apart q a e d) ∙ e in
    (
      m',
      rw (e, memory_alloc_page) refl,
      record {
        tops = stays root top s.tops (λ b. cc);
        mids = λ i on.
            subst (λ t. points_on t.flags ≡ true → assign role p r t.ppn ≡ mid i)
              (sym (others root i (apart root top s.tops (λ b. cc))))
              (λ o. stays _ (mid i) (s.mids i o) (λ b. cc)) on;
        lows = λ q i j rq on. elim (Bool-cases (q == p)) [
          | inl here ↦
              let bad : true ≡ false =
                sym on ∙ ap (λ t. points_on t.flags) (cleared q j here) ∙ null_off in
              cc
          | inr there ↦
              let d : q ≢ p = ground arith in
              subst (λ t. points_on t.flags ≡ true → assign role p r t.ppn ≡ low i j)
                (sym (others q j d))
                (λ o.
                  stays _ (low i j) (s.lows q i j (sym (assign_ne role p q r d) ∙ rq) o) (λ b. cc))
                on
        ];
        leaves = λ q i j k rq ok user. elim (Bool-cases (q == p)) [
          | inl here ↦
              let bad : true ≡ false =
                sym ok ∙ ap (λ t. is_ok (verify_flags t.flags)) (cleared q k here) ∙ null_bad in
              cc
          | inr there ↦
              let d : q ≢ p = ground arith in
              subst
                (λ t.
                  is_ok (verify_flags t.flags) ≡ true
                  → t.flags.u ≡ true
                  → assign role p r t.ppn ≡ leaf i j k)
                (sym (others q k d))
                (λ o u.
                  stays _ (leaf i j k) (s.leaves q i j k (sym (assign_ne role p q r d) ∙ rq) o u)
                    (λ b. cc))
                ok user
        ];
        narrow = λ q j. elim (Bool-cases (q == p)) [
          | inl here ↦ rw here (omega arith)
          | inr there ↦ rw there (s.narrow q j)
        ];
        free =
            All-imp (λ q. q ≢ p) _ ps
              (λ q i d.
                let was_free = All-In _ ps q free.1 i in
                (assign_ne role p q r d ∙ was_free.0, was_free.1))
              distinct.0;
        distinct = distinct.1;
      },
      blank,
      tables-Same s m' (λ q j d. others q j (λ b. d (ap role b ∙ was))),
      was,
      free.0.1,
      refl,
      λ q j d. others q j (λ b. d (ap role b ∙ was)),
    )
