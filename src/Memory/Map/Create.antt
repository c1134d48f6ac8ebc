-- ===== src/Memory/Map/Create.antt =====
-- walk_pt of src/kern/memory.c where it may create tables, one level after another.
use operating_systems_final.Prelude.{
  ℕ, suc, ◌%◌, ◌^◌, ◌≤◌, ◌<◌, ◌≡◌, refl, sym, ap, ◌∙◌, ◌⊎◌, inl, inr, true, false, some, List, [],
  ◌∷◌, arith, Bool-cases, length,
}
use operating_systems_final.Memory.{Pte, Memory, ptab_pte, points_on, set_entry, descend}
use operating_systems_final.Memory.Map.Space.{
  Role, unused, top, elsewhere, mid, low, leaf, assign, assign_self, assign_ne, IsSpace, Same,
  memory_alloc_page-IsSpace,
}
use operating_systems_final.Memory.Map.Entries.{ptab_on, set_entry_free, set_mid-Same}
use operating_systems_final.Memory.Map.Levels.{set_low-Same}

-- Pages in use keep their use.
abbrev pub Grown : (ℕ → Role) → (ℕ → Role) → Type 0
Grown role role' = (q : ℕ) → (role q ≡ unused → ⊥) → role' q ≡ role q

pub Grown-trans : (a b c : ℕ → Role) → Grown a b → Grown b c → Grown a c
Grown-trans a b c f g q d = g q (λ e. d (sym (f q d) ∙ e)) ∙ f q d

Role-cases : (r : Role) → (r ≡ unused) ⊎ (r ≡ unused → ⊥)
Role-cases unused = inl refl
Role-cases top = inr (λ e. cc)
Role-cases elsewhere = inr (λ e. cc)
Role-cases (mid i) = inr (λ e. cc)
Role-cases (low i j) = inr (λ e. cc)
Role-cases (leaf i j k) = inr (λ e. cc)

-- Free pages were free.
pub Grown-unused : (a b : ℕ → Role) (q : ℕ) → Grown a b → b q ≡ unused → a q ≡ unused
Grown-unused a b q g e = elim (Role-cases (a q)) [ inl z ↦ z | inr d ↦ sym (g q d) ∙ e ]

pub assign-Grown :
    (role : ℕ → Role) (p : ℕ) (r : Role) → role p ≡ unused → Grown role (assign role p r)
assign-Grown role p r e q d = assign_ne role p q r (λ b. d (ap role b ∙ e))

-- A free page, if there is one.
pub first_free : (l : List ℕ) → 0 < length l → (p : ℕ) × (ps : List ℕ) × (l ≡ p ∷ ps)
first_free [] h = absurd (omega arith)
first_free (p ∷ ps) h = (p, ps, refl)

-- The table that an entry leads to after a step of the walk, at most one page having been taken.
pub record Table (root : ℕ) (role : ℕ → Role) (m : Memory) (pt i p : ℕ) (r : Role) (m' : Memory)
    (role' : ℕ → Role) : Type 0 where
  pub space : IsSpace root role' m'
  pub same : Same root m m'
  pub use_of : role' p ≡ r
  pub on : points_on (m'.tables pt i).flags ≡ true
  pub leads : (m'.tables pt i).ppn ≡ p
  pub grown : Grown role role'
  pub room : length m.free_list ≤ suc (length m'.free_list)

pub counted :
    (m m₁ : Memory) (pt i : ℕ) (t : Pte) (ps : List ℕ) (p : ℕ)
    → m.free_list ≡ p ∷ ps
    → m₁.free_list ≡ ps
    → length m.free_list ≤ suc (length (set_entry m₁ pt i t).free_list)
counted m m₁ pt i t ps p e left =
    omega (arith, ap length e, ap length left, ap length (set_entry_free m₁ pt i t))

pub descend-top :
    (root i : ℕ) (role : ℕ → Role) (m : Memory)
    → IsSpace root role m
    → 0 < length m.free_list
    → (p : ℕ) × (m' : Memory) × (role' : ℕ → Role) × (descend true root i m ≡ some (some p, m'))
      × Table root role m root i p (mid i) m' role'
unfolding descend
descend-top root i role m s h = elim (Bool-cases (points_on (m.tables root i).flags)) [
  | inl on ↦ (
    (m.tables root i).ppn,
    m,
    role,
    rw on refl,
    record {
      space = s;
      same = λ a b c. refl;
      use_of = s.mids i on;
      on = on;
      leads = refl;
      grown = λ q d. refl;
      room = omega arith;
    },
  )
  | inr off ↦
      let (p, ps, e) = first_free m.free_list h in
      let (m₁, taken, s₁, blank, same₁, was, small, left, kept) =
        memory_alloc_page-IsSpace p ps (mid i) s e in
      let number : p % 2 ^ 44 ≡ p = omega arith in
      let off' : points_on (m₁.tables root i).flags ≡ false =
        ap (λ t. points_on t.flags)
          (kept root i (λ z. let bad : unused ≡ top = sym z ∙ s.tops in cc))
        ∙ off in
      let (s₂, same₂, now, ppn, on) =
        set_mid-Same p i s₁ (assign_self role p (mid i)) blank small off' in
      (
        p,
        set_entry m₁ root i (ptab_pte p),
        assign role p (mid i),
        rw (off, taken, number) refl,
        record {
          space = s₂;
          same = λ a b c. same₂ a b c ∙ same₁ a b c;
          use_of = assign_self role p (mid i);
          on = on;
          leads = ap (λ t. t.ppn) now ∙ ppn;
          grown = assign-Grown role p (mid i) was;
          room = counted m m₁ root i (ptab_pte p) ps p e left;
        },
      )
]

pub descend-mid :
    (root q i j : ℕ) (role : ℕ → Role) (m : Memory)
    → IsSpace root role m
    → role q ≡ mid i
    → 0 < length m.free_list
    → (p : ℕ) × (m' : Memory) × (role' : ℕ → Role) × (descend true q j m ≡ some (some p, m'))
      × Table root role m q j p (low i j) m' role'
      × ((b : ℕ) → m'.tables root b ≡ m.tables root b)
unfolding descend
descend-mid root q i j role m s rq h = elim (Bool-cases (points_on (m.tables q j).flags)) [
  | inl on ↦ (
    (m.tables q j).ppn,
    m,
    role,
    rw on refl,
    record {
      space = s;
      same = λ a b c. refl;
      use_of = s.lows q i j rq on;
      on = on;
      leads = refl;
      grown = λ x d. refl;
      room = omega arith;
    },
    λ b. refl,
  )
  | inr off ↦
      let (p, ps, e) = first_free m.free_list h in
      let (m₁, taken, s₁, blank, same₁, was, small, left, kept) =
        memory_alloc_page-IsSpace p ps (low i j) s e in
      let number : p % 2 ^ 44 ≡ p = omega arith in
      let in_use : role q ≡ unused → ⊥ = λ z. let bad : unused ≡ mid i = sym z ∙ rq in cc in
      let off' : points_on (m₁.tables q j).flags ≡ false =
        ap (λ t. points_on t.flags) (kept q j in_use) ∙ off in
      let grown = assign-Grown role p (low i j) was in
      let (s₂, same₂, now, roots) =
        set_low-Same p q i j s₁ (grown q in_use ∙ rq) (assign_self role p (low i j)) blank small
          off' in
      (
        p,
        set_entry m₁ q j (ptab_pte p),
        assign role p (low i j),
        rw (off, taken, number) refl,
        record {
          space = s₂;
          same = λ a b c. same₂ a b c ∙ same₁ a b c;
          use_of = assign_self role p (low i j);
          on = ap (λ t. points_on t.flags) now ∙ ptab_on p;
          leads = ap (λ t. t.ppn) now ∙ number;
          grown = grown;
          room = counted m m₁ q j (ptab_pte p) ps p e left;
        },
        λ b.
            roots root b s₁.tops ∙ kept root b (λ z. let bad : unused ≡ top = sym z ∙ s.tops in cc),
      )
]
