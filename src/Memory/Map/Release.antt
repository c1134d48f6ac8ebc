-- ===== src/Memory/Map/Release.antt =====
-- memory_unmap_and_free_user of src/kern/memory.c: a loop of unmap_user_page.
use mathlib.Core.Path.{subst}
use mathlib.Core.Option.{some-injective}
use operating_systems_final.Prelude.{
  ℕ, zero, suc, ◌+◌, ◌≡◌, refl, sym, ap, ◌∙◌, ◌⊎◌, inl, inr, true, false, Option, none, some, List,
  [], ◌∷◌, if◌then◌else◌, Bool-cases,
}
use operating_systems_final.Sched.Queues.{In}
use operating_systems_final.Memory.{Pte, Memory, page_size, unmap_user_page}
use operating_systems_final.Memory.Map.{unmap_loop}
use operating_systems_final.Memory.Map.Lookup.{entry_of}
use operating_systems_final.Memory.Map.Address.{same_page, entry_of-update}
use operating_systems_final.Memory.Map.Space.{Role, leaf, IsSpace}
use operating_systems_final.Memory.Map.Remove.{unmap_user_page-remove}
use operating_systems_final.Memory.Map.Rounds.{pages_from, in_pages}

-- What unmapping leaves of an entry: those that are not for user code.
abbrev pub kept : Option Pte → Option Pte
kept none = none
kept (some e) = if e.flags.u then none else some e

pub kept_system : (e : Pte) → e.flags.u ≡ false → kept (some e) ≡ some e
kept_system e u = rw u refl

pub kept_user : (e : Pte) → e.flags.u ≡ true → kept (some e) ≡ none
kept_user e u = rw u refl

kept-kept : (o : Option Pte) → kept (kept o) ≡ kept o
kept-kept none = refl
kept-kept (some e) = elim (Bool-cases e.flags.u) [
  | inl u ↦ rw u refl
  | inr u ↦ ap kept (kept_system e u)
]

-- The memory after the pages of these addresses have been unmapped.
pub record Released (root : ℕ) (role : ℕ → Role) (m : Memory) (vs : List ℕ) (m' : Memory)
    (role' : ℕ → Role) : Type 0 where
  pub space : IsSpace root role' m'
  pub reads :
      (w : ℕ)
      → entry_of root w m' ≡ (if in_pages w vs then kept (entry_of root w m) else entry_of root w m)
  -- A page that a user entry mapped is free now, and pages stay free.
  pub freed :
      (w : ℕ) (e : Pte)
      → in_pages w vs ≡ true
      → entry_of root w m ≡ some e
      → e.flags.u ≡ true
      → In e.ppn m'.free_list
  pub stay : (q : ℕ) → In q m.free_list → In q m'.free_list
  -- Only such pages get free.
  pub only :
      (q : ℕ)
      → In q m'.free_list
      → In q m.free_list ⊎ ((a : ℕ) × (b : ℕ) × (c : ℕ) × (role q ≡ leaf a b c))
  pub back : (q a b c : ℕ) → role' q ≡ leaf a b c → role q ≡ leaf a b c

-- The same for one page.
abbrev Step : ℕ → (ℕ → Role) → Memory → ℕ → Type 0
Step root role m vma =
    (m' : Memory) × (role' : ℕ → Role) × Released root role m (vma ∷ []) m' role'
    × ((r : Memory → Option Memory)
        → (elim (unmap_user_page root vma m) [ none ↦ none | some (x, m₁) ↦ r m₁ ]) ≡ r m')

-- All addresses of a page read the same entry.
page_entry :
    (root vma w : ℕ) (m : Memory) → same_page w vma ≡ true → entry_of root w m ≡ entry_of root vma m
page_entry root vma w m here =
    entry_of-update root vma w m m (entry_of root vma m) refl (λ a b c d. refl) ∙ (rw here refl)

in_one : (w vma : ℕ) → in_pages w (vma ∷ []) ≡ true → same_page w vma ≡ true
in_one w vma h = elim (Bool-cases (same_page w vma)) [
  | inl e ↦ e
  | inr e ↦ let bad : false ≡ true = sym (rw e refl) ∙ h in cc
]

-- Nothing changes where there is no entry for user code.
idle :
    (root : ℕ) (role : ℕ → Role) (m : Memory) (vma : ℕ)
    → IsSpace root role m
    → kept (entry_of root vma m) ≡ entry_of root vma m
    → ((e : Pte) → entry_of root vma m ≡ some e → e.flags.u ≡ false)
    → Released root role m (vma ∷ []) m role
idle root role m vma s same system = record {
  space = s;
  reads = λ w. elim (Bool-cases (same_page w vma)) [
    | inl e ↦ let there = page_entry root vma w m e in rw e (there ∙ sym same ∙ ap kept (sym there))
    | inr e ↦ rw e refl
  ];
  freed = λ w e h found user.
      let not_user = system e (sym (page_entry root vma w m (in_one w vma h)) ∙ found) in
      let bad : true ≡ false = sym user ∙ not_user in cc;
  stay = λ q i. i;
  only = λ q i. inl i;
  back = λ q a b c e. e;
}

unmap_one :
    (root : ℕ) (role : ℕ → Role) (m : Memory) (vma : ℕ) → IsSpace root role m → Step root role m vma
unmap_one root role m vma s = elim (unmap_user_page-remove vma s) [
  | inl (missing, step) ↦ (
    m,
    role,
    idle root role m vma s (ap kept missing ∙ sym missing)
        (λ e f. let bad : none ≡ some e = sym missing ∙ f in cc),
    λ r. rw step refl,
  )
  | inr (e, found, outcome) ↦ elim outcome [
    | inl (system, step) ↦ (
      m,
      role,
      idle root role m vma s (ap kept found ∙ kept_system e system ∙ sym found) (λ e' f.
          let same : e ≡ e' = some-injective _ _ (sym found ∙ f) in
          ap (λ t. t.flags.u) (sym same) ∙ system),
      λ r. rw step refl,
    )
    | inr (user, (m', role', step, gone)) ↦ (
      m',
      role',
      record {
        space = gone.space;
        reads = λ w. elim (Bool-cases (same_page w vma)) [
          | inl a ↦ rw a (
              gone.reads w
              ∙ (rw a (sym (ap kept (page_entry root vma w m a ∙ found) ∙ kept_user e user))))
          | inr a ↦ rw a (gone.reads w ∙ (rw a refl))
        ];
        freed = λ w e' h f u.
            let same : e ≡ e' =
              some-injective _ _ (sym found ∙ sym (page_entry root vma w m (in_one w vma h)) ∙ f) in
            subst (λ l. In e'.ppn l) (sym gone.freed) (inl (ap (λ t. t.ppn) same));
        stay = λ q i. subst (λ l. In q l) (sym gone.freed) (inr i);
        only = λ q i. elim (subst (λ l. In q l) gone.freed i) [
          | inl same ↦ inr (_, _, _, ap role (sym same) ∙ gone.was)
          | inr there ↦ inl there
        ];
        back = gone.back;
      },
      λ r. rw step refl,
    )
  ]
]

pub unmap_loop-Released :
    (k root vma : ℕ) (role : ℕ → Role) (m : Memory)
    → IsSpace root role m
    → (m' : Memory) × (role' : ℕ → Role) × (unmap_loop k root vma m ≡ some m')
      × Released root role m (pages_from vma k) m' role'
unfolding unmap_loop
unmap_loop-Released zero root vma role m s = (
  m,
  role,
  refl,
  record {
    space = s;
    reads = λ w. refl;
    freed = λ w e h found user. cc;
    stay = λ q i. i;
    only = λ q i. inl i;
    back = λ q a b c e. e;
  },
)
unmap_loop-Released (suc k) root vma role m s =
    let (m₁, role₁, one, step) = unmap_one root role m vma s in
    let (m', role', rest, more) = unmap_loop-Released k root (vma + page_size) role₁ m₁ one.space in
    let vs = pages_from (vma + page_size) k in
    (
      m',
      role',
      step (unmap_loop k root (vma + page_size)) ∙ rest,
      record {
        space = more.space;
        reads = λ w. elim (Bool-cases (same_page w vma)) [
          | inl a ↦
              let first : entry_of root w m₁ ≡ kept (entry_of root w m) =
                one.reads w ∙ (rw a refl) in
              elim (Bool-cases (in_pages w vs)) [
                | inl b ↦
                    rw a (more.reads w ∙ (rw b (ap kept first ∙ kept-kept (entry_of root w m))))
                | inr b ↦ rw a (more.reads w ∙ (rw b first))
              ]
          | inr a ↦
              let first : entry_of root w m₁ ≡ entry_of root w m = one.reads w ∙ (rw a refl) in
              elim (Bool-cases (in_pages w vs)) [
                | inl b ↦ rw (a, b) (more.reads w ∙ (rw b (ap kept first)))
                | inr b ↦ rw (a, b) (more.reads w ∙ (rw b first))
              ]
        ];
        freed = λ w e h found user. elim (Bool-cases (same_page w vma)) [
          | inl a ↦ more.stay e.ppn (one.freed w e (rw a refl) found user)
          | inr a ↦ more.freed w e (sym (rw a refl) ∙ h) (one.reads w ∙ (rw a found)) user
        ];
        stay = λ q i. more.stay q (one.stay q i);
        only = λ q i. elim (more.only q i) [
          | inl there ↦ one.only q there
          | inr (a, b, c, e) ↦ inr (a, b, c, one.back q a b c e)
        ];
        back = λ q a b c e. one.back q a b c (more.back q a b c e);
      },
    )
