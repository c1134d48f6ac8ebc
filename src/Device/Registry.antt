-- ===== src/Device/Registry.antt =====
-- device_register and device_open of src/kern/device.c together: what is registered is found.
use mathlib.Core.Path.{subst}
use mathlib.Core.Option
use operating_systems_final.Prelude.{
  ℕ, suc, ◌≤◌, ◌≡◌, refl, sym, ap, ◌∙◌, ◌⊎◌, inl, inr, true, false, Option, none, some, List, [],
  ◌∷◌, arith, ◌==◌, if◌then◌else◌, Bool-cases, Option-cases, All, is_zero,
}
use operating_systems_final.Errno.{enodev}
use operating_systems_final.String.{strcmp}
use operating_systems_final.String.Compare.{strcmp-zero}
use operating_systems_final.Device.{
  Device, called, missing, register_from, device_register, open_from, device_open, same_name,
}

-- A slot in use has a name and an open function, an empty one has neither, and no slot behind an
-- empty one is in use.
abbrev pub IsEmpty : {R : Type 0} → Device R → Type 0
IsEmpty d = (d.name ≡ none) × (d.openfn ≡ none)

pub data IsUsed {R : Type 0} (d : Device R) : Type 0 where
  used : (n : List ℕ) (f : ℕ → R) → d.name ≡ some n → d.openfn ≡ some f → IsUsed d

abbrev pub IsTable : {R : Type 0} → List (Device R) → Type 0
IsTable [] = Unit
IsTable (d ∷ ds) = (IsEmpty d × All IsEmpty ds) ⊎ (IsUsed d × IsTable ds)

same_name_self : (name : List ℕ) → is_zero (strcmp (some name) (some name)) ≡ true
same_name_self name = rw ((strcmp-zero name name).1 refl) refl

module _ {R : Type 0} where
  -- An opening that succeeds on the one table succeeds on the other.
  abbrev pub Keeps : List (Device R) → List (Device R) → Type 0
  Keeps ds ds' =
      (name : List ℕ) (instno k : ℕ) (r : R)
      → open_from name instno k ds ≡ called r
      → open_from name instno k ds' ≡ called r

  open_nothing :
      (name : List ℕ) (instno k : ℕ) (ds : List (Device R))
      → All IsEmpty ds
      → open_from name instno k ds ≡ missing enodev
  unfolding open_from
  open_nothing name instno k [] e = refl
  open_nothing name instno k (d ∷ ds) e = rw e.0.1 (open_nothing name instno k ds e.1)

  Keeps-cons : (d : Device R) (ds ds' : List (Device R)) → Keeps ds ds' → Keeps (d ∷ ds) (d ∷ ds')
  unfolding open_from
  Keeps-cons d ds ds' h name instno k r = elim (Option-cases d.openfn) [
    | inl e ↦ rw e (h name instno k r)
    | inr (f, e) ↦ elim (Bool-cases (is_zero (strcmp d.name (some name)))) [
      | inr g ↦ rw (e, g) (h name instno k r)
      | inl g ↦ elim (Bool-cases (k == instno)) [
        | inl c ↦ rw (e, g, c) (λ x. x)
        | inr c ↦ rw (e, g, c) (h name instno (suc k) r)
      ]
    ]
  ]

  -- What a registration leaves, if there is a slot for it.
  abbrev Works : List ℕ → (ℕ → R) → ℕ → ℕ → List (Device R) → Option (ℕ × List (Device R)) → Type 0
  Works name f aux k ds none = Unit
  Works name f aux k ds (some out) =
      (k ≤ out.0) × (open_from name out.0 k out.1 ≡ called (f aux)) × IsTable out.1 × Keeps ds out.1

  Keeps-empty :
      (d : Device R) (ds ds' : List (Device R)) → IsEmpty d → All IsEmpty ds → Keeps (d ∷ ds) ds'
  Keeps-empty d ds ds' e es name instno k r h =
      absurd (not_missing (sym (open_nothing name instno k (d ∷ ds) (e, es)) ∙ h))
    where
      not_missing : {r : R} → missing enodev ≡ called r → ⊥
      not_missing q = cc

  empty-IsTable : (ds : List (Device R)) → All IsEmpty ds → IsTable ds
  empty-IsTable [] es = tt
  empty-IsTable (d ∷ ds) es = inl (es.0, es.1)

  Works-cons :
      (name : List ℕ) (f : ℕ → R) (aux k j : ℕ) (d : Device R) (ds : List (Device R))
      (out : Option (ℕ × List (Device R)))
      → k ≤ j
      → IsUsed d
      → ((m : ℕ) (ds' : List (Device R))
          → j ≤ m
          → open_from name m k (d ∷ ds') ≡ open_from name m j ds')
      → Works name f aux j ds out
      → Works name f aux k (d ∷ ds) (Option.map (λ (r : ℕ × List (Device R)). (r.0, d ∷ r.1)) out)
  Works-cons name f aux k j d ds none h u skip w = tt
  Works-cons name f aux k j d ds (some (m, ds')) h u skip (high, opens, table, keeps) =
      (omega arith, skip m ds' high ∙ opens, inr (u, table), Keeps-cons d ds ds' keeps)

  register_used :
      (name n : List ℕ) (f : ℕ → R) (aux k a : ℕ) (nm : Option (List ℕ)) (o : Option (ℕ → R))
      (ds : List (Device R))
      → nm ≡ some n
      → let d : Device R = record { name = nm; openfn = o; aux = a } in
        register_from name f aux k (d ∷ ds)
        ≡ Option.map
            (λ (r : ℕ × List (Device R)). (r.0, d ∷ r.1))
            (register_from name f aux (if same_name n name then suc k else k) ds)
  unfolding register_from
  register_used name n f aux k a none o ds e = cc
  register_used name n f aux k a (some m) o ds e =
      let same : m ≡ n = cc in
      ap
        (λ x.
          Option.map
            (λ (r : ℕ × List (Device R)).
              (r.0, record { name = some m; openfn = o; aux = a } ∷ r.1))
            (register_from name f aux (if same_name x name then suc k else k) ds))
        same

  register_from-Works :
      (name : List ℕ) (f : ℕ → R) (aux k : ℕ) (ds : List (Device R))
      → IsTable ds
      → Works name f aux k ds (register_from name f aux k ds)
  unfolding register_from open_from
  register_from-Works name f aux k [] t = tt
  register_from-Works name f aux k (d ∷ ds) (inl (e, es)) =
      let at : (k == k) ≡ true = ground arith in
      rw e.0 (
        omega arith,
        rw (same_name_self name, at) refl,
        inr (used name f refl refl, empty-IsTable ds es),
        Keeps-empty (record { name = none; openfn = d.openfn; aux = d.aux }) ds
            (record { name = some name; openfn = some f; aux = aux } ∷ ds) (refl, e.1) es,
      )
  register_from-Works name f aux k (d ∷ ds) (inr (used n g named set_up, t)) =
      elim (Bool-cases (same_name n name)) [
        | inl e ↦
            rw (register_used name n f aux k d.aux d.name d.openfn ds named, e)
              (Works-cons name f aux k (suc k) d ds _ (omega arith) (used n g named set_up)
                (λ m ds' h.
                  let ne : (k == m) ≡ false = ground arith in rw (set_up, named, e, ne) refl)
                (register_from-Works name f aux (suc k) ds t))
        | inr e ↦
            rw (register_used name n f aux k d.aux d.name d.openfn ds named, e)
              (Works-cons name f aux k k d ds _ (omega arith) (used n g named set_up)
                (λ m ds' h. rw (set_up, named, e) refl) (register_from-Works name f aux k ds t))
      ]

-- A device that `device_register` takes into a table is what `device_open` opens under its name and
-- the number passed back; every device that could be opened before opens as it did, and the table
-- is in order.
pub device_register-open :
    {R : Type 0} (name : List ℕ) (f : ℕ → R) (aux : ℕ) (devtab : List (Device R)) (instno : ℕ)
    (devtab' : List (Device R))
    → IsTable devtab
    → device_register name f aux devtab ≡ some (instno, devtab')
    → (device_open name instno devtab' ≡ called (f aux))
      × IsTable devtab'
      × ((other : List ℕ) (i : ℕ) (r : R)
          → device_open other i devtab ≡ called r
          → device_open other i devtab' ≡ called r)
device_register-open name f aux devtab instno devtab' t e =
    let w = subst (Works name f aux 0 devtab) e (register_from-Works name f aux 0 devtab t) in
    (w.1, w.2, λ other i r. w.3 other i 0 r)
