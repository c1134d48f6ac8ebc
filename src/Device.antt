-- ===== src/Device.antt =====
-- The device manager of src/kern/device.c: a table of slots, and devices that are named by a name
-- and a number among those of that name. The open functions of the drivers return an `R`.
pub mod Registry
use mathlib.Core.Option
use operating_systems_final.Prelude.{
  ℕ, suc, Bool, Option, none, some, List, [], ◌∷◌, map, ◌==◌, if◌then◌else◌, replicate, is_zero,
}
use operating_systems_final.Errno.{Errno, enodev}
use operating_systems_final.String.{strcmp}

-- `struct device`, with C's null pointers.
pub record Device (R : Type 0) : Type 0 where
  pub name : Option (List ℕ)
  pub openfn : Option (ℕ → R)
  pub aux : ℕ

abbrev pub ndev : ℕ
ndev = 16

-- What `device_open` returns: the result of the driver's open function, or an error number.
pub data Opened (R : Type 0) : Type 0 where
  called : R → Opened R
  missing : Errno → Opened R

abbrev pub same_name : List ℕ → List ℕ → Bool
same_name a b = is_zero (strcmp (some a) (some b))

module _ {R : Type 0} (name : List ℕ) where
  -- The search of `device_register` from a slot on, with `instno` devices of the name before it; the
  -- table that it leaves from there on. `none`: there is no empty slot, and the kernel panics.
  unfoldable pub register_from : (ℕ → R) → ℕ → ℕ → List (Device R) → Option (ℕ × List (Device R))
  register_from f aux instno [] = none
  register_from f aux instno (d ∷ ds) = elim d.name [
    | none ↦ some (instno, record { name = some name; openfn = some f; aux = aux } ∷ ds)
    | some n ↦
        Option.map (λ (r : ℕ × List (Device R)). (r.0, d ∷ r.1))
          (register_from f aux (if same_name n name then suc instno else instno) ds)
  ]

  abbrev pub device_register : (ℕ → R) → ℕ → List (Device R) → Option (ℕ × List (Device R))
  device_register f aux devtab = register_from f aux 0 devtab

  -- The search of `device_open` from a slot on, with `k` devices of the name before it. A slot with an
  -- open function and no name makes `strcmp` compare with a null pointer.
  unfoldable pub open_from : ℕ → ℕ → List (Device R) → Opened R
  open_from instno k [] = missing enodev
  open_from instno k (d ∷ ds) = elim d.openfn [
    | none ↦ open_from instno k ds
    | some f ↦
        if is_zero (strcmp d.name (some name))
        then (if k == instno then called (f d.aux) else open_from instno (suc k) ds)
        else open_from instno k ds
  ]

  abbrev pub device_open : ℕ → List (Device R) → Opened R
  device_open instno devtab = open_from instno 0 devtab

-- `devtab` before any registration.
abbrev pub no_devices : {R : Type 0} → List (Device R)
no_devices = replicate ndev (record { name = none; openfn = none; aux = 0 })
