-- ===== src/Process.antt =====
-- The tables of open objects of src/kern/process.c and src/kern/syscall.c, and the reference counts
-- of the objects (ioref and ioclose of src/kern/io.h). Objects are named by numbers, and a process by
-- its place among those that have not exited, in the order of their creation. A negative number of a
-- file is `none`.
pub mod Calls
pub mod Counts
pub mod Sound
use operating_systems_final.Prelude.{
  ℕ, zero, suc, ◌+◌, ◌-◌, ◌%◌, ◌^◌, Option, none, some, List, [], ◌∷◌, ◌++◌, leb, ◌==◌,
  if◌then◌else◌, set, get_or, add32,
}
use operating_systems_final.Errno.{Reply, done, fail, einval}

abbrev pub process_iomax : ℕ
process_iomax = 16

abbrev pub Iotab : Type 0
Iotab = List (Option ℕ)

abbrev pub Refcnts : Type 0
Refcnts = ℕ → ℕ

-- `iotabs` are the tables of the processes that have not exited, and `exited` those of the others,
-- which process_exit leaves as they are.
pub record System : Type 0 where
  pub iotabs : List Iotab
  pub exited : List Iotab
  pub refcnts : Refcnts

abbrev pub iotab_of : System → ℕ → Iotab
iotab_of s p = get_or s.iotabs p []

unfoldable pub ioref : ℕ → Refcnts → Refcnts
ioref y r o = if y == o then add32 (r o) 1 else r o

-- The count of `ioclose`; the object's own close operation is not part of the model.
unfoldable pub ioclose : ℕ → Refcnts → Refcnts
ioclose y r o = if y == o then (r o + 2 ^ 32 - 1) % 2 ^ 32 else r o

unfoldable pub verify_fd : Iotab → Option ℕ → Reply
verify_fd t none = fail einval
verify_fd t (some fd) =
    if leb process_iomax fd
    then fail einval
    else (elim (get_or t fd none) [ none ↦ fail einval | some y ↦ done 0 ])

-- The first entry of a table that is free.
unfoldable pub free_slot : Iotab → Option ℕ
free_slot [] = none
free_slot (none ∷ t) = some 0
free_slot (some y ∷ t) = elim (free_slot t) [ none ↦ none | some i ↦ some (suc i) ]

-- `sysdevopen` and `sysfsopen` store the object that the opening gave, with one reference.
abbrev pub store : ℕ → ℕ → ℕ → System → Reply × System
store p i y s = (
  done i,
  record s {
    iotabs = set s.iotabs p (set (iotab_of s p) i (some y));
    refcnts = λ o. if y == o then 1 else s.refcnts o;
  },
)

-- `sysdevopen` and `sysfsopen`: they differ in the call that opens the object, which `opened` is the
-- result of, `none` for a failure.
unfoldable pub sysopen : ℕ → Option ℕ → Option ℕ → System → Reply × System
sysopen p none none s = (fail einval, s)
sysopen p (some fd) none s = (fail einval, s)
sysopen p none (some y) s = elim (free_slot (iotab_of s p)) [
  | none ↦ (fail einval, s)
  | some i ↦ store p i y s
]
sysopen p (some fd) (some y) s =
    if leb process_iomax fd then (fail einval, s) else (elim (get_or (iotab_of s p) fd none) [
      | some z ↦ (fail einval, s)
      | none ↦ elim (free_slot (iotab_of s p)) [ none ↦ (fail einval, s) | some i ↦ store p fd y s ]
    ])

abbrev pub drop_entry : ℕ → ℕ → ℕ → System → Reply × System
drop_entry p fd y s = (
  done 0,
  record s { iotabs = set s.iotabs p (set (iotab_of s p) fd none); refcnts = ioclose y s.refcnts },
)

-- `sysclose` behind the check; the check leaves no other entry.
unfoldable pub close_entry : ℕ → Option ℕ → System → Reply × System
close_entry p none s = (fail einval, s)
close_entry p (some fd) s = elim (get_or (iotab_of s p) fd none) [
  | none ↦ (fail einval, s)
  | some y ↦ drop_entry p fd y s
]

unfoldable pub sysclose : ℕ → Option ℕ → System → Reply × System
sysclose p fd s = elim (verify_fd (iotab_of s p) fd) [
  | fail e ↦ (fail e, s)
  | done n ↦ close_entry p fd s
]

-- The loop of `process_fork` over the parent's table.
unfoldable pub ref_all : Iotab → Refcnts → Refcnts
ref_all [] r = r
ref_all (none ∷ t) r = ref_all t r
ref_all (some y ∷ t) r = ref_all t (ioref y r)

-- The tables after a `process_fork` of process `p` that finds a free slot.
unfoldable pub process_fork : ℕ → System → System
process_fork p s = record s {
  iotabs = s.iotabs ++ (iotab_of s p ∷ []);
  refcnts = ref_all (iotab_of s p) s.refcnts;
}

-- The loop of `process_exit`.
unfoldable pub close_all : Iotab → Refcnts → Refcnts
close_all [] r = r
close_all (none ∷ t) r = close_all t r
close_all (some y ∷ t) r = close_all t (ioclose y r)

-- The list without its entry `p`.
abbrev pub without : List Iotab → ℕ → List Iotab
without [] p = []
without (t ∷ ts) zero = ts
without (t ∷ ts) (suc p) = t ∷ without ts p

-- The objects are closed, and the entries stay; the process makes no more calls.
unfoldable pub process_exit : ℕ → System → System
process_exit p s = record {
  iotabs = without s.iotabs p;
  exited = iotab_of s p ∷ s.exited;
  refcnts = close_all (iotab_of s p) s.refcnts;
}
