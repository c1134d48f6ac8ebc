-- ===== src/Process/Sound.antt =====
-- Sequences of the calls of src/kern/syscall.c and src/kern/process.c, and the reference counts.
use mathlib.Core.Path.{subst}
use operating_systems_final.Prelude.{
  ℕ, zero, suc, ◌%◌, ◌^◌, ◌<◌, ◌≡◌, refl, sym, ap, ◌∙◌, inl, inr, Option, none, some, List, [], ◌∷◌,
  ◌++◌, arith, leb, ◌==◌, Bool-cases, Option-cases, length, set, length-set, get_or, All,
}
use operating_systems_final.Errno.{Reply, done, fail}
use operating_systems_final.Process.{
  System, Iotab, iotab_of, ioclose, free_slot, store, drop_entry, sysopen, sysclose, close_entry,
  verify_fd, without, process_fork, process_exit, process_iomax,
}
use operating_systems_final.Process.Counts.{
  one, total, IsCounted, count-set, total-set, entry_inside, table_inside, ref_all-count,
  close_all-count, total-append, total-without,
}

-- Tables of the size that the source gives them, and counts that are right.
pub record IsSound (s : System) : Type 0 where
  pub sized : All (λ t. length t ≡ process_iomax) s.iotabs
  pub counted : IsCounted s

abbrev Sized : List Iotab → Type 0
Sized ts = All (λ t. length t ≡ process_iomax) ts

Sized-set :
    (ts : List Iotab) (p : ℕ) (t : Iotab) → Sized ts → length t ≡ process_iomax → Sized (set ts p t)
Sized-set [] p t h e = tt
Sized-set (x ∷ ts) zero t h e = (e, h.1)
Sized-set (x ∷ ts) (suc p) t h e = (h.0, Sized-set ts p t h.1 e)

Sized-append :
    (ts : List Iotab) (t : Iotab) → Sized ts → length t ≡ process_iomax → Sized (ts ++ (t ∷ []))
Sized-append [] t h e = (e, tt)
Sized-append (x ∷ ts) t h e = (h.0, Sized-append ts t h.1 e)

Sized-get :
    (ts : List Iotab) (p : ℕ) → Sized ts → p < length ts → length (get_or ts p []) ≡ process_iomax
Sized-get [] p h lt = absurd (omega arith)
Sized-get (x ∷ ts) zero h lt = h.0
Sized-get (x ∷ ts) (suc p) h lt = Sized-get ts p h.1 (omega arith)

abbrev FreeAt : Iotab → Option ℕ → Type 0
FreeAt t none = Unit
FreeAt t (some i) = (i < length t) × (get_or t i none ≡ none)

free_slot-FreeAt : (t : Iotab) → FreeAt t (free_slot t)
unfolding free_slot
free_slot-FreeAt [] = tt
free_slot-FreeAt (none ∷ t) = (omega arith, refl)
free_slot-FreeAt (some y ∷ t) =
    let ih = free_slot-FreeAt t in
    elim (Option-cases (free_slot t)) [
      | inl f ↦ rw (f, FreeAt) tt
      | inr (j, f) ↦
          let (inside, free) = subst (FreeAt t) f ih in rw (f, FreeAt) (omega arith, free)
    ]

-- Storing an object that no process holds, at a free place.
store-IsSound :
    (p i y : ℕ) (s : System)
    → IsSound s
    → total y s.iotabs ≡ 0
    → i < length (iotab_of s p)
    → get_or (iotab_of s p) i none ≡ none
    → IsSound (store p i y s).1
store-IsSound p i y s q unheld inside free =
    let there = table_inside s.iotabs p i inside in
    let t = set (iotab_of s p) i (some y) in
    record {
      sized =
          Sized-set s.iotabs p t q.sized
            (length-set (iotab_of s p) i (some y) ∙ Sized-get s.iotabs p q.sized there);
      counted = λ o.
          let sum = total-set o s.iotabs p t there in
          let entry = count-set o (iotab_of s p) i (some y) inside in
          let gone : one o (get_or (iotab_of s p) i none) ≡ 0 = ap (one o) free in
          elim (Bool-cases (y == o)) [
            | inl e ↦
                let same : y ≡ o = ground arith in
                let before : total o s.iotabs ≡ 0 =
                  ap (λ x. total x s.iotabs) (sym same) ∙ unheld in
                let held : one o (some y) ≡ 1 = rw e refl in rw e (omega arith)
            | inr e ↦
                let held : one o (some y) ≡ 0 = rw e refl in
                rw e (q.counted o ∙ ap (λ x. x % 2 ^ 32) (omega arith))
          ];
    }

drop_entry-IsSound :
    (p i y : ℕ) (s : System)
    → IsSound s
    → get_or (iotab_of s p) i none ≡ some y
    → IsSound (drop_entry p i y s).1
unfolding ioclose
drop_entry-IsSound p i y s q held =
    let inside = entry_inside (iotab_of s p) i y held in
    let there = table_inside s.iotabs p i inside in
    let t = set (iotab_of s p) i none in
    record {
      sized =
          Sized-set s.iotabs p t q.sized
            (length-set (iotab_of s p) i none ∙ Sized-get s.iotabs p q.sized there);
      counted = λ o.
          let sum = total-set o s.iotabs p t there in
          let entry = count-set o (iotab_of s p) i none inside in
          let had : one o (get_or (iotab_of s p) i none) ≡ one o (some y) = ap (one o) held in
          let now = q.counted o in
          elim (Bool-cases (y == o)) [
            | inl e ↦ let once : one o (some y) ≡ 1 = rw e refl in rw e (omega arith)
            | inr e ↦
                let never : one o (some y) ≡ 0 = rw e refl in
                rw e (now ∙ ap (λ x. x % 2 ^ 32) (omega arith))
          ];
    }

sysopen-IsSound :
    (p : ℕ) (fd : Option ℕ) (y : ℕ) (s : System)
    → IsSound s
    → total y s.iotabs ≡ 0
    → IsSound (sysopen p fd (some y) s).1
unfolding sysopen
sysopen-IsSound p none y s q unheld = elim (Option-cases (free_slot (iotab_of s p))) [
  | inl f ↦ rw (f, sysopen) q
  | inr (i, f) ↦
      let (inside, free) = subst (FreeAt (iotab_of s p)) f (free_slot-FreeAt (iotab_of s p)) in
      rw (f, sysopen) (store-IsSound p i y s q unheld inside free)
]
sysopen-IsSound p (some fd) y s q unheld = elim (Bool-cases (leb process_iomax fd)) [
  | inl e ↦ rw e q
  | inr e ↦ elim (Option-cases (get_or (iotab_of s p) fd none)) [
    | inr (z, g) ↦ rw (e, g) q
    | inl g ↦ elim (Option-cases (free_slot (iotab_of s p))) [
      | inl f ↦ rw (e, g, f) q
      | inr (i, f) ↦
          let (inside, free) = subst (FreeAt (iotab_of s p)) f (free_slot-FreeAt (iotab_of s p)) in
          let there = table_inside s.iotabs p i inside in
          let size = Sized-get s.iotabs p q.sized there in
          rw (e, g, f) (store-IsSound p fd y s q unheld (ground arith) g)
    ]
  ]
]

close_entry-IsSound :
    (p : ℕ) (fd : Option ℕ) (s : System) → IsSound s → IsSound (close_entry p fd s).1
unfolding close_entry
close_entry-IsSound p none s q = q
close_entry-IsSound p (some fd) s q = elim (Option-cases (get_or (iotab_of s p) fd none)) [
  | inl g ↦ rw (g, close_entry) q
  | inr (y, g) ↦ rw (g, close_entry) (drop_entry-IsSound p fd y s q g)
]

sysclose-IsSound : (p : ℕ) (fd : Option ℕ) (s : System) → IsSound s → IsSound (sysclose p fd s).1
unfolding sysclose
sysclose-IsSound p fd s q = checked (verify_fd (iotab_of s p) fd)
  where
    checked :
        (r : Reply)
        → IsSound
            (elim r as (λ x. Reply × System) [
              | fail e ↦ (fail e, s)
              | done n ↦ close_entry p fd s
            ]).1
    checked (fail e) = q
    checked (done n) = close_entry-IsSound p fd s q

process_fork-IsSound :
    (p : ℕ) (s : System) → p < length s.iotabs → IsSound s → IsSound (process_fork p s)
unfolding process_fork
process_fork-IsSound p s there q = record {
  sized = Sized-append s.iotabs (iotab_of s p) q.sized (Sized-get s.iotabs p q.sized there);
  counted = λ o.
      ref_all-count o (total o s.iotabs) (iotab_of s p) s.refcnts (q.counted o)
      ∙ ap (λ x. x % 2 ^ 32) (sym (total-append o s.iotabs (iotab_of s p)));
}

Sized-without : (ts : List Iotab) (p : ℕ) → Sized ts → Sized (without ts p)
Sized-without [] p h = tt
Sized-without (t ∷ ts) zero h = h.1
Sized-without (t ∷ ts) (suc p) h = (h.0, Sized-without ts p h.1)

process_exit-IsSound :
    (p : ℕ) (s : System) → p < length s.iotabs → IsSound s → IsSound (process_exit p s)
unfolding process_exit
process_exit-IsSound p s there q = record {
  sized = Sized-without s.iotabs p q.sized;
  counted = λ o.
      close_all-count o (total o (without s.iotabs p)) (iotab_of s p) s.refcnts
        (q.counted o ∙ ap (λ x. x % 2 ^ 32) (sym (total-without o s.iotabs p there)));
}

-- A call by a process that has not exited; an object that a call opens is held by no process before.
pub data Step : System → System → Type 0 where
  opens :
      (p : ℕ) (fd : Option ℕ) (y : ℕ) (s : System)
      → total y s.iotabs ≡ 0
      → Step s (sysopen p fd (some y) s).1
  closes : (p : ℕ) (fd : Option ℕ) (s : System) → Step s (sysclose p fd s).1
  forks : (p : ℕ) (s : System) → p < length s.iotabs → Step s (process_fork p s)
  exits : (p : ℕ) (s : System) → p < length s.iotabs → Step s (process_exit p s)

pub data Reached (s : System) : System → Type 0 where
  here : Reached s s
  next : {t u : System} → Reached s t → Step t u → Reached s u

Step-IsSound : {s t : System} → Step s t → IsSound s → IsSound t
Step-IsSound (opens p fd y s h) q = sysopen-IsSound p fd y s q h
Step-IsSound (closes p fd s) q = sysclose-IsSound p fd s q
Step-IsSound (forks p s h) q = process_fork-IsSound p s h q
Step-IsSound (exits p s h) q = process_exit-IsSound p s h q

-- Whatever opens, closes, forks and exits the processes make in whatever order, from tables of 16
-- entries and right counts on: the reference count of every object stays the number of table entries
-- of processes that have not exited that hold it, in the 32 bits of the count, where each opening
-- brings an object that no such process holds, and each fork finds a free slot.
pub Reached-IsSound : {s t : System} → Reached s t → IsSound s → IsSound t
Reached-IsSound here q = q
Reached-IsSound (next r st) q = Step-IsSound st (Reached-IsSound r q)
