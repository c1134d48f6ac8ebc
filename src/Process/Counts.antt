-- ===== src/Process/Counts.antt =====
-- The reference counts of the objects that the processes of src/kern/process.c hold open.
use operating_systems_final.Prelude.{
  ℕ, zero, suc, ◌+◌, ◌%◌, ◌^◌, ◌<◌, ◌≡◌, refl, ap, ◌∙◌, inl, inr, Option, none, some, List, [], ◌∷◌,
  ◌++◌, arith, ◌==◌, if◌then◌else◌, Bool-cases, length, set, get_or,
}
use operating_systems_final.Process.{
  System, Iotab, Refcnts, ioref, ioclose, ref_all, close_all, without,
}

-- How many of the entries hold the object.
abbrev pub one : ℕ → Option ℕ → ℕ
one o none = 0
one o (some y) = if y == o then 1 else 0

unfoldable pub count : ℕ → Iotab → ℕ
count o [] = 0
count o (x ∷ t) = one o x + count o t

unfoldable pub total : ℕ → List Iotab → ℕ
total o [] = 0
total o (t ∷ ts) = count o t + total o ts

-- The count of each object is the number of entries that hold it, of processes that have not exited,
-- in the 32 bits of the count.
abbrev pub IsCounted : System → Type 0
IsCounted s = (o : ℕ) → s.refcnts o ≡ total o s.iotabs % 2 ^ 32

pub count-set :
    (o : ℕ) (t : Iotab) (i : ℕ) (v : Option ℕ)
    → i < length t
    → count o (set t i v) + one o (get_or t i none) ≡ count o t + one o v
unfolding count
count-set o [] i v h = absurd (omega arith)
count-set o (x ∷ t) zero v h = omega arith
count-set o (x ∷ t) (suc i) v h = omega (arith, count-set o t i v (omega arith))

pub total-set :
    (o : ℕ) (ts : List Iotab) (p : ℕ) (t : Iotab)
    → p < length ts
    → total o (set ts p t) + count o (get_or ts p []) ≡ total o ts + count o t
unfolding total count
total-set o [] p t h = absurd (omega arith)
total-set o (x ∷ ts) zero t h = omega arith
total-set o (x ∷ ts) (suc p) t h = omega (arith, total-set o ts p t (omega arith))

-- An entry that is there is in the table.
pub entry_inside : (t : Iotab) (i y : ℕ) → get_or t i none ≡ some y → i < length t
entry_inside [] i y e = cc
entry_inside (x ∷ t) zero y e = omega arith
entry_inside (x ∷ t) (suc i) y e = omega (arith, entry_inside t i y e)

pub table_inside : (ts : List Iotab) (p i : ℕ) → i < length (get_or ts p []) → p < length ts
table_inside [] p i h = absurd (omega arith)
table_inside (t ∷ ts) zero i h = omega arith
table_inside (t ∷ ts) (suc p) i h = omega (arith, table_inside ts p i h)

pub ref_all-count :
    (o T : ℕ) (t : Iotab) (r : Refcnts)
    → r o ≡ T % 2 ^ 32
    → ref_all t r o ≡ (T + count o t) % 2 ^ 32
unfolding ref_all ioref count
ref_all-count o T [] r e = e ∙ ap (λ x. x % 2 ^ 32) (omega arith)
ref_all-count o T (none ∷ t) r e = ref_all-count o T t r e ∙ ap (λ x. x % 2 ^ 32) (omega arith)
ref_all-count o T (some y ∷ t) r e = elim (Bool-cases (y == o)) [
  | inl f ↦
      ref_all-count o (T + 1) t (ioref y r) (rw f (omega arith))
      ∙ ap (λ x. x % 2 ^ 32) (rw f (omega arith))
  | inr f ↦ ref_all-count o T t (ioref y r) (rw f e) ∙ ap (λ x. x % 2 ^ 32) (rw f (omega arith))
]

pub close_all-count :
    (o T : ℕ) (t : Iotab) (r : Refcnts)
    → r o ≡ (T + count o t) % 2 ^ 32
    → close_all t r o ≡ T % 2 ^ 32
unfolding close_all ioclose count
close_all-count o T [] r e = e ∙ ap (λ x. x % 2 ^ 32) (omega arith)
close_all-count o T (none ∷ t) r e =
    close_all-count o T t r (e ∙ ap (λ x. x % 2 ^ 32) (omega arith))
close_all-count o T (some y ∷ t) r e = elim (Bool-cases (y == o)) [
  | inl f ↦
      let before : r o ≡ (T + (1 + count o t)) % 2 ^ 32 =
        e ∙ ap (λ x. (T + x) % 2 ^ 32) (rw f refl) in
      close_all-count o T t (ioclose y r) (rw f (omega arith))
  | inr f ↦
      close_all-count o T t (ioclose y r)
        (rw f (e ∙ ap (λ x. (T + x) % 2 ^ 32) (rw f (omega arith))))
]

pub total-append :
    (o : ℕ) (ts : List Iotab) (t : Iotab) → total o (ts ++ (t ∷ [])) ≡ total o ts + count o t
unfolding total
total-append o [] t = omega arith
total-append o (x ∷ ts) t = omega (arith, total-append o ts t)

pub total-without :
    (o : ℕ) (ts : List Iotab) (p : ℕ)
    → p < length ts
    → total o (without ts p) + count o (get_or ts p []) ≡ total o ts
unfolding total
total-without o [] p h = absurd (omega arith)
total-without o (t ∷ ts) zero h = omega arith
total-without o (t ∷ ts) (suc p) h = omega (arith, total-without o ts p (omega arith))
