-- ===== src/Io/Loops.antt =====
-- The write loop of src/kern/io.c: where it ends, and what it has passed on then.
use mathlib.Core.Path.{subst}
use mathlib.Core.List.{append-nil, append_assoc}
use operating_systems_final.Prelude.{
  ℕ, zero, suc, ◌+◌, ◌≤◌, ◌<◌, ◌≡◌, refl, sym, ap, ◌∙◌, ◌≢◌, ◌⊎◌, inl, inr, Option, some, List, [],
  ◌∷◌, ◌++◌, arith, ◌==◌, Bool-cases, length, take, drop, length-drop, take-add, drop-add,
}
use operating_systems_final.Errno.{Errno, Reply, done, fail}
use operating_systems_final.Io.{WriteFn, IoOps, write_out, write_loop, iowrite}

module _ {D : Type 0} (sent : D → List ℕ) (f : WriteFn D) where
  -- A write operation that takes a prefix of its buffer, as its count says.
  abbrev pub TakesPrefix : Type 0
  TakesPrefix =
      (d : D) (buf : List ℕ) (n : ℕ) (d' : D)
      → f d buf ≡ (done n, d')
      → (n ≤ length buf) × (sent d' ≡ sent d ++ take n buf)

  -- A run of the loop that ends: with an error of the object, or with a count of what it passed on,
  -- which stops short of the whole buffer only where the object took nothing.
  abbrev pub Ended : D → List ℕ → ℕ → Option (Reply × D) → Type 0
  Ended d rest acc out =
      ((e : Errno) × (d' : D) × (out ≡ some (fail e, d')))
      ⊎ ((m : ℕ) × (d' : D) × (out ≡ some (done (acc + m), d'))
          × (m ≤ length rest)
          × (sent d' ≡ sent d ++ take m rest)
          × ((m ≡ length rest) ⊎ ((d'' : D) × (f d'' (drop m rest) ≡ (done 0, d')))))

  extend :
      (d : D) (rest : List ℕ) (acc n : ℕ) (d' : D) (out : Option (Reply × D))
      → n ≤ length rest
      → sent d' ≡ sent d ++ take n rest
      → Ended d' (drop n rest) (acc + n) out
      → Ended d rest acc out
  extend d rest acc n d' out fits took (inl e) = inl e
  extend d rest acc n d' out fits took (inr (m, d'', eq, small, sent_rest, stop)) = inr (
    n + m,
    d'',
    eq ∙ ap (λ j. some (done j, d'')) (omega arith),
    omega (arith, length-drop n rest),
    sent_rest
        ∙ ap (λ l. l ++ take m (drop n rest)) took
        ∙ append_assoc (sent d) (take n rest) (take m (drop n rest))
        ∙ ap (λ l. sent d ++ l) (sym (take-add n m rest)),
    shift stop,
  )
    where
      shift :
          (m ≡ length (drop n rest)) ⊎ ((d3 : D) × (f d3 (drop m (drop n rest)) ≡ (done 0, d'')))
          → (n + m ≡ length rest) ⊎ ((d3 : D) × (f d3 (drop (n + m) rest) ≡ (done 0, d'')))
      shift (inl all) = inl (omega (arith, length-drop n rest))
      shift (inr (d3, e)) = inr (d3, ap (f d3) (drop-add n m rest) ∙ e)

  round-Ended :
      (d : D) (rest : List ℕ) (acc : ℕ) (next : ℕ → D → Option (Reply × D)) (out : Reply × D)
      → f d rest ≡ out
      → TakesPrefix
      → ((n : ℕ) (d' : D) → n ≢ 0 → Ended d' (drop n rest) (acc + n) (next n d'))
      → Ended d rest acc (write_out acc next out)
  unfolding write_out
  round-Ended d rest acc next (fail e, d') eq ok ih = inl (e, d', refl)
  round-Ended d rest acc next (done n, d') eq ok ih =
      let (fits, took) = ok d rest n d' eq in
      elim (Bool-cases (n == 0)) [
        | inl z ↦
            let n0 : n ≡ 0 = ground arith in
            inr (
              0,
              d',
              rw z (ap (λ m. some (done m, d')) (omega arith)),
              omega arith,
              subst (λ j. sent d' ≡ sent d ++ take j rest) n0 took,
              inr (d, subst (λ j. f d rest ≡ (done j, d')) n0 eq),
            )
        | inr nz ↦ rw nz (extend d rest acc n d' (next n d') fits took (ih n d' (ground arith)))
      ]

  write_loop-Ended :
      (k : ℕ) (d : D) (rest : List ℕ) (acc : ℕ)
      → TakesPrefix
      → length rest < k
      → Ended d rest acc (write_loop f k d rest acc)
  unfolding write_loop
  write_loop-Ended zero d rest acc ok fuel = absurd (omega arith)
  write_loop-Ended (suc k) d [] acc ok fuel = inr (
    0,
    d,
    ap (λ n. some (done n, d)) (omega arith),
    omega arith,
    sym (append-nil (sent d)),
    inl refl,
  )
  write_loop-Ended (suc k) d (c ∷ cs) acc ok fuel =
      round-Ended d (c ∷ cs) acc (λ n d'. write_loop f k d' (drop n (c ∷ cs)) (acc + n))
        (f d (c ∷ cs)) refl ok
        λ n d' nz.
          write_loop-Ended k d' (drop n (c ∷ cs)) (acc + n) ok
            (omega (arith, length-drop n (c ∷ cs)))

-- `iowrite` over an object that takes prefixes always ends; if no error came up, the object has
-- received a prefix of the buffer, the count says how long it is, and it is the whole buffer unless
-- the object took nothing at its end.
pub iowrite-Ended :
    {D : Type 0} (ops : IoOps D) (sent : D → List ℕ) (f : WriteFn D) (d : D) (buf : List ℕ)
    → ops.write ≡ some f
    → TakesPrefix sent f
    → Ended sent f d buf 0 (iowrite ops d buf)
unfolding iowrite
iowrite-Ended ops sent f d buf e ok =
    rw e (write_loop-Ended sent f (suc (length buf)) d buf 0 ok (omega arith))
