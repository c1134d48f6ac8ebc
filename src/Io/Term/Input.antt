-- ===== src/Io/Term/Input.antt =====
-- ioterm_read of src/kern/io.c: its scan for line endings, and the rounds of its loop.
use operating_systems_final.Prelude.{
  ℕ, zero, suc, ◌<◌, ◌≡◌, refl, ◌⊎◌, inl, inr, Bool, true, false, Option, none, some, List, [], ◌∷◌,
  ◌++◌, ◌==◌, Bool-cases, length,
}
use operating_systems_final.Errno.{Errno, Reply, done, fail}
use operating_systems_final.Io.{IoOps, ioread}
use operating_systems_final.Io.Term.{Term, fix_lines, scan, scanned, ioterm_read}

-- Characters that come in two pieces are fixed as if they came in one: `cr_in` carries over all that
-- the second piece needs.
pub fix_lines-append :
    (cr : Bool) (a b : List ℕ)
    → let (x, cr') = fix_lines cr a in
      let (y, cr'') = fix_lines cr' b in fix_lines cr (a ++ b) ≡ (x ++ y, cr'')
unfolding fix_lines
fix_lines-append cr [] b = refl
fix_lines-append true (c ∷ cs) b =
    let ih₁ = fix_lines-append true cs b in
    let ih₀ = fix_lines-append false cs b in
    elim (Bool-cases (c == 13)) [
      | inl e ↦ rw (e, ih₁) refl
      | inr e ↦ elim (Bool-cases (c == 10)) [ inl f ↦ rw (e, f) ih₀ | inr f ↦ rw (e, f, ih₀) refl ]
    ]
fix_lines-append false (c ∷ cs) b =
    let ih₁ = fix_lines-append true cs b in
    let ih₀ = fix_lines-append false cs b in
    elim (Bool-cases (c == 13)) [ inl e ↦ rw (e, ih₁) refl | inr e ↦ rw (e, ih₀) refl ]

-- A read operation that returns an error or at least one character, if it is asked for one.
abbrev pub IsLive : {D : Type 0} → IoOps D → Type 0
IsLive {D} ops =
    (d : D) (len : ℕ)
    → 0 < len
    → ((e : Errno) × (bytes : List ℕ) × (d' : D) × (ioread ops d len ≡ (fail e, bytes, d')))
      ⊎ ((n c : ℕ) × (cs : List ℕ) × (d' : D) × (ioread ops d len ≡ (done (suc n), c ∷ cs, d')))

module _ {D : Type 0} where
  -- A result: an error of the raw object, or one character or more.
  abbrev pub Gets : Option (Reply × List ℕ × Term D) → Type 0
  Gets out =
      ((e : Errno) × (bytes : List ℕ) × (t : Term D) × (out ≡ some (fail e, bytes, t)))
      ⊎ ((c : ℕ) × (cs : List ℕ) × (t : Term D) × (out ≡ some (done (length (c ∷ cs)), c ∷ cs, t)))

-- At the end of a raw object that keeps returning 0, `ioterm_read` never returns: it runs out of any
-- fuel.
pub ioterm_read_stuck :
    {D : Type 0} (ops : IoOps D) (k : ℕ) (t : Term D) (len : ℕ)
    → ioread ops t.rawio len ≡ (done 0, [], t.rawio)
    → ioterm_read ops k t len ≡ none
unfolding ioterm_read scan scanned fix_lines
ioterm_read_stuck ops zero t len e = refl
ioterm_read_stuck ops (suc k) t len e = rw e (ioterm_read_stuck ops k t len e)
