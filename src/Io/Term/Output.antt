-- ===== src/Io/Term/Output.antt =====
-- ioterm_write of src/kern/io.c against the comment on output normalization.
use mathlib.Core.Path.{subst}
use mathlib.Core.List.{append_assoc, append-nil}
use operating_systems_final.Prelude.{
  ℕ, zero, suc, ◌+◌, ◌-◌, ◌<◌, ◌≡◌, refl, sym, ap, ◌∙◌, ◌≢◌, inl, inr, Bool, true, false, ◌&&◌,
  Option, none, some, List, [], ◌∷◌, ◌++◌, arith, ◌==◌, if◌then◌else◌, Bool-cases, Option-cases,
  length, length-append, drop, All,
}
use operating_systems_final.Errno.{Reply, done}
use operating_systems_final.Io.{IoOps, iowrite, ioputc}
use operating_systems_final.Io.Term.{
  Term, flushed, emitted, write_lines, ioterm_write, fix_lines, after_newline,
}

-- What the comment on output normalization says is written for each character, `cr` being `cr_out`.
pub sent_lines : Bool → List ℕ → List ℕ
sent_lines cr [] = []
sent_lines cr (c ∷ cs) =
    let after_cr = sent_lines true cs in
    let after = sent_lines false cs in
    if c == 13
    then 13 ∷ 10 ∷ after_cr
    else if c == 10
    then (if cr then after else 13 ∷ 10 ∷ after)
    else c ∷ after

-- How many characters at the front are passed over and not counted.
abbrev pub skipped : Bool → List ℕ → ℕ
skipped cr [] = 0
skipped cr (c ∷ cs) = if cr && (c == 10) then 1 else 0

-- An object that takes all that it is given.
abbrev pub TakesAll : {D : Type 0} → IoOps D → (D → List ℕ) → Type 0
TakesAll {D} ops sent =
    (d : D) (buf : List ℕ)
    → (d' : D) × (iowrite ops d buf ≡ some (done (length buf), d')) × (sent d' ≡ sent d ++ buf)

module _ {D : Type 0} (ops : IoOps D) (sent : D → List ℕ) (all : TakesAll ops sent) where
  abbrev pub Wrote : List ℕ → ℕ → Option (Reply × Term D) → Type 0
  Wrote text n out = (t' : Term D) × (out ≡ some (done n, t')) × (sent t'.rawio ≡ text)

  drop_all : (xs : List ℕ) → drop (length xs) xs ≡ []
  drop_all [] = refl
  drop_all (x ∷ xs) = drop_all xs

  flush-Wrote :
      (acc : ℕ) (seg : List ℕ) (t : Term D) (next : ℕ → List ℕ → Term D → Option (Reply × Term D))
      (text : List ℕ) (n : ℕ)
      → 0 < length seg
      → ((d : D)
          → sent d ≡ sent t.rawio ++ seg
          → Wrote text n (next (acc + length seg) [] (record t { rawio = d })))
      → Wrote text n (flushed acc seg t next (iowrite ops t.rawio seg))
  unfolding flushed
  flush-Wrote acc seg t next text n some_seg h =
      let (d, e, s) = all t.rawio seg in
      let nonzero : (length seg == 0) ≡ false = ground arith in
      rw (e, nonzero, drop_all seg) (h d s)

  emit-Wrote :
      (c : ℕ) (t : Term D) (next : Term D → Option (Reply × Term D)) (text : List ℕ) (n : ℕ)
      → ((d : D) → sent d ≡ sent t.rawio ++ (c ∷ []) → Wrote text n (next (record t { rawio = d })))
      → Wrote text n (emitted t next (ioputc ops t.rawio c))
  unfolding emitted ioputc
  emit-Wrote c t next text n h = let (d, e, s) = all t.rawio (c ∷ []) in rw (emitted, e) (h d s)

  Wrote-cast :
      (text text' : List ℕ) (n n' : ℕ) (out : Option (Reply × Term D))
      → text ≡ text'
      → n ≡ n'
      → Wrote text n out
      → Wrote text' n' out
  Wrote-cast text text' n n' out e f (t, o, s) = (t, o ∙ ap (λ x. some (done x, t)) f, s ∙ e)

  more_sent : (a b x y : List ℕ) → x ≡ y ++ a → x ++ b ≡ y ++ (a ++ b)
  more_sent a b x y e = ap (λ l. l ++ b) e ∙ append_assoc y a b

  skipped-false : (cs : List ℕ) → skipped false cs ≡ 0
  skipped-false [] = refl
  skipped-false (c ∷ cs) = refl

  after_newline-cons : (cs rest : List ℕ) → after_newline cs ≡ some rest → cs ≡ 10 ∷ rest
  after_newline-cons [] rest e = cc
  after_newline-cons (c ∷ cs) rest e = ground arith

  after_newline-nil : (cs : List ℕ) → after_newline cs ≡ none → skipped true cs ≡ 0
  after_newline-nil [] e = refl
  after_newline-nil (c ∷ cs) e = ground arith

  sent_return :
      (co : Bool) (c : ℕ) (cs : List ℕ)
      → (c == 13) ≡ true
      → sent_lines co (c ∷ cs) ≡ 13 ∷ 10 ∷ sent_lines true cs
  unfolding sent_lines
  sent_return co c cs e = rw e refl

  sent_other :
      (co : Bool) (c : ℕ) (cs : List ℕ)
      → (c == 13) ≡ false
      → (c == 10) ≡ false
      → sent_lines co (c ∷ cs) ≡ c ∷ sent_lines false cs
  unfolding sent_lines
  sent_other co c cs e f = rw (e, f) refl

  sent_newline :
      (co : Bool) (cs : List ℕ)
      → sent_lines co (10 ∷ cs)
        ≡ (if co then sent_lines false cs else 13 ∷ 10 ∷ sent_lines false cs)
  unfolding sent_lines
  sent_newline co cs = refl

  skipped_other : (co : Bool) (c : ℕ) (cs : List ℕ) → (c == 10) ≡ false → skipped co (c ∷ cs) ≡ 0
  skipped_other true c cs e = rw e refl
  skipped_other false c cs e = refl

  abbrev term : D → Bool → Bool → Term D
  term d co ci = record { rawio = d; cr_out = co; cr_in = ci }

  -- What the loop writes: what stands between wp and rp, and what the rest calls for.
  abbrev Promise : ℕ → ℕ → List ℕ → List ℕ → Term D → Type 0
  Promise k acc seg rest t =
      Wrote (sent t.rawio ++ (seg ++ sent_lines t.cr_out rest))
        (acc + length seg + length rest - skipped t.cr_out rest) (write_lines ops k acc seg rest t)

  abbrev Promises : ℕ → Type 0
  Promises k =
      (acc : ℕ) (seg rest : List ℕ) (d : D) (co ci : Bool)
      → length rest < k
      → (co ≡ true → seg ≡ [])
      → Promise k acc seg rest (term d co ci)

  return-Wrote :
      (k acc : ℕ) (seg cs : List ℕ) (d : D) (co ci : Bool)
      → Promises k
      → length cs < k
      → after_newline cs ≡ none
      → Wrote
          (sent d ++ (seg ++ (13 ∷ 10 ∷ sent_lines true cs)))
          (acc + length seg + suc (length cs))
          (flushed acc
            (seg ++ (13 ∷ []))
            (term d co ci)
            (λ acc' seg' t'.
              emitted t'
                (λ t''. write_lines ops k acc' seg' cs (record t'' { cr_out = true }))
                (ioputc ops t'.rawio 10))
            (iowrite ops d (seg ++ (13 ∷ []))))
  return-Wrote k acc seg cs d co ci ih fuel alone =
      let text = sent d ++ (seg ++ (13 ∷ 10 ∷ sent_lines true cs)) in
      let n = acc + length seg + suc (length cs) in
      let sl = sent_lines true cs in
      flush-Wrote acc (seg ++ (13 ∷ [])) (term d co ci) _ text n
        (omega (arith, length-append seg (13 ∷ [])))
        λ d' s. emit-Wrote 10 (term d' co ci) _ text n λ d'' s'.
          Wrote-cast (sent d'' ++ sl) text
            (acc + length (seg ++ (13 ∷ [])) + 0 + length cs - skipped true cs) n _
            (more_sent (10 ∷ []) sl _ _ s'
              ∙ more_sent (seg ++ (13 ∷ [])) (10 ∷ sl) _ _ s
              ∙ ap (λ l. sent d ++ l) (append_assoc seg (13 ∷ []) (10 ∷ sl)))
            (omega (arith, length-append seg (13 ∷ []), after_newline-nil cs alone))
            (ih (acc + length (seg ++ (13 ∷ []))) [] cs d'' true ci fuel (λ q. refl))

  newline-Wrote :
      (k acc : ℕ) (seg cs : List ℕ) (d : D) (co ci : Bool)
      → Promises k
      → length cs < k
      → (co ≡ true → seg ≡ [])
      → Promise (suc k) acc seg (10 ∷ cs) (term d co ci)
  unfolding write_lines sent_lines
  newline-Wrote k acc [] cs d true ci ih fuel fresh =
      Wrote-cast (sent d ++ sent_lines false cs) _ (acc + 0 + length cs - skipped false cs) _ _ refl
        (omega (arith, skipped-false cs)) (ih acc [] cs d false ci fuel (λ q. refl))
  newline-Wrote k acc (s ∷ ss) cs d true ci ih fuel fresh = let bad : s ∷ ss ≡ [] = fresh refl in cc
  newline-Wrote k acc [] cs d false ci ih fuel fresh =
      let sl = sent_lines false cs in
      emit-Wrote 13 (term d false ci) _ _ _ λ d' s.
        Wrote-cast (sent d' ++ (10 ∷ sl)) (sent d ++ (13 ∷ 10 ∷ sl))
          (acc + 1 + length cs - skipped false cs) (acc + 0 + suc (length cs) - 0) _
          (more_sent (13 ∷ []) (10 ∷ sl) _ _ s) (omega (arith, skipped-false cs))
          (ih acc (10 ∷ []) cs d' false ci fuel (λ q. cc))
  newline-Wrote k acc (z ∷ ss) cs d false ci ih fuel fresh =
      let sl = sent_lines false cs in
      let seg = z ∷ ss in
      let text = sent d ++ (seg ++ (13 ∷ 10 ∷ sl)) in
      let n = acc + length seg + suc (length cs) - 0 in
      flush-Wrote acc seg (term d false ci) _ text n (omega arith) λ d' s.
        emit-Wrote 13 (term d' false ci) _ text n λ d'' s'.
          Wrote-cast (sent d'' ++ (10 ∷ sl)) text
            (acc + length seg + 1 + length cs - skipped false cs) n _
            (more_sent (13 ∷ []) (10 ∷ sl) _ _ s' ∙ more_sent seg (13 ∷ 10 ∷ sl) _ _ s)
            (omega (arith, skipped-false cs))
            (ih (acc + length seg) (10 ∷ []) cs d'' false ci fuel (λ q. cc))

  lines-Wrote : (k : ℕ) → Promises k
  unfolding write_lines sent_lines
  lines-Wrote zero acc seg rest d co ci fuel fresh = absurd (omega arith)
  lines-Wrote (suc k) acc [] [] d co ci fuel fresh =
      (term d co ci, ap (λ n. some (done n, term d co ci)) (omega arith), sym (append-nil (sent d)))
  lines-Wrote (suc k) acc (s ∷ seg) [] d co ci fuel fresh =
      flush-Wrote acc (s ∷ seg) (term d co ci) _ _ _ (omega arith) λ d' e. (
        term d' co ci,
        ap (λ n. some (done n, term d' co ci)) (omega arith),
        e ∙ ap (λ l. sent d ++ l) (sym (append-nil (s ∷ seg))),
      )
  lines-Wrote (suc k) acc seg (c ∷ cs) d co ci fuel fresh = elim (Bool-cases (c == 13)) [
    | inl e ↦
        let counted = skipped_other co c cs (ground arith) in
        let text = sent_return co c cs e in
        elim (Option-cases (after_newline cs)) [
          | inr (rest, g) ↦
              let at = after_newline-cons cs rest g in
              let shorter : length cs ≡ suc (length rest) = ap length at in
              Wrote-cast _ _
                (acc + length (seg ++ (13 ∷ 10 ∷ [])) + length rest - skipped false rest) _ _
                (ap (λ l. sent d ++ l)
                  (append_assoc seg (13 ∷ 10 ∷ []) (sent_lines false rest)
                    ∙ ap (λ l. seg ++ (13 ∷ 10 ∷ l))
                        (sym (ap (sent_lines true) at ∙ sent_newline true rest))
                    ∙ ap (λ l. seg ++ l) (sym text)))
                (omega
                  (arith, length-append seg (13 ∷ 10 ∷ []), skipped-false rest, counted, shorter))
                (rw (e, g)
                  (lines-Wrote k acc (seg ++ (13 ∷ 10 ∷ [])) rest d false ci (omega arith)
                    (λ q. cc)))
          | inl g ↦
              Wrote-cast _ _ (acc + length seg + suc (length cs)) _ _
                (ap (λ l. sent d ++ (seg ++ l)) (sym text)) (omega (arith, counted))
                (rw (e, g) (return-Wrote k acc seg cs d co ci (lines-Wrote k) (omega arith) g))
        ]
    | inr e ↦ elim (Bool-cases (c == 10)) [
      | inl f ↦
          let same : 10 ≡ c = ground arith in
          subst (λ x. Promise (suc k) acc seg (x ∷ cs) (term d co ci)) same
            (newline-Wrote k acc seg cs d co ci (lines-Wrote k) (omega arith) fresh)
      | inr f ↦
          Wrote-cast _ _ (acc + length (seg ++ (c ∷ [])) + length cs - skipped false cs) _ _
            (ap (λ l. sent d ++ l)
              (append_assoc seg (c ∷ []) (sent_lines false cs)
                ∙ ap (λ l. seg ++ l) (sym (sent_other co c cs e f))))
            (omega (arith, length-append seg (c ∷ []), skipped-false cs, skipped_other co c cs f))
            (rw (e, f) (lines-Wrote k acc (seg ++ (c ∷ [])) cs d false ci (omega arith) (λ q. cc)))
    ]
  ]

-- Over an object that takes all that it is given, `ioterm_write` of any buffer sends, for each
-- character, what the comment on output normalization says; and it returns the length of the
-- buffer, one less where it starts with a newline that is passed over.
pub ioterm_write-sent_lines :
    {D : Type 0} (ops : IoOps D) (sent : D → List ℕ) (t : Term D) (buf : List ℕ)
    → TakesAll ops sent
    → (t' : Term D) × (ioterm_write ops t buf ≡ some (done (length buf - skipped t.cr_out buf), t'))
      × (sent t'.rawio ≡ sent t.rawio ++ sent_lines t.cr_out buf)
unfolding ioterm_write
ioterm_write-sent_lines ops sent t buf all =
    Wrote-cast ops sent all _ _ (0 + 0 + length buf - skipped t.cr_out buf) _ _ refl (omega arith) (
      lines-Wrote ops sent all (suc (length buf)) 0 [] buf t.rawio t.cr_out t.cr_in (omega arith)
        (λ q. refl))

-- Text without carriage returns that is written by one terminal is read as it was by another, whose
-- last character was no carriage return; the same holds of the next text.
pub fix_lines-sent_lines :
    (text : List ℕ)
    → All (λ c. c ≢ 13) text
    → fix_lines false (sent_lines false text) ≡ (text, false)
unfolding fix_lines sent_lines
fix_lines-sent_lines [] h = refl
fix_lines-sent_lines (c ∷ cs) h =
    let ih = fix_lines-sent_lines cs h.1 in
    let e : (c == 13) ≡ false = ground (arith, h.0) in
    elim (Bool-cases (c == 10)) [
      | inl f ↦ let same : 10 ≡ c = ground arith in rw (e, f, ih) (ap (λ x. (x ∷ cs, false)) same)
      | inr f ↦ rw (e, f, e, ih) refl
    ]
