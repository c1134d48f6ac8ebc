-- ===== src/String/Format.antt =====
-- The number and buffer formatting of src/kern/string.c.
use mathlib.Core.Path.{subst}
use mathlib.Core.List.{reverse, reverse-append, append-nil, append_assoc}
use native.Mathlib.Nat.{pow-suc}
use Prim.Native.Nat.pow
use operating_systems_final.Prelude.{
  ℕ, zero, suc, ◌+◌, ◌-◌, ◌*◌, ◌/◌, ◌%◌, ◌^◌, ◌≤◌, ◌<◌, max, ◌≡◌, refl, sym, ap, ◌∙◌, ◌⊎◌, inl, inr,
  Bool, true, false, some, List, [], ◌∷◌, ◌++◌, arith, ltb, leb, ◌==◌, if◌then◌else◌, Bool-cases,
  length, length-append, take, replicate, length-replicate,
}
use operating_systems_final.String.{
  digit_char, digits_loop, int_digits, format_int, PrintState, vsnprintf_putc, put_all, vsnprintf,
  blank,
}

-- The value of a digit character below base 16.
abbrev pub char_value : ℕ → ℕ
char_value c = if ltb c b'a' then c - b'0' else c + 10 - b'a'

pub value_of : ℕ → ℕ → List ℕ → ℕ
value_of base acc [] = acc
value_of base acc (c ∷ cs) = value_of base (acc * base + char_value c) cs

char_value-digit_char : (d : ℕ) → d < 16 → char_value (digit_char d) ≡ d
char_value-digit_char d h = ground arith

digit_step :
    (base q q' r val c : ℕ)
    → char_value c ≡ r
    → q ≡ q'
    → q' * base + r ≡ val
    → q * base + char_value c ≡ val
digit_step base q q' r val c e f parts = rw (e, f) parts

div-lt : (val base m : ℕ) → 2 ≤ base → val < m * base → val / base < m
div-lt val base m lo fits = grind arith

rounds_left : (k base q : ℕ) → q < base ^ k → (q == 0) ≡ false → 0 < k
rounds_left zero base q small more = let one : base ^ 0 ≡ 1 = pow.zero base in absurd (ground arith)
rounds_left (suc k) base q small more = omega arith

-- The loop ends inside of `k` bytes, with digits that read from `start` on as what stood there does
-- from `start` extended by `val`.
record InBase (k base val : ℕ) (acc : List ℕ) : Type 0 where
  out : List ℕ
  ends : digits_loop k base val acc ≡ some out
  value : value_of base 0 out ≡ value_of base val acc
  fits : length out ≤ k + length acc

digits_loop-InBase :
    (k base val : ℕ) (acc : List ℕ)
    → 2 ≤ base
    → base ≤ 16
    → val < base ^ k
    → 0 < k
    → InBase k base val acc
unfolding digits_loop value_of
digits_loop-InBase zero base val acc lo hi fits some_round = absurd (omega arith)
digits_loop-InBase (suc k) base val acc lo hi fits some_round =
    let d = digit_char (val % base) in
    let small : val % base < 16 = grind arith in
    let same : char_value d ≡ val % base = char_value-digit_char (val % base) small in
    let parts : (val / base) * base + val % base ≡ val = grind arith in
    elim (Bool-cases (val / base == 0)) [
      | inl last ↦
          let none_left : val / base ≡ 0 = ground arith in
          record {
            out = d ∷ acc;
            ends = rw last refl;
            value =
                ap (λ v. value_of base v acc)
                  (digit_step base 0 (val / base) (val % base) val d same (sym none_left) parts);
            fits = omega arith;
          }
      | inr more ↦
          let smaller : val / base < base ^ k =
            div-lt val base (base ^ k) lo (rw (← pow-suc) fits) in
          let rest =
            digits_loop-InBase k base (val / base) (d ∷ acc) lo hi smaller
              (rounds_left k base (val / base) smaller more) in
          record {
            out = rest.out;
            ends = rw more rest.ends;
            value =
                rest.value
                ∙ ap (λ v. value_of base v acc)
                    (digit_step base (val / base) (val / base) (val % base) val d same refl parts);
            fits = omega (arith, rest.fits);
          }
    ]

value_of-nil : (base val : ℕ) → value_of base val [] ≡ val
unfolding value_of
value_of-nil base val = refl

take-nil : (n : ℕ) → take {A = ℕ} n [] ≡ []
take-nil zero = refl
take-nil (suc n) = refl

-- For a 64-bit value in base 10 or 16 the loop of `format_int` ends before the start of its buffer of
-- 40 bytes, and the digits that it has written read back as the value.
pub int_digits-value :
    (base val : ℕ)
    → (base ≡ 10) ⊎ (base ≡ 16)
    → val < 2 ^ 64
    → (ds : List ℕ) × (int_digits base val ≡ some ds)
      × (value_of base 0 ds ≡ val)
      × (length ds ≤ 40)
unfolding int_digits
int_digits-value base val (inl e) small =
    let g =
      digits_loop-InBase 40 10 val [] (omega arith) (omega arith) (omega arith) (omega arith) in
    rw e (g.out, g.ends, g.value ∙ value_of-nil 10 val, g.fits)
int_digits-value base val (inr e) small =
    let g =
      digits_loop-InBase 40 16 val [] (omega arith) (omega arith) (omega arith) (omega arith) in
    rw e (g.out, g.ends, g.value ∙ value_of-nil 16 val, g.fits)

-- `format_int` pads the digits on the left to the width, so that it writes as many characters as the
-- larger of the two.
pub length-format_int :
    (val base width : ℕ) (zpad : Bool) (ds : List ℕ)
    → int_digits base val ≡ some ds
    → (cs : List ℕ) × (format_int val base zpad width ≡ some cs)
      × (length cs ≡ max width (length ds))
unfolding format_int
length-format_int val base width zpad ds e =
    let pad = if zpad then b'0' else blank in
    (
      replicate (width - length ds) pad ++ ds,
      rw (e, format_int) refl,
      omega (
        arith,
        length-append (replicate (width - length ds) pad) ds,
        length-replicate (width - length ds) pad,
      ),
    )

putc_full : (c : ℕ) (st : PrintState) → leb st.rem 1 ≡ true → vsnprintf_putc c st ≡ st
unfolding vsnprintf_putc
putc_full c st e = rw e

putc_room :
    (c : ℕ) (st : PrintState)
    → leb st.rem 1 ≡ false
    → vsnprintf_putc c st ≡ record { done = c ∷ st.done; rem = st.rem - 1 }
unfolding vsnprintf_putc
putc_room c st e = rw e

put_all-nothing :
    (cs : List ℕ) → put_all cs (record { done = []; rem = 0 }) ≡ record { done = []; rem = 0 }
unfolding put_all vsnprintf_putc
put_all-nothing [] = refl
put_all-nothing (c ∷ cs) = put_all-nothing cs

put_all-take :
    (cs : List ℕ) (st : PrintState)
    → 0 < st.rem
    → (reverse (put_all cs st).done ≡ reverse st.done ++ take (st.rem - 1) cs)
      × (0 < (put_all cs st).rem)
unfolding put_all
put_all-take [] st room = (sym (rw (take-nil (st.rem - 1), append-nil) refl), room)
put_all-take (c ∷ cs) st room = elim (Bool-cases (leb st.rem 1)) [
  | inl full ↦
      let same = putc_full c st full in
      let (text, left) = put_all-take cs st room in
      let last : st.rem - 1 ≡ 0 = ground arith in
      (
        ap (λ s. reverse (put_all cs s).done) same ∙ text ∙ rw last refl,
        subst (λ s. 0 < (put_all cs s).rem) (sym same) left,
      )
  | inr more ↦
      let same = putc_room c st more in
      let n = st.rem - 1 - 1 in
      let two : suc n ≡ st.rem - 1 = ground arith in
      let (text, left) =
        put_all-take cs (record { done = c ∷ st.done; rem = st.rem - 1 }) (ground arith) in
      (
        ap (λ s. reverse (put_all cs s).done) same
            ∙ text
            ∙ ap (λ l. l ++ take n cs) (reverse-append (c ∷ []) st.done)
            ∙ append_assoc (reverse st.done) (c ∷ []) (take n cs)
            ∙ ap (λ m. reverse st.done ++ take m (c ∷ cs)) two,
        subst (λ s. 0 < (put_all cs s).rem) (sym same) left,
      )
]

-- `vsnprintf` into a buffer of `bufsz` bytes writes the first `bufsz - 1` characters and a
-- terminator, so it never writes past the buffer; with no buffer it writes nothing.
pub vsnprintf-take :
    (cs : List ℕ) (bufsz : ℕ)
    → vsnprintf bufsz cs ≡ (if bufsz == 0 then [] else take (bufsz - 1) cs ++ (0 ∷ []))
unfolding vsnprintf
vsnprintf-take cs zero = rw (put_all-nothing cs)
vsnprintf-take cs (suc n) =
    let st = put_all cs (record { done = []; rem = suc n }) in
    let (text, left) = put_all-take cs (record { done = []; rem = suc n }) (omega arith) in
    let some_left : (st.rem == 0) ≡ false = ground arith in
    let written : (suc n == 0) ≡ false = ground arith in
    rw (some_left, written) (reverse-append (0 ∷ []) st.done ∙ ap (λ l. l ++ (0 ∷ [])) text)
