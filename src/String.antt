-- ===== src/String.antt =====
-- The byte and string routines of src/kern/string.c. A pointer into memory is the list of the
-- bytes from there on; past the end of such a list stands the terminator that the C string has.
pub mod Compare
pub mod Copy
pub mod Format
use mathlib.Core.List.{reverse}
use operating_systems_final.Prelude.{
  ℕ, zero, suc, ◌+◌, ◌-◌, ◌/◌, ◌%◌, Bool, not, ◌&&◌, Option, none, some, List, [], ◌∷◌, ◌++◌, ltb,
  leb, ◌==◌, if◌then◌else◌, length, take, replicate, ℤ, sub_ℕ, pos, negsuc,
}

-- `strcmp` after the null tests: the loop and the last comparison.
abbrev pub order_of : ℕ → ℕ → ℤ
order_of x y = if ltb x y then negsuc 0 else if ltb y x then pos 1 else pos 0

unfoldable pub strcmp_bytes : List ℕ → List ℕ → ℤ
strcmp_bytes [] [] = pos 0
strcmp_bytes [] (y ∷ t) = order_of 0 y
strcmp_bytes (x ∷ s) [] = order_of x 0
strcmp_bytes (x ∷ s) (y ∷ t) =
    let rest = strcmp_bytes s t in if x == y && not (x == 0) then rest else order_of x y

-- `none` is a null pointer.
unfoldable pub strcmp : Option (List ℕ) → Option (List ℕ) → ℤ
strcmp none none = pos 0
strcmp none (some t) = negsuc 0
strcmp (some s) none = pos 1
strcmp (some s) (some t) = strcmp_bytes s t

unfoldable pub strlen : List ℕ → ℕ
strlen [] = 0
strlen (x ∷ s) = let rest = strlen s in if x == 0 then 0 else suc rest

-- The result is the difference of the first bytes that differ.
unfoldable pub strncmp : List ℕ → List ℕ → ℕ → ℤ
strncmp s t zero = pos 0
strncmp [] [] (suc n) = pos 0
strncmp [] (y ∷ t) (suc n) = sub_ℕ 0 y
strncmp (x ∷ s) [] (suc n) = sub_ℕ x 0
strncmp (x ∷ s) (y ∷ t) (suc n) =
    let rest = strncmp s t n in if not (x == 0) && x == y then rest else sub_ℕ x y

-- The new bytes from `dst` on. It writes at most `n` bytes, and the terminator only where fewer
-- than `n` were copied.
unfoldable pub strncpy : List ℕ → List ℕ → ℕ → List ℕ
strncpy dst src zero = dst
strncpy [] src (suc n) = []
strncpy (d ∷ dst) [] (suc n) = 0 ∷ dst
strncpy (d ∷ dst) (x ∷ src) (suc n) =
    let rest = strncpy dst src n in if x == 0 then 0 ∷ dst else x ∷ rest

unfoldable pub memset : List ℕ → ℕ → ℕ → List ℕ
memset dst c zero = dst
memset [] c (suc n) = []
memset (d ∷ dst) c (suc n) = c ∷ memset dst c n

unfoldable pub memcpy : List ℕ → List ℕ → ℕ → List ℕ
memcpy dst src zero = dst
memcpy [] src (suc n) = []
memcpy (d ∷ dst) [] (suc n) = d ∷ dst
memcpy (d ∷ dst) (x ∷ src) (suc n) = x ∷ memcpy dst src n

unfoldable pub memcmp : List ℕ → List ℕ → ℕ → ℤ
memcmp p q zero = pos 0
memcmp [] q (suc n) = pos 0
memcmp (x ∷ p) [] (suc n) = pos 0
memcmp (x ∷ p) (y ∷ q) (suc n) = let rest = memcmp p q n in if not (x == y) then sub_ℕ x y else rest

-- `format_int`: the digit that a remainder is written as.
abbrev pub digit_char : ℕ → ℕ
digit_char d = if ltb d 10 then b'0' + d else b'a' + d - 10

-- The do-while loop of `format_int` writes from the end of its buffer, where `acc` stands and `k` bytes
-- are left: `none` is a store in front of the buffer.
unfoldable pub digits_loop : ℕ → ℕ → ℕ → List ℕ → Option (List ℕ)
digits_loop zero base val acc = none
digits_loop (suc k) base val acc =
    let acc' = digit_char (val % base) ∷ acc in
    let rest = digits_loop k base (val / base) acc' in if val / base == 0 then some acc' else rest

-- The buffer of `format_int` has 40 bytes.
unfoldable pub int_digits : ℕ → ℕ → Option (List ℕ)
int_digits base val = digits_loop 40 base val []

abbrev pub blank : ℕ
blank = 32

-- What `format_int` gives to `putcfn`: padding up to the width, then the digits; `none` as above.
unfoldable pub format_int : ℕ → ℕ → Bool → ℕ → Option (List ℕ)
format_int val base zpad width = elim (int_digits base val) [
  | none ↦ none
  | some ds ↦ some (replicate (width - length ds) (if zpad then b'0' else blank) ++ ds)
]

-- What `format_str` gives to `putcfn`: the string, then spaces up to the width.
unfoldable pub format_str : List ℕ → ℕ → List ℕ
unfolding strlen
format_str s width = take (strlen s) s ++ replicate (width - strlen s) blank

-- `struct vsnprintf_state`: `done` is what was written before `pos`, latest byte first.
pub record PrintState : Type 0 where
  pub done : List ℕ
  pub rem : ℕ

unfoldable pub vsnprintf_putc : ℕ → PrintState → PrintState
vsnprintf_putc c st = if leb st.rem 1 then st else record { done = c ∷ st.done; rem = st.rem - 1 }

unfoldable pub put_all : List ℕ → PrintState → PrintState
put_all [] st = st
put_all (c ∷ cs) st = put_all cs (vsnprintf_putc c st)

-- What `vsnprintf` has written into a buffer of `bufsz` bytes after its characters `cs`.
unfoldable pub vsnprintf : ℕ → List ℕ → List ℕ
unfolding put_all
vsnprintf bufsz cs =
    let st = put_all cs (record { done = []; rem = bufsz }) in
    if not (st.rem == 0) then reverse (0 ∷ st.done) else reverse st.done
