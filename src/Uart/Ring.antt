-- ===== src/Uart/Ring.antt =====
-- The ring buffers of src/kern/uart.c against a queue of bytes.
use operating_systems_final.Prelude.{
  ℕ, zero, suc, ◌%◌, ◌≤◌, ◌<◌, ◌^◌, ◌≡◌, refl, ◌∙◌, ap, ◌↔◌, true, false, List, [], ◌∷◌, ◌++◌,
  arith, length, set, get_or, length-set, get_or-set_self, get_or-set_ne, add16, sub16, ==_iff,
}
use mathlib.Core.Path.{ap₂}
use operating_systems_final.Uart.{
  RingBuf, rbuf_size, rbuf_init, rbuf_empty, rbuf_full, rbuf_put, rbuf_get,
}

-- How many bytes a buffer holds, in the arithmetic of its `uint16_t` positions.
abbrev pub count : RingBuf → ℕ
count r = sub16 r.tpos r.hpos

pub record IsValid (r : RingBuf) : Type 0 where
  pub storage : length r.bytes ≡ rbuf_size
  pub head_word : r.hpos < 2 ^ 16
  pub tail_word : r.tpos < 2 ^ 16
  pub fits : count r ≤ rbuf_size

-- The `n` bytes from position `h` on.
abbrev pub window : List ℕ → ℕ → ℕ → List ℕ
window bytes h zero = []
window bytes h (suc n) = get_or bytes (h % rbuf_size) 0 ∷ window bytes (add16 h 1) n

abbrev pub contents : RingBuf → List ℕ
contents r = window r.bytes r.hpos (count r)

length-window : (bytes : List ℕ) (h n : ℕ) → length (window bytes h n) ≡ n
length-window bytes h zero = refl
length-window bytes h (suc n) = ap suc (length-window bytes (add16 h 1) n)

pub length-contents : (r : RingBuf) → length (contents r) ≡ count r
length-contents r = length-window r.bytes r.hpos (count r)

window-put :
    (bytes : List ℕ) (c h n i : ℕ)
    → length bytes ≡ rbuf_size
    → n < rbuf_size
    → h < 2 ^ 16
    → i ≡ add16 h n % rbuf_size
    → window (set bytes i c) h (suc n) ≡ window bytes h n ++ (c ∷ [])
window-put bytes c h zero i len lt small e =
    let same : h % rbuf_size ≡ i = omega arith in
    ap (λ v. v ∷ [])
      (ap (λ k. get_or (set bytes i c) k 0) same ∙ get_or-set_self bytes i c 0 (omega arith))
window-put bytes c h (suc n) i len lt small e =
    ap₂ ◌∷◌ (get_or-set_ne bytes c 0 (omega arith))
      (window-put bytes c (add16 h 1) n i len (omega arith) (omega arith) (omega arith))

-- The window of a buffer that is not empty starts at its head.
window_of_pos :
    (bytes : List ℕ) (h n m : ℕ)
    → n ≡ suc m
    → window bytes h n ≡ get_or bytes (h % rbuf_size) 0 ∷ window bytes (add16 h 1) m
window_of_pos bytes h n m e = ap (window bytes h) e

-- `rbuf_init` empties any buffer whose storage has the right size.
pub rbuf_init-IsValid :
    (r : RingBuf)
    → length r.bytes ≡ rbuf_size
    → IsValid (rbuf_init r) × (contents (rbuf_init r) ≡ [])
unfolding rbuf_init
rbuf_init-IsValid r len = (
  record { storage = len; head_word = omega arith; tail_word = omega arith; fits = omega arith },
  refl,
)

pub rbuf_put-IsValid :
    (r : RingBuf) (c : ℕ) → IsValid r → rbuf_full r ≡ false → IsValid (rbuf_put r c)
unfolding rbuf_put rbuf_full
rbuf_put-IsValid r c v room = ground (arith, length-set r.bytes (r.tpos % rbuf_size) c)

count-lt : (r : RingBuf) → IsValid r → rbuf_full r ≡ false → count r < rbuf_size
unfolding rbuf_full
count-lt r v room = ground arith

-- Putting a byte into a valid buffer that is not full keeps it valid and appends the byte to its
-- contents, also where a position wraps round at 65536.
pub rbuf_put-append :
    (r : RingBuf) (c : ℕ)
    → IsValid r
    → rbuf_full r ≡ false
    → IsValid (rbuf_put r c) × (contents (rbuf_put r c) ≡ contents r ++ (c ∷ []))
unfolding rbuf_put
rbuf_put-append r c v room = (rbuf_put-IsValid r c v room, step)
  where
    small : count r < rbuf_size
    small = count-lt r v room

    longer : sub16 (add16 r.tpos 1) r.hpos ≡ suc (count r)
    longer = omega (arith, v.fits, small, v.head_word, v.tail_word)

    step : contents (rbuf_put r c) ≡ contents r ++ (c ∷ [])
    step =
        ap (window (set r.bytes (r.tpos % rbuf_size) c) r.hpos) longer
        ∙ window-put r.bytes c r.hpos (count r) (r.tpos % rbuf_size) v.storage small v.head_word
            (omega (arith, v.head_word, v.tail_word))

-- Getting a byte from a valid buffer that is not empty takes the oldest byte of its contents and
-- keeps it valid.
pub rbuf_get-cons :
    (r : RingBuf)
    → IsValid r
    → rbuf_empty r ≡ false
    → IsValid (rbuf_get r).1 × (contents r ≡ (rbuf_get r).0 ∷ contents (rbuf_get r).1)
unfolding rbuf_get rbuf_empty
rbuf_get-cons r v more = (
  ground arith,
  window_of_pos r.bytes r.hpos (count r) (sub16 r.tpos (add16 r.hpos 1)) (ground arith),
)

pub contents_of_empty : (r : RingBuf) → IsValid r → rbuf_empty r ≡ true → contents r ≡ []
unfolding rbuf_empty
contents_of_empty r v none_left = let e : count r ≡ 0 = ground arith in ap (window r.bytes r.hpos) e

pub rbuf_full_iff : (r : RingBuf) → (rbuf_full r ≡ true) ↔ (length (contents r) ≡ rbuf_size)
unfolding rbuf_full
rbuf_full_iff r = rw (length-contents r) (==_iff (count r) rbuf_size)
