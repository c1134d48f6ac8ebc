-- ===== src/Io/Lit/Contract.antt =====
-- A memory block of src/kern/io.c and the promises of an I/O object.
use mathlib.Core.List.{append-nil}
use operating_systems_final.Prelude.{
  ℕ, ◌+◌, ◌-◌, ◌^◌, ◌≤◌, ◌<◌, min, ◌≡◌, refl, sym, ap, ◌∙◌, ◌⊎◌, inl, inr, true, none, List, ◌++◌,
  arith, leb, Bool-cases, length, length-append, take, drop, length-take, length-drop, add64,
  drop-add, drop-take, take-take, take-append, drop-append, take_all,
}
use operating_systems_final.Errno.{done, einval}
use operating_systems_final.Io.{ioread, ioseek, ioctl, answered, refused}
use operating_systems_final.Io.Laws.{IsFile, slice, splice}
use operating_systems_final.Io.Lit.{Lit, granted, iolit_read, iolit_write, iolit_ioctl, iolit_ops}
use operating_systems_final.String.{memcpy}
use operating_systems_final.String.Copy.{memcpy_lem, length-memcpy}

pub record IsValid (l : Lit) : Type 0 where
  pub storage : l.size ≤ length l.buf
  pub within : l.pos ≤ l.size
  pub word : l.size < 2 ^ 64

-- The bytes of the file.
abbrev pub contents : Lit → List ℕ
contents l = take l.size l.buf

length-contents : (l : Lit) → IsValid l → length (contents l) ≡ l.size
length-contents l v = omega (arith, v.storage, length-take l.size l.buf)

slice-contents :
    (l : Lit) (p n : ℕ) → p + n ≤ l.size → take n (drop p l.buf) ≡ slice p n (contents l)
slice-contents l p n h =
    sym (
      ap (take n) (drop-take p l.size l.buf)
      ∙ take-take n (l.size - p) (drop p l.buf) (omega arith))

abbrev pub moved_to : Lit → ℕ → Lit
moved_to l p = record l { pos = p }

pub seek_fits :
    (l : Lit) (p : ℕ)
    → IsValid l
    → p ≤ length (contents l)
    → (ioseek iolit_ops l p ≡ (answered none, moved_to l p)) × IsValid (moved_to l p)
unfolding ioseek ioctl iolit_ioctl
seek_fits l p v h =
    let fits : p ≤ l.size = omega (arith, length-contents l v) in
    let ok : leb p l.size ≡ true = ground arith in
    (rw ok, record { storage = v.storage; within = fits; word = v.word })

pub read_fits :
    (l : Lit) (n : ℕ)
    → IsValid l
    → l.pos + n ≤ length (contents l)
    → (ioread iolit_ops l n ≡ (done n, slice l.pos n (contents l), moved_to l (l.pos + n)))
      × IsValid (moved_to l (l.pos + n))
unfolding ioread iolit_read
read_fits l n v h =
    let fits : l.pos + n ≤ l.size = omega (arith, length-contents l v) in
    let all : granted l n ≡ n = ground (arith, fits, v.within, v.word) in
    let there : add64 l.pos n ≡ l.pos + n = omega (arith, v.word) in
    (
      rw (all, there)
          (ap (λ b. (done n, b, moved_to l (l.pos + n))) (slice-contents l l.pos n fits)),
      record { storage = v.storage; within = fits; word = v.word },
    )

-- A valid memory block behaves as a file of its bytes: it seeks anywhere in them, and reads what
-- is asked for where that much is left.
abbrev pub iolit-IsFile : IsFile iolit_ops
iolit-IsFile = record {
  Ok = IsValid;
  bytes = contents;
  pos = λ l. l.pos;
  seek = moved_to;
  after_read = λ l n. moved_to l (l.pos + n);
  seek_lem =
      λ l p v h. let (e, v') = seek_fits l p v h in (e, v', record { same = refl; at = refl });
  read_lem =
      λ l n v h. let (e, v') = read_fits l n v h in (e, v', record { same = refl; at = refl });
}

-- A seek behind the end is refused and moves nothing; one to the end or before is taken.
pub iolit-seek_iff :
    (l : Lit) (p : ℕ)
    → ((p ≤ l.size) × (ioseek iolit_ops l p ≡ (answered none, moved_to l p)))
      ⊎ ((l.size < p) × (ioseek iolit_ops l p ≡ (refused einval, l)))
unfolding ioseek ioctl iolit_ioctl
iolit-seek_iff l p = elim (Bool-cases (leb p l.size)) [
  | inl e ↦ inl (ground arith, rw e)
  | inr e ↦ inr (ground arith, rw e)
]

-- How many bytes a valid block grants.
granted-min : (l : Lit) (len : ℕ) → IsValid l → granted l len ≡ min len (l.size - l.pos)
granted-min l len v = ground (arith, v.within, v.word)

-- A read returns the bytes from the position on, as many as were asked for and are left, and moves
-- the position behind them.
pub iolit_read-min :
    (l : Lit) (len : ℕ)
    → IsValid l
    → let n = min len (l.size - l.pos) in
      (iolit_read l len ≡ (done n, slice l.pos n (contents l), moved_to l (l.pos + n)))
      × IsValid (moved_to l (l.pos + n))
unfolding iolit_read
iolit_read-min l len v =
    let n = min len (l.size - l.pos) in
    let fits : l.pos + n ≤ l.size = omega (arith, v.within) in
    let there : add64 l.pos n ≡ l.pos + n = omega (arith, v.word) in
    (
      rw (granted-min l len v, there)
          (ap (λ b. (done n, b, moved_to l (l.pos + n))) (slice-contents l l.pos n fits)),
      record { storage = v.storage; within = fits; word = v.word },
    )

splice-contents :
    (p size : ℕ) (buf src : List ℕ)
    → p + length src ≤ size
    → size ≤ length buf
    → take size (take p buf ++ (src ++ drop (length src) (drop p buf)))
      ≡ splice p src (take size buf)
splice-contents p size buf src fits room =
    let n = length src in
    take-append size (size - p) (take p buf) _ (omega (arith, length-take p buf))
    ∙ ap (λ l. take p buf ++ l) (take-append (size - p) (size - p - n) src _ (omega arith))
    ∙ ap (λ l. take p buf ++ (src ++ l))
        (ap (take (size - p - n)) (sym (drop-add p n buf))
          ∙ ap (λ k. take k (drop (p + n) buf)) (omega arith)
          ∙ sym (drop-take (p + n) size buf))
    ∙ ap (λ l. l ++ (src ++ drop (p + n) (take size buf)))
        (sym (take-take p size buf (omega arith)))

size-iolit_write : (l : Lit) (src : List ℕ) → (iolit_write l src).1.size ≡ l.size
unfolding iolit_write
size-iolit_write l src = refl

-- A write puts the first bytes of the buffer, as many as there is room for, in the place of those
-- from the position on, keeps all others, and moves the position behind them.
pub iolit_write-splice :
    (l : Lit) (src : List ℕ)
    → IsValid l
    → let n = min (length src) (l.size - l.pos) in
      let (r, l') = iolit_write l src in
      (r ≡ done n)
      × (contents l' ≡ splice l.pos (take n src) (contents l))
      × (l'.pos ≡ l.pos + n)
      × IsValid l'
unfolding iolit_write
iolit_write-splice l src v =
    let n = min (length src) (l.size - l.pos) in
    let e : granted l (length src) ≡ n = granted-min l (length src) v in
    let there : add64 l.pos n ≡ l.pos + n = omega (arith, v.word, v.within) in
    let len : length (take n src) ≡ n = omega (arith, length-take n src) in
    let tail : List ℕ = drop l.pos l.buf in
    let copied : memcpy tail src n ≡ take n src ++ drop (length (take n src)) tail =
      memcpy_lem tail src n (omega (arith, length-drop l.pos l.buf, v.storage, v.within))
        (omega arith)
      ∙ ap (λ k. take n src ++ drop k tail) (sym len) in
    rw (e, there)
      (
        refl,
        ap (λ t. take l.size (take l.pos l.buf ++ t)) copied
            ∙ splice-contents l.pos l.size l.buf (take n src) (omega (arith, v.within)) v.storage,
        refl,
        record {
          storage = omega (
            arith,
            v.storage,
            v.within,
            length-append (take l.pos l.buf) (memcpy tail src n),
            length-take l.pos l.buf,
            length-memcpy tail src n,
            length-drop l.pos l.buf,
          );
          within = omega (arith, v.within);
          word = v.word;
        },
      )

pub slice-splice :
    (p : ℕ) (new bytes : List ℕ)
    → p ≤ length bytes
    → slice p (length new) (splice p new bytes) ≡ new
slice-splice p new bytes h =
    ap (take (length new)) (
      drop-append p 0 (take p bytes) (new ++ drop (p + length new) bytes)
        (omega (arith, length-take p bytes)))
    ∙ take-append (length new) 0 new (drop (p + length new) bytes) (omega arith)
    ∙ append-nil new

-- What was written where there is room for it reads back: after seeking to where the write began,
-- a read of the same length returns the bytes written.
pub iolit_read-write :
    (l : Lit) (src : List ℕ)
    → IsValid l
    → l.pos + length src ≤ l.size
    → let written = (iolit_write l src).1 in
      let sought = (ioseek iolit_ops written l.pos).1 in (iolit_read sought (length src)).1 ≡ src
unfolding ioseek ioctl iolit_ioctl
iolit_read-write l src v room =
    let l' = (iolit_write l src).1 in
    let (r, after, at, v') = iolit_write-splice l src v in
    let n : min (length src) (l.size - l.pos) ≡ length src = omega arith in
    let whole : take (length src) src ≡ src = take_all (length src) src (omega arith) in
    let new : contents l' ≡ splice l.pos src (contents l) =
      after
      ∙ ap (λ k. splice l.pos (take k src) (contents l)) n
      ∙ ap (λ s. splice l.pos s (contents l)) whole in
    let size : l'.size ≡ l.size = size-iolit_write l src in
    let ok : leb l.pos l'.size ≡ true = ground (arith, v.within) in
    let sought = moved_to l' l.pos in
    let vs : IsValid sought = record {
      storage = v'.storage;
      within = omega (arith, v.within);
      word = v'.word;
    } in
    let fits : min (length src) (l'.size - l.pos) ≡ length src = omega arith in
    rw ok (
      ap (λ o. o.1) (iolit_read-min sought (length src) vs).0
      ∙ ap (λ k. slice l.pos k (contents l')) fits
      ∙ ap (λ b. slice l.pos (length src) b) new
      ∙ slice-splice l.pos src (contents l) (omega (arith, length-contents l v, v.within)))
