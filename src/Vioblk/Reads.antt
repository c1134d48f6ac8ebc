-- ===== src/Vioblk/Reads.antt =====
-- vioblk_read of src/kern/vioblk.c and the bytes of the device; the driver as an I/O object that the
-- file system of src/kern/kfs.c can stand on.
use mathlib.Core.Path.{ap₂, subst}
use mathlib.Core.List.{append-nil, append_assoc}
use operating_systems_final.Prelude.{
  ℕ, zero, suc, ◌+◌, ◌-◌, ◌*◌, ◌/◌, ◌%◌, ◌^◌, ◌≤◌, ◌<◌, min, ◌≡◌, refl, sym, ap, ◌∙◌, inl, inr,
  false, none, List, [], ◌++◌, arith, ltb, leb, ◌==◌, Bool-cases, length, length-append, take, drop,
  length-take, add64, take-add, drop-add, drop-take, take-take,
}
use operating_systems_final.Errno.{Reply, done}
use operating_systems_final.Io.{ioread, ioctl, ioseek, answered}
use operating_systems_final.Io.Laws.{IsFile, Moved, slice}
use operating_systems_final.Vioblk.{
  TransferFn, Vioblk, part, read_on, read_blocks, clamp, vioblk_read, vioblk_ioctl, vioblk_io_ops,
}
use operating_systems_final.Vioblk.Coherent.{
  Works, IsCoherent, block_fits, length-slice, load-IsCoherent,
}

slice-slice :
    (p b off n : ℕ) (xs : List ℕ) → off + n ≤ b → slice off n (slice p b xs) ≡ slice (p + off) n xs
slice-slice p b off n xs h =
    ap (take n) (drop-take off b (drop p xs))
    ∙ take-take n (b - off) (drop off (drop p xs)) (omega arith)
    ∙ ap (take n) (sym (drop-add p off xs))

slice-add : (p n m : ℕ) (xs : List ℕ) → slice p (n + m) xs ≡ slice p n xs ++ slice (p + n) m xs
slice-add p n m xs =
    take-add n m (drop p xs) ∙ ap (λ r. slice p n xs ++ take m r) (sym (drop-add p n xs))

module _ {D : Type 0} {transfer : TransferFn D} (W : Works transfer) where
  -- What a read of `room` bytes gives, behind those that it got before.
  record Got (v : Vioblk D) (got : List ℕ) (room : ℕ) (r : Reply × List ℕ × Vioblk D) : Type 0 where
    out : Vioblk D
    result : r ≡ (done (length got + room), got ++ slice v.pos room (W.contents v.dev), out)
    coherent : IsCoherent W out
    contents : W.contents out.dev ≡ W.contents v.dev
    size : out.size ≡ v.size
    at : out.pos ≡ v.pos + room

  read_nothing :
      (v : Vioblk D) (got : List ℕ) (room : ℕ)
      → IsCoherent W v
      → room ≡ 0
      → Got v got room (done (length got), got, v)
  read_nothing v got room k e =
      subst (λ z. Got v got z (done (length got), got, v)) (sym e)
        (record {
          out = v;
          result = ap₂ (λ n l. (done n, l, v)) (omega arith) (sym (append-nil got));
          coherent = k;
          contents = refl;
          size = refl;
          at = omega arith;
        })

  -- A round's bytes and the rest.
  Got-round :
      (v v₂ : Vioblk D) (got got' : List ℕ) (n room : ℕ) (r : Reply × List ℕ × Vioblk D)
      → n ≤ room
      → v.pos + room ≤ length (W.contents v.dev)
      → got' ≡ got ++ slice v.pos n (W.contents v.dev)
      → v₂.pos ≡ v.pos + n
      → W.contents v₂.dev ≡ W.contents v.dev
      → v₂.size ≡ v.size
      → Got v₂ got' (room - n) r
      → Got v got room r
  Got-round v v₂ got got' n room r h inside e at same size g =
      let xs = W.contents v.dev in
      let counts : length got' + (room - n) ≡ length got + room = omega (
        arith,
        ap length e,
        length-append got (slice v.pos n xs),
        length-slice v.pos n xs (omega arith),
      ) in
      let whole : n + (room - n) ≡ room = omega arith in
      let joined : got' ++ slice v₂.pos (room - n) (W.contents v₂.dev)
          ≡ got ++ slice v.pos room xs =
        ap₂ (λ a b. a ++ b) e (ap₂ (λ p l. slice p (room - n) l) at same)
        ∙ append_assoc got (slice v.pos n xs) (slice (v.pos + n) (room - n) xs)
        ∙ ap (λ l. got ++ l)
            (sym (slice-add v.pos n (room - n) xs) ∙ ap (λ m. slice v.pos m xs) whole) in
      record {
        out = g.out;
        result = g.result ∙ ap₂ (λ c l. (done c, l, g.out)) counts joined;
        coherent = g.coherent;
        contents = g.contents ∙ same;
        size = g.size ∙ size;
        at = omega (arith, g.at);
      }

  -- The position of a coherent state moves freely.
  pub moved-IsCoherent :
      (v : Vioblk D) (p : ℕ) → IsCoherent W v → p ≤ v.size → IsCoherent W (record v { pos = p })
  moved-IsCoherent v p c h = record {
    up = c.up;
    positive = c.positive;
    sectors = c.sectors;
    whole = c.whole;
    backed = c.backed;
    word = c.word;
    room = c.room;
    cached = c.cached;
    within = h;
  }

  read_blocks-Got :
      (k room : ℕ) (got : List ℕ) (v : Vioblk D)
      → IsCoherent W v
      → room ≤ k
      → v.pos + room ≤ v.size
      → Got v got room (read_blocks transfer k room got v)
  unfolding read_blocks read_on
  read_blocks-Got zero room got v c fuel inside = read_nothing v got room c (omega arith)
  read_blocks-Got (suc k) room got v c fuel inside = elim (Bool-cases (room == 0)) [
    | inl none_left ↦ rw none_left (read_nothing v got room c (ground arith))
    | inr more ↦
        let n = part room v in
        let b = v.blksz in
        let q = v.pos / b in
        let off = v.pos % b in
        let xs = W.contents v.dev in
        let left : 0 < room = ground arith in
        let (split, low, ends) = block_fits b v.blkcnt v.pos c.positive (omega (arith, c.whole)) in
        let some_bytes : (0 < n) × (n ≤ room) × (off + n ≤ b) = ground (arith, low, left) in
        let (v₁, e, c₁, same, block) = load-IsCoherent W v q c (omega (arith, c.whole)) in
        let there : add64 v₁.pos n ≡ v.pos + n = omega (arith, same.pos, c.word) in
        let bytes : take n (drop (v₁.pos % v₁.blksz) v₁.blkbuf) ≡ slice v.pos n xs =
          ap₂ (λ o l. take n (drop o l)) (ap₂ (λ x y. x % y) same.pos same.blksz) block
          ∙ slice-slice (q * b) b off n xs some_bytes.2
          ∙ ap (λ p. slice p n xs) split in
        let v₂ : Vioblk D = record v₁ { pos = add64 v₁.pos n } in
        let rest =
          read_blocks-Got k (room - n) (got ++ take n (drop (v₁.pos % v₁.blksz) v₁.blkbuf)) v₂
            (moved-IsCoherent v₁ (add64 v₁.pos n) c₁ (omega (arith, same.size))) (omega arith)
            (omega (arith, same.size)) in
        rw (more, e, read_blocks)
          (Got-round v v₂ got _ n room _ some_bytes.1 (omega (arith, c.backed))
            (ap (λ l. got ++ l) bytes) there same.contents same.size rest)
  ]

  clamp-min :
      (v : Vioblk D) (n : ℕ)
      → IsCoherent W v
      → v.pos + n < 2 ^ 64
      → clamp transfer n v ≡ min n (v.size - v.pos)
  clamp-min v n c h = ground (arith, c.within, c.word)

  -- On a device that works, in a coherent state, a read of `n` bytes gives the bytes of the device
  -- from the position on, as many of them as are left, where the position and `n` make less than
  -- 2^64; it moves the position behind them and leaves the contents and a coherent state.
  pub vioblk_read-slice :
      (v : Vioblk D) (n : ℕ)
      → IsCoherent W v
      → v.pos + n < 2 ^ 64
      → let m = min n (v.size - v.pos) in
        (v' : Vioblk D) × (vioblk_read transfer v n
          ≡ (done m, slice v.pos m (W.contents v.dev), v'))
        × IsCoherent W v'
        × (W.contents v'.dev ≡ W.contents v.dev)
        × (v'.size ≡ v.size)
        × (v'.pos ≡ v.pos + m)
  unfolding vioblk_read
  vioblk_read-slice v n c h = elim (Bool-cases (leb v.size v.pos)) [
    | inl over ↦
        let nothing : min n (v.size - v.pos) ≡ 0 = ground arith in
        rw (over, nothing) ((v, refl, c, refl, refl, omega arith))
    | inr inside ↦
        let m = clamp transfer n v in
        let g = read_blocks-Got m m [] v c (omega arith) (ground (arith, c.within)) in
        let exact = clamp-min v n c h in
        rw inside (
          subst
            (λ z.
              (v' : Vioblk D) × (read_blocks transfer m m [] v
                ≡ (done z, slice v.pos z (W.contents v.dev), v'))
              × IsCoherent W v'
              × (W.contents v'.dev ≡ W.contents v.dev)
              × (v'.size ≡ v.size)
              × (v'.pos ≡ v.pos + z))
            exact
            ((
              g.out,
              g.result ∙ ap (λ z. (done z, slice v.pos m (W.contents v.dev), g.out)) (omega arith),
              g.coherent,
              g.contents,
              g.size,
              g.at,
            )))
  ]

  -- The bytes of the device as the driver counts them.
  abbrev pub device_bytes : Vioblk D → List ℕ
  device_bytes v = take v.size (W.contents v.dev)

  length-device_bytes : (v : Vioblk D) → IsCoherent W v → length (device_bytes v) ≡ v.size
  length-device_bytes v c = omega (arith, length-take v.size (W.contents v.dev), c.backed)

  pub read_fits :
      (v : Vioblk D) (n : ℕ)
      → IsCoherent W v
      → v.pos + n ≤ length (device_bytes v)
      → (v' : Vioblk D) × (ioread (vioblk_io_ops transfer) v n
          ≡ (done n, slice v.pos n (device_bytes v), v'))
        × IsCoherent W v'
        × (device_bytes v' ≡ device_bytes v)
        × (v'.pos ≡ v.pos + n)
  unfolding ioread
  read_fits v n c h =
      let fits : v.pos + n ≤ v.size = omega (arith, length-device_bytes v c) in
      let (v', e, c', same, size, at) = vioblk_read-slice v n c (omega (arith, c.word)) in
      let all : min n (v.size - v.pos) ≡ n = omega arith in
      let bytes : slice v.pos n (W.contents v.dev) ≡ slice v.pos n (device_bytes v) =
        ap (λ p. slice p n (W.contents v.dev)) (omega arith)
        ∙ sym (slice-slice 0 v.size v.pos n (W.contents v.dev) fits) in
      (
        v',
        e
            ∙ ap₂ (λ m l. (done m, l, v')) all
                (ap (λ m. slice v.pos m (W.contents v.dev)) all ∙ bytes),
        c',
        ap₂ take size same,
        at ∙ ap (λ m. v.pos + m) all,
      )

  pub seek_fits :
      (v : Vioblk D) (p : ℕ)
      → IsCoherent W v
      → p ≤ length (device_bytes v)
      → (ioseek (vioblk_io_ops transfer) v p ≡ (answered none, record v { pos = p }))
        × IsCoherent W (record v { pos = p })
  unfolding ioseek ioctl vioblk_ioctl
  seek_fits v p c h =
      let fits : p ≤ v.size = omega (arith, length-device_bytes v c) in
      let ok : ltb v.size p ≡ false = ground arith in (rw ok refl, moved-IsCoherent v p c fits)

  -- A device that works behaves as a file of its bytes.
  abbrev pub vioblk-IsFile : IsFile (vioblk_io_ops transfer)
  vioblk-IsFile = record {
    Ok = IsCoherent W;
    bytes = device_bytes;
    pos = λ v. v.pos;
    seek = λ v p. record v { pos = p };
    after_read = λ v n. (ioread (vioblk_io_ops transfer) v n).2;
    seek_lem =
        λ v p c h. let (e, c') = seek_fits v p c h in (e, c', record { same = refl; at = refl });
    read_lem = λ v n c h.
        let (v', e, c', same, at) = read_fits v n c h in
        subst
          (λ z.
            (ioread (vioblk_io_ops transfer) v n ≡ (done n, slice v.pos n (device_bytes v), z))
            × IsCoherent W z
            × Moved device_bytes (λ u. u.pos) v z (v.pos + n))
          (sym (ap (λ r. r.2) e)) ((e, c', record { same = same; at = at }));
  }
