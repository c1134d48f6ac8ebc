-- ===== src/Vioblk/Rounds.antt =====
-- One round of vioblk_write of src/kern/vioblk.c: what it does to the bytes of the device.
use mathlib.Core.Path.{ap₂, subst}
use mathlib.Core.List.{append-nil}
use native.Mathlib.Nat.{mul_assoc}
use operating_systems_final.Prelude.{
  ℕ, ◌+◌, ◌*◌, ◌/◌, ◌%◌, ◌≤◌, ◌<◌, ◌≡◌, refl, sym, ap, ◌∙◌, ◌⊎◌, inl, inr, true, false, List, ◌++◌,
  arith, ltb, ◌==◌, Bool-cases, length, take, drop, length-take, length-drop, drop-add, drop_all,
}
use operating_systems_final.Io.Laws.{slice, splice}
use operating_systems_final.Io.Lit.Contract.{slice-splice}
use operating_systems_final.String.{memcpy}
use operating_systems_final.String.Copy.{memcpy_lem}
use operating_systems_final.Vioblk.{t_out, TransferFn, Vioblk, part, send, prepare, store_block}
use operating_systems_final.Vioblk.Coherent.{Works, IsCoherent, block_fits}
use operating_systems_final.Vioblk.Splices.{length-splice, splice-block}

-- The copy into the buffer.
pub copied :
    (off n b : ℕ) (buf src : List ℕ)
    → length buf ≡ b
    → off + n ≤ b
    → n ≤ length src
    → take off buf ++ memcpy (drop off buf) src n ≡ splice off (take n src) buf
copied off n b buf src size h k =
    let taken : length (take n src) ≡ n = omega (arith, length-take n src) in
    ap (λ l. take off buf ++ l)
      (memcpy_lem (drop off buf) src n (omega (arith, length-drop off buf)) k
        ∙ ap (λ l. take n src ++ l)
            (sym (drop-add off n buf) ∙ ap (λ m. drop (off + m) buf) (sym taken)))

module _ {D : Type 0} {transfer : TransferFn D} (W : Works transfer) where
  -- The position and the sizes are as they were.
  pub record SameShape (v v' : Vioblk D) : Type 0 where
    pub pos : v'.pos ≡ v.pos
    pub size : v'.size ≡ v.size
    pub blksz : v'.blksz ≡ v.blksz
    pub blkcnt : v'.blkcnt ≡ v.blkcnt

  -- A block is sent to its place, whatever the buffer holds.
  pub send-Out :
      (v : Vioblk D) (q : ℕ)
      → W.Up v.dev
      → v.blksz / 512 * 512 ≡ v.blksz
      → length v.blkbuf ≡ v.blksz
      → q * v.blksz + v.blksz ≤ length (W.contents v.dev)
      → (d : D) × (send transfer t_out q v ≡ (true, record v { dev = d }))
        × W.Up d
        × (W.contents d ≡ splice (q * v.blksz) v.blkbuf (W.contents v.dev))
  unfolding send
  send-Out v q up sectors room inside =
      let sector = q * (v.blksz / 512) in
      let place : sector * 512 ≡ q * v.blksz =
        mul_assoc q (v.blksz / 512) 512 ∙ ap (λ b. q * b) sectors in
      let (e, up', same) = W.writes sector v.blkbuf v.dev up (omega (arith, room)) in
      (
        W.after t_out sector v.blkbuf v.dev,
        rw (e, send) refl,
        up',
        same ∙ ap (λ p. splice p v.blkbuf (W.contents v.dev)) place,
      )

  -- A round behind `prepare`: the bytes go into the buffer, the buffer goes into its block, and it
  -- holds the block then.
  pub store_block-IsCoherent :
      (v : Vioblk D) (src : List ℕ) (n q : ℕ)
      → IsCoherent W v
      → q * v.blksz + v.blksz ≤ v.size
      → v.pos % v.blksz + n ≤ v.blksz
      → n ≤ length src
      → (v' : Vioblk D) × (store_block transfer src n q (true, record v { bufblkno = q })
          ≡ (true, v'))
        × IsCoherent W v'
        × SameShape v v'
        × (W.contents v'.dev
            ≡ splice
                (q * v.blksz)
                (splice (v.pos % v.blksz) (take n src) v.blkbuf)
                (W.contents v.dev))
  unfolding store_block
  store_block-IsCoherent v src n q c inside part_of enough =
      let off = v.pos % v.blksz in
      let buf = take off v.blkbuf ++ memcpy (drop off v.blkbuf) src n in
      let new = splice off (take n src) v.blkbuf in
      let same : buf ≡ new = copied off n v.blksz v.blkbuf src c.room part_of enough in
      let taken : length (take n src) ≡ n = omega (arith, length-take n src) in
      let size : length new ≡ v.blksz =
        length-splice off (take n src) v.blkbuf (omega (arith, c.room)) ∙ c.room in
      let u : Vioblk D = record v { bufblkno = q; blkbuf = buf } in
      let (d, e, up, sent) =
        send-Out u q c.up c.sectors (ap length same ∙ size) (omega (arith, c.backed)) in
      let xs = W.contents v.dev in
      let after : W.contents d ≡ splice (q * v.blksz) new xs =
        sent ∙ ap (λ l. splice (q * v.blksz) l xs) same in
      let keeps : length (W.contents d) ≡ length xs =
        ap length after ∙ length-splice (q * v.blksz) new xs (omega (arith, size, c.backed)) in
      let stored : slice (q * v.blksz) v.blksz (W.contents d) ≡ buf =
        ap₂ (λ m l. slice (q * v.blksz) m l) (sym size) after
        ∙ slice-splice (q * v.blksz) new xs (omega (arith, size, c.backed))
        ∙ sym same in
      (
        record u { dev = d },
        e,
        record {
          up = up;
          positive = c.positive;
          sectors = c.sectors;
          whole = c.whole;
          backed = omega (arith, keeps, c.backed);
          word = c.word;
          room = ap length same ∙ size;
          cached = λ h. sym stored;
          within = c.within;
        },
        record { pos = refl; size = refl; blksz = refl; blkcnt = refl },
        after,
      )

  -- The block at the position is written as a whole, or it is in the buffer.
  abbrev pub IsCovered : Vioblk D → ℕ → Type 0
  IsCovered v room = ((v.pos % v.blksz ≡ 0) × (v.blksz ≤ room)) ⊎ (v.bufblkno ≡ v.pos / v.blksz)

  -- The write ends in the block at the position, or at the end of a block.
  abbrev pub IsEnding : Vioblk D → ℕ → Type 0
  IsEnding v room = (v.pos % v.blksz + room ≤ v.blksz) ⊎ ((v.pos + room) % v.blksz ≡ 0)

  pub prepare-IsCovered :
      (v : Vioblk D) (room : ℕ)
      → IsCovered v room
      → prepare transfer (part room v) (v.pos / v.blksz) v
        ≡ (true, record v { bufblkno = v.pos / v.blksz })
  unfolding prepare
  prepare-IsCovered v room (inl (start, full)) =
      let all : ltb (part room v) v.blksz ≡ false = ground (arith, start, full) in rw all refl
  prepare-IsCovered v room (inr hit) = elim (Bool-cases (ltb (part room v) v.blksz)) [
    | inl less ↦
        let same : (v.bufblkno == v.pos / v.blksz) ≡ true = ground (arith, hit) in
        rw (less, same) (ap (λ q. (true, record v { bufblkno = q })) hit)
    | inr all ↦ rw all refl
  ]

  splice_whole :
      (b off : ℕ) (new buf : List ℕ)
      → off ≡ 0
      → length new ≡ b
      → length buf ≡ b
      → splice off new buf ≡ new
  splice_whole b off new buf e h k =
      ap (λ o. splice o new buf) e
      ∙ ap (λ l. new ++ l) (drop_all (0 + length new) buf (omega arith))
      ∙ append-nil new

  pub covered_bytes :
      (v : Vioblk D) (room : ℕ) (src : List ℕ)
      → IsCoherent W v
      → IsCovered v room
      → room ≤ length src
      → v.pos < v.size
      → let q = v.pos / v.blksz in
        let new = take (part room v) src in
        splice (q * v.blksz) (splice (v.pos % v.blksz) new v.blkbuf) (W.contents v.dev)
        ≡ splice v.pos new (W.contents v.dev)
  covered_bytes v room src c covered enough inside =
      let b = v.blksz in
      let q = v.pos / b in
      let xs = W.contents v.dev in
      let new = take (part room v) src in
      let (split, low, ends) = block_fits b v.blkcnt v.pos c.positive (omega (arith, c.whole)) in
      let few : part room v ≤ room = ground arith in
      let taken : length new ≡ part room v = omega (arith, length-take (part room v) src) in
      elim covered [
        | inl (start, full) ↦
            let all : part room v ≡ b = ground (arith, start, full) in
            ap (λ l. splice (q * b) l xs)
              (splice_whole b (v.pos % b) new v.blkbuf start (taken ∙ all) c.room)
            ∙ ap (λ p. splice p new xs) (omega arith)
        | inr hit ↦
            let held : v.blkbuf ≡ slice (q * b) b xs =
              subst (λ z. v.blkbuf ≡ slice (z * b) b xs) hit
                (c.cached (subst (λ z. z * b + b ≤ v.size) (sym hit) (omega (arith, c.whole)))) in
            let short : v.pos % b + part room v ≤ b = ground (arith, low) in
            ap (λ l. splice (q * b) (splice (v.pos % b) new l) xs) held
            ∙ splice-block (q * b) (v.pos % b) b new xs (omega arith)
                (omega (arith, c.whole, c.backed))
            ∙ ap (λ p. splice p new xs) split
      ]
