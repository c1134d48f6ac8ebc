-- ===== src/Vioblk/Coherent.antt =====
-- The block buffer of src/kern/vioblk.c and the device: what a device that works does, and that the
-- buffer holds the block whose number is kept with it.
use mathlib.Core.Path.{ap₂, subst}
use native.Mathlib.Nat.{
  div-add-mod', mod-lt, mul_assoc, mul_comm, mul-suc, mul-le-mul_left, lt_of_mul-lt-mul_left,
}
use operating_systems_final.Prelude.{
  ℕ, suc, ◌+◌, ◌*◌, ◌/◌, ◌%◌, ◌^◌, ◌≤◌, ◌<◌, ◌≡◌, refl, sym, ap, ◌∙◌, inl, inr, true, List, arith,
  ◌==◌, Bool-cases, length, drop, length-take, length-drop,
}
use operating_systems_final.Io.Laws.{slice, splice}
use operating_systems_final.Vioblk.{Request, t_in, t_out, TransferFn, Vioblk, send, buffered, load}

-- What a virtio block device does that works: a request in its range ends with status 0; one to read
-- fills the buffer with the bytes of the sectors, and one to write stores the buffer there.
pub record Works {D : Type 0} (transfer : TransferFn D) : Type 1 where
  pub Up : D → Type 0
  pub contents : D → List ℕ
  pub after : Request → ℕ → List ℕ → D → D
  pub reads :
      (sector : ℕ) (buf : List ℕ) (d : D)
      → Up d
      → sector * 512 + length buf ≤ length (contents d)
      → (transfer t_in sector buf d
          ≡ (0, slice (sector * 512) (length buf) (contents d), after t_in sector buf d))
        × Up (after t_in sector buf d)
        × (contents (after t_in sector buf d) ≡ contents d)
  pub writes :
      (sector : ℕ) (buf : List ℕ) (d : D)
      → Up d
      → sector * 512 + length buf ≤ length (contents d)
      → (transfer t_out sector buf d ≡ (0, buf, after t_out sector buf d))
        × Up (after t_out sector buf d)
        × (contents (after t_out sector buf d) ≡ splice (sector * 512) buf (contents d))

-- The position of a byte in its block, and that the block ends where the device does or before.
pub block_fits :
    (b c p : ℕ)
    → 0 < b
    → p < c * b
    → (p / b * b + p % b ≡ p) × (p % b < b) × (p / b * b + b ≤ c * b)
block_fits b c p h inside =
    let split = div-add-mod' p b in
    let low : p % b < b = mod-lt p h in
    let below : p / b * b < c * b = omega arith in
    let less : p / b < c =
      lt_of_mul-lt-mul_left b (omega (arith, mul_comm b (p / b), mul_comm b c)) in
    let next : b * suc (p / b) ≤ b * c = mul-le-mul_left b (omega arith) in
    (split, low, omega (arith, mul_comm b (p / b), mul_comm b c, mul-suc b (p / b)))

pub length-slice : (p n : ℕ) (xs : List ℕ) → p + n ≤ length xs → length (slice p n xs) ≡ n
length-slice p n xs h = omega (arith, length-take n (drop p xs), length-drop p xs)

module _ {D : Type 0} {transfer : TransferFn D} (W : Works transfer) where
  -- Between two calls: the device works and has the blocks that the driver counts, which are of
  -- whole sectors, and a block of it that the buffer is said to hold is there.
  pub record IsCoherent (v : Vioblk D) : Type 0 where
    pub up : W.Up v.dev
    pub positive : 0 < v.blksz
    pub sectors : v.blksz / 512 * 512 ≡ v.blksz
    pub whole : v.size ≡ v.blkcnt * v.blksz
    pub backed : v.size ≤ length (W.contents v.dev)
    pub word : v.size < 2 ^ 64
    pub room : length v.blkbuf ≡ v.blksz
    pub cached :
        v.bufblkno * v.blksz + v.blksz ≤ v.size
        → v.blkbuf ≡ slice (v.bufblkno * v.blksz) v.blksz (W.contents v.dev)
    pub within : v.pos ≤ v.size

  -- Only the buffer, its number and the device's own state differ.
  pub record SameFile (v v' : Vioblk D) : Type 0 where
    pub contents : W.contents v'.dev ≡ W.contents v.dev
    pub pos : v'.pos ≡ v.pos
    pub size : v'.size ≡ v.size
    pub blksz : v'.blksz ≡ v.blksz

  -- A load of a block inside the device succeeds, and the buffer holds the block then.
  pub load-IsCoherent :
      (v : Vioblk D) (blkno : ℕ)
      → IsCoherent v
      → blkno * v.blksz + v.blksz ≤ v.size
      → (v' : Vioblk D) × (load transfer blkno v ≡ (true, v'))
        × IsCoherent v'
        × SameFile v v'
        × (v'.blkbuf ≡ slice (blkno * v.blksz) v.blksz (W.contents v.dev))
  unfolding load buffered send
  load-IsCoherent v blkno k inside = elim (Bool-cases (v.bufblkno == blkno)) [
    | inl hit ↦
        let same : v.bufblkno ≡ blkno = ground arith in
        (
          v,
          rw hit refl,
          k,
          record { contents = refl; pos = refl; size = refl; blksz = refl },
          subst (λ b. v.blkbuf ≡ slice (b * v.blksz) v.blksz (W.contents v.dev)) same
              (k.cached (subst (λ b. b * v.blksz + v.blksz ≤ v.size) (sym same) inside)),
        )
    | inr miss ↦
        let sector = blkno * (v.blksz / 512) in
        let place : sector * 512 ≡ blkno * v.blksz =
          mul_assoc blkno (v.blksz / 512) 512 ∙ ap (λ b. blkno * b) k.sectors in
        let d = W.after t_in sector v.blkbuf v.dev in
        let (e, up, same) = W.reads sector v.blkbuf v.dev k.up (omega (arith, k.room, k.backed)) in
        let block = slice (blkno * v.blksz) v.blksz (W.contents v.dev) in
        let reads : transfer t_in sector v.blkbuf v.dev ≡ (0, block, d) =
          e ∙ ap₂ (λ p n. (0, slice p n (W.contents v.dev), d)) place k.room in
        (
          record v { dev = d; blkbuf = block; bufblkno = blkno },
          rw (miss, reads) refl,
          record {
            up = up;
            positive = k.positive;
            sectors = k.sectors;
            whole = k.whole;
            backed = rw same k.backed;
            word = k.word;
            room =
                length-slice (blkno * v.blksz) v.blksz (W.contents v.dev) (omega (arith, k.backed));
            cached = λ h. rw same refl;
            within = k.within;
          },
          record { contents = same; pos = refl; size = refl; blksz = refl },
          refl,
        )
  ]
