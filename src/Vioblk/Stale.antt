-- ===== src/Vioblk/Stale.antt =====
-- vioblk_write of src/kern/vioblk.c into a part of a block that is not in the buffer, and reads
-- behind writes.
use mathlib.Core.Path.{ap₂}
use operating_systems_final.Prelude.{
  ℕ, zero, suc, ◌+◌, ◌-◌, ◌*◌, ◌/◌, ◌%◌, ◌≤◌, ◌<◌, ◌≡◌, refl, sym, ap, ◌∙◌, ◌≢◌, Bool, true, false,
  List, ◌∷◌, arith, ltb, leb, ◌==◌, if◌then◌else◌, length, add64, take_all,
}
use operating_systems_final.Errno.{Reply, done, fail, enotsup, eio}
use operating_systems_final.Io.Laws.{slice, splice}
use operating_systems_final.Io.Lit.Contract.{slice-splice}
use operating_systems_final.Vioblk.{
  TransferFn, Vioblk, part, buffered, prepare, store_block, write_on, rest_of, write_blocks, clamp,
  vioblk_write,
}
use operating_systems_final.Vioblk.Coherent.{Works, IsCoherent, block_fits}
use operating_systems_final.Vioblk.Reads.{moved-IsCoherent}
use operating_systems_final.Vioblk.Rounds.{send-Out, store_block-IsCoherent}
use operating_systems_final.Vioblk.Splices.{length-splice, splice-splice}

module _ {D : Type 0} {transfer : TransferFn D} (W : Works transfer) where
  -- What `prepare` does for a part of a block that is not in the buffer: the buffer goes over the
  -- block.
  prepare-stale :
      (v : Vioblk D) (n q : ℕ)
      → IsCoherent W v
      → n < v.blksz
      → v.bufblkno ≢ q
      → q * v.blksz + v.blksz ≤ v.size
      → (d : D) × (prepare transfer n q v ≡ (true, record v { dev = d; bufblkno = q }))
        × IsCoherent W (record v { dev = d; bufblkno = q })
        × (W.contents d ≡ splice (q * v.blksz) v.blkbuf (W.contents v.dev))
  unfolding prepare buffered
  prepare-stale v n q c less miss inside =
      let xs = W.contents v.dev in
      let (d, e, up, over) = send-Out W v q c.up c.sectors c.room (omega (arith, c.backed)) in
      let test : ltb n v.blksz ≡ true = ground arith in
      let other : (v.bufblkno == q) ≡ false = ground (arith, miss) in
      let fits : q * v.blksz + length v.blkbuf ≤ length xs = omega (arith, c.room, c.backed) in
      let keeps : length (W.contents d) ≡ length xs =
        ap length over ∙ length-splice (q * v.blksz) v.blkbuf xs fits in
      (
        d,
        rw (test, other, e, prepare) refl,
        record {
          up = up;
          positive = c.positive;
          sectors = c.sectors;
          whole = c.whole;
          backed = omega (arith, keeps, c.backed);
          word = c.word;
          room = c.room;
          cached = λ h. sym (
              ap₂ (λ m l. slice (q * v.blksz) m l) (sym c.room) over
              ∙ slice-splice (q * v.blksz) v.blkbuf xs (omega arith));
          within = c.within;
        },
        over,
      )

  write_blocks-done :
      (k room : ℕ) (src : List ℕ) (total : ℕ) (v : Vioblk D)
      → room ≡ 0
      → write_blocks transfer k room src total v ≡ (done total, v)
  unfolding write_blocks
  write_blocks-done zero room src total v e = refl
  write_blocks-done (suc k) room src total v e =
      let none_left : (room == 0) ≡ true = ground arith in rw none_left refl

  -- On a device that works and is not read-only, in a coherent state, a write of some bytes at a
  -- position inside into a part of a block that is not in the buffer succeeds, and the rest of the
  -- block is lost: the whole of it is what the buffer held before, with the bytes in their place.
  pub vioblk_write-stale :
      (v : Vioblk D) (x : ℕ) (xs : List ℕ)
      → IsCoherent W v
      → v.readonly ≡ false
      → v.pos < v.size
      → v.pos % v.blksz + length (x ∷ xs) ≤ v.blksz
      → length (x ∷ xs) < v.blksz
      → v.bufblkno ≢ v.pos / v.blksz
      → (v' : Vioblk D) × (vioblk_write transfer v (x ∷ xs) ≡ (done (length (x ∷ xs)), v'))
        × IsCoherent W v'
        × (W.contents v'.dev
            ≡ splice
                (v.pos / v.blksz * v.blksz)
                (splice (v.pos % v.blksz) (x ∷ xs) v.blkbuf)
                (W.contents v.dev))
  unfolding vioblk_write write_blocks write_on
  vioblk_write-stale v x xs c writable inside short less miss =
      let src = x ∷ xs in
      let n = length src in
      let b = v.blksz in
      let q = v.pos / b in
      let bytes = W.contents v.dev in
      let (split, low, ends) = block_fits b v.blkcnt v.pos c.positive (omega (arith, c.whole)) in
      let fits : q * b + b ≤ v.size = omega (arith, c.whole) in
      let (d, ready, c₁, over) = prepare-stale v n q c less miss fits in
      let v₁ : Vioblk D = record v { dev = d; bufblkno = q } in
      let (v₂, stored, c₂, same, sent) =
        store_block-IsCoherent W v₁ src n q c₁ fits short (omega arith) in
      let new = splice (v.pos % b) src v.blkbuf in
      let all : part n v ≡ n = ground (arith, short) in
      let clamped : clamp transfer n v ≡ n = ground (arith, c.word, fits, short, split) in
      let more : leb v.size v.pos ≡ false = ground arith in
      let left : (n == 0) ≡ false = ground arith in
      let go = write_blocks transfer (clamp transfer n v) (clamp transfer n v) src 0 v in
      let rest : ℕ → Vioblk D → Reply × Vioblk D =
        λ m. write_blocks transfer (length xs) (n - m) (rest_of 0 m src) (0 + m) in
      let round : ℕ → Bool × Vioblk D → Reply × Vioblk D =
        λ m r. write_on transfer m (rest m) (store_block transfer src m q r) in
      let v₃ : Vioblk D = record v₂ { pos = add64 v₂.pos n } in
      (
        v₃,
        ap (λ r. if r then (fail enotsup, v) else if leb v.size v.pos then (fail eio, v) else go)
              writable
            ∙ ap (λ r. if r then (fail eio, v) else go) more
            ∙ ap (λ m. write_blocks transfer m m src 0 v) clamped
            ∙ rw left refl
            ∙ ap (λ m. round m (prepare transfer m q v)) all
            ∙ ap (round n) ready
            ∙ ap (write_on transfer n (rest n)) stored
            ∙ write_blocks-done (length xs) (n - n) (rest_of 0 n src) (0 + n) v₃ (omega arith)
            ∙ ap (λ m. (done m, v₃)) (omega arith),
        moved-IsCoherent W v₂ (add64 v₂.pos n) c₂
            (omega (arith, same.pos, same.size, c.word, split)),
        sent
            ∙ ap (λ l. splice (q * b) (splice (v.pos % b) l v.blkbuf) (W.contents d))
                (take_all n src (omega arith))
            ∙ ap (λ l. splice (q * b) new l) over
            ∙ splice-splice (q * b) new v.blkbuf bytes
                (length-splice (v.pos % b) src v.blkbuf (omega (arith, c.room)))
                (omega (arith, c.room, c.backed)),
      )
