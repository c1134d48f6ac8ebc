-- ===== src/Vioblk/Roundtrip.antt =====
-- A read behind a write in src/kern/vioblk.c.
use operating_systems_final.Prelude.{
  ℕ, ◌+◌, ◌-◌, ◌^◌, ◌≤◌, ◌<◌, min, ◌≡◌, ap, ◌∙◌, false, List, arith, length,
}
use operating_systems_final.Errno.{done}
use operating_systems_final.Io.Laws.{slice}
use operating_systems_final.Io.Lit.Contract.{slice-splice}
use operating_systems_final.Vioblk.{TransferFn, Vioblk, vioblk_read, vioblk_write}
use operating_systems_final.Vioblk.Coherent.{Works, IsCoherent}
use operating_systems_final.Vioblk.Reads.{moved-IsCoherent, vioblk_read-slice}
use operating_systems_final.Vioblk.Rounds.{IsCovered, IsEnding}
use operating_systems_final.Vioblk.Writes.{vioblk_write-splice}

-- On a device that works and is not read-only, in a coherent state: after a write of fewer than
-- 2 ^ 31 bytes at a position inside, which fit, whose first block is written as a whole or is in the buffer and which ends
-- in that block or at the end of a block, a read of that length at the old position gives the bytes
-- that were written.
pub vioblk_read-write :
    {D : Type 0} {transfer : TransferFn D} (W : Works transfer) (v : Vioblk D) (src : List ℕ)
    → IsCoherent W v
    → v.readonly ≡ false
    → v.pos < v.size
    → v.pos + length src ≤ v.size
    → IsCovered W v (length src)
    → IsEnding W v (length src)
    → length src < 2 ^ 31
    → (v₁ : Vioblk D) × (v₂ : Vioblk D) × (vioblk_write transfer v src ≡ (done (length src), v₁))
      × (vioblk_read transfer (record v₁ { pos = v.pos }) (length src)
          ≡ (done (length src), src, v₂))
vioblk_read-write {transfer = transfer} W v src c writable inside fits covered ending near =
    let n = length src in
    let (v₁, e, c₁, new, size, at) =
      vioblk_write-splice W v src c writable inside fits covered ending near in
    let u = record v₁ { pos = v.pos } in
    let (v₂, f, c₂, same, size₂, at₂) =
      vioblk_read-slice W u n (moved-IsCoherent W v₁ v.pos c₁ (omega arith))
        (omega (arith, c.word)) in
    let all : min n (v₁.size - v.pos) ≡ n = omega arith in
    let bytes : slice v.pos n (W.contents v₁.dev) ≡ src =
      ap (slice v.pos n) new
      ∙ slice-splice v.pos src (W.contents v.dev) (omega (arith, c.backed)) in
    (
      v₁,
      v₂,
      e,
      f
          ∙ ap (λ m. (done m, slice v.pos m (W.contents v₁.dev), v₂)) all
          ∙ ap (λ l. (done n, l, v₂)) bytes,
    )
