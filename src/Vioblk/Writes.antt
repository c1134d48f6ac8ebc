-- ===== src/Vioblk/Writes.antt =====
-- vioblk_write of src/kern/vioblk.c: what it does to the bytes of the device.
use mathlib.Core.Path.{ap₂, subst}
use native.Mathlib.Nat.{
  mod-eq_of_lt, mod-lt, mul-add-mod_self_right, zero-mod, suc-mul, div-add-mod',
}
use operating_systems_final.Prelude.{
  ℕ, zero, suc, ◌+◌, ◌-◌, ◌*◌, ◌/◌, ◌%◌, ◌^◌, ◌≤◌, ◌<◌, ◌≡◌, refl, sym, ap, ◌∙◌, inl, inr, true,
  false, List, arith, ltb, leb, ◌==◌, if◌then◌else◌, Bool-cases, length, take, drop, length-take,
  length-drop, add64, take-add, take_all,
}
use operating_systems_final.Errno.{Reply, done, fail, enotsup, eio}
use operating_systems_final.Io.Laws.{splice}
use operating_systems_final.Vioblk.{
  TransferFn, Vioblk, part, write_on, write_blocks, clamp, vioblk_write,
}
use operating_systems_final.Vioblk.Coherent.{Works, IsCoherent, block_fits}
use operating_systems_final.Vioblk.Reads.{moved-IsCoherent}
use operating_systems_final.Vioblk.Rounds.{
  IsCovered, IsEnding, prepare-IsCovered, covered_bytes, store_block-IsCoherent,
}
use operating_systems_final.Vioblk.Splices.{splice-next, splice-nil}

-- Behind a round that ends its block, the rest is whole blocks.
whole_rest :
    (b p room n : ℕ)
    → 0 < b
    → n ≡ b - p % b
    → n < room
    → (p + room) % b ≡ 0
    → ((p + n) % b ≡ 0) × (b ≤ room - n)
whole_rest b p room n h e more ends =
    let low = mod-lt p h in
    let there : p + n ≡ suc (p / b) * b + 0 = omega (arith, div-add-mod' p b, suc-mul (p / b) b) in
    let start : (p + n) % b ≡ 0 =
      ap (λ m. m % b) there ∙ mul-add-mod_self_right (suc (p / b)) b 0 ∙ zero-mod b in
    let end : p + room ≡ suc (p / b) * b + (room - n) = omega arith in
    let rest : (room - n) % b ≡ 0 =
      sym (mul-add-mod_self_right (suc (p / b)) b (room - n)) ∙ ap (λ m. m % b) (sym end) ∙ ends in
    (
      start,
      elim (Bool-cases (ltb (room - n) b)) [
        | inl less ↦
            let small : room - n < b = ground arith in
            let same = mod-eq_of_lt small in absurd (omega arith)
        | inr full ↦ ground arith
      ],
    )

module _ {D : Type 0} {transfer : TransferFn D} (W : Works transfer) where
  -- What a write of the first `room` bytes does, behind `total` bytes before.
  record Written (v : Vioblk D) (src : List ℕ) (total room : ℕ) (r : Reply × Vioblk D)
      : Type 0 where
    out : Vioblk D
    result : r ≡ (done (total + room), out)
    coherent : IsCoherent W out
    contents : W.contents out.dev ≡ splice v.pos (take room src) (W.contents v.dev)
    size : out.size ≡ v.size
    at : out.pos ≡ v.pos + room

  write_nothing :
      (v : Vioblk D) (src : List ℕ) (total room : ℕ)
      → IsCoherent W v
      → room ≡ 0
      → Written v src total room (done total, v)
  write_nothing v src total room c e =
      subst (λ z. Written v src total z (done total, v)) (sym e)
        (record {
          out = v;
          result = ap (λ n. (done n, v)) (omega arith);
          coherent = c;
          contents = sym (splice-nil v.pos (W.contents v.dev));
          size = refl;
          at = omega arith;
        })

  Written-round :
      (v v₂ : Vioblk D) (src : List ℕ) (total n room : ℕ) (r : Reply × Vioblk D)
      → n ≤ room
      → room ≤ length src
      → v.pos + room ≤ length (W.contents v.dev)
      → v₂.pos ≡ v.pos + n
      → W.contents v₂.dev ≡ splice v.pos (take n src) (W.contents v.dev)
      → v₂.size ≡ v.size
      → Written v₂ (drop n src) (total + n) (room - n) r
      → Written v src total room r
  Written-round v v₂ src total n room r h enough inside at new size g =
      let xs = W.contents v.dev in
      let a = take n src in
      let b = take (room - n) (drop n src) in
      let len_a : length a ≡ n = omega (arith, length-take n src) in
      let len_b : length b ≡ room - n =
        omega (arith, length-take (room - n) (drop n src), length-drop n src) in
      let place : v₂.pos ≡ v.pos + length a = omega (arith, at) in
      let whole : n + (room - n) ≡ room = omega arith in
      let sum : total + n + (room - n) ≡ total + room = omega arith in
      record {
        out = g.out;
        result = g.result ∙ ap (λ c. (done c, g.out)) sum;
        coherent = g.coherent;
        contents =
            g.contents
            ∙ ap₂ (λ p l. splice p b l) place new
            ∙ splice-next v.pos a b xs (omega arith)
            ∙ ap (λ l. splice v.pos l xs)
                (sym (take-add n (room - n) src) ∙ ap (λ m. take m src) whole);
        size = g.size ∙ size;
        at = omega (arith, g.at);
      }

  go_on :
      (v v₂ : Vioblk D) (room : ℕ)
      → 0 < room
      → IsCoherent W v
      → (0 < room → IsCovered W v room)
      → IsEnding W v room
      → v₂.pos ≡ v.pos + part room v
      → v₂.blksz ≡ v.blksz
      → (0 < room - part room v → IsCovered W v₂ (room - part room v))
        × IsEnding W v₂ (room - part room v)
  go_on v v₂ room left c covered (inl short) at same =
      let all : part room v ≡ room = ground (arith, short) in
      let positive : 0 < v₂.blksz = omega (arith, c.positive) in
      let low = mod-lt v₂.pos positive in (λ more. absurd (omega arith), inl (omega arith))
  go_on v v₂ room left c covered (inr end) at same =
      let n = part room v in
      let few : n ≤ room = ground arith in
      let together : v.pos + n + (room - n) ≡ v.pos + room = omega arith in
      (
        λ more.
            let ends : n ≡ v.blksz - v.pos % v.blksz = ground (arith, more) in
            let (start, full) = whole_rest v.blksz v.pos room n c.positive ends (omega arith) end in
            inl (ap₂ (λ x y. x % y) at same ∙ start, omega arith),
        inr (ap₂ (λ x y. (x + (room - n)) % y) at same ∙ ap (λ m. m % v.blksz) together ∙ end),
      )

  write_blocks-Written :
      (k room : ℕ) (src : List ℕ) (total : ℕ) (v : Vioblk D)
      → IsCoherent W v
      → (0 < room → IsCovered W v room)
      → IsEnding W v room
      → room ≤ k
      → v.pos + room ≤ v.size
      → room ≤ length src
      → total + room < 2 ^ 31
      → Written v src total room (write_blocks transfer k room src total v)
  unfolding write_blocks write_on
  write_blocks-Written zero room src total v c covered ending fuel inside enough near =
      write_nothing v src total room c (omega arith)
  write_blocks-Written (suc k) room src total v c covered ending fuel inside enough near =
      elim (Bool-cases (room == 0)) [
        | inl none_left ↦ rw none_left (write_nothing v src total room c (ground arith))
        | inr more ↦
            let n = part room v in
            let b = v.blksz in
            let q = v.pos / b in
            let left : 0 < room = ground arith in
            let (split, low, ends) =
              block_fits b v.blkcnt v.pos c.positive (omega (arith, c.whole)) in
            let some_bytes : (0 < n) × (n ≤ room) × (v.pos % b + n ≤ b) =
              ground (arith, low, left) in
            let ready = prepare-IsCovered W v room (covered left) in
            let (v₁, e, c₁, same, sent) =
              store_block-IsCoherent W v src n q c (omega (arith, c.whole)) some_bytes.2
                (omega arith) in
            let new = sent ∙ covered_bytes W v room src c (covered left) enough (omega arith) in
            let there : add64 v₁.pos n ≡ v.pos + n = omega (arith, same.pos, c.word) in
            let v₂ : Vioblk D = record v₁ { pos = add64 v₁.pos n } in
            let (covered', ending') = go_on v v₂ room left c covered ending there same.blksz in
            let rest =
              write_blocks-Written k (room - n) (drop n src) (total + n) v₂
                (moved-IsCoherent W v₁ (add64 v₁.pos n) c₁ (omega (arith, same.size))) covered'
                ending' (omega arith) (omega (arith, same.size)) (omega (arith, length-drop n src))
                (omega (arith, near, some_bytes.2)) in
            let word : ltb (total + n) (2 ^ 31) ≡ true = ground (arith, near, some_bytes.2) in
            rw (more, ready, e, word, write_blocks)
              (Written-round v v₂ src total n room _ some_bytes.1 enough (omega (arith, c.backed))
                there new same.size rest)
      ]

  -- On a device that works and is not read-only, in a coherent state, a write of fewer than 2 ^ 31
  -- bytes at a position inside, which fit behind it, whose first block is written as a whole or is in the buffer and
  -- which ends in that block or at the end of a block, puts the bytes on the device at the position
  -- and changes no others; the position moves behind them and the state stays coherent.
  pub vioblk_write-splice :
      (v : Vioblk D) (src : List ℕ)
      → IsCoherent W v
      → v.readonly ≡ false
      → v.pos < v.size
      → v.pos + length src ≤ v.size
      → IsCovered W v (length src)
      → IsEnding W v (length src)
      → length src < 2 ^ 31
      → (v' : Vioblk D) × (vioblk_write transfer v src ≡ (done (length src), v'))
        × IsCoherent W v'
        × (W.contents v'.dev ≡ splice v.pos src (W.contents v.dev))
        × (v'.size ≡ v.size)
        × (v'.pos ≡ v.pos + length src)
  unfolding vioblk_write
  vioblk_write-splice v src c writable inside fits covered ending near =
      let n = length src in
      let go = write_blocks transfer (clamp transfer n v) (clamp transfer n v) src 0 v in
      let all : clamp transfer n v ≡ n = ground (arith, c.word) in
      let more : leb v.size v.pos ≡ false = ground arith in
      let w =
        write_blocks-Written n n src 0 v c (λ h. covered) ending (omega arith) fits (omega arith)
          (omega (arith, near)) in
      (
        w.out,
        ap (λ r. if r then (fail enotsup, v) else if leb v.size v.pos then (fail eio, v) else go)
              writable
            ∙ ap (λ r. if r then (fail eio, v) else go) more
            ∙ ap (λ m. write_blocks transfer m m src 0 v) all
            ∙ w.result
            ∙ ap (λ m. (done m, w.out)) (omega arith),
        w.coherent,
        w.contents ∙ ap (λ l. splice v.pos l (W.contents v.dev)) (take_all n src (omega arith)),
        w.size,
        w.at,
      )
