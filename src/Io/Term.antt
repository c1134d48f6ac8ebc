-- ===== src/Io/Term.antt =====
-- `struct io_term` of src/kern/io.c: line endings turned round between a program and a raw object.
-- `\n` is 10 and `\r` is 13.
use mathlib.Core.Option
use operating_systems_final.Prelude.{
  ℕ, zero, suc, ◌+◌, Bool, true, false, Option, none, some, List, [], ◌∷◌, ◌++◌, ◌==◌,
  if◌then◌else◌, length, take, drop,
}
use operating_systems_final.Errno.{Reply, done, fail, enotsup}
use operating_systems_final.Io.{IoOps, Cmd, setpos, Answer, refused, ioread, iowrite, ioctl, ioputc}
pub mod Input
pub mod Output

pub record Term (D : Type 0) : Type 0 where
  pub rawio : D
  pub cr_out : Bool
  pub cr_in : Bool

unfoldable pub ioterm_init : {D : Type 0} → D → Term D
ioterm_init d = record { rawio = d; cr_out = false; cr_in = false }

-- The scan of `ioterm_read` over the characters read: those that stay, and `cr_in` behind them.
unfoldable pub fix_lines : Bool → List ℕ → List ℕ × Bool
fix_lines cr [] = ([], cr)
fix_lines true (c ∷ cs) =
    let after_cr = fix_lines true cs in
    let after = fix_lines false cs in
    if c == 13
    then (10 ∷ after_cr.0, after_cr.1)
    else if c == 10
    then after
    else (c ∷ after.0, after.1)
fix_lines false (c ∷ cs) =
    let after_cr = fix_lines true cs in
    let after = fix_lines false cs in
    if c == 13 then (10 ∷ after_cr.0, after_cr.1) else (c ∷ after.0, after.1)

-- What a read makes of the characters that the scan has left.
unfoldable pub scanned :
    {D : Type 0}
    → (Term D → Option (Reply × List ℕ × Term D))
    → List ℕ
    → Term D
    → Option (Reply × List ℕ × Term D)
scanned again [] t = again t
scanned again (c ∷ cs) t = some (done (length (c ∷ cs)), c ∷ cs, t)

unfoldable pub scan :
    {D : Type 0}
    → (Term D → Option (Reply × List ℕ × Term D))
    → Term D
    → Reply × List ℕ × D
    → Option (Reply × List ℕ × Term D)
unfolding scanned
scan again t (fail e, bytes, d) = some (fail e, bytes, record t { rawio = d })
scan again t (done n, bytes, d) =
    let (out, cr) = fix_lines t.cr_in (take n bytes) in
    scanned again out (record t { rawio = d; cr_in = cr })

-- What `ioterm_write` does with the result of an `iowrite` of `seg`, the bytes from wp to rp: `next`
-- goes on with the new count and the bytes that are still between the two.
unfoldable pub flushed :
    {D : Type 0}
    → ℕ
    → List ℕ
    → Term D
    → (ℕ → List ℕ → Term D → Option (Reply × Term D))
    → Option (Reply × D)
    → Option (Reply × Term D)
flushed acc seg t next none = none
flushed acc seg t next (some (fail e, d)) = some (fail e, record t { rawio = d })
flushed acc seg t next (some (done n, d)) =
    let rest = next (acc + n) (drop n seg) (record t { rawio = d }) in
    if n == 0 then some (done acc, record t { rawio = d }) else rest

-- The same for an `ioputc`.
unfoldable pub emitted :
    {D : Type 0}
    → Term D
    → (Term D → Option (Reply × Term D))
    → Option (Reply × D)
    → Option (Reply × Term D)
emitted t next none = none
emitted t next (some (fail e, d)) = some (fail e, record t { rawio = d })
emitted t next (some (done n, d)) = next (record t { rawio = d })

-- What follows a newline that the buffer starts with.
abbrev pub after_newline : List ℕ → Option (List ℕ)
after_newline [] = none
after_newline (c ∷ cs) = if c == 10 then some cs else none

module _ {D : Type 0} (ops : IoOps D) where
  unfoldable pub ioterm_ioctl : Term D → Cmd → Answer × Term D
  ioterm_ioctl t (setpos p) = (refused enotsup, t)
  ioterm_ioctl t cmd = let (a, d) = ioctl ops t.rawio cmd in (a, record t { rawio = d })

  -- The loop of `ioterm_read`; `none`: out of fuel.
  unfoldable pub ioterm_read : ℕ → Term D → ℕ → Option (Reply × List ℕ × Term D)
  ioterm_read zero t len = none
  ioterm_read (suc k) t len = scan (λ t'. ioterm_read k t' len) t (ioread ops t.rawio len)

  -- The loop of `ioterm_write`: `acc` counts, `seg` stands between wp and rp, and `rest` behind rp.
  -- Each round takes at least one byte of `rest`, so one round more than there are bytes is enough.
  unfoldable pub write_lines : ℕ → ℕ → List ℕ → List ℕ → Term D → Option (Reply × Term D)
  write_lines zero acc seg rest t = none
  write_lines (suc k) acc [] [] t = some (done acc, t)
  write_lines (suc k) acc (s ∷ seg) [] t =
      flushed acc (s ∷ seg) t (λ acc' seg' t'. some (done acc', t')) (iowrite ops t.rawio (s ∷ seg))
  write_lines (suc k) acc seg (c ∷ cs) t =
      if c == 13
      then (elim (after_newline cs) [
        | some rest ↦ write_lines k acc (seg ++ (13 ∷ 10 ∷ [])) rest (record t { cr_out = false })
        | none ↦
            flushed acc (seg ++ (13 ∷ [])) t
              (λ acc' seg' t'.
                emitted t' (λ t''. write_lines k acc' seg' cs (record t'' { cr_out = true }))
                  (ioputc ops t'.rawio 10))
              (iowrite ops t.rawio (seg ++ (13 ∷ [])))
      ])
      else if c == 10
      then (if t.cr_out
          then write_lines k acc (drop 1 (seg ++ (10 ∷ []))) cs (record t { cr_out = false })
          else (elim seg [
            | [] ↦
                emitted t (λ t'. write_lines k acc (10 ∷ []) cs (record t' { cr_out = false }))
                  (ioputc ops t.rawio 13)
            | s ∷ ss ↦
                flushed acc (s ∷ ss) t
                  (λ acc' seg' t'.
                    emitted t'
                      (λ t''.
                        write_lines k acc' (seg' ++ (10 ∷ [])) cs (record t'' { cr_out = false }))
                      (ioputc ops t'.rawio 13))
                  (iowrite ops t.rawio (s ∷ ss))
          ]))
      else write_lines k acc (seg ++ (c ∷ [])) cs (record t { cr_out = false })

  unfoldable pub ioterm_write : Term D → List ℕ → Option (Reply × Term D)
  ioterm_write t buf = write_lines (suc (length buf)) 0 [] buf t
