-- ===== src/Io/Lit.antt =====
-- `struct io_lit` of src/kern/io.c: a block of memory as a file.
pub mod Contract
use operating_systems_final.Prelude.{
  ℕ, none, some, List, ◌++◌, ltb, leb, if◌then◌else◌, length, take, drop, add64, sub64,
}
use operating_systems_final.Errno.{Reply, done, fail, einval}
use operating_systems_final.Io.{
  IoOps, ReadFn, WriteFn, CtlFn, Cmd, getlen, getpos, setpos, Answer, answered, refused,
}
use operating_systems_final.String.{memcpy}

pub record Lit : Type 0 where
  pub buf : List ℕ
  pub size : ℕ
  pub pos : ℕ

-- `size - pos` in `size_t`.
abbrev pub left : Lit → ℕ
left l = sub64 l.size l.pos

-- How many bytes a call with `len` moves.
abbrev pub granted : Lit → ℕ → ℕ
granted l len = if ltb (left l) len then left l else len

unfoldable pub iolit_read : ReadFn Lit
iolit_read l len =
    let n = granted l len in (done n, take n (drop l.pos l.buf), record l { pos = add64 l.pos n })

unfoldable pub iolit_write : WriteFn Lit
iolit_write l src =
    let n = granted l (length src) in
    (
      done n,
      record l { buf = take l.pos l.buf ++ memcpy (drop l.pos l.buf) src n; pos = add64 l.pos n },
    )

unfoldable pub iolit_ioctl : CtlFn Lit
iolit_ioctl l getpos = (answered (some l.pos), l)
iolit_ioctl l getlen = (answered (some l.size), l)
iolit_ioctl l (setpos p) =
    if leb p l.size then (answered none, record l { pos = p }) else (refused einval, l)
iolit_ioctl l _ = (refused einval, l)

abbrev pub iolit_ops : IoOps Lit
iolit_ops = record { read = some iolit_read; write = some iolit_write; ctl = some iolit_ioctl }

unfoldable pub iolit_init : List ℕ → ℕ → Lit
iolit_init buf size = record { buf = buf; size = size; pos = 0 }
