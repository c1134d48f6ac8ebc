-- ===== src/Io.antt =====
-- The abstract I/O interface of src/kern/io.h and the loops of src/kern/io.c over it. An I/O object
-- is a state of a type `D`; its `struct io_ops` are functions on that state, `none` for a null
-- pointer. A read returns the bytes that it put into the buffer, and a buffer to write is a list.
pub mod Laws
pub mod Lit
pub mod Loops
pub mod Term
use mathlib.Core.Option
use operating_systems_final.Prelude.{
  ℕ, zero, suc, ◌+◌, ◌-◌, Option, none, some, List, [], ◌∷◌, ◌++◌, map, ◌==◌, if◌then◌else◌, length,
  drop,
}
use operating_systems_final.Errno.{Errno, Reply, done, fail, enotsup, eio}

-- The IOCTL numbers, with what a call reads through its argument.
pub data Cmd : Type 0 where
  getlen setlen getpos flush getblksz : Cmd
  setpos : ℕ → Cmd

-- `answered v` is the return value 0, with `v` what was stored through the argument.
pub data Answer : Type 0 where
  answered : Option ℕ → Answer
  refused : Errno → Answer

abbrev pub ReadFn : Type 0 → Type 0
ReadFn D = D → ℕ → Reply × List ℕ × D

abbrev pub WriteFn : Type 0 → Type 0
WriteFn D = D → List ℕ → Reply × D

abbrev pub CtlFn : Type 0 → Type 0
CtlFn D = D → Cmd → Answer × D

pub record IoOps (D : Type 0) : Type 0 where
  pub read : Option (ReadFn D)
  pub write : Option (WriteFn D)
  pub ctl : Option (CtlFn D)

module _ {D : Type 0} (ops : IoOps D) where
  unfoldable pub ioread : D → ℕ → Reply × List ℕ × D
  ioread d n = elim ops.read [ none ↦ (fail enotsup, [], d) | some f ↦ f d n ]

  unfoldable pub ioctl : D → Cmd → Answer × D
  ioctl d cmd = elim ops.ctl [ none ↦ (refused enotsup, d) | some f ↦ f d cmd ]

  unfoldable pub ioseek : D → ℕ → Answer × D
  ioseek d p = ioctl d (setpos p)

-- What a round of `iowrite` makes of the object's result, `acc` bytes having been written before.
unfoldable pub write_out :
    {D : Type 0} → ℕ → (ℕ → D → Option (Reply × D)) → Reply × D → Option (Reply × D)
write_out acc next (fail e, d) = some (fail e, d)
write_out acc next (done n, d) = let rest = next n d in if n == 0 then some (done acc, d) else rest

-- The loop of `iowrite` over the rest of the buffer. `none`: out of fuel.
unfoldable pub write_loop : {D : Type 0} → WriteFn D → ℕ → D → List ℕ → ℕ → Option (Reply × D)
write_loop f zero d rest acc = none
write_loop f (suc k) d [] acc = some (done acc, d)
write_loop f (suc k) d (c ∷ cs) acc =
    write_out acc (λ n d'. write_loop f k d' (drop n (c ∷ cs)) (acc + n)) (f d (c ∷ cs))

-- What a round of `ioread_full` makes of the object's result, `got` being the bytes before.
unfoldable pub read_out :
    {D : Type 0}
    → List ℕ
    → (ℕ → List ℕ → D → Option (Reply × List ℕ × D))
    → Reply × List ℕ × D
    → Option (Reply × List ℕ × D)
read_out got next (fail e, bytes, d) = some (fail e, got ++ bytes, d)
read_out got next (done n, bytes, d) =
    let rest = next n (got ++ bytes) d in if n == 0 then some (done (length got), got, d) else rest

-- The loop of `ioread_full` with room for `room` more bytes.
unfoldable pub read_loop :
    {D : Type 0} → ReadFn D → ℕ → D → ℕ → List ℕ → Option (Reply × List ℕ × D)
read_loop f zero d room got = none
read_loop f (suc k) d zero got = some (done (length got), got, d)
read_loop f (suc k) d (suc room) got =
    read_out got (λ n got' d'. read_loop f k d' (suc room - n) got') (f d (suc room))

abbrev putc_reply : {D : Type 0} → ℕ → Reply × D → Reply × D
putc_reply c (fail e, d) = (fail e, d)
putc_reply c (done n, d) = if n == 0 then (fail eio, d) else (done c, d)

abbrev puts_reply : {D : Type 0} → Reply × D → Reply × D
puts_reply (fail e, d) = (fail e, d)
puts_reply (done n, d) = (done 0, d)

abbrev puts_newline : {D : Type 0} → (D → Option (Reply × D)) → Reply × D → Option (Reply × D)
puts_newline newline (fail e, d) = some (fail e, d)
puts_newline newline (done n, d) = Option.map puts_reply (newline d)

module _ {D : Type 0} (ops : IoOps D) where
  -- Each round of a loop moves at least one byte, so one round more than there are bytes is enough.
  unfoldable pub iowrite : D → List ℕ → Option (Reply × D)
  iowrite d buf = elim ops.write [
    | none ↦ some (fail enotsup, d)
    | some f ↦ write_loop f (suc (length buf)) d buf 0
  ]

  unfoldable pub ioread_full : D → ℕ → Option (Reply × List ℕ × D)
  ioread_full d bufsz = elim ops.read [
    | none ↦ some (fail enotsup, [], d)
    | some f ↦ read_loop f (suc bufsz) d bufsz []
  ]

  -- `ioputc`: the character, or an error; a write of nothing is -EIO.
  unfoldable pub ioputc : D → ℕ → Option (Reply × D)
  ioputc d c = elim (iowrite d (c ∷ [])) [ none ↦ none | some w ↦ some (putc_reply c w) ]

  -- `ioputs` writes the string and a newline; 0 on success.
  unfoldable pub ioputs : D → List ℕ → Option (Reply × D)
  ioputs d str = elim (iowrite d str) [
    | none ↦ none
    | some w ↦ puts_newline (λ d'. iowrite d' (10 ∷ [])) w
  ]
