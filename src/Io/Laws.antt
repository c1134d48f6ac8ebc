-- ===== src/Io/Laws.antt =====
-- What an I/O object over a fixed block of bytes promises its callers (src/kern/io.h): a position
-- that seeks, reads and writes move, and reads and writes of as many bytes as are left.
use operating_systems_final.Prelude.{ℕ, ◌+◌, ◌≤◌, ◌<◌, ◌≡◌, none, List, ◌++◌, length, take, drop}
use operating_systems_final.Errno.{done}
use operating_systems_final.Io.{IoOps, answered, ioread, ioseek}

-- The `n` bytes from position `p` on.
abbrev pub slice : ℕ → ℕ → List ℕ → List ℕ
slice p n bytes = take n (drop p bytes)

-- The contents after a write of `new` at position `p`.
abbrev pub splice : ℕ → List ℕ → List ℕ → List ℕ
splice p new bytes = take p bytes ++ (new ++ drop (p + length new) bytes)

module _ {D : Type 0} where
  -- A call that only moves the position.
  pub record Moved (bytes : D → List ℕ) (pos : D → ℕ) (d d' : D) (p : ℕ) : Type 0 where
    pub same : bytes d' ≡ bytes d
    pub at : pos d' ≡ p

  pub record IsFile (ops : IoOps D) : Type 1 where
    pub Ok : D → Type 0
    pub bytes : D → List ℕ
    pub pos : D → ℕ
    pub seek : D → ℕ → D
    pub after_read : D → ℕ → D
    pub seek_lem :
        (d : D) (p : ℕ)
        → Ok d
        → p ≤ length (bytes d)
        → (ioseek ops d p ≡ (answered none, seek d p))
          × Ok (seek d p)
          × Moved bytes pos d (seek d p) p
    pub read_lem :
        (d : D) (n : ℕ)
        → Ok d
        → pos d + n ≤ length (bytes d)
        → (ioread ops d n ≡ (done n, slice (pos d) n (bytes d), after_read d n))
          × Ok (after_read d n)
          × Moved bytes pos d (after_read d n) (pos d + n)

  -- An object whose reads of at least one byte, inside of its bytes, give them and move the position.
  -- A read of nothing may be refused, as fs_read of src/kern/kfs.c refuses it.
  pub record IsReader (ops : IoOps D) : Type 1 where
    pub Ok : D → Type 0
    pub bytes : D → List ℕ
    pub pos : D → ℕ
    pub after_read : D → ℕ → D
    pub reads :
        (d : D) (n : ℕ)
        → Ok d
        → 0 < n
        → pos d + n ≤ length (bytes d)
        → (ioread ops d n ≡ (done n, slice (pos d) n (bytes d), after_read d n))
          × Ok (after_read d n)
          × Moved bytes pos d (after_read d n) (pos d + n)

  abbrev pub file_reader : {ops : IoOps D} → IsFile ops → IsReader ops
  file_reader F = record {
    Ok = F.Ok;
    bytes = F.bytes;
    pos = F.pos;
    after_read = F.after_read;
    reads = λ d n ok some_bytes inside. F.read_lem d n ok inside;
  }
