-- ===== src/Kfs/Transfer.antt =====
-- fs_read and fs_write of src/kern/kfs.c: the loops over the blocks of a file.
use mathlib.Core.Option
use operating_systems_final.Prelude.{
  ℕ, zero, suc, ◌+◌, ◌-◌, ◌*◌, ◌/◌, ◌%◌, ◌^◌, Bool, true, false, Option, none, some, List, [], ◌∷◌,
  ◌++◌, ltb, ◌==◌, if◌then◌else◌, length, take, drop, add32, sub64,
}
use operating_systems_final.Errno.{Reply, done, fail, einval}
use operating_systems_final.Io.{IoOps, ioread, iowrite, ioseek}
use operating_systems_final.Kfs.{File, Fs, block_size, le32, file_at, set_file, hold, release}

-- The inode's place in the image, in `uint32_t`.
abbrev pub inode_offset : ℕ → ℕ
inode_offset inode = (add32 inode 1 * block_size) % 2 ^ 32

-- How many bytes a round moves: all that is left, or the rest of the block.
unfoldable pub chunk : ℕ → ℕ → ℕ
chunk p n =
    let want = n % 2 ^ 32 in
    let off = p % block_size in if ltb block_size (add32 want off) then block_size - off else want

-- Where the number of the file's block at position `p` stands in the image.
abbrev pub entry_offset : ℕ → ℕ → ℕ
entry_offset inode p = inode_offset inode + 4 * add32 ((p / block_size) % 2 ^ 32) 1

-- Where the byte at position `p` stands, given the number of its block, in `uint32_t`.
abbrev pub data_offset : ℕ → ℕ → ℕ → ℕ
data_offset num_inodes blk p = ((num_inodes + 1 + blk) * block_size + p % block_size) % 2 ^ 32

-- The variables of a transfer: the file position, the bytes moved so far, the object, and for a
-- read the bytes in the buffer.
pub record Moving (D : Type 0) : Type 0 where
  pub file_pos : ℕ
  pub moved : ℕ
  pub disk : D
  pub got : List ℕ

module _ {D : Type 0} (ops : IoOps D) where
  -- The two seeks and the read of a block number that open each round; the object stands at the
  -- file position then. `fs_block_num` is 0 before it is read.
  unfoldable pub locate : ℕ → ℕ → ℕ → D → D
  locate inode num_inodes p d =
      let (_, d₁) = ioseek ops d (entry_offset inode p) in
      let (_, bytes, d₂) = ioread ops d₁ 4 in
      (ioseek ops d₂ (data_offset num_inodes (le32 bytes) p)).1

-- After a transfer of `n` bytes, or of none.
unfoldable pub read_next :
    {D : Type 0}
    → Moving D
    → (ℕ → Moving D → Option (Bool × Moving D))
    → Reply × List ℕ × D
    → Option (Bool × Moving D)
read_next m next (fail e, bytes, d) = some (false, record m { disk = d; got = m.got ++ bytes })
read_next m next (done n, bytes, d) =
    let m' = record m {
      file_pos = m.file_pos + n;
      moved = m.moved + n;
      disk = d;
      got = m.got ++ bytes;
    } in
    let rest = next n m' in
    if n == 0 then some (false, record m { disk = d; got = m.got ++ bytes }) else rest

-- The loop of `fs_read` with `n` bytes to go. The flag is true where it ends by its test, false
-- where a read brings nothing; `none`: out of fuel.
unfoldable pub read_blocks :
    {D : Type 0} → IoOps D → ℕ → ℕ → ℕ → ℕ → Moving D → Option (Bool × Moving D)
read_blocks ops inode num_inodes zero n m = none
read_blocks ops inode num_inodes (suc k) zero m = some (true, m)
read_blocks ops inode num_inodes (suc k) (suc n) m =
    read_next m (λ c m'. read_blocks ops inode num_inodes k (suc n - c) m')
      (ioread ops (locate ops inode num_inodes m.file_pos m.disk) (chunk m.file_pos (suc n)))

unfoldable pub write_next :
    {D : Type 0}
    → Moving D
    → (ℕ → Moving D → Option (Bool × Moving D))
    → Reply × D
    → Option (Bool × Moving D)
write_next m next (fail e, d) = some (false, record m { disk = d })
write_next m next (done n, d) =
    let m' = record m { file_pos = m.file_pos + n; moved = m.moved + n; disk = d } in
    let rest = next n m' in if n == 0 then some (false, record m { disk = d }) else rest

-- The loop of `fs_write` with the bytes `buf` to go.
unfoldable pub write_blocks :
    {D : Type 0} → IoOps D → ℕ → ℕ → ℕ → List ℕ → Moving D → Option (Bool × Moving D)
write_blocks ops inode num_inodes zero buf m = none
write_blocks ops inode num_inodes (suc k) [] m = some (true, m)
write_blocks ops inode num_inodes (suc k) (c ∷ cs) m =
    let p = m.file_pos in
    elim (iowrite ops (locate ops inode num_inodes p m.disk)
      (take (chunk p (suc (length cs))) (c ∷ cs))) [
        | none ↦ none
        | some out ↦
            write_next m (λ n m'. write_blocks ops inode num_inodes k (drop n (c ∷ cs)) m') out
      ]

-- The bytes that a call may move: what is asked for, up to the end of the file.
abbrev pub limited : File → ℕ → ℕ
limited f n = let limit = sub64 f.file_size f.file_pos in if ltb limit n then limit else n

-- What a finished transfer leaves in the state, the lock released.
abbrev pub settle : {D : Type 0} → Fs D → ℕ → Moving D → Fs D
settle s i m = release (
    set_file (record s { mounted = some m.disk }) i
      (record (file_at s i) { file_pos = m.file_pos }))

abbrev pub transfer_reply : {D : Type 0} → Bool → Moving D → Reply
transfer_reply ok m = if ok then done m.moved else fail einval

abbrev pub starting : {D : Type 0} → D → File → Moving D
starting d f = record { file_pos = f.file_pos; moved = 0; disk = d; got = [] }

-- A call on a file system with nothing mounted goes through a null pointer: `none`.
abbrev pub with_disk : {D R : Type 0} → Option D → (D → Option R) → Option R
with_disk none f = none
with_disk (some d) f = f d

module _ {D : Type 0} (ops : IoOps D) where
  -- A round moves at least one byte, so one round more than there are bytes is enough.
  unfoldable pub read_from : ℕ → ℕ → ℕ → Fs D → D → Option (Reply × List ℕ × Fs D)
  read_from tid i n s d =
      let f = file_at s i in
      let todo = limited f n in
      if n == 0
      then some (fail einval, [], s)
      else Option.map
          (λ (o : Bool × Moving D). (transfer_reply o.0 o.1, o.1.got, settle (hold tid s) i o.1))
          (read_blocks ops f.inode_num s.stat.num_inodes (suc todo) todo (starting d f))

  -- `fs_read` into a buffer that is not null: the reply, and the bytes in the buffer.
  unfoldable pub fs_read : ℕ → Option ℕ → ℕ → Fs D → Option (Reply × List ℕ × Fs D)
  unfolding read_from
  fs_read tid none n s = some (fail einval, [], s)
  fs_read tid (some i) n s = with_disk s.mounted (read_from tid i n s)

  unfoldable pub write_from : ℕ → ℕ → List ℕ → Fs D → D → Option (Reply × Fs D)
  write_from tid i buf s d =
      let f = file_at s i in
      let todo = take (limited f (length buf)) buf in
      if length buf == 0
      then some (fail einval, s)
      else Option.map (λ (o : Bool × Moving D). (transfer_reply o.0 o.1, settle (hold tid s) i o.1))
          (write_blocks ops f.inode_num s.stat.num_inodes (suc (length todo)) todo (starting d f))

  -- `fs_write` of a buffer that is not null.
  unfoldable pub fs_write : ℕ → Option ℕ → List ℕ → Fs D → Option (Reply × Fs D)
  unfolding write_from
  fs_write tid none buf s = some (fail einval, s)
  fs_write tid (some i) buf s = with_disk s.mounted (write_from tid i buf s)
