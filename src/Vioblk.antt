-- ===== src/Vioblk.antt =====
-- The block device driver of src/kern/vioblk.c: a device of blocks as an I/O object, with one block
-- buffer. The device itself is a parameter: `transfer` is what it makes of a request and the buffer
-- that the data descriptor names, with the status byte that it leaves. A call is modelled with its
-- sleeps: the interrupt of a request comes when the caller sleeps, and no other call of the driver
-- runs meanwhile, which the file system ensures with `vioblk_lock`.
pub mod Coherent
pub mod Files
pub mod Interrupt
pub mod Reads
pub mod Rounds
pub mod Roundtrip
pub mod Splices
pub mod Stale
pub mod Writes
use operating_systems_final.Prelude.{
  ℕ, zero, suc, ◌+◌, ◌-◌, ◌*◌, ◌/◌, ◌%◌, ◌^◌, Bool, true, false, Option, none, some, List, [], ◌++◌,
  ltb, leb, ◌==◌, if◌then◌else◌, length, take, drop, add64,
}
use operating_systems_final.Errno.{Errno, Reply, done, fail, einval, ebusy, enotsup, eio}
use operating_systems_final.Io.{
  IoOps, ReadFn, WriteFn, CtlFn, Cmd, getlen, getpos, setpos, getblksz, Answer, answered, refused,
}
use operating_systems_final.String.{memcpy}

-- VIRTIO_BLK_T_IN and VIRTIO_BLK_T_OUT
pub data Request : Type 0 where
  t_in t_out : Request

-- A request for a sector of 512 bytes, with the buffer: the status byte, the buffer that the device
-- leaves, and the device.
abbrev pub TransferFn : Type 0 → Type 0
TransferFn D = Request → ℕ → List ℕ → D → ℕ × List ℕ × D

-- `struct vioblk_device`, without its queue.
pub record Vioblk (D : Type 0) : Type 0 where
  pub dev : D
  pub opened : Bool
  pub readonly : Bool
  pub blksz : ℕ
  pub pos : ℕ
  pub size : ℕ
  pub blkcnt : ℕ
  pub bufblkno : ℕ
  pub blkbuf : List ℕ

-- `(uint64_t)-1`
abbrev pub no_block : ℕ
no_block = 2 ^ 64 - 1

-- The block size that the device offers, or 512.
abbrev pub offered : Option ℕ → ℕ
offered none = 512
offered (some n) = n

-- The device after `vioblk_attach`: the block size that it offers or 512, its capacity, and the
-- memory of the buffer.
unfoldable pub vioblk_attach : {D : Type 0} → Option ℕ → ℕ → List ℕ → D → Vioblk D
vioblk_attach blk_size capacity buf d =
    let blksz = offered blk_size in
    record {
      dev = d;
      opened = false;
      readonly = false;
      blksz = blksz;
      pos = 0;
      size = capacity * blksz % 2 ^ 64;
      blkcnt = capacity;
      bufblkno = no_block;
      blkbuf = buf;
    }

unfoldable pub vioblk_open : {D : Type 0} → Vioblk D → Reply × Vioblk D
vioblk_open v =
    if v.opened
    then (fail ebusy, v)
    else (done 0, record v { opened = true; bufblkno = no_block; pos = 0 })

unfoldable pub vioblk_close : {D : Type 0} → Vioblk D → Vioblk D
vioblk_close v = record v { opened = false }

unfoldable pub vioblk_ioctl : {D : Type 0} → CtlFn (Vioblk D)
vioblk_ioctl v getlen = (answered (some v.size), v)
vioblk_ioctl v getpos = (answered (some v.pos), v)
vioblk_ioctl v (setpos p) =
    if ltb v.size p then (refused einval, v) else (answered none, record v { pos = p })
vioblk_ioctl v getblksz = (answered (some v.blksz), v)
vioblk_ioctl v _ = (refused enotsup, v)

-- How many bytes of the block at the position a round moves, of `room` that are left.
abbrev pub part : {D : Type 0} → ℕ → Vioblk D → ℕ
part room v = let n = v.blksz - v.pos % v.blksz in if ltb room n then room else n

-- The bytes of the caller's buffer behind the next `n`, where `total` have been written: those before
-- the buffer, to which the `int` of vioblk_write goes from 2 ^ 31 on, are none of the model's.
abbrev pub rest_of : ℕ → ℕ → List ℕ → List ℕ
rest_of total n src = if ltb (total + n) (2 ^ 31) then drop n src else []

module _ {D : Type 0} (transfer : TransferFn D) where
  -- A request for a block, up to the end of the sleep: whether it succeeded.
  unfoldable pub send : Request → ℕ → Vioblk D → Bool × Vioblk D
  send kind blkno v =
      let (status, buf, d) = transfer kind (blkno * (v.blksz / 512)) v.blkbuf v.dev in
      (status == 0, record v { dev = d; blkbuf = buf })

  -- A block that is requested is the one in the buffer then, if the request succeeded.
  unfoldable pub buffered : ℕ → Bool × Vioblk D → Bool × Vioblk D
  buffered blkno (false, v) = (false, v)
  buffered blkno (true, v) = (true, record v { bufblkno = blkno })

  -- The block in the buffer, for a read.
  unfoldable pub load : ℕ → Vioblk D → Bool × Vioblk D
  load blkno v = if v.bufblkno == blkno then (true, v) else buffered blkno (send t_in blkno v)

  -- The end of a round of `vioblk_read`, with what has been read so far and what goes on.
  unfoldable pub read_on :
      ℕ
      → List ℕ
      → (List ℕ → Vioblk D → Reply × List ℕ × Vioblk D)
      → Bool × Vioblk D
      → Reply × List ℕ × Vioblk D
  read_on n got next (false, v) = (fail eio, got, v)
  read_on n got next (true, v) =
      next (got ++ take n (drop (v.pos % v.blksz) v.blkbuf)) (record v { pos = add64 v.pos n })

  -- The loop of `vioblk_read` for `room` more bytes, on at most `k` rounds.
  unfoldable pub read_blocks : ℕ → ℕ → List ℕ → Vioblk D → Reply × List ℕ × Vioblk D
  read_blocks zero room got v = (done (length got), got, v)
  read_blocks (suc k) room got v =
      let n = part room v in
      if room == 0
      then (done (length got), got, v)
      else read_on n got (λ got'. read_blocks k (room - n) got') (load (v.pos / v.blksz) v)

  -- How many bytes are left for a call with `n`.
  abbrev pub clamp : ℕ → Vioblk D → ℕ
  clamp n v = if ltb v.size (add64 v.pos n) then v.size - v.pos else n

  unfoldable pub vioblk_read : ReadFn (Vioblk D)
  vioblk_read v n =
      if leb v.size v.pos then (done 0, [], v) else read_blocks (clamp n v) (clamp n v) [] v

  -- The block in the buffer, for a write of `n` bytes: what a part of a block goes into is sent to
  -- the device with VIRTIO_BLK_T_OUT.
  unfoldable pub prepare : ℕ → ℕ → Vioblk D → Bool × Vioblk D
  prepare n blkno v =
      if ltb n v.blksz
      then (if v.bufblkno == blkno then (true, v) else buffered blkno (send t_out blkno v))
      else (true, record v { bufblkno = blkno })

  -- The bytes go into the buffer, and the buffer to the device.
  unfoldable pub store_block : List ℕ → ℕ → ℕ → Bool × Vioblk D → Bool × Vioblk D
  store_block src n blkno (false, v) = (false, v)
  store_block src n blkno (true, v) =
      let off = v.pos % v.blksz in
      send t_out blkno (record v { blkbuf = take off v.blkbuf ++ memcpy (drop off v.blkbuf) src n })

  -- The end of a round of `vioblk_write`.
  unfoldable pub write_on : ℕ → (Vioblk D → Reply × Vioblk D) → Bool × Vioblk D → Reply × Vioblk D
  write_on n next (false, v) = (fail eio, v)
  write_on n next (true, v) = next (record v { pos = add64 v.pos n })

  -- The loop of `vioblk_write` over `room` bytes from the start of `src`, on at most `k` rounds.
  unfoldable pub write_blocks : ℕ → ℕ → List ℕ → ℕ → Vioblk D → Reply × Vioblk D
  write_blocks zero room src total v = (done total, v)
  write_blocks (suc k) room src total v =
      let n = part room v in
      let blkno = v.pos / v.blksz in
      if room == 0
      then (done total, v)
      else write_on n (write_blocks k (room - n) (rest_of total n src) (total + n))
          (store_block src n blkno (prepare n blkno v))

  unfoldable pub vioblk_write : WriteFn (Vioblk D)
  vioblk_write v src =
      if v.readonly
      then (fail enotsup, v)
      else if leb v.size v.pos
      then (fail eio, v)
      else write_blocks (clamp (length src) v) (clamp (length src) v) src 0 v

  abbrev pub vioblk_io_ops : IoOps (Vioblk D)
  vioblk_io_ops = record {
    read = some vioblk_read;
    write = some vioblk_write;
    ctl = some vioblk_ioctl;
  }
