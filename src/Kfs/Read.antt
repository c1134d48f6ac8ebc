-- ===== src/Kfs/Read.antt =====
-- fs_read of src/kern/kfs.c and the bytes of the file.
use mathlib.Core.Path.{ap₂, subst}
use mathlib.Core.List.{append_assoc, append-nil}
use operating_systems_final.Prelude.{
  ℕ, zero, suc, ◌+◌, ◌-◌, ◌*◌, ◌%◌, ◌≤◌, ◌<◌, min, ◌≡◌, refl, sym, ap, ◌∙◌, Bool, true, false,
  Option, none, some, List, ◌++◌, arith, ◌==◌, length, get_or-set_self,
}
use operating_systems_final.Errno.{done}
use operating_systems_final.Io.{IoOps, ioread, ioseek}
use operating_systems_final.Io.Laws.{IsFile, slice}
use operating_systems_final.Kfs.{Fs, block_size, file_at, hold, no_file}
use operating_systems_final.Kfs.Image.{
  entry, block_of, place, file_bytes, IsStored, file_bytes-add, slice-place,
}
use operating_systems_final.Kfs.Transfer.{
  chunk, entry_offset, data_offset, Moving, locate, read_next, read_blocks, limited, settle,
  fs_read, starting, with_disk, read_from,
}

-- A round moves something, no more than is left, and stays inside its block.
chunk_bounds :
    (p n : ℕ)
    → 0 < n
    → n ≤ 1023 * block_size
    → (0 < chunk p n) × (chunk p n ≤ n) × (p % block_size + chunk p n ≤ block_size)
unfolding chunk
chunk_bounds p n more small = ground arith

module _ {D : Type 0} {ops : IoOps D} (L : IsFile ops) (disk : List ℕ) where
  -- The object holds the image and stands at position `q`.
  record At (d : D) (q : ℕ) : Type 0 where
    ok : L.Ok d
    image : L.bytes d ≡ disk
    here : L.pos d ≡ q

  seek_At : (d : D) (q q' : ℕ) → At d q → q' ≤ length disk → At (ioseek ops d q').1 q'
  seek_At d q q' a h =
      let (e, ok', moved) = L.seek_lem d q' a.ok (rw a.image h) in
      subst (λ x. At x q') (sym (ap (λ (o : _). o.1) e))
        (record { ok = ok'; image = moved.same ∙ a.image; here = moved.at })

  read_At :
      (d : D) (q n : ℕ)
      → At d q
      → q + n ≤ length disk
      → (ioread ops d n ≡ (done n, slice q n disk, L.after_read d n))
        × At (L.after_read d n) (q + n)
  read_At d q n a h =
      let (e, ok', moved) = L.read_lem d n a.ok (rw (a.image, a.here) h) in
      (
        e ∙ ap₂ (λ x y. (done n, slice x n y, L.after_read d n)) a.here a.image,
        record { ok = ok'; image = moved.same ∙ a.image; here = moved.at ∙ ap (λ x. x + n) a.here },
      )

  module _ (num_inodes inode size : ℕ) (st : IsStored disk num_inodes inode size) where
    locate-At :
        (d : D) (q p : ℕ)
        → At d q
        → p < size
        → At (locate ops inode num_inodes p d) (place disk num_inodes inode p)
    unfolding locate
    locate-At d q p a h =
        let index = st.index p h in
        let blocks = st.blocks p h in
        let small = st.small in
        let far = st.few_blocks in
        let at_entry : entry_offset inode p ≡ entry disk num_inodes inode p = omega arith in
        let at_place : data_offset num_inodes (block_of disk num_inodes inode p) p
            ≡ place disk num_inodes inode p =
          omega arith in
        let a₁ = seek_At d q (entry disk num_inodes inode p) a (omega arith) in
        let (e₂, a₂) = read_At _ (entry disk num_inodes inode p) 4 a₁ index in
        rw (at_entry, e₂, at_place, locate)
          (seek_At _ (entry disk num_inodes inode p + 4) (place disk num_inodes inode p) a₂
            (omega arith))

    -- Bytes of the file, one chunk after another.
    chunk_then :
        (got bytes : List ℕ) (p c n : ℕ)
        → c ≤ n
        → bytes ≡ file_bytes disk num_inodes inode p c
        → (got ++ bytes) ++ file_bytes disk num_inodes inode (p + c) (n - c)
          ≡ got ++ file_bytes disk num_inodes inode p n
    chunk_then got bytes p c n h e =
        append_assoc got bytes (file_bytes disk num_inodes inode (p + c) (n - c))
        ∙ ap (λ b. got ++ (b ++ file_bytes disk num_inodes inode (p + c) (n - c))) e
        ∙ ap (λ b. got ++ b)
            (sym (file_bytes-add disk num_inodes inode p c (n - c))
              ∙ ap (file_bytes disk num_inodes inode p) (omega arith))

    -- Where a loop with `n` bytes to go ends that starts at `m`.
    abbrev ReadTo : ℕ → Moving D → Option (Bool × Moving D) → Type 0
    ReadTo n m out =
        (m' : Moving D) × (out ≡ some (true, m'))
        × (m'.file_pos ≡ m.file_pos + n)
        × (m'.moved ≡ m.moved + n)
        × (m'.got ≡ m.got ++ file_bytes disk num_inodes inode m.file_pos n)
        × ((q : ℕ) × At m'.disk q)

    read_blocks-ReadTo :
        (k n q : ℕ) (m : Moving D)
        → m.file_pos + n ≤ size
        → n < k
        → At m.disk q
        → ReadTo n m (read_blocks ops inode num_inodes k n m)
    unfolding read_blocks read_next file_bytes
    read_blocks-ReadTo zero n q m fits fuel a = absurd (omega arith)
    read_blocks-ReadTo (suc k) zero q m fits fuel a =
        (m, refl, omega arith, omega arith, sym (append-nil m.got), (q, a))
    read_blocks-ReadTo (suc k) (suc n) q m fits fuel a =
        let p = m.file_pos in
        let c = chunk p (suc n) in
        let few = st.few_blocks in
        let (some_bytes, few_bytes, in_block) =
          chunk_bounds p (suc n) (omega arith) (omega arith) in
        let inside : p < size = omega arith in
        let blocks = st.blocks p inside in
        let room : place disk num_inodes inode p + c ≤ length disk = omega arith in
        let at = locate-At m.disk q p a inside in
        let (e, a') =
          read_At (locate ops inode num_inodes p m.disk) (place disk num_inodes inode p) c at
            room in
        let nonzero : (c == 0) ≡ false = ground arith in
        let bytes = slice (place disk num_inodes inode p) c disk in
        let m₁ : Moving D = record {
          file_pos = p + c;
          moved = m.moved + c;
          disk = L.after_read (locate ops inode num_inodes p m.disk) c;
          got = m.got ++ bytes;
        } in
        let (m₂, out, pos₂, moved₂, got₂, at₂) =
          read_blocks-ReadTo k (suc n - c) (place disk num_inodes inode p + c) m₁ (omega arith)
            (omega arith) a' in
        (
          m₂,
          rw (e, nonzero) out,
          omega arith,
          omega arith,
          got₂
              ∙ chunk_then m.got bytes p c (suc n) few_bytes
                  (slice-place disk num_inodes inode p c in_block room),
          at₂,
        )

finish :
    {D : Type 0} (ops : IoOps D) (tid i n c : ℕ) (bytes : List ℕ) (s : Fs D) (d : D) (m : Moving D)
    → (n == 0) ≡ false
    → limited (file_at s i) n ≡ c
    → read_blocks ops (file_at s i).inode_num s.stat.num_inodes (suc c) c (starting d (file_at s i))
      ≡ some (true, m)
    → m.moved ≡ c
    → m.got ≡ bytes
    → read_from ops tid i n s d ≡ some (done c, bytes, settle (hold tid s) i m)
unfolding read_from
finish ops tid i n c bytes s d m asked todo out moved got =
    rw (asked, todo, out) (ap₂ (λ x y. some (done x, y, settle (hold tid s) i m)) moved got)

-- A descriptor in use over a mounted object that holds its file.
pub record IsOpen {D : Type 0} {ops : IoOps D} (L : IsFile ops) (disk : List ℕ) (s : Fs D) (i : ℕ)
    (d : D) : Type 0 where
  pub mounted : s.mounted ≡ some d
  pub ok : L.Ok d
  pub image : L.bytes d ≡ disk
  pub within : (file_at s i).file_pos ≤ (file_at s i).file_size
  pub stored : IsStored disk s.stat.num_inodes (file_at s i).inode_num (file_at s i).file_size

-- `fs_read` on an open file with `n` bytes asked for, `n` not 0, returns the bytes of the file from
-- the current position on, as many as were asked for and are left; it moves the position behind
-- them, releases the block lock, and leaves the image as it was.
pub fs_read-file_bytes :
    {D : Type 0} {ops : IoOps D} (L : IsFile ops) (disk : List ℕ) (tid i n : ℕ) (s : Fs D) (d : D)
    → IsOpen L disk s i d
    → i < length s.fds
    → 0 < n
    → let f = file_at s i in
      let c = min n (f.file_size - f.file_pos) in
      (s' : Fs D) × (d' : D) × (fs_read ops tid (some i) n s
        ≡ some (done c, file_bytes disk s.stat.num_inodes f.inode_num f.file_pos c, s'))
      × (file_at s' i ≡ record f { file_pos = f.file_pos + c })
      × (s'.blk_lock ≡ none)
      × (s'.mounted ≡ some d')
      × (L.bytes d' ≡ disk)
unfolding fs_read
fs_read-file_bytes {D} {ops} L disk tid i n s d o real some_bytes =
    let f = file_at s i in
    let stored = o.stored in
    let within = o.within in
    let few = stored.few_blocks in
    let c = min n (f.file_size - f.file_pos) in
    let todo : limited f n ≡ c = ground arith in
    let asked : (n == 0) ≡ false = ground arith in
    let (m, out, here, moved, got, at) =
      read_blocks-ReadTo L disk s.stat.num_inodes f.inode_num f.file_size stored (suc c) c (L.pos d)
        (starting d f) (omega arith) (omega arith)
        (record { ok = o.ok; image = o.image; here = refl }) in
    (
      settle (hold tid s) i m,
      m.disk,
      ap (λ x. with_disk x (read_from ops tid i n s)) o.mounted
          ∙ finish ops tid i n c _ s d m asked todo out (omega arith) got,
      get_or-set_self s.fds i (record f { file_pos = m.file_pos }) no_file real
          ∙ ap (λ p. record f { file_pos = p }) here,
      refl,
      refl,
      at.1.image,
    )
