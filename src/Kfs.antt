-- ===== src/Kfs.antt =====
-- The file system of src/kern/kfs.c over an I/O object that holds the image: its tables, and the
-- calls that mount, open, close and seek. An open file is named by its index in the descriptor
-- table, the stand-in for the address of its `io_intf`; `none` is a null pointer. The functions
-- that take a lock are modelled from the return of `lock_acquire` on, for the thread `tid`.
pub mod Bounds
pub mod Descriptors
pub mod Image
pub mod Reached
pub mod Read
pub mod Transfer
use mathlib.Core.Option
use operating_systems_final.Prelude.{
  ℕ, zero, suc, ◌+◌, ◌*◌, ◌%◌, ◌^◌, Bool, true, false, not, Option, none, some, List, [], ◌∷◌, ◌++◌,
  map, ltb, leb, ◌==◌, if◌then◌else◌, length, set, get_or, take, drop, replicate, is_zero, add32,
}
use operating_systems_final.Errno.{Reply, done, fail, einval, enotsup}
use operating_systems_final.Io.{
  IoOps, ioread, ioseek, Cmd, getlen, getpos, setpos, getblksz, Answer, answered, refused,
}
use operating_systems_final.String.{strcmp}

abbrev pub block_size : ℕ
block_size = 4096

abbrev pub max_files : ℕ
max_files = 63

abbrev pub max_name_size : ℕ
max_name_size = 32

-- `file_t`; `has_ops` says whether `io.ops` is set.
pub record File : Type 0 where
  pub has_ops : Bool
  pub refcnt : ℕ
  pub file_pos : ℕ
  pub file_size : ℕ
  pub inode_num : ℕ
  pub flags : ℕ

-- `f_dentry`
pub record Dentry : Type 0 where
  pub f_name : List ℕ
  pub inode_idx : ℕ

-- `stat_block_t`
pub record Stat : Type 0 where
  pub num_dentries : ℕ
  pub num_inodes : ℕ
  pub num_blocks : ℕ

-- The globals of the file, and the holders of the two locks that it names.
pub record Fs (D : Type 0) : Type 0 where
  pub initialized : Bool
  pub mounted : Option D
  pub fds : List File
  pub stat : Stat
  pub dentries : List Dentry
  pub fs_lock : Option ℕ
  pub blk_lock : Option ℕ

abbrev pub no_file : File
no_file = record {
  has_ops = false;
  refcnt = 0;
  file_pos = 0;
  file_size = 0;
  inode_num = 0;
  flags = 0;
}

-- A little-endian `uint32_t` at the front of a list of bytes; bytes that are missing count as 0.
unfoldable pub le32 : List ℕ → ℕ
le32 b = get_or b 0 0 + 256 * get_or b 1 0 + 65536 * get_or b 2 0 + 16777216 * get_or b 3 0

unfoldable pub decode_stat : List ℕ → Stat
unfolding le32
decode_stat b = record {
  num_dentries = le32 b;
  num_inodes = le32 (drop 4 b);
  num_blocks = le32 (drop 8 b);
}

-- `n` directory entries of 64 bytes each.
unfoldable pub decode_dentries : ℕ → List ℕ → List Dentry
decode_dentries zero b = []
decode_dentries (suc n) b =
    record { f_name = take max_name_size b; inode_idx = le32 (drop max_name_size b) }
    ∷ decode_dentries n (drop 64 b)

-- The index of the first descriptor with no flag set.
unfoldable pub find_free : List File → Option ℕ
find_free [] = none
find_free (f ∷ fs) = let rest = find_free fs in if f.flags == 0 then some 0 else Option.map suc rest

-- The inode of the first entry that `strcmp` finds equal to the name. The names of an image are taken to
-- be terminated within their 32 bytes; strcmp would run on into the number of the inode.
unfoldable pub find_dentry : List ℕ → List Dentry → Option ℕ
find_dentry name [] = none
find_dentry name (e ∷ es) =
    let rest = find_dentry name es in
    if is_zero (strcmp (some e.f_name) (some name)) then some e.inode_idx else rest

abbrev pub file_at : {D : Type 0} → Fs D → ℕ → File
file_at s i = get_or s.fds i no_file

abbrev pub set_file : {D : Type 0} → Fs D → ℕ → File → Fs D
set_file s i f = record s { fds = set s.fds i f }

-- `lock_acquire(&vioblk_lock)`, at its return, and `lock_release(&vioblk_lock)`.
abbrev pub hold : {D : Type 0} → ℕ → Fs D → Fs D
hold tid s = record s { blk_lock = some tid }

abbrev pub release : {D : Type 0} → Fs D → Fs D
release s = record s { blk_lock = none }

unfoldable pub fs_init : {D : Type 0} → Fs D → Fs D
fs_init s =
    if not s.initialized
    then record s {
      initialized = true;
      fds = replicate max_files no_file;
      mounted = none;
      fs_lock = none;
    }
    else s

abbrev pub is_done : Reply → ℕ → Bool
is_done (done n) m = n == m
is_done (fail e) m = false

-- What `fs_mount` does with the first block of the image.
unfoldable pub load_tables : {D : Type 0} → List ℕ → Fs D → Reply × Fs D
unfolding decode_stat decode_dentries
load_tables block s =
    let st = decode_stat block in
    let s' = record s { stat = st } in
    if ltb max_files st.num_dentries then (fail einval, s') else (
      done 0,
      record s' {
        dentries =
            decode_dentries st.num_dentries (drop 64 block) ++ drop st.num_dentries s.dentries;
      },
    )

module _ {D : Type 0} (ops : IoOps D) where
  unfoldable pub fs_mount : ℕ → Option D → Fs D → Reply × Fs D
  fs_mount tid none s = (fail einval, s)
  fs_mount tid (some d) s =
      let (_, d₁) = ioseek ops d 0 in
      let (r, block, d₂) = ioread ops d₁ block_size in
      let s' = release (record (hold tid s) { mounted = some d₂ }) in
      if not s.initialized
      then (fail einval, s)
      else if not (is_done r block_size)
      then (fail einval, s')
      else load_tables block s'

  -- The length of a file, read from its inode; `stale` is what stood in the local variable.
  unfoldable pub inode_length : List ℕ → ℕ → D → ℕ × D
  unfolding le32
  inode_length stale inode d =
      let (_, d₁) = ioseek ops d ((4096 * add32 inode 1) % 2 ^ 32) in
      let (_, bytes, d₂) = ioread ops d₁ 4 in (le32 (bytes ++ drop (length bytes) stale), d₂)

-- `fs_open`'s first writes to the descriptor that it takes.
abbrev pub claimed : File → File
claimed f = record f { flags = 1; has_ops = true; refcnt = 1; file_pos = 0 }

abbrev pub opened : File → ℕ → ℕ → File
opened f inode len = record (claimed f) { inode_num = inode; file_size = len }

module _ {D : Type 0} (ops : IoOps D) where
  -- The rest of `fs_open` for the name found at `inode`, with descriptor `i` taken.
  unfoldable pub open_inode : ℕ → List ℕ → ℕ → ℕ → D → Fs D → Reply × Option ℕ × Fs D
  open_inode tid stale i inode d s =
      let (len, d') = inode_length ops stale inode d in
      (
        done 0,
        some i,
        release (
            set_file (record (hold tid s) { mounted = some d' }) i
              (opened (file_at s i) inode len)),
      )

  -- `fs_open` with a place for the result; the second part is the file that it passes back.
  unfoldable pub fs_open : ℕ → List ℕ → Option (List ℕ) → Fs D → Reply × Option ℕ × Fs D
  unfolding open_inode
  fs_open tid stale none s = (fail einval, none, s)
  fs_open tid stale (some name) s = elim s.mounted [
    | none ↦ (fail einval, none, s)
    | some d ↦ if not s.initialized then (fail einval, none, s) else (elim (find_free s.fds) [
      | none ↦ (fail einval, none, s)
      | some i ↦
          let s' = set_file s i (claimed (file_at s i)) in
          elim (find_dentry name s.dentries) [
            | none ↦ (fail einval, none, s')
            | some inode ↦ open_inode tid stale i inode d s'
          ]
    ])
  ]

unfoldable pub fs_close : {D : Type 0} → Option ℕ → Fs D → Fs D
fs_close none s = s
fs_close (some i) s = set_file s i (record (file_at s i) { flags = 0; has_ops = false })

-- The commands of `fs_ioctl` on a descriptor, with an argument that is not null.
unfoldable pub fs_getlen : File → Answer
fs_getlen f = answered (some f.file_size)

unfoldable pub fs_getpos : File → Answer
fs_getpos f = answered (some f.file_pos)

unfoldable pub fs_setpos : File → ℕ → Answer × File
fs_setpos f p =
    if leb p f.file_size then (answered none, record f { file_pos = p }) else (refused einval, f)

unfoldable pub fs_getblksz : File → Answer
fs_getblksz f = answered (some block_size)

-- `fs_ioctl` with an argument; the position is the only thing that a command changes.
unfoldable pub fs_ioctl : {D : Type 0} → Option ℕ → Cmd → Fs D → Answer × Fs D
fs_ioctl none cmd s = (refused einval, s)
fs_ioctl (some i) getlen s = (fs_getlen (file_at s i), s)
fs_ioctl (some i) getpos s = (fs_getpos (file_at s i), s)
fs_ioctl (some i) (setpos p) s = let (a, f) = fs_setpos (file_at s i) p in (a, set_file s i f)
fs_ioctl (some i) getblksz s = (fs_getblksz (file_at s i), s)
fs_ioctl (some i) _ s = (refused enotsup, s)
