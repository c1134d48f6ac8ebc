-- ===== src/Vioblk/Files.antt =====
-- The file system of src/kern/kfs.c over the block device driver of src/kern/vioblk.c.
use operating_systems_final.Prelude.{ℕ, ◌+◌, ◌-◌, ◌≤◌, ◌<◌, min, ◌≡◌, refl, none, some, length}
use operating_systems_final.Errno.{done}
use operating_systems_final.Kfs.{Fs, file_at}
use operating_systems_final.Kfs.Image.{file_bytes, IsStored}
use operating_systems_final.Kfs.Transfer.{fs_read}
use operating_systems_final.Kfs.Read.{fs_read-file_bytes}
use operating_systems_final.Vioblk.{TransferFn, Vioblk, vioblk_io_ops}
use operating_systems_final.Vioblk.Coherent.{Works, IsCoherent}
use operating_systems_final.Vioblk.Reads.{device_bytes, vioblk-IsFile}

-- `fs_read` of a file in use, on a mounted block device that works, in a coherent state, and
-- whose blocks hold the file,
-- returns the bytes of the file from the current position on, as many of the `n` that are asked for
-- as are left, `n` not 0, and leaves the bytes of the device as they were.
pub fs_read-device_bytes :
    {D : Type 0} {transfer : TransferFn D} (W : Works transfer) (tid i n : ℕ) (s : Fs (Vioblk D))
    (v : Vioblk D)
    → s.mounted ≡ some v
    → IsCoherent W v
    → (file_at s i).file_pos ≤ (file_at s i).file_size
    → IsStored (device_bytes W v) s.stat.num_inodes (file_at s i).inode_num (file_at s i).file_size
    → i < length s.fds
    → 0 < n
    → let f = file_at s i in
      let c = min n (f.file_size - f.file_pos) in
      (s' : Fs (Vioblk D)) × (v' : Vioblk D) × (fs_read (vioblk_io_ops transfer) tid (some i) n s
        ≡ some
            (done c, file_bytes (device_bytes W v) s.stat.num_inodes f.inode_num f.file_pos c, s'))
      × (file_at s' i ≡ record f { file_pos = f.file_pos + c })
      × (s'.blk_lock ≡ none)
      × (s'.mounted ≡ some v')
      × (device_bytes W v' ≡ device_bytes W v)
fs_read-device_bytes W tid i n s v mounted ok within stored real more =
    fs_read-file_bytes (vioblk-IsFile W) (device_bytes W v) tid i n s v
      (record { mounted = mounted; ok = ok; image = refl; within = within; stored = stored }) real
      more
