-- ===== src/Tests/Files.antt =====
-- A small image with one file of three bytes, for src/kern/kfs.c.
use mathlib.Core.Path.{subst}
use operating_systems_final.Prelude.{
  ℕ, suc, ◌+◌, ◌*◌, ◌/◌, ◌<◌, ◌≡◌, refl, sym, ap, ◌∙◌, ◌≢◌, true, false, none, some, List, [], ◌∷◌,
  ◌++◌, arith, length, length-append, take, replicate, length-replicate, take_all,
}
use operating_systems_final.Errno.{done, fail, einval}
use operating_systems_final.Io.{IoOps, ioread, WriteFn}
use operating_systems_final.Io.Laws.{slice}
use operating_systems_final.Io.Lit.{Lit, iolit_ops}
use operating_systems_final.Io.Lit.Contract.{IsValid, iolit-IsFile}
use operating_systems_final.String.{strcmp, strcmp_bytes}
use operating_systems_final.Kfs.{
  File, Dentry, Fs, no_file, block_size, le32, file_at, find_dentry, fs_open, fs_close,
}
use operating_systems_final.Kfs.Transfer.{fs_read}
use operating_systems_final.Kfs.Image.{IsStored, block_of, file_bytes}
use operating_systems_final.Kfs.Read.{IsOpen, fs_read-file_bytes}
use operating_systems_final.Kfs.Reached.{IsQuiet, Reached, Step, Reached-IsQuiet}
use operating_systems_final.Vioblk.{Vioblk, no_block, vioblk_io_ops}
use operating_systems_final.Vioblk.Coherent.{IsCoherent}
use operating_systems_final.Vioblk.Files.{fs_read-device_bytes}
use operating_systems_final.Tests.Blocks.{list_transfer, list_works}
use operating_systems_final.Kfs.Bounds.{IsHonest, Gives}
use operating_systems_final.Kfs.Descriptors.{free_count, fs_open-leaks}

abbrev image : List ℕ
image = replicate 8192 0 ++ (65 ∷ 66 ∷ 67 ∷ replicate 4093 0)

abbrev disk : Lit
disk = record { buf = image; size = 12288; pos = 0 }

abbrev hello : Dentry
hello = record { f_name = 104 ∷ 105 ∷ 0 ∷ []; inode_idx = 0 }

-- Descriptor 0 stands at the second byte of the file; descriptor 1 is free.
abbrev reading : File
reading = record {
  has_ops = true;
  refcnt = 1;
  file_pos = 1;
  file_size = 3;
  inode_num = 0;
  flags = 1;
}

abbrev system : Fs Lit
system = record {
  initialized = true;
  mounted = some disk;
  fds = reading ∷ no_file ∷ [];
  stat = record { num_dentries = 1; num_inodes = 1; num_blocks = 1 };
  dentries = hello ∷ [];
  fs_lock = none;
  blk_lock = none;
}

length_image : length image ≡ 12288
length_image = omega (
  arith,
  length-append {A = ℕ} (replicate 8192 0) (65 ∷ 66 ∷ 67 ∷ replicate 4093 0),
  length-replicate {A = ℕ} 8192 0,
  length-replicate {A = ℕ} 4093 0,
)

first_block : block_of image 1 0 0 ≡ 0
unfolding le32
first_block = refl

block_of_small : (p : ℕ) → p < 3 → block_of image 1 0 p ≡ 0
block_of_small p h =
    let same : p / block_size ≡ 0 / block_size = omega arith in
    ap (λ k. le32 (slice ((0 + 1) * block_size + 4 * (k + 1)) 4 image)) same ∙ first_block

image-IsStored : IsStored image 1 0 3
image-IsStored = record {
  small = omega (arith, length_image);
  few_blocks = omega arith;
  index = λ p h. omega (arith, length_image);
  blocks = λ p h. let b = block_of_small p h in omega (arith, length_image);
}

whole_disk : take 12288 image ≡ image
whole_disk = take_all 12288 image (omega (arith, length_image))

disk-IsValid : IsValid disk
disk-IsValid = record {
  storage = omega (arith, length_image);
  within = omega arith;
  word = omega arith;
}

system-IsOpen : IsOpen iolit-IsFile image system 0 disk
system-IsOpen = record {
  mounted = refl;
  ok = disk-IsValid;
  image = whole_disk;
  within = omega arith;
  stored = image-IsStored;
}

-- Ten bytes are asked for and the two that are left come.
fs_read-file_bytes_example :
    (s' : Fs Lit) × (d' : Lit) × (fs_read iolit_ops 5 (some 0) 10 system
      ≡ some (done 2, file_bytes image 1 0 1 2, s'))
    × (file_at s' 0 ≡ record reading { file_pos = 3 })
    × (s'.blk_lock ≡ none)
    × (s'.mounted ≡ some d')
    × (take d'.size d'.buf ≡ image)
fs_read-file_bytes_example =
    fs_read-file_bytes iolit-IsFile image 5 0 10 system disk system-IsOpen (omega arith)
      (omega arith)

-- The same image on a block device.
abbrev image_device : Vioblk (List ℕ)
image_device = record {
  dev = image;
  opened = true;
  readonly = false;
  blksz = 512;
  pos = 0;
  size = 12288;
  blkcnt = 24;
  bufblkno = no_block;
  blkbuf = replicate 512 7;
}

image_device-IsCoherent : IsCoherent list_works image_device
image_device-IsCoherent = record {
  up = tt;
  positive = omega arith;
  sectors = refl;
  whole = refl;
  backed = omega (arith, length_image);
  word = omega arith;
  room = length-replicate {A = ℕ} 512 7;
  cached = λ h. absurd (omega arith);
  within = omega arith;
}

abbrev device_system : Fs (Vioblk (List ℕ))
device_system = record {
  initialized = true;
  mounted = some image_device;
  fds = reading ∷ no_file ∷ [];
  stat = record { num_dentries = 1; num_inodes = 1; num_blocks = 1 };
  dentries = hello ∷ [];
  fs_lock = none;
  blk_lock = none;
}

fs_read-device_bytes_example :
    (s' : Fs (Vioblk (List ℕ))) × (v' : Vioblk (List ℕ)) × (fs_read
        (vioblk_io_ops list_transfer)
        5
        (some 0)
        10
        device_system
      ≡ some (done 2, file_bytes (take 12288 image) 1 0 1 2, s'))
    × (file_at s' 0 ≡ record reading { file_pos = 3 })
    × (s'.blk_lock ≡ none)
    × (s'.mounted ≡ some v')
    × (take v'.size v'.dev ≡ take 12288 image)
fs_read-device_bytes_example =
    fs_read-device_bytes list_works 5 0 10 device_system image_device refl image_device-IsCoherent
      (omega arith) (subst (λ b. IsStored b 1 0 3) (sym whole_disk) image-IsStored) (omega arith)
      (omega arith)

abbrev silent_ops : IoOps ℕ
silent_ops = record {
  read = some (λ d n. (done n, replicate n 7, d + n));
  write = some (λ d buf. (done (length buf), d));
  ctl = none;
}

silent-IsHonest : IsHonest silent_ops
unfolding ioread
silent-IsHonest = record { reads = λ d n. omega arith; writes = λ f e d buf. counts f e d buf }
  where
    counts :
        (f : WriteFn ℕ)
        → silent_ops.write ≡ some f
        → (d : ℕ) (buf : List ℕ) → Gives (length buf) (f d buf).0
    counts f e d buf =
        let same : (λ (d : ℕ) (buf : List ℕ). (done (length buf), d)) ≡ f = cc in
        subst (λ (g : WriteFn ℕ). Gives (length buf) (g d buf).0) same (omega arith)

abbrev served : Fs ℕ
served = record {
  initialized = true;
  mounted = some 0;
  fds = reading ∷ no_file ∷ [];
  stat = record { num_dentries = 1; num_inodes = 1; num_blocks = 1 };
  dentries = hello ∷ [];
  fs_lock = none;
  blk_lock = none;
}

-- A run of calls: one fails, the others do not.
abbrev opened_once : Fs ℕ
opened_once = (fs_open silent_ops 3 [] (some (104 ∷ 105 ∷ [])) served).2

Reached-IsQuiet_example : IsQuiet (fs_close (some 9) opened_once)
Reached-IsQuiet_example =
    Reached-IsQuiet silent_ops silent-IsHonest
      (Reached.next (Reached.next Reached.here (Step.opens 3 [] (some (104 ∷ 105 ∷ [])) served))
        (Step.closes (some 9) opened_once))
      (record { unheld = refl; inside = (omega arith, (omega arith, tt)) })

abbrev hi : List ℕ
hi = 104 ∷ 105 ∷ 0 ∷ []

hi_found : find_dentry hi (hello ∷ []) ≡ some 0
unfolding find_dentry strcmp strcmp_bytes
hi_found = refl

ho_missing : find_dentry (104 ∷ 111 ∷ []) (hello ∷ []) ≡ none
unfolding find_dentry strcmp strcmp_bytes
ho_missing = refl

one_free : free_count system.fds ≢ 0
unfolding free_count
one_free e = omega arith

fs_open-leaks_example :
    let (r, out, s') = fs_open iolit_ops 5 [] (some (104 ∷ 111 ∷ [])) system in
    (r ≡ fail einval) × (out ≡ none) × (suc (free_count s'.fds) ≡ free_count system.fds)
fs_open-leaks_example =
    fs_open-leaks iolit_ops 5 [] (104 ∷ 111 ∷ []) system disk refl refl ho_missing one_free
