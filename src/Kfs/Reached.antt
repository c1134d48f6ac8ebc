-- ===== src/Kfs/Reached.antt =====
-- The states that the calls of src/kern/kfs.c lead to.
use mathlib.Core.Path.{subst}
use mathlib.Core.Option
use operating_systems_final.Prelude.{
  ℕ, zero, suc, ◌+◌, ◌≤◌, ◌≡◌, refl, sym, inl, inr, Bool, Option, none, some, List, [], ◌∷◌, arith,
  ltb, ◌==◌, Bool-cases, Option-cases, length, set, get_or, take, replicate, length-take, All,
}
use operating_systems_final.Errno.{Reply}
use operating_systems_final.Io.{
  IoOps, Cmd, getlen, setlen, getpos, setpos, flush, getblksz, ioread, ioseek,
}
use operating_systems_final.Kfs.{
  File, Fs, fs_init, fs_mount, fs_open, open_inode, fs_close, fs_ioctl, fs_setpos, find_free,
  find_dentry, load_tables, claimed, file_at, no_file, decode_stat, is_done, hold, block_size,
  max_files,
}
use operating_systems_final.Kfs.Transfer.{
  Moving, fs_read, fs_write, read_from, write_from, limited, settle, starting, transfer_reply,
  with_disk,
}
use operating_systems_final.Kfs.Bounds.{IsHonest, Below, read_blocks-Below, write_blocks-Below}

-- The position of a file is inside it.
abbrev pub InBounds : File → Type 0
InBounds f = f.file_pos ≤ f.file_size

-- Between two calls: no call holds the block lock, and all positions are inside their files.
pub record IsQuiet {D : Type 0} (s : Fs D) : Type 0 where
  pub unheld : s.blk_lock ≡ none
  pub inside : All InBounds s.fds

All-set :
    (fs : List File) (i : ℕ) (f : File) → All InBounds fs → InBounds f → All InBounds (set fs i f)
All-set [] i f h k = tt
All-set (x ∷ fs) zero f h k = (k, h.1)
All-set (x ∷ fs) (suc i) f h k = (h.0, All-set fs i f h.1 k)

All-get_or : (fs : List File) (i : ℕ) → All InBounds fs → InBounds (get_or fs i no_file)
All-get_or [] i h = omega arith
All-get_or (x ∷ fs) zero h = h.0
All-get_or (x ∷ fs) (suc i) h = All-get_or fs i h.1

All-replicate : (n : ℕ) → All InBounds (replicate n no_file)
All-replicate zero = tt
All-replicate (suc n) = (omega arith, All-replicate n)

limited-le : (f : File) (n : ℕ) → InBounds f → f.file_pos + limited f n ≤ f.file_size
limited-le f n h = ground arith

fs_setpos-InBounds : (f : File) (p : ℕ) → InBounds f → InBounds (fs_setpos f p).1
unfolding fs_setpos
fs_setpos-InBounds f p h = ground arith

module _ {D : Type 0} where
  fs_init-IsQuiet : (s : Fs D) → IsQuiet s → IsQuiet (fs_init s)
  unfolding fs_init
  fs_init-IsQuiet s q = elim (Bool-cases s.initialized) [
    | inl e ↦ rw e (record { unheld = q.unheld; inside = q.inside })
    | inr e ↦ rw e (record { unheld = q.unheld; inside = All-replicate max_files })
  ]

  load_tables-IsQuiet : (b : List ℕ) (s : Fs D) → IsQuiet s → IsQuiet (load_tables b s).1
  unfolding load_tables
  load_tables-IsQuiet b s q = elim (Bool-cases (ltb max_files (decode_stat b).num_dentries)) [
    | inl e ↦ rw e (record { unheld = q.unheld; inside = q.inside })
    | inr e ↦ rw e (record { unheld = q.unheld; inside = q.inside })
  ]

  fs_mount-IsQuiet :
      (ops : IoOps D) (tid : ℕ) (io : Option D) (s : Fs D)
      → IsQuiet s
      → IsQuiet (fs_mount ops tid io s).1
  unfolding fs_mount
  fs_mount-IsQuiet ops tid none s q = q
  fs_mount-IsQuiet ops tid (some d) s q = elim (Bool-cases s.initialized) [
    | inr e ↦ rw e (record { unheld = q.unheld; inside = q.inside })
    | inl e ↦
        let r = (ioread ops (ioseek ops d 0).1 block_size).0 in
        elim (Bool-cases (is_done r block_size)) [
          | inr short ↦ rw (e, short) (record { unheld = refl; inside = q.inside })
          | inl whole ↦
              rw (e, whole) (load_tables-IsQuiet _ _ (record { unheld = refl; inside = q.inside }))
        ]
  ]

  fs_open-IsQuiet :
      (ops : IoOps D) (tid : ℕ) (stale : List ℕ) (name : Option (List ℕ)) (s : Fs D)
      → IsQuiet s
      → IsQuiet (fs_open ops tid stale name s).2
  unfolding fs_open open_inode
  fs_open-IsQuiet ops tid stale none s q = q
  fs_open-IsQuiet ops tid stale (some name) s q = elim (Option-cases s.mounted) [
    | inl e ↦ rw e (record { unheld = q.unheld; inside = q.inside })
    | inr (d, e) ↦ elim (Bool-cases s.initialized) [
      | inr f ↦ rw (e, f) (record { unheld = q.unheld; inside = q.inside })
      | inl f ↦ elim (Option-cases (find_free s.fds)) [
        | inl g ↦ rw (e, f, g) (record { unheld = q.unheld; inside = q.inside })
        | inr (i, g) ↦
            let inside = All-set s.fds i (claimed (file_at s i)) q.inside (omega arith) in
            elim (Option-cases (find_dentry name s.dentries)) [
              | inl h ↦ rw (e, f, g, h) (record { unheld = q.unheld; inside = inside })
              | inr (inode, h) ↦
                  rw (e, f, g, h)
                    (record { unheld = refl; inside = All-set _ i _ inside (omega arith) })
            ]
      ]
    ]
  ]

  fs_close-IsQuiet : (i : Option ℕ) (s : Fs D) → IsQuiet s → IsQuiet (fs_close i s)
  unfolding fs_close
  fs_close-IsQuiet none s q = q
  fs_close-IsQuiet (some i) s q = record {
    unheld = q.unheld;
    inside = All-set s.fds i _ q.inside (All-get_or s.fds i q.inside);
  }

  fs_ioctl-IsQuiet :
      (i : Option ℕ) (cmd : Cmd) (s : Fs D) → IsQuiet s → IsQuiet (fs_ioctl i cmd s).1
  unfolding fs_ioctl
  fs_ioctl-IsQuiet none cmd s q = q
  fs_ioctl-IsQuiet (some i) getlen s q = q
  fs_ioctl-IsQuiet (some i) getpos s q = q
  fs_ioctl-IsQuiet (some i) setlen s q = q
  fs_ioctl-IsQuiet (some i) flush s q = q
  fs_ioctl-IsQuiet (some i) getblksz s q = q
  fs_ioctl-IsQuiet (some i) (setpos p) s q = record {
    unheld = q.unheld;
    inside = All-set s.fds i _ q.inside (fs_setpos-InBounds _ p (All-get_or s.fds i q.inside));
  }

  settle-IsQuiet :
      (s : Fs D) (tid i : ℕ) (m : Moving D)
      → IsQuiet s
      → m.file_pos ≤ (file_at s i).file_size
      → IsQuiet (settle (hold tid s) i m)
  settle-IsQuiet s tid i m q h = record { unheld = refl; inside = All-set s.fds i _ q.inside h }

  abbrev ReadQuiet : Option (Reply × List ℕ × Fs D) → Type 0
  ReadQuiet none = Unit
  ReadQuiet (some out) = IsQuiet out.2

  abbrev WriteQuiet : Option (Reply × Fs D) → Type 0
  WriteQuiet none = Unit
  WriteQuiet (some out) = IsQuiet out.1

  settled_read :
      (s : Fs D) (tid i : ℕ) (out : Option (Bool × Moving D))
      → IsQuiet s
      → Below (file_at s i).file_size out
      → ReadQuiet (
          Option.map
            (λ (o : Bool × Moving D). (transfer_reply o.0 o.1, o.1.got, settle (hold tid s) i o.1))
            out)
  settled_read s tid i none q h = tt
  settled_read s tid i (some (ok, m)) q h = settle-IsQuiet s tid i m q h

  settled_write :
      (s : Fs D) (tid i : ℕ) (out : Option (Bool × Moving D))
      → IsQuiet s
      → Below (file_at s i).file_size out
      → WriteQuiet (
          Option.map
            (λ (o : Bool × Moving D). (transfer_reply o.0 o.1, settle (hold tid s) i o.1))
            out)
  settled_write s tid i none q h = tt
  settled_write s tid i (some (ok, m)) q h = settle-IsQuiet s tid i m q h

  module _ (ops : IoOps D) (ok : IsHonest ops) where
    read_from-IsQuiet :
        (tid i n : ℕ) (s : Fs D) (d : D) → IsQuiet s → ReadQuiet (read_from ops tid i n s d)
    unfolding read_from
    read_from-IsQuiet tid i n s d q = elim (Bool-cases (n == 0)) [
      | inl e ↦ rw e q
      | inr e ↦
          let f = file_at s i in
          let todo = limited f n in
          rw e (
            settled_read s tid i _ q (
              read_blocks-Below ops ok f.inode_num s.stat.num_inodes f.file_size (suc todo) todo
                (starting d f) (limited-le f n (All-get_or s.fds i q.inside))))
    ]

    write_from-IsQuiet :
        (tid i : ℕ) (buf : List ℕ) (s : Fs D) (d : D)
        → IsQuiet s
        → WriteQuiet (write_from ops tid i buf s d)
    unfolding write_from
    write_from-IsQuiet tid i buf s d q = elim (Bool-cases (length buf == 0)) [
      | inl e ↦ rw e q
      | inr e ↦
          let f = file_at s i in
          let todo = take (limited f (length buf)) buf in
          let fits = limited-le f (length buf) (All-get_or s.fds i q.inside) in
          rw e (
            settled_write s tid i _ q (
              write_blocks-Below ops ok f.inode_num s.stat.num_inodes f.file_size
                (suc (length todo)) todo (starting d f)
                (omega (arith, length-take (limited f (length buf)) buf))))
    ]

    fs_read-IsQuiet :
        (tid : ℕ) (i : Option ℕ) (n : ℕ) (s : Fs D) → IsQuiet s → ReadQuiet (fs_read ops tid i n s)
    unfolding fs_read
    fs_read-IsQuiet tid none n s q = q
    fs_read-IsQuiet tid (some i) n s q = elim (Option-cases s.mounted) [
      | inl e ↦ subst (λ x. ReadQuiet (with_disk x (read_from ops tid i n s))) (sym e) tt
      | inr (d, e) ↦
          subst (λ x. ReadQuiet (with_disk x (read_from ops tid i n s))) (sym e)
            (read_from-IsQuiet tid i n s d q)
    ]

    fs_write-IsQuiet :
        (tid : ℕ) (i : Option ℕ) (buf : List ℕ) (s : Fs D)
        → IsQuiet s
        → WriteQuiet (fs_write ops tid i buf s)
    unfolding fs_write
    fs_write-IsQuiet tid none buf s q = q
    fs_write-IsQuiet tid (some i) buf s q = elim (Option-cases s.mounted) [
      | inl e ↦ subst (λ x. WriteQuiet (with_disk x (write_from ops tid i buf s))) (sym e) tt
      | inr (d, e) ↦
          subst (λ x. WriteQuiet (with_disk x (write_from ops tid i buf s))) (sym e)
            (write_from-IsQuiet tid i buf s d q)
    ]

-- One call, with any arguments, by any thread.
pub data Step {D : Type 0} (ops : IoOps D) : Fs D → Fs D → Type 0 where
  inits : (s : Fs D) → Step ops s (fs_init s)
  mounts : (tid : ℕ) (io : Option D) (s : Fs D) → Step ops s (fs_mount ops tid io s).1
  opens :
      (tid : ℕ) (stale : List ℕ) (name : Option (List ℕ)) (s : Fs D)
      → Step ops s (fs_open ops tid stale name s).2
  closes : (i : Option ℕ) (s : Fs D) → Step ops s (fs_close i s)
  controls : (i : Option ℕ) (cmd : Cmd) (s : Fs D) → Step ops s (fs_ioctl i cmd s).1
  reads :
      (tid : ℕ) (i : Option ℕ) (n : ℕ) (r : Reply) (bytes : List ℕ) (s s' : Fs D)
      → fs_read ops tid i n s ≡ some (r, bytes, s')
      → Step ops s s'
  writes :
      (tid : ℕ) (i : Option ℕ) (buf : List ℕ) (r : Reply) (s s' : Fs D)
      → fs_write ops tid i buf s ≡ some (r, s')
      → Step ops s s'

pub data Reached {D : Type 0} (ops : IoOps D) (s : Fs D) : Fs D → Type 0 where
  here : Reached ops s s
  next : {t u : Fs D} → Reached ops s t → Step ops t u → Reached ops s u

Step-IsQuiet :
    {D : Type 0} (ops : IoOps D)
    → IsHonest ops
    → {s t : Fs D} → Step ops s t
    → IsQuiet s
    → IsQuiet t
Step-IsQuiet ops ok (inits s) q = fs_init-IsQuiet s q
Step-IsQuiet ops ok (mounts tid io s) q = fs_mount-IsQuiet ops tid io s q
Step-IsQuiet ops ok (opens tid stale name s) q = fs_open-IsQuiet ops tid stale name s q
Step-IsQuiet ops ok (closes i s) q = fs_close-IsQuiet i s q
Step-IsQuiet ops ok (controls i cmd s) q = fs_ioctl-IsQuiet i cmd s q
Step-IsQuiet ops ok (reads tid i n r bytes s s' e) q =
    subst ReadQuiet e (fs_read-IsQuiet ops ok tid i n s q)
Step-IsQuiet ops ok (writes tid i buf r s s' e) q =
    subst WriteQuiet e (fs_write-IsQuiet ops ok tid i buf s q)

-- Over an object that never says more than it was asked for, every sequence of calls of the file
-- system that starts with the block lock free and all positions inside their files leaves it so,
-- whichever calls fail.
pub Reached-IsQuiet :
    {D : Type 0} (ops : IoOps D)
    → IsHonest ops
    → {s t : Fs D} → Reached ops s t
    → IsQuiet s
    → IsQuiet t
Reached-IsQuiet ops ok here q = q
Reached-IsQuiet ops ok (next r st) q = Step-IsQuiet ops ok st (Reached-IsQuiet ops ok r q)
