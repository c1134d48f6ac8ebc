-- ===== src/Kfs/Descriptors.antt =====
-- The table of descriptors of src/kern/kfs.c: which one fs_open takes, and which it loses.
use operating_systems_final.Prelude.{
  ℕ, zero, suc, ◌<◌, ◌≡◌, refl, ap, ◌∙◌, ◌≢◌, ◌⊎◌, inl, inr, true, false, none, some, List, [], ◌∷◌,
  arith, ◌==◌, if◌then◌else◌, Bool-cases, length, set, length-set, get_or, get_or-set_self,
  get_or-set_ne,
}
use operating_systems_final.Errno.{done, fail, einval}
use operating_systems_final.Io.{IoOps}
use operating_systems_final.Kfs.{
  File, Fs, fs_open, open_inode, fs_close, inode_length, find_free, find_dentry, claimed, opened,
  file_at, no_file,
}

-- How many descriptors are free.
unfoldable pub free_count : List File → ℕ
free_count [] = 0
free_count (f ∷ fs) = let rest = free_count fs in if f.flags == 0 then suc rest else rest

-- The first free descriptor, with what is known of it.
pub find_free-first :
    (fs : List File)
    → ((find_free fs ≡ none) × (free_count fs ≡ 0))
      ⊎ ((i : ℕ) × (find_free fs ≡ some i)
          × (i < length fs)
          × ((get_or fs i no_file).flags ≡ 0)
          × ((f : File) → f.flags ≢ 0 → suc (free_count (set fs i f)) ≡ free_count fs))
unfolding find_free free_count
find_free-first [] = inl (refl, refl)
find_free-first (x ∷ fs) = elim (Bool-cases (x.flags == 0)) [
  | inl e ↦ rw e (
      inr (
        0,
        refl,
        omega arith,
        ground arith,
        λ f used. let u : (f.flags == 0) ≡ false = ground arith in rw u refl,
      ))
  | inr e ↦ elim (find_free-first fs) [
    | inl (lack, zero_left) ↦ rw (e, lack) (inl (refl, zero_left))
    | inr (i, got, small, free, fewer) ↦
        rw (e, got) (inr (suc i, refl, omega arith, free, λ f used. rw e (fewer f used)))
  ]
]

set-set : (fs : List File) (i : ℕ) (f g : File) → set (set fs i f) i g ≡ set fs i g
set-set [] i f g = refl
set-set (x ∷ fs) zero f g = refl
set-set (x ∷ fs) (suc i) f g = ap (λ l. x ∷ l) (set-set fs i f g)

free_count-close :
    (fs : List File) (i : ℕ) (f : File)
    → i < length fs
    → (get_or fs i no_file).flags ≢ 0
    → f.flags ≡ 0
    → free_count (set fs i f) ≡ suc (free_count fs)
unfolding free_count
free_count-close [] i f h used e = absurd (omega arith)
free_count-close (x ∷ fs) zero f h used e =
    let a : (x.flags == 0) ≡ false = ground arith in
    let b : (f.flags == 0) ≡ true = ground arith in rw (a, b) refl
free_count-close (x ∷ fs) (suc i) f h used e = elim (Bool-cases (x.flags == 0)) [
  | inl a ↦ rw a (ap suc (free_count-close fs i f (omega arith) used e))
  | inr a ↦ rw a (free_count-close fs i f (omega arith) used e)
]

-- A close of a descriptor in use frees it, and leaves every other descriptor as it was.
pub fs_close-frees :
    {D : Type 0} (s : Fs D) (i : ℕ)
    → i < length s.fds
    → (file_at s i).flags ≢ 0
    → let s' = fs_close (some i) s in
      ((file_at s' i).flags ≡ 0)
      × (free_count s'.fds ≡ suc (free_count s.fds))
      × ((j : ℕ) → i ≢ j → file_at s' j ≡ file_at s j)
unfolding fs_close
fs_close-frees s i small used =
    let f = record (file_at s i) { flags = 0; has_ops = false } in
    (
      ap (λ (x : File). x.flags) (get_or-set_self s.fds i f no_file small),
      free_count-close s.fds i f small used refl,
      λ j other. get_or-set_ne s.fds f no_file other,
    )

-- An open of a name that is in the directory, over a mounted file system: either no descriptor is
-- free and the call is refused with no descriptor changed, or it passes back a descriptor that was free,
-- in use now at position 0 with the entry's inode and the length that the inode gives, and one
-- descriptor fewer is free.
pub fs_open-claims :
    {D : Type 0} (ops : IoOps D) (tid inode : ℕ) (stale name : List ℕ) (s : Fs D) (d : D)
    → s.mounted ≡ some d
    → s.initialized ≡ true
    → find_dentry name s.dentries ≡ some inode
    → let (r, out, s') = fs_open ops tid stale (some name) s in
      ((free_count s.fds ≡ 0) × (r ≡ fail einval) × (out ≡ none) × (s'.fds ≡ s.fds))
      ⊎ ((i : ℕ) × ((file_at s i).flags ≡ 0)
          × (r ≡ done 0)
          × (out ≡ some i)
          × (file_at s' i ≡ opened (file_at s i) inode (inode_length ops stale inode d).0)
          × (suc (free_count s'.fds) ≡ free_count s.fds))
unfolding fs_open open_inode
fs_open-claims ops tid inode stale name s d mnt ini entry = elim (find_free-first s.fds) [
  | inl (lack, zero_left) ↦ rw (mnt, ini, lack) (inl (zero_left, refl, refl, refl))
  | inr (i, got, small, free, fewer) ↦
      let f = claimed (file_at s i) in
      let there = get_or-set_self s.fds i f no_file small in
      rw (mnt, ini, got, entry)
        (inr (
          i,
          free,
          refl,
          refl,
          get_or-set_self (set s.fds i f) i _ no_file (omega (arith, length-set s.fds i f))
              ∙ ap (λ x. opened x inode (inode_length ops stale inode d).0) there,
          ap (λ l. suc (free_count l)) (set-set s.fds i f _) ∙ fewer _ (λ e. omega arith),
        ))
]

-- An open of a name that is not in the directory, over a mounted file system with a free
-- descriptor, is refused and still takes the descriptor: one fewer is free, and no descriptor is
-- passed back with which to close it.
pub fs_open-leaks :
    {D : Type 0} (ops : IoOps D) (tid : ℕ) (stale name : List ℕ) (s : Fs D) (d : D)
    → s.mounted ≡ some d
    → s.initialized ≡ true
    → find_dentry name s.dentries ≡ none
    → free_count s.fds ≢ 0
    → let (r, out, s') = fs_open ops tid stale (some name) s in
      (r ≡ fail einval) × (out ≡ none) × (suc (free_count s'.fds) ≡ free_count s.fds)
unfolding fs_open
fs_open-leaks ops tid stale name s d mnt ini entry room = elim (find_free-first s.fds) [
  | inl (lack, zero_left) ↦ absurd (room zero_left)
  | inr (i, got, small, free, fewer) ↦
      rw (mnt, ini, got, entry) (refl, refl, fewer _ (λ e. omega arith))
]
