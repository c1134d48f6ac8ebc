-- ===== src/Kfs/Image.antt =====
-- The files that an image of src/kern/kfs.c holds, described without the calls: where each byte of
-- a file stands, and when an image is well formed.
use mathlib.Core.Path.{ap₂}
use operating_systems_final.Prelude.{
  ℕ, zero, suc, ◌+◌, ◌-◌, ◌*◌, ◌/◌, ◌%◌, ◌^◌, ◌≤◌, ◌<◌, ◌≡◌, refl, sym, ap, ◌∙◌, List, [], ◌∷◌,
  ◌++◌, arith, length, get_or,
}
use operating_systems_final.Kfs.{block_size, le32}
use operating_systems_final.Io.Laws.{slice}

module _ (disk : List ℕ) (num_inodes inode : ℕ) where
  -- The place of the block number that the inode holds for position `p`.
  abbrev pub entry : ℕ → ℕ
  entry p = (inode + 1) * block_size + 4 * (p / block_size + 1)

  abbrev pub block_of : ℕ → ℕ
  block_of p = le32 (slice (entry p) 4 disk)

  -- The place of the byte at position `p` of the file.
  abbrev pub place : ℕ → ℕ
  place p = (num_inodes + 1 + block_of p) * block_size + p % block_size

  -- The `n` bytes of the file from position `p` on.
  unfoldable pub file_bytes : ℕ → ℕ → List ℕ
  file_bytes p zero = []
  file_bytes p (suc n) = get_or disk (place p) 0 ∷ file_bytes (p + 1) n

  -- A file of `size` bytes whose index and blocks stand inside an image below 4 GB. An inode has
  -- room for 1023 block numbers.
  pub record IsStored (size : ℕ) : Type 0 where
    pub small : length disk ≤ 2 ^ 32 - 1
    pub few_blocks : size ≤ 1023 * block_size
    pub index : (p : ℕ) → p < size → entry p + 4 ≤ length disk
    pub blocks :
        (p : ℕ) → p < size → (num_inodes + 1 + block_of p) * block_size + block_size ≤ length disk

  pub length-file_bytes : (p n : ℕ) → length (file_bytes p n) ≡ n
  unfolding file_bytes
  length-file_bytes p zero = refl
  length-file_bytes p (suc n) = ap suc (length-file_bytes (p + 1) n)

  pub file_bytes-add : (p n m : ℕ) → file_bytes p (n + m) ≡ file_bytes p n ++ file_bytes (p + n) m
  unfolding file_bytes
  file_bytes-add p zero m = ap₂ file_bytes (omega arith) (omega arith)
  file_bytes-add p (suc n) m =
      let e : suc n + m ≡ suc (n + m) = omega arith in
      rw e (
        ap (λ l. get_or disk (place p) 0 ∷ l)
          (file_bytes-add (p + 1) n m
            ∙ ap (λ q. file_bytes (p + 1) n ++ file_bytes q m) (omega arith)))

slice-cons :
    (a n : ℕ) (xs : List ℕ)
    → a < length xs
    → slice a (suc n) xs ≡ get_or xs a 0 ∷ slice (a + 1) n xs
slice-cons a n [] h = absurd (omega arith)
slice-cons zero n (x ∷ xs) h = refl
slice-cons (suc a) n (x ∷ xs) h =
    let e : suc a + 1 ≡ suc (a + 1) = omega arith in rw e (slice-cons a n xs (omega arith))

add_suc_right : (a r : ℕ) → a + (r + 1) ≡ a + r + 1
add_suc_right a r = omega arith

-- Inside one block the bytes of the file stand side by side in the image.
pub slice-place :
    (disk : List ℕ) (num_inodes inode p n : ℕ)
    → p % block_size + n ≤ block_size
    → place disk num_inodes inode p + n ≤ length disk
    → slice (place disk num_inodes inode p) n disk ≡ file_bytes disk num_inodes inode p n
unfolding file_bytes
slice-place disk ni ino p zero fits room = refl
slice-place disk ni ino p (suc zero) fits room =
    slice-cons (place disk ni ino p) 0 disk (omega arith)
slice-place disk ni ino p (suc (suc n)) fits room =
    let same_block : (p + 1) / block_size ≡ p / block_size = omega arith in
    let off : (p + 1) % block_size ≡ p % block_size + 1 = omega arith in
    let next : place disk ni ino (p + 1) ≡ place disk ni ino p + 1 =
      ap₂
        (λ b r.
          (ni + 1 + le32 (slice ((ino + 1) * block_size + 4 * (b + 1)) 4 disk)) * block_size + r)
        same_block off
      ∙ add_suc_right ((ni + 1 + block_of disk ni ino p) * block_size) (p % block_size) in
    slice-cons (place disk ni ino p) (suc n) disk (omega arith)
    ∙ ap (λ l. get_or disk (place disk ni ino p) 0 ∷ l)
        (ap (λ a. slice a (suc n) disk) (sym next)
          ∙ slice-place disk ni ino (p + 1) (suc n) (omega arith) (omega (arith, next)))
