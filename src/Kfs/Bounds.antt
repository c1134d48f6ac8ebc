-- ===== src/Kfs/Bounds.antt =====
-- How far the loops of fs_read and fs_write of src/kern/kfs.c move the position of a file, over any
-- object that says no more than it was asked for.
use mathlib.Core.Path.{subst}
use operating_systems_final.Prelude.{
  ℕ, zero, suc, ◌+◌, ◌-◌, ◌≤◌, ◌≡◌, refl, inl, inr, Bool, Option, none, some, List, [], ◌∷◌, arith,
  ◌==◌, Bool-cases, Option-cases, length, take, drop, length-take, length-drop,
}
use operating_systems_final.Errno.{Reply, done, fail}
use operating_systems_final.Io.{IoOps, WriteFn, ioread, iowrite, write_out, write_loop}
use operating_systems_final.Kfs.Transfer.{
  Moving, chunk, locate, read_next, read_blocks, write_next, write_blocks,
}

-- A count of at most `n`, or an error.
abbrev pub Gives : ℕ → Reply → Type 0
Gives n (fail e) = Unit
Gives n (done c) = c ≤ n

pub record IsHonest {D : Type 0} (ops : IoOps D) : Type 0 where
  pub reads : (d : D) (n : ℕ) → Gives n (ioread ops d n).0
  pub writes :
      (f : WriteFn D) → ops.write ≡ some f → (d : D) (buf : List ℕ) → Gives (length buf) (f d buf).0

abbrev pub Gave : {D : Type 0} → ℕ → Option (Reply × D) → Type 0
Gave n none = Unit
Gave n (some out) = Gives n out.0

chunk-le : (p n : ℕ) → chunk p n ≤ n
unfolding chunk
chunk-le p n = ground arith

module _ {D : Type 0} where
  round-Gave :
      (acc n : ℕ) (next : ℕ → D → Option (Reply × D)) (out : Reply × D)
      → Gives n out.0
      → ((c : ℕ) (d : D) → c ≤ n → Gave (acc + n) (next c d))
      → Gave (acc + n) (write_out acc next out)
  unfolding write_out
  round-Gave acc n next (fail e, d) h k = tt
  round-Gave acc n next (done c, d) h k = elim (Bool-cases (c == 0)) [
    | inl e ↦ rw e (omega arith)
    | inr e ↦ rw e (k c d h)
  ]

  Gave-cast : (m n : ℕ) (out : Option (Reply × D)) → m ≡ n → Gave m out → Gave n out
  Gave-cast m n out e h = subst (λ x. Gave x out) e h

  write_loop-Gave :
      (f : WriteFn D)
      → ((d : D) (buf : List ℕ) → Gives (length buf) (f d buf).0)
      → (k : ℕ) (d : D) (rest : List ℕ) (acc : ℕ)
      → Gave (acc + length rest) (write_loop f k d rest acc)
  unfolding write_loop
  write_loop-Gave f ok zero d rest acc = tt
  write_loop-Gave f ok (suc k) d [] acc = omega arith
  write_loop-Gave f ok (suc k) d (c ∷ cs) acc =
      round-Gave acc (length (c ∷ cs)) (λ n d'. write_loop f k d' (drop n (c ∷ cs)) (acc + n))
        (f d (c ∷ cs)) (ok d (c ∷ cs))
        λ n d' small.
          Gave-cast (acc + n + length (drop n (c ∷ cs))) _ _ (omega (arith, length-drop n (c ∷ cs)))
            (write_loop-Gave f ok k d' (drop n (c ∷ cs)) (acc + n))

  iowrite-Gave :
      (ops : IoOps D)
      → IsHonest ops
      → (d : D) (buf : List ℕ) → Gave (length buf) (iowrite ops d buf)
  unfolding iowrite
  iowrite-Gave ops ok d buf = elim (Option-cases ops.write) [
    | inl e ↦ rw e tt
    | inr (f, e) ↦ rw e (
        Gave-cast (0 + length buf) (length buf) _ (omega arith)
          (write_loop-Gave f (ok.writes f e) (suc (length buf)) d buf 0))
  ]

  -- The position that a loop ends at, if it ends.
  abbrev pub Below : ℕ → Option (Bool × Moving D) → Type 0
  Below b none = Unit
  Below b (some o) = o.1.file_pos ≤ b

  read_next-Below :
      (b n : ℕ) (m : Moving D) (next : ℕ → Moving D → Option (Bool × Moving D))
      (out : Reply × List ℕ × D)
      → m.file_pos ≤ b
      → Gives n out.0
      → ((c : ℕ) (m' : Moving D) → c ≤ n → m'.file_pos ≡ m.file_pos + c → Below b (next c m'))
      → Below b (read_next m next out)
  unfolding read_next
  read_next-Below b n m next (fail e, bytes, d) h g k = h
  read_next-Below b n m next (done c, bytes, d) h g k = elim (Bool-cases (c == 0)) [
    | inl e ↦ rw e h
    | inr e ↦ rw e (k c _ g refl)
  ]

  pub read_blocks-Below :
      (ops : IoOps D)
      → IsHonest ops
      → (inode num_inodes b k n : ℕ) (m : Moving D) → m.file_pos + n ≤ b
      → Below b (read_blocks ops inode num_inodes k n m)
  unfolding read_blocks
  read_blocks-Below ops ok inode num_inodes b zero n m h = tt
  read_blocks-Below ops ok inode num_inodes b (suc k) zero m h = omega arith
  read_blocks-Below ops ok inode num_inodes b (suc k) (suc n) m h =
      let small = chunk-le m.file_pos (suc n) in
      read_next-Below b (chunk m.file_pos (suc n)) m
        (λ c m'. read_blocks ops inode num_inodes k (suc n - c) m')
        (ioread ops (locate ops inode num_inodes m.file_pos m.disk) (chunk m.file_pos (suc n)))
        (omega arith) (ok.reads _ _)
        λ c m' few at. read_blocks-Below ops ok inode num_inodes b k (suc n - c) m' (omega arith)

  write_next-Below :
      (b n : ℕ) (m : Moving D) (next : ℕ → Moving D → Option (Bool × Moving D)) (out : Reply × D)
      → m.file_pos ≤ b
      → Gives n out.0
      → ((c : ℕ) (m' : Moving D) → c ≤ n → m'.file_pos ≡ m.file_pos + c → Below b (next c m'))
      → Below b (write_next m next out)
  unfolding write_next
  write_next-Below b n m next (fail e, d) h g k = h
  write_next-Below b n m next (done c, d) h g k = elim (Bool-cases (c == 0)) [
    | inl e ↦ rw e h
    | inr e ↦ rw e (k c _ g refl)
  ]

  pub write_blocks-Below :
      (ops : IoOps D)
      → IsHonest ops
      → (inode num_inodes b k : ℕ) (buf : List ℕ) (m : Moving D) → m.file_pos + length buf ≤ b
      → Below b (write_blocks ops inode num_inodes k buf m)
  unfolding write_blocks
  write_blocks-Below ops ok inode num_inodes b zero buf m h = tt
  write_blocks-Below ops ok inode num_inodes b (suc k) [] m h = omega arith
  write_blocks-Below ops ok inode num_inodes b (suc k) (c ∷ cs) m h =
      let c' = chunk m.file_pos (suc (length cs)) in
      let d = locate ops inode num_inodes m.file_pos m.disk in
      let small = chunk-le m.file_pos (suc (length cs)) in
      let gave = iowrite-Gave ops ok d (take c' (c ∷ cs)) in
      elim (Option-cases (iowrite ops d (take c' (c ∷ cs)))) [
        | inl e ↦ rw (e, Below) tt
        | inr (out, e) ↦
            rw (e, Below)
              (write_next-Below b (length (take c' (c ∷ cs))) m
                (λ n m'. write_blocks ops inode num_inodes k (drop n (c ∷ cs)) m') out (omega arith)
                (subst (Gave (length (take c' (c ∷ cs)))) e gave)
                λ n m' few at.
                  write_blocks-Below ops ok inode num_inodes b k (drop n (c ∷ cs)) m'
                    (omega (arith, length-drop n (c ∷ cs), length-take c' (c ∷ cs))))
      ]
