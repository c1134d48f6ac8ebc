-- ===== src/Vioblk/Splices.antt =====
-- Writes into a list of bytes, one after another.
use mathlib.Core.Path.{ap₂}
use mathlib.Core.List.{append-nil, append_assoc}
use operating_systems_final.Prelude.{
  ℕ, zero, suc, ◌+◌, ◌-◌, ◌≤◌, ◌≡◌, refl, sym, ap, ◌∙◌, List, [], ◌∷◌, ◌++◌, arith, length,
  length-append, take, drop, length-take, length-drop, take-add, drop-add, drop-take, take-take,
  take-append, drop-append,
}
use operating_systems_final.Io.Laws.{slice, splice}

take-splice : (p : ℕ) (new xs : List ℕ) → p ≤ length xs → take p (splice p new xs) ≡ take p xs
take-splice p new xs h =
    take-append p 0 (take p xs) (new ++ drop (p + length new) xs) (omega (arith, length-take p xs))
    ∙ append-nil (take p xs)

drop-splice :
    (p k : ℕ) (new xs : List ℕ)
    → p + length new ≤ length xs
    → drop (p + (length new + k)) (splice p new xs) ≡ drop (p + (length new + k)) xs
drop-splice p k new xs h =
    let rest = drop (p + length new) xs in
    drop-append (p + (length new + k)) (length new + k) (take p xs) (new ++ rest)
      (omega (arith, length-take p xs))
    ∙ drop-append (length new + k) k new rest refl
    ∙ sym (drop-add (p + length new) k xs)
    ∙ ap (λ m. drop m xs) (omega arith)

pub length-splice :
    (p : ℕ) (new xs : List ℕ) → p + length new ≤ length xs → length (splice p new xs) ≡ length xs
length-splice p new xs h =
    let rest = drop (p + length new) xs in
    omega (
      arith,
      length-append (take p xs) (new ++ rest),
      length-append new rest,
      length-take p xs,
      length-drop (p + length new) xs,
    )

-- A second write at the same place is the one that counts.
pub splice-splice :
    (p : ℕ) (a b xs : List ℕ)
    → length a ≡ length b
    → p + length b ≤ length xs
    → splice p a (splice p b xs) ≡ splice p a xs
splice-splice p a b xs e h =
    let same : p + length a ≡ p + (length b + 0) = omega (arith, e) in
    ap₂ (λ l r. l ++ (a ++ r)) (take-splice p b xs (omega arith))
      (ap (λ m. drop m (splice p b xs)) same
        ∙ drop-splice p 0 b xs h
        ∙ ap (λ m. drop m xs) (sym same))

-- A write behind another is one write of both.
pub splice-next :
    (p : ℕ) (a b xs : List ℕ)
    → p + length a + length b ≤ length xs
    → splice (p + length a) b (splice p a xs) ≡ splice p (a ++ b) xs
splice-next p a b xs h =
    let rest = drop (p + length a) xs in
    let ends : p + length a + length b ≡ p + (length a + length b) = omega arith in
    let both : p + (length a + length b) ≡ p + length (a ++ b) = omega (arith, length-append a b) in
    let front : take (p + length a) (splice p a xs) ≡ take p xs ++ a =
      take-append (p + length a) (length a) (take p xs) (a ++ rest)
        (omega (arith, length-take p xs))
      ∙ ap (λ l. take p xs ++ l) (take-append (length a) 0 a rest (omega arith) ∙ append-nil a) in
    let back : drop (p + length a + length b) (splice p a xs) ≡ drop (p + length (a ++ b)) xs =
      ap (λ m. drop m (splice p a xs)) ends
      ∙ drop-splice p (length b) a xs (omega arith)
      ∙ ap (λ m. drop m xs) both in
    ap₂ (λ l r. l ++ (b ++ r)) front back
    ∙ append_assoc (take p xs) a (b ++ drop (p + length (a ++ b)) xs)
    ∙ ap (λ l. take p xs ++ l) (sym (append_assoc a b (drop (p + length (a ++ b)) xs)))

take-drop : (p : ℕ) (xs : List ℕ) → take p xs ++ drop p xs ≡ xs
take-drop zero xs = refl
take-drop (suc p) [] = refl
take-drop (suc p) (x ∷ xs) = ap (λ l. x ∷ l) (take-drop p xs)

pub splice-nil : (p : ℕ) (xs : List ℕ) → splice p [] xs ≡ xs
splice-nil p xs = ap (λ m. take p xs ++ drop m xs) (omega arith) ∙ take-drop p xs

-- A write into a block that the list holds, and the block put back.
pub splice-block :
    (p off b : ℕ) (new xs : List ℕ)
    → off + length new ≤ b
    → p + b ≤ length xs
    → splice p (splice off new (slice p b xs)) xs ≡ splice (p + off) new xs
splice-block p off b new xs h k =
    let ys = drop p xs in
    let m = off + length new in
    let block = slice p b xs in
    let size : length block ≡ b = omega (arith, length-take b ys, length-drop p xs) in
    let whole : p + length (splice off new block) ≡ p + b =
      ap (λ c. p + c) (length-splice off new block (omega arith) ∙ size) in
    let front : take p xs ++ take off block ≡ take (p + off) xs =
      ap (λ l. take p xs ++ l) (take-take off b ys (omega arith)) ∙ sym (take-add p off xs) in
    let tail : drop m block ++ drop (p + b) xs ≡ drop (p + off + length new) xs =
      ap₂ (λ l r. l ++ r) (drop-take m b ys)
        (drop-add p b xs ∙ ap (λ c. drop c ys) (omega arith) ∙ drop-add m (b - m) ys)
      ∙ take-drop (b - m) (drop m ys)
      ∙ sym (drop-add p m xs)
      ∙ ap (λ c. drop c xs) (omega arith) in
    ap (λ c. take p xs ++ (splice off new block ++ drop c xs)) whole
    ∙ ap (λ l. take p xs ++ l)
        (append_assoc (take off block) (new ++ drop m block) (drop (p + b) xs)
          ∙ ap (λ l. take off block ++ l) (append_assoc new (drop m block) (drop (p + b) xs)))
    ∙ sym (append_assoc (take p xs) (take off block) (new ++ (drop m block ++ drop (p + b) xs)))
    ∙ ap₂ (λ l r. l ++ (new ++ r)) front tail
