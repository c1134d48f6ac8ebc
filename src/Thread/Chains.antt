-- ===== src/Thread/Chains.antt =====
-- The thread lists of src/kern/thread.c as lists of threads: what it means that the links of a list
-- hold them, and how links elsewhere leave them alone.
use mathlib.Core.Path.{subst}
use operating_systems_final.Prelude.{
  ℕ, ◌≡◌, refl, sym, ap, ◌∙◌, ◌≢◌, true, false, Option, none, some, List, [], ◌∷◌, ◌++◌, arith,
  ◌==◌, All,
}
use operating_systems_final.Thread.{Next, ThreadList, link}

-- The threads from `h` on, along the links.
abbrev pub IsChain : Next → Option ℕ → List ℕ → Type 0
IsChain next h [] = h ≡ none
IsChain next h (x ∷ xs) = (h ≡ some x) × IsChain next (next x) xs

abbrev pub NotIn : ℕ → List ℕ → Type 0
NotIn t xs = All (λ x. x ≢ t) xs

abbrev pub IsDistinct : List ℕ → Type 0
IsDistinct [] = Unit
IsDistinct (x ∷ xs) = NotIn x xs × IsDistinct xs

abbrev pub Disjoint : List ℕ → List ℕ → Type 0
Disjoint xs ys = All (λ x. NotIn x ys) xs

abbrev pub last : List ℕ → Option ℕ
last [] = none
last (x ∷ []) = some x
last (x ∷ y ∷ xs) = last (y ∷ xs)

-- The list holds the threads `xs`, in this order.
pub record Holds (next : Next) (l : ThreadList) (xs : List ℕ) : Type 0 where
  pub chain : IsChain next l.head xs
  pub tail : l.tail ≡ last xs
  pub distinct : IsDistinct xs

-- The links of all threads but these are as they were.
abbrev pub Frame : Next → Next → List ℕ → Type 0
Frame next next' xs = (u : ℕ) → NotIn u xs → next' u ≡ next u

pub link_ne : (next : Next) (t x : ℕ) (v : Option ℕ) → x ≢ t → link next t v x ≡ next x
link_ne next t x v h = let e : (x == t) ≡ false = ground arith in rw e refl

pub link_self : (next : Next) (t : ℕ) (v : Option ℕ) → link next t v t ≡ v
link_self next t v = let e : (t == t) ≡ true = ground arith in rw e refl

-- Links of other threads do not matter.
pub IsChain-link :
    (next : Next) (t : ℕ) (v h : Option ℕ) (xs : List ℕ)
    → NotIn t xs
    → IsChain next h xs
    → IsChain (link next t v) h xs
IsChain-link next t v h [] away c = c
IsChain-link next t v h (x ∷ xs) away c = (
  c.0,
  subst (λ g. IsChain (link next t v) g xs) (sym (link_ne next t x v away.0))
      (IsChain-link next t v (next x) xs away.1 c.1),
)

last-NotIn : (x e : ℕ) (xs : List ℕ) → NotIn x xs → last xs ≡ some e → x ≢ e
last-NotIn x e [] away l = cc
last-NotIn x e (y ∷ []) away l = λ s. away.0 (cc)
last-NotIn x e (y ∷ z ∷ xs) away l = last-NotIn x e (z ∷ xs) away.1 l

pub IsChain-append :
    (next : Next) (h g : Option ℕ) (e : ℕ) (xs ys : List ℕ)
    → IsChain next h xs
    → IsChain next g ys
    → last xs ≡ some e
    → IsDistinct xs
    → NotIn e ys
    → IsChain (link next e g) h (xs ++ ys)
IsChain-append next h g e [] ys c k l d away = cc
IsChain-append next h g e (x ∷ []) ys c k l d away =
    let same : x ≡ e = cc in
    (
      c.0,
      subst (λ i. IsChain (link next e g) i ys) (sym (ap (link next e g) same ∙ link_self next e g))
          (IsChain-link next e g g ys away k),
    )
IsChain-append next h g e (x ∷ y ∷ xs) ys c k l d away = (
  c.0,
  subst (λ i. IsChain (link next e g) i (y ∷ xs ++ ys))
      (sym (link_ne next e x g (last-NotIn x e (y ∷ xs) d.0 l)))
      (IsChain-append next (next x) g e (y ∷ xs) ys c.1 k l d.1 away),
)

pub last-append : (xs : List ℕ) (y : ℕ) (ys : List ℕ) → last (xs ++ (y ∷ ys)) ≡ last (y ∷ ys)
last-append [] y ys = refl
last-append (x ∷ []) y ys = refl
last-append (x ∷ z ∷ xs) y ys = last-append (z ∷ xs) y ys

pub last-cons : (x : ℕ) (xs : List ℕ) → (e : ℕ) × (last (x ∷ xs) ≡ some e)
last-cons x [] = (x, refl)
last-cons x (y ∷ xs) = last-cons y xs

pub NotIn-append : (t : ℕ) (xs ys : List ℕ) → NotIn t xs → NotIn t ys → NotIn t (xs ++ ys)
NotIn-append t [] ys a b = b
NotIn-append t (x ∷ xs) ys a b = (a.0, NotIn-append t xs ys a.1 b)

pub IsDistinct-append :
    (xs ys : List ℕ) → IsDistinct xs → IsDistinct ys → Disjoint xs ys → IsDistinct (xs ++ ys)
IsDistinct-append [] ys a b c = b
IsDistinct-append (x ∷ xs) ys a b c =
    (NotIn-append x xs ys a.0 c.0, IsDistinct-append xs ys a.1 b c.1)

pub Disjoint-one : (t : ℕ) (xs : List ℕ) → NotIn t xs → Disjoint xs (t ∷ [])
Disjoint-one t [] a = tt
Disjoint-one t (x ∷ xs) a = ((λ e. a.0 (sym e), tt), Disjoint-one t xs a.1)

pub Disjoint-last : (e : ℕ) (xs ys : List ℕ) → last xs ≡ some e → Disjoint xs ys → NotIn e ys
Disjoint-last e [] ys l d = cc
Disjoint-last e (x ∷ []) ys l d = let s : x ≡ e = cc in subst (λ i. NotIn i ys) s d.0
Disjoint-last e (x ∷ y ∷ xs) ys l d = Disjoint-last e (y ∷ xs) ys l d.1

pub last-NotIn_append : (u e : ℕ) (xs ys : List ℕ) → last xs ≡ some e → NotIn u (xs ++ ys) → u ≢ e
last-NotIn_append u e [] ys l a = cc
last-NotIn_append u e (x ∷ []) ys l a = λ s. a.0 (cc)
last-NotIn_append u e (x ∷ y ∷ xs) ys l a = last-NotIn_append u e (y ∷ xs) ys l a.1

pub NotIn-right : (u : ℕ) (xs ys : List ℕ) → NotIn u (xs ++ ys) → NotIn u ys
NotIn-right u [] ys a = a
NotIn-right u (x ∷ xs) ys a = NotIn-right u xs ys a.1

-- A list whose threads keep their links holds what it held.
IsChain-frame :
    (next next' : Next) (h : Option ℕ) (xs : List ℕ)
    → All (λ u. next' u ≡ next u) xs
    → IsChain next h xs
    → IsChain next' h xs
IsChain-frame next next' h [] f c = c
IsChain-frame next next' h (x ∷ xs) f c =
    (c.0, subst (λ g. IsChain next' g xs) (sym f.0) (IsChain-frame next next' (next x) xs f.1 c.1))

pub Holds-frame :
    (next next' : Next) (l : ThreadList) (xs : List ℕ)
    → All (λ u. next' u ≡ next u) xs
    → Holds next l xs
    → Holds next' l xs
Holds-frame next next' l xs f h = record {
  chain = IsChain-frame next next' l.head xs f h.chain;
  tail = h.tail;
  distinct = h.distinct;
}
