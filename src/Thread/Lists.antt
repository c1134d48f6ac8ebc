-- ===== src/Thread/Lists.antt =====
-- The operations of the thread lists of src/kern/thread.c on the lists of threads that they hold:
-- they insert at the end, remove at the front and append.
use mathlib.Core.Path.{subst}
use mathlib.Core.List.{append-nil}
use operating_systems_final.Prelude.{
  ℕ, ◌≡◌, refl, sym, ap, ◌∙◌, ◌⊎◌, inl, inr, Option, none, some, List, [], ◌∷◌, ◌++◌,
}
use operating_systems_final.Thread.{
  Next, ThreadList, empty_list, link, tlinsert, unlink_first, tlremove, tlappend,
}
use operating_systems_final.Thread.Chains.{
  Holds, NotIn, Disjoint, Frame, IsChain-link, IsChain-append, link_ne, link_self, last-append,
  last-cons, IsDistinct-append, Disjoint-one, Disjoint-last, last-NotIn_append, NotIn-right,
}

-- A thread that is in no place of the list joins it at the end; no thread outside the list is
-- linked anew.
pub tlinsert-append :
    (next : Next) (l : ThreadList) (xs : List ℕ) (t : ℕ)
    → Holds next l xs
    → NotIn t xs
    → (l' : ThreadList) × (next' : Next) × (tlinsert t l next ≡ some (l', next'))
      × Holds next' l' (xs ++ (t ∷ []))
      × Frame next next' (xs ++ (t ∷ []))
unfolding tlinsert
tlinsert-append next l [] t h away = (
  record { head = some t; tail = some t },
  link next t none,
  rw (h.tail, h.chain) refl,
  record { chain = (refl, link_self next t none); tail = refl; distinct = (tt, tt) },
  λ u a. link_ne next t u none (λ e. a.0 (sym e)),
)
tlinsert-append next l (x ∷ xs) t h away =
    let (e, is_last) = last-cons x xs in
    let alone = Disjoint-one t (x ∷ xs) away in
    (
      record { head = some x; tail = some t },
      link (link next t none) e (some t),
      rw (h.tail ∙ is_last, h.chain.0) refl,
      record {
        chain =
            IsChain-append (link next t none) (some x) (some t) e (x ∷ xs) (t ∷ [])
              (IsChain-link next t none (some x) (x ∷ xs) away (refl, h.chain.1))
              (refl, link_self next t none) is_last h.distinct
              (Disjoint-last e (x ∷ xs) (t ∷ []) is_last alone);
        tail = sym (last-append (x ∷ xs) t []);
        distinct = IsDistinct-append (x ∷ xs) (t ∷ []) h.distinct (tt, tt) alone;
      },
      λ u a.
          link_ne (link next t none) e u (some t)
            (last-NotIn_append u e (x ∷ xs) (t ∷ []) is_last a)
          ∙ link_ne next t u none (λ s. (NotIn-right u (x ∷ xs) (t ∷ []) a).0 (sym s)),
    )

remove_none :
    (next : Next) (h e : Option ℕ)
    → h ≡ none
    → tlremove (record { head = h; tail = e }) next ≡ (none, record { head = h; tail = e }, next)
unfolding tlremove
remove_none next none e q = refl
remove_none next (some x) e q = cc

remove_some :
    (next : Next) (h e g : Option ℕ) (x : ℕ)
    → h ≡ some x
    → next x ≡ g
    → tlremove (record { head = h; tail = e }) next
      ≡ unlink_first x g (record { head = h; tail = e }) next
unfolding tlremove
remove_some next none e g x q f = cc
remove_some next (some y) e g x q f =
    let same : y ≡ x = cc in
    let l : ThreadList = record { head = some y; tail = e } in
    ap (λ z. unlink_first z (next z) l next) same ∙ ap (λ z. unlink_first x z l next) f

append_none :
    (next : Next) (h e g f : Option ℕ) (a b : ℕ)
    → h ≡ some a
    → e ≡ some b
    → g ≡ none
    → tlappend (record { head = h; tail = e }) (record { head = g; tail = f }) next
      ≡ some (record { head = h; tail = e }, empty_list, next)
unfolding tlappend
append_none next (some h) (some e) none f a b p q r = refl
append_none next none e g f a b p q r = cc
append_none next (some h) none g f a b p q r = cc
append_none next (some h) (some e) (some g) f a b p q r = cc

-- A removal from an empty list gives a null pointer and leaves the list; one from any other gives
-- its first thread, leaves the others in their order, and unlinks that thread and no other.
pub tlremove-cons :
    (next : Next) (l : ThreadList) (xs : List ℕ)
    → Holds next l xs
    → let (t, l', next') = tlremove l next in
      ((xs ≡ []) × (t ≡ none) × Holds next' l' [])
      ⊎ ((x : ℕ) × (rest : List ℕ) × (xs ≡ x ∷ rest)
          × (t ≡ some x)
          × (next' x ≡ none)
          × Holds next' l' rest
          × Frame next next' (x ∷ []))
unfolding unlink_first
tlremove-cons next l [] h =
    rw (remove_none next l.head l.tail h.chain)
      (inl (refl, refl, record { chain = h.chain; tail = h.tail; distinct = tt }))
tlremove-cons next l (x ∷ []) h = rw (remove_some next l.head l.tail none x h.chain.0 h.chain.1) (
    inr (
      x,
      [],
      refl,
      refl,
      link_self next x none,
      record { chain = refl; tail = refl; distinct = tt },
      λ u a. link_ne next x u none (λ s. a.0 (sym s)),
    ))
tlremove-cons next l (x ∷ y ∷ xs) h =
    let once = IsChain-link next x none (some y) (y ∷ xs) h.distinct.0 (refl, h.chain.1.1) in
    rw (remove_some next l.head l.tail (some y) x h.chain.0 h.chain.1.0) (
      inr (
        x,
        y ∷ xs,
        refl,
        refl,
        link_self (link next x none) x none,
        record {
          chain = IsChain-link (link next x none) x none (some y) (y ∷ xs) h.distinct.0 once;
          tail = h.tail;
          distinct = h.distinct.1;
        },
        λ u a.
            link_ne (link next x none) x u none (λ s. a.0 (sym s))
            ∙ link_ne next x u none (λ s. a.0 (sym s)),
      ))

-- Appending a list to one that shares no thread with it gives the threads of the two in order, and
-- leaves the second list empty; no thread outside the first list is linked anew.
pub tlappend-append :
    (next : Next) (l₀ l₁ : ThreadList) (xs ys : List ℕ)
    → Holds next l₀ xs
    → Holds next l₁ ys
    → Disjoint xs ys
    → (l : ThreadList) × (l' : ThreadList) × (next' : Next) × (tlappend l₀ l₁ next
        ≡ some (l, l', next'))
      × Holds next' l (xs ++ ys)
      × Holds next' l' []
      × Frame next next' xs
unfolding tlappend
tlappend-append next l₀ l₁ [] ys h k d = (
  l₁,
  empty_list,
  next,
  rw (h.chain, h.tail) refl,
  record { chain = k.chain; tail = k.tail; distinct = k.distinct },
  record { chain = refl; tail = refl; distinct = tt },
  λ u a. refl,
)
tlappend-append next l₀ l₁ (x ∷ xs) [] h k d =
    let (e, is_last) = last-cons x xs in
    let same = sym (append-nil (x ∷ xs)) in
    (
      l₀,
      empty_list,
      next,
      append_none next l₀.head l₀.tail l₁.head l₁.tail x e h.chain.0 (h.tail ∙ is_last) k.chain,
      subst (Holds next l₀) same h,
      record { chain = refl; tail = refl; distinct = tt },
      λ u a. refl,
    )
tlappend-append next l₀ l₁ (x ∷ xs) (y ∷ ys) h k d =
    let (e, is_last) = last-cons x xs in
    let (f, ends) = last-cons y ys in
    (
      record { head = some x; tail = some f },
      empty_list,
      link next e (some y),
      rw (h.chain.0, h.tail ∙ is_last, k.chain.0, k.tail ∙ ends) refl,
      record {
        chain =
            IsChain-append next (some x) (some y) e (x ∷ xs) (y ∷ ys) (refl, h.chain.1)
              (refl, k.chain.1) is_last h.distinct (Disjoint-last e (x ∷ xs) (y ∷ ys) is_last d);
        tail = sym (last-append (x ∷ xs) y ys ∙ ends);
        distinct = IsDistinct-append (x ∷ xs) (y ∷ ys) h.distinct k.distinct d;
      },
      record { chain = refl; tail = refl; distinct = tt },
      λ u a. link_ne next e u (some y) (
          last-NotIn_append u e (x ∷ xs) [] is_last
            (subst (NotIn u) (sym (append-nil (x ∷ xs))) a)),
    )
