-- ===== src/Plic/Start.antt =====
-- plic_init of src/kern/plic.c.
use mathlib.Core.Path.{ap₂}
use operating_systems_final.Prelude.{
  ℕ, zero, suc, ◌≤◌, ◌<◌, ◌≡◌, refl, sym, ap, ◌∙◌, inl, inr, Bool, true, false, ◌&&◌, ◌||◌, arith,
  ltb, ◌==◌, if◌then◌else◌, Bool-cases,
}
use operating_systems_final.Plic.{
  Regs, plic_srccnt, is_source, is_pair, plic_set_source_priority, init_loop, plic_init,
}
use operating_systems_final.Plic.Sources.{
  priority, enabled, plic_enable_source_for_context-enabled, plic_set_source_priority-priority,
  plic_set_source_priority-enabled, plic_enable_source_for_context-priority,
}

reached :
    (i s : ℕ)
    → ((is_source i && s == i) || (is_source s && ltb s i)) ≡ (is_source s && ltb s (suc i))
reached i s = elim (Bool-cases (s == i)) [
  | inl e ↦
      let same : s ≡ i = ground (arith, e) in
      let f : ltb s i ≡ false = ground (arith, same) in
      let g : ltb s (suc i) ≡ true = ground (arith, same) in
      elim (Bool-cases (is_source s)) [
        | inl a ↦
            let b : is_source i ≡ true = ap is_source (sym same) ∙ a in
            ap₂ (λ t u. (t && u) || (is_source s && ltb s i)) b e ∙ sym (ap₂ (λ t u. t && u) a g)
        | inr a ↦
            let b : is_source i ≡ false = ap is_source (sym same) ∙ a in
            ap (λ t. (t && s == i) || (is_source s && ltb s i)) b
            ∙ ap (λ t. t && ltb s i) a
            ∙ sym (ap (λ t. t && ltb s (suc i)) a)
      ]
  | inr e ↦
      let f : ltb s (suc i) ≡ ltb s i = earlier i s e in
      elim (Bool-cases (is_source i)) [
        | inl a ↦
            ap₂ (λ t u. (t && u) || (is_source s && ltb s i)) a e
            ∙ ap (λ t. is_source s && t) (sym f)
        | inr a ↦
            ap (λ t. (t && s == i) || (is_source s && ltb s i)) a
            ∙ ap (λ t. is_source s && t) (sym f)
      ]
]
  where
    earlier : (i s : ℕ) → (s == i) ≡ false → ltb s (suc i) ≡ ltb s i
    earlier i s e = elim (Bool-cases (ltb s i)) [
      | inl f ↦ let g : ltb s (suc i) ≡ true = ground (arith, f) in g ∙ sym f
      | inr f ↦ let g : ltb s (suc i) ≡ false = ground (arith, e, f) in g ∙ sym f
    ]

zeroed : (a b : Bool) (x : ℕ) → (if a then 0 else if b then 0 else x) ≡ (if a || b then 0 else x)
zeroed true b x = refl
zeroed false b x = refl

joined : (a c e b x : Bool) → ((a && (c && e)) || ((c && b) || x)) ≡ ((c && ((a && e) || b)) || x)
joined true true true b x = refl
joined true true false b x = refl
joined true false e b x = refl
joined false true e b x = refl
joined false false e b x = refl

init_loop-sources :
    (n c s : ℕ) (r : Regs)
    → n ≤ plic_srccnt
    → s < plic_srccnt
    → (priority (init_loop n r) s ≡ (if is_source s && ltb s n then 0 else priority r s))
      × (enabled (init_loop n r) c s ≡ ((c == 1 && (is_source s && ltb s n)) || enabled r c s))
unfolding init_loop
init_loop-sources zero c s r all small =
    let e : (is_source s && ltb s 0) ≡ false = elim (Bool-cases (is_source s)) [
      | inl a ↦ rw a (ground arith)
      | inr a ↦ rw a refl
    ] in
    let f : (c == 1 && (is_source s && ltb s 0)) ≡ false = elim (Bool-cases (c == 1)) [
      | inl a ↦ rw a e
      | inr a ↦ rw a refl
    ] in
    (rw e refl, rw f refl)
init_loop-sources (suc i) c s r all small =
    let (p, q) = init_loop-sources i c s r (omega arith) small in
    let r₁ = init_loop i r in
    let r₂ = plic_set_source_priority i 0 r₁ in
    (
      plic_enable_source_for_context-priority 1 i s r₂ small
          ∙ plic_set_source_priority-priority i 0 s r₁
          ∙ ap (λ t. if is_source i && s == i then 0 else t) p
          ∙ zeroed _ _ (priority r s)
          ∙ ap (λ t. if t then 0 else priority r s) (reached i s),
      plic_enable_source_for_context-enabled 1 i c s r₂ small
          ∙ ap (λ t. (is_pair 1 i && (c == 1 && s == i)) || t)
              (plic_set_source_priority-enabled i 0 c s r₁ ∙ q)
          ∙ joined (is_source i) (c == 1) (s == i) _ (enabled r c s)
          ∙ ap (λ t. (c == 1 && t) || enabled r c s) (reached i s),
    )

-- After `plic_init` every source has the priority 0, with which it never interrupts, and is enabled
-- for context 1; the enable bits of other contexts are as they were.
pub plic_init-sources :
    (c s : ℕ) (r : Regs)
    → 0 < s
    → s < plic_srccnt
    → (priority (plic_init r) s ≡ 0) × (enabled (plic_init r) c s ≡ (c == 1 || enabled r c s))
unfolding plic_init
plic_init-sources c s r positive small =
    let (p, q) = init_loop-sources plic_srccnt c s r (omega arith) small in
    let e : (is_source s && ltb s plic_srccnt) ≡ true = ground (arith, positive, small) in
    (
      p ∙ ap (λ t. if t then 0 else priority r s) e,
      q
          ∙ ap (λ t. (c == 1 && t) || enabled r c s) e
          ∙ elim (Bool-cases (c == 1)) [ inl a ↦ rw a refl | inr a ↦ rw a refl ],
    )
