-- ===== src/Intr/Dispatch.antt =====
-- What registering and enabling an interrupt in src/kern/intr.c leads to.
use operating_systems_final.Prelude.{
  ℕ, ◌%◌, ◌^◌, ◌<◌, ◌≡◌, refl, ap, ◌∙◌, true, false, ◌&&◌, some, arith, leb, ◌==◌, if◌then◌else◌, ℤ,
  pos,
}
use operating_systems_final.Plic.{
  Regs, plic_srccnt, store_reg, is_source, is_pair, claim_addr, uint32, plic_set_source_priority,
  plic_enable_irq, plic_claim_irq, plic_close_irq, plic_complete_context_interrupt, plic_init,
}
use operating_systems_final.Plic.Sources.{
  priority, enabled, plic_set_source_priority-priority, plic_set_source_priority-enabled,
}
use operating_systems_final.Plic.Start.{plic_init-sources}
use operating_systems_final.Intr.{
  Isr, Intr, nirq, at_least_one, intr_init, intr_register_isr, intr_enable_irq, extern_intr_handler,
}

-- A source of the controller once `irqno` has been enabled with this priority behind `intr_init`.
pub record OnlyIrq (irqno : ℕ) (prio : ℤ) (r : Regs) (s : ℕ) : Type 0 where
  pub level : priority r s ≡ (if s == irqno then uint32 prio else 0)
  pub on : enabled r 1 s ≡ true

plic_enable_irq-OnlyIrq :
    (irqno s : ℕ) (prio : ℤ) (r : Regs)
    → 0 < irqno
    → irqno < nirq
    → 0 < s
    → s < plic_srccnt
    → OnlyIrq irqno prio (plic_enable_irq (pos irqno) prio (plic_init r)) s
unfolding plic_enable_irq
plic_enable_irq-OnlyIrq irqno s prio r positive small positive' small' =
    let (low, on) = plic_init-sources 1 s r positive' small' in
    let number : irqno % 2 ^ 32 ≡ irqno = omega arith in
    let source : is_source irqno ≡ true = ground (arith, positive, small) in
    let r₁ = plic_init r in
    record {
      level =
          ap (λ n. priority (plic_set_source_priority n (uint32 prio) r₁) s) number
          ∙ plic_set_source_priority-priority irqno (uint32 prio) s r₁
          ∙ ap (λ t. if t && s == irqno then uint32 prio else priority r₁ s) source
          ∙ ap (λ t. if s == irqno then uint32 prio else t) low;
      on =
          ap (λ n. enabled (plic_set_source_priority n (uint32 prio) r₁) 1 s) number
          ∙ plic_set_source_priority-enabled irqno (uint32 prio) 1 s r₁
          ∙ on;
    }

-- The state that registering a handler leaves.
abbrev with_isr : {S : Type 0} → ℕ → ℤ → (ℕ → S → S) → Intr S → Intr S
with_isr n prio f s = record s {
  isrtab = λ k. if k == n then record { isr = some f; prio = at_least_one prio } else s.isrtab k;
}

plic_close_irq-store :
    (n : ℕ) (r : Regs) → 0 < n → n < plic_srccnt → plic_close_irq n r ≡ store_reg (claim_addr 1) n r
unfolding plic_close_irq plic_complete_context_interrupt
plic_close_irq-store n r positive small =
    let pair : is_pair 1 n ≡ true = ground (arith, positive, small) in rw pair refl

module _ {S : Type 0} (n : ℕ) (small : n < nirq) where
  intr_register_isr-entry :
      (prio : ℤ) (f : ℕ → S → S) (s : Intr S)
      → intr_register_isr (pos n) prio f s ≡ some (with_isr n prio f s)
  unfolding intr_register_isr
  intr_register_isr-entry prio f s =
      let big : leb nirq n ≡ false = ground (arith, small) in rw big refl

  intr_enable_irq-entry :
      (e : Isr S) (f : ℕ → S → S) (s : Intr S)
      → s.isrtab n ≡ e
      → e.isr ≡ some f
      → intr_enable_irq (pos n) s ≡ some (record s { regs = plic_enable_irq (pos n) e.prio s.regs })
  unfolding intr_enable_irq
  intr_enable_irq-entry e f s here there =
      let big : leb nirq n ≡ false = ground (arith, small) in
      let handler = ap (λ t. t.isr) here ∙ there in
      rw (big, handler)
        (ap (λ t. some (record s { regs = plic_enable_irq (pos n) t.prio s.regs })) here)

  extern_intr_handler-entry :
      (f : ℕ → S → S) (s : Intr S)
      → 0 < n
      → plic_claim_irq s.regs ≡ n
      → (s.isrtab n).isr ≡ some f
      → extern_intr_handler s
        ≡ some (record s { regs = store_reg (claim_addr 1) n s.regs; kernel = f n s.kernel })
  unfolding extern_intr_handler
  extern_intr_handler-entry f s positive claimed handler =
      let c = plic_claim_irq s.regs in
      let big : leb nirq c ≡ false = ground (arith, small, claimed) in
      let not_none : (c == 0) ≡ false = ground (arith, positive, claimed) in
      let handler' : (s.isrtab c).isr ≡ some f = ap (λ k. (s.isrtab k).isr) claimed ∙ handler in
      let close = plic_close_irq-store n s.regs positive (omega (arith, small)) in
      rw (big, not_none, handler')
        (ap (λ k. some (record s { regs = plic_close_irq k s.regs; kernel = f k s.kernel })) claimed
          ∙ ap (λ t. some (record s { regs = t; kernel = f n s.kernel })) close)

-- After `intr_init`, a handler for an interrupt from 1 to 31 is registered and enabled with
-- success: the interrupt has the priority asked for, or 1 if that is less, each other source has
-- 0, with which it never interrupts, and all are enabled for context 1. When the claim register
-- names the interrupt, `extern_intr_handler` runs the handler once on the rest of the kernel and
-- writes the number back to the register.
pub extern_intr_handler-registered :
    {S : Type 0} (irqno s : ℕ) (prio : ℤ) (f : ℕ → S → S) (i : Intr S) (r : Regs)
    → 0 < irqno
    → irqno < nirq
    → 0 < s
    → s < plic_srccnt
    → plic_claim_irq r ≡ irqno
    → (i₁ i₂ : Intr S) × (intr_register_isr (pos irqno) prio f (intr_init i) ≡ some i₁)
      × (intr_enable_irq (pos irqno) i₁ ≡ some i₂)
      × OnlyIrq irqno (at_least_one prio) i₂.regs s
      × (i₂.kernel ≡ i.kernel)
      × (extern_intr_handler (record i₂ { regs = r })
          ≡ some (record i₂ { regs = store_reg (claim_addr 1) irqno r; kernel = f irqno i.kernel }))
unfolding intr_init
extern_intr_handler-registered {S} irqno s prio f i r positive small positive' small' claimed =
    let e : Isr S = record { isr = some f; prio = at_least_one prio } in
    let i₀ = intr_init i in
    let i₁ = with_isr irqno prio f i₀ in
    let self : (irqno == irqno) ≡ true = ground arith in
    let here : i₁.isrtab irqno ≡ e = rw self refl in
    let i₂ : Intr S = record i₁ {
      regs = plic_enable_irq (pos irqno) (at_least_one prio) i₁.regs;
    } in
    (
      i₁,
      i₂,
      intr_register_isr-entry irqno small prio f i₀,
      intr_enable_irq-entry irqno small e f i₁ here refl,
      plic_enable_irq-OnlyIrq irqno s (at_least_one prio) i.regs positive small positive' small',
      refl,
      extern_intr_handler-entry irqno small f (record i₂ { regs = r }) positive claimed
          (ap (λ t. t.isr) here),
    )
