-- ===== src/Intr.antt =====
-- The interrupts of src/kern/intr.c: the table of handlers and the dispatch, over the interrupt
-- controller of Plic. A handler, with its `aux` argument, is a function on the rest of the kernel,
-- of a type `S`; `none` is a panic, or the use of an entry that the table does not have.
pub mod Dispatch
use operating_systems_final.Prelude.{
  ℕ, zero, suc, Bool, true, Option, none, some, leb, ◌==◌, if◌then◌else◌, ℤ, pos, negsuc,
}
use operating_systems_final.Plic.{
  Regs, plic_init, plic_enable_irq, plic_disable_irq, plic_claim_irq, plic_close_irq,
}

abbrev pub nirq : ℕ
nirq = 32

-- An entry of `isrtab`.
pub record Isr (S : Type 0) : Type 0 where
  pub isr : Option (ℕ → S → S)
  pub prio : ℤ

pub record Intr (S : Type 0) : Type 0 where
  pub isrtab : ℕ → Isr S
  pub regs : Regs
  pub sip : ℕ
  pub sie : ℕ
  pub intr_initialized : Bool
  pub kernel : S

-- RISCV_SIE_SEIE
abbrev pub seie : ℕ
seie = 512

-- `if (prio <= 0) prio = 1;`
unfoldable pub at_least_one : ℤ → ℤ
at_least_one (pos zero) = pos 1
at_least_one (pos (suc n)) = pos (suc n)
at_least_one (negsuc n) = pos 1

module _ {S : Type 0} where
  unfoldable pub intr_init : Intr S → Intr S
  intr_init s = record s { regs = plic_init s.regs; sip = 0; sie = seie; intr_initialized = true }

  unfoldable pub intr_register_isr : ℤ → ℤ → (ℕ → S → S) → Intr S → Option (Intr S)
  intr_register_isr (negsuc n) prio isr s = none
  intr_register_isr (pos n) prio isr s =
      let entry : Isr S = record { isr = some isr; prio = at_least_one prio } in
      if leb nirq n
      then none
      else some (record s { isrtab = λ k. if k == n then entry else s.isrtab k })

  unfoldable pub intr_enable_irq : ℤ → Intr S → Option (Intr S)
  intr_enable_irq (negsuc n) s = none
  intr_enable_irq (pos n) s = if leb nirq n then none else (elim (s.isrtab n).isr [
    | none ↦ none
    | some f ↦ some (record s { regs = plic_enable_irq (pos n) (s.isrtab n).prio s.regs })
  ])

  unfoldable pub intr_disable_irq : ℤ → Intr S → Intr S
  intr_disable_irq irqno s = record s { regs = plic_disable_irq irqno s.regs }

  -- A number of 2 ^ 31 or more, which is negative as an `int`, is refused as those above NIRQ are.
  unfoldable pub extern_intr_handler : Intr S → Option (Intr S)
  extern_intr_handler s =
      let irqno = plic_claim_irq s.regs in
      if leb nirq irqno then none else if irqno == 0 then some s else (elim (s.isrtab irqno).isr [
        | none ↦ none
        | some f ↦ some (record s { regs = plic_close_irq irqno s.regs; kernel = f irqno s.kernel })
      ])

  -- The two calls into other parts of the kernel, on whole states.
  module _ (timer_intr_handler thread_yield : Intr S → Option (Intr S)) where
    unfoldable pub dispatch : ℕ → Intr S → Option (Intr S)
    dispatch code s =
        if code == 9
        then extern_intr_handler s
        else if code == 5
        then timer_intr_handler s
        else none

    -- `spp` is the bit SPP of the saved `sstatus`: the interrupt did not come from user mode.
    unfoldable pub intr_handler : ℕ → Bool → Intr S → Option (Intr S)
    intr_handler code spp s = elim (dispatch code s) [
      | none ↦ none
      | some s' ↦ if spp then some s' else thread_yield s'
    ]
