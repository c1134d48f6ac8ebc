-- ===== src/Plic.antt =====
-- The interrupt controller of src/kern/plic.c. Its registers are the words at their addresses: what a
-- register reads is what the device put there or what was last written.
pub mod Bits
pub mod Sources
pub mod Start
use operating_systems_final.Prelude.{
  ℕ, zero, suc, ◌+◌, ◌-◌, ◌*◌, ◌/◌, ◌%◌, ◌^◌, Bool, false, not, ◌&&◌, ◌||◌, leb, ◌==◌,
  if◌then◌else◌, ℤ, pos, negsuc,
}

abbrev pub Regs : Type 0
Regs = ℕ → ℕ

abbrev pub plic_iobase : ℕ
plic_iobase = 201326592

abbrev pub plic_srccnt : ℕ
plic_srccnt = 1024

abbrev pub plic_ctxcnt : ℕ
plic_ctxcnt = 2

-- The bit `b` of a word.
unfoldable pub bit : ℕ → ℕ → Bool
bit w zero = w % 2 == 1
bit w (suc b) = bit (w / 2) b

-- `w | (1 << b)` and `w & ~(1 << b)`, digit by digit.
unfoldable pub with_bit : ℕ → ℕ → ℕ
with_bit w zero = if w % 2 == 1 then w else w + 1
with_bit w (suc b) = 2 * with_bit (w / 2) b + w % 2

unfoldable pub without_bit : ℕ → ℕ → ℕ
without_bit w zero = if w % 2 == 1 then w - 1 else w
without_bit w (suc b) = 2 * without_bit (w / 2) b + w % 2

unfoldable pub store_reg : ℕ → ℕ → Regs → Regs
store_reg addr v r a = if a == addr then v else r a

-- The addresses of a source's priority and pending bit, and of a context's enable bits, threshold and
-- claim register.
abbrev pub prio_addr : ℕ → ℕ
prio_addr srcno = plic_iobase + srcno * 4

abbrev pub pend_addr : ℕ → ℕ
pend_addr srcno = plic_iobase + 4096 + srcno / 32 * 4

abbrev pub enable_addr : ℕ → ℕ → ℕ
enable_addr ctxno srcno = plic_iobase + 8192 + ctxno * 128 + srcno / 32 * 4

abbrev pub threshold_addr : ℕ → ℕ
threshold_addr ctxno = plic_iobase + 2097152 + ctxno * 4096

abbrev pub claim_addr : ℕ → ℕ
claim_addr ctxno = plic_iobase + 2097156 + ctxno * 4096

-- The guards on a source, and on a context and a source.
abbrev pub is_source : ℕ → Bool
is_source srcno = not (leb plic_srccnt srcno || srcno == 0)

abbrev pub is_pair : ℕ → ℕ → Bool
is_pair ctxno srcno = not (leb plic_ctxcnt ctxno) && is_source srcno

unfoldable pub plic_set_source_priority : ℕ → ℕ → Regs → Regs
plic_set_source_priority srcno level r =
    if is_source srcno then store_reg (prio_addr srcno) level r else r

unfoldable pub plic_source_pending : ℕ → Regs → Bool
plic_source_pending srcno r =
    if is_source srcno then bit (r (pend_addr srcno)) (srcno % 32) else false

unfoldable pub plic_enable_source_for_context : ℕ → ℕ → Regs → Regs
plic_enable_source_for_context ctxno srcno r =
    let a = enable_addr ctxno srcno in
    if is_pair ctxno srcno then store_reg a (with_bit (r a) (srcno % 32)) r else r

unfoldable pub plic_disable_source_for_context : ℕ → ℕ → Regs → Regs
plic_disable_source_for_context ctxno srcno r =
    let a = enable_addr ctxno srcno in
    if is_pair ctxno srcno then store_reg a (without_bit (r a) (srcno % 32)) r else r

unfoldable pub plic_set_context_threshold : ℕ → ℕ → Regs → Regs
plic_set_context_threshold ctxno level r =
    if leb plic_ctxcnt ctxno then r else store_reg (threshold_addr ctxno) level r

unfoldable pub plic_claim_context_interrupt : ℕ → Regs → ℕ
plic_claim_context_interrupt ctxno r = if leb plic_ctxcnt ctxno then 0 else r (claim_addr ctxno)

unfoldable pub plic_complete_context_interrupt : ℕ → ℕ → Regs → Regs
plic_complete_context_interrupt ctxno srcno r =
    if is_pair ctxno srcno then store_reg (claim_addr ctxno) srcno r else r

-- An `int` as a `uint32_t`.
abbrev pub uint32 : ℤ → ℕ
uint32 (pos n) = n % 2 ^ 32
uint32 (negsuc n) = 2 ^ 32 - 1 - n % 2 ^ 32

-- The first `n` rounds of `plic_init`.
unfoldable pub init_loop : ℕ → Regs → Regs
init_loop zero r = r
init_loop (suc i) r =
    plic_enable_source_for_context 1 i (plic_set_source_priority i 0 (init_loop i r))

unfoldable pub plic_init : Regs → Regs
plic_init r = init_loop plic_srccnt r

unfoldable pub plic_enable_irq : ℤ → ℤ → Regs → Regs
plic_enable_irq irqno prio r = plic_set_source_priority (uint32 irqno) (uint32 prio) r

unfoldable pub plic_disable_irq : ℤ → Regs → Regs
plic_disable_irq (pos zero) r = r
plic_disable_irq (pos (suc n)) r = plic_set_source_priority (uint32 (pos (suc n))) 0 r
plic_disable_irq (negsuc n) r = r

unfoldable pub plic_claim_irq : Regs → ℕ
plic_claim_irq r = plic_claim_context_interrupt 1 r

unfoldable pub plic_close_irq : ℕ → Regs → Regs
plic_close_irq irqno r = plic_complete_context_interrupt 1 irqno r
