-- ===== src/Uart.antt =====
-- The serial driver of src/kern/uart.c: the ring buffers and the functions that move bytes through
-- them. The device registers that a call reads (`lsr`, `rbr`) are its arguments, and what it writes
-- to `thr` is a result.
pub mod Ring
pub mod Transfer
use Prim.Native.Nat.{bit_and, bit_or}
use operating_systems_final.Prelude.{
  ℕ, zero, suc, ◌-◌, ◌%◌, ◌^◌, Bool, true, false, not, Option, none, some, List, [], ◌∷◌, ltb, ◌==◌,
  if◌then◌else◌, set, get_or, add16, sub16, add32,
}

-- SERIAL_RBUFSZ
abbrev pub rbuf_size : ℕ
rbuf_size = 64

-- LONG_MAX
abbrev pub long_max : ℕ
long_max = 2 ^ 63 - 1

-- `struct ringbuf`: the two positions are `uint16_t` and run on past the size.
pub record RingBuf : Type 0 where
  pub hpos : ℕ
  pub tpos : ℕ
  pub bytes : List ℕ

unfoldable pub rbuf_init : RingBuf → RingBuf
rbuf_init r = record r { hpos = 0; tpos = 0 }

unfoldable pub rbuf_empty : RingBuf → Bool
rbuf_empty r = r.hpos == r.tpos

unfoldable pub rbuf_full : RingBuf → Bool
rbuf_full r = sub16 r.tpos r.hpos == rbuf_size

unfoldable pub rbuf_put : RingBuf → ℕ → RingBuf
rbuf_put r c = record r { bytes = set r.bytes (r.tpos % rbuf_size) c; tpos = add16 r.tpos 1 }

unfoldable pub rbuf_get : RingBuf → ℕ × RingBuf
rbuf_get r = (get_or r.bytes (r.hpos % rbuf_size) 0, record r { hpos = add16 r.hpos 1 })

-- `struct uart_device`, with the interrupt enable register.
pub record UartDevice : Type 0 where
  pub ier : ℕ
  pub rxovrcnt : ℕ
  pub refcnt : ℕ
  pub rxbuf : RingBuf
  pub txbuf : RingBuf

-- The mask bits of the registers.
abbrev pub ier_dreie : ℕ
ier_dreie = 1

abbrev pub ier_threie : ℕ
ier_threie = 2

abbrev pub lsr_dr : ℕ
lsr_dr = 1

abbrev pub lsr_oe : ℕ
lsr_oe = 2

abbrev pub lsr_thre : ℕ
lsr_thre = 32

abbrev pub has_bit : ℕ → ℕ → Bool
has_bit w m = not (bit_and w m == 0)

-- `none` is -EBUSY.
unfoldable pub uart_open : UartDevice → Option UartDevice
unfolding rbuf_init
uart_open d =
    if not (d.refcnt == 0)
    then none
    else some (record d {
      rxbuf = rbuf_init d.rxbuf;
      txbuf = rbuf_init d.txbuf;
      ier = ier_dreie;
      refcnt = 1;
    })

unfoldable pub uart_close : UartDevice → UartDevice
uart_close d = record d { ier = 0 }

-- The loop that empties the receive buffer, with room for `n` more bytes.
unfoldable pub drain : ℕ → RingBuf → List ℕ × RingBuf
drain zero r = ([], r)
drain (suc n) r =
    let (c, r') = rbuf_get r in
    let rest = drain n r' in if rbuf_empty r then ([], r) else (c ∷ rest.0, rest.1)

-- `uart_read`; `none` is a call that sleeps on `rxbnotempty`.
unfoldable pub uart_read : UartDevice → ℕ → Option (List ℕ × UartDevice)
unfolding drain
uart_read d bufsz =
    let n = if ltb long_max bufsz then long_max else bufsz in
    let (out, r) = drain n d.rxbuf in
    if n == 0
    then some ([], d)
    else if rbuf_empty d.rxbuf
    then none
    else some (out, record d { rxbuf = r; ier = bit_or d.ier ier_dreie })

-- One round of `uart_write`'s inner loop: bytes go in until the buffer is full. The result is what
-- is left to write.
unfoldable pub fill : List ℕ → RingBuf → List ℕ × RingBuf
fill [] r = ([], r)
fill (c ∷ cs) r = let rest = fill cs (rbuf_put r c) in if rbuf_full r then (c ∷ cs, r) else rest

-- A round of `uart_write`'s outer loop; `none` is a call that sleeps on `txbnotfull`.
unfoldable pub write_round : List ℕ → UartDevice → Option (List ℕ × UartDevice)
unfolding fill
write_round cs d =
    let (rest, r) = fill cs d.txbuf in
    if rbuf_full d.txbuf
    then none
    else some (rest, record d { txbuf = r; ier = bit_or d.ier ier_threie })

-- What an interrupt did: the byte sent to `thr`, and the conditions broadcast.
pub record IsrEffect : Type 0 where
  pub sent : Option ℕ
  pub wake_readers : Bool
  pub wake_writers : Bool

abbrev pub quiet : IsrEffect
quiet = record { sent = none; wake_readers = false; wake_writers = false }

-- `ier &= ~bit` over the eight bits of the register.
abbrev pub clear_bit : ℕ → ℕ → ℕ
clear_bit w m = bit_and w (255 - m)

-- The receive part of `uart_isr`.
unfoldable pub isr_receive : ℕ → ℕ → UartDevice × IsrEffect → UartDevice × IsrEffect
isr_receive lsr rbr (d, e) =
    if has_bit lsr lsr_dr
    then (if not (rbuf_full d.rxbuf)
        then (
          record d { rxbuf = rbuf_put d.rxbuf rbr },
          if rbuf_empty d.rxbuf then record e { wake_readers = true } else e,
        )
        else (record d { ier = clear_bit d.ier ier_dreie }, e))
    else (d, e)

-- The transmit part of `uart_isr`.
unfoldable pub isr_transmit : ℕ → UartDevice × IsrEffect → UartDevice × IsrEffect
isr_transmit lsr (d, e) =
    let (c, r) = rbuf_get d.txbuf in
    if has_bit lsr lsr_thre
    then (if not (rbuf_empty d.txbuf)
        then (
          record d { txbuf = r },
          record { sent = some c; wake_readers = e.wake_readers; wake_writers = rbuf_full d.txbuf },
        )
        else (record d { ier = clear_bit d.ier ier_threie }, e))
    else (d, e)

-- The overrun counter is a `uint32_t`.
unfoldable pub isr_overrun : ℕ → UartDevice → UartDevice
isr_overrun lsr d = if has_bit lsr lsr_oe then record d { rxovrcnt = add32 d.rxovrcnt 1 } else d

unfoldable pub uart_isr : ℕ → ℕ → UartDevice → UartDevice × IsrEffect
uart_isr lsr rbr d = isr_transmit lsr (isr_receive lsr rbr (isr_overrun lsr d, quiet))
