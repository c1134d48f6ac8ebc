-- ===== src/Uart/Transfer.antt =====
-- What uart_read, uart_write and uart_isr of src/kern/uart.c do to the queues of bytes.
use operating_systems_final.Prelude.{
  ℕ, zero, suc, ◌≤◌, ◌<◌, ◌≡◌, refl, sym, ap, ◌∙◌, ◌⊎◌, inl, inr, true, false, none, some, List, [],
  ◌∷◌, ◌++◌, arith, ltb, ◌==◌, if◌then◌else◌, Bool-cases, take, drop,
}
use Prim.Native.Nat.{bit_or}
use mathlib.Core.List.{append-nil, append_assoc}
use operating_systems_final.Uart.{
  RingBuf, rbuf_empty, rbuf_full, rbuf_put, rbuf_get, UartDevice, drain, fill, uart_read, uart_isr,
  isr_receive, isr_transmit, has_bit, lsr_dr, lsr_thre, long_max, IsrEffect, ier_dreie, isr_overrun,
  quiet,
}
use operating_systems_final.Uart.Ring.{
  IsValid, contents, rbuf_get-cons, rbuf_put-append, contents_of_empty,
}

take-nil : (n : ℕ) → take {A = ℕ} n [] ≡ []
take-nil zero = refl
take-nil (suc n) = refl

drop-nil : (n : ℕ) → drop {A = ℕ} n [] ≡ []
drop-nil zero = refl
drop-nil (suc n) = refl

-- A loop of `rbuf_get` splits the contents in two.
pub record Drained (n : ℕ) (r : RingBuf) (out : List ℕ × RingBuf) : Type 0 where
  pub valid : IsValid out.1
  pub taken : out.0 ≡ take n (contents r)
  pub left : contents out.1 ≡ drop n (contents r)

drain-Drained : (n : ℕ) (r : RingBuf) → IsValid r → Drained n r (drain n r)
unfolding drain
drain-Drained zero r v = record { valid = v; taken = refl; left = refl }
drain-Drained (suc n) r v = elim (Bool-cases (rbuf_empty r)) [
  | inl e ↦
      let gone : contents r ≡ [] = contents_of_empty r v e in
      rw e (record { valid = v; taken = rw gone; left = gone ∙ rw gone })
  | inr e ↦
      let (v', split) = rbuf_get-cons r v e in
      let ih = drain-Drained n (rbuf_get r).1 v' in
      rw e (record { valid = ih.valid; taken = rw (split, ih.taken); left = rw split ih.left })
]

-- The device after `uart_read` has taken up to `n` bytes.
abbrev read_done : UartDevice → ℕ → UartDevice
read_done d n = record d { rxbuf = (drain n d.rxbuf).1; ier = bit_or d.ier ier_dreie }

-- `uart_read` asleep on an empty buffer, or: it returns the oldest bytes of the receive buffer, as
-- many as there are up to the size asked for, and leaves the others.
pub uart_read-take :
    (d : UartDevice) (bufsz : ℕ)
    → IsValid d.rxbuf
    → 0 < bufsz
    → bufsz ≤ long_max
    → ((uart_read d bufsz ≡ none) × (contents d.rxbuf ≡ []))
      ⊎ ((out : List ℕ) × (d' : UartDevice) × (uart_read d bufsz ≡ some (out, d'))
          × (out ≡ take bufsz (contents d.rxbuf))
          × (contents d'.rxbuf ≡ drop bufsz (contents d.rxbuf))
          × IsValid d'.rxbuf)
unfolding uart_read
uart_read-take d bufsz v some_room small =
    let asked : ltb long_max bufsz ≡ false = ground arith in
    let wanted : (bufsz == 0) ≡ false = ground arith in
    elim (Bool-cases (rbuf_empty d.rxbuf)) [
      | inl e ↦ inl (rw (asked, wanted, e) refl, contents_of_empty d.rxbuf v e)
      | inr e ↦
          let done = drain-Drained bufsz d.rxbuf v in
          inr (
            (drain bufsz d.rxbuf).0,
            read_done d bufsz,
            rw (asked, wanted, e) refl,
            done.taken,
            done.left,
            done.valid,
          )
    ]

-- What `fill` leaves over stands behind what it put in; it stops early only at a full buffer.
pub record Filled (cs : List ℕ) (r : RingBuf) (out : List ℕ × RingBuf) : Type 0 where
  pub valid : IsValid out.1
  pub kept : contents out.1 ++ out.0 ≡ contents r ++ cs
  pub stopped : (out.0 ≡ []) ⊎ (rbuf_full out.1 ≡ true)

pub fill-Filled : (cs : List ℕ) (r : RingBuf) → IsValid r → Filled cs r (fill cs r)
unfolding fill
fill-Filled [] r v = record { valid = v; kept = refl; stopped = inl refl }
fill-Filled (c ∷ cs) r v = elim (Bool-cases (rbuf_full r)) [
  | inl e ↦ rw e (record { valid = v; kept = refl; stopped = inr e })
  | inr e ↦
      let (v', longer) = rbuf_put-append r c v e in
      let ih = fill-Filled cs (rbuf_put r c) v' in
      rw e (record {
        valid = ih.valid;
        kept = ih.kept ∙ ap (λ l. l ++ cs) longer ∙ append_assoc (contents r) (c ∷ []) cs;
        stopped = ih.stopped;
      })
]

abbrev pub sent_bytes : IsrEffect → List ℕ
sent_bytes e = elim e.sent [ none ↦ [] | some c ↦ c ∷ [] ]

-- The byte that `uart_isr` takes from the line: none where the receive buffer is full.
abbrev pub received : ℕ → ℕ → UartDevice → List ℕ
received lsr rbr d = if has_bit lsr lsr_dr then (if rbuf_full d.rxbuf then [] else rbr ∷ []) else []

-- The byte that `uart_isr` sends: the oldest of the queue, where there is one and the line is free.
abbrev pub due : ℕ → List ℕ → List ℕ
due lsr q = if has_bit lsr lsr_thre then take 1 q else []

pub record Served (lsr rbr : ℕ) (d : UartDevice) (out : UartDevice × IsrEffect) : Type 0 where
  pub rx_valid : IsValid out.0.rxbuf
  pub tx_valid : IsValid out.0.txbuf
  pub rx : contents out.0.rxbuf ≡ contents d.rxbuf ++ received lsr rbr d
  pub sent : sent_bytes out.1 ≡ due lsr (contents d.txbuf)
  pub tx : contents d.txbuf ≡ sent_bytes out.1 ++ contents out.0.txbuf

received_lem :
    (lsr rbr : ℕ) (d : UartDevice) (e : IsrEffect)
    → IsValid d.rxbuf
    → IsValid (isr_receive lsr rbr (d, e)).0.rxbuf
      × (contents (isr_receive lsr rbr (d, e)).0.rxbuf ≡ contents d.rxbuf ++ received lsr rbr d)
      × ((isr_receive lsr rbr (d, e)).0.txbuf ≡ d.txbuf)
      × ((isr_receive lsr rbr (d, e)).1.sent ≡ e.sent)
unfolding isr_receive
received_lem lsr rbr d e v = elim (Bool-cases (has_bit lsr lsr_dr)) [
  | inr h ↦ rw h (v, sym (append-nil (contents d.rxbuf)), refl, refl)
  | inl h ↦ elim (Bool-cases (rbuf_full d.rxbuf)) [
    | inl f ↦ rw (h, f) (v, sym (append-nil (contents d.rxbuf)), refl, refl)
    | inr f ↦
        let (v', more) = rbuf_put-append d.rxbuf rbr v f in
        elim (Bool-cases (rbuf_empty d.rxbuf)) [
          | inl n ↦ rw (h, f, n) (v', more, refl, refl)
          | inr n ↦ rw (h, f, n) (v', more, refl, refl)
        ]
  ]
]

transmitted_lem :
    (lsr : ℕ) (d : UartDevice) (e : IsrEffect)
    → IsValid d.txbuf
    → e.sent ≡ none
    → IsValid (isr_transmit lsr (d, e)).0.txbuf
      × (contents d.txbuf
          ≡ sent_bytes (isr_transmit lsr (d, e)).1 ++ contents (isr_transmit lsr (d, e)).0.txbuf)
      × ((isr_transmit lsr (d, e)).0.rxbuf ≡ d.rxbuf)
      × (sent_bytes (isr_transmit lsr (d, e)).1 ≡ due lsr (contents d.txbuf))
unfolding isr_transmit
transmitted_lem lsr d e v idle = elim (Bool-cases (has_bit lsr lsr_thre)) [
  | inr h ↦ rw (h, idle) (v, refl, refl, refl)
  | inl h ↦ elim (Bool-cases (rbuf_empty d.txbuf)) [
    | inl n ↦
        let nothing : contents d.txbuf ≡ [] = contents_of_empty d.txbuf v n in
        rw (h, n, idle) (v, refl, refl, sym (ap (take 1) nothing))
    | inr n ↦
        let (v', split) = rbuf_get-cons d.txbuf v n in
        rw (h, n) (v', split, refl, sym (ap (take 1) split))
  ]
]

overrun_lem :
    (lsr : ℕ) (d : UartDevice)
    → ((isr_overrun lsr d).rxbuf ≡ d.rxbuf) × ((isr_overrun lsr d).txbuf ≡ d.txbuf)
unfolding isr_overrun
overrun_lem lsr d = ground arith

-- An interrupt appends the received byte to the receive queue unless that is full, moves the oldest
-- byte of the transmit queue, if any, to the line when the line is free, sends no other byte, and
-- loses nothing else.
pub uart_isr-Served :
    (lsr rbr : ℕ) (d : UartDevice)
    → IsValid d.rxbuf
    → IsValid d.txbuf
    → Served lsr rbr d (uart_isr lsr rbr d)
unfolding uart_isr
uart_isr-Served lsr rbr d vr vt =
    let o = isr_overrun lsr d in
    let same = overrun_lem lsr d in
    let p = isr_receive lsr rbr (o, quiet) in
    let (rv, rx, tx_same, idle) = received_lem lsr rbr o quiet (rw same.0 vr) in
    let (tv, tx, rx_same, now) = transmitted_lem lsr p.0 p.1 (rw (tx_same, same.1) vt) idle in
    record {
      rx_valid = rw rx_same rv;
      tx_valid = tv;
      rx = rw (rx_same, rx, same.0) refl;
      sent = now ∙ ap (λ q. due lsr (contents q)) (tx_same ∙ same.1);
      tx = ap contents (sym (tx_same ∙ same.1)) ∙ tx;
    }
