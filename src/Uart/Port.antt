-- ===== src/Uart/Port.antt =====
-- src/kern/uart.c: the driver's calls on the queues of its ring buffers.
use illinux.Prelude.{
  ℕ, zero, suc, ◌+◌, ◌%◌, ◌^◌, ◌≡◌, refl, sym, ap, ◌∙◌, Bool, true, false, List, [], ◌∷◌, ◌++◌,
  if◌then◌else◌, arith, length, min, Bool-cases, inl, inr, append_assoc,
}
use illinux.Uart.{
  Ringbuf, Uart, Lsr, fill, rbuf_empty, rbuf_full, rbuf_put, rbuf_get, drain, fill_from,
  uart_write_round, isr_receive, isr_transmit, uart_isr,
}
use illinux.Uart.Queue.{
  IsValid, contents, empty_iff, length-window, rbuf_put-contents, rbuf_get-contents,
}

pub length-contents : (r : Ringbuf) → length (contents r) ≡ fill r
length-contents r = length-window r.data_ r.hpos (fill r)

drain_empty : (k : ℕ) (r : Ringbuf) → rbuf_empty r ≡ true → drain (suc k) r ≡ (r, [])
unfolding drain
drain_empty k r e = rw (drain, e) refl

drain_step :
    (k : ℕ) (r : Ringbuf)
    → rbuf_empty r ≡ false
    → drain (suc k) r ≡ ((drain k (rbuf_get r).0).0, (rbuf_get r).1 ∷ (drain k (rbuf_get r).0).1)
unfolding drain
drain_step k r e = rw (drain, e) refl

-- The bytes that are drained are the first of the queue.
pub drain_lem :
    (k : ℕ) (r : Ringbuf)
    → IsValid r
    → let (r', cs) = drain k r in
      IsValid r' × (contents r ≡ cs ++ contents r') × (length cs ≡ min k (fill r))
unfolding drain
drain_lem zero r v = (v, refl, omega arith)
drain_lem (suc k) r v = elim (Bool-cases (rbuf_empty r)) [
  | inl empty ↦
      let none_in = (empty_iff r v).0 empty in
      rw (drain_empty k r empty) (v, refl, omega (arith, none_in))
  | inr some_in ↦
      let (v', got) = rbuf_get-contents r v some_in in
      let (v'', rest, len) = drain_lem k (rbuf_get r).0 v' in
      let shrunk : fill r ≡ suc (fill (rbuf_get r).0) =
        sym (length-contents r) ∙ ap length got ∙ ap suc (length-contents (rbuf_get r).0) in
      rw (drain_step k r some_in)
        (v'', got ∙ ap (λ l. (rbuf_get r).1 ∷ l) rest, omega (arith, len, shrunk))
]

fill_full :
    (c : ℕ) (cs : List ℕ) (r : Ringbuf) → rbuf_full r ≡ true → fill_from (c ∷ cs) r ≡ (c ∷ cs, r)
unfolding fill_from
fill_full c cs r e = rw (fill_from, e) refl

fill_step :
    (c : ℕ) (cs : List ℕ) (r : Ringbuf)
    → rbuf_full r ≡ false
    → fill_from (c ∷ cs) r ≡ fill_from cs (rbuf_put r c)
unfolding fill_from
fill_step c cs r e = rw (fill_from, e) refl

fill_from_lem :
    (cs : List ℕ) (r : Ringbuf)
    → IsValid r
    → let (rest, r') = fill_from cs r in IsValid r' × (contents r' ++ rest ≡ contents r ++ cs)
unfolding fill_from
fill_from_lem [] r v = (v, refl)
fill_from_lem (c ∷ cs) r v = elim (Bool-cases (rbuf_full r)) [
  | inl full ↦ rw (fill_full c cs r full) (v, refl)
  | inr room ↦
      let (v', put) = rbuf_put-contents r c v room in
      let (v'', kept) = fill_from_lem cs (rbuf_put r c) v' in
      rw (fill_step c cs r room)
        (v'', kept ∙ ap (λ l. l ++ cs) put ∙ append_assoc (contents r) (c ∷ []) cs)
]

-- One round of `uart_write` on a valid transmit buffer loses no byte and keeps their order: the queue
-- afterwards, followed by the bytes left for the next round, is the queue before, followed by the
-- bytes given; the buffer stays valid and the transmit interrupt is enabled.
pub uart_write_round-contents :
    (cs : List ℕ) (d : Uart)
    → IsValid d.txbuf
    → let (d', rest) = uart_write_round cs d in
      IsValid d'.txbuf × (contents d'.txbuf ++ rest ≡ contents d.txbuf ++ cs) × (d'.threie ≡ true)
unfolding uart_write_round
uart_write_round-contents cs d v = let (v', kept) = fill_from_lem cs d.txbuf v in (v', kept, refl)

-- Both buffers are valid.
pub record IsPort (d : Uart) : Type 0 where
  pub rx : IsValid d.rxbuf
  pub tx : IsValid d.txbuf

isr_receive-IsPort : (rbr : ℕ) (d : Uart) → IsPort d → IsPort (isr_receive rbr d)
unfolding isr_receive
isr_receive-IsPort rbr d p = elim (Bool-cases (rbuf_full d.rxbuf)) [
  | inl full ↦ rw (isr_receive, full) (record { rx = p.rx; tx = p.tx })
  | inr room ↦
      rw (isr_receive, room)
        (record { rx = (rbuf_put-contents d.rxbuf rbr p.rx room).0; tx = p.tx })
]

isr_transmit-IsPort : (d : Uart) → IsPort d → IsPort (isr_transmit d)
unfolding isr_transmit
isr_transmit-IsPort d p = elim (Bool-cases (rbuf_empty d.txbuf)) [
  | inl empty ↦ rw (isr_transmit, empty) (record { rx = p.rx; tx = p.tx })
  | inr some_in ↦
      rw (isr_transmit, some_in)
        (record { rx = p.rx; tx = (rbuf_get-contents d.txbuf p.tx some_in).0 })
]

if-IsPort : (b : Bool) (x y : Uart) → IsPort x → IsPort y → IsPort (if b then x else y)
if-IsPort true x y px py = px
if-IsPort false x y px py = py

-- The interrupt handler keeps both buffers valid, whatever the line status and the received byte are.
pub uart_isr-IsPort : (lsr : Lsr) (rbr : ℕ) (d : Uart) → IsPort d → IsPort (uart_isr lsr rbr d)
unfolding uart_isr
uart_isr-IsPort lsr rbr d p =
    let d₁ : Uart = if lsr.oe then record d { rxovrcnt = (d.rxovrcnt + 1) % 2 ^ 32 } else d in
    let d₂ : Uart = if lsr.dr then isr_receive rbr d₁ else d₁ in
    let p₁ : IsPort d₁ = if-IsPort lsr.oe _ d (record { rx = p.rx; tx = p.tx }) p in
    let p₂ : IsPort d₂ =
      if-IsPort lsr.dr (isr_receive rbr d₁) d₁ (isr_receive-IsPort rbr d₁ p₁) p₁ in
    if-IsPort lsr.thre (isr_transmit d₂) d₂ (isr_transmit-IsPort d₂ p₂) p₂
