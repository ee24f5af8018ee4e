-- ===== src/Uart.antt =====
-- src/kern/uart.c: the ring buffers of a serial port, its interrupt handler and its I/O calls.
pub mod Queue
pub mod Port
pub mod Reads
use illinux.Prelude.{
  ℕ, zero, suc, ◌+◌, ◌-◌, ◌%◌, ◌^◌, ◌≤◌, Bool, true, false, List, [], ◌∷◌, ◌==◌, if◌then◌else◌, not,
  Option, none, some, ltb,
}
use illinux.Errno.{Result, ok, err, ebusy}
use illinux.Mem.{Mem, store}

abbrev pub rbufsz : ℕ
rbufsz = 64

-- `struct ringbuf`: two free-running uint16_t.
pub record Ringbuf : Type 0 where
  pub hpos : ℕ
  pub tpos : ℕ
  pub data_ : Mem

unfoldable pub rbuf_init : Ringbuf → Ringbuf
rbuf_init r = record r { hpos = 0; tpos = 0 }

unfoldable pub rbuf_empty : Ringbuf → Bool
rbuf_empty r = r.hpos == r.tpos

-- `(uint16_t)(tpos - hpos)`
abbrev pub fill : Ringbuf → ℕ
fill r = (r.tpos + 2 ^ 16 - r.hpos) % 2 ^ 16

unfoldable pub rbuf_full : Ringbuf → Bool
rbuf_full r = fill r == rbufsz

unfoldable pub rbuf_put : Ringbuf → ℕ → Ringbuf
rbuf_put r c = record r { data_ = store r.data_ (r.tpos % rbufsz) c; tpos = (r.tpos + 1) % 2 ^ 16 }

unfoldable pub rbuf_get : Ringbuf → Ringbuf × ℕ
rbuf_get r = (record r { hpos = (r.hpos + 1) % 2 ^ 16 }, r.data_ (r.hpos % rbufsz))

-- `struct uart_device`, with the two bits of its interrupt enable register. `sent` lists what was
-- stored in THR, the latest byte first; `rx_woken` and `tx_woken` count the broadcasts of
-- `rxbnotempty` and `txbnotfull`.
pub record Uart : Type 0 where
  pub dreie : Bool
  pub threie : Bool
  pub rxovrcnt : ℕ
  pub refcnt : ℕ
  pub rxbuf : Ringbuf
  pub txbuf : Ringbuf
  pub sent : List ℕ
  pub rx_woken : ℕ
  pub tx_woken : ℕ

-- The bits OE, DR and THRE of the line status register.
pub record Lsr : Type 0 where
  pub oe : Bool
  pub dr : Bool
  pub thre : Bool

unfoldable pub uart_open : Uart → Uart × Result ℕ
unfolding rbuf_init
uart_open d =
    if d.refcnt == 0
    then (
      record d {
        rxbuf = rbuf_init d.rxbuf;
        txbuf = rbuf_init d.txbuf;
        dreie = true;
        threie = false;
        refcnt = 1;
      },
      ok 0,
    )
    else (d, err ebusy)

unfoldable pub uart_close : Uart → Uart
uart_close d = record d { dreie = false; threie = false }

-- The receiving part of `uart_isr`: `rbr` is the byte that the receive buffer register holds.
isr_receive : ℕ → Uart → Uart
isr_receive rbr d =
    if not (rbuf_full d.rxbuf)
    then record d {
      rx_woken = if rbuf_empty d.rxbuf then d.rx_woken + 1 else d.rx_woken;
      rxbuf = rbuf_put d.rxbuf rbr;
    }
    else record d { dreie = false }

isr_transmit : Uart → Uart
isr_transmit d =
    if not (rbuf_empty d.txbuf)
    then record d {
      tx_woken = if rbuf_full d.txbuf then d.tx_woken + 1 else d.tx_woken;
      txbuf = (rbuf_get d.txbuf).0;
      sent = (rbuf_get d.txbuf).1 ∷ d.sent;
    }
    else record d { threie = false }

unfoldable pub uart_isr : Lsr → ℕ → Uart → Uart
unfolding isr_receive isr_transmit
uart_isr lsr rbr d =
    let d₁ = if lsr.oe then record d { rxovrcnt = (d.rxovrcnt + 1) % 2 ^ 32 } else d in
    let d₂ = if lsr.dr then isr_receive rbr d₁ else d₁ in if lsr.thre then isr_transmit d₂ else d₂

-- The loop of `uart_read` that empties the buffer, `k` bytes at most.
unfoldable pub drain : ℕ → Ringbuf → Ringbuf × List ℕ
drain zero r = (r, [])
drain (suc k) r =
    let (r', c) = rbuf_get r in
    let (r'', cs) = drain k r' in if rbuf_empty r then (r, []) else (r'', c ∷ cs)

-- The loop of `uart_write` that fills the buffer: the bytes left over, and the buffer.
unfoldable pub fill_from : List ℕ → Ringbuf → List ℕ × Ringbuf
fill_from [] r = ([], r)
fill_from (c ∷ cs) r =
    let rest = fill_from cs (rbuf_put r c) in if rbuf_full r then (c ∷ cs, r) else rest

-- The interrupts of the port that are served one after the other: the line status and the byte of each.
unfoldable pub serve : List (Lsr × ℕ) → Uart → Uart
serve [] d = d
serve (e ∷ es) d = serve es (uart_isr e.0 e.1 d)

-- The loop of `uart_read` that waits: each round is a call of `condition_wait`, with the interrupts that
-- are served before it returns. None where the rounds are over and the caller still waits.
unfoldable pub wait_rx : List (List (Lsr × ℕ)) → Uart → Option Uart
wait_rx [] d = if rbuf_empty d.rxbuf then none else some d
wait_rx (es ∷ rounds) d =
    let rest = wait_rx rounds (serve es d) in if rbuf_empty d.rxbuf then rest else some d

abbrev pub uart_long_max : ℕ
uart_long_max = 2 ^ 63 - 1

-- The bytes stored in the caller's buffer.
unfoldable pub uart_read : ℕ → List (List (Lsr × ℕ)) → Uart → Option (Uart × List ℕ)
uart_read bufsz rounds d =
    let n = if ltb uart_long_max bufsz then uart_long_max else bufsz in
    if n == 0 then some (d, []) else elim (wait_rx rounds d) [
      | none ↦ none
      | some w ↦ some (record w { rxbuf = (drain n w.rxbuf).0; dreie = true }, (drain n w.rxbuf).1)
    ]

-- One round of the outer loop of `uart_write`, once the transmit buffer is not full: the bytes that
-- are left for the next round.
unfoldable pub uart_write_round : List ℕ → Uart → Uart × List ℕ
uart_write_round cs d =
    let (rest, r) = fill_from cs d.txbuf in (record d { txbuf = r; threie = true }, rest)
