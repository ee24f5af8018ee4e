-- ===== src/Tests/Uart.antt =====
-- src/kern/uart.c at concrete inputs: a ring buffer of two bytes whose tail has wrapped around.
use illinux.Prelude.{
  ℕ, ◌+◌, ◌≤◌, ◌≡◌, min, none, some, List, refl, arith, [], ◌∷◌, ◌++◌, true, false, length,
}
use illinux.Uart.{
  Ringbuf, Uart, Lsr, uart_long_max, rbuf_full, rbuf_empty, uart_read, uart_write_round, uart_isr,
}
use illinux.Uart.Queue.{IsValid, contents}
use illinux.Uart.Port.{IsPort, uart_write_round-contents, uart_isr-IsPort}
use illinux.Uart.Reads.{awaited, uart_read-contents}

abbrev two_bytes : Ringbuf
two_bytes = record { hpos = 65535; tpos = 1; data_ = λ i. i + 100 }

two_bytes-IsValid : IsValid two_bytes
two_bytes-IsValid = record { head_in = omega arith; tail_in = omega arith; fill_in = omega arith }

has_room : rbuf_full two_bytes ≡ false
unfolding rbuf_full
has_room = refl

has_bytes : rbuf_empty two_bytes ≡ false
unfolding rbuf_empty
has_bytes = refl

abbrev port : Uart
port = record {
  dreie = false;
  threie = false;
  rxovrcnt = 0;
  refcnt = 1;
  rxbuf = two_bytes;
  txbuf = two_bytes;
  sent = [];
  rx_woken = 0;
  tx_woken = 0;
}

port-IsPort : IsPort port
port-IsPort = record { rx = two_bytes-IsValid; tx = two_bytes-IsValid }

-- Nothing is in the receive buffer. The first wait brings nothing, the second one two bytes.
abbrev idle_port : Uart
idle_port = record port { rxbuf = record two_bytes { tpos = 65535 } }

idle-IsPort : IsPort idle_port
idle-IsPort = record {
  rx = record { head_in = omega arith; tail_in = omega arith; fill_in = omega arith };
  tx = two_bytes-IsValid;
}

abbrev got_byte : Lsr
got_byte = record { oe = false; dr = true; thre = false }

abbrev two_rounds : List (List (Lsr × ℕ))
two_rounds = [] ∷ ((got_byte, 5) ∷ (got_byte, 6) ∷ []) ∷ []

uart_read-contents_example :
    (awaited two_rounds (contents idle_port.rxbuf) ≡ none → uart_read 1 two_rounds idle_port ≡ none)
    × ((q : List ℕ)
        → awaited two_rounds (contents idle_port.rxbuf) ≡ some q
        → (d' : Uart) × (cs : List ℕ) × (uart_read 1 two_rounds idle_port ≡ some (d', cs))
          × IsPort d'
          × (q ≡ cs ++ contents d'.rxbuf)
          × (length cs ≡ min (min 1 uart_long_max) (length q))
          × (1 ≤ length cs)
          × (d'.dreie ≡ true))
uart_read-contents_example = uart_read-contents 1 two_rounds idle_port idle-IsPort (omega arith)

two_bytes_awaited : awaited two_rounds (contents idle_port.rxbuf) ≡ some (5 ∷ 6 ∷ [])
two_bytes_awaited = refl

uart_write_round-contents_example :
    let (d', rest) = uart_write_round (7 ∷ 8 ∷ []) port in
    IsValid d'.txbuf
    × (contents d'.txbuf ++ rest ≡ contents two_bytes ++ (7 ∷ 8 ∷ []))
    × (d'.threie ≡ true)
uart_write_round-contents_example = uart_write_round-contents (7 ∷ 8 ∷ []) port two_bytes-IsValid

uart_isr-IsPort_example : IsPort (uart_isr (record { oe = true; dr = true; thre = true }) 9 port)
uart_isr-IsPort_example =
    uart_isr-IsPort (record { oe = true; dr = true; thre = true }) 9 port port-IsPort
