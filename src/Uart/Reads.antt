-- ===== src/Uart/Reads.antt =====
-- src/kern/uart.c: `uart_read`, which waits for bytes while other code runs.
use illinux.Prelude.{
  ℕ, ◌≤◌, ◌≡◌, ◌≢◌, refl, sym, ap, ◌∙◌, subst, true, false, List, [], ◌∷◌, ◌++◌, ◌==◌, ◌&&◌,
  if◌then◌else◌, ltb, arith, length, min, Bool-cases, inl, inr, Option, none, some,
}
use illinux.Uart.{
  Ringbuf, Uart, Lsr, fill, rbuf_empty, rbuf_full, rbuf_put, drain, serve, wait_rx, uart_long_max,
  uart_read, isr_receive, isr_transmit, uart_isr,
}
use illinux.Uart.Queue.{IsValid, contents, empty_iff, rbuf_put-contents}
use illinux.Uart.Port.{IsPort, length-contents, drain_lem, uart_isr-IsPort}

-- A queue of at most 64 bytes that is given the byte of an interrupt.
abbrev pub arrive_one : Lsr × ℕ → List ℕ → List ℕ
arrive_one e q = if e.0.dr && ltb (length q) 64 then q ++ (e.1 ∷ []) else q

abbrev pub arrive : List (Lsr × ℕ) → List ℕ → List ℕ
arrive [] q = q
arrive (e ∷ es) q = arrive es (arrive_one e q)

-- The queue at the end of a wait that goes on while the queue is empty.
abbrev pub awaited : List (List (Lsr × ℕ)) → List ℕ → Option (List ℕ)
awaited [] [] = none
awaited [] (c ∷ q) = some (c ∷ q)
awaited (es ∷ rounds) [] = awaited rounds (arrive es [])
awaited (es ∷ rounds) (c ∷ q) = some (c ∷ q)

isr_rxbuf :
    (lsr : Lsr) (rbr : ℕ) (d : Uart)
    → (uart_isr lsr rbr d).rxbuf
      ≡ (if lsr.dr then (if rbuf_full d.rxbuf then d.rxbuf else rbuf_put d.rxbuf rbr) else d.rxbuf)
unfolding uart_isr isr_receive isr_transmit
isr_rxbuf lsr rbr d = ground arith

full_is : (r : Ringbuf) → rbuf_full r ≡ true → fill r ≡ 64
unfolding rbuf_full
full_is r e = ground (arith, e)

not_full : (r : Ringbuf) → rbuf_full r ≡ false → fill r ≢ 64
unfolding rbuf_full
not_full r e = ground (arith, e)

isr-contents :
    (e : Lsr × ℕ) (d : Uart)
    → IsPort d
    → contents (uart_isr e.0 e.1 d).rxbuf ≡ arrive_one e (contents d.rxbuf)
isr-contents e d p =
    let len = length-contents d.rxbuf in
    let rx = ap contents (isr_rxbuf e.0 e.1 d) in
    elim (Bool-cases e.0.dr) [
      | inr quiet ↦ rx ∙ rw quiet refl
      | inl got ↦ elim (Bool-cases (rbuf_full d.rxbuf)) [
        | inl full ↦
            let no_room : ltb (length (contents d.rxbuf)) 64 ≡ false =
              ground (arith, full_is d.rxbuf full, len) in
            rx ∙ rw (got, full, no_room) refl
        | inr room ↦
            let has_room : ltb (length (contents d.rxbuf)) 64 ≡ true =
              ground (arith, not_full d.rxbuf room, len, p.rx.fill_in) in
            rx ∙ rw (got, room, has_room) (rbuf_put-contents d.rxbuf e.1 p.rx room).1
      ]
    ]

serve_lem :
    (es : List (Lsr × ℕ)) (d : Uart)
    → IsPort d
    → IsPort (serve es d) × (contents (serve es d).rxbuf ≡ arrive es (contents d.rxbuf))
unfolding serve
serve_lem [] d p = (p, refl)
serve_lem (e ∷ es) d p =
    let (p', got) = serve_lem es (uart_isr e.0 e.1 d) (uart_isr-IsPort e.0 e.1 d p) in
    (p', got ∙ ap (arrive es) (isr-contents e d p))

awaited-some :
    (rounds : List (List (Lsr × ℕ))) (q : List ℕ) → 1 ≤ length q → awaited rounds q ≡ some q
awaited-some rounds [] le = absurd (omega (arith, le))
awaited-some [] (c ∷ q) le = refl
awaited-some (es ∷ rounds) (c ∷ q) le = refl

no_length : (q : List ℕ) → length q ≡ 0 → q ≡ []
no_length [] e = refl
no_length (c ∷ q) e = absurd (omega (arith, e))

is_empty : (r : Ringbuf) → IsValid r → rbuf_empty r ≡ true → contents r ≡ []
is_empty r v e = no_length (contents r) (length-contents r ∙ (empty_iff r v).0 e)

not_empty : (r : Ringbuf) → IsValid r → rbuf_empty r ≡ false → 1 ≤ fill r
not_empty r v e = (empty_iff r v).1 e

-- How a wait ends, against the queue.
abbrev WaitsFor : List (List (Lsr × ℕ)) → Uart → Option (List ℕ) → Type 0
WaitsFor rounds d none = wait_rx rounds d ≡ none
WaitsFor rounds d (some q) =
    (w : Uart) × (wait_rx rounds d ≡ some w) × IsPort w × (contents w.rxbuf ≡ q) × (1 ≤ length q)

wait_rx_now :
    (rounds : List (List (Lsr × ℕ))) (d : Uart)
    → rbuf_empty d.rxbuf ≡ false
    → wait_rx rounds d ≡ some d
unfolding wait_rx
wait_rx_now [] d e = rw (wait_rx, e) refl
wait_rx_now (es ∷ rounds) d e = rw (wait_rx, e) refl

waits_now :
    (rounds : List (List (Lsr × ℕ))) (d : Uart)
    → IsPort d
    → rbuf_empty d.rxbuf ≡ false
    → WaitsFor rounds d (awaited rounds (contents d.rxbuf))
waits_now rounds d p e =
    let some_in : 1 ≤ length (contents d.rxbuf) =
      omega (arith, length-contents d.rxbuf, not_empty d.rxbuf p.rx e) in
    rw (awaited-some rounds (contents d.rxbuf) some_in)
      (d, wait_rx_now rounds d e, p, refl, some_in)

moved :
    (es : List (Lsr × ℕ)) (rounds : List (List (Lsr × ℕ))) (d : Uart)
    → wait_rx (es ∷ rounds) d ≡ wait_rx rounds (serve es d)
    → (r : Option (List ℕ)) → WaitsFor rounds (serve es d) r
    → WaitsFor (es ∷ rounds) d r
moved es rounds d same none waits = same ∙ waits
moved es rounds d same (some q) (w, ends, p, queued, le) = (w, same ∙ ends, p, queued, le)

waits_on :
    (es : List (Lsr × ℕ)) (rounds : List (List (Lsr × ℕ))) (d : Uart)
    → wait_rx (es ∷ rounds) d ≡ wait_rx rounds (serve es d)
    → (q : List ℕ) → q ≡ []
    → WaitsFor rounds (serve es d) (awaited rounds (arrive es []))
    → WaitsFor (es ∷ rounds) d (awaited (es ∷ rounds) q)
waits_on es rounds d same q e waits = rw e (moved es rounds d same _ waits)

wait_rx_lem :
    (rounds : List (List (Lsr × ℕ))) (d : Uart)
    → IsPort d
    → WaitsFor rounds d (awaited rounds (contents d.rxbuf))
unfolding wait_rx
wait_rx_lem [] d p = elim (Bool-cases (rbuf_empty d.rxbuf)) [
  | inr some_in ↦ waits_now [] d p some_in
  | inl empty ↦ rw (is_empty d.rxbuf p.rx empty, wait_rx, empty) refl
]
wait_rx_lem (es ∷ rounds) d p = elim (Bool-cases (rbuf_empty d.rxbuf)) [
  | inr some_in ↦ waits_now (es ∷ rounds) d p some_in
  | inl empty ↦
      let none_in = is_empty d.rxbuf p.rx empty in
      let (p', got) = serve_lem es d p in
      let same : wait_rx (es ∷ rounds) d ≡ wait_rx rounds (serve es d) = rw (wait_rx, empty) refl in
      let queue : contents (serve es d).rxbuf ≡ arrive es [] = got ∙ ap (arrive es) none_in in
      waits_on es rounds d same (contents d.rxbuf) none_in (
        subst (λ q. WaitsFor rounds (serve es d) (awaited rounds q)) queue
          (wait_rx_lem rounds (serve es d) p'))
]

-- On a port with valid buffers, `uart_read` of at least one byte waits while the receive buffer is empty.
-- Where the rounds of waiting bring a byte, or one was there, it returns min(bufsz, 2^63 - 1, bytes
-- queued), which is at least 1: the first bytes of the queue as it is when the wait ends, in order. The
-- others stay queued, the buffers are valid and the receive interrupt is enabled. Where no round brings a
-- byte the caller still waits.
pub uart_read-contents :
    (bufsz : ℕ) (rounds : List (List (Lsr × ℕ))) (d : Uart)
    → IsPort d
    → 1 ≤ bufsz
    → (awaited rounds (contents d.rxbuf) ≡ none → uart_read bufsz rounds d ≡ none)
      × ((q : List ℕ)
          → awaited rounds (contents d.rxbuf) ≡ some q
          → (d' : Uart) × (cs : List ℕ) × (uart_read bufsz rounds d ≡ some (d', cs))
            × IsPort d'
            × (q ≡ cs ++ contents d'.rxbuf)
            × (length cs ≡ min (min bufsz uart_long_max) (length q))
            × (1 ≤ length cs)
            × (d'.dreie ≡ true))
unfolding uart_read
uart_read-contents bufsz rounds d p lo =
    let n : ℕ = if ltb uart_long_max bufsz then uart_long_max else bufsz in
    let clamped : n ≡ min bufsz uart_long_max = ground arith in
    let some_bytes : (n == 0) ≡ false = ground (arith, clamped, lo) in
    let waited = wait_rx_lem rounds d p in
    (
      λ e.
          let still : wait_rx rounds d ≡ none = subst (WaitsFor rounds d) e waited in
          rw (uart_read, some_bytes, still) refl,
      λ q e.
          let (w, ends, pw, queued, some_in) = subst (WaitsFor rounds d) e waited in
          let (v', kept, len) = drain_lem n w.rxbuf pw.rx in
          let size : length q ≡ fill w.rxbuf = ap length (sym queued) ∙ length-contents w.rxbuf in
          (
            record w { rxbuf = (drain n w.rxbuf).0; dreie = true },
            (drain n w.rxbuf).1,
            rw (uart_read, some_bytes, ends) refl,
            record { rx = v'; tx = pw.tx },
            sym queued ∙ kept,
            omega (arith, len, clamped, size),
            omega (arith, len, clamped, size, some_in, lo),
            refl,
          ),
    )
