-- ===== src/Uart/Queue.antt =====
-- src/kern/uart.c: a ring buffer as a first-in first-out queue.
use illinux.Prelude.{
  ℕ, zero, suc, ◌+◌, ◌-◌, ◌%◌, ◌^◌, ◌≤◌, ◌<◌, ◌≡◌, refl, ap, true, false, List, [], ◌∷◌, ◌++◌, ◌==◌,
  arith, length,
}
use illinux.Mem.{Mem, store}
use illinux.Uart.{Ringbuf, rbufsz, fill, rbuf_empty, rbuf_full, rbuf_put, rbuf_get}

pub record IsValid (r : Ringbuf) : Type 0 where
  pub head_in : r.hpos < 2 ^ 16
  pub tail_in : r.tpos < 2 ^ 16
  pub fill_in : fill r ≤ rbufsz

-- The `n` bytes from position `h` on.
abbrev window : Mem → ℕ → ℕ → List ℕ
window m h zero = []
window m h (suc n) = m (h % rbufsz) ∷ window m ((h + 1) % 2 ^ 16) n

-- The queue that a ring buffer stands for, the oldest byte first.
abbrev pub contents : Ringbuf → List ℕ
contents r = window r.data_ r.hpos (fill r)

pub length-window : (m : Mem) (h n : ℕ) → length (window m h n) ≡ n
length-window m h zero = refl
length-window m h (suc n) = ap suc (length-window m ((h + 1) % 2 ^ 16) n)

window_of_pos :
    (m : Mem) (h n : ℕ)
    → 0 < n
    → window m h n ≡ m (h % rbufsz) ∷ window m ((h + 1) % 2 ^ 16) (n - 1)
window_of_pos m h zero lt = absurd (omega arith)
window_of_pos m h (suc n) lt = ap (λ k. window m h (suc k)) (omega arith)

-- A byte stored just behind a window extends it.
window-store :
    (m : Mem) (c n h i : ℕ)
    → h < 2 ^ 16
    → n < rbufsz
    → i ≡ (h + n) % rbufsz
    → window (store m i c) h (suc n) ≡ window m h n ++ (c ∷ [])
window-store m c zero h i hh hn e =
    let same : i ≡ h % rbufsz = omega arith in
    let hit : (i == h % rbufsz) ≡ true = ground arith in rw hit
window-store m c (suc n) h i hh hn e =
    let miss : (i == h % rbufsz) ≡ false = ground arith in
    let next : i ≡ ((h + 1) % 2 ^ 16 + n) % rbufsz = omega arith in
    rw miss (
      ap (λ l. m (h % rbufsz) ∷ l)
        (window-store m c n ((h + 1) % 2 ^ 16) i (omega arith) (omega arith) next))

-- An empty buffer is the empty queue, a full one holds 64 bytes.
pub empty_iff :
    (r : Ringbuf)
    → IsValid r
    → (rbuf_empty r ≡ true → fill r ≡ 0) × (rbuf_empty r ≡ false → 0 < fill r)
unfolding rbuf_empty
empty_iff r v = (ground arith, ground arith)

-- Storing a byte in a buffer that is not full appends it to the queue, and keeps the buffer valid.
pub rbuf_put-contents :
    (r : Ringbuf) (c : ℕ)
    → IsValid r
    → rbuf_full r ≡ false
    → IsValid (rbuf_put r c) × (contents (rbuf_put r c) ≡ contents r ++ (c ∷ []))
unfolding rbuf_put rbuf_full
rbuf_put-contents r c v room =
    let more : fill r < rbufsz = ground arith in
    let grown : fill (rbuf_put r c) ≡ suc (fill r) = omega arith in
    (
      omega arith,
      rw grown
          (window-store r.data_ c (fill r) r.hpos (r.tpos % rbufsz) v.head_in more (omega arith)),
    )

-- Taking a byte from a buffer that is not empty takes the first of the queue, and keeps it valid.
pub rbuf_get-contents :
    (r : Ringbuf)
    → IsValid r
    → rbuf_empty r ≡ false
    → let (r', c) = rbuf_get r in IsValid r' × (contents r ≡ c ∷ contents r')
unfolding rbuf_get rbuf_empty
rbuf_get-contents r v some =
    let pos : 0 < fill r = ground arith in
    let shrunk : fill (rbuf_get r).0 ≡ fill r - 1 = ground arith in
    (ground arith, rw shrunk (window_of_pos r.data_ r.hpos (fill r) pos))
