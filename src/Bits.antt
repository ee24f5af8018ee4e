-- ===== src/Bits.antt =====
-- The operators `&`, `|` and `~` of C on words of a given number of bits.
use illinux.Prelude.{
  Bool, ℕ, zero, suc, ◌+◌, ◌-◌, ◌*◌, ◌/◌, ◌%◌, ◌^◌, ◌<◌, ◌≡◌, ap, ◌∙◌, arith, max, min, ◌==◌,
  if◌then◌else◌,
}

-- Bit `k` of a number.
unfoldable pub bit : ℕ → ℕ → ℕ
bit zero a = a % 2
bit (suc k) a = bit k (a / 2)

unfoldable pub bit_and : ℕ → ℕ → ℕ → ℕ
bit_and zero a b = 0
bit_and (suc w) a b = min (a % 2) (b % 2) + 2 * bit_and w (a / 2) (b / 2)

unfoldable pub bit_or : ℕ → ℕ → ℕ → ℕ
bit_or zero a b = 0
bit_or (suc w) a b = max (a % 2) (b % 2) + 2 * bit_or w (a / 2) (b / 2)

unfoldable pub bit_not : ℕ → ℕ → ℕ
bit_not zero a = 0
bit_not (suc w) a = (1 - a % 2) + 2 * bit_not w (a / 2)

-- 1 << k
abbrev pub one_bit : ℕ → ℕ
one_bit k = 2 ^ k

half : (x r : ℕ) → x < 2 → (x + 2 * r) / 2 ≡ r
half x r lt = omega (arith, lt)

low : (x r : ℕ) → x < 2 → (x + 2 * r) % 2 ≡ x
low x r lt = omega (arith, lt)

pub bit-bit_and : (w a b k : ℕ) → k < w → bit k (bit_and w a b) ≡ min (bit k a) (bit k b)
unfolding bit bit_and
bit-bit_and zero a b k lt = absurd (omega (arith, lt))
bit-bit_and (suc w) a b zero lt =
    low (min (a % 2) (b % 2)) (bit_and w (a / 2) (b / 2)) (omega arith)
bit-bit_and (suc w) a b (suc k) lt =
    ap (bit k) (half (min (a % 2) (b % 2)) (bit_and w (a / 2) (b / 2)) (omega arith))
    ∙ bit-bit_and w (a / 2) (b / 2) k (omega (arith, lt))

pub bit-bit_or : (w a b k : ℕ) → k < w → bit k (bit_or w a b) ≡ max (bit k a) (bit k b)
unfolding bit bit_or
bit-bit_or zero a b k lt = absurd (omega (arith, lt))
bit-bit_or (suc w) a b zero lt = low (max (a % 2) (b % 2)) (bit_or w (a / 2) (b / 2)) (omega arith)
bit-bit_or (suc w) a b (suc k) lt =
    ap (bit k) (half (max (a % 2) (b % 2)) (bit_or w (a / 2) (b / 2)) (omega arith))
    ∙ bit-bit_or w (a / 2) (b / 2) k (omega (arith, lt))

pub bit-bit_not : (w a k : ℕ) → k < w → bit k (bit_not w a) ≡ 1 - bit k a
unfolding bit bit_not
bit-bit_not zero a k lt = absurd (omega (arith, lt))
bit-bit_not (suc w) a zero lt = low (1 - a % 2) (bit_not w (a / 2)) (omega arith)
bit-bit_not (suc w) a (suc k) lt =
    ap (bit k) (half (1 - a % 2) (bit_not w (a / 2)) (omega arith))
    ∙ bit-bit_not w (a / 2) k (omega (arith, lt))

pub bit-zero : (j : ℕ) → bit j 0 ≡ 0
unfolding bit
bit-zero zero = omega arith
bit-zero (suc j) = bit-zero j

half_power : (k : ℕ) → 2 ^ suc k / 2 ≡ 2 ^ k
half_power k = omega arith

pub bit-one_bit : (j k : ℕ) → bit j (one_bit k) ≡ (if j == k then 1 else 0)
unfolding bit
bit-one_bit zero zero = ground arith
bit-one_bit zero (suc k) = ground arith
bit-one_bit (suc j) zero = bit-zero j ∙ ground arith
bit-one_bit (suc j) (suc k) = ap (bit j) (half_power k) ∙ bit-one_bit j k ∙ ground arith

-- No more than the one bit.
pub bit_bound : (k a : ℕ) → bit k a < 2
unfolding bit
bit_bound zero a = omega arith
bit_bound (suc k) a = bit_bound k (a / 2)

half_bound : (w b : ℕ) → b < 2 ^ suc w → b / 2 < 2 ^ w
half_bound w b lt = omega (arith, lt)

-- A set of bits that the other word has too.
pub bit_and-subset :
    (w a b : ℕ) → b < 2 ^ w → ((k : ℕ) → k < w → bit k b ≡ 1 → bit k a ≡ 1) → bit_and w a b ≡ b
unfolding bit_and bit
bit_and-subset zero a b lt sub = omega (arith, lt)
bit_and-subset (suc w) a b lt sub =
    let low_bit : b % 2 ≡ 1 → a % 2 ≡ 1 = sub 0 (omega arith) in
    let ih : bit_and w (a / 2) (b / 2) ≡ b / 2 =
      bit_and-subset w (a / 2) (b / 2) (half_bound w b lt)
        (λ k l. sub (suc k) (omega (arith, l))) in
    ground (arith, low_bit, ih)

-- `|` with one bit, seen at that bit or another.
pub set_bit : (x : ℕ) (b : Bool) → x < 2 → max x (if b then 1 else 0) ≡ (if b then 1 else x)
set_bit x b lt = ground (arith, lt)
