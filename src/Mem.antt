-- ===== src/Mem.antt =====
-- Memory as seen from a pointer: the byte at each offset. Buffers, blocks and the raw contents of
-- packed structures are such memories, and a pointer into one is an offset.
use illinux.Prelude.{
  ℕ, zero, suc, ◌+◌, ◌-◌, ◌*◌, ◌%◌, ◌≤◌, ◌<◌, ◌≡◌, ◌≢◌, refl, ap, ◌∙◌, List, [], ◌∷◌, length,
  get_elem?, some, Bool, true, false, ◌&&◌, arith, ltb, leb, ◌==◌, if◌then◌else◌,
}

abbrev pub Mem : Type 0
Mem = ℕ → ℕ

-- The range of addresses for users, of src/kern/config.h.
abbrev pub user_start_vma : ℕ
user_start_vma = 3221225472

abbrev pub user_end_vma : ℕ
user_end_vma = 3489660928

-- p[i] = c
abbrev pub store {ℓ} : {A : Type ℓ} → (ℕ → A) → ℕ → A → ℕ → A
store m i a j = if i == j then a else m j

pub store_same : {A : Type 0} (m : ℕ → A) (i : ℕ) (a : A) (j : ℕ) → j ≡ i → store m i a j ≡ a
store_same m i a j e = let hit : (i == j) ≡ true = ground arith in rw hit refl

pub store_other : {A : Type 0} (m : ℕ → A) (i : ℕ) (a : A) (j : ℕ) → j ≢ i → store m i a j ≡ m j
store_other m i a j ne = let miss : (i == j) ≡ false = ground arith in rw miss refl

-- The offset lies in the `n` places from `p` on.
abbrev pub within : ℕ → ℕ → ℕ → Bool
within p n j = leb p j && ltb j (p + n)

-- A little-endian uint32_t at an offset.
abbrev pub le32 : Mem → ℕ → ℕ
le32 m o = m o + m (o + 1) * 256 + m (o + 2) * 65536 + m (o + 3) * 16777216

-- `memcpy` of string.c. The areas do not overlap (`restrict`), so source and destination are two
-- memories.
unfoldable pub memcpy : Mem → ℕ → Mem → ℕ → ℕ → Mem
memcpy d p s q zero = d
memcpy d p s q (suc n) = memcpy (store d p (s q)) (p + 1) s (q + 1) n

-- `memset` of string.c: the value is converted to a char.
unfoldable pub memset : Mem → ℕ → ℕ → ℕ → Mem
memset d p c zero = d
memset d p c (suc n) = memset (store d p (c % 256)) (p + 1) c n

-- What a copied area holds: the source's bytes inside, the old bytes outside.
pub memcpy_lem :
    (d : Mem) (p : ℕ) (s : Mem) (q n j : ℕ)
    → memcpy d p s q n j ≡ (if within p n j then s (q + (j - p)) else d j)
unfolding memcpy
memcpy_lem d p s q zero j = ground arith
memcpy_lem d p s q (suc n) j = grind (arith, memcpy_lem (store d p (s q)) (p + 1) s (q + 1) n j)

pub memset_lem :
    (d : Mem) (p c n j : ℕ) → memset d p c n j ≡ (if within p n j then c % 256 else d j)
unfolding memset
memset_lem d p c zero j = ground arith
memset_lem d p c (suc n) j = ground (arith, memset_lem (store d p (c % 256)) (p + 1) c n j)

-- A text in memory.
abbrev pub put_text : Mem → ℕ → List ℕ → Mem
put_text m p [] = m
put_text m p (c ∷ cs) = put_text (store m p c) (p + 1) cs

pub put_text_before : (m : Mem) (p : ℕ) (cs : List ℕ) (j : ℕ) → j < p → put_text m p cs j ≡ m j
put_text_before m p [] j lt = refl
put_text_before m p (c ∷ cs) j lt =
    put_text_before (store m p c) (p + 1) cs j (omega (arith, lt)) ∙ ground (arith, lt)

pub put_text_after :
    (m : Mem) (p : ℕ) (cs : List ℕ) (j : ℕ) → p + length cs ≤ j → put_text m p cs j ≡ m j
put_text_after m p [] j le = refl
put_text_after m p (c ∷ cs) j le =
    put_text_after (store m p c) (p + 1) cs j (omega (arith, le)) ∙ ground (arith, le)

pub put_text_at :
    (m : Mem) (p : ℕ) (cs : List ℕ) (i c : ℕ)
    → get_elem? cs i ≡ some c
    → put_text m p cs (p + i) ≡ c
put_text_at m p [] i c e = absurd (ground (arith, e))
put_text_at m p (x ∷ cs) zero c e =
    ap (put_text (store m p x) (p + 1) cs) (omega arith)
    ∙ put_text_before (store m p x) (p + 1) cs p (omega arith)
    ∙ ground (arith, e)
put_text_at m p (x ∷ cs) (suc i) c e =
    ap (put_text (store m p x) (p + 1) cs) (omega arith)
    ∙ put_text_at (store m p x) (p + 1) cs i c e

pub get_elem-lt : (cs : List ℕ) (i c : ℕ) → get_elem? cs i ≡ some c → i < length cs
get_elem-lt [] i c e = absurd (ground (arith, e))
get_elem-lt (x ∷ cs) zero c e = omega arith
get_elem-lt (x ∷ cs) (suc i) c e = omega (arith, get_elem-lt cs i c e)
