-- ===== src/Io/Stream.antt =====
-- src/kern/io.c and io.h: `ioread_full`, `iowrite` and `ioputc`, which repeat a device's operations.
use illinux.Prelude.{
  ℕ, zero, suc, ◌+◌, ◌-◌, true, false, Option, none, some, List, [], ◌++◌, ltb, ◌==◌, if◌then◌else◌,
  length, drop,
}
use illinux.Errno.{Result, ok, err, eio, enotsup}

-- The operations `read` and `write` of an object, none for a pointer that is NULL. A write is given
-- the bytes of the caller's buffer, a read the size of it, and returns the bytes it stored there.
pub record Ops (D : Type 0) : Type 0 where
  pub write : Option (D → List ℕ → D × Result ℕ)
  pub read : Option (D → ℕ → D × Result (List ℕ))

-- The loop of `iowrite` on fuel, from the byte `acc` on; none means that the fuel ran out.
unfoldable pub write_all :
    {D : Type 0} → (D → List ℕ → D × Result ℕ) → ℕ → List ℕ → ℕ → D → Option (D × Result ℕ)
write_all write zero bs acc d = none
write_all write (suc fuel) bs acc d = elim (ltb acc (length bs)) [
  | false ↦ some (d, ok acc)
  | true ↦
      let (d', ret) = write d (drop acc bs) in
      elim ret [
        | err e ↦ some (d', err e)
        | ok cnt ↦ elim (cnt == 0) [
          | true ↦ some (d', ok acc)
          | false ↦ write_all write fuel bs (acc + cnt) d'
        ]
      ]
]

unfoldable pub iowrite : {D : Type 0} → Ops D → ℕ → List ℕ → D → Option (D × Result ℕ)
unfolding write_all
iowrite ops fuel bs d = elim ops.write [
  | none ↦ some (d, err enotsup)
  | some write ↦ write_all write fuel bs 0 d
]

-- The loop of `ioread_full` on fuel: the bytes read so far, and none where the fuel ran out.
unfoldable pub read_all :
    {D : Type 0} → (D → ℕ → D × Result (List ℕ)) → ℕ → ℕ → List ℕ → D → Option (D × Result (List ℕ))
read_all read zero bufsz acc d = none
read_all read (suc fuel) bufsz acc d = elim (ltb (length acc) bufsz) [
  | false ↦ some (d, ok acc)
  | true ↦
      let (d', ret) = read d (bufsz - length acc) in
      elim ret [
        | err e ↦ some (d', err e)
        | ok bs ↦ elim (length bs == 0) [
          | true ↦ some (d', ok acc)
          | false ↦ read_all read fuel bufsz (acc ++ bs) d'
        ]
      ]
]

unfoldable pub ioread_full : {D : Type 0} → Ops D → ℕ → ℕ → D → Option (D × Result (List ℕ))
unfolding read_all
ioread_full ops fuel bufsz d = elim ops.read [
  | none ↦ some (d, err enotsup)
  | some read ↦ read_all read fuel bufsz [] d
]

-- `iowrite` on an object, as its callers see it.
abbrev pub Writer : Type 0 → Type 0
Writer D = D → List ℕ → Option (D × Result ℕ)

-- What `ioputc` makes of the result of `iowrite`.
unfoldable pub put_result : Result ℕ → ℕ → Result ℕ
put_result (err e) c = err e
put_result (ok n) c = if n == 0 then err eio else ok c
