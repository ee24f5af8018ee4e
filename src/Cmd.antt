-- ===== src/Cmd.antt =====
-- Kernel code as state passing. A run that does not return to its caller is a value too: it waits
-- for a lock that another thread holds, stops in `panic` or `assert` of src/kern/halt.h or at a
-- null pointer, or uses up the fuel that the model gives to a loop.
use illinux.Prelude.{◌≡◌}

pub data Run (S A : Type 0) : Type 0 where
  done : A → S → Run S A
  blocked : Run S A
  panic : Run S A
  timeout : Run S A

abbrev pub Cmd : Type 0 → Type 0 → Type 0
Cmd S A = S → Run S A

module _ {S : Type 0} where
  abbrev pub pure : {A : Type 0} → A → Cmd S A
  pure a s = done a s

  infixl 5 ◌>>=◌ ◌>>◌
  abbrev pub ◌>>=◌ : {A B : Type 0} → Cmd S A → (A → Cmd S B) → Cmd S B
  ◌>>=◌ m f s = elim (m s) [
    | done a s' ↦ f a s'
    | blocked ↦ blocked
    | panic ↦ panic
    | timeout ↦ timeout
  ]

  abbrev pub ◌>>◌ : {B : Type 0} → Cmd S (Unit {0}) → Cmd S B → Cmd S B
  m >> k = m >>= λ _. k

  abbrev pub get : Cmd S S
  get s = done s s

  abbrev pub modify : (S → S) → Cmd S (Unit {0})
  modify f s = done tt (f s)

  -- Total correctness: the run returns, and its result and final state satisfy `P`.
  abbrev pub Returns : {A : Type 0} → (A → S → Type 0) → Run S A → Type 0
  Returns P (done a s) = P a s
  Returns P blocked = ⊥
  Returns P panic = ⊥
  Returns P timeout = ⊥

  -- A step that returns hands its result on.
  pub then_done :
      {A B : Type 0} (m : Cmd S A) (f : A → Cmd S B) {s s' : S} {a : A}
      → m s ≡ done a s'
      → (m >>= f) s ≡ f a s'
  then_done m f e = rw (e, ◌>>=◌)

  -- A step that panics is the end of the run.
  pub then_panic :
      {A B : Type 0} (m : Cmd S A) (f : A → Cmd S B) {s : S} → m s ≡ panic → (m >>= f) s ≡ panic
  then_panic m f e = rw (e, ◌>>=◌)
