-- ===== src/Prelude/Exec.antt =====
-- Methods that change an object, may throw, and may fail an `assert`. What was written before a
-- throw stays written, so the state comes back beside the outcome.
use mathlib.Core.Bool.{Bool, true, false}
use mathlib.Core.Option.{Option, none, some}

-- The exceptions that the server throws (server/replicaException.h and `std::runtime_error`).
pub data Exception : Type 0 where
  quorum_not_reached replica_state_not_normal runtime_error invalid_argument : Exception

-- `abort` is a failed `assert`, which ends the process.
pub data Outcome {ℓ} (A : Type ℓ) : Type ℓ where
  done : A → Outcome A
  throw : Exception → Outcome A
  abort : Outcome A

abbrev pub Exec {ℓ κ} : Type ℓ → Type κ → Type (ℓ ⊔ κ)
Exec S A = S → Outcome A × S

module _ {ℓ κ} {S : Type ℓ} {A : Type κ} where
  abbrev pub pure : A → Exec S A
  pure a s = (done a, s)

  abbrev pub raise : Exception → Exec S A
  raise x s = (throw x, s)

  abbrev pub gets : (S → A) → Exec S A
  gets f s = (done (f s), s)

  -- the value of an iterator that an `assert` has compared with `end()`
  abbrev pub assert_found : Option A → Exec S A
  assert_found none s = (abort, s)
  assert_found (some a) s = (done a, s)

module _ {ℓ} {S : Type ℓ} where
  abbrev pub assert : Bool → Exec S (Unit {0})
  assert true s = (done tt, s)
  assert false s = (abort, s)

  abbrev pub modify : (S → S) → Exec S (Unit {0})
  modify f s = (done tt, f s)

  abbrev pub skip : Exec S (Unit {0})
  skip s = (done tt, s)

module _ {ℓ κ μ} {S : Type ℓ} {A : Type κ} {B : Type μ} where
  abbrev pub continue : Outcome A → (A → Exec S B) → Exec S B
  continue (done a) f s = f a s
  continue (throw x) f s = (throw x, s)
  continue abort f s = (abort, s)

  infixl 10 ◌>>=◌ ◌>>◌
  abbrev pub ◌>>=◌ : Exec S A → (A → Exec S B) → Exec S B
  ◌>>=◌ m f s = continue (m s).0 f (m s).1

  abbrev pub ◌>>◌ : Exec S A → Exec S B → Exec S B
  m >> n = m >>= λ _. n
