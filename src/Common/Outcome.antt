-- ===== src/Common/Outcome.antt =====
-- A C function that either goes on or calls the file's `error_msg` (or `report(…, true)`), which
-- writes a text with the system's own message behind it and exits with EXIT_FAILURE.
use mathlib.Core.Option.{Option, none, some}
use Prim.Native.String.{String}

pub data Outcome {ℓ} (A : Type ℓ) : Type ℓ where
  ok : A → Outcome A
  exits : (message : String) → Outcome A

infixl 5 ◌>>=◌
abbrev pub ◌>>=◌ {ℓ κ} : {A : Type ℓ} {B : Type κ} → Outcome A → (A → Outcome B) → Outcome B
ok a >>= f = f a
exits message >>= f = exits message

-- `if (call failed) error_msg(message);`
abbrev pub checked {ℓ} : {A : Type ℓ} → Option A → String → Outcome A
checked (some a) message = ok a
checked none message = exits message
