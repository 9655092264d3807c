-- ===== src/Base/Outcome.antt =====
-- The outcome of a piece of C code: a value, `exit` with a failure status, or `fault`, an access
-- outside the object that it names (undefined in C, mostly a crash).
use mathlib.Core.Bool.{Bool, true, false}
use mathlib.Core.Option.{Option, none, some}

pub data Run {ℓ} (A : Type ℓ) : Type ℓ where
  ok : A → Run A
  exit fault : Run A

infixl 5 ◌>>=◌ ◌>>◌
abbrev pub ◌>>=◌ {ℓ κ} : {A : Type ℓ} {B : Type κ} → Run A → (A → Run B) → Run B
fault >>= next = fault
exit >>= next = exit
ok value >>= next = next value

abbrev pub ◌>>◌ {ℓ} : {B : Type ℓ} → Run (Unit {0}) → Run B → Run B
m >> k = m >>= λ _. k

-- A read of an array or through a pointer.
abbrev pub deref {ℓ} : {A : Type ℓ} → Option A → Run A
deref none = fault
deref (some a) = ok a

-- `if (test) exit(EXIT_FAILURE);`
abbrev pub exit_if : Bool → Run (Unit {0})
exit_if true = exit
exit_if false = ok tt
