-- ===== src/Base/Effects.antt =====
-- Go code with effects on a world: it returns, fails with an `error`, or panics. What was done
-- before a failure stays done, so the world comes back in each case.
use Prim.Native.String.{String}
use mathlib.Core.Bool.{Bool}
use mathlib.Core.Option.{Option, none, some}
use cita_node_operator.Base.Tests.{if◌then◌else◌}

-- The values of `error` that the code tells apart (`errors.IsNotFound`, `retry.OnError`,
-- `os.IsNotExist`), those of other libraries, and those that the code makes by `fmt.Errorf`.
pub data Error : Type 0 where
  not_found conflict not_exist : Error
  failure : String → Error
  message : String → Error

-- A value or an `error`, as data.
pub data Result {ℓ} (A : Type ℓ) : Type ℓ where
  ok : A → Result A
  err : Error → Result A

pub data Outcome {ℓ} (A : Type ℓ) : Type ℓ where
  done : A → Outcome A
  failed : Error → Outcome A
  panicked : String → Outcome A

abbrev pub Exec : Type 0 → Type 0 → Type 0
Exec W A = W → Outcome A × W

module _ {W A : Type 0} where
  abbrev pub pure : A → Exec W A
  pure a w = (done a, w)

  abbrev pub raise : Error → Exec W A
  raise e w = (failed e, w)

  abbrev pub panic : String → Exec W A
  panic s w = (panicked s, w)

  -- `*p`
  abbrev pub deref : Option A → Exec W A
  deref none = panic "nil pointer dereference"
  deref (some a) = pure a

  -- A pure function that may fail.
  abbrev pub lift : Result A → Exec W A
  lift (ok a) = pure a
  lift (err e) = raise e

  abbrev pub caught : Outcome A × W → Outcome (Result A) × W
  caught (done a, w) = (done (ok a), w)
  caught (failed e, w) = (done (err e), w)
  caught (panicked s, w) = (panicked s, w)

  -- `x, err := m` where the code goes on to look at `err`.
  abbrev pub try : Exec W A → Exec W (Result A)
  try m w = caught (m w)

module _ {W A B : Type 0} where
  abbrev pub continue : Outcome A × W → (A → Exec W B) → Outcome B × W
  continue (done a, w) f = f a w
  continue (failed e, w) f = (failed e, w)
  continue (panicked s, w) f = (panicked s, w)

  -- `x, err := m; if err != nil { return err }`
  infixl 10 ◌>>=◌
  abbrev pub ◌>>=◌ : Exec W A → (A → Exec W B) → Exec W B
  ◌>>=◌ m f w = continue (m w) f

module _ {W B : Type 0} where
  infixl 10 ◌>>◌
  abbrev pub ◌>>◌ : Exec W Unit → Exec W B → Exec W B
  m >> n = m >>= λ _. n

-- `if b { … }`
abbrev pub when : {W : Type 0} → Bool → Exec W Unit → Exec W Unit
when b m = if b then m else pure tt
