-- ===== src/World/Errors.antt =====
-- Go's errors as the reconciler tells them apart, and the ways in which a method ends.
use picodata_operator.Base.{String, Bool, true, false}

-- `wrap` is `fmt.Errorf` with `%w`.
pub data GoError : Type 0 where
  not_found : GoError
  failed : String → GoError
  wrap : String → GoError → GoError

-- `errors.IsNotFound`, which looks through wrapped errors.
unfoldable pub is_not_found : GoError → Bool
is_not_found not_found = true
is_not_found (failed message) = false
is_not_found (wrap message e) = is_not_found e

pub data Outcome {ℓ} (A : Type ℓ) : Type ℓ where
  ok : A → Outcome A
  err : GoError → Outcome A
  panicked : Outcome A
