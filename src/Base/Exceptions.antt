-- ===== src/Base/Exceptions.antt =====
-- Exceptions as values. `out_of_range` is thrown by std::string's members; `runtime_error` by the
-- action of a prefixed name; `logic_error` by parse_term and the constructors; `parse_error` by the
-- grammar's `must`; `format_error` by the fmt library; `parsing_exception` and `internal_error` are
-- the classes of rdf-parser. `undefined` is no exception: it marks a call whose behaviour the
-- language leaves undefined.
use mathlib.Core.Bool.{Bool, true, false}

pub data Exception : Type 0 where
  out_of_range runtime_error logic_error parse_error parsing_exception internal_error : Exception
  format_error undefined : Exception

pub data Result {ℓ} (A : Type ℓ) : Type ℓ where
  ok : A → Result A
  throw : Exception → Result A

infixl 5 ◌>>=◌
abbrev pub ◌>>=◌ {ℓ κ} : {A : Type ℓ} {B : Type κ} → Result A → (A → Result B) → Result B
ok a >>= f = f a
throw e >>= f = throw e

-- No exception was thrown.
abbrev pub succeeds {ℓ} : {A : Type ℓ} → Result A → Bool
succeeds (ok a) = true
succeeds (throw e) = false
