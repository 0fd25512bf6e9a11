-- ===== src/Base/Text/Decimal.antt =====
-- `strconv.FormatInt(n, 10)` and `strconv.ParseInt(s, 10, 64)`, and that the second reads back
-- what the first writes.
pub mod Tab
use Prim.Native.Char.{Char, code}
use Prim.Native.Nat.{ℕ, zero, suc, ◌+◌, ◌-◌, ◌*◌, ◌/◌, ◌%◌, ◌<◌}
use Prim.Native.String.{String}
use mathlib.Core.Path.{◌≡◌, refl, ◌∙◌, ap}
use mathlib.Core.Logic.{inl, inr}
use mathlib.Core.Bool.{◌&&◌}
use mathlib.Core.Option.{Option, none, some}
use native.Mathlib.Omega.{arith}
use cita_node_operator.Base.Tests.{if◌then◌else◌, ◌=ℕ◌, ltb, leb, Bool-cases}
use cita_node_operator.Base.Effects.{Result, ok, err, failure}
use cita_node_operator.Base.Int.{ℤ, pos, negsuc, int64_max, IsInt64}

digit : ℕ → Char
digit zero = "0"
digit (suc zero) = "1"
digit (suc (suc zero)) = "2"
digit (suc (suc (suc zero))) = "3"
digit (suc (suc (suc (suc zero)))) = "4"
digit (suc (suc (suc (suc (suc zero))))) = "5"
digit (suc (suc (suc (suc (suc (suc zero)))))) = "6"
digit (suc (suc (suc (suc (suc (suc (suc zero))))))) = "7"
digit (suc (suc (suc (suc (suc (suc (suc (suc zero)))))))) = "8"
digit _ = "9"

-- The digits of `n`, in front of `rest`.
format_digits : ℕ → ℕ → String → String
format_digits zero n rest = rest
format_digits (suc fuel) n rest =
    let more = format_digits fuel (n / 10) (String.◌∷◌ (digit (n % 10)) rest) in
    if ltb n 10 then String.◌∷◌ (digit n) rest else more

-- `strconv.FormatInt(n, 10)`, `fmt.Sprintf("%d", n)`
unfoldable pub format_int : ℤ → String
unfolding format_digits digit
format_int (pos n) = format_digits (suc n) n ""
format_int (negsuc n) = String.◌∷◌ "-" (format_digits (suc (suc n)) (suc n) "")

-- The value of a digit character.
digit_value : Char → Option ℕ
digit_value c = if leb 48 (code c) && leb (code c) 57 then some (code c - 48) else none

parse_digits : ℕ → String → Option ℕ
parse_digits acc String.[] = some acc
parse_digits acc (String.◌∷◌ c s) = elim (digit_value c) [
  | none ↦ none
  | some d ↦ parse_digits (acc * 10 + d) s
]

-- No digit at all is a syntax error.
parse_magnitude : String → Option ℕ
parse_magnitude String.[] = none
parse_magnitude (String.◌∷◌ c s) = parse_digits 0 (String.◌∷◌ c s)

positive : Option ℕ → Result ℤ
positive none = err (failure "invalid syntax")
positive (some n) = if leb n int64_max then ok (pos n) else err (failure "value out of range")

negative : Option ℕ → Result ℤ
negative none = err (failure "invalid syntax")
negative (some zero) = ok (pos 0)
negative (some (suc n)) =
    if leb n int64_max then ok (negsuc n) else err (failure "value out of range")

-- `strconv.ParseInt(s, 10, 64)`
unfoldable pub parse_int : String → Result ℤ
unfolding parse_magnitude parse_digits digit_value positive negative
parse_int String.[] = err (failure "invalid syntax")
parse_int (String.◌∷◌ c s) =
    if code c =ℕ b'-'
    then negative (parse_magnitude s)
    else if code c =ℕ b'+'
    then positive (parse_magnitude s)
    else positive (parse_magnitude (String.◌∷◌ c s))

-- One character of the output.
digit_value-digit : (d : ℕ) → d < 10 → digit_value (digit d) ≡ some d
unfolding digit digit_value
digit_value-digit zero h = refl
digit_value-digit (suc zero) h = refl
digit_value-digit (suc (suc zero)) h = refl
digit_value-digit (suc (suc (suc zero))) h = refl
digit_value-digit (suc (suc (suc (suc zero)))) h = refl
digit_value-digit (suc (suc (suc (suc (suc zero))))) h = refl
digit_value-digit (suc (suc (suc (suc (suc (suc zero)))))) h = refl
digit_value-digit (suc (suc (suc (suc (suc (suc (suc zero))))))) h = refl
digit_value-digit (suc (suc (suc (suc (suc (suc (suc (suc zero)))))))) h = refl
digit_value-digit (suc (suc (suc (suc (suc (suc (suc (suc (suc zero))))))))) h = refl
digit_value-digit (suc (suc (suc (suc (suc (suc (suc (suc (suc (suc n)))))))))) h =
    absurd (omega arith)

parse_digits-digit :
    (acc d : ℕ) (rest : String)
    → d < 10
    → parse_digits acc (String.◌∷◌ (digit d) rest) ≡ parse_digits (acc * 10 + d) rest
unfolding parse_digits
parse_digits-digit acc d rest h = rw (digit_value-digit d h, parse_digits) refl

parse_digits-format_digits :
    (fuel n : ℕ) (rest : String)
    → n < fuel
    → parse_digits 0 (format_digits fuel n rest) ≡ parse_digits n rest
unfolding format_digits
parse_digits-format_digits zero n rest h = absurd (omega arith)
parse_digits-format_digits (suc fuel) n rest h = elim (Bool-cases (ltb n 10)) [
  | inl small ↦ rw small (
      parse_digits-digit 0 n rest (ground arith)
      ∙ ap (λ (m : ℕ). parse_digits m rest) (omega arith))
  | inr large ↦ rw large (
      parse_digits-format_digits fuel (n / 10) (String.◌∷◌ (digit (n % 10)) rest) (ground arith)
      ∙ parse_digits-digit (n / 10) (n % 10) rest (omega arith)
      ∙ ap (λ (m : ℕ). parse_digits m rest) (omega arith))
]

code-digit : (d : ℕ) → d < 10 → code (digit d) ≡ 48 + d
unfolding digit
code-digit zero h = refl
code-digit (suc zero) h = refl
code-digit (suc (suc zero)) h = refl
code-digit (suc (suc (suc zero))) h = refl
code-digit (suc (suc (suc (suc zero)))) h = refl
code-digit (suc (suc (suc (suc (suc zero))))) h = refl
code-digit (suc (suc (suc (suc (suc (suc zero)))))) h = refl
code-digit (suc (suc (suc (suc (suc (suc (suc zero))))))) h = refl
code-digit (suc (suc (suc (suc (suc (suc (suc (suc zero)))))))) h = refl
code-digit (suc (suc (suc (suc (suc (suc (suc (suc (suc zero))))))))) h = refl
code-digit (suc (suc (suc (suc (suc (suc (suc (suc (suc (suc n)))))))))) h = absurd (omega arith)

-- The output begins with a digit.
StartsWithDigit : String → Type 0
StartsWithDigit s = (d : ℕ) × (t : String) × (d < 10) × (s ≡ String.◌∷◌ (digit d) t)

format_digits-StartsWithDigit :
    (fuel n : ℕ) (rest : String) → n < fuel → StartsWithDigit (format_digits fuel n rest)
unfolding format_digits StartsWithDigit
format_digits-StartsWithDigit zero n rest h = absurd (omega arith)
format_digits-StartsWithDigit (suc fuel) n rest h = elim (Bool-cases (ltb n 10)) [
  | inl small ↦ (n, rest, ground arith, rw small)
  | inr large ↦ rw large (
      format_digits-StartsWithDigit fuel (n / 10) (String.◌∷◌ (digit (n % 10)) rest) (ground arith))
]

parse_int_of_StartsWithDigit :
    (s : String) → StartsWithDigit s → parse_int s ≡ positive (parse_digits 0 s)
unfolding StartsWithDigit parse_int
parse_int_of_StartsWithDigit s (d, t, h, e) = rw e (ground (arith, code-digit d h))

parse_magnitude_of_StartsWithDigit :
    (s : String) → StartsWithDigit s → parse_magnitude s ≡ parse_digits 0 s
unfolding StartsWithDigit parse_magnitude
parse_magnitude_of_StartsWithDigit s (d, t, h, e) = rw e refl

parse_digits-format : (n : ℕ) → parse_digits 0 (format_digits (suc n) n "") ≡ some n
unfolding parse_digits
parse_digits-format n = parse_digits-format_digits (suc n) n "" (omega arith)

parse_int-minus : (s : String) → parse_int (String.◌∷◌ "-" s) ≡ negative (parse_magnitude s)
unfolding parse_int
parse_int-minus s = refl

parse_magnitude-format : (n : ℕ) → parse_magnitude (format_digits (suc n) n "") ≡ some n
parse_magnitude-format n =
    parse_magnitude_of_StartsWithDigit _ (format_digits-StartsWithDigit (suc n) n "" (omega arith))
    ∙ parse_digits-format n

-- What `FormatInt` writes of an `int64` is what `ParseInt` reads.
pub parse_int-format_int : (n : ℤ) → IsInt64 n → parse_int (format_int n) ≡ ok n
unfolding format_int positive negative
parse_int-format_int (pos n) h =
    parse_int_of_StartsWithDigit _ (format_digits-StartsWithDigit (suc n) n "" (omega arith))
    ∙ rw (parse_digits-format n) (ground arith)
parse_int-format_int (negsuc n) h =
    parse_int-minus (format_digits (suc (suc n)) (suc n) "")
    ∙ rw (parse_magnitude-format (suc n)) (ground arith)
