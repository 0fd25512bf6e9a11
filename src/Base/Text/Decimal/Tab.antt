-- ===== src/Base/Text/Decimal/Tab.antt =====
-- A decimal number in front of a tab.
use Prim.Native.Char.{code}
use Prim.Native.Nat.{ℕ, zero, suc, ◌<◌, ◌/◌, ◌%◌}
use Prim.Native.String.{String, ◌++◌}
use Prim.Native.String.append
use mathlib.Core.Path.{◌≡◌, refl, ap, ◌∙◌}
use mathlib.Core.Logic.{inl, inr}
use mathlib.Core.Bool.{false}
use native.Mathlib.Omega.{arith}
use cita_node_operator.Base.Tests.{◌=ℕ◌, ltb, Bool-cases}
use cita_node_operator.Base.Int.{ℤ, pos, negsuc}
use cita_node_operator.Base.Text.{before_tab}
use cita_node_operator.Base.Text.Decimal.{digit, format_digits, format_int, code-digit}

-- A text without tabs.
abbrev NoTab : String → Type 0
NoTab String.[] = Unit
NoTab (String.◌∷◌ c s) = ((code c =ℕ 9) ≡ false) × NoTab s

before_tab-append : (s t : String) → NoTab s → before_tab t ≡ "" → before_tab (s ++ t) ≡ s
unfolding before_tab
before_tab-append String.[] t h e = rw (append.nil t) e
before_tab-append (String.◌∷◌ c s) t h e =
    ap before_tab (append.cons c s t)
    ∙ rw h.0 (ap (λ (r : String). String.◌∷◌ c r) (before_tab-append s t h.1 e))

before_tab-tab : (more : String) → before_tab ("\t" ++ more) ≡ ""
unfolding before_tab
before_tab-tab more = ap before_tab (append.cons "\t" "" more)

digit-NoTab : (d : ℕ) → d < 10 → (code (digit d) =ℕ 9) ≡ false
digit-NoTab d small = rw (code-digit d small) (ground arith)

format_digits-NoTab : (fuel n : ℕ) (rest : String) → NoTab rest → NoTab (format_digits fuel n rest)
unfolding format_digits
format_digits-NoTab zero n rest h = h
format_digits-NoTab (suc fuel) n rest h = elim (Bool-cases (ltb n 10)) [
  | inl small ↦ rw small (digit-NoTab n (ground arith), h)
  | inr large ↦ rw large (
      format_digits-NoTab fuel (n / 10) (String.◌∷◌ (digit (n % 10)) rest)
        (digit-NoTab (n % 10) (omega arith), h))
]

format_int-NoTab : (n : ℤ) → NoTab (format_int n)
unfolding format_int
format_int-NoTab (pos n) = format_digits-NoTab (suc n) n "" tt
format_int-NoTab (negsuc n) = (refl, format_digits-NoTab (suc (suc n)) (suc n) "" tt)

pub before_tab-format_int :
    (n : ℤ) (more : String) → before_tab (format_int n ++ ("\t" ++ more)) ≡ format_int n
before_tab-format_int n more =
    before_tab-append (format_int n) ("\t" ++ more) (format_int-NoTab n) (before_tab-tab more)
