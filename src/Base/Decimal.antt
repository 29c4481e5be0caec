-- ===== src/Base/Decimal.antt =====
-- `fmt.Sprintf("%d", n)` and `strconv.ParseInt(s, 10, 32)`.
use Prim.Native.Nat.{ℕ, zero, suc, ◌+◌, ◌-◌, ◌*◌, ◌/◌, ◌%◌, ◌^◌, ◌≤◌, ◌<◌}
use Prim.Native.Char.{Char, code}
use Prim.Native.String.{String, [], ◌∷◌}
use mathlib.Core.Path.{◌≡◌, refl, sym, ap, ◌∙◌}
use mathlib.Core.Logic.{inl, inr, ◌≢◌}
use mathlib.Core.Bool.{Bool, true, false, ◌&&◌}
use mathlib.Core.Option.{Option, none, some, some-injective}
use native.Mathlib.Omega.{arith}
use picodata_operator.Base.Tests.{ltb, leb, Bool-cases, if◌then◌else◌}
use picodata_operator.Base.Int.{ℤ, pos, negsuc, sub_ℕ, InInt32}
use picodata_operator.Base.Text.{ascii}

digit : ℕ → Char
unfolding ascii
digit n = ascii (48 + n % 10) (omega arith)

-- Round after round the last digit goes in front of the text; `n < fuel` is enough.
digits : ℕ → ℕ → String → String
digits zero n out = out
digits (suc fuel) n out = elim (ltb n 10) [
  | true ↦ digit n ∷ out
  | false ↦ digits fuel (n / 10) (digit n ∷ out)
]

format_nat : ℕ → String
unfolding digits digit
format_nat n = digits (suc n) n ""

-- `%d`
unfoldable pub format_int : ℤ → String
unfolding format_nat
format_int (pos n) = format_nat n
format_int (negsuc n) = "-" ∷ format_nat (suc n)

scan : String → ℕ → Option ℕ
scan [] n = some n
scan (c ∷ s) n =
    let rest = scan s (n * 10 + (code c - 48)) in
    if leb 48 (code c) && leb (code c) 57 then rest else none

unsigned : String → Option ℕ
unsigned [] = none
unsigned (c ∷ s) = scan (c ∷ s) 0

abbrev in_range : Bool → Option ℕ → Option ℤ
in_range negative none = none
in_range true (some n) = if leb n (2 ^ 31) then some (sub_ℕ 0 n) else none
in_range false (some n) = if ltb n (2 ^ 31) then some (pos n) else none

-- The value is read with no bound and compared with the bounds of `int32` at the end: a syntax
-- error and a range error are both `none`.
unfoldable pub parse_int32 : String → Option ℤ
unfolding unsigned scan
parse_int32 [] = none
parse_int32 (c ∷ s) =
    if leb (code c) 43 && leb 43 (code c)
    then in_range false (unsigned s)
    else if leb (code c) 45 && leb 45 (code c)
    then in_range true (unsigned s)
    else in_range false (unsigned (c ∷ s))

abbrev pub IsDigit : Char → Type 0
IsDigit c = (48 ≤ code c) × (code c ≤ 57)

digit-IsDigit : (n : ℕ) → IsDigit (digit n)
unfolding digit
digit-IsDigit n = omega arith

code-digit : (n : ℕ) → code (digit n) ≡ 48 + n % 10
unfolding digit
code-digit n = refl

scan-digit : (n m : ℕ) (out : String) → scan (digit n ∷ out) m ≡ scan out (m * 10 + n % 10)
unfolding scan
scan-digit n m out = ground (arith, code-digit n)

scan-digits : (fuel n : ℕ) (out : String) → n < fuel → scan (digits fuel n out) 0 ≡ scan out n
unfolding digits
scan-digits zero n out h = absurd (omega arith)
scan-digits (suc fuel) n out h = elim (Bool-cases (ltb n 10)) [
  | inl small ↦ rw (small, digits) (scan-digit n 0 out ∙ ap (scan out) (ground arith))
  | inr large ↦
      rw (large, digits)
        (scan-digits fuel (n / 10) (digit n ∷ out) (ground arith)
          ∙ (scan-digit n (n / 10) out ∙ ap (scan out) (omega arith)))
]

scan-format_nat : (n : ℕ) → scan (format_nat n) 0 ≡ some n
unfolding scan format_nat
scan-format_nat n = scan-digits (suc n) n "" (omega arith)

-- A text that begins with a digit.
abbrev StartsWithDigit : String → Type 0
StartsWithDigit [] = ⊥
StartsWithDigit (c ∷ s) = IsDigit c

digits-StartsWithDigit :
    (fuel n : ℕ) (out : String) → n < fuel → StartsWithDigit (digits fuel n out)
unfolding digits
digits-StartsWithDigit zero n out h = absurd (omega arith)
digits-StartsWithDigit (suc fuel) n out h = elim (Bool-cases (ltb n 10)) [
  | inl small ↦ rw (small, digits) (digit-IsDigit n)
  | inr large ↦
      rw (large, digits) (digits-StartsWithDigit fuel (n / 10) (digit n ∷ out) (ground arith))
]

parse-unsigned :
    (s : String) (n : ℕ)
    → StartsWithDigit s
    → scan s 0 ≡ some n
    → n < 2 ^ 31
    → parse_int32 s ≡ some (pos n)
unfolding parse_int32
parse-unsigned [] n d r h = absurd d
parse-unsigned (c ∷ s) n d r h = ground (arith, r)

parse-negative :
    (s : String) (n : ℕ)
    → StartsWithDigit s
    → scan s 0 ≡ some (suc n)
    → n < 2 ^ 31
    → parse_int32 ("-" ∷ s) ≡ some (negsuc n)
unfolding parse_int32
parse-negative [] n d r h = absurd d
parse-negative (c ∷ s) n d r h = ground (arith, r)

-- Every `int32` is read back from its decimal print.
pub parse_int32-format_int : (z : ℤ) → InInt32 z → parse_int32 (format_int z) ≡ some z
unfolding format_int
parse_int32-format_int (pos n) h =
    parse-unsigned (digits (suc n) n "") n (digits-StartsWithDigit (suc n) n "" (omega arith))
      (scan-format_nat n) h
parse_int32-format_int (negsuc n) h =
    parse-negative (digits (suc (suc n)) (suc n) "") n
      (digits-StartsWithDigit (suc (suc n)) (suc n) "" (omega arith)) (scan-format_nat (suc n)) h

-- Two values of `int32` with one print are equal.
pub format_int_inj : (a b : ℤ) → InInt32 a → InInt32 b → format_int a ≡ format_int b → a ≡ b
format_int_inj a b ha hb e =
    some-injective a b
      (sym (parse_int32-format_int a ha) ∙ (ap parse_int32 e ∙ parse_int32-format_int b hb))

-- No character is a dash.
abbrev pub DashFree : String → Type 0
DashFree [] = Unit
DashFree (c ∷ s) = (code c ≢ 45) × DashFree s

digits-DashFree : (fuel n : ℕ) (out : String) → DashFree out → DashFree (digits fuel n out)
unfolding digits
digits-DashFree zero n out h = h
digits-DashFree (suc fuel) n out h =
    let more : DashFree (digit n ∷ out) = (digit-ne-dash n, h) in
    elim (Bool-cases (ltb n 10)) [
      | inl small ↦ rw (small, digits) more
      | inr large ↦ rw (large, digits) (digits-DashFree fuel (n / 10) (digit n ∷ out) more)
    ]
  where
    digit-ne-dash : (n : ℕ) → code (digit n) ≢ 45
    digit-ne-dash n = omega (arith, digit-IsDigit n)

-- The print of a number that is not negative has no dash.
pub format_int-DashFree : (n : ℕ) → DashFree (format_int (pos n))
unfolding format_int
format_int-DashFree n = digits-DashFree (suc n) n "" tt

port : format_int (pos 3301) ≡ "3301"
unfolding format_int
port = refl

limits :
    (parse_int32 "2147483648" ≡ none) × (parse_int32 "-2147483648" ≡ some (negsuc (2 ^ 31 - 1)))
unfolding parse_int32
limits = (refl, refl)

no_numbers : (parse_int32 "" ≡ none) × (parse_int32 "-" ≡ none) × (parse_int32 "1_0" ≡ none)
unfolding parse_int32
no_numbers = (refl, refl, refl)
