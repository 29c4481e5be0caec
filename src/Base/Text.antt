-- ===== src/Base/Text.antt =====
-- Texts as Go's `string`: joining, the mapping of characters, the upper case and the folding of
-- ASCII letters. What Unicode's tables say of other characters is an argument.
use Prim.Native.Nat.{ℕ, ◌+◌, ◌-◌, ◌/◌, ◌%◌, ◌<◌, compare as compare_ℕ, Ordering}
use Prim.Native.Char.{Char, char, code, IsScalar}
use Prim.Native.String.{String, [], ◌∷◌, ◌++◌ as ◌<>◌}
use mathlib.Core.Path.{◌≡◌, refl, ap}
use mathlib.Core.Logic.{ite, dite}
use mathlib.Core.Bool.{Bool, true, false, ◌&&◌, ◌||◌}
use mathlib.Core.List.{List}
use native.Mathlib.Omega.{arith}
use native.Mathlib.Decide.{dec_lt}
use text.Mathlib.TextLemmas.{nil-append, cons-append}
use picodata_operator.Base.Tests.{ltb, leb, if◌then◌else◌}

-- `strings.Join`
unfoldable pub join : List String → String → String
join List.[] sep = ""
join (List.◌∷◌ s List.[]) sep = s
join (List.◌∷◌ s (List.◌∷◌ t rest)) sep = s <> (sep <> join (List.◌∷◌ t rest) sep)

-- The texts one after another.
abbrev pub concat : List String → String
concat List.[] = ""
concat (List.◌∷◌ s rest) = s <> concat rest

scalar_of_small : (n : ℕ) → n < 55296 → IsScalar n
scalar_of_small n h = let e : compare_ℕ n 55296 ≡ Ordering.lt = ground arith in rw e tt

-- An ASCII letter of the other case: `n` is its code.
unfoldable pub ascii : (n : ℕ) → n < 55296 → Char
unfolding scalar_of_small
ascii n h = char n (scalar_of_small n h)

-- A byte under `%x`: two hexadecimal digits.
unfoldable pub hex_digit : ℕ → Char
unfolding ascii
hex_digit n =
    ite (dec_lt (n % 16) 10) (ascii (48 + n % 16) (omega arith)) (ascii (87 + n % 16) (omega arith))

unfoldable pub hex_byte : ℕ → String
unfolding hex_digit dec_lt
hex_byte b = hex_digit (b / 16) ∷ hex_digit b ∷ []

abbrev pub is_lower : Char → Bool
is_lower c = leb b'a' (code c) && leb (code c) b'z'

abbrev pub is_upper : Char → Bool
is_upper c = leb b'A' (code c) && leb (code c) b'Z'

abbrev pub is_ascii : Char → Bool
is_ascii c = ltb (code c) 128

abbrev code_eq : Char → Char → Bool
code_eq c d = elim (compare_ℕ (code c) (code d)) [ Ordering.eq ↦ true | _ ↦ false ]

pub up : Char → Char
unfolding ascii dec_lt
up c = dite (dec_lt (code c - 32) 55296) (λ h. ascii (code c - 32) h) (λ _. c)

module _ (unicode_upper : Char → Char) where
  -- `unicode.ToUpper`
  upper_char : Char → Char
  unfolding up
  upper_char c = if is_lower c then up c else if is_ascii c then c else unicode_upper c

  -- `strings.ToUpper`
  unfoldable pub to_upper : String → String
  unfolding upper_char
  to_upper [] = []
  to_upper (c ∷ s) = upper_char c ∷ to_upper s

  pub to_upper-append : (s t : String) → to_upper (s <> t) ≡ to_upper s <> to_upper t
  unfolding to_upper
  to_upper-append [] t = rw (nil-append t, nil-append (to_upper t))
  to_upper-append (c ∷ s) t =
      rw (cons-append c s t, cons-append (upper_char c) (to_upper s) (to_upper t))
        (ap (λ u. upper_char c ∷ u) (to_upper-append s t))

module _ (same_orbit : Char → Char → Bool) where
  -- One round of `strings.EqualFold`. `same_orbit` is the walk along `unicode.SimpleFold`, for two
  -- characters of which one is not ASCII.
  fold_char : Char → Char → Bool
  fold_char c d =
      if code_eq c d
      then true
      else if is_ascii c && is_ascii d
      then is_upper c && code_eq (up d) c || is_lower c && code_eq (up c) d
      else same_orbit c d

  -- `strings.EqualFold`
  unfoldable pub equal_fold : String → String → Bool
  unfolding fold_char
  equal_fold [] [] = true
  equal_fold [] (d ∷ t) = false
  equal_fold (c ∷ s) [] = false
  equal_fold (c ∷ s) (d ∷ t) = let rest = equal_fold s t in if fold_char c d then rest else false

  -- A text is equal to itself under folding.
  pub equal_fold_refl : (s : String) → equal_fold s s ≡ true
  unfolding equal_fold
  equal_fold_refl [] = refl
  equal_fold_refl (c ∷ s) = ground (arith, equal_fold_refl s)

folds : equal_fold (λ c d. false) "Default" "dEFAULT" ≡ true
unfolding equal_fold up
folds = refl

folds_not : equal_fold (λ c d. false) "default" "default1" ≡ false
unfolding equal_fold up
folds_not = refl

uppers : to_upper (λ c. c) "radix-Db_1" ≡ "RADIX-DB_1"
unfolding to_upper
uppers = refl

hexes : hex_byte 0xa7 ≡ "a7"
unfolding hex_byte
hexes = refl
