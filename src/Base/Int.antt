-- ===== src/Base/Int.antt =====
-- Go's `int32`: signed integers, with the wrap-around of `+` and `*` written out.
use Prim.Native.Nat.{ℕ, suc, ◌+◌, ◌-◌, ◌*◌, ◌%◌, ◌^◌, ◌≤◌, ◌<◌}
use mathlib.Core.Path.{◌≡◌, refl}
use mathlib.Core.Bool.{Bool, false}
use native.Mathlib.Omega.{arith}
use picodata_operator.Base.Tests.{ltb, leb, if◌then◌else◌}

-- `negsuc n` is -(n + 1).
pub data ℤ : Type 0 where
  pos : ℕ → ℤ
  negsuc : ℕ → ℤ

abbrev pub pos_part : ℤ → ℕ
pos_part (pos n) = n
pos_part (negsuc n) = 0

abbrev pub neg_part : ℤ → ℕ
neg_part (pos n) = 0
neg_part (negsuc n) = suc n

-- a - b, as an integer.
abbrev pub sub_ℕ : ℕ → ℕ → ℤ
sub_ℕ a b = if leb b a then pos (a - b) else negsuc (b - a - 1)

infixl 65 ◌+ℤ◌
infixl 70 ◌*ℤ◌
infix 50 ◌≤ℤ◌
unfoldable pub ◌+ℤ◌ : ℤ → ℤ → ℤ
a +ℤ b = sub_ℕ (pos_part a + pos_part b) (neg_part a + neg_part b)

unfoldable pub ◌*ℤ◌ : ℤ → ℤ → ℤ
a *ℤ b =
    sub_ℕ (pos_part a * pos_part b + neg_part a * neg_part b)
      (pos_part a * neg_part b + neg_part a * pos_part b)

abbrev pub ◌≤ℤ◌ : ℤ → ℤ → Type 0
a ≤ℤ b = pos_part a + neg_part b ≤ pos_part b + neg_part a

-- a < b, a ≤ b and a == b
abbrev pub ltb_ℤ : ℤ → ℤ → Bool
ltb_ℤ a b = ltb (pos_part a + neg_part b) (pos_part b + neg_part a)

abbrev pub leb_ℤ : ℤ → ℤ → Bool
leb_ℤ a b = leb (pos_part a + neg_part b) (pos_part b + neg_part a)

abbrev pub is_zero : ℤ → Bool
is_zero (pos n) = leb n 0
is_zero (negsuc n) = false

-- The integer that a 32-bit pattern stands for.
abbrev pub signed32 : ℕ → ℤ
signed32 u = if ltb u (2 ^ 31) then pos u else negsuc (2 ^ 32 - 1 - u)

-- An integer reduced to `int32`.
unfoldable pub wrap32 : ℤ → ℤ
wrap32 (pos n) = signed32 (n % 2 ^ 32)
wrap32 (negsuc n) = signed32 (2 ^ 32 - 1 - n % 2 ^ 32)

unfoldable pub add32 : ℤ → ℤ → ℤ
unfolding wrap32 ◌+ℤ◌
add32 a b = wrap32 (a +ℤ b)

unfoldable pub mul32 : ℤ → ℤ → ℤ
unfolding wrap32 ◌*ℤ◌
mul32 a b = wrap32 (a *ℤ b)

-- The values of an `int32`.
abbrev pub InInt32 : ℤ → Type 0
InInt32 (pos n) = n < 2 ^ 31
InInt32 (negsuc n) = n < 2 ^ 31

pub wrap32-of_InInt32 : (z : ℤ) → InInt32 z → wrap32 z ≡ z
unfolding wrap32
wrap32-of_InInt32 (pos n) h = ground arith
wrap32-of_InInt32 (negsuc n) h = ground arith

-- Whatever is added, the result is an `int32`.
pub add32-InInt32 : (a b : ℤ) → InInt32 (add32 a b)
unfolding add32
add32-InInt32 a b = wrap32-InInt32 (a +ℤ b)
  where
    wrap32-InInt32 : (z : ℤ) → InInt32 (wrap32 z)
    wrap32-InInt32 (pos n) = ground arith
    wrap32-InInt32 (negsuc n) = ground arith

wraps : add32 (pos (2 ^ 31 - 1)) (pos 1) ≡ negsuc (2 ^ 31 - 1)
unfolding add32
wraps = refl

multiplies : mul32 (pos 3) (negsuc 1) ≡ negsuc 5
unfolding mul32
multiplies = refl
