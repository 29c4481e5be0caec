-- ===== src/StatefulSets/Hash.antt =====
-- The annotation `checksum/config`: what it tells of the configuration.
use Prim.Native.Char.{Char, code}
use Prim.Native.String.{String, [], ◌∷◌, ◌++◌ as ◌<>◌}
use text.Mathlib.TextLemmas.{nil-append, cons-append}
use picodata_operator.Base.{
  ℕ, zero, suc, ◌+◌, ◌-◌, ◌*◌, ◌/◌, ◌%◌, ◌<◌, ◌≡◌, refl, ap, ◌∙◌, List, map, All, leb, arith,
  if◌then◌else◌,
}
use mathlib.Core.Path.{ap₂}
use mathlib.Core.Logic.{if_pos, if_neg}
use native.Mathlib.Decide.{dec_lt}
use picodata_operator.Base.Text.{concat, hex_digit, hex_byte}
use picodata_operator.Kube.Platform.{Platform}
use picodata_operator.StatefulSets.{config_hash, first_eight}

-- The value of a hexadecimal digit.
hex_value : Char → ℕ
hex_value c = if leb (code c) 57 then code c - 48 else code c - 87

-- The bytes that a text of hexadecimal digits stands for, two digits each.
pub read_hex : String → List ℕ
unfolding hex_value
read_hex [] = List.[]
read_hex (c ∷ []) = List.[]
read_hex (c ∷ d ∷ s) = List.◌∷◌ (hex_value c * 16 + hex_value d) (read_hex s)

hex_value-hex_digit : (n : ℕ) → hex_value (hex_digit n) ≡ n % 16
unfolding hex_value hex_digit
hex_value-hex_digit n = elim (dec_lt (n % 16) 10) [
  | yes p ↦ rw (if_pos (dec_lt (n % 16) 10) p) (ground arith)
  | no p ↦ rw (if_neg (dec_lt (n % 16) 10) p) (ground arith)
]

read_hex-hex_byte :
    (b : ℕ) (s : String) → b < 256 → read_hex (hex_byte b <> s) ≡ List.◌∷◌ b (read_hex s)
unfolding read_hex hex_byte
read_hex-hex_byte b s h =
    ap read_hex (
      cons-append _ _ s
      ∙ ap (λ u. hex_digit (b / 16) ∷ u)
          (cons-append _ [] s ∙ ap (λ u. hex_digit b ∷ u) (nil-append s)))
    ∙ ap (λ n. List.◌∷◌ n (read_hex s))
        (ap₂ (λ n m. n * 16 + m) (hex_value-hex_digit (b / 16)) (hex_value-hex_digit b)
          ∙ omega arith)

read_hex-concat : (bs : List ℕ) → All (λ b. b < 256) bs → read_hex (concat (map hex_byte bs)) ≡ bs
unfolding read_hex
read_hex-concat List.[] h = refl
read_hex-concat (List.◌∷◌ b bs) (h, hs) =
    read_hex-hex_byte b (concat (map hex_byte bs)) h ∙ ap (List.◌∷◌ b) (read_hex-concat bs hs)

All-first_eight :
    (n : ℕ) (bs : List ℕ) → All (λ b. b < 256) bs → All (λ b. b < 256) (first_eight n bs)
unfolding first_eight
All-first_eight zero bs h = tt
All-first_eight (suc n) List.[] h = tt
All-first_eight (suc n) (List.◌∷◌ b bs) (h, hs) = (h, All-first_eight n bs hs)

module _ ⦃K : Platform⦄ where
  -- Where the digest of a configuration is made of bytes, reading its hash two digits at a time gives
  -- back the first eight bytes of the digest.
  pub read_hex-config_hash :
      (config_data : String)
      → All (λ b. b < 256) (K.sha256 config_data)
      → read_hex (config_hash config_data) ≡ first_eight 8 (K.sha256 config_data)
  unfolding config_hash
  read_hex-config_hash config_data h =
      read_hex-concat (first_eight 8 (K.sha256 config_data))
        (All-first_eight 8 (K.sha256 config_data) h)
