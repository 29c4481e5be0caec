-- ===== src/Kube/Platform.antt =====
-- What the operator takes from Kubernetes' Go packages and from Go's tables, as a parameter.
use Prim.Native.Char.{Char}
use picodata_operator.Base.{ℕ, String, Bool, List}

pub record Platform : Type 1 where
  -- The fields of an API struct that the operator never names, as one value, and their zero value.
  pub Fields : Type 0
  pub unset : Fields
  -- `resource.Quantity`, its `IsZero` and `resource.MustParse`
  pub Quantity : Type 0
  pub quantity_is_zero : Quantity → Bool
  pub must_parse : String → Quantity
  -- the bytes of `sha256.Sum256`
  pub sha256 : String → List ℕ
  -- `unicode.ToUpper`, and the walk along `unicode.SimpleFold`, outside ASCII
  pub unicode_upper : Char → Char
  pub same_orbit : Char → Char → Bool
  -- `%q` of a text: `strconv.Quote`
  pub quote : String → String
  -- `pgx.Conn`
  pub Conn : Type 0
  -- what `json.Unmarshal` leaves in a `[]string`, whatever error it returns
  pub unmarshal_strings : String → List String
