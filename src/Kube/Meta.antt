-- ===== src/Kube/Meta.antt =====
-- `metav1.ObjectMeta`, `types.NamespacedName`, and how `matchLabels` selects.
use picodata_operator.Base.{String, ◌==◌, Bool, true, false, ◌&&◌, Option, none, some, [], ◌∷◌}
use picodata_operator.Base.Maps.{Labels, lookup}
use picodata_operator.Kube.Platform.{Platform}

pub record NamespacedName : Type 0 where
  pub name : String
  pub namespace : String

-- `annotations` and `labels` are nil where they are empty.
pub record ObjectMeta ⦃K : Platform⦄ : Type 0 where
  pub name : String
  pub namespace : String
  pub labels : Labels
  pub annotations : Labels
  -- owner references and all that the API server keeps
  pub rest : K.Fields

abbrev has : String → Option String → Bool
has v none = false
has v (some w) = v == w

-- `matchLabels`: every pair of the selector is among the labels.
unfoldable pub selects : Labels → Labels → Bool
unfolding lookup
selects [] labels = true
selects ((k, v) ∷ rest) labels = has v (lookup k labels) && selects rest labels
