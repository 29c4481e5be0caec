-- ===== src/Names.antt =====
-- Names and labels of the managed objects: the first part of internal/controller/service.go, and
-- `configMapName`, `servicePort` of configmap.go and `statefulSetName` of statefulset.go.
pub mod Selectors
pub mod Unique
pub mod Shift
use picodata_operator.Base.{String, ◌<>◌, List, [], ◌∷◌, if◌then◌else◌}
use picodata_operator.Base.Int.{ℤ, is_zero}
use picodata_operator.Base.Decimal.{format_int}
use picodata_operator.Base.Maps.{Labels, insert}
use picodata_operator.Kube.Platform.{Platform}
use picodata_operator.Api.{PicoclusterDb}
use picodata_operator.Api.Spec.{TierSpec}

-- A port, or its default where the spec leaves it 0.
unfoldable pub service_port : ℤ → ℤ → ℤ
service_port v default_v = if is_zero v then default_v else v

module _ ⦃K : Platform⦄ (cluster : PicoclusterDb) (tier : TierSpec) where
  unfoldable pub interconnect_service_name : String
  interconnect_service_name = tier.name <> "-" <> cluster.meta.name <> "-interconnect"

  unfoldable pub client_service_name : String
  client_service_name = tier.name <> "-" <> cluster.meta.name

  unfoldable pub config_map_name : String
  config_map_name = tier.name <> "-" <> cluster.meta.name

  -- {tier}-{cluster}-1, {tier}-{cluster}-2, …
  unfoldable pub stateful_set_name : ℤ → String
  stateful_set_name rs_index = tier.name <> "-" <> cluster.meta.name <> "-" <> format_int rs_index

  unfoldable pub tier_labels : Labels
  tier_labels =
      ("app.kubernetes.io/name", tier.name <> "-" <> cluster.meta.name)
      ∷ ("app.kubernetes.io/cluster", cluster.spec.cluster_name)
      ∷ ("app.kubernetes.io/instance", cluster.meta.name)
      ∷ []

  unfoldable pub replicaset_labels : ℤ → Labels
  unfolding insert tier_labels
  replicaset_labels rs_index = insert "picodata.io/replicaset" (format_int rs_index) tier_labels
