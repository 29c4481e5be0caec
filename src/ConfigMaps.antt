-- ===== src/ConfigMaps.antt =====
-- internal/controller/configmap.go: the ConfigMap that holds a tier's config.yaml.
pub mod Listeners
pub mod Collision
use picodata_operator.Base.{
  String, ◌==◌, ◌<>◌, Bool, true, false, Option, none, some, List, [], ◌∷◌, map, if◌then◌else◌,
}
use picodata_operator.Base.Int.{ℤ, pos, is_zero}
use picodata_operator.Base.Decimal.{format_int}
use picodata_operator.Base.Text.{concat}
use picodata_operator.Kube.Platform.{Platform}
use picodata_operator.Kube.Objects.{ConfigMap}
use picodata_operator.Api.{PicoclusterDb}
use picodata_operator.Api.Spec.{TierSpec}
use picodata_operator.Names.{service_port, config_map_name}
use Listeners.{build_plugin_listener_config}

abbrev pub instance_dir : String
instance_dir = "/pico"

-- `%v` of a `bool`
abbrev pub format_bool : Bool → String
format_bool true = "true"
format_bool false = "false"

-- A text, or its default where the spec leaves it empty.
abbrev text_or : String → String → String
text_or v default_v = if v == "" then default_v else v

-- A number, or its default where the spec leaves it 0.
abbrev int_or : ℤ → ℤ → ℤ
int_or v default_v = if is_zero v then default_v else v

-- `*p`, or a text where `p` is nil
abbrev deref_or : Option String → String → String
deref_or none default_v = default_v
deref_or (some v) default_v = v

module _ ⦃K : Platform⦄ where
  -- One round of the loop that builds the tier section.
  tier_yaml : TierSpec → String
  tier_yaml t = concat (
      "          "
      ∷ t.name
      ∷ ":\n            replication_factor: "
      ∷ format_int (int_or t.replication_factor (pos 1))
      ∷ "\n            can_vote: "
      ∷ format_bool t.can_vote
      ∷ "\n"
      ∷ [])

  -- The address of instance 0 of replicaset 1 of the first tier.
  unfoldable pub peer_fqdn : PicoclusterDb → TierSpec → String
  peer_fqdn cluster first_tier =
      first_tier.name
      <> "-"
      <> cluster.meta.name
      <> "-1-0."
      <> first_tier.name
      <> "-"
      <> cluster.meta.name
      <> "-interconnect."
      <> cluster.meta.namespace
      <> ".svc.cluster.local:"
      <> format_int (service_port cluster.spec.service.binary_port (pos 3301))

  -- `configYAML`, given the first tier of the cluster.
  unfoldable pub config_yaml : PicoclusterDb → TierSpec → TierSpec → String
  unfolding tier_yaml
  config_yaml cluster tier first_tier =
      let svc = cluster.spec.service in
      let cl = cluster.spec.cluster in
      let http_port = service_port svc.http_port (pos 8081) in
      let binary_port = service_port svc.binary_port (pos 3301) in
      let pg_port = service_port svc.pg_port (pos 5432) in
      let pg_host = if tier.pg.enabled then "0.0.0.0:" else "127.0.0.1:" in
      concat (
        "cluster:\n  name: "
        ∷ cluster.spec.cluster_name
        ∷ "\n  default_replication_factor: "
        ∷ format_int (int_or cl.default_replication_factor (pos 1))
        ∷ "\n  default_bucket_count: "
        ∷ format_int (int_or cl.default_bucket_count (pos 3000))
        ∷ "\n  shredding: "
        ∷ format_bool cl.shredding
        ∷ "\n  tier:\n"
        ∷ concat (map tier_yaml cluster.spec.tiers)
        ∷ "instance:\n  instance_dir: "
        ∷ instance_dir
        ∷ "\n  tier: "
        ∷ tier.name
        ∷ "\n"
        ∷ ("  share_dir: " <> text_or tier.share_dir "/usr/share/picodata" <> "\n")
        ∷ "  peer:\n  - "
        ∷ peer_fqdn cluster first_tier
        ∷ "\n  admin_socket: "
        ∷ instance_dir
        ∷ "/admin.sock\n  log:\n    level: "
        ∷ text_or tier.log.level "info"
        ∷ "\n    destination: "
        ∷ deref_or tier.log.destination "null"
        ∷ "\n    format: "
        ∷ text_or tier.log.format "plain"
        ∷ "\n  memtx:\n    memory: "
        ∷ text_or tier.memtx.memory "128M"
        ∷ "\n  vinyl:\n    memory: "
        ∷ text_or tier.vinyl.memory "64M"
        ∷ "\n    cache: "
        ∷ text_or tier.vinyl.cache "32M"
        ∷ "\n  http:\n    listen: 0.0.0.0:"
        ∷ format_int http_port
        ∷ "\n  iproto:\n    listen: 0.0.0.0:"
        ∷ format_int binary_port
        ∷ "\n  pgproto:\n    enabled: "
        ∷ format_bool tier.pg.enabled
        ∷ "\n    listen: "
        ∷ (pg_host <> format_int pg_port)
        ∷ "\n    tls:\n      enabled: "
        ∷ format_bool tier.pg.ssl
        ∷ "\n"
        ∷ build_plugin_listener_config tier
        ∷ [])

  unfoldable pub config_map_of : PicoclusterDb → TierSpec → TierSpec → ConfigMap
  config_map_of cluster tier first_tier = record {
    meta = record {
      name = config_map_name cluster tier;
      namespace = cluster.meta.namespace;
      labels = [];
      annotations = [];
      rest = K.unset;
    };
    contents = ("config.yaml", config_yaml cluster tier first_tier) ∷ [];
    rest = K.unset;
  }

  -- `none` is the panic of `cluster.Spec.Tiers[0]` on a cluster with no tier.
  unfoldable pub build_config_map : PicoclusterDb → TierSpec → Option ConfigMap
  unfolding config_map_of
  build_config_map cluster tier = elim cluster.spec.tiers [
    | [] ↦ none
    | first_tier ∷ rest ↦ some (config_map_of cluster tier first_tier)
  ]
