-- ===== src/ConfigMaps/Listeners.antt =====
-- internal/controller/configmap.go: `buildPluginListenerConfig`.
use picodata_operator.Base.{String, ◌<>◌, List, [], ◌∷◌, is_empty, map, if◌then◌else◌}
use picodata_operator.Base.Int.{ℤ, pos, ltb_ℤ}
use picodata_operator.Base.Decimal.{format_int}
use picodata_operator.Base.Text.{concat, to_upper}
use picodata_operator.Kube.Platform.{Platform}
use picodata_operator.Api.Spec.{TierSpec, PluginSpec, PluginServiceSpec}

pub record SvcEntry : Type 0 where
  pub name : String
  pub port : ℤ

pub record PluginEntry : Type 0 where
  pub name : String
  pub services : List SvcEntry

-- The services of a plugin that have a port.
unfoldable pub svc_entries : List PluginServiceSpec → List SvcEntry
svc_entries [] = []
svc_entries (s ∷ rest) =
    let entries = svc_entries rest in
    if ltb_ℤ (pos 0) s.listener_port
    then record { name = s.name; port = s.listener_port } ∷ entries
    else entries

-- The plugins that have at least one service with a port.
unfoldable pub plugin_entries : List PluginSpec → List PluginEntry
plugin_entries [] = []
plugin_entries (p ∷ rest) =
    let svcs = svc_entries p.services in
    let entries = plugin_entries rest in
    if is_empty svcs then entries else record { name = p.name; services = svcs } ∷ entries

module _ ⦃K : Platform⦄ where
  -- What the init container replaces by the pod's address.
  unfoldable pub placeholder : String → String → String
  placeholder plugin svc =
      "__PLUGIN_ADVERTISE_"
      <> to_upper K.unicode_upper plugin
      <> "_"
      <> to_upper K.unicode_upper svc
      <> "__"

  unfoldable pub svc_yaml : String → SvcEntry → String
  svc_yaml plugin s = concat (
      "        "
      ∷ s.name
      ∷ ":\n          listener:\n            enabled: true\n            listen: \"0.0.0.0:"
      ∷ format_int s.port
      ∷ "\"\n            advertise: \""
      ∷ placeholder plugin s.name
      ∷ "\"\n"
      ∷ [])

  unfoldable pub plugin_yaml : PluginEntry → String
  unfolding svc_yaml
  plugin_yaml p =
      concat
        ("    " ∷ p.name ∷ ":\n      service:\n" ∷ concat (map (svc_yaml p.name) p.services) ∷ [])

  unfoldable pub build_plugin_listener_config : TierSpec → String
  unfolding plugin_yaml
  build_plugin_listener_config tier =
      let plugins = plugin_entries tier.plugins in
      if is_empty plugins then "" else "  plugin:\n" <> concat (map plugin_yaml plugins)
