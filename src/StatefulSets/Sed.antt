-- ===== src/StatefulSets/Sed.antt =====
-- The expressions of the init container against the plugin section of config.yaml: both against one
-- list of the tier's listeners.
use picodata_operator.Base.{
  String, ◌<>◌, ◌≡◌, refl, ◌∙◌, ap, List, [], ◌∷◌, ◌++◌, map, flat_map, keep, is_empty, arith,
  if◌then◌else◌, Bool, true, false, sym,
}
use picodata_operator.Base.Int.{ℤ, pos, ltb_ℤ}
use picodata_operator.Base.Decimal.{format_int}
use picodata_operator.Base.Text.{concat, to_upper}
use text.Mathlib.TextLemmas.{nil-append}
use mathlib.Core.Path.{ap₂}
use mathlib.Core.List.{map-append}
use picodata_operator.Kube.Platform.{Platform}
use picodata_operator.Api.{PicoclusterDb}
use picodata_operator.Api.Spec.{TierSpec, PluginSpec, PluginServiceSpec}
use picodata_operator.ConfigMaps.Listeners.{
  SvcEntry, PluginEntry, svc_entries, plugin_entries, placeholder, svc_yaml, plugin_yaml,
  build_plugin_listener_config,
}
use picodata_operator.StatefulSets.InitContainer.{sed_placeholder, sed_expr, svc_exprs, sed_exprs}

-- A service of a plugin that has a port.
pub record Listener : Type 0 where
  pub plugin : String
  pub service : String
  pub port : ℤ

abbrev has_port : PluginServiceSpec → Bool
has_port s = ltb_ℤ (pos 0) s.listener_port

abbrev listener_of : String → PluginServiceSpec → Listener
listener_of plugin s = record { plugin = plugin; service = s.name; port = s.listener_port }

abbrev pub listeners_of : PluginSpec → List Listener
listeners_of p = map (listener_of p.name) (keep has_port p.services)

-- The listeners of some plugins, in order.
abbrev pub listeners : List PluginSpec → List Listener
listeners = flat_map listeners_of

-- The section of config.yaml for some plugins, with an address for each listener.
module _ (address : Listener → String) where
  abbrev entry : Listener → String
  entry l = concat (
      "        "
      ∷ l.service
      ∷ ":\n          listener:\n            enabled: true\n            listen: \"0.0.0.0:"
      ∷ format_int l.port
      ∷ "\"\n            advertise: \""
      ∷ address l
      ∷ "\"\n"
      ∷ [])

  -- A plugin has a part in it only where it has a listener.
  abbrev part : String → List Listener → String
  part name [] = ""
  part name (l ∷ ls) =
      concat ("    " ∷ name ∷ ":\n      service:\n" ∷ concat (map entry (l ∷ ls)) ∷ [])

  abbrev parts : List PluginSpec → String
  parts plugins = concat (map (λ (p : PluginSpec). part p.name (listeners_of p)) plugins)

  abbrev pub section : List PluginSpec → String
  section plugins = if is_empty (listeners plugins) then "" else "  plugin:\n" <> parts plugins

module _ ⦃K : Platform⦄ where
  -- The text that stands for the address of a listener.
  abbrev pub marker : Listener → String
  marker l =
      "__PLUGIN_ADVERTISE_"
      <> to_upper K.unicode_upper l.plugin
      <> "_"
      <> to_upper K.unicode_upper l.service
      <> "__"

  abbrev entry_of : PluginServiceSpec → SvcEntry
  entry_of s = record { name = s.name; port = s.listener_port }

  svc_entries-kept :
      (services : List PluginServiceSpec)
      → svc_entries services ≡ map entry_of (keep has_port services)
  unfolding svc_entries
  svc_entries-kept [] = refl
  svc_entries-kept (s ∷ services) = by_test (has_port s) (svc_entries-kept services)
    where
      by_test :
          (b : Bool)
          → svc_entries services ≡ map entry_of (keep has_port services)
          → (if b then entry_of s ∷ svc_entries services else svc_entries services)
            ≡ map entry_of (if b then s ∷ keep has_port services else keep has_port services)
      by_test true e = ap (λ l. entry_of s ∷ l) e
      by_test false e = e

  entries_yaml :
      (plugin : String) (kept : List PluginServiceSpec)
      → map (svc_yaml plugin) (map entry_of kept)
        ≡ map (entry marker) (map (listener_of plugin) kept)
  unfolding svc_yaml placeholder
  entries_yaml plugin [] = refl
  entries_yaml plugin (s ∷ kept) =
      ap (λ l. entry marker (listener_of plugin s) ∷ l) (entries_yaml plugin kept)

  -- The entry of a plugin, before those of the others.
  abbrev with_entry : String → List SvcEntry → List PluginEntry → List PluginEntry
  with_entry name svcs more =
      if is_empty svcs then more else record { name = name; services = svcs } ∷ more

  part_yaml :
      (name : String) (kept : List PluginServiceSpec) (more : List PluginEntry)
      → concat (map plugin_yaml (with_entry name (map entry_of kept) more))
        ≡ part marker name (map (listener_of name) kept) <> concat (map plugin_yaml more)
  unfolding plugin_yaml
  part_yaml name [] more = sym (nil-append _)
  part_yaml name (s ∷ kept) more =
      ap
        (λ l.
          concat ("    " ∷ name ∷ ":\n      service:\n" ∷ concat l ∷ [])
          <> concat (map plugin_yaml more))
        (entries_yaml name (s ∷ kept))

  parts_yaml :
      (plugins : List PluginSpec)
      → concat (map plugin_yaml (plugin_entries plugins)) ≡ parts marker plugins
  unfolding plugin_entries
  parts_yaml [] = refl
  parts_yaml (p ∷ plugins) =
      ap (λ svcs. concat (map plugin_yaml (with_entry p.name svcs (plugin_entries plugins))))
        (svc_entries-kept p.services)
      ∙ (part_yaml p.name (keep has_port p.services) (plugin_entries plugins)
          ∙ ap (λ t. part marker p.name (listeners_of p) <> t) (parts_yaml plugins))

  entry_empty :
      (name : String) (kept : List PluginServiceSpec) (more : List PluginEntry) (ls : List Listener)
      → is_empty more ≡ is_empty ls
      → is_empty (with_entry name (map entry_of kept) more)
        ≡ is_empty (map (listener_of name) kept ++ ls)
  entry_empty name [] more ls e = e
  entry_empty name (s ∷ kept) more ls e = refl

  entries_empty :
      (plugins : List PluginSpec) → is_empty (plugin_entries plugins) ≡ is_empty (listeners plugins)
  unfolding plugin_entries
  entries_empty [] = refl
  entries_empty (p ∷ plugins) =
      ap (λ svcs. is_empty (with_entry p.name svcs (plugin_entries plugins)))
        (svc_entries-kept p.services)
      ∙ entry_empty p.name (keep has_port p.services) (plugin_entries plugins) (listeners plugins)
          (entries_empty plugins)

module _ ⦃K : Platform⦄ (cluster : PicoclusterDb) (tier : TierSpec) where
  -- The expression that replaces every marker of a listener by the pod's address with its port.
  abbrev pub replacement : Listener → String
  replacement l = concat (
      "-e \"s|"
      ∷ marker l
      ∷ "|$INSTANCE_NAME."
      ∷ tier.name
      ∷ "-"
      ∷ cluster.meta.name
      ∷ "-interconnect.$INSTANCE_NAMESPACE.svc.cluster.local:"
      ∷ format_int l.port
      ∷ "|g\""
      ∷ [])

  svc_exprs-kept :
      (plugin : String) (services : List PluginServiceSpec)
      → svc_exprs cluster tier plugin services
        ≡ map (sed_expr cluster tier plugin) (keep has_port services)
  unfolding svc_exprs
  svc_exprs-kept plugin [] = refl
  svc_exprs-kept plugin (s ∷ services) = ground (arith, svc_exprs-kept plugin services)

  exprs_of :
      (plugin : String) (kept : List PluginServiceSpec)
      → map (sed_expr cluster tier plugin) kept ≡ map replacement (map (listener_of plugin) kept)
  unfolding sed_expr sed_placeholder
  exprs_of plugin [] = refl
  exprs_of plugin (s ∷ kept) =
      ap (λ l. replacement (listener_of plugin s) ∷ l) (exprs_of plugin kept)

  all_exprs :
      (plugins : List PluginSpec)
      → flat_map (λ (p : PluginSpec). svc_exprs cluster tier p.name p.services) plugins
        ≡ map replacement (listeners plugins)
  all_exprs [] = refl
  all_exprs (p ∷ plugins) =
      ap₂ (λ a b. a ++ b)
        (svc_exprs-kept p.name p.services ∙ exprs_of p.name (keep has_port p.services))
        (all_exprs plugins)
      ∙ sym (map-append replacement (listeners_of p) (listeners plugins))

  -- For the services of the tier's plugins that have a port, in order: the plugin section of
  -- config.yaml has for each its name, its port and a marker as the address to advertise, and is empty
  -- where there is none; and the expressions of the init container are, one for each, the replacement
  -- of that very marker by the address of the pod with that port.
  pub sed_exprs-build_plugin_listener_config :
      (build_plugin_listener_config tier ≡ section marker tier.plugins)
      × (sed_exprs cluster tier ≡ map replacement (listeners tier.plugins))
  unfolding sed_exprs build_plugin_listener_config
  sed_exprs-build_plugin_listener_config = (
    ap₂ (λ b text. if b then "" else "  plugin:\n" <> text) (entries_empty tier.plugins)
        (parts_yaml tier.plugins),
    all_exprs tier.plugins,
  )
