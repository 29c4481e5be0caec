-- ===== src/Plugins/Enabled.antt =====
-- What `reconcileTierPlugins` reports where it ends well.
use picodata_operator.Base.{
  String, ◌≡◌, refl, Bool, true, false, List, [], ◌∷◌, map, is_empty, if◌then◌else◌,
}
use picodata_operator.Kube.Platform.{Platform}
use picodata_operator.Api.{PicoclusterDb}
use picodata_operator.Api.Spec.{TierSpec, PluginSpec}
use picodata_operator.Api.Status.{PluginStatus}
use picodata_operator.World.Errors.{ok}
use picodata_operator.World.Exec.{Exec, pure}
use picodata_operator.World.Calls.{Env}
use picodata_operator.World.Outcomes.{
  Ensures, Ensures-pure, Ensures-bind, Ensures-bind_with, Ensures-wrapped, Ensures-finally,
}
use picodata_operator.Plugins.{
  reconcile_plugin, reconcile_plugins, ensure_enabled, with_connection, connect_and_reconcile,
  reconcile_tier_plugins,
}

-- A plugin at the version of the spec, enabled.
abbrev pub enabled_status : PluginSpec → PluginStatus
enabled_status plugin = record { name = plugin.name; version = plugin.version; enabled = true }

module _ ⦃K : Platform⦄ ⦃E : Env⦄ (conn : K.Conn) where
  ensure_enabled-true :
      (plugin : PluginSpec) (b : Bool) → Ensures (ensure_enabled conn plugin b) (λ e. e ≡ true)
  unfolding ensure_enabled
  ensure_enabled-true plugin true = Ensures-pure true refl
  ensure_enabled-true plugin false = Ensures-bind _ _ (λ _. Ensures-pure true refl)

  reconcile_plugin-enabled :
      (plugin : PluginSpec) (tier_name : String)
      → Ensures (reconcile_plugin conn plugin tier_name) (λ status. status ≡ enabled_status plugin)
  unfolding reconcile_plugin
  reconcile_plugin-enabled plugin tier_name = Ensures-bind _ _ λ state. Ensures-bind _ _ λ _.
      Ensures-bind _ _ λ _. Ensures-bind _ _ λ services. Ensures-bind _ _ λ _.
        Ensures-bind_with _ _ (ensure_enabled-true plugin state.enabled)
          λ e is_true. Ensures-pure _ (cc)

  reconcile_plugins-enabled :
      (tier_name : String) (plugins : List PluginSpec)
      → Ensures
          (reconcile_plugins conn tier_name plugins)
          (λ statuses. statuses ≡ map enabled_status plugins)
  unfolding reconcile_plugins
  reconcile_plugins-enabled tier_name [] = Ensures-pure [] refl
  reconcile_plugins-enabled tier_name (plugin ∷ plugins) =
      Ensures-bind_with _ _ (Ensures-wrapped _ _ (reconcile_plugin-enabled plugin tier_name))
        λ status e.
          Ensures-bind_with _ _ (reconcile_plugins-enabled tier_name plugins)
            λ statuses es. Ensures-pure _ (cc)

module _ ⦃K : Platform⦄ ⦃E : Env⦄ (cluster : PicoclusterDb) (tier : TierSpec) where
  with_connection-enabled :
      (conn : K.Conn)
      → Ensures (with_connection conn tier) (λ statuses. statuses ≡ map enabled_status tier.plugins)
  unfolding with_connection
  with_connection-enabled conn =
      Ensures-bind_with _ _ (reconcile_plugins-enabled conn tier.name tier.plugins)
        λ statuses e. Ensures-bind _ _ (λ _. Ensures-pure _ e)

  connect_and_reconcile-enabled :
      Ensures
        (connect_and_reconcile cluster tier)
        (λ statuses. statuses ≡ map enabled_status tier.plugins)
  unfolding connect_and_reconcile
  connect_and_reconcile-enabled =
      Ensures-bind _ _
        λ password. Ensures-bind _ _ λ conn. Ensures-finally _ _ (with_connection-enabled conn)

  unless_empty :
      (plugins : List PluginSpec) (m : Exec (List PluginStatus))
      → Ensures m (λ statuses. statuses ≡ map enabled_status plugins)
      → Ensures
          (if is_empty plugins then pure [] else m)
          (λ statuses. statuses ≡ map enabled_status plugins)
  unless_empty [] m h = Ensures-pure [] refl
  unless_empty (p ∷ ps) m h = h

  -- Whatever the world answers, a good outcome has one status for each plugin of the tier, in the
  -- order of the spec, at the version of the spec and enabled.
  pub reconcile_tier_plugins-enabled :
      (w : E.W) (statuses : List PluginStatus)
      → (reconcile_tier_plugins cluster tier w).outcome ≡ ok statuses
      → statuses ≡ map enabled_status tier.plugins
  unfolding reconcile_tier_plugins
  reconcile_tier_plugins-enabled w statuses h =
      (unless_empty tier.plugins _ connect_and_reconcile-enabled).at w statuses h
