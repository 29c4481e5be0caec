-- ===== src/Plugins.antt =====
-- internal/controller/plugin.go: the plugins of a tier, over a connection to the database.
pub mod Sql
pub mod Queries
pub mod Secrets
pub mod Obsolete
pub mod Order
pub mod Enabled
pub mod Cleanup
pub mod Safety
pub mod Session
use picodata_operator.Base.{
  String, ◌<>◌, Bool, true, false, not, List, [], ◌∷◌, is_empty, if◌then◌else◌,
}
use picodata_operator.Base.Int.{pos}
use picodata_operator.Base.Decimal.{format_int}
use picodata_operator.Base.Text.{concat}
use picodata_operator.Kube.Platform.{Platform}
use picodata_operator.Api.{PicoclusterDb}
use picodata_operator.Api.Spec.{TierSpec, PluginSpec, PluginServiceSpec}
use picodata_operator.Api.Status.{PluginStatus}
use picodata_operator.Names.{service_port}
use picodata_operator.World.Calls.{Env, connect, close, exec}
use picodata_operator.World.Exec.{
  Exec, pure, wrapped, attempt, finally, perform, ◌>>=◌, ◌>>◌, when, each,
}
use Sql
use Queries.{PluginService, PluginState, query_plugin_state, query_plugin_services, contains_string}
use Secrets.{get_admin_password}
use Obsolete.{drop_obsolete_plugins}

module _ ⦃K : Platform⦄ ⦃E : Env⦄ (conn : K.Conn) where
  -- One `conn.Exec`, with the text that its error is wrapped in.
  unfoldable pub run_sql : String → String → Exec (Unit {0})
  run_sql text sql = wrapped text (perform (exec conn sql))

  -- `ADD SERVICE`, as both passes send it.
  unfoldable pub add_service : PluginSpec → String → String → Exec (Unit {0})
  add_service plugin tier_name svc =
      run_sql ("ADD SERVICE " <> svc <> " TO TIER") (Sql.add_service plugin svc tier_name)

  unfoldable pub set_context : PluginSpec → String × String → Exec (Unit {0})
  set_context plugin (k, v) =
      run_sql ("SET migration_context." <> k) (Sql.set_migration_context plugin k v)

  -- The steps of a plugin that is not enabled, before its services are discovered.
  unfoldable pub prepare_plugin : PluginSpec → String → Exec (Unit {0})
  prepare_plugin plugin tier_name = do
    each (λ (svc : PluginServiceSpec). add_service plugin tier_name svc.name) plugin.services
    each (set_context plugin) plugin.migration_context
    run_sql "MIGRATE PLUGIN" (Sql.migrate plugin)

  -- The pass behind the migration.
  unfoldable pub bind_service : PluginSpec → String → PluginService → Exec (Unit {0})
  bind_service plugin tier_name svc =
      when (not (contains_string svc.tiers tier_name)) (add_service plugin tier_name svc.name)

  -- The variable `enabled` behind the last step.
  unfoldable pub ensure_enabled : PluginSpec → Bool → Exec Bool
  ensure_enabled plugin true = pure true
  ensure_enabled plugin false = do run_sql "ENABLE PLUGIN" (Sql.enable plugin); pure true

  unfoldable pub reconcile_plugin : PluginSpec → String → Exec PluginStatus
  reconcile_plugin plugin tier_name = do
    state ← query_plugin_state conn plugin.name plugin.version
    when (not state.found) (run_sql "CREATE PLUGIN" (Sql.create plugin))
    when (not state.enabled) (prepare_plugin plugin tier_name)
    services ← query_plugin_services conn plugin.name plugin.version
    each (bind_service plugin tier_name) services
    enabled ← ensure_enabled plugin state.enabled
    pure (record { name = plugin.name; version = plugin.version; enabled = enabled })

  -- The loop over `tier.Plugins`.
  unfoldable pub reconcile_plugins : String → List PluginSpec → Exec (List PluginStatus)
  reconcile_plugins tier_name [] = pure []
  reconcile_plugins tier_name (plugin ∷ plugins) =
      let more = reconcile_plugins tier_name plugins in
      do
        status ← wrapped ("plugin " <> plugin.name) (reconcile_plugin plugin tier_name)
        statuses ← more
        pure (status ∷ statuses)

  -- The part of `reconcileTierPlugins` that has a connection. An error of the clean-up is dropped.
  unfoldable pub with_connection : TierSpec → Exec (List PluginStatus)
  with_connection tier = do
    statuses ← reconcile_plugins tier.name tier.plugins
    attempt (drop_obsolete_plugins conn tier)
    pure statuses

module _ ⦃K : Platform⦄ ⦃E : Env⦄ where
  unfoldable pub svc_host : PicoclusterDb → TierSpec → String
  svc_host cluster tier = concat (
      tier.name ∷ "-" ∷ cluster.meta.name ∷ "." ∷ cluster.meta.namespace ∷ ".svc.cluster.local"
      ∷ [])

  unfoldable pub conn_str : PicoclusterDb → TierSpec → String → String
  conn_str cluster tier password = concat (
      "host="
      ∷ svc_host cluster tier
      ∷ " port="
      ∷ format_int (service_port cluster.spec.service.pg_port (pos 5432))
      ∷ " user=admin password="
      ∷ password
      ∷ " dbname=picodata sslmode=disable"
      ∷ [])

  connect_and_reconcile : PicoclusterDb → TierSpec → Exec (List PluginStatus)
  unfolding conn_str
  connect_and_reconcile cluster tier = do
    password ← wrapped "get admin password" (get_admin_password cluster)
    conn ←
        wrapped ("connect to " <> svc_host cluster tier)
          (perform (connect (conn_str cluster tier password)))
    finally (with_connection conn tier) (perform (close conn))

  unfoldable pub reconcile_tier_plugins : PicoclusterDb → TierSpec → Exec (List PluginStatus)
  unfolding connect_and_reconcile
  reconcile_tier_plugins cluster tier =
      if is_empty tier.plugins then pure [] else connect_and_reconcile cluster tier
