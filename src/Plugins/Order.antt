-- ===== src/Plugins/Order.antt =====
-- The statements that `reconcilePlugin` sends, whatever the database answers.
use picodata_operator.Base.{
  String, ◌≡◌, refl, Bool, true, false, not, Option, none, some, ◌⊎◌, inl, inr, List, [], ◌∷◌, ◌++◌,
  flat_map, append-nil,
}
use mathlib.Core.Path.{subst}
use picodata_operator.Kube.Platform.{Platform}
use picodata_operator.Api.Spec.{PluginSpec, PluginServiceSpec}
use picodata_operator.Api.Status.{PluginStatus}
use picodata_operator.World.Errors.{GoError, ok}
use picodata_operator.World.Calls.{Env, query_plugin_enabled, query_services}
use picodata_operator.World.Exec.{pure, ◌>>=◌}
use picodata_operator.World.Follows.{
  IsOk, Progress, Follows, Answers, Follows-pure, Follows-raise, Follows-perform, Follows-exec,
  Follows-bind, Follows-when, Follows-each, FollowsSome-bind, FollowsSome-told, bind_known, plan_if,
}
use picodata_operator.Plugins.Sql
use picodata_operator.Plugins.Queries.{
  PluginService, PluginState, query_plugin_state, query_plugin_services, contains_string,
  read_state, unless_error, services_of,
}
use picodata_operator.Plugins.{
  reconcile_plugin, prepare_plugin, run_sql, add_service, set_context, bind_service, ensure_enabled,
}

module _ ⦃K : Platform⦄ where
  abbrev context_statement : PluginSpec → String × String → String
  context_statement plugin (k, v) = Sql.set_migration_context plugin k v

  -- ADD SERVICE for the services of the spec, SET for the migration context, MIGRATE.
  abbrev preparation : PluginSpec → String → List String
  preparation plugin tier_name =
      flat_map (λ (svc : PluginServiceSpec). Sql.add_service plugin svc.name tier_name ∷ [])
        plugin.services
      ++ (flat_map (λ kv. context_statement plugin kv ∷ []) plugin.migration_context
          ++ Sql.migrate plugin ∷ [])

  -- ADD SERVICE for a service of the database, unless it is bound to the tier.
  abbrev binding : PluginSpec → String → PluginService → List String
  binding plugin tier_name svc =
      plan_if (not (contains_string svc.tiers tier_name))
        (Sql.add_service plugin svc.name tier_name ∷ [])

  -- The life cycle of a plugin, from its state and from the services that the database has.
  abbrev pub lifecycle : PluginSpec → String → PluginState → List PluginService → List String
  lifecycle plugin tier_name state services =
      plan_if (not state.found) (Sql.create plugin ∷ [])
      ++ (plan_if (not state.enabled) (preparation plugin tier_name)
          ++ (flat_map (binding plugin tier_name) services
              ++ plan_if (not state.enabled) (Sql.enable plugin ∷ [])))

module _ ⦃K : Platform⦄ ⦃E : Env⦄ (conn : K.Conn) (plugin : PluginSpec) (tier_name : String) where
  add_service-Follows :
      (svc : String)
      → Follows (add_service conn plugin tier_name svc) (Sql.add_service plugin svc tier_name ∷ [])
  unfolding add_service run_sql
  add_service-Follows svc = Follows-exec conn _ _

  set_context-Follows :
      (kv : String × String)
      → Follows (set_context conn plugin kv) (context_statement plugin kv ∷ [])
  unfolding set_context run_sql
  set_context-Follows (k, v) = Follows-exec conn _ _

  run_sql-Follows : (text sql : String) → Follows (run_sql conn text sql) (sql ∷ [])
  unfolding run_sql
  run_sql-Follows text sql = Follows-exec conn text sql

  prepare_plugin-Follows :
      Follows (prepare_plugin conn plugin tier_name) (preparation plugin tier_name)
  unfolding prepare_plugin
  prepare_plugin-Follows =
      Follows-bind _ _
        (Follows-each _ _ (λ (svc : PluginServiceSpec). add_service-Follows svc.name)
          plugin.services)
        λ _.
          Follows-bind _ _ (Follows-each _ _ set_context-Follows plugin.migration_context)
            λ _. run_sql-Follows _ _

  bind_service-Follows :
      (svc : PluginService)
      → Follows (bind_service conn plugin tier_name svc) (binding plugin tier_name svc)
  unfolding bind_service
  bind_service-Follows svc = Follows-when _ (add_service-Follows svc.name)

  ensure_enabled-Follows :
      (enabled : Bool)
      → Follows
          (ensure_enabled conn plugin enabled)
          (plan_if (not enabled) (Sql.enable plugin ∷ []))
  unfolding ensure_enabled
  ensure_enabled-Follows true = Follows-pure true
  ensure_enabled-Follows false = Follows-bind _ _ (run_sql-Follows _ _) (λ _. Follows-pure true)

  unless_error-Follows : {A : Type 0} (e : Option GoError) (a : A) → Follows (unless_error e a) []
  unfolding unless_error
  unless_error-Follows none a = Follows-pure a
  unless_error-Follows (some e) a = Follows-raise e

  read_state-Follows :
      (rows : List (Bool ⊎ GoError)) (e f : Option GoError) → Follows (read_state rows e f) []
  unfolding read_state
  read_state-Follows [] e f = unless_error-Follows e _
  read_state-Follows (inl enabled ∷ rows) e f = unless_error-Follows f _
  read_state-Follows (inr x ∷ rows) e f = Follows-raise x

  query_plugin_state-Follows : Follows (query_plugin_state conn plugin.name plugin.version) []
  unfolding query_plugin_state
  query_plugin_state-Follows =
      Follows-bind _ _ (Follows-perform (query_plugin_enabled conn _) refl)
        (λ rows. read_state-Follows rows.scanned rows.error rows.first_error)

  query_plugin_services-Follows : Follows (query_plugin_services conn plugin.name plugin.version) []
  unfolding query_plugin_services
  query_plugin_services-Follows =
      Follows-bind _ _ (Follows-perform (query_services conn _) refl)
        (λ rows. unless_error-Follows rows.error (services_of rows.scanned))

  abbrev status_of : Bool → PluginStatus
  status_of e = record { name = plugin.name; version = plugin.version; enabled = e }

  finish-Follows :
      (enabled : Bool)
      → Follows
          (ensure_enabled conn plugin enabled >>= λ e. pure (status_of e))
          (plan_if (not enabled) (Sql.enable plugin ∷ []))
  finish-Follows enabled =
      subst (Follows _) (append-nil _)
        (Follows-bind _ _ (ensure_enabled-Follows enabled) (λ e. Follows-pure _))

  -- With the state that the database has shown, the statements sent are an initial part of the life
  -- cycle for some list of services, in its order, and where the reconciliation ends well they are
  -- all of it, and the services are what the second query was answered with.
  pub reconcile_plugin-lifecycle :
      (w : E.W) (state : PluginState)
      → (query_plugin_state conn plugin.name plugin.version w).outcome ≡ ok state
      → (services : List PluginService) × Progress
          (reconcile_plugin conn plugin tier_name w)
          (lifecycle plugin tier_name state services)
        × (IsOk (reconcile_plugin conn plugin tier_name w).outcome
            → Answers (query_plugin_services conn plugin.name plugin.version) services)
  unfolding reconcile_plugin
  reconcile_plugin-lifecycle w state known =
      bind_known (query_plugin_state conn plugin.name plugin.version) _ w state known
        query_plugin_state-Follows
        (FollowsSome-bind _ _ _ [] (Follows-when _ (run_sql-Follows _ _)) λ _ _.
          FollowsSome-bind _ _ _ [] (Follows-when _ prepare_plugin-Follows) λ _ _.
            FollowsSome-bind _ _ [] [] query_plugin_services-Follows λ services answered.
              FollowsSome-told _ _ _ services answered (
                Follows-bind _ _ (Follows-each _ _ bind_service-Follows services)
                  (λ _. finish-Follows state.enabled)))
