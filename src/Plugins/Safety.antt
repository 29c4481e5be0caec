-- ===== src/Plugins/Safety.antt =====
-- The plugins' part of a round, seen through its calls.
use picodata_operator.Base.{
  String, ◌≡◌, refl, Bool, true, false, Option, none, some, List, [], ◌∷◌, ◌⊎◌, inl, inr,
}
use picodata_operator.Base.Maps.{lookup}
use picodata_operator.Kube.Platform.{Platform}
use picodata_operator.Api.{PicoclusterDb}
use picodata_operator.Api.Spec.{TierSpec, PluginSpec, PluginServiceSpec}
use picodata_operator.World.Errors.{GoError}
use picodata_operator.World.Calls.{
  Env, Call, create_config_map, create_service, create_ingress, create_stateful_set,
  delete_stateful_set, get_secret, exec, query_plugin_enabled, query_services, query_plugins,
  connect, close,
}
use picodata_operator.World.Exec.{perform}
use picodata_operator.World.Guarded.{
  Returns, Guarded, Guarded-pure, Guarded-raise, Guarded-wrapped, Guarded-attempt, Guarded-finally,
  Guarded-bind, Guarded-when, Guarded-each, Guarded-perform, Guarded-if,
}
use picodata_operator.Plugins.Sql
use picodata_operator.Plugins.Queries.{
  query_plugin_state, query_plugin_services, read_state, unless_error, services_of,
}
use picodata_operator.Plugins.Secrets.{get_admin_password, found_or_missing}
use picodata_operator.Plugins.Obsolete.{
  desired_versions, remove, drop_if_obsolete, drop_obsolete_plugins,
}
use picodata_operator.Plugins.{
  reconcile_plugin, reconcile_plugins, prepare_plugin, run_sql, add_service, set_context,
  bind_service, ensure_enabled, with_connection, connect_and_reconcile, reconcile_tier_plugins,
  conn_str,
}

-- The calls that want a cause: creations, deletions and connections.
abbrev pub is_watched : ⦃K : Platform⦄ → Call → Bool
is_watched (create_config_map d) = true
is_watched (create_service d) = true
is_watched (create_ingress d) = true
is_watched (create_stateful_set d) = true
is_watched (delete_stateful_set sts) = true
is_watched (connect conn_str) = true
is_watched _ = false

-- A statement or a query on one connection.
abbrev pub OnConnection : ⦃K : Platform⦄ → K.Conn → Call → Type 0
OnConnection conn (exec c sql) = c ≡ conn
OnConnection conn (query_plugin_enabled c sql) = c ≡ conn
OnConnection conn (query_plugins c sql) = c ≡ conn
OnConnection conn (query_services c sql) = c ≡ conn
OnConnection conn _ = ⊥

OnConnection-free :
    ⦃K : Platform⦄ → (conn : K.Conn) (c : Call) → OnConnection conn c → is_watched c ≡ false
OnConnection-free conn (exec c sql) h = refl
OnConnection-free conn (query_plugin_enabled c sql) h = refl
OnConnection-free conn (query_plugins c sql) h = refl
OnConnection-free conn (query_services c sql) h = refl
OnConnection-free conn _ h = absurd h

-- A predicate that holds of all that is done on a connection, in a world whose calls never panic.
module _ ⦃K : Platform⦄ ⦃E : Env⦄ (P : Call → Type 0)
    (calm : (c : Call) (w : E.W) → Returns (E.respond c w).0) (conn : K.Conn)
    (free : (c : Call) → OnConnection conn c → P c) where
  statement-Guarded : (c : Call) → OnConnection conn c → Guarded P (perform c)
  statement-Guarded c h = Guarded-perform P c (free c h) (calm c)

  unless_error-Guarded : {A : Type 0} (e : Option GoError) (a : A) → Guarded P (unless_error e a)
  unfolding unless_error
  unless_error-Guarded none a = Guarded-pure P a
  unless_error-Guarded (some e) a = Guarded-raise P e

  read_state-Guarded :
      (rows : List (Bool ⊎ GoError)) (e f : Option GoError) → Guarded P (read_state rows e f)
  unfolding read_state
  read_state-Guarded [] e f = unless_error-Guarded e _
  read_state-Guarded (inl enabled ∷ rows) e f = unless_error-Guarded f _
  read_state-Guarded (inr x ∷ rows) e f = Guarded-raise P x

  run_sql-Guarded : (text sql : String) → Guarded P (run_sql conn text sql)
  unfolding run_sql
  run_sql-Guarded text sql = Guarded-wrapped P text _ (statement-Guarded (exec conn sql) refl)

  add_service-Guarded :
      (plugin : PluginSpec) (tier_name svc : String)
      → Guarded P (add_service conn plugin tier_name svc)
  unfolding add_service
  add_service-Guarded plugin tier_name svc = run_sql-Guarded _ _

  set_context-Guarded :
      (plugin : PluginSpec) (kv : String × String) → Guarded P (set_context conn plugin kv)
  unfolding set_context
  set_context-Guarded plugin (k, v) = run_sql-Guarded _ _

  prepare_plugin-Guarded :
      (plugin : PluginSpec) (tier_name : String) → Guarded P (prepare_plugin conn plugin tier_name)
  unfolding prepare_plugin
  prepare_plugin-Guarded plugin tier_name =
      Guarded-bind P _ _
        (Guarded-each P _
          (λ (svc : PluginServiceSpec). add_service-Guarded plugin tier_name svc.name)
          plugin.services)
        λ _.
          Guarded-bind P _ _
            (Guarded-each P _ (set_context-Guarded plugin) plugin.migration_context)
            λ _. run_sql-Guarded _ _

  ensure_enabled-Guarded :
      (plugin : PluginSpec) (enabled : Bool) → Guarded P (ensure_enabled conn plugin enabled)
  unfolding ensure_enabled
  ensure_enabled-Guarded plugin true = Guarded-pure P true
  ensure_enabled-Guarded plugin false =
      Guarded-bind P _ _ (run_sql-Guarded _ _) (λ _. Guarded-pure P true)

  query_plugin_state-Guarded :
      (name version : String) → Guarded P (query_plugin_state conn name version)
  unfolding query_plugin_state
  query_plugin_state-Guarded name version =
      Guarded-bind P _ _
        (statement-Guarded (query_plugin_enabled conn (Sql.select_enabled name version)) refl)
        (λ rows. read_state-Guarded rows.scanned rows.error rows.first_error)

  query_plugin_services-Guarded :
      (name version : String) → Guarded P (query_plugin_services conn name version)
  unfolding query_plugin_services
  query_plugin_services-Guarded name version =
      Guarded-bind P _ _
        (statement-Guarded (query_services conn (Sql.select_services name version)) refl)
        (λ rows. unless_error-Guarded rows.error (services_of rows.scanned))

  reconcile_plugin-Guarded :
      (plugin : PluginSpec) (tier_name : String)
      → Guarded P (reconcile_plugin conn plugin tier_name)
  unfolding reconcile_plugin bind_service
  reconcile_plugin-Guarded plugin tier_name =
      Guarded-bind P _ _ (query_plugin_state-Guarded _ _) λ state.
        Guarded-bind P _ _ (Guarded-when P _ (run_sql-Guarded _ _)) λ _.
          Guarded-bind P _ _ (Guarded-when P _ (prepare_plugin-Guarded plugin tier_name)) λ _.
            Guarded-bind P _ _ (query_plugin_services-Guarded _ _) λ services.
              Guarded-bind P _ _
                (Guarded-each P _ (λ svc. Guarded-when P _ (add_service-Guarded plugin tier_name _))
                  services)
                λ _.
                  Guarded-bind P _ _ (ensure_enabled-Guarded plugin state.enabled)
                    λ e. Guarded-pure P _

  reconcile_plugins-Guarded :
      (tier_name : String) (plugins : List PluginSpec)
      → Guarded P (reconcile_plugins conn tier_name plugins)
  unfolding reconcile_plugins
  reconcile_plugins-Guarded tier_name [] = Guarded-pure P []
  reconcile_plugins-Guarded tier_name (plugin ∷ plugins) =
      Guarded-bind P _ _ (Guarded-wrapped P _ _ (reconcile_plugin-Guarded plugin tier_name))
        λ status.
          Guarded-bind P _ _ (reconcile_plugins-Guarded tier_name plugins)
            λ statuses. Guarded-pure P _

  remove-Guarded :
      (name version : String) (enabled : Bool) → Guarded P (remove conn name version enabled)
  unfolding remove
  remove-Guarded name version enabled =
      Guarded-bind P _ _
        (Guarded-when P enabled
          (Guarded-wrapped P _ _ (statement-Guarded (exec conn (Sql.disable name version)) refl)))
        λ _. Guarded-wrapped P _ _ (statement-Guarded (exec conn (Sql.drop name version)) refl)

  drop_obsolete_plugins-Guarded : (tier : TierSpec) → Guarded P (drop_obsolete_plugins conn tier)
  unfolding drop_obsolete_plugins drop_if_obsolete
  drop_obsolete_plugins-Guarded tier =
      Guarded-bind P _ _ (statement-Guarded (query_plugins conn Sql.select_plugins) refl) λ rows.
        Guarded-bind P _ _ (unless_error-Guarded rows.error _)
          λ installed. Guarded-each P _ round installed
    where
      round :
          (row : String × String × Bool)
          → Guarded P (drop_if_obsolete conn (desired_versions tier.plugins) row)
      round (name, version, enabled) =
          Guarded-if P _ (λ _. Guarded-pure P tt) (remove-Guarded name version enabled)

  pub with_connection-Guarded : (tier : TierSpec) → Guarded P (with_connection conn tier)
  unfolding with_connection
  with_connection-Guarded tier =
      Guarded-bind P _ _ (reconcile_plugins-Guarded tier.name tier.plugins) λ statuses.
        Guarded-bind P _ _ (Guarded-attempt P _ (drop_obsolete_plugins-Guarded tier))
          λ _. Guarded-pure P statuses

-- A predicate that holds of every call but those that want a cause, in such a world.
module _ ⦃K : Platform⦄ ⦃E : Env⦄ (P : Call → Type 0)
    (free : (c : Call) → is_watched c ≡ false → P c)
    (calm : (c : Call) (w : E.W) → Returns (E.respond c w).0) where
  call-Guarded : (c : Call) → is_watched c ≡ false → Guarded P (perform c)
  call-Guarded c h = Guarded-perform P c (free c h) (calm c)

  get_admin_password-Guarded : (cluster : PicoclusterDb) → Guarded P (get_admin_password cluster)
  unfolding get_admin_password found_or_missing
  get_admin_password-Guarded cluster =
      Guarded-bind P _ _ (call-Guarded (get_secret _) refl)
        (λ secret. missing _ _ (lookup cluster.spec.admin_password.key secret.contents))
    where
      missing : (k s : String) (o : Option String) → Guarded P (found_or_missing k s o)
      missing k s none = Guarded-raise P _
      missing k s (some v) = Guarded-pure P v

  pub reconcile_tier_plugins-Guarded :
      (cluster : PicoclusterDb) (tier : TierSpec)
      → ((password : String) → P (connect (conn_str cluster tier password)))
      → Guarded P (reconcile_tier_plugins cluster tier)
  unfolding reconcile_tier_plugins connect_and_reconcile
  reconcile_tier_plugins-Guarded cluster tier connects =
      Guarded-if P _ (λ _. Guarded-pure P [])
        (Guarded-bind P _ _ (Guarded-wrapped P _ _ (get_admin_password-Guarded cluster)) λ password.
          Guarded-bind P _ _
            (Guarded-wrapped P _ _ (
              Guarded-perform P (connect (conn_str cluster tier password)) (connects password)
                (calm _)))
            λ conn.
              Guarded-finally P _ _
                (with_connection-Guarded P calm conn (λ c h. free c (OnConnection-free conn c h))
                  tier)
                (call-Guarded (close conn) refl))
