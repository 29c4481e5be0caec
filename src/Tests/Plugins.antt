-- ===== src/Tests/Plugins.antt =====
-- The theorems about plugins at the sample cluster and the sample world.
use picodata_operator.Base.{
  ◌≡◌, ◌≢◌, refl, true, false, eq_iff, none, some, List, [], ◌∷◌, map, inl, In, ◌↔◌, flat_map,
}
use picodata_operator.Base.Maps.{lookup, insert}
use picodata_operator.World.Exec.{perform, pure, ◌>>=◌, attempt, wrapped, each, when, finally}
use picodata_operator.World.Follows.{IsOk, Progress, Answers, sent}
use picodata_operator.Plugins.Sql
use picodata_operator.Plugins.Queries.{
  PluginService, query_plugin_state, query_plugin_services, readable, read_state, services_of,
  contains_string, unless_error,
}
use picodata_operator.Plugins.{
  reconcile_plugin, reconcile_tier_plugins, reconcile_plugins, with_connection, bind_service,
  ensure_enabled, prepare_plugin, add_service, set_context, run_sql,
}
use picodata_operator.Plugins.Secrets.{get_admin_password, found_or_missing}
use picodata_operator.Plugins.Order.{reconcile_plugin-lifecycle, lifecycle}
use picodata_operator.Plugins.Enabled.{reconcile_tier_plugins-enabled, enabled_status}
use picodata_operator.Plugins.Obsolete.{
  is_desired, desired_versions, desired_from, drop_obsolete_plugins, drop_if_obsolete, remove,
}
use picodata_operator.Plugins.Cleanup.{
  is_desired_iff, declared_version, drop_obsolete_plugins-removal, foreign_plugin-dropped, removal,
}
use picodata_operator.Tests.Sample.{
  sample_platform, sample_env, sample_cluster, router_tier, weather,
}

reconcile_plugin-lifecycle_example :
    (services : List PluginService) × Progress
      (reconcile_plugin 7 weather "router" none)
      (lifecycle weather "router" (record { found = false; enabled = false }) services)
    × (IsOk (reconcile_plugin 7 weather "router" none).outcome
        → Answers (query_plugin_services 7 "weather" "0.1.0") services)
unfolding query_plugin_state perform ◌>>=◌ read_state unless_error pure
reconcile_plugin-lifecycle_example =
    reconcile_plugin-lifecycle 7 weather "router" none (record { found = false; enabled = false })
      refl

reconcile_tier_plugins-enabled_example :
    enabled_status weather ∷ [] ≡ map enabled_status (weather ∷ [])
unfolding reconcile_tier_plugins get_admin_password found_or_missing lookup with_connection
    reconcile_plugins reconcile_plugin query_plugin_state read_state unless_error
    query_plugin_services services_of bind_service contains_string ensure_enabled prepare_plugin
    add_service set_context run_sql wrapped perform pure when each attempt finally ◌>>=◌
    drop_obsolete_plugins readable drop_if_obsolete is_desired desired_versions insert
reconcile_tier_plugins-enabled_example =
    reconcile_tier_plugins-enabled sample_cluster router_tier none (enabled_status weather ∷ [])
      refl

is_desired_iff_example :
    (is_desired (desired_versions (weather ∷ [])) "weather" "0.0.9" ≡ true)
    ↔ (declared_version "weather" (weather ∷ []) ≡ some "0.0.9")
is_desired_iff_example = is_desired_iff (weather ∷ []) "weather" "0.0.9"

drop_obsolete_plugins-removal_example :
    Progress
      (drop_obsolete_plugins 7 router_tier none)
      (flat_map (removal (desired_versions (weather ∷ []))) (("archive", "1.0", true) ∷ []))
unfolding perform readable
drop_obsolete_plugins-removal_example =
    drop_obsolete_plugins-removal 7 router_tier none
      (record { scanned = inl ("archive", "1.0", true) ∷ []; error = none; first_error = none })
      refl refl

other_name : weather.name ≢ "archive"
other_name e = let h : false ≡ true = (eq_iff "weather" "archive").1 e in cc

foreign_plugin-dropped_example :
    In (Sql.drop "archive" "1.0") (sent (drop_obsolete_plugins 7 router_tier none).calls)
unfolding perform readable drop_obsolete_plugins unless_error drop_if_obsolete each when remove
    wrapped pure ◌>>=◌ is_desired desired_versions desired_from lookup insert
foreign_plugin-dropped_example =
    foreign_plugin-dropped 7 router_tier none
      (record { scanned = inl ("archive", "1.0", true) ∷ []; error = none; first_error = none })
      "archive" "1.0" true refl refl (inl refl) (other_name, tt) tt
