-- ===== src/Plugins/Sql.antt =====
-- internal/controller/plugin.go: the statements and the queries that are sent.
use picodata_operator.Base.{String, ◌∷◌, []}
use picodata_operator.Base.Text.{concat}
use picodata_operator.Api.Spec.{PluginSpec}

unfoldable pub create : PluginSpec → String
create plugin = concat ("CREATE PLUGIN " ∷ plugin.name ∷ " " ∷ plugin.version ∷ [])

unfoldable pub add_service : PluginSpec → String → String → String
add_service plugin svc tier_name = concat (
    "ALTER PLUGIN " ∷ plugin.name ∷ " " ∷ plugin.version ∷ " ADD SERVICE " ∷ svc ∷ " TO TIER "
    ∷ tier_name ∷ [])

unfoldable pub set_migration_context : PluginSpec → String → String → String
set_migration_context plugin k v = concat (
    "ALTER PLUGIN " ∷ plugin.name ∷ " " ∷ plugin.version ∷ " SET migration_context." ∷ k ∷ "='" ∷ v
    ∷ "' OPTION(TIMEOUT=1200)" ∷ [])

unfoldable pub migrate : PluginSpec → String
migrate plugin = concat ("ALTER PLUGIN " ∷ plugin.name ∷ " MIGRATE TO " ∷ plugin.version ∷ [])

unfoldable pub enable : PluginSpec → String
enable plugin = concat ("ALTER PLUGIN " ∷ plugin.name ∷ " " ∷ plugin.version ∷ " ENABLE" ∷ [])

unfoldable pub disable : String → String → String
disable name version = concat ("ALTER PLUGIN " ∷ name ∷ " " ∷ version ∷ " DISABLE" ∷ [])

unfoldable pub drop : String → String → String
drop name version = concat ("DROP PLUGIN " ∷ name ∷ " " ∷ version ∷ [])

unfoldable pub select_enabled : String → String → String
select_enabled name version = concat (
    "SELECT enabled FROM _pico_plugin WHERE name = '" ∷ name ∷ "' AND version = '" ∷ version ∷ "'"
    ∷ [])

unfoldable pub select_services : String → String → String
select_services name version = concat (
    "SELECT name, tiers FROM _pico_service WHERE plugin_name = '" ∷ name ∷ "' AND version = '"
    ∷ version ∷ "'" ∷ [])

abbrev pub select_plugins : String
select_plugins = "SELECT name, version, enabled FROM _pico_plugin"
