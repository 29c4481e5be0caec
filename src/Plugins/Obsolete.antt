-- ===== src/Plugins/Obsolete.antt =====
-- internal/controller/plugin.go: `dropObsoletePlugins`.
use picodata_operator.Base.{
  String, ◌==◌, ◌<>◌, Bool, false, Option, none, some, List, [], ◌∷◌, if◌then◌else◌,
}
use picodata_operator.Base.Maps.{Labels, lookup, insert}
use picodata_operator.Kube.Platform.{Platform}
use picodata_operator.Api.Spec.{TierSpec, PluginSpec}
use picodata_operator.World.Calls.{Env, exec, query_plugins}
use picodata_operator.World.Exec.{Exec, pure, wrapped, perform, ◌>>=◌, ◌>>◌, when, each}
use picodata_operator.Plugins.Sql
use picodata_operator.Plugins.Queries.{readable, unless_error}

-- name → version; a later plugin of the same name overwrites.
unfoldable pub desired_from : Labels → List PluginSpec → Labels
desired_from desired [] = desired
desired_from desired (p ∷ plugins) = desired_from (insert p.name p.version desired) plugins

unfoldable pub desired_versions : List PluginSpec → Labels
unfolding desired_from
desired_versions plugins = desired_from [] plugins

abbrev pub is_version : String → Option String → Bool
is_version version none = false
is_version version (some want) = version == want

-- The test of the loop: the installed version is the one that the spec wants.
unfoldable pub is_desired : Labels → String → String → Bool
is_desired desired name version = is_version version (lookup name desired)

module _ ⦃K : Platform⦄ ⦃E : Env⦄ (conn : K.Conn) where
  unfoldable pub remove : String → String → Bool → Exec (Unit {0})
  remove name version enabled = do
    when enabled (
        wrapped ("DISABLE PLUGIN " <> name <> " " <> version)
          (perform (exec conn (Sql.disable name version))))
    wrapped ("DROP PLUGIN " <> name <> " " <> version) (perform (exec conn (Sql.drop name version)))

  -- One round of the loop over the installed versions.
  unfoldable pub drop_if_obsolete : Labels → String × String × Bool → Exec (Unit {0})
  unfolding remove
  drop_if_obsolete desired (name, version, enabled) =
      if is_desired desired name version then pure tt else remove name version enabled

  unfoldable pub drop_obsolete_plugins : TierSpec → Exec (Unit {0})
  drop_obsolete_plugins tier = do
    rows ← perform (query_plugins conn Sql.select_plugins)
    installed ← unless_error rows.error (readable rows.scanned)
    each (drop_if_obsolete (desired_versions tier.plugins)) installed
