-- ===== src/Plugins/Cleanup.antt =====
-- Which versions `dropObsoletePlugins` removes.
use mathlib.Core.Path.{subst}
use mathlib.Core.Option.{some-ne-none}
use picodata_operator.Base.{
  String, ◌==◌, eq_iff, ◌≡◌, ◌≢◌, ◌↔◌, refl, sym, ◌∙◌, ap, Bool, true, false, not, Option, none,
  some, List, [], ◌∷◌, ◌++◌, append-nil, flat_map, In, In-flat_map, In-append_right, All, inl,
  arith, if◌then◌else◌,
}
use picodata_operator.Base.Maps.{Labels, lookup, insert, lookup-insert}
use picodata_operator.Kube.Platform.{Platform}
use picodata_operator.Api.Spec.{TierSpec, PluginSpec}
use picodata_operator.World.Errors.{GoError, ok}
use picodata_operator.World.Calls.{Env, Rows, query_plugins}
use picodata_operator.World.Exec.{pure, perform, each, ◌>>=◌, pure-bind}
use picodata_operator.World.Follows.{
  IsOk, sent, Progress, Follows, Follows-pure, Follows-exec, Follows-perform, Follows-bind,
  Follows-when, Follows-each, FollowsSome-told, bind_known, plan_if,
}
use picodata_operator.Plugins.Sql
use picodata_operator.Plugins.Queries.{readable, unless_error}
use picodata_operator.Plugins.Obsolete.{
  desired_from, desired_versions, is_desired, is_version, remove, drop_if_obsolete,
  drop_obsolete_plugins,
}

abbrev own_version : String → PluginSpec → Option String → Option String
own_version name p none = if p.name == name then some p.version else none
own_version name p (some later) = some later

-- The version that the last plugin of a name declares.
unfoldable pub declared_version : String → List PluginSpec → Option String
declared_version name [] = none
declared_version name (p ∷ plugins) = own_version name p (declared_version name plugins)

abbrev or_else : Option String → Option String → Option String
or_else none o = o
or_else (some v) o = some v

lookup-desired_from :
    (name : String) (plugins : List PluginSpec) (desired : Labels)
    → lookup name (desired_from desired plugins)
      ≡ or_else (declared_version name plugins) (lookup name desired)
unfolding desired_from declared_version
lookup-desired_from name [] desired = refl
lookup-desired_from name (p ∷ plugins) desired =
    lookup-desired_from name plugins (insert p.name p.version desired)
    ∙ rw (lookup-insert desired p.version p.name name) (ground arith)

lookup-desired_versions :
    (name : String) (plugins : List PluginSpec)
    → lookup name (desired_versions plugins) ≡ declared_version name plugins
unfolding desired_versions lookup
lookup-desired_versions name plugins = lookup-desired_from name plugins [] ∙ ground arith

-- A name that no plugin has is declared at no version.
declared_version-eq-none :
    (name : String) (plugins : List PluginSpec)
    → All (λ (p : PluginSpec). p.name ≢ name) plugins
    → declared_version name plugins ≡ none
unfolding declared_version
declared_version-eq-none name [] h = refl
declared_version-eq-none name (p ∷ plugins) (h, hs) =
    ground (arith, eq_iff p.name name, declared_version-eq-none name plugins hs)

-- The statements for one installed version.
abbrev pub removal : Labels → String × String × Bool → List String
removal desired (name, version, enabled) =
    plan_if (not (is_desired desired name version))
      (plan_if enabled (Sql.disable name version ∷ []) ++ Sql.drop name version ∷ [])

is_version_iff :
    (version : String) (o : Option String) → (is_version version o ≡ true) ↔ (o ≡ some version)
is_version_iff version none = ground arith
is_version_iff version (some want) = ground (arith, eq_iff version want)

-- A version stays exactly if it is the one that the tier declares last for its name.
pub is_desired_iff :
    (plugins : List PluginSpec) (name version : String)
    → (is_desired (desired_versions plugins) name version ≡ true)
      ↔ (declared_version name plugins ≡ some version)
unfolding is_desired
is_desired_iff plugins name version =
    rw (lookup-desired_versions name plugins)
      (is_version_iff version (declared_version name plugins))

not-is_desired :
    (name version : String) (plugins : List PluginSpec)
    → All (λ (p : PluginSpec). p.name ≢ name) plugins
    → is_desired (desired_versions plugins) name version ≡ false
unfolding is_desired
not-is_desired name version plugins h =
    rw (lookup-desired_versions name plugins, declared_version-eq-none name plugins h)

module _ ⦃K : Platform⦄ ⦃E : Env⦄ (conn : K.Conn) (tier : TierSpec) where
  remove-Follows :
      (name version : String) (enabled : Bool)
      → Follows
          (remove conn name version enabled)
          (plan_if enabled (Sql.disable name version ∷ []) ++ Sql.drop name version ∷ [])
  unfolding remove
  remove-Follows name version enabled =
      Follows-bind _ _ (Follows-when enabled (Follows-exec conn _ _)) (λ _. Follows-exec conn _ _)

  keep_or_remove :
      (name version : String) (enabled b : Bool)
      → Follows (if b then pure tt else remove conn name version enabled) (
          plan_if
            (not b)
            (plan_if enabled (Sql.disable name version ∷ []) ++ Sql.drop name version ∷ []))
  keep_or_remove name version enabled true = Follows-pure tt
  keep_or_remove name version enabled false = remove-Follows name version enabled

  drop_if_obsolete-Follows :
      (desired : Labels) (row : String × String × Bool)
      → Follows (drop_if_obsolete conn desired row) (removal desired row)
  unfolding drop_if_obsolete
  drop_if_obsolete-Follows desired (name, version, enabled) =
      keep_or_remove name version enabled (is_desired desired name version)

  drop_rows-Follows :
      (error : Option GoError) (installed : List (String × String × Bool))
      → error ≡ none
      → Follows
          (unless_error error installed
            >>= each (drop_if_obsolete conn (desired_versions tier.plugins)))
          (flat_map (removal (desired_versions tier.plugins)) installed)
  unfolding unless_error
  drop_rows-Follows none installed e =
      rw (pure-bind installed)
        (Follows-each _ _ (drop_if_obsolete-Follows (desired_versions tier.plugins)) installed)
  drop_rows-Follows (some x) installed e = absurd (some-ne-none x e)

  -- With the rows that the database has shown, read without an error at the end, the statements sent
  -- are an initial part of those that remove, row by row of the readable ones, every version that the
  -- tier does not declare (disabled first where it is enabled), and all of them where the clean-up
  -- ends well.
  pub drop_obsolete_plugins-removal :
      (w : E.W) (rows : Rows (String × String × Bool))
      → (perform (query_plugins conn Sql.select_plugins) w).outcome ≡ ok rows
      → rows.error ≡ none
      → Progress
          (drop_obsolete_plugins conn tier w)
          (flat_map (removal (desired_versions tier.plugins)) (readable rows.scanned))
  unfolding drop_obsolete_plugins
  drop_obsolete_plugins-removal w rows known complete =
      (bind_known _ _ w rows known (Follows-perform (query_plugins conn Sql.select_plugins) refl) (
        FollowsSome-told _
          (λ (u : Unit {0}).
            flat_map (removal (desired_versions tier.plugins)) (readable rows.scanned))
          (λ _. Unit {0}) tt tt (drop_rows-Follows rows.error (readable rows.scanned) complete))).1

  -- An installed version in the rows that the database has shown, read without an error at the end,
  -- whose plugin this tier does not declare, is dropped where the clean-up of this tier ends well,
  -- whatever other tiers declare.
  pub foreign_plugin-dropped :
      (w : E.W) (rows : Rows (String × String × Bool)) (name version : String) (enabled : Bool)
      → (perform (query_plugins conn Sql.select_plugins) w).outcome ≡ ok rows
      → rows.error ≡ none
      → In (name, version, enabled) (readable rows.scanned)
      → All (λ (p : PluginSpec). p.name ≢ name) tier.plugins
      → IsOk (drop_obsolete_plugins conn tier w).outcome
      → In (Sql.drop name version) (sent (drop_obsolete_plugins conn tier w).calls)
  foreign_plugin-dropped w rows name version enabled known no_error listed foreign well =
      let p = drop_obsolete_plugins-removal w rows known no_error in
      let exact =
        ap (λ l. sent (drop_obsolete_plugins conn tier w).calls ++ l) (sym (p.complete well))
        ∙ p.exact in
      subst (In (Sql.drop name version)) (sym exact ∙ append-nil _) (
        In-flat_map (removal (desired_versions tier.plugins)) (name, version, enabled)
          (Sql.drop name version) (readable rows.scanned) listed
          (rw (not-is_desired name version tier.plugins foreign)
            (In-append_right _ (plan_if enabled _) _ (inl refl))))
