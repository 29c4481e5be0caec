-- ===== src/Plugins/Queries.antt =====
-- internal/controller/plugin.go: `queryPluginState`, `queryPluginServices`, `containsString`.
use picodata_operator.Base.{
  String, Bool, true, false, Option, none, some, List, [], ◌∷◌, ◌⊎◌, inl, inr, any,
}
use picodata_operator.Base.Text.{equal_fold}
use picodata_operator.Kube.Platform.{Platform}
use picodata_operator.World.Errors.{GoError}
use picodata_operator.World.Calls.{Env, query_plugin_enabled, query_services}
use picodata_operator.World.Exec.{Exec, pure, raise, perform, ◌>>=◌}
use picodata_operator.Plugins.Sql

pub record PluginService : Type 0 where
  pub name : String
  pub tiers : List String

-- The results `exists` and `enabled`.
pub record PluginState : Type 0 where
  pub found : Bool
  pub enabled : Bool

-- The rows that `Scan` reads; the others are passed over.
unfoldable pub readable : {A : Type 0} → List (A ⊎ GoError) → List A
readable [] = []
readable (inl a ∷ rest) = a ∷ readable rest
readable (inr e ∷ rest) = readable rest

module _ ⦃K : Platform⦄ where
  unfoldable pub contains_string : List String → String → Bool
  contains_string slice s = any (λ v. equal_fold K.same_orbit v s) slice

module _ ⦃K : Platform⦄ ⦃E : Env⦄ where
  -- `return a, rows.Err()`
  unfoldable pub unless_error : {A : Type 0} → Option GoError → A → Exec A
  unless_error none a = pure a
  unless_error (some e) a = raise e

  -- The first row decides, and `Err` is asked behind it; an error of its `Scan` is returned.
  unfoldable pub read_state :
      List (Bool ⊎ GoError) → Option GoError → Option GoError → Exec PluginState
  read_state [] error first_error = unless_error error (record { found = false; enabled = false })
  read_state (inl enabled ∷ rest) error first_error =
      unless_error first_error (record { found = true; enabled = enabled })
  read_state (inr e ∷ rest) error first_error = raise e

  unfoldable pub query_plugin_state : K.Conn → String → String → Exec PluginState
  query_plugin_state conn name version = do
    rows ← perform (query_plugin_enabled conn (Sql.select_enabled name version))
    read_state rows.scanned rows.error rows.first_error

  service_of : String × String → PluginService
  service_of (svc_name, tiers_json) = record {
    name = svc_name;
    tiers = K.unmarshal_strings tiers_json;
  }

  unfoldable pub services_of : List ((String × String) ⊎ GoError) → List PluginService
  unfolding service_of
  services_of [] = []
  services_of (inl row ∷ rest) = service_of row ∷ services_of rest
  services_of (inr e ∷ rest) = services_of rest

  unfoldable pub query_plugin_services : K.Conn → String → String → Exec (List PluginService)
  query_plugin_services conn name version = do
    rows ← perform (query_services conn (Sql.select_services name version))
    unless_error rows.error (services_of rows.scanned)
