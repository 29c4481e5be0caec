-- ===== src/Reconciler/Setup.antt =====
-- internal/controller/picoclusterdb_controller.go: `SetupWithManager`.
use picodata_operator.Base.{String, List, [], ◌∷◌}

-- The kinds of objects that a controller is told of.
pub data Kind : Type 0 where
  picocluster_db stateful_set service config_map ingress : Kind

-- `ctrl.NewControllerManagedBy`: the kind whose requests come, and the kinds whose owners' do.
pub record Controller : Type 0 where
  pub for_kind : Kind
  pub owns : List Kind
  pub name : String

abbrev pub setup_with_manager : Controller
setup_with_manager = record {
  for_kind = picocluster_db;
  owns = stateful_set ∷ service ∷ config_map ∷ ingress ∷ [];
  name = "picoclusterdb";
}
