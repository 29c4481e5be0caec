-- ===== src/Tests/Settled.antt =====
-- A world that has the objects of the tier of a small cluster, not as it wants them, and the theorem
-- about it.
use picodata_operator.Base.{String, ◌==◌, none, [], ◌∷◌, if◌then◌else◌}
use picodata_operator.Base.Int.{pos}
use picodata_operator.Kube.Objects.{ConfigMap, Service, StatefulSet}
use picodata_operator.Api.{PicoclusterDb}
use picodata_operator.Api.Spec.{TierSpec}
use picodata_operator.ConfigMaps.{config_map_of}
use picodata_operator.Services.{build_interconnect_service, build_client_service}
use picodata_operator.StatefulSets.{build_stateful_set}
use picodata_operator.World.Errors.{Outcome, ok, err, not_found}
use picodata_operator.World.Calls.{
  Call, Answer, Env, get_config_map, get_service, get_stateful_set, patch_config_map, patch_service,
  patch_stateful_set, list_stateful_sets,
}
use picodata_operator.Reconciler.Applied.{Desired, wanted}
use picodata_operator.Reconciler.Settled.{IsWanted}
use picodata_operator.Tests.Sample.{sample_platform, sample_cluster, tier_of}

abbrev small_tier : TierSpec
small_tier = tier_of "storage" (pos 1) [] none

abbrev small_cluster : PicoclusterDb
small_cluster = record sample_cluster {
  spec = record (sample_cluster.spec) { tiers = small_tier ∷ [] };
}

-- The data of the ConfigMap are gone, and the StatefulSet has seven pods of a replicaset that wants
-- two.
abbrev stale_config_map : ConfigMap
stale_config_map = record (config_map_of small_cluster small_tier small_tier) { contents = [] }

abbrev stale_stateful_set : StatefulSet
stale_stateful_set =
    let wanted = build_stateful_set small_cluster small_tier (pos 1) "" in
    record wanted { spec = record (wanted.spec) { replicas = pos 7 } }

abbrev stored_service : String → Service
stored_service name =
    if name == "storage-demo"
    then build_client_service small_cluster small_tier
    else build_interconnect_service small_cluster small_tier

abbrev Stored : Type 0
Stored = ConfigMap × StatefulSet

-- The ConfigMap and the StatefulSet are kept, and patches are stored.
abbrev respond : (c : Call) → Stored → Outcome (Answer c) × Stored
respond (get_config_map key) w = (ok w.0, w)
respond (get_service key) w = (ok (stored_service key.name), w)
respond (get_stateful_set key) w = (ok w.1, w)
respond (list_stateful_sets namespace labels) w = (ok [], w)
respond (patch_config_map old new) w = (ok tt, (new, w.1))
respond (patch_service old new) w = (ok tt, w)
respond (patch_stateful_set old new) w = (ok tt, (w.0, new))
respond _ w = (err not_found, w)

instance abbrev settled_env : Env
settled_env = record {
  W = Stored;
  respond = respond;
  set_controller_reference = λ cluster meta. ok meta;
}

abbrev Always : Stored → Type 0
Always w = Unit

abbrev Wants : Desired → Type 0
Wants = IsWanted small_cluster small_tier
