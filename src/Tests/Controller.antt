-- ===== src/Tests/Controller.antt =====
-- The theorems about the whole of a round at the sample cluster and the sample world.
use picodata_operator.Base.{◌≡◌, refl, arith, none, some, []}
use picodata_operator.Base.Int.{pos}
use picodata_operator.Kube.Objects.{ConfigMap}
use picodata_operator.Api.Spec.{TierSpec}
use picodata_operator.ConfigMaps.{build_config_map}
use picodata_operator.StatefulSets.AntiAffinity.{tier_after_rounds}
use picodata_operator.Base.Decimal.{parse_int32, format_int}
use picodata_operator.Base.Maps.{lookup}
use picodata_operator.Names.{replicaset_labels, tier_labels}
use picodata_operator.StatefulSets.{build_stateful_set, tier_after_build}
use picodata_operator.World.Errors.{ok, is_not_found}
use picodata_operator.Reconciler.Resources.{
  reconcile_config_map, reconcile_service, reconcile_stateful_set, create_or_patch,
  sync_stateful_set,
}
use picodata_operator.Reconciler.Cleanup.{
  is_extra, delete_extra_stateful_sets, delete_if_extra, ignore_not_found,
}
use picodata_operator.World.Exec.{pure, give, raise, wrapped, attempt, perform, each, ◌>>=◌}
use picodata_operator.World.Outcomes.{Ensures}
use picodata_operator.World.Guarded.{Guarded}
use picodata_operator.Plugins.{reconcile_tier_plugins}
use picodata_operator.Plugins.Session.{IsSession, reconcile_tier_plugins-IsSession}
use picodata_operator.Reconciler.{reconcile}
use picodata_operator.Reconciler.Ownership.{Adopted, reconcile-adopts}
use picodata_operator.Reconciler.Quiet.{WritesLast}
use picodata_operator.Reconciler.Writes.{reconcile-WritesLast}
use picodata_operator.Reconciler.Applied.{wanted}
use picodata_operator.Reconciler.Round.{IsRound, reconcile_tier-applies}
use picodata_operator.Reconciler.Tiers.{
  reconcile_tier, reconcile_replicasets, sync_owned_config_map, sync_owned_service,
  sync_owned_stateful_set, reconcile_tier_ingress,
}
use picodata_operator.Reconciler.Counting.{
  count_replicasets, count_replicasets-terminates, count_replicasets-endless,
}
use picodata_operator.Tests.Sample.{
  sample_calm, sample_platform, sample_env, sample_cluster, sample_key, storage_tier, router_tier,
  tier_of,
}

reconcile-adopts_example : Guarded (Adopted sample_key) (reconcile sample_key)
reconcile-adopts_example = reconcile-adopts sample_key sample_calm (λ cluster meta. tt)

reconcile_tier_plugins-IsSession_example :
    IsSession sample_cluster router_tier
      (reconcile_tier_plugins sample_cluster router_tier none).calls
      (reconcile_tier_plugins sample_cluster router_tier none).outcome
reconcile_tier_plugins-IsSession_example =
    reconcile_tier_plugins-IsSession sample_cluster router_tier sample_calm none

count_replicasets-terminates_example :
    count_replicasets sample_cluster "" 3 (pos 1) storage_tier
    ≡ (reconcile_replicasets sample_cluster "" 2 1 storage_tier >>= λ t. pure (some t))
count_replicasets-terminates_example =
    count_replicasets-terminates sample_cluster "" 3 storage_tier (omega arith) (omega arith)

abbrev endless_tier : TierSpec
endless_tier = tier_of "storage" (pos 2147483647) [] none

count_replicasets-endless_example :
    Ensures (count_replicasets sample_cluster "" 2 (pos 1) endless_tier) (λ r. r ≡ none)
count_replicasets-endless_example =
    count_replicasets-endless sample_cluster "" 2 endless_tier (pos 1) refl (omega arith)

abbrev after_round : TierSpec
after_round = tier_after_rounds sample_cluster storage_tier 2

ends_well : (reconcile_tier sample_cluster storage_tier none).outcome ≡ ok after_round
unfolding reconcile_tier sync_owned_config_map sync_owned_service sync_owned_stateful_set
    reconcile_replicasets reconcile_tier_ingress reconcile_config_map reconcile_service
    reconcile_stateful_set create_or_patch is_not_found build_config_map tier_after_build
    tier_after_rounds build_stateful_set replicaset_labels tier_labels lookup parse_int32 format_int
    is_extra delete_extra_stateful_sets delete_if_extra ignore_not_found perform pure give raise
    wrapped attempt each ◌>>=◌ sync_stateful_set
ends_well = refl

reconcile_tier-applies_example :
    (cm : ConfigMap) × (build_config_map sample_cluster storage_tier ≡ some cm)
    × IsRound sample_cluster storage_tier
        (wanted sample_cluster storage_tier cm)
        (reconcile_tier sample_cluster storage_tier none).calls
    × (after_round ≡ tier_after_rounds sample_cluster storage_tier 2)
reconcile_tier-applies_example =
    reconcile_tier-applies sample_cluster storage_tier none after_round ends_well

reconcile-WritesLast_example : WritesLast (reconcile sample_key none).calls
reconcile-WritesLast_example = reconcile-WritesLast sample_calm sample_key none
