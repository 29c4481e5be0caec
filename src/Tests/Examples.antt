-- ===== src/Tests/Examples.antt =====
-- The theorems at the sample cluster and the sample world.
use picodata_operator.Base.{
  ◌≡◌, refl, ◌<>◌, true, false, arith, none, some, [], ◌∷◌, ◌++◌, map, keep, All, ◌↔◌,
}
use picodata_operator.Base.Int.{pos, ltb_ℤ}
use picodata_operator.Base.Decimal.{format_int, parse_int32}
use picodata_operator.Base.Maps.{lookup}
use picodata_operator.Kube.Meta.{selects}
use picodata_operator.Kube.Objects.{StatefulSet, IngressPath, IngressRule}
use picodata_operator.Api.Spec.{TierSpec}
use picodata_operator.Names.{replicaset_labels, tier_labels, service_port}
use picodata_operator.Names.Unique.{stateful_set_name_inj}
use picodata_operator.Services.{build_interconnect_service, build_client_service}
use picodata_operator.ConfigMaps.{peer_fqdn}
use picodata_operator.ConfigMaps.Listeners.{placeholder, build_plugin_listener_config}
use picodata_operator.ConfigMaps.Collision.{placeholder-shift}
use picodata_operator.Ingresses.{build_ingress}
use picodata_operator.StatefulSets.{build_stateful_set, tier_affinity, pod_spec, tier_after_build}
use picodata_operator.StatefulSets.Containers.{container_ports}
use picodata_operator.StatefulSets.InitContainer.{sed_exprs}
use picodata_operator.StatefulSets.Sed.{
  sed_exprs-build_plugin_listener_config, section, marker, replacement, listeners,
}
use picodata_operator.StatefulSets.Ports.{client_service-ports, exposed}
use picodata_operator.StatefulSets.AntiAffinity.{
  tier_affinity-shared, tier_after_rounds, own_term, own_terms,
}
use picodata_operator.StatefulSets.Spread.{tier_affinity-own, pod_spec-security_context, spread_by}
use picodata_operator.StatefulSets.Wiring.{
  pod_fqdn, peer_fqdn-pod_fqdn, services_select_pods, selector_selects_own, LeadsTo,
  ingress-client_service,
}
use picodata_operator.World.Errors.{is_not_found}
use picodata_operator.World.Calls.{list_stateful_sets, delete_stateful_set}
use picodata_operator.World.Exec.{perform, pure, give, raise, ◌>>=◌, attempt, wrapped, each}
use picodata_operator.World.Guarded.{Guarded}
use picodata_operator.Reconciler.{
  reconcile, no_requeue, after_get, reconcile_tiers, plugins_of_tier, after_plugins, with_tiers,
}
use picodata_operator.Reconciler.Rounds.{Requeued, Tells, tier_names, reconcile-status}
use picodata_operator.World.Endings.{EndsWith}
use picodata_operator.Base.{◌⊎◌}
use picodata_operator.Base.Int.{add32, mul32}
use picodata_operator.ConfigMaps.{build_config_map}
use picodata_operator.Reconciler.Resources.{
  reconcile_config_map, reconcile_service, reconcile_stateful_set, create_or_patch,
  sync_stateful_set,
}
use picodata_operator.Reconciler.Cleanup.{
  is_extra, delete_extra_stateful_sets, delete_if_extra, ignore_not_found,
}
use picodata_operator.Reconciler.Tiers.{
  reconcile_tier, sync_owned_config_map, sync_owned_service, sync_owned_stateful_set,
  reconcile_replicasets, reconcile_tier_ingress,
}
use picodata_operator.Reconciler.Status.{
  tier_report, tier_status, sum_ready, update_status, with_status, ready_condition, transition_time,
  status_of,
}
use picodata_operator.Reconciler.Safety.{reconcile-safe, Justified}
use picodata_operator.Reconciler.Stages.{Ascending}
use picodata_operator.Reconciler.Order.{reconcile_tier-order}
use picodata_operator.Reconciler.Removal.{
  is_extra-build_stateful_set, delete_extra_stateful_sets-calls,
}
use picodata_operator.Reconciler.Conditions.{with_status-transition, tier_report-ready}
use picodata_operator.Tests.Sample.{
  sample_calm, sample_platform, sample_env, sample_cluster, sample_key, storage_tier, router_tier,
  tier_of, weather, sample_ingress, user_affinity, user_anti_affinity, stateful_set_of,
  ready_stateful_set,
}

reconcile-safe_example : Guarded (Justified sample_key) (reconcile sample_key)
reconcile-safe_example = reconcile-safe sample_key sample_calm (λ cluster meta. tt)

reconcile-status_example :
    Requeued no_requeue
    ⊎ EndsWith (Tells (tier_names sample_cluster.spec.tiers)) (reconcile sample_key none).calls
unfolding reconcile after_get reconcile_tiers plugins_of_tier after_plugins with_tiers
    reconcile_tier sync_owned_config_map sync_owned_service sync_owned_stateful_set
    reconcile_replicasets reconcile_tier_ingress reconcile_config_map reconcile_service
    reconcile_stateful_set create_or_patch is_not_found build_config_map tier_after_build
    build_stateful_set replicaset_labels tier_labels lookup parse_int32 format_int is_extra
    delete_extra_stateful_sets delete_if_extra ignore_not_found tier_status tier_report sum_ready
    add32 mul32 update_status with_status perform pure give raise wrapped attempt each ◌>>=◌
    sync_stateful_set
reconcile-status_example = reconcile-status sample_key none sample_cluster no_requeue refl refl

reconcile_tier-order_example : Ascending 0 (reconcile_tier sample_cluster router_tier none).calls 4
reconcile_tier-order_example = reconcile_tier-order sample_cluster router_tier none

abbrev third : StatefulSet
third = stateful_set_of storage_tier (pos 3)

delete_extra_stateful_sets-calls_example :
    (delete_extra_stateful_sets sample_cluster storage_tier (some third)).calls
    ≡ list_stateful_sets "db" (tier_labels sample_cluster storage_tier)
      ∷ map delete_stateful_set (keep (is_extra storage_tier) (third ∷ []))
unfolding delete_extra_stateful_sets delete_if_extra ignore_not_found is_extra perform ◌>>=◌ each
    attempt pure lookup build_stateful_set replicaset_labels tier_labels parse_int32 format_int
delete_extra_stateful_sets-calls_example =
    delete_extra_stateful_sets-calls sample_cluster storage_tier (some third) (third ∷ []) refl refl

is_extra-build_stateful_set_example :
    is_extra storage_tier (stateful_set_of router_tier (pos 3)) ≡ ltb_ℤ (pos 2) (pos 3)
is_extra-build_stateful_set_example =
    is_extra-build_stateful_set sample_cluster router_tier storage_tier (pos 3) "" (omega arith)

with_status-transition_example :
    (with_status (with_status sample_cluster [] false 100) [] false 200).status.conditions
    ≡ ready_condition [] false (transition_time (status_of false) 100 []) [] ∷ []
with_status-transition_example = with_status-transition sample_cluster [] [] false false 100 200

tier_report-ready_example :
    let xs =
      ready_stateful_set storage_tier (pos 1) ∷ ready_stateful_set storage_tier (pos 2) ∷ [] in
    let report = tier_report storage_tier xs in
    (report.status.ready_replicas ≡ pos 4)
    × (report.status.desired_replicas ≡ pos 4)
    × (report.ready ≡ true)
tier_report-ready_example =
    tier_report-ready storage_tier
      (ready_stateful_set storage_tier (pos 1) ∷ ready_stateful_set storage_tier (pos 2) ∷ []) 2 2
      refl refl (omega arith) (refl, (refl, tt)) (omega arith)

stateful_set_name_inj_example : (storage_tier.name ≡ storage_tier.name) × (pos 2 ≡ pos 2)
stateful_set_name_inj_example =
    stateful_set_name_inj sample_cluster storage_tier storage_tier 2 2 (omega arith) (omega arith)
      refl

placeholder-shift_example :
    placeholder ("a" <> "_" <> "b") "c" ≡ placeholder "a" ("b" <> "_" <> "c")
placeholder-shift_example = placeholder-shift "a" "b" "c"

sed_exprs-build_plugin_listener_config_example :
    (build_plugin_listener_config router_tier ≡ section marker (weather ∷ []))
    × (sed_exprs sample_cluster router_tier
        ≡ map (replacement sample_cluster router_tier) (listeners (weather ∷ [])))
sed_exprs-build_plugin_listener_config_example =
    sed_exprs-build_plugin_listener_config sample_cluster router_tier

client_service-ports_example :
    (build_client_service sample_cluster router_tier).ports
    ≡ map exposed (container_ports sample_cluster router_tier)
client_service-ports_example = client_service-ports sample_cluster router_tier

abbrev spread_tier : TierSpec
spread_tier = tier_of "storage" (pos 3) [] (some user_affinity)

tier_affinity-shared_example :
    (tier_affinity sample_cluster (tier_after_rounds sample_cluster spread_tier 2) (pos 3)).0
    ≡ some (record user_affinity {
      pod_anti_affinity = some (record user_anti_affinity {
        required = user_anti_affinity.required ++ own_terms sample_cluster spread_tier 3;
      });
    })
tier_affinity-shared_example =
    tier_affinity-shared sample_cluster spread_tier user_affinity user_anti_affinity refl refl refl
      2

tier_affinity-own_example :
    (tier_affinity sample_cluster (tier_after_rounds sample_cluster storage_tier 1) (pos 2)).0
    ≡ some (spread_by none (own_term sample_cluster storage_tier 2))
tier_affinity-own_example = tier_affinity-own sample_cluster storage_tier refl tt 1

pod_spec-security_context_example :
    let context =
      (pod_spec sample_cluster
        (tier_after_rounds sample_cluster storage_tier 1)
        (pos 2)).security_context in
    (context.fs_group ≡ some (pos 1000)) × (context.rest ≡ "")
pod_spec-security_context_example = pod_spec-security_context sample_cluster storage_tier 1

peer_fqdn-pod_fqdn_example :
    peer_fqdn sample_cluster storage_tier
    ≡ pod_fqdn (stateful_set_of storage_tier (pos 1)) "0"
      <> ":"
      <> format_int (service_port (pos 3301) (pos 3301))
peer_fqdn-pod_fqdn_example = peer_fqdn-pod_fqdn sample_cluster storage_tier ""

services_select_pods_example :
    let sts = stateful_set_of storage_tier (pos 2) in
    (sts.spec.service_name ≡ (build_interconnect_service sample_cluster storage_tier).meta.name)
    × (selects
          (build_interconnect_service sample_cluster storage_tier).selector
          sts.spec.template.labels
        ≡ true)
    × (selects (build_client_service sample_cluster storage_tier).selector sts.spec.template.labels
        ≡ true)
services_select_pods_example = services_select_pods sample_cluster storage_tier "" (pos 2)

selector_selects_own_example :
    (selects
        (stateful_set_of storage_tier (pos 1)).spec.selector
        (stateful_set_of storage_tier (pos 2)).spec.template.labels
      ≡ true)
    ↔ (pos 1 ≡ pos 2)
selector_selects_own_example =
    selector_selects_own sample_cluster storage_tier "" (pos 1) (pos 2) (omega arith) (omega arith)

ingress-client_service_example :
    let ingress = build_ingress sample_cluster router_tier sample_ingress in
    let svc = build_client_service sample_cluster router_tier in
    (ingress.meta.namespace ≡ svc.meta.namespace)
    × All (λ (r : IngressRule). All (λ (p : IngressPath). LeadsTo p svc) r.paths) ingress.spec.rules
ingress-client_service_example = ingress-client_service sample_cluster router_tier sample_ingress
