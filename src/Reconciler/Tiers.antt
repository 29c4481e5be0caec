-- ===== src/Reconciler/Tiers.antt =====
-- internal/controller/picoclusterdb_controller.go: `reconcileTier`.
use picodata_operator.Base.{ℕ, zero, suc, String, ◌<>◌, Option, none, some, if◌then◌else◌}
use picodata_operator.Base.Int.{ℤ, pos, pos_part}
use picodata_operator.Base.Decimal.{format_int}
use picodata_operator.Base.Maps.{lookup}
use picodata_operator.Kube.Platform.{Platform}
use picodata_operator.Kube.Objects.{ConfigMap, Service, Ingress, StatefulSet}
use picodata_operator.Api.{PicoclusterDb}
use picodata_operator.Api.Spec.{TierSpec, IngressSpec}
use picodata_operator.ConfigMaps.{build_config_map}
use picodata_operator.Services.{build_interconnect_service, build_client_service}
use picodata_operator.StatefulSets.{build_stateful_set, tier_after_build}
use picodata_operator.Ingresses.{build_ingress}
use picodata_operator.World.Errors.{ok, panicked, Outcome}
use picodata_operator.World.Calls.{Env}
use picodata_operator.World.Exec.{Exec, pure, give, wrapped, ◌>>=◌, ◌>>◌}
use picodata_operator.Reconciler.Resources.{
  reconcile_config_map, reconcile_service, reconcile_ingress, reconcile_stateful_set,
}
use picodata_operator.Reconciler.Cleanup.{delete_extra_stateful_sets}

abbrev pub or_panic : {A : Type 0} → Option A → Outcome A
or_panic none = panicked
or_panic (some a) = ok a

-- `m[k]` of a map from texts to texts, which is "" for a missing key
abbrev pub value_or_empty : Option String → String
value_or_empty none = ""
value_or_empty (some v) = v

module _ ⦃K : Platform⦄ ⦃E : Env⦄ (cluster : PicoclusterDb) where
  -- Each object gets its owner, and is then created or patched.
  unfoldable pub sync_owned_config_map : ConfigMap → Exec (Unit {0})
  sync_owned_config_map desired = do
    meta ← give (E.set_controller_reference cluster desired.meta)
    wrapped "configmap" (reconcile_config_map (record desired { meta = meta }))

  unfoldable pub sync_owned_service : String → Service → Exec (Unit {0})
  sync_owned_service text desired = do
    meta ← give (E.set_controller_reference cluster desired.meta)
    wrapped text (reconcile_service (record desired { meta = meta }))

  unfoldable pub sync_owned_ingress : Ingress → Exec (Unit {0})
  sync_owned_ingress desired = do
    meta ← give (E.set_controller_reference cluster desired.meta)
    wrapped "ingress" (reconcile_ingress (record desired { meta = meta }))

  unfoldable pub sync_owned_stateful_set : ℤ → StatefulSet → Exec (Unit {0})
  sync_owned_stateful_set rs_index desired = do
    meta ← give (E.set_controller_reference cluster desired.meta)
    wrapped ("statefulset rs" <> format_int rs_index)
        (reconcile_stateful_set (record desired { meta = meta }))

  -- The loop over the replicasets: the rounds left, and the index of the next one. `int32` counts
  -- to the end as long as `tier.Replicas` is below its maximum. The tier is what the spec's pointer
  -- points to, and comes back as the rounds leave it.
  unfoldable pub reconcile_replicasets : String → ℕ → ℕ → TierSpec → Exec TierSpec
  reconcile_replicasets config_data zero rs_index tier = pure tier
  reconcile_replicasets config_data (suc rounds) rs_index tier =
      let more =
        reconcile_replicasets config_data rounds (suc rs_index)
          (tier_after_build cluster tier (pos rs_index)) in
      sync_owned_stateful_set (pos rs_index)
        (build_stateful_set cluster tier (pos rs_index) config_data)
      >> more

  -- `tier.Ingress != nil && tier.Ingress.Enabled`
  unfoldable pub reconcile_tier_ingress : TierSpec → Option IngressSpec → Exec (Unit {0})
  reconcile_tier_ingress tier none = pure tt
  reconcile_tier_ingress tier (some spec) =
      if spec.enabled then sync_owned_ingress (build_ingress cluster tier spec) else pure tt

  unfoldable pub reconcile_tier : TierSpec → Exec TierSpec
  reconcile_tier tier = do
    desired_cm ← give (or_panic (build_config_map cluster tier))
    sync_owned_config_map desired_cm
    sync_owned_service "headless service" (build_interconnect_service cluster tier)
    sync_owned_service "client service" (build_client_service cluster tier)
    let config_data = value_or_empty (lookup "config.yaml" desired_cm.contents)
    tier' ← reconcile_replicasets config_data (pos_part tier.replicas) 1 tier
    wrapped "cleanup statefulsets" (delete_extra_stateful_sets cluster tier')
    reconcile_tier_ingress tier' tier'.ingress
    pure tier'
