-- ===== src/Reconciler/Status.antt =====
-- internal/controller/picoclusterdb_controller.go: `tierStatus` and `updateStatus`.
use picodata_operator.Base.{
  ℕ, ◌==◌, ◌<>◌, Bool, true, false, ◌&&◌, List, [], ◌∷◌, length, if◌then◌else◌,
}
use picodata_operator.Base.Int.{ℤ, pos, add32, mul32, leb_ℤ}
use picodata_operator.Base.Decimal.{format_int}
use picodata_operator.Kube.Platform.{Platform}
use picodata_operator.Kube.Objects.{StatefulSet}
use picodata_operator.Api.{PicoclusterDb}
use picodata_operator.Api.Spec.{TierSpec}
use picodata_operator.Api.Status.{
  initializing, ready, Condition, ConditionStatus, condition_true, condition_false,
  condition_unknown, TierStatus, condition_ready,
}
use picodata_operator.Names.{tier_labels}
use picodata_operator.World.Calls.{Env, list_stateful_sets, patch_status, now}
use picodata_operator.World.Exec.{Exec, pure, perform, ◌>>=◌}

-- The first two results of `tierStatus`.
pub record TierReport : Type 0 where
  pub status : TierStatus
  pub ready : Bool

module _ ⦃K : Platform⦄ where
  -- The loop over the StatefulSets, in `int32`.
  unfoldable pub sum_ready : ℤ → List StatefulSet → ℤ
  sum_ready ready_pods [] = ready_pods
  sum_ready ready_pods (sts ∷ rest) = sum_ready (add32 ready_pods sts.ready_replicas) rest

  unfoldable pub tier_report : TierSpec → List StatefulSet → TierReport
  tier_report tier sts_list =
      let desired_pods = mul32 tier.replicas tier.replication_factor in
      let ready_pods = sum_ready (pos 0) sts_list in
      record {
        status = record {
          name = tier.name;
          ready_replicas = ready_pods;
          desired_replicas = desired_pods;
          plugins = [];
        };
        ready = leb_ℤ desired_pods ready_pods;
      }

abbrev same_status : ConditionStatus → ConditionStatus → Bool
same_status condition_true condition_true = true
same_status condition_false condition_false = true
same_status condition_unknown condition_unknown = true
same_status _ _ = false

-- The loop that keeps the time of an existing condition of the same type and status.
unfoldable pub transition_time : ConditionStatus → ℕ → List Condition → ℕ
transition_time status at [] = at
transition_time status at (c ∷ rest) =
    let later = transition_time status at rest in
    if c.type == condition_ready && same_status c.status status
    then c.last_transition_time
    else later

abbrev pub status_of : Bool → ConditionStatus
status_of true = condition_true
status_of false = condition_false

-- The condition at a time, with its time kept from the existing ones.
unfoldable pub ready_condition : List TierStatus → Bool → ℕ → List Condition → Condition
ready_condition tiers all_ready at existing = record {
  type = condition_ready;
  status = status_of all_ready;
  reason = if all_ready then "AllTiersReady" else "TiersNotReady";
  message =
      if all_ready
      then "All " <> format_int (pos (length tiers)) <> " tier(s) are ready"
      else "One or more tiers are not yet ready";
  last_transition_time = transition_time (status_of all_ready) at existing;
}

module _ ⦃K : Platform⦄ where
  unfoldable pub with_status : PicoclusterDb → List TierStatus → Bool → ℕ → PicoclusterDb
  with_status cluster tiers all_ready at = record cluster {
    status = record {
      phase = if all_ready then ready else initializing;
      tiers = tiers;
      conditions = ready_condition tiers all_ready at cluster.status.conditions ∷ [];
    };
  }

module _ ⦃K : Platform⦄ ⦃E : Env⦄ where
  unfoldable pub tier_status : PicoclusterDb → TierSpec → Exec TierReport
  tier_status cluster tier = do
    sts_list ← perform (list_stateful_sets cluster.meta.namespace (tier_labels cluster tier))
    pure (tier_report tier sts_list)

  unfoldable pub update_status : PicoclusterDb → List TierStatus → Bool → Exec (Unit {0})
  update_status cluster tiers all_ready = do
    at ← perform now
    perform (patch_status cluster (with_status cluster tiers all_ready at))
