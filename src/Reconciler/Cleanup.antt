-- ===== src/Reconciler/Cleanup.antt =====
-- internal/controller/picoclusterdb_controller.go: `deleteExtraStatefulSets`.
use picodata_operator.Base.{String, Bool, false, Option, none, some, ◌⊎◌, inl, inr, if◌then◌else◌}
use picodata_operator.Base.Int.{ℤ, ltb_ℤ}
use picodata_operator.Base.Decimal.{parse_int32}
use picodata_operator.Base.Maps.{lookup}
use picodata_operator.Kube.Platform.{Platform}
use picodata_operator.Kube.Objects.{StatefulSet}
use picodata_operator.Api.{PicoclusterDb}
use picodata_operator.Api.Spec.{TierSpec}
use picodata_operator.Names.{tier_labels}
use picodata_operator.World.Errors.{GoError, is_not_found}
use picodata_operator.World.Calls.{Env, list_stateful_sets, delete_stateful_set}
use picodata_operator.World.Exec.{Exec, pure, raise, attempt, perform, ◌>>=◌, each}

abbrev pub exceeds : ℤ → Option ℤ → Bool
exceeds replicas none = false
exceeds replicas (some rs_index) = ltb_ℤ replicas rs_index

abbrev pub parsed : Option String → Option ℤ
parsed none = none
parsed (some rs_str) = parse_int32 rs_str

module _ ⦃K : Platform⦄ where
  -- The replicaset index of a StatefulSet, if its label has one, and it is beyond the spec's number.
  unfoldable pub is_extra : TierSpec → StatefulSet → Bool
  is_extra tier sts =
      exceeds tier.replicas (parsed (lookup "picodata.io/replicaset" sts.meta.labels))

module _ ⦃K : Platform⦄ ⦃E : Env⦄ where
  -- `client.IgnoreNotFound(err) != nil`
  unfoldable pub ignore_not_found : Unit {0} ⊎ GoError → Exec (Unit {0})
  ignore_not_found (inl done) = pure tt
  ignore_not_found (inr e) = if is_not_found e then pure tt else raise e

  unfoldable pub delete_if_extra : TierSpec → StatefulSet → Exec (Unit {0})
  unfolding ignore_not_found
  delete_if_extra tier sts =
      if is_extra tier sts
      then (do deleted ← attempt (perform (delete_stateful_set sts)); ignore_not_found deleted)
      else pure tt

  unfoldable pub delete_extra_stateful_sets : PicoclusterDb → TierSpec → Exec (Unit {0})
  delete_extra_stateful_sets cluster tier = do
    sts_list ← perform (list_stateful_sets cluster.meta.namespace (tier_labels cluster tier))
    each (delete_if_extra tier) sts_list
