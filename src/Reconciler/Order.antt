-- ===== src/Reconciler/Order.antt =====
-- The order in which `reconcileTier` goes through the resources.
use picodata_operator.Base.{ℕ, zero, suc, String, Option, none, some, ◌⊎◌, inl, inr, arith}
use picodata_operator.Base.Int.{ℤ, pos}
use picodata_operator.Kube.Platform.{Platform}
use picodata_operator.Kube.Objects.{ConfigMap, Service, Ingress, StatefulSet}
use picodata_operator.Api.{PicoclusterDb}
use picodata_operator.Api.Spec.{TierSpec, IngressSpec}
use picodata_operator.World.Errors.{GoError, is_not_found}
use picodata_operator.World.Calls.{
  Env, get_config_map, create_config_map, patch_config_map, get_service, create_service,
  patch_service, get_ingress, create_ingress, patch_ingress, get_stateful_set, create_stateful_set,
  patch_stateful_set, delete_stateful_set, list_stateful_sets,
}
use picodata_operator.Reconciler.Resources.{
  reconcile_config_map, reconcile_service, reconcile_ingress, reconcile_stateful_set,
}
use picodata_operator.Reconciler.Cleanup.{
  is_extra, ignore_not_found, delete_if_extra, delete_extra_stateful_sets,
}
use picodata_operator.Reconciler.Tiers.{
  sync_owned_config_map, sync_owned_service, sync_owned_ingress, sync_owned_stateful_set,
  reconcile_replicasets, reconcile_tier_ingress, reconcile_tier,
}
use picodata_operator.Reconciler.Stages.{
  Ordered, Ordered-bind, Ordered-later, Ordered-silent, Ordered-pure, Ordered-raise,
  Ordered-wrapped, Ordered-attempt, Ordered-if, Ordered-each, create_or_patch-Ordered, at_stage,
  Ascending,
}

module _ ⦃K : Platform⦄ ⦃E : Env⦄ where
  module _ (cluster : PicoclusterDb) where
    sync_owned_config_map-Ordered : (d : ConfigMap) → Ordered 0 0 (sync_owned_config_map cluster d)
    unfolding sync_owned_config_map reconcile_config_map
    sync_owned_config_map-Ordered d =
        Ordered-bind 0 0 0 _ _ (omega arith) (Ordered-silent 0 0 _ (omega arith)) λ meta.
          Ordered-wrapped _ _ (
            Ordered-bind 0 0 0 _ _ (omega arith) (Ordered-attempt _ (at_stage (get_config_map _))) (
              create_or_patch-Ordered 0 _ _ (at_stage (create_config_map _))
                (λ old. at_stage (patch_config_map old _))))

    sync_owned_service-Ordered :
        (text : String) (d : Service) → Ordered 1 1 (sync_owned_service cluster text d)
    unfolding sync_owned_service reconcile_service
    sync_owned_service-Ordered text d =
        Ordered-bind 1 1 1 _ _ (omega arith) (Ordered-silent 1 1 _ (omega arith)) λ meta.
          Ordered-wrapped _ _ (
            Ordered-bind 1 1 1 _ _ (omega arith) (Ordered-attempt _ (at_stage (get_service _))) (
              create_or_patch-Ordered 1 _ _ (at_stage (create_service _))
                (λ old. at_stage (patch_service old _))))

    sync_owned_ingress-Ordered : (d : Ingress) → Ordered 4 4 (sync_owned_ingress cluster d)
    unfolding sync_owned_ingress reconcile_ingress
    sync_owned_ingress-Ordered d =
        Ordered-bind 4 4 4 _ _ (omega arith) (Ordered-silent 4 4 _ (omega arith)) λ meta.
          Ordered-wrapped _ _ (
            Ordered-bind 4 4 4 _ _ (omega arith) (Ordered-attempt _ (at_stage (get_ingress _))) (
              create_or_patch-Ordered 4 _ _ (at_stage (create_ingress _))
                (λ old. at_stage (patch_ingress old _))))

    sync_owned_stateful_set-Ordered :
        (i : ℤ) (d : StatefulSet) → Ordered 2 2 (sync_owned_stateful_set cluster i d)
    unfolding sync_owned_stateful_set reconcile_stateful_set
    sync_owned_stateful_set-Ordered i d =
        Ordered-bind 2 2 2 _ _ (omega arith) (Ordered-silent 2 2 _ (omega arith)) λ meta.
          Ordered-wrapped _ _ (
            Ordered-bind 2 2 2 _ _ (omega arith) (Ordered-attempt _ (at_stage (get_stateful_set _)))
              (create_or_patch-Ordered 2 _ _ (at_stage (create_stateful_set _))
                (λ old. at_stage (patch_stateful_set old _))))

    reconcile_replicasets-Ordered :
        (config_data : String) (rounds n : ℕ) (tier : TierSpec)
        → Ordered 2 2 (reconcile_replicasets cluster config_data rounds n tier)
    unfolding reconcile_replicasets
    reconcile_replicasets-Ordered config_data zero n tier = Ordered-pure 2 2 tier (omega arith)
    reconcile_replicasets-Ordered config_data (suc rounds) n tier =
        Ordered-bind 2 2 2 _ _ (omega arith) (sync_owned_stateful_set-Ordered (pos n) _)
          (λ _. reconcile_replicasets-Ordered config_data rounds (suc n) _)

    delete_extra_stateful_sets-Ordered :
        (tier : TierSpec) → Ordered 3 3 (delete_extra_stateful_sets cluster tier)
    unfolding delete_extra_stateful_sets delete_if_extra ignore_not_found
    delete_extra_stateful_sets-Ordered tier =
        Ordered-bind 3 3 3 _ _ (omega arith) (at_stage (list_stateful_sets _ _)) (
          Ordered-each 3 _ λ sts.
            Ordered-if (is_extra tier sts)
              (Ordered-bind 3 3 3 _ _ (omega arith)
                (Ordered-attempt _ (at_stage (delete_stateful_set sts))) ignored)
              (Ordered-pure 3 3 tt (omega arith)))
      where
        ignored : (r : Unit {0} ⊎ GoError) → Ordered 3 3 (ignore_not_found r)
        ignored (inl done) = Ordered-pure 3 3 tt (omega arith)
        ignored (inr e) =
            Ordered-if (is_not_found e) (Ordered-pure 3 3 tt (omega arith)) (Ordered-raise 3 e)

    reconcile_tier_ingress-Ordered :
        (tier : TierSpec) (o : Option IngressSpec)
        → Ordered 4 4 (reconcile_tier_ingress cluster tier o)
    unfolding reconcile_tier_ingress
    reconcile_tier_ingress-Ordered tier none = Ordered-pure 4 4 tt (omega arith)
    reconcile_tier_ingress-Ordered tier (some spec) =
        Ordered-if spec.enabled (sync_owned_ingress-Ordered _) (Ordered-pure 4 4 tt (omega arith))

    -- Whatever is answered, the calls of a tier's round go through the resources in one order: the
    -- ConfigMap, the Services, the StatefulSets, the removal of the extra ones, the Ingress; no call
    -- of an earlier stage comes behind one of a later stage, and the round makes no other calls.
    pub reconcile_tier-order :
        (tier : TierSpec) (w : E.W) → Ascending 0 (reconcile_tier cluster tier w).calls 4
    unfolding reconcile_tier
    reconcile_tier-order tier w = round.at w
      where
        round : Ordered 0 4 (reconcile_tier cluster tier)
        round = Ordered-bind 0 0 4 _ _ (omega arith) (Ordered-silent 0 0 _ (omega arith)) λ cm.
            Ordered-bind 0 0 4 _ _ (omega arith) (sync_owned_config_map-Ordered cm) λ _.
              Ordered-bind 0 1 4 _ _ (omega arith)
                (Ordered-later 0 1 _ (omega arith) (sync_owned_service-Ordered _ _))
                λ _. Ordered-bind 1 1 4 _ _ (omega arith) (sync_owned_service-Ordered _ _) λ _.
                  Ordered-bind 1 2 4 _ _ (omega arith)
                    (Ordered-later 1 2 _ (omega arith) (reconcile_replicasets-Ordered _ _ 1 tier))
                    λ t.
                      Ordered-bind 2 3 4 _ _ (omega arith)
                        (Ordered-later 2 3 _ (omega arith)
                          (Ordered-wrapped _ _ (delete_extra_stateful_sets-Ordered t)))
                        λ _.
                          Ordered-bind 3 4 4 _ _ (omega arith)
                            (Ordered-later 3 4 _ (omega arith)
                              (reconcile_tier_ingress-Ordered t t.ingress))
                            λ _. Ordered-pure 4 4 t (omega arith)
