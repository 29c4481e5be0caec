-- ===== src/Reconciler/Round.antt =====
-- A whole round of a tier: its objects, the removal, the Ingress.
use mathlib.Core.Path.{subst}
use picodata_operator.Base.{
  String, arith, ◌≡◌, refl, sym, ◌∙◌, ap, Option, none, some, List, [], ◌∷◌, ◌++◌, append_assoc,
  append-nil,
}
use picodata_operator.Base.Int.{pos_part}
use picodata_operator.Kube.Platform.{Platform}
use picodata_operator.Kube.Objects.{ConfigMap}
use picodata_operator.Api.{PicoclusterDb}
use picodata_operator.Api.Spec.{TierSpec}
use picodata_operator.Names.{tier_labels, client_service_name}
use picodata_operator.ConfigMaps.{build_config_map}
use picodata_operator.Ingresses.{build_ingress}
use picodata_operator.Services.{build_interconnect_service, build_client_service}
use picodata_operator.Base.Maps.{lookup}
use picodata_operator.StatefulSets.AntiAffinity.{tier_after_rounds}
use picodata_operator.World.Errors.{ok}
use picodata_operator.World.Calls.{Call, Env}
use picodata_operator.World.Exec.{Exec, pure, wrapped, ◌>>=◌, ◌>>◌}
use picodata_operator.World.Posts.{Post, Post-pure, Post-give, Post-wrapped, Post-bind}
use picodata_operator.Reconciler.Cleanup.{is_extra, delete_extra_stateful_sets}
use picodata_operator.Reconciler.Tiers.{
  or_panic, value_or_empty, reconcile_tier_ingress, reconcile_tier, reconcile_replicasets,
}
use picodata_operator.Reconciler.Applied.{
  Desired, config_map, service, replicasets, wanted, wanted_ingress, IsDone, AreDone, AreRemoved,
  sync_owned_config_map-IsDone, sync_owned_service-IsDone, reconcile_replicasets-AreDone,
  reconcile_tier_ingress-AreDone, delete_extra_stateful_sets-AreRemoved, tier_after_rounds-shape,
}

module _ ⦃K : Platform⦄ ⦃E : Env⦄ (cluster : PicoclusterDb) where
  -- The calls behind the replicasets: the removal, and the Ingress.
  abbrev pub AreFinished : TierSpec → List Call → Type 0
  AreFinished tier cs =
      (removal : List Call) × (last : List Call) × (cs ≡ removal ++ last)
      × AreRemoved cluster tier removal
      × AreDone cluster (wanted_ingress cluster tier tier.ingress) last

  -- The calls that apply objects, and those behind.
  abbrev pub IsRound : TierSpec → List Desired → List Call → Type 0
  IsRound tier ds cs =
      (front : List Call) × (behind : List Call) × (cs ≡ front ++ behind)
      × AreDone cluster ds front
      × AreFinished tier behind

  one_more :
      (tier : TierSpec) (d : Desired) (ds : List Desired) (first cs : List Call)
      → IsDone cluster d first
      → IsRound tier ds cs
      → IsRound tier (d ∷ ds) (first ++ cs)
  one_more tier d ds first cs h (front, behind, e, hs, finished) = (
    first ++ front,
    behind,
    ap (λ l. first ++ l) e ∙ sym (append_assoc first front behind),
    (first, front, refl, h, hs),
    finished,
  )

  -- The removal and the Ingress, for a tier as the replicasets leave it.
  finishes :
      (tier t : TierSpec)
      → t ≡ record tier { affinity = t.affinity; security_context = t.security_context }
      → Post
          (wrapped "cleanup statefulsets" (delete_extra_stateful_sets cluster t)
            >> (reconcile_tier_ingress cluster t t.ingress >> pure t))
          (λ t' cs. (t' ≡ t) × AreFinished tier cs)
  unfolding is_extra tier_labels build_ingress client_service_name pure
  finishes tier t e =
      Post-bind _ _ (Post-wrapped _ _ (delete_extra_stateful_sets-AreRemoved cluster t)) λ _ cs h.
        Post-bind _ _ (reconcile_tier_ingress-AreDone cluster t t.ingress) λ _ ds k. Post-pure t (
          refl,
          subst (λ t. AreFinished t (cs ++ (ds ++ []))) e
              (cs, ds, ap (λ l. cs ++ l) (append-nil ds), h, k),
        )

  -- A round over some objects that leaves the tier as its replicasets do.
  abbrev Leaves : TierSpec → List Desired → TierSpec → List Call → Type 0
  Leaves tier ds t cs =
      IsRound tier ds cs × (t ≡ tier_after_rounds cluster tier (pos_part tier.replicas))

  object_first :
      (tier : TierSpec) (d : Desired) (ds : List Desired) (m : Exec (Unit {0})) (n : Exec TierSpec)
      → Post m (λ _ cs. IsDone cluster d cs)
      → Post n (Leaves tier ds)
      → Post (m >> n) (Leaves tier (d ∷ ds))
  object_first tier d ds m n hm hn =
      Post-bind m (λ _. n) hm
        λ _ cs h. record {
          at =
              λ w t well. let (k, e) = hn.at w t well in (one_more tier d ds cs (n w).calls h k, e);
        }

  replicasets_first :
      (tier : TierSpec) (config_data : String)
      → Post
          (reconcile_replicasets cluster config_data (pos_part tier.replicas) 1 tier >>= λ tier'.
            wrapped "cleanup statefulsets" (delete_extra_stateful_sets cluster tier')
            >> (reconcile_tier_ingress cluster tier' tier'.ingress >> pure tier'))
          (Leaves tier (replicasets cluster tier config_data 0 (pos_part tier.replicas)))
  unfolding tier_after_rounds
  replicasets_first tier config_data =
      Post-bind _ _
        (reconcile_replicasets-AreDone cluster tier config_data (pos_part tier.replicas) 0
          (pos_part tier.replicas) (omega arith))
        λ tier' cs h. record {
          at = λ w t well.
              let shape =
                subst
                  (λ (s : TierSpec).
                    s
                    ≡ record tier { affinity = s.affinity; security_context = s.security_context })
                  (sym h.0) (tier_after_rounds-shape cluster tier (pos_part tier.replicas)) in
              let (same, finished) = (finishes tier tier' shape).at w t well in
              ((cs, _, refl, h.1, finished), same ∙ h.0);
        }

  -- In any world, where the round of a tier ends well, its calls are, in this order and with no
  -- others between: those that apply the ConfigMap, the headless and the client Service and one
  -- StatefulSet for each replicaset from 1 to the spec's number, each built of the tier as the
  -- replicasets before it leave it; the list of the tier's StatefulSets with one deletion for each that
  -- is extra; and those that apply the Ingress, where the tier has one that is enabled. An object is
  -- applied with the metadata that `SetControllerReference` gives it: created where it is not found,
  -- patched to its synchronised form where it is found.
  pub reconcile_tier-applies :
      (tier : TierSpec) (w : E.W) (t : TierSpec)
      → (reconcile_tier cluster tier w).outcome ≡ ok t
      → (cm : ConfigMap) × (build_config_map cluster tier ≡ some cm)
        × IsRound tier (wanted cluster tier cm) (reconcile_tier cluster tier w).calls
        × (t ≡ tier_after_rounds cluster tier (pos_part tier.replicas))
  unfolding reconcile_tier tier_after_rounds
  reconcile_tier-applies tier w t well = round.at w t well
    where
      or_panic_ok : (o : Option ConfigMap) (cm : ConfigMap) → or_panic o ≡ ok cm → o ≡ some cm
      or_panic_ok none cm e = cc
      or_panic_ok (some c) cm e = cc

      Built : ConfigMap → List Call → Type 0
      Built cm cs = (cs ≡ []) × (build_config_map cluster tier ≡ some cm)

      round : Post (reconcile_tier cluster tier) (λ t cs.
          (cm : ConfigMap) × (build_config_map cluster tier ≡ some cm)
          × IsRound tier (wanted cluster tier cm) cs
          × (t ≡ tier_after_rounds cluster tier (pos_part tier.replicas)))
      round =
          Post-bind _ _ (Post-give _ {R = Built} (λ cm e. (refl, or_panic_ok _ cm e))) λ cm cs h.
            record {
              at = λ v t' well'.
                  let sets =
                    replicasets cluster tier (value_or_empty (lookup "config.yaml" cm.contents)) 0
                      (pos_part tier.replicas) in
                  let headless = build_interconnect_service cluster tier in
                  let client = build_client_service cluster tier in
                  let (k, e) =
                    (object_first tier (config_map cm) (service headless ∷ service client ∷ sets) _
                        _ (sync_owned_config_map-IsDone cluster cm)
                        (object_first tier (service headless) (service client ∷ sets) _ _
                          (sync_owned_service-IsDone cluster _ headless)
                          (object_first tier (service client) sets _ _
                            (sync_owned_service-IsDone cluster _ client)
                            (replicasets_first tier _)))).at
                      v t' well' in
                  (cm, h.1, rw h.0 k, e);
            }
