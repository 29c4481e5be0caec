-- ===== src/Reconciler/Applied.antt =====
-- What a round of a tier writes: the objects of the tier, one after another.
use picodata_operator.Base.{
  ℕ, zero, suc, ◌+◌, arith, String, ◌≡◌, refl, sym, ap, Bool, true, false, Option, none, some, List,
  [], ◌∷◌, ◌++◌, map, keep, append-nil, if◌then◌else◌,
}
use picodata_operator.Base.Int.{ℤ, pos, pos_part}
use picodata_operator.Base.Maps.{lookup}
use picodata_operator.Kube.Platform.{Platform}
use picodata_operator.Kube.Objects.{ConfigMap, Service, Ingress, StatefulSet}
use picodata_operator.Api.{PicoclusterDb}
use picodata_operator.Api.Spec.{TierSpec, IngressSpec}
use picodata_operator.Names.{tier_labels}
use picodata_operator.Services.{build_interconnect_service, build_client_service}
use picodata_operator.Ingresses.{build_ingress}
use picodata_operator.StatefulSets.{build_stateful_set, tier_after_build}
use picodata_operator.StatefulSets.AntiAffinity.{tier_after_rounds}
use picodata_operator.World.Calls.{Call, Env, list_stateful_sets, delete_stateful_set}
use picodata_operator.World.Exec.{perform, pure, each}
use picodata_operator.World.Outcomes.{bind_ok}
use picodata_operator.World.Follows.{Answers}
use picodata_operator.World.Posts.{Post, Post-pure, Post-bind}
use picodata_operator.Reconciler.Kinds.{
  IsApplied, apply, apply_owned, apply_owned-IsApplied, config_maps, services, ingresses,
  stateful_sets,
}
use picodata_operator.Reconciler.Resources.{
  reconcile_config_map, reconcile_service, reconcile_ingress, reconcile_stateful_set,
}
use picodata_operator.Reconciler.Cleanup.{is_extra, delete_if_extra, delete_extra_stateful_sets}
use picodata_operator.Reconciler.Removal.{delete_extra_stateful_sets-calls}
use picodata_operator.Reconciler.Tiers.{
  value_or_empty, sync_owned_config_map, sync_owned_service, sync_owned_ingress,
  sync_owned_stateful_set, reconcile_replicasets, reconcile_tier_ingress,
}

module _ ⦃K : Platform⦄ where
  -- An object that a tier wants.
  pub data Desired : Type 0 where
    config_map : ConfigMap → Desired
    service : Service → Desired
    stateful_set : StatefulSet → Desired
    ingress : Ingress → Desired

  module _ (cluster : PicoclusterDb) (tier : TierSpec) where
    -- The StatefulSets of so many replicasets, behind those that are done. Each is built of the tier
    -- as the replicasets before it have left it.
    abbrev pub replicasets : String → ℕ → ℕ → List Desired
    replicasets config_data done zero = []
    replicasets config_data done (suc rounds) =
        stateful_set (
          build_stateful_set cluster (tier_after_rounds cluster tier done) (pos (suc done))
            config_data)
        ∷ replicasets config_data (suc done) rounds

    -- What a tier wants, but for the Ingress.
    abbrev pub wanted : ConfigMap → List Desired
    wanted cm =
        config_map cm
        ∷ service (build_interconnect_service cluster tier)
        ∷ service (build_client_service cluster tier)
        ∷ replicasets (value_or_empty (lookup "config.yaml" cm.contents)) 0 (pos_part tier.replicas)

    -- The Ingress, where the tier has one that is enabled.
    abbrev pub wanted_ingress : Option IngressSpec → List Desired
    wanted_ingress none = []
    wanted_ingress (some spec) =
        if spec.enabled then ingress (build_ingress cluster tier spec) ∷ [] else []

module _ ⦃K : Platform⦄ ⦃E : Env⦄ (cluster : PicoclusterDb) where
  -- Calls that apply an object.
  abbrev pub IsDone : Desired → List Call → Type 0
  IsDone (config_map d) cs = IsApplied config_maps cluster d cs
  IsDone (service d) cs = IsApplied services cluster d cs
  IsDone (stateful_set d) cs = IsApplied stateful_sets cluster d cs
  IsDone (ingress d) cs = IsApplied ingresses cluster d cs

  -- Calls that apply objects, one after another, and nothing else.
  abbrev pub AreDone : List Desired → List Call → Type 0
  AreDone [] cs = cs ≡ []
  AreDone (d ∷ ds) cs =
      (first : List Call) × (later : List Call) × (cs ≡ first ++ later)
      × IsDone d first
      × AreDone ds later

  pub sync_owned_config_map-IsDone :
      (d : ConfigMap) → Post (sync_owned_config_map cluster d) (λ _ cs. IsDone (config_map d) cs)
  unfolding sync_owned_config_map reconcile_config_map apply_owned apply
  sync_owned_config_map-IsDone d = apply_owned-IsApplied config_maps cluster "configmap" d

  pub sync_owned_service-IsDone :
      (text : String) (d : Service)
      → Post (sync_owned_service cluster text d) (λ _ cs. IsDone (service d) cs)
  unfolding sync_owned_service reconcile_service apply_owned apply
  sync_owned_service-IsDone text d = apply_owned-IsApplied services cluster text d

  sync_owned_ingress-IsDone :
      (d : Ingress) → Post (sync_owned_ingress cluster d) (λ _ cs. IsDone (ingress d) cs)
  unfolding sync_owned_ingress reconcile_ingress apply_owned apply
  sync_owned_ingress-IsDone d = apply_owned-IsApplied ingresses cluster "ingress" d

  sync_owned_stateful_set-IsDone :
      (i : ℤ) (d : StatefulSet)
      → Post (sync_owned_stateful_set cluster i d) (λ _ cs. IsDone (stateful_set d) cs)
  unfolding sync_owned_stateful_set reconcile_stateful_set apply_owned apply
  sync_owned_stateful_set-IsDone i d = apply_owned-IsApplied stateful_sets cluster _ d

  pub reconcile_replicasets-AreDone :
      (tier : TierSpec) (config_data : String) (rounds done n : ℕ)
      → done + rounds ≡ n
      → Post
          (reconcile_replicasets cluster config_data rounds
            (suc done)
            (tier_after_rounds cluster tier done))
          (λ t cs.
            (t ≡ tier_after_rounds cluster tier n)
            × AreDone (replicasets cluster tier config_data done rounds) cs)
  unfolding reconcile_replicasets tier_after_rounds
  reconcile_replicasets-AreDone tier config_data zero done n e =
      Post-pure _ (ap (tier_after_rounds cluster tier) (omega (arith, e)), refl)
  reconcile_replicasets-AreDone tier config_data (suc rounds) done n e =
      Post-bind _ _ (sync_owned_stateful_set-IsDone _ _) λ _ cs h. record {
        at = λ w t well.
            let (same, hs) =
              (reconcile_replicasets-AreDone tier config_data rounds (suc done) n
                  (omega (arith, e))).at
                w t well in
            (same, (cs, _, refl, h, hs));
      }

  pub reconcile_tier_ingress-AreDone :
      (tier : TierSpec) (o : Option IngressSpec)
      → Post
          (reconcile_tier_ingress cluster tier o)
          (λ _ cs. AreDone (wanted_ingress cluster tier o) cs)
  unfolding reconcile_tier_ingress
  reconcile_tier_ingress-AreDone tier none = Post-pure tt refl
  reconcile_tier_ingress-AreDone tier (some spec) = either spec.enabled
    where
      either :
          (b : Bool)
          → Post
              (if b then sync_owned_ingress cluster (build_ingress cluster tier spec) else pure tt)
              (λ _ cs.
                AreDone (if b then ingress (build_ingress cluster tier spec) ∷ [] else []) cs)
      either true = record {
        at = λ w a e.
            let cs = (sync_owned_ingress cluster (build_ingress cluster tier spec) w).calls in
            (
              cs,
              [],
              sym (append-nil cs),
              (sync_owned_ingress-IsDone (build_ingress cluster tier spec)).at w a e,
              refl,
            );
      }
      either false = Post-pure tt refl

  -- The removal: the StatefulSets of the tier are listed, and those that are extra are deleted, in
  -- the order of the list.
  abbrev pub AreRemoved : TierSpec → List Call → Type 0
  AreRemoved tier cs =
      let c = list_stateful_sets cluster.meta.namespace (tier_labels cluster tier) in
      (listed : List StatefulSet) × Answers (perform c) listed
      × (cs ≡ c ∷ map delete_stateful_set (keep (is_extra tier) listed))

  pub delete_extra_stateful_sets-AreRemoved :
      (tier : TierSpec)
      → Post (delete_extra_stateful_sets cluster tier) (λ _ cs. AreRemoved tier cs)
  unfolding delete_extra_stateful_sets perform
  delete_extra_stateful_sets-AreRemoved tier = record {
    at = λ w a e.
        let c = list_stateful_sets cluster.meta.namespace (tier_labels cluster tier) in
        let r = bind_ok (perform c) (each (delete_if_extra tier)) w e in
        (r.value, (w, r.first), delete_extra_stateful_sets-calls cluster tier w r.value r.first e);
  }

  -- What the rounds change of a tier.
  pub tier_after_rounds-shape :
      (tier : TierSpec) (n : ℕ)
      → let t = tier_after_rounds cluster tier n in
        t ≡ record tier { affinity = t.affinity; security_context = t.security_context }
  unfolding tier_after_rounds tier_after_build
  tier_after_rounds-shape tier zero = refl
  tier_after_rounds-shape tier (suc n) =
      ap
        (λ (t : TierSpec). record t {
          affinity = (tier_after_rounds cluster tier (suc n)).affinity;
          security_context = (tier_after_rounds cluster tier (suc n)).security_context;
        })
        (tier_after_rounds-shape tier n)
