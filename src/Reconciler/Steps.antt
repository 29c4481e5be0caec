-- ===== src/Reconciler/Steps.antt =====
-- The steps of `Reconcile`, seen through their calls.
use picodata_operator.Base.{
  ℕ, zero, suc, String, ◌≡◌, refl, sym, ◌∙◌, ap, Bool, true, false, not, ◌&&◌, Option, none, some,
  List, [], ◌∷◌, ◌++◌, ◌⊎◌, inl, inr, is_empty,
}
use picodata_operator.Base.Int.{ℤ, pos}
use picodata_operator.Base.Maps.{lookup}
use picodata_operator.Kube.Platform.{Platform}
use picodata_operator.Kube.Meta.{ObjectMeta}
use picodata_operator.Kube.Objects.{ConfigMap, Service, Ingress, StatefulSet}
use picodata_operator.Api.{PicoclusterDb}
use picodata_operator.Api.Spec.{TierSpec, IngressSpec}
use picodata_operator.Api.Status.{TierStatus}
use picodata_operator.ConfigMaps.{build_config_map, config_map_of}
use picodata_operator.Services.{build_interconnect_service, build_client_service}
use picodata_operator.Ingresses.{build_ingress}
use picodata_operator.StatefulSets.{build_stateful_set}
use picodata_operator.World.Errors.{GoError, Outcome, ok, panicked, is_not_found}
use picodata_operator.World.Calls.{
  Call, Env, delete_stateful_set, list_stateful_sets, connect, get_config_map, create_config_map,
  patch_config_map, get_service, create_service, patch_service, get_ingress, create_ingress,
  patch_ingress, get_stateful_set, create_stateful_set, patch_stateful_set, now, patch_status,
}
use picodata_operator.World.Exec.{Exec, perform, give}
use picodata_operator.World.Guarded.{
  Returns, Guarded, Guarded-pure, Guarded-raise, Guarded-give, Guarded-wrapped, Guarded-attempt,
  Guarded-bind, Guarded-bind_known, Guarded-each, Guarded-perform, Guarded-if,
}
use picodata_operator.Plugins.{conn_str}
use picodata_operator.Plugins.Safety.{is_watched, reconcile_tier_plugins-Guarded}
use picodata_operator.Reconciler.Resources.{
  key_of, create_or_patch, reconcile_config_map, reconcile_service, reconcile_ingress,
  reconcile_stateful_set,
}
use picodata_operator.Reconciler.Cleanup.{
  is_extra, exceeds, parsed, ignore_not_found, delete_if_extra, delete_extra_stateful_sets,
}
use picodata_operator.Reconciler.Tiers.{
  or_panic, sync_owned_config_map, sync_owned_service, sync_owned_ingress, sync_owned_stateful_set,
  reconcile_replicasets, reconcile_tier_ingress, reconcile_tier,
}
use picodata_operator.Reconciler.Kept.{reconcile_replicasets-IsKept}
use picodata_operator.Reconciler.Status.{TierReport, tier_status, update_status}
use picodata_operator.Reconciler.{plugins_of_tier}

abbrev pub HasTier : ⦃K : Platform⦄ → List TierSpec → Type 0
HasTier [] = ⊥
HasTier (t ∷ ts) = Unit

pub HasTier-append :
    ⦃K : Platform⦄
    → (done : List TierSpec) (t : TierSpec) (rest : List TierSpec) → HasTier (done ++ t ∷ rest)
HasTier-append [] t rest = tt
HasTier-append (d ∷ done) t rest = tt

-- The ConfigMap is built on every cluster with a tier.
build_config_map-Returns :
    ⦃K : Platform⦄
    → (cluster : PicoclusterDb) (tier : TierSpec) (tiers : List TierSpec)
    → cluster.spec.tiers ≡ tiers
    → HasTier tiers
    → Returns (or_panic (build_config_map cluster tier))
unfolding build_config_map
build_config_map-Returns cluster tier [] e h = absurd h
build_config_map-Returns cluster tier (t ∷ ts) e h = rw (e, build_config_map) tt

-- It is in the namespace of the cluster.
build_config_map-namespace :
    ⦃K : Platform⦄
    → (cluster : PicoclusterDb) (tier : TierSpec) (cm : ConfigMap) (tiers : List TierSpec)
    → cluster.spec.tiers ≡ tiers
    → or_panic (build_config_map cluster tier) ≡ ok cm
    → cm.meta.namespace ≡ cluster.meta.namespace
unfolding build_config_map config_map_of
build_config_map-namespace cluster tier cm [] e built =
    absurd (not_ok (rw (e, build_config_map) at built))
  where
    not_ok : ¬ (panicked ≡ ok cm)
    not_ok p = cc
build_config_map-namespace cluster tier cm (t ∷ ts) e built =
    sym (ap namespace_of (rw (e, build_config_map) at built))
  where
    namespace_of : Outcome ConfigMap → String
    namespace_of (ok cm) = cm.meta.namespace
    namespace_of _ = ""

-- The metadata of an object that is created.
abbrev pub created_meta : ⦃K : Platform⦄ → Call → Option ObjectMeta
created_meta (create_config_map d) = some d.meta
created_meta (create_service d) = some d.meta
created_meta (create_ingress d) = some d.meta
created_meta (create_stateful_set d) = some d.meta
created_meta _ = none

module _ ⦃K : Platform⦄ ⦃E : Env⦄ (P : Call → Type 0)
    (free : (c : Call) → is_watched c ≡ false → P c)
    (calm : (c : Call) (w : E.W) → Returns (E.respond c w).0)
    (owns : (cluster : PicoclusterDb) (meta : ObjectMeta)
      → Returns (E.set_controller_reference cluster meta))
    (base : ObjectMeta)
    (adopts : (c : Call) (cluster : PicoclusterDb) (meta own : ObjectMeta)
      → cluster.meta ≡ base
      → created_meta c ≡ some own
      → E.set_controller_reference cluster meta ≡ ok own
      → meta.namespace ≡ base.namespace
      → P c) where
  pub call-Guarded : (c : Call) → is_watched c ≡ false → Guarded P (perform c)
  call-Guarded c h = Guarded-perform P c (free c h) (calm c)

  pub create_or_patch-Guarded :
      {A : Type 0} (create : Exec (Unit {0})) (patch : A → Exec (Unit {0}))
      → Guarded P create
      → ((a : A) → Guarded P (patch a))
      → (r : A ⊎ GoError) → Guarded P (create_or_patch create patch r)
  unfolding create_or_patch
  create_or_patch-Guarded create patch hc hp (inl a) = hp a
  create_or_patch-Guarded create patch hc hp (inr e) =
      Guarded-if P (is_not_found e) (λ _. hc) (Guarded-raise P e)

  pub reconcile_config_map-Guarded :
      (d : ConfigMap) → P (create_config_map d) → Guarded P (reconcile_config_map d)
  unfolding reconcile_config_map
  reconcile_config_map-Guarded d h =
      Guarded-bind P _ _ (Guarded-attempt P _ (call-Guarded (get_config_map (key_of d.meta)) refl))
        (create_or_patch-Guarded _ _ (Guarded-perform P (create_config_map d) h (calm _))
          (λ old. call-Guarded (patch_config_map old _) refl))

  pub reconcile_service-Guarded :
      (d : Service) → P (create_service d) → Guarded P (reconcile_service d)
  unfolding reconcile_service
  reconcile_service-Guarded d h =
      Guarded-bind P _ _ (Guarded-attempt P _ (call-Guarded (get_service (key_of d.meta)) refl)) (
        create_or_patch-Guarded _ _ (Guarded-perform P (create_service d) h (calm _))
          (λ old. call-Guarded (patch_service old _) refl))

  pub reconcile_ingress-Guarded :
      (d : Ingress) → P (create_ingress d) → Guarded P (reconcile_ingress d)
  unfolding reconcile_ingress
  reconcile_ingress-Guarded d h =
      Guarded-bind P _ _ (Guarded-attempt P _ (call-Guarded (get_ingress (key_of d.meta)) refl)) (
        create_or_patch-Guarded _ _ (Guarded-perform P (create_ingress d) h (calm _))
          (λ old. call-Guarded (patch_ingress old _) refl))

  pub reconcile_stateful_set-Guarded :
      (d : StatefulSet) → P (create_stateful_set d) → Guarded P (reconcile_stateful_set d)
  unfolding reconcile_stateful_set
  reconcile_stateful_set-Guarded d h =
      Guarded-bind P _ _
        (Guarded-attempt P _ (call-Guarded (get_stateful_set (key_of d.meta)) refl))
        (create_or_patch-Guarded _ _ (Guarded-perform P (create_stateful_set d) h (calm _))
          (λ old. call-Guarded (patch_stateful_set old _) refl))

  pub update_status-Guarded :
      (cluster : PicoclusterDb) (tiers : List TierStatus) (all_ready : Bool)
      → Guarded P (update_status cluster tiers all_ready)
  unfolding update_status
  update_status-Guarded cluster tiers all_ready =
      Guarded-bind P _ _ (call-Guarded now refl) (λ at. call-Guarded (patch_status cluster _) refl)

  pub tier_status-Guarded :
      (cluster : PicoclusterDb) (tier : TierSpec) → Guarded P (tier_status cluster tier)
  unfolding tier_status
  tier_status-Guarded cluster tier =
      Guarded-bind P _ _ (call-Guarded (list_stateful_sets _ _) refl) (λ xs. Guarded-pure P _)

  pub plugins_of_tier-Guarded :
      (cluster : PicoclusterDb) (tier : TierSpec) (report : TierReport)
      → (report.ready ≡ true → (password : String) → P (connect (conn_str cluster tier password)))
      → Guarded P (plugins_of_tier cluster tier report)
  unfolding plugins_of_tier
  plugins_of_tier-Guarded cluster tier report connects =
      Guarded-if P (report.ready && not (is_empty tier.plugins))
        (λ h.
          Guarded-bind P _ _
            (reconcile_tier_plugins-Guarded P free calm cluster tier
              (connects (both_true report.ready _ h)))
            (λ s. Guarded-pure P _))
        (Guarded-pure P _)
    where
      both_true : (a b : Bool) → (a && b) ≡ true → a ≡ true
      both_true true b h = refl
      both_true false b h = h

  module _ (cluster : PicoclusterDb) (same : cluster.meta ≡ base) where
    pub sync_owned_config_map-Guarded :
        (d : ConfigMap)
        → d.meta.namespace ≡ base.namespace
        → Guarded P (sync_owned_config_map cluster d)
    unfolding sync_owned_config_map give
    sync_owned_config_map-Guarded d ns =
        Guarded-bind_known P _ _ (Guarded-give P _ (owns cluster d.meta)) (λ meta w e.
          Guarded-wrapped P _ _ (
            reconcile_config_map-Guarded _ (
              adopts (create_config_map (record d { meta = meta })) cluster d.meta meta same refl e
                ns)))

    pub sync_owned_service-Guarded :
        (text : String) (d : Service)
        → d.meta.namespace ≡ base.namespace
        → Guarded P (sync_owned_service cluster text d)
    unfolding sync_owned_service give
    sync_owned_service-Guarded text d ns =
        Guarded-bind_known P _ _ (Guarded-give P _ (owns cluster d.meta)) (λ meta w e.
          Guarded-wrapped P _ _ (
            reconcile_service-Guarded _ (
              adopts (create_service (record d { meta = meta })) cluster d.meta meta same refl e
                ns)))

    pub sync_owned_ingress-Guarded :
        (d : Ingress) → d.meta.namespace ≡ base.namespace → Guarded P (sync_owned_ingress cluster d)
    unfolding sync_owned_ingress give
    sync_owned_ingress-Guarded d ns =
        Guarded-bind_known P _ _ (Guarded-give P _ (owns cluster d.meta)) (λ meta w e.
          Guarded-wrapped P _ _ (
            reconcile_ingress-Guarded _ (
              adopts (create_ingress (record d { meta = meta })) cluster d.meta meta same refl e
                ns)))

    pub sync_owned_stateful_set-Guarded :
        (i : ℤ) (d : StatefulSet)
        → d.meta.namespace ≡ base.namespace
        → Guarded P (sync_owned_stateful_set cluster i d)
    unfolding sync_owned_stateful_set give
    sync_owned_stateful_set-Guarded i d ns =
        Guarded-bind_known P _ _ (Guarded-give P _ (owns cluster d.meta)) (λ meta w e.
          Guarded-wrapped P _ _ (
            reconcile_stateful_set-Guarded _ (
              adopts (create_stateful_set (record d { meta = meta })) cluster d.meta meta same refl
                e ns)))

    pub reconcile_replicasets-Guarded :
        (config_data : String) (rounds n : ℕ) (tier : TierSpec)
        → Guarded P (reconcile_replicasets cluster config_data rounds n tier)
    unfolding reconcile_replicasets build_stateful_set
    reconcile_replicasets-Guarded config_data zero n tier = Guarded-pure P tier
    reconcile_replicasets-Guarded config_data (suc rounds) n tier =
        Guarded-bind P _ _
          (sync_owned_stateful_set-Guarded (pos n) _ (ap (λ (m : ObjectMeta). m.namespace) same))
          (λ _. reconcile_replicasets-Guarded config_data rounds (suc n) _)

    pub reconcile_tier_ingress-Guarded :
        (tier : TierSpec) (o : Option IngressSpec)
        → Guarded P (reconcile_tier_ingress cluster tier o)
    unfolding reconcile_tier_ingress build_ingress
    reconcile_tier_ingress-Guarded tier none = Guarded-pure P tt
    reconcile_tier_ingress-Guarded tier (some spec) =
        Guarded-if P spec.enabled
          (λ _. sync_owned_ingress-Guarded _ (ap (λ (m : ObjectMeta). m.namespace) same))
          (Guarded-pure P tt)

    -- A predicate that also holds of the deletion of what is beyond a tier's replicas.
    abbrev pub AdmitsExtra : TierSpec → Type 0
    AdmitsExtra tier = (sts : StatefulSet) → is_extra tier sts ≡ true → P (delete_stateful_set sts)

    pub delete_extra_stateful_sets-Guarded :
        (tier : TierSpec) → AdmitsExtra tier → Guarded P (delete_extra_stateful_sets cluster tier)
    unfolding delete_extra_stateful_sets delete_if_extra ignore_not_found
    delete_extra_stateful_sets-Guarded tier extra =
        Guarded-bind P _ _ (call-Guarded (list_stateful_sets _ _) refl) (
          Guarded-each P _ (λ sts.
            Guarded-if P (is_extra tier sts)
              (λ h.
                Guarded-bind P _ _
                  (Guarded-attempt P _
                    (Guarded-perform P (delete_stateful_set sts) (extra sts h) (calm _)))
                  ignored)
              (Guarded-pure P tt)))
      where
        ignored : (r : Unit {0} ⊎ GoError) → Guarded P (ignore_not_found r)
        ignored (inl done) = Guarded-pure P tt
        ignored (inr e) = Guarded-if P (is_not_found e) (λ _. Guarded-pure P tt) (Guarded-raise P e)

    pub AdmitsExtra-replicas :
        (tier t : TierSpec) → t.replicas ≡ tier.replicas → AdmitsExtra tier → AdmitsExtra t
    unfolding is_extra
    AdmitsExtra-replicas tier t e extra sts h =
        extra sts (
          ap (λ r. exceeds r (parsed (lookup "picodata.io/replicaset" sts.meta.labels))) (sym e)
          ∙ h)

    pub reconcile_tier-Guarded :
        (tier : TierSpec)
        → HasTier cluster.spec.tiers
        → AdmitsExtra tier
        → Guarded P (reconcile_tier cluster tier)
    unfolding reconcile_tier give build_interconnect_service build_client_service
    reconcile_tier-Guarded tier has extra =
        let ns = ap (λ (m : ObjectMeta). m.namespace) same in
        Guarded-bind_known P _ _
          (Guarded-give P _ (build_config_map-Returns cluster tier _ refl has))
          λ cm w e.
            Guarded-bind P _ _
              (sync_owned_config_map-Guarded cm
                (build_config_map-namespace cluster tier cm _ refl e ∙ ns))
              λ _. Guarded-bind P _ _ (sync_owned_service-Guarded _ _ ns) λ _.
                Guarded-bind P _ _ (sync_owned_service-Guarded _ _ ns) λ _.
                  Guarded-bind_known P _ _ (reconcile_replicasets-Guarded _ _ 1 tier) λ t w e.
                    Guarded-bind P _ _
                      (Guarded-wrapped P _ _ (
                        delete_extra_stateful_sets-Guarded t (
                          AdmitsExtra-replicas tier t
                            (ap (λ (t : TierSpec). t.replicas)
                              ((reconcile_replicasets-IsKept cluster _ _ 1 tier).at w t e))
                            extra)))
                      λ _.
                        Guarded-bind P _ _ (reconcile_tier_ingress-Guarded t t.ingress)
                          λ _. Guarded-pure P t
