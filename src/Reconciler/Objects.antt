-- ===== src/Reconciler/Objects.antt =====
-- An object that is found, and is reconciled: what a patch makes of it.
use picodata_operator.Base.{String, ◌≡◌}
use picodata_operator.Base.Int.{ℤ}
use picodata_operator.Kube.Platform.{Platform}
use picodata_operator.Kube.Meta.{ObjectMeta}
use picodata_operator.Kube.Objects.{ConfigMap, Service, Ingress, StatefulSet}
use picodata_operator.Api.{PicoclusterDb}
use picodata_operator.World.Errors.{ok}
use picodata_operator.World.Calls.{
  Call, Env, get_config_map, patch_config_map, get_service, patch_service, get_ingress,
  patch_ingress, get_stateful_set, patch_stateful_set, list_stateful_sets,
}
use picodata_operator.World.Exec.{give, perform}
use picodata_operator.World.Follows.{Answers}
use picodata_operator.Base.{refl}
use picodata_operator.Reconciler.Resources.{
  key_of, sync_config_map, sync_service, sync_ingress, sync_stateful_set, reconcile_config_map,
  reconcile_service, reconcile_ingress, reconcile_stateful_set,
}
use picodata_operator.Reconciler.Kinds.{
  ResourceKind, IsFound, apply, apply_owned, config_maps, services, ingresses, stateful_sets,
}
use picodata_operator.Reconciler.Tiers.{
  sync_owned_config_map, sync_owned_service, sync_owned_ingress, sync_owned_stateful_set,
}
use picodata_operator.Reconciler.Applied.{Desired, config_map, service, stateful_set, ingress}
use picodata_operator.Reconciler.Still.{
  Still, Still-give, Still-wrapped, Still-bind, IsStill, Still-apply,
}

module _ ⦃K : Platform⦄ where
  -- What a patch makes of an object that is found, for the one that is wanted: the fields that the
  -- operator manages are as wanted, and with those put back it is the object that was found.
  abbrev pub TakesConfigMap : ConfigMap → ConfigMap → ConfigMap → Type 0
  TakesConfigMap d old new =
      (new.contents ≡ d.contents)
      × (new.meta.labels ≡ d.meta.labels)
      × (record new {
        contents = old.contents;
        meta = record (new.meta) { labels = old.meta.labels };
      }
          ≡ old)

  abbrev pub TakesService : Service → Service → Service → Type 0
  TakesService d old new =
      (new.ports ≡ d.ports)
      × (new.selector ≡ d.selector)
      × (new.meta.labels ≡ d.meta.labels)
      × (record new {
        ports = old.ports;
        selector = old.selector;
        meta = record (new.meta) { labels = old.meta.labels };
      }
          ≡ old)

  abbrev pub TakesIngress : Ingress → Ingress → Ingress → Type 0
  TakesIngress d old new =
      (new.spec ≡ d.spec)
      × (new.meta.labels ≡ d.meta.labels)
      × (new.meta.annotations ≡ d.meta.annotations)
      × (record new {
        spec = old.spec;
        meta = record (new.meta) { labels = old.meta.labels; annotations = old.meta.annotations };
      }
          ≡ old)

  abbrev pub TakesStatefulSet : StatefulSet → StatefulSet → StatefulSet → Type 0
  TakesStatefulSet d old new =
      (new.spec.replicas ≡ d.spec.replicas)
      × (new.spec.template ≡ d.spec.template)
      × (new.meta.labels ≡ d.meta.labels)
      × (record new {
        spec = record (new.spec) { replicas = old.spec.replicas; template = old.spec.template };
        meta = record (new.meta) { labels = old.meta.labels };
      }
          ≡ old)

module _ ⦃K : Platform⦄ ⦃E : Env⦄ (Wants : Desired → Type 0) (cluster : PicoclusterDb) where
  -- The objects are read and listed; and what is found under the name of a wanted object is patched to
  -- take what that object has, with its owner.
  abbrev pub IsSteady : Call → Type 0
  IsSteady (get_config_map key) = Unit
  IsSteady (get_service key) = Unit
  IsSteady (get_ingress key) = Unit
  IsSteady (get_stateful_set key) = Unit
  IsSteady (list_stateful_sets namespace labels) = Unit
  IsSteady (patch_config_map old new) =
      (d : ConfigMap) × (own : ObjectMeta) × Wants (config_map d)
      × (E.set_controller_reference cluster d.meta ≡ ok own)
      × Answers (perform (get_config_map (key_of own))) old
      × TakesConfigMap (record d { meta = own }) old new
  IsSteady (patch_service old new) =
      (d : Service) × (own : ObjectMeta) × Wants (service d)
      × (E.set_controller_reference cluster d.meta ≡ ok own)
      × Answers (perform (get_service (key_of own))) old
      × TakesService (record d { meta = own }) old new
  IsSteady (patch_ingress old new) =
      (d : Ingress) × (own : ObjectMeta) × Wants (ingress d)
      × (E.set_controller_reference cluster d.meta ≡ ok own)
      × Answers (perform (get_ingress (key_of own))) old
      × TakesIngress (record d { meta = own }) old new
  IsSteady (patch_stateful_set old new) =
      (d : StatefulSet) × (own : ObjectMeta) × Wants (stateful_set d)
      × (E.set_controller_reference cluster d.meta ≡ ok own)
      × Answers (perform (get_stateful_set (key_of own))) old
      × TakesStatefulSet (record d { meta = own }) old new
  IsSteady _ = ⊥

  -- The object is found under its name.
  abbrev pub IsFoundAs : {D : Type 0} → ResourceKind D → E.W → D → Type 0
  IsFoundAs kind w d =
      (own : ObjectMeta)
      → E.set_controller_reference cluster (kind.meta_of d) ≡ ok own
      → IsFound kind w (kind.with_meta d own)

  abbrev pub Exists : E.W → Desired → Type 0
  Exists w (config_map d) = IsFoundAs config_maps w d
  Exists w (service d) = IsFoundAs services w d
  Exists w (stateful_set d) = IsFoundAs stateful_sets w d
  Exists w (ingress d) = IsFoundAs ingresses w d

  module _ (I : E.W → Type 0)
      (kept : (c : Call) → IsSteady c → (w : E.W) → I w → I (E.respond c w).1)
      (exists : (d : Desired) → Wants d → (w : E.W) → I w → Exists w d) where
    pub perform-Still : (c : Call) → IsSteady c → Still IsSteady I (perform c)
    unfolding perform
    perform-Still c h = record { at = λ w i. ((h, tt), kept c h w i) }

    apply_owned-Still :
        {D : Type 0} (kind : ResourceKind D) (text : String) (d : D)
        → ((own : ObjectMeta)
            → E.set_controller_reference cluster (kind.meta_of d) ≡ ok own
            → IsStill IsSteady I kind (kind.with_meta d own))
        → ((w : E.W) → I w → IsFoundAs kind w d)
        → Still IsSteady I (apply_owned kind cluster text d)
    unfolding apply_owned give
    apply_owned-Still kind text d still found =
        Still-bind IsSteady I _ _
          (Still-give IsSteady I (E.set_controller_reference cluster (kind.meta_of d)))
          (λ own v j e. Still-wrapped IsSteady I text _ (
            Still-apply IsSteady I kind (kind.with_meta d own) (still own e)
              (λ w i. found w i own e)))

    pub sync_owned_config_map-Still :
        (d : ConfigMap) → Wants (config_map d) → Still IsSteady I (sync_owned_config_map cluster d)
    unfolding sync_owned_config_map reconcile_config_map sync_config_map apply_owned apply
    sync_owned_config_map-Still d wants =
        apply_owned-Still config_maps "configmap" d
          (λ own e. record {
            fetches = λ key. perform-Still (get_config_map key) tt;
            changes = λ old h.
                perform-Still (patch_config_map old (sync_config_map (record d { meta = own }) old))
                  (d, own, wants, e, h, (refl, refl, refl));
          })
          (exists (config_map d) wants)

    pub sync_owned_service-Still :
        (text : String) (d : Service)
        → Wants (service d)
        → Still IsSteady I (sync_owned_service cluster text d)
    unfolding sync_owned_service reconcile_service sync_service apply_owned apply
    sync_owned_service-Still text d wants =
        apply_owned-Still services text d
          (λ own e. record {
            fetches = λ key. perform-Still (get_service key) tt;
            changes = λ old h.
                perform-Still (patch_service old (sync_service (record d { meta = own }) old))
                  (d, own, wants, e, h, (refl, refl, refl, refl));
          })
          (exists (service d) wants)

    pub sync_owned_ingress-Still :
        (d : Ingress) → Wants (ingress d) → Still IsSteady I (sync_owned_ingress cluster d)
    unfolding sync_owned_ingress reconcile_ingress sync_ingress apply_owned apply
    sync_owned_ingress-Still d wants =
        apply_owned-Still ingresses "ingress" d
          (λ own e. record {
            fetches = λ key. perform-Still (get_ingress key) tt;
            changes = λ old h.
                perform-Still (patch_ingress old (sync_ingress (record d { meta = own }) old))
                  (d, own, wants, e, h, (refl, refl, refl, refl));
          })
          (exists (ingress d) wants)

    pub sync_owned_stateful_set-Still :
        (i : ℤ) (d : StatefulSet)
        → Wants (stateful_set d)
        → Still IsSteady I (sync_owned_stateful_set cluster i d)
    unfolding sync_owned_stateful_set reconcile_stateful_set sync_stateful_set apply_owned apply
    sync_owned_stateful_set-Still i d wants =
        apply_owned-Still stateful_sets _ d
          (λ own e. record {
            fetches = λ key. perform-Still (get_stateful_set key) tt;
            changes = λ old h.
                perform-Still
                  (patch_stateful_set old (sync_stateful_set (record d { meta = own }) old))
                  (d, own, wants, e, h, (refl, refl, refl, refl));
          })
          (exists (stateful_set d) wants)
