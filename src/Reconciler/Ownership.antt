-- ===== src/Reconciler/Ownership.antt =====
-- The objects that `Reconcile` creates: their owner, and whether the controller hears of them.
use mathlib.Core.Path.{subst}
use mathlib.Core.Option.{some-injective}
use picodata_operator.Base.{◌≡◌, refl, sym, false, some, inl, inr, In}
use picodata_operator.Kube.Platform.{Platform}
use picodata_operator.Kube.Meta.{NamespacedName, ObjectMeta}
use picodata_operator.Api.{PicoclusterDb}
use picodata_operator.World.Errors.{ok}
use picodata_operator.World.Calls.{
  Call, Env, get_cluster, create_config_map, create_service, create_ingress, create_stateful_set,
}
use picodata_operator.World.Exec.{perform}
use picodata_operator.World.Follows.{Answers}
use picodata_operator.World.Guarded.{Returns, Guarded}
use picodata_operator.Plugins.Safety.{is_watched}
use picodata_operator.Reconciler.Setup.{
  stateful_set, service, config_map, ingress, setup_with_manager,
}
use picodata_operator.Reconciler.Steps.{created_meta}
use picodata_operator.Reconciler.Loop.{reconcile-Guarded}
use picodata_operator.Reconciler.{reconcile}

module _ ⦃K : Platform⦄ ⦃E : Env⦄ where
  -- Metadata that `SetControllerReference` has made from metadata in the namespace of a cluster that
  -- the API server returns for the request, with an owner of that cluster's metadata.
  pub record IsOwned (req : NamespacedName) (own : ObjectMeta) : Type 0 where
    pub cluster : PicoclusterDb
    pub fetched : Answers (perform (get_cluster req)) cluster
    pub owner : PicoclusterDb
    pub of_cluster : owner.meta ≡ cluster.meta
    pub bare : ObjectMeta
    pub referenced : E.set_controller_reference owner bare ≡ ok own
    pub beside : bare.namespace ≡ cluster.meta.namespace

  -- A created object is owned, and of a kind that the controller watches for its owner; of other
  -- calls it says nothing.
  abbrev pub Adopted : NamespacedName → Call → Type 0
  Adopted req (create_config_map d) = IsOwned req d.meta × In config_map setup_with_manager.owns
  Adopted req (create_service d) = IsOwned req d.meta × In service setup_with_manager.owns
  Adopted req (create_ingress d) = IsOwned req d.meta × In ingress setup_with_manager.owns
  Adopted req (create_stateful_set d) = IsOwned req d.meta × In stateful_set setup_with_manager.owns
  Adopted req _ = Unit

module _ ⦃K : Platform⦄ ⦃E : Env⦄ (req : NamespacedName) where
  uncreated : (c : Call) → is_watched c ≡ false → Adopted req c
  uncreated (create_config_map d) h = cc
  uncreated (create_service d) h = cc
  uncreated (create_ingress d) h = cc
  uncreated (create_stateful_set d) h = cc
  uncreated _ h = tt

  adopted :
      (c : Call) (own : ObjectMeta) → created_meta c ≡ some own → IsOwned req own → Adopted req c
  adopted (create_config_map d) own e h =
      (subst (IsOwned req) (sym (some-injective _ _ e)) h, inr (inr (inl refl)))
  adopted (create_service d) own e h =
      (subst (IsOwned req) (sym (some-injective _ _ e)) h, inr (inl refl))
  adopted (create_ingress d) own e h =
      (subst (IsOwned req) (sym (some-injective _ _ e)) h, inr (inr (inr (inl refl))))
  adopted (create_stateful_set d) own e h =
      (subst (IsOwned req) (sym (some-injective _ _ e)) h, inl refl)
  adopted _ own e h = tt

  -- In a world whose calls never panic, and where setting an owner never does, every ConfigMap,
  -- Service, Ingress and StatefulSet that `Reconcile` creates carries the metadata that
  -- `SetControllerReference` has made, from metadata in the namespace of a cluster that the API server
  -- returns for the request and with that cluster's metadata as the owner's; and the controller
  -- watches the objects of its kind for their owner.
  pub reconcile-adopts :
      ((c : Call) (w : E.W) → Returns (E.respond c w).0)
      → ((cluster : PicoclusterDb) (meta : ObjectMeta)
          → Returns (E.set_controller_reference cluster meta))
      → Guarded (Adopted req) (reconcile req)
  reconcile-adopts calm owns =
      reconcile-Guarded (Adopted req) uncreated calm owns req λ cluster answer. record {
        adopts = λ c other meta own same made set ns. adopted c own made (record {
          cluster = cluster;
          fetched = answer;
          owner = other;
          of_cluster = same;
          bare = meta;
          referenced = set;
          beside = ns;
        });
        extra = λ t h sts x. tt;
        connects = λ t h report answers is_ready password. tt;
      }
