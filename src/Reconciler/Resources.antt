-- ===== src/Reconciler/Resources.antt =====
-- internal/controller/picoclusterdb_controller.go: the reconcilers of the single resources.
use picodata_operator.Base.{◌⊎◌, inl, inr, if◌then◌else◌}
use picodata_operator.Kube.Platform.{Platform}
use picodata_operator.Kube.Meta.{NamespacedName, ObjectMeta}
use picodata_operator.Kube.Objects.{ConfigMap, Service, Ingress, StatefulSet}
use picodata_operator.World.Errors.{GoError, is_not_found}
use picodata_operator.World.Calls.{
  Env, get_config_map, create_config_map, patch_config_map, get_service, create_service,
  patch_service, get_ingress, create_ingress, patch_ingress, get_stateful_set, create_stateful_set,
  patch_stateful_set,
}
use picodata_operator.World.Exec.{Exec, raise, attempt, perform, ◌>>=◌}

module _ ⦃K : Platform⦄ where
  unfoldable pub key_of : ObjectMeta → NamespacedName
  key_of meta = record { name = meta.name; namespace = meta.namespace }

  -- What is patched of an existing object. All else of it is kept.
  unfoldable pub sync_config_map : ConfigMap → ConfigMap → ConfigMap
  sync_config_map desired existing = record existing {
    contents = desired.contents;
    meta = record (existing.meta) { labels = desired.meta.labels };
  }

  unfoldable pub sync_service : Service → Service → Service
  sync_service desired existing = record existing {
    ports = desired.ports;
    selector = desired.selector;
    meta = record (existing.meta) { labels = desired.meta.labels };
  }

  unfoldable pub sync_ingress : Ingress → Ingress → Ingress
  sync_ingress desired existing = record existing {
    spec = desired.spec;
    meta = record (existing.meta) {
      annotations = desired.meta.annotations;
      labels = desired.meta.labels;
    };
  }

  unfoldable pub sync_stateful_set : StatefulSet → StatefulSet → StatefulSet
  sync_stateful_set desired existing = record existing {
    spec = record (existing.spec) {
      replicas = desired.spec.replicas;
      template = desired.spec.template;
    };
    meta = record (existing.meta) { labels = desired.meta.labels };
  }

module _ ⦃K : Platform⦄ ⦃E : Env⦄ where
  -- The three ways behind `Get`: create what is not found, return any other error, patch what is
  -- there.
  unfoldable pub create_or_patch :
      {A : Type 0} → Exec (Unit {0}) → (A → Exec (Unit {0})) → A ⊎ GoError → Exec (Unit {0})
  create_or_patch create patch (inl existing) = patch existing
  create_or_patch create patch (inr e) = if is_not_found e then create else raise e

  unfoldable pub reconcile_config_map : ConfigMap → Exec (Unit {0})
  reconcile_config_map desired = do
    existing ← attempt (perform (get_config_map (key_of desired.meta)))
    create_or_patch (perform (create_config_map desired))
        (λ old. perform (patch_config_map old (sync_config_map desired old))) existing

  unfoldable pub reconcile_service : Service → Exec (Unit {0})
  reconcile_service desired = do
    existing ← attempt (perform (get_service (key_of desired.meta)))
    create_or_patch (perform (create_service desired))
        (λ old. perform (patch_service old (sync_service desired old))) existing

  unfoldable pub reconcile_ingress : Ingress → Exec (Unit {0})
  reconcile_ingress desired = do
    existing ← attempt (perform (get_ingress (key_of desired.meta)))
    create_or_patch (perform (create_ingress desired))
        (λ old. perform (patch_ingress old (sync_ingress desired old))) existing

  unfoldable pub reconcile_stateful_set : StatefulSet → Exec (Unit {0})
  reconcile_stateful_set desired = do
    existing ← attempt (perform (get_stateful_set (key_of desired.meta)))
    create_or_patch (perform (create_stateful_set desired))
        (λ old. perform (patch_stateful_set old (sync_stateful_set desired old))) existing
