-- ===== src/Memory/Copies.antt =====
-- api/v1/zz_generated.deepcopy.go: `DeepCopyInto` of each type that holds references. `record in_ { … }`
-- is `*out = *in` with the fields that are assigned behind it.
use picodata_operator.Memory.Store.{Alloc, keep, new_cell, copy_each, ◌>>=◌}
use picodata_operator.Memory.Types.{
  Library, StoredLogSpec, StoredPluginSpec, StoredIngressTlsSpec, StoredIngressSpec,
  StoredTierStatus, StoredStorageSpec, StoredTierSpec, StoredDbSpec, StoredDbStatus, StoredDb,
  StoredDbList,
}

unfoldable pub copy_log_spec : StoredLogSpec → Alloc StoredLogSpec
copy_log_spec spec = do
  destination ← new_cell keep spec.destination
  keep (record spec { destination = destination })

unfoldable pub copy_plugin_spec : StoredPluginSpec → Alloc StoredPluginSpec
copy_plugin_spec spec = do
  migration_context ← new_cell keep spec.migration_context
  services ← new_cell keep spec.services
  keep (record spec { migration_context = migration_context; services = services })

unfoldable pub copy_ingress_tls_spec : StoredIngressTlsSpec → Alloc StoredIngressTlsSpec
copy_ingress_tls_spec spec = do
  hosts ← new_cell keep spec.hosts
  keep (record spec { hosts = hosts })

unfoldable pub copy_ingress_spec : StoredIngressSpec → Alloc StoredIngressSpec
copy_ingress_spec spec = do
  ingress_class_name ← new_cell keep spec.ingress_class_name
  annotations ← new_cell keep spec.annotations
  tls ← new_cell (copy_each copy_ingress_tls_spec) spec.tls
  keep (record spec {
    ingress_class_name = ingress_class_name;
    annotations = annotations;
    tls = tls;
  })

unfoldable pub copy_tier_status : StoredTierStatus → Alloc StoredTierStatus
copy_tier_status status = do
  plugins ← new_cell keep status.plugins
  keep (record status { plugins = plugins })

module _ ⦃L : Library⦄ where
  unfoldable pub copy_storage_spec : StoredStorageSpec → Alloc StoredStorageSpec
  copy_storage_spec spec = do
    size ← L.quantity.copy spec.size
    storage_class_name ← new_cell keep spec.storage_class_name
    keep (record spec { size = size; storage_class_name = storage_class_name })

  unfoldable pub copy_tier_spec : StoredTierSpec → Alloc StoredTierSpec
  copy_tier_spec spec = do
    storage ← copy_storage_spec spec.storage
    log ← copy_log_spec spec.log
    resources ← L.resources.copy spec.resources
    plugins ← new_cell (copy_each copy_plugin_spec) spec.plugins
    env ← new_cell (copy_each L.env_var.copy) spec.env
    affinity ← new_cell L.affinity.copy spec.affinity
    tolerations ← new_cell (copy_each L.toleration.copy) spec.tolerations
    node_selector ← new_cell keep spec.node_selector
    topology_spread_constraints ←
        new_cell (copy_each L.topology_spread_constraint.copy) spec.topology_spread_constraints
    security_context ← new_cell L.pod_security_context.copy spec.security_context
    ingress ← new_cell copy_ingress_spec spec.ingress
    keep (record spec {
      storage = storage;
      log = log;
      resources = resources;
      plugins = plugins;
      env = env;
      affinity = affinity;
      tolerations = tolerations;
      node_selector = node_selector;
      topology_spread_constraints = topology_spread_constraints;
      security_context = security_context;
      ingress = ingress;
    })

  unfoldable pub copy_db_spec : StoredDbSpec → Alloc StoredDbSpec
  copy_db_spec spec = do
    image_pull_secrets ← new_cell keep spec.image_pull_secrets
    tiers ← new_cell (copy_each copy_tier_spec) spec.tiers
    startup_probe ← new_cell L.probe.copy spec.startup_probe
    liveness_probe ← new_cell L.probe.copy spec.liveness_probe
    readiness_probe ← new_cell L.probe.copy spec.readiness_probe
    keep (record spec {
      image_pull_secrets = image_pull_secrets;
      tiers = tiers;
      startup_probe = startup_probe;
      liveness_probe = liveness_probe;
      readiness_probe = readiness_probe;
    })

  unfoldable pub copy_db_status : StoredDbStatus → Alloc StoredDbStatus
  copy_db_status status = do
    tiers ← new_cell (copy_each copy_tier_status) status.tiers
    conditions ← new_cell (copy_each L.condition.copy) status.conditions
    keep (record status { tiers = tiers; conditions = conditions })

  unfoldable pub copy_db : StoredDb → Alloc StoredDb
  copy_db db = do
    meta ← L.object_meta.copy db.meta
    spec ← copy_db_spec db.spec
    status ← copy_db_status db.status
    keep (record db { meta = meta; spec = spec; status = status })

  unfoldable pub copy_db_list : StoredDbList → Alloc StoredDbList
  copy_db_list list = do
    list_meta ← L.list_meta.copy list.list_meta
    items ← new_cell (copy_each copy_db) list.items
    keep (record list { list_meta = list_meta; items = items })
