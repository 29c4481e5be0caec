-- ===== src/Memory/Pointers.antt =====
-- api/v1/zz_generated.deepcopy.go: `DeepCopy` and `DeepCopyObject`, from a pointer to a pointer. An
-- interface value holds the pointer, and is nil where that is.
use picodata_operator.Api.Spec.{
  ImageSpec, SecretKeyRef, ClusterSpec, MemtxSpec, VinylSpec, PgSpec, ServiceSpec,
  PluginServiceSpec,
}
use picodata_operator.Api.Status.{PluginStatus}
use picodata_operator.Memory.Store.{Ref, Alloc, keep, new_cell}
use picodata_operator.Memory.Types.{
  Library, StoredLogSpec, StoredPluginSpec, StoredIngressTlsSpec, StoredIngressSpec,
  StoredTierStatus, StoredStorageSpec, StoredTierSpec, StoredDbSpec, StoredDbStatus, StoredDb,
  StoredDbList,
}
use picodata_operator.Memory.Copies.{
  copy_log_spec, copy_plugin_spec, copy_ingress_tls_spec, copy_ingress_spec, copy_tier_status,
  copy_storage_spec, copy_tier_spec, copy_db_spec, copy_db_status, copy_db, copy_db_list,
}

abbrev pub deep_copy_cluster_spec : Ref ClusterSpec → Alloc (Ref ClusterSpec)
deep_copy_cluster_spec = new_cell keep

abbrev pub deep_copy_image_spec : Ref ImageSpec → Alloc (Ref ImageSpec)
deep_copy_image_spec = new_cell keep

abbrev pub deep_copy_memtx_spec : Ref MemtxSpec → Alloc (Ref MemtxSpec)
deep_copy_memtx_spec = new_cell keep

abbrev pub deep_copy_pg_spec : Ref PgSpec → Alloc (Ref PgSpec)
deep_copy_pg_spec = new_cell keep

abbrev pub deep_copy_plugin_service_spec : Ref PluginServiceSpec → Alloc (Ref PluginServiceSpec)
deep_copy_plugin_service_spec = new_cell keep

abbrev pub deep_copy_plugin_status : Ref PluginStatus → Alloc (Ref PluginStatus)
deep_copy_plugin_status = new_cell keep

abbrev pub deep_copy_secret_key_ref : Ref SecretKeyRef → Alloc (Ref SecretKeyRef)
deep_copy_secret_key_ref = new_cell keep

abbrev pub deep_copy_service_spec : Ref ServiceSpec → Alloc (Ref ServiceSpec)
deep_copy_service_spec = new_cell keep

abbrev pub deep_copy_vinyl_spec : Ref VinylSpec → Alloc (Ref VinylSpec)
deep_copy_vinyl_spec = new_cell keep

abbrev pub deep_copy_ingress_spec : Ref StoredIngressSpec → Alloc (Ref StoredIngressSpec)
deep_copy_ingress_spec = new_cell copy_ingress_spec

abbrev pub deep_copy_ingress_tls_spec : Ref StoredIngressTlsSpec → Alloc (Ref StoredIngressTlsSpec)
deep_copy_ingress_tls_spec = new_cell copy_ingress_tls_spec

abbrev pub deep_copy_log_spec : Ref StoredLogSpec → Alloc (Ref StoredLogSpec)
deep_copy_log_spec = new_cell copy_log_spec

abbrev pub deep_copy_plugin_spec : Ref StoredPluginSpec → Alloc (Ref StoredPluginSpec)
deep_copy_plugin_spec = new_cell copy_plugin_spec

abbrev pub deep_copy_tier_status : Ref StoredTierStatus → Alloc (Ref StoredTierStatus)
deep_copy_tier_status = new_cell copy_tier_status

module _ ⦃L : Library⦄ where
  abbrev pub deep_copy_storage_spec : Ref StoredStorageSpec → Alloc (Ref StoredStorageSpec)
  deep_copy_storage_spec = new_cell copy_storage_spec

  abbrev pub deep_copy_tier_spec : Ref StoredTierSpec → Alloc (Ref StoredTierSpec)
  deep_copy_tier_spec = new_cell copy_tier_spec

  abbrev pub deep_copy_db_spec : Ref StoredDbSpec → Alloc (Ref StoredDbSpec)
  deep_copy_db_spec = new_cell copy_db_spec

  abbrev pub deep_copy_db_status : Ref StoredDbStatus → Alloc (Ref StoredDbStatus)
  deep_copy_db_status = new_cell copy_db_status

  abbrev pub deep_copy_db : Ref StoredDb → Alloc (Ref StoredDb)
  deep_copy_db = new_cell copy_db

  abbrev pub deep_copy_db_list : Ref StoredDbList → Alloc (Ref StoredDbList)
  deep_copy_db_list = new_cell copy_db_list

  -- `DeepCopyObject`
  abbrev pub deep_copy_db_object : Ref StoredDb → Alloc (Ref StoredDb)
  deep_copy_db_object = deep_copy_db

  abbrev pub deep_copy_db_list_object : Ref StoredDbList → Alloc (Ref StoredDbList)
  deep_copy_db_list_object = deep_copy_db_list
