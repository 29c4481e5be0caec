-- ===== src/Memory/Shapes.antt =====
-- The API's types by the fields that hold references, and the deep copies of them seen so.
use picodata_operator.Base.{◌≡◌, refl, List}
use picodata_operator.Base.Maps.{Labels}
use picodata_operator.Memory.Store.{Ref, Shape, plain, pointer, elements, both, struct, keep, ◌>>=◌}
use picodata_operator.Memory.Types.{
  Library, StoredLogSpec, StoredPluginSpec, StoredIngressTlsSpec, StoredIngressSpec,
  StoredTierStatus, StoredStorageSpec, StoredTierSpec, StoredDbSpec, StoredDbStatus, StoredDb,
  StoredDbList,
}
use picodata_operator.Memory.Copies.{
  copy_log_spec, copy_plugin_spec, copy_ingress_tls_spec, copy_ingress_spec, copy_tier_status,
  copy_storage_spec, copy_tier_spec, copy_db_spec, copy_db_status, copy_db, copy_db_list,
}

abbrev pub log_spec : Shape StoredLogSpec
log_spec =
    struct (pointer plain) (λ (t : StoredLogSpec). t.destination)
      (λ (t : StoredLogSpec) p. record t { destination = p }) (λ t p. refl) (λ t p q. refl)

abbrev pub plugin_spec : Shape StoredPluginSpec
plugin_spec =
    struct (both (pointer plain) (pointer plain))
      (λ (t : StoredPluginSpec). (t.migration_context, t.services))
      (λ (t : StoredPluginSpec) p. record t { migration_context = p.0; services = p.1 })
      (λ t p. refl) (λ t p q. refl)

abbrev pub ingress_tls_spec : Shape StoredIngressTlsSpec
ingress_tls_spec =
    struct (pointer plain) (λ (t : StoredIngressTlsSpec). t.hosts)
      (λ (t : StoredIngressTlsSpec) p. record t { hosts = p }) (λ t p. refl) (λ t p q. refl)

abbrev pub ingress_spec : Shape StoredIngressSpec
ingress_spec =
    struct (both (pointer plain) (both (pointer plain) (pointer (elements ingress_tls_spec))))
      (λ (t : StoredIngressSpec). (t.ingress_class_name, (t.annotations, t.tls)))
      (λ (t : StoredIngressSpec) p. record t {
        ingress_class_name = p.0;
        annotations = p.1.0;
        tls = p.1.1;
      })
      (λ t p. refl) (λ t p q. refl)

abbrev pub tier_status : Shape StoredTierStatus
tier_status =
    struct (pointer plain) (λ (t : StoredTierStatus). t.plugins)
      (λ (t : StoredTierStatus) p. record t { plugins = p }) (λ t p. refl) (λ t p q. refl)

module _ ⦃L : Library⦄ where
  abbrev pub storage_spec : Shape StoredStorageSpec
  storage_spec =
      struct (both L.quantity (pointer plain))
        (λ (t : StoredStorageSpec). (t.size, t.storage_class_name))
        (λ (t : StoredStorageSpec) p. record t { size = p.0; storage_class_name = p.1 })
        (λ t p. refl) (λ t p q. refl)

  -- The fields of a tier, in the order in which they are copied.
  abbrev pub tier_parts : Shape (
      StoredStorageSpec
      × (StoredLogSpec
          × (L.Resources
              × (Ref (List StoredPluginSpec)
                  × (Ref (List L.EnvVar)
                      × (Ref L.Affinity
                          × (Ref (List L.Toleration)
                              × (Ref Labels
                                  × (Ref (List L.TopologySpreadConstraint)
                                      × (Ref L.PodSecurityContext × Ref StoredIngressSpec))))))))))
  tier_parts = both storage_spec (
      both log_spec (
        both L.resources (
          both (pointer (elements plugin_spec)) (
            both (pointer (elements L.env_var)) (
              both (pointer L.affinity) (
                both (pointer (elements L.toleration)) (
                  both (pointer plain) (
                    both (pointer (elements L.topology_spread_constraint))
                      (both (pointer L.pod_security_context) (pointer ingress_spec))))))))))

  abbrev pub tier_spec : Shape StoredTierSpec
  tier_spec =
      struct tier_parts
        (λ (t : StoredTierSpec). (
          t.storage,
          (
            t.log,
            (
              t.resources,
              (
                t.plugins,
                (
                  t.env,
                  (
                    t.affinity,
                    (
                      t.tolerations,
                      (
                        t.node_selector,
                        (t.topology_spread_constraints, (t.security_context, t.ingress)),
                      ),
                    ),
                  ),
                ),
              ),
            ),
          ),
        ))
        (λ (t : StoredTierSpec) p. record t {
          storage = p.0;
          log = p.1.0;
          resources = p.1.1.0;
          plugins = p.1.1.1.0;
          env = p.1.1.1.1.0;
          affinity = p.1.1.1.1.1.0;
          tolerations = p.1.1.1.1.1.1.0;
          node_selector = p.1.1.1.1.1.1.1.0;
          topology_spread_constraints = p.1.1.1.1.1.1.1.1.0;
          security_context = p.1.1.1.1.1.1.1.1.1.0;
          ingress = p.1.1.1.1.1.1.1.1.1.1;
        })
        (λ t p. refl) (λ t p q. refl)

  abbrev pub db_spec : Shape StoredDbSpec
  db_spec =
      struct
        (both (pointer plain) (
          both (pointer (elements tier_spec))
            (both (pointer L.probe) (both (pointer L.probe) (pointer L.probe)))))
        (λ (t : StoredDbSpec). (
          t.image_pull_secrets,
          (t.tiers, (t.startup_probe, (t.liveness_probe, t.readiness_probe))),
        ))
        (λ (t : StoredDbSpec) p. record t {
          image_pull_secrets = p.0;
          tiers = p.1.0;
          startup_probe = p.1.1.0;
          liveness_probe = p.1.1.1.0;
          readiness_probe = p.1.1.1.1;
        })
        (λ t p. refl) (λ t p q. refl)

  abbrev pub db_status : Shape StoredDbStatus
  db_status =
      struct (both (pointer (elements tier_status)) (pointer (elements L.condition)))
        (λ (t : StoredDbStatus). (t.tiers, t.conditions))
        (λ (t : StoredDbStatus) p. record t { tiers = p.0; conditions = p.1 }) (λ t p. refl)
        (λ t p q. refl)

  abbrev pub db : Shape StoredDb
  db =
      struct (both L.object_meta (both db_spec db_status))
        (λ (t : StoredDb). (t.meta, (t.spec, t.status)))
        (λ (t : StoredDb) p. record t { meta = p.0; spec = p.1.0; status = p.1.1 }) (λ t p. refl)
        (λ t p q. refl)

  abbrev pub db_list : Shape StoredDbList
  db_list =
      struct (both L.list_meta (pointer (elements db)))
        (λ (t : StoredDbList). (t.list_meta, t.items))
        (λ (t : StoredDbList) p. record t { list_meta = p.0; items = p.1 }) (λ t p. refl)
        (λ t p q. refl)

  pub copy_db-eq : copy_db ≡ db.copy
  unfolding copy_db copy_db_spec copy_db_status copy_tier_status copy_tier_spec copy_storage_spec
      copy_log_spec copy_plugin_spec copy_ingress_spec copy_ingress_tls_spec keep ◌>>=◌
  copy_db-eq = refl

  pub copy_db_list-eq : copy_db_list ≡ db_list.copy
  unfolding copy_db_list copy_db copy_db_spec copy_db_status copy_tier_status copy_tier_spec
      copy_storage_spec copy_log_spec copy_plugin_spec copy_ingress_spec copy_ingress_tls_spec keep
      ◌>>=◌
  copy_db_list-eq = refl
