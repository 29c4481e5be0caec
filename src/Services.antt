-- ===== src/Services.antt =====
-- internal/controller/service.go: the two Services of a tier.
use picodata_operator.Base.{String, ◌==◌, ◌<>◌, true, false, List, [], ◌∷◌, ◌++◌, if◌then◌else◌}
use picodata_operator.Base.{flat_map, map}
use picodata_operator.Base.Int.{ℤ, pos}
use picodata_operator.Kube.Platform.{Platform}
use picodata_operator.Kube.Objects.{Service, ServicePort}
use picodata_operator.Api.{PicoclusterDb}
use picodata_operator.Api.Spec.{TierSpec, PluginSpec}
use picodata_operator.Names.{
  service_port, tier_labels, interconnect_service_name, client_service_name,
}

abbrev pub tcp : String
tcp = "TCP"

module _ ⦃K : Platform⦄ where
  -- A port of a Service, which names its target by the same number.
  abbrev port : String → ℤ → ServicePort
  port name number = record {
    name = name;
    protocol = tcp;
    port = number;
    target_port = number;
    rest = K.unset;
  }

  -- The body of the inner loop over the plugins' services.
  unfoldable pub plugin_service_ports : PluginSpec → List ServicePort
  plugin_service_ports plugin =
      map (λ svc. port (plugin.name <> "-" <> svc.name) svc.listener_port) plugin.services

module _ ⦃K : Platform⦄ (cluster : PicoclusterDb) (tier : TierSpec) where
  unfoldable pub build_interconnect_service : Service
  build_interconnect_service =
      let svc = cluster.spec.service in
      let binary_port = service_port svc.binary_port (pos 3301) in
      let pg_port = service_port svc.pg_port (pos 5432) in
      record {
        meta = record {
          name = interconnect_service_name cluster tier;
          namespace = cluster.meta.namespace;
          labels = tier_labels cluster tier;
          annotations = [];
          rest = K.unset;
        };
        svc_type = "";
        cluster_ip = "None";
        publish_not_ready_addresses = true;
        selector = tier_labels cluster tier;
        ports = port "binary" binary_port ∷ port "pg" pg_port ∷ [];
        rest = K.unset;
      }

  unfoldable pub build_client_service : Service
  unfolding plugin_service_ports
  build_client_service =
      let svc = cluster.spec.service in
      let binary_port = service_port svc.binary_port (pos 3301) in
      let http_port = service_port svc.http_port (pos 8081) in
      let pg_port = service_port svc.pg_port (pos 5432) in
      record {
        meta = record {
          name = client_service_name cluster tier;
          namespace = cluster.meta.namespace;
          labels = tier_labels cluster tier;
          annotations = [];
          rest = K.unset;
        };
        svc_type = if svc.svc_type == "" then "ClusterIP" else svc.svc_type;
        cluster_ip = "";
        publish_not_ready_addresses = false;
        selector = tier_labels cluster tier;
        ports =
            (port "binary" binary_port ∷ port "http" http_port ∷ port "pg" pg_port ∷ [])
            ++ flat_map plugin_service_ports tier.plugins;
        rest = K.unset;
      }
