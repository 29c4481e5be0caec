-- ===== src/StatefulSets/Containers.antt =====
-- internal/controller/statefulset.go: the picodata container of `buildStatefulSet`.
use picodata_operator.Base.{String, ◌<>◌, some, List, [], ◌∷◌, ◌++◌, map, flat_map}
use picodata_operator.Base.Int.{ℤ, pos}
use picodata_operator.Base.Decimal.{format_int}
use picodata_operator.Kube.Platform.{Platform}
use picodata_operator.Kube.Pods.{Container, ContainerPort, EnvVar, value, field_ref, secret_key_ref}
use picodata_operator.Api.{PicoclusterDb}
use picodata_operator.Api.Spec.{TierSpec, PluginSpec}
use picodata_operator.Names.{service_port}
use picodata_operator.Services.{tcp}
use picodata_operator.ConfigMaps.{instance_dir}
use picodata_operator.StatefulSets.Probes.{
  probe_or, default_startup_probe, default_liveness_probe, default_readiness_probe,
}
use picodata_operator.StatefulSets.InitContainer.{config_out_volume_name}

abbrev pub data_volume_name : String
data_volume_name = "picodata"

abbrev pub config_mount_path : String
config_mount_path = instance_dir <> "/config.yaml"

module _ ⦃K : Platform⦄ where
  abbrev port : String → ℤ → ContainerPort
  port name number = record { name = name; container_port = number; protocol = tcp; rest = K.unset }

  unfoldable pub plugin_container_ports : PluginSpec → List ContainerPort
  plugin_container_ports plugin =
      map (λ svc. port (plugin.name <> "-" <> svc.name) svc.listener_port) plugin.services

module _ ⦃K : Platform⦄ (cluster : PicoclusterDb) (tier : TierSpec) where
  abbrev plain : String → String → EnvVar
  plain name v = record { name = name; source = value v; rest = K.unset }

  abbrev field : String → String → EnvVar
  field name path = record { name = name; source = field_ref path; rest = K.unset }

  -- `$(INSTANCE_NAME).{tier}-{cluster}-interconnect.$(INSTANCE_NAMESPACE).svc.cluster.local:{port}`
  advertise : ℤ → String
  advertise p =
      "$(INSTANCE_NAME)."
      <> tier.name
      <> "-"
      <> cluster.meta.name
      <> "-interconnect.$(INSTANCE_NAMESPACE).svc.cluster.local:"
      <> format_int p

  unfoldable pub container_env : ℤ → List EnvVar
  unfolding advertise
  container_env rs_index =
      let svc = cluster.spec.service in
      let binary_port = service_port svc.binary_port (pos 3301) in
      let http_port = service_port svc.http_port (pos 8081) in
      let pg_port = service_port svc.pg_port (pos 5432) in
      (field "POD_IP" "status.podIP"
        ∷ field "INSTANCE_NAME" "metadata.name"
        ∷ field "INSTANCE_NAMESPACE" "metadata.namespace"
        ∷ plain "PICODATA_IPROTO_LISTEN" ("$(INSTANCE_NAME):" <> format_int binary_port)
        ∷ plain "PICODATA_IPROTO_ADVERTISE" (advertise binary_port)
        ∷ plain "PICODATA_HTTP_LISTEN" ("0.0.0.0:" <> format_int http_port)
        ∷ plain "PICODATA_HTTP_ADVERTISE" (advertise http_port)
        ∷ plain "PICODATA_PG_LISTEN" ("0.0.0.0:" <> format_int pg_port)
        ∷ plain "PICODATA_PG_ADVERTISE" (advertise pg_port)
        ∷ plain "PICODATA_REPLICASET_NAME" (tier.name <> "_" <> format_int rs_index)
        ∷ plain "PICODATA_FAILURE_DOMAIN" "HOST=$(INSTANCE_NAME)"
        ∷ plain "PICODATA_CONFIG_FILE" config_mount_path
        ∷ plain "PICODATA_ADMIN_SOCK" (instance_dir <> "/admin.sock")
        ∷ record {
          name = "PICODATA_ADMIN_PASSWORD";
          source =
              secret_key_ref cluster.spec.admin_password.secret_name
                cluster.spec.admin_password.key;
          rest = K.unset;
        }
        ∷ [])
      ++ tier.env

  unfoldable pub container_ports : List ContainerPort
  unfolding plugin_container_ports
  container_ports =
      let svc = cluster.spec.service in
      (port "binary" (service_port svc.binary_port (pos 3301))
        ∷ port "http" (service_port svc.http_port (pos 8081))
        ∷ port "pg" (service_port svc.pg_port (pos 5432))
        ∷ [])
      ++ flat_map plugin_container_ports tier.plugins

  unfoldable pub build_container : ℤ → String → String → Container
  unfolding container_env container_ports
  build_container rs_index image pull_policy =
      let http_port = service_port cluster.spec.service.http_port (pos 8081) in
      record {
        name = "picodata";
        image = image;
        image_pull_policy = pull_policy;
        command = [];
        args = [];
        ports = container_ports;
        env = container_env rs_index;
        volume_mounts =
            record {
              name = config_out_volume_name;
              mount_path = config_mount_path;
              sub_path = "config.yaml";
              rest = K.unset;
            }
            ∷ record {
              name = data_volume_name;
              mount_path = instance_dir;
              sub_path = "";
              rest = K.unset;
            }
            ∷ [];
        resources = tier.resources;
        startup_probe =
            some (probe_or cluster.spec.startup_probe (default_startup_probe http_port));
        liveness_probe =
            some (probe_or cluster.spec.liveness_probe (default_liveness_probe http_port));
        readiness_probe =
            some (probe_or cluster.spec.readiness_probe (default_readiness_probe http_port));
        rest = K.unset;
      }
