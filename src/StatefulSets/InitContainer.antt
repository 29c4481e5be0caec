-- ===== src/StatefulSets/InitContainer.antt =====
-- internal/controller/statefulset.go: `buildConfigInitContainer`.
use picodata_operator.Base.{String, ◌<>◌, List, [], ◌∷◌, is_empty, flat_map, none, if◌then◌else◌}
use picodata_operator.Base.Int.{pos, leb_ℤ}
use picodata_operator.Base.Decimal.{format_int}
use picodata_operator.Base.Text.{concat, join, to_upper}
use picodata_operator.Kube.Platform.{Platform}
use picodata_operator.Kube.Pods.{Container, field_ref}
use picodata_operator.Api.{PicoclusterDb}
use picodata_operator.Api.Spec.{TierSpec, PluginSpec, PluginServiceSpec}

abbrev pub config_volume_name : String
config_volume_name = "pico-conf"

abbrev pub config_out_volume_name : String
config_out_volume_name = "pico-conf-out"

abbrev pub config_out_dir : String
config_out_dir = "/pico-conf-out"

abbrev pub config_template_path : String
config_template_path = "/etc/picodata-tpl/config.yaml"

module _ ⦃K : Platform⦄ where
  -- The text that the expression looks for.
  unfoldable pub sed_placeholder : String → String → String
  sed_placeholder plugin svc =
      "__PLUGIN_ADVERTISE_"
      <> to_upper K.unicode_upper plugin
      <> "_"
      <> to_upper K.unicode_upper svc
      <> "__"

module _ ⦃K : Platform⦄ (cluster : PicoclusterDb) (tier : TierSpec) where
  -- The expression for one listener: its plugin, its service and its port.
  unfoldable pub sed_expr : String → PluginServiceSpec → String
  sed_expr plugin svc = concat (
      "-e \"s|"
      ∷ sed_placeholder plugin svc.name
      ∷ "|$INSTANCE_NAME."
      ∷ tier.name
      ∷ "-"
      ∷ cluster.meta.name
      ∷ "-interconnect.$INSTANCE_NAMESPACE.svc.cluster.local:"
      ∷ format_int svc.listener_port
      ∷ "|g\""
      ∷ [])

  -- The inner loop; a service with no port is passed over.
  unfoldable pub svc_exprs : String → List PluginServiceSpec → List String
  svc_exprs plugin [] = []
  svc_exprs plugin (svc ∷ rest) =
      let exprs = svc_exprs plugin rest in
      if leb_ℤ svc.listener_port (pos 0) then exprs else sed_expr plugin svc ∷ exprs

  unfoldable pub sed_exprs : List String
  unfolding svc_exprs
  sed_exprs = flat_map (λ (plugin : PluginSpec). svc_exprs plugin.name plugin.services) tier.plugins

  unfoldable pub init_script : String
  init_script =
      if is_empty sed_exprs
      then concat ("cp " ∷ config_template_path ∷ " " ∷ config_out_dir ∷ "/config.yaml" ∷ [])
      else concat (
          "sed "
          ∷ join sed_exprs " "
          ∷ " "
          ∷ config_template_path
          ∷ " > "
          ∷ config_out_dir
          ∷ "/config.yaml"
          ∷ [])

  unfoldable pub build_config_init_container : String → String → Container
  build_config_init_container image pull_policy = record {
    name = "config-init";
    image = image;
    image_pull_policy = pull_policy;
    command = "/bin/sh" ∷ "-c" ∷ [];
    args = init_script ∷ [];
    ports = [];
    env =
        record { name = "INSTANCE_NAME"; source = field_ref "metadata.name"; rest = K.unset }
        ∷ record {
          name = "INSTANCE_NAMESPACE";
          source = field_ref "metadata.namespace";
          rest = K.unset;
        }
        ∷ [];
    volume_mounts =
        record {
          name = config_volume_name;
          mount_path = config_template_path;
          sub_path = "config.yaml";
          rest = K.unset;
        }
        ∷ record {
          name = config_out_volume_name;
          mount_path = config_out_dir;
          sub_path = "";
          rest = K.unset;
        }
        ∷ [];
    resources = K.unset;
    startup_probe = none;
    liveness_probe = none;
    readiness_probe = none;
    rest = K.unset;
  }
