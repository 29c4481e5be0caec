-- ===== src/StatefulSets.antt =====
-- internal/controller/statefulset.go: the StatefulSet of one replicaset.
pub mod Probes
pub mod Affinity
pub mod InitContainer
pub mod Containers
pub mod Sed
pub mod Ports
pub mod AntiAffinity
pub mod Spread
pub mod Wiring
pub mod Hash
use Prim.Native.Nat.{zero, suc, ◌/◌, ◌%◌}
use picodata_operator.Base.{
  ℕ, String, ◌==◌, ◌<>◌, Option, none, some, List, [], ◌∷◌, map, if◌then◌else◌,
}
use picodata_operator.Base.Int.{ℤ, pos}
use picodata_operator.Base.Decimal.{format_int}
use picodata_operator.Base.Text.{concat, hex_byte}
use picodata_operator.Base.Maps.{Labels}
use picodata_operator.Kube.Platform.{Platform}
use picodata_operator.Kube.Pods.{PodSpec, Container, config_map, empty_dir}
use picodata_operator.Kube.Pods
use picodata_operator.Kube.Objects.{StatefulSet, VolumeClaim}
use picodata_operator.Api.{PicoclusterDb}
use picodata_operator.Api.Spec.{TierSpec}
use picodata_operator.Names.{
  service_port, replicaset_labels, stateful_set_name, interconnect_service_name, config_map_name,
}
use Affinity.{merge_replicaset_anti_affinity, pod_security_context}
use InitContainer.{config_volume_name, config_out_volume_name, build_config_init_container}
use Containers.{data_volume_name, build_container}

-- `sum[:8]`
unfoldable pub first_eight : ℕ → List ℕ → List ℕ
first_eight zero bytes = []
first_eight (suc n) [] = []
first_eight (suc n) (b ∷ bytes) = b ∷ first_eight n bytes

module _ ⦃K : Platform⦄ where
  unfoldable pub config_hash : String → String
  unfolding first_eight
  config_hash config_data = concat (map hex_byte (first_eight 8 (K.sha256 config_data)))

  -- The affinity of the pods, and what `tier.Affinity` points to afterwards.
  unfoldable pub tier_affinity :
      PicoclusterDb → TierSpec → ℤ → Option Pods.Affinity × Option Pods.Affinity
  tier_affinity cluster tier rs_index =
      if tier.disable_auto_anti_affinity
      then (tier.affinity, tier.affinity)
      else (let (merged, base) =
            merge_replicaset_anti_affinity tier.affinity
              (replicaset_labels cluster tier rs_index) in
          (some merged, base))

module _ ⦃K : Platform⦄ (cluster : PicoclusterDb) (tier : TierSpec) (rs_index : ℤ) where
  unfoldable pub image : String
  image = cluster.spec.image.repository <> "/" <> cluster.spec.image.tag

  unfoldable pub pull_policy : String
  pull_policy =
      if cluster.spec.image.pull_policy == ""
      then "IfNotPresent"
      else cluster.spec.image.pull_policy

  unfoldable pub volume_claim : VolumeClaim
  volume_claim = record {
    name = data_volume_name;
    namespace = cluster.meta.namespace;
    access_modes = "ReadWriteOnce" ∷ [];
    storage =
        if K.quantity_is_zero tier.storage.size then K.must_parse "1Gi" else tier.storage.size;
    storage_class_name = tier.storage.storage_class_name;
    rest = K.unset;
  }

  unfoldable pub pod_spec : PodSpec
  unfolding image pull_policy
  pod_spec = record {
    security_context = (pod_security_context tier.security_context).0;
    init_containers = build_config_init_container cluster tier image pull_policy ∷ [];
    containers = build_container cluster tier rs_index image pull_policy ∷ [];
    image_pull_secrets = cluster.spec.image_pull_secrets;
    affinity = (tier_affinity cluster tier rs_index).0;
    tolerations = tier.tolerations;
    node_selector = tier.node_selector;
    topology_spread_constraints = tier.topology_spread_constraints;
    termination_grace_period_seconds = pos 30;
    volumes =
        record {
          name = config_volume_name;
          source = config_map (config_map_name cluster tier) (("config.yaml", "config.yaml") ∷ []);
          rest = K.unset;
        }
        ∷ record { name = config_out_volume_name; source = empty_dir; rest = K.unset }
        ∷ [];
    rest = K.unset;
  }

  unfoldable pub pod_annotations : String → Labels
  pod_annotations config_data =
      ("prometheus.io/scrape", "true")
      ∷ ("prometheus.io/port", format_int (service_port cluster.spec.service.http_port (pos 8081)))
      ∷ ("checksum/config", config_hash config_data)
      ∷ []

  unfoldable pub build_stateful_set : String → StatefulSet
  unfolding pod_spec volume_claim pod_annotations
  build_stateful_set config_data =
      let labels = replicaset_labels cluster tier rs_index in
      record {
        meta = record {
          name = stateful_set_name cluster tier rs_index;
          namespace = cluster.meta.namespace;
          labels = labels;
          annotations = [];
          rest = K.unset;
        };
        spec = record {
          replicas = tier.replication_factor;
          service_name = interconnect_service_name cluster tier;
          selector = labels;
          template = record {
            labels = labels;
            annotations = pod_annotations config_data;
            spec = pod_spec;
            rest = K.unset;
          };
          volume_claim_templates = volume_claim ∷ [];
          pod_management_policy = "Parallel";
          update_strategy = "RollingUpdate";
          rest = K.unset;
        };
        ready_replicas = pos 0;
        rest = K.unset;
      }

  -- The tier after `buildStatefulSet`, which writes through two of its pointers.
  unfoldable pub tier_after_build : TierSpec
  tier_after_build = record tier {
    security_context = (pod_security_context tier.security_context).1;
    affinity = (tier_affinity cluster tier rs_index).1;
  }
