-- ===== src/Kube/Pods.antt =====
-- Pods: containers, probes, volumes, scheduling.
use picodata_operator.Base.{String, Option, List}
use picodata_operator.Base.Int.{ℤ}
use picodata_operator.Base.Maps.{Labels}
use picodata_operator.Kube.Platform.{Platform}

module _ ⦃K : Platform⦄ where
  pub record ContainerPort : Type 0 where
    pub name : String
    pub container_port : ℤ
    pub protocol : String
    pub rest : K.Fields

  pub record VolumeMount : Type 0 where
    pub name : String
    pub mount_path : String
    pub sub_path : String
    pub rest : K.Fields

  pub data VolumeSource : Type 0 where
    -- the ConfigMap's name, and its keys with their paths
    config_map : String → List (String × String) → VolumeSource
    empty_dir : VolumeSource

  pub record Volume : Type 0 where
    pub name : String
    pub source : VolumeSource
    pub rest : K.Fields

  pub data EnvSource : Type 0 where
    value : String → EnvSource
    field_ref : String → EnvSource
    -- a key of a Secret: the Secret's name, the key
    secret_key_ref : String → String → EnvSource
    other : K.Fields → EnvSource

  pub record EnvVar : Type 0 where
    pub name : String
    pub source : EnvSource
    pub rest : K.Fields

  -- `given` is a probe of the user, which the operator passes on.
  pub data Probe : Type 0 where
    http_get :
        (path : String) (port period_seconds failure_threshold timeout_seconds : ℤ)
        → (rest : K.Fields) → Probe
    given : K.Fields → Probe

  pub record Container : Type 0 where
    pub name : String
    pub image : String
    pub image_pull_policy : String
    pub command : List String
    pub args : List String
    pub ports : List ContainerPort
    pub env : List EnvVar
    pub volume_mounts : List VolumeMount
    pub resources : K.Fields
    pub startup_probe : Option Probe
    pub liveness_probe : Option Probe
    pub readiness_probe : Option Probe
    pub rest : K.Fields

  pub record PodAffinityTerm : Type 0 where
    pub match_labels : Labels
    pub topology_key : String
    pub rest : K.Fields

  -- `required` is `RequiredDuringSchedulingIgnoredDuringExecution`.
  pub record PodAntiAffinity : Type 0 where
    pub required : List PodAffinityTerm
    pub rest : K.Fields

  pub record Affinity : Type 0 where
    pub pod_anti_affinity : Option PodAntiAffinity
    pub rest : K.Fields

  pub record PodSecurityContext : Type 0 where
    pub fs_group : Option ℤ
    pub rest : K.Fields

  pub record PodSpec : Type 0 where
    pub security_context : PodSecurityContext
    pub init_containers : List Container
    pub containers : List Container
    -- the names of Secrets
    pub image_pull_secrets : List String
    pub affinity : Option Affinity
    pub tolerations : List K.Fields
    pub node_selector : Labels
    pub topology_spread_constraints : List K.Fields
    pub termination_grace_period_seconds : ℤ
    pub volumes : List Volume
    pub rest : K.Fields
