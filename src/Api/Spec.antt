-- ===== src/Api/Spec.antt =====
-- api/v1/picoclusterdb_types.go: the desired state. A pointer is an `Option`; an `int32` is a ℤ.
use picodata_operator.Base.{String, Bool, Option, List}
use picodata_operator.Base.Int.{ℤ}
use picodata_operator.Base.Maps.{Labels}
use picodata_operator.Kube.Platform.{Platform}
use picodata_operator.Kube.Pods.{Probe, EnvVar, Affinity, PodSecurityContext}

pub record ImageSpec : Type 0 where
  pub repository : String
  pub tag : String
  pub pull_policy : String

pub record SecretKeyRef : Type 0 where
  pub secret_name : String
  pub key : String

pub record ClusterSpec : Type 0 where
  pub default_replication_factor : ℤ
  pub default_bucket_count : ℤ
  pub shredding : Bool

pub record StorageSpec ⦃K : Platform⦄ : Type 0 where
  pub size : K.Quantity
  pub storage_class_name : Option String

pub record MemtxSpec : Type 0 where
  pub memory : String

pub record VinylSpec : Type 0 where
  pub memory : String
  pub cache : String

pub record PgSpec : Type 0 where
  pub enabled : Bool
  pub ssl : Bool

pub record LogSpec : Type 0 where
  pub level : String
  pub format : String
  pub destination : Option String

pub record ServiceSpec : Type 0 where
  pub svc_type : String
  pub binary_port : ℤ
  pub http_port : ℤ
  pub pg_port : ℤ

pub record PluginServiceSpec : Type 0 where
  pub name : String
  pub listener_port : ℤ

pub record PluginSpec : Type 0 where
  pub name : String
  pub version : String
  pub migration_context : Labels
  pub services : List PluginServiceSpec

pub record IngressTlsSpec : Type 0 where
  pub hosts : List String
  pub secret_name : String

pub record IngressSpec : Type 0 where
  pub enabled : Bool
  pub host : String
  pub ingress_class_name : Option String
  pub annotations : Labels
  pub tls : List IngressTlsSpec

module _ ⦃K : Platform⦄ where
  pub record TierSpec : Type 0 where
    pub name : String
    pub replicas : ℤ
    pub replication_factor : ℤ
    pub can_vote : Bool
    pub storage : StorageSpec
    pub memtx : MemtxSpec
    pub vinyl : VinylSpec
    pub pg : PgSpec
    pub log : LogSpec
    pub resources : K.Fields
    pub share_dir : String
    pub plugins : List PluginSpec
    pub env : List EnvVar
    pub affinity : Option Affinity
    pub tolerations : List K.Fields
    pub node_selector : Labels
    pub topology_spread_constraints : List K.Fields
    pub security_context : Option PodSecurityContext
    pub ingress : Option IngressSpec
    pub disable_auto_anti_affinity : Bool

  pub record PicoclusterDbSpec : Type 0 where
    pub image : ImageSpec
    -- the names of Secrets
    pub image_pull_secrets : List String
    pub cluster_name : String
    pub admin_password : SecretKeyRef
    pub cluster : ClusterSpec
    pub tiers : List TierSpec
    pub service : ServiceSpec
    pub startup_probe : Option Probe
    pub liveness_probe : Option Probe
    pub readiness_probe : Option Probe
