-- ===== src/Memory/Types.antt =====
-- api/v1/picoclusterdb_types.go: the types that hold pointers, slices or maps, as they lie in memory.
-- The types that hold none are those of `Api`.
use picodata_operator.Base.{String, Bool, List}
use picodata_operator.Base.Int.{ℤ}
use picodata_operator.Base.Maps.{Labels}
use picodata_operator.Api.Spec.{
  ImageSpec, SecretKeyRef, ClusterSpec, MemtxSpec, VinylSpec, PgSpec, ServiceSpec,
  PluginServiceSpec,
}
use picodata_operator.Api.Status.{ClusterPhase, PluginStatus}
use picodata_operator.Memory.Store.{Ref, Shape}

-- The types of Kubernetes' packages, each with its own deep copy.
pub record Library : Type 1 where
  pub TypeMeta : Type 0
  pub ListMeta : Type 0
  pub ObjectMeta : Type 0
  pub Condition : Type 0
  pub Quantity : Type 0
  pub Resources : Type 0
  pub EnvVar : Type 0
  pub Affinity : Type 0
  pub Toleration : Type 0
  pub TopologySpreadConstraint : Type 0
  pub PodSecurityContext : Type 0
  pub Probe : Type 0
  pub list_meta : Shape ListMeta
  pub object_meta : Shape ObjectMeta
  pub condition : Shape Condition
  pub quantity : Shape Quantity
  pub resources : Shape Resources
  pub env_var : Shape EnvVar
  pub affinity : Shape Affinity
  pub toleration : Shape Toleration
  pub topology_spread_constraint : Shape TopologySpreadConstraint
  pub pod_security_context : Shape PodSecurityContext
  pub probe : Shape Probe

pub record StoredLogSpec : Type 0 where
  pub level : String
  pub format : String
  pub destination : Ref String

pub record StoredPluginSpec : Type 0 where
  pub name : String
  pub version : String
  pub migration_context : Ref Labels
  pub services : Ref (List PluginServiceSpec)

pub record StoredIngressTlsSpec : Type 0 where
  pub hosts : Ref (List String)
  pub secret_name : String

pub record StoredIngressSpec : Type 0 where
  pub enabled : Bool
  pub host : String
  pub ingress_class_name : Ref String
  pub annotations : Ref Labels
  pub tls : Ref (List StoredIngressTlsSpec)

pub record StoredTierStatus : Type 0 where
  pub name : String
  pub ready_replicas : ℤ
  pub desired_replicas : ℤ
  pub plugins : Ref (List PluginStatus)

module _ ⦃L : Library⦄ where
  pub record StoredStorageSpec : Type 0 where
    pub size : L.Quantity
    pub storage_class_name : Ref String

  pub record StoredTierSpec : Type 0 where
    pub name : String
    pub replicas : ℤ
    pub replication_factor : ℤ
    pub can_vote : Bool
    pub storage : StoredStorageSpec
    pub memtx : MemtxSpec
    pub vinyl : VinylSpec
    pub pg : PgSpec
    pub log : StoredLogSpec
    pub resources : L.Resources
    pub share_dir : String
    pub plugins : Ref (List StoredPluginSpec)
    pub env : Ref (List L.EnvVar)
    pub affinity : Ref L.Affinity
    pub tolerations : Ref (List L.Toleration)
    pub node_selector : Ref Labels
    pub topology_spread_constraints : Ref (List L.TopologySpreadConstraint)
    pub security_context : Ref L.PodSecurityContext
    pub ingress : Ref StoredIngressSpec
    pub disable_auto_anti_affinity : Bool

  pub record StoredDbSpec : Type 0 where
    pub image : ImageSpec
    -- the names of Secrets
    pub image_pull_secrets : Ref (List String)
    pub cluster_name : String
    pub admin_password : SecretKeyRef
    pub cluster : ClusterSpec
    pub tiers : Ref (List StoredTierSpec)
    pub service : ServiceSpec
    pub startup_probe : Ref L.Probe
    pub liveness_probe : Ref L.Probe
    pub readiness_probe : Ref L.Probe

  pub record StoredDbStatus : Type 0 where
    pub phase : ClusterPhase
    pub tiers : Ref (List StoredTierStatus)
    pub conditions : Ref (List L.Condition)

  pub record StoredDb : Type 0 where
    pub type_meta : L.TypeMeta
    pub meta : L.ObjectMeta
    pub spec : StoredDbSpec
    pub status : StoredDbStatus

  pub record StoredDbList : Type 0 where
    pub type_meta : L.TypeMeta
    pub list_meta : L.ListMeta
    pub items : Ref (List StoredDb)
