-- ===== src/Kube/Objects.antt =====
-- The objects that the operator manages: ConfigMap, Service, Ingress, StatefulSet; and Secret.
use picodata_operator.Base.{String, Option, List, Bool}
use picodata_operator.Base.Int.{ℤ}
use picodata_operator.Base.Maps.{Labels}
use picodata_operator.Kube.Platform.{Platform}
use picodata_operator.Kube.Meta.{ObjectMeta}
use picodata_operator.Kube.Pods.{PodSpec}

module _ ⦃K : Platform⦄ where
  pub record Secret : Type 0 where
    pub contents : Labels
    pub rest : K.Fields

  pub record ServicePort : Type 0 where
    pub name : String
    pub protocol : String
    pub port : ℤ
    pub target_port : ℤ
    pub rest : K.Fields

  pub record IngressPath : Type 0 where
    pub path : String
    pub path_type : String
    pub service_name : String
    pub service_port : ℤ
    pub rest : K.Fields

  pub record IngressRule : Type 0 where
    pub host : String
    pub paths : List IngressPath

  pub record IngressTls : Type 0 where
    pub hosts : List String
    pub secret_name : String

  pub record IngressBody : Type 0 where
    pub ingress_class_name : Option String
    pub rules : List IngressRule
    pub tls : List IngressTls
    pub rest : K.Fields

  -- `Data` is `contents`.
  pub record ConfigMap : Type 0 where
    pub meta : ObjectMeta
    pub contents : Labels
    pub rest : K.Fields

  pub record Service : Type 0 where
    pub meta : ObjectMeta
    pub svc_type : String
    pub cluster_ip : String
    pub publish_not_ready_addresses : Bool
    pub selector : Labels
    pub ports : List ServicePort
    pub rest : K.Fields

  pub record Ingress : Type 0 where
    pub meta : ObjectMeta
    pub spec : IngressBody
    pub rest : K.Fields

  pub record PodTemplate : Type 0 where
    pub labels : Labels
    pub annotations : Labels
    pub spec : PodSpec
    pub rest : K.Fields

  pub record VolumeClaim : Type 0 where
    pub name : String
    pub namespace : String
    pub access_modes : List String
    pub storage : K.Quantity
    pub storage_class_name : Option String
    pub rest : K.Fields

  pub record StatefulSetBody : Type 0 where
    pub replicas : ℤ
    pub service_name : String
    pub selector : Labels
    pub template : PodTemplate
    pub volume_claim_templates : List VolumeClaim
    pub pod_management_policy : String
    pub update_strategy : String
    pub rest : K.Fields

  pub record StatefulSet : Type 0 where
    pub meta : ObjectMeta
    pub spec : StatefulSetBody
    -- `status.readyReplicas`
    pub ready_replicas : ℤ
    pub rest : K.Fields
