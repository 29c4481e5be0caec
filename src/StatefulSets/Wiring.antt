-- ===== src/StatefulSets/Wiring.antt =====
-- How the objects of a tier refer to one another.
use text.Mathlib.TextLemmas.{append_assoc}
use picodata_operator.Base.{String, ◌<>◌, ◌≡◌, refl, ap, ◌∙◌, ◌↔◌, true, All, In, inl, inr}
use picodata_operator.Base.Int.{ℤ, pos, InInt32}
use picodata_operator.Base.Decimal.{format_int}
use picodata_operator.Kube.Platform.{Platform}
use picodata_operator.Kube.Meta.{selects}
use picodata_operator.Kube.Objects.{StatefulSet, Service, IngressPath, IngressRule}
use picodata_operator.Api.{PicoclusterDb}
use picodata_operator.Api.Spec.{TierSpec, IngressSpec}
use picodata_operator.Names.{service_port, stateful_set_name, interconnect_service_name}
use picodata_operator.Names.Selectors.{
  selects-tier_labels-replicaset_labels, selects-replicaset_labels,
}
use picodata_operator.Services.{build_interconnect_service, build_client_service}
use picodata_operator.Ingresses.{build_ingress}
use picodata_operator.ConfigMaps.{peer_fqdn}
use picodata_operator.StatefulSets.{build_stateful_set}

-- The address of a pod of a StatefulSet behind its headless Service.
abbrev pub pod_fqdn : ⦃K : Platform⦄ → StatefulSet → String → String
pod_fqdn sts ordinal =
    sts.meta.name <> "-" <> ordinal <> "." <> sts.spec.service_name <> "." <> sts.meta.namespace
    <> ".svc.cluster.local"

peer_parts :
    (t c ns tail : String)
    → t <> "-" <> c <> "-1-0." <> t <> "-" <> c <> "-interconnect." <> ns <> ".svc.cluster.local:"
        <> tail
      ≡ ((t <> "-" <> c <> "-" <> "1")
          <> "-"
          <> "0"
          <> "."
          <> (t <> "-" <> c <> "-interconnect")
          <> "."
          <> ns
          <> ".svc.cluster.local")
        <> ":"
        <> tail
peer_parts t c ns tail = simp (append_assoc, pod_part, service_part, domain_part) refl
  where
    pod_part : (x : String) → "-1-0." <> x ≡ "-" <> "1" <> "-" <> "0" <> "." <> x
    pod_part x =
        append_assoc "-" "1-0." x
        ∙ ap (λ u. "-" <> u)
            (append_assoc "1" "-0." x
              ∙ ap (λ u. "1" <> u)
                  (append_assoc "-" "0." x ∙ ap (λ u. "-" <> u) (append_assoc "0" "." x)))

    service_part : (x : String) → "-interconnect." <> x ≡ "-interconnect" <> "." <> x
    service_part x = append_assoc "-interconnect" "." x

    domain_part : (x : String) → ".svc.cluster.local:" <> x ≡ ".svc.cluster.local" <> ":" <> x
    domain_part x = append_assoc ".svc.cluster.local" ":" x

module _ ⦃K : Platform⦄ (cluster : PicoclusterDb) (tier : TierSpec) (config_data : String) where
  -- The peer address of config.yaml is that of pod 0 of the StatefulSet of replicaset 1 of the tier
  -- it is made for, with the binary port.
  pub peer_fqdn-pod_fqdn :
      peer_fqdn cluster tier
      ≡ pod_fqdn (build_stateful_set cluster tier (pos 1) config_data) "0"
        <> ":"
        <> format_int (service_port cluster.spec.service.binary_port (pos 3301))
  unfolding peer_fqdn build_stateful_set stateful_set_name interconnect_service_name format_int
  peer_fqdn-pod_fqdn = peer_parts tier.name cluster.meta.name cluster.meta.namespace _

  -- The headless Service that a StatefulSet names is the tier's, and both Services of the tier select
  -- the pods of every replicaset.
  pub services_select_pods :
      (i : ℤ)
      → let sts = build_stateful_set cluster tier i config_data in
        (sts.spec.service_name ≡ (build_interconnect_service cluster tier).meta.name)
        × (selects (build_interconnect_service cluster tier).selector sts.spec.template.labels
            ≡ true)
        × (selects (build_client_service cluster tier).selector sts.spec.template.labels ≡ true)
  unfolding build_stateful_set build_interconnect_service build_client_service
  services_select_pods i = (
    refl,
    selects-tier_labels-replicaset_labels cluster tier i,
    selects-tier_labels-replicaset_labels cluster tier i,
  )

  -- For replicaset indices that are an `int32`, a StatefulSet selects the pods made from the template
  -- of a StatefulSet of the same tier exactly if both are of one replicaset.
  pub selector_selects_own :
      (i j : ℤ)
      → InInt32 i
      → InInt32 j
      → (selects
            (build_stateful_set cluster tier i config_data).spec.selector
            (build_stateful_set cluster tier j config_data).spec.template.labels
          ≡ true)
        ↔ (i ≡ j)
  unfolding build_stateful_set
  selector_selects_own i j hi hj = selects-replicaset_labels cluster tier i j hi hj

-- A path of an Ingress leads to a Service by name, and to a port that the Service has.
abbrev pub LeadsTo : ⦃K : Platform⦄ → IngressPath → Service → Type 0
LeadsTo ⦃K⦄ p svc =
    (p.service_name ≡ svc.meta.name)
    × In
        (record {
          name = "http";
          protocol = "TCP";
          port = p.service_port;
          target_port = p.service_port;
          rest = K.unset;
        })
        svc.ports

module _ ⦃K : Platform⦄ (cluster : PicoclusterDb) (tier : TierSpec) where
  -- Every path of every rule of the tier's Ingress leads to the HTTP port of the tier's client
  -- Service, in the namespace of the Ingress.
  pub ingress-client_service :
      (spec : IngressSpec)
      → ((build_ingress cluster tier spec).meta.namespace
          ≡ (build_client_service cluster tier).meta.namespace)
        × All
            (λ (r : IngressRule).
              All (λ (p : IngressPath). LeadsTo p (build_client_service cluster tier)) r.paths)
            (build_ingress cluster tier spec).spec.rules
  unfolding build_ingress build_client_service
  ingress-client_service spec = (refl, (((refl, inr (inl refl)), tt), tt))
