-- ===== src/Ingresses.antt =====
-- internal/controller/ingress.go: the Ingress of a tier's HTTP port.
use picodata_operator.Base.{[], ◌∷◌, map}
use picodata_operator.Base.Int.{pos}
use picodata_operator.Kube.Platform.{Platform}
use picodata_operator.Kube.Objects.{Ingress, IngressTls}
use picodata_operator.Api.{PicoclusterDb}
use picodata_operator.Api.Spec.{TierSpec, IngressSpec, IngressTlsSpec}
use picodata_operator.Names.{service_port, tier_labels, client_service_name}

module _ ⦃K : Platform⦄ where
  -- One round of the loop over `spec.TLS`.
  ingress_tls : IngressTlsSpec → IngressTls
  ingress_tls t = record { hosts = t.hosts; secret_name = t.secret_name }

  -- `spec` is `tier.Ingress`, which the caller has found not to be nil.
  unfoldable pub build_ingress : PicoclusterDb → TierSpec → IngressSpec → Ingress
  unfolding ingress_tls
  build_ingress cluster tier spec =
      let svc_name = client_service_name cluster tier in
      record {
        meta = record {
          name = svc_name;
          namespace = cluster.meta.namespace;
          labels = tier_labels cluster tier;
          annotations = spec.annotations;
          rest = K.unset;
        };
        spec = record {
          ingress_class_name = spec.ingress_class_name;
          rules =
              record {
                host = spec.host;
                paths =
                    record {
                      path = "/";
                      path_type = "Prefix";
                      service_name = svc_name;
                      service_port = service_port cluster.spec.service.http_port (pos 8081);
                      rest = K.unset;
                    }
                    ∷ [];
              }
              ∷ [];
          tls = map ingress_tls spec.tls;
          rest = K.unset;
        };
        rest = K.unset;
      }
