-- ===== src/StatefulSets/Ports.antt =====
-- The ports of the client Service against those of the container.
use picodata_operator.Base.{◌≡◌, refl, sym, ◌∙◌, List, [], ◌∷◌, ◌++◌, map, flat_map}
use mathlib.Core.List.{map-append, map-map}
use mathlib.Core.Path.{ap₂}
use picodata_operator.Kube.Platform.{Platform}
use picodata_operator.Kube.Pods.{ContainerPort}
use picodata_operator.Kube.Objects.{ServicePort}
use picodata_operator.Api.{PicoclusterDb}
use picodata_operator.Api.Spec.{TierSpec, PluginSpec}
use picodata_operator.Services.{build_client_service, plugin_service_ports}
use picodata_operator.StatefulSets.Containers.{container_ports, plugin_container_ports}

-- A port of a Service that leads to a port of the container under the same number.
abbrev pub exposed : ⦃K : Platform⦄ → ContainerPort → ServicePort
exposed ⦃K⦄ p = record {
  name = p.name;
  protocol = p.protocol;
  port = p.container_port;
  target_port = p.container_port;
  rest = K.unset;
}

plugin_ports :
    ⦃K : Platform⦄
    → (p : PluginSpec) → plugin_service_ports p ≡ map exposed (plugin_container_ports p)
unfolding plugin_service_ports plugin_container_ports
plugin_ports p = sym (map-map exposed _ p.services)

all_plugin_ports :
    ⦃K : Platform⦄
    → (plugins : List PluginSpec)
    → flat_map plugin_service_ports plugins ≡ map exposed (flat_map plugin_container_ports plugins)
all_plugin_ports [] = refl
all_plugin_ports (p ∷ plugins) =
    ap₂ (λ a b. a ++ b) (plugin_ports p) (all_plugin_ports plugins)
    ∙ sym (map-append exposed (plugin_container_ports p) _)

module _ ⦃K : Platform⦄ (cluster : PicoclusterDb) (tier : TierSpec) where
  -- The client Service has, in order, the ports of the container: binary, http, pg and those of the
  -- plugins' services, by the same names and protocols, each leading to the same number.
  pub client_service-ports :
      (build_client_service cluster tier).ports ≡ map exposed (container_ports cluster tier)
  unfolding build_client_service container_ports
  client_service-ports = rw (all_plugin_ports tier.plugins)
