-- ===== src/StatefulSets/Probes.antt =====
-- internal/controller/statefulset.go: the probes that a cluster gets where its spec has none.
use picodata_operator.Base.{Option, none, some}
use picodata_operator.Base.Int.{ℤ, pos}
use picodata_operator.Kube.Platform.{Platform}
use picodata_operator.Kube.Pods.{Probe, http_get}

module _ ⦃K : Platform⦄ where
  unfoldable pub default_startup_probe : ℤ → Probe
  default_startup_probe http_port =
      http_get "/api/v1/health/startup" http_port (pos 30) (pos 20) (pos 3) K.unset

  unfoldable pub default_liveness_probe : ℤ → Probe
  default_liveness_probe http_port =
      http_get "/api/v1/health/live" http_port (pos 20) (pos 3) (pos 3) K.unset

  unfoldable pub default_readiness_probe : ℤ → Probe
  default_readiness_probe http_port =
      http_get "/api/v1/health/ready" http_port (pos 20) (pos 3) (pos 3) K.unset

  -- The cluster's probe if its spec has one.
  abbrev pub probe_or : Option Probe → Probe → Probe
  probe_or none default_probe = default_probe
  probe_or (some probe) default_probe = probe
