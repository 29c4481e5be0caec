-- ===== src/Names/Shift.antt =====
-- When objects of two clusters share their names.
use text.Mathlib.TextLemmas.{append_assoc}
use picodata_operator.Base.{String, ◌<>◌, ◌≡◌}
use picodata_operator.Base.Int.{ℤ}
use picodata_operator.Kube.Platform.{Platform}
use picodata_operator.Api.{PicoclusterDb}
use picodata_operator.Api.Spec.{TierSpec}
use picodata_operator.Names.{
  interconnect_service_name, client_service_name, config_map_name, stateful_set_name,
}

module _ ⦃K : Platform⦄ (c d : PicoclusterDb) (s t : TierSpec) where
  -- A tier `a-b` of a cluster `e` and a tier `a` of a cluster `b-e` have the same names for their
  -- Services, their ConfigMap and the StatefulSets of each index, for any texts a, b and e.
  pub names_shift :
      (a b e : String)
      → s.name ≡ a <> "-" <> b
      → c.meta.name ≡ e
      → t.name ≡ a
      → d.meta.name ≡ b <> "-" <> e
      → (interconnect_service_name c s ≡ interconnect_service_name d t)
        × (client_service_name c s ≡ client_service_name d t)
        × (config_map_name c s ≡ config_map_name d t)
        × ((i : ℤ) → stateful_set_name c s i ≡ stateful_set_name d t i)
  unfolding interconnect_service_name client_service_name config_map_name stateful_set_name
  names_shift a b e hs hc ht hd = (
    simp (hs, hc, ht, hd, append_assoc),
    simp (hs, hc, ht, hd, append_assoc),
    simp (hs, hc, ht, hd, append_assoc),
    λ i. simp (hs, hc, ht, hd, append_assoc),
  )
