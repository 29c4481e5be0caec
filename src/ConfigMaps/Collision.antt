-- ===== src/ConfigMaps/Collision.antt =====
-- When listeners share a placeholder.
use text.Mathlib.TextLemmas.{append_assoc}
use picodata_operator.Base.{String, ◌<>◌, ◌≡◌, refl}
use picodata_operator.Base.Text.{to_upper, to_upper-append}
use picodata_operator.Kube.Platform.{Platform}
use picodata_operator.ConfigMaps.Listeners.{placeholder}

underscore : ⦃K : Platform⦄ → to_upper K.unicode_upper "_" ≡ "_"
unfolding to_upper
underscore = refl

-- A service `b_c` of a plugin `a` and a service `c` of a plugin `a_b` have the same placeholder, for
-- any names.
pub placeholder-shift :
    ⦃K : Platform⦄
    → (a b c : String) → placeholder (a <> "_" <> b) c ≡ placeholder a (b <> "_" <> c)
unfolding placeholder
placeholder-shift ⦃K⦄ a b c = simp (to_upper-append, underscore, append_assoc)
