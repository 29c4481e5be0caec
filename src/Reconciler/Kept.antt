-- ===== src/Reconciler/Kept.antt =====
-- What a round of `Reconcile` keeps of a tier: all but what the StatefulSets' builder writes to it.
use picodata_operator.Base.{ℕ, zero, suc, String, ◌≡◌, refl, ◌∙◌, ap}
use picodata_operator.Base.Int.{pos}
use picodata_operator.Kube.Platform.{Platform}
use picodata_operator.Api.{PicoclusterDb}
use picodata_operator.Api.Spec.{TierSpec}
use picodata_operator.StatefulSets.{tier_after_build}
use picodata_operator.World.Calls.{Env}
use picodata_operator.World.Outcomes.{Ensures, Ensures-pure, Ensures-bind, Ensures-bind_with}
use picodata_operator.Reconciler.Tiers.{reconcile_replicasets, reconcile_tier}

module _ ⦃K : Platform⦄ where
  -- A tier that differs in its affinity and its security context at most.
  abbrev pub IsKept : TierSpec → TierSpec → Type 0
  IsKept tier t = t ≡ record tier { affinity = t.affinity; security_context = t.security_context }

  IsKept-trans : (a b c : TierSpec) → IsKept a b → IsKept b c → IsKept a c
  IsKept-trans a b c h g =
      g
      ∙ ap
          (λ (t : TierSpec). record t {
            affinity = c.affinity;
            security_context = c.security_context;
          })
          h

module _ ⦃K : Platform⦄ ⦃E : Env⦄ (cluster : PicoclusterDb) where
  pub reconcile_replicasets-IsKept :
      (config_data : String) (rounds n : ℕ) (tier : TierSpec)
      → Ensures (reconcile_replicasets cluster config_data rounds n tier) (IsKept tier)
  unfolding reconcile_replicasets tier_after_build
  reconcile_replicasets-IsKept config_data zero n tier = Ensures-pure tier refl
  reconcile_replicasets-IsKept config_data (suc rounds) n tier = Ensures-bind _ _ λ _. record {
    at = λ w t e.
        IsKept-trans tier (tier_after_build cluster tier (pos n)) t refl
          ((reconcile_replicasets-IsKept config_data rounds (suc n) _).at w t e);
  }

  pub reconcile_tier-IsKept :
      (tier : TierSpec) → Ensures (reconcile_tier cluster tier) (IsKept tier)
  unfolding reconcile_tier
  reconcile_tier-IsKept tier = Ensures-bind _ _ λ cm. Ensures-bind _ _ λ _. Ensures-bind _ _ λ _.
      Ensures-bind _ _ λ _.
        Ensures-bind_with _ _ (reconcile_replicasets-IsKept _ _ 1 tier)
          λ t e. Ensures-bind _ _ λ _. Ensures-bind _ _ λ _. Ensures-pure t e
