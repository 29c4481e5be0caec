-- ===== src/Reconciler/Settled.antt =====
-- A tier whose objects all exist.
use picodata_operator.Base.{◌≡◌, false, some, List, ◌⊎◌, All, In}
use picodata_operator.Kube.Platform.{Platform}
use picodata_operator.Kube.Objects.{ConfigMap, StatefulSet}
use picodata_operator.Api.{PicoclusterDb}
use picodata_operator.Api.Spec.{TierSpec}
use picodata_operator.Names.{tier_labels}
use picodata_operator.ConfigMaps.{build_config_map}
use picodata_operator.World.Errors.{ok}
use picodata_operator.World.Calls.{Call, Env, list_stateful_sets}
use picodata_operator.World.Exec.{perform}
use picodata_operator.Reconciler.Cleanup.{is_extra}
use picodata_operator.Reconciler.Applied.{Desired, ingress, wanted, wanted_ingress}
use picodata_operator.Reconciler.Still.{Still}
use picodata_operator.Reconciler.Objects.{IsSteady}

-- The objects of a tier: those that a round applies in any case, and the Ingress.
abbrev pub IsWanted : ⦃K : Platform⦄ → PicoclusterDb → TierSpec → Desired → Type 0
IsWanted cluster tier d =
    ((cm : ConfigMap) × (build_config_map cluster tier ≡ some cm) × In d (wanted cluster tier cm))
    ⊎ In d (wanted_ingress cluster tier tier.ingress)

module _ ⦃K : Platform⦄ ⦃E : Env⦄ (cluster : PicoclusterDb) where
  -- No StatefulSet of the tier is extra.
  abbrev pub NoneExtra : TierSpec → E.W → Type 0
  NoneExtra tier w =
      (xs : List StatefulSet)
      → (perform (list_stateful_sets cluster.meta.namespace (tier_labels cluster tier)) w).outcome
        ≡ ok xs
      → All (λ sts. is_extra tier sts ≡ false) xs

module _ ⦃K : Platform⦄ ⦃E : Env⦄ (cluster : PicoclusterDb) (tier : TierSpec) where
  abbrev Wants : Desired → Type 0
  Wants = IsWanted cluster tier

  -- The calls of a round that creates and deletes nothing.
  abbrev pub IsCalm : Call → Type 0
  IsCalm = IsSteady Wants cluster
