-- ===== src/Names/Selectors.antt =====
-- What the label selectors of a tier's objects select.
use picodata_operator.Base.{◌≡◌, sym, ◌∙◌, ◌↔◌, true, ◌==◌, eq_iff, eq_refl, arith}
use picodata_operator.Base.Int.{ℤ, InInt32}
use picodata_operator.Base.Decimal.{format_int, format_int_inj}
use picodata_operator.Kube.Platform.{Platform}
use picodata_operator.Kube.Meta.{selects}
use picodata_operator.Api.{PicoclusterDb}
use picodata_operator.Api.Spec.{TierSpec}
use picodata_operator.Names.{tier_labels, replicaset_labels}

module _ ⦃K : Platform⦄ (cluster : PicoclusterDb) (tier : TierSpec) where
  -- The selector of a tier's Services selects every pod of every replicaset of the tier.
  pub selects-tier_labels-replicaset_labels :
      (i : ℤ) → selects (tier_labels cluster tier) (replicaset_labels cluster tier i) ≡ true
  unfolding selects replicaset_labels
  selects-tier_labels-replicaset_labels i = simp eq_refl

  selects-eq-str_eq :
      (i j : ℤ)
      → selects (replicaset_labels cluster tier i) (replicaset_labels cluster tier j)
        ≡ (format_int i == format_int j)
  unfolding selects replicaset_labels
  selects-eq-str_eq i j = simp eq_refl (ground arith)

  -- The selector of a StatefulSet selects exactly the pods of its own replicaset.
  pub selects-replicaset_labels :
      (i j : ℤ)
      → InInt32 i
      → InInt32 j
      → (selects (replicaset_labels cluster tier i) (replicaset_labels cluster tier j) ≡ true)
        ↔ (i ≡ j)
  selects-replicaset_labels i j hi hj = (
    λ h. format_int_inj i j hi hj ((eq_iff _ _).0 (sym (selects-eq-str_eq i j) ∙ h)),
    λ e. rw e (selects-eq-str_eq j j ∙ eq_refl _),
  )
