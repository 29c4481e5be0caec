-- ===== src/StatefulSets/Spread.antt =====
-- The affinity of the StatefulSets of a tier whose spec has no pod anti-affinity of its own, and the
-- security context of the pods.
use picodata_operator.Base.{
  ℕ, zero, suc, ◌≡◌, refl, ap, ◌∙◌, false, Option, none, some, [], ◌∷◌, arith,
}
use picodata_operator.Base.Int.{ℤ, pos}
use picodata_operator.Kube.Platform.{Platform}
use picodata_operator.Kube.Pods.{Affinity, PodAntiAffinity, PodAffinityTerm, PodSecurityContext}
use picodata_operator.Api.{PicoclusterDb}
use picodata_operator.Api.Spec.{TierSpec}
use picodata_operator.Names.{replicaset_labels}
use picodata_operator.StatefulSets.Affinity.{
  anti_affinity_term, merge_replicaset_anti_affinity, pod_security_context,
}
use picodata_operator.StatefulSets.{tier_affinity, tier_after_build, pod_spec}
use picodata_operator.StatefulSets.AntiAffinity.{
  tier_after_rounds, own_term, tier_after_rounds-Kept, labels_by_name,
}

module _ ⦃K : Platform⦄ where
  abbrev pub HasNoAntiAffinity : Option Affinity → Type 0
  HasNoAntiAffinity none = Unit {0}
  HasNoAntiAffinity (some a) = a.pod_anti_affinity ≡ none

  abbrev only : PodAffinityTerm → PodAntiAffinity
  only term = record { required = term ∷ []; rest = K.unset }

  -- The user's affinity with one term.
  abbrev pub spread_by : Option Affinity → PodAffinityTerm → Affinity
  spread_by none term = record { pod_anti_affinity = some (only term); rest = K.unset }
  spread_by (some a) term = record a { pod_anti_affinity = some (only term) }

  -- The user's group, or 1000.
  abbrev pub group_of : Option PodSecurityContext → ℤ
  group_of none = pos 1000
  group_of (some c) = elim c.fs_group [ none ↦ pos 1000 | some g ↦ g ]

  -- The user's other settings.
  abbrev pub settings_of : Option PodSecurityContext → K.Fields
  settings_of none = K.unset
  settings_of (some c) = c.rest

  merge_own :
      (base : Option Affinity) (labels : _)
      → HasNoAntiAffinity base
      → merge_replicaset_anti_affinity base labels
        ≡ (spread_by base (anti_affinity_term labels), base)
  unfolding merge_replicaset_anti_affinity
  merge_own none labels h = refl
  merge_own (some a) labels h = rw (h, merge_replicaset_anti_affinity)

  group_settled :
      (c : Option PodSecurityContext)
      → (((pod_security_context c).0.fs_group ≡ some (group_of c))
          × ((pod_security_context c).0.rest ≡ settings_of c))
        × ((group_of (pod_security_context c).1 ≡ group_of c)
            × (settings_of (pod_security_context c).1 ≡ settings_of c))
  unfolding pod_security_context
  group_settled none = ((refl, refl), (refl, refl))
  group_settled (some c) = ground arith

module _ ⦃K : Platform⦄ (cluster : PicoclusterDb) (tier : TierSpec) where
  own_round :
      (t : TierSpec) (i : ℤ) (base : Option Affinity)
      → t.disable_auto_anti_affinity ≡ false
      → t.affinity ≡ base
      → HasNoAntiAffinity base
      → tier_affinity cluster t i
        ≡ (some (spread_by base (anti_affinity_term (replicaset_labels cluster t i))), base)
  unfolding tier_affinity
  own_round t i base off e h = simp (off, e, merge_own base (replicaset_labels cluster t i) h)

  module _ (off : tier.disable_auto_anti_affinity ≡ false)
      (h : HasNoAntiAffinity tier.affinity) where
    next_round :
        (n : ℕ)
        → (tier_after_rounds cluster tier n).affinity ≡ tier.affinity
        → tier_affinity cluster (tier_after_rounds cluster tier n) (pos (suc n))
          ≡ (some (spread_by tier.affinity (own_term cluster tier (suc n))), tier.affinity)
    next_round n e =
        let t = tier_after_rounds cluster tier n in
        let k = tier_after_rounds-Kept cluster tier n in
        own_round t (pos (suc n)) tier.affinity (k.flag ∙ off) e h
        ∙ rw (labels_by_name cluster t tier (pos (suc n)) k.name)

    affinity_kept : (n : ℕ) → (tier_after_rounds cluster tier n).affinity ≡ tier.affinity
    unfolding tier_after_rounds tier_after_build
    affinity_kept zero = refl
    affinity_kept (suc n) =
        ap (λ (r : Option Affinity × Option Affinity). r.1) (next_round n (affinity_kept n))

    -- Without pod anti-affinity of the user, and unless it is disabled, the StatefulSet of
    -- replicaset n + 1 gets the term for its own pods and no other, whatever rounds were before and
    -- whatever the replication factor is, 1 included; and the user's other rules stay.
    pub tier_affinity-own :
        (n : ℕ)
        → (tier_affinity cluster (tier_after_rounds cluster tier n) (pos (suc n))).0
          ≡ some (spread_by tier.affinity (own_term cluster tier (suc n)))
    tier_affinity-own n =
        ap (λ (r : Option Affinity × Option Affinity). r.0) (next_round n (affinity_kept n))

  group_kept :
      (n : ℕ)
      → (group_of (tier_after_rounds cluster tier n).security_context
          ≡ group_of tier.security_context)
        × (settings_of (tier_after_rounds cluster tier n).security_context
            ≡ settings_of tier.security_context)
  unfolding tier_after_rounds tier_after_build
  group_kept zero = (refl, refl)
  group_kept (suc n) =
      let (g, s) = group_kept n in
      let settled = group_settled (tier_after_rounds cluster tier n).security_context in
      (settled.1.0 ∙ g, settled.1.1 ∙ s)

  -- The pods of every replicaset have a group: the user's `fsGroup`, also 1000 where a security
  -- context without one is given; the user's other settings stay.
  pub pod_spec-security_context :
      (n : ℕ)
      → let context =
          (pod_spec cluster (tier_after_rounds cluster tier n) (pos (suc n))).security_context in
        (context.fs_group ≡ some (group_of tier.security_context))
        × (context.rest ≡ settings_of tier.security_context)
  unfolding pod_spec
  pod_spec-security_context n =
      let (g, s) = group_kept n in
      let settled = group_settled (tier_after_rounds cluster tier n).security_context in
      (settled.0.0 ∙ ap some g, settled.0.1 ∙ s)
