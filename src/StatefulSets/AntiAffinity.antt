-- ===== src/StatefulSets/AntiAffinity.antt =====
-- The affinity of the StatefulSets of a tier, replicaset by replicaset, where the spec has pod
-- anti-affinity of its own: `buildStatefulSet` writes through the tier's pointers.
use picodata_operator.Base.{
  ℕ, zero, suc, ◌≡◌, refl, sym, ap, ◌∙◌, false, Option, some, List, [], ◌∷◌, ◌++◌, append-nil,
  append_assoc,
}
use picodata_operator.Base.Int.{ℤ, pos}
use picodata_operator.Kube.Platform.{Platform}
use picodata_operator.Kube.Pods.{Affinity, PodAntiAffinity, PodAffinityTerm}
use picodata_operator.Api.{PicoclusterDb}
use picodata_operator.Api.Spec.{TierSpec}
use picodata_operator.Names.{replicaset_labels}
use picodata_operator.StatefulSets.Affinity.{anti_affinity_term, merge_replicaset_anti_affinity}
use picodata_operator.StatefulSets.{tier_affinity, tier_after_build}

module _ ⦃K : Platform⦄ (cluster : PicoclusterDb) where
  -- The tier behind the rounds of the replicasets 1 to n.
  unfoldable pub tier_after_rounds : TierSpec → ℕ → TierSpec
  tier_after_rounds tier zero = tier
  tier_after_rounds tier (suc n) = tier_after_build cluster (tier_after_rounds tier n) (pos (suc n))

  -- The term that keeps the pods of one replicaset apart.
  abbrev pub own_term : TierSpec → ℕ → PodAffinityTerm
  own_term tier n = anti_affinity_term (replicaset_labels cluster tier (pos n))

  -- The terms of the replicasets 1 to n.
  abbrev pub own_terms : TierSpec → ℕ → List PodAffinityTerm
  own_terms tier zero = []
  own_terms tier (suc n) = own_terms tier n ++ own_term tier (suc n) ∷ []

  -- What the rounds leave alone.
  pub record Kept (tier tier' : TierSpec) : Type 0 where
    pub name : tier'.name ≡ tier.name
    pub flag : tier'.disable_auto_anti_affinity ≡ tier.disable_auto_anti_affinity

  pub tier_after_rounds-Kept : (tier : TierSpec) (n : ℕ) → Kept tier (tier_after_rounds tier n)
  unfolding tier_after_rounds tier_after_build
  tier_after_rounds-Kept tier zero = record { name = refl; flag = refl }
  tier_after_rounds-Kept tier (suc n) =
      let k = tier_after_rounds-Kept tier n in record { name = k.name; flag = k.flag }

  pub labels_by_name :
      (s t : TierSpec) (i : ℤ)
      → s.name ≡ t.name
      → replicaset_labels cluster s i ≡ replicaset_labels cluster t i
  unfolding replicaset_labels
  labels_by_name s t i e = rw e

  -- One round on a tier whose affinity has anti-affinity terms.
  shared_round :
      (tier : TierSpec) (i : ℤ) (a : Affinity) (p : PodAntiAffinity)
      → tier.disable_auto_anti_affinity ≡ false
      → tier.affinity ≡ some (record a { pod_anti_affinity = some p })
      → let grown : Affinity = record a {
        pod_anti_affinity = some (record p {
          required = p.required ++ anti_affinity_term (replicaset_labels cluster tier i) ∷ [];
        });
      } in
        tier_affinity cluster tier i ≡ (some grown, some grown)
  unfolding tier_affinity merge_replicaset_anti_affinity
  shared_round tier i a p off e = simp (off, e)

  grown : TierSpec → Affinity → PodAntiAffinity → ℕ → Affinity
  grown tier a p n = record a {
    pod_anti_affinity = some (record p { required = p.required ++ own_terms tier n });
  }

  grown-zero :
      (tier : TierSpec) (a : Affinity) (p : PodAntiAffinity)
      → a.pod_anti_affinity ≡ some p
      → a ≡ grown tier a p 0
  unfolding grown
  grown-zero tier a p e =
      λ i. record a { pod_anti_affinity = (e ∙ ap with_required (sym (append-nil p.required))) i }
    where
      with_required : List PodAffinityTerm → Option PodAntiAffinity
      with_required l = some (record p { required = l })

  -- The round behind n rounds.
  next_round :
      (tier : TierSpec) (a : Affinity) (p : PodAntiAffinity)
      → tier.disable_auto_anti_affinity ≡ false
      → (n : ℕ) → (tier_after_rounds tier n).affinity ≡ some (grown tier a p n)
      → tier_affinity cluster (tier_after_rounds tier n) (pos (suc n))
        ≡ (some (grown tier a p (suc n)), some (grown tier a p (suc n)))
  unfolding grown
  next_round tier a p off n h =
      let k = tier_after_rounds-Kept tier n in
      shared_round (tier_after_rounds tier n) (pos (suc n)) a
        (record p { required = p.required ++ own_terms tier n }) (k.flag ∙ off) h
      ∙ rw (labels_by_name (tier_after_rounds tier n) tier (pos (suc n)) k.name, append_assoc)

  shared_rounds :
      (tier : TierSpec) (a : Affinity) (p : PodAntiAffinity)
      → tier.disable_auto_anti_affinity ≡ false
      → tier.affinity ≡ some a
      → a.pod_anti_affinity ≡ some p
      → (n : ℕ) → (tier_after_rounds tier n).affinity ≡ some (grown tier a p n)
  unfolding tier_after_rounds tier_after_build
  shared_rounds tier a p off e ep zero = e ∙ ap some (grown-zero tier a p ep)
  shared_rounds tier a p off e ep (suc n) =
      ap (λ (r : Option Affinity × Option Affinity). r.1)
        (next_round tier a p off n (shared_rounds tier a p off e ep n))

  -- Where the spec has pod anti-affinity of its own, and the automatic one is not disabled, the
  -- StatefulSet of replicaset n + 1 gets the terms of the replicasets 1 to n + 1, behind those of the
  -- user, and the user's other rules stay.
  pub tier_affinity-shared :
      (tier : TierSpec) (a : Affinity) (p : PodAntiAffinity)
      → tier.disable_auto_anti_affinity ≡ false
      → tier.affinity ≡ some a
      → a.pod_anti_affinity ≡ some p
      → (n : ℕ)
      → (tier_affinity cluster (tier_after_rounds tier n) (pos (suc n))).0
        ≡ some (record a {
          pod_anti_affinity = some (record p { required = p.required ++ own_terms tier (suc n) });
        })
  unfolding grown
  tier_affinity-shared tier a p off e ep n =
      ap (λ (r : Option Affinity × Option Affinity). r.0)
        (next_round tier a p off n (shared_rounds tier a p off e ep n))
