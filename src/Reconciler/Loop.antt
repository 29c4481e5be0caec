-- ===== src/Reconciler/Loop.antt =====
-- `Reconcile` and its loop over the tiers, seen through their calls.
use mathlib.Core.Path.{subst}
use picodata_operator.Names.{tier_labels}
use picodata_operator.World.Outcomes.{Ensures-wrapped}
use picodata_operator.Reconciler.Kept.{IsKept, reconcile_tier-IsKept}
use picodata_operator.Base.{
  sym, some, String, ◌≡◌, refl, Bool, true, false, List, [], ◌∷◌, ◌++◌, ◌⊎◌, inl, inr, In,
}
use picodata_operator.Kube.Platform.{Platform}
use picodata_operator.Kube.Meta.{NamespacedName, ObjectMeta}
use picodata_operator.Kube.Objects.{StatefulSet}
use picodata_operator.Api.{PicoclusterDb}
use picodata_operator.Api.Spec.{TierSpec}
use picodata_operator.Api.Status.{TierStatus}
use picodata_operator.World.Errors.{GoError, Outcome, ok, err, panicked, is_not_found}
use picodata_operator.World.Calls.{Call, Env, delete_stateful_set, get_cluster, connect}
use picodata_operator.World.Exec.{Exec, perform, attempt, tried}
use picodata_operator.World.Guarded.{
  Returns, Guarded, Guarded-pure, Guarded-raise, Guarded-wrapped, Guarded-attempt, Guarded-bind,
  Guarded-bind_known, Guarded-perform, Guarded-if,
}
use picodata_operator.Plugins.{conn_str, svc_host}
use picodata_operator.World.Follows.{Answers}
use picodata_operator.Plugins.Safety.{is_watched}
use picodata_operator.Reconciler.Cleanup.{is_extra}
use picodata_operator.Reconciler.Status.{TierReport, tier_report, tier_status}
use picodata_operator.Reconciler.{
  ReconcileResult, with_tiers, after_plugins, reconcile_tiers, after_get, reconcile,
}
use picodata_operator.Reconciler.Steps.{
  created_meta, HasTier-append, update_status-Guarded, tier_status-Guarded, plugins_of_tier-Guarded,
  reconcile_tier-Guarded,
}

-- What a predicate on calls admits, for a cluster that the API server returns: the creation of an
-- object that has the cluster's owner reference and namespace, the deletion of what is beyond the
-- replicas of a tier, and a connection to a tier of it that `tierStatus` has found ready.
pub record Admits ⦃K : Platform⦄ ⦃E : Env⦄ (P : Call → Type 0) (cluster : PicoclusterDb)
    : Type 0 where
  pub adopts :
      (c : Call) (with_status : PicoclusterDb) (meta own : ObjectMeta)
      → with_status.meta ≡ cluster.meta
      → created_meta c ≡ some own
      → E.set_controller_reference with_status meta ≡ ok own
      → meta.namespace ≡ cluster.meta.namespace
      → P c
  pub extra :
      (t : TierSpec)
      → In t cluster.spec.tiers
      → (sts : StatefulSet) → is_extra t sts ≡ true
      → P (delete_stateful_set sts)
  pub connects :
      (t : TierSpec)
      → In t cluster.spec.tiers
      → (report : TierReport) → Answers (tier_status cluster t) report
      → report.ready ≡ true
      → (password : String) → P (connect (conn_str cluster t password))

module _ ⦃K : Platform⦄ ⦃E : Env⦄ (P : Call → Type 0)
    (free : (c : Call) → is_watched c ≡ false → P c)
    (calm : (c : Call) (w : E.W) → Returns (E.respond c w).0)
    (owns : (cluster : PicoclusterDb) (meta : ObjectMeta)
      → Returns (E.set_controller_reference cluster meta)) where
  module _ (origin : PicoclusterDb) (admits : Admits P origin) where
    after_plugins-Guarded :
        (cluster : PicoclusterDb) (statuses : List TierStatus)
        (more : TierStatus → Exec ReconcileResult)
        → ((ts : TierStatus) → Guarded P (more ts))
        → (r : TierStatus ⊎ GoError) → Guarded P (after_plugins cluster statuses more r)
    unfolding after_plugins
    after_plugins-Guarded cluster statuses more h (inl ts) = h ts
    after_plugins-Guarded cluster statuses more h (inr e) =
        Guarded-bind P _ _
          (Guarded-attempt P _ (
            update_status-Guarded P free calm owns origin.meta admits.adopts cluster statuses
              false))
          (λ _. Guarded-pure P _)

    -- A tier that a round has kept gives the readiness and the address that the tier of the spec gives.
    connects_kept :
        (tiers : List TierSpec) (tier t : TierSpec)
        → IsKept tier t
        → In tier origin.spec.tiers
        → (report : TierReport) → Answers (tier_status (with_tiers origin tiers) t) report
        → report.ready ≡ true
        → (password : String) → P (connect (conn_str (with_tiers origin tiers) t password))
    unfolding with_tiers tier_status tier_report conn_str svc_host tier_labels
    connects_kept tiers tier t kept among report answers is_ready password =
        subst (λ u. P (connect (conn_str (with_tiers origin tiers) u password))) (sym kept)
          (admits.connects tier among report
            (subst (λ u. Answers (tier_status (with_tiers origin tiers) u) report) kept answers)
            is_ready password)

    reconcile_tiers-Guarded :
        (done : List TierSpec) (statuses : List TierStatus) (all_ready : Bool)
        (rest : List TierSpec)
        → ((t : TierSpec) → In t rest → In t origin.spec.tiers)
        → Guarded P (reconcile_tiers origin done statuses all_ready rest)
    unfolding reconcile_tiers with_tiers
    reconcile_tiers-Guarded done statuses all_ready [] among =
        Guarded-bind P _ _
          (update_status-Guarded P free calm owns origin.meta admits.adopts _ statuses all_ready)
          (λ _. Guarded-pure P _)
    reconcile_tiers-Guarded done statuses all_ready (tier ∷ rest) among =
        Guarded-bind_known P _ _
          (Guarded-wrapped P _ _ (
            reconcile_tier-Guarded P free calm owns origin.meta admits.adopts _ refl tier
              (HasTier-append done tier rest) (admits.extra tier (among tier (inl refl)))))
          λ t w kept.
            Guarded-bind_known P _ _
              (tier_status-Guarded P free calm owns origin.meta admits.adopts _ t)
              λ report v e.
                Guarded-bind P _ _
                  (Guarded-attempt P _ (
                    plugins_of_tier-Guarded P free calm owns origin.meta admits.adopts _ t report (
                      connects_kept _ tier t
                        ((Ensures-wrapped _ _ (reconcile_tier-IsKept _ tier)).at w t kept)
                        (among tier (inl refl)) report (v, e))))
                  (after_plugins-Guarded _ statuses _ (λ ts.
                    reconcile_tiers-Guarded (done ++ t ∷ []) (statuses ++ ts ∷ []) _ rest
                      (λ u h. among u (inr h))))

  answered : (o : Outcome PicoclusterDb) (c : PicoclusterDb) → tried o ≡ ok (inl c) → o ≡ ok c
  answered (ok a) c e = cc
  answered (err x) c e = cc
  answered panicked c e = cc

  pub reconcile-Guarded :
      (req : NamespacedName)
      → ((cluster : PicoclusterDb) → Answers (perform (get_cluster req)) cluster → Admits P cluster)
      → Guarded P (reconcile req)
  unfolding reconcile after_get attempt perform
  reconcile-Guarded req admits =
      Guarded-bind_known P _ _
        (Guarded-attempt P _ (Guarded-perform P (get_cluster req) (free _ refl) (calm _))) then
    where
      then :
          (r : PicoclusterDb ⊎ GoError) (w : E.W)
          → (attempt (perform (get_cluster req)) w).outcome ≡ ok r
          → Guarded P (after_get r)
      then (inl cluster) w e =
          reconcile_tiers-Guarded cluster (admits cluster (w, answered _ cluster e)) [] [] true
            cluster.spec.tiers (λ t h. h)
      then (inr x) w e = Guarded-if P (is_not_found x) (λ _. Guarded-pure P _) (Guarded-raise P x)
