-- ===== src/Reconciler.antt =====
-- internal/controller/picoclusterdb_controller.go: `Reconcile`.
pub mod Resources
pub mod Kinds
pub mod Cleanup
pub mod Tiers
pub mod Status
pub mod Steps
pub mod Kept
pub mod Loop
pub mod Setup
pub mod Safety
pub mod Ownership
pub mod Removal
pub mod Conditions
pub mod Stages
pub mod Order
pub mod Rounds
pub mod Applied
pub mod Round
pub mod Counting
pub mod Quiet
pub mod Writes
pub mod Still
pub mod Objects
pub mod Settled
use picodata_operator.Base.{
  ℕ, String, ◌<>◌, Bool, true, false, not, ◌&&◌, List, [], ◌∷◌, ◌++◌, ◌⊎◌, inl, inr, is_empty,
  if◌then◌else◌,
}
use picodata_operator.Kube.Platform.{Platform}
use picodata_operator.Kube.Meta.{NamespacedName}
use picodata_operator.Api.{PicoclusterDb}
use picodata_operator.Api.Spec.{TierSpec}
use picodata_operator.Api.Status.{TierStatus}
use picodata_operator.Plugins.{reconcile_tier_plugins}
use picodata_operator.World.Errors.{GoError, is_not_found}
use picodata_operator.World.Calls.{Env, get_cluster}
use picodata_operator.World.Exec.{Exec, pure, raise, wrapped, attempt, perform, ◌>>=◌, ◌>>◌}
use Tiers.{reconcile_tier}
use Status.{TierReport, tier_status, update_status}

-- `ctrl.Result`: the seconds of `RequeueAfter`, 0 where it is not set.
pub record ReconcileResult : Type 0 where
  pub requeue_after : ℕ

abbrev pub no_requeue : ReconcileResult
no_requeue = record { requeue_after = 0 }

module _ ⦃K : Platform⦄ where
  -- `tier` is a pointer into the cluster: what is written to it is written to the cluster.
  unfoldable pub with_tiers : PicoclusterDb → List TierSpec → PicoclusterDb
  with_tiers cluster tiers = record cluster { spec = record (cluster.spec) { tiers = tiers } }

module _ ⦃K : Platform⦄ ⦃E : Env⦄ where
  -- The plugins' part of a round: the tier's status, with its plugins where they are reconciled.
  unfoldable pub plugins_of_tier : PicoclusterDb → TierSpec → TierReport → Exec TierStatus
  plugins_of_tier cluster tier report =
      if report.ready && not (is_empty tier.plugins)
      then (do
        plugin_statuses ← reconcile_tier_plugins cluster tier
        pure (record (report.status) { plugins = plugin_statuses }))
      else pure report.status

  -- A failure of the plugins ends the loop: the statuses of the tiers before are written, an error
  -- of that is dropped, and the request comes again in 15 seconds.
  unfoldable pub after_plugins :
      PicoclusterDb
      → List TierStatus
      → (TierStatus → Exec ReconcileResult)
      → TierStatus ⊎ GoError
      → Exec ReconcileResult
  after_plugins cluster statuses more (inl ts) = more ts
  after_plugins cluster statuses more (inr e) = do
    attempt (update_status cluster statuses false)
    pure (record { requeue_after = 15 })

  -- The loop over the tiers: those that are done, the statuses, whether all are ready, the rest.
  unfoldable pub reconcile_tiers :
      PicoclusterDb → List TierSpec → List TierStatus → Bool → List TierSpec → Exec ReconcileResult
  reconcile_tiers cluster done statuses all_ready [] = do
    update_status (with_tiers cluster done) statuses all_ready
    pure no_requeue
  reconcile_tiers cluster done statuses all_ready (tier ∷ rest) = do
    tier' ←
        wrapped ("tier " <> tier.name)
          (reconcile_tier (with_tiers cluster (done ++ tier ∷ rest)) tier)
    report ← tier_status (with_tiers cluster (done ++ tier' ∷ rest)) tier'
    plugins ← attempt (plugins_of_tier (with_tiers cluster (done ++ tier' ∷ rest)) tier' report)
    after_plugins (with_tiers cluster (done ++ tier' ∷ rest)) statuses
        (λ ts.
          reconcile_tiers cluster (done ++ tier' ∷ []) (statuses ++ ts ∷ [])
            (all_ready && report.ready) rest)
        plugins

  unfoldable pub after_get : PicoclusterDb ⊎ GoError → Exec ReconcileResult
  after_get (inl cluster) = reconcile_tiers cluster [] [] true cluster.spec.tiers
  after_get (inr e) = if is_not_found e then pure no_requeue else raise e

  unfoldable pub reconcile : NamespacedName → Exec ReconcileResult
  reconcile req = do cluster ← attempt (perform (get_cluster req)); after_get cluster
