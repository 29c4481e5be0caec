-- ===== src/Reconciler/Writes.antt =====
-- When `Reconcile` writes the status.
use mathlib.Core.Path.{subst}
use picodata_operator.Base.{
  String, sym, Bool, true, false, not, ◌&&◌, List, [], ◌∷◌, ◌++◌, ◌⊎◌, inl, inr, All, All-append,
  is_empty, if◌then◌else◌,
}
use picodata_operator.Kube.Platform.{Platform}
use picodata_operator.Kube.Meta.{NamespacedName}
use picodata_operator.Api.{PicoclusterDb}
use picodata_operator.Api.Spec.{TierSpec}
use picodata_operator.Api.Status.{TierStatus, PluginStatus}
use picodata_operator.World.Errors.{GoError, Outcome, is_not_found}
use picodata_operator.World.Calls.{Call, Env, get_cluster, now, list_stateful_sets}
use picodata_operator.World.Exec.{Exec, pure, raise, wrapped, perform, ◌>>=◌}
use picodata_operator.World.Guarded.{Returns}
use picodata_operator.Plugins.{reconcile_tier_plugins}
use picodata_operator.Plugins.Session.{IsSession, reconcile_tier_plugins-IsSession}
use picodata_operator.Reconciler.Order.{reconcile_tier-order}
use picodata_operator.Reconciler.Tiers.{reconcile_tier}
use picodata_operator.Reconciler.Status.{TierReport, tier_status, update_status}
use picodata_operator.Reconciler.{
  ReconcileResult, no_requeue, plugins_of_tier, after_plugins, reconcile_tiers, after_get,
  reconcile,
}
use picodata_operator.Reconciler.Quiet.{
  NoWrite, WritesLast, Ascending-quiet, all_quiet, Quiet, Lasting, Lasting-bind, Quiet-attempt,
  Quiet-bind, Quiet-pure, Quiet-perform, Lasting-attempt, Lasting-Quiet, Lasting-then_pure,
}

module _ ⦃K : Platform⦄ ⦃E : Env⦄ where
  reconcile_tier-Quiet :
      (cluster : PicoclusterDb) (tier : TierSpec) (text : String)
      → Quiet (wrapped text (reconcile_tier cluster tier))
  unfolding wrapped
  reconcile_tier-Quiet cluster tier text = record {
    at = λ w. Ascending-quiet 0 _ (reconcile_tier-order cluster tier w);
  }

  tier_status-Quiet : (cluster : PicoclusterDb) (tier : TierSpec) → Quiet (tier_status cluster tier)
  unfolding tier_status
  tier_status-Quiet cluster tier =
      Quiet-bind _ _ (Quiet-perform (list_stateful_sets _ _) tt) (λ xs. Quiet-pure _)

  update_status-Lasting :
      (cluster : PicoclusterDb) (tiers : List TierStatus) (all_ready : Bool)
      → Lasting (update_status cluster tiers all_ready)
  unfolding update_status perform
  update_status-Lasting cluster tiers all_ready =
      Lasting-bind _ _ (Quiet-perform now tt) (λ at. record { at = λ w. tt })

module _ ⦃K : Platform⦄ ⦃E : Env⦄ (calm : (c : Call) (w : E.W) → Returns (E.respond c w).0) where
  reconcile_tier_plugins-Quiet :
      (cluster : PicoclusterDb) (tier : TierSpec) → Quiet (reconcile_tier_plugins cluster tier)
  reconcile_tier_plugins-Quiet cluster tier = record {
    at = λ w. from _ _ (reconcile_tier_plugins-IsSession cluster tier calm w);
  }
    where
      from :
          (cs : List Call) (o : Outcome (List PluginStatus))
          → IsSession cluster tier cs o
          → All NoWrite cs
      from cs o (inl (e, none)) = subst (All NoWrite) (sym none) tt
      from cs o (inr (inl (bad, e))) = subst (All NoWrite) (sym e) (tt, tt)
      from cs o (inr (inr (inl (password, conn, inside, told, opened, e, on)))) =
          subst (All NoWrite) (sym e)
            (tt, (tt, All-append NoWrite inside _ (all_quiet conn inside on) (tt, tt)))
      from cs o (inr (inr (inr (password, told, bad, e)))) =
          subst (All NoWrite) (sym e) (tt, (tt, tt))

  plugins_of_tier-Quiet :
      (cluster : PicoclusterDb) (tier : TierSpec) (report : TierReport)
      → Quiet (plugins_of_tier cluster tier report)
  unfolding plugins_of_tier
  plugins_of_tier-Quiet cluster tier report = either (report.ready && not (is_empty tier.plugins))
    where
      either :
          (b : Bool)
          → Quiet (
              if b
              then (reconcile_tier_plugins cluster tier >>= λ plugin_statuses.
                  pure (record (report.status) { plugins = plugin_statuses }))
              else pure report.status)
      either true = Quiet-bind _ _ (reconcile_tier_plugins-Quiet cluster tier) (λ s. Quiet-pure _)
      either false = Quiet-pure _

  after_plugins-Lasting :
      (cluster : PicoclusterDb) (statuses : List TierStatus)
      (more : TierStatus → Exec ReconcileResult)
      → ((ts : TierStatus) → Lasting (more ts))
      → (r : TierStatus ⊎ GoError) → Lasting (after_plugins cluster statuses more r)
  unfolding after_plugins
  after_plugins-Lasting cluster statuses more h (inl ts) = h ts
  after_plugins-Lasting cluster statuses more h (inr e) =
      Lasting-then_pure _ _ (Lasting-attempt _ (update_status-Lasting cluster statuses false))

  reconcile_tiers-Lasting :
      (cluster : PicoclusterDb) (done : List TierSpec) (statuses : List TierStatus)
      (all_ready : Bool) (rest : List TierSpec)
      → Lasting (reconcile_tiers cluster done statuses all_ready rest)
  unfolding reconcile_tiers
  reconcile_tiers-Lasting cluster done statuses all_ready [] =
      Lasting-then_pure _ _ (update_status-Lasting _ statuses all_ready)
  reconcile_tiers-Lasting cluster done statuses all_ready (tier ∷ rest) =
      Lasting-bind _ _ (reconcile_tier-Quiet _ tier _) λ t.
        Lasting-bind _ _ (tier_status-Quiet _ t) λ report.
          Lasting-bind _ _ (Quiet-attempt _ (plugins_of_tier-Quiet _ t report)) (
            after_plugins-Lasting _ statuses _
              (λ ts. reconcile_tiers-Lasting cluster (done ++ t ∷ []) (statuses ++ ts ∷ []) _ rest))

  -- In a world whose calls never panic, whatever is answered and however `Reconcile` ends, an error
  -- included, it writes the status at most once, and makes no other call behind that.
  pub reconcile-WritesLast : (req : NamespacedName) (w : E.W) → WritesLast (reconcile req w).calls
  unfolding reconcile after_get raise
  reconcile-WritesLast req w = whole.at w
    where
      got : (r : PicoclusterDb ⊎ GoError) → Lasting (after_get r)
      got (inl cluster) = reconcile_tiers-Lasting cluster [] [] true cluster.spec.tiers
      got (inr e) = missing (is_not_found e)
        where
          missing : (b : Bool) → Lasting (if b then pure no_requeue else raise e)
          missing true = Lasting-Quiet _ (Quiet-pure _)
          missing false = record { at = λ w. tt }

      whole : Lasting (reconcile req)
      whole = Lasting-bind _ _ (Quiet-attempt _ (Quiet-perform (get_cluster req) tt)) got
