-- ===== src/Reconciler/Safety.antt =====
-- The calls of a whole `Reconcile`, and how it ends, in a world whose calls do not panic.
use picodata_operator.Base.{some, String, ◌≡◌, refl, true, false, In}
use picodata_operator.Kube.Platform.{Platform}
use picodata_operator.Kube.Meta.{NamespacedName, ObjectMeta}
use picodata_operator.Api.{PicoclusterDb}
use picodata_operator.Api.Spec.{TierSpec}
use picodata_operator.World.Errors.{ok}
use picodata_operator.World.Calls.{Call, Env, delete_stateful_set, get_cluster, connect}
use picodata_operator.World.Exec.{perform}
use picodata_operator.World.Guarded.{Returns, Guarded}
use picodata_operator.Plugins.{conn_str}
use picodata_operator.World.Follows.{Answers}
use picodata_operator.Plugins.Safety.{is_watched}
use picodata_operator.Reconciler.Cleanup.{is_extra}
use picodata_operator.Reconciler.Status.{TierReport, tier_status}
use picodata_operator.Reconciler.{reconcile}
use picodata_operator.Reconciler.Loop.{reconcile-Guarded}
use picodata_operator.Reconciler.Steps.{created_meta}

-- A deletion is of a StatefulSet beyond the replicas of a tier of a cluster that the API server
-- returns for the request; a connection is to the address that such a cluster and a tier of it have,
-- where `tierStatus` finds that tier of that cluster ready; of other calls it says nothing.
abbrev pub Justified : ⦃K : Platform⦄ → ⦃E : Env⦄ → NamespacedName → Call → Type 0
Justified ⦃E⦄ req (delete_stateful_set sts) =
    (cluster : PicoclusterDb) × (w : E.W) × ((E.respond (get_cluster req) w).0 ≡ ok cluster)
    × ((tier : TierSpec) × In tier cluster.spec.tiers × (is_extra tier sts ≡ true))
Justified ⦃E⦄ req (connect text) =
    (cluster : PicoclusterDb) × (w : E.W) × ((E.respond (get_cluster req) w).0 ≡ ok cluster)
    × ((tier : TierSpec) × In tier cluster.spec.tiers
        × ((password : String) × (text ≡ conn_str cluster tier password))
        × ((report : TierReport) × Answers (tier_status cluster tier) report
            × (report.ready ≡ true)))
Justified req _ = Unit

module _ ⦃K : Platform⦄ ⦃E : Env⦄ (req : NamespacedName) where
  harmless : (c : Call) → is_watched c ≡ false → Justified req c
  harmless (delete_stateful_set sts) h = cc
  harmless (connect text) h = cc
  harmless _ h = tt

  made_is_harmless : (c : Call) (own : ObjectMeta) → created_meta c ≡ some own → Justified req c
  made_is_harmless (delete_stateful_set sts) own e = cc
  made_is_harmless (connect text) own e = cc
  made_is_harmless _ own e = tt

  -- In a world whose calls never panic, and where setting an owner never does, `Reconcile` never
  -- panics, whatever is answered; each StatefulSet that it deletes has a replicaset index beyond the
  -- replicas of a tier of a cluster that the API server returns for the request; and each connection
  -- to the database is to the address of a tier of a cluster that the API server returns for the
  -- request, where `tierStatus` finds that tier of that cluster ready.
  pub reconcile-safe :
      ((c : Call) (w : E.W) → Returns (E.respond c w).0)
      → ((cluster : PicoclusterDb) (meta : ObjectMeta)
          → Returns (E.set_controller_reference cluster meta))
      → Guarded (Justified req) (reconcile req)
  unfolding perform
  reconcile-safe calm owns =
      reconcile-Guarded (Justified req) harmless calm owns req λ cluster (w, answer). record {
        adopts = λ c other meta own same made set ns. made_is_harmless c own made;
        extra = λ t h sts x. (cluster, w, answer, (t, h, x));
        connects = λ t h report answers is_ready password.
            (cluster, w, answer, (t, h, (password, refl), (report, answers, is_ready)));
      }
