-- ===== src/Reconciler/Rounds.antt =====
-- The status that a round of `Reconcile` leaves.
use picodata_operator.Base.{
  String, ◌≡◌, refl, sym, ◌∙◌, ap, Bool, true, false, ◌&&◌, List, [], ◌∷◌, ◌++◌, ◌⊎◌, inl, inr, map,
  append_assoc, append-nil, if◌then◌else◌, arith,
}
use picodata_operator.Base.Int.{leb_ℤ}
use mathlib.Core.List.{map-append}
use mathlib.Core.Path.{subst, ap₂}
use picodata_operator.Kube.Meta.{NamespacedName}
use picodata_operator.World.Makes.{bind_calls, bind_outcome}
use picodata_operator.Kube.Platform.{Platform}
use picodata_operator.Api.{PicoclusterDb}
use picodata_operator.Api.Spec.{TierSpec}
use picodata_operator.Api.Status.{TierStatus, ready, initializing}
use picodata_operator.World.Errors.{GoError, Outcome, ok}
use picodata_operator.World.Calls.{Call, get_cluster, Env, patch_status}
use picodata_operator.World.Exec.{Exec, pure, attempt, tried, perform, ◌>>=◌}
use picodata_operator.World.Outcomes.{Ensures, Ensures-pure, Ensures-bind, Ensures-wrapped}
use picodata_operator.World.Endings.{
  EndsWith, Ends, Ends-value, Ends-perform, Ends-bind_with, Ends-then_pure,
}
use picodata_operator.Plugins.{reconcile_tier_plugins}
use picodata_operator.Reconciler.Tiers.{reconcile_tier}
use picodata_operator.Reconciler.Kept.{reconcile_tier-IsKept}
use picodata_operator.Reconciler.Status.{
  TierReport, tier_report, tier_status, update_status, with_status,
}
use picodata_operator.Reconciler.{
  ReconcileResult, plugins_of_tier, after_plugins, reconcile_tiers, after_get, reconcile,
}

-- Every tier has as many pods ready as it wants.
abbrev pub complete : List TierStatus → Bool
complete [] = true
complete (ts ∷ rest) = leb_ℤ ts.desired_replicas ts.ready_replicas && complete rest

abbrev names_of : List TierStatus → List String
names_of = map (λ (ts : TierStatus). ts.name)

complete-append :
    (xs : List TierStatus) (ts : TierStatus)
    → complete (xs ++ ts ∷ []) ≡ (complete xs && leb_ℤ ts.desired_replicas ts.ready_replicas)
complete-append [] ts = ground arith
complete-append (x ∷ xs) ts = ground (arith, complete-append xs ts)

-- The status has the tiers by name, and the phase says whether they are complete.
abbrev pub Tells : ⦃K : Platform⦄ → List String → Call → Type 0
Tells names (patch_status old new) =
    (names_of new.status.tiers ≡ names)
    × (new.status.phase ≡ (if complete new.status.tiers then ready else initializing))
Tells names _ = ⊥

abbrev pub tier_names : ⦃K : Platform⦄ → List TierSpec → List String
tier_names = map (λ (t : TierSpec). t.name)

-- The request comes again.
abbrev pub Requeued : ReconcileResult → Type 0
Requeued r = r.requeue_after ≡ 15

module _ ⦃K : Platform⦄ ⦃E : Env⦄ where
  reconcile_tier-name :
      (cluster : PicoclusterDb) (tier : TierSpec)
      → Ensures (reconcile_tier cluster tier) (λ (t : TierSpec). t.name ≡ tier.name)
  reconcile_tier-name cluster tier = record {
    at = λ w t e. ap (λ (t : TierSpec). t.name) ((reconcile_tier-IsKept cluster tier).at w t e);
  }

  -- A status of a tier of this name, with this readiness.
  abbrev IsOf : String → Bool → TierStatus → Type 0
  IsOf name is_ready ts =
      (ts.name ≡ name) × (leb_ℤ ts.desired_replicas ts.ready_replicas ≡ is_ready)

  tier_status-IsOf :
      (cluster : PicoclusterDb) (tier : TierSpec)
      → Ensures
          (tier_status cluster tier)
          (λ (report : TierReport). IsOf tier.name report.ready report.status)
  unfolding tier_status tier_report
  tier_status-IsOf cluster tier = Ensures-bind _ _ λ xs. Ensures-pure _ (refl, refl)

  plugins_of_tier-IsOf :
      (cluster : PicoclusterDb) (tier : TierSpec) (report : TierReport) (name : String)
      → IsOf name report.ready report.status
      → Ensures (plugins_of_tier cluster tier report) (IsOf name report.ready)
  unfolding plugins_of_tier
  plugins_of_tier-IsOf cluster tier report name h = either _
    where
      either :
          (b : Bool)
          → Ensures
              (if b
                then (reconcile_tier_plugins cluster tier >>= λ plugin_statuses.
                    pure (record (report.status) { plugins = plugin_statuses }))
                else pure report.status)
              (IsOf name report.ready)
      either true = Ensures-bind _ _ λ s. Ensures-pure _ h
      either false = Ensures-pure _ h

  -- What an attempt gives as a value, the action ensures.
  abbrev OrError : {A : Type 0} → (A → Type 0) → A ⊎ GoError → Type 0
  OrError P (inl a) = P a
  OrError P (inr e) = Unit

  Ensures-attempt :
      {A : Type 0} (m : Exec A) {P : A → Type 0} → Ensures m P → Ensures (attempt m) (OrError P)
  unfolding attempt
  Ensures-attempt {A} m {P} h = record { at = λ w r e. value (m w).outcome r (λ a. h.at w a) e }
    where
      value :
          (o : Outcome A) (r : A ⊎ GoError)
          → ((a : A) → o ≡ ok a → P a)
          → tried o ≡ ok r
          → OrError P r
      value o (inl a) g e = g a (untried o e)
        where
          untried : (o : Outcome A) → tried o ≡ ok (inl a) → o ≡ ok a
          untried (Outcome.ok b) e = cc
          untried (Outcome.err x) e = cc
          untried Outcome.panicked e = cc
      value o (inr x) g e = tt

  update_status-Ends :
      (cluster : PicoclusterDb) (tiers : List TierStatus) (all_ready : Bool) (names : List String)
      → names_of tiers ≡ names
      → all_ready ≡ complete tiers
      → Ends (update_status cluster tiers all_ready) (λ _. ⊥) (Tells names)
  unfolding update_status with_status
  update_status-Ends cluster tiers all_ready names hn hr =
      Ends-bind_with _ _ {R = λ _. Unit} (record { at = λ w a e. tt })
        (λ at _.
          Ends-perform (patch_status cluster _)
            (hn, ap (λ b. if b then ready else initializing) hr))

  after_plugins-Ends :
      (cluster : PicoclusterDb) (statuses : List TierStatus)
      (more : TierStatus → Exec ReconcileResult) (names : List String) (P : TierStatus → Type 0)
      → ((ts : TierStatus) → P ts → Ends (more ts) Requeued (Tells names))
      → (r : TierStatus ⊎ GoError) → OrError P r
      → Ends (after_plugins cluster statuses more r) Requeued (Tells names)
  unfolding after_plugins
  after_plugins-Ends cluster statuses more names P h (inl ts) p = h ts p
  after_plugins-Ends cluster statuses more names P h (inr e) p =
      Ends-value _ (Ensures-bind _ _ λ _. Ensures-pure _ refl)

  -- The same for the loop, which has some tiers done.
  reconcile_tiers-Ends :
      (cluster : PicoclusterDb) (done : List TierSpec) (statuses : List TierStatus)
      (all_ready : Bool) (rest : List TierSpec)
      → all_ready ≡ complete statuses
      → Ends
          (reconcile_tiers cluster done statuses all_ready rest)
          Requeued
          (Tells (names_of statuses ++ tier_names rest))
  unfolding reconcile_tiers
  reconcile_tiers-Ends cluster done statuses all_ready [] h =
      Ends-then_pure _ _
        (update_status-Ends _ statuses all_ready _ (sym (append-nil (names_of statuses))) h)
  reconcile_tiers-Ends cluster done statuses all_ready (tier ∷ rest) h =
      Ends-bind_with _ _ (Ensures-wrapped _ _ (reconcile_tier-name _ tier)) λ t named.
        Ends-bind_with _ _ (tier_status-IsOf _ t) λ report is_of.
          Ends-bind_with _ _ (Ensures-attempt _ (plugins_of_tier-IsOf _ t report t.name is_of))
            λ r p.
              after_plugins-Ends _ statuses _ _ (IsOf t.name report.ready)
                (λ ts q.
                  subst (λ names. Ends (rest_of t ts report.ready) Requeued (Tells names))
                    (names_next ts (q.0 ∙ named))
                    (reconcile_tiers-Ends cluster (done ++ t ∷ []) (statuses ++ ts ∷ [])
                      (all_ready && report.ready) rest
                      (ap₂ (λ a b. a && b) h (sym q.1) ∙ sym (complete-append statuses ts))))
                r p
    where
      rest_of : TierSpec → TierStatus → Bool → Exec ReconcileResult
      rest_of t ts b =
          reconcile_tiers cluster (done ++ t ∷ []) (statuses ++ ts ∷ []) (all_ready && b) rest

      names_next :
          (ts : TierStatus)
          → ts.name ≡ tier.name
          → names_of (statuses ++ ts ∷ []) ++ tier_names rest
            ≡ names_of statuses ++ tier.name ∷ tier_names rest
      names_next ts e =
          ap (λ l. l ++ tier_names rest) (map-append _ statuses (ts ∷ []))
          ∙ (append_assoc (names_of statuses) (ts.name ∷ []) (tier_names rest)
              ∙ ap (λ n. names_of statuses ++ n ∷ tier_names rest) e)

  -- Where `Reconcile` finds the cluster and ends well, it either asks to be called again in 15
  -- seconds, or its last call writes a status that has the tiers of the spec by name and in order,
  -- and whose phase is ready exactly if each tier in it has no fewer pods ready than it wants.
  pub reconcile-status :
      (req : NamespacedName) (w : E.W) (cluster : PicoclusterDb) (r : ReconcileResult)
      → (E.respond (get_cluster req) w).0 ≡ ok cluster
      → (reconcile req w).outcome ≡ ok r
      → Requeued r ⊎ EndsWith (Tells (tier_names cluster.spec.tiers)) (reconcile req w).calls
  unfolding reconcile after_get attempt perform
  reconcile-status req w cluster r found well =
      let get = attempt (perform (get_cluster req)) in
      let e : (get w).outcome ≡ ok (inl cluster) = ap tried found in
      extend
        ((reconcile_tiers-Ends cluster [] [] true cluster.spec.tiers refl).at (get w).world r
          (sym (bind_outcome get after_get w (inl cluster) e) ∙ well))
        (bind_calls get after_get w (inl cluster) e)
    where
      extend :
          {names : List String} {cs ds : List Call}
          → Requeued r ⊎ EndsWith (Tells names) cs
          → ds ≡ get_cluster req ∷ cs
          → Requeued r ⊎ EndsWith (Tells names) ds
      extend (inl q) e = inl q
      extend (inr (init, c, ends, q)) e =
          inr (get_cluster req ∷ init, c, e ∙ ap (λ l. get_cluster req ∷ l) ends, q)
