-- ===== src/Reconciler/Removal.antt =====
-- Which StatefulSets `deleteExtraStatefulSets` deletes.
use picodata_operator.Base.{
  String, ◌≡◌, refl, sym, ◌∙◌, ap, some, List, [], ◌∷◌, ◌⊎◌, inl, inr, map, keep, flat_map,
  if◌then◌else◌, arith,
}
use picodata_operator.Base.Int.{ℤ, InInt32, ltb_ℤ}
use picodata_operator.Base.Decimal.{format_int, parse_int32-format_int}
use picodata_operator.Base.Maps.{lookup}
use picodata_operator.Kube.Platform.{Platform}
use picodata_operator.Kube.Objects.{StatefulSet}
use picodata_operator.Api.{PicoclusterDb}
use picodata_operator.Api.Spec.{TierSpec}
use picodata_operator.Names.{tier_labels, replicaset_labels}
use picodata_operator.StatefulSets.{build_stateful_set}
use picodata_operator.World.Errors.{GoError, ok, is_not_found}
use picodata_operator.World.Calls.{Call, Env, list_stateful_sets, delete_stateful_set}
use picodata_operator.World.Exec.{perform, each}
use picodata_operator.World.Makes.{
  Makes, Makes-pure, Makes-bind, Makes-attempt, Makes-if, Makes-each, Makes-raise, Makes-either,
  bind_calls, bind_outcome,
}
use picodata_operator.Reconciler.Cleanup.{
  is_extra, ignore_not_found, delete_if_extra, delete_extra_stateful_sets,
}

module _ ⦃K : Platform⦄ where
  label_of_replicaset :
      (cluster : PicoclusterDb) (tier : TierSpec) (i : ℤ)
      → lookup "picodata.io/replicaset" (replicaset_labels cluster tier i) ≡ some (format_int i)
  unfolding replicaset_labels lookup
  label_of_replicaset cluster tier i = refl

  -- A StatefulSet that the operator has built for an `int32` index, for whichever tier, is extra
  -- under a tier's spec exactly if the index is beyond the spec's replicas.
  pub is_extra-build_stateful_set :
      (cluster : PicoclusterDb) (old tier : TierSpec) (i : ℤ) (config_data : String)
      → InInt32 i
      → is_extra tier (build_stateful_set cluster old i config_data) ≡ ltb_ℤ tier.replicas i
  unfolding is_extra build_stateful_set
  is_extra-build_stateful_set cluster old tier i config_data h =
      rw (label_of_replicaset cluster old i, parse_int32-format_int i h) refl

  deletion : TierSpec → StatefulSet → List Call
  deletion tier sts = if is_extra tier sts then delete_stateful_set sts ∷ [] else []

  deletions :
      (tier : TierSpec) (xs : List StatefulSet)
      → flat_map (deletion tier) xs ≡ map delete_stateful_set (keep (is_extra tier) xs)
  unfolding deletion
  deletions tier [] = refl
  deletions tier (x ∷ xs) = ground (arith, deletions tier xs)

module _ ⦃K : Platform⦄ ⦃E : Env⦄ (cluster : PicoclusterDb) (tier : TierSpec) where
  delete_if_extra-Makes : (sts : StatefulSet) → Makes (delete_if_extra tier sts) (deletion tier sts)
  unfolding delete_if_extra ignore_not_found deletion
  delete_if_extra-Makes sts =
      Makes-if (is_extra tier sts)
        (Makes-bind _ _ (Makes-attempt (delete_stateful_set sts)) ignored) (Makes-pure tt)
    where
      ignored : (r : Unit {0} ⊎ GoError) → Makes (ignore_not_found r) []
      ignored (inl done) = Makes-pure tt
      ignored (inr e) = Makes-either (is_not_found e) (Makes-pure tt) (Makes-raise e [])

  -- Where the list of the tier's StatefulSets is answered and the clean-up ends well, its calls are
  -- the list and then, in the order of the answer, one deletion for each StatefulSet that is extra,
  -- and none for the others.
  pub delete_extra_stateful_sets-calls :
      (w : E.W) (xs : List StatefulSet)
      → let c = list_stateful_sets cluster.meta.namespace (tier_labels cluster tier) in
        (E.respond c w).0 ≡ ok xs
        → (delete_extra_stateful_sets cluster tier w).outcome ≡ ok tt
        → (delete_extra_stateful_sets cluster tier w).calls
          ≡ c ∷ map delete_stateful_set (keep (is_extra tier) xs)
  unfolding delete_extra_stateful_sets perform
  delete_extra_stateful_sets-calls w xs answer well =
      let c = list_stateful_sets cluster.meta.namespace (tier_labels cluster tier) in
      let f = each (delete_if_extra tier) in
      bind_calls (perform c) f w xs answer
      ∙ ap (λ l. c ∷ l)
          ((Makes-each _ (deletion tier) delete_if_extra-Makes xs).at (perform c w).world tt
              (sym (bind_outcome (perform c) f w xs answer) ∙ well)
            ∙ deletions tier xs)
