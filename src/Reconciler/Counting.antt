-- ===== src/Reconciler/Counting.antt =====
-- internal/controller/picoclusterdb_controller.go: the loop of `reconcileTier` over the replicasets,
-- with its counter in `int32`.
use mathlib.Core.Path.{fun_ext}
use picodata_operator.Base.{
  ℕ, zero, suc, ◌+◌, ◌-◌, ◌<◌, ◌^◌, String, ◌≡◌, refl, sym, ◌∙◌, ap, true, false, Option, none,
  some, List, ◌++◌, append_assoc, arith, if◌then◌else◌,
}
use picodata_operator.Base.Int.{
  ℤ, pos, negsuc, pos_part, add32, wrap32, ◌+ℤ◌, leb_ℤ, InInt32, add32-InInt32,
}
use picodata_operator.Kube.Platform.{Platform}
use picodata_operator.Api.{PicoclusterDb}
use picodata_operator.Api.Spec.{TierSpec}
use picodata_operator.StatefulSets.{build_stateful_set, tier_after_build}
use picodata_operator.World.Errors.{Outcome, ok, err, panicked}
use picodata_operator.World.Calls.{Call, Env}
use picodata_operator.World.Exec.{Run, Exec, pure, continue, ◌>>=◌, ◌>>◌}
use picodata_operator.World.Outcomes.{Ensures, Ensures-pure, Ensures-bind}
use picodata_operator.Reconciler.Tiers.{sync_owned_stateful_set, reconcile_replicasets}

module _ ⦃K : Platform⦄ ⦃E : Env⦄ (cluster : PicoclusterDb) (config_data : String) where
  -- `for rsIndex := int32(1); rsIndex <= tier.Replicas; rsIndex++`, for so many tests of the loop:
  -- `none` is a loop that is not done.
  unfoldable pub count_replicasets : ℕ → ℤ → TierSpec → Exec (Option TierSpec)
  count_replicasets zero rs_index tier = pure none
  count_replicasets (suc fuel) rs_index tier =
      let more =
        count_replicasets fuel (add32 rs_index (pos 1)) (tier_after_build cluster tier rs_index) in
      if leb_ℤ rs_index tier.replicas
      then sync_owned_stateful_set cluster rs_index
          (build_stateful_set cluster tier rs_index config_data)
        >> more
      else pure (some tier)

module _ ⦃K : Platform⦄ ⦃E : Env⦄ where
  abbrev done : TierSpec → Exec (Option TierSpec)
  done tier = pure (some tier)

  then_assoc :
      {A B : Type 0} (m : Exec (Unit {0})) (n : Exec A) (f : A → Exec B)
      → (m >> (n >>= f)) ≡ ((m >> n) >>= f)
  unfolding ◌>>=◌
  then_assoc {A} {B} m n f = fun_ext λ w. from (m w) (m w).outcome
    where
      inner :
          (calls : List Call) (s : Run A) (o : Outcome A)
          → let t : Run B = continue o s.world s.calls f in
            record t { calls = calls ++ t.calls } ≡ continue o s.world (calls ++ s.calls) f
      inner calls s (ok a) =
          ap (λ l. record (f a s.world) { calls = l })
            (sym (append_assoc calls s.calls (f a s.world).calls))
      inner calls s (err x) = refl
      inner calls s panicked = refl

      from :
          (r : Run (Unit {0})) (o : Outcome (Unit {0}))
          → continue o r.world r.calls (λ _ v. let s = n v in continue s.outcome s.world s.calls f)
            ≡ (let s = continue o r.world r.calls (λ _. n) in continue s.outcome s.world s.calls f)
      from r (ok a) = inner r.calls (n r.world) (n r.world).outcome
      from r (err x) = refl
      from r panicked = refl

  done_after : (tier : TierSpec) → done tier ≡ (pure tier >>= done)
  unfolding pure ◌>>=◌
  done_after tier = fun_ext λ w. refl

  next_index : (n : ℕ) → n + 1 < 2 ^ 31 → add32 (pos n) (pos 1) ≡ pos (suc n)
  unfolding add32 ◌+ℤ◌ wrap32
  next_index n h = ground arith

module _ ⦃K : Platform⦄ ⦃E : Env⦄ (cluster : PicoclusterDb) (config_data : String) where
  count-rounds :
      (fuel rounds n : ℕ) (tier : TierSpec)
      → rounds < fuel
      → n + rounds ≡ pos_part tier.replicas + 1
      → 0 < n
      → n + rounds < 2 ^ 31
      → count_replicasets cluster config_data fuel (pos n) tier
        ≡ (reconcile_replicasets cluster config_data rounds n tier >>= done)
  unfolding count_replicasets reconcile_replicasets tier_after_build
  count-rounds zero rounds n tier h e p small = absurd (omega (arith, h))
  count-rounds (suc fuel) zero n tier h e p small =
      rw (beyond tier.replicas (omega (arith, e)) p) (done_after tier)
    where
      beyond : (r : ℤ) → n ≡ pos_part r + 1 → 0 < n → leb_ℤ (pos n) r ≡ false
      beyond (pos k) e p = ground arith
      beyond (negsuc k) e p = ground arith
  count-rounds (suc fuel) (suc rounds) n tier h e p small =
      rw (within tier.replicas (omega (arith, e)), next_index n (omega (arith, small)))
        (ap
            (λ m.
              sync_owned_stateful_set cluster (pos n)
                (build_stateful_set cluster tier (pos n) config_data)
              >> m)
            (count-rounds fuel rounds (suc n) (tier_after_build cluster tier (pos n))
              (omega (arith, h)) (omega (arith, e)) (omega arith) (omega (arith, small)))
          ∙ then_assoc _ _ done)
    where
      within : (r : ℤ) → n + rounds ≡ pos_part r → leb_ℤ (pos n) r ≡ true
      within (pos k) e = ground arith
      within (negsuc k) e = ground (arith, p)

  -- For a number of replicas below the maximum of `int32`, negative ones included, the loop comes to
  -- its end: with more tests than replicas it does, in every world, what the rounds from 1 to the
  -- number of replicas do.
  pub count_replicasets-terminates :
      (fuel : ℕ) (tier : TierSpec)
      → pos_part tier.replicas < fuel
      → pos_part tier.replicas + 1 < 2 ^ 31
      → count_replicasets cluster config_data fuel (pos 1) tier ≡ (
          reconcile_replicasets cluster config_data (pos_part tier.replicas) 1 tier >>= λ t.
          pure (some t))
  count_replicasets-terminates fuel tier h small =
      count-rounds fuel (pos_part tier.replicas) 1 tier h (omega arith) (omega arith) (omega arith)

  -- With the maximum of `int32` for the replicas, the loop never comes to its end: where its first
  -- rounds all end well, however many there are, it is not done.
  pub count_replicasets-endless :
      (fuel : ℕ) (tier : TierSpec) (rs_index : ℤ)
      → tier.replicas ≡ pos (2 ^ 31 - 1)
      → InInt32 rs_index
      → Ensures (count_replicasets cluster config_data fuel rs_index tier) (λ r. r ≡ none)
  unfolding count_replicasets tier_after_build
  count_replicasets-endless zero tier rs_index e h = Ensures-pure none refl
  count_replicasets-endless (suc fuel) tier rs_index e h =
      rw (ap (leb_ℤ rs_index) e ∙ below rs_index h) (
        Ensures-bind _ _ λ _.
          count_replicasets-endless fuel (tier_after_build cluster tier rs_index)
            (add32 rs_index (pos 1)) e (add32-InInt32 rs_index (pos 1)))
    where
      below : (i : ℤ) → InInt32 i → leb_ℤ i (pos (2 ^ 31 - 1)) ≡ true
      below (pos n) h = ground arith
      below (negsuc n) h = ground arith
