-- ===== src/Reconciler/Conditions.antt =====
-- The status of a round: the time of its condition, and when a tier counts as ready.
use picodata_operator.Base.{
  ℕ, ◌+◌, ◌*◌, ◌<◌, ◌^◌, ◌≡◌, refl, ◌∙◌, ap, Bool, true, false, List, [], ◌∷◌, All, leb,
  if◌then◌else◌, arith,
}
use picodata_operator.Base.Int.{pos, pos_part, add32, mul32, ◌+ℤ◌, ◌*ℤ◌, wrap32, leb_ℤ}
use picodata_operator.Kube.Platform.{Platform}
use picodata_operator.Kube.Objects.{StatefulSet}
use picodata_operator.Api.{PicoclusterDb}
use picodata_operator.Api.Spec.{TierSpec}
use picodata_operator.Api.Status.{TierStatus}
use picodata_operator.Reconciler.Status.{
  tier_report, sum_ready, with_status, ready_condition, transition_time, status_of,
}

abbrev same_bool : Bool → Bool → Bool
same_bool true true = true
same_bool false false = true
same_bool _ _ = false

module _ ⦃K : Platform⦄ where
  -- When the status is written twice in a row, the second write keeps the time of the first one's
  -- condition where readiness is the same, and has its own time where it has changed.
  pub with_status-transition :
      (cluster : PicoclusterDb) (tiers later : List TierStatus) (b c : Bool) (at now : ℕ)
      → let first = with_status cluster tiers b at in
        (with_status first later c now).status.conditions
        ≡ ready_condition later c
            (if same_bool b c
              then transition_time (status_of b) at cluster.status.conditions
              else now)
            []
          ∷ []
  unfolding with_status ready_condition transition_time
  with_status-transition cluster tiers later true true at now = refl
  with_status-transition cluster tiers later true false at now = refl
  with_status-transition cluster tiers later false true at now = refl
  with_status-transition cluster tiers later false false at now = refl

  -- The pods that are ready, with no bound.
  abbrev pub total_ready : List StatefulSet → ℕ
  total_ready [] = 0
  total_ready (sts ∷ rest) = pos_part sts.ready_replicas + total_ready rest

  -- No number of ready pods is negative.
  abbrev pub IsCounted : StatefulSet → Type 0
  IsCounted sts = sts.ready_replicas ≡ pos (pos_part sts.ready_replicas)

  add32-pos : (n m : ℕ) → n + m < 2 ^ 31 → add32 (pos n) (pos m) ≡ pos (n + m)
  unfolding add32 ◌+ℤ◌ wrap32
  add32-pos n m h = ground arith

  mul32-pos : (n m : ℕ) → n * m < 2 ^ 31 → mul32 (pos n) (pos m) ≡ pos (n * m)
  unfolding mul32 ◌*ℤ◌ wrap32
  mul32-pos n m h = ground arith

  sum_ready-total :
      (xs : List StatefulSet) (n : ℕ)
      → All IsCounted xs
      → n + total_ready xs < 2 ^ 31
      → sum_ready (pos n) xs ≡ pos (n + total_ready xs)
  unfolding sum_ready
  sum_ready-total [] n h small = ap pos (omega arith)
  sum_ready-total (sts ∷ rest) n (h, hs) small =
      ap (λ r. sum_ready (add32 (pos n) r) rest) h
      ∙ (ap (λ z. sum_ready z rest) (add32-pos n (pos_part sts.ready_replicas) (omega arith))
          ∙ (sum_ready-total rest (n + pos_part sts.ready_replicas) hs (omega arith)
              ∙ ap pos (omega arith)))

  -- As long as no number is negative and neither the pods wanted nor the pods ready reach 2^31, a
  -- tier reports both numbers as they are, and is ready exactly if no fewer pods are ready than
  -- wanted.
  pub tier_report-ready :
      (tier : TierSpec) (xs : List StatefulSet) (replicas factor : ℕ)
      → tier.replicas ≡ pos replicas
      → tier.replication_factor ≡ pos factor
      → replicas * factor < 2 ^ 31
      → All IsCounted xs
      → total_ready xs < 2 ^ 31
      → let report = tier_report tier xs in
        (report.status.ready_replicas ≡ pos (total_ready xs))
        × (report.status.desired_replicas ≡ pos (replicas * factor))
        × (report.ready ≡ leb (replicas * factor) (total_ready xs))
  unfolding tier_report
  tier_report-ready tier xs replicas factor hr hf small counted few =
      let sum : sum_ready (pos 0) xs ≡ pos (total_ready xs) =
        sum_ready-total xs 0 counted (omega arith) ∙ ap pos (omega arith) in
      let product : mul32 tier.replicas tier.replication_factor ≡ pos (replicas * factor) =
        rw (hr, hf) (mul32-pos replicas factor small) in
      (
        sum,
        product,
        ap (λ d. leb_ℤ d (sum_ready (pos 0) xs)) product
            ∙ (ap (λ s. leb_ℤ (pos (replicas * factor)) s) sum ∙ ground arith),
      )
