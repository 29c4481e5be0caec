-- ===== src/Names/Unique.antt =====
-- How the names of StatefulSets are told apart.
use Prim.Native.String.{String, [], ◌∷◌, ◌++◌ as ◌<>◌}
use text.Mathlib.TextLemmas.{
  nil-append, cons-append, append_assoc, head-eq_of_cons-eq, tail-eq_of_cons-eq,
  append_cancel_right,
}
use picodata_operator.Base.{ℕ, ◌<◌, ◌^◌, ◌≡◌, refl, sym, ap, ◌∙◌}
use mathlib.Core.Path.{ap₂, subst}
use picodata_operator.Base.Int.{pos}
use picodata_operator.Base.Decimal.{format_int, format_int_inj, DashFree, format_int-DashFree}
use picodata_operator.Kube.Platform.{Platform}
use picodata_operator.Api.{PicoclusterDb}
use picodata_operator.Api.Spec.{TierSpec}
use picodata_operator.Names.{stateful_set_name}

dash-append : (d : String) → "" <> "-" <> d ≡ "-" ∷ d
dash-append d = nil-append _ ∙ (cons-append "-" [] d ∙ ap (λ u. "-" ∷ u) (nil-append d))

-- A text with a dash in it is not free of dashes.
not-DashFree-dash : (s d : String) → ¬ DashFree (s <> "-" <> d)
not-DashFree-dash [] d h = (rw (dash-append d) at h).0 refl
not-DashFree-dash (c ∷ s) d h = not-DashFree-dash s d ((rw (cons-append c s) at h).1)

-- The text before the last dash and the text behind it are determined.
last_dash :
    (s t d e : String) → DashFree d → DashFree e → s <> "-" <> d ≡ t <> "-" <> e → (s ≡ t) × (d ≡ e)
last_dash [] [] d e hd he p = (refl, tail-eq_of_cons-eq (sym (dash-append d) ∙ (p ∙ dash-append e)))
last_dash [] (c ∷ t) d e hd he p = absurd (
    not-DashFree-dash t e
      (subst DashFree (tail-eq_of_cons-eq (sym (dash-append d) ∙ (p ∙ cons-append c t _))) hd))
last_dash (c ∷ s) [] d e hd he p = absurd (
    not-DashFree-dash s d
      (subst DashFree (tail-eq_of_cons-eq (sym (dash-append e) ∙ (sym p ∙ cons-append c s _))) he))
last_dash (c ∷ s) (c' ∷ t) d e hd he p =
    let q = sym (cons-append c s _) ∙ (p ∙ cons-append c' t _) in
    let (same, rest) = last_dash s t d e hd he (tail-eq_of_cons-eq q) in
    (ap₂ (λ a u. a ∷ u) (head-eq_of_cons-eq q) same, rest)

module _ ⦃K : Platform⦄ (cluster : PicoclusterDb) (s t : TierSpec) where
  -- Within one cluster, two StatefulSets of one name belong to tiers of one name and have one
  -- replicaset index (an index is an `int32`, and counts from 1).
  pub stateful_set_name_inj :
      (i j : ℕ)
      → i < 2 ^ 31
      → j < 2 ^ 31
      → stateful_set_name cluster s (pos i) ≡ stateful_set_name cluster t (pos j)
      → (s.name ≡ t.name) × (pos i ≡ pos j)
  unfolding stateful_set_name
  stateful_set_name_inj i j hi hj p =
      let c = cluster.meta.name in
      let q =
        regroup s.name c (format_int (pos i)) ∙ (p ∙ sym (regroup t.name c (format_int (pos j)))) in
      let (front, back) = last_dash _ _ _ _ (format_int-DashFree i) (format_int-DashFree j) q in
      (
        append_cancel_right s.name t.name ("-" <> c) front,
        format_int_inj (pos i) (pos j) hi hj back,
      )
    where
      regroup : (a b d : String) → (a <> "-" <> b) <> "-" <> d ≡ a <> "-" <> b <> "-" <> d
      regroup a b d = append_assoc a ("-" <> b) ("-" <> d) ∙ ap (λ u. a <> u) (append_assoc "-" b _)
