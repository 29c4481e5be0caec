-- ===== src/Reconciler/Still.antt =====
-- Actions whose calls all satisfy a predicate where the world satisfies an invariant, which they leave.
use mathlib.Core.Path.{subst}
use picodata_operator.Base.{String, ◌≡◌, refl, sym, All, All-append}
use picodata_operator.Kube.Platform.{Platform}
use picodata_operator.World.Errors.{Outcome, ok, err, panicked}
use picodata_operator.World.Calls.{Call, Env}
use picodata_operator.World.Exec.{Run, Exec, pure, give, wrapped, attempt, tried, continue, ◌>>=◌}
use picodata_operator.Kube.Meta.{NamespacedName}
use picodata_operator.Reconciler.Resources.{key_of, create_or_patch}
use picodata_operator.World.Follows.{Answers}
use picodata_operator.Reconciler.Kinds.{ResourceKind, IsFound, apply}

module _ ⦃K : Platform⦄ ⦃E : Env⦄ (P : Call → Type 0) (I : E.W → Type 0) where
  -- From a state with the invariant, the calls of the action satisfy the predicate, and it comes to a
  -- state with the invariant.
  pub record Still {A : Type 0} (m : Exec A) : Type 0 where
    pub at : (w : E.W) → I w → All P (m w).calls × I (m w).world

  pub Still-pure : {A : Type 0} (a : A) → Still (pure a)
  unfolding pure
  Still-pure a = record { at = λ w i. (tt, i) }

  pub Still-give : {A : Type 0} (o : Outcome A) → Still (give o)
  unfolding give
  Still-give o = record { at = λ w i. (tt, i) }

  pub Still-wrapped : {A : Type 0} (text : String) (m : Exec A) → Still m → Still (wrapped text m)
  unfolding wrapped
  Still-wrapped text m h = record { at = λ w i. h.at w i }

  -- What the second part may count on: the first ends with the value in a state with the invariant.
  pub Still-bind :
      {A B : Type 0} (m : Exec A) (f : A → Exec B)
      → Still m
      → ((a : A) (w : E.W) → I w → (m w).outcome ≡ ok a → Still (f a))
      → Still (m >>= f)
  unfolding ◌>>=◌
  Still-bind {A} {B} m f hm hf = record { at = λ w i. by_outcome w i (m w).outcome refl }
    where
      by_outcome :
          (w : E.W)
          → I w
          → (o : Outcome A) → (m w).outcome ≡ o
          → let r : Run B = continue o (m w).world (m w).calls f in All P r.calls × I r.world
      by_outcome w i (ok a) e =
          let (cs, j) = hm.at w i in
          let (ds, k) = (hf a w i e).at (m w).world j in (All-append P _ _ cs ds, k)
      by_outcome w i (err x) e = hm.at w i
      by_outcome w i panicked e = hm.at w i

  module _ {D : Type 0} (kind : ResourceKind D) where
    -- The calls that read an object of the kind, and that patch what is found of it.
    pub record IsStill (d : D) : Type 0 where
      pub fetches : (key : NamespacedName) → Still (kind.fetch key)
      pub changes :
          (old : D)
          → Answers (kind.fetch (key_of (kind.meta_of d))) old
          → Still (kind.change old (kind.sync d old))

    pub Still-apply :
        (d : D) → IsStill d → ((w : E.W) → I w → IsFound kind w d) → Still (apply kind d)
    unfolding apply attempt ◌>>=◌ create_or_patch
    Still-apply d still found = record { at = λ w i. from w i (found w i) }
      where
        key : NamespacedName
        key = key_of (kind.meta_of d)

        Calm : E.W → Outcome D → Type 0
        Calm w o =
            let r : Run (Unit {0}) =
              continue (tried o) (kind.fetch key w).world (kind.fetch key w).calls
                (create_or_patch (kind.make d) (λ old. kind.change old (kind.sync d old))) in
            All P r.calls × I r.world

        from : (w : E.W) → I w → IsFound kind w d → Calm w (kind.fetch key w).outcome
        from w i (old, e) = subst (Calm w) (sym e) (
            let (cs, j) = (still.fetches key).at w i in
            let (ds, k) = (still.changes old (w, e)).at (kind.fetch key w).world j in
            (All-append P _ _ cs ds, k))
