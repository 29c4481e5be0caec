-- ===== src/World/Guarded.antt =====
-- What holds of every run of an action: each of its calls satisfies a predicate, and it does not
-- panic.
use picodata_operator.Base.{
  String, ◌≡◌, refl, Bool, true, false, List, [], ◌∷◌, All, All-append, if◌then◌else◌,
}
use picodata_operator.Kube.Platform.{Platform}
use picodata_operator.World.Errors.{GoError, Outcome, ok, err, panicked}
use picodata_operator.World.Calls.{Call, Env}
use picodata_operator.World.Exec.{
  Run, Exec, pure, raise, give, wrapped, wrap_outcome, attempt, tried, finally, perform, continue,
  ◌>>=◌, when, each,
}

-- The outcome is a value or an error.
abbrev pub Returns {ℓ} : {A : Type ℓ} → Outcome A → Type 0
Returns (ok a) = Unit
Returns (err e) = Unit
Returns panicked = ⊥

module _ ⦃K : Platform⦄ ⦃E : Env⦄ (P : Call → Type 0) where
  pub record Guarded {A : Type 0} (m : Exec A) : Type 0 where
    pub at : (w : E.W) → All P (m w).calls × Returns (m w).outcome

  pub Guarded-pure : {A : Type 0} (a : A) → Guarded (pure a)
  unfolding pure
  Guarded-pure a = record { at = λ w. (tt, tt) }

  pub Guarded-raise : {A : Type 0} (e : GoError) → Guarded (raise {A = A} e)
  unfolding raise
  Guarded-raise e = record { at = λ w. (tt, tt) }

  pub Guarded-give : {A : Type 0} (o : Outcome A) → Returns o → Guarded (give o)
  unfolding give
  Guarded-give o h = record { at = λ w. (tt, h) }

  pub Guarded-wrapped :
      {A : Type 0} (text : String) (m : Exec A) → Guarded m → Guarded (wrapped text m)
  unfolding wrapped
  Guarded-wrapped text m h = record {
    at = λ w. ((h.at w).0, Returns-wrap (m w).outcome (h.at w).1);
  }
    where
      Returns-wrap : {A : Type 0} (o : Outcome A) → Returns o → Returns (wrap_outcome text o)
      Returns-wrap (ok a) r = tt
      Returns-wrap (err e) r = tt
      Returns-wrap panicked r = r

  pub Guarded-attempt : {A : Type 0} (m : Exec A) → Guarded m → Guarded (attempt m)
  unfolding attempt
  Guarded-attempt m h = record { at = λ w. ((h.at w).0, Returns-tried (m w).outcome (h.at w).1) }
    where
      Returns-tried : {A : Type 0} (o : Outcome A) → Returns o → Returns (tried o)
      Returns-tried (ok a) r = tt
      Returns-tried (err e) r = tt
      Returns-tried panicked r = r

  pub Guarded-finally :
      {A : Type 0} (m : Exec A) (cleanup : Exec (Unit {0}))
      → Guarded m
      → Guarded cleanup
      → Guarded (finally m cleanup)
  unfolding finally
  Guarded-finally m cleanup h hc = record {
    at = λ w. (All-append P (m w).calls _ (h.at w).0 (hc.at (m w).world).0, (h.at w).1);
  }

  continue-Guarded :
      {A B : Type 0} (r : Run A) (f : A → Exec B)
      → All P r.calls
      → (o : Outcome A) → Returns o
      → ((a : A) → o ≡ ok a → Guarded (f a))
      → All P (continue o r.world r.calls f).calls × Returns (continue o r.world r.calls f).outcome
  continue-Guarded r f hs (ok a) h hf =
      let g = (hf a refl).at r.world in (All-append P r.calls _ hs g.0, g.1)
  continue-Guarded r f hs (err e) h hf = (hs, tt)
  continue-Guarded r f hs panicked h hf = absurd h

  -- The second part may count on its argument being what the first ends with in some world.
  pub Guarded-bind_known :
      {A B : Type 0} (m : Exec A) (f : A → Exec B)
      → Guarded m
      → ((a : A) (w : E.W) → (m w).outcome ≡ ok a → Guarded (f a))
      → Guarded (m >>= f)
  unfolding ◌>>=◌
  Guarded-bind_known m f hm hf = record {
    at = λ w. continue-Guarded (m w) f (hm.at w).0 (m w).outcome (hm.at w).1 (λ a e. hf a w e);
  }

  pub Guarded-bind :
      {A B : Type 0} (m : Exec A) (f : A → Exec B)
      → Guarded m
      → ((a : A) → Guarded (f a))
      → Guarded (m >>= f)
  Guarded-bind m f hm hf = Guarded-bind_known m f hm (λ a w e. hf a)

  pub Guarded-if :
      {A : Type 0} (b : Bool) {m n : Exec A}
      → (b ≡ true → Guarded m)
      → Guarded n
      → Guarded (if b then m else n)
  Guarded-if true h k = h refl
  Guarded-if false h k = k

  pub Guarded-when : (b : Bool) {m : Exec (Unit {0})} → Guarded m → Guarded (when b m)
  unfolding when
  Guarded-when true h = h
  Guarded-when false h = Guarded-pure tt

  pub Guarded-each :
      {A : Type 0} (f : A → Exec (Unit {0}))
      → ((a : A) → Guarded (f a))
      → (xs : List A) → Guarded (each f xs)
  unfolding each
  Guarded-each f h [] = Guarded-pure tt
  Guarded-each f h (x ∷ xs) = Guarded-bind (f x) (λ _. each f xs) (h x) (λ _. Guarded-each f h xs)

  -- A call that satisfies the predicate, and is answered by a value or an error.
  pub Guarded-perform :
      (c : Call) → P c → ((w : E.W) → Returns (E.respond c w).0) → Guarded (perform c)
  unfolding perform
  Guarded-perform c h calm = record { at = λ w. ((h, tt), calm w) }
