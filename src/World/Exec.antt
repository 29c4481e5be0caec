-- ===== src/World/Exec.antt =====
-- The methods of the reconciler as actions: from the state of the world to an outcome, the state
-- afterwards and the calls that were made, in their order, failed ones included.
use picodata_operator.Base.{
  String, ◌≡◌, refl, Bool, true, false, List, [], ◌∷◌, ◌++◌, ◌⊎◌, inl, inr,
}
use picodata_operator.Kube.Platform.{Platform}
use picodata_operator.World.Errors.{GoError, wrap, Outcome, ok, err, panicked}
use picodata_operator.World.Calls.{Call, Answer, Env}

module _ ⦃K : Platform⦄ ⦃E : Env⦄ where
  pub record Run (A : Type 0) : Type 0 where
    pub outcome : Outcome A
    pub world : E.W
    pub calls : List Call

  abbrev pub Exec : Type 0 → Type 0
  Exec A = E.W → Run A

module _ ⦃K : Platform⦄ ⦃E : Env⦄ {A : Type 0} where
  unfoldable pub pure : A → Exec A
  pure a w = record { outcome = ok a; world = w; calls = [] }

  unfoldable pub give : Outcome A → Exec A
  give r w = record { outcome = r; world = w; calls = [] }

  unfoldable pub raise : GoError → Exec A
  raise e w = record { outcome = err e; world = w; calls = [] }

  -- `fmt.Errorf("<text>: %w", err)` on the error of an action
  abbrev pub wrap_outcome : String → Outcome A → Outcome A
  wrap_outcome text (ok a) = ok a
  wrap_outcome text (err e) = err (wrap text e)
  wrap_outcome text panicked = panicked

  unfoldable pub wrapped : String → Exec A → Exec A
  wrapped text m w = let r = m w in record r { outcome = wrap_outcome text r.outcome }

  -- The error of an action as a value, for code that looks at it.
  abbrev pub tried : Outcome A → Outcome (A ⊎ GoError)
  tried (ok a) = ok (inl a)
  tried (err e) = ok (inr e)
  tried panicked = panicked

  unfoldable pub attempt : Exec A → Exec (A ⊎ GoError)
  attempt m w =
      let r = m w in record { outcome = tried r.outcome; world = r.world; calls = r.calls }

  -- `defer`: the second action runs behind the first, however that ends, and its error is dropped.
  unfoldable pub finally : Exec A → Exec (Unit {0}) → Exec A
  finally m cleanup w =
      let r = m w in
      let d = cleanup r.world in
      record { outcome = r.outcome; world = d.world; calls = r.calls ++ d.calls }

module _ ⦃K : Platform⦄ ⦃E : Env⦄ where
  unfoldable pub perform : (c : Call) → Exec (Answer c)
  perform c w = let (r, w') = E.respond c w in record { outcome = r; world = w'; calls = c ∷ [] }

module _ ⦃K : Platform⦄ ⦃E : Env⦄ {A B : Type 0} where
  -- What follows an action that ended with an outcome, in a world, behind some calls.
  abbrev pub continue : Outcome A → E.W → List Call → (A → Exec B) → Run B
  continue (ok a) w calls f = let r = f a w in record r { calls = calls ++ r.calls }
  continue (err e) w calls f = record { outcome = err e; world = w; calls = calls }
  continue panicked w calls f = record { outcome = panicked; world = w; calls = calls }

  infixl 10 ◌>>=◌ ◌>>◌
  unfoldable pub ◌>>=◌ : Exec A → (A → Exec B) → Exec B
  ◌>>=◌ m f w = let r = m w in continue r.outcome r.world r.calls f

  abbrev pub ◌>>◌ : Exec A → Exec B → Exec B
  m >> n = m >>= λ _. n

module _ ⦃K : Platform⦄ ⦃E : Env⦄ where
  -- `if b { m }`
  unfoldable pub when : Bool → Exec (Unit {0}) → Exec (Unit {0})
  when true m = m
  when false m = pure tt

  -- `for x in xs { f x }`, which an error leaves
  unfoldable pub each : {A : Type 0} → (A → Exec (Unit {0})) → List A → Exec (Unit {0})
  each f [] = pure tt
  each f (x ∷ xs) = let rest = each f xs in f x >> rest

  pub pure-bind : {A B : Type 0} (a : A) (f : A → Exec B) → (pure a >>= f) ≡ f a
  unfolding ◌>>=◌ pure
  pure-bind a f = refl
