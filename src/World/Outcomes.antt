-- ===== src/World/Outcomes.antt =====
-- What a good outcome of a compound action says of its parts.
use mathlib.Core.Path.{subst}
use picodata_operator.Base.{String, ◌≡◌, refl}
use picodata_operator.Kube.Platform.{Platform}
use picodata_operator.World.Errors.{Outcome, ok, err, panicked}
use picodata_operator.World.Calls.{Env}
use picodata_operator.World.Exec.{Exec, continue, ◌>>=◌, pure, wrapped, wrap_outcome, finally}

ok_inj : {A : Type 0} {a b : A} → ok a ≡ ok b → a ≡ b
ok_inj e = cc

module _ ⦃K : Platform⦄ ⦃E : Env⦄ {A B : Type 0} where
  -- Where a sequence ends well, both parts do, the second in the world that the first leaves.
  pub record BothOk (m : Exec A) (f : A → Exec B) (w : E.W) (b : B) : Type 0 where
    pub value : A
    pub first : (m w).outcome ≡ ok value
    pub second : (f value (m w).world).outcome ≡ ok b

  both_ok :
      (m : Exec A) (f : A → Exec B) (w : E.W) {b : B}
      → (o : Outcome A) → (m w).outcome ≡ o
      → (continue o (m w).world (m w).calls f).outcome ≡ ok b
      → BothOk m f w b
  both_ok m f w (ok a) e h = record { value = a; first = e; second = h }
  both_ok m f w (err x) e h = cc
  both_ok m f w panicked e h = cc

  pub bind_ok :
      (m : Exec A) (f : A → Exec B) (w : E.W) {b : B}
      → ((m >>= f) w).outcome ≡ ok b
      → BothOk m f w b
  unfolding ◌>>=◌
  bind_ok m f w h = both_ok m f w (m w).outcome refl h

module _ ⦃K : Platform⦄ ⦃E : Env⦄ where
  -- What every good outcome of an action satisfies.
  pub record Ensures {A : Type 0} (m : Exec A) (P : A → Type 0) : Type 0 where
    pub at : (w : E.W) (a : A) → (m w).outcome ≡ ok a → P a

  pub Ensures-pure : {A : Type 0} {P : A → Type 0} (a : A) → P a → Ensures (pure a) P
  unfolding pure
  Ensures-pure {P = P} a h = record { at = λ w b e. subst P (ok_inj e) h }

  -- The second part is what counts.
  pub Ensures-bind :
      {A B : Type 0} (m : Exec A) (f : A → Exec B) {P : B → Type 0}
      → ((a : A) → Ensures (f a) P)
      → Ensures (m >>= f) P
  Ensures-bind m f h = record {
    at = λ w b e. let r = bind_ok m f w e in (h r.value).at (m w).world b r.second;
  }

  -- The second part counts on what the first ensures.
  pub Ensures-bind_with :
      {A B : Type 0} (m : Exec A) (f : A → Exec B) {P : A → Type 0} {Q : B → Type 0}
      → Ensures m P
      → ((a : A) → P a → Ensures (f a) Q)
      → Ensures (m >>= f) Q
  Ensures-bind_with m f hm hf = record {
    at = λ w b e.
        let r = bind_ok m f w e in (hf r.value (hm.at w r.value r.first)).at (m w).world b r.second;
  }

  pub Ensures-wrapped :
      {A : Type 0} (text : String) (m : Exec A) {P : A → Type 0}
      → Ensures m P
      → Ensures (wrapped text m) P
  unfolding wrapped
  Ensures-wrapped {A} text m h = record { at = λ w a e. h.at w a (unwrap (m w).outcome e) }
    where
      unwrap : (o : Outcome A) {a : A} → wrap_outcome text o ≡ ok a → o ≡ ok a
      unwrap (ok b) e = e
      unwrap (err x) e = cc
      unwrap panicked e = cc

  -- Cleaning up changes no outcome.
  pub Ensures-finally :
      {A : Type 0} (m : Exec A) (cleanup : Exec (Unit {0})) {P : A → Type 0}
      → Ensures m P
      → Ensures (finally m cleanup) P
  unfolding finally
  Ensures-finally m cleanup h = record { at = λ w a e. h.at w a e }
