-- ===== src/World/Cases.antt =====
-- A sequence of two actions, by how the first one ends.
use picodata_operator.Base.{◌≡◌, refl, ◌++◌, ◌⊎◌, inl, inr}
use picodata_operator.Kube.Platform.{Platform}
use picodata_operator.World.Errors.{Outcome, ok, err, panicked}
use picodata_operator.World.Calls.{Env}
use picodata_operator.World.Exec.{Exec, ◌>>=◌}
use picodata_operator.World.Follows.{IsOk}

module _ ⦃K : Platform⦄ ⦃E : Env⦄ where
  -- The second part runs on the value of the first.
  pub record WentOn {A B : Type 0} (m : Exec A) (f : A → Exec B) (w : E.W) : Type 0 where
    pub value : A
    pub first : (m w).outcome ≡ ok value
    pub outcome : ((m >>= f) w).outcome ≡ (f value (m w).world).outcome
    pub calls : ((m >>= f) w).calls ≡ (m w).calls ++ (f value (m w).world).calls

  -- The first part does not end well, and is all there is.
  pub record Stopped {A B : Type 0} (m : Exec A) (f : A → Exec B) (w : E.W) : Type 0 where
    pub first : ¬ IsOk (m w).outcome
    pub outcome : ¬ IsOk ((m >>= f) w).outcome
    pub calls : ((m >>= f) w).calls ≡ (m w).calls

  pub bind_cases :
      {A B : Type 0} (m : Exec A) (f : A → Exec B) (w : E.W) → WentOn m f w ⊎ Stopped m f w
  unfolding ◌>>=◌
  bind_cases {A} m f w = by_outcome (m w).outcome refl
    where
      by_outcome : (o : Outcome A) → (m w).outcome ≡ o → WentOn m f w ⊎ Stopped m f w
      by_outcome (ok a) e =
          inl (record { value = a; first = e; outcome = rw e refl; calls = rw e refl })
      by_outcome (err x) e =
          inr (record { first = rw e (λ h. h); outcome = rw e (λ h. h); calls = rw e refl })
      by_outcome panicked e =
          inr (record { first = rw e (λ h. h); outcome = rw e (λ h. h); calls = rw e refl })
