-- ===== src/World/Endings.antt =====
-- The last call of an action that ends well.
use picodata_operator.Base.{
  ◌≡◌, refl, sym, ◌∙◌, ap, List, [], ◌∷◌, ◌++◌, ◌⊎◌, inl, inr, append-nil, append_assoc,
}
use picodata_operator.Kube.Platform.{Platform}
use picodata_operator.World.Errors.{ok}
use picodata_operator.World.Calls.{Call, Answer, Env}
use picodata_operator.World.Exec.{Exec, pure, perform, ◌>>=◌}
use picodata_operator.World.Outcomes.{bind_ok, Ensures}
use picodata_operator.World.Makes.{bind_calls}

-- The last of the calls satisfies a predicate.
abbrev pub EndsWith : ⦃K : Platform⦄ → (Call → Type 0) → List Call → Type 0
EndsWith Q cs = (init : List Call) × (c : Call) × (cs ≡ init ++ c ∷ []) × Q c

module _ ⦃K : Platform⦄ ⦃E : Env⦄ where
  -- Where the action ends well, its value satisfies one predicate, or its last call another.
  pub record Ends {A : Type 0} (m : Exec A) (S : A → Type 0) (Q : Call → Type 0) : Type 0 where
    pub at : (w : E.W) (a : A) → (m w).outcome ≡ ok a → S a ⊎ EndsWith Q (m w).calls

  pub Ends-value :
      {A : Type 0} (m : Exec A) {S : A → Type 0} {Q : Call → Type 0} → Ensures m S → Ends m S Q
  Ends-value m h = record { at = λ w a e. inl (h.at w a e) }

  pub Ends-perform :
      (c : Call) {S : Answer c → Type 0} {Q : Call → Type 0} → Q c → Ends (perform c) S Q
  unfolding perform
  Ends-perform c h = record { at = λ w a e. inr ([], c, refl, h) }

  pub Ends-bind_with :
      {A B : Type 0} (m : Exec A) (f : A → Exec B) {R : A → Type 0} {S : B → Type 0}
      {Q : Call → Type 0}
      → Ensures m R
      → ((a : A) → R a → Ends (f a) S Q)
      → Ends (m >>= f) S Q
  Ends-bind_with m f {S = S} {Q} hm hf = record {
    at = λ w b e.
        let r = bind_ok m f w e in
        later w r.value r.first ((hf r.value (hm.at w r.value r.first)).at (m w).world b r.second);
  }
    where
      later :
          (w : E.W) (a : _) {b : _}
          → (m w).outcome ≡ ok a
          → S b ⊎ EndsWith Q (f a (m w).world).calls
          → S b ⊎ EndsWith Q ((m >>= f) w).calls
      later w a e (inl s) = inl s
      later w a e (inr (init, c, ends, q)) = inr (
        (m w).calls ++ init,
        c,
        bind_calls m f w a e
            ∙ (ap (λ l. (m w).calls ++ l) ends ∙ sym (append_assoc (m w).calls init (c ∷ []))),
        q,
      )

  -- A value behind a last call.
  pub Ends-then_pure :
      {A B : Type 0} (m : Exec A) (b : B) {S : B → Type 0} {Q : Call → Type 0}
      → Ends m (λ _. ⊥) Q
      → Ends (m >>= λ _. pure b) S Q
  unfolding pure
  Ends-then_pure m b {Q = Q} hm = record {
    at = λ w a e.
        let r = bind_ok m (λ _. pure b) w e in
        inr (ending w r.value r.first (hm.at w r.value r.first));
  }
    where
      ending :
          (w : E.W) (a : _)
          → (m w).outcome ≡ ok a
          → ⊥ ⊎ EndsWith Q (m w).calls
          → EndsWith Q ((m >>= λ _. pure b) w).calls
      ending w a e (inl h) = absurd h
      ending w a e (inr (init, c, ends, q)) =
          (init, c, bind_calls m (λ _. pure b) w a e ∙ (append-nil (m w).calls ∙ ends), q)
