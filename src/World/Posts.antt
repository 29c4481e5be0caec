-- ===== src/World/Posts.antt =====
-- What an action that ends well gives, together with the calls that it has made.
use mathlib.Core.Path.{subst}
use picodata_operator.Base.{String, ◌≡◌, refl, sym, ◌∙◌, List, [], ◌∷◌, ◌++◌, ◌⊎◌, inl, inr}
use picodata_operator.Kube.Platform.{Platform}
use picodata_operator.World.Errors.{GoError, Outcome, ok, err, panicked}
use picodata_operator.World.Calls.{Call, Answer, Env}
use picodata_operator.World.Exec.{
  Exec, pure, give, raise, wrapped, wrap_outcome, attempt, tried, perform, ◌>>=◌,
}
use picodata_operator.World.Outcomes.{bind_ok}
use picodata_operator.World.Makes.{Makes, bind_calls}
use picodata_operator.World.Follows.{Answers}

module _ ⦃K : Platform⦄ ⦃E : Env⦄ where
  pub record Post {A : Type 0} (m : Exec A) (R : A → List Call → Type 0) : Type 0 where
    pub at : (w : E.W) (a : A) → (m w).outcome ≡ ok a → R a (m w).calls

  pub Post-pure : {A : Type 0} {R : A → List Call → Type 0} (a : A) → R a [] → Post (pure a) R
  unfolding pure
  Post-pure {R = R} a h = record { at = λ w b e. subst (λ x. R x []) (ok_inj e) h }
    where
      ok_inj : {A : Type 0} {a b : A} → ok a ≡ ok b → a ≡ b
      ok_inj e = cc

  pub Post-give :
      {A : Type 0} (o : Outcome A) {R : A → List Call → Type 0}
      → ((a : A) → o ≡ ok a → R a [])
      → Post (give o) R
  unfolding give
  Post-give o h = record { at = λ w a e. h a e }

  pub Post-raise : {A : Type 0} (e : GoError) {R : A → List Call → Type 0} → Post (raise e) R
  unfolding raise
  Post-raise e = record { at = λ w a h. cc }

  pub Post-wrapped :
      {A : Type 0} (text : String) (m : Exec A) {R : A → List Call → Type 0}
      → Post m R
      → Post (wrapped text m) R
  unfolding wrapped
  Post-wrapped text m h = record { at = λ w a e. h.at w a (unwrap (m w).outcome e) }
    where
      unwrap : {A : Type 0} (o : Outcome A) {a : A} → wrap_outcome text o ≡ ok a → o ≡ ok a
      unwrap (ok b) e = e
      unwrap (err x) e = cc
      unwrap panicked e = cc

  pub Post-perform :
      (c : Call) {R : Answer c → List Call → Type 0}
      → ((a : Answer c) → Answers (perform c) a → R a (c ∷ []))
      → Post (perform c) R
  unfolding perform
  Post-perform c h = record { at = λ w a e. h a (w, e) }

  pub Post-Makes :
      {A : Type 0} (m : Exec A) {cs : List Call} {R : A → List Call → Type 0}
      → Makes m cs
      → ((a : A) → R a cs)
      → Post m R
  Post-Makes m {R = R} hm h = record { at = λ w a e. subst (R a) (sym (hm.at w a e)) (h a) }

  -- The second part counts on what the first gives and has called.
  pub Post-bind :
      {A B : Type 0} (m : Exec A) (f : A → Exec B) {P : A → List Call → Type 0}
      {R : B → List Call → Type 0}
      → Post m P
      → ((a : A) (cs : List Call) → P a cs → Post (f a) (λ b ds. R b (cs ++ ds)))
      → Post (m >>= f) R
  Post-bind m f {R = R} hm hf = record {
    at = λ w b e.
        let r = bind_ok m f w e in
        subst (R b) (sym (bind_calls m f w r.value r.first))
          ((hf r.value (m w).calls (hm.at w r.value r.first)).at (m w).world b r.second);
  }

  -- The error of an action, as some state of the world has it.
  abbrev pub Refuses : {A : Type 0} → Exec A → GoError → Type 0
  Refuses m e = (w : E.W) × ((m w).outcome ≡ err e)

  -- What a tried action gives is told by the action itself.
  pub Post-attempt :
      {A : Type 0} (m : Exec A) (cs : List Call) {R : A ⊎ GoError → List Call → Type 0}
      → ((w : E.W) → (m w).calls ≡ cs)
      → ((a : A) → Answers m a → R (inl a) cs)
      → ((e : GoError) → Refuses m e → R (inr e) cs)
      → Post (attempt m) R
  unfolding attempt
  Post-attempt {A} m cs {R} hc ha he = record {
    at = λ w r e. subst (R r) (sym (hc w)) (told w (m w).outcome refl r e);
  }
    where
      told :
          (w : E.W) (o : Outcome A)
          → (m w).outcome ≡ o
          → (r : A ⊎ GoError) → tried o ≡ ok r
          → R r cs
      told w (ok a) eo (inl b) e = ha b (w, eo ∙ left e)
        where
          left : tried (ok a) ≡ ok (inl b) → ok a ≡ ok b
          left e = cc
      told w (ok a) eo (inr x) e = cc
      told w (err x) eo (inl b) e = cc
      told w (err x) eo (inr y) e = he y (w, eo ∙ right e)
        where
          right :
              ◌≡◌ {A = Outcome (A ⊎ GoError)} (ok (inr x)) (ok (inr y))
              → ◌≡◌ {A = Outcome A} (err x) (err y)
          right e = cc
      told w panicked eo r e = cc
