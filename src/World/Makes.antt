-- ===== src/World/Makes.antt =====
-- The calls of an action that ends well.
use picodata_operator.Base.{
  ◌≡◌, refl, ◌∙◌, ap, Bool, true, false, List, [], ◌∷◌, ◌++◌, flat_map, if◌then◌else◌,
}
use picodata_operator.Kube.Platform.{Platform}
use picodata_operator.World.Errors.{GoError, ok}
use picodata_operator.World.Calls.{Call, Env}
use picodata_operator.World.Exec.{Exec, pure, raise, attempt, perform, ◌>>=◌, each}
use picodata_operator.World.Outcomes.{bind_ok}

module _ ⦃K : Platform⦄ ⦃E : Env⦄ where
  pub record Makes {A : Type 0} (m : Exec A) (cs : List Call) : Type 0 where
    pub at : (w : E.W) (a : A) → (m w).outcome ≡ ok a → (m w).calls ≡ cs

  pub bind_calls :
      {A B : Type 0} (m : Exec A) (f : A → Exec B) (w : E.W) (a : A)
      → (m w).outcome ≡ ok a
      → ((m >>= f) w).calls ≡ (m w).calls ++ (f a (m w).world).calls
  unfolding ◌>>=◌
  bind_calls m f w a e = rw e refl

  pub bind_outcome :
      {A B : Type 0} (m : Exec A) (f : A → Exec B) (w : E.W) (a : A)
      → (m w).outcome ≡ ok a
      → ((m >>= f) w).outcome ≡ (f a (m w).world).outcome
  unfolding ◌>>=◌
  bind_outcome m f w a e = rw e refl

  pub Makes-raise : {A : Type 0} (e : GoError) (cs : List Call) → Makes (raise {A = A} e) cs
  unfolding raise
  Makes-raise e cs = record { at = λ w a h. cc }

  pub Makes-either :
      {A : Type 0} (b : Bool) {m n : Exec A} {cs : List Call}
      → Makes m cs
      → Makes n cs
      → Makes (if b then m else n) cs
  Makes-either true h k = h
  Makes-either false h k = k

  pub Makes-pure : {A : Type 0} (a : A) → Makes (pure a) []
  unfolding pure
  Makes-pure a = record { at = λ w b e. refl }

  pub Makes-bind :
      {A B : Type 0} (m : Exec A) (f : A → Exec B) {cs ds : List Call}
      → Makes m cs
      → ((a : A) → Makes (f a) ds)
      → Makes (m >>= f) (cs ++ ds)
  Makes-bind m f {cs} {ds} hm hf = record {
    at = λ w b e.
        let r = bind_ok m f w e in
        bind_calls m f w r.value r.first
        ∙ (ap (λ l. l ++ (f r.value (m w).world).calls) (hm.at w r.value r.first)
            ∙ ap (λ l. cs ++ l) ((hf r.value).at (m w).world b r.second));
  }

  -- One call whose error is looked at.
  pub Makes-attempt : (c : Call) → Makes (attempt (perform c)) (c ∷ [])
  unfolding attempt perform
  Makes-attempt c = record { at = λ w b e. refl }

  pub Makes-if :
      {A : Type 0} (b : Bool) {m n : Exec A} {cs ds : List Call}
      → Makes m cs
      → Makes n ds
      → Makes (if b then m else n) (if b then cs else ds)
  Makes-if true h k = h
  Makes-if false h k = k

  pub Makes-each :
      {A : Type 0} (f : A → Exec (Unit {0})) (p : A → List Call)
      → ((a : A) → Makes (f a) (p a))
      → (xs : List A) → Makes (each f xs) (flat_map p xs)
  unfolding each
  Makes-each f p h [] = Makes-pure tt
  Makes-each f p h (x ∷ xs) = Makes-bind (f x) (λ _. each f xs) (h x) (λ _. Makes-each f p h xs)
