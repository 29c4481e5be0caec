-- ===== src/World/Follows.antt =====
-- Actions that follow a plan of statements: what is sent to the database is an initial part of the
-- plan, and all of it where the action ends well.
use picodata_operator.Base.{
  String, ◌≡◌, refl, sym, ◌∙◌, ap, Bool, true, false, List, [], ◌∷◌, ◌++◌, flat_map, append-nil,
  append_assoc,
}
use mathlib.Core.Path.{subst}
use picodata_operator.Kube.Platform.{Platform}
use picodata_operator.World.Errors.{GoError, Outcome, ok, err, panicked}
use picodata_operator.World.Calls.{Call, Env, exec}
use picodata_operator.World.Exec.{
  Run, Exec, pure, raise, wrapped, perform, continue, ◌>>=◌, when, each,
}

abbrev pub IsOk {ℓ} : {A : Type ℓ} → Outcome A → Type 0
IsOk (ok a) = Unit
IsOk (err e) = ⊥
IsOk panicked = ⊥

-- A part of a plan that depends on a test.
abbrev pub plan_if : Bool → List String → List String
plan_if true p = p
plan_if false p = []

module _ ⦃K : Platform⦄ where
  -- The statements among the calls.
  abbrev pub sent : List Call → List String
  sent [] = []
  sent (exec conn sql ∷ calls) = sql ∷ sent calls
  sent (_ ∷ calls) = sent calls

  pub sent-append : (cs ds : List Call) → sent (cs ++ ds) ≡ sent cs ++ sent ds
  sent-append [] ds = refl
  sent-append (exec conn sql ∷ cs) ds = ap (λ l. sql ∷ l) (sent-append cs ds)
  sent-append (_ ∷ cs) ds = sent-append cs ds

module _ ⦃K : Platform⦄ ⦃E : Env⦄ where
  -- What a run has sent, and what it has left of the plan.
  pub record Progress {A : Type 0} (r : Run A) (plan : List String) : Type 0 where
    pub left : List String
    pub exact : sent r.calls ++ left ≡ plan
    pub complete : IsOk r.outcome → left ≡ []

  pub record Follows {A : Type 0} (m : Exec A) (plan : List String) : Type 0 where
    pub at : (w : E.W) → Progress (m w) plan

  pub Follows-pure : {A : Type 0} (a : A) → Follows (pure a) []
  unfolding pure
  Follows-pure a = record { at = λ w. record { left = []; exact = refl; complete = λ h. refl } }

  pub Follows-raise : {A : Type 0} (e : GoError) → Follows (raise {A = A} e) []
  unfolding raise
  Follows-raise e = record { at = λ w. record { left = []; exact = refl; complete = λ h. refl } }

  -- One statement is sent whatever comes of it.
  pub Follows-exec :
      (conn : K.Conn) (text sql : String)
      → Follows (wrapped text (perform (exec conn sql))) (sql ∷ [])
  unfolding wrapped perform
  Follows-exec conn text sql = record {
    at = λ w. record { left = []; exact = refl; complete = λ h. refl };
  }

  -- A call that is no statement.
  pub Follows-perform : (c : Call) → sent (c ∷ []) ≡ [] → Follows (perform c) []
  unfolding perform
  Follows-perform c e = record {
    at = λ w. record { left = []; exact = rw e; complete = λ h. refl };
  }

  -- What is left of a plan where an action has not ended well, and more was to come.
  stopped :
      {A B : Type 0} (r : Run A) {p : List String} (q : List String)
      → Progress r p
      → (o : Outcome B) → ¬ IsOk o
      → Progress (record { outcome = o; world = r.world; calls = r.calls }) (p ++ q)
  stopped r q hr o bad = record {
    left = hr.left ++ q;
    exact = sym (append_assoc (sent r.calls) hr.left q) ∙ ap (λ l. l ++ q) hr.exact;
    complete = λ h. absurd (bad h);
  }

  -- Two parts one behind the other.
  joined :
      {A B : Type 0} (r : Run A) (f : A → Exec B) (a : A) {p q : List String}
      → Progress r p
      → IsOk r.outcome
      → Progress (f a r.world) q
      → Progress (continue (ok a) r.world r.calls f) (p ++ q)
  joined r f a {p} {q} hr well hb = record {
    left = hb.left;
    exact =
        ap (λ l. l ++ hb.left) (sent-append r.calls (f a r.world).calls)
        ∙ (append_assoc (sent r.calls) _ _
            ∙ (ap (λ l. sent r.calls ++ l) hb.exact
                ∙ ap (λ l. l ++ q)
                    (sym (append-nil (sent r.calls))
                      ∙ (ap (λ l. sent r.calls ++ l) (sym (hr.complete well)) ∙ hr.exact))));
    complete = hb.complete;
  }

  continue-Progress :
      {A B : Type 0} (r : Run A) (f : A → Exec B) {p q : List String}
      → Progress r p
      → ((a : A) → Follows (f a) q)
      → (o : _) → r.outcome ≡ o
      → Progress (continue o r.world r.calls f) (p ++ q)
  continue-Progress r f hr hf (ok a) e = joined r f a hr (rw e tt) ((hf a).at r.world)
  continue-Progress r f {q} hr hf (err x) e = stopped r q hr (err x) (λ h. h)
  continue-Progress r f {q} hr hf panicked e = stopped r q hr panicked (λ h. h)

  pub Follows-bind :
      {A B : Type 0} (m : Exec A) (f : A → Exec B) {p q : List String}
      → Follows m p
      → ((a : A) → Follows (f a) q)
      → Follows (m >>= f) (p ++ q)
  unfolding ◌>>=◌
  Follows-bind m f hm hf = record {
    at = λ w. continue-Progress (m w) f (hm.at w) hf (m w).outcome refl;
  }

  pub Follows-when :
      (b : Bool) {m : Exec (Unit {0})} {p : List String}
      → Follows m p
      → Follows (when b m) (plan_if b p)
  unfolding when
  Follows-when true h = h
  Follows-when false h = Follows-pure tt

  pub Follows-each :
      {A : Type 0} (f : A → Exec (Unit {0})) (p : A → List String)
      → ((a : A) → Follows (f a) (p a))
      → (xs : List A) → Follows (each f xs) (flat_map p xs)
  unfolding each
  Follows-each f p h [] = Follows-pure tt
  Follows-each f p h (x ∷ xs) =
      Follows-bind (f x) (λ _. each f xs) (h x) (λ _. Follows-each f p h xs)

  -- The same for a plan that depends on an answer, which is told where the action ends well.
  pub record FollowsSome {A B : Type 0} (m : Exec A) (q : B → List String) (R : B → Type 0)
      : Type 0 where
    pub at : (w : E.W) → (b : B) × Progress (m w) (q b) × (IsOk (m w).outcome → R b)

  -- The answer that an action gives in some state of the world.
  abbrev pub Answers : {A : Type 0} → Exec A → A → Type 0
  Answers m a = (w : E.W) × ((m w).outcome ≡ ok a)

  continue-Some :
      {A B C : Type 0} (r : Run A) (f : A → Exec B) {q : C → List String} {R : C → Type 0}
      (p : List String)
      → C
      → Progress r p
      → ((a : A) → r.outcome ≡ ok a → FollowsSome (f a) q R)
      → (o : _) → r.outcome ≡ o
      → (c : C) × Progress (continue o r.world r.calls f) (p ++ q c)
        × (IsOk (continue o r.world r.calls f).outcome → R c)
  continue-Some r f p c hr hf (ok a) e =
      let (b, hb, told) = (hf a e).at r.world in (b, joined r f a hr (rw e tt) hb, told)
  continue-Some r f {q} p c hr hf (err x) e =
      (c, stopped r (q c) hr (err x) (λ h. h), λ h. absurd h)
  continue-Some r f {q} p c hr hf panicked e =
      (c, stopped r (q c) hr panicked (λ h. h), λ h. absurd h)

  -- `c` stands for the answer where the first action does not end well.
  pub FollowsSome-bind :
      {A B C : Type 0} (m : Exec A) (f : A → Exec B) (p : List String) {q : C → List String}
      {R : C → Type 0}
      → C
      → Follows m p
      → ((a : A) → Answers m a → FollowsSome (f a) q R)
      → FollowsSome (m >>= f) (λ c. p ++ q c) R
  unfolding ◌>>=◌
  FollowsSome-bind m f p c hm hf = record {
    at = λ w. continue-Some (m w) f p c (hm.at w) (λ a e. hf a (w, e)) (m w).outcome refl;
  }

  -- The answer is the one that decides the plan.
  pub FollowsSome-told :
      {A B : Type 0} (m : Exec A) (q : B → List String) (R : B → Type 0) (b : B)
      → R b
      → Follows m (q b)
      → FollowsSome m q R
  FollowsSome-told m q R b told h = record { at = λ w. (b, h.at w, λ _. told) }

  -- An action that sends nothing, at a world where its answer is known.
  pub bind_known :
      {A B C : Type 0} (m : Exec A) (f : A → Exec B) {q : C → List String} {R : C → Type 0}
      (w : E.W) (a : A)
      → (m w).outcome ≡ ok a
      → Follows m []
      → FollowsSome (f a) q R
      → (c : C) × Progress ((m >>= f) w) (q c) × (IsOk ((m >>= f) w).outcome → R c)
  unfolding ◌>>=◌
  bind_known {B = B} {C = C} m f {q} {R} w a e hm hf =
      let r = m w in
      let (b, hb, told) = hf.at r.world in
      subst
        (λ (o : _).
          (c : C) × Progress (continue {B = B} o r.world r.calls f) (q c)
          × (IsOk (continue {B = B} o r.world r.calls f).outcome → R c))
        (sym e) (b, joined r f a (hm.at w) (rw e tt) hb, told)
