-- ===== src/Reconciler/Stages.antt =====
-- The stages of a round, and actions that go through them in order.
use picodata_operator.Base.{
  ℕ, ◌≤◌, String, Bool, true, false, List, [], ◌∷◌, ◌++◌, ◌⊎◌, inl, inr, arith, if◌then◌else◌,
}
use picodata_operator.Kube.Platform.{Platform}
use picodata_operator.World.Errors.{GoError, Outcome, ok, err, panicked, is_not_found}
use picodata_operator.World.Calls.{
  Call, Env, get_config_map, create_config_map, patch_config_map, get_service, create_service,
  patch_service, get_ingress, create_ingress, patch_ingress, get_stateful_set, create_stateful_set,
  patch_stateful_set, delete_stateful_set, list_stateful_sets,
}
use picodata_operator.World.Exec.{
  Run, Exec, pure, raise, give, wrapped, attempt, perform, continue, ◌>>=◌, each,
}
use picodata_operator.Reconciler.Resources.{create_or_patch}

-- The stage that a call belongs to: ConfigMap, Services, StatefulSets, removal, Ingress; a call that
-- belongs to none is beyond the last.
abbrev pub stage : ⦃K : Platform⦄ → Call → ℕ
stage (get_config_map key) = 0
stage (create_config_map d) = 0
stage (patch_config_map old d) = 0
stage (get_service key) = 1
stage (create_service d) = 1
stage (patch_service old d) = 1
stage (get_stateful_set key) = 2
stage (create_stateful_set d) = 2
stage (patch_stateful_set old d) = 2
stage (list_stateful_sets namespace labels) = 3
stage (delete_stateful_set sts) = 3
stage (get_ingress key) = 4
stage (create_ingress d) = 4
stage (patch_ingress old d) = 4
stage _ = 5

module _ ⦃K : Platform⦄ where
  -- The stages of the calls never go down, from one stage up to another.
  abbrev pub Ascending : ℕ → List Call → ℕ → Type 0
  Ascending a [] b = a ≤ b
  Ascending a (c ∷ cs) b = (a ≤ stage c) × Ascending (stage c) cs b

  pub ascend_further :
      (a : ℕ) (cs : List Call) (b d : ℕ) → Ascending a cs b → b ≤ d → Ascending a cs d
  ascend_further a [] b d h le = omega (arith, h)
  ascend_further a (c ∷ cs) b d (h, hs) le = (h, ascend_further (stage c) cs b d hs le)

  pub ascend_earlier :
      (a b : ℕ) (cs : List Call) (d : ℕ) → a ≤ b → Ascending b cs d → Ascending a cs d
  ascend_earlier a b [] d le h = omega (arith, h)
  ascend_earlier a b (c ∷ cs) d le (h, hs) = (omega arith, hs)

  pub ascend-append :
      (a : ℕ) (cs : List Call) (b : ℕ) (ds : List Call) (d : ℕ)
      → Ascending a cs b
      → Ascending b ds d
      → Ascending a (cs ++ ds) d
  ascend-append a [] b ds d h k = ascend_earlier a b ds d h k
  ascend-append a (c ∷ cs) b ds d (h, hs) k = (h, ascend-append (stage c) cs b ds d hs k)

module _ ⦃K : Platform⦄ ⦃E : Env⦄ where
  -- Every run of the action goes up from one stage to another.
  pub record Ordered (a b : ℕ) {A : Type 0} (m : Exec A) : Type 0 where
    pub at : (w : E.W) → Ascending a (m w).calls b

  pub continue-Ascending :
      {A B : Type 0} (a b d : ℕ) (r : Run A) (f : A → Exec B)
      → b ≤ d
      → Ascending a r.calls b
      → ((x : A) → Ordered b d (f x))
      → (o : Outcome A) → Ascending a (continue o r.world r.calls f).calls d
  continue-Ascending a b d r f le h hf (ok x) = ascend-append a r.calls b _ d h ((hf x).at r.world)
  continue-Ascending a b d r f le h hf (err e) = ascend_further a r.calls b d h le
  continue-Ascending a b d r f le h hf panicked = ascend_further a r.calls b d h le

  pub Ordered-bind :
      {A B : Type 0} (a b d : ℕ) (m : Exec A) (f : A → Exec B)
      → b ≤ d
      → Ordered a b m
      → ((x : A) → Ordered b d (f x))
      → Ordered a d (m >>= f)
  unfolding ◌>>=◌
  Ordered-bind a b d m f le hm hf = record {
    at = λ w. continue-Ascending a b d (m w) f le (hm.at w) hf (m w).outcome;
  }

  pub Ordered-later : {A : Type 0} (a b : ℕ) (m : Exec A) → a ≤ b → Ordered b b m → Ordered a b m
  Ordered-later a b m le h = record { at = λ w. ascend_earlier a b (m w).calls b le (h.at w) }

  pub Ordered-silent : {A : Type 0} (a b : ℕ) (o : Outcome A) → a ≤ b → Ordered a b (give o)
  unfolding give
  Ordered-silent a b o le = record { at = λ w. le }

  pub Ordered-pure : {A : Type 0} (a b : ℕ) (x : A) → a ≤ b → Ordered a b (pure x)
  unfolding pure
  Ordered-pure a b x le = record { at = λ w. le }

  pub Ordered-raise : {A : Type 0} (a : ℕ) (e : GoError) → Ordered a a (raise {A = A} e)
  unfolding raise
  Ordered-raise a e = record { at = λ w. omega arith }

  pub Ordered-wrapped :
      {A : Type 0} {a b : ℕ} (text : String) (m : Exec A)
      → Ordered a b m
      → Ordered a b (wrapped text m)
  unfolding wrapped
  Ordered-wrapped text m h = record { at = h.at }

  pub Ordered-perform : (c : Call) (a b : ℕ) → a ≤ stage c → stage c ≤ b → Ordered a b (perform c)
  unfolding perform
  Ordered-perform c a b h k = record { at = λ w. (h, k) }

  pub Ordered-attempt :
      {A : Type 0} {a b : ℕ} (m : Exec A) → Ordered a b m → Ordered a b (attempt m)
  unfolding attempt
  Ordered-attempt m h = record { at = h.at }

  pub Ordered-if :
      {A : Type 0} {a b : ℕ} (t : Bool) {m n : Exec A}
      → Ordered a b m
      → Ordered a b n
      → Ordered a b (if t then m else n)
  Ordered-if true h k = h
  Ordered-if false h k = k

  pub Ordered-each :
      {A : Type 0} (a : ℕ) (f : A → Exec (Unit {0}))
      → ((x : A) → Ordered a a (f x))
      → (xs : List A) → Ordered a a (each f xs)
  unfolding each
  Ordered-each a f h [] = Ordered-pure a a tt (omega arith)
  Ordered-each a f h (x ∷ xs) =
      Ordered-bind a a a (f x) (λ _. each f xs) (omega arith) (h x) (λ _. Ordered-each a f h xs)

  pub create_or_patch-Ordered :
      {A : Type 0} (a : ℕ) (create : Exec (Unit {0})) (patch : A → Exec (Unit {0}))
      → Ordered a a create
      → ((x : A) → Ordered a a (patch x))
      → (r : A ⊎ GoError) → Ordered a a (create_or_patch create patch r)
  unfolding create_or_patch
  create_or_patch-Ordered a create patch hc hp (inl x) = hp x
  create_or_patch-Ordered a create patch hc hp (inr e) =
      Ordered-if (is_not_found e) hc (Ordered-raise a e)

  pub at_stage : (c : Call) → Ordered (stage c) (stage c) (perform c)
  at_stage c = Ordered-perform c (stage c) (stage c) (omega arith) (omega arith)
