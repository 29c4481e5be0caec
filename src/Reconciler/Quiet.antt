-- ===== src/Reconciler/Quiet.antt =====
-- Actions that do not write the status, or write it last.
use mathlib.Core.Path.{subst}
use picodata_operator.Base.{
  ℕ, ◌≤◌, arith, sym, ◌∙◌, append-nil, List, [], ◌∷◌, ◌++◌, inl, inr, All, All-append,
}
use picodata_operator.Kube.Platform.{Platform}
use picodata_operator.World.Calls.{
  Call, Env, patch_status, exec, query_plugin_enabled, query_plugins, query_services,
}
use picodata_operator.World.Exec.{Exec, pure, attempt, perform, ◌>>=◌}
use picodata_operator.World.Cases.{bind_cases}
use picodata_operator.Plugins.Safety.{OnConnection}
use picodata_operator.Reconciler.Stages.{stage, Ascending}

module _ ⦃K : Platform⦄ where
  abbrev pub NoWrite : Call → Type 0
  NoWrite (patch_status old new) = ⊥
  NoWrite _ = Unit

  -- No call that is followed by another one writes the status.
  abbrev pub WritesLast : List Call → Type 0
  WritesLast [] = Unit
  WritesLast (c ∷ []) = Unit
  WritesLast (c ∷ d ∷ cs) = NoWrite c × WritesLast (d ∷ cs)

  pub WritesLast-append :
      (cs ds : List Call) → All NoWrite cs → WritesLast ds → WritesLast (cs ++ ds)
  WritesLast-append [] ds h k = k
  WritesLast-append (c ∷ []) [] h k = tt
  WritesLast-append (c ∷ []) (d ∷ ds) (h, hs) k = (h, k)
  WritesLast-append (c ∷ b ∷ cs) ds (h, hs) k = (h, WritesLast-append (b ∷ cs) ds hs k)

  pub WritesLast-quiet : (cs : List Call) → All NoWrite cs → WritesLast cs
  WritesLast-quiet [] h = tt
  WritesLast-quiet (c ∷ []) h = tt
  WritesLast-quiet (c ∷ d ∷ cs) (h, hs) = (h, WritesLast-quiet (d ∷ cs) hs)

  stage-NoWrite : (c : Call) → stage c ≤ 4 → NoWrite c
  stage-NoWrite (patch_status old new) h = omega (arith, h)
  stage-NoWrite _ h = tt

  Ascending-le : (a : ℕ) (cs : List Call) (b : ℕ) → Ascending a cs b → a ≤ b
  Ascending-le a [] b h = h
  Ascending-le a (c ∷ cs) b (h, hs) = omega (arith, h, Ascending-le (stage c) cs b hs)

  pub Ascending-quiet : (a : ℕ) (cs : List Call) → Ascending a cs 4 → All NoWrite cs
  Ascending-quiet a [] h = tt
  Ascending-quiet a (c ∷ cs) (h, hs) =
      (stage-NoWrite c (Ascending-le (stage c) cs 4 hs), Ascending-quiet (stage c) cs hs)

  OnConnection-quiet : (conn : K.Conn) (c : Call) → OnConnection conn c → NoWrite c
  OnConnection-quiet conn (exec c sql) h = tt
  OnConnection-quiet conn (query_plugin_enabled c sql) h = tt
  OnConnection-quiet conn (query_plugins c sql) h = tt
  OnConnection-quiet conn (query_services c sql) h = tt
  OnConnection-quiet conn _ h = absurd h

  pub all_quiet : (conn : K.Conn) (cs : List Call) → All (OnConnection conn) cs → All NoWrite cs
  all_quiet conn [] h = tt
  all_quiet conn (c ∷ cs) (h, hs) = (OnConnection-quiet conn c h, all_quiet conn cs hs)

module _ ⦃K : Platform⦄ ⦃E : Env⦄ where
  -- No call of the action writes the status.
  pub record Quiet {A : Type 0} (m : Exec A) : Type 0 where
    pub at : (w : E.W) → All NoWrite (m w).calls

  pub record Lasting {A : Type 0} (m : Exec A) : Type 0 where
    pub at : (w : E.W) → WritesLast (m w).calls

  pub Lasting-bind :
      {A B : Type 0} (m : Exec A) (f : A → Exec B)
      → Quiet m
      → ((a : A) → Lasting (f a))
      → Lasting (m >>= f)
  Lasting-bind m f hm hf = record {
    at = λ w. elim (bind_cases m f w) [
      | inl on ↦
          subst WritesLast (sym on.calls)
            (WritesLast-append _ _ (hm.at w) ((hf on.value).at (m w).world))
      | inr stopped ↦ subst WritesLast (sym stopped.calls) (WritesLast-quiet _ (hm.at w))
    ];
  }

  pub Quiet-attempt : {A : Type 0} (m : Exec A) → Quiet m → Quiet (attempt m)
  unfolding attempt
  Quiet-attempt m h = record { at = λ w. h.at w }

  pub Quiet-bind :
      {A B : Type 0} (m : Exec A) (f : A → Exec B)
      → Quiet m
      → ((a : A) → Quiet (f a))
      → Quiet (m >>= f)
  Quiet-bind m f hm hf = record {
    at = λ w. elim (bind_cases m f w) [
      | inl on ↦
          subst (All NoWrite) (sym on.calls)
            (All-append NoWrite _ _ (hm.at w) ((hf on.value).at (m w).world))
      | inr stopped ↦ subst (All NoWrite) (sym stopped.calls) (hm.at w)
    ];
  }

  pub Quiet-pure : {A : Type 0} (a : A) → Quiet (pure a)
  unfolding pure
  Quiet-pure a = record { at = λ w. tt }

  pub Quiet-perform : (c : Call) → NoWrite c → Quiet (perform c)
  unfolding perform
  Quiet-perform c h = record { at = λ w. (h, tt) }

  pub Lasting-attempt : {A : Type 0} (m : Exec A) → Lasting m → Lasting (attempt m)
  unfolding attempt
  Lasting-attempt m h = record { at = λ w. h.at w }

  pub Lasting-Quiet : {A : Type 0} (m : Exec A) → Quiet m → Lasting m
  Lasting-Quiet m h = record { at = λ w. WritesLast-quiet _ (h.at w) }

  pub Lasting-then_pure :
      {A B : Type 0} (m : Exec A) (b : B) → Lasting m → Lasting (m >>= λ _. pure b)
  unfolding pure
  Lasting-then_pure m b h = record {
    at = λ w. elim (bind_cases m (λ _. pure b) w) [
      | inl on ↦ subst WritesLast (sym (on.calls ∙ append-nil (m w).calls)) (h.at w)
      | inr stopped ↦ subst WritesLast (sym stopped.calls) (h.at w)
    ];
  }
