-- ===== src/Plugins/Session.antt =====
-- The connection of a tier's plugins: opened once, closed last.
use mathlib.Core.Path.{subst₂}
use picodata_operator.Base.{
  String, ◌<>◌, ◌≡◌, refl, sym, ◌∙◌, ap, Bool, true, false, Option, none, some, List, [], ◌∷◌, ◌++◌,
  ◌⊎◌, inl, inr, All, is_empty, if◌then◌else◌,
}
use picodata_operator.Base.Maps.{lookup}
use picodata_operator.Kube.Platform.{Platform}
use picodata_operator.Api.{PicoclusterDb}
use picodata_operator.Api.Spec.{TierSpec}
use picodata_operator.Api.Status.{PluginStatus}
use picodata_operator.World.Errors.{Outcome, ok, err, panicked}
use picodata_operator.World.Calls.{Call, Env, get_secret, connect, close}
use picodata_operator.World.Exec.{Exec, pure, raise, wrapped, wrap_outcome, perform, finally, ◌>>=◌}
use picodata_operator.World.Follows.{IsOk, Answers}
use picodata_operator.World.Guarded.{Returns}
use picodata_operator.World.Cases.{bind_cases}
use picodata_operator.Plugins.Secrets.{get_admin_password, found_or_missing}
use picodata_operator.Plugins.Safety.{OnConnection, with_connection-Guarded}
use picodata_operator.Plugins.{
  conn_str, svc_host, with_connection, connect_and_reconcile, reconcile_tier_plugins,
}

module _ ⦃K : Platform⦄ ⦃E : Env⦄ where
  unwrap :
      {A : Type 0} (text : String) (o : Outcome A) {a : A} → wrap_outcome text o ≡ ok a → o ≡ ok a
  unwrap text (ok b) e = e
  unwrap text (err x) e = cc
  unwrap text panicked e = cc

  silent : (k s : String) (o : Option String) (v : E.W) → (found_or_missing k s o v).calls ≡ []
  unfolding found_or_missing raise pure
  silent k s none v = refl
  silent k s (some p) v = refl

module _ ⦃K : Platform⦄ ⦃E : Env⦄ (cluster : PicoclusterDb) (tier : TierSpec) where
  abbrev ask_secret : Call
  ask_secret = get_secret (record {
    name = cluster.spec.admin_password.secret_name;
    namespace = cluster.meta.namespace;
  })

  -- The password is asked for with one call, whatever comes of it.
  get_admin_password-calls : (w : E.W) → (get_admin_password cluster w).calls ≡ ask_secret ∷ []
  unfolding get_admin_password perform
  get_admin_password-calls w = elim (bind_cases (perform ask_secret) _ w) [
    | inl on ↦
        on.calls
        ∙ ap (λ l. ask_secret ∷ l)
            (silent _ _ (lookup cluster.spec.admin_password.key on.value.contents) _)
    | inr stopped ↦ stopped.calls
  ]

  -- What a round of the plugins does with its connection.
  --   none is opened: the tier has no plugins and nothing is called, or the password or the connection
  --   is refused and the round does not end well;
  --   one is opened, with the admin password: everything behind is on this connection, and the last
  --   call closes it.
  abbrev pub IsSession : List Call → Outcome (List PluginStatus) → Type 0
  IsSession cs o =
      ((is_empty tier.plugins ≡ true) × (cs ≡ []))
      ⊎ (¬ IsOk o × (cs ≡ ask_secret ∷ []))
      ⊎ ((password : String) × (conn : K.Conn) × (inside : List Call) × Answers
            (get_admin_password cluster) password
          × Answers (perform (connect (conn_str cluster tier password))) conn
          × (cs
              ≡ ask_secret ∷ connect (conn_str cluster tier password) ∷ (inside ++ close conn ∷ []))
          × All (OnConnection conn) inside)
      ⊎ ((password : String) × Answers (get_admin_password cluster) password
          × ¬ IsOk o
          × (cs ≡ ask_secret ∷ connect (conn_str cluster tier password) ∷ []))

  module _ (calm : (c : Call) (w : E.W) → Returns (E.respond c w).0) where
    -- On a connection: all is on it, and it is closed at the end.
    on_connection :
        (conn : K.Conn) (w : E.W)
        → (inside : List Call) × ((finally
              (with_connection conn tier)
              (perform (close conn))
              w).calls
            ≡ inside ++ close conn ∷ [])
          × All (OnConnection conn) inside
    unfolding finally perform
    on_connection conn w = (
      (with_connection conn tier w).calls,
      refl,
      ((with_connection-Guarded (OnConnection conn) calm conn (λ c h. h) tier).at w).0,
    )

    -- What is done with a password.
    abbrev with_secret : String → Exec (List PluginStatus)
    with_secret password =
        wrapped ("connect to " <> svc_host cluster tier)
          (perform (connect (conn_str cluster tier password)))
        >>= λ conn. finally (with_connection conn tier) (perform (close conn))

    -- With a password: the connection is refused, or all is done on it.
    with_password :
        (password : String) (w : E.W)
        → Answers (get_admin_password cluster) password
        → IsSession (ask_secret ∷ (with_secret password w).calls) (with_secret password w).outcome
    unfolding wrapped perform
    with_password password w told = elim (bind_cases _ _ w) [
      | inl on ↦
          let conn = on.value in
          let (inside, e, h) = on_connection conn _ in
          inr (
            inr (
              inl (
                password,
                conn,
                inside,
                told,
                (w, unwrap _ _ on.first),
                ap (λ l. ask_secret ∷ l)
                    (on.calls ∙ ap (λ l. connect (conn_str cluster tier password) ∷ l) e),
                h,
              )))
      | inr stopped ↦
          inr (inr (inr (password, told, stopped.outcome, ap (λ l. ask_secret ∷ l) stopped.calls)))
    ]

    connected :
        (w : E.W)
        → IsSession
            (connect_and_reconcile cluster tier w).calls
            (connect_and_reconcile cluster tier w).outcome
    unfolding connect_and_reconcile wrapped
    connected w =
        elim (bind_cases (wrapped "get admin password" (get_admin_password cluster)) _ w) [
          | inl on ↦
              subst₂ IsSession
                (sym (
                  on.calls
                  ∙ ap (λ l. l ++ (with_secret on.value (get_admin_password cluster w).world).calls)
                      (get_admin_password-calls w)))
                (sym on.outcome) (with_password on.value _ (w, unwrap _ _ on.first))
          | inr stopped ↦ inr (inl (stopped.outcome, stopped.calls ∙ get_admin_password-calls w))
        ]

    -- In a world whose calls never panic, `reconcileTierPlugins` makes no call for a tier without
    -- plugins; or it is refused the password or the connection, and does not end well; or it opens one
    -- connection, with the admin password, and everything it does behind is a statement or a query on
    -- that connection, but for the last call, which closes it, whether it ends well or not.
    pub reconcile_tier_plugins-IsSession :
        (w : E.W)
        → IsSession
            (reconcile_tier_plugins cluster tier w).calls
            (reconcile_tier_plugins cluster tier w).outcome
    unfolding reconcile_tier_plugins pure
    reconcile_tier_plugins-IsSession w = either (is_empty tier.plugins) refl
      where
        either :
            (b : Bool)
            → is_empty tier.plugins ≡ b
            → let m : Exec (List PluginStatus) =
                if b then pure [] else connect_and_reconcile cluster tier in
              IsSession (m w).calls (m w).outcome
        either true e = inl (e, refl)
        either false e = connected w
