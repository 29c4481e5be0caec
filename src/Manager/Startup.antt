-- ===== src/Manager/Startup.antt =====
-- The start of the manager: the order of its steps, and what comes of an error.
use picodata_operator.Base.{
  String, ◌≡◌, refl, sym, append_assoc, Option, none, some, List, [], ◌∷◌, ◌++◌,
}
use mathlib.Core.Path.{subst, ap₂}
use picodata_operator.World.Errors.{GoError}
use picodata_operator.Reconciler.Setup.{setup_with_manager}
use picodata_operator.Manager.Flags.{Arguments, parse_flags}
use picodata_operator.Manager.Servers.{Libraries, manager_options}
use picodata_operator.Manager.Process.{
  Step, Ending, running, panicking, exited, Host, Boot, BootRun, add_client_go, add_to_scheme,
  get_config, new_manager, set_up, add_healthz_check, add_readyz_check, start, must, or_die,
  or_exit, try, resume, ◌>>◌,
}
use picodata_operator.Manager.{group_version, init_scheme, main, process}

-- A step, and how the process ends and what it logs where the step fails.
abbrev Stage : ⦃L : Libraries⦄ → Type 0
Stage = Step × Ending × List String

-- The stages in their order.
abbrev pub stages : ⦃L : Libraries⦄ → Arguments → List Stage
stages args =
    (add_client_go, panicking, [])
    ∷ (add_to_scheme group_version ("PicoclusterDB" ∷ "PicoclusterDBList" ∷ []), panicking, [])
    ∷ (get_config, exited 1, [])
    ∷ (new_manager (manager_options (parse_flags args)), exited 1, "Failed to start manager" ∷ [])
    ∷ (set_up setup_with_manager, exited 1, "Failed to create controller" ∷ [])
    ∷ (add_healthz_check "healthz", exited 1, "Failed to set up health check" ∷ [])
    ∷ (add_readyz_check "readyz", exited 1, "Failed to set up ready check" ∷ [])
    ∷ (start, exited 1, "Failed to run manager" ∷ [])
    ∷ []

module _ ⦃L : Libraries⦄ where
  -- A run of stages: all are passed and the process comes to its end, or the first that fails is
  -- the last that is called, and settles the ending and the log.
  pub data Staged : List Stage → List (Step × Option GoError) → Ending → List String → Type 0 where
    finished : Staged [] [] running []
    passed :
        {step : Step} {fate : Ending} {log : List String} {later : List Stage}
        {trace : List (Step × Option GoError)} {ending : Ending} {logged : List String}
        → Staged later trace ending logged
        → Staged ((step, fate, log) ∷ later) ((step, none) ∷ trace) ending logged
    failed_at :
        {step : Step} {fate : Ending} {log : List String} {later : List Stage} (e : GoError)
        → Staged ((step, fate, log) ∷ later) ((step, some e) ∷ []) fate log

module _ ⦃L : Libraries⦄ ⦃H : Host⦄ where
  -- Every run of a part of `main` is a run of its stages.
  abbrev pub Implements : Boot → List Stage → Type 0
  Implements m plan = (w : H.W) → Staged plan (m w).trace (m w).ending (m w).logged

  -- The errors that end a part do so as the stage has it.
  abbrev Handles : (Option GoError → Ending × List String) → Ending → List String → Type 0
  Handles handle fate log =
      (handle none ≡ (running, [])) × ((e : GoError) → handle (some e) ≡ (fate, log))

  abbrev Stops : Ending → Type 0
  Stops running = ⊥
  Stops panicking = Unit
  Stops (exited code) = Unit

  Implements-stage :
      (step : Step) (handle : Option GoError → Ending × List String) (fate : Ending)
      (log : List String) (next : Boot) (later : List Stage)
      → Handles handle fate log
      → Stops fate
      → Implements next later
      → Implements (try step handle >> next) ((step, fate, log) ∷ later)
  unfolding try ◌>>◌
  Implements-stage step handle fate log next later h stops hn w =
      from (H.respond step w).0 (H.respond step w).1
    where
      halted :
          (end : Ending) (l : List String) (e : GoError) (v : H.W)
          → Stops end
          → let r : BootRun = record {
            ending = end;
            world = v;
            trace = (step, some e) ∷ [];
            logged = l;
          } in
            Staged
              ((step, end, l) ∷ later)
              (resume end r next).trace
              (resume end r next).ending
              (resume end r next).logged
      halted running l e v s = absurd s
      halted panicking l e v s = failed_at e
      halted (exited code) l e v s = failed_at e

      from :
          (e : Option GoError) (v : H.W)
          → let r : BootRun = record {
            ending = (handle e).0;
            world = v;
            trace = (step, e) ∷ [];
            logged = (handle e).1;
          } in
            Staged
              ((step, fate, log) ∷ later)
              (resume r.ending r next).trace
              (resume r.ending r next).ending
              (resume r.ending r next).logged
      from none v = rw h.0 (passed (hn v))
      from (some e) v = rw (h.1 e) (halted fate log e v stops)

  Implements-last :
      (step : Step) (handle : Option GoError → Ending × List String) (fate : Ending)
      (log : List String)
      → Handles handle fate log
      → Implements (try step handle) ((step, fate, log) ∷ [])
  unfolding try
  Implements-last step handle fate log h w = from (H.respond step w).0
    where
      from :
          (e : Option GoError)
          → Staged ((step, fate, log) ∷ []) ((step, e) ∷ []) (handle e).0 (handle e).1
      from none = rw h.0 (passed finished)
      from (some e) = rw (h.1 e) (failed_at e)

  then_assoc : (m n k : Boot) (w : H.W) → ((m >> n) >> k) w ≡ (m >> (n >> k)) w
  unfolding ◌>>◌
  then_assoc m n k w = from (m w).ending
    where
      inner :
          (trace : List (Step × Option GoError)) (logged : List String) (s : BootRun) (end : Ending)
          → let t : BootRun = record {
            ending = end;
            world = s.world;
            trace = trace ++ s.trace;
            logged = logged ++ s.logged;
          } in
            let u = resume end (record s { ending = end }) k in
            resume end t k ≡ record u { trace = trace ++ u.trace; logged = logged ++ u.logged }
      inner trace logged s running =
          ap₂ (λ tr l. record (k s.world) { trace = tr; logged = l })
            (append_assoc trace s.trace (k s.world).trace)
            (append_assoc logged s.logged (k s.world).logged)
      inner trace logged s panicking = refl
      inner trace logged s (exited code) = refl

      from :
          (end : Ending)
          → resume
              (resume end (record (m w) { ending = end }) n).ending
              (resume end (record (m w) { ending = end }) n)
              k
            ≡ resume end (record (m w) { ending = end }) (λ v. resume (n v).ending (n v) k)
      from running = inner (m w).trace (m w).logged (n (m w).world) (n (m w).world).ending
      from panicking = refl
      from (exited code) = refl

  -- Whatever the framework answers, the process takes the stages in their order and stops at the
  -- first that fails: a failure of the scheme panics, each other one ends the process with code 1,
  -- with the text of that stage in the log, and after the last stage the process comes to its end
  -- with nothing logged as an error.
  pub process-Staged : (args : Arguments) → Implements (process args) (stages args)
  unfolding process init_scheme main
  process-Staged args w =
      subst (λ r. Staged (stages args) r.trace r.ending r.logged)
        (sym (then_assoc (try add_client_go must) _ (main args) w))
        (Implements-stage _ must panicking [] _ _ (refl, λ e. refl) tt
          (Implements-stage _ must panicking [] _ _ (refl, λ e. refl) tt
            (Implements-stage _ or_die (exited 1) [] _ _ (refl, λ e. refl) tt
              (Implements-stage _ (or_exit _) (exited 1) _ _ _ (refl, λ e. refl) tt
                (Implements-stage _ (or_exit _) (exited 1) _ _ _ (refl, λ e. refl) tt
                  (Implements-stage _ (or_exit _) (exited 1) _ _ _ (refl, λ e. refl) tt
                    (Implements-stage _ (or_exit _) (exited 1) _ _ _ (refl, λ e. refl) tt
                      (Implements-last _ (or_exit _) (exited 1) _ (refl, λ e. refl))))))))
          w)
