-- ===== src/Manager/Process.antt =====
-- The process of the manager: the calls of the framework that `main` makes, what each is answered
-- with, and how the process ends.
use picodata_operator.Base.{ℕ, String, Option, none, some, List, [], ◌∷◌, ◌++◌}
use picodata_operator.World.Errors.{GoError}
use picodata_operator.Reconciler.Setup.{Controller}
use picodata_operator.Manager.Servers.{Libraries, ManagerOptions}

-- `schema.GroupVersion`
pub record GroupVersion : Type 0 where
  pub group : String
  pub version : String

-- The one scheme and the one manager are of the state that the calls change.
pub data Step ⦃L : Libraries⦄ : Type 0 where
  -- `clientgoscheme.AddToScheme`, and `AddToScheme` of a builder with its registered types
  add_client_go : Step
  add_to_scheme : GroupVersion → List String → Step
  get_config : Step
  new_manager : ManagerOptions → Step
  set_up : Controller → Step
  add_healthz_check : String → Step
  add_readyz_check : String → Step
  start : Step

-- The process runs on, has left with a code, or has panicked.
pub data Ending : Type 0 where
  running panicking : Ending
  exited : ℕ → Ending

-- Each step ends in Go's `error`, which is nil where all is well.
pub record Host ⦃L : Libraries⦄ : Type 1 where
  pub W : Type 0
  pub respond : Step → W → Option GoError × W

module _ ⦃L : Libraries⦄ ⦃H : Host⦄ where
  pub record BootRun : Type 0 where
    pub ending : Ending
    pub world : H.W
    -- what was called, and the errors of it
    pub trace : List (Step × Option GoError)
    -- the texts of `setupLog.Error`
    pub logged : List String

  abbrev pub Boot : Type 0
  Boot = H.W → BootRun

  -- What `utilruntime.Must` makes of an error.
  abbrev pub must : Option GoError → Ending × List String
  must none = (running, [])
  must (some e) = (panicking, [])

  -- `ctrl.GetConfigOrDie`, which leaves by itself.
  abbrev pub or_die : Option GoError → Ending × List String
  or_die none = (running, [])
  or_die (some e) = (exited 1, [])

  -- `if err != nil { setupLog.Error(err, text); os.Exit(1) }`
  abbrev pub or_exit : String → Option GoError → Ending × List String
  or_exit text none = (running, [])
  or_exit text (some e) = (exited 1, text ∷ [])

  unfoldable pub try : Step → (Option GoError → Ending × List String) → Boot
  try step handle w =
      let (e, w') = H.respond step w in
      record { ending = (handle e).0; world = w'; trace = (step, e) ∷ []; logged = (handle e).1 }

  -- What follows a part of `main` that has ended so.
  abbrev pub resume : Ending → BootRun → Boot → BootRun
  resume running r next =
      let s = next r.world in record s { trace = r.trace ++ s.trace; logged = r.logged ++ s.logged }
  resume panicking r next = r
  resume (exited code) r next = r

  infixr 10 ◌>>◌
  unfoldable pub ◌>>◌ : Boot → Boot → Boot
  (m >> next) w = let r = m w in resume r.ending r next
