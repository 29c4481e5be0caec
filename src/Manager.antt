-- ===== src/Manager.antt =====
-- cmd/main.go: the process that runs the controller, and the scheme that it registers
-- (api/v1/groupversion_info.go).
pub mod Flags
pub mod Servers
pub mod Process
pub mod Protection
pub mod Startup
use picodata_operator.Base.{[], ◌∷◌}
use picodata_operator.Reconciler.Setup.{setup_with_manager}
use picodata_operator.Manager.Flags.{Arguments, parse_flags}
use picodata_operator.Manager.Servers.{Libraries, manager_options}
use picodata_operator.Manager.Process.{
  Host, Boot, GroupVersion, add_client_go, add_to_scheme, get_config, new_manager, set_up,
  add_healthz_check, add_readyz_check, start, must, or_die, or_exit, try, ◌>>◌,
}

abbrev pub group_version : GroupVersion
group_version = record { group = "picodata.picodata.io"; version = "v1" }

module _ ⦃L : Libraries⦄ ⦃H : Host⦄ where
  -- `init`
  unfoldable pub init_scheme : Boot
  init_scheme =
      try add_client_go must
      >> try (add_to_scheme group_version ("PicoclusterDB" ∷ "PicoclusterDBList" ∷ [])) must

  unfoldable pub main : Arguments → Boot
  main args =
      try get_config or_die
      >> (try (new_manager (manager_options (parse_flags args))) (or_exit "Failed to start manager")
          >> (try (set_up setup_with_manager) (or_exit "Failed to create controller")
              >> (try (add_healthz_check "healthz") (or_exit "Failed to set up health check")
                  >> (try (add_readyz_check "readyz") (or_exit "Failed to set up ready check")
                      >> try start (or_exit "Failed to run manager")))))

  -- The process: the initialisation of the package, then `main`.
  unfoldable pub process : Arguments → Boot
  unfolding init_scheme main
  process args = init_scheme >> main args
