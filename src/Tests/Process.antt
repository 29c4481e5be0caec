-- ===== src/Tests/Process.antt =====
-- The start of the manager on a small host, and the theorems about it at work.
use picodata_operator.Base.{
  ℕ, zero, suc, String, ◌==◌, ◌≡◌, refl, true, false, Option, none, some, [], ◌∷◌,
}
use picodata_operator.World.Errors.{GoError, failed}
use picodata_operator.Manager.Flags.{Arguments, parse_flags}
use picodata_operator.Manager.Servers.{Libraries, TlsConfig, manager_options}
use picodata_operator.Manager.Process.{Step, running, exited, Host, try, ◌>>◌}
use picodata_operator.Manager.Protection.{IsProtected, manager_options-IsProtected}
use picodata_operator.Manager.Startup.{Implements, stages, process-Staged}
use picodata_operator.Manager.{init_scheme, main, process}

instance abbrev sample_libraries : Libraries
sample_libraries = record {
  TlsFields = String;
  Filter = String;
  with_authentication_and_authorization = "auth";
}

-- The host takes so many steps well; the next one fails.
abbrev respond : Step → ℕ → Option GoError × ℕ
respond step zero = (some (failed "no route to host"), 0)
respond step (suc n) = (none, n)

instance abbrev sample_host : Host
sample_host = record { W = ℕ; respond = respond }

-- A command line with nothing but the directory of the metrics' certificate.
abbrev sample_arguments : Arguments
sample_arguments = record {
  text = λ name default. elim (name == "metrics-cert-path") [ true ↦ "/certs" | false ↦ default ];
  switch = λ name default. default;
}

abbrev plain_tls : TlsConfig
plain_tls = record { next_protos = "h2" ∷ "http/1.1" ∷ []; rest = "" }

manager_options-IsProtected_example :
    IsProtected
      (parse_flags sample_arguments)
      (manager_options (parse_flags sample_arguments))
      plain_tls
manager_options-IsProtected_example =
    manager_options-IsProtected (parse_flags sample_arguments) plain_tls

process-Staged_example : Implements (process sample_arguments) (stages sample_arguments)
process-Staged_example = process-Staged sample_arguments

ends_well :
    ((process sample_arguments 8).ending ≡ running) × ((process sample_arguments 8).logged ≡ [])
unfolding process init_scheme main try ◌>>◌
ends_well = (refl, refl)

-- The fifth step is the set-up of the controller.
fails_to_set_up :
    ((process sample_arguments 4).ending ≡ exited 1)
    × ((process sample_arguments 4).logged ≡ "Failed to create controller" ∷ [])
unfolding process init_scheme main try ◌>>◌
fails_to_set_up = (refl, refl)
