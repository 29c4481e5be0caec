-- ===== src/Manager/Protection.antt =====
-- How the servers of the manager are protected.
use picodata_operator.Base.{String, ◌==◌, ◌≡◌, none, some, List, [], ◌∷◌, if◌then◌else◌, arith}
use picodata_operator.Manager.Flags.{Flags}
use picodata_operator.Manager.Servers.{
  Libraries, TlsConfig, TlsOpts, tls_opts, disable_http2, webhook_server_options, filtered,
  certified, metrics_server_options, ManagerOptions, manager_options,
}

module _ ⦃L : Libraries⦄ where
  -- A server applies its options one after another.
  abbrev pub applied : TlsOpts → TlsConfig → TlsConfig
  applied [] c = c
  applied (f ∷ fs) c = applied fs (f c)

  -- The configuration that a server ends with: HTTP/1.1 alone, unless HTTP/2 is enabled.
  abbrev pub negotiated : Flags → TlsConfig → TlsConfig
  negotiated flags c = record c {
    next_protos = (if flags.enable_http2 then c.next_protos else "http/1.1" ∷ []);
  }

  -- The directory, the certificate and the key: of the flags where a directory is given.
  abbrev pub files : String → String → String → List String
  files path name key = if path == "" then "" ∷ "" ∷ "" ∷ [] else path ∷ name ∷ key ∷ []

  -- The options protect both servers.
  abbrev pub IsProtected : Flags → ManagerOptions → TlsConfig → Type 0
  IsProtected flags options c =
      let webhook = options.webhook_server in
      let metrics = options.metrics in
      (applied webhook.tls_opts c ≡ negotiated flags c)
      × (applied metrics.tls_opts c ≡ negotiated flags c)
      × (metrics.filter_provider
          ≡ (if metrics.secure_serving then some L.with_authentication_and_authorization else none))
      × (metrics.secure_serving ≡ flags.secure_metrics)
      × (webhook.cert_dir ∷ webhook.cert_name ∷ webhook.key_name ∷ []
          ≡ files flags.webhook_cert_path flags.webhook_cert_name flags.webhook_cert_key)
      × (metrics.cert_dir ∷ metrics.cert_name ∷ metrics.key_name ∷ []
          ≡ files flags.metrics_cert_path flags.metrics_cert_name flags.metrics_cert_key)

  -- For every configuration of TLS that a server starts from, the options of the webhook server and
  -- of the metrics server leave HTTP/1.1 alone unless HTTP/2 is enabled, and change nothing else;
  -- the metrics are served over HTTPS exactly if the flag says so, and exactly then with the filter
  -- for authentication and authorization; and each server has the certificate, the key and their
  -- directory from its own flags, or none of them where the flag for the directory is empty.
  pub manager_options-IsProtected :
      (flags : Flags) (c : TlsConfig) → IsProtected flags (manager_options flags) c
  unfolding manager_options webhook_server_options metrics_server_options filtered certified
      tls_opts disable_http2
  manager_options-IsProtected flags c =
      (ground arith, ground arith, ground arith, ground arith, ground arith, ground arith)
