-- ===== src/Manager/Servers.antt =====
-- cmd/main.go: the options of the webhook server, of the metrics server and of the manager.
use picodata_operator.Base.{
  String, ◌==◌, Bool, not, Option, none, some, List, [], ◌∷◌, if◌then◌else◌,
}
use picodata_operator.Manager.Flags.{Flags}

-- The libraries that `main` hands values to: `tls.Config` beside `NextProtos`, and the type of
-- `filters.WithAuthenticationAndAuthorization`.
pub record Libraries : Type 1 where
  pub TlsFields : Type 0
  pub Filter : Type 0
  pub with_authentication_and_authorization : Filter

module _ ⦃L : Libraries⦄ where
  -- `tls.Config`
  pub record TlsConfig : Type 0 where
    pub next_protos : List String
    pub rest : L.TlsFields

  abbrev pub TlsOpts : Type 0
  TlsOpts = List (TlsConfig → TlsConfig)

  unfoldable pub disable_http2 : TlsConfig → TlsConfig
  disable_http2 c = record c { next_protos = "http/1.1" ∷ [] }

  unfoldable pub tls_opts : Flags → TlsOpts
  tls_opts flags = if not flags.enable_http2 then disable_http2 ∷ [] else []

  -- `webhook.Options`
  pub record WebhookOptions : Type 0 where
    pub tls_opts : TlsOpts
    pub cert_dir : String
    pub cert_name : String
    pub key_name : String

  unfoldable pub webhook_server_options : Flags → WebhookOptions
  webhook_server_options flags =
      let options : WebhookOptions = record {
        tls_opts = tls_opts flags;
        cert_dir = "";
        cert_name = "";
        key_name = "";
      } in
      if not (flags.webhook_cert_path == "")
      then record options {
        cert_dir = flags.webhook_cert_path;
        cert_name = flags.webhook_cert_name;
        key_name = flags.webhook_cert_key;
      }
      else options

  -- `metricsserver.Options`
  pub record MetricsOptions : Type 0 where
    pub bind_address : String
    pub secure_serving : Bool
    pub tls_opts : TlsOpts
    pub filter_provider : Option L.Filter
    pub cert_dir : String
    pub cert_name : String
    pub key_name : String

  -- With the filter, where the endpoint is secure.
  unfoldable pub filtered : Flags → MetricsOptions → MetricsOptions
  filtered flags options =
      if flags.secure_metrics
      then record options { filter_provider = some L.with_authentication_and_authorization }
      else options

  -- With the certificate, where one is given.
  unfoldable pub certified : Flags → MetricsOptions → MetricsOptions
  certified flags options =
      if not (flags.metrics_cert_path == "")
      then record options {
        cert_dir = flags.metrics_cert_path;
        cert_name = flags.metrics_cert_name;
        key_name = flags.metrics_cert_key;
      }
      else options

  unfoldable pub metrics_server_options : Flags → MetricsOptions
  metrics_server_options flags = certified flags (
      filtered flags (record {
        bind_address = flags.metrics_addr;
        secure_serving = flags.secure_metrics;
        tls_opts = tls_opts flags;
        filter_provider = none;
        cert_dir = "";
        cert_name = "";
        key_name = "";
      }))

  -- `ctrl.Options`. The webhook server stands for the options that it is made of.
  pub record ManagerOptions : Type 0 where
    pub metrics : MetricsOptions
    pub webhook_server : WebhookOptions
    pub health_probe_bind_address : String
    pub leader_election : Bool
    pub leader_election_id : String

  unfoldable pub manager_options : Flags → ManagerOptions
  manager_options flags = record {
    metrics = metrics_server_options flags;
    webhook_server = webhook_server_options flags;
    health_probe_bind_address = flags.probe_addr;
    leader_election = flags.enable_leader_election;
    leader_election_id = "ff578ea0.picodata.io";
  }
