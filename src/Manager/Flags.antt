-- ===== src/Manager/Flags.antt =====
-- cmd/main.go: the flags of the manager.
use picodata_operator.Base.{String, Bool, true, false}

-- What the package `flag` stores for a registered flag, from its name and its default.
pub record Arguments : Type 0 where
  pub text : String → String → String
  pub switch : String → Bool → Bool

-- The variables of `main` that flags are bound to.
pub record Flags : Type 0 where
  pub metrics_addr : String
  pub probe_addr : String
  pub enable_leader_election : Bool
  pub secure_metrics : Bool
  pub webhook_cert_path : String
  pub webhook_cert_name : String
  pub webhook_cert_key : String
  pub metrics_cert_path : String
  pub metrics_cert_name : String
  pub metrics_cert_key : String
  pub enable_http2 : Bool

unfoldable pub parse_flags : Arguments → Flags
parse_flags args = record {
  metrics_addr = args.text "metrics-bind-address" "0";
  probe_addr = args.text "health-probe-bind-address" ":8081";
  enable_leader_election = args.switch "leader-elect" false;
  secure_metrics = args.switch "metrics-secure" true;
  webhook_cert_path = args.text "webhook-cert-path" "";
  webhook_cert_name = args.text "webhook-cert-name" "tls.crt";
  webhook_cert_key = args.text "webhook-cert-key" "tls.key";
  metrics_cert_path = args.text "metrics-cert-path" "";
  metrics_cert_name = args.text "metrics-cert-name" "tls.crt";
  metrics_cert_key = args.text "metrics-cert-key" "tls.key";
  enable_http2 = args.switch "enable-http2" false;
}
