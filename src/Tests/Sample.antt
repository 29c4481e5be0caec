-- ===== src/Tests/Sample.antt =====
-- A cluster with two tiers, and a world that has one StatefulSet at most.
use picodata_operator.Base.{
  ℕ, String, ◌==◌, ◌<>◌, true, false, Option, none, some, List, [], ◌∷◌, ◌⊎◌, inl, leb,
  if◌then◌else◌,
}
use picodata_operator.Base.Int.{ℤ, pos}
use picodata_operator.Kube.Platform.{Platform}
use picodata_operator.Kube.Meta.{NamespacedName}
use picodata_operator.Kube.Pods.{Affinity, PodAntiAffinity, PodAffinityTerm}
use picodata_operator.Kube.Objects.{StatefulSet}
use picodata_operator.Api.{PicoclusterDb}
use picodata_operator.Api.Spec.{TierSpec, PluginSpec, IngressSpec}
use picodata_operator.Api.Status.{initializing}
use picodata_operator.StatefulSets.{build_stateful_set}
use picodata_operator.World.Guarded.{Returns}
use picodata_operator.World.Errors.{GoError, Outcome, ok, err, not_found}
use picodata_operator.World.Calls.{
  Call, Answer, Env, Rows, get_cluster, get_config_map, get_service, get_ingress, get_stateful_set,
  create_stateful_set, patch_stateful_set, delete_stateful_set, list_stateful_sets, get_secret, now,
  connect, query_plugin_enabled, query_plugins, query_services,
}

instance abbrev pub sample_platform : Platform
sample_platform = record {
  Fields = String;
  unset = "";
  Quantity = ℕ;
  quantity_is_zero = λ q. leb q 0;
  must_parse = λ text. 1;
  sha256 = λ text. 1 ∷ 2 ∷ 3 ∷ 4 ∷ 5 ∷ 6 ∷ 7 ∷ 8 ∷ 9 ∷ [];
  unicode_upper = λ c. c;
  same_orbit = λ c d. false;
  quote = λ text. "\"" <> text <> "\"";
  Conn = ℕ;
  unmarshal_strings = λ text. if text == "" then [] else text ∷ [];
}

abbrev pub weather : PluginSpec
weather = record {
  name = "weather";
  version = "0.1.0";
  migration_context = ("town", "riga") ∷ [];
  services = record { name = "server"; listener_port = pos 8085 } ∷ [];
}

abbrev pub sample_ingress : IngressSpec
sample_ingress = record {
  enabled = true;
  host = "db.example.org";
  ingress_class_name = none;
  annotations = [];
  tls = [];
}

-- A tier with a name, replicas, plugins and an affinity.
abbrev pub tier_of : String → ℤ → List PluginSpec → Option Affinity → TierSpec
tier_of name replicas plugins affinity = record {
  name = name;
  replicas = replicas;
  replication_factor = pos 2;
  can_vote = true;
  storage = record { size = 0; storage_class_name = none };
  memtx = record { memory = "" };
  vinyl = record { memory = ""; cache = "" };
  pg = record { enabled = true; ssl = false };
  log = record { level = ""; format = ""; destination = none };
  resources = "";
  share_dir = "";
  plugins = plugins;
  env = [];
  affinity = affinity;
  tolerations = [];
  node_selector = [];
  topology_spread_constraints = [];
  security_context = none;
  ingress = none;
  disable_auto_anti_affinity = false;
}

abbrev pub storage_tier : TierSpec
storage_tier = tier_of "storage" (pos 2) [] none

abbrev pub router_tier : TierSpec
router_tier = tier_of "router" (pos 1) (weather ∷ []) none

abbrev pub user_term : PodAffinityTerm
user_term = record { match_labels = ("app", "noisy") ∷ []; topology_key = "zone"; rest = "" }

abbrev pub user_anti_affinity : PodAntiAffinity
user_anti_affinity = record { required = user_term ∷ []; rest = "" }

abbrev pub user_affinity : Affinity
user_affinity = record { pod_anti_affinity = some user_anti_affinity; rest = "nodes" }

abbrev pub sample_cluster : PicoclusterDb
sample_cluster = record {
  type_meta = "";
  meta = record { name = "demo"; namespace = "db"; labels = []; annotations = []; rest = "" };
  spec = record {
    image = record { repository = "picodata"; tag = "26.1"; pull_policy = "" };
    image_pull_secrets = [];
    cluster_name = "demo";
    admin_password = record { secret_name = "admin"; key = "password" };
    cluster = record {
      default_replication_factor = pos 1;
      default_bucket_count = pos 3000;
      shredding = false;
    };
    tiers = storage_tier ∷ router_tier ∷ [];
    service = record {
      svc_type = "";
      binary_port = pos 3301;
      http_port = pos 8081;
      pg_port = pos 0;
    };
    startup_probe = none;
    liveness_probe = none;
    readiness_probe = none;
  };
  status = record { phase = initializing; tiers = []; conditions = [] };
}

abbrev pub sample_key : NamespacedName
sample_key = record { name = "demo"; namespace = "db" }

abbrev pub stateful_set_of : TierSpec → ℤ → StatefulSet
stateful_set_of tier i = build_stateful_set sample_cluster tier i ""

-- The StatefulSet as the server lists it, with two pods ready.
abbrev pub ready_stateful_set : TierSpec → ℤ → StatefulSet
ready_stateful_set tier i = record (stateful_set_of tier i) { ready_replicas = pos 2 }

abbrev listed : Option StatefulSet → List StatefulSet
listed none = []
listed (some sts) = sts ∷ []

abbrev found : Option StatefulSet → Outcome StatefulSet
found none = err not_found
found (some sts) = ok sts

abbrev read : {A : Type 0} → List A → List (A ⊎ GoError)
read [] = []
read (x ∷ xs) = inl x ∷ read xs

abbrev rows : {A : Type 0} → List A → Rows A
rows xs = record { scanned = read xs; error = none; first_error = none }

-- The database has a plugin that is not the router's.
abbrev respond : (c : Call) → Option StatefulSet → Outcome (Answer c) × Option StatefulSet
respond (get_cluster key) w = (ok sample_cluster, w)
respond (get_config_map key) w = (err not_found, w)
respond (get_service key) w = (err not_found, w)
respond (get_ingress key) w = (err not_found, w)
respond (get_stateful_set key) w = (found w, w)
respond (create_stateful_set sts) w = (ok tt, some sts)
respond (patch_stateful_set old new) w = (ok tt, some new)
respond (delete_stateful_set sts) w = (ok tt, none)
respond (list_stateful_sets namespace labels) w = (ok (listed w), w)
respond (get_secret key) w = (ok (record { contents = ("password", "s3cret") ∷ []; rest = "" }), w)
respond now w = (ok 100, w)
respond (connect conn_str) w = (ok 7, w)
respond (query_plugin_enabled conn sql) w = (ok (rows []), w)
respond (query_plugins conn sql) w = (ok (rows (("archive", "1.0", true) ∷ [])), w)
respond (query_services conn sql) w = (ok (rows (("server", "") ∷ [])), w)
respond _ w = (ok tt, w)

instance abbrev pub sample_env : Env
sample_env = record {
  W = Option StatefulSet;
  respond = respond;
  set_controller_reference = λ cluster meta. ok meta;
}

-- No call of it panics.
pub sample_calm : (c : Call) (w : Option StatefulSet) → Returns (sample_env.respond c w).0
sample_calm (get_stateful_set key) none = tt
sample_calm (get_stateful_set key) (some sts) = tt
sample_calm _ w = tt
