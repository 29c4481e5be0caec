-- ===== src/Tests/Copies.antt =====
-- A PicoclusterDB in memory, and its deep copy.
use picodata_operator.Base.{ℕ, String, ◌≡◌, refl, true, false, List, [], ◌∷◌, arith}
use picodata_operator.Base.Int.{pos}
use picodata_operator.Api.Status.{initializing}
use picodata_operator.Memory.Store.{Ref, nil, cell, plain, pointer, keep, new_cell, ◌>>=◌}
use picodata_operator.Memory.Types.{Library, StoredLogSpec, StoredTierSpec, StoredDb, StoredDbList}
use picodata_operator.Memory.Copies.{copy_log_spec}
use picodata_operator.Memory.Pointers.{deep_copy_log_spec, deep_copy_db, deep_copy_db_list}
use picodata_operator.Memory.Shapes.{db, db_list}
use picodata_operator.Memory.Separation.{IsSeparate, deep_copies-AreSeparate}

-- An affinity is a pointer, a probe a slice; of the other types the cells do not matter.
instance abbrev memory_library : Library
memory_library = record {
  TypeMeta = String;
  ListMeta = String;
  ObjectMeta = String;
  Condition = String;
  Quantity = ℕ;
  Resources = String;
  EnvVar = String;
  Affinity = Ref String;
  Toleration = String;
  TopologySpreadConstraint = String;
  PodSecurityContext = String;
  Probe = Ref (List String);
  list_meta = plain;
  object_meta = plain;
  condition = plain;
  quantity = plain;
  resources = plain;
  env_var = plain;
  affinity = pointer plain;
  toleration = plain;
  topology_spread_constraint = plain;
  pod_security_context = plain;
  probe = pointer plain;
}

abbrev stored_log : StoredLogSpec
stored_log = record { level = "info"; format = "plain"; destination = cell 4 "/var/log" }

abbrev stored_tier : StoredTierSpec
stored_tier = record {
  name = "storage";
  replicas = pos 2;
  replication_factor = pos 2;
  can_vote = true;
  storage = record { size = 1; storage_class_name = cell 3 "fast" };
  memtx = record { memory = "" };
  vinyl = record { memory = ""; cache = "" };
  pg = record { enabled = true; ssl = false };
  log = stored_log;
  resources = "";
  share_dir = "";
  plugins = nil;
  env = nil;
  affinity = cell 5 (cell 6 "spread");
  tolerations = nil;
  node_selector = cell 7 (("disk", "ssd") ∷ []);
  topology_spread_constraints = nil;
  security_context = nil;
  ingress = nil;
  disable_auto_anti_affinity = false;
}

abbrev stored_db : StoredDb
stored_db = record {
  type_meta = "PicoclusterDB";
  meta = "demo";
  spec = record {
    image = record { repository = "picodata"; tag = "26.1"; pull_policy = "" };
    image_pull_secrets = nil;
    cluster_name = "demo";
    admin_password = record { secret_name = "admin"; key = "password" };
    cluster = record {
      default_replication_factor = pos 1;
      default_bucket_count = pos 3000;
      shredding = false;
    };
    tiers = cell 2 (stored_tier ∷ []);
    service = record {
      svc_type = "";
      binary_port = pos 3301;
      http_port = pos 8081;
      pg_port = pos 0;
    };
    startup_probe = nil;
    liveness_probe = cell 8 (cell 9 ("/ready" ∷ []));
    readiness_probe = nil;
  };
  status = record { phase = initializing; tiers = nil; conditions = nil };
}

abbrev stored_list : StoredDbList
stored_list = record { type_meta = ""; list_meta = ""; items = cell 11 (stored_db ∷ []) }

deep_copies-AreSeparate_example :
    IsSeparate (pointer db) (cell 1 stored_db) (deep_copy_db (cell 1 stored_db) 12)
    × IsSeparate
        (pointer db_list)
        (cell 10 stored_list)
        (deep_copy_db_list (cell 10 stored_list) 12)
deep_copies-AreSeparate_example =
    deep_copies-AreSeparate 12 (cell 1 stored_db) (cell 10 stored_list) (omega arith) (omega arith)

log_copied :
    deep_copy_log_spec (cell 1 stored_log) 12
    ≡ (cell 12 (record stored_log { destination = cell 13 "/var/log" }), 14)
unfolding new_cell copy_log_spec keep ◌>>=◌
log_copied = refl

nothing_copied : deep_copy_log_spec nil 12 ≡ (nil, 12)
unfolding new_cell
nothing_copied = refl
