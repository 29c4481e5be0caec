-- ===== src/World/Calls.antt =====
-- The calls, what each is answered with, and the environment that answers.
use picodata_operator.Base.{ℕ, String, Bool, Option, List, ◌⊎◌}
use picodata_operator.Base.Maps.{Labels}
use picodata_operator.Kube.Platform.{Platform}
use picodata_operator.Kube.Meta.{NamespacedName, ObjectMeta}
use picodata_operator.Kube.Objects.{ConfigMap, Secret, Service, Ingress, StatefulSet}
use picodata_operator.Api.{PicoclusterDb}
use picodata_operator.World.Errors.{GoError, Outcome}

-- `pgx.Rows`: what `Scan` gives for each row; what `Err` gives behind the last row, and what it gives
-- where the rows are left behind the first.
pub record Rows (A : Type 0) : Type 0 where
  pub scanned : List (A ⊎ GoError)
  pub error : Option GoError
  pub first_error : Option GoError

module _ ⦃K : Platform⦄ where
  -- A `patch` has the object before the change and the object behind it: the base of
  -- `client.MergeFrom` and the argument of `Patch`.
  pub data Call : Type 0 where
    get_cluster : NamespacedName → Call
    patch_status : PicoclusterDb → PicoclusterDb → Call
    get_config_map : NamespacedName → Call
    create_config_map : ConfigMap → Call
    patch_config_map : ConfigMap → ConfigMap → Call
    get_service : NamespacedName → Call
    create_service : Service → Call
    patch_service : Service → Service → Call
    get_ingress : NamespacedName → Call
    create_ingress : Ingress → Call
    patch_ingress : Ingress → Ingress → Call
    get_stateful_set : NamespacedName → Call
    create_stateful_set : StatefulSet → Call
    patch_stateful_set : StatefulSet → StatefulSet → Call
    delete_stateful_set : StatefulSet → Call
    -- the namespace, the labels to match
    list_stateful_sets : String → Labels → Call
    get_secret : NamespacedName → Call
    now : Call
    connect : String → Call
    close : K.Conn → Call
    exec : K.Conn → String → Call
    query_plugin_enabled : K.Conn → String → Call
    query_plugins : K.Conn → String → Call
    query_services : K.Conn → String → Call

  abbrev pub Answer : Call → Type 0
  Answer (get_cluster key) = PicoclusterDb
  Answer (get_config_map key) = ConfigMap
  Answer (get_service key) = Service
  Answer (get_ingress key) = Ingress
  Answer (get_stateful_set key) = StatefulSet
  Answer (list_stateful_sets namespace labels) = List StatefulSet
  Answer (get_secret key) = Secret
  Answer now = ℕ
  Answer (connect conn_str) = K.Conn
  Answer (query_plugin_enabled conn sql) = Rows Bool
  Answer (query_plugins conn sql) = Rows (String × String × Bool)
  Answer (query_services conn sql) = Rows (String × String)
  Answer _ = Unit {0}

  pub record Env : Type 1 where
    pub W : Type 0
    pub respond : (c : Call) → W → Outcome (Answer c) × W
    -- `controllerutil.SetControllerReference`: the object's metadata with the owner
    pub set_controller_reference : PicoclusterDb → ObjectMeta → Outcome ObjectMeta
