-- ===== src/Lib.antt =====
-- The picodata operator: a Kubernetes controller, in Go, that turns a PicoclusterDB resource into the
-- objects of a picodata cluster and keeps its plugins at the versions that the resource declares.
--
-- The parts and where they are modelled
--   Api            api/v1/picoclusterdb_types.go: the resource's spec and status.
--   Kube           what the operator uses of Kubernetes' types. Fields that it never names are one
--                  opaque value of each struct, `rest`, which also has those of the structs within it
--                  that hold one field or two (HTTPGetAction, EnvVarSource, VolumeSource); what the
--                  builders make has them unset. `Platform` has these, resource.Quantity, sha256,
--                  strconv.Quote, json.Unmarshal, pgx.Conn and Unicode's tables beyond ASCII as
--                  parameters.
--   Base           Go's int32, maps, texts and decimal numbers, and what all modules share.
--   Names          internal/controller/service.go (the first part), with configMapName and servicePort of
--                  configmap.go and statefulSetName of statefulset.go.
--   Services       internal/controller/service.go: the headless and the client Service.
--   ConfigMaps     internal/controller/configmap.go: the text of config.yaml, and its plugin section.
--   StatefulSets   internal/controller/statefulset.go: the StatefulSet of one replicaset.
--   Ingresses      internal/controller/ingress.go.
--   World          the calls that a method makes (of the API server, the database, the clock) and `Env`,
--                  the environment that answers them, which is a parameter: any answer, any error, at
--                  any time. `Exec` is the monad of the methods: an action goes from a state of the world
--                  to an outcome (a value, an error, a panic), a state, and the calls it has made.
--   Plugins        internal/controller/plugin.go: reconcileTierPlugins and what it calls.
--   Reconciler     internal/controller/picoclusterdb_controller.go: Reconcile, reconcileTier and what
--                  they call. `Resources`, `Cleanup`, `Tiers` and `Status` have the methods, `Counting`
--                  the loop over the replicasets with its counter in int32, `Setup` has SetupWithManager,
--                  `Kinds` what the four kinds of objects share. `rows.Err()` has two answers in `Rows`:
--                  behind the last row, and where the code leaves the rows behind the first.
--   Manager        cmd/main.go and api/v1/groupversion_info.go: the flags, the options of the servers
--                  and of the manager, and the start of the process, against a `Host` that answers.
--   Memory         api/v1/zz_generated.deepcopy.go: DeepCopyInto (`Copies`) and DeepCopy (`Pointers`) of
--                  every type, over a memory of cells with addresses (`Store`), for the types as they lie
--                  in it (`Types`). Everywhere else a pointer is an Option, and a patch has the object
--                  before the change as its base, which is what these copies are for.
--   Tests          a sample cluster and a small world, runs, and the theorems at work on them.
--
-- How they interact: Reconcile gets the cluster and, tier by tier, makes the objects (ConfigMaps,
-- Services, StatefulSets, Ingresses), creates or patches each, removes the StatefulSets beyond the
-- replicas, sums up the tier's ready pods and, where the tier is ready, reconciles its plugins over a
-- connection to the database. It ends with a write of the status.
--
-- How the code corresponds
--   A method of the reconciler is an action of the same name; a builder is a function. A pointer is an
--   Option. Where the code writes through a pointer into the spec (buildStatefulSet does, into the
--   security context and the anti-affinity) the tier that comes out is a result of its own
--   (`tier_after_build`) and goes into the next round. The owner reference is the parameter
--   `set_controller_reference`. A Go map is an association list in the order in which `range` visits it.
--   An int32 is an integer, with the wrap-around of + and * written out in `add32` and `mul32`.
--   `cluster.Spec.Tiers[0]` panics on no tiers, so `build_config_map` is an Option.
--
-- Bounds and fuel
--   Every loop is recursion on a list, but the one over the replicasets, which counts rounds: as many as
--   `tier.Replicas`, none where that is negative. Go's loop, with its counter in int32, is
--   `count_replicasets`, whose fuel is the number of its tests. The printing of a decimal number has one
--   round of fuel more than the number, which is enough, as `Base.Decimal` has it for reading back what
--   is printed. The process of the manager and the deep copies have no loop but those over lists.
--
-- Not modelled: messages of information, contexts and their deadlines, the helpers of the tests, and how
-- the API server merges a patch: a patch is recorded with the object before and behind the change.
pub mod Base
pub mod Kube
pub mod Api
pub mod Names
pub mod Services
pub mod ConfigMaps
pub mod StatefulSets
pub mod Ingresses
pub mod World
pub mod Plugins
pub mod Reconciler
pub mod Manager
pub mod Memory
pub mod Tests
