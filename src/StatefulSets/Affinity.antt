-- ===== src/StatefulSets/Affinity.antt =====
-- internal/controller/statefulset.go: `mergeReplicasetAntiAffinity`, and what the code writes into
-- the objects that the tier's spec points to. `tier` is a pointer into the cluster, and the spec's
-- `affinity` and `securityContext` are pointers too, so each function gives back the object that the
-- tier holds afterwards.
use picodata_operator.Base.{Option, none, some, [], ◌∷◌, ◌++◌}
use picodata_operator.Base.Int.{ℤ, pos}
use picodata_operator.Base.Maps.{Labels}
use picodata_operator.Kube.Platform.{Platform}
use picodata_operator.Kube.Pods.{Affinity, PodAntiAffinity, PodAffinityTerm, PodSecurityContext}

module _ ⦃K : Platform⦄ where
  unfoldable pub anti_affinity_term : Labels → PodAffinityTerm
  anti_affinity_term rs_labels = record {
    match_labels = rs_labels;
    topology_key = "kubernetes.io/hostname";
    rest = K.unset;
  }

  abbrev fresh : PodAffinityTerm → PodAntiAffinity
  fresh term = record { required = term ∷ []; rest = K.unset }

  abbrev with_term : PodAntiAffinity → PodAffinityTerm → PodAntiAffinity
  with_term p term = record p { required = p.required ++ term ∷ [] }

  -- `*base` is copied, and its `PodAntiAffinity` is not: the term is appended to the object that the
  -- copy shares with `base`.
  merge : Affinity → Option PodAntiAffinity → PodAffinityTerm → Affinity × Affinity
  merge base none term = (record base { pod_anti_affinity = some (fresh term) }, base)
  merge base (some p) term =
      let shared = record base { pod_anti_affinity = some (with_term p term) } in (shared, shared)

  -- The merged affinity, and what `base` points to afterwards.
  unfoldable pub merge_replicaset_anti_affinity :
      Option Affinity → Labels → Affinity × Option Affinity
  unfolding merge anti_affinity_term
  merge_replicaset_anti_affinity none rs_labels =
      let term = anti_affinity_term rs_labels in
      (record { pod_anti_affinity = some (fresh term); rest = K.unset }, none)
  merge_replicaset_anti_affinity (some base) rs_labels =
      let (affinity, base') = merge base base.pod_anti_affinity (anti_affinity_term rs_labels) in
      (affinity, some base')

  -- `FSGroup` is set where it is nil.
  abbrev pub group_or : Option ℤ → Option ℤ
  group_or none = some (pos 1000)
  group_or (some g) = some g

  abbrev with_fs_group : PodSecurityContext → PodSecurityContext
  with_fs_group c = record c { fs_group = group_or c.fs_group }

  -- The pods' security context, and what the tier's pointer points to afterwards.
  unfoldable pub pod_security_context :
      Option PodSecurityContext → PodSecurityContext × Option PodSecurityContext
  pod_security_context none = (with_fs_group (record { fs_group = none; rest = K.unset }), none)
  pod_security_context (some c) = (with_fs_group c, some (with_fs_group c))
