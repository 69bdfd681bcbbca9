-- ===== src/VolumeStats.antt =====
-- pkg/reconcilers/etcd_cluster/volume_stats/volume_stats.go: the largest use of a data volume of
-- etcd, from the statistics of the kubelets. The answer of each node is a parameter.
pub mod Usage
pub mod Laws
use cluster_api_provider_hos.Prelude.{
  ℕ, min, max, String, Bool, true, false, ◌&&◌, Option, none, some, List, [], ◌∷◌, map, ◌==◌,
  string_eq, nat_eq, option_eq, if◌then◌else◌, ◌<>◌, some_by, has_prefix,
}
use cluster_api_provider_hos.Prelude.Exec.{Error, new, wrap, join, Result, ok, err}
use cluster_api_provider_hos.Prelude.Sorting.{lookup}

-- A pod of etcd, as far as it is read.
pub record EtcdPod : Type 0 where
  pub name : String
  pub namespace : String
  pub node_name : String

pub record VolumeStat : Type 0 where
  pub name : String
  pub pvc_name : Option String  -- `PVCRef.Name`
  pub used_bytes : Option ℕ

pub record PodStats : Type 0 where
  pub namespace : String
  pub name : String
  pub volume_stats : List VolumeStat

-- `Summary`: the pods of a node.
abbrev pub Summary : Type 0
Summary = List PodStats

abbrev pub etcd_data_volume_name : String
etcd_data_volume_name = "etcd-data"

abbrev pub max_int64 : ℕ
max_int64 = 9223372036854775807

unfoldable pub is_etcd_data_volume : VolumeStat → Bool
is_etcd_data_volume stat = elim stat.pvc_name [
  | some name ↦ has_prefix name (etcd_data_volume_name <> "-")
  | none ↦ stat.name == etcd_data_volume_name
]

-- The use of a data volume that has one.
unfoldable pub usage_of : VolumeStat → Option ℕ
unfolding is_etcd_data_volume
usage_of stat =
    if is_etcd_data_volume stat
    then elim stat.used_bytes [ some bytes ↦ some (min bytes max_int64) | none ↦ none ]
    else none

-- The inner loop, which returns from both at the first use.
unfoldable pub first_usage : List VolumeStat → Option ℕ
unfolding usage_of
first_usage [] = none
first_usage (stat ∷ stats) =
    let rest = first_usage stats in elim (usage_of stat) [ some bytes ↦ some bytes | none ↦ rest ]

unfoldable pub extract_pod_volume_usage : String → String → Summary → ℕ
unfolding first_usage
extract_pod_volume_usage namespace name [] = 0
extract_pod_volume_usage namespace name (pod ∷ pods) =
    let rest = extract_pod_volume_usage namespace name pods in
    if pod.namespace == namespace && pod.name == name
    then elim (first_usage pod.volume_stats) [ some bytes ↦ bytes | none ↦ rest ]
    else rest

-- `slices.Uniq` of samber/lo: each text once, in the order of the first.
unfoldable pub uniq_from : List String → List String → List String
uniq_from seen [] = []
uniq_from seen (s ∷ ss) = elim (some_by (λ t. t == s) seen) [
  | true ↦ uniq_from seen ss
  | false ↦ s ∷ uniq_from (s ∷ seen) ss
]

abbrev pub uniq : List String → List String
uniq = uniq_from []

-- `slices.Max`: 0 for an empty list.
unfoldable pub max_of : List ℕ → ℕ
max_of [] = 0
max_of (n ∷ ns) = max n (max_of ns)

-- `errors.Join`, which drops nil errors.
unfoldable pub join_errors : List (Option Error) → Option Error
join_errors [] = none
join_errors (none ∷ es) = join_errors es
join_errors (some e ∷ es) = elim (join_errors es) [ none ↦ some e | some f ↦ some (join e f) ]

module _ (get_node_stats : String → Result Summary) where
  unfoldable pub stats_by_node : List EtcdPod → List (String × Result Summary)
  unfolding uniq_from
  stats_by_node pods =
      map (λ node. (node, get_node_stats node)) (uniq (map (λ (p : EtcdPod). p.node_name) pods))

  unfoldable pub pod_result : List (String × Result Summary) → EtcdPod → ℕ × Option Error
  unfolding extract_pod_volume_usage
  pod_result stats pod = elim (lookup pod.node_name stats) [
    | none ↦ (
      0,
      some (wrap ("missing stats for node " <> pod.node_name) (new "no stats available for node")),
    )
    | some (err e) ↦ (0, some e)
    | some (ok summary) ↦ (extract_pod_volume_usage pod.namespace pod.name summary, none)
  ]

  unfoldable pub get_max_etcd_volume_usage : List EtcdPod → ℕ × Option Error
  unfolding stats_by_node pod_result max_of join_errors
  get_max_etcd_volume_usage pods =
      let results = map (pod_result (stats_by_node pods)) pods in
      (
        max_of (map (λ (r : ℕ × Option Error). r.0) results),
        join_errors (map (λ (r : ℕ × Option Error). r.1) results),
      )
