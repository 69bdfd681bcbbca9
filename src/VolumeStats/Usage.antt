-- ===== src/VolumeStats/Usage.antt =====
-- The nodes that are asked, and the bound of the use of one pod.
use cluster_api_provider_hos.Prelude.{
  ℕ, ◌≤◌, min, String, ◌≡◌, refl, ap, ◌∙◌, subst, inl, inr, Bool, true, false, ◌&&◌, Option, none,
  some, List, [], ◌∷◌, map, arith, ◌==◌, string_eq, nat_eq, some_inj, option_eq, Bool-cases,
  Option-cases, some_by,
}
use cluster_api_provider_hos.Prelude.Sorting.{lookup}
use cluster_api_provider_hos.VolumeStats.{
  VolumeStat, Summary, max_int64, usage_of, first_usage, extract_pod_volume_usage, uniq_from,
  is_etcd_data_volume,
}

-- What is asked for is among the nodes that are queried.
abbrev pub is_asked : String → List String → Bool
is_asked node nodes = some_by (λ t. t == node) nodes

pub lookup-answers :
    {A : Type 0} (g : String → A) (node : String) (nodes : List String)
    → is_asked node nodes ≡ true
    → lookup node (map (λ n. (n, g n)) nodes) ≡ some (g node)
unfolding lookup some_by
lookup-answers g node [] asked = cc
lookup-answers g node (n ∷ ns) asked = elim (Bool-cases (n == node)) [
  | inl same ↦ rw same (ap (λ m. some (g m)) ((string_eq.beq_iff n node).0 same))
  | inr other ↦ rw other (lookup-answers g node ns (rw other at asked))
]

pub uniq_from-asked :
    (node : String) (seen nodes : List String)
    → is_asked node seen ≡ false
    → is_asked node nodes ≡ true
    → is_asked node (uniq_from seen nodes) ≡ true
unfolding uniq_from some_by
uniq_from-asked node seen [] new asked = asked
uniq_from-asked node seen (n ∷ ns) new asked = elim (Bool-cases (some_by (λ t. t == n) seen)) [
  | inl old ↦ elim (Bool-cases (n == node)) [
    | inl same ↦
        let eq = (string_eq.beq_iff n node).0 same in
        absurd (cc (old, new, ap (λ k. some_by (λ t. t == k) seen) eq))
    | inr other ↦ rw (old, uniq_from) (uniq_from-asked node seen ns new (rw other at asked))
  ]
  | inr fresh ↦ elim (Bool-cases (n == node)) [
    | inl same ↦ rw (fresh, uniq_from) (rw same refl)
    | inr other ↦
        rw (fresh, uniq_from)
          (rw other (uniq_from-asked node (n ∷ seen) ns (rw other new) (rw other at asked)))
  ]
]

min-bound : (n m : ℕ) → min n m ≤ m
min-bound n m = omega arith

capped :
    (o : Option ℕ) (bytes : ℕ)
    → ◌≡◌ {A = Option ℕ} (elim o [ some n ↦ some (min n max_int64) | none ↦ none ]) (some bytes)
    → bytes ≤ max_int64
capped none bytes h = cc
capped (some n) bytes h = subst (λ b. b ≤ max_int64) (some_inj _ bytes h) (min-bound n max_int64)

usage_of-bound : (stat : VolumeStat) (bytes : ℕ) → usage_of stat ≡ some bytes → bytes ≤ max_int64
unfolding usage_of
usage_of-bound stat bytes h = elim (Bool-cases (is_etcd_data_volume stat)) [
  | inl hit ↦ capped stat.used_bytes bytes (rw (hit, usage_of) at h)
  | inr other ↦ absurd (cc (rw (other, usage_of) at h))
]

first_usage-bound :
    (stats : List VolumeStat) (bytes : ℕ) → first_usage stats ≡ some bytes → bytes ≤ max_int64
unfolding first_usage
first_usage-bound [] bytes h = cc
first_usage-bound (stat ∷ stats) bytes h = elim (Option-cases (usage_of stat)) [
  | inl missing ↦ first_usage-bound stats bytes (rw (missing, first_usage) at h)
  | inr (b, found) ↦ usage_of-bound stat bytes (found ∙ (rw (found, first_usage) at h))
]

pub extract_pod_volume_usage-bound :
    (namespace name : String) (pods : Summary)
    → extract_pod_volume_usage namespace name pods ≤ max_int64
unfolding extract_pod_volume_usage
extract_pod_volume_usage-bound namespace name [] = ground arith
extract_pod_volume_usage-bound namespace name (pod ∷ pods) =
    let rest = extract_pod_volume_usage-bound namespace name pods in
    elim (Bool-cases (pod.namespace == namespace && pod.name == name)) [
      | inr other ↦ rw (other, extract_pod_volume_usage) rest
      | inl this ↦ elim (Option-cases (first_usage pod.volume_stats)) [
        | inl missing ↦ rw (this, extract_pod_volume_usage) (rw (missing, first_usage) rest)
        | inr (b, found) ↦
            rw (this, extract_pod_volume_usage)
              (rw (found, first_usage) (first_usage-bound pod.volume_stats b found))
      ]
    ]
