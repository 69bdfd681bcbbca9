-- ===== src/VolumeStats/Laws.antt =====
-- The bounds of the use that `GetMaxEtcdVolumeUsage` answers, and its errors.
use cluster_api_provider_hos.Prelude.{
  ℕ, ◌≤◌, max, String, ◌≡◌, refl, sym, ap, ◌∙◌, subst, ◌↔◌, inl, inr, true, Option, none, some,
  List, [], ◌∷◌, map, arith, ◌==◌, string_eq, nat_eq, beq_refl, option_eq, Bool-cases, Option-cases,
  some_by, All,
}
use cluster_api_provider_hos.Prelude.Exec.{Error, Result, ok}
use cluster_api_provider_hos.Prelude.Sorting.{lookup}
use cluster_api_provider_hos.Prelude.Succeeds.{Result-cases}
use cluster_api_provider_hos.Prelude.Every.{All-map, All-imp}
use cluster_api_provider_hos.VolumeStats.{
  EtcdPod, Summary, max_int64, extract_pod_volume_usage, uniq, max_of, join_errors, stats_by_node,
  pod_result, get_max_etcd_volume_usage,
}
use cluster_api_provider_hos.VolumeStats.Usage.{
  is_asked, lookup-answers, uniq_from-asked, extract_pod_volume_usage-bound,
}

All-both :
    (P Q R : EtcdPod → Type 0)
    → ((p : EtcdPod) → P p → Q p → R p)
    → (ps : List EtcdPod) → All P ps
    → All Q ps
    → All R ps
All-both P Q R f [] a b = tt
All-both P Q R f (p ∷ ps) a b = (f p a.0 b.0, All-both P Q R f ps a.1 b.1)

-- What holds of a list that was mapped twice.
through :
    {A : Type 0} (f : EtcdPod → ℕ × Option Error) (g : ℕ × Option Error → A) (P : A → Type 0)
    (ps : List EtcdPod)
    → All P (map g (map f ps)) ↔ All (λ p. P (g (f p))) ps
through f g P ps =
    let outer = All-map P g (map f ps) in
    let inner = All-map (λ r. P (g r)) f ps in
    ((λ h. inner.0 (outer.0 h)), (λ h. outer.1 (inner.1 h)))

ok_inj : (a b : Summary) → ◌≡◌ {A = Result Summary} (ok a) (ok b) → a ≡ b
ok_inj a b h = cc

max_of-bound : (m : ℕ) (ns : List ℕ) → All (λ n. n ≤ m) ns → max_of ns ≤ m
unfolding max_of
max_of-bound m [] h = omega arith
max_of-bound m (n ∷ ns) h =
    let (a, b) = h in let rest = max_of-bound m ns b in omega (arith, a, rest)

max_of-above : (ns : List ℕ) → All (λ n. n ≤ max_of ns) ns
unfolding max_of
max_of-above [] = tt
max_of-above (n ∷ ns) = (
  omega arith,
  All-imp (λ k. k ≤ max_of ns) (λ k. k ≤ max n (max_of ns)) (λ k le. omega (arith, le)) ns
      (max_of-above ns),
)

join_errors-none : (es : List (Option Error)) → (join_errors es ≡ none) ↔ All (λ e. e ≡ none) es
unfolding join_errors
join_errors-none [] = ((λ h. tt), (λ h. refl))
join_errors-none (none ∷ es) =
    let rest = join_errors-none es in ((λ h. (refl, rest.0 h)), (λ h. rest.1 h.1))
join_errors-none (some e ∷ es) = (
  (λ h. elim (Option-cases (join_errors es)) [
    | inl missing ↦ absurd (cc (rw (missing, join_errors) at h))
    | inr (f, found) ↦ absurd (cc (rw (found, join_errors) at h))
  ]),
  (λ h. absurd (cc (h.0))),
)

asked-weaken :
    (node n : String) (ns : List String) → is_asked node ns ≡ true → is_asked node (n ∷ ns) ≡ true
unfolding some_by
asked-weaken node n ns h = elim (Bool-cases (n == node)) [
  | inl same ↦ rw same refl
  | inr other ↦ rw other h
]

abbrev node_names : List EtcdPod → List String
node_names = map (λ p. p.node_name)

node_names-is_asked :
    (pods : List EtcdPod) → All (λ p. is_asked p.node_name (node_names pods) ≡ true) pods
unfolding some_by
node_names-is_asked [] = tt
node_names-is_asked (p ∷ ps) = (
  rw (beq_refl p.node_name) refl,
  All-imp (λ q. is_asked q.node_name (node_names ps) ≡ true)
      (λ q. is_asked q.node_name (p.node_name ∷ node_names ps) ≡ true)
      (λ q h. asked-weaken q.node_name p.node_name (node_names ps) h) ps (node_names-is_asked ps),
)

module _ (get_node_stats : String → Result Summary) where
  abbrev pub Answered : EtcdPod → Type 0
  Answered p = (summary : Summary) × (get_node_stats p.node_name ≡ ok summary)

  -- What the result for a pod is, once its node was asked.
  record Fair (stats : List (String × Result Summary)) (p : EtcdPod) : Type 0 where
    bounded : (pod_result get_node_stats stats p).0 ≤ max_int64
    exact :
        (summary : Summary)
        → get_node_stats p.node_name ≡ ok summary
        → (pod_result get_node_stats stats p).0
          ≡ extract_pod_volume_usage p.namespace p.name summary
    clean : ((pod_result get_node_stats stats p).1 ≡ none) ↔ Answered p

  pod_result-Fair :
      (stats : List (String × Result Summary)) (p : EtcdPod)
      → lookup p.node_name stats ≡ some (get_node_stats p.node_name)
      → Fair stats p
  unfolding pod_result
  pod_result-Fair stats p found = elim (Result-cases (get_node_stats p.node_name)) [
    | inl (e, failed) ↦
        let is : pod_result get_node_stats stats p ≡ (0, some e) =
          rw (found, pod_result) (rw failed refl) in
        record {
          bounded = rw is (ground arith);
          exact = λ other answer. absurd (cc (failed, answer));
          clean = (
            (λ h. absurd (cc (h, ap (λ (r : ℕ × Option Error). r.1) is))),
            (λ h. absurd (cc (failed, h.1))),
          );
        }
    | inr (summary, answered) ↦
        let is : pod_result get_node_stats stats p
            ≡ (extract_pod_volume_usage p.namespace p.name summary, none) =
          rw (found, pod_result) (rw answered refl) in
        record {
          bounded = rw is (extract_pod_volume_usage-bound p.namespace p.name summary);
          exact = λ other answer.
              ap (λ r. r.0) is
              ∙ ap (extract_pod_volume_usage p.namespace p.name)
                  (ok_inj summary other (sym answered ∙ answer));
          clean = ((λ h. (summary, answered)), (λ h. ap (λ r. r.1) is));
        }
  ]

  stats_by_node-Fair : (pods : List EtcdPod) → All (Fair (stats_by_node get_node_stats pods)) pods
  unfolding stats_by_node some_by
  stats_by_node-Fair pods =
      All-imp (λ p. is_asked p.node_name (node_names pods) ≡ true)
        (Fair (stats_by_node get_node_stats pods))
        (λ p asked. pod_result-Fair (stats_by_node get_node_stats pods) p (
          lookup-answers get_node_stats p.node_name (uniq (node_names pods))
            (uniq_from-asked p.node_name [] (node_names pods) refl asked)))
        pods (node_names-is_asked pods)

  abbrev pub largest : List EtcdPod → ℕ × Option Error
  largest = get_max_etcd_volume_usage get_node_stats

  -- The use that is answered is at most the largest 64-bit integer, and at least that of each pod
  -- whose node answered; there is no error exactly if the node of each pod answered.
  pub get_max_etcd_volume_usage-bounds :
      (pods : List EtcdPod)
      → ((largest pods).0 ≤ max_int64)
        × All
            (λ p.
              (summary : Summary)
              → get_node_stats p.node_name ≡ ok summary
              → extract_pod_volume_usage p.namespace p.name summary ≤ (largest pods).0)
            pods
        × (((largest pods).1 ≡ none) ↔ All Answered pods)
  unfolding get_max_etcd_volume_usage
  get_max_etcd_volume_usage-bounds pods =
      let stats = stats_by_node get_node_stats pods in
      let result : EtcdPod → ℕ × Option Error = pod_result get_node_stats stats in
      let usage : ℕ × Option Error → ℕ = λ r. r.0 in
      let problem : ℕ × Option Error → Option Error = λ r. r.1 in
      let each = stats_by_node-Fair pods in
      let above =
        (through result usage (λ n. n ≤ (largest pods).0) pods).0
          (max_of-above (map usage (map result pods))) in
      let clear = through result problem (λ e. e ≡ none) pods in
      let joined = join_errors-none (map problem (map result pods)) in
      (
        max_of-bound max_int64 (map usage (map result pods)) (
            (through result usage (λ n. n ≤ max_int64) pods).1
              (All-imp (Fair stats) (λ p. (result p).0 ≤ max_int64) (λ p f. f.bounded) pods each)),
        All-both (Fair stats) (λ p. (result p).0 ≤ (largest pods).0) _
            (λ p f le summary answered.
              subst (λ n. n ≤ (largest pods).0) (f.exact summary answered) le)
            pods each above,
        (
          (λ h.
              All-both (Fair stats) (λ p. (result p).1 ≡ none) Answered (λ p f free. f.clean.0 free)
                pods each (clear.0 (joined.0 h))),
          (λ h. joined.1 (
              clear.1 (
                All-both (Fair stats) Answered (λ p. (result p).1 ≡ none)
                  (λ p f free. f.clean.1 free) pods each h))),
        ),
      )
