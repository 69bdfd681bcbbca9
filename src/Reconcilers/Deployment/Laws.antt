-- ===== src/Reconcilers/Deployment/Laws.antt =====
-- What `reconcileDeployment` has applied when it reports a ready deployment, and its deletion.
use cluster_api_provider_hos.Prelude.{
  ℕ, ◌≤◌, String, ◌≡◌, refl, sym, ap, ◌∙◌, inl, inr, Bool, true, false, Option, none, some, [], ◌∷◌,
  string_eq, nat_eq, option_eq,
}
use cluster_api_provider_hos.Prelude.Exec.{ok, err, wrapping, ◌>>=◌}
use cluster_api_provider_hos.Prelude.{leb→le}
use cluster_api_provider_hos.Prelude.Succeeds.{bind-ok, wrapping-ok, pure-ok, fail-ok}
use cluster_api_provider_hos.Prelude.Sorting.{lookup, assign}
use cluster_api_provider_hos.Prelude.Sorting.Assign.{lookup-assign}
use cluster_api_provider_hos.Objects.{PodTemplateSpec}
use cluster_api_provider_hos.Reconcilers.{nil_pointer, delete_if_found, after_delete}
use cluster_api_provider_hos.Reconcilers.Pod.{validate_mounts}
use cluster_api_provider_hos.Reconcilers.Policies.Laws.{Gone}
use cluster_api_provider_hos.Reconcilers.Workload.{
  Kubernetes, Workload, with_spread, workload_configuration, reconcile_workload, mutated,
}
use cluster_api_provider_hos.Reconcilers.Deployment.{
  Deployment, DeploymentApply, DeploymentClient, reconcile_deployment, deployment_kind,
  deployment_ready, deployment_budget, create_deployment_mutator, is_deployment_ready,
}
use cluster_api_provider_hos.Reconcilers.Workload.Laws.{reconcile_workload-ok}

module _ {S T : Type 0} (k : Kubernetes S) (client : DeploymentClient S T) (w : Workload T)
    (replicas : ℕ) where
  abbrev spread : Workload T
  spread = record w { template = with_spread w.template w.labels }

  ready-ok :
      (o : Option Deployment) (b : Bool) (s t : S) (d : Deployment) (ready : Bool)
      → deployment_ready k client w replicas (o, b) s ≡ (ok (some d, ready), t)
      → (o ≡ some d) × (b ≡ true) × (ready ≡ true)
  unfolding deployment_ready deployment_budget
  ready-ok o false s t d ready h = absurd (
      cc (
        ap (λ (x : Option Deployment × Bool). x.0) (pure-ok (none, false) s t (some d, ready) h).0))
  ready-ok none true s t d ready h = fail-ok nil_pointer s t (some d, ready) h
  ready-ok (some e) true s t d ready h =
      let (_, _, h1) = bind-ok (wrapping _ _) _ s t (some d, ready) h in
      let (same, _) = pure-ok (some e, true) _ t (some d, ready) h1 in
      (ap (λ x. x.0) same, refl, sym (ap (λ x. x.1) same))

  -- A deployment that is reported after an application selects its own pods: it was answered, with
  -- an available replica, for a configuration that has the labels as selector, the number of
  -- replicas, and a template whose mounts are valid and which has each of the labels.
  pub reconcile_deployment-ok :
      (s t : S) (d : Deployment) (ready : Bool)
      → reconcile_deployment k client w replicas false s ≡ (ok (some d, ready), t)
      → (u v : S) × (configuration : DeploymentApply T) × (template : PodTemplateSpec T)
        × (client.apply configuration u ≡ (ok d, v))
        × (configuration.spec
            ≡ some (record {
              selector = w.labels;
              template = some template;
              strategy = some ("RollingUpdate", replicas);
              replicas = some replicas;
            }))
        × (validate_mounts template.spec ≡ ok tt)
        × ((key value : String)
            → lookup key w.labels ≡ some value
            → lookup key template.labels ≡ some value)
        × (ready ≡ true)
        × (1 ≤ d.available_replicas)
  unfolding reconcile_deployment deployment_kind is_deployment_ready workload_configuration mutated
      create_deployment_mutator with_spread
  reconcile_deployment-ok s t d ready h =
      let reconcile =
        reconcile_workload k (deployment_kind client) spread false
          (create_deployment_mutator replicas ∷ []) in
      let ((o, b), wrapped, h1) =
        bind-ok (wrapping _ reconcile) (deployment_ready k client w replicas) s t (some d, ready)
          h in
      let (found, is_ready, all) = ready-ok o b _ t d ready h1 in
      let u0 : S = (reconcile s).1 in
      let done : reconcile s ≡ (ok (some d, b), u0) =
        wrapping-ok _ reconcile s u0 (o, b) wrapped ∙ (λ i. (ok (found i, b), u0)) in
      let labelled : (key value : String)
          → lookup key w.labels ≡ some value
          → lookup key (assign w.template.labels w.labels) ≡ some value =
        λ key value listed. lookup-assign key w.template.labels w.labels ∙ rw listed refl in
      let (template, _, labels, valid, (u, v, applied), check) =
        reconcile_workload-ok k (deployment_kind client) spread
          (create_deployment_mutator replicas ∷ []) s _ d b done in
      (
        u,
        v,
        _,
        template,
        applied,
        refl,
        valid,
        (λ key value found. ap (lookup key) labels ∙ labelled key value found),
        all,
        leb→le 1 d.available_replicas (sym check ∙ is_ready),
      )

  -- A deletion of a deployment that succeeds, or finds none, ends in a nil pointer: the name of the
  -- deployment, which is nil, is read for the owner of a disruption budget.
  pub reconcile_deployment-nil_deployment :
      (s : S)
      → Gone k.errors (client.delete w.name "Background") s
      → reconcile_deployment k client w replicas true s
        ≡ (err nil_pointer, (client.delete w.name "Background" s).1)
  unfolding reconcile_deployment reconcile_workload deployment_kind deployment_ready ◌>>=◌
      delete_if_found after_delete
  reconcile_deployment-nil_deployment s (inl done) = rw done refl
  reconcile_deployment-nil_deployment s (inr (e, failed, missing)) = rw failed (rw missing refl)
