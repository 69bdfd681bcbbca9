-- ===== src/Reconcilers/Workload/Laws.antt =====
-- What a workload's reconciliation that reports a resource has applied.
use cluster_api_provider_hos.Prelude.{
  ◌≡◌, refl, sym, ap, ◌∙◌, inl, inr, Bool, false, Option, none, some, List, string_eq, nat_eq,
  some_inj, option_eq, Bool-cases,
}
use cluster_api_provider_hos.Prelude.Exec.{Result, ok, err, wrapping}
use cluster_api_provider_hos.Prelude.Exec.{attempt}
use cluster_api_provider_hos.Prelude.Succeeds.{bind-ok, wrapping-ok, pure-ok, fail-ok, attempt-ok}
use cluster_api_provider_hos.Prelude.Sorting.{assign}
use cluster_api_provider_hos.Objects.{PodTemplateSpec}
use cluster_api_provider_hos.Checksum.{set_checksum_annotations}
use cluster_api_provider_hos.Checksum.Laws.{set_checksum_annotations-others}
use cluster_api_provider_hos.Reconcilers.Pod.{validate_mounts}
use cluster_api_provider_hos.Reconcilers.Workload.{
  Kubernetes, WorkloadKind, Workload, with_labels, workload_configuration, after_applied,
  after_apply, refused_spec, apply_valid, apply_workload, reconcile_workload,
}

module _ {S RA RSA R T : Type 0} (k : Kubernetes S) (kind : WorkloadKind S RA RSA R T)
    (w : Workload T) (mutate_funcs : List (RA → RA)) where
  -- The configuration of `template` was applied, and answered with `resource`.
  abbrev pub Applied : PodTemplateSpec T → R → Type 0
  Applied template resource =
      (u : S) × (v : S) × (kind.apply (workload_configuration k kind w template mutate_funcs) u
        ≡ (ok resource, v))

  after_apply-ok :
      (r : Result R) (s t : S) (resource : R) (ready : Bool)
      → after_apply k kind w r s ≡ (ok (some resource, ready), t)
      → (r ≡ ok resource) × (ready ≡ kind.readiness_check resource)
  unfolding after_apply after_applied
  after_apply-ok (ok applied) s t resource ready h =
      let (_, _, h1) = bind-ok (wrapping _ _) _ s t (some resource, ready) h in
      let (same, _) =
        pure-ok (some applied, kind.readiness_check applied) _ t (some resource, ready) h1 in
      let found = some_inj applied resource (ap (λ x. x.0) same) in
      (ap ok found, sym (ap (λ x. x.1) same) ∙ ap kind.readiness_check found)
  after_apply-ok (err e) s t resource ready h = elim (Bool-cases (refused_spec k.errors e)) [
    | inl refused ↦
        let (_, _, h1) = bind-ok (wrapping _ _) _ s t (some resource, ready) (rw refused at h) in
        let (same, _) = pure-ok (none, false) _ t (some resource, ready) h1 in
        absurd (cc (ap (λ (x : Option R × Bool). x.0) same))
    | inr kept ↦ fail-ok _ s t (some resource, ready) (rw kept at h)
  ]

  apply_valid-ok :
      (template : PodTemplateSpec T) (r : Result (Unit {0})) (s t : S) (resource : R) (ready : Bool)
      → apply_valid k kind w mutate_funcs template r s ≡ (ok (some resource, ready), t)
      → (r ≡ ok tt) × Applied template resource × (ready ≡ kind.readiness_check resource)
  unfolding apply_valid
  apply_valid-ok template (err e) s t resource ready h = fail-ok _ s t (some resource, ready) h
  apply_valid-ok template (ok tt) s t resource ready h =
      let apply = kind.apply (workload_configuration k kind w template mutate_funcs) in
      let (r, asked, h1) =
        bind-ok (attempt apply) (after_apply k kind w) s t (some resource, ready) h in
      let (found, is_ready) = after_apply-ok r _ t resource ready h1 in
      (
        refl,
        (s, (apply s).1, attempt-ok apply s _ r asked ∙ ap (λ x. (x, (apply s).1)) found),
        is_ready,
      )

  -- The reconciliation that answers with a resource has applied it.
  pub reconcile_workload-ok :
      (s t : S) (resource : R) (ready : Bool)
      → reconcile_workload k kind w false mutate_funcs s ≡ (ok (some resource, ready), t)
      → (template : PodTemplateSpec T) × (template.spec ≡ w.template.spec)
        × (template.labels ≡ assign w.template.labels w.labels)
        × (validate_mounts template.spec ≡ ok tt)
        × Applied template resource
        × (ready ≡ kind.readiness_check resource)
  unfolding reconcile_workload apply_workload
  reconcile_workload-ok s t resource ready h =
      let annotated =
        set_checksum_annotations k.md5_hex k.get_secret k.get_config_map
          (with_labels w.template w.labels) in
      let (template, set, h1) =
        bind-ok (wrapping _ annotated) (apply_workload k kind w mutate_funcs) s t
          (some resource, ready) h in
      let (spec, labels, _) =
        set_checksum_annotations-others k.md5_hex k.get_secret k.get_config_map
          (with_labels w.template w.labels) template s _
          (wrapping-ok _ annotated s _ template set) in
      let (valid, applied, is_ready) = apply_valid-ok template _ _ t resource ready h1 in
      (template, spec, labels, valid, applied, is_ready)
