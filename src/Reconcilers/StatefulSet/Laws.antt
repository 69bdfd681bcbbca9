-- ===== src/Reconcilers/StatefulSet/Laws.antt =====
-- What `reconcileStatefulset` has applied when it reports a stateful set.
use cluster_api_provider_hos.Prelude.{
  ◌≤◌, String, ◌≡◌, refl, sym, ap, ◌∙◌, ◌⊎◌, inl, inr, Bool, true, false, Option, none, some,
  string_eq, nat_eq, option_eq, leb, Bool-cases,
}
use cluster_api_provider_hos.Prelude.Exec.{ok, wrapping, ◌>>=◌}
use cluster_api_provider_hos.Prelude.{leb→le}
use cluster_api_provider_hos.Prelude.Succeeds.{bind-ok, wrapping-ok, pure-ok, fail-ok}
use cluster_api_provider_hos.Prelude.Sorting.{lookup}
use cluster_api_provider_hos.Prelude.Sorting.Laws.{IsMap}
use cluster_api_provider_hos.Prelude.Sorting.Assign.{lookup-assign}
use cluster_api_provider_hos.Objects.{Labels, PodTemplateSpec}
use cluster_api_provider_hos.Reconcilers.{nil_pointer}
use cluster_api_provider_hos.Reconcilers.Selectors.{Chosen, waits, elements_match}
use cluster_api_provider_hos.Reconcilers.Selectors.Laws.{Selects, choose_labels-Selects}
use cluster_api_provider_hos.Reconcilers.Workload.{
  Kubernetes, Workload, with_labels, with_spread, workload_configuration, reconcile_workload,
  mutated,
}
use cluster_api_provider_hos.Reconcilers.Workload.Laws.{reconcile_workload-ok}
use cluster_api_provider_hos.Reconcilers.StatefulSet.{
  StatefulSet, StatefulSetApply, StatefulSetClient, StatefulSetOptions, statefulset_kind,
  is_statefulset_ready, create_statefulset_mutator, label_mutator, chosen_mutators,
  statefulset_ready, statefulset_budget, reconcile_chosen, reconcile_existing, after_get,
  reconcile_statefulset,
}

module _ {S T V : Type 0} (k : Kubernetes S) (client : StatefulSetClient S T V) (w : Workload T)
    (options : StatefulSetOptions V) where
  ready-ok :
      (labels : Labels) (o : Option StatefulSet) (b : Bool) (s t : S) (d : StatefulSet)
      (ready : Bool)
      → statefulset_ready k client w options labels (o, b) s ≡ (ok (some d, ready), t)
      → (o ≡ some d) × (b ≡ true)
  unfolding statefulset_ready statefulset_budget
  ready-ok labels o false s t d ready h = absurd (
      cc (
        ap (λ (x : Option StatefulSet × Bool). x.0)
          (pure-ok (none, false) s t (some d, ready) h).0))
  ready-ok labels none true s t d ready h = fail-ok nil_pointer s t (some d, ready) h
  ready-ok labels (some e) true s t d ready h =
      let (_, _, h1) = bind-ok (wrapping _ _) _ s t (some d, ready) h in
      let (same, _) = pure-ok (some e, true) _ t (some d, ready) h1 in (ap (λ x. x.0) same, refl)

  -- The stateful set was applied with this selector and these pods, and answered with `d`.
  pub record Configured (chosen : Chosen) (d : StatefulSet) : Type 0 where
    pub before : S
    pub after : S
    pub configuration : StatefulSetApply T V
    pub template : PodTemplateSpec T
    pub applied : client.apply configuration before ≡ (ok d, after)
    pub spec :
        configuration.spec
        ≡ some (record {
          selector = chosen.selector;
          template = some template;
          options = some options;
        })
    pub pods :
        (key value : String)
        → lookup key chosen.pods ≡ some value
        → lookup key template.labels ≡ some value
    pub available : 1 ≤ d.available_replicas

  reconcile_chosen-Configured :
      (chosen : Chosen) (s t : S) (d : StatefulSet) (ready : Bool)
      → reconcile_chosen k client w options false chosen s ≡ (ok (some d, ready), t)
      → Configured chosen d
  unfolding reconcile_chosen statefulset_kind is_statefulset_ready workload_configuration mutated
      chosen_mutators create_statefulset_mutator label_mutator
  reconcile_chosen-Configured chosen s t d ready h =
      let used : Workload T = record w {
        labels = chosen.selector;
        template = with_spread w.template chosen.pods;
      } in
      let reconcile =
        reconcile_workload k (statefulset_kind client) used false
          (chosen_mutators k client w options chosen) in
      let ((o, b), wrapped, h1) =
        bind-ok (wrapping _ reconcile) (statefulset_ready k client w options chosen.pods) s t
          (some d, ready) h in
      let (found, is_ready) = ready-ok chosen.pods o b _ t d ready h1 in
      let u0 : S = (reconcile s).1 in
      let done : reconcile s ≡ (ok (some d, b), u0) =
        wrapping-ok _ reconcile s u0 (o, b) wrapped ∙ (λ i. (ok (found i, b), u0)) in
      let (template, _, labels, valid, (u, v, applied), check) =
        reconcile_workload-ok k (statefulset_kind client) used
          (chosen_mutators k client w options chosen) s u0 d b done in
      record {
        before = u;
        after = v;
        configuration = _;
        template = with_labels template chosen.pods;
        applied = applied;
        spec = refl;
        pods = λ key value listed. lookup-assign key template.labels chosen.pods ∙ rw listed refl;
        available = leb→le 1 d.available_replicas (sym check ∙ is_ready);
      }

  -- A stateful set that is reported where one existed, whose selector selected its pods, was applied
  -- with labels that were chosen so that the selector selects the pods that run and the pods to come;
  -- the selector is the old one, or the old stateful set was ready.
  pub reconcile_statefulset-ok :
      (existing : StatefulSet) (s u t : S) (d : StatefulSet) (ready : Bool)
      → client.get w.name s ≡ (ok existing, u)
      → IsMap w.labels
      → IsMap existing.pod_labels
      → IsMap existing.selector
      → Selects existing.selector existing.pod_labels
      → reconcile_statefulset k client w options false s ≡ (ok (some d, ready), t)
      → (chosen : Chosen) × Configured chosen d
        × Selects chosen.selector existing.pod_labels
        × Selects chosen.selector chosen.pods
        × ((elements_match existing.selector chosen.selector ≡ true)
            ⊎ (1 ≤ existing.available_replicas))
  unfolding reconcile_statefulset after_get reconcile_existing ◌>>=◌ waits is_statefulset_ready
  reconcile_statefulset-ok existing s u t d ready got l p m valid h =
      let (chosen, chose, running, coming) =
        choose_labels-Selects w.labels existing.pod_labels existing.selector l p m valid in
      let h1 = rw chose at (rw got at h) in
      elim (Bool-cases (elements_match existing.selector chosen.selector)) [
        | inl same ↦ (
          chosen,
          reconcile_chosen-Configured chosen u t d ready (rw same at h1),
          running,
          coming,
          inl same,
        )
        | inr other ↦ elim (Bool-cases (leb 1 existing.available_replicas)) [
          | inl up ↦ (
            chosen,
            reconcile_chosen-Configured chosen u t d ready (rw up at (rw other at h1)),
            running,
            coming,
            inr (leb→le 1 existing.available_replicas up),
          )
          | inr down ↦ absurd (
              cc (
                ap (λ (x : Option StatefulSet × Bool). x.0)
                  (pure-ok (none, false) u t (some d, ready) (rw down at (rw other at h1))).0))
        ]
      ]
