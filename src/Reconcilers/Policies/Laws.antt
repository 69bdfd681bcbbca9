-- ===== src/Reconcilers/Policies/Laws.antt =====
-- What a network policy's reconciliation that succeeds has done.
use cluster_api_provider_hos.Prelude.{
  String, ◌≡◌, refl, sym, ap, subst, ◌⊎◌, inl, inr, true, Option, List, [], ◌∷◌, string_eq, nat_eq,
  option_eq, Bool-cases, filter,
}
use cluster_api_provider_hos.Prelude.Exec.{Error, wrap, Result, ok, err, Exec, pure, fail, ◌>>=◌}
use cluster_api_provider_hos.Prelude.Exec.{attempt}
use cluster_api_provider_hos.Prelude.Succeeds.{bind-ok, wrapping-ok, fail-ok, attempt-ok}
use cluster_api_provider_hos.Objects.{Labels, OwnerReference}
use cluster_api_provider_hos.NetworkPolicy.{IngressTarget, EgressTarget}
use cluster_api_provider_hos.Reconcilers.{ApiErrors, delete_if_found, after_delete}
use cluster_api_provider_hos.Reconcilers.Rules.{PortTargets}
use cluster_api_provider_hos.Reconcilers.Policies.{
  CiliumClient, StoredPolicy, PolicyCondition, join_messages, is_invalid, cilium_network_policy,
  check_conditions, create_or_update, reconcile_cilium_network_policy,
}

module _ (errors : ApiErrors) {S : Type 0} where
  -- The resource is gone: the deletion succeeded, or the API server did not find it.
  abbrev pub Gone : Exec S (Unit {0}) → S → Type 0
  Gone delete s =
      ((delete s).0 ≡ ok tt)
      ⊎ ((e : Error) × ((delete s).0 ≡ err e) × (errors.is_not_found e ≡ true))

  gone :
      (message : String) (r : Result (Unit {0})) (s t : S)
      → after_delete errors message r s ≡ (ok tt, t)
      → (s ≡ t) × ((r ≡ ok tt) ⊎ ((e : Error) × (r ≡ err e) × (errors.is_not_found e ≡ true)))
  unfolding after_delete
  gone message (ok tt) s t h = (ap (λ x. x.1) h, inl refl)
  gone message (err e) s t h = elim (Bool-cases (errors.is_not_found e)) [
    | inl found ↦ (ap (λ x. x.1) (rw found at h), inr (e, refl, found))
    | inr other ↦ fail-ok (wrap message e) s t tt (rw other at h)
  ]

  pub delete_if_found-ok :
      (message : String) (delete : Exec S (Unit {0})) (s t : S)
      → delete_if_found errors message delete s ≡ (ok tt, t)
      → (t ≡ (delete s).1) × Gone delete s
  unfolding delete_if_found ◌>>=◌
  delete_if_found-ok message delete s t h =
      let (same, is_gone) = gone message (delete s).0 (delete s).1 t h in (sym same, is_gone)

  module _ (name namespace : String) (owner : Option OwnerReference) (labels : Labels)
      (ingress : Option (PortTargets IngressTarget)) (egress : Option (PortTargets EgressTarget))
      (client : CiliumClient S) where
    -- The policy is stored: an existing one was updated at its version, a missing one was created.
    abbrev pub Stored : S → S → StoredPolicy → Type 0
    Stored s t policy =
        (found : Result StoredPolicy) × (u : S) × (client.get name s ≡ (found, u))
        × (((old : StoredPolicy) × (found ≡ ok old)
              × (client.update
                    (cilium_network_policy name namespace owner labels ingress egress
                      old.resource_version)
                    u
                  ≡ (ok policy, t)))
            ⊎ ((e : Error) × (found ≡ err e)
                × (errors.is_not_found e ≡ true)
                × (client.create
                      (cilium_network_policy name namespace owner labels ingress egress "") u
                    ≡ (ok policy, t))))

    create_or_update-ok :
        (found : Result StoredPolicy) (s u t : S) (policy : StoredPolicy)
        → client.get name s ≡ (found, u)
        → create_or_update errors name namespace owner labels ingress egress client found u
          ≡ (ok policy, t)
        → Stored s t policy
    unfolding create_or_update
    create_or_update-ok (ok old) s u t policy g h =
        (ok old, u, g, inl (old, refl, wrapping-ok _ (client.update _) u t policy h))
    create_or_update-ok (err e) s u t policy g h = elim (Bool-cases (errors.is_not_found e)) [
      | inl missing ↦ (
        err e,
        u,
        g,
        inr (e, refl, missing, wrapping-ok _ (client.create _) u t policy (rw missing at h)),
      )
      | inr other ↦ fail-ok _ u t policy (rw other at h)
    ]

    checked :
        (message : String) (cs : List PolicyCondition) (s t : S)
        → ◌≡◌ {A = Result (Unit {0}) × S}
            ((elim cs as (λ _. Exec S (Unit {0})) [
              | [] ↦ pure tt
              | c ∷ ds ↦ fail (wrap message (join_messages c ds))
            ])
              s)
            (ok tt, t)
        → (s ≡ t) × (cs ≡ [])
    checked message [] s t h = (ap (λ x. x.1) h, refl)
    checked message (c ∷ ds) s t h = fail-ok _ s t tt h

    check_conditions-ok :
        (policy : StoredPolicy) (s t : S)
        → check_conditions errors name namespace owner labels ingress egress policy s ≡ (ok tt, t)
        → (s ≡ t) × (filter is_invalid policy.conditions ≡ [])
    unfolding check_conditions
    check_conditions-ok policy s t h = checked _ (filter is_invalid policy.conditions) s t h

    -- A Cilium policy that is reconciled without an error is stored with the specification of the
    -- targets, updated at the version that was read where there was one, and none of the conditions
    -- that the API server answers says that it is invalid.
    pub reconcile_cilium_network_policy-ok :
        (s t : S)
        → reconcile_cilium_network_policy errors name namespace owner labels ingress egress client s
          ≡ (ok tt, t)
        → (policy : StoredPolicy) × Stored s t policy × (filter is_invalid policy.conditions ≡ [])
    unfolding reconcile_cilium_network_policy
    reconcile_cilium_network_policy-ok s t h =
        let (found, got, h1) = bind-ok (attempt (client.get name)) _ s t tt h in
        let (policy, stored, h2) =
          bind-ok (create_or_update errors name namespace owner labels ingress egress client found)
            _ (client.get name s).1 t tt h1 in
        let (same, valid) = check_conditions-ok policy _ t h2 in
        let asked = attempt-ok (client.get name) s _ found got in
        (
          policy,
          subst (λ u. Stored s u policy) same
              (create_or_update-ok found s (client.get name s).1 _ policy asked stored),
          valid,
        )
