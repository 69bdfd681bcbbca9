-- ===== src/Rotation/Laws.antt =====
-- Which machines a rotation reaches.
use cluster_api_provider_hos.Prelude.{
  ℕ, String, ◌≡◌, refl, ap, ◌∙◌, ◌⊎◌, inl, inr, Option, none, some, List, [], ◌∷◌, ◌==◌, string_eq,
  nat_eq, option_eq, Bool-cases, deref, All,
}
use cluster_api_provider_hos.Prelude.Exec.{Result, ok, err, wrapping}
use cluster_api_provider_hos.Prelude.Exec.{attempt}
use cluster_api_provider_hos.Prelude.Succeeds.{bind-ok, wrapping-ok, fail-ok, attempt-ok}
use cluster_api_provider_hos.Prelude.Sorting.{lookup, assign}
use cluster_api_provider_hos.Api.{Cluster}
use cluster_api_provider_hos.Names.{get_ca_certificate_name}
use cluster_api_provider_hos.Rotation.{
  MachineDeployment, MachinePool, Machines, ca_not_before_annotation, rotate_deployments,
  rotate_pools, rotate, with_certificate, reconcile_ca_rotation,
}

module _ {S : Type 0} (m : Machines S) where
  -- The machine deployment rolls out after this time: it did already, or it was patched to.
  abbrev pub DeploymentReached : ℕ → MachineDeployment → Type 0
  DeploymentReached not_before d =
      (d.rollout_after ≡ not_before)
      ⊎ ((u v : S) × (m.patch_deployment (record d { rollout_after = not_before }) u ≡ (ok tt, v)))

  abbrev pub PoolReached : String → MachinePool → Type 0
  PoolReached not_before p =
      (deref (lookup ca_not_before_annotation p.annotations) "" ≡ not_before)
      ⊎ ((u v : S) × (m.patch_pool
              (record p {
                annotations = assign p.annotations ((ca_not_before_annotation, not_before) ∷ []);
              })
              u
            ≡ (ok tt, v)))

  rotate_deployments-ok :
      (not_before : ℕ) (ds : List MachineDeployment) (s t : S)
      → rotate_deployments m not_before ds s ≡ (ok tt, t)
      → All (DeploymentReached not_before) ds
  unfolding rotate_deployments
  rotate_deployments-ok not_before [] s t h = tt
  rotate_deployments-ok not_before (d ∷ ds) s t h =
      elim (Bool-cases (d.rollout_after == not_before)) [
        | inl same ↦ (
          inl ((nat_eq.beq_iff d.rollout_after not_before).0 same),
          rotate_deployments-ok not_before ds s t (rw same at h),
        )
        | inr other ↦
            let patch = m.patch_deployment (record d { rollout_after = not_before }) in
            let (_, patched, h1) = bind-ok (wrapping _ patch) _ s t tt (rw other at h) in
            let u : S = (patch s).1 in
            (
              inr (s, u, wrapping-ok _ patch s u tt patched),
              rotate_deployments-ok not_before ds u t h1,
            )
      ]

  rotate_pools-ok :
      (not_before : String) (ps : List MachinePool) (s t : S)
      → rotate_pools m not_before ps s ≡ (ok tt, t)
      → All (PoolReached not_before) ps
  unfolding rotate_pools
  rotate_pools-ok not_before [] s t h = tt
  rotate_pools-ok not_before (p ∷ ps) s t h =
      let current = deref (lookup ca_not_before_annotation p.annotations) "" in
      elim (Bool-cases (current == not_before)) [
        | inl same ↦ (
          inl ((string_eq.beq_iff current not_before).0 same),
          rotate_pools-ok not_before ps s t (rw same at h),
        )
        | inr other ↦
            let patch = m.patch_pool (record p {
              annotations = assign p.annotations ((ca_not_before_annotation, not_before) ∷ []);
            }) in
            let (_, patched, h1) = bind-ok (wrapping _ patch) _ s t tt (rw other at h) in
            let u : S = (patch s).1 in
            (inr (s, u, wrapping-ok _ patch s u tt patched), rotate_pools-ok not_before ps u t h1)
      ]

  -- Every machine that is listed, from the state `u` on, has been reached.
  abbrev pub Reached : Cluster → ℕ → S → S → Type 0
  Reached cluster not_before u v =
      ((ds : List MachineDeployment) × ((m.list_deployments cluster u).0 ≡ ok ds)
        × All (DeploymentReached not_before) ds)
      × ((ps : List MachinePool) × ((m.list_pools cluster v).0 ≡ ok ps)
          × All (PoolReached (m.format not_before)) ps)

  rotate-Reached :
      (cluster : Cluster) (not_before : ℕ) (s t : S)
      → rotate m cluster not_before s ≡ (ok tt, t)
      → (v : S) × Reached cluster not_before s v
  unfolding rotate
  rotate-Reached cluster not_before s t h =
      let list_deployments = m.list_deployments cluster in
      let list_pools = m.list_pools cluster in
      let (ds, listed, h1) = bind-ok (wrapping _ list_deployments) _ s t tt h in
      let u : S = (list_deployments s).1 in
      let (_, rotated, h2) = bind-ok (rotate_deployments m not_before ds) _ u t tt h1 in
      let v : S = (rotate_deployments m not_before ds u).1 in
      let (ps, found, h3) = bind-ok (wrapping _ list_pools) _ v t tt h2 in
      (
        v,
        (
          (
            ds,
            ap (λ x. x.0) (wrapping-ok _ list_deployments s u ds listed),
            rotate_deployments-ok not_before ds u v rotated,
          ),
          (
            ps,
            ap (λ x. x.0) (wrapping-ok _ list_pools v (list_pools v).1 ps found),
            rotate_pools-ok (m.format not_before) ps (list_pools v).1 t h3,
          ),
        ),
      )

  with_certificate-ok :
      (cluster : Cluster) (r : Result (Option ℕ)) (s t : S)
      → with_certificate m cluster r s ≡ (ok tt, t)
      → (not_before : ℕ) × (v : S) × (r ≡ ok (some not_before)) × Reached cluster not_before s v
  unfolding with_certificate
  with_certificate-ok cluster (ok none) s t h = fail-ok _ s t tt h
  with_certificate-ok cluster (ok (some not_before)) s t h =
      let (v, reached) = rotate-Reached cluster not_before s t h in (not_before, v, refl, reached)
  with_certificate-ok cluster (err e) s t h = fail-ok _ s t tt h

  -- A rotation that succeeds has read the start of the CA's validity, and every machine deployment
  -- and every machine pool that was listed has it, or was patched to have it.
  pub reconcile_ca_rotation-Reached :
      (cluster : Cluster) (s t : S)
      → reconcile_ca_rotation m cluster s ≡ (ok tt, t)
      → (not_before : ℕ) × (u v : S) × (m.get_not_before (get_ca_certificate_name cluster) s
          ≡ (ok (some not_before), u))
        × Reached cluster not_before u v
  unfolding reconcile_ca_rotation
  reconcile_ca_rotation-Reached cluster s t h =
      let get = m.get_not_before (get_ca_certificate_name cluster) in
      let (r, asked, h1) = bind-ok (attempt get) (with_certificate m cluster) s t tt h in
      let u : S = (get s).1 in
      let (not_before, v, found, reached) = with_certificate-ok cluster r u t h1 in
      (not_before, u, v, attempt-ok get s u r asked ∙ (λ i. (found i, u)), reached)
