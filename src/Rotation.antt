-- ===== src/Rotation.antt =====
-- pkg/reconcilers/node_rotation/reconciler.go: `ReconcileCARotation` rolls the machines of a cluster
-- out when its CA changes. A time is a number of nanoseconds.
pub mod Laws
use cluster_api_provider_hos.Prelude.{
  ℕ, ◌-◌, ◌/◌, ◌<◌, String, Bool, Option, none, some, List, [], ◌∷◌, arith, ◌==◌, string_eq, nat_eq,
  Eq, option_eq, if◌then◌else◌, ◌<>◌, deref,
}
use cluster_api_provider_hos.Prelude.Exec.{
  Error, new, wrap, Result, ok, err, Exec, pure, fail, wrapping, ◌>>=◌, ◌>>◌,
}
use cluster_api_provider_hos.Prelude.Exec.{attempt}
use cluster_api_provider_hos.Prelude.Sorting.{lookup, assign}
use cluster_api_provider_hos.Api.{Cluster}
use cluster_api_provider_hos.Names.{get_ca_certificate_name}

-- A machine deployment: `Spec.Rollout.After` is the rest of the rollout.
pub record MachineDeployment : Type 0 where
  pub name : String
  pub namespace : String
  pub rollout_after : ℕ

-- A machine pool, with the annotations of its template.
pub record MachinePool : Type 0 where
  pub name : String
  pub namespace : String
  pub annotations : List (String × String)

-- The clients. `not_before` is that of the status of the certificate; `List` has the cluster's label
-- as selector; `format` writes a time as RFC 3339 does.
pub record Machines (S : Type 0) : Type 0 where
  pub is_not_found : Error → Bool
  pub get_not_before : String → Exec S (Option ℕ)
  pub list_deployments : Cluster → Exec S (List MachineDeployment)
  pub patch_deployment : MachineDeployment → Exec S (Unit {0})
  pub list_pools : Cluster → Exec S (List MachinePool)
  pub patch_pool : MachinePool → Exec S (Unit {0})
  pub format : ℕ → String

abbrev pub ca_certificate_missing : Error
ca_certificate_missing = new "CA Certificate missing"

abbrev pub ca_not_before_annotation : String
ca_not_before_annotation = "controlplane.cluster.x-k8s.io/ca-not-before"

module _ {S : Type 0} (m : Machines S) where
  -- The loop over the machine deployments.
  unfoldable pub rotate_deployments : ℕ → List MachineDeployment → Exec S (Unit {0})
  rotate_deployments not_before [] = pure tt
  rotate_deployments not_before (d ∷ ds) =
      let rest = rotate_deployments not_before ds in
      if d.rollout_after == not_before
      then rest
      else wrapping ("failed to patch MachineDeployment " <> d.namespace <> "/" <> d.name)
          (m.patch_deployment (record d { rollout_after = not_before }))
        >> rest

  -- The loop over the machine pools.
  unfoldable pub rotate_pools : String → List MachinePool → Exec S (Unit {0})
  rotate_pools not_before [] = pure tt
  rotate_pools not_before (p ∷ ps) =
      let rest = rotate_pools not_before ps in
      if deref (lookup ca_not_before_annotation p.annotations) "" == not_before
      then rest
      else wrapping ("failed to patch MachinePool " <> p.namespace <> "/" <> p.name) (
          m.patch_pool (record p {
            annotations = assign p.annotations ((ca_not_before_annotation, not_before) ∷ []);
          }))
        >> rest

  unfoldable pub rotate : Cluster → ℕ → Exec S (Unit {0})
  unfolding rotate_deployments rotate_pools
  rotate cluster not_before = do
    deployments ← wrapping "failed to list MachineDeployments" (m.list_deployments cluster)
    rotate_deployments not_before deployments
    pools ← wrapping "failed to list MachinePools" (m.list_pools cluster)
    rotate_pools (m.format not_before) pools

  unfoldable pub with_certificate : Cluster → Result (Option ℕ) → Exec S (Unit {0})
  unfolding rotate
  with_certificate cluster (ok none) = fail ca_certificate_missing
  with_certificate cluster (ok (some not_before)) = rotate cluster not_before
  with_certificate cluster (err e) =
      fail
        (if m.is_not_found e then ca_certificate_missing else wrap "failed to get CA certificate" e)

  unfoldable pub reconcile_ca_rotation : Cluster → Exec S (Unit {0})
  unfolding with_certificate
  reconcile_ca_rotation cluster = do
    certificate ← attempt (m.get_not_before (get_ca_certificate_name cluster))
    with_certificate cluster certificate
