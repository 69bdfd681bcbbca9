-- ===== src/Controller/Reconcile/Laws.antt =====
-- What holds when the work on a resource is reported as a success.
use cluster_api_provider_hos.Prelude.{◌≡◌, refl, ap, string_eq, nat_eq, option_eq}
use cluster_api_provider_hos.Prelude.Exec.{
  Result, ok, err, wrap_result, modify, continue, ◌>>=◌, ◌>>◌,
}
use cluster_api_provider_hos.Api.{Cluster}
use cluster_api_provider_hos.Controller.State.{State, CtrlResult}
use cluster_api_provider_hos.Controller.Patch.{patch}
use cluster_api_provider_hos.Controller.Reconcile.{
  HostedControlPlaneReconciler, joined, work, managed_externally, observed, deferred_patch,
  reconcile_patched,
}

joined_ok :
    {A : Type 0} (r : Result A) (q : Result (Unit {0})) (a : A)
    → joined r q ≡ ok a
    → (r ≡ ok a) × (q ≡ ok tt)
unfolding joined
joined_ok r (ok u) a h = (h, refl)
joined_ok (ok b) (err e) a h = cc
joined_ok (err d) (err e) a h = cc

module _ {Q W : Type 0} (r : HostedControlPlaneReconciler Q W) where
  -- When the work on the resource is reported as a success, then the work itself has succeeded with
  -- that result, and the state that it left, with the observed generation set to the generation,
  -- has been patched without an error; a failing patch is never hidden by work that succeeds.
  pub reconcile_patched-ok :
      (cluster : Cluster) (s t : State Q W) (result : CtrlResult)
      → reconcile_patched r cluster s ≡ (ok result, t)
      → (helper : r.patching.Helper) × (u v : State Q W) × (r.patching.new_helper s
          ≡ (ok helper, u))
        × (work r cluster (managed_externally u) ≡ (ok result, v))
        × (patch r.patching helper (observed v) ≡ (ok tt, t))
  unfolding reconcile_patched deferred_patch ◌>>=◌
  reconcile_patched-ok cluster s t result h = created (r.patching.new_helper s).0 _ refl h
    where
      created :
          (a : Result r.patching.Helper) (u : State Q W)
          → r.patching.new_helper s ≡ (a, u)
          → continue
              (wrap_result "failed to create patch helper for HostedControlPlane" a)
              (λ helper. modify managed_externally >> deferred_patch r helper (work r cluster))
              u
            ≡ (ok result, t)
          → (helper : r.patching.Helper) × (u v : State Q W) × (r.patching.new_helper s
              ≡ (ok helper, u))
            × (work r cluster (managed_externally u) ≡ (ok result, v))
            × (patch r.patching helper (observed v) ≡ (ok tt, t))
      created (err e) u q h = cc (ap (λ (x : Result CtrlResult × State Q W). x.0) h)
      created (ok helper) u q h =
          let (b, v) = work r cluster (managed_externally u) in
          let (c, w) = patch r.patching helper (observed v) in
          let both : (b ≡ ok result) × (c ≡ ok tt) =
            joined_ok b c result (ap (λ (x : Result CtrlResult × State Q W). x.0) h) in
          (helper, u, v, q, (λ i. (both.0 i, v)), (λ i. (both.1 i, (h i).1)))
