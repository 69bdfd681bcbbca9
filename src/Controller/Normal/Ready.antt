-- ===== src/Controller/Normal/Ready.antt =====
-- `Ready` only with an initialized control plane, over the whole of `reconcileNormal`.
use cluster_api_provider_hos.Prelude.{
  String, refl, sym, ◌∙◌, subst, inl, inr, Option, List, ◌==◌, string_eq, nat_eq, Bool-cases,
  some_by,
}
use cluster_api_provider_hos.Prelude.Exec.{Result, ok, err, Exec, continue, ◌>>=◌}
use cluster_api_provider_hos.Prelude.Exec.{error_is}
use cluster_api_provider_hos.Api.{Cluster}
use cluster_api_provider_hos.Controller.State.{State, ConditionStore}
use cluster_api_provider_hos.Controller.Phases.{set_condition, run_phases}
use cluster_api_provider_hos.Controller.Normal.{
  Reconcilers, Environment, phases, find_cilium, keep_client, or_workload_failed, cluster_net,
  reconcile_normal, Settings, cilium_group, cilium_not_installed,
}
use cluster_api_provider_hos.Controller.Normal.Flags.{
  flags, KeepsFlags, KeepFlags, ReadyNeedsInit, Leads, phases-lead,
}

-- What the environment of `reconcileNormal` must leave alone.
pub record EnvironmentKeepsFlags {Q W : Type 0} (env : Environment Q W) : Type 0 where
  pub server_groups : KeepsFlags env.server_groups
  pub cilium_client : KeepsFlags env.cilium_client
  pub reconcilers : (a : Settings env.Net env.Ip env.Cilium) → KeepFlags (env.new_reconcilers a)

-- Rule for `do`: an action that keeps the flags, then one that keeps the property.
Holds : {Q W A : Type 0} → Exec (State Q W) A → Type 0
Holds {Q} {W} x = (s : State Q W) → ReadyNeedsInit (flags s) → ReadyNeedsInit (flags (x s).1)

module _ {Q W A B : Type 0} where
  continue-Holds :
      (r : Result A) (f : A → Exec (State Q W) B) (s : State Q W)
      → ((a : A) → Holds (f a))
      → ReadyNeedsInit (flags s)
      → ReadyNeedsInit (flags (continue r f s).1)
  unfolding Holds
  continue-Holds (ok a) f s k h = k a s h
  continue-Holds (err e) f s k h = h

  bind-Holds :
      (x : Exec (State Q W) A) (f : A → Exec (State Q W) B)
      → KeepsFlags x
      → ((a : A) → Holds (f a))
      → Holds (x >>= f)
  unfolding Holds ◌>>=◌
  bind-Holds x f keep k s h =
      continue-Holds (x s).0 f (x s).1 k (subst ReadyNeedsInit (sym (keep s)) h)

module _ {Q W : Type 0} (store : ConditionStore) (env : Environment Q W) where
  or_workload_failed-KeepsFlags :
      {A : Type 0} (what : String) (r : Result A)
      → KeepsFlags {Q = Q} {W = W} (or_workload_failed store env what r)
  unfolding or_workload_failed set_condition
  or_workload_failed-KeepsFlags what (ok a) s = refl
  or_workload_failed-KeepsFlags what (err e) s = refl

  cluster_net-KeepsFlags :
      (kind : String) (default : env.Net) (text : String)
      → KeepsFlags (cluster_net store env kind default text)
  unfolding cluster_net
  cluster_net-KeepsFlags kind default text s = elim (Bool-cases (text == "")) [
    | inl e ↦ rw e
    | inr e ↦ rw e (or_workload_failed-KeepsFlags _ (env.parse_cidr text) s)
  ]

  keep_client-KeepsFlags : (r : Result (Option env.Cilium)) → KeepsFlags (keep_client store env r)
  unfolding keep_client
  keep_client-KeepsFlags (ok c) s = refl
  keep_client-KeepsFlags (err e) s = elim (Bool-cases (error_is e cilium_not_installed)) [
    | inl t ↦ rw t
    | inr t ↦ rw t
  ]

  find_cilium-KeepsFlags :
      (groups : List String)
      → KeepsFlags env.cilium_client
      → KeepsFlags (find_cilium store env groups)
  unfolding find_cilium ◌>>=◌
  find_cilium-KeepsFlags groups k s = elim (Bool-cases (some_by (λ g. g == cilium_group) groups)) [
    | inl t ↦ rw t (keep_client-KeepsFlags (env.cilium_client s).0 (env.cilium_client s).1 ∙ k s)
    | inr t ↦ rw t
  ]

  phases-Holds :
      (cluster : Cluster) (r : Reconcilers Q W)
      → KeepFlags r
      → Holds (run_phases store (phases r) cluster)
  unfolding Holds Leads
  phases-Holds cluster r k = phases-lead store cluster r k

  reconcile_normal-Holds :
      (cluster : Cluster) → EnvironmentKeepsFlags env → Holds (reconcile_normal store env cluster)
  unfolding reconcile_normal
  reconcile_normal-Holds cluster k =
      bind-Holds _ _ (cluster_net-KeepsFlags "Service" (env.ipv4_net 10 96 0 0 12) cluster.services)
        λ service_cidr.
          bind-Holds _ _ (cluster_net-KeepsFlags "Pod" (env.ipv4_net 10 0 0 0 16) cluster.pods)
            λ pod_cidr.
              bind-Holds _ _ (or_workload_failed-KeepsFlags _ (env.get_indexed_ip service_cidr 10))
                λ dns.
                  bind-Holds _ _
                    (or_workload_failed-KeepsFlags _ (env.get_indexed_ip service_cidr 1))
                    λ ip. bind-Holds _ _ k.server_groups λ groups.
                      bind-Holds _ _ (find_cilium-KeepsFlags groups k.cilium_client) λ cilium.
                        bind-Holds _ _ (λ s. refl) λ certs. phases-Holds cluster _ (k.reconcilers _)

  -- If the resource is Ready only with an initialized control plane, then so it is after
  -- `reconcileNormal`, whether that succeeds, fails or stops at a phase that is not ready. It is
  -- assumed that the reconcilers behind the interfaces, the discovery and the Cilium client do not
  -- write the two flags themselves.
  pub reconcile_normal-ready :
      (cluster : Cluster)
      → EnvironmentKeepsFlags env
      → (s : State Q W) → ReadyNeedsInit (flags s)
      → ReadyNeedsInit (flags (reconcile_normal store env cluster s).1)
  unfolding Holds
  reconcile_normal-ready cluster k = reconcile_normal-Holds cluster k
