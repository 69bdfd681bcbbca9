-- ===== src/Controller/Normal/Flags.antt =====
-- The status flags `Ready` and `Initialization.ControlPlaneInitialized` over `reconcileNormal`.
use cluster_api_provider_hos.Prelude.{
  String, ◌≡◌, refl, sym, ap, ◌∙◌, subst, inl, inr, Bool, true, Option, some, List, [], ◌∷◌, ◌==◌,
  string_eq, nat_eq, Bool-cases,
}
use cluster_api_provider_hos.Prelude.Exec.{
  Result, ok, err, Exec, pure, wrap_result, continue, ◌>>=◌,
}
use cluster_api_provider_hos.Api.{Cluster}
use cluster_api_provider_hos.Controller.State.{State, CtrlResult, ConditionStore}
use cluster_api_provider_hos.Controller.Phases.{Phase, set_condition, after_phase, run_phases}
use cluster_api_provider_hos.Controller.Normal.{
  Reconcilers, phases, no_reason, reconcile_deployments, deployments_ready, reconcile_admin,
  set_ready,
}

pub record Flags : Type 0 where
  pub initialized : Option Bool
  pub ready : Bool

abbrev pub flags : {Q W : Type 0} → State Q W → Flags
flags s = record {
  initialized = s.hcp.status.control_plane_initialized;
  ready = s.hcp.status.ready;
}

-- An action that leaves both flags alone.
abbrev pub KeepsFlags : {Q W A : Type 0} → Exec (State Q W) A → Type 0
KeepsFlags {Q} {W} x = (s : State Q W) → flags (x s).1 ≡ flags s

-- None of the reconcilers writes the two flags.
pub record KeepFlags {Q W : Type 0} (r : Reconcilers Q W) : Type 0 where
  pub ca_certificates : (c : Cluster) → KeepsFlags (r.ca_certificates c)
  pub ca_bundles : (c : Cluster) → KeepsFlags (r.ca_bundles c)
  pub api_server_service : (c : Cluster) → KeepsFlags (r.api_server_service c)
  pub sync_control_plane_endpoint : (c : Cluster) → KeepsFlags (r.sync_control_plane_endpoint c)
  pub tls_routes : (c : Cluster) → KeepsFlags (r.tls_routes c)
  pub certificates : (c : Cluster) → KeepsFlags (r.certificates c)
  pub etcd_cluster : (c : Cluster) → KeepsFlags (r.etcd_cluster c)
  pub internal_kubeconfigs : (c : Cluster) → KeepsFlags (r.internal_kubeconfigs c)
  pub api_server_deployments : (c : Cluster) → KeepsFlags (r.api_server_deployments c)
  pub kubernetes_service : (c : Cluster) → KeepsFlags (r.kubernetes_service c)
  pub admin_kubeconfig : (c : Cluster) → KeepsFlags (r.admin_kubeconfig c)
  pub ca_rotation : (c : Cluster) → KeepsFlags (r.ca_rotation c)
  pub workload_cluster_resources : (c : Cluster) → KeepsFlags (r.workload_cluster_resources c)

-- Ready only with an initialized control plane.
abbrev pub ReadyNeedsInit : Flags → Type 0
ReadyNeedsInit f = f.ready ≡ true → f.initialized ≡ some true

abbrev IsInit : Flags → Type 0
IsInit f = f.initialized ≡ some true

weaken_init : (f : Flags) → IsInit f → ReadyNeedsInit f
weaken_init f h r = h

same : (f : Flags) → ReadyNeedsInit f → ReadyNeedsInit f
same f h = h

module _ {Q W : Type 0} (store : ConditionStore) (cluster : Cluster) where
  -- From `P`, the loop over `ps` ends with `ReadyNeedsInit`.
  unfoldable pub Leads : (Flags → Type 0) → List (Phase Q W) → Type 0
  Leads P ps =
      (s : State Q W) → P (flags s) → ReadyNeedsInit (flags (run_phases store ps cluster s).1)

  after_phase-flags :
      (p : Phase Q W) (r : Result String) (rest : Exec (State Q W) CtrlResult) (s : State Q W)
      → ReadyNeedsInit (flags s)
      → (r ≡ ok "" → (t : State Q W) → flags t ≡ flags s → ReadyNeedsInit (flags (rest t).1))
      → ReadyNeedsInit (flags (after_phase store p r rest s).1)
  unfolding after_phase set_condition
  after_phase-flags p (err e) rest s h k = h
  after_phase-flags p (ok reason) rest s h k = elim (Bool-cases (reason == "")) [
    | inl e ↦ rw e (k (ap ok ((string_eq.beq_iff reason "").0 e)) _ refl)
    | inr e ↦ rw e h
  ]

  Leads-cons :
      (P R : Flags → Type 0) (p : Phase Q W) (ps : List (Phase Q W))
      → ((s : State Q W) → P (flags s) → ReadyNeedsInit (flags (p.reconcile cluster s).1))
      → ((s : State Q W)
          → P (flags s)
          → (p.reconcile cluster s).0 ≡ ok ""
          → R (flags (p.reconcile cluster s).1))
      → Leads R ps
      → Leads P (p ∷ ps)
  unfolding run_phases Leads
  Leads-cons P R p ps keep done later s h =
      after_phase-flags p (p.reconcile cluster s).0 (run_phases store ps cluster)
        (p.reconcile cluster s).1 (keep s h) λ e t q. later t (subst R (sym q) (done s h e))

  -- A phase that leaves the flags alone.
  Leads-keeps :
      (P : Flags → Type 0) (p : Phase Q W) (ps : List (Phase Q W))
      → ((f : Flags) → P f → ReadyNeedsInit f)
      → KeepsFlags (p.reconcile cluster)
      → Leads P ps
      → Leads P (p ∷ ps)
  Leads-keeps P p ps weaken keep =
      Leads-cons P P p ps (λ s h. weaken _ (subst P (sym (keep s)) h))
        (λ s h e. subst P (sym (keep s)) h)

Leads-nil :
    (Q W : Type 0) (store : ConditionStore) (cluster : Cluster)
    → Leads {Q = Q} {W = W} store cluster IsInit []
unfolding run_phases Leads
Leads-nil Q W store cluster s h r = h

ok-injective : (a b : String) → ok a ≡ ok b → a ≡ b
ok-injective a b q = cc

module _ {Q W : Type 0} where
  no_reason_flags :
      (r : Result Unit) (s : State Q W)
      → flags (continue {B = String} r (λ _. pure "") s).1 ≡ flags s
  no_reason_flags (ok u) s = refl
  no_reason_flags (err e) s = refl

  no_reason-KeepsFlags : (x : Exec (State Q W) Unit) → KeepsFlags x → KeepsFlags (no_reason x)
  unfolding no_reason ◌>>=◌
  no_reason-KeepsFlags x k s = no_reason_flags (x s).0 (x s).1 ∙ k s

  deployments_flags :
      (m : String) (r : Result String) (s : State Q W)
      → ReadyNeedsInit (flags s)
      → let (r', s') = continue (wrap_result m r) deployments_ready s in
        ReadyNeedsInit (flags s') × (r' ≡ ok "" → IsInit (flags s'))
  unfolding deployments_ready
  deployments_flags m (err e) s h = (h, λ q. cc)
  deployments_flags m (ok reason) s h = elim (Bool-cases (reason == "")) [
    | inl e ↦ rw e ((λ r. refl), (λ q. refl))
    | inr e ↦ rw e (h, (λ q. cc ((string_eq.beq_iff reason "").1 (ok-injective reason "" q), e)))
  ]

  admin_flags :
      (m : String) (r : Result Unit) (s : State Q W)
      → IsInit (flags s)
      → IsInit (flags (continue {B = String} (wrap_result m r) (λ _ s'. (ok "", set_ready s')) s).1)
  admin_flags m (ok u) s h = h
  admin_flags m (err e) s h = h

-- The whole loop over the phases of the controller.
pub phases-lead :
    {Q W : Type 0} (store : ConditionStore) (cluster : Cluster) (r : Reconcilers Q W)
    → KeepFlags r
    → Leads store cluster ReadyNeedsInit (phases r)
unfolding phases reconcile_deployments reconcile_admin ◌>>=◌
phases-lead {Q} {W} store cluster r k = keeps _ _ (k.ca_certificates cluster) (
    keeps _ _ (k.ca_bundles cluster) (
      keeps _ _ (k.api_server_service cluster) (
        keeps _ _ (k.sync_control_plane_endpoint cluster) (
          keeps _ _ (k.tls_routes cluster) (
            keeps _ _ (k.certificates cluster) (
              keeps _ _ (k.etcd_cluster cluster) (
                keeps _ _ (no_reason-KeepsFlags _ (k.internal_kubeconfigs cluster)) (
                  Leads-cons store cluster ReadyNeedsInit IsInit _ _ (λ s h. (deploy s h).0)
                    (λ s h. (deploy s h).1)
                    (inits _ _ (k.kubernetes_service cluster) (
                      Leads-cons store cluster IsInit IsInit _ _ (λ s h. weaken_init _ (admin s h))
                        (λ s h e. admin s h)
                        (inits _ _ (no_reason-KeepsFlags _ (k.ca_rotation cluster))
                          (inits _ _ (k.workload_cluster_resources cluster) weaken))))))))))))
  where
    keeps :
        (p : Phase Q W) (ps : List (Phase Q W))
        → KeepsFlags (p.reconcile cluster)
        → Leads store cluster ReadyNeedsInit ps
        → Leads store cluster ReadyNeedsInit (p ∷ ps)
    keeps p ps = Leads-keeps store cluster ReadyNeedsInit p ps same

    inits :
        (p : Phase Q W) (ps : List (Phase Q W))
        → KeepsFlags (p.reconcile cluster)
        → Leads store cluster IsInit ps
        → Leads store cluster IsInit (p ∷ ps)
    inits p ps = Leads-keeps store cluster IsInit p ps weaken_init

    weaken : Leads {Q = Q} {W = W} store cluster IsInit []
    weaken = Leads-nil Q W store cluster

    deploy :
        (s : State Q W)
        → ReadyNeedsInit (flags s)
        → let (r', s') = reconcile_deployments (r.api_server_deployments cluster) s in
          ReadyNeedsInit (flags s') × (r' ≡ ok "" → IsInit (flags s'))
    deploy s h =
        deployments_flags _ (r.api_server_deployments cluster s).0
          (r.api_server_deployments cluster s).1
          (subst ReadyNeedsInit (sym (k.api_server_deployments cluster s)) h)

    admin :
        (s : State Q W)
        → IsInit (flags s)
        → IsInit (flags (reconcile_admin (r.admin_kubeconfig cluster) s).1)
    admin s h =
        admin_flags _ (r.admin_kubeconfig cluster s).0 (r.admin_kubeconfig cluster s).1
          (subst IsInit (sym (k.admin_kubeconfig cluster s)) h)
