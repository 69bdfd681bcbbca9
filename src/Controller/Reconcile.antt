-- ===== src/Controller/Reconcile.antt =====
-- `Reconcile` and `reconcileDelete` of pkg/hostedcontrolplane/controller.go: the checks before the
-- resource is worked on, and the patch that is deferred behind the work.
pub mod Laws
pub mod Deletion
use text.Mathlib.Text.{find?}
use cluster_api_provider_hos.Prelude.{
  ℕ, ◌*◌, ◌/◌, ◌<◌, String, Bool, true, false, not, ◌||◌, Option, none, some, arith, ◌==◌,
  string_eq, nat_eq, Eq, option_eq, if◌then◌else◌, ◌<>◌, is_some, filter, find,
}
use cluster_api_provider_hos.Prelude.Exec.{
  Error, wrap, join, Result, ok, err, Exec, pure, wrapping, modify, ◌>>=◌, ◌>>◌,
}
use cluster_api_provider_hos.Api.{HostedControlPlane, Cluster, second, is_zero_time}
use cluster_api_provider_hos.Controller.State.{State, CtrlResult, ConditionStore}
use cluster_api_provider_hos.Controller.Patch.{Patching, patch}
use cluster_api_provider_hos.Controller.Normal.{Environment, reconcile_normal}

-- The answer of `client.Get`.
pub data Lookup (Q : Type 0) : Type 0 where
  not_found : Lookup Q
  failed : Error → Lookup Q
  found : HostedControlPlane Q → Lookup Q

-- The client of the management cluster, and the functions of Cluster API that use it. They may
-- change the object in memory.
pub record ApiClient (Q W : Type 0) : Type 0 where
  pub get : String → String → W → Lookup Q
  pub get_owner_cluster : Exec (State Q W) (Option Cluster)
  pub ensure_paused_condition : Cluster → Exec (State Q W) (Bool × Bool)
  pub ensure_finalizer : String → Exec (State Q W) Bool

abbrev pub done : CtrlResult
done = record { requeue_after = 0 }

abbrev pub wait_for_owner : CtrlResult
wait_for_owner = record { requeue_after = 5 * second }

abbrev pub wait_while_paused : CtrlResult
wait_while_paused = record { requeue_after = 10 * second }

-- `strings.Contains(s, "/")`.
abbrev pub has_slash : String → Bool
has_slash s = is_some (find? s "/")

-- A resource is named by the filter, with or without its namespace.
unfoldable pub is_named : String → String → String → Bool
is_named reconcile_filter namespace name =
    if has_slash reconcile_filter
    then namespace <> "/" <> name == reconcile_filter
    else name == reconcile_filter

unfoldable pub passes_filter : {Q : Type 0} → String → HostedControlPlane Q → Cluster → Bool
unfolding is_named
passes_filter reconcile_filter h c =
    reconcile_filter == ""
    || is_named reconcile_filter h.namespace h.name
    || is_named reconcile_filter c.namespace c.name

-- `errors.Join(retErr, err)` in the deferred function.
unfoldable pub joined : {A : Type 0} → Result A → Result (Unit {0}) → Result A
joined r (ok u) = r
joined (ok a) (err e) = err e
joined (err d) (err e) = err (join d e)

-- The fields of `hostedControlPlaneReconciler` that are read here, with the interfaces behind them.
pub record HostedControlPlaneReconciler (Q W : Type 0) : Type 1 where
  pub store : ConditionStore
  pub environment : Environment Q W
  pub patching : Patching Q W
  pub client : ApiClient Q W
  pub reconcile_filter : String
  pub finalizer : String

module _ {Q W : Type 0} where
  abbrev pub managed_externally : State Q W → State Q W
  managed_externally s = record s {
    hcp = record s.hcp {
      status = record s.hcp.status { external_managed_control_plane = some true };
    };
  }

  abbrev pub observed : State Q W → State Q W
  observed s = record s {
    hcp = record s.hcp { status = record s.hcp.status { observed_generation = s.hcp.generation } };
  }

  unfoldable pub is_deleted : State Q W → Bool
  is_deleted s = not (is_zero_time s.hcp.deletion_timestamp)

module _ {Q W : Type 0} (r : HostedControlPlaneReconciler Q W) where
  open r use {store, environment, patching, client, reconcile_filter, finalizer}
  open client use {get, get_owner_cluster, ensure_paused_condition, ensure_finalizer}

  -- `controllerutil.RemoveFinalizer`: every occurrence goes.
  unfoldable pub remove_finalizer : State Q W → State Q W
  remove_finalizer s = record s {
    hcp = record s.hcp { finalizers = filter (λ f. not (f == finalizer)) s.hcp.finalizers };
  }

  unfoldable pub reconcile_delete : Exec (State Q W) CtrlResult
  reconcile_delete = do modify remove_finalizer; pure done

  unfoldable pub work : Cluster → Exec (State Q W) CtrlResult
  work cluster s =
      if is_deleted s then reconcile_delete s else reconcile_normal store environment cluster s

  -- The deferred function runs behind the work, whatever that returns.
  unfoldable pub deferred_patch :
      patching.Helper → Exec (State Q W) CtrlResult → Exec (State Q W) CtrlResult
  deferred_patch helper body s =
      let (r, s') = body s in let (q, t) = patch patching helper (observed s') in (joined r q, t)

  unfoldable pub reconcile_patched : Cluster → Exec (State Q W) CtrlResult
  reconcile_patched cluster = do
    helper ← wrapping "failed to create patch helper for HostedControlPlane" patching.new_helper
    modify managed_externally
    deferred_patch helper (work cluster)

  unfoldable pub add_finalizer : Exec (State Q W) Bool
  add_finalizer s =
      if is_deleted s
      then (ok false, s)
      else wrapping "failed to ensure finalizer" (ensure_finalizer finalizer) s

  unfoldable pub reconcile_active : Cluster → Exec (State Q W) CtrlResult
  reconcile_active cluster = do
    added ← add_finalizer
    if added then pure done else reconcile_patched cluster

  unfoldable pub unless_paused : Cluster → Bool × Bool → Exec (State Q W) CtrlResult
  unless_paused cluster (is_paused, requeue) =
      if is_paused || requeue then pure wait_while_paused else reconcile_active cluster

  unfoldable pub reconcile_owned : Option Cluster → Exec (State Q W) CtrlResult
  reconcile_owned none s = (ok wait_for_owner, s)
  reconcile_owned (some cluster) s =
      if passes_filter reconcile_filter s.hcp cluster
      then (do
        answer ← wrapping "failed to verify paused condition" (ensure_paused_condition cluster)
        unless_paused cluster answer)
          s
      else (ok done, s)

  unfoldable pub reconcile_found : Exec (State Q W) CtrlResult
  reconcile_found = do
    owner ← wrapping "failed to retrieve owner Cluster" get_owner_cluster
    reconcile_owned owner

  unfoldable pub after_get : Lookup Q → W → Result CtrlResult × W
  after_get not_found w = (ok done, w)
  after_get (failed e) w = (err (wrap "failed to get HostedControlPlane" e), w)
  after_get (found h) w =
      let (r, s) = reconcile_found (record { hcp = h; world = w }) in (r, s.world)

  unfoldable pub reconcile : String → String → W → Result CtrlResult × W
  unfolding after_get
  reconcile namespace name w = after_get (get namespace name w) w
