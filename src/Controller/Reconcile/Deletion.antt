-- ===== src/Controller/Reconcile/Deletion.antt =====
-- What `Reconcile` does to a resource that is being deleted.
use cluster_api_provider_hos.Prelude.{
  ◌≡◌, ap, sym, ◌∙◌, ◌⊎◌, inl, inr, Bool, true, false, ◌||◌, Option, none, some, Bool-cases,
  string_eq, nat_eq, option_eq,
}
use cluster_api_provider_hos.Prelude.Exec.{ok, Exec, wrapping, ◌>>=◌}
use cluster_api_provider_hos.Prelude.Succeeds.{bind-ok, wrapping-ok, pure-ok}
use cluster_api_provider_hos.Api.{Cluster}
use cluster_api_provider_hos.Controller.State.{State, CtrlResult}
use cluster_api_provider_hos.Controller.Patch.{patch}
use cluster_api_provider_hos.Controller.Reconcile.{
  HostedControlPlaneReconciler, work, reconcile_delete, managed_externally, observed, is_deleted,
  add_finalizer, reconcile_patched, reconcile_active, unless_paused, reconcile_owned,
  reconcile_found, remove_finalizer, passes_filter, done, wait_for_owner, wait_while_paused,
}
use cluster_api_provider_hos.Controller.Reconcile.Laws.{reconcile_patched-ok}

module _ {Q W : Type 0} (r : HostedControlPlaneReconciler Q W) where
  open r use {patching, client, reconcile_filter}

  -- A call that changes nothing of whether the resource is being deleted.
  abbrev pub KeepsDeletion : {A : Type 0} → Exec (State Q W) A → Type 0
  KeepsDeletion x = (s : State Q W) → is_deleted (x s).1 ≡ is_deleted s

  -- The resource without the finalizer is patched.
  abbrev pub Released : State Q W → CtrlResult → State Q W → Type 0
  Released s result t =
      (helper : patching.Helper) × (u : State Q W) × (patching.new_helper s ≡ (ok helper, u))
      × (result ≡ done)
      × (patch patching helper (observed (remove_finalizer r (managed_externally u))) ≡ (ok tt, t))

  -- The resource is kept, as the filter or the pause wants it, or is released.
  abbrev pub Answered : Cluster → State Q W → CtrlResult → State Q W → Type 0
  Answered c s result t =
      ((passes_filter reconcile_filter s.hcp c ≡ false) × (result ≡ done) × (t ≡ s))
      ⊎ ((is_paused requeue : Bool) × (u : State Q W) × (passes_filter reconcile_filter s.hcp c
            ≡ true)
          × (client.ensure_paused_condition c s ≡ (ok (is_paused, requeue), u))
          × (((is_paused || requeue ≡ true) × (result ≡ wait_while_paused) × (t ≡ u))
              ⊎ ((is_paused || requeue ≡ false) × Released u result t)))

  reconcile_active-Released :
      (c : Cluster) (s t : State Q W) (result : CtrlResult)
      → KeepsDeletion patching.new_helper
      → is_deleted s ≡ true
      → reconcile_active r c s ≡ (ok result, t)
      → Released s result t
  unfolding reconcile_active add_finalizer ◌>>=◌ work reconcile_delete is_deleted
  reconcile_active-Released c s t result keeps deleted h =
      let patched : reconcile_patched r c s ≡ (ok result, t) = rw deleted at h in
      let (helper, u, v, created, worked, sent) = reconcile_patched-ok r c s t result patched in
      let there : is_deleted u ≡ true =
        ap (λ p. is_deleted p.1) (sym created) ∙ keeps s ∙ deleted in
      let (same, after) =
        pure-ok done (remove_finalizer r (managed_externally u)) v result (rw there at worked) in
      (helper, u, created, sym same, rw after sent)

  unless_paused-Answered :
      (c : Cluster) (s u t : State Q W) (answer : Bool × Bool) (result : CtrlResult)
      → KeepsDeletion patching.new_helper
      → is_deleted u ≡ true
      → passes_filter reconcile_filter s.hcp c ≡ true
      → client.ensure_paused_condition c s ≡ (ok answer, u)
      → unless_paused r c answer u ≡ (ok result, t)
      → Answered c s result t
  unfolding unless_paused
  unless_paused-Answered c s u t (is_paused, requeue) result keeps deleted passes asked h =
      elim (Bool-cases (is_paused || requeue)) [
        | inl waits ↦
            let (same, there) = pure-ok wait_while_paused u t result (rw waits at h) in
            inr (is_paused, requeue, u, passes, asked, inl (waits, sym same, sym there))
        | inr runs ↦ inr (
          is_paused,
          requeue,
          u,
          passes,
          asked,
          inr (runs, reconcile_active-Released c u t result keeps deleted (rw runs at h)),
        )
      ]

  reconcile_owned-Answered :
      (c : Cluster) (s t : State Q W) (result : CtrlResult)
      → KeepsDeletion (client.ensure_paused_condition c)
      → KeepsDeletion patching.new_helper
      → is_deleted s ≡ true
      → reconcile_owned r (some c) s ≡ (ok result, t)
      → Answered c s result t
  unfolding reconcile_owned
  reconcile_owned-Answered c s t result keeps keeps_too deleted h =
      elim (Bool-cases (passes_filter reconcile_filter s.hcp c)) [
        | inl passes ↦
            let (answer, asked, rest) =
              bind-ok
                (wrapping "failed to verify paused condition" (client.ensure_paused_condition c))
                (unless_paused r c) s t result (rw passes at h) in
            unless_paused-Answered c s (client.ensure_paused_condition c s).1 t answer result
              keeps_too (keeps s ∙ deleted) passes
              (wrapping-ok "failed to verify paused condition" (client.ensure_paused_condition c) s
                (client.ensure_paused_condition c s).1 answer asked)
              rest
        | inr filtered ↦
            let (same, there) = pure-ok done s t result (rw filtered at h) in
            inl (filtered, sym same, sym there)
      ]

  -- For a resource that is being deleted, where neither the calls of Cluster API nor the creation of
  -- the patch helper change whether it is: when `Reconcile` succeeds, then either the resource has no
  -- owner yet, and it waits for one; or the filter leaves it out; or the pause keeps it waiting, and
  -- the state is the one that those calls left; or else a patch of the resource without the finalizer
  -- has succeeded, as the last call.
  pub reconcile_found-Deleted :
      (s t : State Q W) (result : CtrlResult)
      → KeepsDeletion client.get_owner_cluster
      → ((c : Cluster) → KeepsDeletion (client.ensure_paused_condition c))
      → KeepsDeletion patching.new_helper
      → is_deleted s ≡ true
      → reconcile_found r s ≡ (ok result, t)
      → ((client.get_owner_cluster s ≡ (ok none, t)) × (result ≡ wait_for_owner))
        ⊎ ((c : Cluster) × (u : State Q W) × (client.get_owner_cluster s ≡ (ok (some c), u))
            × Answered c u result t)
  unfolding reconcile_found reconcile_owned
  reconcile_found-Deleted s t result finds asks creates deleted h =
      let (owner, found, rest) =
        bind-ok (wrapping "failed to retrieve owner Cluster" client.get_owner_cluster)
          (reconcile_owned r) s t result h in
      let got =
        wrapping-ok "failed to retrieve owner Cluster" client.get_owner_cluster s
          (client.get_owner_cluster s).1 owner found in
      owned owner got rest
    where
      owned :
          (owner : Option Cluster)
          → client.get_owner_cluster s ≡ (ok owner, (client.get_owner_cluster s).1)
          → reconcile_owned r owner (client.get_owner_cluster s).1 ≡ (ok result, t)
          → ((client.get_owner_cluster s ≡ (ok none, t)) × (result ≡ wait_for_owner))
            ⊎ ((c : Cluster) × (u : State Q W) × (client.get_owner_cluster s ≡ (ok (some c), u))
                × Answered c u result t)
      owned none got rest =
          let (same, there) = pure-ok wait_for_owner (client.get_owner_cluster s).1 t result rest in
          inl (got ∙ (λ i. (ok none, there i)), sym same)
      owned (some c) got rest = inr (
        c,
        (client.get_owner_cluster s).1,
        got,
        reconcile_owned-Answered c (client.get_owner_cluster s).1 t result (asks c) creates
            (finds s ∙ deleted) rest,
      )
