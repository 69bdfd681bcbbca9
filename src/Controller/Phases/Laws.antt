-- ===== src/Controller/Phases/Laws.antt =====
-- What the phase loop of `reconcileNormal` does to the conditions of the resource.
use cluster_api_provider_hos.Prelude.{
  String, ◌≡◌, refl, sym, ap, ◌∙◌, ◌≢◌, inl, inr, false, some, List, [], ◌∷◌, ◌++◌, arith, ◌==◌,
  string_eq, nat_eq, beq_refl, not_equal, Bool-cases, All,
}
use cluster_api_provider_hos.Prelude.Exec.{Error, Result, ok, err, Exec}
use cluster_api_provider_hos.Api.{Cluster, Condition}
use cluster_api_provider_hos.Controller.State.{State, CtrlResult, ConditionStore, conditions}
use cluster_api_provider_hos.Controller.Phases.{
  Phase, requeue, requeue_soon, set_condition, phase_failed, phase_not_ready, phase_succeeded,
  after_phase, run_phases,
}

-- No phase of the list has the condition type `t`.
abbrev pub Fresh : {Q W : Type 0} → String → List (Phase Q W) → Type 0
Fresh t ps = All (λ p. (p.condition == t) ≡ false) ps

abbrev pub Distinct : {Q W : Type 0} → List (Phase Q W) → Type 0
Distinct [] = Unit
Distinct (p ∷ ps) = Fresh p.condition ps × Distinct ps

module _ {Q W : Type 0} (store : ConditionStore) where
  -- The reconciler of the phase leaves the condition of type `t` as it is; others it may set.
  abbrev pub Keeps : String → Phase Q W → Type 0
  Keeps t p =
      (cluster : Cluster) (s : State Q W)
      → store.get t (conditions (p.reconcile cluster s).1) ≡ store.get t (conditions s)

  -- No phase changes the condition of a phase before it.
  abbrev pub KeepsEarlier : List (Phase Q W) → Type 0
  KeepsEarlier [] = Unit
  KeepsEarlier (p ∷ ps) = All (Keeps p.condition) ps × KeepsEarlier ps

  -- The phases have run one behind the other from `s` to `t`, and each answered "ready".
  abbrev pub Ran : List (Phase Q W) → Cluster → State Q W → State Q W → Type 0
  Ran [] cluster s t = s ≡ t
  Ran (p ∷ ps) cluster s t =
      (u : State Q W) × (p.reconcile cluster s ≡ (ok "", u))
      × Ran ps cluster (set_condition store (phase_succeeded store p) u) t

  pub get-set_condition_self :
      (c : Condition) (s : State Q W)
      → store.get c.type (conditions (set_condition store c s)) ≡ some c
  unfolding set_condition
  get-set_condition_self c s = rw (store.get-set, beq_refl c.type)

  pub get-set_condition_ne :
      (t : String) (c : Condition) (s : State Q W)
      → (c.type == t) ≡ false
      → store.get t (conditions (set_condition store c s)) ≡ store.get t (conditions s)
  unfolding set_condition
  get-set_condition_ne t c s h = rw (store.get-set, h)

  after_phase_other :
      (t : String) (p : Phase Q W) (r : Result String) (rest : Exec (State Q W) CtrlResult)
      (s : State Q W)
      → (p.condition == t) ≡ false
      → ((s' : State Q W) → store.get t (conditions (rest s').1) ≡ store.get t (conditions s'))
      → store.get t (conditions (after_phase store p r rest s).1) ≡ store.get t (conditions s)
  unfolding after_phase phase_failed phase_not_ready phase_succeeded
  after_phase_other t p (err e) rest s fresh h =
      get-set_condition_ne t (phase_failed store p e) s fresh
  after_phase_other t p (ok reason) rest s fresh h = elim (Bool-cases (reason == "")) [
    | inl e ↦ rw e (h _ ∙ get-set_condition_ne t (phase_succeeded store p) s fresh)
    | inr e ↦ rw e (get-set_condition_ne t (phase_not_ready store p reason) s fresh)
  ]

  -- A condition that belongs to none of the phases is not touched by the loop.
  pub run_phases_other :
      (t : String) (ps : List (Phase Q W)) (cluster : Cluster) (s : State Q W)
      → Fresh t ps
      → All (Keeps t) ps
      → store.get t (conditions (run_phases store ps cluster s).1) ≡ store.get t (conditions s)
  unfolding run_phases after_phase
  run_phases_other t [] cluster s fresh keeps = refl
  run_phases_other t (p ∷ ps) cluster s fresh keeps =
      after_phase_other t p (p.reconcile cluster s).0 (run_phases store ps cluster)
        (p.reconcile cluster s).1 fresh.0 (λ s'. run_phases_other t ps cluster s' fresh.1 keeps.1)
      ∙ keeps.0 cluster s

  -- One step of the loop that ends with every phase done.
  step_done :
      (p : Phase Q W) (r : Result String) (rest : Exec (State Q W) CtrlResult) (s t : State Q W)
      → after_phase store p r rest s ≡ (ok requeue, t)
      → (r ≡ ok "") × (rest (set_condition store (phase_succeeded store p) s) ≡ (ok requeue, t))
  unfolding after_phase
  step_done p (err e) rest s t h = cc (ap (λ (x : Result CtrlResult × State Q W). x.0) h)
  step_done p (ok reason) rest s t h = elim (Bool-cases (reason == "")) [
    | inl e ↦ (ap ok ((string_eq.beq_iff reason "").0 e), (rw e at h))
    | inr e ↦ absurd (omega (arith, requeue_lem (rw e at h)))
  ]
    where
      requeue_lem :
          {x y : CtrlResult} {a b : State Q W}
          → ◌≡◌ {A = Result CtrlResult × State Q W} (ok x, a) (ok y, b)
          → x.requeue_after ≡ y.requeue_after
      requeue_lem q = ground arith

  -- If the loop ends with a requeue after a minute, then every phase has run, in the order of the
  -- list, each in the state that the one before it left, and answered "ready"; and the condition of
  -- each in the end is true with the reason ReconcileSucceeded. It is assumed that no phase's
  -- reconciler changes the condition of a phase before it, and that the condition types are
  -- distinct; a reconciler may set other conditions.
  pub run_phases-ready :
      (ps : List (Phase Q W)) (cluster : Cluster) (s t : State Q W)
      → run_phases store ps cluster s ≡ (ok requeue, t)
      → KeepsEarlier ps
      → Distinct ps
      → Ran ps cluster s t
        × All (λ p. store.get p.condition (conditions t) ≡ some (phase_succeeded store p)) ps
  unfolding run_phases phase_succeeded set_condition
  run_phases-ready [] cluster s t h keeps distinct =
      (ap (λ (x : Result CtrlResult × State Q W). x.1) h, tt)
  run_phases-ready (p ∷ ps) cluster s t h keeps distinct =
      let (answered, later) =
        step_done p (p.reconcile cluster s).0 (run_phases store ps cluster)
          (p.reconcile cluster s).1 t h in
      let (ran, ready) = run_phases-ready ps cluster _ t later keeps.1 distinct.1 in
      (
        ((p.reconcile cluster s).1, (λ i. (answered i, (p.reconcile cluster s).1)), ran),
        (
          ap (λ (x : Result CtrlResult × State Q W). store.get p.condition (conditions x.1))
                (sym later)
              ∙ run_phases_other p.condition ps cluster _ distinct.0 keeps.0
              ∙ get-set_condition_self (phase_succeeded store p) (p.reconcile cluster s).1,
          ready,
        ),
      )

  -- A list of phases that all answer "ready" hands its state on to the phases behind it.
  run_phases-append :
      (ps qs : List (Phase Q W)) (cluster : Cluster) (s t : State Q W)
      → run_phases store ps cluster s ≡ (ok requeue, t)
      → run_phases store (ps ++ qs) cluster s ≡ run_phases store qs cluster t
  unfolding run_phases after_phase
  run_phases-append [] qs cluster s t h =
      ap (λ (x : Result CtrlResult × State Q W). run_phases store qs cluster x.1) h
  run_phases-append (p ∷ ps) qs cluster s t h =
      let (answered, later) =
        step_done p (p.reconcile cluster s).0 (run_phases store ps cluster)
          (p.reconcile cluster s).1 t h in
      rw (answered, after_phase) (run_phases-append ps qs cluster _ t later)

  -- If all phases before `p` answer "ready" and `p` fails, then the loop ends with the error of `p`
  -- in the state that `p` left, with the condition of `p` false for the failure reason of `p`. No
  -- phase behind `p` is run, whatever it is.
  pub run_phases-failed :
      (ps qs : List (Phase Q W)) (p : Phase Q W) (cluster : Cluster) (s t u : State Q W) (e : Error)
      → run_phases store ps cluster s ≡ (ok requeue, t)
      → p.reconcile cluster t ≡ (err e, u)
      → run_phases store (ps ++ p ∷ qs) cluster s
        ≡ (err e, set_condition store (phase_failed store p e) u)
  unfolding run_phases after_phase
  run_phases-failed ps qs p cluster s t u e h k =
      run_phases-append ps (p ∷ qs) cluster s t h
      ∙ ap
          (λ (x : Result String × State Q W).
            after_phase store p x.0 (run_phases store qs cluster) x.1)
          k

  -- If all phases before `p` answer "ready" and `p` is not ready, then the loop ends without an
  -- error and asks to be run again after 10 seconds, in the state that `p` left, with the condition
  -- of `p` false for the reason that `p` gave. No phase behind `p` is run, whatever it is.
  pub run_phases-not_ready :
      (ps qs : List (Phase Q W)) (p : Phase Q W) (cluster : Cluster) (s t u : State Q W)
      (reason : String)
      → run_phases store ps cluster s ≡ (ok requeue, t)
      → p.reconcile cluster t ≡ (ok reason, u)
      → reason ≢ ""
      → run_phases store (ps ++ p ∷ qs) cluster s
        ≡ (ok requeue_soon, set_condition store (phase_not_ready store p reason) u)
  unfolding run_phases after_phase
  run_phases-not_ready ps qs p cluster s t u reason h k ne =
      run_phases-append ps (p ∷ qs) cluster s t h
      ∙ ap
          (λ (x : Result String × State Q W).
            after_phase store p x.0 (run_phases store qs cluster) x.1)
          k
      ∙ rw (not_equal reason "" ne)
