-- ===== src/Etcd/Health/Laws.antt =====
-- What a healthy etcd cluster means.
use cluster_api_provider_hos.Prelude.{
  ℕ, String, ◌≡◌, refl, sym, ap, ◌∙◌, ◌⊎◌, inl, inr, Bool, true, false, not, List, [], ◌∷◌, arith,
  string_eq, nat_eq, option_eq, if◌then◌else◌, Bool-cases, filter, some_by, All,
}
use cluster_api_provider_hos.Prelude.Exec.{Result, ok, pure, ◌>>=◌}
use cluster_api_provider_hos.Prelude.Exec.{continue-ok, continue_wrapped-ok}
use cluster_api_provider_hos.Quantity.{Quantities}
use cluster_api_provider_hos.Api.{auto_grow_enabled}
use cluster_api_provider_hos.Etcd.Calls.{
  Alarm, Call, list_alarms, disarm_alarm, Answers, EtcdState, status, log, call,
}
use cluster_api_provider_hos.Etcd.Space.{Storage}
use cluster_api_provider_hos.Etcd.Health.{
  is_nospace, same_alarm, difference, report_alarms, disarm_all, has_headroom, ignored_alarms,
  check_alarms, etcd_is_healthy,
}

same_alarm-is_nospace :
    (a b : Alarm) → is_nospace b ≡ true → is_nospace a ≡ false → same_alarm a b ≡ false
same_alarm-is_nospace a b h k = ground arith

nospace_only :
    (a : Alarm) (ys : List Alarm)
    → is_nospace a ≡ false
    → some_by (λ b. same_alarm a b) (filter is_nospace ys) ≡ false
unfolding some_by filter
nospace_only a [] h = refl
nospace_only a (y ∷ ys) h = elim (Bool-cases (is_nospace y)) [
  | inl e ↦ rw e (rw (same_alarm-is_nospace a y e h) (nospace_only a ys h))
  | inr e ↦ rw e (nospace_only a ys h)
]

filter-empty :
    {A : Type 0} (p : A → Bool) (x : A) (xs : List A)
    → filter p (x ∷ xs) ≡ []
    → (p x ≡ false) × (filter p xs ≡ [])
unfolding filter
filter-empty p x xs h = elim (Bool-cases (p x)) [
  | inl e ↦ absurd (cc (rw e at h))
  | inr e ↦ (e, rw e at h)
]

-- Nothing is left behind the ignored NOSPACE alarms only if all are NOSPACE alarms.
difference-nospace :
    (zs ys : List Alarm)
    → difference zs (filter is_nospace ys) ≡ []
    → All (λ a. is_nospace a ≡ true) zs
unfolding difference
difference-nospace [] ys h = tt
difference-nospace (a ∷ zs) ys h =
    let (kept, rest) = filter-empty _ a zs h in
    elim (Bool-cases (is_nospace a)) [
      | inl e ↦ (e, difference-nospace zs ys rest)
      | inr e ↦ absurd (cc (ap not (nospace_only a ys e), kept))
    ]

difference-none : (zs : List Alarm) → difference zs [] ≡ zs
unfolding difference filter some_by
difference-none [] = refl
difference-none (a ∷ zs) = ap (λ (r : List Alarm). a ∷ r) (difference-none zs)

report-ok :
    {S : Type 0} (text : ℕ → String) (zs : List Alarm) (s t : S)
    → report_alarms text zs s ≡ (ok tt, t)
    → (zs ≡ []) × (s ≡ t)
unfolding report_alarms
report-ok text [] s t h = (refl, cc)
report-ok text (a ∷ zs) s t h = cc (ap (λ (x : Result Unit × _). x.0) h)

-- The calls that disarm the alarms, the last one first.
abbrev pub disarms : {Q : Type 0} → List Alarm → List (Call Q) → List (Call Q)
disarms [] calls = calls
disarms (a ∷ as') calls = disarms as' (disarm_alarm a ∷ calls)

module _ (q : Quantities) (storage : Storage q.Quantity) (answers : Answers q.Quantity) where
  open q use {Quantity}

  disarm_all-ok :
      (zs : List Alarm) (s t : EtcdState Quantity)
      → disarm_all q storage answers zs s ≡ (ok tt, t)
      → (log t ≡ disarms zs (log s)) × (t.hcp ≡ s.hcp)
  unfolding disarm_all call ◌>>=◌
  disarm_all-ok [] s t h = (cc, cc)
  disarm_all-ok (a ∷ zs) s t h =
      let u : EtcdState Quantity = record s { world = disarm_alarm a ∷ log s } in
      let (_, _, rest) =
        continue_wrapped-ok _ (answers.disarm_alarm (log u)) (λ _. disarm_all q storage answers zs)
          u t tt h in
      disarm_all-ok zs u t rest

  -- A check of the alarms that succeeds, in a state behind the list of the alarms.
  pub record Checked (alarms : List Alarm) (s t : EtcdState Quantity) : Type 0 where
    pub only_space : All (λ a. is_nospace a ≡ true) alarms
    pub has_room :
        (alarms ≡ [])
        ⊎ (has_headroom q storage answers (status s) ≡ true)
        ⊎ (auto_grow_enabled s.hcp.spec.etcd ≡ true)
    pub disarmed : log t ≡ (
        if has_headroom q storage answers (status s)
        then disarms (filter is_nospace alarms) (log s)
        else log s)
    pub unchanged : t.hcp ≡ s.hcp

  record Ignored (zs ignored : List Alarm) (s t : EtcdState Quantity) : Type 0 where
    choice :
        ((ignored ≡ zs)
          × ((has_headroom q storage answers (status s) ≡ true)
              ⊎ (auto_grow_enabled s.hcp.spec.etcd ≡ true)))
        ⊎ (ignored ≡ [])
    disarmed :
        log t ≡ (if has_headroom q storage answers (status s) then disarms zs (log s) else log s)
    unchanged : t.hcp ≡ s.hcp

  ignored_alarms-ok :
      (zs ignored : List Alarm) (s t : EtcdState Quantity)
      → ignored_alarms q storage answers zs s ≡ (ok ignored, t)
      → Ignored zs ignored s t
  unfolding ignored_alarms ◌>>=◌
  ignored_alarms-ok zs ignored s t h =
      elim (Bool-cases (has_headroom q storage answers (status s))) [
        | inl room ↦
            let run = disarm_all q storage answers zs s in
            let (_, done, rest) = continue-ok run.0 (λ _. pure zs) run.1 t ignored (rw room at h) in
            let (logged, kept) =
              disarm_all-ok zs s run.1 (ap (λ (r : Result Unit). (r, run.1)) done) in
            record { choice = inl (cc, inl room); disarmed = rw room (cc); unchanged = cc }
        | inr full ↦ elim (Bool-cases (auto_grow_enabled s.hcp.spec.etcd)) [
          | inl grows ↦
              let k = rw grows at (rw full at h) in
              record { choice = inl (cc, inr grows); disarmed = rw full cc; unchanged = cc }
          | inr fixed ↦
              let k = rw fixed at (rw full at h) in
              record { choice = inr cc; disarmed = rw full cc; unchanged = cc }
        ]
      ]

  check_alarms-ok :
      (alarms : List Alarm) (s t : EtcdState Quantity)
      → check_alarms q storage answers alarms s ≡ (ok tt, t)
      → Checked alarms s t
  unfolding check_alarms ◌>>=◌ filter
  check_alarms-ok [] s t h = record {
    only_space = tt;
    has_room = inl refl;
    disarmed = ground arith;
    unchanged = cc;
  }
  check_alarms-ok (a ∷ zs) s t h =
      let alarms = a ∷ zs in
      let run = ignored_alarms q storage answers (filter is_nospace alarms) s in
      let (ignored, chosen, rest) =
        continue-ok run.0 (λ ignored. report_alarms answers.alarm_text (difference alarms ignored))
          run.1 t tt h in
      let i =
        ignored_alarms-ok (filter is_nospace alarms) ignored s run.1
          (ap (λ (r : Result (List Alarm)). (r, run.1)) chosen) in
      let (none_left, same) =
        report-ok answers.alarm_text (difference alarms ignored) run.1 t rest in
      elim i.choice [
        | inl (all, room) ↦ record {
          only_space =
              difference-nospace alarms alarms (ap (difference alarms) (sym all) ∙ none_left);
          has_room = inr room;
          disarmed = ap log (sym same) ∙ i.disarmed;
          unchanged = cc;
        }
        | inr nothing ↦ absurd (cc (difference-none alarms, ap (difference alarms) nothing))
      ]

  -- If etcd passes as healthy, then the alarms were listed, each of them is a NOSPACE alarm, and if
  -- there are any then at least the buffer is free on the volume or the volume grows
  -- automatically. The NOSPACE alarms were disarmed, each once and in order, exactly if at least
  -- the buffer is free; the resource is unchanged.
  pub etcd_is_healthy-ok :
      (s t : EtcdState Quantity)
      → etcd_is_healthy q storage answers s ≡ (ok tt, t)
      → (alarms : List Alarm) × (answers.list_alarms (list_alarms ∷ log s) ≡ ok alarms)
        × Checked alarms (record s { world = list_alarms ∷ log s }) t
  unfolding etcd_is_healthy call ◌>>=◌
  etcd_is_healthy-ok s t h =
      let u : EtcdState Quantity = record s { world = list_alarms ∷ log s } in
      let (alarms, listed, rest) =
        continue_wrapped-ok _ (answers.list_alarms (log u)) (check_alarms q storage answers) u t tt
          h in
      (alarms, listed, check_alarms-ok alarms u t rest)
