-- ===== src/Etcd/Defragmentation/Laws.antt =====
-- How often the etcd members are defragmented.
use cluster_api_provider_hos.Prelude.{
  ℕ, zero, suc, ◌+◌, ◌-◌, ◌≤◌, ◌≡◌, refl, ◌≢◌, ◌⊎◌, inl, inr, true, List, [], ◌∷◌, arith, string_eq,
  nat_eq, option_eq, ltb, Bool-cases, some_by,
}
use cluster_api_provider_hos.Prelude.Exec.{Result, ok, ◌>>=◌}
use cluster_api_provider_hos.Api.{is_zero_time}
use cluster_api_provider_hos.Etcd.Calls.{
  MemberStatus, now, call, Call, defragment, read_clock, Answers, EtcdState, status, log, call, now,
}
use cluster_api_provider_hos.Etcd.Defragmentation.{
  cooldown, unless_cooling, is_cooling, reconcile_defragmentation, defragment_loop, is_fragmented,
  defragment_members,
}

-- How many of the calls defragment etcd.
abbrev pub defragments : {Q : Type 0} → List (Call Q) → ℕ
defragments [] = 0
defragments (defragment ∷ calls) = suc (defragments calls)
defragments (c ∷ calls) = defragments calls

-- The clock does not run backwards while calls are made.
abbrev pub ClockRuns : {Q : Type 0} → Answers Q → Type 0
ClockRuns {Q} answers =
    (c : Call Q) (calls : List (Call Q)) → answers.read_clock calls ≤ answers.read_clock (c ∷ calls)

is_zero_lem : (t : ℕ) → is_zero_time t ≡ true → t ≡ 0
is_zero_lem zero h = refl
is_zero_lem (suc t) h = cc

module _ {Q : Type 0} (answers : Answers Q) where
  -- Nothing has been defragmented, and nothing recorded.
  pub record Rested (s : EtcdState Q) (r : Result (Unit {0})) (t : EtcdState Q) : Type 0 where
    pub succeeded : r ≡ ok tt
    pub no_call : defragments (log t) ≡ defragments (log s)
    pub unchanged : t.hcp ≡ s.hcp

  -- Etcd has been told once to defragment, and the attempt is recorded with the time before it,
  -- whether it succeeded or failed; only a success sets the other time.
  pub record Defragmented (s : EtcdState Q) (r : Result (Unit {0})) (t : EtcdState Q) : Type 0 where
    pub one_call : defragments (log t) ≡ suc (defragments (log s))
    pub attempted :
        (status t).etcd_last_attempted_defrag_time ≡ answers.read_clock (read_clock ∷ log s)
    pub failed_keeps :
        r ≢ ok tt → (status t).etcd_last_defrag_time ≡ (status s).etcd_last_defrag_time

  members-Defragmented :
      (s : EtcdState Q) → let (r, t) = defragment_members answers s in Defragmented s r t
  unfolding defragment_members call now ◌>>=◌
  members-Defragmented s = record {
    one_call = ground arith;
    attempted = ground arith;
    failed_keeps = ground arith;
  }

  loop-cases :
      (ms : List MemberStatus) (s : EtcdState Q)
      → let (r, t) = defragment_loop answers ms s in
        Rested s r t ⊎ ((some_by is_fragmented ms ≡ true) × Defragmented s r t)
  unfolding defragment_loop some_by
  loop-cases [] s = inl (record { succeeded = refl; no_call = refl; unchanged = refl })
  loop-cases (m ∷ ms) s = elim (Bool-cases (is_fragmented m)) [
    | inl e ↦ rw e (inr (refl, members-Defragmented s))
    | inr e ↦ rw e (loop-cases ms s)
  ]

  -- The time between the recorded attempts.
  abbrev pub Spaced : EtcdState Q → EtcdState Q → Type 0
  Spaced s t =
      ((status s).etcd_last_attempted_defrag_time ≡ 0)
      ⊎ ((status s).etcd_last_attempted_defrag_time + cooldown
          ≤ (status t).etcd_last_attempted_defrag_time)

  -- Where the code reads the clock first: `u` is `s` with that call in its log.
  after_clock :
      ClockRuns answers
      → (ms : List MemberStatus) (s : EtcdState Q)
      → let u : EtcdState Q = record s { world = read_clock ∷ log s } in
        let (r, t) = unless_cooling answers ms (answers.read_clock (log u)) u in
        Rested u r t ⊎ ((some_by is_fragmented ms ≡ true) × Defragmented u r t × Spaced s t)
  unfolding unless_cooling is_cooling
  after_clock runs ms s =
      let u : EtcdState Q = record s { world = read_clock ∷ log s } in
      let attempted = (status s).etcd_last_attempted_defrag_time in
      let time = answers.read_clock (log u) in
      elim (Bool-cases (ltb (time - attempted) cooldown)) [
        | inl e ↦ rw e (inl (record { succeeded = refl; no_call = refl; unchanged = refl }))
        | inr e ↦ rw e (elim (loop-cases ms u) [
          | inl rested ↦ inl rested
          | inr (fragmented, d) ↦
              inr (fragmented, d, inr (ground (arith, runs read_clock (log u), d.attempted, e)))
        ])
      ]

  -- Whatever the members report and whatever etcd answers, with a clock that does not run
  -- backwards: either nothing is defragmented, the run succeeds and the resource is unchanged; or
  -- some member is fragmented, etcd is told exactly once to defragment, and the recorded time of
  -- the attempt is at least an hour behind the previous one, if there was one.
  pub reconcile_defragmentation-cases :
      ClockRuns answers
      → (ms : List MemberStatus) (s : EtcdState Q)
      → let (r, t) = reconcile_defragmentation answers ms s in
        Rested s r t
        ⊎ ((some_by is_fragmented ms ≡ true)
            × (defragments (log t) ≡ suc (defragments (log s)))
            × Spaced s t)
  unfolding reconcile_defragmentation now call ◌>>=◌
  reconcile_defragmentation-cases runs ms s =
      elim (Bool-cases (is_zero_time (status s).etcd_last_attempted_defrag_time)) [
        | inl never ↦ rw never (elim (loop-cases ms s) [
          | inl rested ↦ inl rested
          | inr (fragmented, d) ↦ inr (fragmented, d.one_call, inl (is_zero_lem _ never))
        ])
        | inr again ↦ rw again (elim (after_clock runs ms s) [
          | inl rested ↦ inl (record {
            succeeded = rested.succeeded;
            no_call = rested.no_call;
            unchanged = rested.unchanged;
          })
          | inr (fragmented, d, spaced) ↦ inr (fragmented, d.one_call, spaced)
        ])
      ]
