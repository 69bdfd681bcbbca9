-- ===== src/Reconcilers/Rules/Laws.antt =====
-- The rules of a policy against the map of its targets.
use cluster_api_provider_hos.Prelude.{
  if◌then◌else◌, ◌==◌, string_eq, nat_eq, option_eq, ℕ, ◌≤◌, ◌≡◌, refl, ◌↔◌, inl, inr, List, [],
  ◌∷◌, map, arith, ltb, Bool-cases, All, flat_map,
}
use mathlib.Core.List.{Perm}
use cluster_api_provider_hos.Reconcilers.Rules.{
  PortTargets, insert_by_port, sort_by_port, to_rule, convert_to_rules,
}
use mathlib.Core.List.Perm

module _ {κ} {T : Type 0} (P : ℕ × List T → Type κ) where
  All-insert_by_port :
      (e : ℕ × List T) (es : PortTargets T) → All P (insert_by_port e es) ↔ (P e × All P es)
  unfolding insert_by_port
  All-insert_by_port e [] = ((λ h. h), (λ h. h))
  All-insert_by_port e (f ∷ fs) = elim (Bool-cases (ltb f.0 e.0)) [
    | inl before ↦
        let rest = All-insert_by_port e fs in
        rw before
          ((λ h. ((rest.0 h.1).0, (h.0, (rest.0 h.1).1))), (λ h. (h.1.0, rest.1 (h.0, h.1.1))))
    | inr after ↦ rw after ((λ h. h), (λ h. h))
  ]

-- The ports ascend.
abbrev pub Rising : {T : Type 0} → PortTargets T → Type 0
Rising [] = Unit
Rising (e ∷ es) = All (λ f. e.0 ≤ f.0) es × Rising es

weaken :
    {T : Type 0} (m n : ℕ) (es : PortTargets T)
    → m ≤ n
    → All (λ f. n ≤ f.0) es
    → All (λ f. m ≤ f.0) es
weaken m n [] le h = tt
weaken m n (e ∷ es) le h = (omega (arith, h.0), weaken m n es le h.1)

insert_by_port-Rising :
    {T : Type 0} (e : ℕ × List T) (es : PortTargets T) → Rising es → Rising (insert_by_port e es)
unfolding insert_by_port
insert_by_port-Rising e [] h = (tt, tt)
insert_by_port-Rising e (f ∷ fs) h = elim (Bool-cases (ltb f.0 e.0)) [
  | inl before ↦
      let le : f.0 ≤ e.0 = ground (arith, before) in
      rw before
        ((All-insert_by_port (λ g. f.0 ≤ g.0) e fs).1 (le, h.0), insert_by_port-Rising e fs h.1)
  | inr after ↦
      let le : e.0 ≤ f.0 = ground (arith, after) in rw after ((le, weaken e.0 f.0 fs le h.0), h)
]

pub sort_by_port-Rising : {T : Type 0} (es : PortTargets T) → Rising (sort_by_port es)
unfolding sort_by_port
sort_by_port-Rising [] = tt
sort_by_port-Rising (e ∷ es) = insert_by_port-Rising e (sort_by_port es) (sort_by_port-Rising es)

insert_by_port-perm :
    {T : Type 0} (e : ℕ × List T) (es : PortTargets T) → Perm (insert_by_port e es) (e ∷ es)
unfolding insert_by_port
insert_by_port-perm e [] = Perm.rfl
insert_by_port-perm e (f ∷ fs) = elim (Bool-cases (ltb f.0 e.0)) [
  | inl before ↦ rw before (Perm.trans (Perm.cons f (insert_by_port-perm e fs)) (Perm.swap e f fs))
  | inr after ↦ rw after Perm.rfl
]

sort_by_port-perm : {T : Type 0} (es : PortTargets T) → Perm (sort_by_port es) es
unfolding sort_by_port
sort_by_port-perm [] = Perm.rfl
sort_by_port-perm (e ∷ es) =
    Perm.trans (insert_by_port-perm e (sort_by_port es)) (Perm.cons e (sort_by_port-perm es))

module _ {AC Port PeerAC T : Type 0} (create_resource : AC) (create_port : ℕ → Port)
    (create_peer : T → PeerAC) (with_ports : AC → List Port → AC)
    (add_peers : AC → List PeerAC → AC) where
  abbrev rules : PortTargets T → List AC
  rules = convert_to_rules create_resource create_port create_peer with_ports add_peers

  -- One peer for the target, and the one port, unless that is 0, which stands for all.
  abbrev pub one_rule : ℕ → T → AC
  one_rule port target =
      add_peers
        (if port == 0 then create_resource else with_ports create_resource (create_port port ∷ []))
        (create_peer target ∷ [])

  -- The rules are those of the targets of the map, along an arrangement of the very entries of the
  -- map in which the ports ascend: one rule for each target, with that target as its one peer, and
  -- with its port, unless that is 0. No target is lost and none is added, and the targets of one port
  -- keep their order.
  pub convert_to_rules-Rising :
      (targets : PortTargets T)
      → (arranged : PortTargets T) × Perm arranged targets
        × Rising arranged
        × (rules targets ≡ flat_map (λ (e : ℕ × List T). map (one_rule e.0) e.1) arranged)
  unfolding convert_to_rules to_rule
  convert_to_rules-Rising targets =
      (sort_by_port targets, sort_by_port-perm targets, sort_by_port-Rising targets, refl)
