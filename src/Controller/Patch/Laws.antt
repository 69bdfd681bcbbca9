-- ===== src/Controller/Patch/Laws.antt =====
-- Which conditions a patch owns.
use cluster_api_provider_hos.Prelude.{
  String, ◌≡◌, refl, ap, ◌∙◌, subst, inl, inr, Bool, not, ◌&&◌, ◌||◌, List, [], ◌∷◌, ◌++◌, map,
  arith, ◌==◌, string_eq, nat_eq, Bool-cases, filter, some_by, has_prefix,
}
use cluster_api_provider_hos.Prelude.Exec.{Result, ok, err, wrapping, wrap_result, continue, ◌>>=◌}
use cluster_api_provider_hos.Api.{Condition}
use cluster_api_provider_hos.Controller.State.{State, conditions, set_conditions}
use cluster_api_provider_hos.Controller.Patch.{
  Patching, is_applicable, applicable_conditions, owned_conditions, normalized, summarize, patch,
}

abbrev pub owns : String → List Condition → Bool
owns t cs = some_by (λ u. u == t) (owned_conditions cs)

-- The types that a patch must not own, whoever set them.
abbrev pub is_foreign : String → Bool
is_foreign t = (t == "Ready" || t == "Paused") || has_prefix t "Workload"

some_by-append :
    {A : Type 0} (p : A → Bool) (xs ys : List A)
    → some_by p (xs ++ ys) ≡ (some_by p xs || some_by p ys)
unfolding some_by
some_by-append p [] ys = refl
some_by-append p (x ∷ xs) ys = ground (arith, some_by-append p xs ys)

-- The test `p` answers the same at `t` and at the type of every condition that has the type `t`.
applicable-some_by :
    (t : String) (cs : List Condition)
    → some_by (λ u. u == t) (map (λ c. c.type) (filter is_applicable cs))
      ≡ (not (is_foreign t) && some_by (λ c. c.type == t) cs)
unfolding some_by filter is_applicable
applicable-some_by t [] = ground arith
applicable-some_by t (c ∷ cs) = elim (Bool-cases (c.type == t)) [
  | inl e ↦
      let same : c.type ≡ t = (string_eq.beq_iff c.type t).0 e in
      ground (arith, applicable-some_by t cs, same, e)
  | inr e ↦ ground (arith, applicable-some_by t cs, e)
]

-- The patch owns the condition Ready, and of the conditions of the resource those that are neither
-- Ready nor Paused nor begin with "Workload"; it owns no other type.
pub owns-owned_conditions :
    (t : String) (cs : List Condition)
    → owns t cs ≡ ("Ready" == t || (not (is_foreign t) && some_by (λ c. c.type == t) cs))
unfolding owned_conditions applicable_conditions some_by
owns-owned_conditions t cs =
    some_by-append (λ u. u == t) (map (λ c. c.type) (filter is_applicable cs)) ("Ready" ∷ [])
    ∙ ground (arith, applicable-some_by t cs)

module _ {Q W : Type 0} (p : Patching Q W) where
  applicable-normalized :
      (cs : List Condition)
      → applicable_conditions (map (normalized p) cs) ≡ applicable_conditions cs
  unfolding applicable_conditions filter is_applicable normalized
  applicable-normalized [] = refl
  applicable-normalized (c ∷ cs) = ground (arith, applicable-normalized cs)

  wrapped_ok :
      {A : Type 0} (m : String) (r : Result A) (a : A) (s t : State Q W)
      → ◌≡◌ {A = Result A × State Q W} (wrap_result m r, s) (ok a, t)
      → ◌≡◌ {A = Result A × State Q W} (r, s) (ok a, t)
  wrapped_ok m (ok b) a s t h = h
  wrapped_ok {A = A} m (err e) a s t h = cc (ap (λ (x : Result A × State Q W). x.0) h)

  after_summary :
      (helper : p.Helper) (types : List String) (r : Result Unit) (s t : State Q W)
      → continue r (λ _. wrapping "failed to patch HostedControlPlane" (p.send helper types)) s
        ≡ (ok tt, t)
      → (u : State Q W) × (p.send helper types u ≡ (ok tt, t))
  after_summary helper types (ok u) s t h =
      (s, wrapped_ok _ (p.send helper types s).0 tt (p.send helper types s).1 t h)
  after_summary helper types (err e) s t h = cc (ap (λ (x : Result Unit × State Q W). x.0) h)

  -- A patch that succeeds has sent the resource with exactly the owned conditions of the state that
  -- it was called in, and the API server has accepted it.
  pub patch-sends :
      (helper : p.Helper) (s t : State Q W)
      → patch p helper s ≡ (ok tt, t)
      → (u : State Q W) × (p.send helper (owned_conditions (conditions s)) u ≡ (ok tt, t))
  unfolding patch owned_conditions ◌>>=◌
  patch-sends helper s t h =
      let cs = map (normalized p) (conditions s) in
      let types = applicable_conditions cs in
      let (r, u) = summarize p types (set_conditions s cs) in
      subst
        (λ (names : List String).
          (v : State Q W) × (p.send helper (names ++ "Ready" ∷ []) v ≡ (ok tt, t)))
        (applicable-normalized (conditions s))
        (after_summary helper (types ++ "Ready" ∷ []) r u t h)
