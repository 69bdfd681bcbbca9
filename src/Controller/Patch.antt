-- ===== src/Controller/Patch.antt =====
-- `patch` of pkg/hostedcontrolplane/controller.go: the conditions are brought into form, summed up
-- in the condition Ready, and sent to the API server.
pub mod Laws
use cluster_api_provider_hos.Prelude.{
  ℕ, ◌+◌, String, Bool, not, ◌&&◌, ◌||◌, List, [], ◌∷◌, ◌++◌, map, arith, ◌==◌, string_eq, nat_eq,
  Eq, if◌then◌else◌, is_empty, filter, has_prefix, split, join_with, underscored,
}
use cluster_api_provider_hos.Prelude.Exec.{Exec, pure, gets, wrapping, modify, ◌>>=◌, ◌>>◌}
use cluster_api_provider_hos.Api.{Condition}
use cluster_api_provider_hos.Controller.State.{State, conditions, set_conditions}

-- `lo.PascalCase`, `conditions.SetSummaryCondition` and the patch helper of Cluster API.
pub record Patching (Q W : Type 0) : Type 1 where
  pub Helper : Type 0
  pub pascal_case : String → String
  pub set_summary : List String → Exec (State Q W) Unit
  pub new_helper : Exec (State Q W) Helper
  pub send : Helper → List String → Exec (State Q W) Unit

-- Neither Ready nor Paused nor a condition of the workload cluster.
unfoldable pub is_applicable : Condition → Bool
is_applicable c =
    not (c.type == "Ready" || c.type == "Paused") && not (has_prefix c.type "Workload")

unfoldable pub applicable_conditions : List Condition → List String
unfolding is_applicable
applicable_conditions cs = map (λ c. c.type) (filter is_applicable cs)

-- The conditions that the patch helper is told to own.
unfoldable pub owned_conditions : List Condition → List String
owned_conditions cs = applicable_conditions cs ++ "Ready" ∷ []

module _ {Q W : Type 0} (p : Patching Q W) where
  open p use {Helper, pascal_case, set_summary, send}

  unfoldable pub normalized_reason : String → String
  normalized_reason reason =
      join_with "," (map (λ sub. pascal_case (underscored sub)) (split b',' reason))

  unfoldable pub normalized : Condition → Condition
  normalized c = record c { reason = normalized_reason c.reason }

  unfoldable pub summarize : List String → Exec (State Q W) Unit
  summarize types =
      if is_empty types
      then pure tt
      else wrapping "failed to set summary condition" (set_summary types)

  unfoldable pub patch : Helper → Exec (State Q W) Unit
  patch helper = do
    modify (λ s. set_conditions s (map normalized (conditions s)))
    types ← gets (λ s. applicable_conditions (conditions s))
    summarize types
    wrapping "failed to patch HostedControlPlane" (send helper (types ++ "Ready" ∷ []))
