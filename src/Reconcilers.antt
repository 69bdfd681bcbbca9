-- ===== src/Reconcilers.antt =====
-- pkg/reconcilers/reconciler.go: what its functions share. The clients of the API servers are
-- records of actions on an unknown state; their errors carry a reason and causes.
pub mod Rules
pub mod Policies
pub mod Pod
pub mod Resources
pub mod Workload
pub mod Deployment
pub mod Selectors
pub mod StatefulSet
use cluster_api_provider_hos.Prelude.{
  ℕ, String, Bool, true, false, ◌&&◌, Option, none, some, List, [], ◌∷◌, arith, ◌==◌, string_eq,
  nat_eq, Eq, option_eq, if◌then◌else◌,
}
use cluster_api_provider_hos.Prelude.Exec.{
  Error, new, wrap, Result, ok, err, Exec, pure, fail, ◌>>=◌, ◌>>◌,
}
use cluster_api_provider_hos.Prelude.Exec.{attempt}

-- A `metav1.StatusCause`.
pub record Cause : Type 0 where
  pub type : String
  pub field : String
  pub message : String

-- What the code asks of an error of an API server: `IsNotFound`, and the causes of its status when
-- `IsInvalid` holds. A regular expression is matched by `regexp`.
pub record ApiErrors : Type 0 where
  pub is_not_found : Error → Bool
  pub invalid_causes : Error → Option (List Cause)
  pub match_string : String → String → Bool  -- the pattern and the text

-- `slices.EveryBy`.
unfoldable pub every_by {ℓ} : {A : Type ℓ} → (A → Bool) → List A → Bool
every_by p [] = true
every_by p (x ∷ xs) = p x && every_by p xs

-- `apierrors.IsInvalid(err) && … && slices.EveryBy(status.Status().Details.Causes, …)`.
unfoldable pub all_causes : ApiErrors → (Cause → Bool) → Error → Bool
unfolding every_by
all_causes errors p e = elim (errors.invalid_causes e) [
  | none ↦ false
  | some causes ↦ every_by p causes
]

-- What a panic leaves: the goroutine's error.
abbrev pub nil_pointer : Error
nil_pointer = new "runtime error: invalid memory address or nil pointer dereference"

module _ (errors : ApiErrors) {S : Type 0} where
  -- `err != nil && !apierrors.IsNotFound(err)`.
  unfoldable pub after_delete : String → Result (Unit {0}) → Exec S (Unit {0})
  after_delete message (ok _) = pure tt
  after_delete message (err e) = if errors.is_not_found e then pure tt else fail (wrap message e)

  -- The deletion of a resource that may be gone already.
  unfoldable pub delete_if_found : String → Exec S (Unit {0}) → Exec S (Unit {0})
  unfolding after_delete
  delete_if_found message delete = do r ← attempt delete; after_delete message r
