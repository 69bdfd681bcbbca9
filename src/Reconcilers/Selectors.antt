-- ===== src/Reconcilers/Selectors.antt =====
-- How `reconcileStatefulset` of pkg/reconcilers/reconciler.go chooses the labels of the selector and
-- of the pods: the selector of a stateful set cannot be changed in place, and the pods that run must
-- stay selected.
pub mod Laws
use cluster_api_provider_hos.Prelude.{
  ℕ, String, Bool, not, ◌&&◌, Option, none, some, arith, ◌==◌, string_eq, nat_eq, Eq, option_eq,
  if◌then◌else◌, length, some_by,
}
use cluster_api_provider_hos.Prelude.Sorting.{assign}
use cluster_api_provider_hos.Objects.{Labels}
use cluster_api_provider_hos.Reconcilers.{every_by}

-- `slices.Every(slices.ToPairs(collection), slices.ToPairs(subset))`.
unfoldable pub includes : Labels → Labels → Bool
includes collection subset =
    every_by
      (λ (e : String × String).
        some_by (λ (f : String × String). f.0 == e.0 && f.1 == e.1) collection)
      subset

-- `slices.ElementsMatch` of the pairs of two maps, whose keys are distinct.
unfoldable pub elements_match : Labels → Labels → Bool
unfolding includes
elements_match a b = length a == length b && includes a b

-- The labels of the selector, and those of the pods.
pub record Chosen : Type 0 where
  pub selector : Labels
  pub pods : Labels

-- The switch over the existing stateful set; `none` is `errStatefulSetLabelChange`.
unfoldable pub choose_labels : Labels → Labels → Labels → Option Chosen
unfolding includes
choose_labels labels existing_pod_labels existing_selector =
    let merged_labels = assign labels existing_pod_labels in
    if includes existing_pod_labels labels
    then some (record { selector = labels; pods = labels })
    else if includes merged_labels existing_selector
    then some (record { selector = existing_selector; pods = merged_labels })
    else if length labels == length existing_pod_labels
    then none
    else some (record { selector = labels; pods = labels })

-- Whether the stateful set is left alone until it is ready.
unfoldable pub waits : Labels → Chosen → Bool → Bool
unfolding elements_match
waits existing_selector chosen ready =
    not (elements_match existing_selector chosen.selector) && not ready
