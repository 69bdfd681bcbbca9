-- ===== src/Args/Laws.antt =====
-- The controller's arguments win, and the command line does not depend on the order of the maps.
use cluster_api_provider_hos.Prelude.{
  String, ◌≡◌, sym, ap, ◌∙◌, none, some, List, string_eq, nat_eq, option_eq, deref,
}
use cluster_api_provider_hos.Prelude.Sorting.{lookup, assign}
use cluster_api_provider_hos.Prelude.Sorting.Laws.{
  Ascending, Ascending-unique, IsMap, sort_by_key-Ascending, lookup-sort_by_key,
}
use cluster_api_provider_hos.Prelude.Sorting.Assign.{lookup-assign, assign-IsMap}
use cluster_api_provider_hos.Args.{ArgOption, sorted_args, args_to_slice, render}
use cluster_api_provider_hos.Prelude.{flat_map}

-- The value of each argument is the controller's if the controller sets it, and otherwise the
-- user's; an argument that neither sets is not there.
pub lookup-sorted_args :
    (user_args controller_args : List (String × String)) (key : String)
    → lookup key (sorted_args user_args controller_args)
      ≡ elim (lookup key controller_args) [ some v ↦ some v | none ↦ lookup key user_args ]
unfolding sorted_args
lookup-sorted_args user_args controller_args key =
    lookup-sort_by_key key (assign user_args controller_args)
    ∙ lookup-assign key user_args controller_args

pub sorted_args-Ascending :
    (user_args controller_args : List (String × String))
    → IsMap user_args
    → IsMap controller_args
    → Ascending (sorted_args user_args controller_args)
unfolding sorted_args
sorted_args-Ascending user_args controller_args m n =
    sort_by_key-Ascending _ (assign-IsMap user_args controller_args m n)

-- The command line is a function of the two maps alone: lists in which no key stands twice and
-- that look up the same values, in whatever order they hold them, give the same arguments in the
-- same order. So a rollout is not triggered by the random order of Go's maps.
pub args_to_slice-order :
    (user_args user_args' controller_args controller_args' : List (String × String))
    → (opts : ArgOption) → IsMap user_args
    → IsMap user_args'
    → IsMap controller_args
    → IsMap controller_args'
    → ((key : String) → lookup key user_args ≡ lookup key user_args')
    → ((key : String) → lookup key controller_args ≡ lookup key controller_args')
    → args_to_slice user_args controller_args opts ≡ args_to_slice user_args' controller_args' opts
unfolding args_to_slice
args_to_slice-order u u' c c' opts m m' n n' h k =
    ap (flat_map (render (deref opts.prefix "--") (deref opts.delimiter "="))) (
      Ascending-unique (sorted_args u c) (sorted_args u' c') (sorted_args-Ascending u c m n)
        (sorted_args-Ascending u' c' m' n')
        (λ key.
          lookup-sorted_args u c key
          ∙ (λ i. elim (k key i) [ some v ↦ some v | none ↦ h key i ])
          ∙ sym (lookup-sorted_args u' c' key)))
