-- ===== src/Controller/State.antt =====
-- What the functions of pkg/hostedcontrolplane/controller.go read and write: the object in memory
-- and the outside world, of a type `W` that is not looked into; and the condition list, kept by
-- the library sigs.k8s.io/cluster-api/util/conditions.
use cluster_api_provider_hos.Prelude.{
  ℕ, String, ◌≡◌, Option, none, some, List, [], ◌∷◌, ◌==◌, if◌then◌else◌, refl, string_eq,
}
use cluster_api_provider_hos.Api.{HostedControlPlane, Condition}

pub record State (Q W : Type 0) : Type 0 where
  pub hcp : HostedControlPlane Q
  pub world : W

-- `ctrl.Result`: the delay after which to reconcile again, 0 for none.
pub record CtrlResult : Type 0 where
  pub requeue_after : ℕ

-- `conditions.Set` and `conditions.Get`: one condition for each type, the last that was set.
pub record ConditionStore : Type 0 where
  pub set : Condition → List Condition → List Condition
  pub get : String → List Condition → Option Condition
  pub get-set :
      (t : String) (c : Condition) (cs : List Condition)
      → get t (set c cs) ≡ (if c.type == t then some c else get t cs)

module _ {Q W : Type 0} where
  abbrev pub set_conditions : State Q W → List Condition → State Q W
  set_conditions s cs = record s {
    hcp = record s.hcp { status = record s.hcp.status { conditions = cs } };
  }

  abbrev pub conditions : State Q W → List Condition
  conditions s = s.hcp.status.conditions

-- An association list meets the interface.
abbrev pub get_condition : String → List Condition → Option Condition
get_condition t [] = none
get_condition t (c ∷ cs) = if c.type == t then some c else get_condition t cs

abbrev pub listed_conditions : ConditionStore
listed_conditions = record { set = λ c cs. c ∷ cs; get = get_condition; get-set = λ t c cs. refl }
