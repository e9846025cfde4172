-- ===== src/Auth/Gate.antt =====
-- pylar/auth/gate.py: the registry of policies and abilities. A class has its name, and its method
-- resolution order is given; a policy says which methods it has and what they answer.
pub mod Decisions
use pylar_framework.Dict
use pylar_framework.Dict.{Dict}
use pylar_framework.Prelude.{
  Bool, List, Option, String, [], false, if◌then◌else◌, none, not, some, take, true, ℕ, ◌-◌, ◌==◌,
  ◌∷◌,
}

-- An argument of a check: an instance of a class, by its identity, or a class.
pub data Argument : Type 0 where
  instance_of : String → ℕ → Argument
  class_object : String → Argument

-- A bound policy method: how many parameters it has, and what it answers to a user and instances.
pub record Method (U : Type 0) : Type 0 where
  pub parameters : ℕ
  pub call : U → List Argument → Bool

abbrev pub Policy : Type 0 → Type 0
Policy U = Dict (Method U)

pub record Gate (U : Type 0) : Type 0 where
  pub policies : Dict (Policy U)
  pub abilities : Dict (U → List Argument → Bool)

-- type(target), where the target is no class
unfoldable pub type_of : Argument → String
type_of (instance_of name id) = name
type_of (class_object name) = name

unfoldable pub is_class : Argument → Bool
is_class (instance_of name id) = false
is_class (class_object name) = true

module _ {U : Type 0} where
  -- Gate.policy
  unfoldable pub register : String → Policy U → Gate U → Gate U
  register model policy g = record g { policies = Dict.put g.policies model policy }

  unfoldable pub define : String → (U → List Argument → Bool) → Gate U → Gate U
  define ability callback g = record g { abilities = Dict.put g.abilities ability callback }

  -- The loop of `_lookup_policy` over the method resolution order.
  unfoldable pub lookup_in : List String → Gate U → Option (Policy U)
  lookup_in [] g = none
  lookup_in (klass ∷ mro) g = elim (Dict.get g.policies klass) [
    | some policy ↦ some policy
    | none ↦ lookup_in mro g
  ]

  unfoldable pub lookup_policy : (String → List String) → Argument → Gate U → Option (Policy U)
  lookup_policy mro target g = lookup_in (mro (type_of target)) g

  unfoldable pub ask_ability : U → String → List Argument → Gate U → Bool
  ask_ability user ability args g = elim (Dict.get g.abilities ability) [
    | some callback ↦ callback user args
    | none ↦ false
  ]

  unfoldable pub ask_policy : U → String → Argument → List Argument → Policy U → Bool
  ask_policy user ability target args policy = elim (Dict.get policy ability) [
    | none ↦ false
    | some method ↦
        if method.parameters - 1 == 0
        then method.call user []
        else if is_class target
        then false
        else method.call user (take (method.parameters - 1) args)
  ]

  unfoldable pub allows : (String → List String) → U → String → List Argument → Gate U → Bool
  allows mro user ability [] g = ask_ability user ability [] g
  allows mro user ability (target ∷ args) g = elim (lookup_policy mro target g) [
    | some policy ↦ ask_policy user ability target (target ∷ args) policy
    | none ↦ ask_ability user ability (target ∷ args) g
  ]

  unfoldable pub denies : (String → List String) → U → String → List Argument → Gate U → Bool
  denies mro user ability args g = not (allows mro user ability args g)
