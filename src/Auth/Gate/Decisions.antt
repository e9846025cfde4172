-- ===== src/Auth/Gate/Decisions.antt =====
-- What lets a check pass.
use pylar_framework.Dict
use pylar_framework.Auth.Gate.{
  Argument, instance_of, class_object, Method, Policy, Gate, is_class, type_of, lookup_in,
  lookup_policy, ask_ability, ask_policy, allows,
}
use pylar_framework.Prelude.{
  Bool, Bool-cases, List, Option-cases, String, [], arith, false, inl, inr, none, some, take, true,
  ◌-◌, ◌==◌, ◌∙◌, ◌∷◌, ◌≡◌, ◌≢◌, ◌≤◌, ◌⊎◌,
}

-- The first class of the order that has a policy, and its policy.
abbrev pub IsNearest : {U : Type 0} → List String → Gate U → Policy U → Type 0
IsNearest [] g policy = ⊥
IsNearest (klass ∷ mro) g policy =
    (Dict.get g.policies klass ≡ some policy)
    ⊎ ((Dict.get g.policies klass ≡ none) × IsNearest mro g policy)

abbrev pub HaveNone : {U : Type 0} → List String → Gate U → Type 0
HaveNone [] g = Unit
HaveNone (klass ∷ mro) g = (Dict.get g.policies klass ≡ none) × HaveNone mro g

-- The classes of a target, which may be an instance or a class.
abbrev pub classes_of : (String → List String) → Argument → List String
classes_of mro (instance_of name id) = mro name
classes_of mro (class_object name) = mro name

-- There is no target, or none of its classes has a policy.
abbrev pub IsUncovered : {U : Type 0} → (String → List String) → Gate U → List Argument → Type 0
IsUncovered mro g [] = Unit
IsUncovered mro g (target ∷ args) = HaveNone (classes_of mro target) g

abbrev pub IsCoveredBy :
    {U : Type 0} → (String → List String) → Gate U → Argument → Policy U → Type 0
IsCoveredBy mro g target policy = IsNearest (classes_of mro target) g policy

lookup_in-IsNearest :
    {U : Type 0} (classes : List String) (g : Gate U) (policy : Policy U)
    → lookup_in classes g ≡ some policy
    → IsNearest classes g policy
unfolding lookup_in
lookup_in-IsNearest [] g policy h = absurd (ground (arith, h))
lookup_in-IsNearest (klass ∷ mro) g policy h = elim (Option-cases (Dict.get g.policies klass)) [
  | inl missing ↦ inr (missing, lookup_in-IsNearest mro g policy (rw (missing, lookup_in) at h))
  | inr (found, there) ↦
      let same : some found ≡ some policy = rw (there, lookup_in) at h in inl (there ∙ same)
]

lookup_in-HaveNone :
    {U : Type 0} (classes : List String) (g : Gate U)
    → lookup_in classes g ≡ none
    → HaveNone classes g
unfolding lookup_in
lookup_in-HaveNone [] g h = tt
lookup_in-HaveNone (klass ∷ mro) g h = elim (Option-cases (Dict.get g.policies klass)) [
  | inl missing ↦ (missing, lookup_in-HaveNone mro g (rw (missing, lookup_in) at h))
  | inr (found, there) ↦
      let never : some found ≡ none = rw (there, lookup_in) at h in absurd (ground (arith, never))
]

lookup_policy-IsCoveredBy :
    {U : Type 0} (mro : String → List String) (target : Argument) (g : Gate U) (policy : Policy U)
    → lookup_policy mro target g ≡ some policy
    → IsCoveredBy mro g target policy
unfolding lookup_policy type_of
lookup_policy-IsCoveredBy mro (instance_of name id) g policy h =
    lookup_in-IsNearest (mro name) g policy h
lookup_policy-IsCoveredBy mro (class_object name) g policy h =
    lookup_in-IsNearest (mro name) g policy h

lookup_policy-IsUncovered :
    {U : Type 0} (mro : String → List String) (target : Argument) (args : List Argument)
    (g : Gate U)
    → lookup_policy mro target g ≡ none
    → IsUncovered mro g (target ∷ args)
unfolding lookup_policy type_of
lookup_policy-IsUncovered mro (instance_of name id) args g h = lookup_in-HaveNone (mro name) g h
lookup_policy-IsUncovered mro (class_object name) args g h = lookup_in-HaveNone (mro name) g h

-- The reasons for which a check passes: the method of the policy of the nearest class says yes, with
-- no instance or with those that it wants, or, where no class has a policy, the ability does.
pub data IsGranted {U : Type 0} (mro : String → List String) (user : U) (ability : String)
    (g : Gate U) : List Argument → Type 0 where
  by_class :
      (target : Argument) (args : List Argument) (policy : Policy U) (method : Method U)
      → IsCoveredBy mro g target policy
      → Dict.get policy ability ≡ some method
      → method.parameters ≤ 1
      → method.call user [] ≡ true
      → IsGranted mro user ability g (target ∷ args)
  by_instance :
      (target : Argument) (args : List Argument) (policy : Policy U) (method : Method U)
      → IsCoveredBy mro g target policy
      → Dict.get policy ability ≡ some method
      → ((klass : String) → target ≢ class_object klass)
      → method.call user (take (method.parameters - 1) (target ∷ args)) ≡ true
      → IsGranted mro user ability g (target ∷ args)
  by_ability :
      (args : List Argument) (callback : U → List Argument → Bool)
      → IsUncovered mro g args
      → Dict.get g.abilities ability ≡ some callback
      → callback user args ≡ true
      → IsGranted mro user ability g args

is_class-none :
    (target : Argument) → is_class target ≡ false → (klass : String) → target ≢ class_object klass
unfolding is_class
is_class-none (instance_of name id) h klass same = ground (arith, same)
is_class-none (class_object name) h klass same = ground (arith, h)

ask_ability-IsGranted :
    {U : Type 0} (mro : String → List String) (user : U) (ability : String) (args : List Argument)
    (g : Gate U)
    → IsUncovered mro g args
    → ask_ability user ability args g ≡ true
    → IsGranted mro user ability g args
unfolding ask_ability
ask_ability-IsGranted mro user ability args g u h =
    elim (Option-cases (Dict.get g.abilities ability)) [
      | inl missing ↦
          let never : false ≡ true = rw (missing, ask_ability) at h in
          absurd (ground (arith, never))
      | inr (callback, found) ↦ by_ability args callback u found (rw (found, ask_ability) at h)
    ]

ask_policy-IsGranted :
    {U : Type 0} (mro : String → List String) (user : U) (ability : String) (target : Argument)
    (args : List Argument) (policy : Policy U) (g : Gate U)
    → IsCoveredBy mro g target policy
    → ask_policy user ability target (target ∷ args) policy ≡ true
    → IsGranted mro user ability g (target ∷ args)
unfolding ask_policy
ask_policy-IsGranted mro user ability target args policy g found h =
    elim (Option-cases (Dict.get policy ability)) [
      | inl missing ↦
          let never : false ≡ true = rw (missing, ask_policy) at h in absurd (ground (arith, never))
      | inr (method, there) ↦ elim (Bool-cases (method.parameters - 1 == 0)) [
        | inl none_wanted ↦
            by_class target args policy method found there (ground arith)
              (rw (there, ask_policy, none_wanted) at h)
        | inr wanted ↦ elim (Bool-cases (is_class target)) [
          | inl class ↦
              let never : false ≡ true = rw (there, ask_policy, wanted, class) at h in
              absurd (ground (arith, never))
          | inr an_instance ↦
              by_instance target args policy method found there (is_class-none target an_instance)
                (rw (there, ask_policy, wanted, an_instance) at h)
        ]
      ]
    ]

-- A check that passes has a reason: the policy of the nearest class of the target that has one says
-- yes by a method that wants no instance, or by one that gets the instances; or there is no target
-- with a policy, and the ability says yes. Nothing passes by default, and a policy hides an ability.
pub allows-IsGranted :
    {U : Type 0} (mro : String → List String) (user : U) (ability : String) (args : List Argument)
    (g : Gate U)
    → allows mro user ability args g ≡ true
    → IsGranted mro user ability g args
unfolding allows
allows-IsGranted mro user ability [] g h = ask_ability-IsGranted mro user ability [] g tt h
allows-IsGranted mro user ability (target ∷ args) g h =
    elim (Option-cases (lookup_policy mro target g)) [
      | inl no_policy ↦
          ask_ability-IsGranted mro user ability (target ∷ args) g
            (lookup_policy-IsUncovered mro target args g no_policy) (rw (no_policy, allows) at h)
      | inr (policy, found) ↦
          ask_policy-IsGranted mro user ability target args policy g
            (lookup_policy-IsCoveredBy mro target g policy found) (rw (found, allows) at h)
    ]
