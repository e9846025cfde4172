-- ===== src/Examples/Permissions.antt =====
-- A gate with one policy, of which a subclass is asked.
use pylar_framework.Auth.Gate.{instance_of, Gate}
use pylar_framework.Auth.Gate.Decisions
use pylar_framework.Prelude.{List, String, [], refl, ℕ, ◌==◌, ◌∷◌}

abbrev mro : String → List String
mro name = name ∷ "Post" ∷ "object" ∷ []

abbrev gate : Gate ℕ
gate = record {
  policies =
      ("Post", ("update", record { parameters = 2; call = λ user args. user == 7 }) ∷ []) ∷ [];
  abilities = [];
}

allows-IsGranted_example : Decisions.IsGranted mro 7 "update" gate (instance_of "Draft" 3 ∷ [])
unfolding pylar_framework.Auth.Gate.allows pylar_framework.Auth.Gate.lookup_policy
    pylar_framework.Auth.Gate.lookup_in pylar_framework.Dict.get pylar_framework.Auth.Gate.type_of
    pylar_framework.Auth.Gate.ask_policy pylar_framework.Auth.Gate.is_class
allows-IsGranted_example =
    Decisions.allows-IsGranted mro 7 "update" (instance_of "Draft" 3 ∷ []) gate refl
