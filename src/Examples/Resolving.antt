-- ===== src/Examples/Resolving.antt =====
-- Two classes whose constructors ask for each other.
use pylar_framework.Foundation.Container.{
  among, Container, World, Parameter, made, concrete_class, make,
}
use pylar_framework.Foundation.Container.Unwinding
use pylar_framework.Foundation.Container.Unwinding.{IsUnwinding}
use pylar_framework.Foundation.Container.Fuel
use pylar_framework.Foundation.Container.Fuel.{IsClosed}
use pylar_framework.Foundation.Application.{AppConfig, run}
use pylar_framework.Foundation.Application.Lifecycle
use pylar_framework.Foundation.Application.Lifecycle.{registered, booted, shut_down, handled}
use pylar_framework.Prelude.{
  Bool-cases, List, String, [], arith, false, if◌then◌else◌, inl, inr, not, refl, some, str_eq,
  true, ◌∷◌, ◌≡◌,
}

abbrev asks : String → List Parameter
asks name =
    if str_eq name "Mailer"
    then record { name = "queue"; annotation = some "Queue"; has_default = false } ∷ []
    else if str_eq name "Queue"
    then record { name = "mailer"; annotation = some "Mailer"; has_default = false } ∷ []
    else []

abbrev world : World
world = record {
  kind = λ name. concrete_class;
  parameters = asks;
  construct = λ name kwargs c. (made 1, c);
  run_factory = λ f c. (made f, c);
}

abbrev container : Container
container = record { bindings = []; singletons = []; scope_stack = []; tags = []; resolving = [] }

world-IsUnwinding : IsUnwinding world
world-IsUnwinding = record { constructs = λ name kwargs c. refl; runs = λ f c. refl }

abbrev types : List String
types = "Mailer" ∷ "Queue" ∷ []

asks-AllListed : (name : String) → Fuel.AllListed types (asks name)
unfolding among
asks-AllListed name = elim (Bool-cases (str_eq name "Mailer")) [
  | inl mailer ↦ rw mailer (refl, tt)
  | inr other ↦ elim (Bool-cases (str_eq name "Queue")) [
    | inl queue ↦ rw (other, queue) (refl, tt)
    | inr neither ↦ rw (other, neither) tt
  ]
]

world-IsClosed : IsClosed world types
unfolding Fuel.still
world-IsClosed = record {
  listed = asks-AllListed;
  constructs = λ name kwargs c. refl;
  runs = λ f c. refl;
}

resolving-make_run : (make world 3 "Mailer" container).1.resolving ≡ container.resolving
resolving-make_run = Unwinding.resolving-make world world-IsUnwinding 3 "Mailer" container

still-make_example : Fuel.still (make world 3 "Mailer" container).0 ≡ false
unfolding among Fuel.missing
still-make_example =
    Fuel.still-make world world-IsUnwinding types world-IsClosed 3 "Mailer" container refl
      (omega arith)

-- Two listed providers, and one of them is found again as a package.
abbrev boot_config : AppConfig
boot_config = record { providers = "cache" ∷ "queue" ∷ []; autodiscover = true }

abbrev outcomes : Lifecycle.Outcomes
outcomes = record {
  config = true;
  registers = λ p. true;
  boots = λ p. not (str_eq p "queue");
  shutdowns = λ p. true;
  kernel = true;
}

run-log_example :
    (ps : List String) × Lifecycle.AreProviders boot_config ("queue" ∷ "blog" ∷ []) ps
    × (run
          (Lifecycle.recorder ("queue" ∷ "blog" ∷ []) outcomes)
          boot_config
          (record { providers = []; booted = false; world = [] })
        ≡ Lifecycle.expected outcomes ps)
run-log_example = Lifecycle.run-log boot_config ("queue" ∷ "blog" ∷ []) outcomes
