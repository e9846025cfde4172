-- ===== src/Foundation/Application/Lifecycle.antt =====
-- The order in which a run calls the methods of the providers, as a log.
use mathlib.Core.List.{append_assoc, append-nil}
use pylar_framework.Foundation.Application.{
  World, AppConfig, Application, among, not_listed, all_providers, each, each_safely, boot_all,
  register_all, bootstrap, shutdown, run_booted, run,
}
use pylar_framework.Prelude.{
  Bool, Bool-cases, List, String, [], ap, arith, eq_iff, false, if◌then◌else◌, inl, inr, map, not,
  refl, reverse, true, ◌&&◌, ◌++◌, ◌∙◌, ◌∷◌, ◌≡◌, ◌⊎◌,
}

pub data Event : Type 0 where
  registered booted shut_down : String → Event
  handled : Event

abbrev pub IsIn : String → List String → Type 0
IsIn x [] = ⊥
IsIn x (y ∷ ys) = (y ≡ x) ⊎ IsIn x ys

-- The classes that are found and not listed, in their order.
abbrev pub ArePicked : List String → List String → List String → Type 0
ArePicked listed [] picked = picked ≡ []
ArePicked listed (cls ∷ found) picked =
    (IsIn cls listed × ArePicked listed found picked)
    ⊎ (¬ IsIn cls listed
        × ((rest : List String) × (picked ≡ cls ∷ rest) × ArePicked listed found rest))

-- The providers of a configuration: those that it lists, and behind them, where it says so, the ones
-- that are found in packages and are not listed.
abbrev pub AreProviders : AppConfig → List String → List String → Type 0
AreProviders config found ps =
    ((config.autodiscover ≡ false) × (ps ≡ config.providers))
    ⊎ ((config.autodiscover ≡ true)
        × ((picked : List String) × ArePicked config.providers found picked
            × (ps ≡ config.providers ++ picked)))

among-IsIn : (x : String) (ys : List String) → among x ys ≡ true → IsIn x ys
unfolding among
among-IsIn x [] h = absurd (ground (arith, h))
among-IsIn x (y ∷ ys) h = ground (arith, h, eq_iff y x, among-IsIn x ys)

among-absent : (x : String) (ys : List String) → among x ys ≡ false → ¬ IsIn x ys
unfolding among
among-absent x [] h there = there
among-absent x (y ∷ ys) h (inl same) = ground (arith, h, same, eq_iff y x)
among-absent x (y ∷ ys) h (inr later) = among-absent x ys (ground (arith, h)) later

not_listed-ArePicked :
    (listed found : List String) → ArePicked listed found (not_listed listed found)
unfolding not_listed
not_listed-ArePicked listed [] = refl
not_listed-ArePicked listed (cls ∷ found) = elim (Bool-cases (among cls listed)) [
  | inl there ↦ rw there (inl (among-IsIn cls listed there, not_listed-ArePicked listed found))
  | inr absent ↦ rw absent (
      inr (
        among-absent cls listed absent,
        (not_listed listed found, refl, not_listed-ArePicked listed found),
      ))
]

all_providers-AreProviders :
    (config : AppConfig) (found : List String)
    → AreProviders config found (all_providers config found)
unfolding all_providers
all_providers-AreProviders config found = elim (Bool-cases config.autodiscover) [
  | inl on ↦ rw on (
      inr (
        refl,
        (not_listed config.providers found, not_listed-ArePicked config.providers found, refl),
      ))
  | inr off ↦ rw off (inl (refl, refl))
]

-- Which calls end without an exception.
pub record Outcomes : Type 0 where
  pub config : Bool
  pub registers : String → Bool
  pub boots : String → Bool
  pub shutdowns : String → Bool
  pub kernel : Bool

-- A world that records each call.
abbrev pub recorder : List String → Outcomes → World (List Event)
recorder found ok = record {
  load_config = λ log. (ok.config, log);
  discover_providers = found;
  register = λ p log. (ok.registers p, log ++ registered p ∷ []);
  boot = λ p log. (ok.boots p, log ++ booted p ∷ []);
  shutdown = λ p log. (ok.shutdowns p, log ++ shut_down p ∷ []);
  handle = λ log. (ok.kernel, log ++ handled ∷ []);
}

-- The names up to the first one that fails, which is still among them.
abbrev pub to_first_failure : (String → Bool) → List String → List String
to_first_failure ok [] = []
to_first_failure ok (p ∷ ps) = p ∷ (if ok p then to_first_failure ok ps else [])

abbrev pub succeed : (String → Bool) → List String → Bool
succeed ok [] = true
succeed ok (p ∷ ps) = ok p && succeed ok ps

-- What a run logs: where the configuration loads, the registrations up to the first that raises;
-- where none does, the boots up to the first that raises; and where none does, the kernel, and the
-- shutdowns in the reverse order.
abbrev pub expected_log : Outcomes → List String → List Event
expected_log ok ps =
    if not ok.config
    then []
    else if not (succeed ok.registers ps)
    then map registered (to_first_failure ok.registers ps)
    else if not (succeed ok.boots ps)
    then map registered ps ++ map booted (to_first_failure ok.boots ps)
    else map registered ps ++ map booted ps ++ handled ∷ [] ++ map shut_down (reverse ps)

-- Whether a run ends without an exception, and the application after it.
abbrev pub expected : Outcomes → List String → Bool × Application (List Event)
expected ok ps = (
  ok.config && (succeed ok.registers ps && (succeed ok.boots ps && ok.kernel)),
  record { providers = if ok.config then ps else []; booted = false; world = expected_log ok ps },
)

each-log :
    (event : String → Event) (ok : String → Bool) (ps : List String) (log : List Event)
    → each (λ p l. (ok p, l ++ event p ∷ [])) ps log
      ≡ (succeed ok ps, log ++ map event (to_first_failure ok ps))
unfolding each
each-log event ok [] log = rw append-nil refl
each-log event ok (p ∷ ps) log = elim (Bool-cases (ok p)) [
  | inl fine ↦ rw fine (each-log event ok ps (log ++ event p ∷ []) ∙ rw append_assoc refl)
  | inr raised ↦ rw raised refl
]

succeed-all :
    (ok : String → Bool) (ps : List String) → succeed ok ps ≡ true → to_first_failure ok ps ≡ ps
succeed-all ok [] h = refl
succeed-all ok (p ∷ ps) h = elim (Bool-cases (ok p)) [
  | inl fine ↦ rw fine (ap (λ (qs : List String). p ∷ qs) (succeed-all ok ps (rw fine at h)))
  | inr raised ↦ let never : false ≡ true = rw raised at h in absurd (ground (arith, never))
]

each_safely-log :
    (shuts : String → Bool) (ps : List String) (log : List Event)
    → each_safely (λ p l. (shuts p, l ++ shut_down p ∷ [])) ps log ≡ log ++ map shut_down ps
unfolding each_safely
each_safely-log shuts [] log = rw append-nil refl
each_safely-log shuts (p ∷ ps) log =
    each_safely-log shuts ps (log ++ shut_down p ∷ []) ∙ rw append_assoc refl

run_lem :
    (config : AppConfig) (found : List String) (ok : Outcomes)
    → run (recorder found ok) config (record { providers = []; booted = false; world = [] })
      ≡ expected ok (all_providers config found)
unfolding run run_booted bootstrap register_all boot_all shutdown
run_lem config found ok =
    let ps = all_providers config found in
    elim (Bool-cases ok.config) [
      | inr unread ↦ rw unread refl
      | inl loaded ↦ elim (Bool-cases (succeed ok.registers ps)) [
        | inr refused ↦ rw (loaded, each-log registered ok.registers ps [], refused) refl
        | inl all_registered ↦
            let to_boot = map registered ps in
            elim (Bool-cases (succeed ok.boots ps)) [
              | inr down ↦
                  rw
                    (
                      loaded,
                      each-log registered ok.registers ps [],
                      all_registered,
                      succeed-all ok.registers ps all_registered,
                      each-log booted ok.boots ps to_boot,
                      down,
                    )
                    refl
              | inl all_booted ↦
                  rw
                    (
                      loaded,
                      each-log registered ok.registers ps [],
                      all_registered,
                      succeed-all ok.registers ps all_registered,
                      each-log booted ok.boots ps to_boot,
                      all_booted,
                      succeed-all ok.boots ps all_booted,
                      each_safely-log ok.shutdowns (reverse ps),
                    )
                    refl
            ]
      ]
    ]

-- Whatever raises, a run of a new application registers its providers in their order up to the first
-- one that raises. It boots them, in their order and up to the first one that raises, only where all
-- are registered, and only where all have booted does the kernel work; then all of them are shut down
-- in the reverse order, each once, whether the kernel raises or not and whichever shutdowns raise.
-- After the run the application is not booted, it lists its providers unless the loading of the
-- configuration raised, and the run raises exactly if that, a registration, a boot or the kernel does.
-- The providers are those of the configuration and, where it says so, those found in packages.
pub run-log :
    (config : AppConfig) (found : List String) (ok : Outcomes)
    → (ps : List String) × AreProviders config found ps
      × (run (recorder found ok) config (record { providers = []; booted = false; world = [] })
          ≡ expected ok ps)
run-log config found ok =
    (all_providers config found, all_providers-AreProviders config found, run_lem config found ok)
