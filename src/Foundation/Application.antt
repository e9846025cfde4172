-- ===== src/Foundation/Application.antt =====
-- pylar/foundation/application.py: how `Application` brings its providers up and down. A provider
-- class has its name, and its instance is built without an exception. What the providers, the loading
-- of the configuration, the discovery of packages and the kernel do is a `World`.
pub mod Lifecycle
use pylar_framework.Prelude.{
  Bool, List, String, [], false, if◌then◌else◌, reverse, str_eq, true, ◌++◌, ◌||◌, ◌∷◌,
}

-- Each operation tells whether it ended without an exception.
pub record World (W : Type 0) : Type 0 where
  pub load_config : W → Bool × W
  pub discover_providers : List String
  pub register : String → W → Bool × W
  pub boot : String → W → Bool × W
  pub shutdown : String → W → Bool × W
  pub handle : W → Bool × W

pub record AppConfig : Type 0 where
  pub providers : List String
  pub autodiscover : Bool

pub record Application (W : Type 0) : Type 0 where
  pub providers : List String
  pub booted : Bool
  pub world : W

-- cls in explicit_set
unfoldable pub among : String → List String → Bool
among x [] = false
among x (y ∷ ys) = str_eq y x || among x ys

unfoldable pub not_listed : List String → List String → List String
unfolding among
not_listed listed [] = []
not_listed listed (cls ∷ found) =
    let rest = not_listed listed found in if among cls listed then rest else cls ∷ rest

unfoldable pub all_providers : AppConfig → List String → List String
unfolding not_listed
all_providers config found =
    if config.autodiscover
    then config.providers ++ not_listed config.providers found
    else config.providers

module _ {W : Type 0} where
  -- A loop that an exception ends.
  unfoldable pub each : (String → W → Bool × W) → List String → W → Bool × W
  each act [] w = (true, w)
  each act (p ∷ ps) w =
      let (done, w') = act p w in let rest = each act ps w' in if done then rest else (false, w')

  -- A loop that goes on after an exception.
  unfoldable pub each_safely : (String → W → Bool × W) → List String → W → W
  each_safely act [] w = w
  each_safely act (p ∷ ps) w = each_safely act ps (act p w).1

  boot_all : World W → List String → Bool × W → Bool × Application W
  unfolding each
  boot_all ops ps (false, w) = (false, record { providers = ps; booted = false; world = w })
  boot_all ops ps (true, w) =
      let (done, w') = each ops.boot ps w in
      (done, record { providers = ps; booted = done; world = w' })

  register_all : World W → List String → Application W → Bool × W → Bool × Application W
  unfolding each boot_all
  register_all ops ps app (false, w) = (false, record app { world = w })
  register_all ops ps app (true, w) = boot_all ops ps (each ops.register ps w)

  -- Whether `bootstrap` ends without an exception, and the application after it.
  unfoldable pub bootstrap : World W → AppConfig → Application W → Bool × Application W
  unfolding register_all
  bootstrap ops config app =
      if app.booted
      then (true, app)
      else register_all ops (all_providers config ops.discover_providers) app
          (ops.load_config app.world)

  unfoldable pub shutdown : World W → Application W → Application W
  unfolding each_safely
  shutdown ops app =
      if app.booted
      then record app {
        booted = false;
        world = each_safely ops.shutdown (reverse app.providers) app.world;
      }
      else app

  run_booted : World W → Bool × Application W → Bool × Application W
  unfolding shutdown
  run_booted ops (false, app) = (false, app)
  run_booted ops (true, app) =
      let (done, w) = ops.handle app.world in (done, shutdown ops (record app { world = w }))

  -- Application.run: whether it ends without an exception of the bootstrap or of the kernel.
  unfoldable pub run : World W → AppConfig → Application W → Bool × Application W
  unfolding run_booted
  run ops config app = run_booted ops (bootstrap ops config app)
