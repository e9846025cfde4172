-- ===== src/Foundation/Calling.antt =====
-- pylar/foundation/container.py: `call` and `tagged`, which compose `make`. A value has its identity.
-- The fuel is that of `make`.
use pylar_framework.Dict
use pylar_framework.Dict.{Dict}
use pylar_framework.Foundation.Container.{
  Container, World, Made, made, failed, exhausted, tagged_types, make,
}
use pylar_framework.Prelude.{List, Option, String, [], none, some, ℕ, ◌∷◌}

-- A parameter of a callable: its name, its type if it has one, and its default.
pub record CallParameter : Type 0 where
  pub name : String
  pub annotation : Option String
  pub default : ℕ

add_value : ℕ → Made (List ℕ) → Made (List ℕ)
add_value value (made values) = made (value ∷ values)
add_value value rest = rest

-- An exception of `make` ends a loop.
next_value :
    Made ℕ → Container → (Container → Made (List ℕ) × Container) → Made (List ℕ) × Container
unfolding add_value
next_value (made value) c rest = let (values, c') = rest c in (add_value value values, c')
next_value (failed error) c rest = (failed error, c)
next_value exhausted c rest = (exhausted, c)

module _ (w : World) where
  -- The list comprehension of `tagged`.
  unfoldable pub make_all : ℕ → List String → Container → Made (List ℕ) × Container
  unfolding next_value
  make_all fuel [] c = (made [], c)
  make_all fuel (name ∷ names) c =
      let (r, c') = make w fuel name c in next_value r c' (make_all fuel names)

  unfoldable pub tagged : ℕ → String → Container → Made (List ℕ) × Container
  unfolding make_all
  tagged fuel label c = make_all fuel (tagged_types label c) c

  -- A parameter that no name gives: the value of its type, its default, or what `make` gives.
  unfoldable pub typed_value : ℕ → Option String → Dict ℕ → ℕ → Container → Made ℕ × Container
  typed_value fuel none overrides default c = (made default, c)
  typed_value fuel (some type) overrides default c = elim (Dict.get overrides type) [
    | some value ↦ (made value, c)
    | none ↦ make w fuel type c
  ]

  unfoldable pub resolve_value :
      ℕ → Dict ℕ → Dict ℕ → CallParameter → Container → Made ℕ × Container
  unfolding typed_value
  resolve_value fuel overrides params p c = elim (Dict.get params p.name) [
    | some value ↦ (made value, c)
    | none ↦ typed_value fuel p.annotation overrides p.default c
  ]

  -- The loop of `call` over the parameters.
  unfoldable pub call_arguments :
      ℕ → Dict ℕ → Dict ℕ → List CallParameter → Container → Made (List ℕ) × Container
  unfolding next_value resolve_value
  call_arguments fuel overrides params [] c = (made [], c)
  call_arguments fuel overrides params (p ∷ ps) c =
      let (r, c') = resolve_value fuel overrides params p c in
      next_value r c' (call_arguments fuel overrides params ps)

  run_target :
      (List ℕ → Container → Made ℕ × Container) → Made (List ℕ) × Container → Made ℕ × Container
  run_target target (made args, c) = target args c
  run_target target (failed error, c) = (failed error, c)
  run_target target (exhausted, c) = (exhausted, c)

  unfoldable pub call :
      ℕ
      → (List ℕ → Container → Made ℕ × Container)
      → List CallParameter
      → Dict ℕ
      → Dict ℕ
      → Container
      → Made ℕ × Container
  unfolding call_arguments run_target
  call fuel target parameters overrides params c =
      run_target target (call_arguments fuel overrides params parameters c)
