-- ===== src/Foundation/Container.antt =====
-- pylar/foundation/container.py: bindings, singletons, scopes, tags, and `make` with its auto-wiring.
-- A type has its name. What introspection tells of a class, what its constructor does with its
-- arguments, and what a factory does are a `World`. An object has its identity. The scopes stand with
-- the innermost one first. `make` calls itself through the constructors that it fills, so that it
-- runs on fuel, one for each type that is being resolved.
pub mod Unwinding
pub mod Fuel
use pylar_framework.Dict
use pylar_framework.Dict.{Dict}
use pylar_framework.Prelude.{
  Bool, List, Option, String, [], drop, false, if◌then◌else◌, none, not, some, str_eq, suc, zero, ℕ,
  ◌&&◌, ◌++◌, ◌||◌, ◌∷◌,
}

pub data Kind : Type 0 where
  no_class protocol abstract_class concrete_class : Kind

-- A constructor parameter: its name, its type if it has one, and whether it has a default.
pub record Parameter : Type 0 where
  pub name : String
  pub annotation : Option String
  pub has_default : Bool

pub data Scope : Type 0 where
  transient singleton scoped : Scope

pub data Concrete : Type 0 where
  class_of : String → Concrete
  factory : ℕ → Concrete

pub record Binding : Type 0 where
  pub concrete : Concrete
  pub scope : Scope

pub data Error : Type 0 where
  circular : List String → Error
  binding_error resolution_error : Error
  other_error : ℕ → Error

-- What a call comes to: a value or an exception; `exhausted` is a call that is still running.
pub data Made (A : Type 0) : Type 0 where
  made : A → Made A
  failed : Error → Made A
  exhausted : Made A

pub record Container : Type 0 where
  pub bindings : Dict Binding
  pub singletons : Dict ℕ
  pub scope_stack : List (Dict ℕ)
  pub tags : Dict (List String)
  pub resolving : List String

pub record World : Type 0 where
  pub kind : String → Kind
  pub parameters : String → List Parameter
  pub construct : String → Dict ℕ → Container → Made ℕ × Container
  pub run_factory : ℕ → Container → Made ℕ × Container

-- x in xs
unfoldable pub among : String → List String → Bool
among x [] = false
among x (y ∷ ys) = str_eq y x || among x ys

-- self._resolving.pop()
unfoldable pub drop_last : List String → List String
drop_last [] = []
drop_last (x ∷ []) = []
drop_last (x ∷ y ∷ ys) = x ∷ drop_last (y ∷ ys)

unfoldable pub bind : String → Binding → Container → Container
bind name binding c = record c { bindings = Dict.put c.bindings name binding }

-- Container.singleton: a bind that drops the cached object.
unfoldable pub bind_singleton : String → Concrete → Container → Container
bind_singleton name concrete c = record c {
  bindings = Dict.put c.bindings name (record { concrete = concrete; scope = singleton });
  singletons = Dict.remove c.singletons name;
}

-- The factory returns the object.
unfoldable pub instance_as : String → ℕ → ℕ → Container → Container
instance_as name returns object c = record c {
  bindings = Dict.put c.bindings name (record { concrete = factory returns; scope = singleton });
  singletons = Dict.put c.singletons name object;
}

unfoldable pub has : String → Container → Bool
has name c = Dict.has c.bindings name

-- The object in the innermost scope, if there is one.
unfoldable pub in_scope : String → List (Dict ℕ) → Option ℕ
in_scope name [] = none
in_scope name (current ∷ scopes) = Dict.get current name

unfoldable pub open_scope : Container → Container
open_scope c = record c { scope_stack = [] ∷ c.scope_stack }

unfoldable pub close_scope : Container → Container
close_scope c = record c { scope_stack = drop 1 c.scope_stack }

unfoldable pub add_tagged : List String → List String → List String
unfolding among
add_tagged bucket [] = bucket
add_tagged bucket (name ∷ names) =
    add_tagged (if among name bucket then bucket else bucket ++ name ∷ []) names

abbrev pub or_untagged : Option (List String) → List String
or_untagged none = []
or_untagged (some names) = names

unfoldable pub tag : List String → String → Container → Container
unfolding add_tagged
tag names label c = record c {
  tags = Dict.put c.tags label (add_tagged (or_untagged (Dict.get c.tags label)) names);
}

unfoldable pub tagged_types : String → Container → List String
tagged_types label c = or_untagged (Dict.get c.tags label)

-- What the call of `make` inside does.
abbrev pub Maker : Type 0
Maker = String → Container → Made ℕ × Container

-- kwargs[param.name] = …
unfoldable pub add_argument : String → ℕ → Made (Dict ℕ) → Made (Dict ℕ)
add_argument name object (made kwargs) = made ((name, object) ∷ kwargs)
add_argument name object rest = rest

-- An exception of `make` ends the loop over the parameters.
unfoldable pub next_argument :
    String → Made ℕ → Container → Made (Dict ℕ) × Container → Made (Dict ℕ) × Container
unfolding add_argument
next_argument name (made object) c (rest, c') = (add_argument name object rest, c')
next_argument name (failed error) c rest = (failed error, c)
next_argument name exhausted c rest = (exhausted, c)

-- The loop of `_build` over the parameters, for a constructor that `inspect_callable` does not refuse.
unfoldable pub arguments : Maker → List Parameter → Container → Made (Dict ℕ) × Container
arguments make [] c = (made [], c)
arguments make (p ∷ ps) c = elim p.annotation [
  | none ↦ arguments make ps c
  | some type ↦
      if p.has_default && not (has type c)
      then arguments make ps c
      else let (r, c') = make type c in next_argument p.name r c' (arguments make ps c')
]

module _ (w : World) where
  finish_build : String → Made (Dict ℕ) × Container → Made ℕ × Container
  finish_build name (made kwargs, c) = w.construct name kwargs c
  finish_build name (failed error, c) = (failed error, c)
  finish_build name (exhausted, c) = (exhausted, c)

  unfoldable pub build : Maker → String → Container → Made ℕ × Container
  unfolding finish_build
  build make name c = finish_build name (arguments make (w.parameters name) c)

  auto_resolve_as : Kind → Maker → String → Container → Made ℕ × Container
  auto_resolve_as concrete_class make name c = build make name c
  auto_resolve_as _ make name c = (failed binding_error, c)

  unfoldable pub auto_resolve : Maker → String → Container → Made ℕ × Container
  unfolding auto_resolve_as
  auto_resolve make name c = auto_resolve_as (w.kind name) make name c

  unfoldable pub instantiate : Maker → Concrete → Container → Made ℕ × Container
  instantiate make (class_of name) c = build make name c
  instantiate make (factory f) c = w.run_factory f c

  -- What `make` does with the object of a binding.
  unfoldable pub keep_object : Scope → String → Made ℕ × Container → Made ℕ × Container
  keep_object singleton name (made object, c) =
      (made object, record c { singletons = Dict.put c.singletons name object })
  keep_object scoped name (made object, c) = elim c.scope_stack [
    | [] ↦ (failed resolution_error, c)
    | current ∷ scopes ↦
        (made object, record c { scope_stack = Dict.put current name object ∷ scopes })
  ]
  keep_object _ name (r, c) = (r, c)

  unfoldable pub resolve : Maker → Option Binding → String → Container → Made ℕ × Container
  resolve make none name c = auto_resolve make name c
  resolve make (some binding) name c =
      keep_object binding.scope name (instantiate make binding.concrete c)

  -- finally: self._resolving.pop()
  unfoldable pub unwind : Made ℕ × Container → Made ℕ × Container
  unfolding drop_last
  unwind (r, c) = (r, record c { resolving = drop_last c.resolving })

  cached : Option ℕ → Option ℕ → Container → Made ℕ × Container → Made ℕ × Container
  cached (some object) in_scope c rest = (made object, c)
  cached none (some object) c rest = (made object, c)
  cached none none c rest = rest

  unfoldable pub make : ℕ → Maker
  unfolding cached in_scope
  make zero name c = (exhausted, c)
  make (suc fuel) name c =
      let rest = unwind (
        resolve (make fuel) (Dict.get c.bindings name) name
          (record c { resolving = c.resolving ++ name ∷ [] })) in
      if among name c.resolving
      then (failed (circular (c.resolving ++ name ∷ [])), c)
      else cached (Dict.get c.singletons name) (in_scope name c.scope_stack) c rest
