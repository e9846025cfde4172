-- ===== src/Foundation/Container/Fuel.antt =====
-- How much fuel `make` needs: one for each type that is not being resolved yet, and one more.
use pylar_framework.Foundation.Container.{
  Kind, concrete_class, Parameter, Scope, singleton, scoped, Concrete, class_of, factory, Binding,
  Made, made, failed, exhausted, Container, World, among, in_scope, Maker, add_argument,
  next_argument, arguments, finish_build, build, auto_resolve_as, auto_resolve, instantiate,
  keep_object, resolve, unwind, cached, make, has,
}
use pylar_framework.Foundation.Container.Unwinding.{Unwinds, IsUnwinding, resolving-make}
use pylar_framework.Dict
use pylar_framework.Dict.{Dict}
use pylar_framework.Prelude.{
  Bool, Bool-cases, List, Option, Option-cases, String, [], arith, eq_iff, false, if◌then◌else◌,
  inl, inr, none, not, refl, some, str_eq, suc, sym, true, zero, ℕ, ◌&&◌, ◌++◌, ◌+◌, ◌<◌, ◌||◌, ◌∙◌,
  ◌∷◌, ◌≡◌, ◌≤◌,
}

-- The call is still running.
unfoldable pub still : {A : Type 0} → Made A → Bool
still (made a) = false
still (failed error) = false
still exhausted = true

-- How many of the types are not being resolved.
unfoldable pub missing : List String → List String → ℕ
missing [] resolving = 0
missing (t ∷ types) resolving =
    let rest = missing types resolving in if among t resolving then rest else rest + 1

-- The type of a parameter is listed, if it has one.
abbrev pub IsListed : List String → Option String → Type 0
IsListed types none = Unit
IsListed types (some type) = among type types ≡ true

-- The types of the parameters are listed.
abbrev pub AllListed : List String → List Parameter → Type 0
AllListed types [] = Unit
AllListed types (p ∷ ps) = IsListed types p.annotation × AllListed types ps

-- The list has every type that a constructor asks for, and constructors and factories end.
pub record IsClosed (w : World) (types : List String) : Type 0 where
  pub listed : (name : String) → AllListed types (w.parameters name)
  pub constructs :
      (name : String) (kwargs : Dict ℕ) (c : Container)
      → still (w.construct name kwargs c).0 ≡ false
  pub runs : (f : ℕ) (c : Container) → still (w.run_factory f c).0 ≡ false

among-append :
    (x : String) (ys : List String) (y : String) → among x (ys ++ y ∷ []) ≡ among x ys || str_eq y x
unfolding among
among-append x [] y = ground arith
among-append x (z ∷ ys) y = ground (arith, among-append x ys y)

missing-append-le :
    (types resolving : List String) (name : String)
    → missing types (resolving ++ name ∷ []) ≤ missing types resolving
unfolding missing
missing-append-le [] resolving name = ground arith
missing-append-le (t ∷ types) resolving name =
    ground (arith, missing-append-le types resolving name, among-append t resolving name)

-- A type that gets resolved is missing no more.
missing-append-lt :
    (types resolving : List String) (name : String)
    → among name types ≡ true
    → among name resolving ≡ false
    → missing types (resolving ++ name ∷ []) < missing types resolving
unfolding missing among
missing-append-lt [] resolving name h k = ground (arith, h)
missing-append-lt (t ∷ types) resolving name h k = elim (Bool-cases (str_eq t name)) [
  | inl same ↦
      let e = (eq_iff t name).0 same in
      ground (
        arith,
        e,
        missing-append-le types resolving name,
        among-append t resolving name,
        rw (sym e) at k,
      )
  | inr ne ↦ ground (
    arith,
    ne,
    missing-append-lt types resolving name (ground arith) k,
    among-append t resolving name,
  )
]

-- Calls of `make` from a given stack end.
abbrev pub Ends : List String → List String → Maker → Type 0
Ends types resolving make =
    (name : String) (c : Container)
    → c.resolving ≡ resolving
    → among name types ≡ true
    → still (make name c).0 ≡ false

still-next_argument :
    (name : String) (r : Made ℕ) (c : Container) (rest : Made (Dict ℕ) × Container)
    → still r ≡ false
    → still rest.0 ≡ false
    → still (next_argument name r c rest).0 ≡ false
unfolding next_argument add_argument still
still-next_argument name (made object) c (made kwargs, c') h k = refl
still-next_argument name (made object) c (failed error, c') h k = refl
still-next_argument name (made object) c (exhausted, c') h k = k
still-next_argument name (failed error) c rest h k = refl
still-next_argument name exhausted c rest h k = h

still-arguments :
    (types resolving : List String) (make : Maker) (ps : List Parameter) (c : Container)
    → Unwinds make
    → Ends types resolving make
    → AllListed types ps
    → c.resolving ≡ resolving
    → still (arguments make ps c).0 ≡ false
unfolding arguments still
still-arguments types resolving make [] c u ends all e = refl
still-arguments types resolving make (p ∷ ps) c u ends all e = elim (Option-cases p.annotation) [
  | inl untyped ↦ rw (untyped, arguments) (still-arguments types resolving make ps c u ends all.1 e)
  | inr (type, typed) ↦ elim (Bool-cases (p.has_default && not (has type c))) [
    | inl skipped ↦
        rw (typed, arguments, skipped) (still-arguments types resolving make ps c u ends all.1 e)
    | inr wanted ↦
        let c' = (make type c).1 in
        rw (typed, arguments, wanted)
          (still-next_argument p.name (make type c).0 c' (arguments make ps c')
            (ends type c e (rw typed at (all.0)))
            (still-arguments types resolving make ps c' u ends all.1 (u type c ∙ e)))
  ]
]

module _ (w : World) (unwinding : IsUnwinding w) (types : List String)
    (closed : IsClosed w types) where
  still-finish_build :
      (name : String) (r : Made (Dict ℕ) × Container)
      → still r.0 ≡ false
      → still (finish_build w name r).0 ≡ false
  unfolding finish_build still
  still-finish_build name (made kwargs, c) h = closed.constructs name kwargs c
  still-finish_build name (failed error, c) h = refl
  still-finish_build name (exhausted, c) h = h

  still-build :
      (resolving : List String) (make : Maker) (name : String) (c : Container)
      → Unwinds make
      → Ends types resolving make
      → c.resolving ≡ resolving
      → still (build w make name c).0 ≡ false
  unfolding build
  still-build resolving make name c u ends e =
      still-finish_build name (arguments make (w.parameters name) c)
        (still-arguments types resolving make (w.parameters name) c u ends (closed.listed name) e)

  still-auto_resolve_as :
      (resolving : List String) (kind : Kind) (make : Maker) (name : String) (c : Container)
      → Unwinds make
      → Ends types resolving make
      → c.resolving ≡ resolving
      → still (auto_resolve_as w kind make name c).0 ≡ false
  unfolding auto_resolve_as still
  still-auto_resolve_as resolving concrete_class make name c u ends e =
      still-build resolving make name c u ends e
  still-auto_resolve_as resolving _ make name c u ends e = refl

  still-instantiate :
      (resolving : List String) (make : Maker) (concrete : Concrete) (c : Container)
      → Unwinds make
      → Ends types resolving make
      → c.resolving ≡ resolving
      → still (instantiate w make concrete c).0 ≡ false
  unfolding instantiate
  still-instantiate resolving make (class_of name) c u ends e =
      still-build resolving make name c u ends e
  still-instantiate resolving make (factory f) c u ends e = closed.runs f c

  still-keep_object :
      (scope_of : Scope) (name : String) (r : Made ℕ × Container)
      → still r.0 ≡ false
      → still (keep_object w scope_of name r).0 ≡ false
  unfolding keep_object still
  still-keep_object singleton name (made object, c) h = refl
  still-keep_object scoped name (made object, c) h = ground arith
  still-keep_object _ name (r, c) h = h

  still-resolve :
      (resolving : List String) (make : Maker) (found : Option Binding) (name : String)
      (c : Container)
      → Unwinds make
      → Ends types resolving make
      → c.resolving ≡ resolving
      → still (resolve w make found name c).0 ≡ false
  unfolding resolve auto_resolve
  still-resolve resolving make none name c u ends e =
      still-auto_resolve_as resolving (w.kind name) make name c u ends e
  still-resolve resolving make (some binding) name c u ends e =
      still-keep_object binding.scope name (instantiate w make binding.concrete c)
        (still-instantiate resolving make binding.concrete c u ends e)

  still-cached :
      (found scoped_object : Option ℕ) (c : Container) (rest : Made ℕ × Container)
      → still rest.0 ≡ false
      → still (cached w found scoped_object c rest).0 ≡ false
  unfolding cached still
  still-cached (some object) o c rest h = refl
  still-cached none (some object) c rest h = refl
  still-cached none none c rest h = h

  -- `make` ends: with a fuel above the number of the types that are not being resolved it returns or
  -- raises. The list of types has every type that a constructor asks for, and constructors and
  -- factories end and reach the stack through `make` alone; a cycle of constructors is no exception.
  pub still-make :
      (fuel : ℕ) (name : String) (c : Container)
      → among name types ≡ true
      → missing types c.resolving < fuel
      → still (make w fuel name c).0 ≡ false
  unfolding make unwind still
  still-make zero name c h lt = absurd (omega (arith, lt))
  still-make (suc fuel) name c h lt = elim (Bool-cases (among name c.resolving)) [
    | inl cycle ↦ rw cycle refl
    | inr new ↦
        let entered = record c { resolving = c.resolving ++ name ∷ [] } in
        let fewer = missing-append-lt types c.resolving name h new in
        rw new (
          still-cached (Dict.get c.singletons name) (in_scope name c.scope_stack) c
            (unwind w (resolve w (make w fuel) (Dict.get c.bindings name) name entered))
            (still-resolve entered.resolving (make w fuel) (Dict.get c.bindings name) name entered
              (resolving-make w unwinding fuel)
              (λ name' c' e listed.
                still-make fuel name' c' listed (rw e (omega (arith, fewer, lt))))
              refl))
  ]
