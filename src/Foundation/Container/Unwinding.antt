-- ===== src/Foundation/Container/Unwinding.antt =====
-- The stack of the types that are being resolved, across a call of `make`.
use pylar_framework.Foundation.Container.{
  Kind, concrete_class, Parameter, Scope, singleton, scoped, Concrete, class_of, factory, Binding,
  Made, made, failed, exhausted, Container, World, among, drop_last, in_scope, Maker, next_argument,
  arguments, finish_build, build, auto_resolve_as, auto_resolve, instantiate, keep_object, resolve,
  unwind, cached, make, has,
}
use pylar_framework.Dict
use pylar_framework.Dict.{Dict}
use pylar_framework.Prelude.{
  Bool-cases, List, Option, Option-cases, String, [], ap, arith, inl, inr, none, not, refl, some,
  suc, zero, ℕ, ◌&&◌, ◌++◌, ◌∙◌, ◌∷◌, ◌≡◌,
}

drop_last-append : (xs : List String) (x : String) → drop_last (xs ++ x ∷ []) ≡ xs
unfolding drop_last
drop_last-append [] x = refl
drop_last-append (y ∷ []) x = refl
drop_last-append (y ∷ z ∷ ys) x = ap (λ zs. y ∷ zs) (drop_last-append (z ∷ ys) x)

-- A call leaves the stack as it found it.
abbrev pub Unwinds : Maker → Type 0
Unwinds make = (name : String) (c : Container) → (make name c).1.resolving ≡ c.resolving

-- What the constructors and the factories do leaves the stack as it was: they reach it through
-- `make` alone.
pub record IsUnwinding (w : World) : Type 0 where
  pub constructs :
      (name : String) (kwargs : Dict ℕ) (c : Container)
      → (w.construct name kwargs c).1.resolving ≡ c.resolving
  pub runs : (f : ℕ) (c : Container) → (w.run_factory f c).1.resolving ≡ c.resolving

resolving-next_argument :
    (name : String) (r : Made ℕ) (c : Container) (rest : Made (Dict ℕ) × Container)
    → rest.1.resolving ≡ c.resolving
    → (next_argument name r c rest).1.resolving ≡ c.resolving
unfolding next_argument
resolving-next_argument name (made object) c rest h = h
resolving-next_argument name (failed error) c rest h = refl
resolving-next_argument name exhausted c rest h = refl

pub resolving-arguments :
    (make : Maker) (ps : List Parameter) (c : Container)
    → Unwinds make
    → (arguments make ps c).1.resolving ≡ c.resolving
unfolding arguments
resolving-arguments make [] c u = refl
resolving-arguments make (p ∷ ps) c u = elim (Option-cases p.annotation) [
  | inl untyped ↦ rw (untyped, arguments) (resolving-arguments make ps c u)
  | inr (type, typed) ↦ elim (Bool-cases (p.has_default && not (has type c))) [
    | inl skipped ↦ rw (typed, arguments, skipped) (resolving-arguments make ps c u)
    | inr wanted ↦
        let c' = (make type c).1 in
        rw (typed, arguments, wanted)
          (resolving-next_argument p.name (make type c).0 c' (arguments make ps c')
              (resolving-arguments make ps c' u)
            ∙ u type c)
  ]
]

module _ (w : World) (unwinding : IsUnwinding w) where
  resolving-finish_build :
      (name : String) (r : Made (Dict ℕ) × Container)
      → (finish_build w name r).1.resolving ≡ r.1.resolving
  unfolding finish_build
  resolving-finish_build name (made kwargs, c) = unwinding.constructs name kwargs c
  resolving-finish_build name (failed error, c) = refl
  resolving-finish_build name (exhausted, c) = refl

  resolving-build :
      (make : Maker) (name : String) (c : Container)
      → Unwinds make
      → (build w make name c).1.resolving ≡ c.resolving
  unfolding build
  resolving-build make name c u =
      resolving-finish_build name (arguments make (w.parameters name) c)
      ∙ resolving-arguments make (w.parameters name) c u

  resolving-auto_resolve_as :
      (kind : Kind) (make : Maker) (name : String) (c : Container)
      → Unwinds make
      → (auto_resolve_as w kind make name c).1.resolving ≡ c.resolving
  unfolding auto_resolve_as
  resolving-auto_resolve_as concrete_class make name c u = resolving-build make name c u
  resolving-auto_resolve_as _ make name c u = refl

  resolving-instantiate :
      (make : Maker) (concrete : Concrete) (c : Container)
      → Unwinds make
      → (instantiate w make concrete c).1.resolving ≡ c.resolving
  unfolding instantiate
  resolving-instantiate make (class_of name) c u = resolving-build make name c u
  resolving-instantiate make (factory f) c u = unwinding.runs f c

  resolving-keep_object :
      (scope_of : Scope) (name : String) (r : Made ℕ × Container)
      → (keep_object w scope_of name r).1.resolving ≡ r.1.resolving
  unfolding keep_object
  resolving-keep_object singleton name (made object, c) = refl
  resolving-keep_object scoped name (made object, c) = ground arith
  resolving-keep_object _ name (r, c) = refl

  resolving-resolve :
      (make : Maker) (found : Option Binding) (name : String) (c : Container)
      → Unwinds make
      → (resolve w make found name c).1.resolving ≡ c.resolving
  unfolding resolve auto_resolve
  resolving-resolve make none name c u = resolving-auto_resolve_as (w.kind name) make name c u
  resolving-resolve make (some binding) name c u =
      resolving-keep_object binding.scope name (instantiate w make binding.concrete c)
      ∙ resolving-instantiate make binding.concrete c u

  resolving-cached :
      (found scoped_object : Option ℕ) (c : Container) (rest : Made ℕ × Container)
      → rest.1.resolving ≡ c.resolving
      → (cached w found scoped_object c rest).1.resolving ≡ c.resolving
  unfolding cached
  resolving-cached (some object) o c rest h = refl
  resolving-cached none (some object) c rest h = refl
  resolving-cached none none c rest h = h

  -- Whether `make` returns or raises, the stack of the types that are being resolved is afterwards
  -- what it was before, if constructors and factories reach it through `make` alone: a failure
  -- leaves nothing behind that a later call would take for a cycle.
  pub resolving-make :
      (fuel : ℕ) (name : String) (c : Container) → (make w fuel name c).1.resolving ≡ c.resolving
  unfolding make unwind
  resolving-make zero name c = refl
  resolving-make (suc fuel) name c = elim (Bool-cases (among name c.resolving)) [
    | inl cycle ↦ rw cycle refl
    | inr new ↦
        let entered = record c { resolving = c.resolving ++ name ∷ [] } in
        rw new (
          resolving-cached (Dict.get c.singletons name) (in_scope name c.scope_stack) c
            (unwind w (resolve w (make w fuel) (Dict.get c.bindings name) name entered))
            (ap drop_last (
                resolving-resolve (make w fuel) (Dict.get c.bindings name) name entered
                  (resolving-make fuel))
              ∙ drop_last-append c.resolving name))
  ]
