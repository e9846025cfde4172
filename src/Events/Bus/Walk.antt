-- ===== src/Events/Bus/Walk.antt =====
-- Which listeners of an event and of its ancestors run, and how often.
use pylar_framework.Dict
use pylar_framework.Events.Bus.{
  or_none, Bus, listeners_for, among, collect, walk_in, walk_listeners, World, Error,
  registration_error, dispatch_queued, run_one, run_listeners, dispatch,
}
use pylar_framework.Prelude.{
  Bool, Bool-cases, List, Option, String, [], ap, arith, eq_iff, false, if◌then◌else◌, inl, inr,
  none, not, refl, some, str_eq, subst, sym, true, ℕ, ◌&&◌, ◌++◌, ◌+◌, ◌==◌, ◌||◌, ◌∙◌, ◌∷◌, ◌≡◌,
  ◌≤◌, ◌⊎◌,
}

-- How often the listener stands in the list.
unfoldable pub occurrences : String → List String → ℕ
occurrences l [] = 0
occurrences l (k ∷ ks) = let rest = occurrences l ks in if str_eq k l then rest + 1 else rest

-- The listener is listed for the class.
abbrev listed : String → Option (List String) → Bool
listed l none = false
listed l (some ls) = not (occurrences l ls == 0)

-- The listener is registered for one of the classes, `object` aside.
unfoldable pub registered : String → List String → Bus → Bool
registered l [] bus = false
registered l (ancestor ∷ mro) bus =
    (not (str_eq ancestor "object") && listed l (Dict.get bus ancestor)) || registered l mro bus

abbrev pub once : Bool → ℕ
once true = 1
once false = 0

among-occurrences : (l : String) (ks : List String) → among l ks ≡ not (occurrences l ks == 0)
unfolding among occurrences
among-occurrences l [] = refl
among-occurrences l (k ∷ ks) = ground (arith, among-occurrences l ks)

listed-among :
    (l : String) (found : Option (List String)) → among l (or_none found) ≡ listed l found
unfolding among
listed-among l none = refl
listed-among l (some ls) = among-occurrences l ls

occurrences-append :
    (l : String) (ks : List String) (k : String)
    → occurrences l (ks ++ k ∷ []) ≡ occurrences l ks + once (str_eq k l)
unfolding occurrences
occurrences-append l [] k = ground arith
occurrences-append l (j ∷ ks) k = ground (arith, occurrences-append l ks k)

occurrences-collect :
    (l : String) (known : Bool) (collected ls : List String)
    → occurrences l collected ≡ once known
    → occurrences l (collect collected ls) ≡ once (known || among l ls)
unfolding collect among
occurrences-collect l known collected [] h = ground arith
occurrences-collect l known collected (k ∷ ls) h =
    let next = if among k collected then collected else collected ++ k ∷ [] in
    let step : occurrences l next ≡ once (known || str_eq k l) =
      ground (arith, eq_iff k l, among-occurrences k collected, occurrences-append l collected k) in
    occurrences-collect l (known || str_eq k l) next ls step ∙ ground arith

occurrences-walk_in :
    (l : String) (known : Bool) (mro : List String) (bus : Bus) (collected : List String)
    → occurrences l collected ≡ once known
    → occurrences l (walk_in mro bus collected) ≡ once (known || registered l mro bus)
unfolding walk_in registered
occurrences-walk_in l known [] bus collected h = ground arith
occurrences-walk_in l known (ancestor ∷ mro) bus collected h =
    elim (Bool-cases (str_eq ancestor "object")) [
      | inl skipped ↦ rw skipped (occurrences-walk_in l known mro bus collected h)
      | inr kept ↦
          let ls = listeners_for ancestor bus in
          rw kept (
            occurrences-walk_in l (known || among l ls) mro bus (collect collected ls)
              (occurrences-collect l known collected ls h)
            ∙ rw (listed-among l (Dict.get bus ancestor)) (ground arith))
    ]

occurrences-walk_listeners :
    (l : String) (mro : List String) (bus : Bus)
    → occurrences l (walk_listeners mro bus) ≡ once (registered l mro bus)
unfolding walk_listeners occurrences
occurrences-walk_listeners l mro bus = occurrences-walk_in l false mro bus [] refl

-- A count is exact where nothing is raised, and a bound where something is.
abbrev pub IsCount : Option Error → ℕ → ℕ → Type 0
IsCount none n expected = n ≡ expected
IsCount (some error) n expected = n ≤ expected

-- A program that records each listener that it runs or enqueues, and what these raise.
abbrev pub recorder : (String → Bool) → Bool → Bool → (String → Option Error) → World (List String)
recorder queued is_model has_dispatcher raises = record {
  should_queue = queued;
  is_model = is_model;
  has_dispatcher = has_dispatcher;
  handle = λ l log. (raises l, log ++ l ∷ []);
  enqueue = λ l log. (raises l, log ++ l ∷ []);
}

module _ (queued : String → Bool) (is_model has_dispatcher : Bool)
    (raises : String → Option Error) where
  abbrev program : World (List String)
  program = recorder queued is_model has_dispatcher raises

  run_one-cases :
      (l : String) (log : List String)
      → (run_one program l log ≡ (raises l, log ++ l ∷ []))
        ⊎ (run_one program l log ≡ (some registration_error, log))
  unfolding run_one dispatch_queued
  run_one-cases l log = elim (Bool-cases (queued l)) [
    | inl later ↦ elim (Bool-cases is_model) [
      | inl model ↦ elim (Bool-cases has_dispatcher) [
        | inl there ↦ inl (rw (later, model, there) refl)
        | inr missing ↦ inr (rw (later, model, missing) refl)
      ]
      | inr other ↦ inr (rw (later, other) refl)
    ]
    | inr now ↦ inl (rw now refl)
  ]

  go_on : List String → Option Error × List String → Option Error × List String
  go_on ls r = elim r.0 [ some error ↦ (some error, r.1) | none ↦ run_listeners program ls r.1 ]

  run_listeners-go_on :
      (k : String) (ls log : List String) (r : Option Error × List String)
      → run_one program k log ≡ r
      → run_listeners program (k ∷ ls) log ≡ go_on ls r
  unfolding run_listeners go_on
  run_listeners-go_on k ls log r h = ap (go_on ls) h

  occurrences-cons :
      (l k : String) (ls : List String)
      → occurrences l (k ∷ ls) ≡ once (str_eq k l) + occurrences l ls
  unfolding occurrences
  occurrences-cons l k ls = ground arith

  go_on-IsCount :
      (l k : String) (ls log : List String) (raised : Option Error)
      → IsCount
          (run_listeners program ls (log ++ k ∷ [])).0
          (occurrences l (run_listeners program ls (log ++ k ∷ [])).1)
          (occurrences l (log ++ k ∷ []) + occurrences l ls)
      → IsCount
          (go_on ls (raised, log ++ k ∷ [])).0
          (occurrences l (go_on ls (raised, log ++ k ∷ [])).1)
          (occurrences l log + occurrences l (k ∷ ls))
  unfolding go_on
  go_on-IsCount l k ls log none h =
      let one = occurrences-append l log k in
      let more = occurrences-cons l k ls in
      subst
        (IsCount (run_listeners program ls (log ++ k ∷ [])).0
          (occurrences l (run_listeners program ls (log ++ k ∷ [])).1))
        (omega (arith, one, more)) h
  go_on-IsCount l k ls log (some error) h =
      omega (arith, occurrences-append l log k, occurrences-cons l k ls)

  run_listeners-IsCount :
      (l : String) (ls log : List String)
      → IsCount
          (run_listeners program ls log).0
          (occurrences l (run_listeners program ls log).1)
          (occurrences l log + occurrences l ls)
  unfolding run_listeners occurrences go_on
  run_listeners-IsCount l [] log = omega arith
  run_listeners-IsCount l (k ∷ ls) log =
      let counts = λ (r : Option Error × List String).
        IsCount r.0 (occurrences l r.1) (occurrences l log + occurrences l (k ∷ ls)) in
      elim (run_one-cases k log) [
        | inr refused ↦ subst counts (sym (run_listeners-go_on k ls log _ refused)) (omega arith)
        | inl ran ↦
            subst counts (sym (run_listeners-go_on k ls log _ ran))
              (go_on-IsCount l k ls log (raises k) (run_listeners-IsCount l ls (log ++ k ∷ [])))
      ]

  -- The dispatch of an event runs or enqueues each listener that is registered for its class or for
  -- an ancestor of it just once, however often it is registered, and no other, where it does not
  -- raise. Where it raises, it has run or enqueued none more often than that.
  pub occurrences-dispatch :
      (l : String) (mro : List String) (bus : Bus)
      → IsCount
          (dispatch program mro bus []).0
          (occurrences l (dispatch program mro bus []).1)
          (once (registered l mro bus))
  unfolding dispatch occurrences
  occurrences-dispatch l mro bus =
      subst
        (IsCount (dispatch program mro bus []).0 (occurrences l (dispatch program mro bus []).1))
        (omega (arith, occurrences-walk_listeners l mro bus))
        (run_listeners-IsCount l (walk_listeners mro bus) [])
