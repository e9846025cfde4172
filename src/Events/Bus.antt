-- ===== src/Events/Bus.antt =====
-- pylar/events/bus.py: which listeners an event has, and how they run one after the other. A class
-- has its name, and the method resolution order of an event class is given. What a listener does to
-- the rest of the program, and whether it raises, is a parameter.
pub mod Walk
use pylar_framework.Dict
use pylar_framework.Dict.{Dict}
use pylar_framework.Prelude.{
  Bool, List, Option, String, [], false, if◌then◌else◌, none, not, some, str_eq, ℕ, ◌++◌, ◌||◌, ◌∷◌,
}

pub data Error : Type 0 where
  registration_error : Error
  listener_error : ℕ → Error

abbrev pub Bus : Type 0
Bus = Dict (List String)

abbrev pub or_none : Option (List String) → List String
or_none none = []
or_none (some ls) = ls

-- EventBus.listeners_for
abbrev pub listeners_for : String → Bus → List String
listeners_for event_type bus = or_none (Dict.get bus event_type)

-- Whether the arguments are an event class and a listener class is tested before.
unfoldable pub listen : Bool → Bool → String → String → Bus → Option Error × Bus
listen is_event is_listener event_type listener bus =
    if not is_event
    then (some registration_error, bus)
    else if not is_listener
    then (some registration_error, bus)
    else (none, Dict.put bus event_type (listeners_for event_type bus ++ listener ∷ []))

-- listener_cls in collected
unfoldable pub among : String → List String → Bool
among l [] = false
among l (k ∷ ks) = str_eq k l || among l ks

unfoldable pub collect : List String → List String → List String
unfolding among
collect collected [] = collected
collect collected (l ∷ ls) =
    collect (if among l collected then collected else collected ++ l ∷ []) ls

unfoldable pub walk_in : List String → Bus → List String → List String
unfolding collect
walk_in [] bus collected = collected
walk_in (ancestor ∷ mro) bus collected =
    walk_in mro bus (
      if str_eq ancestor "object"
      then collected
      else collect collected (listeners_for ancestor bus))

-- EventBus._walk_listeners
unfoldable pub walk_listeners : List String → Bus → List String
walk_listeners mro bus = walk_in mro bus []

-- What the bus calls: the rest of the program is a state.
pub record World (S : Type 0) : Type 0 where
  pub should_queue : String → Bool
  pub is_model : Bool
  pub has_dispatcher : Bool
  pub handle : String → S → Option Error × S
  pub enqueue : String → S → Option Error × S

module _ {S : Type 0} where
  -- EventBus._dispatch_queued
  unfoldable pub dispatch_queued : World S → String → S → Option Error × S
  dispatch_queued w listener s =
      if not w.is_model
      then (some registration_error, s)
      else if not w.has_dispatcher
      then (some registration_error, s)
      else w.enqueue listener s

  unfoldable pub run_one : World S → String → S → Option Error × S
  unfolding dispatch_queued
  run_one w listener s =
      if w.should_queue listener then dispatch_queued w listener s else w.handle listener s

  -- The loop of `dispatch`: the first listener that raises ends it.
  unfoldable pub run_listeners : World S → List String → S → Option Error × S
  run_listeners w [] s = (none, s)
  run_listeners w (l ∷ ls) s =
      let (raised, s') = run_one w l s in
      let rest = run_listeners w ls s' in
      elim raised [ some error ↦ (some error, s') | none ↦ rest ]

  unfoldable pub dispatch : World S → List String → Bus → S → Option Error × S
  dispatch w mro bus s = run_listeners w (walk_listeners mro bus) s
