-- ===== src/Examples/Dispatching.antt =====
-- A listener that is registered for an event and for its base.
use pylar_framework.Events.Bus.{Bus, Error, listener_error, dispatch}
use pylar_framework.Events.Bus.Walk
use pylar_framework.Prelude.{
  List, Option, String, [], false, if◌then◌else◌, none, some, str_eq, true, ◌∷◌,
}

abbrev bus : Bus
bus = ("OrderPaid", "Audit" ∷ "Mail" ∷ []) ∷ ("OrderEvent", "Audit" ∷ []) ∷ []

abbrev mro : List String
mro = "OrderPaid" ∷ "OrderEvent" ∷ "object" ∷ []

abbrev mail_raises : String → Option Error
mail_raises l = if str_eq l "Mail" then some (listener_error 1) else none

occurrences-dispatch_example :
    Walk.IsCount
      (dispatch (Walk.recorder (λ l. false) true true mail_raises) mro bus []).0
      (Walk.occurrences "Audit"
        (dispatch (Walk.recorder (λ l. false) true true mail_raises) mro bus []).1)
      (Walk.once (Walk.registered "Audit" mro bus))
occurrences-dispatch_example =
    Walk.occurrences-dispatch (λ l. false) true true mail_raises "Audit" mro bus
