-- ===== src/Session.antt =====
-- pylar/session/session.py: the handle on the payload of one request. A payload is a dict of opaque
-- values and of dicts; only the flash bags are looked into.
pub mod Middleware
pub mod Flash
use text.Mathlib.Text.{starts_with}
use pylar_framework.Dict
use pylar_framework.Dict.{Dict}
use pylar_framework.Prelude.{
  Bool, Option, String, [], false, if◌then◌else◌, none, some, true, ℕ, ◌||◌, ◌∷◌,
}

-- A Python value in a payload: an object, by its identity, or a dict of such.
pub data Value : Type 0 where
  object : ℕ → Value
  dict : Dict ℕ → Value

abbrev pub flash_new : String
flash_new = "_flash:new"

abbrev pub flash_old : String
flash_old = "_flash:old"

pub record Session : Type 0 where
  pub id : String
  pub payload : Dict Value
  pub dirty : Bool
  pub destroyed : Bool
  pub regenerated_from : Option String

rotate : String → Dict Value → Option Value → Session
rotate id payload (some (dict bag)) = record {
  id = id;
  payload = Dict.put payload flash_old (dict bag);
  dirty = true;
  destroyed = false;
  regenerated_from = none;
}
rotate id payload _ = record {
  id = id;
  payload = Dict.remove payload flash_old;
  dirty = false;
  destroyed = false;
  regenerated_from = none;
}

-- Session.__init__: the flashes of the request before become readable, once.
unfoldable pub init : String → Dict Value → Session
unfolding rotate
init id payload = rotate id (Dict.remove payload flash_new) (Dict.get payload flash_new)

-- old = self._data.get("_flash:old"), where it is a dict
unfoldable pub old_bag : Option Value → Dict ℕ
old_bag (some (dict bag)) = bag
old_bag _ = []

pub or_flash : Option Value → Option ℕ → Option Value
or_flash (some v) flashed = some v
or_flash none none = none
or_flash none (some n) = some (object n)

-- Session.get, with `None` for the default
unfoldable pub get : String → Session → Option Value
unfolding or_flash old_bag
get key s =
    or_flash (Dict.get s.payload key) (Dict.get (old_bag (Dict.get s.payload flash_old)) key)

unfoldable pub has : String → Session → Bool
unfolding old_bag
has key s = Dict.has s.payload key || Dict.has (old_bag (Dict.get s.payload flash_old)) key

unfoldable pub visible : Dict Value → Dict Value
visible [] = []
visible ((k, v) ∷ d) =
    let rest = visible d in if starts_with k "_flash:" then rest else (k, v) ∷ rest

unfoldable pub update : Dict Value → Dict ℕ → Dict Value
update d [] = d
update d ((k, n) ∷ bag) = update (Dict.put d k (object n)) bag

unfoldable pub all : Session → Dict Value
unfolding visible update
all s = update (visible s.payload) (old_bag (Dict.get s.payload flash_old))

unfoldable pub put : String → Value → Session → Session
put key value s = record s { payload = Dict.put s.payload key value; dirty = true }

unfoldable pub forget : String → Session → Session
forget key s =
    if Dict.has s.payload key
    then record s { payload = Dict.remove s.payload key; dirty = true }
    else s

-- bag = self._data.setdefault("_flash:new", {}), a new dict where it is none
unfoldable pub flash : String → ℕ → Session → Session
unfolding old_bag
flash key value s = record s {
  payload =
      Dict.put s.payload flash_new
        (dict (Dict.put (old_bag (Dict.get s.payload flash_new)) key value));
  dirty = true;
}

-- The fresh id is `uuid4().hex`.
unfoldable pub regenerate : String → Session → Session
regenerate fresh s = record s { id = fresh; regenerated_from = some s.id; dirty = true }

unfoldable pub destroy : Session → Session
destroy s = record s { payload = []; dirty = true; destroyed = true }

unfoldable pub to_payload : Session → Dict Value
to_payload s = Dict.remove s.payload flash_old
