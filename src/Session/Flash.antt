-- ===== src/Session/Flash.antt =====
-- The life of a flash value over three requests.
use pylar_framework.Dict
use pylar_framework.Dict.{Dict}
use pylar_framework.Dict.Laws.{get-put, get-remove, get-empty}
use pylar_framework.Session.{
  Value, object, dict, or_flash, rotate, Session, flash_new, flash_old, init, get, old_bag, flash,
  to_payload,
}
use pylar_framework.Prelude.{Option, String, eq_refl, false, none, refl, some, str_eq, ℕ, ◌∙◌, ◌≡◌}

-- The key is none of the two that the flash bags stand under.
pub record IsPlain (key : String) : Type 0 where
  pub not_new : str_eq flash_new key ≡ false
  pub not_old : str_eq flash_old key ≡ false

or_flash-none : (v : Option Value) → or_flash v none ≡ v
unfolding or_flash
or_flash-none none = refl
or_flash-none (some v) = refl

module _ (key id : String) (payload : Dict Value) (plain : IsPlain key) where
  -- A session that finds a bag of new flashes reads it behind its own values.
  get-init_bag :
      (bag : Dict ℕ)
      → Dict.get payload flash_new ≡ some (dict bag)
      → get key (init id payload) ≡ or_flash (Dict.get payload key) (Dict.get bag key)
  unfolding get init
  get-init_bag bag e = rw (e, rotate) (simp (get-put, get-remove, plain.not_new, plain.not_old))

  -- A session that finds none reads just its own values, and not an older bag.
  get-init-none :
      Dict.get payload flash_new ≡ none → get key (init id payload) ≡ Dict.get payload key
  unfolding get init
  get-init-none e =
      rw (e, rotate) (simp (get-remove, get-empty, plain.not_new, plain.not_old, or_flash-none))

  -- What a session of such a payload persists if nothing is written to it.
  to_payload-init :
      (bag : Dict ℕ)
      → Dict.get payload flash_new ≡ some (dict bag)
      → (Dict.get (to_payload (init id payload)) key ≡ Dict.get payload key)
        × (Dict.get (to_payload (init id payload)) flash_new ≡ none)
  unfolding to_payload init
  to_payload-init bag e =
      rw (e, rotate)
        (simp (get-put, get-remove, plain.not_new, plain.not_old), simp (get-put, get-remove))

to_payload-flash :
    (key : String) (value : ℕ) (s : Session)
    → IsPlain key
    → (Dict.get (to_payload (flash key value s)) key ≡ Dict.get s.payload key)
      × (Dict.get (to_payload (flash key value s)) flash_new
          ≡ some (dict (Dict.put (old_bag (Dict.get s.payload flash_new)) key value)))
unfolding to_payload flash
to_payload-flash key value s plain =
    (simp (get-put, get-remove, plain.not_new, plain.not_old), simp (get-put, get-remove))

-- A value that is flashed in one request is read in the next request on the same payload, where no
-- stored value of its key hides it.
pub flash_next :
    (key id : String) (value : ℕ) (s : Session)
    → IsPlain key
    → Dict.get s.payload key ≡ none
    → get key (init id (to_payload (flash key value s))) ≡ some (object value)
unfolding or_flash
flash_next key id value s plain absent =
    let (own, new) = to_payload-flash key value s plain in
    let bag = Dict.put (old_bag (Dict.get s.payload flash_new)) key value in
    rw (
      get-init_bag key id (to_payload (flash key value s)) plain bag new,
      own,
      absent,
      get-put,
      eq_refl,
    )

-- It is gone in the request after that one, if nothing is written in between.
pub flash_gone :
    (key id id' : String) (value : ℕ) (s : Session)
    → IsPlain key
    → Dict.get s.payload key ≡ none
    → get key (init id' (to_payload (init id (to_payload (flash key value s))))) ≡ none
flash_gone key id id' value s plain absent =
    let (own, new) = to_payload-flash key value s plain in
    let first = to_payload (flash key value s) in
    let bag = Dict.put (old_bag (Dict.get s.payload flash_new)) key value in
    let (own', new') = to_payload-init key id first plain bag new in
    get-init-none key id' (to_payload (init id first)) plain new' ∙ own' ∙ own ∙ absent
