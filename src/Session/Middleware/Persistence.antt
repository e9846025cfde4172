-- ===== src/Session/Middleware/Persistence.antt =====
-- What a request leaves in the session store.
use pylar_framework.Dict
use pylar_framework.Dict.{Dict}
use pylar_framework.Dict.Laws.{get-put, get-remove}
use pylar_framework.Session.{Session, regenerate, to_payload}
use pylar_framework.Session.{destroy as destroy_session}
use pylar_framework.Session.Middleware.{
  Store, SessionConfig, read, read_entry, write, destroy, persist, destroy_old,
}
use pylar_framework.Prelude.{
  String, arith, eq_refl, false, inl, inr, leb, none, some, str_eq, true, ℕ, ◌+◌, ◌<◌, ◌≡◌, ◌⊎◌,
}

-- After a regeneration of a session that is not destroyed, to an id that is fresh, no payload is left
-- under the old id, and the payload that the session had, without the flashes of the request before,
-- is read back under the fresh id until its lifetime is over.
pub persist-regenerate :
    (config : SessionConfig) (now t : ℕ) (fresh : String) (s : Session) (store : Store)
    → s.destroyed ≡ false
    → str_eq fresh s.id ≡ false
    → t < now + config.lifetime_seconds
    → (Dict.get (persist config now (regenerate fresh s) store) s.id ≡ none)
      × ((read fresh t (persist config now (regenerate fresh s) store)).0
          ≡ some (Dict.remove s.payload "_flash:old"))
unfolding persist regenerate write destroy read read_entry to_payload
persist-regenerate config now t fresh s store kept ne live =
    let alive : leb (now + config.lifetime_seconds) t ≡ false = ground arith in
    let same : str_eq fresh fresh ≡ true = eq_refl fresh in
    (rw (kept, get-put, ne, get-remove, eq_refl), rw (kept, get-put, same, alive))

-- A second rotation in one request forgets the first: the payload under the id that the request came
-- with stays in the store as it was, and the session is persisted under the last id only.
pub persist-regenerate-regenerate :
    (config : SessionConfig) (now : ℕ) (first second : String) (s : Session) (store : Store)
    → s.destroyed ≡ false
    → str_eq first s.id ≡ false
    → str_eq second s.id ≡ false
    → Dict.get (persist config now (regenerate second (regenerate first s)) store) s.id
      ≡ Dict.get store s.id
unfolding persist regenerate write destroy
persist-regenerate-regenerate config now first second s store kept ne ne' =
    rw (kept, get-put, ne', get-remove, ne)

-- The session has the id, or was rotated from it.
abbrev pub IsOwn : Session → String → Type 0
IsOwn s id = (id ≡ s.id) ⊎ (s.regenerated_from ≡ some id)

-- After a logout that destroys the session nothing is left under its id, nor under the id that it
-- was rotated from.
pub persist-destroy :
    (config : SessionConfig) (now : ℕ) (id : String) (s : Session) (store : Store)
    → IsOwn s id
    → Dict.get (persist config now (destroy_session s) store) id ≡ none
unfolding persist destroy destroy_session destroy_old
persist-destroy config now id s store (inl own) = rw (own, get-remove, eq_refl)
persist-destroy config now id s store (inr from) =
    rw (from, get-remove, get-remove, eq_refl) (ground arith)
