-- ===== src/Examples/Sessions.antt =====
-- Sessions on concrete payloads.
use pylar_framework.Dict
use pylar_framework.Session.{Session, object, flash, init, to_payload, get, regenerate}
use pylar_framework.Session.{destroy as destroy_session}
use pylar_framework.Session.Flash
use pylar_framework.Session.Middleware.{Store, SessionConfig, read, persist}
use pylar_framework.Session.Middleware.Persistence
use pylar_framework.Prelude.{[], arith, inr, none, refl, some, ◌∷◌, ◌≡◌}

abbrev session : Session
session = init "s1" (("user", object 7) ∷ [])

message-IsPlain : Flash.IsPlain "message"
message-IsPlain = record { not_new = refl; not_old = refl }

flash_next_run :
    get "message" (init "s1" (to_payload (flash "message" 3 session))) ≡ some (object 3)
unfolding Dict.get init Dict.remove
flash_next_run = Flash.flash_next "message" "s1" 3 session message-IsPlain refl

flash_gone_run :
    get "message" (init "s1" (to_payload (init "s1" (to_payload (flash "message" 3 session)))))
    ≡ none
unfolding Dict.get init Dict.remove
flash_gone_run = Flash.flash_gone "message" "s1" "s1" 3 session message-IsPlain refl

abbrev config : SessionConfig
config = record { sign = λ id. id; lifetime_seconds = 100 }

-- What the request before left.
abbrev store : Store
store = ("s1", (("user", object 7) ∷ [], 50)) ∷ []

persist-regenerate_example :
    (Dict.get (persist config 10 (regenerate "s2" session) store) session.id ≡ none)
    × ((read "s2" 60 (persist config 10 (regenerate "s2" session) store)).0
        ≡ some (Dict.remove session.payload "_flash:old"))
unfolding init Dict.get
persist-regenerate_example =
    Persistence.persist-regenerate config 10 60 "s2" session store refl refl (omega arith)

persist-regenerate-regenerate_example :
    Dict.get (persist config 10 (regenerate "s3" (regenerate "s2" session)) store) session.id
    ≡ Dict.get store session.id
unfolding init Dict.get
persist-regenerate-regenerate_example =
    Persistence.persist-regenerate-regenerate config 10 "s2" "s3" session store refl refl refl

persist-destroy_run :
    Dict.get (persist config 10 (destroy_session (regenerate "s2" session)) store) session.id ≡ none
unfolding regenerate init
persist-destroy_run =
    Persistence.persist-destroy config 10 session.id (regenerate "s2" session) store (inr refl)
