-- ===== src/Session/Middleware.antt =====
-- pylar/session/middleware.py and stores/memory.py: the store of the payloads, and what a request
-- does to it. The signature is a function of the id (HMAC-SHA-256 under the secret key). A cookie
-- comes as the two parts of `rpartition(".")`.
pub mod Persistence
use pylar_framework.Dict
use pylar_framework.Dict.{Dict}
use pylar_framework.Session.{Value, Session, init, to_payload}
use pylar_framework.Prelude.{
  Bool, Option, String, [], false, if◌then◌else◌, leb, none, some, str_eq, true, ℕ, ◌+◌, ◌||◌,
}

-- MemorySessionStore: the payload and when it expires
abbrev pub Store : Type 0
Store = Dict (Dict Value × ℕ)

pub read_entry : String → ℕ → Option (Dict Value × ℕ) → Store → Option (Dict Value) × Store
read_entry id now none store = (none, store)
read_entry id now (some (payload, expires_at)) store =
    if leb expires_at now then (none, Dict.remove store id) else (some payload, store)

unfoldable pub read : String → ℕ → Store → Option (Dict Value) × Store
unfolding read_entry
read id now store = read_entry id now (Dict.get store id) store

unfoldable pub write : String → Dict Value → ℕ → ℕ → Store → Store
write id payload ttl now store = Dict.put store id (payload, now + ttl)

unfoldable pub destroy : String → Store → Store
destroy id store = Dict.remove store id

pub record SessionConfig : Type 0 where
  pub sign : String → String
  pub lifetime_seconds : ℕ

-- _read_cookie: the session id, if its signature is right
unfoldable pub read_cookie : SessionConfig → Option (String × String) → Option String
read_cookie config none = none
read_cookie config (some (session_id, signature)) =
    if str_eq (config.sign session_id) signature then some session_id else none

or_empty : Option (Dict Value) → Dict Value
or_empty none = []
or_empty (some payload) = payload

-- The first half of `handle`: the session that the request gets. `fresh` is `uuid4().hex`.
open_session : Option String → String → ℕ → Store → Session × Store
unfolding or_empty
open_session none fresh now store = (init fresh [], store)
open_session (some id) fresh now store =
    let (found, store') = read id now store in (init id (or_empty found), store')

pub destroy_old : Option String → Store → Store
destroy_old none store = store
destroy_old (some id) store = destroy id store

pub is_some : Option String → Bool
is_some none = false
is_some (some id) = true

-- _persist
unfoldable pub persist : SessionConfig → ℕ → Session → Store → Store
unfolding destroy_old is_some
persist config now s store =
    let store' = destroy_old s.regenerated_from store in
    if s.destroyed
    then destroy s.id store'
    else if s.dirty || is_some s.regenerated_from
    then write s.id (to_payload s) config.lifetime_seconds now store'
    else store'

-- _set_cookie: no cookie where the session is destroyed
unfoldable pub set_cookie : SessionConfig → Session → Option (String × String)
set_cookie config s = if s.destroyed then none else some (s.id, config.sign s.id)

-- SessionMiddleware.handle around a handler that uses the session: the new cookie and the store.
unfoldable pub handle :
    SessionConfig
    → Option (String × String)
    → String
    → ℕ
    → ℕ
    → (Session → Session)
    → Store
    → Option (String × String) × Store
unfolding open_session
handle config cookie fresh now later handler store =
    let (s, store') = open_session (read_cookie config cookie) fresh now store in
    let s' = handler s in (set_cookie config s', persist config later s' store')
