-- ===== src/Cache/Facade.antt =====
-- pylar/cache/cache.py: the facade over a driver, with presence tests, get-or-compute, counters
-- and tags. A driver without native `add` and `increment` is meant, as the in-process one is. A
-- coroutine runs without interruption between awaits, and `add` and `increment` hold the facade's
-- mutex, so that an operation is one step from a cache to the next.
pub mod Views
pub mod Counting
pub mod Tags
use pylar_framework.Dict
use pylar_framework.Dict.{Dict}
use pylar_framework.Cache.Contract.{Value, null, int, bool, text, object, is_null, CacheStore}
use pylar_framework.Prelude.{
  Bool, List, Option, String, [], false, if◌then◌else◌, length, none, not, pos, some, str_eq, true,
  ℕ, ℤ, ◌+ℤ◌, ◌-ℤ◌, ◌∷◌,
}

pub record Cache (S : Type 0) : Type 0 where
  pub store : S
  pub tag_index : Dict (List String)

pub data Error : Type 0 where
  type_error lock_error factory_error : Error

pub data Outcome (A : Type 0) : Type 0 where
  done : A → Outcome A
  raised : Error → Outcome A

-- set.add
unfoldable pub add_member : String → List String → List String
add_member k [] = k ∷ []
add_member k (j ∷ ks) = if str_eq j k then j ∷ ks else j ∷ add_member k ks

-- set.update
unfoldable pub union : List String → List String → List String
unfolding add_member
union xs [] = xs
union xs (k ∷ ks) = union (add_member k xs) ks

abbrev pub or_empty : Option (List String) → List String
or_empty none = []
or_empty (some ks) = ks

module _ {S : Type 0} where
  -- Cache._track_tags
  unfoldable pub track_tags : String → List String → Cache S → Cache S
  unfolding add_member
  track_tags key [] c = c
  track_tags key (tag ∷ tags) c = track_tags key tags (record c {
    tag_index = Dict.put c.tag_index tag (add_member key (or_empty (Dict.get c.tag_index tag)));
  })

  -- The first loop of Cache._flush_tags: the keys to drop, and the index without the tags.
  unfoldable pub collect_tags : List String → List String → Cache S → List String × Cache S
  unfolding union
  collect_tags [] keys c = (keys, c)
  collect_tags (tag ∷ tags) keys c =
      collect_tags tags (union keys (or_empty (Dict.get c.tag_index tag)))
        (record c { tag_index = Dict.remove c.tag_index tag })

module _ (driver : CacheStore) where
  unfoldable pub get : String → ℕ → Cache driver.State → Value × Cache driver.State
  get key now c = let (v, s) = driver.get key now c.store in (v, record c { store = s })

  unfoldable pub put : String → Value → Option ℕ → ℕ → Cache driver.State → Cache driver.State
  put key value ttl now c = record c { store = driver.put key value ttl now c.store }

  unfoldable pub forget : String → Cache driver.State → Cache driver.State
  forget key c = record c { store = driver.forget key c.store }

  unfoldable pub flush : Cache driver.State → Cache driver.State
  flush c = record { store = driver.flush c.store; tag_index = [] }

  unfoldable pub forever : String → Value → ℕ → Cache driver.State → Cache driver.State
  forever key value now c = record c { store = driver.put key value none now c.store }

  unfoldable pub has : String → ℕ → Cache driver.State → Bool × Cache driver.State
  unfolding get
  has key now c = let (v, c') = get key now c in (not (is_null v), c')

  -- A factory runs from one time to a later one, and may use the cache meanwhile.
  abbrev pub Factory : Type 0
  Factory = ℕ → Cache driver.State → Outcome Value × ℕ × Cache driver.State

  unfoldable pub store_made :
      String
      → Option ℕ
      → Outcome Value
      → ℕ
      → Cache driver.State
      → Outcome Value × ℕ × Cache driver.State
  unfolding put
  store_made key ttl (raised e) later c = (raised e, later, c)
  store_made key ttl (done value) later c = (done value, later, put key value ttl later c)

  unfoldable pub remember :
      String → Option ℕ → Factory → ℕ → Cache driver.State → Outcome Value × ℕ × Cache driver.State
  unfolding get store_made
  remember key ttl factory now c =
      let (cached, c') = get key now c in
      let (made, later, c'') = factory now c' in
      if is_null cached then store_made key ttl made later c'' else (done cached, now, c')

  unfoldable pub add :
      String → Value → Option ℕ → ℕ → Cache driver.State → Bool × Cache driver.State
  unfolding get put
  add key value ttl now c =
      let (existing, c') = get key now c in
      if is_null existing then (true, put key value ttl now c') else (false, c')

  -- A missing value counts as zero; `bool` is no integer here. Only the call that creates the key
  -- passes a time to live.
  bump : String → ℤ → Option ℕ → ℕ → Value → Cache driver.State → Outcome ℤ × Cache driver.State
  unfolding put
  bump key by ttl now null c = (done (pos 0 +ℤ by), put key (int (pos 0 +ℤ by)) ttl now c)
  bump key by ttl now (int current) c =
      (done (current +ℤ by), put key (int (current +ℤ by)) none now c)
  bump key by ttl now _ c = (raised type_error, c)

  unfoldable pub increment :
      String → ℤ → Option ℕ → ℕ → Cache driver.State → Outcome ℤ × Cache driver.State
  unfolding get bump
  increment key by ttl now c = let (current, c') = get key now c in bump key by ttl now current c'

  unfoldable pub decrement : String → ℤ → ℕ → Cache driver.State → Outcome ℤ × Cache driver.State
  unfolding increment
  decrement key by now c = increment key (pos 0 -ℤ by) none now c

  -- The second loop of Cache._flush_tags.
  unfoldable pub forget_all : List String → Cache driver.State → Cache driver.State
  unfolding forget
  forget_all [] c = c
  forget_all (key ∷ keys) c = forget_all keys (forget key c)

  -- TaggedCache.flush, Cache._flush_tags
  unfoldable pub flush_tags : List String → Cache driver.State → ℕ × Cache driver.State
  unfolding collect_tags forget_all
  flush_tags tags c = let (keys, c') = collect_tags tags [] c in (length keys, forget_all keys c')

  -- TaggedCache.put
  unfoldable pub put_tagged :
      List String → String → Value → Option ℕ → ℕ → Cache driver.State → Cache driver.State
  unfolding track_tags put
  put_tagged tags key value ttl now c = put key value ttl now (track_tags key tags c)
