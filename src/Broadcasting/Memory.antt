-- ===== src/Broadcasting/Memory.antt =====
-- pylar/broadcasting/drivers/memory.py: `MemoryBroadcaster`. A queue has its identity, which is fresh
-- when it is made, and its buffered messages, the oldest one first; a message is opaque.
pub mod Limits
use pylar_framework.Dict
use pylar_framework.Dict.{Dict}
use pylar_framework.Prelude.{
  Bool, List, Option, String, [], false, if◌then◌else◌, leb, length, ltb, none, some, true, ℕ, ◌&&◌,
  ◌++◌, ◌==◌, ◌∷◌,
}

pub record Subscriber : Type 0 where
  pub id : ℕ
  pub buffer : List String

pub record MemoryBroadcaster : Type 0 where
  pub max_queue_size : ℕ
  pub max_subscribers_per_channel : ℕ
  pub subscribers : Dict (List Subscriber)

unfoldable pub fresh : ℕ → ℕ → MemoryBroadcaster
fresh queue_size per_channel = record {
  max_queue_size = queue_size;
  max_subscribers_per_channel = per_channel;
  subscribers = [];
}

abbrev pub or_nobody : Option (List Subscriber) → List Subscriber
or_nobody none = []
or_nobody (some subs) = subs

-- queue.put_nowait(message); a full queue raises, which drops the message. A size of 0 is no limit.
unfoldable pub put_nowait : ℕ → String → Subscriber → Subscriber
put_nowait max_size message s =
    if ltb 0 max_size && leb max_size (length s.buffer)
    then s
    else record s { buffer = s.buffer ++ message ∷ [] }

unfoldable pub put_all : ℕ → String → List Subscriber → List Subscriber
unfolding put_nowait
put_all max_size message [] = []
put_all max_size message (s ∷ subs) = put_nowait max_size message s ∷ put_all max_size message subs

unfoldable pub publish : String → String → MemoryBroadcaster → MemoryBroadcaster
unfolding put_all
publish channel message b = elim (Dict.get b.subscribers channel) [
  | none ↦ b
  | some subs ↦ record b {
    subscribers = Dict.put b.subscribers channel (put_all b.max_queue_size message subs);
  }
]

-- The start of `subscribe`: whether it is let in. The limit is looked at after `setdefault`.
unfoldable pub subscribe : String → ℕ → MemoryBroadcaster → Bool × MemoryBroadcaster
subscribe channel id b =
    let subs = or_nobody (Dict.get b.subscribers channel) in
    if ltb 0 b.max_subscribers_per_channel && leb b.max_subscribers_per_channel (length subs)
    then (false, record b { subscribers = Dict.put b.subscribers channel subs })
    else (
      true,
      record b {
        subscribers = Dict.put b.subscribers channel (subs ++ record { id = id; buffer = [] } ∷ []);
      },
    )

-- queue.get
unfoldable pub get_nowait : ℕ → List String → Option String × Subscriber
get_nowait id [] = (none, record { id = id; buffer = [] })
get_nowait id (message ∷ buffer) = (some message, record { id = id; buffer = buffer })

-- A round of the loop of `subscribe`: the oldest message, if there is one.
unfoldable pub take_from : ℕ → List Subscriber → Option String × List Subscriber
unfolding get_nowait
take_from id [] = (none, [])
take_from id (s ∷ subs) =
    let (found, rest) = take_from id subs in
    if s.id == id
    then (let (got, s') = get_nowait s.id s.buffer in (got, s' ∷ subs))
    else (found, s ∷ rest)

unfoldable pub receive : String → ℕ → MemoryBroadcaster → Option String × MemoryBroadcaster
unfolding take_from
receive channel id b = elim (Dict.get b.subscribers channel) [
  | none ↦ (none, b)
  | some subs ↦
      let (found, subs') = take_from id subs in
      (found, record b { subscribers = Dict.put b.subscribers channel subs' })
]

-- list.remove
unfoldable pub without_queue : ℕ → List Subscriber → List Subscriber
without_queue id [] = []
without_queue id (s ∷ subs) =
    let rest = without_queue id subs in if s.id == id then subs else s ∷ rest

unfoldable pub put_or_drop :
    String → List Subscriber → Dict (List Subscriber) → Dict (List Subscriber)
put_or_drop channel [] d = Dict.remove d channel
put_or_drop channel (s ∷ subs) d = Dict.put d channel (s ∷ subs)

unfoldable pub has_queue : ℕ → List Subscriber → Bool
has_queue id [] = false
has_queue id (s ∷ subs) = if s.id == id then true else has_queue id subs

-- `_remove`
unfoldable pub remove : String → ℕ → MemoryBroadcaster → MemoryBroadcaster
unfolding without_queue put_or_drop has_queue
remove channel id b = elim (Dict.get b.subscribers channel) [
  | none ↦ b
  | some subs ↦
      if has_queue id subs
      then record b { subscribers = put_or_drop channel (without_queue id subs) b.subscribers }
      else b
]

unfoldable pub subscriber_count : String → MemoryBroadcaster → ℕ
subscriber_count channel b = length (or_nobody (Dict.get b.subscribers channel))

unfoldable pub channels : MemoryBroadcaster → List String
channels b = Dict.keys b.subscribers
