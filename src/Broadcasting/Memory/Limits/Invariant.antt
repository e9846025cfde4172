-- ===== src/Broadcasting/Memory/Limits/Invariant.antt =====
-- What bounds the memory of a broadcaster, whatever its clients do.
use pylar_framework.Dict
use pylar_framework.Dict.{Dict}
use pylar_framework.Dict.Every.{Every, put-Every, remove-Every, get-Every}
use pylar_framework.Broadcasting.Memory.{
  Subscriber, MemoryBroadcaster, fresh, or_nobody, put_all, publish, subscribe, has_queue,
  take_from, receive, without_queue, put_or_drop, remove,
}
use pylar_framework.Broadcasting.Memory.Limits.{
  IsBounded, put_all-AllShort, append-AllShort, take_from-AllShort, without_queue-IsBounded,
}
use pylar_framework.Prelude.{
  Bool-cases, List, Option-cases, String, [], arith, false, inl, inr, leb, length, length-append,
  ltb, refl, subst, suc, sym, ℕ, ◌&&◌, ◌++◌, ◌<◌, ◌∷◌, ◌≡◌, ◌≤◌,
}

-- What the broadcasts, the coroutines of the subscribers and their ends do to a broadcaster.
pub data Reach (size limit : ℕ) : MemoryBroadcaster → Type 0 where
  start : Reach size limit (fresh size limit)
  publishes :
      {b : MemoryBroadcaster}
      → (channel message : String) → Reach size limit b
      → Reach size limit (publish channel message b)
  subscribes :
      {b : MemoryBroadcaster}
      → (channel : String) (id : ℕ) → Reach size limit b
      → Reach size limit (subscribe channel id b).1
  receives :
      {b : MemoryBroadcaster}
      → (channel : String) (id : ℕ) → Reach size limit b
      → Reach size limit (receive channel id b).1
  removes :
      {b : MemoryBroadcaster}
      → (channel : String) (id : ℕ) → Reach size limit b
      → Reach size limit (remove channel id b)

abbrev pub IsLimited : ℕ → ℕ → MemoryBroadcaster → Type 0
IsLimited size limit b =
    (b.max_queue_size ≡ size)
    × ((b.max_subscribers_per_channel ≡ limit) × Every (IsBounded size limit) b.subscribers)

has_room : (limit n : ℕ) → 0 < limit → ltb 0 limit && leb limit n ≡ false → suc n ≤ limit
has_room limit n limited free = ground (arith, limited, free)

module _ (size limit : ℕ) where
  publish-IsLimited :
      (channel message : String) (b : MemoryBroadcaster)
      → 0 < size
      → IsLimited size limit b
      → IsLimited size limit (publish channel message b)
  unfolding publish
  publish-IsLimited channel message b limited (same, (per, h)) =
      elim (Option-cases (Dict.get b.subscribers channel)) [
        | inl missing ↦ rw (missing, publish) (same, (per, h))
        | inr (subs, found) ↦
            let (le, short) = get-Every (IsBounded size limit) b.subscribers channel subs found h in
            let (short', len) = put_all-AllShort size message subs limited short in
            rw (found, publish) rw same
              (
                refl,
                (
                  per,
                  put-Every (IsBounded size limit) b.subscribers channel (put_all size message subs)
                      (omega (arith, len), short') h,
                ),
              )
      ]

  found-IsBounded :
      (channel : String) (d : Dict (List Subscriber))
      → Every (IsBounded size limit) d
      → IsBounded size limit (or_nobody (Dict.get d channel))
  found-IsBounded channel d h = elim (Option-cases (Dict.get d channel)) [
    | inl missing ↦ rw missing (omega arith, tt)
    | inr (subs, found) ↦ rw found (get-Every (IsBounded size limit) d channel subs found h)
  ]

  subscribe-IsLimited :
      (channel : String) (id : ℕ) (b : MemoryBroadcaster)
      → 0 < limit
      → IsLimited size limit b
      → IsLimited size limit (subscribe channel id b).1
  unfolding subscribe
  subscribe-IsLimited channel id b limited (same, (per, h)) =
      let subs = or_nobody (Dict.get b.subscribers channel) in
      let (le, short) = found-IsBounded channel b.subscribers h in
      let put_subs = put-Every (IsBounded size limit) b.subscribers channel in
      elim (Bool-cases
        (ltb 0 b.max_subscribers_per_channel && leb b.max_subscribers_per_channel (length subs))) [
          | inl full ↦ rw (full, subscribe) (same, (per, put_subs subs (le, short) h))
          | inr free ↦
              let room =
                has_room b.max_subscribers_per_channel (length subs)
                  (subst (λ x. 0 < x) (sym per) limited) free in
              let one = length-append subs (record { id = id; buffer = [] } ∷ []) in
              rw (free, subscribe)
                (
                  same,
                  (
                    per,
                    put_subs (subs ++ record { id = id; buffer = [] } ∷ [])
                        (
                          omega (arith, one, room, per),
                          append-AllShort size subs (record { id = id; buffer = [] }) short
                              (omega arith),
                        )
                        h,
                  ),
                )
        ]

  receive-IsLimited :
      (channel : String) (id : ℕ) (b : MemoryBroadcaster)
      → IsLimited size limit b
      → IsLimited size limit (receive channel id b).1
  unfolding receive
  receive-IsLimited channel id b (same, (per, h)) =
      elim (Option-cases (Dict.get b.subscribers channel)) [
        | inl missing ↦ rw (missing, receive) (same, (per, h))
        | inr (subs, found) ↦
            let (le, short) = get-Every (IsBounded size limit) b.subscribers channel subs found h in
            let (short', len) = take_from-AllShort size id subs short in
            rw (found, receive)
              (
                same,
                (
                  per,
                  put-Every (IsBounded size limit) b.subscribers channel (take_from id subs).1
                      (omega (arith, len), short') h,
                ),
              )
      ]

  put_or_drop-Every :
      (channel : String) (subs : List Subscriber) (d : Dict (List Subscriber))
      → IsBounded size limit subs
      → Every (IsBounded size limit) d
      → Every (IsBounded size limit) (put_or_drop channel subs d)
  unfolding put_or_drop
  put_or_drop-Every channel [] d p h = remove-Every (IsBounded size limit) d channel h
  put_or_drop-Every channel (s ∷ subs) d p h =
      put-Every (IsBounded size limit) d channel (s ∷ subs) p h

  remove-IsLimited :
      (channel : String) (id : ℕ) (b : MemoryBroadcaster)
      → IsLimited size limit b
      → IsLimited size limit (remove channel id b)
  unfolding remove
  remove-IsLimited channel id b (same, (per, h)) =
      elim (Option-cases (Dict.get b.subscribers channel)) [
        | inl missing ↦ rw (missing, remove) (same, (per, h))
        | inr (subs, found) ↦
            let p = get-Every (IsBounded size limit) b.subscribers channel subs found h in
            elim (Bool-cases (has_queue id subs)) [
              | inr absent ↦ rw (found, remove) rw absent (same, (per, h))
              | inl there ↦
                  rw (found, remove) rw there
                    (
                      same,
                      (
                        per,
                        put_or_drop-Every channel (without_queue id subs) b.subscribers
                            (without_queue-IsBounded size limit id subs p) h,
                      ),
                    )
            ]
      ]

  -- Whatever is broadcast, subscribed, received and ended on a new broadcaster whose two limits are
  -- not 0: no channel has more subscribers, and no subscriber more buffered messages, than its limit.
  pub Reach-IsLimited :
      (b : MemoryBroadcaster) → 0 < size → 0 < limit → Reach size limit b → IsLimited size limit b
  unfolding fresh
  Reach-IsLimited _ s l start = (refl, (refl, tt))
  Reach-IsLimited _ s l (publishes {b} channel message r) =
      publish-IsLimited channel message b s (Reach-IsLimited b s l r)
  Reach-IsLimited _ s l (subscribes {b} channel id r) =
      subscribe-IsLimited channel id b l (Reach-IsLimited b s l r)
  Reach-IsLimited _ s l (receives {b} channel id r) =
      receive-IsLimited channel id b (Reach-IsLimited b s l r)
  Reach-IsLimited _ s l (removes {b} channel id r) =
      remove-IsLimited channel id b (Reach-IsLimited b s l r)
