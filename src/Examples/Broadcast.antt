-- ===== src/Examples/Broadcast.antt =====
-- The broadcaster at concrete inputs.
use pylar_framework.Broadcasting.Memory.{
  MemoryBroadcaster, fresh, publish, subscribe, subscriber_count, channels,
}
use pylar_framework.Broadcasting.Memory.Limits.Invariant.{
  start, subscribes, publishes, IsLimited, Reach-IsLimited,
}
use pylar_framework.Prelude.{[], arith, false, refl, ◌∷◌, ◌≡◌}

abbrev joined : MemoryBroadcaster
joined = (subscribe "orders" 1 (fresh 1 1)).1

abbrev told : MemoryBroadcaster
told = publish "orders" "paid" (publish "orders" "placed" joined)

-- A second subscriber is refused, and a second message is dropped.
refused : (subscribe "orders" 2 joined).0 ≡ false
unfolding subscribe fresh pylar_framework.Dict.get pylar_framework.Dict.put
refused = refl

left_one : (subscriber_count "orders" told ≡ 1) × (channels told ≡ "orders" ∷ [])
unfolding subscriber_count channels subscribe fresh publish pylar_framework.Dict.get
    pylar_framework.Dict.put pylar_framework.Dict.keys
left_one = (refl, refl)

Reach-IsLimited_example : IsLimited 1 1 told
Reach-IsLimited_example =
    Reach-IsLimited 1 1 told (omega arith) (omega arith)
      (publishes "orders" "paid" (publishes "orders" "placed" (subscribes "orders" 1 start)))
