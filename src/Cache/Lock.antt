-- ===== src/Cache/Lock.antt =====
-- pylar/cache/lock.py: a lock is a key that holds its owner's token. The token is a fresh UUID.
pub mod Exclusion
pub mod Released
use pylar_framework.Cache.Contract.{Value, text, CacheStore}
use pylar_framework.Cache.Facade.{Cache, Outcome, done, raised, lock_error, get, add, forget}
use pylar_framework.Prelude.{
  Bool, List, Option, String, [], false, if◌then◌else◌, leb, none, not, some, str_eq, true, ℕ, ◌+◌,
  ◌∷◌,
}

pub record CacheLock : Type 0 where
  pub key : String
  pub token : String
  pub ttl : ℕ
  pub held : Bool

-- current == self._token
abbrev pub is_token : String → Value → Bool
is_token token (text s) = str_eq s token
is_token token _ = false

-- What the other coroutines do while the lock sleeps, and when it looks again.
abbrev pub Wake : Type 0 → Type 0
Wake S = ℕ × (Cache S → Cache S)

-- deadline is not None and time.monotonic() >= deadline
abbrev past : Option ℕ → ℕ → Bool
past none now = false
past (some deadline) now = leb deadline now

module _ (driver : CacheStore) where
  -- One claim of the loop of `acquire`.
  unfoldable pub claim : ℕ → CacheLock → Cache driver.State → Bool × CacheLock × Cache driver.State
  claim now lock c =
      let (acquired, c') = add driver lock.key (text lock.token) (some lock.ttl) now c in
      (acquired, (if acquired then record lock { held = true } else lock), c')

  -- The loop of `acquire`, over what happens in each sleep; `none` is a call that still sleeps.
  unfoldable pub acquire_loop :
      Bool
      → Option ℕ
      → List (Wake driver.State)
      → ℕ
      → CacheLock
      → Cache driver.State
      → Option (Outcome Bool) × CacheLock × Cache driver.State
  unfolding claim
  acquire_loop blocking deadline [] now lock c =
      let (acquired, lock', c') = claim now lock c in
      if acquired
      then (some (done true), lock', c')
      else if not blocking
      then (some (done false), lock', c')
      else if past deadline now
      then (some (raised lock_error), lock', c')
      else (none, lock', c')
  acquire_loop blocking deadline ((later, others) ∷ wakes) now lock c =
      let (acquired, lock', c') = claim now lock c in
      let rest = acquire_loop blocking deadline wakes later lock' (others c') in
      if acquired
      then (some (done true), lock', c')
      else if not blocking
      then (some (done false), lock', c')
      else if past deadline now
      then (some (raised lock_error), lock', c')
      else rest

  unfoldable pub acquire :
      Bool
      → Option ℕ
      → List (Wake driver.State)
      → ℕ
      → CacheLock
      → Cache driver.State
      → Option (Outcome Bool) × CacheLock × Cache driver.State
  unfolding acquire_loop
  acquire blocking none wakes now lock c = acquire_loop blocking none wakes now lock c
  acquire blocking (some timeout) wakes now lock c =
      acquire_loop blocking (some (now + timeout)) wakes now lock c

  -- CacheLock.release: what the other coroutines do between its `get` and its `forget` is given.
  unfoldable pub release_between :
      (Cache driver.State → Cache driver.State)
      → ℕ
      → CacheLock
      → Cache driver.State
      → CacheLock × Cache driver.State
  release_between others now lock c =
      let (current, c') = get driver lock.key now c in
      if not lock.held
      then (lock, c)
      else if is_token lock.token current
      then (record lock { held = false }, forget driver lock.key (others c'))
      else (record lock { held = false }, c')

  -- A release that nothing interrupts: the driver does not suspend between the two.
  unfoldable pub release : ℕ → CacheLock → Cache driver.State → CacheLock × Cache driver.State
  release now lock c = release_between (λ c'. c') now lock c
