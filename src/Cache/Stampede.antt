-- ===== src/Cache/Stampede.antt =====
-- pylar/cache/cache.py: `Cache.remember_with_lock`, which computes a missing value under a lock.
-- Each time at which it reads the clock is given: `now` at first, `at` when it holds the lock, and
-- the time at which the factory ends.
pub mod Released
use Prim.Native.String.{◌++◌ as ◌<>◌}
use pylar_framework.Cache.Contract.{Value, is_null, CacheStore}
use pylar_framework.Cache.Facade.{Cache, Outcome, done, raised, Factory, get, store_made}
use pylar_framework.Cache.Lock.{CacheLock, Wake, acquire, release}
use pylar_framework.Prelude.{Bool, List, Option, String, false, if◌then◌else◌, none, some, true, ℕ}

module _ (driver : CacheStore) where
  -- async with: the lock is released however the block ends.
  unfoldable pub release_after :
      CacheLock
      → Outcome Value × ℕ × Cache driver.State
      → Option (Outcome Value) × ℕ × Cache driver.State
  release_after lock (r, later, c) = (some r, later, (release driver later lock c).1)

  -- The block under the lock, which looks again before it computes.
  unfoldable pub compute_locked :
      String
      → Option ℕ
      → Factory driver
      → ℕ
      → Cache driver.State
      → Outcome Value × ℕ × Cache driver.State
  compute_locked key ttl factory at c =
      let (cached, c') = get driver key at c in
      let (made, later, c'') = factory at c' in
      if is_null cached then store_made driver key ttl made later c'' else (done cached, at, c')

  -- What comes after `acquire`; `none` is a call that still waits.
  unfoldable pub with_lock :
      String
      → Option ℕ
      → Factory driver
      → ℕ
      → Option (Outcome Bool) × CacheLock × Cache driver.State
      → Option (Outcome Value) × ℕ × Cache driver.State
  unfolding release_after compute_locked
  with_lock key ttl factory at (none, lock, c) = (none, at, c)
  with_lock key ttl factory at (some (raised error), lock, c) = (some (raised error), at, c)
  with_lock key ttl factory at (some (done b), lock, c) =
      release_after lock (compute_locked key ttl factory at c)

  unfoldable pub stampede_lock : String → String → ℕ → CacheLock
  stampede_lock key token lock_ttl = record {
    key = key <> ":stampede";
    token = token;
    ttl = lock_ttl;
    held = false;
  }

  unfoldable pub remember_with_lock :
      String
      → Option ℕ
      → Factory driver
      → ℕ
      → String
      → List (Wake driver.State)
      → ℕ
      → ℕ
      → Cache driver.State
      → Option (Outcome Value) × ℕ × Cache driver.State
  unfolding with_lock
  remember_with_lock key ttl factory lock_ttl token wakes now at c =
      let (cached, c') = get driver key now c in
      let locked =
        with_lock key ttl factory at
          (acquire driver true none wakes now (stampede_lock key token lock_ttl) c') in
      if is_null cached then locked else (some (done cached), now, c')
