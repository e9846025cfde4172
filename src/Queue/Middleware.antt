-- ===== src/Queue/Middleware.antt =====
-- pylar/queue/middleware.py: the job middlewares over the cache. A middleware either runs the rest
-- of the chain, `next_call`, or drops the job. How long `next_call` takes is left to the times of
-- the events that follow.
pub mod RateLimit
use pylar_framework.Cache.Contract.{Value, text, CacheStore}
use pylar_framework.Cache.Facade.{
  Cache, Outcome, done, raised, Error, lock_error, increment, has, put,
}
use pylar_framework.Cache.Lock.{CacheLock, acquire, release}
use pylar_framework.Prelude.{
  Bool, List, String, [], false, if◌then◌else◌, ltb_ℤ, none, not, pos, some, true, ℕ, ℤ, ◌+◌, ◌∷◌,
}

-- count > self.max_calls; a value that is no integer lets the job through
unfoldable pub admits : ℕ → Outcome ℤ → Bool
admits max_calls (done count) = not (ltb_ℤ (pos max_calls) count)
admits max_calls (raised e) = true

module _ (driver : CacheStore) where
  -- What a job does: it returns or raises, and may use the cache.
  abbrev pub Next : Type 0
  Next = ℕ → Cache driver.State → Outcome (Unit {0}) × Cache driver.State

  -- RateLimited.handle: the first result says whether the job ran.
  unfoldable pub rate_limited :
      String
      → ℕ
      → ℕ
      → ℕ
      → Next
      → Cache driver.State
      → Bool × Outcome (Unit {0}) × Cache driver.State
  unfolding admits
  rate_limited key max_calls window now next_call c =
      let (count, c') = increment driver key (pos 1) (some window) now c in
      let (result, c'') = next_call now c' in
      if admits max_calls count then (true, result, c'') else (false, done tt, c')

  -- WithoutOverlapping.handle: the lock is not waited for, and is released on every way out.
  unfoldable pub without_overlapping :
      CacheLock → ℕ → ℕ → Next → Cache driver.State → Bool × Outcome (Unit {0}) × Cache driver.State
  without_overlapping lock now later next_call c =
      let (acquired, lock', c') = acquire driver false none [] now lock c in
      let (result, c'') = next_call now c' in
      elim acquired [
        | some (done true) ↦ (true, result, (release driver later lock' c'').1)
        | _ ↦ (false, done tt, c')
      ]

  -- Throttled.handle: an exception that means a rate limit starts the cooldown and is swallowed.
  unfoldable pub throttled :
      String
      → ℕ
      → (Error → Bool)
      → ℕ
      → ℕ
      → Next
      → Cache driver.State
      → Bool × Outcome (Unit {0}) × Cache driver.State
  throttled key cooldown is_throttle now later next_call c =
      let (cooling, c') = has driver key now c in
      let (result, c'') = next_call now c' in
      if cooling then (false, done tt, c') else elim result [
        | done u ↦ (true, done u, c'')
        | raised lock_error ↦ (true, raised lock_error, c'')
        | raised e ↦
            if is_throttle e
            then (true, done tt, put driver key (text "1") (some cooldown) later c'')
            else (true, raised e, c'')
      ]

  -- Jobs of one class that workers hand to the middleware at the given times: how many run.
  unfoldable pub handle_all :
      String → ℕ → ℕ → Next → List ℕ → Cache driver.State → ℕ × Cache driver.State
  handle_all key max_calls window next_call [] c = (0, c)
  handle_all key max_calls window next_call (now ∷ times) c =
      let (ran, result, c') = rate_limited key max_calls window now next_call c in
      let (count, c'') = handle_all key max_calls window next_call times c' in
      ((if ran then count + 1 else count), c'')
