-- ===== src/Scheduling/Schedule/Overlap.antt =====
-- Tasks that are not to overlap.
use pylar_framework.Cache.Contract.{is_null, null, CacheStore}
use pylar_framework.Cache.Facade.{Cache}
use pylar_framework.Cache.Facade.Views.{view, IsValid}
use pylar_framework.Cache.Lock.{CacheLock, claim, release}
use pylar_framework.Cache.Lock.Released.{release-frees, claim-shown, claim-refused}
use pylar_framework.Scheduling.Task.{ScheduledTask, should_run}
use pylar_framework.Scheduling.Schedule.{
  Env, Runner, skipped, run_with_hooks, release_in, released_cache, run_acquired, run_locked,
  run_task,
}
use pylar_framework.Prelude.{
  Bool, Option, String, ap, arith, false, if◌then◌else◌, none, refl, some, true, ℕ, ◌*◌, ◌∙◌, ◌≡◌,
  ◌≤◌,
}

module _ (driver : CacheStore) {W : Type 0} (runner : Runner (Env driver.State W)) where
  -- The lock object that a run makes for a task.
  abbrev pub lock_of : String → ScheduledTask (Env driver.State W) → Env driver.State W → CacheLock
  lock_of key task e = record {
    key = key;
    token = runner.fresh_token e;
    ttl = task.lock_ttl * 1000000;
    held = false;
  }

  -- The environment in which a task with a lock starts.
  abbrev pub with_claim :
      String
      → ScheduledTask (Env driver.State W)
      → Cache driver.State
      → Env driver.State W
      → Env driver.State W
  with_claim key task c e = record e {
    cache = some (claim driver (runner.clock e) (lock_of key task e) c).2;
  }

  run_acquired-refused :
      (made : Bool × CacheLock × Cache driver.State) (task : ScheduledTask (Env driver.State W))
      (e : Env driver.State W)
      → made.0 ≡ false
      → ((run_acquired driver runner made task e).0 ≡ skipped)
        × ((run_acquired driver runner made task e).1 ≡ task)
        × ((run_acquired driver runner made task e).2.world ≡ e.world)
  unfolding run_acquired
  run_acquired-refused (false, lock, cache) task e h = (refl, refl, refl)
  run_acquired-refused (true, lock, cache) task e h = absurd (ground (arith, h))

  release_in-cache :
      (lock : CacheLock) (after : Cache driver.State) (e : Env driver.State W)
      → e.cache ≡ some after
      → (release_in driver runner lock e).cache
        ≡ some (release driver (runner.clock e) lock after).1
  unfolding release_in released_cache
  release_in-cache lock after e h = ap (released_cache driver runner lock (runner.clock e)) h

  run_acquired-held :
      (made : Bool × CacheLock × Cache driver.State) (lock : CacheLock) (after : Cache driver.State)
      (task : ScheduledTask (Env driver.State W)) (e : Env driver.State W)
      → made.0 ≡ true
      → made.1 ≡ lock
      → (run_with_hooks runner task (record e { cache = some made.2 })).2.cache ≡ some after
      → ((run_acquired driver runner made task e).0
          ≡ (run_with_hooks runner task (record e { cache = some made.2 })).0)
        × ((run_acquired driver runner made task e).2.cache
            ≡ some
                (release driver
                  (runner.clock (run_with_hooks runner task (record e { cache = some made.2 })).2)
                  lock
                  after).1)
  unfolding run_acquired
  run_acquired-held (false, lock', cache) lock after task e h same found =
      absurd (ground (arith, h))
  run_acquired-held (true, lock', cache) lock after task e h same found =
      (refl, rw (← same) (release_in-cache lock' after _ found))

  module _ (key : String) (task : ScheduledTask (Env driver.State W)) (c : Cache driver.State)
      (e : Env driver.State W) (admitted : should_run e task ≡ true)
      (guarded : task.lock_key ≡ some key) (bound : e.cache ≡ some c) where
    run_task-opened :
        run_task driver runner task e
        ≡ run_acquired driver runner (claim driver (runner.clock e) (lock_of key task e) c) task e
    unfolding run_task run_locked
    run_task-opened =
        ap
          (λ (b : Bool).
            if b
            then (elim task.lock_key [
              | none ↦ run_with_hooks runner task e
              | some k ↦ run_locked driver runner k e.cache task e
            ])
            else (skipped, task, e))
          admitted
        ∙ ap
            (λ (o : Option String). elim o [
              | none ↦ run_with_hooks runner task e
              | some k ↦ run_locked driver runner k e.cache task e
            ])
            guarded
        ∙ ap (λ (o : Option (Cache driver.State)). run_locked driver runner key o task e) bound

    -- A task whose lock key is there when a tick comes to it does not run: neither its hooks nor
    -- its work are called, and its bookkeeping and the world outside the cache stay as they are.
    pub run_task-overlapped :
        is_null (view driver c key (runner.clock e)) ≡ false
        → ((run_task driver runner task e).0 ≡ skipped)
          × ((run_task driver runner task e).1 ≡ task)
          × ((run_task driver runner task e).2.world ≡ e.world)
    run_task-overlapped present =
        let (refused, same) =
          claim-refused driver (runner.clock e) (lock_of key task e) c present in
        rw run_task-opened (run_acquired-refused _ task e refused)

    -- A task whose lock key is absent does run, hooks and work included, and when it ends, with an
    -- exception or without one, the key is absent again, if what runs leaves the key of a valid
    -- cache as the claim wrote it and the clock does not go back.
    pub run_task-released :
        (after : Cache driver.State) (t : ℕ)
        → IsValid driver c
        → is_null (view driver c key (runner.clock e)) ≡ true
        → (run_with_hooks runner task (with_claim key task c e)).2.cache ≡ some after
        → IsValid driver after
        → ((u : ℕ)
            → view driver after key u
              ≡ view driver (claim driver (runner.clock e) (lock_of key task e) c).2 key u)
        → runner.clock e ≤ runner.clock (run_with_hooks runner task (with_claim key task c e)).2
        → runner.clock (run_with_hooks runner task (with_claim key task c e)).2 ≤ t
        → ((run_task driver runner task e).0
            ≡ (run_with_hooks runner task (with_claim key task c e)).0)
          × ((last : Cache driver.State) × ((run_task driver runner task e).2.cache ≡ some last)
              × (view driver last key t ≡ null))
    run_task-released after t valid absent found valid' kept forward le =
        let start = runner.clock e in
        let e' = (run_with_hooks runner task (with_claim key task c e)).2 in
        let lock : CacheLock = record (lock_of key task e) { held = true } in
        let shown = λ (u : ℕ) (later : start ≤ u).
          claim-shown driver start u (lock_of key task e) c valid absent later in
        let now = shown start (omega arith) in
        let (same, last) = run_acquired-held _ lock after task e now.0 now.1 found in
        rw run_task-opened (
          same,
          (
            (release driver (runner.clock e') lock after).1,
            last,
            release-frees driver start (task.lock_ttl * 1000000) (runner.clock e') t lock after
                valid' refl (λ u later. kept u ∙ (shown u (omega (arith, forward, later))).3) le,
          ),
        )
