-- ===== src/Scheduling/Schedule.antt =====
-- pylar/scheduling/schedule.py: the registry of tasks, and the runner with its hooks and its
-- overlap locks, which are the locks of Cache/Lock. A run takes its environment, the application's
-- cache, if there is one, and the rest of the world, and gives it back. What a task does, the clock
-- and the fresh token of a lock are a `Runner`. A task's run changes the bookkeeping of no other task.
pub mod Overlap
pub mod Running
use pylar_framework.Cache.Contract.{CacheStore}
use pylar_framework.Cache.Facade.{Cache}
use pylar_framework.Cache.Lock.{CacheLock, claim, release}
use pylar_framework.Scheduling.Task.{
  Calendar, Work, ScheduledTask, Error, no_cache, task_error, command, callable, job, new_task,
  should_run, mark_run, is_due,
}
use pylar_framework.Prelude.{
  Bool, List, Option, String, [], false, if◌then◌else◌, none, some, suc, true, ℕ, ◌*◌, ◌++◌, ◌∷◌,
}

pub record Env (S W : Type 0) : Type 0 where
  pub cache : Option (Cache S)
  pub world : W

pub record Runner (E : Type 0) : Type 0 where
  -- Whether the work ended without an exception.
  pub run : Work → E → Bool × E
  pub clock : E → ℕ
  pub fresh_token : E → String

-- What one task of a tick comes to.
pub data Ran : Type 0 where
  completed skipped : Ran
  raised : Error → Ran

-- What a tick comes to: how many tasks ran, or the exception that ended it.
pub data Tick : Type 0 where
  ran : ℕ → Tick
  stopped : Error → Tick

module _ {E : Type 0} where
  unfoldable pub schedule_command :
      String → List String → List (ScheduledTask E) → List (ScheduledTask E)
  schedule_command name args tasks = tasks ++ new_task (command name args) ∷ []

  unfoldable pub schedule_call : String → List (ScheduledTask E) → List (ScheduledTask E)
  schedule_call func tasks = tasks ++ new_task (callable func) ∷ []

  unfoldable pub schedule_job : String → String → List (ScheduledTask E) → List (ScheduledTask E)
  schedule_job job_cls payload tasks = tasks ++ new_task (job job_cls payload) ∷ []

  unfoldable pub run_hooks : List (E → E) → E → E
  run_hooks [] e = e
  run_hooks (hook ∷ hooks) e = run_hooks hooks (hook e)

  module _ (runner : Runner E) where
    finish_run : ScheduledTask E → Bool × E → Ran × ScheduledTask E × E
    finish_run task (true, e) = (
      completed,
      mark_run (runner.clock e) task,
      run_hooks task.after_hooks (run_hooks task.success_hooks e),
    )
    finish_run task (false, e) = (
      raised task_error,
      mark_run (runner.clock e) task,
      run_hooks task.after_hooks (run_hooks task.failure_hooks e),
    )

    unfoldable pub run_with_hooks : ScheduledTask E → E → Ran × ScheduledTask E × E
    unfolding finish_run run_hooks
    run_with_hooks task e = finish_run task (runner.run task.work (run_hooks task.before_hooks e))

module _ (driver : CacheStore) {W : Type 0} (runner : Runner (Env driver.State W)) where
  unfoldable pub released_cache :
      CacheLock → ℕ → Option (Cache driver.State) → Option (Cache driver.State)
  released_cache lock now none = none
  released_cache lock now (some cache) = some (release driver now lock cache).1

  -- finally: await lock.release()
  unfoldable pub release_in : CacheLock → Env driver.State W → Env driver.State W
  unfolding released_cache
  release_in lock e = record e { cache = released_cache lock (runner.clock e) e.cache }

  unfoldable pub run_acquired :
      Bool × CacheLock × Cache driver.State
      → ScheduledTask (Env driver.State W)
      → Env driver.State W
      → Ran × ScheduledTask (Env driver.State W) × Env driver.State W
  unfolding release_in
  run_acquired (false, lock, cache) task e = (skipped, task, record e { cache = some cache })
  run_acquired (true, lock, cache) task e =
      let (r, task', e') = run_with_hooks runner task (record e { cache = some cache }) in
      (r, task', release_in lock e')

  -- A task with a lock key.
  unfoldable pub run_locked :
      String
      → Option (Cache driver.State)
      → ScheduledTask (Env driver.State W)
      → Env driver.State W
      → Ran × ScheduledTask (Env driver.State W) × Env driver.State W
  unfolding run_acquired
  run_locked key none task e = (raised no_cache, task, e)
  run_locked key (some cache) task e =
      run_acquired
        (claim driver (runner.clock e)
          (record {
            key = key;
            token = runner.fresh_token e;
            ttl = task.lock_ttl * 1000000;
            held = false;
          })
          cache)
        task e

  -- The body of the loop of `run_due`.
  unfoldable pub run_task :
      ScheduledTask (Env driver.State W)
      → Env driver.State W
      → Ran × ScheduledTask (Env driver.State W) × Env driver.State W
  unfolding run_locked
  run_task task e =
      if should_run e task
      then elim task.lock_key [
        | none ↦ run_with_hooks runner task e
        | some key ↦ run_locked key e.cache task e
      ]
      else (skipped, task, e)

  unfoldable pub count_ran : Tick → Tick
  count_ran (ran n) = ran (suc n)
  count_ran (stopped error) = stopped error

  module _ (cal : Calendar) where
    -- The loop of `run_due`, over all tasks. `other` is what comes of the tasks behind.
    unfoldable pub go_on :
        Ran
        → List (ScheduledTask (Env driver.State W))
        → Env driver.State W
        → Tick × List (ScheduledTask (Env driver.State W)) × Env driver.State W
        → Tick × List (ScheduledTask (Env driver.State W)) × Env driver.State W
    unfolding count_ran
    go_on completed tasks e (tick, tasks', e') = (count_ran tick, tasks', e')
    go_on skipped tasks e rest = rest
    go_on (raised error) tasks e rest = (stopped error, tasks, e)

    unfoldable pub keep_task :
        ScheduledTask (Env driver.State W)
        → Tick × List (ScheduledTask (Env driver.State W)) × Env driver.State W
        → Tick × List (ScheduledTask (Env driver.State W)) × Env driver.State W
    keep_task task (tick, tasks, e) = (tick, task ∷ tasks, e)

    -- A round, and the rounds behind it.
    unfoldable pub follow :
        Ran × ScheduledTask (Env driver.State W) × Env driver.State W
        → List (ScheduledTask (Env driver.State W))
        → (Env driver.State W
            → Tick × List (ScheduledTask (Env driver.State W)) × Env driver.State W)
        → Tick × List (ScheduledTask (Env driver.State W)) × Env driver.State W
    unfolding go_on keep_task
    follow (r, task, e) tasks rest = keep_task task (go_on r tasks e (rest e))

    unfoldable pub run_due :
        ℕ
        → List (ScheduledTask (Env driver.State W))
        → Env driver.State W
        → Tick × List (ScheduledTask (Env driver.State W)) × Env driver.State W
    unfolding follow
    run_due moment [] e = (ran 0, [], e)
    run_due moment (task ∷ tasks) e =
        follow (if is_due cal moment task then run_task task e else (skipped, task, e)) tasks
          (run_due moment tasks)
