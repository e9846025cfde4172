-- ===== src/Scheduling/Task.antt =====
-- pylar/scheduling/task.py: `ScheduledTask`. croniter and zoneinfo are a `Calendar`. A time is a
-- number of microseconds. What a hook and a condition do with the world is given; a hook that
-- raises changes the world as far as it came.
pub mod Timing
use Prim.Native.String.{◌++◌ as ◌<>◌}
use pylar_framework.Prelude.{
  Bool, List, Option, String, [], false, if◌then◌else◌, leb, negsuc, none, pos, some, suc, true,
  zero, ℕ, ℤ, ◌&&◌, ◌*◌, ◌+◌, ◌==◌, ◌∷◌,
}

pub record Calendar : Type 0 where
  pub is_valid : String → Bool
  pub has_zone : String → Bool
  pub get_prev : Option String → String → ℕ → ℕ
  pub get_next : Option String → String → ℕ → ℕ
  -- The year, month, day, hour and minute of a time in a zone, as one number.
  pub minute_in : Option String → ℕ → ℕ

-- What a task runs: `CallableTask`, `CommandTask` or `JobTask`.
pub data Work : Type 0 where
  callable : String → Work
  command : String → List String → Work
  job : String → String → Work

pub record ScheduledTask (E : Type 0) : Type 0 where
  pub work : Work
  pub cron_expression : String
  pub interval_seconds : Option ℕ
  pub last_run_at : Option ℕ
  pub name : Option String
  pub lock_key : Option String
  pub lock_ttl : ℕ
  pub timezone : Option String
  pub output_path : Option String
  pub email_on_failure : Option String
  pub before_hooks : List (E → E)
  pub after_hooks : List (E → E)
  pub success_hooks : List (E → E)
  pub failure_hooks : List (E → E)
  pub when_conditions : List (E → Bool)
  pub skip_conditions : List (E → Bool)

pub data Error : Type 0 where
  invalid_cron value_error zone_not_found no_cache task_error : Error

pub data Built (E : Type 0) : Type 0 where
  built : ScheduledTask E → Built E
  failed : Error → Built E

-- " ".join(args) behind a space, if there are any
unfoldable pub spaced : List String → String
spaced [] = ""
spaced (arg ∷ args) = " " <> arg <> spaced args

unfoldable pub describe : Work → String
unfolding spaced
describe (callable qualified) = "call " <> qualified
describe (command name args) = "command " <> name <> spaced args
describe (job qualified payload) = "job " <> qualified

-- The elapsed time of a clock that went back is negative, and less than any interval.
unfoldable pub is_interval_due : ℕ → ℕ → Option ℕ → Bool
is_interval_due now seconds none = true
is_interval_due now seconds (some last) = leb (last + seconds * 1000000) now

unfoldable pub anchor : Option ℕ → ℕ → ℕ
anchor none now = now
anchor (some last) now = last

module _ {E : Type 0} where
  unfoldable pub new_task : Work → ScheduledTask E
  new_task work = record {
    work = work;
    cron_expression = "* * * * *";
    interval_seconds = none;
    last_run_at = none;
    name = none;
    lock_key = none;
    lock_ttl = 60;
    timezone = none;
    output_path = none;
    email_on_failure = none;
    before_hooks = [];
    after_hooks = [];
    success_hooks = [];
    failure_hooks = [];
    when_conditions = [];
    skip_conditions = [];
  }

  all_hold : List (E → Bool) → E → Bool
  all_hold [] e = true
  all_hold (cond ∷ conds) e = if cond e then all_hold conds e else false

  none_holds : List (E → Bool) → E → Bool
  none_holds [] e = true
  none_holds (cond ∷ conds) e = if cond e then false else none_holds conds e

  -- For conditions that raise nothing and change nothing.
  unfoldable pub should_run : E → ScheduledTask E → Bool
  unfolding all_hold none_holds
  should_run e task = all_hold task.when_conditions e && none_holds task.skip_conditions e

  unfoldable pub set_interval : ℤ → ScheduledTask E → Built E
  set_interval (pos zero) task = failed value_error
  set_interval (pos (suc n)) task = built (record task { interval_seconds = some (suc n) })
  set_interval (negsuc n) task = failed value_error

  unfoldable pub mark_run : ℕ → ScheduledTask E → ScheduledTask E
  mark_run at task = record task { last_run_at = some at }

  module _ (cal : Calendar) where
    unfoldable pub set_cron : String → ScheduledTask E → Built E
    set_cron expression task =
        if cal.is_valid expression
        then built (record task { cron_expression = expression; interval_seconds = none })
        else failed invalid_cron

    unfoldable pub set_timezone : String → ScheduledTask E → Built E
    set_timezone name task =
        if cal.has_zone name
        then built (record task { timezone = some name })
        else failed zone_not_found

    unfoldable pub is_cron_due : ℕ → ScheduledTask E → Bool
    is_cron_due now task =
        let previous = cal.get_prev task.timezone task.cron_expression (now + 1000000) in
        cal.minute_in task.timezone previous == cal.minute_in task.timezone now

    unfoldable pub is_due : ℕ → ScheduledTask E → Bool
    unfolding is_cron_due is_interval_due
    is_due now task = elim task.interval_seconds [
      | some seconds ↦ is_interval_due now seconds task.last_run_at
      | none ↦ is_cron_due now task
    ]

    unfoldable pub next_run_at : ℕ → ScheduledTask E → ℕ
    unfolding anchor
    next_run_at now task = elim task.interval_seconds [
      | some seconds ↦ anchor task.last_run_at now + seconds * 1000000
      | none ↦ cal.get_next task.timezone task.cron_expression now
    ]
