-- ===== src/Scheduling/Builder.antt =====
-- pylar/scheduling/builder.py: `ScheduledTaskBuilder`, whose methods change its task and return
-- the builder. The parsing of `int` is a parameter, and so is the text that tells one task object
-- from the others.
use Prim.Native.String.{◌++◌ as ◌<>◌}
use pylar_framework.Scheduling.Task.{
  Calendar, ScheduledTask, value_error, Built, failed, set_cron, set_interval,
}
use pylar_framework.Text.{str_int, split_once}
use pylar_framework.Prelude.{
  Bool, Option, String, [], if◌then◌else◌, none, pos, some, str_eq, ℕ, ℤ, ◌++◌, ◌∷◌,
}

-- HH:MM as hour and minute
unfoldable pub read_time : (String → Option ℤ) → String → Option (ℤ × ℤ)
read_time read_int time = elim (split_once b':' time) [
  | none ↦ none
  | some (hour_str, minute_str) ↦ elim (read_int minute_str) [
    | none ↦ none
    | some minute ↦ elim (read_int hour_str) [ none ↦ none | some hour ↦ some (hour, minute) ]
  ]
]

unfoldable pub default_lock_key : String → Option String → String
default_lock_key object none = "schedule:" <> object
default_lock_key object (some name) =
    if str_eq name "" then "schedule:" <> object else "schedule:" <> name

module _ {E : Type 0} where
  module _ (cal : Calendar) where
    unfoldable pub every_minute : ScheduledTask E → Built E
    every_minute task = set_cron cal "* * * * *" task

    unfoldable pub every_five_minutes : ScheduledTask E → Built E
    every_five_minutes task = set_cron cal "*/5 * * * *" task

    unfoldable pub every_ten_minutes : ScheduledTask E → Built E
    every_ten_minutes task = set_cron cal "*/10 * * * *" task

    unfoldable pub hourly : ScheduledTask E → Built E
    hourly task = set_cron cal "0 * * * *" task

    unfoldable pub hourly_at : ℤ → ScheduledTask E → Built E
    hourly_at minute task = set_cron cal (str_int minute <> " * * * *") task

    unfoldable pub daily : ScheduledTask E → Built E
    daily task = set_cron cal "0 0 * * *" task

    cron_at : String → Option (ℤ × ℤ) → ScheduledTask E → Built E
    cron_at days none task = failed value_error
    cron_at days (some (hour, minute)) task =
        set_cron cal (str_int minute <> " " <> str_int hour <> days) task

    unfoldable pub daily_at : (String → Option ℤ) → String → ScheduledTask E → Built E
    unfolding cron_at
    daily_at read_int time task = cron_at " * * *" (read_time read_int time) task

    unfoldable pub weekly : ScheduledTask E → Built E
    weekly task = set_cron cal "0 0 * * 0" task

    unfoldable pub weekly_on : (String → Option ℤ) → ℤ → String → ScheduledTask E → Built E
    unfolding cron_at
    weekly_on read_int day_of_week time task =
        cron_at (" * * " <> str_int day_of_week) (read_time read_int time) task

    unfoldable pub monthly : ScheduledTask E → Built E
    monthly task = set_cron cal "0 0 1 * *" task

  unfoldable pub every_five_seconds : ScheduledTask E → Built E
  every_five_seconds task = set_interval (pos 5) task

  unfoldable pub every_ten_seconds : ScheduledTask E → Built E
  every_ten_seconds task = set_interval (pos 10) task

  unfoldable pub every_thirty_seconds : ScheduledTask E → Built E
  every_thirty_seconds task = set_interval (pos 30) task

  chosen_key : String → Option String → ScheduledTask E → String
  chosen_key object none task = default_lock_key object task.name
  chosen_key object (some key) task =
      if str_eq key "" then default_lock_key object task.name else key

  unfoldable pub without_overlapping :
      String → ℕ → Option String → ScheduledTask E → ScheduledTask E
  unfolding chosen_key
  without_overlapping object ttl key task = record task {
    lock_key = some (chosen_key object key task);
    lock_ttl = ttl;
  }

  unfoldable pub on_one_server : String → ℕ → ScheduledTask E → ScheduledTask E
  on_one_server object ttl task = without_overlapping object ttl none task

  unfoldable pub set_name : String → ScheduledTask E → ScheduledTask E
  set_name name task = record task { name = some name }

  unfoldable pub send_output_to : String → ScheduledTask E → ScheduledTask E
  send_output_to path task = record task { output_path = some path }

  unfoldable pub email_output_to : String → ScheduledTask E → ScheduledTask E
  email_output_to address task = record task { email_on_failure = some address }

  unfoldable pub before_run : (E → E) → ScheduledTask E → ScheduledTask E
  before_run callback task = record task { before_hooks = task.before_hooks ++ callback ∷ [] }

  unfoldable pub after_run : (E → E) → ScheduledTask E → ScheduledTask E
  after_run callback task = record task { after_hooks = task.after_hooks ++ callback ∷ [] }

  unfoldable pub on_success : (E → E) → ScheduledTask E → ScheduledTask E
  on_success callback task = record task { success_hooks = task.success_hooks ++ callback ∷ [] }

  unfoldable pub on_failure : (E → E) → ScheduledTask E → ScheduledTask E
  on_failure callback task = record task { failure_hooks = task.failure_hooks ++ callback ∷ [] }

  unfoldable pub only_when : (E → Bool) → ScheduledTask E → ScheduledTask E
  only_when condition task = record task {
    when_conditions = task.when_conditions ++ condition ∷ [];
  }

  unfoldable pub skip_when : (E → Bool) → ScheduledTask E → ScheduledTask E
  skip_when condition task = record task {
    skip_conditions = task.skip_conditions ++ condition ∷ [];
  }
