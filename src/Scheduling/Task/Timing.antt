-- ===== src/Scheduling/Task/Timing.antt =====
-- When a task with an interval is due.
use pylar_framework.Scheduling.Task.{
  Calendar, ScheduledTask, is_interval_due, is_due, anchor, next_run_at, mark_run,
}
use pylar_framework.Prelude.{arith, some, true, ℕ, ◌*◌, ◌+◌, ◌↔◌, ◌≡◌, ◌≤◌}

module _ {E : Type 0} (cal : Calendar) (task : ScheduledTask E) (seconds : ℕ)
    (interval : task.interval_seconds ≡ some seconds) where
  -- A task with an interval that has run is due exactly from the time on that `next_run_at` tells,
  -- whenever that is asked.
  pub is_due-next_run_at :
      (last now asked : ℕ)
      → task.last_run_at ≡ some last
      → (is_due cal now task ≡ true) ↔ (next_run_at cal asked task ≤ now)
  unfolding is_due next_run_at is_interval_due anchor
  is_due-next_run_at last now asked h = rw (interval, h) (ground arith)

  -- Two runs of a task with an interval, the second one due after the first was marked, are at least
  -- the interval apart, and the second is due as soon as they are.
  pub is_due-mark_run :
      (at now : ℕ) → (is_due cal now (mark_run at task) ≡ true) ↔ (at + seconds * 1000000 ≤ now)
  unfolding is_due mark_run is_interval_due
  is_due-mark_run at now = rw interval (ground arith)
