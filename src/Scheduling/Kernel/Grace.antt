-- ===== src/Scheduling/Kernel/Grace.antt =====
-- When the kernel's sleep returns.
use pylar_framework.Scheduling.Task.{Calendar, ScheduledTask, is_cron_due, is_due}
use pylar_framework.Scheduling.Kernel.{
  Wake, minimum_interval_seconds, tick_deadline, tick_grace, sleep_loop, sleep_until_next_tick,
}
use pylar_framework.Prelude.{
  Bool-cases, List, [], arith, false, inl, inr, leb, none, some, true, ℕ, ◌%◌, ◌*◌, ◌+◌, ◌/◌, ◌<◌,
  ◌==◌, ◌∷◌, ◌≡◌, ◌≤◌,
}

-- The sleep returns at its deadline, less the grace, or later, if nobody stops the kernel.
abbrev NotStopped : List Wake → Type 0
NotStopped [] = Unit
NotStopped ((later, stopping) ∷ wakes) = (stopping ≡ false) × NotStopped wakes

sleep_loop_not_early :
    (deadline grace now at : ℕ) (wakes left : List Wake)
    → NotStopped wakes
    → sleep_loop deadline grace wakes now false ≡ some (at, left)
    → deadline ≤ at + grace
unfolding sleep_loop
sleep_loop_not_early deadline grace now at [] left h e = ground (arith, e)
sleep_loop_not_early deadline grace now at ((later, stopping) ∷ wakes) left (h, hs) e =
    elim (Bool-cases (leb deadline (now + grace))) [
      | inl reached ↦ ground (arith, e, reached)
      | inr before ↦
          sleep_loop_not_early deadline grace later at wakes left hs (rw h at (rw before at e))
    ]

pub sleep_not_early :
    {E : Type 0} (grace now at : ℕ) (tasks : List (ScheduledTask E)) (wakes left : List Wake)
    → NotStopped wakes
    → sleep_until_next_tick grace tasks wakes now false ≡ some (at, left)
    → tick_deadline (minimum_interval_seconds tasks) now
      ≤ at + tick_grace (minimum_interval_seconds tasks) grace
unfolding sleep_until_next_tick
sleep_not_early grace now at tasks wakes left h e = sleep_loop_not_early _ _ now at wakes left h e

sleep_loop_past :
    (deadline grace now : ℕ) (wakes : List Wake)
    → deadline ≤ now + grace
    → sleep_loop deadline grace wakes now false ≡ some (now, wakes)
unfolding sleep_loop
sleep_loop_past deadline grace now [] h = ground arith
sleep_loop_past deadline grace now (wake ∷ wakes) h = ground arith

same_test : (a b : ℕ) → a ≡ b → (a == b) ≡ true
same_test a b h = ground arith

-- In the last seconds of a minute that the grace covers the kernel does not sleep at all, whatever
-- the wakes are, if no task has an interval; and until the last second a task for every minute is due
-- then, however often it has run in this minute, for a croniter that steps back to the last full
-- minute before a time.
pub sleep_in_grace :
    {E : Type 0} (cal : Calendar) (task : ScheduledTask E) (grace now : ℕ)
    (tasks : List (ScheduledTask E)) (wakes : List Wake)
    (minutes : (t : ℕ) → cal.minute_in task.timezone t ≡ t / 60000000)
    (prev : (t : ℕ)
      → 0 < t % 60000000
      → cal.get_prev task.timezone task.cron_expression t ≡ t / 60000000 * 60000000)
    → minimum_interval_seconds tasks ≡ none
    → task.interval_seconds ≡ none
    → 60000000 ≤ now % 60000000 + grace
    → now % 60000000 < 59000000
    → (sleep_until_next_tick grace tasks wakes now false ≡ some (now, wakes))
      × (is_due cal now task ≡ true)
unfolding sleep_until_next_tick tick_deadline tick_grace is_due is_cron_due
sleep_in_grace cal task grace now tasks wakes minutes prev h own late early = (
  rw h (sleep_loop_past _ grace now wakes (omega (arith, late))),
  rw own (
      rw (minutes, prev (now + 1000000) (omega (arith, early)), minutes)
        (same_test _ _ (omega (arith, early)))),
)
