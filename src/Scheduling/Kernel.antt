-- ===== src/Scheduling/Kernel.antt =====
-- pylar/scheduling/kernel.py: how long `SchedulerKernel` sleeps between two ticks. What `stop` and
-- the clock do in each sleep is given with it. A time is a number of microseconds of UTC.
pub mod Grace
use pylar_framework.Scheduling.Task.{ScheduledTask}
use pylar_framework.Prelude.{
  Bool, List, Option, [], false, if◌then◌else◌, leb, max, min, none, some, true, ℕ, ◌*◌, ◌+◌, ◌-◌,
  ◌/◌, ◌∷◌,
}

-- When a sleep ends, and whether `stop` was called by then.
abbrev pub Wake : Type 0
Wake = ℕ × Bool

least : ℕ → Option ℕ → Option ℕ
least n none = some n
least n (some m) = some (min n m)

unfoldable pub minimum_interval_seconds : {E : Type 0} → List (ScheduledTask E) → Option ℕ
unfolding least
minimum_interval_seconds [] = none
minimum_interval_seconds (task ∷ tasks) =
    let others = minimum_interval_seconds tasks in
    elim task.interval_seconds [ none ↦ others | some seconds ↦ least seconds others ]

-- (now + timedelta(minutes=1)).replace(second=0, microsecond=0), for cron tasks only
unfoldable pub tick_deadline : Option ℕ → ℕ → ℕ
tick_deadline none now = (now + 60000000) / 60000000 * 60000000
tick_deadline (some seconds) now = now + max 1 seconds * 1000000

unfoldable pub tick_grace : Option ℕ → ℕ → ℕ
tick_grace none grace = grace
tick_grace (some seconds) grace = 0

-- How long the next slice of a sleep is.
unfoldable pub slice_length : ℕ → ℕ → ℕ → ℕ
slice_length deadline grace now = min 250000 (deadline - now - grace)

-- The loop of the sleep: the time at which it returns and the sleeps that are left, or `none` where
-- it is still asleep.
unfoldable pub sleep_loop : ℕ → ℕ → List Wake → ℕ → Bool → Option (ℕ × List Wake)
sleep_loop deadline grace wakes now true = some (now, wakes)
sleep_loop deadline grace [] now false = if leb deadline (now + grace) then some (now, []) else none
sleep_loop deadline grace ((later, stopping) ∷ wakes) now false =
    let rest = sleep_loop deadline grace wakes later stopping in
    if leb deadline (now + grace) then some (now, (later, stopping) ∷ wakes) else rest

unfoldable pub sleep_until_next_tick :
    {E : Type 0} → ℕ → List (ScheduledTask E) → List Wake → ℕ → Bool → Option (ℕ × List Wake)
unfolding sleep_loop tick_deadline tick_grace minimum_interval_seconds
sleep_until_next_tick grace tasks wakes now stopping =
    let interval = minimum_interval_seconds tasks in
    sleep_loop (tick_deadline interval now) (tick_grace interval grace) wakes now stopping
