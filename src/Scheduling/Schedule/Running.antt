-- ===== src/Scheduling/Schedule/Running.antt =====
-- A tick with a task that raises.
use pylar_framework.Cache.Contract.{CacheStore}
use pylar_framework.Scheduling.Task.{Calendar, ScheduledTask, Error, is_due}
use pylar_framework.Scheduling.Schedule.{
  Env, Runner, Ran, completed, skipped, raised, Tick, ran, stopped, run_task, count_ran, go_on,
  keep_task, follow, run_due,
}
use pylar_framework.Prelude.{List, [], refl, true, ℕ, ◌++◌, ◌∷◌, ◌≡◌}

-- The tick came to its end.
abbrev pub IsRan : Tick → Type 0
IsRan (ran n) = Unit
IsRan (stopped error) = ⊥

module _ (driver : CacheStore) {W : Type 0} (runner : Runner (Env driver.State W)) (cal : Calendar)
    (moment : ℕ) (task : ScheduledTask (Env driver.State W))
    (behind : List (ScheduledTask (Env driver.State W))) (error : Error)
    (due : is_due cal moment task ≡ true) where
  count_ran-IsRan : (tick : Tick) → IsRan (count_ran driver runner tick) → IsRan tick
  unfolding count_ran
  count_ran-IsRan (ran n) h = tt
  count_ran-IsRan (stopped er) h = h

  -- What the tasks in front come to, and the task itself behind them.
  abbrev Stops :
      List (ScheduledTask (Env driver.State W))
      → Tick × List (ScheduledTask (Env driver.State W)) × Env driver.State W
      → Tick × List (ScheduledTask (Env driver.State W)) × Env driver.State W
      → Type 0
  Stops front (tick, front', e) whole =
      IsRan tick
      → (run_task driver runner task e).0 ≡ raised error
      → whole ≡ (
        stopped error,
        front' ++ (run_task driver runner task e).1 ∷ behind,
        (run_task driver runner task e).2,
      )

  follow-Stops :
      (made : Ran × ScheduledTask (Env driver.State W) × Env driver.State W)
      (front : List (ScheduledTask (Env driver.State W)))
      → ((e : Env driver.State W)
          → Stops front
              (run_due driver runner cal moment front e)
              (run_due driver runner cal moment (front ++ task ∷ behind) e))
      → Stops front (follow driver runner cal made front (run_due driver runner cal moment front)) (
          follow driver runner cal made
            (front ++ task ∷ behind)
            (run_due driver runner cal moment (front ++ task ∷ behind)))
  unfolding follow go_on keep_task count_ran
  follow-Stops (completed, first, e) front rest there fails =
      rw (rest e (count_ran-IsRan _ there) fails) refl
  follow-Stops (skipped, first, e) front rest there fails = rw (rest e there fails) refl
  follow-Stops (raised er, first, e) front rest there fails = absurd there

  -- If a tick over the tasks in front comes to its end and the next task, which is due, raises, then
  -- a tick over all tasks ends with that exception: the tasks behind are as they were and do not run,
  -- whether they are due or not, and the world is what the raising task leaves.
  pub run_due-stops :
      (front : List (ScheduledTask (Env driver.State W))) (e : Env driver.State W)
      → IsRan (run_due driver runner cal moment front e).0
      → (run_task driver runner task (run_due driver runner cal moment front e).2).0 ≡ raised error
      → run_due driver runner cal moment (front ++ task ∷ behind) e ≡ (
        stopped error,
        (run_due driver runner cal moment front e).1
            ++ (run_task driver runner task (run_due driver runner cal moment front e).2).1
              ∷ behind,
        (run_task driver runner task (run_due driver runner cal moment front e).2).2,
      )
  unfolding run_due follow go_on keep_task
  run_due-stops [] e there fails = rw (due, fails) refl
  run_due-stops (first ∷ front) e there fails =
      follow-Stops _ front (run_due-stops front) there fails
