-- ===== src/Examples/Scheduled.antt =====
-- A schedule of a few tasks over the in-process cache.
use pylar_framework.Cache.Contract.{null, text}
use pylar_framework.Cache.Memory
use pylar_framework.Cache.Memory.{MemoryCacheStore}
use pylar_framework.Cache.Memory.Driver.{memory}
use pylar_framework.Cache.Memory.Views as MemoryViews
use pylar_framework.Cache.Facade
use pylar_framework.Cache.Facade.{Cache}
use pylar_framework.Cache.Facade.Views
use pylar_framework.Scheduling.Task.{
  Calendar, ScheduledTask, task_error, callable, command, job, new_task, is_due, next_run_at,
}
use pylar_framework.Scheduling.Task.Timing
use pylar_framework.Scheduling.Schedule.{
  Env, Runner, skipped, stopped, run_with_hooks, run_task, run_due,
}
use pylar_framework.Scheduling.Schedule.Overlap
use pylar_framework.Scheduling.Schedule.Running
use pylar_framework.Scheduling.Kernel.{sleep_until_next_tick}
use pylar_framework.Scheduling.Kernel.Grace
use pylar_framework.Prelude.{
  String, [], arith, false, none, not, refl, some, str_eq, true, ℕ, ◌*◌, ◌++◌, ◌+◌, ◌/◌, ◌↔◌, ◌∷◌,
  ◌≡◌, ◌≤◌,
}

-- The rest of the world is the time; "bad" raises, and each task takes a second.
abbrev Environment : Type 0
Environment = Env MemoryCacheStore ℕ

abbrev runner : Runner Environment
runner = record {
  run = λ work e. elim work [
    | callable name ↦ (not (str_eq name "bad"), record e { world = e.world + 1000000 })
    | command name args ↦ (true, e)
    | job name payload ↦ (true, e)
  ];
  clock = λ e. e.world;
  fresh_token = λ e. "t1";
}

-- Minutes of UTC, for the expression of every minute only.
abbrev minutes : Calendar
minutes = record {
  is_valid = λ expression. true;
  has_zone = λ name. true;
  get_prev = λ zone expression t. t / 60000000 * 60000000;
  get_next = λ zone expression t. (t / 60000000 + 1) * 60000000;
  minute_in = λ zone t. t / 60000000;
}

abbrev task : String → ScheduledTask Environment
task name = new_task (callable name)

abbrev every_ten : ScheduledTask Environment
every_ten = record (task "poll") { interval_seconds = some 10; last_run_at = some 5000000 }

is_due-next_run_at_example :
    (is_due minutes 15000000 every_ten ≡ true) ↔ (next_run_at minutes 99 every_ten ≤ 15000000)
unfolding new_task
is_due-next_run_at_example =
    Timing.is_due-next_run_at minutes every_ten 10 refl 5000000 15000000 99 refl

-- At 10 s past the last five seconds of a minute.
sleep_in_grace_example :
    (sleep_until_next_tick {E = Environment} 5000000 (task "report" ∷ []) [] 3595000000 false
      ≡ some (3595000000, []))
    × (is_due minutes 3595000000 (task "report") ≡ true)
unfolding new_task pylar_framework.Scheduling.Kernel.minimum_interval_seconds
sleep_in_grace_example =
    Grace.sleep_in_grace minutes (task "report") 5000000 3595000000 (task "report" ∷ []) []
      (λ t. refl) (λ t h. refl) refl refl (omega arith) (omega arith)

abbrev start : Environment
start = record { cache = none; world = 3600000000 }

run_due-stops_example :
    run_due memory runner minutes 3600000000 (task "good" ∷ task "bad" ∷ task "other" ∷ []) start
    ≡ (
      stopped task_error,
      (run_due memory runner minutes 3600000000 (task "good" ∷ []) start).1
          ++ (run_task memory runner
              (task "bad")
              (run_due memory runner minutes 3600000000 (task "good" ∷ []) start).2).1
            ∷ task "other"
            ∷ [],
      (run_task memory runner
          (task "bad")
          (run_due memory runner minutes 3600000000 (task "good" ∷ []) start).2).2,
    )
unfolding new_task is_due run_due run_task pylar_framework.Scheduling.Task.should_run run_with_hooks
run_due-stops_example =
    Running.run_due-stops memory runner minutes 3600000000 (task "bad") (task "other" ∷ [])
      task_error refl (task "good" ∷ []) start tt refl

abbrev guarded : ScheduledTask Environment
guarded = record (task "good") { lock_key = some "schedule:good" }

abbrev free_cache : Cache MemoryCacheStore
free_cache = record { store = Memory.fresh; tag_index = [] }

fresh-IsValid : MemoryViews.IsValid Memory.fresh
fresh-IsValid = record { unique = tt; counted = omega arith }

abbrev with_cache : Environment
with_cache = record { cache = some free_cache; world = 3600000000 }

abbrev held_cache : Cache MemoryCacheStore
held_cache = Facade.put memory "schedule:good" (text "t0") (some 60000000) 3590000000 free_cache

abbrev with_held : Environment
with_held = record { cache = some held_cache; world = 3600000000 }

run_task-overlapped_example :
    ((run_task memory runner guarded with_held).0 ≡ skipped)
    × ((run_task memory runner guarded with_held).1 ≡ guarded)
    × ((run_task memory runner guarded with_held).2.world ≡ with_held.world)
unfolding new_task pylar_framework.Scheduling.Task.should_run MemoryViews.view
    pylar_framework.Dict.get Facade.put Memory.put pylar_framework.Dict.put Memory.expired
run_task-overlapped_example =
    Overlap.run_task-overlapped memory runner "schedule:good" guarded held_cache with_held refl refl
      refl refl

abbrev claimed_cache : Cache MemoryCacheStore
claimed_cache = Facade.put memory "schedule:good" (text "t1") (some 60000000) 3600000000 free_cache

run_task-released_example :
    ((run_task memory runner guarded with_cache).0
      ≡ (run_with_hooks runner guarded
          (Overlap.with_claim memory runner "schedule:good" guarded free_cache with_cache)).0)
    × ((last : Cache MemoryCacheStore) × ((run_task memory runner guarded with_cache).2.cache
          ≡ some last)
        × (Views.view memory last "schedule:good" 3601000000 ≡ null))
unfolding new_task pylar_framework.Scheduling.Task.should_run MemoryViews.view
    pylar_framework.Dict.get run_with_hooks Facade.put pylar_framework.Cache.Lock.claim Facade.add
    Memory.get
run_task-released_example =
    Overlap.run_task-released memory runner "schedule:good" guarded free_cache with_cache refl refl
      refl claimed_cache 3601000000 fresh-IsValid refl refl
      (Views.put-IsValid memory "schedule:good" (text "t1") (some 60000000) 3600000000 free_cache
        fresh-IsValid)
      (λ u. refl) (omega arith) (omega arith)
