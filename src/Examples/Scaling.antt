-- ===== src/Examples/Scaling.antt =====
-- A pool of workers that is scaled.
use pylar_framework.Queue.Config.{QueueConfig, default_config}
use pylar_framework.Queue.Supervisor
use pylar_framework.Queue.Supervisor.{PoolState, reconcile, decide, new_pool}
use pylar_framework.Queue.Supervisor.Scaling
use pylar_framework.Queue.Supervisor.Bounds
use pylar_framework.Queue.Supervisor.Bounds.{here, next, ticks, ticked, ended, none_yet}
use pylar_framework.Prelude.{[], arith, length, refl, ◌+◌, ◌<◌, ◌≡◌, ◌≤◌, ◌⊎◌}

abbrev scaled_config : QueueConfig
scaled_config = record default_config { min_workers = 3; max_workers = 5 }

abbrev empty_pool : PoolState
empty_pool = new_pool scaled_config

workers-le-max_example :
    length (reconcile 7 80 (Bounds.started scaled_config)).1.workers ≤ scaled_config.max_workers
workers-le-max_example =
    Bounds.workers-le-max scaled_config (reconcile 7 80 (Bounds.started scaled_config)).1
      (omega arith) (next here (ticks 7 80))

reconcile_cooldown_example :
    ¬ Bounds.IsScaling
      (reconcile 13 90
        (record (reconcile 12 80 (reconcile 7 80 empty_pool).1).1 { workers = [] })).0
unfolding reconcile decide Supervisor.cooling Supervisor.observe Supervisor.alive
reconcile_cooldown_example =
    Bounds.reconcile_cooldown 7 80 13 90 empty_pool
      (record (reconcile 12 80 (reconcile 7 80 empty_pool).1).1 { workers = [] }) (λ e. cc)
      (ended [] (ticked 12 80 (omega arith) none_yet)) (omega arith)

reconcile_floor_run :
    (empty_pool.config.min_workers ≤ length (reconcile 7 80 empty_pool).1.workers)
    ⊎ ((length (reconcile 7 80 empty_pool).1.workers
          ≡ length (Supervisor.alive empty_pool.workers) + 1)
        × (empty_pool.config.scale_threshold ≤ 80))
reconcile_floor_run = Bounds.reconcile_floor 7 80 empty_pool

reconcile_below_floor_example :
    length (reconcile 7 80 empty_pool).1.workers < empty_pool.config.min_workers
unfolding Supervisor.cooling Supervisor.alive
reconcile_below_floor_example =
    Bounds.reconcile_below_floor 7 80 empty_pool refl (omega arith) (omega arith) (omega arith)

decide-Decision_run :
    Scaling.Decision 7 80 empty_pool (decide 7 80 empty_pool).0 (decide 7 80 empty_pool).1
decide-Decision_run = Scaling.decide-Decision 7 80 empty_pool
