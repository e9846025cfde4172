-- ===== src/Queue/Supervisor.antt =====
-- pylar/queue/supervisor.py: the pools of workers and how they scale. A pool of a queue is a state
-- that `reconcile` moves on at every tick, from the time and the depth of the queue; between ticks
-- workers may end. A retired worker's last job, and the logging, are left out.
pub mod Scaling
pub mod Bounds
use pylar_framework.Dict
use pylar_framework.Dict.{Dict}
use pylar_framework.Queue.Config.{QueueConfig, QueuesConfig}
use pylar_framework.Queue.Memory.{MemoryQueue, size, report_worker_count}
use pylar_framework.Prelude.{
  Bool, List, Option, String, [], false, if◌then◌else◌, leb, length, ltb, max, none, some, suc,
  zero, ℕ, ◌&&◌, ◌++◌, ◌+◌, ◌-◌, ◌==◌, ◌∷◌,
}

-- A worker task: which one it is, and whether it has ended.
pub record ManagedWorker : Type 0 where
  pub number : ℕ
  pub done : Bool

-- `spawned` counts the workers that the pool has had, so that each has a number of its own.
pub record PoolState : Type 0 where
  pub config : QueueConfig
  pub workers : List ManagedWorker
  pub empty_since : Option ℕ
  pub last_scaled_at : Option ℕ
  pub spawned : ℕ

pub data Reason : Type 0 where
  startup idle floor : Reason
  depth : ℕ → Reason

-- What `on_scale` is told: the worker counts before and after, and why.
pub record ScaleEvent : Type 0 where
  pub before : ℕ
  pub after : ℕ
  pub reason : Reason

unfoldable pub spawn_worker : PoolState → PoolState
spawn_worker pool = record pool {
  workers = pool.workers ++ record { number = pool.spawned; done = false } ∷ [];
  spawned = pool.spawned + 1;
}

unfoldable pub spawn_many : ℕ → PoolState → PoolState
spawn_many zero pool = pool
spawn_many (suc n) pool = spawn_many n (spawn_worker pool)

-- [w for w in pool.workers if not w.task.done()]
unfoldable pub alive : List ManagedWorker → List ManagedWorker
alive [] = []
alive (w ∷ ws) = let rest = alive ws in if w.done then rest else w ∷ rest

-- pool.workers.pop()
unfoldable pub retire_worker : List ManagedWorker → List ManagedWorker
retire_worker [] = []
retire_worker (w ∷ []) = []
retire_worker (w ∷ v ∷ ws) = w ∷ retire_worker (v ∷ ws)

-- The `while` loop of `_enforce_floor` spawns what is missing to `min_workers`.
unfoldable pub enforce_floor : PoolState → Option ScaleEvent × PoolState
enforce_floor pool =
    let before = length pool.workers in
    let pool' = spawn_many (pool.config.min_workers - before) pool in
    let after = length pool'.workers in
    (
      (if after == before
          then none
          else some (record { before = before; after = after; reason = floor })),
      pool',
    )

unfoldable pub cooling : Option ℕ → ℕ → ℕ → Bool
cooling none cooldown now = false
cooling (some last) cooldown now = ltb now (last + cooldown)

-- pool.empty_since is not None and the queue has been empty for the window
unfoldable pub idle_for : Option ℕ → ℕ → ℕ → Bool
idle_for none window now = false
idle_for (some since) window now = leb (since + window) now

or_now : Option ℕ → ℕ → Option ℕ
or_now none now = some now
or_now (some t) now = some t

-- The start of `_reconcile`: ended workers are dropped, and the empty clock is kept.
unfoldable pub observe : ℕ → ℕ → PoolState → PoolState
unfolding or_now
observe now n pool = record pool {
  workers = alive pool.workers;
  empty_since = (if n == 0 then or_now pool.empty_since now else none);
}

abbrev retired : ℕ → PoolState → PoolState
retired now pool = record pool {
  workers = retire_worker pool.workers;
  empty_since = some now;
  last_scaled_at = some now;
}

-- The rest of `_reconcile`: at most one scaling decision in a cooldown window, else the floor.
unfoldable pub decide : ℕ → ℕ → PoolState → Option ScaleEvent × PoolState
unfolding spawn_worker
decide now n pool =
    let cfg = pool.config in
    let live = length pool.workers in
    let grown = record (spawn_worker pool) { last_scaled_at = some now } in
    let shrunk = retired now pool in
    if cooling pool.last_scaled_at cfg.scale_cooldown_seconds now
    then enforce_floor pool
    else if leb cfg.scale_threshold n && ltb live cfg.max_workers
    then (some (record { before = live; after = length grown.workers; reason = depth n }), grown)
    else if ltb cfg.min_workers live && idle_for pool.empty_since cfg.scale_cooldown_seconds now
    then (some (record { before = live; after = length shrunk.workers; reason = idle }), shrunk)
    else enforce_floor pool

unfoldable pub reconcile : ℕ → ℕ → PoolState → Option ScaleEvent × PoolState
reconcile now n pool = decide now n (observe now n pool)

-- The loop of `_tick` over the pools, with the events that `on_scale` gets.
unfoldable pub reconcile_all :
    ℕ → MemoryQueue → Dict PoolState → List (String × ScaleEvent) × Dict PoolState
reconcile_all now q [] = ([], [])
reconcile_all now q ((name, pool) ∷ pools) =
    let (event, pool') = reconcile now (size name q) pool in
    let (events, pools') = reconcile_all now q pools in
    (elim event [ none ↦ events | some e ↦ (name, e) ∷ events ], (name, pool') ∷ pools')

-- _publish_pool_sizes
unfoldable pub publish : ℕ → ℕ → Dict PoolState → MemoryQueue → MemoryQueue
publish now ttl [] q = q
publish now ttl ((name, pool) ∷ pools) q =
    publish now ttl pools (report_worker_count now name (length pool.workers) ttl q)

-- QueueSupervisor._tick: `poll` is `int(poll_seconds * 10)`.
unfoldable pub tick :
    ℕ → ℕ → Dict PoolState → MemoryQueue → List (String × ScaleEvent) × Dict PoolState × MemoryQueue
unfolding reconcile_all publish
tick now poll pools q =
    let (events, pools') = reconcile_all now q pools in
    (events, pools', publish now (max 10 poll) pools' q)

abbrev pub new_pool : QueueConfig → PoolState
new_pool cfg = record {
  config = cfg;
  workers = [];
  empty_since = none;
  last_scaled_at = none;
  spawned = 0;
}

-- The first loop of `run`.
unfoldable pub start_pools : Dict QueueConfig → List (String × ScaleEvent) × Dict PoolState
start_pools [] = ([], [])
start_pools ((name, cfg) ∷ queues) =
    let pool = spawn_many cfg.min_workers (new_pool cfg) in
    let after = length pool.workers in
    let (events, pools) = start_pools queues in
    (
      (if after == 0
          then events
          else (name, record { before = 0; after = after; reason = startup }) ∷ events),
      (name, pool) ∷ pools,
    )

-- QueueSupervisor._drain_all
unfoldable pub drain_all : Dict PoolState → Dict PoolState
drain_all [] = []
drain_all ((name, pool) ∷ pools) = (name, record pool { workers = [] }) ∷ drain_all pools
