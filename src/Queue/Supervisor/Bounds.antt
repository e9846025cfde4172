-- ===== src/Queue/Supervisor/Bounds.antt =====
-- What holds of a pool over any number of ticks: its bounds and its cooldown.
use pylar_framework.Queue.Config.{QueueConfig}
use pylar_framework.Queue.Supervisor.{
  ManagedWorker, PoolState, ScaleEvent, floor, alive, cooling, observe, decide, reconcile, new_pool,
  spawn_many,
}
use pylar_framework.Queue.Supervisor.Scaling.{
  Decision, grows, shrinks, keeps, decide-Decision, length-alive-le, length-spawn_many,
  length-spawn_worker, config-spawn_many,
}
use pylar_framework.Prelude.{
  List, Option, ap, arith, false, inl, inr, leb, length, ltb, lt→ltb, none, refl, some, true, ℕ,
  ◌&&◌, ◌+◌, ◌<◌, ◌∙◌, ◌≡◌, ◌≢◌, ◌≤◌, ◌⊎◌,
}

-- One step of a pool's life: a tick, or workers that end between ticks.
pub data Step (pool : PoolState) : PoolState → Type 0 where
  ticks : (now n : ℕ) → Step pool (reconcile now n pool).1
  ends :
      (ws : List ManagedWorker)
      → length ws ≡ length pool.workers
      → Step pool (record pool { workers = ws })

pub data Reach (pool : PoolState) : PoolState → Type 0 where
  here : Reach pool pool
  next : {p q : PoolState} → Reach pool p → Step p q → Reach pool q

-- The pool has the configuration, and not more workers than it allows.
pub record IsBounded (cfg : QueueConfig) (pool : PoolState) : Type 0 where
  pub configured : pool.config ≡ cfg
  pub within : length pool.workers ≤ cfg.max_workers

decide-IsBounded :
    (cfg : QueueConfig) (now n : ℕ) (pool : PoolState) {e : Option ScaleEvent} {pool' : PoolState}
    → cfg.min_workers ≤ cfg.max_workers
    → Decision now n pool e pool'
    → IsBounded cfg pool
    → IsBounded cfg pool'
decide-IsBounded cfg now n pool le (grows e pool' c t lt len s same r) b =
    let max_same = ap (λ (k : QueueConfig). k.max_workers) b.configured in
    record { configured = same ∙ b.configured; within = omega (arith, lt, len, max_same) }
decide-IsBounded cfg now n pool le (shrinks e pool' c lt i len s same r) b = record {
  configured = same ∙ b.configured;
  within = omega (arith, len, b.within);
}
decide-IsBounded cfg now n pool le (keeps e pool' len s same r) b =
    let min_same = ap (λ (k : QueueConfig). k.min_workers) b.configured in
    record { configured = same ∙ b.configured; within = omega (arith, len, b.within, min_same) }

reconcile-IsBounded :
    (cfg : QueueConfig) (now n : ℕ) (pool : PoolState)
    → cfg.min_workers ≤ cfg.max_workers
    → IsBounded cfg pool
    → IsBounded cfg (reconcile now n pool).1
unfolding reconcile observe
reconcile-IsBounded cfg now n pool le b =
    let seen = observe now n pool in
    decide-IsBounded cfg now n seen le (decide-Decision now n seen) (record {
      configured = b.configured;
      within = omega (arith, length-alive-le pool.workers, b.within);
    })

Reach-IsBounded :
    (cfg : QueueConfig) {p q : PoolState}
    → cfg.min_workers ≤ cfg.max_workers
    → Reach p q
    → IsBounded cfg p
    → IsBounded cfg q
Reach-IsBounded cfg le here b = b
Reach-IsBounded cfg le (next {p} r (ticks now n)) b =
    reconcile-IsBounded cfg now n p le (Reach-IsBounded cfg le r b)
Reach-IsBounded cfg le (next {p} r (ends ws same)) b =
    let ih = Reach-IsBounded cfg le r b in
    record { configured = ih.configured; within = omega (arith, same, ih.within) }

-- The pool as `run` starts it.
abbrev pub started : QueueConfig → PoolState
started cfg = spawn_many cfg.min_workers (new_pool cfg)

-- From its start a pool never has more than `max_workers` workers, whatever the depths, the times
-- and the workers that end, if `min_workers` does not pass `max_workers`.
pub workers-le-max :
    (cfg : QueueConfig) (pool : PoolState)
    → cfg.min_workers ≤ cfg.max_workers
    → Reach (started cfg) pool
    → length pool.workers ≤ cfg.max_workers
workers-le-max cfg pool le r =
    (Reach-IsBounded cfg le r (record {
      configured = config-spawn_many cfg.min_workers (new_pool cfg);
      within = omega (arith, length-spawn_many cfg.min_workers (new_pool cfg), le);
    })).within

decide_floor :
    (now n : ℕ) (pool : PoolState) {e : Option ScaleEvent} {pool' : PoolState}
    → Decision now n pool e pool'
    → (pool.config.min_workers ≤ length pool'.workers)
      ⊎ ((length pool'.workers ≡ length pool.workers + 1) × (pool.config.scale_threshold ≤ n))
decide_floor now n pool (grows e pool' c t lt len s same r) = inr (len, t)
decide_floor now n pool (shrinks e pool' c lt i len s same r) = inl (omega arith)
decide_floor now n pool (keeps e pool' len s same r) = inl (omega arith)

-- After a tick a pool has its `min_workers`, or the depth had reached the threshold and just one
-- worker was added to those that were left.
pub reconcile_floor :
    (now n : ℕ) (pool : PoolState)
    → (pool.config.min_workers ≤ length (reconcile now n pool).1.workers)
      ⊎ ((length (reconcile now n pool).1.workers ≡ length (alive pool.workers) + 1)
          × (pool.config.scale_threshold ≤ n))
unfolding reconcile observe
reconcile_floor now n pool =
    decide_floor now n (observe now n pool) (decide-Decision now n (observe now n pool))

decide_grows :
    (now n : ℕ) (pool : PoolState)
    → cooling pool.last_scaled_at pool.config.scale_cooldown_seconds now ≡ false
    → pool.config.scale_threshold ≤ n
    → length pool.workers < pool.config.max_workers
    → length (decide now n pool).1.workers ≡ length pool.workers + 1
unfolding decide
decide_grows now n pool ready deep room =
    let grow : (leb pool.config.scale_threshold n
          && ltb (length pool.workers) pool.config.max_workers)
        ≡ true =
      ground arith in
    rw (ready, grow) (length-spawn_worker pool)

-- A busy pool that has lost more than one worker of its floor stays below `min_workers` after a
-- tick that may scale: the pool is scaled up by one and its floor is not enforced.
pub reconcile_below_floor :
    (now n : ℕ) (pool : PoolState)
    → cooling pool.last_scaled_at pool.config.scale_cooldown_seconds now ≡ false
    → pool.config.scale_threshold ≤ n
    → length (alive pool.workers) + 1 < pool.config.min_workers
    → pool.config.min_workers ≤ pool.config.max_workers
    → length (reconcile now n pool).1.workers < pool.config.min_workers
unfolding reconcile observe
reconcile_below_floor now n pool ready deep few le =
    let seen = observe now n pool in
    omega (arith, few, decide_grows now n seen ready deep (omega (arith, few, le)))

-- The reason is a scaling decision, and no repair of the floor.
abbrev pub IsScaling : Option ScaleEvent → Type 0
IsScaling none = ⊥
IsScaling (some e) = e.reason ≢ floor

scaled_now :
    (now n : ℕ) (pool : PoolState) {e : Option ScaleEvent} {pool' : PoolState}
    → Decision now n pool e pool'
    → IsScaling e
    → (pool'.last_scaled_at ≡ some now) × (pool'.config ≡ pool.config)
scaled_now now n pool (grows e pool' c t lt len s same r) h = (s, same)
scaled_now now n pool (shrinks e pool' c lt i len s same r) h = (s, same)
scaled_now now n pool (keeps none pool' len s same r) h = absurd h
scaled_now now n pool (keeps (some e) pool' len s same r) h = absurd (h (r e refl))

not_cooling :
    (now n : ℕ) (pool : PoolState) {e : Option ScaleEvent} {pool' : PoolState}
    → Decision now n pool e pool'
    → IsScaling e
    → cooling pool.last_scaled_at pool.config.scale_cooldown_seconds now ≡ false
not_cooling now n pool (grows e pool' c t lt len s same r) h = c
not_cooling now n pool (shrinks e pool' c lt i len s same r) h = c
not_cooling now n pool (keeps none pool' len s same r) h = absurd h
not_cooling now n pool (keeps (some e) pool' len s same r) h = absurd (h (r e refl))

cooling_soon :
    (last : Option ℕ) (cooldown now now' : ℕ)
    → last ≡ some now
    → now' < now + cooldown
    → cooling last cooldown now' ≡ true
unfolding cooling
cooling_soon last cooldown now now' e lt = rw e (lt→ltb _ _ lt)

-- What happens to a pool before a time: ticks, and workers that end between them.
pub data Before (until : ℕ) (pool : PoolState) : PoolState → Type 0 where
  none_yet : Before until pool pool
  ticked :
      {p : PoolState} (now n : ℕ)
      → now < until
      → Before until pool p
      → Before until pool (reconcile now n p).1
  ended :
      {p : PoolState} (ws : List ManagedWorker)
      → Before until pool p
      → Before until pool (record p { workers = ws })

-- A tick in the cooldown keeps the time of the last decision, and the configuration.
cooling_keeps :
    (now n : ℕ) (pool : PoolState) {e : Option ScaleEvent} {pool' : PoolState}
    → cooling pool.last_scaled_at pool.config.scale_cooldown_seconds now ≡ true
    → Decision now n pool e pool'
    → (pool'.last_scaled_at ≡ pool.last_scaled_at) × (pool'.config ≡ pool.config)
cooling_keeps now n pool cool (grows e pool' c t lt len s same r) = absurd (cc (cool, c))
cooling_keeps now n pool cool (shrinks e pool' c lt i len s same r) = absurd (cc (cool, c))
cooling_keeps now n pool cool (keeps e pool' len s same r) = (s, same)

Before-cools :
    (at cooldown : ℕ) {p q : PoolState}
    → p.last_scaled_at ≡ some at
    → p.config.scale_cooldown_seconds ≡ cooldown
    → Before (at + cooldown) p q
    → (q.last_scaled_at ≡ some at) × (q.config.scale_cooldown_seconds ≡ cooldown)
unfolding reconcile observe
Before-cools at cooldown scaled same none_yet = (scaled, same)
Before-cools at cooldown scaled same (ended ws b) = Before-cools at cooldown scaled same b
Before-cools at cooldown scaled same (ticked {p} now n soon b) =
    let (last, config) = Before-cools at cooldown scaled same b in
    let seen = observe now n p in
    let cool : cooling p.last_scaled_at p.config.scale_cooldown_seconds now ≡ true =
      cooling_soon p.last_scaled_at p.config.scale_cooldown_seconds at now last (rw config soon) in
    let (kept, kept_config) = cooling_keeps now n seen cool (decide-Decision now n seen) in
    (kept ∙ last, ap (λ (c : QueueConfig). c.scale_cooldown_seconds) kept_config ∙ config)

-- At most one scaling decision in a cooldown window: after one, no tick before the window is over
-- makes another, whatever ticks are between them, whatever the depths are and whichever workers have
-- ended.
pub reconcile_cooldown :
    (at n now n' : ℕ) (pool later : PoolState)
    → IsScaling (reconcile at n pool).0
    → Before (at + pool.config.scale_cooldown_seconds) (reconcile at n pool).1 later
    → now < at + pool.config.scale_cooldown_seconds
    → ¬ IsScaling (reconcile now n' later).0
unfolding reconcile observe
reconcile_cooldown at n now n' pool later first between soon second =
    let seen = observe at n pool in
    let (scaled, same) = scaled_now at n seen (decide-Decision at n seen) first in
    let cooldown = pool.config.scale_cooldown_seconds in
    let (last, config) =
      Before-cools at cooldown scaled (ap (λ (c : QueueConfig). c.scale_cooldown_seconds) same)
        between in
    let last_seen = observe now n' later in
    let c = not_cooling now n' last_seen (decide-Decision now n' last_seen) second in
    cc (
      c,
      cooling_soon later.last_scaled_at later.config.scale_cooldown_seconds at now last
          (rw config soon),
    )
