-- ===== src/Queue/Supervisor/Scaling.antt =====
-- The bounds of a pool, its cooldown, and what scales it.

use pylar_framework.Queue.Supervisor.{
  ManagedWorker, PoolState, ScaleEvent, idle, floor, depth, spawn_worker, spawn_many, alive,
  retire_worker, enforce_floor, cooling, idle_for, decide,
}
use pylar_framework.Prelude.{
  Bool-cases, List, Option, [], arith, false, inl, inr, leb, length, length-append, ltb, max, refl,
  some, suc, true, zero, ℕ, ◌&&◌, ◌+◌, ◌-◌, ◌<◌, ◌∷◌, ◌≡◌, ◌≤◌,
}

pub length-spawn_many :
    (n : ℕ) (pool : PoolState) → length (spawn_many n pool).workers ≡ length pool.workers + n
unfolding spawn_many spawn_worker
length-spawn_many zero pool = omega arith
length-spawn_many (suc n) pool = omega (
  arith,
  length-spawn_many n (spawn_worker pool),
  length-append pool.workers (record { number = pool.spawned; done = false } ∷ []),
)

pub length-spawn_worker :
    (pool : PoolState) → length (spawn_worker pool).workers ≡ length pool.workers + 1
unfolding spawn_worker
length-spawn_worker pool =
    length-append pool.workers (record { number = pool.spawned; done = false } ∷ [])

pub config-spawn_many : (n : ℕ) (pool : PoolState) → (spawn_many n pool).config ≡ pool.config
unfolding spawn_many spawn_worker
config-spawn_many zero pool = refl
config-spawn_many (suc n) pool = config-spawn_many n (spawn_worker pool)

last_scaled_at-spawn_many :
    (n : ℕ) (pool : PoolState) → (spawn_many n pool).last_scaled_at ≡ pool.last_scaled_at
unfolding spawn_many spawn_worker
last_scaled_at-spawn_many zero pool = refl
last_scaled_at-spawn_many (suc n) pool = last_scaled_at-spawn_many n (spawn_worker pool)

length-retire_worker : (ws : List ManagedWorker) → length (retire_worker ws) ≡ length ws - 1
unfolding retire_worker
length-retire_worker [] = omega arith
length-retire_worker (w ∷ []) = omega arith
length-retire_worker (w ∷ v ∷ ws) = omega (arith, length-retire_worker (v ∷ ws))

pub length-alive-le : (ws : List ManagedWorker) → length (alive ws) ≤ length ws
unfolding alive
length-alive-le [] = omega arith
length-alive-le (w ∷ ws) = ground (arith, length-alive-le ws)

-- How a pool moves at a tick: the workers that are left, the decision, and the pool afterwards.
pub data Decision (now n : ℕ) (pool : PoolState) : Option ScaleEvent → PoolState → Type 0 where
  grows :
      (e : ScaleEvent) (pool' : PoolState)
      → cooling pool.last_scaled_at pool.config.scale_cooldown_seconds now ≡ false
      → pool.config.scale_threshold ≤ n
      → length pool.workers < pool.config.max_workers
      → length pool'.workers ≡ length pool.workers + 1
      → pool'.last_scaled_at ≡ some now
      → pool'.config ≡ pool.config
      → e.reason ≡ depth n
      → Decision now n pool (some e) pool'
  shrinks :
      (e : ScaleEvent) (pool' : PoolState)
      → cooling pool.last_scaled_at pool.config.scale_cooldown_seconds now ≡ false
      → pool.config.min_workers < length pool.workers
      → idle_for pool.empty_since pool.config.scale_cooldown_seconds now ≡ true
      → length pool'.workers + 1 ≡ length pool.workers
      → pool'.last_scaled_at ≡ some now
      → pool'.config ≡ pool.config
      → e.reason ≡ idle
      → Decision now n pool (some e) pool'
  keeps :
      (e : Option ScaleEvent) (pool' : PoolState)
      → length pool'.workers ≡ max (length pool.workers) pool.config.min_workers
      → pool'.last_scaled_at ≡ pool.last_scaled_at
      → pool'.config ≡ pool.config
      → ((r : ScaleEvent) → e ≡ some r → r.reason ≡ floor)
      → Decision now n pool e pool'

enforce_floor-Decision :
    (now n : ℕ) (pool : PoolState)
    → Decision now n pool (enforce_floor pool).0 (enforce_floor pool).1
unfolding enforce_floor
enforce_floor-Decision now n pool =
    let k = pool.config.min_workers - length pool.workers in
    keeps _ (spawn_many k pool) (omega (arith, length-spawn_many k pool))
      (last_scaled_at-spawn_many k pool) (config-spawn_many k pool) (λ r e. ground arith)

-- `decide` makes exactly one of the three moves, for its reason.
pub decide-Decision :
    (now n : ℕ) (pool : PoolState) → Decision now n pool (decide now n pool).0 (decide now n pool).1
unfolding decide
decide-Decision now n pool =
    let cfg = pool.config in
    let live = length pool.workers in
    let shrink =
      ltb cfg.min_workers live && idle_for pool.empty_since cfg.scale_cooldown_seconds now in
    elim (Bool-cases (cooling pool.last_scaled_at cfg.scale_cooldown_seconds now)) [
      | inl cool ↦ rw cool (enforce_floor-Decision now n pool)
      | inr ready ↦ elim (Bool-cases (leb cfg.scale_threshold n && ltb live cfg.max_workers)) [
        | inl grow ↦
            rw (ready, grow)
              (grows _ _ ready (ground (arith, grow)) (ground (arith, grow))
                (length-spawn_worker pool) refl (unfold spawn_worker in refl) refl)
        | inr no_growth ↦ elim (Bool-cases shrink) [
          | inl shrinking ↦
              rw (ready, no_growth, shrinking)
                (shrinks _ _ ready (ground (arith, shrinking)) (ground (arith, shrinking))
                  (ground (arith, shrinking, length-retire_worker pool.workers)) refl refl refl)
          | inr no_change ↦ rw (ready, no_growth, no_change) (enforce_floor-Decision now n pool)
        ]
      ]
    ]
