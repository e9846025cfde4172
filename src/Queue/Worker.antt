-- ===== src/Queue/Worker.antt =====
-- pylar/queue/worker.py: what the worker does with a record. The import of the job class, the
-- payload's validation and the container are not the queue's: a `World` says what comes of them.
-- The database session around a job is left out, and a hook can change nothing: what it raises is
-- swallowed.
pub mod Retries
pub mod Settling
use pylar_framework.Dict
use pylar_framework.Dict.{Dict}
use pylar_framework.Queue.Record.{JobRecord, completed}
use pylar_framework.Queue.Config.{QueueConfig, QueuesConfig, default_config, for_queue}
use pylar_framework.Queue.Memory.{
  MemoryQueue, push, fail, ack, record_completed, Wake, Popped, returned, pop,
}
use pylar_framework.Prelude.{
  Bool, List, Option, String, [], false, get_or, if◌then◌else◌, leb, length, ltb, min, none, some,
  suc, true, zero, ℕ, ◌&&◌, ◌+◌, ◌-◌, ◌∷◌,
}

-- The class attributes that the worker reads.
pub record JobClass : Type 0 where
  pub tries : Option ℕ
  pub max_attempts : Option ℕ
  pub timeout : Option ℕ
  pub backoff : Option (List ℕ)
  pub retry_until : Option ℕ

-- What comes of a record before it runs: its class, or the message of an exception.
pub data Prepared : Type 0 where
  ready : JobClass → Prepared
  broken : String → Prepared

-- How long the handler takes, and the message if it raises an `Exception`; it is not cancelled.
pub record Run : Type 0 where
  pub duration : ℕ
  pub error : Option String

pub record World : Type 0 where
  pub prepare : JobRecord → Prepared
  pub run : JobRecord → Run
  pub queues_config : Option QueuesConfig

pub record EffectivePolicy : Type 0 where
  pub tries : ℕ
  pub timeout : ℕ
  pub backoff : List ℕ

-- a or b: `None` and 0 are false
unfoldable pub or_else : Option ℕ → ℕ → ℕ
or_else none b = b
or_else (some zero) b = b
or_else (some (suc n)) b = suc n

-- tuple(a) if a else b
unfoldable pub or_backoff : Option (List ℕ) → List ℕ → List ℕ
or_backoff none b = b
or_backoff (some []) b = b
or_backoff (some (x ∷ xs)) b = x ∷ xs

unfoldable pub config_for : Option QueuesConfig → String → QueueConfig
config_for none name = default_config
config_for (some c) name = for_queue c name

unfoldable pub resolve_policy : Option QueuesConfig → JobRecord → JobClass → EffectivePolicy
unfolding or_else or_backoff
resolve_policy queues job cls =
    let cfg = config_for queues job.queue in
    record {
      tries = or_else cls.tries (or_else cls.max_attempts cfg.tries);
      timeout = or_else cls.timeout cfg.timeout;
      backoff = or_backoff cls.backoff cfg.backoff;
    }

-- backoff[min(attempt - 1, len(backoff) - 1)], or no delay
unfoldable pub delay_seconds : List ℕ → ℕ → ℕ
delay_seconds [] attempt = 0
delay_seconds (x ∷ xs) attempt = get_or (x ∷ xs) (min (attempt - 1) (length (x ∷ xs) - 1)) 0

-- The deadline for retries has passed.
unfoldable pub expired : Option ℕ → JobRecord → ℕ → Bool
expired none job now = false
expired (some span) job now = leb (job.queued_at + span) now

-- The record to queue again after a failed attempt, if any.
unfoldable pub retry_of : JobClass → EffectivePolicy → ℕ → JobRecord → Option JobRecord
unfolding expired
retry_of cls policy now job =
    let attempt = job.attempts + 1 in
    if expired cls.retry_until job now
    then none
    else if leb policy.tries attempt
    then none
    else some (record job {
      attempts = attempt;
      available_at = now + delay_seconds policy.backoff attempt;
    })

settle_failure : ℕ → String → JobRecord → Option JobRecord → MemoryQueue → MemoryQueue
settle_failure now message job none q = fail now job message q
settle_failure now message job (some retry) q = push retry q

-- Worker._handle_failure
unfoldable pub handle_failure :
    JobClass → EffectivePolicy → ℕ → String → JobRecord → MemoryQueue → MemoryQueue
unfolding settle_failure
handle_failure cls policy now message job q =
    settle_failure now message job (retry_of cls policy now job) q

-- The handler under `asyncio.wait_for`: past the timeout it is cancelled. A timeout of 0 is none.
unfoldable pub run_error : ℕ → Run → Option String
run_error timeout r =
    if ltb 0 timeout && ltb timeout r.duration then some "TimeoutError: " else r.error

pub data Event : Type 0 where
  processing processed failed : JobRecord → Event

process_ready :
    JobClass
    → EffectivePolicy
    → ℕ
    → Option String
    → JobRecord
    → MemoryQueue
    → List Event × MemoryQueue
process_ready cls policy now none job q =
    (processing job ∷ processed job ∷ [], record_completed now job completed none (ack job q))
process_ready cls policy now (some message) job q =
    (processing job ∷ failed job ∷ [], handle_failure cls policy now message job q)

process_prepared : World → ℕ → Prepared → JobRecord → MemoryQueue → List Event × MemoryQueue
unfolding process_ready
process_prepared w now (broken message) job q = ([], fail now job message q)
process_prepared w now (ready cls) job q =
    let policy = resolve_policy w.queues_config job cls in
    process_ready cls policy now (run_error policy.timeout (w.run job)) job q

-- Worker._process: the events that the hooks see, and the queue afterwards. `now` is the time at
-- which the job has ended.
unfoldable pub process : World → ℕ → JobRecord → MemoryQueue → List Event × MemoryQueue
unfolding process_prepared
process w now job q = process_prepared w now (w.prepare job) job q

settle_popped : World → ℕ → Popped × MemoryQueue → Bool × List Event × MemoryQueue
settle_popped w later (returned job, q) =
    let (events, q') = process w later job q in (true, events, q')
settle_popped w later (_, q) = (false, [], q)

-- Worker.process_next
unfoldable pub process_next :
    World → List Wake → List String → ℕ → ℕ → ℕ → MemoryQueue → Bool × List Event × MemoryQueue
unfolding settle_popped
process_next w wakes queues timeout now later q =
    settle_popped w later (pop wakes queues timeout now q)

-- queues if queues else ("default",), in the constructor and in `listen_on`
unfoldable pub listen_on : List String → List String
listen_on [] = "default" ∷ []
listen_on (name ∷ names) = name ∷ names
