-- ===== src/Queue/Memory.antt =====
-- pylar/queue/drivers/memory.py: the in-process driver. A coroutine that holds the condition runs
-- without interruption until it waits, so that an operation is one step; `pop` takes a step each
-- time that it looks at the heaps, with what the other coroutines do while it sleeps between. The
-- UTC clock and the loop's clock are one clock here.
pub mod Heap
pub mod Invariant
pub mod Delivery
pub mod Waiting
pub mod Conservation
pub mod Pages
pub mod Recent
pub mod Reach
pub mod Single
use pylar_framework.Dict
use pylar_framework.Dict.{Dict}
use pylar_framework.Queue.Record.{JobRecord, RecentJob, RecentStatus, FailedJob, failed}
use pylar_framework.Queue.Memory.Heap.{HeapEntry, heappush, heapify}
use pylar_framework.Prelude.{
  Bool, List, Option, String, [], drop, false, if◌then◌else◌, leb, length, ltb, map, min, none, not,
  reverse, some, str_eq, take, true, ℕ, ◌&&◌, ◌++◌, ◌+◌, ◌-◌, ◌==◌, ◌||◌, ◌∷◌,
}

pub record MemoryQueue : Type 0 where
  pub heaps : Dict (List HeapEntry)
  pub counter : ℕ
  pub failed_pool : Dict FailedJob
  pub acked : List JobRecord
  pub recent : Dict (List RecentJob)
  pub recent_retention : ℕ
  pub reported : Dict (ℕ × ℕ)

abbrev pub fresh : ℕ → MemoryQueue
fresh retention = record {
  heaps = [];
  counter = 0;
  failed_pool = [];
  acked = [];
  recent = [];
  recent_retention = retention;
  reported = [];
}

abbrev pub or_nil : {A : Type 0} → Option (List A) → List A
or_nil none = []
or_nil (some xs) = xs

-- d.get(k, []), and a read of a `defaultdict`
abbrev pub bucket : {A : Type 0} → Dict (List A) → String → List A
bucket d k = or_nil (Dict.get d k)

unfoldable pub push : JobRecord → MemoryQueue → MemoryQueue
push job q = record q {
  heaps = Dict.put q.heaps job.queue (
      heappush (record { available_at = job.available_at; seq = q.counter; job = job })
        (bucket q.heaps job.queue));
  counter = q.counter + 1;
}

-- next_available is None or available_at < next_available
abbrev pub earlier : Option ℕ → ℕ → ℕ
earlier none t = t
earlier (some u) t = if ltb t u then t else u

-- The `for` loop of `pop`: the first due record in the order of the queues, or the time at which
-- the first record gets due.
unfoldable pub scan :
    ℕ → List String → Option ℕ → MemoryQueue → Option JobRecord × Option ℕ × MemoryQueue
scan now [] next q = (none, next, q)
scan now (name ∷ names) next q = elim (bucket q.heaps name) [
  | [] ↦ scan now names next q
  | e ∷ heap ↦
      if leb e.available_at now
      then (some e.job, next, record q { heaps = Dict.put q.heaps name heap })
      else scan now names (some (earlier next e.available_at)) q
]

unfoldable pub has_due_record : ℕ → List String → MemoryQueue → Bool
has_due_record now [] q = false
has_due_record now (name ∷ names) q = elim (bucket q.heaps name) [
  | [] ↦ has_due_record now names q
  | e ∷ heap ↦ leb e.available_at now || has_due_record now names q
]

-- How long to sleep: `max(0.0, min(next_available - now, deadline - now))`.
unfoldable pub wait_seconds : Option ℕ → ℕ → ℕ → ℕ
wait_seconds none deadline now = deadline - now
wait_seconds (some next) deadline now = min (next - now) (deadline - now)

-- The end of a sleep: by a notification or by its timeout, when, and what the others did meanwhile.
pub record Wake : Type 0 where
  pub notified : Bool
  pub at : ℕ
  pub meanwhile : MemoryQueue → MemoryQueue

pub data Popped : Type 0 where
  returned : JobRecord → Popped
  missed asleep : Popped

unfoldable pub pop_loop : List Wake → List String → ℕ → ℕ → MemoryQueue → Popped × MemoryQueue
unfolding scan wait_seconds has_due_record
pop_loop [] names deadline now q =
    let (found, next, q') = scan now names none q in
    elim found [
      | some job ↦ (returned job, q')
      | none ↦ ((if wait_seconds next deadline now == 0 then missed else asleep), q')
    ]
pop_loop (wake ∷ wakes) names deadline now q =
    let (found, next, q') = scan now names none q in
    let woken = wake.meanwhile q' in
    let rest = pop_loop wakes names deadline wake.at woken in
    elim found [
      | some job ↦ (returned job, q')
      | none ↦
          if wait_seconds next deadline now == 0
          then (missed, q')
          else if wake.notified
          then rest
          else if leb deadline wake.at && not (has_due_record wake.at names woken)
          then (missed, woken)
          else rest
    ]

unfoldable pub pop : List Wake → List String → ℕ → ℕ → MemoryQueue → Popped × MemoryQueue
unfolding pop_loop
pop wakes names timeout now q = pop_loop wakes names (now + timeout) now q

unfoldable pub ack : JobRecord → MemoryQueue → MemoryQueue
ack job q = record q { acked = q.acked ++ job ∷ [] }

unfoldable pub keep_recent : ℕ → List RecentJob → List RecentJob
keep_recent cutoff [] = []
keep_recent cutoff (r ∷ rs) =
    let rest = keep_recent cutoff rs in if leb cutoff r.completed_at then r ∷ rest else rest

-- MemoryQueue._prune_recent
unfoldable pub prune_recent : ℕ → String → MemoryQueue → MemoryQueue
unfolding keep_recent
prune_recent now name q = elim (bucket q.recent name) [
  | [] ↦ q
  | r ∷ rs ↦ record q {
    recent = Dict.put q.recent name (keep_recent (now - q.recent_retention) (r ∷ rs));
  }
]

unfoldable pub record_completed :
    ℕ → JobRecord → RecentStatus → Option String → MemoryQueue → MemoryQueue
record_completed now job status error q = prune_recent now job.queue (record q {
  recent = Dict.put q.recent job.queue (
      bucket q.recent job.queue
      ++ record { job = job; status = status; completed_at = now; error = error } ∷ []);
})

unfoldable pub fail : ℕ → JobRecord → String → MemoryQueue → MemoryQueue
fail now job error q = record_completed now job failed (some error) (record q {
  failed_pool =
      Dict.put q.failed_pool job.id (record { job = job; error = error; failed_at = now });
})

unfoldable pub push_all : List FailedJob → MemoryQueue → MemoryQueue
unfolding push
push_all [] q = q
push_all (entry ∷ entries) q = push_all entries (push entry.job q)

unfoldable pub retry_found : String → Option FailedJob → MemoryQueue → ℕ × MemoryQueue
unfolding push
retry_found id none q = (0, q)
retry_found id (some entry) q =
    (1, push entry.job (record q { failed_pool = Dict.remove q.failed_pool id }))

unfoldable pub retry_failed : Option String → MemoryQueue → ℕ × MemoryQueue
unfolding retry_found push_all
retry_failed (some id) q = retry_found id (Dict.get q.failed_pool id) q
retry_failed none q =
    let moved = Dict.values q.failed_pool in
    (length moved, push_all moved (record q { failed_pool = [] }))

unfoldable pub forget_failed : String → MemoryQueue → Bool × MemoryQueue
forget_failed id q =
    (Dict.has q.failed_pool id, record q { failed_pool = Dict.remove q.failed_pool id })

unfoldable pub flush_failed : MemoryQueue → ℕ × MemoryQueue
flush_failed q = (length q.failed_pool, record q { failed_pool = [] })

unfoldable pub prune_failed : ℕ → MemoryQueue → ℕ × MemoryQueue
prune_failed limit q = (
  length (Dict.keep (λ entry. ltb entry.failed_at limit) q.failed_pool),
  record q { failed_pool = Dict.keep (λ entry. not (ltb entry.failed_at limit)) q.failed_pool },
)

unfoldable pub total : Dict (List HeapEntry) → ℕ
total [] = 0
total ((name, heap) ∷ heaps) = length heap + total heaps

-- MemoryQueue.qsize
unfoldable pub qsize : MemoryQueue → ℕ
unfolding total
qsize q = total q.heaps

unfoldable pub clear_pending : MemoryQueue → ℕ × MemoryQueue
unfolding total
clear_pending q = (total q.heaps, record q { heaps = [] })

unfoldable pub size : String → MemoryQueue → ℕ
size name q = length (bucket q.heaps name)

unfoldable pub recent_size : ℕ → String → MemoryQueue → ℕ × MemoryQueue
recent_size now name q = let q' = prune_recent now name q in (length (bucket q'.recent name), q')

unfoldable pub pending_records : String → ℕ → ℕ → MemoryQueue → List JobRecord
pending_records name limit offset q =
    map (λ e. e.job) (take limit (drop offset (heapify (bucket q.heaps name))))

unfoldable pub without_id : String → List HeapEntry → List HeapEntry
without_id id [] = []
without_id id (e ∷ es) =
    let rest = without_id id es in if str_eq e.job.id id then rest else e ∷ rest

unfoldable pub forget_pending : String → String → MemoryQueue → Bool × MemoryQueue
unfolding without_id
forget_pending name id q =
    let heap = bucket q.heaps name in
    let kept = without_id id heap in
    if length kept == length heap
    then (false, q)
    else (true, record q { heaps = Dict.put q.heaps name (heapify kept) })

unfoldable pub recent_records : ℕ → String → ℕ → ℕ → MemoryQueue → List RecentJob × MemoryQueue
recent_records now name limit offset q =
    let q' = prune_recent now name q in
    (take limit (drop offset (reverse (bucket q'.recent name))), q')

unfoldable pub report_worker_count : ℕ → String → ℕ → ℕ → MemoryQueue → MemoryQueue
report_worker_count now name count ttl q = record q {
  reported = Dict.put q.reported name (count, now + ttl);
}

unfoldable pub counts : Dict (ℕ × ℕ) → Dict ℕ
counts [] = []
counts ((name, (count, expires_at)) ∷ d) = (name, count) ∷ counts d

unfoldable pub worker_counts : ℕ → MemoryQueue → Dict ℕ × MemoryQueue
unfolding counts
worker_counts now q =
    let live = Dict.keep (λ p. not (ltb p.1 now)) q.reported in
    (counts live, record q { reported = live })
