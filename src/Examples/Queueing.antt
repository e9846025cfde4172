-- ===== src/Examples/Queueing.antt =====
-- The driver, the worker and the rate limiter on concrete records.
use pylar_framework.Dict
use pylar_framework.Cache.Contract.{int}
use pylar_framework.Cache.Memory
use pylar_framework.Cache.Memory.{MemoryCacheStore}
use pylar_framework.Cache.Memory.Driver.{memory}
use pylar_framework.Cache.Memory.Views as MemoryViews
use pylar_framework.Cache.Facade.{Cache, done}
use pylar_framework.Queue.Record.{JobRecord, completed}
use pylar_framework.Queue.Memory.{
  MemoryQueue, fresh, push, scan, pop, Wake, returned, missed, asleep, retry_failed, bucket, fail,
  pending_records, forget_pending, prune_recent, recent_records, record_completed, size,
}
use pylar_framework.Queue.Memory.Heap
use pylar_framework.Queue.Memory.Invariant.{IsValid, push-IsValid}
use pylar_framework.Queue.Memory.Reach
use pylar_framework.Queue.Memory.Reach.{here, next, pushes}
use pylar_framework.Queue.Memory.Delivery
use pylar_framework.Queue.Memory.Waiting
use pylar_framework.Queue.Memory.Conservation
use pylar_framework.Queue.Memory.Pages
use pylar_framework.Queue.Memory.Recent
use pylar_framework.Queue.Worker.{
  World, ready, JobClass, EffectivePolicy, process, retry_of, expired, delay_seconds,
}
use pylar_framework.Queue.Worker.Retries
use pylar_framework.Queue.Worker.Retries.{start, again}
use pylar_framework.Queue.Worker.Settling
use pylar_framework.Queue.Middleware.{Next}
use pylar_framework.Queue.Middleware.RateLimit
use pylar_framework.Queue.Dispatcher
use pylar_framework.Queue.Dispatcher.Delay
use pylar_framework.Prelude.{
  String, [], arith, false, get_elem?, if◌then◌else◌, inl, inr, leb, length, map, max, min, none,
  pos, refl, some, str_eq, true, ℕ, ◌&&◌, ◌++◌, ◌+◌, ◌-◌, ◌<◌, ◌∷◌, ◌≡◌, ◌≢◌, ◌≤◌, ◌⊎◌,
}

abbrev job_at : String → ℕ → JobRecord
job_at id t = record {
  id = id;
  job_class = "app.Report";
  payload_json = "{}";
  queue = "default";
  attempts = 0;
  queued_at = 0;
  available_at = t;
}

abbrev first_job : JobRecord
first_job = job_at "a" 5

abbrev second_job : JobRecord
second_job = job_at "b" 9

abbrev one_pending : MemoryQueue
one_pending = push first_job (fresh 60)

abbrev two_pending : MemoryQueue
two_pending = push second_job one_pending

one_pending-IsValid : IsValid one_pending
one_pending-IsValid = Reach.Reach-IsValid 60 one_pending (next here (pushes first_job))

two_pending-IsValid : IsValid two_pending
two_pending-IsValid =
    Reach.Reach-IsValid 60 two_pending (next (next here (pushes first_job)) (pushes second_job))

Reach-IsValid_example : IsValid two_pending
Reach-IsValid_example =
    Reach.Reach-IsValid 60 two_pending (next (next here (pushes first_job)) (pushes second_job))

scan-Look_example :
    Delivery.Look 6
      ("high" ∷ "default" ∷ [])
      two_pending
      (scan 6 ("high" ∷ "default" ∷ []) none two_pending)
scan-Look_example =
    Delivery.scan-Look 6 ("high" ∷ "default" ∷ []) none two_pending two_pending-IsValid tt

-- While `pop` sleeps another coroutine queues a record that is due.
abbrev wake : Wake
wake = record { notified = true; at = 7; meanwhile = push first_job }

-- A sleep that runs out.
abbrev late : Wake
late = record { notified = false; at = 30; meanwhile = λ q. q }

wake-AllKeep : Waiting.AllKeep (wake ∷ [])
wake-AllKeep = (λ q v. push-IsValid first_job q v, tt)

late-AllKeep : Waiting.AllKeep (late ∷ [])
late-AllKeep = (λ q v. v, tt)

fresh-IsValid : IsValid (fresh 60)
fresh-IsValid = Reach.Reach-IsValid 60 (fresh 60) here

pop_not_early_example :
    (first_job.available_at ≤ Waiting.latest 3 (wake ∷ []))
    × Delivery.IsIn first_job.queue ("default" ∷ [])
unfolding pop Dict.get push Dict.put Heap.heappush
pop_not_early_example =
    Waiting.pop_not_early (wake ∷ []) ("default" ∷ []) 20 3 (fresh 60) first_job fresh-IsValid
      wake-AllKeep refl

pop_missed_example :
    Waiting.GaveUp 3
      (late ∷ [])
      (3 + 20)
      ("default" ∷ [])
      (pop (late ∷ []) ("default" ∷ []) 20 3 (fresh 60)).1
unfolding pop Dict.get
pop_missed_example =
    Waiting.pop_missed (late ∷ []) ("default" ∷ []) 20 3 (fresh 60) fresh-IsValid late-AllKeep refl

pop_returns_example : (pop (late ∷ []) ("default" ∷ []) 20 3 (fresh 60)).0 ≢ asleep
pop_returns_example =
    Waiting.pop_returns (late ∷ []) ("default" ∷ []) 20 3 (fresh 60) (inl (omega arith))

-- A job that always fails, with three tries.
abbrev failing : JobClass
failing = record {
  tries = some 3;
  max_attempts = none;
  timeout = none;
  backoff = some (5 ∷ 30 ∷ []);
  retry_until = none;
}

abbrev policy : EffectivePolicy
policy = record { tries = 3; timeout = 60; backoff = 5 ∷ 30 ∷ [] }

abbrev retried : JobRecord
retried = record first_job { attempts = 1; available_at = 15 }

Chain-le-tries_example :
    (retried.attempts ≡ first_job.attempts + 1)
    × (retried.id ≡ first_job.id)
    × (retried.payload_json ≡ first_job.payload_json)
    × (first_job.attempts + 1 + 1 ≤ max (first_job.attempts + 1) policy.tries)
unfolding retry_of
Chain-le-tries_example = Retries.Chain-le-tries failing policy first_job (again 10 start refl)

Chain_complete_example : (last : JobRecord) × Retries.Chain failing policy first_job 2 last
Chain_complete_example = Retries.Chain_complete failing policy first_job 2 10 refl (omega arith)

retry_of_lem_run :
    ((retry : JobRecord) × (retry_of failing policy 10 retried ≡ some retry)
      × Retries.IsRetry policy 10 retried retry
      × (retried.attempts + 1 < policy.tries)
      × (expired failing.retry_until retried 10 ≡ false))
    ⊎ ((retry_of failing policy 10 retried ≡ none)
        × ((policy.tries ≤ retried.attempts + 1) ⊎ (expired failing.retry_until retried 10 ≡ true)))
retry_of_lem_run = Retries.retry_of_lem failing policy 10 retried

delay_seconds_lem_run :
    get_elem? (5 ∷ 30 ∷ []) (min (4 - 1) (length {A = ℕ} (5 ∷ 30 ∷ []) - 1))
    ≡ some (delay_seconds (5 ∷ 30 ∷ []) 4)
delay_seconds_lem_run = Retries.delay_seconds_lem (5 ∷ 30 ∷ []) 4 (λ e. cc)

abbrev world : World
world = record {
  prepare = λ job. ready failing;
  run = λ job. record { duration = 2; error = some "boom" };
  queues_config = none;
}

abbrev after_delivery : MemoryQueue
after_delivery = record two_pending {
  heaps =
      Dict.put two_pending.heaps "default"
        (record { available_at = 9; seq = 1; job = second_job } ∷ []);
}

delivery : Delivery.Delivery 6 ("default" ∷ []) two_pending after_delivery first_job
unfolding Dict.get push Dict.put pylar_framework.Queue.Memory.Heap.heappush
    pylar_framework.Queue.Memory.Heap.before
delivery = record {
  ahead = [];
  name = "default";
  behind = [];
  entry = record { available_at = 5; seq = 0; job = first_job };
  rest = record { available_at = 9; seq = 1; job = second_job } ∷ [];
  order = refl;
  not_ahead = tt;
  head = refl;
  due = omega arith;
  holds = refl;
  after = refl;
}

holdings-Delivery-process_example :
    Settling.holdings "a" (process world 8 first_job after_delivery).1
    ≡ Settling.holdings "a" two_pending
unfolding Dict.get push
holdings-Delivery-process_example =
    Settling.holdings-Delivery-process "a" world 6 8 ("default" ∷ []) two_pending after_delivery
      first_job delivery refl

retry_failed_moves_run :
    ((retry_failed none (fail 9 first_job "boom" (fresh 60))).1.failed_pool ≡ [])
    × (Conservation.pending_tally
          (Pages.of_id "a")
          (retry_failed none (fail 9 first_job "boom" (fresh 60))).1.heaps
        ≡ Conservation.pending_tally (Pages.of_id "a") (fail 9 first_job "boom" (fresh 60)).heaps
          + Conservation.failed_tally
              (Pages.of_id "a")
              (Dict.values (fail 9 first_job "boom" (fresh 60)).failed_pool))
    × ((retry_failed none (fail 9 first_job "boom" (fresh 60))).0
        ≡ length (fail 9 first_job "boom" (fresh 60)).failed_pool)
retry_failed_moves_run =
    Conservation.retry_failed_moves (Pages.of_id "a") (fail 9 first_job "boom" (fresh 60))

push_last_run :
    bucket (push second_job one_pending).heaps "default"
    ≡ bucket one_pending.heaps "default"
      ++ record { available_at = 9; seq = one_pending.counter; job = second_job } ∷ []
unfolding Dict.get push Dict.put pylar_framework.Queue.Memory.Heap.heappush
push_last_run = Pages.push_last second_job one_pending one_pending-IsValid (omega arith, tt)

pending_records_pages_run :
    (pending_records "default" 1 0 two_pending ++ pending_records "default" 1 (0 + 1) two_pending
      ≡ pending_records "default" (1 + 1) 0 two_pending)
    × (pending_records "default" (size "default" two_pending) 0 two_pending
        ≡ map (λ e. e.job) (bucket two_pending.heaps "default"))
pending_records_pages_run =
    Pages.pending_records_pages "default" 1 1 0 two_pending two_pending-IsValid

tally-forget_pending_run :
    Heap.tally
        (Pages.of_id "b")
        (bucket (forget_pending "default" "a" two_pending).1.heaps "default")
      + Heap.tally
          (λ job. Pages.of_id "b" job && str_eq job.id "a")
          (bucket two_pending.heaps "default")
    ≡ Heap.tally (Pages.of_id "b") (bucket two_pending.heaps "default")
tally-forget_pending_run = Pages.tally-forget_pending "default" "a" (Pages.of_id "b") two_pending

recent_records_newest_run :
    Recent.AllSince (90 - 60) (bucket (prune_recent 90 "default" two_pending).recent "default")
    × ((recent_records 90 "default" 1 0
          (record_completed 90 first_job completed none two_pending)).0
        ≡ record { job = first_job; status = completed; completed_at = 90; error = none } ∷ [])
unfolding push
recent_records_newest_run = Recent.recent_records_newest 90 first_job completed none two_pending

-- A rate limiter over an empty cache, and a job that leaves the cache alone.
abbrev cache : Cache MemoryCacheStore
cache = record { store = Memory.fresh; tag_index = [] }

cache-IsValid : MemoryViews.IsValid Memory.fresh
cache-IsValid = record { unique = tt; counted = omega arith }

abbrev idle_job : Next memory
idle_job now c = (done tt, c)

idle_job-LeavesAlone : RateLimit.LeavesAlone memory "limit" idle_job
idle_job-LeavesAlone = record { valid = λ now c v. v; untouched = λ now t c le. refl }

runs_in_window_example :
    RateLimit.runs_of memory "limit" idle_job idle_job-LeavesAlone 2 10 (0 ∷ 3 ∷ 4 ∷ []) cache
    ≡ min 3 2
unfolding MemoryViews.view Dict.get
runs_in_window_example =
    RateLimit.runs_in_window memory "limit" idle_job idle_job-LeavesAlone 2 10 0 (3 ∷ 4 ∷ []) cache
      cache-IsValid refl (omega arith, (omega arith, tt)) (omega arith, (omega arith, tt))

abbrev spent : Cache MemoryCacheStore
spent = record {
  store = record {
    entries = ("limit", record { value = int (pos 2); expires_at = none }) ∷ [];
    gc_counter = 2;
  };
  tag_index = [];
}

spent-IsValid : MemoryViews.IsValid spent.store
unfolding Dict.get
spent-IsValid = record { unique = (refl, tt); counted = omega arith }

runs_none_example :
    RateLimit.runs_of memory "limit" idle_job idle_job-LeavesAlone 2 10 (1000 ∷ 2000 ∷ []) spent ≡ 0
unfolding MemoryViews.view Dict.get Memory.expired
runs_none_example =
    RateLimit.runs_none memory "limit" idle_job idle_job-LeavesAlone 2 10 2 1000 (2000 ∷ []) spent
      spent-IsValid refl (omega arith) (omega arith, tt)

-- A job that is delayed by 60, and looked for a little too early.
scan-dispatch_example :
    (scan 159
      ("mail" ∷ [])
      none
      (Dispatcher.dispatch "id1"
        (record { qualified = "app.Mail"; queue = some "mail" })
        "{}"
        (some 60)
        none
        100
        (fresh 9)).1).0
    ≡ (if leb (100 + 60) 159
        then some (record {
          id = "id1";
          job_class = "app.Mail";
          payload_json = "{}";
          queue = "mail";
          attempts = 0;
          queued_at = 100;
          available_at = 100 + 60;
        })
        else none)
unfolding Dict.get Dispatcher.dispatch scan
scan-dispatch_example =
    Delay.scan-dispatch "id1" "{}" (record { qualified = "app.Mail"; queue = some "mail" })
      (some 60) none 100 159 "mail" (fresh 9) (inr (refl, inl refl)) refl
