-- ===== src/Queue/Worker/Settling.antt =====
-- Where a record that a worker takes goes: to the acknowledged, the failed or the pending ones.
use pylar_framework.Dict
use pylar_framework.Dict.{Dict}
use pylar_framework.Queue.Record.{JobRecord, FailedJob, RecentStatus, completed, failed}
use pylar_framework.Queue.Memory.{MemoryQueue, push, fail, ack, record_completed, prune_recent}
use pylar_framework.Queue.Memory.Pages.{of_id}
use pylar_framework.Queue.Memory.Conservation.{
  pending_tally, failed_tally, pending_tally-push, pending_tally-Delivery,
}
use pylar_framework.Queue.Memory.Delivery.{Delivery}
use pylar_framework.Queue.Worker.{
  JobClass, EffectivePolicy, World, Prepared, ready, broken, retry_of, settle_failure,
  handle_failure, resolve_policy, process_ready, process_prepared, process,
}
use pylar_framework.Queue.Worker.Retries.{IsRetry-step}
use pylar_framework.Prelude.{
  Bool, List, Option, String, [], ap, arith, if◌then◌else◌, none, refl, some, ℕ, ◌++◌, ◌+◌, ◌∙◌,
  ◌∷◌, ◌≡◌,
}

-- How many acknowledged records pass the test.
unfoldable pub acked_tally : (JobRecord → Bool) → List JobRecord → ℕ
acked_tally test [] = 0
acked_tally test (job ∷ jobs) =
    let rest = acked_tally test jobs in if test job then rest + 1 else rest

acked_tally-append :
    (test : JobRecord → Bool) (xs : List JobRecord) (job : JobRecord)
    → acked_tally test (xs ++ job ∷ []) ≡ acked_tally test xs + (if test job then 1 else 0)
unfolding acked_tally
acked_tally-append test [] job = ground arith
acked_tally-append test (x ∷ xs) job = ground (arith, acked_tally-append test xs job)

-- How often an id stands in the driver: pending, acknowledged or failed.
abbrev pub holdings : String → MemoryQueue → ℕ
holdings id q =
    pending_tally (of_id id) q.heaps
    + acked_tally (of_id id) q.acked
    + failed_tally (of_id id) (Dict.values q.failed_pool)

failed_tally-put :
    (test : JobRecord → Bool) (d : Dict FailedJob) (k : String) (entry : FailedJob)
    → Dict.get d k ≡ none
    → failed_tally test (Dict.values (Dict.put d k entry))
      ≡ failed_tally test (Dict.values d) + (if test entry.job then 1 else 0)
unfolding failed_tally Dict.values Dict.put Dict.get
failed_tally-put test [] k entry h = ground arith
failed_tally-put test ((j, e) ∷ d) k entry h = ground (arith, failed_tally-put test d k entry)

-- The recent history is no holding.
holdings-record_completed :
    (id : String) (now : ℕ) (job : JobRecord) (status : RecentStatus) (error : Option String)
    (q : MemoryQueue)
    → holdings id (record_completed now job status error q) ≡ holdings id q
unfolding record_completed prune_recent
holdings-record_completed id now job status error q = ground arith

module _ (id : String) where
  abbrev one : JobRecord → ℕ
  one job = if of_id id job then 1 else 0

  holdings-fail :
      (now : ℕ) (job : JobRecord) (message : String) (q : MemoryQueue)
      → Dict.get q.failed_pool job.id ≡ none
      → holdings id (fail now job message q) ≡ holdings id q + one job
  unfolding fail
  holdings-fail now job message q h =
      let entry : FailedJob = record { job = job; error = message; failed_at = now } in
      let parked : MemoryQueue = record q { failed_pool = Dict.put q.failed_pool job.id entry } in
      omega (
        arith,
        holdings-record_completed id now job failed (some message) parked,
        failed_tally-put (of_id id) q.failed_pool job.id entry h,
      )

  holdings-ack :
      (job : JobRecord) (q : MemoryQueue) → holdings id (ack job q) ≡ holdings id q + one job
  unfolding ack
  holdings-ack job q = omega (arith, acked_tally-append (of_id id) q.acked job)

  holdings-push :
      (job : JobRecord) (q : MemoryQueue) → holdings id (push job q) ≡ holdings id q + one job
  unfolding push
  holdings-push job q = omega (arith, pending_tally-push (of_id id) job q)

  one-retry :
      (cls : JobClass) (policy : EffectivePolicy) (now : ℕ) (job retry : JobRecord)
      → retry_of cls policy now job ≡ some retry
      → one retry ≡ one job
  one-retry cls policy now job retry e =
      let (r, lt) = IsRetry-step cls policy now job retry e in unfold of_id in rw r.id

  holdings-settle_failure :
      (cls : JobClass) (policy : EffectivePolicy) (now : ℕ) (message : String) (job : JobRecord)
      (found : Option JobRecord) (q : MemoryQueue)
      → retry_of cls policy now job ≡ found
      → Dict.get q.failed_pool job.id ≡ none
      → holdings id (settle_failure now message job found q) ≡ holdings id q + one job
  unfolding settle_failure
  holdings-settle_failure cls policy now message job none q e h = holdings-fail now job message q h
  holdings-settle_failure cls policy now message job (some retry) q e h =
      holdings-push retry q ∙ rw (one-retry cls policy now job retry e)

  holdings-process_ready :
      (cls : JobClass) (policy : EffectivePolicy) (now : ℕ) (error : Option String)
      (job : JobRecord) (q : MemoryQueue)
      → Dict.get q.failed_pool job.id ≡ none
      → holdings id (process_ready cls policy now error job q).1 ≡ holdings id q + one job
  unfolding process_ready handle_failure
  holdings-process_ready cls policy now none job q h =
      holdings-record_completed id now job completed none (ack job q) ∙ holdings-ack job q
  holdings-process_ready cls policy now (some message) job q h =
      holdings-settle_failure cls policy now message job (retry_of cls policy now job) q refl h

  holdings-process_prepared :
      (w : World) (now : ℕ) (p : Prepared) (job : JobRecord) (q : MemoryQueue)
      → Dict.get q.failed_pool job.id ≡ none
      → holdings id (process_prepared w now p job q).1 ≡ holdings id q + one job
  unfolding process_prepared
  holdings-process_prepared w now (broken message) job q h = holdings-fail now job message q h
  holdings-process_prepared w now (ready cls) job q h =
      holdings-process_ready cls (resolve_policy w.queues_config job cls) now _ job q h

  -- `process` puts its record into exactly one place, once, whatever comes of it.
  pub holdings-process :
      (w : World) (now : ℕ) (job : JobRecord) (q : MemoryQueue)
      → Dict.get q.failed_pool job.id ≡ none
      → holdings id (process w now job q).1 ≡ holdings id q + one job
  unfolding process
  holdings-process w now job q h = holdings-process_prepared w now (w.prepare job) job q h

  -- A record that is delivered and then processed is not lost and not doubled: every id stands as
  -- often in the driver as before, if the record's id does not stand in the failed pool.
  pub holdings-Delivery-process :
      (w : World) (now later : ℕ) (names : List String) (q q' : MemoryQueue) (job : JobRecord)
      → Delivery now names q q' job
      → Dict.get q.failed_pool job.id ≡ none
      → holdings id (process w later job q').1 ≡ holdings id q
  holdings-Delivery-process w now later names q q' job d h =
      let failed_same : q'.failed_pool ≡ q.failed_pool = rw d.after in
      let acked_same : q'.acked ≡ q.acked = rw d.after in
      let h' : Dict.get q'.failed_pool job.id ≡ none = rw failed_same h in
      omega (
        arith,
        holdings-process w later job q' h',
        pending_tally-Delivery (of_id id) now names q q' job d,
        ap (λ (p : Dict FailedJob). failed_tally (of_id id) (Dict.values p)) failed_same,
        ap (acked_tally (of_id id)) acked_same,
      )
