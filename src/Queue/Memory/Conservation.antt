-- ===== src/Queue/Memory/Conservation.antt =====
-- How many pending and failed records pass a test, before and after each operation. With the test that is always true these are the sizes of the pools.
use pylar_framework.Dict
use pylar_framework.Dict.{Dict}
use pylar_framework.Queue.Record.{JobRecord, FailedJob}
use pylar_framework.Queue.Memory.{MemoryQueue, bucket, push, push_all, retry_failed}
use pylar_framework.Queue.Memory.Heap.{HeapEntry, heappush, tally, tally-heappush}
use pylar_framework.Queue.Memory.Delivery.{Delivery}
use pylar_framework.Prelude.{
  Bool, List, String, [], ap, arith, if◌then◌else◌, length, none, refl, suc, ℕ, ◌+◌, ◌∷◌, ◌≡◌,
}

-- How many pending records pass the test, over all the queues.
unfoldable pub pending_tally : (JobRecord → Bool) → Dict (List HeapEntry) → ℕ
pending_tally test [] = 0
pending_tally test ((name, heap) ∷ heaps) = tally test heap + pending_tally test heaps

-- How many failed records pass the test.
unfoldable pub failed_tally : (JobRecord → Bool) → List FailedJob → ℕ
failed_tally test [] = 0
failed_tally test (entry ∷ entries) =
    let rest = failed_tally test entries in if test entry.job then rest + 1 else rest

module _ (test : JobRecord → Bool) where
  pending_tally-put :
      (heaps : Dict (List HeapEntry)) (k : String) (heap : List HeapEntry)
      → pending_tally test (Dict.put heaps k heap) + tally test (bucket heaps k)
        ≡ pending_tally test heaps + tally test heap
  unfolding pending_tally Dict.put Dict.get tally
  pending_tally-put [] k heap = omega arith
  pending_tally-put ((name, old) ∷ heaps) k heap = ground (arith, pending_tally-put heaps k heap)

  -- `push` adds its record once.
  pub pending_tally-push :
      (job : JobRecord) (q : MemoryQueue)
      → pending_tally test (push job q).heaps
        ≡ pending_tally test q.heaps + (if test job then 1 else 0)
  unfolding push tally
  pending_tally-push job q =
      let e : HeapEntry = record { available_at = job.available_at; seq = q.counter; job = job } in
      let heap = bucket q.heaps job.queue in
      ground
        (arith, pending_tally-put q.heaps job.queue (heappush e heap), tally-heappush test e heap)

  -- A delivery takes its record once, and no other record.
  pub pending_tally-Delivery :
      (now : ℕ) (names : List String) (q q' : MemoryQueue) (job : JobRecord)
      → Delivery now names q q' job
      → pending_tally test q.heaps ≡ pending_tally test q'.heaps + (if test job then 1 else 0)
  unfolding tally
  pending_tally-Delivery now names q q' job d = ground (
    arith,
    pending_tally-put q.heaps d.name d.rest,
    d.head,
    d.holds,
    ap (λ (r : MemoryQueue). pending_tally test r.heaps) d.after,
    ap (tally test) d.head,
  )

  pub pending_tally-push_all :
      (entries : List FailedJob) (q : MemoryQueue)
      → pending_tally test (push_all entries q).heaps
        ≡ pending_tally test q.heaps + failed_tally test entries
  unfolding push_all failed_tally
  pending_tally-push_all [] q = omega arith
  pending_tally-push_all (entry ∷ entries) q =
      ground
        (arith, pending_tally-push_all entries (push entry.job q), pending_tally-push entry.job q)

failed_pool-push_all :
    (entries : List FailedJob) (q : MemoryQueue) → (push_all entries q).failed_pool ≡ q.failed_pool
unfolding push_all push
failed_pool-push_all [] q = refl
failed_pool-push_all (entry ∷ entries) q = failed_pool-push_all entries (push entry.job q)

length-values : {V : Type 0} (d : Dict V) → length (Dict.values d) ≡ length d
unfolding Dict.values
length-values [] = refl
length-values ((k, v) ∷ d) = ap suc (length-values d)

-- `retry_failed` with no id moves every failed record to the pending ones: it empties the failed
-- pool, adds each of its records once, and answers how many there were.
pub retry_failed_moves :
    (test : JobRecord → Bool) (q : MemoryQueue)
    → ((retry_failed none q).1.failed_pool ≡ [])
      × (pending_tally test (retry_failed none q).1.heaps
          ≡ pending_tally test q.heaps + failed_tally test (Dict.values q.failed_pool))
      × ((retry_failed none q).0 ≡ length q.failed_pool)
unfolding retry_failed
retry_failed_moves test q =
    let moved = Dict.values q.failed_pool in
    let cleared : MemoryQueue = record q { failed_pool = [] } in
    (
      failed_pool-push_all moved cleared,
      pending_tally-push_all test moved cleared,
      length-values q.failed_pool,
    )
