-- ===== src/Queue/Memory/Invariant.antt =====
-- The invariant of the driver's heaps, operation by operation.
use pylar_framework.Dict
use pylar_framework.Dict.{Dict}
use pylar_framework.Dict.Laws.{get-put}
use pylar_framework.Queue.Record.{JobRecord, FailedJob}
use pylar_framework.Queue.Memory.{
  MemoryQueue, bucket, push, push_all, retry_failed, retry_found, scan, earlier, without_id,
  forget_pending,
}
use pylar_framework.Queue.Memory.Heap.{
  HeapEntry, before, heappush, heapify, IsSorted, heappush-IsSorted, heapify-IsSorted,
}
use pylar_framework.Prelude.{
  Bool-cases, List, List-cases, Option, String, [], arith, eq_iff, if◌then◌else◌, inl, inr, leb,
  length, none, refl, some, str_eq, ℕ, ◌+◌, ◌<◌, ◌==◌, ◌∷◌, ◌≡◌, ◌≤◌,
}

-- An entry of the queue of that name: numbered below the counter, and filed under its record's
-- queue and time.
pub record IsEntry (counter : ℕ) (name : String) (e : HeapEntry) : Type 0 where
  pub numbered : e.seq < counter
  pub dated : e.available_at ≡ e.job.available_at
  pub filed : e.job.queue ≡ name

abbrev pub AllEntries : ℕ → String → List HeapEntry → Type 0
AllEntries counter name [] = Unit
AllEntries counter name (e ∷ es) = IsEntry counter name e × AllEntries counter name es

abbrev pub IsHeap : ℕ → String → List HeapEntry → Type 0
IsHeap counter name heap = IsSorted heap × AllEntries counter name heap

pub record IsValid (q : MemoryQueue) : Type 0 where
  pub heap : (name : String) → IsHeap q.counter name (bucket q.heaps name)

pub bucket-put :
    {A : Type 0} (d : Dict (List A)) (k j : String) (xs : List A)
    → bucket (Dict.put d k xs) j ≡ (if str_eq k j then xs else bucket d j)
bucket-put d k j xs = ground (arith, get-put d k j xs)

later-AllEntries :
    (n m : ℕ) (name : String) (es : List HeapEntry)
    → n ≤ m
    → AllEntries n name es
    → AllEntries m name es
later-AllEntries n m name [] le h = tt
later-AllEntries n m name (e ∷ es) le h = (
  record { numbered = omega (arith, h.0.numbered); dated = h.0.dated; filed = h.0.filed },
  later-AllEntries n m name es le h.1,
)

heappush-AllEntries :
    (n : ℕ) (name : String) (e : HeapEntry) (es : List HeapEntry)
    → IsEntry n name e
    → AllEntries n name es
    → AllEntries n name (heappush e es)
unfolding heappush
heappush-AllEntries n name e [] new h = (new, tt)
heappush-AllEntries n name e (x ∷ es) new h = elim (Bool-cases (before x e)) [
  | inl lt ↦ rw lt (h.0, heappush-AllEntries n name e es new h.1)
  | inr ge ↦ rw ge (new, h)
]

heapify-AllEntries :
    (n : ℕ) (name : String) (es : List HeapEntry)
    → AllEntries n name es
    → AllEntries n name (heapify es)
unfolding heapify
heapify-AllEntries n name [] h = tt
heapify-AllEntries n name (e ∷ es) h =
    heappush-AllEntries n name e (heapify es) h.0 (heapify-AllEntries n name es h.1)

without_id-AllEntries :
    (n : ℕ) (name id : String) (es : List HeapEntry)
    → AllEntries n name es
    → AllEntries n name (without_id id es)
unfolding without_id
without_id-AllEntries n name id [] h = tt
without_id-AllEntries n name id (e ∷ es) h = elim (Bool-cases (str_eq e.job.id id)) [
  | inl same ↦ rw same (without_id-AllEntries n name id es h.1)
  | inr ne ↦ rw ne (h.0, without_id-AllEntries n name id es h.1)
]

-- One bucket is replaced by a heap, and the counter does not go back.
put-IsHeap :
    (heaps : Dict (List HeapEntry)) (n m : ℕ) (k : String) (heap : List HeapEntry)
    → ((name : String) → IsHeap n name (bucket heaps name))
    → n ≤ m
    → IsHeap m k heap
    → (name : String) → IsHeap m name (bucket (Dict.put heaps k heap) name)
put-IsHeap heaps n m k heap h le new name = elim (Bool-cases (str_eq k name)) [
  | inl same ↦ rw (bucket-put heaps k name heap, same) (rw ((eq_iff k name).0 same) at new)
  | inr ne ↦
      rw (bucket-put heaps k name heap, ne)
        ((h name).0, later-AllEntries n m name (bucket heaps name) le (h name).1)
]

-- `push` keeps the invariant.
pub push-IsValid : (job : JobRecord) (q : MemoryQueue) → IsValid q → IsValid (push job q)
unfolding push
push-IsValid job q v =
    let e : HeapEntry = record { available_at = job.available_at; seq = q.counter; job = job } in
    let old = v.heap job.queue in
    record {
      heap =
          put-IsHeap q.heaps q.counter (q.counter + 1) job.queue
            (heappush e (bucket q.heaps job.queue)) v.heap (omega arith)
            (
              heappush-IsSorted e (bucket q.heaps job.queue) old.0,
              heappush-AllEntries (q.counter + 1) job.queue e (bucket q.heaps job.queue)
                  (record { numbered = omega arith; dated = refl; filed = refl })
                  (later-AllEntries q.counter (q.counter + 1) job.queue (bucket q.heaps job.queue)
                    (omega arith) old.1),
            );
    }

pub push_all-IsValid :
    (entries : List FailedJob) (q : MemoryQueue) → IsValid q → IsValid (push_all entries q)
unfolding push_all
push_all-IsValid [] q v = v
push_all-IsValid (entry ∷ entries) q v =
    push_all-IsValid entries (push entry.job q) (push-IsValid entry.job q v)

-- Only the heaps and the counter matter.
pub same-IsValid :
    (q q' : MemoryQueue) → q'.heaps ≡ q.heaps → q'.counter ≡ q.counter → IsValid q → IsValid q'
same-IsValid q q' e n v = record { heap = λ name. rw (e, n) (v.heap name) }

retry_found-IsValid :
    (id : String) (found : Option FailedJob) (q : MemoryQueue)
    → IsValid q
    → IsValid (retry_found id found q).1
unfolding retry_found
retry_found-IsValid id none q v = v
retry_found-IsValid id (some entry) q v =
    push-IsValid entry.job (record q { failed_pool = Dict.remove q.failed_pool id })
      (record { heap = v.heap })

-- `retry_failed` keeps the invariant, for one record and for all.
pub retry_failed-IsValid :
    (id : Option String) (q : MemoryQueue) → IsValid q → IsValid (retry_failed id q).1
unfolding retry_failed
retry_failed-IsValid none q v =
    push_all-IsValid (Dict.values q.failed_pool) (record q { failed_pool = [] })
      (record { heap = v.heap })
retry_failed-IsValid (some id) q v = retry_found-IsValid id (Dict.get q.failed_pool id) q v

-- `forget_pending` keeps the invariant.
pub forget_pending-IsValid :
    (name id : String) (q : MemoryQueue) → IsValid q → IsValid (forget_pending name id q).1
unfolding forget_pending
forget_pending-IsValid name id q v =
    let heap = bucket q.heaps name in
    let kept = without_id id heap in
    elim (Bool-cases (length kept == length heap)) [
      | inl same ↦ rw same v
      | inr fewer ↦ rw fewer (record {
        heap = put-IsHeap q.heaps q.counter q.counter name (heapify kept) v.heap (omega arith) (
          heapify-IsSorted kept,
          heapify-AllEntries q.counter name kept
              (without_id-AllEntries q.counter name id heap (v.heap name).1),
        );
      })
    ]

-- A look at the heaps keeps the invariant.
pub scan-IsValid :
    (now : ℕ) (names : List String) (next : Option ℕ) (q : MemoryQueue)
    → IsValid q
    → IsValid (scan now names next q).2
unfolding scan
scan-IsValid now [] next q v = v
scan-IsValid now (name ∷ names) next q v = elim (List-cases (bucket q.heaps name)) [
  | inl empty ↦ rw (empty, scan) (scan-IsValid now names next q v)
  | inr (e, heap, found) ↦
      let old : IsHeap q.counter name (e ∷ heap) = rw found at (v.heap name) in
      elim (Bool-cases (leb e.available_at now)) [
        | inl due ↦
            rw (found, scan, due)
              (record {
                heap =
                    put-IsHeap q.heaps q.counter q.counter name heap v.heap (omega arith)
                      (old.0.1, old.1.1);
              })
        | inr later ↦
            rw (found, scan, later)
              (scan-IsValid now names (some (earlier next e.available_at)) q v)
      ]
]
