-- ===== src/Queue/Memory/Reach.antt =====
-- Everything that can happen to the in-process driver, in any order.
use pylar_framework.Dict
use pylar_framework.Queue.Record.{JobRecord, RecentStatus, failed}
use pylar_framework.Queue.Memory.{
  MemoryQueue, fresh, push, scan, ack, prune_recent, record_completed, fail, retry_failed,
  forget_failed, flush_failed, prune_failed, clear_pending, recent_size, forget_pending,
  recent_records, report_worker_count, worker_counts,
}
use pylar_framework.Queue.Memory.Invariant.{
  IsValid, same-IsValid, push-IsValid, retry_failed-IsValid, forget_pending-IsValid, scan-IsValid,
}
use pylar_framework.Prelude.{List, Option, String, arith, none, some, ℕ}

prune_recent-IsValid :
    (now : ℕ) (name : String) (q : MemoryQueue) → IsValid q → IsValid (prune_recent now name q)
unfolding prune_recent
prune_recent-IsValid now name q =
    same-IsValid q (prune_recent now name q) (ground arith) (ground arith)

record_completed-IsValid :
    (now : ℕ) (job : JobRecord) (status : RecentStatus) (error : Option String) (q : MemoryQueue)
    → IsValid q
    → IsValid (record_completed now job status error q)
unfolding record_completed
record_completed-IsValid now job status error q v =
    prune_recent-IsValid now job.queue _ (record { heap = v.heap })

-- One operation of the driver. A `pop` is its looks at the heaps, with steps of others between.
pub data Step (q : MemoryQueue) : MemoryQueue → Type 0 where
  pushes : (job : JobRecord) → Step q (push job q)
  looks : (now : ℕ) (names : List String) → Step q (scan now names none q).2
  acks : (job : JobRecord) → Step q (ack job q)
  fails : (now : ℕ) (job : JobRecord) (error : String) → Step q (fail now job error q)
  records :
      (now : ℕ) (job : JobRecord) (status : RecentStatus) (error : Option String)
      → Step q (record_completed now job status error q)
  retries : (id : Option String) → Step q (retry_failed id q).1
  forgets_failed : (id : String) → Step q (forget_failed id q).1
  flushes_failed : Step q (flush_failed q).1
  prunes_failed : (limit : ℕ) → Step q (prune_failed limit q).1
  forgets_pending : (name id : String) → Step q (forget_pending name id q).1
  clears_pending : Step q (clear_pending q).1
  sizes_recent : (now : ℕ) (name : String) → Step q (recent_size now name q).1
  lists_recent :
      (now : ℕ) (name : String) (limit offset : ℕ)
      → Step q (recent_records now name limit offset q).1
  reports :
      (now : ℕ) (name : String) (count ttl : ℕ) → Step q (report_worker_count now name count ttl q)
  reads_counts : (now : ℕ) → Step q (worker_counts now q).1

pub data Reach (q : MemoryQueue) : MemoryQueue → Type 0 where
  here : Reach q q
  next : {p r : MemoryQueue} → Reach q p → Step p r → Reach q r

Step-IsValid : (q : MemoryQueue) {q' : MemoryQueue} → IsValid q → Step q q' → IsValid q'
unfolding ack fail forget_failed flush_failed prune_failed clear_pending recent_size recent_records
    report_worker_count worker_counts Dict.get
Step-IsValid q v (pushes job) = push-IsValid job q v
Step-IsValid q v (looks now names) = scan-IsValid now names none q v
Step-IsValid q v (acks job) = record { heap = v.heap }
Step-IsValid q v (fails now job error) =
    record_completed-IsValid now job failed (some error) _ (record { heap = v.heap })
Step-IsValid q v (records now job status error) = record_completed-IsValid now job status error q v
Step-IsValid q v (retries id) = retry_failed-IsValid id q v
Step-IsValid q v (forgets_failed id) = record { heap = v.heap }
Step-IsValid q v flushes_failed = record { heap = v.heap }
Step-IsValid q v (prunes_failed limit) = record { heap = v.heap }
Step-IsValid q v (forgets_pending name id) = forget_pending-IsValid name id q v
Step-IsValid q v clears_pending = record { heap = λ name. (tt, tt) }
Step-IsValid q v (sizes_recent now name) = prune_recent-IsValid now name q v
Step-IsValid q v (lists_recent now name limit offset) = prune_recent-IsValid now name q v
Step-IsValid q v (reports now name count ttl) = record { heap = v.heap }
Step-IsValid q v (reads_counts now) = record { heap = v.heap }

-- Whatever is done to a new driver, in any order, each of its heaps stays in order, and each of its
-- entries stays filed under its record's queue and time with a number below the counter.
pub Reach-IsValid : (retention : ℕ) (q : MemoryQueue) → Reach (fresh retention) q → IsValid q
unfolding Dict.get
Reach-IsValid retention q here = record { heap = λ name. (tt, tt) }
Reach-IsValid retention q (next {p = p} path step) =
    Step-IsValid p (Reach-IsValid retention p path) step
