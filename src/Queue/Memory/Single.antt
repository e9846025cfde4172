-- ===== src/Queue/Memory/Single.antt =====
-- A record that is pushed to a queue with nothing pending.

use pylar_framework.Dict.Laws.{get-put}
use pylar_framework.Queue.Record.{JobRecord}
use pylar_framework.Queue.Memory.{MemoryQueue, HeapEntry, bucket, push, scan}
use pylar_framework.Prelude.{
  Bool-cases, String, [], eq_refl, if◌then◌else◌, inl, inr, leb, none, refl, some, ℕ, ◌∷◌, ◌≡◌,
}

scan-single :
    (name : String) (now : ℕ) (q : MemoryQueue) (only : HeapEntry)
    → bucket q.heaps name ≡ only ∷ []
    → (scan now (name ∷ []) none q).0 ≡ (if leb only.available_at now then some only.job else none)
unfolding scan
scan-single name now q only h = elim (Bool-cases (leb only.available_at now)) [
  | inl due ↦ rw (h, scan, due) refl
  | inr early ↦ rw (h, scan, early) refl
]

-- It is what the next look finds, once its time has come.
pub scan-push :
    (job : JobRecord) (now : ℕ) (q : MemoryQueue)
    → bucket q.heaps job.queue ≡ []
    → (scan now (job.queue ∷ []) none (push job q)).0
      ≡ (if leb job.available_at now then some job else none)
unfolding push pylar_framework.Queue.Memory.Heap.heappush
scan-push job now q h =
    let only : HeapEntry = record { available_at = job.available_at; seq = q.counter; job = job } in
    let heap : bucket (push job q).heaps job.queue ≡ only ∷ [] = rw (get-put, eq_refl, h) refl in
    scan-single job.queue now (push job q) only heap
