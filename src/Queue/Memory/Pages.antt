-- ===== src/Queue/Memory/Pages.antt =====
-- The views of the admin panel and the removal of one pending record; the order of delivery.
use mathlib.Core.List.{map-append}
use pylar_framework.Queue.Record.{JobRecord}
use pylar_framework.Queue.Memory.{
  MemoryQueue, bucket, push, pending_records, without_id, forget_pending, size,
}
use pylar_framework.Queue.Memory.Heap.{
  HeapEntry, before, heappush, heapify, heapify_sorted, tally, tally-heapify,
}
use pylar_framework.Queue.Memory.Invariant.{IsValid, AllEntries, bucket-put}
use pylar_framework.Prelude.{
  Bool, Bool-cases, List, String, [], ap, arith, drop, eq_refl, false, inl, inr, length, map, not,
  refl, str_eq, suc, sym, take, zero, ℕ, ◌&&◌, ◌++◌, ◌+◌, ◌==◌, ◌∙◌, ◌∷◌, ◌≡◌, ◌≤◌,
}

-- Every entry of the list gets available no later than `t`.
abbrev pub AllBy : ℕ → List HeapEntry → Type 0
AllBy t [] = Unit
AllBy t (e ∷ es) = (e.available_at ≤ t) × AllBy t es

heappush_last :
    (e : HeapEntry) (name : String) (es : List HeapEntry)
    → AllBy e.available_at es
    → AllEntries e.seq name es
    → heappush e es ≡ es ++ e ∷ []
unfolding heappush before
heappush_last e name [] by all = refl
heappush_last e name (x ∷ es) by all =
    ground (arith, heappush_last e name es by.1 all.1, all.0.numbered)

-- First in, first out, with valid heaps: a record that gets available no sooner than the pending records of its queue
-- goes behind all of them.
pub push_last :
    (job : JobRecord) (q : MemoryQueue)
    → IsValid q
    → AllBy job.available_at (bucket q.heaps job.queue)
    → bucket (push job q).heaps job.queue
      ≡ bucket q.heaps job.queue
        ++ record { available_at = job.available_at; seq = q.counter; job = job } ∷ []
unfolding push
push_last job q v by =
    let e : HeapEntry = record { available_at = job.available_at; seq = q.counter; job = job } in
    let heap = bucket q.heaps job.queue in
    rw (bucket-put q.heaps job.queue job.queue (heappush e heap), eq_refl job.queue)
      (heappush_last e job.queue heap by (v.heap job.queue).1)

-- `push` leaves the other queues alone.
pub push_other :
    (job : JobRecord) (q : MemoryQueue) (name : String)
    → str_eq job.queue name ≡ false
    → bucket (push job q).heaps name ≡ bucket q.heaps name
unfolding push
push_other job q name ne =
    let e : HeapEntry = record { available_at = job.available_at; seq = q.counter; job = job } in
    rw (bucket-put q.heaps job.queue name (heappush e (bucket q.heaps job.queue)), ne)

module _ {ℓ} {A : Type ℓ} where
  drop_nil : (n : ℕ) → drop {A = A} n [] ≡ []
  drop_nil zero = refl
  drop_nil (suc n) = refl

  take_nil : (n : ℕ) → take {A = A} n [] ≡ []
  take_nil zero = refl
  take_nil (suc n) = refl

  drop-drop : (k n : ℕ) (xs : List A) → drop (k + n) xs ≡ drop n (drop k xs)
  drop-drop zero n xs = ap (λ i. drop i xs) (omega arith)
  drop-drop (suc k) n [] = let e : suc k + n ≡ suc (k + n) = omega arith in rw e (sym (drop_nil n))
  drop-drop (suc k) n (x ∷ xs) =
      let e : suc k + n ≡ suc (k + n) = omega arith in rw e (drop-drop k n xs)

  take-take : (n m : ℕ) (xs : List A) → take n xs ++ take m (drop n xs) ≡ take (n + m) xs
  take-take zero m xs = ap (λ i. take i xs) (omega arith)
  take-take (suc n) m [] = let e : suc n + m ≡ suc (n + m) = omega arith in rw e (take_nil m)
  take-take (suc n) m (x ∷ xs) =
      let e : suc n + m ≡ suc (n + m) = omega arith in rw e (ap (λ l. x ∷ l) (take-take n m xs))

  take_pages :
      (n m k : ℕ) (xs : List A)
      → take n (drop k xs) ++ take m (drop (k + n) xs) ≡ take (n + m) (drop k xs)
  take_pages n m k xs = rw (drop-drop k n xs) (take-take n m (drop k xs))

  take_all : (xs : List A) → take (length xs) xs ≡ xs
  take_all [] = refl
  take_all (x ∷ xs) = ap (λ l. x ∷ l) (take_all xs)

-- With valid heaps, the pages of `pending_records` follow one another without a gap or an overlap, and the first page
-- of the size of the queue lists all pending records in the order in which `pop` will deliver them.
pub pending_records_pages :
    (name : String) (n m k : ℕ) (q : MemoryQueue)
    → IsValid q
    → (pending_records name n k q ++ pending_records name m (k + n) q
        ≡ pending_records name (n + m) k q)
      × (pending_records name (size name q) 0 q ≡ map (λ e. e.job) (bucket q.heaps name))
unfolding pending_records size
pending_records_pages name n m k q v =
    let heap = bucket q.heaps name in
    (
      sym (map-append (λ (e : HeapEntry). e.job) (take n (drop k (heapify heap))) _)
          ∙ ap (map (λ (e : HeapEntry). e.job)) (take_pages n m k (heapify heap)),
      rw (heapify_sorted heap (v.heap name).0)
          (ap (map (λ (e : HeapEntry). e.job)) (take_all heap)),
    )

-- No entry of the list holds a record of that id.
abbrev pub NoneOf : String → List HeapEntry → Type 0
NoneOf id [] = Unit
NoneOf id (e ∷ es) = (str_eq e.job.id id ≡ false) × NoneOf id es

unfoldable pub of_id : String → JobRecord → Bool
of_id id job = str_eq job.id id

length-without_id :
    (id : String) (es : List HeapEntry)
    → length es ≡ length (without_id id es) + tally (of_id id) es
unfolding without_id tally of_id
length-without_id id [] = omega arith
length-without_id id (e ∷ es) = ground (arith, length-without_id id es)

tally-without_id :
    (id : String) (test : JobRecord → Bool) (es : List HeapEntry)
    → tally test (without_id id es) + tally (λ job. test job && str_eq job.id id) es ≡ tally test es
unfolding without_id tally
tally-without_id id test [] = omega arith
tally-without_id id test (e ∷ es) = ground (arith, tally-without_id id test es)

tally_and :
    (id : String) (test : JobRecord → Bool) (es : List HeapEntry)
    → tally (λ job. test job && str_eq job.id id) es ≤ tally (of_id id) es
unfolding tally of_id
tally_and id test [] = omega arith
tally_and id test (e ∷ es) = ground (arith, tally_and id test es)

-- `forget_pending` answers whether the queue holds the id.
pub forget_pending-eq-held :
    (name id : String) (q : MemoryQueue)
    → (forget_pending name id q).0 ≡ not (tally (of_id id) (bucket q.heaps name) == 0)
unfolding forget_pending
forget_pending-eq-held name id q = ground (arith, length-without_id id (bucket q.heaps name))

-- `forget_pending` drops the records of that id from the queue and keeps every other record: of
-- those that pass a test, just the ones with the id are gone.
pub tally-forget_pending :
    (name id : String) (test : JobRecord → Bool) (q : MemoryQueue)
    → tally test (bucket (forget_pending name id q).1.heaps name)
        + tally (λ job. test job && str_eq job.id id) (bucket q.heaps name)
      ≡ tally test (bucket q.heaps name)
unfolding forget_pending
tally-forget_pending name id test q =
    let heap = bucket q.heaps name in
    let kept = without_id id heap in
    elim (Bool-cases (length kept == length heap)) [
      | inl same ↦ rw same (ground (arith, length-without_id id heap, tally_and id test heap))
      | inr fewer ↦
          rw (fewer, bucket-put q.heaps name name (heapify kept), eq_refl name)
            (rw (tally-heapify test kept) (tally-without_id id test heap))
    ]
