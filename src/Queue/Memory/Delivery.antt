-- ===== src/Queue/Memory/Delivery.antt =====
-- What one look of `pop` at the heaps delivers.
use pylar_framework.Dict
use pylar_framework.Queue.Record.{JobRecord}
use pylar_framework.Queue.Memory.{MemoryQueue, bucket, scan, earlier}
use pylar_framework.Queue.Memory.Heap.{HeapEntry, before, IsFirst, IsSorted}
use pylar_framework.Queue.Memory.Invariant.{IsHeap, IsValid}
use pylar_framework.Prelude.{
  Bool-cases, List, List-cases, Option, String, [], ap, arith, inl, inr, leb, leb→le, none, refl,
  some, ℕ, ◌++◌, ◌<◌, ◌∷◌, ◌≡◌, ◌≤◌, ◌⊎◌,
}

-- No entry of the heap is due.
abbrev pub NoneDue : ℕ → List HeapEntry → Type 0
NoneDue now [] = Unit
NoneDue now (e ∷ es) = (now < e.available_at) × NoneDue now es

-- No entry of the queues of these names is due.
abbrev pub NoneDueIn : ℕ → MemoryQueue → List String → Type 0
NoneDueIn now q [] = Unit
NoneDueIn now q (name ∷ names) = NoneDue now (bucket q.heaps name) × NoneDueIn now q names

pub first-NoneDue :
    (now : ℕ) (e : HeapEntry) (es : List HeapEntry)
    → now < e.available_at
    → IsFirst e es
    → NoneDue now es
unfolding before
first-NoneDue now e [] lt f = tt
first-NoneDue now e (x ∷ es) lt f = (ground (arith, f.0), first-NoneDue now e es lt f.1)

-- How a record leaves the queues: it heads the queue of its name, it is due, and no queue before
-- that one has a due record.
pub record Delivery (now : ℕ) (names : List String) (q q' : MemoryQueue) (job : JobRecord)
    : Type 0 where
  pub ahead : List String
  pub name : String
  pub behind : List String
  pub entry : HeapEntry
  pub rest : List HeapEntry
  pub order : names ≡ ahead ++ name ∷ behind
  pub not_ahead : NoneDueIn now q ahead
  pub head : bucket q.heaps name ≡ entry ∷ rest
  pub due : entry.available_at ≤ now
  pub holds : job ≡ entry.job
  pub after : q' ≡ record q { heaps = Dict.put q.heaps name rest }

-- The time of the next record, if there is one, is to come.
abbrev pub IsFuture : ℕ → Option ℕ → Type 0
IsFuture now none = Unit
IsFuture now (some t) = now < t

earlier-IsFuture :
    (now t : ℕ) (next : Option ℕ) → IsFuture now next → now < t → now < earlier next t
earlier-IsFuture now t none h lt = lt
earlier-IsFuture now t (some u) h lt = ground arith

-- What one look at the heaps finds.
pub data Look (now : ℕ) (names : List String) (q : MemoryQueue)
    : Option JobRecord × Option ℕ × MemoryQueue → Type 0 where
  delivers :
      (job : JobRecord) (next : Option ℕ) (q' : MemoryQueue)
      → Delivery now names q q' job
      → Look now names q (some job, next, q')
  nothing :
      (next : Option ℕ)
      → NoneDueIn now q names
      → IsFuture now next
      → Look now names q (none, next, q)

Look-cons :
    (now : ℕ) (name : String) (names : List String) (q : MemoryQueue)
    {r : Option JobRecord × Option ℕ × MemoryQueue}
    → NoneDue now (bucket q.heaps name)
    → Look now names q r
    → Look now (name ∷ names) q r
Look-cons now name names q h (delivers job next q' d) = delivers job next q' (record {
  ahead = name ∷ d.ahead;
  name = d.name;
  behind = d.behind;
  entry = d.entry;
  rest = d.rest;
  order = ap (λ l. name ∷ l) d.order;
  not_ahead = (h, d.not_ahead);
  head = d.head;
  due = d.due;
  holds = d.holds;
  after = d.after;
})
Look-cons now name names q h (nothing next n f) = nothing next (h, n) f

-- One look at valid heaps, with a next time that is to come, delivers the first record of the first queue, in the given order, that
-- has a due record; or it finds nothing, and then no record of these queues is due.
pub scan-Look :
    (now : ℕ) (names : List String) (next : Option ℕ) (q : MemoryQueue)
    → IsValid q
    → IsFuture now next
    → Look now names q (scan now names next q)
unfolding scan
scan-Look now [] next q v f = nothing next tt f
scan-Look now (name ∷ names) next q v f = elim (List-cases (bucket q.heaps name)) [
  | inl empty ↦
      rw (empty, scan) (Look-cons now name names q (rw empty tt) (scan-Look now names next q v f))
  | inr (e, heap, found) ↦
      let old : IsSorted (e ∷ heap) = rw found at ((v.heap name).0) in
      elim (Bool-cases (leb e.available_at now)) [
        | inl due ↦
            rw (found, scan, due)
              (delivers e.job next (record q { heaps = Dict.put q.heaps name heap })
                (record {
                  ahead = [];
                  name = name;
                  behind = names;
                  entry = e;
                  rest = heap;
                  order = refl;
                  not_ahead = tt;
                  head = found;
                  due = leb→le _ _ due;
                  holds = refl;
                  after = refl;
                }))
        | inr later ↦
            let future : now < e.available_at = ground (arith, later) in
            rw (found, scan, later)
              (Look-cons now name names q (rw found (future, first-NoneDue now e heap future old.0))
                (scan-Look now names (some (earlier next e.available_at)) q v
                  (earlier-IsFuture now e.available_at next f future)))
      ]
]

-- The look as equations about its result.
pub scan-cases :
    (now : ℕ) (names : List String) (q : MemoryQueue)
    → IsValid q
    → ((job : JobRecord) × ((scan now names none q).0 ≡ some job)
        × Delivery now names q (scan now names none q).2 job)
      ⊎ (((scan now names none q).0 ≡ none)
          × ((scan now names none q).2 ≡ q)
          × NoneDueIn now q names
          × IsFuture now (scan now names none q).1)
scan-cases now names q v = split (scan-Look now names none q v tt)
  where
    split :
        {r : Option JobRecord × Option ℕ × MemoryQueue}
        → Look now names q r
        → ((job : JobRecord) × (r.0 ≡ some job) × Delivery now names q r.2 job)
          ⊎ ((r.0 ≡ none) × (r.2 ≡ q) × NoneDueIn now q names × IsFuture now r.1)
    split (delivers job next q' d) = inl (job, refl, d)
    split (nothing next n f) = inr (refl, refl, n, f)

-- The name is among the names.
abbrev pub IsIn : String → List String → Type 0
IsIn k [] = ⊥
IsIn k (name ∷ names) = (k ≡ name) ⊎ IsIn k names

IsIn-append : (k : String) (xs ys : List String) → IsIn k (xs ++ k ∷ ys)
IsIn-append k [] ys = inl refl
IsIn-append k (x ∷ xs) ys = inr (IsIn-append k xs ys)

-- A delivered record's own time has come, and its queue is one of those that were asked for.
pub delivered :
    (now : ℕ) (names : List String) (q q' : MemoryQueue) (job : JobRecord)
    → IsValid q
    → Delivery now names q q' job
    → (job.available_at ≤ now) × IsIn job.queue names
delivered now names q q' job v d =
    let own : IsHeap q.counter d.name (d.entry ∷ d.rest) = rw d.head at (v.heap d.name) in
    let e = own.1.0 in
    (
      rw d.holds (omega (arith, e.dated, d.due)),
      rw (d.holds, e.filed, d.order) (IsIn-append d.name d.ahead d.behind),
    )
