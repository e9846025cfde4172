-- ===== src/Queue/Memory/Waiting.antt =====
-- The whole of `pop`, over any sleeps and wake-ups: what it returns, and when it gives up.
use pylar_framework.Queue.Record.{JobRecord}
use pylar_framework.Queue.Memory.{
  MemoryQueue, bucket, scan, has_due_record, wait_seconds, Wake, Popped, returned, missed, asleep,
  pop_loop, pop,
}
use pylar_framework.Queue.Memory.Heap.{IsSorted}
use pylar_framework.Queue.Memory.Invariant.{IsValid}
use pylar_framework.Queue.Memory.Delivery.{
  NoneDueIn, IsFuture, scan-cases, IsIn, delivered, first-NoneDue,
}
use pylar_framework.Prelude.{
  ==_iff, Bool-cases, List, List-cases, Option, String, [], ap, arith, false, inl, inr, leb, max,
  none, not, refl, some, subst, sym, ℕ, ◌&&◌, ◌+◌, ◌<◌, ◌==◌, ◌∙◌, ◌∷◌, ◌≡◌, ◌≢◌, ◌≤◌, ◌⊎◌,
}

-- What the others do in the sleeps keeps the heaps valid.
abbrev pub AllKeep : List Wake → Type 0
AllKeep [] = Unit
AllKeep (w ∷ ws) = ((q : MemoryQueue) → IsValid q → IsValid (w.meanwhile q)) × AllKeep ws

-- The latest time at which `pop` can have looked.
abbrev pub latest : ℕ → List Wake → ℕ
latest now [] = now
latest now (w ∷ ws) = max now (latest w.at ws)

-- One of the sleeps ends at the deadline or later.
abbrev pub Reaches : ℕ → List Wake → Type 0
Reaches deadline [] = ⊥
Reaches deadline (w ∷ ws) = (deadline ≤ w.at) ⊎ Reaches deadline ws

wait_seconds_past :
    (next : Option ℕ) (deadline now : ℕ) → deadline ≤ now → wait_seconds next deadline now ≡ 0
unfolding wait_seconds
wait_seconds_past next deadline now h = ground arith

pop_loop_past :
    (wakes : List Wake) (names : List String) (deadline now : ℕ) (q : MemoryQueue)
    → deadline ≤ now
    → (pop_loop wakes names deadline now q).0 ≢ asleep
unfolding pop_loop
pop_loop_past [] names deadline now q h =
    ground (arith, wait_seconds_past (scan now names none q).1 deadline now h)
pop_loop_past (wake ∷ wakes) names deadline now q h =
    ground (arith, wait_seconds_past (scan now names none q).1 deadline now h)

pop_loop_returns :
    (wakes : List Wake) (names : List String) (deadline now : ℕ) (q : MemoryQueue)
    → Reaches deadline wakes
    → (pop_loop wakes names deadline now q).0 ≢ asleep
unfolding pop_loop
pop_loop_returns [] names deadline now q h = absurd h
pop_loop_returns (wake ∷ wakes) names deadline now q (inl late) = ground (
  arith,
  pop_loop_past wakes names deadline wake.at (wake.meanwhile (scan now names none q).2) late,
)
pop_loop_returns (wake ∷ wakes) names deadline now q (inr more) = ground (
  arith,
  pop_loop_returns wakes names deadline wake.at (wake.meanwhile (scan now names none q).2) more,
)

-- `pop` does not sleep past its timeout: it has returned once a sleep ends at its deadline or later.
pub pop_returns :
    (wakes : List Wake) (names : List String) (timeout now : ℕ) (q : MemoryQueue)
    → Reaches (now + timeout) wakes
    → (pop wakes names timeout now q).0 ≢ asleep
unfolding pop
pop_returns wakes names timeout now q h = pop_loop_returns wakes names (now + timeout) now q h

pop_loop_not_early :
    (wakes : List Wake) (names : List String) (deadline now : ℕ) (q : MemoryQueue) (job : JobRecord)
    → IsValid q
    → AllKeep wakes
    → (pop_loop wakes names deadline now q).0 ≡ returned job
    → (job.available_at ≤ latest now wakes) × IsIn job.queue names
unfolding pop_loop
pop_loop_not_early [] names deadline now q job v k h = elim (scan-cases now names q v) [
  | inl (found, e, d) ↦
      let same : found ≡ job = ground (arith, e) in
      rw (← same) (delivered now names q (scan now names none q).2 found v d)
  | inr (e, same_q, none_due, future) ↦ absurd (ground (arith, e))
]
pop_loop_not_early (wake ∷ wakes) names deadline now q job v k h = elim (scan-cases now names q v) [
  | inl (found, e, d) ↦
      let same : found ≡ job = ground (arith, e) in
      let (due, filed) = delivered now names q (scan now names none q).2 found v d in
      rw (← same) (omega (arith, due), filed)
  | inr (e, same_q, none_due, future) ↦
      let woken = wake.meanwhile (scan now names none q).2 in
      let next : (pop_loop wakes names deadline wake.at woken).0 ≡ returned job =
        ground (arith, e) in
      let (due, filed) =
        pop_loop_not_early wakes names deadline wake.at woken job
          (k.0 (scan now names none q).2 (rw same_q v)) k.1 next in
      (omega (arith, due), filed)
]

-- With valid heaps, which the other coroutines keep valid, a record that `pop` returns was due when `pop` last looked, and is of one of the queues that were
-- asked for.
pub pop_not_early :
    (wakes : List Wake) (names : List String) (timeout now : ℕ) (q : MemoryQueue) (job : JobRecord)
    → IsValid q
    → AllKeep wakes
    → (pop wakes names timeout now q).0 ≡ returned job
    → (job.available_at ≤ latest now wakes) × IsIn job.queue names
unfolding pop
pop_not_early wakes names timeout now q job v k h =
    pop_loop_not_early wakes names (now + timeout) now q job v k h

has_due_record-NoneDueIn :
    (now : ℕ) (names : List String) (q : MemoryQueue)
    → IsValid q
    → has_due_record now names q ≡ false
    → NoneDueIn now q names
unfolding has_due_record
has_due_record-NoneDueIn now [] q v h = tt
has_due_record-NoneDueIn now (name ∷ names) q v h = elim (List-cases (bucket q.heaps name)) [
  | inl empty ↦ (rw empty tt, has_due_record-NoneDueIn now names q v (ground (arith, empty)))
  | inr (e, heap, found) ↦
      let old : IsSorted (e ∷ heap) = rw found at ((v.heap name).0) in
      let future : now < e.available_at = ground (arith, found) in
      (
        rw found (future, first-NoneDue now e heap future old.0),
        has_due_record-NoneDueIn now names q v (ground (arith, found)),
      )
]

-- The wait is over before the deadline only if a record is due.
wait_seconds_over :
    (next : Option ℕ) (deadline now : ℕ)
    → IsFuture now next
    → wait_seconds next deadline now ≡ 0
    → deadline ≤ now
unfolding wait_seconds
wait_seconds_over none deadline now f h = omega arith
wait_seconds_over (some t) deadline now f h = omega arith

-- `pop` looks at this time: at its start, or at the end of one of the sleeps.
abbrev pub IsLook : ℕ → ℕ → List Wake → Type 0
IsLook at now [] = at ≡ now
IsLook at now (w ∷ ws) = (at ≡ now) ⊎ IsLook at w.at ws

IsLook-now : (now : ℕ) (wakes : List Wake) → IsLook now now wakes
IsLook-now now [] = refl
IsLook-now now (w ∷ ws) = inl refl

-- At one of the looks, at the deadline or later, no record of these queues was due.
abbrev pub GaveUp : ℕ → List Wake → ℕ → List String → MemoryQueue → Type 0
GaveUp now wakes deadline names q =
    (at : ℕ) × IsLook at now wakes × (deadline ≤ at) × NoneDueIn at q names

pop_loop_missed :
    (wakes : List Wake) (names : List String) (deadline now : ℕ) (q : MemoryQueue)
    → IsValid q
    → AllKeep wakes
    → (pop_loop wakes names deadline now q).0 ≡ missed
    → GaveUp now wakes deadline names (pop_loop wakes names deadline now q).1
unfolding pop_loop
pop_loop_missed [] names deadline now q v k h = elim (scan-cases now names q v) [
  | inl (found, e, d) ↦ absurd (ground (arith, e))
  | inr (e, same_q, none_due, future) ↦
      let no_wait : wait_seconds (scan now names none q).1 deadline now ≡ 0 = ground (arith, e) in
      let final : (pop_loop [] names deadline now q).1 ≡ q = ground (arith, e, same_q) in
      subst (GaveUp now [] deadline names) (sym final) (
        now,
        refl,
        wait_seconds_over (scan now names none q).1 deadline now future no_wait,
        none_due,
      )
]
pop_loop_missed (wake ∷ wakes) names deadline now q v k h = elim (scan-cases now names q v) [
  | inl (found, e, d) ↦ absurd (ground (arith, e))
  | inr (e, same_q, none_due, future) ↦
      let wait = wait_seconds (scan now names none q).1 deadline now in
      let woken = wake.meanwhile (scan now names none q).2 in
      let valid = k.0 (scan now names none q).2 (rw same_q v) in
      let late =
        not wake.notified && (leb deadline wake.at && not (has_due_record wake.at names woken)) in
      elim (Bool-cases (wait == 0)) [
        | inl no_wait ↦
            let final : (pop_loop (wake ∷ wakes) names deadline now q).1 ≡ q =
              ground (arith, e, no_wait, same_q) in
            subst (GaveUp now (wake ∷ wakes) deadline names) (sym final) (
              now,
              inl refl,
              wait_seconds_over (scan now names none q).1 deadline now future
                  ((==_iff wait 0).0 no_wait),
              none_due,
            )
        | inr more ↦ elim (Bool-cases late) [
          | inl gives_up ↦
              let final : (pop_loop (wake ∷ wakes) names deadline now q).1 ≡ woken =
                ground (arith, e, more, gives_up) in
              subst (GaveUp now (wake ∷ wakes) deadline names) (sym final) (
                wake.at,
                inr (IsLook-now wake.at wakes),
                ground (arith, gives_up),
                has_due_record-NoneDueIn wake.at names woken valid (ground (arith, gives_up)),
              )
          | inr again ↦
              let same : pop_loop (wake ∷ wakes) names deadline now q
                  ≡ pop_loop wakes names deadline wake.at woken =
                ground (arith, e, more, again) in
              let (at, look, passed, none_left) =
                pop_loop_missed wakes names deadline wake.at woken valid k.1
                  (ap (λ (r : Popped × MemoryQueue). r.0) (sym same) ∙ h) in
              subst (λ (r : Popped × MemoryQueue). GaveUp now (wake ∷ wakes) deadline names r.1)
                (sym same) (at, inr look, passed, none_left)
        ]
      ]
]

-- With valid heaps, which the other coroutines keep valid, `pop` gives up only when one of its looks,
-- at its start or at the end of one of its sleeps, is at its deadline or later, and then no record of
-- these queues is due.
pub pop_missed :
    (wakes : List Wake) (names : List String) (timeout now : ℕ) (q : MemoryQueue)
    → IsValid q
    → AllKeep wakes
    → (pop wakes names timeout now q).0 ≡ missed
    → GaveUp now wakes (now + timeout) names (pop wakes names timeout now q).1
unfolding pop
pop_missed wakes names timeout now q v k h = pop_loop_missed wakes names (now + timeout) now q v k h
