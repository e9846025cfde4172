-- ===== src/Queue/Dispatcher/Delay.antt =====
-- When a dispatched job is delivered.

use pylar_framework.Queue.Memory.{MemoryQueue, bucket, scan}
use pylar_framework.Queue.Memory.Single.{scan-push}
use pylar_framework.Queue.Dispatcher.{JobClass, queue_of, available, record_of, dispatch}
use pylar_framework.Prelude.{
  Option, String, [], arith, if◌then◌else◌, leb, none, refl, some, ℕ, ◌+◌, ◌∷◌, ◌≡◌, ◌⊎◌,
}

-- Which queue a job goes to: the one that the call names, else that of its class, else "default".
abbrev pub GoesTo : Option String → Option String → String → Type 0
GoesTo queue own name =
    (queue ≡ some name)
    ⊎ ((queue ≡ none) × ((own ≡ some name) ⊎ ((own ≡ none) × (name ≡ "default"))))

queue_of-GoesTo :
    (queue own : Option String) (name : String) → GoesTo queue own name → queue_of queue own ≡ name
unfolding queue_of
queue_of-GoesTo (some given) own name h = ground (arith, h)
queue_of-GoesTo none (some class_queue) name h = ground (arith, h)
queue_of-GoesTo none none name h = ground (arith, h)

-- The time that a delay adds.
abbrev pub wait : Option ℕ → ℕ
wait none = 0
wait (some delay) = delay

available-wait : (now : ℕ) (delay : Option ℕ) → available now delay ≡ now + wait delay
unfolding available
available-wait now none = omega arith
available-wait now (some delay) = refl

-- A job that is dispatched to a queue with nothing pending is delivered by a look at that queue from
-- the end of its delay on, at once where it has none, and not before; and what is delivered has the
-- id, the class and the payload of the call, and no attempt so far. The queue is the one that the call
-- names, else that of the class, else "default".
pub scan-dispatch :
    (id payload : String) (job_cls : JobClass) (delay : Option ℕ) (queue : Option String)
    (now later : ℕ) (name : String) (q : MemoryQueue)
    → GoesTo queue job_cls.queue name
    → bucket q.heaps name ≡ []
    → (scan later (name ∷ []) none (dispatch id job_cls payload delay queue now q).1).0 ≡ (
        if leb (now + wait delay) later
        then some (record {
          id = id;
          job_class = job_cls.qualified;
          payload_json = payload;
          queue = name;
          attempts = 0;
          queued_at = now;
          available_at = now + wait delay;
        })
        else none)
unfolding dispatch record_of
scan-dispatch id payload job_cls delay queue now later name q goes h =
    let to = queue_of-GoesTo queue job_cls.queue name goes in
    let at = available-wait now delay in
    rw (to, at)
      (scan-push
        (record {
          id = id;
          job_class = job_cls.qualified;
          payload_json = payload;
          queue = name;
          attempts = 0;
          queued_at = now;
          available_at = now + wait delay;
        })
        later q h)
