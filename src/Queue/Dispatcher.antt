-- ===== src/Queue/Dispatcher.antt =====
-- pylar/queue/dispatcher.py: `Dispatcher`, over the in-process driver, and the recording
-- `FakeDispatcher`. The id of a record is a fresh UUID, and the payload is its JSON text.
pub mod Delay
use pylar_framework.Queue.Record.{JobRecord}
use pylar_framework.Queue.Memory.{MemoryQueue, push}
use pylar_framework.Prelude.{
  Bool, List, Option, String, [], if◌then◌else◌, length, none, not, some, str_eq, ℕ, ◌++◌, ◌+◌,
  ◌==◌, ◌∷◌,
}

-- A job class: its qualified name, and its queue, if it names one.
pub record JobClass : Type 0 where
  pub qualified : String
  pub queue : Option String

pub queue_of : Option String → Option String → String
queue_of (some name) own = name
queue_of none (some name) = name
queue_of none none = "default"

pub available : ℕ → Option ℕ → ℕ
available now none = now
available now (some delay) = now + delay

unfoldable pub record_of : String → JobClass → String → Option ℕ → Option String → ℕ → JobRecord
unfolding queue_of available
record_of id job_cls payload delay queue now = record {
  id = id;
  job_class = job_cls.qualified;
  payload_json = payload;
  queue = queue_of queue job_cls.queue;
  attempts = 0;
  queued_at = now;
  available_at = available now delay;
}

unfoldable pub dispatch :
    String
    → JobClass
    → String
    → Option ℕ
    → Option String
    → ℕ
    → MemoryQueue
    → JobRecord × MemoryQueue
unfolding record_of
dispatch id job_cls payload delay queue now q =
    let job = record_of id job_cls payload delay queue now in (job, push job q)

-- A recorded call: the class, the payload, the delay and the queue.
pub record Call : Type 0 where
  pub job_class : String
  pub payload : String
  pub delay : Option ℕ
  pub queue : String

unfoldable pub fake_dispatch :
    String → JobClass → String → Option ℕ → Option String → ℕ → List Call → JobRecord × List Call
unfolding record_of queue_of
fake_dispatch id job_cls payload delay queue now calls = (
  record_of id job_cls payload delay queue now,
  calls
      ++ record {
        job_class = job_cls.qualified;
        payload = payload;
        delay = delay;
        queue = queue_of queue job_cls.queue;
      }
        ∷ [],
)

unfoldable pub dispatched : Option String → List Call → List String
dispatched filter [] = []
dispatched none (call ∷ calls) = call.payload ∷ dispatched none calls
dispatched (some name) (call ∷ calls) =
    let rest = dispatched (some name) calls in
    if str_eq call.job_class name then call.payload ∷ rest else rest

-- Whether an assertion passes.
unfoldable pub assert_dispatched : String → Option ℕ → List Call → Bool
unfolding dispatched
assert_dispatched name none calls = not (length (dispatched (some name) calls) == 0)
assert_dispatched name (some times) calls = length (dispatched (some name) calls) == times

unfoldable pub assert_not_dispatched : String → List Call → Bool
unfolding dispatched
assert_not_dispatched name calls = length (dispatched (some name) calls) == 0
