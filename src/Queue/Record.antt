-- ===== src/Queue/Record.antt =====
-- pylar/queue/record.py and queue.py: what crosses the queue, and what its pools hold. A `datetime`
-- is a number of ticks.
use pylar_framework.Prelude.{Option, String, ℕ}

pub record JobRecord : Type 0 where
  pub id : String
  pub job_class : String
  pub payload_json : String
  pub queue : String
  pub attempts : ℕ
  pub queued_at : ℕ
  pub available_at : ℕ

pub data RecentStatus : Type 0 where
  completed failed cancelled : RecentStatus

pub record RecentJob : Type 0 where
  pub job : JobRecord
  pub status : RecentStatus
  pub completed_at : ℕ
  pub error : Option String

pub record FailedJob : Type 0 where
  pub job : JobRecord
  pub error : String
  pub failed_at : ℕ
