-- ===== src/Queue/Config.antt =====
-- pylar/queue/config.py: the policy of a queue. Integers that the code never lets go negative are
-- numbers.
use pylar_framework.Dict
use pylar_framework.Dict.{Dict}
use pylar_framework.Prelude.{List, Option, String, [], none, some, ℕ, ◌∷◌}

pub record QueueConfig : Type 0 where
  pub tries : ℕ
  pub timeout : ℕ
  pub backoff : List ℕ
  pub min_workers : ℕ
  pub max_workers : ℕ
  pub scale_threshold : ℕ
  pub scale_cooldown_seconds : ℕ

abbrev pub default_config : QueueConfig
default_config = record {
  tries = 1;
  timeout = 60;
  backoff = [];
  min_workers = 1;
  max_workers = 1;
  scale_threshold = 50;
  scale_cooldown_seconds = 30;
}

-- DEFAULT_QUEUES
abbrev pub default_queues : Dict QueueConfig
default_queues =
    ("high", record default_config { tries = 5; timeout = 30; backoff = 1 ∷ 5 ∷ 10 ∷ 30 ∷ 60 ∷ [] })
    ∷ ("default", record default_config { tries = 3; timeout = 60; backoff = 5 ∷ 30 ∷ 120 ∷ [] })
    ∷ ("low", record default_config { tries = 1; timeout = 300 })
    ∷ []

pub record QueuesConfig : Type 0 where
  pub queues : Dict QueueConfig
  pub fallback : QueueConfig

or_fallback : Option QueueConfig → QueueConfig → QueueConfig
or_fallback none c = c
or_fallback (some c) d = c

unfoldable pub for_queue : QueuesConfig → String → QueueConfig
unfolding or_fallback
for_queue c name = or_fallback (Dict.get c.queues name) c.fallback

unfoldable pub names : QueuesConfig → List String
names c = Dict.keys c.queues
