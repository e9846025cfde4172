-- ===== src/Queue/Worker/Retries.antt =====
-- The retry policy: how often a record runs, how long it waits, and which policy counts.
use pylar_framework.Queue.Record.{JobRecord}
use pylar_framework.Queue.Worker.{JobClass, EffectivePolicy, delay_seconds, expired, retry_of}
use pylar_framework.Prelude.{
  Bool-cases, List, Option, [], arith, false, get_elem?, get_or, inl, inr, leb, leb→le, length, max,
  min, none, refl, some, suc, true, zero, ℕ, ◌+◌, ◌-◌, ◌<◌, ◌∙◌, ◌∷◌, ◌≡◌, ◌≢◌, ◌≤◌, ◌⊎◌,
}

-- A retry is the same job with one more attempt, which waits for the delay of that attempt.
pub record IsRetry (policy : EffectivePolicy) (now : ℕ) (job retry : JobRecord) : Type 0 where
  pub id : retry.id ≡ job.id
  pub job_class : retry.job_class ≡ job.job_class
  pub payload : retry.payload_json ≡ job.payload_json
  pub queue : retry.queue ≡ job.queue
  pub queued_at : retry.queued_at ≡ job.queued_at
  pub attempts : retry.attempts ≡ job.attempts + 1
  pub delayed : retry.available_at ≡ now + delay_seconds policy.backoff retry.attempts

-- A failed record runs again exactly if it has an attempt left and the deadline for retries has not
-- passed; the retry differs only in its attempts and its time.
pub retry_of_lem :
    (cls : JobClass) (policy : EffectivePolicy) (now : ℕ) (job : JobRecord)
    → ((retry : JobRecord) × (retry_of cls policy now job ≡ some retry)
        × IsRetry policy now job retry
        × (job.attempts + 1 < policy.tries)
        × (expired cls.retry_until job now ≡ false))
      ⊎ ((retry_of cls policy now job ≡ none)
          × ((policy.tries ≤ job.attempts + 1) ⊎ (expired cls.retry_until job now ≡ true)))
unfolding retry_of
retry_of_lem cls policy now job = elim (Bool-cases (expired cls.retry_until job now)) [
  | inl late ↦ inr (rw late refl, inr late)
  | inr in_time ↦ elim (Bool-cases (leb policy.tries (job.attempts + 1))) [
    | inl spent ↦ inr (rw (in_time, spent) refl, inl (leb→le _ _ spent))
    | inr left ↦ inl (
      record job {
        attempts = job.attempts + 1;
        available_at = now + delay_seconds policy.backoff (job.attempts + 1);
      },
      rw (in_time, left) refl,
      record {
        id = refl;
        job_class = refl;
        payload = refl;
        queue = refl;
        queued_at = refl;
        attempts = refl;
        delayed = refl;
      },
      ground (arith, left),
      in_time,
    )
  ]
]

-- Failed runs one after the other: a record, how often it was queued again, and the last retry.
pub data Chain (cls : JobClass) (policy : EffectivePolicy) (job : JobRecord)
    : ℕ → JobRecord → Type 0 where
  start : Chain cls policy job 0 job
  again :
      (now : ℕ) {n : ℕ} {last retry : JobRecord}
      → Chain cls policy job n last
      → retry_of cls policy now last ≡ some retry
      → Chain cls policy job (suc n) retry

pub IsRetry-step :
    (cls : JobClass) (policy : EffectivePolicy) (now : ℕ) (job retry : JobRecord)
    → retry_of cls policy now job ≡ some retry
    → IsRetry policy now job retry × (job.attempts + 1 < policy.tries)
IsRetry-step cls policy now job retry e = elim (retry_of_lem cls policy now job) [
  | inl (found, f, r, lt, in_time) ↦ let same : found ≡ retry = cc (e, f) in rw (← same) (r, lt)
  | inr (nothing, why) ↦ cc (e, nothing)
]

-- A record that fails again and again keeps its identity and its payload, counts its attempts, and
-- does not run more often than the policy allows: with `n` retries it has run `n` times and runs
-- once more, which is at most `tries` runs in all, or one run where `tries` is smaller.
pub Chain-le-tries :
    (cls : JobClass) (policy : EffectivePolicy) (job : JobRecord) {n : ℕ} {last : JobRecord}
    → Chain cls policy job n last
    → (last.attempts ≡ job.attempts + n)
      × (last.id ≡ job.id)
      × (last.payload_json ≡ job.payload_json)
      × (job.attempts + n + 1 ≤ max (job.attempts + 1) policy.tries)
Chain-le-tries cls policy job start = (omega arith, refl, refl, omega arith)
Chain-le-tries cls policy job (again now {n} {last} {retry} chain e) =
    let ih = Chain-le-tries cls policy job chain in
    let (r, lt) = IsRetry-step cls policy now last retry e in
    (omega (arith, r.attempts, ih), r.id ∙ ih.1, r.payload ∙ ih.2, omega (arith, ih, lt))

expired-none :
    (span : Option ℕ) (job : JobRecord) (now : ℕ) → span ≡ none → expired span job now ≡ false
unfolding expired
expired-none none job now e = refl
expired-none (some d) job now e = cc

-- With no deadline for retries a record that keeps failing does run as often as the policy allows.
pub Chain_complete :
    (cls : JobClass) (policy : EffectivePolicy) (job : JobRecord) (n now : ℕ)
    → cls.retry_until ≡ none
    → job.attempts + n + 1 ≤ max (job.attempts + 1) policy.tries
    → (last : JobRecord) × Chain cls policy job n last
Chain_complete cls policy job zero now e le = (job, start)
Chain_complete cls policy job (suc n) now e le =
    let (last, chain) = Chain_complete cls policy job n now e (omega (arith, le)) in
    let counted = (Chain-le-tries cls policy job chain).0 in
    elim (retry_of_lem cls policy now last) [
      | inl (retry, f, r, lt, in_time) ↦ (retry, again now chain f)
      | inr (nothing, inl spent) ↦ absurd (omega (arith, spent, counted, le))
      | inr (nothing, inr late) ↦ cc (late, expired-none cls.retry_until last now e)
    ]

get_elem?-get_or : (xs : List ℕ) (i d : ℕ) → i < length xs → get_elem? xs i ≡ some (get_or xs i d)
get_elem?-get_or [] i d h = absurd (omega arith)
get_elem?-get_or (x ∷ xs) zero d h = refl
get_elem?-get_or (x ∷ xs) (suc i) d h = get_elem?-get_or xs i d (omega arith)

-- The delay before attempt `k + 1` is the `k`th entry of the backoff, and its last entry once the
-- sequence is exhausted; no index is out of range.
pub delay_seconds_lem :
    (xs : List ℕ) (attempt : ℕ)
    → xs ≢ []
    → get_elem? xs (min (attempt - 1) (length xs - 1)) ≡ some (delay_seconds xs attempt)
unfolding delay_seconds
delay_seconds_lem [] attempt h = absurd (h refl)
delay_seconds_lem (x ∷ xs) attempt h =
    get_elem?-get_or (x ∷ xs) (min (attempt - 1) (length (x ∷ xs) - 1)) 0 (omega arith)
