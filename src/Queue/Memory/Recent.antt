-- ===== src/Queue/Memory/Recent.antt =====
-- The recent pool: what finished within the retention, newest first.
use mathlib.Core.List.{reverse-append}
use pylar_framework.Dict
use pylar_framework.Queue.Record.{JobRecord, RecentJob, RecentStatus}
use pylar_framework.Queue.Memory.{
  MemoryQueue, bucket, recent_records, record_completed, prune_recent, keep_recent,
}
use pylar_framework.Queue.Memory.Invariant.{bucket-put}
use pylar_framework.Prelude.{
  List, List-cases, Option, String, [], arith, eq_refl, inl, inr, refl, ℕ, ◌++◌, ◌-◌, ◌∷◌, ◌≡◌, ◌≤◌,
}

-- Every record was completed at the time or later.
abbrev pub AllSince : ℕ → List RecentJob → Type 0
AllSince cutoff [] = Unit
AllSince cutoff (r ∷ rs) = (cutoff ≤ r.completed_at) × AllSince cutoff rs

keep_recent-AllSince : (cutoff : ℕ) (rs : List RecentJob) → AllSince cutoff (keep_recent cutoff rs)
unfolding keep_recent
keep_recent-AllSince cutoff [] = tt
keep_recent-AllSince cutoff (r ∷ rs) = ground (arith, keep_recent-AllSince cutoff rs)

keep_recent-append :
    (cutoff : ℕ) (rs : List RecentJob) (r : RecentJob)
    → cutoff ≤ r.completed_at
    → keep_recent cutoff (rs ++ r ∷ []) ≡ keep_recent cutoff rs ++ r ∷ []
unfolding keep_recent
keep_recent-append cutoff [] r h = ground arith
keep_recent-append cutoff (x ∷ rs) r h = ground (arith, keep_recent-append cutoff rs r h)

bucket-prune_recent :
    (now : ℕ) (name : String) (q : MemoryQueue)
    → bucket (prune_recent now name q).recent name
      ≡ keep_recent (now - q.recent_retention) (bucket q.recent name)
unfolding prune_recent
bucket-prune_recent now name q = elim (List-cases (bucket q.recent name)) [
  | inl empty ↦ rw (empty, prune_recent) (unfold keep_recent in empty)
  | inr (r, rs, found) ↦
      rw (found, prune_recent)
        (rw
          (
            bucket-put q.recent name name (keep_recent (now - q.recent_retention) (r ∷ rs)),
            eq_refl name,
          )
          refl)
]

recent_retention-prune_recent :
    (now : ℕ) (name : String) (q : MemoryQueue)
    → (prune_recent now name q).recent_retention ≡ q.recent_retention
unfolding prune_recent
recent_retention-prune_recent now name q = ground arith

module _ (now : ℕ) (job : JobRecord) (status : RecentStatus) (error : Option String)
    (q : MemoryQueue) where
  recent_retention-record_completed :
      (record_completed now job status error q).recent_retention ≡ q.recent_retention
  unfolding record_completed
  recent_retention-record_completed = recent_retention-prune_recent now job.queue _

  bucket-record_completed :
      bucket (record_completed now job status error q).recent job.queue
      ≡ keep_recent (now - q.recent_retention) (bucket q.recent job.queue)
        ++ record { job = job; status = status; completed_at = now; error = error } ∷ []
  unfolding record_completed
  bucket-record_completed =
      let r : RecentJob = record {
        job = job;
        status = status;
        completed_at = now;
        error = error;
      } in
      let all = bucket q.recent job.queue in
      rw
        (
          bucket-prune_recent now job.queue
              (record q { recent = Dict.put q.recent job.queue (all ++ r ∷ []) }),
          bucket-put q.recent job.queue job.queue (all ++ r ∷ []),
          eq_refl job.queue,
        )
        (keep_recent-append (now - q.recent_retention) all r (omega arith))

  -- What is left of the recent pool is not older than the retention, and a job that was just
  -- recorded heads the first page.
  pub recent_records_newest :
      AllSince (now - q.recent_retention) (bucket (prune_recent now job.queue q).recent job.queue)
      × ((recent_records now job.queue 1 0 (record_completed now job status error q)).0
          ≡ record { job = job; status = status; completed_at = now; error = error } ∷ [])
  unfolding recent_records
  recent_records_newest =
      let r : RecentJob = record {
        job = job;
        status = status;
        completed_at = now;
        error = error;
      } in
      let cutoff = now - q.recent_retention in
      let all = bucket q.recent job.queue in
      let q' = record_completed now job status error q in
      let left : bucket (prune_recent now job.queue q').recent job.queue
          ≡ keep_recent cutoff (keep_recent cutoff all) ++ r ∷ [] =
        rw
          (
            bucket-prune_recent now job.queue q',
            recent_retention-record_completed,
            bucket-record_completed,
          )
          (keep_recent-append cutoff (keep_recent cutoff all) r (omega arith)) in
      (
        rw (bucket-prune_recent now job.queue q) (keep_recent-AllSince cutoff all),
        rw (left, reverse-append (keep_recent cutoff (keep_recent cutoff all)) (r ∷ [])) refl,
      )
