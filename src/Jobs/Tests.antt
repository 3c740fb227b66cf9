-- ===== src/Jobs/Tests.antt =====
-- Examples for internal/jobs.
use open_blog.Base.{ℕ, arith, ◌+◌, ◌≡◌, refl, some, [], ◌∷◌, codes, All, update_where}
use open_blog.Store.Errors.{Error, ok, err}
use open_blog.Store.Rows.{Db, JobRow, JobPayload, JobData, Payload}
use open_blog.Jobs.Queue.{
  HandlerResult, as_failed, enqueue, new_job, claim, claimed, is_due, has_id, compute_backoff,
  max_backoff,
}
use open_blog.Jobs.Life.{System, Handlers, Reach, here, next, enqueues}
use open_blog.Jobs.Dedupe.{enqueue-once}
use open_blog.Jobs.Claim.{IsNext, claim-IsNext}
use open_blog.Jobs.Invariant.{IsUnique, IsLeased, Reach-IsSound}
use open_blog.Jobs.Retries.{waiting, alone, with_job, lost-unlimited}
use open_blog.Samples.{sample_db, sample_job}

abbrev payload : JobPayload
payload = record { tenant_id = 1; content = JobData.purge_data 1 2 3 }

abbrev idle : System
idle = record { db = sample_db; in_flight = [] }

abbrev enqueued_db : Db
enqueued_db = record sample_db {
  jobs = new_job 5 1 "purge" (some (codes "k")) (Payload.job_payload payload) ∷ [];
}

first_enqueue : enqueue 5 1 "purge" (codes "k") payload sample_db ≡ ok (1, enqueued_db)
unfolding open_blog.Jobs.Queue.enqueue
first_enqueue = refl

abbrev enqueued : System
enqueued = record { db = enqueued_db; in_flight = [] }

enqueue-once_example :
    enqueue 99 2 "purge" (codes "k") payload enqueued_db ≡ err Error.duplicate_job
enqueue-once_example =
    enqueue-once "purge" b'k' [] 5 1 99 2 1 payload payload idle enqueued_db first_enqueue here

abbrev one_job_db : Db
one_job_db = record sample_db { jobs = sample_job ∷ [] }

claim-IsNext_example :
    (k : JobRow) × IsNext 20 [] one_job_db.jobs k
    × (claimed 20 sample_job ≡ claimed 20 k)
    × (record sample_db { jobs = claimed 20 sample_job ∷ [] }
        ≡ record one_job_db { jobs = update_where (has_id k.id) (claimed 20) one_job_db.jobs })
unfolding open_blog.Jobs.Queue.claim open_blog.Jobs.Queue.next_due open_blog.Jobs.Queue.is_due
claim-IsNext_example =
    claim-IsNext 20 [] one_job_db (claimed 20 sample_job)
      (record sample_db { jobs = claimed 20 sample_job ∷ [] }) refl

Reach-IsSound_example : IsUnique enqueued_db.jobs × All IsLeased enqueued_db.jobs
Reach-IsSound_example =
    Reach-IsSound idle enqueued
      (next here (enqueues idle 5 1 "purge" (codes "k") payload 1 enqueued_db first_enqueue)) tt tt

lost-unlimited_example :
    (db' : Db) × (t' : ℕ) × Reach
      (alone sample_db (waiting sample_job 0 10))
      (alone db' (waiting sample_job (0 + 8) t'))
lost-unlimited_example = lost-unlimited sample_db sample_job 0 10 8 (omega arith)

abbrev booms : JobPayload → HandlerResult
booms p = some (codes "boom")

abbrev handlers : Handlers
handlers kind = some booms

abbrev start : Db
start = with_job sample_db (waiting sample_job 0 10)

abbrev final : JobRow
final = as_failed (codes "boom") (claimed 20_000_000_000 (waiting sample_job 4 15_000_000_010))
