-- ===== src/Jobs/Retries.antt =====
-- How a job ends that fails, and one whose worker is lost.
use mathlib.Core.Path.{subst}
use open_blog.Base.{
  ℕ, ◌<◌, ◌≤◌, List, zero, suc, ◌≡◌, refl, true, none, some, [], ◌∷◌, Text, arith, leb, ltb, nat_eq,
  ==_refl, ◌+◌,
}
use open_blog.Store.Errors.{Result, ok, err}
use open_blog.Store.Rows.{Db, JobRow, JobPayload}
use open_blog.Store.Rows.JobState.{queued}
use open_blog.Store.Rows.Payload.{job_payload}
use open_blog.Jobs.Queue.{
  HandlerResult, integer_limit, run_job, as_failed, lease_duration, claim, claimed, next_due,
  is_due, sweep, sweep_jobs, is_stale,
}
use open_blog.Jobs.Life.{Handlers, work, System, claims, is_lost, sweeps, Reach, here, next}

-- The job, queued, and no other.
abbrev pub waiting : JobRow → (attempts run_after : ℕ) → JobRow
waiting j attempts run_after = record j {
  state = queued;
  attempts = attempts;
  run_after = run_after;
  lease_until = none;
}

abbrev pub alone : Db → JobRow → System
alone db j = record { db = record db { jobs = j ∷ [] }; in_flight = [] }

-- The database with this row alone in the queue.
abbrev pub with_job : Db → JobRow → Db
with_job db j = record db { jobs = j ∷ [] }

claim-alone :
    (db : Db) (j : JobRow) (n t now : ℕ)
    → n + 1 < integer_limit
    → t ≤ now
    → claim now [] (with_job db (waiting j n t))
      ≡ ok (claimed now (waiting j n t), with_job db (claimed now (waiting j n t)))
unfolding claim next_due is_due
claim-alone db j n t now b d =
    let e : leb t now ≡ true = ground arith in
    let f : ltb (n + 1) integer_limit ≡ true = ground arith in rw (e, f) (rw (==_refl j.id) refl)

sweep-alone :
    (db : Db) (j : JobRow) (n t : ℕ)
    → (db' : Db) × (sweep (t + lease_duration + 1) (with_job db (claimed t (waiting j n t)))
        ≡ with_job db' (waiting j (n + 1) (t + lease_duration + 1)))
unfolding sweep sweep_jobs is_stale
sweep-alone db j n t = (
  sweep (t + lease_duration + 1) (record db { jobs = [] }),
  let e : ltb (t + lease_duration) (t + lease_duration + 1) ≡ true = ground arith in rw e refl,
)

-- One lost worker: the job is queued again, with one more attempt.
lost_once :
    (s : System) (db : Db) (j : JobRow) (n t : ℕ)
    → n + 1 < integer_limit
    → Reach s (alone db (waiting j n t))
    → (db' : Db) × Reach s (alone db' (waiting j (n + 1) (t + lease_duration + 1)))
lost_once s db j n t b r =
    let taken = claimed t (waiting j n t) in
    let db1 : Db = with_job db taken in
    let (db', e) = sweep-alone db j n t in
    let r1 =
      next r (
        claims (alone db (waiting j n t)) t [] taken db1
          (claim-alone db j n t t b (omega arith))) in
    let r2 = next r1 (is_lost (record { db = db1; in_flight = taken ∷ [] }) taken [] [] refl) in
    let r3 = next r2 (sweeps (record { db = db1; in_flight = [] }) (t + lease_duration + 1)) in
    (db', subst (λ d. Reach s (record { db = d; in_flight = [] })) e r3)

-- A job whose worker is lost each time is claimed and queued again: from a queue that holds it alone,
-- after `n` attempts, a state is reached in which it is queued with `k` more, for every `k` for which the
-- sum is a value of the column, below 2 ^ 31. The limit of five attempts does not apply to it.
pub lost-unlimited :
    (db : Db) (j : JobRow) (n t k : ℕ)
    → n + k < integer_limit
    → (db' : Db) × (t' : ℕ) × Reach (alone db (waiting j n t)) (alone db' (waiting j (n + k) t'))
lost-unlimited db j n t zero b = (
  db,
  t,
  subst (λ a. Reach (alone db (waiting j n t)) (alone db (waiting j a t))) (omega arith) here,
)
lost-unlimited db j n t (suc k) b =
    let (db1, t1, r) = lost-unlimited db j n t k (omega arith) in
    let (db2, r2) = lost_once (alone db (waiting j n t)) db1 j (n + k) t1 (omega arith) r in
    (
      db2,
      t1 + lease_duration + 1,
      subst
          (λ a.
            Reach (alone db (waiting j n t)) (alone db2 (waiting j a (t1 + lease_duration + 1))))
          (omega arith) r2,
    )

-- The handler of the job's kind fails with this message.
module _ (handlers : Handlers) (h : JobPayload → HandlerResult) (j : JobRow) (p : JobPayload)
    (message : Text) (registered : handlers j.kind ≡ some h) (valid : j.payload ≡ job_payload p)
    (fails : h p ≡ some message) where
  -- The job as it ends.
  abbrev pub exhausted : (t now : ℕ) → JobRow
  exhausted t now = as_failed message (claimed now (waiting j 4 t))

  abbrev polled : (now : ℕ) → List ℕ → Db → Result (JobRow × Db) → Db
  polled now times db (err e) = work handlers times db
  polled now times db (ok (k, db1)) = work handlers times (run_job now handlers k db1)
