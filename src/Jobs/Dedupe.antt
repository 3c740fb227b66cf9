-- ===== src/Jobs/Dedupe.antt =====
-- The uniqueness of (kind, dedupe_key), and what it does to a later `Enqueue`.
use open_blog.Base.{
  ℕ, ◌≡◌, ◌∙◌, true, ◌∷◌, any, Text, String, arith, ==_refl, string_eq, text_eq_instance,
}
use open_blog.Store.Errors.{Error, ok, err}
use open_blog.Store.Rows.{Db, JobPayload}
use open_blog.Jobs.Queue.{holds_key, enqueue}
use open_blog.Jobs.Life.{System, Step, enqueues, claims, runs, is_lost, sweeps, Reach, here, next}
use open_blog.Jobs.Kept.{any-holds_key-Kept, claim-Kept, run_job-Kept, sweep-Kept}

enqueue-keeps_key :
    (kind kind' : String) (key key' : Text) (now id : ℕ) (p : JobPayload) (db db' : Db) (r : ℕ)
    → enqueue now id kind' key' p db ≡ ok (r, db')
    → any (holds_key kind key) db.jobs ≡ true
    → any (holds_key kind key) db'.jobs ≡ true
unfolding enqueue
enqueue-keeps_key kind kind' key key' now id p db db' r h e = ground arith

module _ (kind : String) (key : Text) where
  abbrev pub IsTaken : System → Type 0
  IsTaken s = any (holds_key kind key) s.db.jobs ≡ true

  Step-IsTaken : {s t : System} → Step s t → IsTaken s → IsTaken t
  Step-IsTaken (enqueues s now id kind' key' p r db' e) h =
      enqueue-keeps_key kind kind' key key' now id p s.db db' r e h
  Step-IsTaken (claims s now locked j db' e) h =
      any-holds_key-Kept kind key s.db.jobs db'.jobs (claim-Kept now locked s.db j db' e) ∙ h
  Step-IsTaken (runs s now handlers j before after e) h =
      any-holds_key-Kept kind key s.db.jobs _ (run_job-Kept now handlers j s.db) ∙ h
  Step-IsTaken (is_lost s j before after e) h = h
  Step-IsTaken (sweeps s now) h = any-holds_key-Kept kind key s.db.jobs _ (sweep-Kept now s.db) ∙ h

  Reach-IsTaken : {s t : System} → Reach s t → IsTaken s → IsTaken t
  Reach-IsTaken here h = h
  Reach-IsTaken (next r st) h = Step-IsTaken st (Reach-IsTaken r h)

enqueue-IsTaken :
    (kind : String) (c : ℕ) (key : Text) (now id : ℕ) (p : JobPayload) (db db' : Db) (r : ℕ)
    → enqueue now id kind (c ∷ key) p db ≡ ok (r, db')
    → any (holds_key kind (c ∷ key)) db'.jobs ≡ true
unfolding enqueue holds_key
enqueue-IsTaken kind c key now id p db db' r e = ground (arith, ==_refl kind, ==_refl (c ∷ key))

IsTaken-enqueue :
    (kind : String) (c : ℕ) (key : Text) (now id : ℕ) (p : JobPayload) (db : Db)
    → any (holds_key kind (c ∷ key)) db.jobs ≡ true
    → enqueue now id kind (c ∷ key) p db ≡ err Error.duplicate_job
unfolding enqueue
IsTaken-enqueue kind c key now id p db h = rw h

-- Once a job with a non-empty key has been enqueued, every later `Enqueue` of this kind and key is a
-- duplicate, whatever the API, the workers and the sweeper did since: also after the job is done or
-- failed.
pub enqueue-once :
    (kind : String) (c : ℕ) (key : Text) (now id now' id' r : ℕ) (p p' : JobPayload) (s : System)
    {t : System} (db' : Db)
    → enqueue now id kind (c ∷ key) p s.db ≡ ok (r, db')
    → Reach (record s { db = db' }) t
    → enqueue now' id' kind (c ∷ key) p' t.db ≡ err Error.duplicate_job
enqueue-once kind c key now id now' id' r p p' s {t} db' e reach =
    IsTaken-enqueue kind c key now' id' p' t.db
      (Reach-IsTaken kind (c ∷ key) reach (enqueue-IsTaken kind c key now id p s.db db' r e))
