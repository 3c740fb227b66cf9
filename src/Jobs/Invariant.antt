-- ===== src/Jobs/Invariant.antt =====
-- What holds of the rows of the queue in every state that the steps reach.
use open_blog.Base.{
  ℕ, ◌≡◌, refl, Bool, true, false, Option, none, some, List, [], ◌∷◌, any, All, All-update_where,
  update_where, Text, String, arith, find, leb, Bool-cases, inl, inr, ◌+◌, text_eq_instance,
  string_eq, nat_eq,
}
use open_blog.Store.Errors.{ok}
use open_blog.Store.Rows.{Db, JobRow, JobState, JobPayload, Payload}
use open_blog.Store.Rows.JobState.{queued, running}
use open_blog.Store.Rows.Payload.{job_payload, malformed}
use open_blog.Jobs.Queue.{
  HandlerResult, conflicts, dedupe_of, has_id, enqueue, new_job, claim, claim_row, next_due,
  mark_done, mark_failed, fail, fail_row, run_job, run_with, finish, sweep, claimed, set_job,
  as_done, as_failed, requeued, compute_backoff, max_attempts, is_stale,
}
use open_blog.Jobs.Life.{System, Step, enqueues, claims, runs, is_lost, sweeps, Reach, here, next}
use open_blog.Jobs.Kept.{Kept, any-holds_key-Kept, claim-Kept, run_job-Kept, sweep-Kept}

-- A property of a row that every update of the queue keeps.
pub record IsStable (P : JobRow → Type 0) : Type 0 where
  pub enqueued :
      (now id : ℕ) (kind : String) (key : Option Text) (p : Payload) → P (new_job now id kind key p)
  pub taken : (now : ℕ) (j : JobRow) → P j → P (claimed now j)
  pub finished : (j : JobRow) → P j → P (as_done j)
  pub given_up : (message : Text) (j : JobRow) → P j → P (as_failed message j)
  pub put_back : (now : ℕ) (j : JobRow) → P j → P (requeued now j)

module _ (P : JobRow → Type 0) (stable : IsStable P) where
  enqueue-All :
      (now id : ℕ) (kind : String) (key : Text) (p : JobPayload) (r : ℕ) (db db' : Db)
      → enqueue now id kind key p db ≡ ok (r, db')
      → All P db.jobs
      → All P db'.jobs
  unfolding enqueue
  enqueue-All now id kind key p r db db' e h =
      let q : P (new_job now id kind (dedupe_of key) (job_payload p)) =
        stable.enqueued now id kind (dedupe_of key) (job_payload p) in
      ground arith

  claim_row-All :
      (now : ℕ) (db : Db) (o : Option JobRow) (j : JobRow) (db' : Db)
      → claim_row now db o ≡ ok (j, db')
      → All P db.jobs
      → All P db'.jobs
  claim_row-All now db none j db' e h = cc
  claim_row-All now db (some k) j db' e h =
      let w : db'.jobs ≡ update_where (has_id k.id) (claimed now) db.jobs = ground arith in
      rw w
        (All-update_where P (has_id k.id) (claimed now) db.jobs (λ x _ q. stable.taken now x q) h)

  set_job-All :
      (id : ℕ) (f : JobRow → JobRow) (db : Db)
      → ((j : JobRow) → P j → P (f j))
      → All P db.jobs
      → All P (set_job id f db).jobs
  set_job-All id f db keeps h = All-update_where P (has_id id) f db.jobs (λ x _ q. keeps x q) h

  fail_row-All :
      (now id : ℕ) (message : Text) (db : Db) (o : Option JobRow)
      → All P db.jobs
      → All P (fail_row now id message db o).jobs
  unfolding mark_failed
  fail_row-All now id message db none h = h
  fail_row-All now id message db (some j) h = elim (Bool-cases (leb max_attempts j.attempts)) [
    | inl e ↦ rw e (set_job-All id (as_failed message) db (stable.given_up message) h)
    | inr e ↦ rw e (
        set_job-All id (requeued (now + compute_backoff j.attempts)) db
          (stable.put_back (now + compute_backoff j.attempts)) h)
  ]

  finish-All :
      (now id : ℕ) (r : HandlerResult) (db : Db) → All P db.jobs → All P (finish now id r db).jobs
  unfolding fail mark_done
  finish-All now id none db h = set_job-All id as_done db stable.finished h
  finish-All now id (some message) db h =
      fail_row-All now id message db (find (has_id id) db.jobs) h

  run_with-All :
      (now : ℕ) (j : JobRow) (handler : Option (JobPayload → HandlerResult)) (p : Payload) (db : Db)
      → All P db.jobs
      → All P (run_with now j handler p db).jobs
  unfolding fail mark_failed
  run_with-All now j handler (malformed message) db h =
      fail_row-All now j.id message db (find (has_id j.id) db.jobs) h
  run_with-All now j none (job_payload p) db h =
      set_job-All j.id (as_failed _) db (stable.given_up _) h
  run_with-All now j (some f) (job_payload p) db h = finish-All now j.id (f p) db h

  Step-All : {s t : System} → Step s t → All P s.db.jobs → All P t.db.jobs
  unfolding claim run_job sweep
  Step-All (enqueues s now id kind key p r db' e) h = enqueue-All now id kind key p r s.db db' e h
  Step-All (claims s now locked j db' e) h =
      claim_row-All now s.db (next_due now locked s.db.jobs) j db' e h
  Step-All (runs s now handlers j before after e) h =
      run_with-All now j (handlers j.kind) j.payload s.db h
  Step-All (is_lost s j before after e) h = h
  Step-All (sweeps s now) h =
      All-update_where P (is_stale now) (requeued now) s.db.jobs (λ x _ q. stable.put_back now x q)
        h

  Reach-All : {s t : System} → Reach s t → All P s.db.jobs → All P t.db.jobs
  Reach-All here h = h
  Reach-All (next r st) h = Step-All st (Reach-All r h)

-- A queued job has no lease, a running one has a lease.
abbrev pub lease_ok : JobState → Option ℕ → Bool
lease_ok queued none = true
lease_ok queued (some t) = false
lease_ok running none = false
lease_ok running (some t) = true
lease_ok _ lease = true

abbrev pub IsLeased : JobRow → Type 0
IsLeased j = lease_ok j.state j.lease_until ≡ true

IsLeased-IsStable : IsStable IsLeased
IsLeased-IsStable = record {
  enqueued = λ now id kind key p. refl;
  taken = λ now j h. refl;
  finished = λ j h. refl;
  given_up = λ message j h. refl;
  put_back = λ now j h. refl;
}

any-has_id-Kept :
    (id : ℕ) (js ks : List JobRow) → Kept js ks → any (has_id id) ks ≡ any (has_id id) js
any-has_id-Kept id [] [] h = refl
any-has_id-Kept id (j ∷ js) (k ∷ ks) h = ground (arith, any-has_id-Kept id js ks h.1)
any-has_id-Kept id [] (k ∷ ks) h = absurd h
any-has_id-Kept id (j ∷ js) [] h = absurd h

conflicts-Kept :
    (kind : String) (key : Option Text) (js ks : List JobRow)
    → Kept js ks
    → conflicts kind key ks ≡ conflicts kind key js
conflicts-Kept kind none js ks h = refl
conflicts-Kept kind (some key) js ks h = any-holds_key-Kept kind key js ks h

-- No two rows share an id, or a kind and a key.
abbrev pub IsUnique : List JobRow → Type 0
IsUnique [] = Unit
IsUnique (j ∷ js) =
    (any (has_id j.id) js ≡ false) × (conflicts j.kind j.dedupe_key js ≡ false) × IsUnique js

IsUnique-Kept : (js ks : List JobRow) → Kept js ks → IsUnique js → IsUnique ks
IsUnique-Kept [] [] h u = tt
IsUnique-Kept (j ∷ js) (k ∷ ks) ((a, b, c, d), h) (i, n, u) = (
  rw (a, any-has_id-Kept j.id js ks h) i,
  rw (b, c, conflicts-Kept j.kind j.dedupe_key js ks h) n,
  IsUnique-Kept js ks h u,
)
IsUnique-Kept [] (k ∷ ks) h u = absurd h
IsUnique-Kept (j ∷ js) [] h u = absurd h

enqueue-IsUnique :
    (now id : ℕ) (kind : String) (key : Text) (p : JobPayload) (r : ℕ) (db db' : Db)
    → enqueue now id kind key p db ≡ ok (r, db')
    → IsUnique db.jobs
    → IsUnique db'.jobs
unfolding enqueue
enqueue-IsUnique now id kind key p r db db' e h = ground arith

Step-IsUnique : {s t : System} → Step s t → IsUnique s.db.jobs → IsUnique t.db.jobs
Step-IsUnique (enqueues s now id kind key p r db' e) h =
    enqueue-IsUnique now id kind key p r s.db db' e h
Step-IsUnique (claims s now locked j db' e) h =
    IsUnique-Kept s.db.jobs db'.jobs (claim-Kept now locked s.db j db' e) h
Step-IsUnique (runs s now handlers j before after e) h =
    IsUnique-Kept s.db.jobs _ (run_job-Kept now handlers j s.db) h
Step-IsUnique (is_lost s j before after e) h = h
Step-IsUnique (sweeps s now) h = IsUnique-Kept s.db.jobs _ (sweep-Kept now s.db) h

Reach-IsUnique : {s t : System} → Reach s t → IsUnique s.db.jobs → IsUnique t.db.jobs
Reach-IsUnique here h = h
Reach-IsUnique (next r st) h = Step-IsUnique st (Reach-IsUnique r h)

-- The invariant of the queue: no two rows share an id or a kind and a key, a queued row has no lease
-- and a running row has one. It holds in every state that steps of the API, the workers and the sweeper
-- reach, in any order and with lost workers, from a state where it holds.
pub Reach-IsSound :
    (s t : System)
    → Reach s t
    → IsUnique s.db.jobs
    → All IsLeased s.db.jobs
    → IsUnique t.db.jobs × All IsLeased t.db.jobs
Reach-IsSound s t r u l = (Reach-IsUnique r u, Reach-All IsLeased IsLeased-IsStable r l)
