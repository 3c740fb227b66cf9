-- ===== src/Jobs/Kept.antt =====
-- The ids, kinds, keys and attempts of the rows under the operations of the queue.
use open_blog.Base.{
  ℕ, ◌≡◌, refl, ◌≤◌, Bool, Option, none, some, List, [], ◌∷◌, any, update_where, Text, String,
  arith, find, leb, Bool-cases, inl, inr, ◌+◌,
}
use open_blog.Store.Errors.{ok}
use open_blog.Store.Rows.{Db, JobRow, JobPayload, Payload}
use open_blog.Store.Rows.Payload.{job_payload, malformed}
use open_blog.Jobs.Queue.{
  HandlerResult, holds_key, has_id, claim, claim_row, next_due, mark_done, mark_failed, fail,
  fail_row, run_job, run_with, finish, sweep, claimed, set_job, as_done, as_failed, requeued,
  compute_backoff, max_attempts, is_stale,
}

abbrev pub SameJob : JobRow → JobRow → Type 0
SameJob j k =
    (k.id ≡ j.id) × (k.kind ≡ j.kind) × (k.dedupe_key ≡ j.dedupe_key) × (j.attempts ≤ k.attempts)

abbrev pub Kept : List JobRow → List JobRow → Type 0
Kept [] [] = Unit
Kept (j ∷ js) (k ∷ ks) = SameJob j k × Kept js ks
Kept _ _ = ⊥

Kept-refl : (js : List JobRow) → Kept js js
Kept-refl [] = tt
Kept-refl (j ∷ js) = ((refl, refl, refl, omega arith), Kept-refl js)

pub Kept-update_where :
    (p : JobRow → Bool) (f : JobRow → JobRow)
    → ((j : JobRow) → SameJob j (f j))
    → (js : List JobRow) → Kept js (update_where p f js)
Kept-update_where p f keeps [] = tt
Kept-update_where p f keeps (j ∷ js) = (ground (arith, keeps j), Kept-update_where p f keeps js)

pub any-holds_key-Kept :
    (kind : String) (key : Text) (js ks : List JobRow)
    → Kept js ks
    → any (holds_key kind key) ks ≡ any (holds_key kind key) js
unfolding holds_key
any-holds_key-Kept kind key [] [] h = refl
any-holds_key-Kept kind key (j ∷ js) (k ∷ ks) h =
    ground (arith, any-holds_key-Kept kind key js ks h.1)
any-holds_key-Kept kind key [] (k ∷ ks) h = absurd h
any-holds_key-Kept kind key (j ∷ js) [] h = absurd h

claim_row-Kept :
    (now : ℕ) (db : Db) (o : Option JobRow) (j : JobRow) (db' : Db)
    → claim_row now db o ≡ ok (j, db')
    → Kept db.jobs db'.jobs
claim_row-Kept now db none j db' h = cc
claim_row-Kept now db (some k) j db' h =
    let e : db'.jobs ≡ update_where (has_id k.id) (claimed now) db.jobs = ground arith in
    rw e
      (Kept-update_where (has_id k.id) (claimed now) (λ r. (refl, refl, refl, omega arith)) db.jobs)

pub claim-Kept :
    (now : ℕ) (locked : List ℕ) (db : Db) (j : JobRow) (db' : Db)
    → claim now locked db ≡ ok (j, db')
    → Kept db.jobs db'.jobs
unfolding claim
claim-Kept now locked db j db' h = claim_row-Kept now db (next_due now locked db.jobs) j db' h

-- A change that is neither of id, kind, key nor attempts.
module _ (f : JobRow → JobRow) (same : (j : JobRow) → SameJob j (f j)) where
  set_job-Kept : (id : ℕ) (db : Db) → Kept db.jobs (set_job id f db).jobs
  set_job-Kept id db = Kept-update_where (has_id id) f same db.jobs

unchanged : (j : JobRow) → SameJob j j
unchanged j = (refl, refl, refl, omega arith)

mark_done-Kept : (id : ℕ) (db : Db) → Kept db.jobs (mark_done id db).jobs
unfolding mark_done
mark_done-Kept id db = set_job-Kept as_done unchanged id db

mark_failed-Kept :
    (id : ℕ) (message : Text) (db : Db) → Kept db.jobs (mark_failed id message db).jobs
unfolding mark_failed
mark_failed-Kept id message db = set_job-Kept (as_failed message) unchanged id db

fail_row-Kept :
    (now id : ℕ) (message : Text) (db : Db) (o : Option JobRow)
    → Kept db.jobs (fail_row now id message db o).jobs
fail_row-Kept now id message db none = Kept-refl db.jobs
fail_row-Kept now id message db (some j) = elim (Bool-cases (leb max_attempts j.attempts)) [
  | inl e ↦ rw e (mark_failed-Kept id message db)
  | inr e ↦ rw e (set_job-Kept (requeued (now + compute_backoff j.attempts)) unchanged id db)
]

fail-Kept : (now id : ℕ) (message : Text) (db : Db) → Kept db.jobs (fail now id message db).jobs
unfolding fail
fail-Kept now id message db = fail_row-Kept now id message db (find (has_id id) db.jobs)

finish-Kept : (now id : ℕ) (r : HandlerResult) (db : Db) → Kept db.jobs (finish now id r db).jobs
finish-Kept now id none db = mark_done-Kept id db
finish-Kept now id (some message) db = fail-Kept now id message db

run_with-Kept :
    (now : ℕ) (j : JobRow) (h : Option (JobPayload → HandlerResult)) (p : Payload) (db : Db)
    → Kept db.jobs (run_with now j h p db).jobs
run_with-Kept now j h (malformed message) db = fail-Kept now j.id message db
run_with-Kept now j none (job_payload p) db = mark_failed-Kept j.id _ db
run_with-Kept now j (some h) (job_payload p) db = finish-Kept now j.id (h p) db

pub run_job-Kept :
    (now : ℕ) (handlers : String → Option (JobPayload → HandlerResult)) (j : JobRow) (db : Db)
    → Kept db.jobs (run_job now handlers j db).jobs
run_job-Kept now handlers j db =
    unfold run_job in run_with-Kept now j (handlers j.kind) j.payload db

pub sweep-Kept : (now : ℕ) (db : Db) → Kept db.jobs (sweep now db).jobs
unfolding sweep
sweep-Kept now db = Kept-update_where (is_stale now) (requeued now) unchanged db.jobs
