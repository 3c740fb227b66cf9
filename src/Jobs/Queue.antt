-- ===== src/Jobs/Queue.antt =====
-- jobs.go and worker.go: each SQL statement on the table, and the functions that run them. A worker's
-- goroutines are steps of `Jobs.Life`; handlers and what else can go wrong in a statement are outside.
use open_blog.Base.{
  ℕ, zero, suc, ◌+◌, ◌*◌, ◌^◌, Bool, true, false, not, ◌&&◌, ◌==◌, nat_eq, string_eq,
  text_eq_instance, text_eq, Option, none, some, List, [], ◌∷◌, ◌++◌, select, if◌then◌else◌, any,
  find, update_where, ltb, leb, Text, codes, String, elem,
}
use open_blog.Store.Errors.{Error, Result, ok, err}
use open_blog.Store.Rows.{Db, Session, OauthFlow, JobRow, JobState, Payload, JobPayload}
use open_blog.Store.Rows.JobState.{queued, running, done, failed}
use open_blog.Store.Rows.Payload.{job_payload, malformed}
use open_blog.Store.Tx.{Tx}

-- Durations in nanoseconds.
abbrev pub second : ℕ
second = 1_000_000_000

abbrev pub max_attempts : ℕ
max_attempts = 5

abbrev pub lease_duration : ℕ
lease_duration = 180 * second

abbrev pub base_backoff : ℕ
base_backoff = second

abbrev pub max_backoff : ℕ
max_backoff = 3600 * second

-- `time.Duration(float64(baseBackoff) * math.Pow(2, float64(attempts-1)))`, capped. Below the cap the
-- product is exact in a float64; no attempt yet gives half the base.
unfoldable pub compute_backoff : (attempts : ℕ) → ℕ
compute_backoff zero = 500_000_000
compute_backoff (suc n) =
    let d : ℕ = base_backoff * 2 ^ n in if ltb max_backoff d then max_backoff else d

-- `nullif($2, '')`.
abbrev pub dedupe_of : Text → Option Text
dedupe_of [] = none
dedupe_of (c ∷ s) = some (c ∷ s)

abbrev pub has_key : Text → Option Text → Bool
has_key key none = false
has_key key (some k) = text_eq k key

-- The partial unique index on (kind, dedupe_key) where the key is not null.
unfoldable pub holds_key : String → Text → JobRow → Bool
holds_key kind key j = j.kind == kind && has_key key j.dedupe_key

abbrev pub conflicts : String → Option Text → List JobRow → Bool
conflicts kind none jobs = false
conflicts kind (some key) jobs = any (holds_key kind key) jobs

abbrev pub new_job : (now id : ℕ) → (kind : String) → Option Text → Payload → JobRow
new_job now id kind key payload = record {
  id = id;
  kind = kind;
  dedupe_key = key;
  payload = payload;
  state = queued;
  attempts = 0;
  run_after = now;
  lease_until = none;
  last_err = none;
}

-- `Enqueue`: INSERT … ON CONFLICT (kind, dedupe_key) DO NOTHING. The new id is the database's choice.
unfoldable pub enqueue : (now id : ℕ) → (kind : String) → Text → JobPayload → Tx ℕ
enqueue now id kind dedupe_key payload db =
    let key : Option Text = dedupe_of dedupe_key in
    if conflicts kind key db.jobs
    then err Error.duplicate_job
    else if any (λ j. j.id == id) db.jobs
    then err Error.unique_violation
    else ok (id, record db { jobs = new_job now id kind key (job_payload payload) ∷ db.jobs })

-- Due, and not locked by another transaction (FOR UPDATE SKIP LOCKED).
abbrev pub is_queued : JobState → Bool
is_queued queued = true
is_queued _ = false

abbrev pub is_running : JobState → Bool
is_running running = true
is_running _ = false

unfoldable pub is_due : (now : ℕ) → (locked : List ℕ) → JobRow → Bool
is_due now locked j = is_queued j.state && (leb j.run_after now && not (elem j.id locked))

-- `order by run_after … limit 1`: a due job with the least `run_after`.
abbrev pub earlier : JobRow → Option JobRow → JobRow
earlier j none = j
earlier j (some k) = if leb j.run_after k.run_after then j else k

unfoldable pub next_due : (now : ℕ) → List ℕ → List JobRow → Option JobRow
next_due now locked [] = none
next_due now locked (j ∷ js) =
    let rest = next_due now locked js in if is_due now locked j then some (earlier j rest) else rest

abbrev pub has_id : ℕ → JobRow → Bool
has_id id j = j.id == id

abbrev pub claimed : (now : ℕ) → JobRow → JobRow
claimed now j = record j {
  state = running;
  attempts = j.attempts + 1;
  lease_until = some (now + lease_duration);
}

-- The column `attempts` is an `integer`: its values are below this.
abbrev pub integer_limit : ℕ
integer_limit = 2_147_483_648

-- The statement fails where `attempts + 1` is no `integer`.
abbrev pub claim_row : (now : ℕ) → Db → Option JobRow → Result (JobRow × Db)
claim_row now db none = err Error.no_job
claim_row now db (some j) =
    if ltb (j.attempts + 1) integer_limit
    then ok (claimed now j, record db { jobs = update_where (has_id j.id) (claimed now) db.jobs })
    else err Error.numeric_out_of_range

-- `claim`: the job taken, as it stands after the update.
unfoldable pub claim : (now : ℕ) → (locked : List ℕ) → Tx JobRow
claim now locked db = claim_row now db (next_due now locked db.jobs)

abbrev pub set_job : ℕ → (JobRow → JobRow) → Db → Db
set_job id f db = record db { jobs = update_where (has_id id) f db.jobs }

abbrev pub as_done : JobRow → JobRow
as_done j = record j { state = done }

abbrev pub as_failed : Text → JobRow → JobRow
as_failed message j = record j { state = failed; last_err = some message }

abbrev pub requeued : (run_after : ℕ) → JobRow → JobRow
requeued run_after j = record j { state = queued; run_after = run_after; lease_until = none }

-- `done`.
unfoldable pub mark_done : ℕ → Db → Db
mark_done id db = set_job id as_done db

-- `markFailed`.
unfoldable pub mark_failed : ℕ → Text → Db → Db
mark_failed id message db = set_job id (as_failed message) db

abbrev pub fail_row : (now id : ℕ) → Text → Db → Option JobRow → Db
fail_row now id message db none = db
fail_row now id message db (some j) =
    if leb max_attempts j.attempts
    then mark_failed id message db
    else set_job id (requeued (now + compute_backoff j.attempts)) db

-- `fail`: a row that is gone is logged and left.
unfoldable pub fail : (now id : ℕ) → Text → Db → Db
unfolding mark_failed compute_backoff
fail now id message db = fail_row now id message db (find (has_id id) db.jobs)

-- What a handler ends with: no error, or a message.
abbrev pub HandlerResult : Type 0
HandlerResult = Option Text

abbrev pub finish : (now id : ℕ) → HandlerResult → Db → Db
finish now id none db = mark_done id db
finish now id (some message) db = fail now id message db

-- `runJob` after the handler's effect: a malformed payload fails, an unknown kind is failed at once,
-- and otherwise the handler's result decides.
abbrev pub run_with : (now : ℕ) → JobRow → Option (JobPayload → HandlerResult) → Payload → Db → Db
run_with now j handler (malformed message) db = fail now j.id message db
run_with now j none (job_payload p) db =
    mark_failed j.id (codes "jobs: no handler registered for kind " ++ codes j.kind) db
run_with now j (some h) (job_payload p) db = finish now j.id (h p) db

unfoldable pub run_job :
    (now : ℕ) → (handlers : String → Option (JobPayload → HandlerResult)) → JobRow → Db → Db
unfolding fail mark_done mark_failed
run_job now handlers j db = run_with now j (handlers j.kind) j.payload db

abbrev pub lease_over : (now : ℕ) → Option ℕ → Bool
lease_over now none = false
lease_over now (some t) = ltb t now

unfoldable pub is_stale : (now : ℕ) → JobRow → Bool
is_stale now j = is_running j.state && lease_over now j.lease_until

-- The first statement of `sweep`.
unfoldable pub sweep_jobs : (now : ℕ) → Db → Db
sweep_jobs now db = record db { jobs = update_where (is_stale now) (requeued now) db.jobs }

-- `interval '7 days'`.
abbrev pub session_grace : ℕ
session_grace = 7 * 86400 * second

-- `expires_at < now() - interval '7 days'`.
abbrev pub is_forgotten : (now : ℕ) → Session → Bool
is_forgotten now s = ltb (s.expires_at + session_grace) now

-- `expires_at < now()`.
abbrev pub is_abandoned : (now : ℕ) → OauthFlow → Bool
is_abandoned now f = ltb f.expires_at now

-- `sweep`: the leases, then the old sessions, then the expired flows of a login.
unfoldable pub sweep : (now : ℕ) → Db → Db
unfolding sweep_jobs is_stale
sweep now db =
    let swept = sweep_jobs now db in
    record swept {
      sessions = select (λ s. not (is_forgotten now s)) swept.sessions;
      flows = select (λ f. not (is_abandoned now f)) swept.flows;
    }
