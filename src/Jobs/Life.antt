-- ===== src/Jobs/Life.antt =====
-- The steps that the API, the workers and the sweeper make on the queue, in any order. A worker holds
-- a claimed job in flight until it has run it, or is lost with it.
use open_blog.Base.{ℕ, ◌≡◌, Option, List, [], ◌∷◌, ◌++◌, String, Text}
use open_blog.Store.Errors.{ok, err}
use open_blog.Store.Rows.{Db, JobRow, JobPayload}
use open_blog.Jobs.Queue.{HandlerResult, enqueue, claim, run_job, sweep}

pub record System : Type 0 where
  pub db : Db
  pub in_flight : List JobRow

-- The registered handlers (`Worker.handlers`), each with its result.
abbrev pub Handlers : Type 0
Handlers = String → Option (JobPayload → HandlerResult)

pub data Step : System → System → Type 0 where
  enqueues :
      (s : System) (now id : ℕ) (kind : String) (key : Text) (payload : JobPayload) (r : ℕ)
      (db' : Db)
      → enqueue now id kind key payload s.db ≡ ok (r, db')
      → Step s (record s { db = db' })
  claims :
      (s : System) (now : ℕ) (locked : List ℕ) (j : JobRow) (db' : Db)
      → claim now locked s.db ≡ ok (j, db')
      → Step s (record { db = db'; in_flight = j ∷ s.in_flight })
  runs :
      (s : System) (now : ℕ) (handlers : Handlers) (j : JobRow) (before after : List JobRow)
      → s.in_flight ≡ before ++ j ∷ after
      → Step s (record { db = run_job now handlers j s.db; in_flight = before ++ after })
  is_lost :
      (s : System) (j : JobRow) (before after : List JobRow)
      → s.in_flight ≡ before ++ j ∷ after
      → Step s (record s { in_flight = before ++ after })
  sweeps : (s : System) (now : ℕ) → Step s (record s { db = sweep now s.db })

pub data Reach (s : System) : System → Type 0 where
  here : Reach s s
  next : {t u : System} → Reach s t → Step t u → Reach s u

-- The loop of `worker`, polling at each of these times: an error of the claim, no job too, leaves the rest
-- to the next poll. Each job ends before the next poll, and no other transaction has rows locked.
unfoldable pub work : Handlers → List ℕ → Db → Db
work handlers [] db = db
work handlers (now ∷ times) db = elim (claim now [] db) [
  | err e ↦ work handlers times db
  | ok (j, db1) ↦ work handlers times (run_job now handlers j db1)
]
