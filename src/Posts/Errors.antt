-- ===== src/Posts/Errors.antt =====
-- The success of a call whose errors service.go translates.
use open_blog.Base.{ℕ, ◌≡◌, refl, ◌⊎◌, inl, inr, arith}
use open_blog.Store.Errors.{Error, Result, ok, err}
use open_blog.Store.Rows.{Db}
use open_blog.Store.Tx.{no_rows_as}
use open_blog.Posts.Service.{unless_duplicate, taken_if_violated}

pub unless_duplicate-eq-ok :
    (db : Db) (r : Result (ℕ × Db)) {u : Unit {0}} {db' : Db}
    → unless_duplicate db r ≡ ok (u, db')
    → ((db' ≡ db) × (r ≡ err Error.duplicate_job)) ⊎ ((id : ℕ) × (r ≡ ok (id, db')))
unless_duplicate-eq-ok db (ok (id, db'')) h = inr (id, ground arith)
unless_duplicate-eq-ok db (err Error.duplicate_job) h = inl (ground arith, refl)
unless_duplicate-eq-ok db (err e) h = cc

pub taken_if_violated-eq-ok :
    {A : Type 0} (r : Result A) {a : A} → taken_if_violated r ≡ ok a → r ≡ ok a
taken_if_violated-eq-ok (ok a) h = h
taken_if_violated-eq-ok (err Error.unique_violation) h = cc
taken_if_violated-eq-ok (err e) h = cc

pub no_rows_as-eq-ok :
    {A : Type 0} (x : Error) (r : Result A) {a : A} → no_rows_as x r ≡ ok a → r ≡ ok a
no_rows_as-eq-ok x (ok a) h = h
no_rows_as-eq-ok x (err Error.no_rows) h = cc
no_rows_as-eq-ok x (err e) h = cc
