-- ===== src/Store/Tx.antt =====
-- internal/store/store.go: scopes and transactions. `Scoped` runs reads alone; `ScopedRW` keeps the
-- new database only where the function ends without an error, and rolls back otherwise.
pub mod Laws
use open_blog.Base.{ℕ, Bool, true, false, not, ◌&&◌, ◌||◌, ◌==◌, nat_eq, Option, none, some}
use open_blog.Store.Errors.{Error, Result, ok, err}
use open_blog.Store.Rows.{Db}

-- `uuid.Nil`.
abbrev pub nil_id : ℕ
nil_id = 0

pub record Scope : Type 0 where
  pub tenant_id : ℕ
  pub platform : Bool

abbrev pub unscoped : Scope
unscoped = record { tenant_id = nil_id; platform = false }

-- The policy `tenant_scope`: what `Scoped` and `ScopedRW` put into `app.tenant_id` and `app.platform`
-- decides the rows of posts, post_images and imports that a statement sees and may write.
unfoldable pub visible : Scope → ℕ → Bool
visible s tenant = s.platform || (not (s.tenant_id == nil_id) && tenant == s.tenant_id)

abbrev pub Read {ℓ} : Type ℓ → Type ℓ
Read A = Db → Result A

abbrev pub Tx : Type 0 → Type 0
Tx A = Db → Result (A × Db)

unfoldable pub pure : {A : Type 0} → A → Tx A
pure a db = ok (a, db)

unfoldable pub guard : Bool → Error → Tx (Unit {0})
guard true e db = ok (tt, db)
guard false e db = err e

abbrev pub read_result : {A : Type 0} → Db → Result A → Result (A × Db)
read_result db (err e) = err e
read_result db (ok a) = ok (a, db)

-- A read inside a read-write transaction.
unfoldable pub read : {A : Type 0} → Read A → Tx A
read m db = read_result db (m db)

unfoldable pub lift : {A : Type 0} → Result A → Tx A
lift r db = read_result db r

abbrev pub bound : {A B : Type 0} → (A → Tx B) → Result (A × Db) → Result (B × Db)
bound f (err e) = err e
bound f (ok (a, db)) = f a db

-- To unfold this is to unfold the ways to build a transaction too.
infixl 5 ◌>>=◌ ◌>>◌
unfoldable pub ◌>>=◌ : {A B : Type 0} → Tx A → (A → Tx B) → Tx B
unfolding pure guard read lift
◌>>=◌ m f db = bound f (m db)

abbrev pub ◌>>◌ : {B : Type 0} → Tx (Unit {0}) → Tx B → Tx B
◌>>◌ m k = m >>= λ _. k

-- The row, or `pgx.ErrNoRows`.
abbrev pub row {ℓ} : {A : Type ℓ} → Option A → Result A
row none = err Error.no_rows
row (some a) = ok a

-- `ErrNoRows` becomes the error of the domain; any other error passes.
abbrev pub no_rows_as {ℓ} : {A : Type ℓ} → Error → Result A → Result A
no_rows_as e (err Error.no_rows) = err e
no_rows_as e r = r

unfoldable pub scoped {ℓ} : {A : Type ℓ} → Read A → Db → Result A
scoped m db = m db

abbrev pub settled : {A : Type 0} → Db → Result (A × Db) → Result A × Db
settled db (err e) = (err e, db)
settled db (ok (a, db')) = (ok a, db')

-- The result of the transaction and the database after it.
unfoldable pub scoped_rw : {A : Type 0} → Tx A → Db → Result A × Db
scoped_rw m db = settled db (m db)
