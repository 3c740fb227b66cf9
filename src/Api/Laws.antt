-- ===== src/Api/Laws.antt =====
-- What a handler keeps: lemmas on its gates and its transaction.
use open_blog.Base.{ℕ, ◌≡◌, refl, Bool, true, false, Option, none, some, String, leb}
use open_blog.Store.Rows.{Db}
use open_blog.Store.Tx.{Tx, scoped_rw}
use open_blog.Store.Tx.Laws.{Keeps, Keeps-scoped_rw}
use open_blog.Store.Errors.{Error, Result}
use open_blog.Authz.Roles.{Actor}
use open_blog.Api.Replies.{
  Reply, Handler, ErrorKind, absent, denied_access, conflicting, unprocessable, unauthenticated,
  unknown, map_kind, kind_of, service_error, write_error, Parsed, malformed, parsed, gate, when,
  with_request, with_path, replied, commit,
}
use open_blog.Api.Members.{in_scope, in_tenant}

kind-IsRefused : (k : ErrorKind) → leb 400 (map_kind k).0 ≡ true
kind-IsRefused absent = refl
kind-IsRefused denied_access = refl
kind-IsRefused conflicting = refl
kind-IsRefused unprocessable = refl
kind-IsRefused unauthenticated = refl
kind-IsRefused unknown = refl

-- No error of a service is answered with success.
pub service_error-IsRefused : (e : Error) → leb 400 (service_error e).status ≡ true
unfolding service_error
service_error-IsRefused e = kind-IsRefused (kind_of e)

pub write_error-IsRefused :
    (missing : String) (e : Error) → leb 400 (write_error missing e).status ≡ true
write_error-IsRefused m Error.no_rows = refl
write_error-IsRefused m e = service_error-IsRefused e

-- Each call takes the database to one that is related to it.
pub record Preserves (R : Db → Db → Type 0) (h : Handler) : Type 0 where
  pub preserves : (db : Db) → R db (h db).1

-- Where an early return keeps `R`, a handler keeps it if what it leads to does.
module _ (R : Db → Db → Type 0) (still : (db : Db) → R db db) where
  pub Preserves-gate : (g : Option Reply) (h : Handler) → Preserves R h → Preserves R (gate g h)
  unfolding gate
  Preserves-gate none h k = k
  Preserves-gate (some r) h k = record { preserves = still }

  pub Preserves-when :
      (b : Bool) (r : Reply) (h : Handler)
      → (b ≡ false → Preserves R h)
      → Preserves R (gate (when b r) h)
  unfolding gate when
  Preserves-when false r h k = record { preserves = λ db. (k refl).preserves db }
  Preserves-when true r h k = record { preserves = still }

  pub Preserves-request :
      {A : Type 0} (q : Parsed A) (h : A → Handler)
      → ((a : A) → Preserves R (h a))
      → Preserves R (with_request q h)
  unfolding with_request
  Preserves-request (malformed m) h k = record { preserves = still }
  Preserves-request (parsed a) h k = record { preserves = (k a).preserves }

  pub Preserves-path :
      (id : Option ℕ) (m : String) (h : ℕ → Handler)
      → ((a : ℕ) → Preserves R (h a))
      → Preserves R (with_path id m h)
  unfolding with_path
  Preserves-path none m h k = record { preserves = still }
  Preserves-path (some a) m h k = record { preserves = (k a).preserves }

  in_scope-keeps :
      (platform : Bool) (t : Option ℕ) (h : ℕ → Handler)
      → ((u : ℕ) → t ≡ some u → Preserves R (h u))
      → (db : Db) → R db (in_scope platform t h db).1
  in_scope-keeps true t h k db = still db
  in_scope-keeps false none h k db = still db
  in_scope-keeps false (some u) h k db = (k u refl).preserves db

  pub Preserves-in_tenant :
      (a : Actor) (h : ℕ → Handler)
      → ((u : ℕ) → a.tenant ≡ some u → Preserves R (h u))
      → Preserves R (in_tenant a h)
  unfolding in_tenant
  Preserves-in_tenant a h k = record { preserves = in_scope-keeps a.platform a.tenant h k }

  replied-keeps :
      {A : Type 0} (f : Result A → Reply) (db : Db) (p : Result A × Db)
      → R db p.1
      → R db (replied f p).1
  replied-keeps f db (r, db') h = h

  pub Preserves-commit :
      {A : Type 0} (f : Result A → Reply) (m : Tx A) → Keeps R m → Preserves R (commit f m)
  unfolding commit
  Preserves-commit f m k = record {
    preserves = λ db. replied-keeps f db (scoped_rw m db) (Keeps-scoped_rw R still m k db);
  }
