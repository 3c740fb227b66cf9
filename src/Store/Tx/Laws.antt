-- ===== src/Store/Tx/Laws.antt =====
-- Inversion of a successful transaction, and relations that its steps keep.
use open_blog.Base.{◌≡◌, refl, Bool, true, false, if◌then◌else◌, arith, ap}
use open_blog.Store.Errors.{Error, Result, ok, err}
use open_blog.Store.Rows.{Db}
use open_blog.Store.Tx.{
  Read, Tx, ◌>>=◌, pure, bound, guard, read, read_result, lift, settled, scoped_rw,
}

module _ {A B : Type 0} (f : A → Tx B) {b : B} {db'' : Db} where
  bound-eq-ok :
      (r : Result (A × Db))
      → bound f r ≡ ok (b, db'')
      → (a : A) × (db' : Db) × (r ≡ ok (a, db')) × (f a db' ≡ ok (b, db''))
  bound-eq-ok (ok (a, db')) k = (a, db', refl, k)
  bound-eq-ok (err x) k = cc

-- A successful `m >>= f` is a success of `m` and then one of `f`.
pub >>=-eq-ok :
    {A B : Type 0} (m : Tx A) (f : A → Tx B) (db : Db) {b : B} {db'' : Db}
    → (m >>= f) db ≡ ok (b, db'')
    → (a : A) × (db' : Db) × (m db ≡ ok (a, db')) × (f a db' ≡ ok (b, db''))
unfolding ◌>>=◌
>>=-eq-ok m f db h = bound-eq-ok f (m db) h

pub guard-eq-ok :
    (b : Bool) (e : Error) {db db' : Db} {u : Unit {0}}
    → guard b e db ≡ ok (u, db')
    → (b ≡ true) × (db' ≡ db)
unfolding guard
guard-eq-ok true e h = (refl, ground arith)
guard-eq-ok false e h = cc

read_result-eq-ok :
    {A : Type 0} (r : Result A) {a : A} {db db' : Db}
    → read_result db r ≡ ok (a, db')
    → (r ≡ ok a) × (db' ≡ db)
read_result-eq-ok (ok a) h = (ground arith, ground arith)
read_result-eq-ok (err x) h = cc

pub read-eq-ok :
    {A : Type 0} (m : Read A) {a : A} {db db' : Db}
    → read m db ≡ ok (a, db')
    → (m db ≡ ok a) × (db' ≡ db)
unfolding read
read-eq-ok m {db} h = read_result-eq-ok (m db) h

pub lift-eq-ok :
    {A : Type 0} (r : Result A) {a : A} {db db' : Db}
    → lift r db ≡ ok (a, db')
    → (r ≡ ok a) × (db' ≡ db)
unfolding lift
lift-eq-ok r h = read_result-eq-ok r h

settled-eq-ok :
    {A : Type 0} (db : Db) (r : Result (A × Db)) {a : A} {db' : Db}
    → settled db r ≡ (ok a, db')
    → r ≡ ok (a, db')
settled-eq-ok db (ok (a, db')) h = ground arith
settled-eq-ok db (err x) h = cc (ap (λ p. p.0) h)

-- A committed transaction ended without an error in the database that it leaves.
pub scoped_rw-eq-ok :
    {A : Type 0} (m : Tx A) {a : A} {db db' : Db}
    → scoped_rw m db ≡ (ok a, db')
    → m db ≡ ok (a, db')
scoped_rw-eq-ok m {db} h = unfold scoped_rw in settled-eq-ok db (m db) h

-- Each success of a transaction takes the database to one that is related to it.
pub record Keeps {A : Type 0} (R : Db → Db → Type 0) (m : Tx A) : Type 0 where
  pub keeps : (db : Db) (a : A) (db' : Db) → m db ≡ ok (a, db') → R db db'

module _ (R : Db → Db → Type 0) (still : (db : Db) → R db db) where
  subst_still : {db db' : Db} → db' ≡ db → R db db'
  subst_still {db} e = rw e (still db)

  pub Keeps-read : {A : Type 0} (m : Read A) → Keeps R (read m)
  Keeps-read m = record { keeps = λ db a db' h. subst_still (read-eq-ok m h).1 }

  pub Keeps-lift : {A : Type 0} (r : Result A) → Keeps R (lift r)
  Keeps-lift r = record { keeps = λ db a db' h. subst_still (lift-eq-ok r h).1 }

  pub Keeps-guard : (b : Bool) (e : Error) → Keeps R (guard b e)
  Keeps-guard b e = record { keeps = λ db a db' h. subst_still (guard-eq-ok b e h).1 }

  pub Keeps-pure : {A : Type 0} (a : A) → Keeps R (pure a)
  unfolding pure
  Keeps-pure a = record { keeps = λ db b db' h. subst_still (ground arith) }

  pub Keeps-if :
      {A : Type 0} (b : Bool) (m k : Tx A) → Keeps R m → Keeps R k → Keeps R (if b then m else k)
  Keeps-if true m k h h' = h
  Keeps-if false m k h h' = h'

  pub Keeps-scoped_rw : {A : Type 0} (m : Tx A) → Keeps R m → (db : Db) → R db (scoped_rw m db).1
  Keeps-scoped_rw {A} m h db = unfold scoped_rw in go (m db) refl
    where
      go : (r : Result (A × Db)) → m db ≡ r → R db (settled db r).1
      go (ok (a, db')) e = h.keeps db a db' e
      go (err x) e = still db

module _ (R : Db → Db → Type 0) (comp : (a b c : Db) → R a b → R b c → R a c) where
  pub Keeps-bind :
      {A B : Type 0} (m : Tx A) (f : A → Tx B)
      → Keeps R m
      → ((a : A) → Keeps R (f a))
      → Keeps R (m >>= f)
  Keeps-bind m f hm hf = record {
    keeps = λ db b db'' h.
        let (a, db', e, k) = >>=-eq-ok m f db h in
        comp db db' db'' (hm.keeps db a db' e) ((hf a).keeps db' b db'' k);
  }

-- The first step of a successful block, where it leaves the database alone.
module _ {A B : Type 0} (f : A → Tx B) (db : Db) {b : B} {db' : Db} where
  bound-read_result :
      (r : Result A)
      → bound f (read_result db r) ≡ ok (b, db')
      → (a : A) × (r ≡ ok a) × (f a db ≡ ok (b, db'))
  bound-read_result (ok a) h = (a, refl, h)
  bound-read_result (err x) h = cc

pub lift-bind-eq-ok :
    {A B : Type 0} (r : Result A) (f : A → Tx B) (db : Db) {b : B} {db' : Db}
    → (lift r >>= f) db ≡ ok (b, db')
    → (a : A) × (r ≡ ok a) × (f a db ≡ ok (b, db'))
unfolding ◌>>=◌
lift-bind-eq-ok r f db h = bound-read_result f db r h

pub read-bind-eq-ok :
    {A B : Type 0} (m : Read A) (f : A → Tx B) (db : Db) {b : B} {db' : Db}
    → (read m >>= f) db ≡ ok (b, db')
    → (a : A) × (m db ≡ ok a) × (f a db ≡ ok (b, db'))
unfolding ◌>>=◌
read-bind-eq-ok m f db h = bound-read_result f db (m db) h

pub guard-bind-eq-ok :
    {B : Type 0} (c : Bool) (e : Error) (f : Unit {0} → Tx B) (db : Db) {b : B} {db' : Db}
    → (guard c e >>= f) db ≡ ok (b, db')
    → (c ≡ true) × (f tt db ≡ ok (b, db'))
unfolding ◌>>=◌
guard-bind-eq-ok true e f db h = (refl, h)
guard-bind-eq-ok false e f db h = cc

pub pure-eq-ok :
    {A : Type 0} (a : A) (db : Db) {b : A} {db' : Db}
    → pure a db ≡ ok (b, db')
    → (b ≡ a) × (db' ≡ db)
unfolding pure
pure-eq-ok a db h = (ground arith, ground arith)
