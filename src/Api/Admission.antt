-- ===== src/Api/Admission.antt =====
-- internal/api/middleware.go: whom the middleware `auth` admits.
use open_blog.Base.{
  ℕ, ◌≡◌, ◌<◌, ◌⊎◌, refl, ◌∙◌, arith, false, ◌==◌, nat_eq, text_eq_instance, Option, none, some,
  Text, find, or_else, Bool-cases, inl, inr,
}
use open_blog.Store.Errors.{Error, Result, ok, err}
use open_blog.Store.Rows.{Db, Session}
use open_blog.Store.Tx.{nil_id, row, no_rows_as, scoped}
use open_blog.Store.Accounts.{has_hash, get_session_by_token_hash}
use open_blog.Authz.Roles.{Actor, author, resolve_actor}
use open_blog.Authz.Resolve.{IsGiven, resolve_actor-IsGiven}
use open_blog.Auth.Service.{AuthExternal, checked, verify}
use open_blog.Api.Session.{Credentials, session_token, actor_or_session, actor_of, authenticate}

abbrev pub session_only : ℕ → Actor
session_only user = record { user_id = user; tenant = none; role = author; platform = false }

-- The session has not expired, and the actor is what the tables give its user in its tenant, or, where it
-- has no tenant, an actor who belongs to none.
pub record IsAdmitted (hash : Text) (now : ℕ) (a : Actor) (db : Db) : Type 0 where
  pub session : Session
  pub stored : find (has_hash hash) db.sessions ≡ some session
  pub live : now < session.expires_at
  pub given :
      IsGiven session.user_id (or_else session.scope nil_id) db a
      ⊎ ((or_else session.scope nil_id ≡ nil_id) × (a ≡ session_only session.user_id))

checked-session :
    (now user tenant : ℕ) (o : Option Session) (e : Error)
    → checked now (no_rows_as e (row o)) ≡ ok (user, tenant)
    → (s : Session) × (o ≡ some s)
      × (now < s.expires_at)
      × (s.user_id ≡ user)
      × (or_else s.scope nil_id ≡ tenant)
checked-session now user tenant none e h = cc
checked-session now user tenant (some s) e h = (s, refl, ground arith, ground arith, ground arith)

actor_or_session-IsGiven :
    (user tenant : ℕ) (a : Actor) (db : Db) (r : Result Actor)
    → resolve_actor user tenant db ≡ r
    → actor_or_session user tenant r ≡ some a
    → IsGiven user tenant db a ⊎ ((tenant ≡ nil_id) × (a ≡ session_only user))
actor_or_session-IsGiven user tenant a db (ok b) e h =
    inl (resolve_actor-IsGiven user tenant db a (e ∙ ground arith))
actor_or_session-IsGiven user tenant a db (err Error.not_member) e h =
    elim (Bool-cases (tenant == nil_id)) [
      | inl z ↦ inr (ground arith, ground arith)
      | inr z ↦ absurd (ground arith)
    ]
actor_or_session-IsGiven user tenant a db (err x) e h = cc

actor_of-IsAdmitted :
    (hash : Text) (now : ℕ) (a : Actor) (db : Db) (r : Result (ℕ × ℕ))
    → checked now (no_rows_as Error.no_session (row (find (has_hash hash) db.sessions))) ≡ r
    → actor_of db r ≡ some a
    → IsAdmitted hash now a db
unfolding scoped
actor_of-IsAdmitted hash now a db (err e) h k = cc
actor_of-IsAdmitted hash now a db (ok (user, tenant)) h k =
    let (s, stored, live, u, t) =
      checked-session now user tenant (find (has_hash hash) db.sessions) Error.no_session h in
    record {
      session = s;
      stored = stored;
      live = live;
      given =
          rw (u, t)
            (actor_or_session-IsGiven user tenant a db (resolve_actor user tenant db) refl k);
    }

-- Whoever the middleware admits holds the token of a stored session that has not expired. The actor is what
-- the tables give the session's user in the session's tenant, or, for a session without a tenant alone, an
-- actor who belongs to no tenant and not to the platform.
pub authenticate-IsAdmitted :
    (auth_ext : AuthExternal) (now : ℕ) (c : Credentials) (a : Actor) (db : Db)
    → authenticate auth_ext now c db ≡ some a
    → IsAdmitted (auth_ext.token_hash (session_token c)) now a db
unfolding authenticate verify scoped get_session_by_token_hash
authenticate-IsAdmitted auth_ext now c a db h =
    actor_of-IsAdmitted (auth_ext.token_hash (session_token c)) now a db _ refl h
