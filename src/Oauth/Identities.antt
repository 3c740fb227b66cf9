-- ===== src/Oauth/Identities.antt =====
-- internal/oauth/link.go and `resolveIdentity` of internal/oauth/oauth.go: identities and invitations.
use open_blog.Base.{
  ℕ, not, ◌&&◌, ◌==◌, nat_eq, string_eq, text_eq_instance, if◌then◌else◌, Option, none, some, [],
  Text, String,
}
use open_blog.Store.Errors.{Error, Result, ok, err}
use open_blog.Store.Rows.{Db, Identity, Invitation, User}
use open_blog.Store.Tx.{Read, Tx, nil_id, pure, guard, read, ◌>>=◌, ◌>>◌, scoped_rw}
use open_blog.Store.Accounts.{add_membership_if_absent}
use open_blog.Store.Users.{get_user_by_email, create_user}
use open_blog.Store.Oauth.{get_identity, insert_identity, consume_pending_invitation}
use open_blog.Auth.Service.{AuthExternal, normalize_email, before_at, display_name_of}
use open_blog.Oauth.External.{OauthExternal, Oauth, Claims}

-- `ErrNoRows` as none; any other error passes.
abbrev pub optional_result {ℓ} : {A : Type ℓ} → Result A → Result (Option A)
optional_result (ok a) = ok (some a)
optional_result (err Error.no_rows) = ok none
optional_result (err e) = err e

unfoldable pub optional : {A : Type 0} → Read A → Read (Option A)
optional m db = optional_result (m db)

abbrev pub optional_end : {A : Type 0} → Db → Result (A × Db) → Result (Option A × Db)
optional_end db (ok (a, db')) = ok (some a, db')
optional_end db (err Error.no_rows) = ok (none, db)
optional_end db (err e) = err e

-- A statement that finds no row does not end the transaction.
unfoldable pub optional_tx : {A : Type 0} → Tx A → Tx (Option A)
optional_tx m db = optional_end db (m db)

module _ (ext : OauthExternal) (auth_ext : AuthExternal) (o : Oauth) where
  open ext use {sql_lower}

  -- `linkIdentityTx`. An insert that fails has ended Postgres' transaction, so the read after it fails as
  -- well, and the error of the insert is the result.
  unfoldable pub link_found : ℕ → String → Text → Option Identity → Tx (Unit {0})
  link_found user provider subject (some i) = guard (i.user_id == user) Error.identity_taken
  link_found user provider subject none = insert_identity provider subject user

  unfoldable pub link_identity_tx : ℕ → String → Text → Tx (Unit {0})
  unfolding link_found optional
  link_identity_tx user provider subject = do
    existing ← read (optional (get_identity provider subject))
    link_found user provider subject existing

  -- `LinkIdentity`.
  unfoldable pub link_identity : ℕ → String → Text → Db → Result (Unit {0}) × Db
  unfolding link_identity_tx
  link_identity user provider subject db =
      if user == nil_id
      then (err Error.invalid_user_id, db)
      else if subject == []
      then (err Error.missing_subject, db)
      else scoped_rw (link_identity_tx user provider subject) db

  abbrev no_invitation_as : Result Invitation × Db → Result Invitation × Db
  no_invitation_as (ok i, db) = (ok i, db)
  no_invitation_as (err Error.no_rows, db) = (err Error.no_invitation, db)
  no_invitation_as (err e, db) = (err e, db)

  -- `ConsumeInvitation`.
  unfoldable pub consume_invitation : (now : ℕ) → Text → Option ℕ → Db → Result Invitation × Db
  consume_invitation now address tenant db =
      let email : Text = normalize_email auth_ext address in
      if email == []
      then (err Error.missing_email, db)
      else no_invitation_as (scoped_rw (consume_pending_invitation sql_lower now email tenant) db)

  -- `displayName`.
  unfoldable pub display_name : Claims → (email : Text) → Text
  display_name c email =
      if c.display_name == [] then display_name_of email (before_at email) else c.display_name

  unfoldable pub user_or_new : (new_id : ℕ) → Claims → (email : Text) → Option User → Tx ℕ
  user_or_new new_id c email (some u) = pure u.id
  user_or_new new_id c email none = do
    create_user sql_lower new_id email (display_name c email) none
    pure new_id

  unfoldable pub join_invited : ℕ → Option Invitation → Tx (Unit {0})
  join_invited user none = pure tt
  join_invited user (some i) = add_membership_if_absent i.tenant_id user i.role

  -- A new identity needs an address that the provider has verified.
  unfoldable pub new_identity : (now new_id : ℕ) → String → Claims → Tx ℕ
  unfolding optional optional_tx user_or_new link_identity_tx join_invited
  new_identity now new_id provider c = do
    guard (c.email_verified && not (normalize_email auth_ext c.email == [])) Error.unverified_email
    u ← read (optional (get_user_by_email sql_lower (normalize_email auth_ext c.email)))
    user ← user_or_new new_id c (normalize_email auth_ext c.email) u
    link_identity_tx user provider c.subject
    invited ←
        optional_tx
          (consume_pending_invitation sql_lower now (normalize_email auth_ext c.email) none)
    join_invited user invited
    pure user

  unfoldable pub by_identity : (now new_id : ℕ) → String → Claims → Option Identity → Tx ℕ
  unfolding new_identity
  by_identity now new_id provider c (some i) = pure i.user_id
  by_identity now new_id provider c none = new_identity now new_id provider c

  unfoldable pub resolve_identity_tx : (now new_id : ℕ) → String → Claims → Tx ℕ
  unfolding optional by_identity
  resolve_identity_tx now new_id provider c = do
    existing ← read (optional (get_identity provider c.subject))
    by_identity now new_id provider c existing

  -- `resolveIdentity`.
  unfoldable pub resolve_identity : (now new_id : ℕ) → String → Claims → Db → Result ℕ × Db
  unfolding resolve_identity_tx
  resolve_identity now new_id provider c db =
      scoped_rw (resolve_identity_tx now new_id provider c) db
