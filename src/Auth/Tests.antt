-- ===== src/Auth/Tests.antt =====
-- Examples for internal/auth.
use open_blog.Base.{
  ℕ, ◌+◌, ◌≡◌, refl, false, none, some, [], ◌∷◌, Text, codes, or_else, ltb, if◌then◌else◌,
}
use open_blog.Store.Errors.{Error, ok, err}
use open_blog.Store.Rows.{Db}
use open_blog.Store.Tx.{nil_id}
use open_blog.Auth.Service.{AuthExternal, verify, logout, login}
use open_blog.Auth.Sessions.{issue-verify, login-IsRefused}
use open_blog.Samples.{sample_db}

abbrev sample_auth : AuthExternal
sample_auth = record {
  token_hash = λ t. b'h' ∷ t;
  verify_password = λ encoded password. false;
  hash_password = λ p. p;
  sql_lower = λ t. t;
  lower_table = λ c. c;
}

abbrev session_db : Db
session_db = record sample_db {
  sessions =
      record { token_hash = codes "ht"; user_id = 11; scope = some 1; expires_at = 150 } ∷ [];
}

issue-verify_example :
    (codes "t" ≡ codes "t")
    × (verify sample_auth 60 (codes "t") session_db ≡ (
        if ltb 60 (50 + 100) then ok (11, or_else (some 1) nil_id) else err Error.session_expired))
unfolding open_blog.Auth.Service.issue open_blog.Store.Tx.scoped_rw
    open_blog.Store.Accounts.insert_session
issue-verify_example =
    issue-verify sample_auth 50 60 11 100 (some 1) (codes "t") (codes "t") sample_db session_db refl

login-IsRefused_example :
    login sample_auth 50 (codes "nobody") (codes "p") (codes "t") sample_db
    ≡ (err Error.invalid_credentials, sample_db)
unfolding open_blog.Auth.Service.normalize_email open_blog.Base.to_lower open_blog.Base.lower_rune
    open_blog.Base.text_eq open_blog.Base.trim_space open_blog.Base.trim open_blog.Base.trim_left
    open_blog.Base.trim_right
login-IsRefused_example =
    login-IsRefused sample_auth 50 (codes "nobody") (codes "p") (codes "t") sample_db tt
