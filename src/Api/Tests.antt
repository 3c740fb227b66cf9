-- ===== src/Api/Tests.antt =====
-- Examples for the admin API.
use open_blog.Base.{
  ℕ, ◌≡◌, refl, arith, Bool, true, false, not, ◌&&◌, ◌==◌, nat_eq, text_eq_instance, Option, none,
  some, List, [], ◌∷◌, Text, codes, String, ltb, ◌+◌, ap,
}
use open_blog.Store.Rows.{Db}
use open_blog.Auth.Service.{AuthExternal}
use open_blog.Authz.Roles.{Actor, admin, owner}
use open_blog.Public.Codec.{PublicExternal}
use open_blog.Public.Pages.{Request, new_api}
use open_blog.Api.Replies.{parsed}
use open_blog.Api.Members.{InviteRequest, members_invite, members_set_role, members_remove}
use open_blog.Api.Tenants.{
  CreateRequest, UpdateRequest, tenants_create, tenants_update, tenants_delete,
}
use open_blog.Api.Session.{Credentials, session_token, authenticate, handle_set_tenant}
use open_blog.Api.Escalation.{NoNewOwner, members-NoNewOwner}
use open_blog.Api.Elsewhere.{SameElsewhere}
use open_blog.Api.Isolation.{admin-SameElsewhere}
use open_blog.Api.Admission.{IsAdmitted, authenticate-IsAdmitted}
use open_blog.Api.Switching.{StandsIn, set_tenant-StandsIn}
use open_blog.Api.Deletion.{IsGone, tenants_delete-IsGone}
use open_blog.Api.Limiter.{
  RateExternal, RateEvent, asked, ticked, new_rate_limit, verdicts, promised,
}
use open_blog.Api.Limiting.{IsForgetful, verdicts-IsPromised}
use open_blog.Samples.{sample_db, sample_id_text, editor_actor}

abbrev admin_actor : Actor
admin_actor = record { user_id = 10; tenant = some 1; role = admin; platform = false }

abbrev owner_actor : Actor
owner_actor = record { user_id = 10; tenant = some 1; role = owner; platform = false }

abbrev invite : InviteRequest
invite = record { email = some (codes "ada@x"); role = "editor" }

abbrev rename : UpdateRequest
rename = record { name = some (codes "New"); settings = none }

abbrev found : CreateRequest
found = record { slug = codes "new"; name = codes "New" }

abbrev lower : ℕ → ℕ
lower c = c

members-NoNewOwner_example :
    NoNewOwner sample_db (members_invite lower 50 7 admin_actor (parsed invite) sample_db).1
    × NoNewOwner sample_db (members_set_role admin_actor (some 11) (parsed "owner") sample_db).1
    × NoNewOwner sample_db (members_remove admin_actor (some 11) sample_db).1
members-NoNewOwner_example =
    members-NoNewOwner admin_actor lower 50 7 (parsed invite) (some 11) (parsed "owner") sample_db
      refl

admin-SameElsewhere_example :
    SameElsewhere 1 sample_db (members_invite lower 50 7 owner_actor (parsed invite) sample_db).1
    × SameElsewhere 1 sample_db
        (members_set_role owner_actor (some 11) (parsed "owner") sample_db).1
    × SameElsewhere 1 sample_db (members_remove owner_actor (some 11) sample_db).1
    × SameElsewhere 1 sample_db
        (tenants_update sample_id_text 50 8 owner_actor (some 1) (parsed rename) sample_db).1
    × SameElsewhere 1 sample_db
        (tenants_delete sample_id_text 50 8 owner_actor (some 1) sample_db).1
    × ((tenants_create 50 7 owner_actor (parsed found) sample_db).1 ≡ sample_db)
admin-SameElsewhere_example =
    admin-SameElsewhere sample_id_text lower owner_actor 1 50 7 8 (parsed invite) (some 11)
      (parsed "owner") (some 1) (parsed found) (parsed rename) sample_db refl refl

abbrev sample_auth : AuthExternal
sample_auth = record {
  token_hash = λ t. b'h' ∷ t;
  verify_password = λ encoded password. false;
  hash_password = λ p. p;
  sql_lower = λ t. t;
  lower_table = λ c. c;
}

abbrev signed_in_db : Db
signed_in_db = record sample_db {
  sessions =
      record { token_hash = codes "ht"; user_id = 11; scope = some 1; expires_at = 150 } ∷ [];
}

abbrev cookie_t : Credentials
cookie_t = record { authorization = []; cookie = some (codes "t") }

authenticate-IsAdmitted_example : IsAdmitted (codes "ht") 60 editor_actor signed_in_db
unfolding authenticate session_token open_blog.Auth.Service.verify open_blog.Store.Tx.scoped
    open_blog.Store.Accounts.get_session_by_token_hash open_blog.Base.text_eq
    open_blog.Store.Accounts.is_super_admin open_blog.Store.Accounts.membership_role
authenticate-IsAdmitted_example =
    authenticate-IsAdmitted sample_auth 60 cookie_t editor_actor signed_in_db refl

set_tenant-StandsIn_example : StandsIn 1 editor_actor (
    authenticate sample_auth 60 cookie_t
      (handle_set_tenant sample_auth
        (session_token cookie_t)
        editor_actor
        (parsed 1)
        signed_in_db).1)
unfolding open_blog.Store.Accounts.is_super_admin authenticate open_blog.Auth.Service.verify
    open_blog.Store.Tx.scoped open_blog.Store.Accounts.get_session_by_token_hash
    open_blog.Base.text_eq open_blog.Store.Accounts.membership_role handle_set_tenant
    open_blog.Store.Tx.scoped_rw open_blog.Store.Accounts.set_session_scope
set_tenant-StandsIn_example =
    set_tenant-StandsIn sample_auth 60 cookie_t 1 editor_actor signed_in_db (refl, tt) refl refl
      refl

abbrev sample_public : PublicExternal
sample_public = record {
  marshal_cursor = λ c. [];
  unmarshal_cursor = λ b. none;
  sha256_hex = λ t. t;
  contains_tag = λ m t. true;
  variants_of = λ raw. none;
  unix_nano = λ n. [];
}

abbrev front_page : Request
front_page = record { tag = []; before = []; if_none_match = [] }

tenants_delete-IsGone_example :
    IsGone sample_public 1
      (tenants_delete sample_id_text 50 8 owner_actor (some 1) sample_db).1
      sample_db
      (new_api 0 [])
      front_page
      (codes "mine")
      []
unfolding tenants_delete open_blog.Store.Tx.scoped_rw open_blog.Store.Tx.◌>>=◌
    open_blog.Posts.Service.ignoring_duplicate open_blog.Jobs.Queue.enqueue
    open_blog.Store.Platform.delete_tenant open_blog.Base.text_eq
tenants_delete-IsGone_example =
    tenants_delete-IsGone sample_public sample_id_text 50 8 1 owner_actor sample_db sample_db
      (new_api 0 []) front_page (codes "mine") [] refl refl

-- A limiter that allows one request after five quiet units.
abbrev quiet : RateExternal (Option ℕ)
quiet = record {
  new_limiter = none;
  allow = λ now l. (elim l [ none ↦ true | some t ↦ ltb (t + 5) now ], some now);
}

quiet-IsForgetful : IsForgetful quiet 5
quiet-IsForgetful l last now h =
    let e : ltb (last + 5) now ≡ true = ground arith in ap (λ b. (b, some now)) e

abbrev busy : List RateEvent
busy =
    asked 1 (codes "a")
    ∷ asked 2 (codes "a")
    ∷ asked 3 (codes "b")
    ∷ ticked 9
    ∷ asked 9 (codes "a")
    ∷ []

verdicts-IsPromised_example :
    verdicts quiet (new_rate_limit quiet 5) busy ≡ promised quiet (λ key. none) busy
verdicts-IsPromised_example =
    verdicts-IsPromised quiet 5 quiet-IsForgetful busy
      (omega arith, (omega arith, (omega arith, (omega arith, (omega arith, tt)))))
