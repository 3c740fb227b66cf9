-- ===== src/Oauth/Providers.antt =====
-- internal/oauth/providers.go: the claims of an identity. What the endpoints answer, decoded, is given; an
-- answer that is no JSON, or whose status is not 200, is none.
use open_blog.Base.{
  Bool, false, ◌&&◌, ◌==◌, nat_eq, string_eq, text_eq_instance, if◌then◌else◌, Option, none, some,
  List, [], ◌∷◌, find, Text, String,
}
use open_blog.Base.Int.{ℤ, pos, negsuc, int_text}
use open_blog.Oauth.Scopes.{google}
use open_blog.Oauth.External.{OauthExternal, Claims, GoogleUser, GithubUser, GithubEmail}

abbrev pub google_claims : Option GoogleUser → Option Claims
google_claims none = none
google_claims (some v) =
    if v.sub == []
    then none
    else some (record {
      subject = v.sub;
      email = v.email;
      email_verified = v.email_verified;
      display_name = v.name;
    })

abbrev pub name_or_login : (name login : Text) → Text
name_or_login [] login = login
name_or_login (c ∷ s) login = c ∷ s

abbrev pub is_zero : ℤ → Bool
is_zero (pos n) = n == 0
is_zero (negsuc n) = false

-- What /user tells alone.
abbrev pub user_claims : GithubUser → Claims
user_claims u = record {
  subject = int_text u.id;
  email = u.email;
  email_verified = false;
  display_name = name_or_login u.name u.login;
}

abbrev pub is_primary : GithubEmail → Bool
is_primary e = e.verified && e.primary

abbrev first_email : List GithubEmail → Option GithubEmail
first_email [] = none
first_email (e ∷ es) = some e

-- The verified primary address, else a verified one, else the first.
abbrev pub or_else_find : Option GithubEmail → Option GithubEmail → Option GithubEmail
or_else_find (some e) o = some e
or_else_find none o = o

abbrev pub chosen_email : List GithubEmail → Option GithubEmail
chosen_email es =
    or_else_find (find is_primary es) (or_else_find (find (λ e. e.verified) es) (first_email es))

abbrev pub with_email : Claims → Option GithubEmail → Claims
with_email c none = c
with_email c (some e) = record c { email = e.email; email_verified = e.verified }

abbrev pub with_emails : Claims → Option (List GithubEmail) → Claims
with_emails c none = c
with_emails c (some es) = with_email c (chosen_email es)

abbrev pub github_claims : Option GithubUser → Option (List GithubEmail) → Option Claims
github_claims none emails = none
github_claims (some u) emails =
    if is_zero u.id then none else some (with_emails (user_claims u) emails)

-- The `claims` of a provider that is configured.
unfoldable pub claims_of : OauthExternal → (provider : String) (access_token : Text) → Option Claims
claims_of ext provider token =
    if provider == google
    then google_claims (ext.google_userinfo token)
    else github_claims (ext.github_user token) (ext.github_emails token)
