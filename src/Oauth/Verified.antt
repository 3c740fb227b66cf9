-- ===== src/Oauth/Verified.antt =====
-- internal/oauth/providers.go: which address of GitHub a login takes.
use open_blog.Base.{
  ◌≡◌, refl, sym, ap, ◌∙◌, arith, Bool, true, false, not, ◌&&◌, ◌==◌, nat_eq, string_eq,
  text_eq_instance, none, some, List, [], ◌∷◌, Text, any, find, find_sound, find-none, find-any,
  Bool-cases, Option-cases, ==_refl, inl, inr, eq_of_some,
}
use mathlib.Core.Path.{subst}
use open_blog.Oauth.Scopes.{github}
use open_blog.Oauth.External.{OauthExternal, Claims, GithubUser, GithubEmail}
use open_blog.Oauth.Providers.{
  is_primary, with_email, with_emails, is_zero, user_claims, github_claims, claims_of,
}

-- Some address of the list passes the test and is the given one.
abbrev pub is_listed : (GithubEmail → Bool) → Text → List GithubEmail → Bool
is_listed p address es = any (λ e. p e && e.email == address) es

find-is_listed :
    (p : GithubEmail → Bool) (es : List GithubEmail) (x : GithubEmail)
    → find p es ≡ some x
    → is_listed p x.email es ≡ true
find-is_listed p [] x h = cc
find-is_listed p (e ∷ es) x h = elim (Bool-cases (p e)) [
  | inl k ↦
      let same : e ≡ x = eq_of_some (rw k at h) in
      let own : (e.email == x.email) ≡ true =
        ap (λ y. e.email == y.email) (sym same) ∙ ==_refl e.email in
      rw (k, own) refl
  | inr k ↦ rw k (find-is_listed p es x (rw k at h))
]

-- Where GitHub lists addresses: the claim is verified exactly if some address is; a verified claim has a
-- verified address of the list, and the primary one where that is verified.
pub record IsListed (es : List GithubEmail) (c : Claims) : Type 0 where
  pub flag : c.email_verified ≡ any (λ e. e.verified) es
  pub verified : (c.email_verified && not (is_listed (λ e. e.verified) c.email es)) ≡ false
  pub primary : (any is_primary es && not (is_listed is_primary c.email es)) ≡ false

any-sub :
    (p q : GithubEmail → Bool)
    → ((e : GithubEmail) → p e ≡ true → q e ≡ true)
    → (es : List GithubEmail) → any p es ≡ true
    → any q es ≡ true
any-sub p q s [] h = h
any-sub p q s (e ∷ es) h = ground (arith, s e, any-sub p q s es)

-- A verified address that was chosen, and is the primary one if there is such.
verified-IsListed :
    (c : Claims) (es : List GithubEmail) (x : GithubEmail)
    → find (λ e. e.verified) es ≡ some x
    → any is_primary es ≡ false
    → IsListed es (with_email c (some x))
verified-IsListed c es x h n =
    let v : x.verified ≡ true = find_sound (λ e. e.verified) es h in
    record {
      flag = v ∙ sym (find-any (λ e. e.verified) es h);
      verified = rw (v, find-is_listed (λ e. e.verified) es x h) refl;
      primary = rw n refl;
    }

primary-IsListed :
    (c : Claims) (es : List GithubEmail) (x : GithubEmail)
    → find is_primary es ≡ some x
    → IsListed es (with_email c (some x))
primary-IsListed c es x h =
    let p : is_primary x ≡ true = find_sound is_primary es h in
    let v : x.verified ≡ true = ground arith in
    let l : is_listed is_primary x.email es ≡ true = find-is_listed is_primary es x h in
    let w : is_listed (λ e. e.verified) x.email es ≡ true =
      any-sub (λ e. is_primary e && e.email == x.email) (λ e. e.verified && e.email == x.email)
        (λ e k. ground arith) es l in
    record {
      flag =
          v
          ∙ sym (
              any-sub is_primary (λ e. e.verified) (λ e k. ground arith) es
                (find-any is_primary es h));
      verified = rw (v, w) refl;
      primary = rw (find-any is_primary es h, l) refl;
    }

-- No address is verified: the first one is taken, unverified, or the one of the user.
unverified-IsListed :
    (u : GithubUser) (es : List GithubEmail)
    → find is_primary es ≡ none
    → find (λ e. e.verified) es ≡ none
    → IsListed es (with_emails (user_claims u) (some es))
unverified-IsListed u [] h k = record { flag = refl; verified = refl; primary = refl }
unverified-IsListed u (e ∷ es) h k =
    let n : any is_primary (e ∷ es) ≡ false = find-none is_primary (e ∷ es) h in
    let m : any (λ e. e.verified) (e ∷ es) ≡ false = find-none (λ e. e.verified) (e ∷ es) k in
    let v : e.verified ≡ false = ground arith in
    rw (h, k) (record { flag = v ∙ sym m; verified = rw v refl; primary = rw n refl })

emails-IsListed :
    (u : GithubUser) (es : List GithubEmail) → IsListed es (with_emails (user_claims u) (some es))
emails-IsListed u es = elim (Option-cases (find is_primary es)) [
  | inr (x, e) ↦ rw e (primary-IsListed (user_claims u) es x e)
  | inl e ↦ elim (Option-cases (find (λ e. e.verified) es)) [
    | inr (x, f) ↦ rw (e, f) (verified-IsListed (user_claims u) es x f (find-none is_primary es e))
    | inl f ↦ unverified-IsListed u es e f
  ]
]

user-IsListed :
    (u : GithubUser) (es : List GithubEmail) (c : Claims)
    → github_claims (some u) (some es) ≡ some c
    → IsListed es c
user-IsListed u es c h = elim (Bool-cases (is_zero u.id)) [
  | inl z ↦ let n : none ≡ some c = rw z at h in cc
  | inr z ↦ subst (IsListed es) (eq_of_some (rw z at h)) (emails-IsListed u es)
]

-- A login by GitHub, where the user and the list of addresses were answered, claims a verified address exactly
-- if GitHub lists one; the claimed address is then a listed and verified one, and the primary one if that is
-- verified.
pub claims_of-IsListed :
    (ext : OauthExternal) (token : Text) (u : GithubUser) (es : List GithubEmail) (c : Claims)
    → ext.github_user token ≡ some u
    → ext.github_emails token ≡ some es
    → claims_of ext github token ≡ some c
    → IsListed es c
unfolding claims_of
claims_of-IsListed ext token u es c a b h = user-IsListed u es c (rw (a, b) at h)
