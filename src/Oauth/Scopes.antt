-- ===== src/Oauth/Scopes.antt =====
-- internal/oauth/oauth.go: lists of scopes.
use open_blog.Base.{
  true, false, not, ◌==◌, text_eq_instance, string_eq, if◌then◌else◌, Option, none, some, List, [],
  ◌∷◌, ◌++◌, select, elem, Text, String, codes, split, join, is_space,
}

-- The loop of `mergeScopes`, with what was seen.
unfoldable pub merge_from : (seen : List Text) → List Text → List Text
merge_from seen [] = []
merge_from seen (s ∷ ss) = elim (elem s seen) [
  | true ↦ merge_from seen ss
  | false ↦ s ∷ merge_from (s ∷ seen) ss
]

unfoldable pub merge_scopes : (base extra : List Text) → List Text
unfolding merge_from
merge_scopes base extra = merge_from [] (base ++ extra)

-- `scopeSet`, as the list of its members.
unfoldable pub scope_set : (joined : Text) → List Text
scope_set joined = select (λ s. not (s == [])) (split b',' joined)

-- `strings.Fields`: `cur` holds the field so far.
abbrev closed : Text → List Text → List Text
closed [] fs = fs
closed (c ∷ cur) fs = (c ∷ cur) ∷ fs

unfoldable fields_from : (cur : Text) → Text → List Text
fields_from cur [] = closed cur []
fields_from cur (c ∷ s) =
    let cut = closed cur (fields_from [] s) in
    let longer = fields_from (cur ++ c ∷ []) s in if is_space c then cut else longer

unfoldable pub fields : Text → List Text
unfolding fields_from
fields s = fields_from [] s

abbrev pub google : String
google = "google"

abbrev pub github : String
github = "github"

abbrev echoed : Option Text → List Text → Text
echoed none configured = join (b',' ∷ []) configured
echoed (some s) configured =
    if s == [] then join (b',' ∷ []) configured else join (b',' ∷ []) (fields s)

-- `grantedScopes`: `scope` is what the token's answer says of its scope.
unfoldable pub granted_scopes : String → (scope : Option Text) → (configured : List Text) → Text
unfolding fields
granted_scopes provider scope configured =
    if provider == google then echoed scope configured else join (b',' ∷ []) configured

abbrev pub drive_readonly : Text
drive_readonly = codes "https://www.googleapis.com/auth/drive.readonly"
