-- ===== src/Oauth/ScopeLaws.antt =====
-- internal/oauth: the scopes that are asked for, and those that are recorded.
use mathlib.Core.Path.{subst}
use open_blog.Base.{
  ◌≡◌, refl, sym, ap, ◌∙◌, Bool, true, false, not, ◌&&◌, ◌||◌, ◌==◌, nat_eq, text_eq_instance,
  text_eq_iff, List, [], ◌∷◌, ◌++◌, Text, elem, select, All, All-append, All-select, Bool-cases,
  inl, inr, ==_refl, insert_by, sort_by, split, split_from, join, text_eq,
}
use open_blog.Base.Splitting.{IsPlain, split-join, split-IsPlain}
use open_blog.Store.Oauth.{scope_parts, distinct_texts, merged_scopes}
use open_blog.Oauth.Scopes.{merge_from, merge_scopes, scope_set}

-- Every member once.
abbrev pub is_nodup : List Text → Bool
is_nodup [] = true
is_nodup (s ∷ ss) = not (elem s ss) && is_nodup ss

eq-subst : (s t : Text) → (s == t) ≡ true → s ≡ t
eq-subst s t h = (text_eq_iff s t).0 h

drop_known : (a b c : Bool) → (b ≡ true → a ≡ true) → (not a && c) ≡ (not a && (b || c))
drop_known true b c h = refl
drop_known false true c h = let k : false ≡ true = h refl in cc
drop_known false false c h = refl

keep_new :
    (a b c : Bool) → (b ≡ true → a ≡ false) → (b || (not (b || a) && c)) ≡ (not a && (b || c))
keep_new true true c h = let k : true ≡ false = h refl in cc
keep_new false true c h = refl
keep_new a false c h = refl

merge_from-seen :
    (seen : List Text) (s : Text) (ss : List Text)
    → elem s seen ≡ true
    → merge_from seen (s ∷ ss) ≡ merge_from seen ss
unfolding merge_from
merge_from-seen seen s ss e = rw (e, merge_from)

merge_from-new :
    (seen : List Text) (s : Text) (ss : List Text)
    → elem s seen ≡ false
    → merge_from seen (s ∷ ss) ≡ s ∷ merge_from (s ∷ seen) ss
unfolding merge_from
merge_from-new seen s ss e = rw (e, merge_from)

elem-merge_from :
    (x : Text) (seen ss : List Text)
    → elem x (merge_from seen ss) ≡ (not (elem x seen) && elem x ss)
unfolding merge_from
elem-merge_from x seen [] = elim (Bool-cases (elem x seen)) [ inl e ↦ rw e | inr e ↦ rw e ]
elem-merge_from x seen (s ∷ ss) = elim (Bool-cases (elem s seen)) [
  | inl e ↦
      ap (elem x) (merge_from-seen seen s ss e)
      ∙ elem-merge_from x seen ss
      ∙ drop_known (elem x seen) (s == x) (elem x ss)
          (λ k. subst (λ z. elem z seen ≡ true) (eq-subst s x k) e)
  | inr e ↦
      ap (elem x) (merge_from-new seen s ss e)
      ∙ ap (λ b. s == x || b) (elem-merge_from x (s ∷ seen) ss)
      ∙ keep_new (elem x seen) (s == x) (elem x ss)
          (λ k. subst (λ z. elem z seen ≡ false) (eq-subst s x k) e)
]

nodup-merge_from : (seen ss : List Text) → is_nodup (merge_from seen ss) ≡ true
unfolding merge_from
nodup-merge_from seen [] = refl
nodup-merge_from seen (s ∷ ss) = elim (Bool-cases (elem s seen)) [
  | inl e ↦ ap is_nodup (merge_from-seen seen s ss e) ∙ nodup-merge_from seen ss
  | inr e ↦
      let new : elem s (merge_from (s ∷ seen) ss) ≡ false =
        elem-merge_from s (s ∷ seen) ss ∙ rw (==_refl s) in
      ap is_nodup (merge_from-new seen s ss e)
      ∙ ap (λ b. not b && is_nodup (merge_from (s ∷ seen) ss)) new
      ∙ nodup-merge_from (s ∷ seen) ss
]

elem-append : (x : Text) (ss ts : List Text) → elem x (ss ++ ts) ≡ (elem x ss || elem x ts)
elem-append x [] ts = refl
elem-append x (s ∷ ss) ts = elim (Bool-cases (s == x)) [
  | inl e ↦ rw e
  | inr e ↦ rw (e, elem-append x ss ts)
]

-- The scopes asked for are the configured and the extra ones, each once.
pub merge_scopes-IsUnion :
    (base extra : List Text)
    → (is_nodup (merge_scopes base extra) ≡ true)
      × ((s : Text) → elem s (merge_scopes base extra) ≡ (elem s base || elem s extra))
unfolding merge_scopes
merge_scopes-IsUnion base extra = (
  nodup-merge_from [] (base ++ extra),
  λ s. elem-merge_from s [] (base ++ extra) ∙ elem-append s base extra,
)

elem-select :
    (p : Text → Bool) (x : Text) (ss : List Text) → elem x (select p ss) ≡ (p x && elem x ss)
elem-select p x [] = elim (Bool-cases (p x)) [ inl e ↦ rw e | inr e ↦ rw e ]
elem-select p x (s ∷ ss) = elim (Bool-cases (s == x)) [
  | inl k ↦
      let same : p s ≡ p x = ap p (eq-subst s x k) in
      elim (Bool-cases (p x)) [
        | inl e ↦ rw (same, e, k)
        | inr e ↦ rw (same, e, elem-select p x ss, e)
      ]
  | inr k ↦ elim (Bool-cases (p s)) [
    | inl e ↦ rw (e, k, elem-select p x ss)
    | inr e ↦ rw (e, k, elem-select p x ss)
  ]
]

or_swap : (a b c : Bool) → (a || (b || c)) ≡ (b || (a || c))
or_swap true true c = refl
or_swap true false c = refl
or_swap false b c = refl

elem-insert_by :
    (b : Text → Text → Bool) (x s : Text) (ss : List Text)
    → elem x (insert_by b s ss) ≡ (s == x || elem x ss)
elem-insert_by b x s [] = refl
elem-insert_by b x s (t ∷ ss) = elim (Bool-cases (b s t)) [
  | inl e ↦ rw e
  | inr e ↦ rw (e, elem-insert_by b x s ss) (or_swap (t == x) (s == x) (elem x ss))
]

elem-sort_by :
    (b : Text → Text → Bool) (x : Text) (ss : List Text) → elem x (sort_by b ss) ≡ elem x ss
elem-sort_by b x [] = refl
elem-sort_by b x (s ∷ ss) = elem-insert_by b x s (sort_by b ss) ∙ rw (elem-sort_by b x ss)

elem-distinct : (x : Text) (ss : List Text) → elem x (distinct_texts ss) ≡ elem x ss
elem-distinct x [] = refl
elem-distinct x (s ∷ ss) = elim (Bool-cases (elem s (distinct_texts ss))) [
  | inl e ↦ elim (Bool-cases (s == x)) [
    | inl k ↦
        let here : elem x (distinct_texts ss) ≡ true =
          subst (λ z. elem z (distinct_texts ss) ≡ true) (eq-subst s x k) e in
        rw (e, here, k)
    | inr k ↦ rw (e, k, elem-distinct x ss)
  ]
  | inr e ↦ rw (e, elem-distinct x ss)
]

All-distinct : (P : Text → Type 0) (ss : List Text) → All P ss → All P (distinct_texts ss)
All-distinct P [] h = tt
All-distinct P (s ∷ ss) (p, h) = elim (Bool-cases (elem s (distinct_texts ss))) [
  | inl e ↦ rw e (All-distinct P ss h)
  | inr e ↦ rw e (p, All-distinct P ss h)
]

All-insert :
    (P : Text → Type 0) (b : Text → Text → Bool) (s : Text) (ss : List Text)
    → P s
    → All P ss
    → All P (insert_by b s ss)
All-insert P b s [] p h = (p, tt)
All-insert P b s (t ∷ ss) p (q, h) = elim (Bool-cases (b s t)) [
  | inl e ↦ rw e (p, (q, h))
  | inr e ↦ rw e (q, All-insert P b s ss p h)
]

All-sort :
    (P : Text → Type 0) (b : Text → Text → Bool) (ss : List Text) → All P ss → All P (sort_by b ss)
All-sort P b [] h = tt
All-sort P b (s ∷ ss) (p, h) = All-insert P b s (sort_by b ss) p (All-sort P b ss h)

scope_parts-IsPlain : (s : Text) → All (IsPlain b',') (scope_parts s)
scope_parts-IsPlain [] = tt
scope_parts-IsPlain (c ∷ s) = split-IsPlain b',' (c ∷ s)

abbrev is_filled : Text → Bool
is_filled s = not (s == [])

scope_set-parts : (x s : Text) → elem x (scope_set s) ≡ (is_filled x && elem x (scope_parts s))
unfolding scope_set split split_from text_eq
scope_set-parts x [] = elim (Bool-cases (is_filled x)) [ inl e ↦ rw e | inr e ↦ rw e ]
scope_set-parts x (c ∷ s) = elem-select is_filled x (split b',' (c ∷ s))

elem-scope_set-join :
    (x : Text) (ss : List Text)
    → All (IsPlain b',') ss
    → elem x (scope_set (join (b',' ∷ []) ss)) ≡ (is_filled x && elem x ss)
unfolding scope_set join split split_from text_eq
elem-scope_set-join x [] h = elim (Bool-cases (is_filled x)) [ inl e ↦ rw e | inr e ↦ rw e ]
elem-scope_set-join x (s ∷ ss) (h, hs) =
    elem-select is_filled x (split b',' (join (b',' ∷ []) (s ∷ ss)))
    ∙ ap (λ ts. is_filled x && elem x ts) (split-join b',' s ss h hs)

and_or : (a b c : Bool) → (a && (a && (b || c))) ≡ ((a && b) || (a && c))
and_or true b c = refl
and_or false b c = refl

-- What is recorded of two grants is the union of their scopes, whatever the collation: a scope that was
-- granted once is never lost, and none appears that was not granted.
pub merged_scopes-IsUnion :
    (collate : Text → Text → Bool) (old new s : Text)
    → elem s (scope_set (merged_scopes collate old new))
      ≡ (elem s (scope_set old) || elem s (scope_set new))
unfolding merged_scopes
merged_scopes-IsUnion collate old new s =
    let parts : List Text = scope_parts old ++ scope_parts new in
    let plain : All (IsPlain b',') parts =
      All-append (IsPlain b',') (scope_parts old) (scope_parts new) (scope_parts-IsPlain old)
        (scope_parts-IsPlain new) in
    let kept : List Text = distinct_texts (select is_filled parts) in
    elem-scope_set-join s (sort_by collate kept) (
      All-sort (IsPlain b',') collate kept
        (All-distinct (IsPlain b',') _ (All-select (IsPlain b',') is_filled parts plain)))
    ∙ ap (λ b. is_filled s && b)
        (elem-sort_by collate s kept
          ∙ elem-distinct s (select is_filled parts)
          ∙ elem-select is_filled s parts
          ∙ ap (λ b. is_filled s && b) (elem-append s (scope_parts old) (scope_parts new)))
    ∙ and_or (is_filled s) (elem s (scope_parts old)) (elem s (scope_parts new))
    ∙ sym (
        ap (λ b. b || elem s (scope_set new)) (scope_set-parts s old)
        ∙ ap (λ b. (is_filled s && elem s (scope_parts old)) || b) (scope_set-parts s new))
