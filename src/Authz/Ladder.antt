-- ===== src/Authz/Ladder.antt =====
-- What an actor may do (capability.go), and the round trip of role names (role.go).
use open_blog.Base.{
  ℕ, zero, suc, ◌≡◌, refl, ◌≤◌, ◌↔◌, ◌⊎◌, inl, inr, Bool, true, false, Option, some, none, arith,
  is_some,
}
use open_blog.Store.Errors.{ok}
use open_blog.Authz.Roles.{Actor, Capability, owner, can, role_for, role_text, parse_role}

pub eq-some_of_is_some : (o : Option ℕ) → is_some o ≡ true → (t : ℕ) × (o ≡ some t)
eq-some_of_is_some none h = cc
eq-some_of_is_some (some t) h = (t, refl)

-- What the ladder asks of an actor.
abbrev pub Holds : Actor → Capability → Type 0
Holds a cap =
    (a.platform ≡ true)
    ⊎ ((t : ℕ) × (a.tenant ≡ some t) × (role_for cap ≤ a.role) × (a.role ≤ owner))

can-Holds : (a : Actor) (cap : Capability) → can a cap ≡ true → Holds a cap
unfolding can
can-Holds a cap h = elim (eq-bool a.platform) [
  | inl p ↦ inl p
  | inr p ↦
      let (t, e) = eq-some_of_is_some a.tenant (ground arith) in
      inr (t, e, ground arith, ground arith)
]
  where
    eq-bool : (b : Bool) → (b ≡ true) ⊎ (b ≡ false)
    eq-bool true = inl refl
    eq-bool false = inr refl

Holds-can : (a : Actor) (cap : Capability) → Holds a cap → can a cap ≡ true
unfolding can
Holds-can a cap (inl p) = ground arith
Holds-can a cap (inr (t, e, low, high)) = ground arith

-- An actor holds a capability exactly when it is a platform actor, or has a tenant and a role of the
-- ladder that reaches the threshold of the capability.
pub can_iff : (a : Actor) (cap : Capability) → (can a cap ≡ true) ↔ Holds a cap
can_iff a cap = (can-Holds a cap, Holds-can a cap)

-- Every role of the ladder is parsed back from its name.
pub parse_role-role_text : (r : ℕ) → r ≤ owner → parse_role (role_text r) ≡ ok r
unfolding parse_role role_text
parse_role-role_text zero h = refl
parse_role-role_text (suc zero) h = refl
parse_role-role_text (suc (suc zero)) h = refl
parse_role-role_text (suc (suc (suc zero))) h = refl
parse_role-role_text (suc (suc (suc (suc r)))) h = absurd (omega arith)
