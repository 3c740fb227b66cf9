-- ===== src/Authz/Isolation.antt =====
-- The rows that the scope of an actor sees (scope.go, with the policy of migrations/0002_rls.sql).
use open_blog.Base.{ℕ, ◌≡◌, ◌≢◌, ◌↔◌, Bool, true, Option, some, none, arith}
use open_blog.Store.Tx.{visible, nil_id}
use open_blog.Authz.Roles.{Actor, scope_at, scope_from_actor}

-- What an actor may see of the rows of tenant `u`.
abbrev pub Sees : Option ℕ → Bool → ℕ → Type 0
Sees none platform u = platform ≡ true
Sees (some t) platform u = (t ≢ nil_id) × (u ≡ t)

visible-scope_at :
    (o : Option ℕ) (platform : Bool) (u : ℕ)
    → (visible (scope_at o platform) u ≡ true) ↔ Sees o platform u
unfolding visible
visible-scope_at none platform u = (λ h. ground arith, λ h. ground arith)
visible-scope_at (some t) platform u =
    (λ h. (λ e. ground arith, ground arith), λ h. ground (arith, h.0))

-- An actor with a tenant, a super admin too, sees the rows of that tenant and of no other; one without
-- a tenant sees every row if it is a platform actor, and none otherwise.
pub visible-scope_from_actor :
    (a : Actor) (u : ℕ) → (visible (scope_from_actor a) u ≡ true) ↔ Sees a.tenant a.platform u
unfolding scope_from_actor
visible-scope_from_actor a u = visible-scope_at a.tenant a.platform u
