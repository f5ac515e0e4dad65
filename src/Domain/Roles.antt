-- ===== src/Domain/Roles.antt =====
-- src/domain/roles.ts and src/platform/auth/authorize.ts.
use institutional_tokenizati.Base.{ℕ, ◌≡◌, Bool, true, false, List, [], ◌∷◌, any, arith, ◌↔◌}

pub data AppRole : Type 0 where
  admin issuer compliance_officer approver auditor : AppRole

pub data ActorType : Type 0 where
  user system : ActorType

pub record Actor : Type 0 where
  pub type : ActorType
  pub id : ℕ
  pub organization_id : ℕ
  pub roles : List AppRole

unfoldable pub role_eq : AppRole → AppRole → Bool
role_eq admin admin = true
role_eq issuer issuer = true
role_eq compliance_officer compliance_officer = true
role_eq approver approver = true
role_eq auditor auditor = true
role_eq _ _ = false

-- The worker's own identity. `organizationId: 'system'` is organisation 0 here.
unfoldable pub system_actor : ℕ → Actor
system_actor id = record { type = system; id = id; organization_id = 0; roles = admin ∷ [] }

unfoldable pub has_role : Actor → AppRole → Bool
unfolding role_eq
has_role actor role = any (role_eq role) actor.roles

unfoldable pub has_any_role : Actor → List AppRole → Bool
unfolding has_role
has_any_role actor roles = any (has_role actor) roles

-- `requireRole` passes: the actor is the system, or holds one of the roles.
unfoldable pub is_permitted : Actor → List AppRole → Bool
unfolding has_any_role
is_permitted actor allowed = elim actor.type [ system ↦ true | user ↦ has_any_role actor allowed ]

pub role_eq_iff : (a b : AppRole) → (role_eq a b ≡ true) ↔ (a ≡ b)
unfolding role_eq
role_eq_iff a b = ground arith
