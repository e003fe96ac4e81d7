-- ===== src/Organizations.antt =====
-- The organizations application: members and their roles (apps/organizations).
pub mod Services
use vidalys_flow.Common.{ℕ, Bool, true, false, ◌&&◌, Option, none, some, List, any, find, ◌==◌}
use vidalys_flow.Text.{Text}

pub data Role : Type 0 where
  owner admin manager operator : Role

pub record User : Type 0 where
  pub id : ℕ
  pub is_authenticated : Bool
  pub is_active : Bool

pub record Organization : Type 0 where
  pub id : ℕ
  pub is_active : Bool

pub record OrganizationUnit : Type 0 where
  pub id : ℕ
  pub organization : ℕ
  pub name : Text
  pub is_active : Bool

pub record Membership : Type 0 where
  pub organization : ℕ
  pub user : ℕ
  pub role : Role
  pub is_active : Bool

-- The tables of the application.
pub record Directory : Type 0 where
  pub organizations : List Organization
  pub units : List OrganizationUnit
  pub memberships : List Membership

-- `organization__is_active=True`
abbrev pub organization_active : ℕ → Directory → Bool
organization_active organization d = any (λ o. o.id == organization && o.is_active) d.organizations

-- apps/organizations/policies.py
unfoldable pub active_membership_for : User → ℕ → Directory → Option Membership
active_membership_for user organization d = elim (user.is_authenticated && user.is_active) [
  | false ↦ none
  | true ↦
      find
        (λ m.
          m.user == user.id
          && m.organization == organization
          && organization_active organization d
          && m.is_active)
        d.memberships
]

abbrev pub is_member : Option Membership → Bool
is_member none = false
is_member (some m) = true

-- `MANAGER_ROLES` of the policies of orders, fulfillment, payments and messaging.
abbrev pub is_manager_role : Role → Bool
is_manager_role operator = false
is_manager_role _ = true

abbrev pub is_manager : Option Membership → Bool
is_manager none = false
is_manager (some m) = is_manager_role m.role

unfoldable pub has_membership : User → ℕ → Directory → Bool
has_membership user organization d = is_member (active_membership_for user organization d)

unfoldable pub has_manager_role : User → ℕ → Directory → Bool
has_manager_role user organization d = is_manager (active_membership_for user organization d)
