-- ===== src/Organizations/Services.antt =====
-- `deactivate_membership` of apps/organizations/services.py. A membership is known by its
-- organization and its user, which are unique together.
pub mod Owners
use vidalys_flow.Common.{
  ℕ, Bool, true, false, ◌&&◌, List, any, find, select, replace, length, leb, ◌==◌,
}
use vidalys_flow.Transaction.{Service, ◌>>=◌, ◌>>◌, pure, gets, modify, unless, raise_if, or_raise}
use vidalys_flow.Organizations.{Role, owner, Membership, Directory}

-- `LastActiveOwnerError`, and what `get` raises.
pub data OrganizationError : Type 0 where
  last_active_owner does_not_exist : OrganizationError

abbrev pub DirectoryService : Type 0 → Type 0
DirectoryService = Service Directory OrganizationError

abbrev pub is_membership : ℕ → ℕ → Membership → Bool
is_membership organization user m = m.organization == organization && m.user == user

abbrev pub is_owner : Role → Bool
is_owner owner = true
is_owner _ = false

abbrev pub is_active_owner : ℕ → Membership → Bool
is_active_owner organization m = m.organization == organization && is_owner m.role && m.is_active

abbrev pub active_owner_count : ℕ → List Membership → ℕ
active_owner_count organization rows = length (select (is_active_owner organization) rows)

abbrev pub inactive : Membership → Membership
inactive m = record m { is_active = false }

abbrev pub deactivate_locked : ℕ → ℕ → Bool → Membership → DirectoryService Membership
deactivate_locked organization user false locked = pure locked
deactivate_locked organization user true locked = do
  owners ← gets (λ d. active_owner_count organization d.memberships)
  raise_if (is_owner locked.role && leb owners 1) last_active_owner
  modify (λ d. record d {
    memberships = replace (is_membership organization user) (inactive locked) d.memberships;
  })
  pure (inactive locked)

unfoldable pub deactivate_membership : ℕ → ℕ → DirectoryService Membership
deactivate_membership organization user = do
  is_known ← gets (λ d. any (λ o. o.id == organization) d.organizations)
  unless is_known does_not_exist
  locked ←
      or_raise (← gets (λ d. find (is_membership organization user) d.memberships)) does_not_exist
  deactivate_locked organization user locked.is_active locked
