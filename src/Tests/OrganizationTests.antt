-- ===== src/Tests/OrganizationTests.antt =====
-- apps/organizations/services.py at a concrete directory.
use vidalys_flow.Common.{◌≡◌, ◌≤◌, refl, true, [], ◌∷◌, arith}
use vidalys_flow.Transaction.{Outcome, ok, raised, committed}
use vidalys_flow.Organizations.{owner, manager, Membership, Directory}
use vidalys_flow.Organizations.Services.{
  OrganizationError, last_active_owner, active_owner_count, inactive, deactivate_membership,
}
use vidalys_flow.Organizations.Services.Owners.{deactivate_membership_owners}

abbrev first_owner : Membership
first_owner = record { organization = 1; user = 1; role = owner; is_active = true }

abbrev second_owner : Membership
second_owner = record { organization = 1; user = 2; role = owner; is_active = true }

abbrev office : Directory
office = record {
  organizations = record { id = 1; is_active = true } ∷ [];
  units = [];
  memberships =
      first_owner
      ∷ second_owner
      ∷ record { organization = 1; user = 3; role = manager; is_active = true }
      ∷ [];
}

abbrev leaving : Outcome Directory OrganizationError Membership
leaving = deactivate_membership 1 2 office

leaves : leaving ≡ ok (inactive second_owner) (committed leaving office)
unfolding deactivate_membership
leaves = refl

deactivate_membership_owners_example :
    1 ≤ active_owner_count 1 (committed leaving office).memberships
deactivate_membership_owners_example =
    deactivate_membership_owners 1 1 2 office (inactive second_owner) (committed leaving office)
      (refl, (refl, (refl, tt))) (omega arith) leaves

-- The owner who is left cannot go.
stays_on : deactivate_membership 1 1 (committed leaving office) ≡ raised last_active_owner
unfolding deactivate_membership
stays_on = refl
