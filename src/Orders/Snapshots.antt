-- ===== src/Orders/Snapshots.antt =====
-- apps/orders/snapshots.py.
use vidalys_flow.Common.{
  ℕ, Bool, ◌&&◌, ◌||◌, Option, none, some, List, [], ◌∷◌, find, ltb, ◌==◌, if◌then◌else◌,
}
use vidalys_flow.Catalog.{
  ContactKind, whatsapp, phone, email, ContactPoint, AddressFields, CustomerAddress, Customer,
}
use vidalys_flow.Orders.Tables.{ContactSnapshot, Snapshots}

abbrev pub contact_priority : ContactKind → ℕ
contact_priority whatsapp = 0
contact_priority phone = 1
contact_priority email = 2

-- `not item.is_primary`, as Python orders it.
abbrev pub secondary : ContactPoint → ℕ
secondary c = if c.is_primary then 0 else 1

-- The order of the sort key `(not is_primary, priority, created_at)`.
abbrev pub before : ContactPoint → ContactPoint → Bool
before a b =
    ltb (secondary a) (secondary b)
    || (secondary a == secondary b
        && (ltb (contact_priority a.kind) (contact_priority b.kind)
            || (contact_priority a.kind == contact_priority b.kind
                && ltb a.created_at b.created_at)))

-- The first of the sorted active contacts: of equal keys the earlier row, since the sort is stable.
unfoldable pub first_contact : List ContactPoint → Option ContactPoint
first_contact [] = none
first_contact (c ∷ cs) =
    let rest = first_contact cs in
    if c.is_active
    then elim rest [ none ↦ some c | some d ↦ some (if before d c then d else c) ]
    else rest

abbrev pub contact_snapshot : Option ContactPoint → Option ContactSnapshot
contact_snapshot none = none
contact_snapshot (some c) = some (record { kind = c.kind; value = c.normalized_value })

abbrev pub address_snapshot : Option CustomerAddress → Option AddressFields
address_snapshot none = none
address_snapshot (some a) = some a.fields

unfoldable pub customer_snapshots : Customer → Snapshots
unfolding first_contact
customer_snapshots customer = record {
  customer_name = customer.display_name;
  customer_document = customer.document_normalized;
  customer_contact = contact_snapshot (first_contact customer.contacts);
  shipping_address =
      address_snapshot (find (λ a. a.is_active && a.is_default_shipping) customer.addresses);
  billing_address =
      address_snapshot (find (λ a. a.is_active && a.is_default_billing) customer.addresses);
}
