-- ===== src/Orders/Services/Lifecycle.antt =====
-- `create_order`, `change_customer`, `confirm_order` and `cancel_order` of apps/orders/services.py.
use vidalys_flow.Common.{
  ℕ, suc, ◌+◌, Bool, true, false, ◌&&◌, Option, none, some, List, [], ◌∷◌, find, replace, ◌==◌,
}
use vidalys_flow.Text.{Text, codes, strip, is_empty}
use vidalys_flow.Organizations.{User}
use vidalys_flow.Catalog.{Customer, Product, ProductVariant}
use vidalys_flow.Transaction.{◌>>=◌, ◌>>◌, pure, gets, modify, raise_if, or_raise}
use vidalys_flow.Idempotency.Command.{once}
use vidalys_flow.Orders.Tables.{draft, confirmed, cancelled, Order, OrderItem, CommandResult}
use vidalys_flow.Orders.Errors.{
  OrderService, organization_mismatch, idempotency_conflict, confirmation_blocked, reason_required,
}
use vidalys_flow.Orders.Transitions.{ensure_transition}
use vidalys_flow.Orders.Numbering.{allocate_order_number}
use vidalys_flow.Orders.Snapshots.{customer_snapshots}
use vidalys_flow.Orders.Services.{
  Request, create_order_request, change_customer_request, confirm_order_request,
  cancel_order_request, order_receipts, manage, confirm, cancel, require_permission,
  require_customer, lock_order, ensure_draft, ensure_version, set_orders, save_order, audit,
  created, customer_changed, was_confirmed, was_cancelled, record_change, existing_order, items_of,
  recalculate, result_of,
}
use vidalys_flow.Orders.Services.Catalog.{validate_catalog_item, SourcedItem, source_items}

-- A row with the column defaults.
abbrev pub new_order : ℕ → ℕ → ℕ → Customer → Text → User → Order
new_order id organization number customer channel actor = record {
  id = id;
  organization = organization;
  number = number;
  customer = customer.id;
  status = draft;
  channel = channel;
  subtotal = 0;
  discount_total = 0;
  surcharge_total = 0;
  total = 0;
  snapshots = record {
    customer_name = [];
    customer_document = [];
    customer_contact = none;
    shipping_address = none;
    billing_address = none;
  };
  version = 1;
  created_by = actor.id;
  confirmed_at = none;
  cancelled_at = none;
  cancel_reason = [];
}

-- A fresh identifier.
abbrev pub next_id : OrderService ℕ
next_id = do
  id ← gets (λ s. s.journal.next_id)
  modify (λ s. record s { journal = record (s.journal) { next_id = suc s.journal.next_id } })
  pure id

-- What `create_order` does for a claim that is new.
unfoldable pub create_order_work :
    ℕ → Customer → User → Text → Text → OrderService (Order × CommandResult)
create_order_work organization customer actor channel idempotency_key = do
  number ← allocate_order_number organization
  id ← next_id
  let order = new_order id organization number customer (strip channel) actor
  modify (λ s. set_orders (order ∷ s.orders.orders) s)
  record_change
      (record {
        organization = organization;
        order = order.id;
        from_status = none;
        to_status = draft;
        actor = actor.id;
        command_id = idempotency_key;
        reason_provided = false;
      })
      order actor created idempotency_key
  pure (order, result_of order)

unfoldable pub change_customer_work :
    ℕ → ℕ → Customer → User → ℕ → OrderService (Order × CommandResult)
change_customer_work organization order_id customer actor expected_version = do
  order ← lock_order organization order_id
  ensure_draft order
  ensure_version order expected_version
  let order' = record order { customer = customer.id; version = order.version + 1 }
  save_order order'
  audit order' actor customer_changed
  pure (order', result_of order')

-- `item.product.name` and the like, written over the snapshots of a line.
abbrev pub refreshed : SourcedItem → Option Product → OrderItem → OrderItem
refreshed x none i = i
refreshed x (some p) i = record i { name_snapshot = p.name; unit_snapshot = p.default_unit }

abbrev pub refreshed_variant : Option ProductVariant → OrderItem → OrderItem
refreshed_variant none i = i
refreshed_variant (some v) i = record i { variant_snapshot = v.name; sku_snapshot = v.sku }

abbrev pub save_item : OrderItem → OrderService (Unit {0})
save_item item = modify (λ s. record s {
  orders = record (s.orders) { items = replace (λ i. i.id == item.id) item s.orders.items };
})

-- The loop over the items of `confirm_order`.
unfoldable pub confirm_items : ℕ → List SourcedItem → OrderService (Unit {0})
confirm_items organization [] = pure tt
confirm_items organization (x ∷ xs) = do
  validate_catalog_item organization x.product x.variant
  save_item (refreshed_variant x.variant (refreshed x x.product x.item))
  confirm_items organization xs

abbrev pub is_nil {ℓ} : {A : Type ℓ} → List A → Bool
is_nil [] = true
is_nil (x ∷ xs) = false

unfoldable pub confirm_order_work : ℕ → ℕ → User → ℕ → Text → OrderService (Order × CommandResult)
confirm_order_work organization order_id actor expected_version idempotency_key = do
  order ← lock_order organization order_id
  ensure_version order expected_version
  ensure_transition order.status confirmed
  customer ←
      or_raise
        (← gets (λ s.
          find (λ c. c.organization == organization && c.id == order.customer) s.catalog.customers))
        organization_mismatch
  items ← source_items organization (← gets (λ s. items_of order.id s.orders.items))
  require_customer organization customer
  raise_if (is_nil items) confirmation_blocked
  confirm_items organization items
  totalled ← recalculate order
  now ← gets (λ s. s.journal.now)
  let order' = record totalled {
    snapshots = customer_snapshots customer;
    status = confirmed;
    confirmed_at = some now;
    version = totalled.version + 1;
  }
  save_order order'
  record_change
      (record {
        organization = organization;
        order = order'.id;
        from_status = some draft;
        to_status = confirmed;
        actor = actor.id;
        command_id = idempotency_key;
        reason_provided = false;
      })
      order' actor was_confirmed idempotency_key
  pure (order', result_of order')

unfoldable pub cancel_order_work :
    ℕ → ℕ → User → Text → ℕ → Text → OrderService (Order × CommandResult)
cancel_order_work organization order_id actor reason expected_version idempotency_key = do
  order ← lock_order organization order_id
  ensure_version order expected_version
  ensure_transition order.status cancelled
  now ← gets (λ s. s.journal.now)
  let order' = record order {
    status = cancelled;
    cancelled_at = some now;
    cancel_reason = reason;
    version = order.version + 1;
  }
  save_order order'
  record_change
      (record {
        organization = organization;
        order = order'.id;
        from_status = some order.status;
        to_status = cancelled;
        actor = actor.id;
        command_id = idempotency_key;
        reason_provided = true;
      })
      order' actor was_cancelled idempotency_key
  pure (order', result_of order')

module _ (payload_hash : Request → ℕ) where
  unfoldable pub create_order : ℕ → Customer → User → Text → Text → OrderService Order
  create_order organization customer actor channel idempotency_key = do
    require_permission actor organization manage
    require_customer organization customer
    once order_receipts idempotency_conflict organization (codes "create_order") idempotency_key
        (payload_hash (create_order_request customer.id (strip channel)))
        (create_order_work organization customer actor channel idempotency_key) existing_order

  unfoldable pub change_customer : ℕ → ℕ → Customer → User → ℕ → Text → OrderService Order
  change_customer organization order_id customer actor expected_version idempotency_key = do
    require_permission actor organization manage
    require_customer organization customer
    once order_receipts idempotency_conflict organization (codes "change_customer") idempotency_key
        (payload_hash (change_customer_request order_id customer.id expected_version))
        (change_customer_work organization order_id customer actor expected_version) existing_order

  unfoldable pub confirm_order : ℕ → ℕ → User → ℕ → Text → OrderService Order
  confirm_order organization order_id actor expected_version idempotency_key = do
    require_permission actor organization confirm
    once order_receipts idempotency_conflict organization (codes "confirm_order") idempotency_key
        (payload_hash (confirm_order_request order_id expected_version))
        (confirm_order_work organization order_id actor expected_version idempotency_key)
        existing_order

  unfoldable pub cancel_order : ℕ → ℕ → User → Text → ℕ → Text → OrderService Order
  cancel_order organization order_id actor reason expected_version idempotency_key = do
    require_permission actor organization cancel
    let normalized_reason = strip reason
    raise_if (is_empty normalized_reason) reason_required
    once order_receipts idempotency_conflict organization (codes "cancel_order") idempotency_key
        (payload_hash (cancel_order_request order_id normalized_reason expected_version))
        (cancel_order_work organization order_id actor normalized_reason expected_version
          idempotency_key)
        existing_order
