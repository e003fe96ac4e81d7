-- ===== src/Orders/Services/Items.antt =====
-- `add_item`, `update_item` and `remove_item` of apps/orders/services.py.
use vidalys_flow.Common.{
  ℕ, zero, suc, Bool, true, false, ◌&&◌, ◌||◌, not, Option, none, some, List, [], ◌∷◌, find,
  exclude, max_of, ◌==◌,
}
use vidalys_flow.Text.{Text, codes, strip, is_empty, text_eq}
use vidalys_flow.Numeric.{ℤ, Decimal}
use vidalys_flow.Organizations.{User}
use vidalys_flow.Catalog.{Product, ProductVariant}
use vidalys_flow.Transaction.{◌>>=◌, ◌>>◌, pure, gets, modify, raise_if, or_raise}
use vidalys_flow.Idempotency.Command.{once}
use vidalys_flow.Database.{Database}
use vidalys_flow.Orders.Calculations.{LineAmounts, calculate_line, money, quantity}
use vidalys_flow.Orders.Tables.{Order, OrderItem, CommandResult}
use vidalys_flow.Orders.Errors.{
  OrderService, organization_mismatch, idempotency_conflict, invalid_item,
}
use vidalys_flow.Orders.Services.{
  Request, add_item_request, update_item_request, remove_item_request, order_receipts, manage,
  adjust, require_permission, lock_order, ensure_draft, ensure_version, audit, item_added,
  item_updated, item_removed, existing_order, existing_item, items_of, calculated, recalculate,
  finish_mutation, result_of,
}
use vidalys_flow.Orders.Services.Surcharge.{validate_surcharge}
use vidalys_flow.Orders.Services.Catalog.{validate_catalog_item}
use vidalys_flow.Orders.Services.Lifecycle.{next_id, save_item}

abbrev pub set_items : List OrderItem → Database → Database
set_items rows s = record s { orders = record (s.orders) { items = rows } }

abbrev pub item_result : Order → OrderItem → CommandResult
item_result order item = record { order = order.id; item = some item.id; version = order.version }

abbrev pub is_positive : ℕ → Bool
is_positive zero = false
is_positive (suc n) = true

-- `name or (product.name if product else "")`
abbrev pub item_name : Text → Option Product → Text
item_name [] none = []
item_name [] (some p) = p.name
item_name (c ∷ cs) p = c ∷ cs

-- `.strip().lower() or "un"`
abbrev pub unit_or_default : Text → Text
unit_or_default [] = codes "un"
unit_or_default (c ∷ cs) = c ∷ cs

abbrev pub unit_of : Option Product → Text → Text
unit_of none unit = unit
unit_of (some p) unit = p.default_unit

abbrev pub product_id : Option Product → Option ℕ
product_id none = none
product_id (some p) = some p.id

abbrev pub variant_id : Option ProductVariant → Option ℕ
variant_id none = none
variant_id (some v) = some v.id

abbrev pub variant_name : Option ProductVariant → Text
variant_name none = []
variant_name (some v) = v.name

abbrev pub variant_sku : Option ProductVariant → Text
variant_sku none = []
variant_sku (some v) = v.sku

-- The arguments of `add_item` that describe the line.
pub record NewItem : Type 0 where
  pub product : Option Product
  pub variant : Option ProductVariant
  pub name : Text
  pub unit : Text
  pub quantity : Decimal
  pub unit_price : Decimal
  pub discount_amount : Decimal
  pub surcharge_amount : Decimal
  pub surcharge_reason : Text
  pub notes : Text

-- The row that `add_item` inserts. `lower` is `str.lower`.
abbrev pub item_row :
    (Text → Text) → ℕ → ℕ → ℕ → ℕ → NewItem → Option Product → Text → LineAmounts → OrderItem
item_row lower id organization order position new product name line = record {
  id = id;
  organization = organization;
  order = order;
  position = position;
  product = product_id product;
  variant = variant_id new.variant;
  name_snapshot = name;
  variant_snapshot = variant_name new.variant;
  sku_snapshot = variant_sku new.variant;
  unit_snapshot = unit_or_default (lower (strip (unit_of product new.unit)));
  quantity = line.quantity;
  unit_price = line.unit_price;
  gross_total = line.gross_total;
  discount_amount = line.discount_amount;
  surcharge_amount = line.surcharge_amount;
  surcharge_reason = strip new.surcharge_reason;
  total = line.total;
  notes = strip new.notes;
}

unfoldable pub add_item_work :
    (Text → Text)
    → ℕ
    → ℕ
    → User
    → ℕ
    → NewItem
    → Option Product
    → Text
    → LineAmounts
    → OrderService (OrderItem × CommandResult)
add_item_work lower organization order_id actor expected_version new product name line = do
  order ← lock_order organization order_id
  ensure_draft order
  ensure_version order expected_version
  position ← gets (λ s. suc (max_of (λ i. i.position) (items_of order.id s.orders.items)))
  id ← next_id
  let item = item_row lower id organization order.id position new product name line
  modify (λ s. set_items (item ∷ s.orders.items) s)
  totalled ← recalculate order
  order' ← finish_mutation totalled
  audit order' actor item_added
  pure (item, item_result order' item)

-- A column of money or of quantity, as the decimal that is read back.
abbrev pub stored : ℕ → ℕ → Decimal
stored places n = record { negative = false; coefficient = n; places = places }

abbrev pub or_stored : ℕ → ℕ → Option Decimal → Decimal
or_stored places n none = stored places n
or_stored places n (some d) = d

abbrev pub or_old : Text → Option Text → Text
or_old old none = old
or_old old (some t) = strip t

-- The arguments of `update_item`; `none` leaves the column.
pub record ItemChanges : Type 0 where
  pub quantity : Option Decimal
  pub unit_price : Option Decimal
  pub discount_amount : Option Decimal
  pub surcharge_amount : Option Decimal
  pub surcharge_reason : Option Text
  pub notes : Option Text

abbrev pub is_item : ℕ → ℕ → ℕ → OrderItem → Bool
is_item organization order id i = i.organization == organization && i.order == order && i.id == id

abbrev pub adjustment_changed : LineAmounts → Text → OrderItem → Bool
adjustment_changed line reason item =
    not (line.discount_amount == item.discount_amount)
    || not (line.surcharge_amount == item.surcharge_amount)
    || not (text_eq reason item.surcharge_reason)

abbrev pub require_adjust : Bool → User → ℕ → OrderService (Unit {0})
require_adjust false actor organization = pure tt
require_adjust true actor organization = require_permission actor organization adjust

abbrev pub changed_item : OrderItem → LineAmounts → Text → Text → OrderItem
changed_item item line reason notes = record item {
  quantity = line.quantity;
  unit_price = line.unit_price;
  gross_total = line.gross_total;
  discount_amount = line.discount_amount;
  surcharge_amount = line.surcharge_amount;
  surcharge_reason = reason;
  total = line.total;
  notes = notes;
}

unfoldable pub update_item_work :
    (Text → Text)
    → ℕ
    → OrderItem
    → User
    → ℕ
    → ItemChanges
    → OrderService (OrderItem × CommandResult)
update_item_work nfkd organization given actor expected_version changes = do
  order ← lock_order organization given.order
  ensure_draft order
  ensure_version order expected_version
  item ←
      or_raise (← gets (λ s. find (is_item organization order.id given.id) s.orders.items))
        organization_mismatch
  line ← calculated (
      calculate_line (or_stored 3 item.quantity changes.quantity)
        (or_stored 2 item.unit_price changes.unit_price)
        (or_stored 2 item.discount_amount changes.discount_amount)
        (or_stored 2 item.surcharge_amount changes.surcharge_amount))
  let reason = or_old item.surcharge_reason changes.surcharge_reason
  require_adjust (adjustment_changed line reason item) actor organization
  validate_surcharge nfkd line.surcharge_amount reason
  let item' = changed_item item line reason (or_old item.notes changes.notes)
  save_item item'
  totalled ← recalculate order
  order' ← finish_mutation totalled
  audit order' actor item_updated
  pure (item', item_result order' item')

unfoldable pub remove_item_work : ℕ → OrderItem → User → ℕ → OrderService (Order × CommandResult)
remove_item_work organization given actor expected_version = do
  order ← lock_order organization given.order
  ensure_draft order
  ensure_version order expected_version
  item ←
      or_raise (← gets (λ s. find (is_item organization order.id given.id) s.orders.items))
        organization_mismatch
  modify (λ s. set_items (exclude (λ i. i.id == item.id) s.orders.items) s)
  totalled ← recalculate order
  order' ← finish_mutation totalled
  audit order' actor item_removed
  pure (order', result_of order')

-- `str(money(x)) if x is not None else None` and the like, in the payload of `update_item`.
abbrev pub optional : (Decimal → OrderService ℤ) → Option Decimal → OrderService (Option ℤ)
optional f none = pure none
optional f (some d) = do pure (some (← f d))

abbrev pub stripped : Option Text → Option Text
stripped none = none
stripped (some t) = some (strip t)

-- `lower` and `nfkd` are Python's; `payload_hash` digests the payload.
module _ (payload_hash : Request → ℕ) (lower nfkd : Text → Text) where
  unfoldable pub add_item : ℕ → ℕ → User → ℕ → Text → NewItem → OrderService OrderItem
  add_item organization order_id actor expected_version idempotency_key new = do
    require_permission actor organization manage
    line ←
        calculated
          (calculate_line new.quantity new.unit_price new.discount_amount new.surcharge_amount)
    require_adjust (is_positive line.discount_amount || is_positive line.surcharge_amount) actor
        organization
    validate_surcharge nfkd line.surcharge_amount new.surcharge_reason
    product ← validate_catalog_item organization new.product new.variant
    let name = strip (item_name new.name product)
    raise_if (is_empty name) invalid_item
    once order_receipts idempotency_conflict organization (codes "add_item") idempotency_key
        (payload_hash (
          add_item_request order_id expected_version (product_id product) (variant_id new.variant)
            name new.unit line.quantity line.unit_price line.discount_amount line.surcharge_amount
            (strip new.surcharge_reason) (strip new.notes)))
        (add_item_work lower organization order_id actor expected_version new product name line)
        existing_item

  unfoldable pub update_item :
      ℕ → OrderItem → User → ℕ → Text → ItemChanges → OrderService OrderItem
  update_item organization given actor expected_version idempotency_key changes = do
    require_permission actor organization manage
    q ← optional (λ d. calculated (quantity d)) changes.quantity
    p ← optional (λ d. calculated (money d)) changes.unit_price
    d ← optional (λ d. calculated (money d)) changes.discount_amount
    u ← optional (λ d. calculated (money d)) changes.surcharge_amount
    once order_receipts idempotency_conflict organization (codes "update_item") idempotency_key
        (payload_hash (
          update_item_request given.order given.id expected_version q p d u
            (stripped changes.surcharge_reason) (stripped changes.notes)))
        (update_item_work nfkd organization given actor expected_version changes) existing_item

  unfoldable pub remove_item : ℕ → OrderItem → User → ℕ → Text → OrderService Order
  remove_item organization given actor expected_version idempotency_key = do
    require_permission actor organization manage
    once order_receipts idempotency_conflict organization (codes "remove_item") idempotency_key
        (payload_hash (remove_item_request given.order given.id expected_version))
        (remove_item_work organization given actor expected_version) existing_order
