-- ===== src/Orders/Services/Frame.antt =====
-- What the commands of the orders leave alone: the directory, the catalog, the fulfillments and the
-- receipts, which only the skeleton of the commands writes.
use vidalys_flow.Common.{
  ℕ, List, [], ◌∷◌, Option, none, some, Bool, true, false, inl, inr, Bool-cases, ◌==◌,
}
use vidalys_flow.Text.{Text}
use vidalys_flow.Organizations.{User, Directory}
use vidalys_flow.Catalog.{Customer, CatalogTables, Product, ProductVariant}
use vidalys_flow.Idempotency.{Receipt}
use vidalys_flow.Transaction.Keeps.{Keeps, Keeps-pure, Keeps-bind, Keeps-then, keeps_rules}
use vidalys_flow.Database.{Database}
use vidalys_flow.Fulfillment.Tables.{FulfillmentTables}
use vidalys_flow.Orders.Calculations
use vidalys_flow.Orders.Calculations.{Amount, LineAmounts, OrderAmounts}
use vidalys_flow.Numeric.{ℤ, pos, negsuc}
use vidalys_flow.Orders.Tables.{
  Order, OrderItem, OrderStatusHistory, OrderNumberSequence, CommandResult,
}
use vidalys_flow.Orders.Errors.{OrderError}
use vidalys_flow.Orders.Numbering.{allocate_order_number}
use vidalys_flow.Orders.Services.{OrderEvent, record_change, calculated, with_totals, recalculate}
use vidalys_flow.Orders.Services.Surcharge.{validate_surcharge}
use vidalys_flow.Orders.Services.Catalog.{
  validate_catalog_item, resolve_product, check_product, check_variant, check_product_status,
  check_variant_status, SourcedItem, source_product, source_variant, source_items,
}
use vidalys_flow.Orders.Services.Lifecycle.{
  create_order_work, change_customer_work, save_item, confirm_items, confirm_order_work,
  cancel_order_work,
}
use vidalys_flow.Orders.Services.Items.{
  NewItem, add_item_work, ItemChanges, require_adjust, update_item_work, remove_item_work,
}

-- The services that only read keep every view.
module _ {X : Type 0} (f : Database → X) where
  resolve_product-Keeps :
      (p : Option Product) (v : Option ProductVariant) → Keeps f (resolve_product p v)
  resolve_product-Keeps none none = search keeps_rules
  resolve_product-Keeps none (some v) = search keeps_rules
  resolve_product-Keeps (some p) v = search keeps_rules

  check_product-Keeps :
      (organization : ℕ) (p : Option Product) → Keeps f (check_product organization p)
  check_product-Keeps organization none = search keeps_rules
  check_product-Keeps organization (some p) = search keeps_rules

  check_variant-Keeps :
      (organization : ℕ) (v : Option ProductVariant) (p : Option Product)
      → Keeps f (check_variant organization v p)
  check_variant-Keeps organization none p = search keeps_rules
  check_variant-Keeps organization (some v) none = search keeps_rules
  check_variant-Keeps organization (some v) (some p) = search keeps_rules

  check_product_status-Keeps : (p : Option Product) → Keeps f (check_product_status p)
  check_product_status-Keeps none = search keeps_rules
  check_product_status-Keeps (some p) = search keeps_rules

  check_variant_status-Keeps : (v : Option ProductVariant) → Keeps f (check_variant_status v)
  check_variant_status-Keeps none = search keeps_rules
  check_variant_status-Keeps (some v) = search keeps_rules

  pub validate_catalog_item-Keeps :
      (organization : ℕ) (p : Option Product) (v : Option ProductVariant)
      → Keeps f (validate_catalog_item organization p v)
  unfolding validate_catalog_item
  validate_catalog_item-Keeps organization p v =
      search
        (
          keeps_rules, resolve_product-Keeps, check_product-Keeps, check_variant-Keeps,
          check_product_status-Keeps, check_variant_status-Keeps,
        )
        depth 20

  source_product-Keeps : (organization : ℕ) (p : Option ℕ) → Keeps f (source_product organization p)
  source_product-Keeps organization none = search keeps_rules
  source_product-Keeps organization (some p) = search keeps_rules

  source_variant-Keeps : (organization : ℕ) (v : Option ℕ) → Keeps f (source_variant organization v)
  source_variant-Keeps organization none = search keeps_rules
  source_variant-Keeps organization (some v) = search keeps_rules

  pub source_items-Keeps :
      (organization : ℕ) (is : List OrderItem) → Keeps f (source_items organization is)
  unfolding source_items
  source_items-Keeps organization [] = search keeps_rules
  source_items-Keeps organization (i ∷ is) =
      Keeps-bind f _ _ (source_product-Keeps organization i.product) λ p.
        Keeps-bind f _ _ (source_variant-Keeps organization i.variant)
          λ v. Keeps-bind f _ _ (source_items-Keeps organization is) λ rest. Keeps-pure f _

pub record Untouched : Type 0 where
  pub directory : Directory
  pub catalog : CatalogTables
  pub fulfillment : FulfillmentTables
  pub receipts : List (Receipt CommandResult)

abbrev pub untouched : Database → Untouched
untouched s = record {
  directory = s.directory;
  catalog = s.catalog;
  fulfillment = s.fulfillment;
  receipts = s.orders.receipts;
}

-- The rows that the histories do not change.
pub record OrderRows : Type 0 where
  pub orders : List Order
  pub items : List OrderItem
  pub sequences : List OrderNumberSequence

abbrev pub order_rows : Database → OrderRows
order_rows s = record {
  orders = s.orders.orders;
  items = s.orders.items;
  sequences = s.orders.sequences;
}

record_change-Keeps :
    (h : OrderStatusHistory) (order : Order) (actor : User) (event : OrderEvent) (key : Text)
    → Keeps untouched (record_change h order actor event key)
unfolding record_change
record_change-Keeps h order actor event key = search keeps_rules depth 20

pub record_change-Keeps_rows :
    (h : OrderStatusHistory) (order : Order) (actor : User) (event : OrderEvent) (key : Text)
    → Keeps order_rows (record_change h order actor event key)
unfolding record_change
record_change-Keeps_rows h order actor event key = search keeps_rules depth 20

allocate-Keeps : (organization : ℕ) → Keeps untouched (allocate_order_number organization)
unfolding allocate_order_number
allocate-Keeps organization = record { at = λ s a s' h. cc }

calculated-Keeps : {A : Type 0} (m : Amount A) → Keeps untouched (calculated m)
calculated-Keeps (Calculations.valued a) = search keeps_rules
calculated-Keeps (Calculations.refused e) = search keeps_rules

with_totals-Keeps :
    (order : Order) (t : OrderAmounts) (total : ℤ) → Keeps untouched (with_totals order t total)
with_totals-Keeps order t (pos n) = search keeps_rules
with_totals-Keeps order t (negsuc n) = search keeps_rules

validate_surcharge-Keeps :
    (nfkd : Text → Text) (amount : ℕ) (reason : Text)
    → Keeps untouched (validate_surcharge nfkd amount reason)
validate_surcharge-Keeps nfkd amount reason = elim (Bool-cases (amount == 0)) [
  | inl e ↦ rw e (search keeps_rules)
  | inr e ↦ rw e (search keeps_rules)
]

save_item-Keeps : (i : OrderItem) → Keeps {E = OrderError} untouched (save_item i)
save_item-Keeps i = search keeps_rules

confirm_items-Keeps :
    (organization : ℕ) (xs : List SourcedItem) → Keeps untouched (confirm_items organization xs)
unfolding confirm_items
confirm_items-Keeps organization [] = search keeps_rules
confirm_items-Keeps organization (x ∷ xs) =
    Keeps-bind untouched _ _
      (validate_catalog_item-Keeps untouched organization x.product x.variant)
      λ p. Keeps-then untouched _ _ (save_item-Keeps _) (confirm_items-Keeps organization xs)

require_adjust-Keeps :
    (b : Bool) (actor : User) (organization : ℕ)
    → Keeps untouched (require_adjust b actor organization)
require_adjust-Keeps false actor organization = search keeps_rules
require_adjust-Keeps true actor organization = search keeps_rules

ruleset frame_rules = (
  keeps_rules, record_change-Keeps, allocate-Keeps, calculated-Keeps, with_totals-Keeps,
  validate_surcharge-Keeps, validate_catalog_item-Keeps, source_items-Keeps, confirm_items-Keeps,
  require_adjust-Keeps,
)

recalculate-Keeps : (order : Order) → Keeps untouched (recalculate order)
unfolding recalculate
recalculate-Keeps order = search frame_rules depth 20

pub create_order_work-Keeps :
    (organization : ℕ) (customer : Customer) (actor : User) (channel key : Text)
    → Keeps untouched (create_order_work organization customer actor channel key)
unfolding create_order_work
create_order_work-Keeps organization customer actor channel key = search frame_rules depth 20

pub change_customer_work-Keeps :
    (organization order_id : ℕ) (customer : Customer) (actor : User) (expected_version : ℕ)
    → Keeps untouched (change_customer_work organization order_id customer actor expected_version)
unfolding change_customer_work
change_customer_work-Keeps organization order_id customer actor expected_version =
    search frame_rules depth 20

pub cancel_order_work-Keeps :
    (organization order_id : ℕ) (actor : User) (reason : Text) (expected_version : ℕ) (key : Text)
    → Keeps untouched (cancel_order_work organization order_id actor reason expected_version key)
unfolding cancel_order_work
cancel_order_work-Keeps organization order_id actor reason expected_version key =
    search frame_rules depth 20

pub confirm_order_work-Keeps :
    (organization order_id : ℕ) (actor : User) (expected_version : ℕ) (key : Text)
    → Keeps untouched (confirm_order_work organization order_id actor expected_version key)
unfolding confirm_order_work
confirm_order_work-Keeps organization order_id actor expected_version key =
    search (frame_rules, recalculate-Keeps) depth 30 fits 20000

pub add_item_work-Keeps :
    (lower : Text → Text) (organization order_id : ℕ) (actor : User) (expected_version : ℕ)
    (new : NewItem) (product : Option Product) (name : Text) (line : LineAmounts)
    → Keeps untouched
        (add_item_work lower organization order_id actor expected_version new product name line)
unfolding add_item_work
add_item_work-Keeps lower organization order_id actor expected_version new product name line =
    search (frame_rules, recalculate-Keeps) depth 30 fits 20000

pub update_item_work-Keeps :
    (nfkd : Text → Text) (organization : ℕ) (given : OrderItem) (actor : User)
    (expected_version : ℕ) (changes : ItemChanges)
    → Keeps untouched (update_item_work nfkd organization given actor expected_version changes)
unfolding update_item_work
update_item_work-Keeps nfkd organization given actor expected_version changes =
    search (frame_rules, recalculate-Keeps) depth 30 fits 20000

pub remove_item_work-Keeps :
    (organization : ℕ) (given : OrderItem) (actor : User) (expected_version : ℕ)
    → Keeps untouched (remove_item_work organization given actor expected_version)
unfolding remove_item_work
remove_item_work-Keeps organization given actor expected_version =
    search (frame_rules, recalculate-Keeps) depth 30 fits 20000

-- A confirmation writes no order while it goes through the items.
save_item-Keeps_orders :
    (i : OrderItem) → Keeps {E = OrderError} (λ (s : Database). s.orders.orders) (save_item i)
save_item-Keeps_orders i = search keeps_rules

pub confirm_items-Keeps_orders :
    (organization : ℕ) (xs : List SourcedItem)
    → Keeps (λ (s : Database). s.orders.orders) (confirm_items organization xs)
unfolding confirm_items
confirm_items-Keeps_orders organization [] = search keeps_rules
confirm_items-Keeps_orders organization (x ∷ xs) =
    Keeps-bind _ _ _ (validate_catalog_item-Keeps _ organization x.product x.variant)
      λ p. Keeps-then _ _ _ (save_item-Keeps_orders _) (confirm_items-Keeps_orders organization xs)
