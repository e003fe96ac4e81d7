-- ===== src/Tests/EffectTests.antt =====
-- The work of the commands of apps/orders/services.py at a concrete database.
use vidalys_flow.Common.{◌+◌, ◌==◌, replace, ℕ, ◌≡◌, refl, true, none, some, [], ◌∷◌}
use vidalys_flow.Text.{codes, lstrip, rstrip, strip, is_space}
use vidalys_flow.Platform.Tables.{enqueue_event, record_event}
use vidalys_flow.Transaction.{Outcome, ok, committed}
use vidalys_flow.Database.{Database}
use vidalys_flow.Orders.Calculations.{
  OrderAmounts, calculate_order, money_of_cents, money_of_signed,
}
use vidalys_flow.Orders.Numbering.Sequences.{IsNumbered}
use vidalys_flow.Orders.Tables.{draft, Order, confirmed, cancelled}
use vidalys_flow.Orders.Errors.{OrderError}
use vidalys_flow.Orders.Numbering.{take_number, allocate_order_number}
use vidalys_flow.Orders.Snapshots.{customer_snapshots, first_contact}
use vidalys_flow.Orders.Services.{set_orders, record_change, recalculate}
use vidalys_flow.Orders.Services.Catalog.{validate_catalog_item, source_items}
use vidalys_flow.Orders.Services.Lifecycle.{
  new_order, create_order_work, confirm_order_work, confirm_items, cancel_order_work,
}
use vidalys_flow.Tests.Shop.{boss, maria, order, shop}
use vidalys_flow.Orders.Tables.{is_draft, CommandResult}
use vidalys_flow.Orders.Transitions.{allowed}
use vidalys_flow.Orders.Services.{result_of}
use vidalys_flow.Orders.Services.Lifecycle.{change_customer_work}
use vidalys_flow.Orders.Services.Totals.{IsTotalled, retotalled, recalculate_effect}
use vidalys_flow.Orders.Services.Effects.{
  Changed, cancel_order_work_effect, change_customer_work_effect, create_order_work_effect,
}
use vidalys_flow.Orders.Services.Confirmation.{Confirmation, confirm_order_work_effect}

abbrev cancelled_order : Order
cancelled_order = record order {
  status = cancelled;
  cancelled_at = some 1000;
  cancel_reason = codes "no stock";
  version = 3;
}

abbrev cancelling : Outcome Database OrderError (Order × CommandResult)
cancelling = cancel_order_work 1 20 boss (codes "no stock") 2 (codes "k1") shop

cancels : cancelling ≡ ok (cancelled_order, result_of cancelled_order) (committed cancelling shop)
unfolding cancel_order_work record_change enqueue_event record_event
cancels = refl

cancel_order_work_effect_example :
    (before : Order) × (allowed before.status cancelled ≡ true)
    × (cancelled_order ≡ record before {
      status = cancelled;
      cancelled_at = some 1000;
      cancel_reason = codes "no stock";
      version = before.version + 1;
    })
    × (result_of cancelled_order ≡ result_of cancelled_order)
    × Changed 1 20 2 shop (committed cancelling shop) before cancelled_order
cancel_order_work_effect_example =
    cancel_order_work_effect 1 20 boss (codes "no stock") 2 (codes "k1") shop cancels

abbrev confirmed_order : Order
confirmed_order = record order {
  snapshots = unfold customer_snapshots first_contact in customer_snapshots maria;
  status = confirmed;
  confirmed_at = some 1000;
  version = 3;
}

abbrev confirming : Outcome Database OrderError (Order × CommandResult)
confirming = confirm_order_work 1 20 boss 2 (codes "k2") shop

confirms : confirming ≡ ok (confirmed_order, result_of confirmed_order) (committed confirming shop)
unfolding confirm_order_work confirm_items source_items validate_catalog_item recalculate
    calculate_order money_of_cents money_of_signed customer_snapshots record_change enqueue_event
    record_event
confirms = refl

confirm_order_work_effect_example :
    (result_of confirmed_order ≡ result_of confirmed_order)
    × (before : Order) × Confirmation 1 20 2 shop (committed confirming shop) before confirmed_order
confirm_order_work_effect_example = confirm_order_work_effect 1 20 boss 2 (codes "k2") shop confirms

abbrev changed_order : Order
changed_order = record order { version = 3 }

abbrev changing : Outcome Database OrderError (Order × CommandResult)
changing = change_customer_work 1 20 maria boss 2 shop

changes : changing ≡ ok (changed_order, result_of changed_order) (committed changing shop)
unfolding change_customer_work record_event
changes = refl

change_customer_work_effect_example :
    (before : Order) × (is_draft before.status ≡ true)
    × (changed_order ≡ record before { customer = 5; version = before.version + 1 })
    × (result_of changed_order ≡ result_of changed_order)
    × Changed 1 20 2 shop (committed changing shop) before changed_order
change_customer_work_effect_example = change_customer_work_effect 1 20 maria boss 2 shop changes

abbrev created_order : Order
created_order = new_order 30 1 2 maria (codes "web") boss

abbrev creating : Outcome Database OrderError (Order × CommandResult)
creating = create_order_work 1 maria boss (codes " web") (codes "k3") shop

creates : creating ≡ ok (created_order, result_of created_order) (committed creating shop)
unfolding create_order_work allocate_order_number take_number record_change strip lstrip rstrip
    is_space enqueue_event record_event
creates = refl

create_order_work_effect_example :
    (created_order ≡ record {
      id = 30;
      organization = 1;
      number = 2;
      customer = 5;
      status = draft;
      channel = strip (codes " web");
      subtotal = 0;
      discount_total = 0;
      surcharge_total = 0;
      total = 0;
      snapshots = record {
        customer_name = [];
        customer_document = [];
        customer_contact = none;
        shipping_address = none;
        billing_address = none;
      };
      version = 1;
      created_by = boss.id;
      confirmed_at = none;
      cancelled_at = none;
      cancel_reason = [];
    })
    × (result_of created_order ≡ record { order = 30; item = none; version = 1 })
    × IsNumbered 1 2 shop.orders.sequences (committed creating shop).orders.sequences
    × ((committed creating shop).orders.orders ≡ created_order ∷ shop.orders.orders)
    × ((committed creating shop).orders.items ≡ shop.orders.items)
create_order_work_effect_example =
    create_order_work_effect 1 maria boss (codes " web") (codes "k3") shop creates

recalculates : recalculate order shop ≡ ok order shop
unfolding recalculate calculate_order money_of_cents money_of_signed
recalculates = refl

recalculate_effect_example :
    (t : OrderAmounts) × (total : ℕ) × (order ≡ retotalled order t total)
    × IsTotalled shop.orders.items order
    × (shop ≡ set_orders (replace (λ r. r.id == order.id) order shop.orders.orders) shop)
recalculate_effect_example = recalculate_effect order shop recalculates
