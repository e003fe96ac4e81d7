-- ===== src/Tests/OrderTests.antt =====
-- The commands of apps/orders/services.py at a concrete database.
use vidalys_flow.Common.{ℕ, ◌≡◌, refl, some}
use vidalys_flow.Text.{codes, lstrip, rstrip, strip, is_space}
use vidalys_flow.Organizations.{has_membership, has_manager_role, active_membership_for}
use vidalys_flow.Platform.Tables.{enqueue_event, record_event}
use vidalys_flow.Transaction.{Outcome, ok, committed}
use vidalys_flow.Idempotency.{claim_command, insert_receipt, complete_command}
use vidalys_flow.Idempotency.Command.{claim, once}
use vidalys_flow.Database.{Database}
use vidalys_flow.Orders.Calculations.{calculate_order, money_of_cents, money_of_signed}
use vidalys_flow.Orders.Tables.{Order, confirmed, cancelled}
use vidalys_flow.Orders.Errors.{OrderError}
use vidalys_flow.Orders.Numbering.{take_number, allocate_order_number}
use vidalys_flow.Orders.Snapshots.{customer_snapshots, first_contact}
use vidalys_flow.Orders.Services.{Request, record_change, recalculate}
use vidalys_flow.Orders.Services.Catalog.{validate_catalog_item, source_items}
use vidalys_flow.Orders.Services.Lifecycle.{
  new_order, create_order, create_order_work, confirm_order, confirm_order_work, confirm_items,
  cancel_order, cancel_order_work,
}
use vidalys_flow.Tests.Shop.{boss, maria, order, shop}
use vidalys_flow.Orders.Services.Replay.{
  create_order_again, confirm_order_again, cancel_order_again,
}

-- A digest for the witnesses.
abbrev digest : Request → ℕ
digest r = 0

abbrev cancelled_order : Order
cancelled_order = record order {
  status = cancelled;
  cancelled_at = some 1000;
  cancel_reason = codes "no stock";
  version = 3;
}

abbrev cancelling : Outcome Database OrderError Order
cancelling = cancel_order digest 1 20 boss (codes " no stock ") 2 (codes "k1") shop

cancels : cancelling ≡ ok cancelled_order (committed cancelling shop)
unfolding cancel_order cancel_order_work record_change once claim claim_command insert_receipt
    complete_command has_manager_role active_membership_for strip lstrip rstrip is_space
    enqueue_event record_event
cancels = refl

cancel_order_again_example :
    cancel_order digest 1 20 boss (codes " no stock ") 2 (codes "k1") (committed cancelling shop)
    ≡ ok cancelled_order (committed cancelling shop)
cancel_order_again_example =
    cancel_order_again digest 1 20 boss (codes " no stock ") 2 (codes "k1") shop cancelled_order
      (committed cancelling shop) cancels

abbrev confirmed_order : Order
confirmed_order = record order {
  snapshots = unfold customer_snapshots first_contact in customer_snapshots maria;
  status = confirmed;
  confirmed_at = some 1000;
  version = 3;
}

abbrev confirming : Outcome Database OrderError Order
confirming = confirm_order digest 1 20 boss 2 (codes "k2") shop

confirms : confirming ≡ ok confirmed_order (committed confirming shop)
unfolding confirm_order confirm_order_work confirm_items source_items validate_catalog_item
    recalculate calculate_order money_of_cents money_of_signed customer_snapshots record_change once
    claim claim_command insert_receipt complete_command has_membership active_membership_for strip
    lstrip rstrip is_space enqueue_event record_event
confirms = refl

confirm_order_again_example :
    confirm_order digest 1 20 boss 2 (codes "k2") (committed confirming shop)
    ≡ ok confirmed_order (committed confirming shop)
confirm_order_again_example =
    confirm_order_again digest 1 20 boss 2 (codes "k2") shop confirmed_order
      (committed confirming shop) confirms

abbrev creating : Outcome Database OrderError Order
creating = create_order digest 1 maria boss (codes "web") (codes "k3") shop

creates : creating ≡ ok (new_order 30 1 2 maria (codes "web") boss) (committed creating shop)
unfolding create_order create_order_work allocate_order_number take_number record_change once claim
    claim_command insert_receipt complete_command has_membership active_membership_for strip lstrip
    rstrip is_space enqueue_event record_event
creates = refl

create_order_again_example :
    create_order digest 1 maria boss (codes "web") (codes "k3") (committed creating shop)
    ≡ ok (new_order 30 1 2 maria (codes "web") boss) (committed creating shop)
create_order_again_example =
    create_order_again digest 1 maria boss (codes "web") (codes "k3") shop
      (new_order 30 1 2 maria (codes "web") boss) (committed creating shop) creates
