-- ===== src/Tests/Shop.antt =====
-- A database with one organization, its owner, a customer and a draft order of one item.
use vidalys_flow.Common.{true, none, [], ◌∷◌}
use vidalys_flow.Text.{codes}
use vidalys_flow.Organizations.{User, owner}
use vidalys_flow.Catalog.{Customer}
use vidalys_flow.Database.{Database}
use vidalys_flow.Orders.Tables.{Order, OrderItem}
use vidalys_flow.Orders.Services.Lifecycle.{new_order}

abbrev pub boss : User
boss = record { id = 1; is_authenticated = true; is_active = true }

abbrev pub maria : Customer
maria = record {
  id = 5;
  organization = 1;
  display_name = codes "Maria";
  document_normalized = [];
  merged_into = none;
  contacts = [];
  addresses = [];
}

abbrev pub item : OrderItem
item = record {
  id = 21;
  organization = 1;
  order = 20;
  position = 1;
  product = none;
  variant = none;
  name_snapshot = codes "x";
  variant_snapshot = [];
  sku_snapshot = [];
  unit_snapshot = codes "un";
  quantity = 2000;
  unit_price = 150;
  gross_total = 300;
  discount_amount = 0;
  surcharge_amount = 0;
  surcharge_reason = [];
  total = 300;
  notes = [];
}

abbrev pub order : Order
order = record (new_order 20 1 1 maria [] boss) { version = 2; subtotal = 300; total = 300 }

abbrev pub shop : Database
shop = record {
  directory = record {
    organizations = record { id = 1; is_active = true } ∷ [];
    units = [];
    memberships = record { organization = 1; user = 1; role = owner; is_active = true } ∷ [];
  };
  catalog = record { customers = maria ∷ []; products = []; variants = [] };
  journal = record { outbox = []; audit = []; next_id = 30; now = 1000 };
  orders = record {
    orders = order ∷ [];
    items = item ∷ [];
    history = [];
    sequences = record { organization = 1; next_number = 2 } ∷ [];
    receipts = [];
  };
  fulfillment = record { fulfillments = []; items = []; history = []; receipts = [] };
  payments = record {
    accounts = [];
    intents = [];
    attempts = [];
    history = [];
    webhooks = [];
    receipts = [];
  };
}
