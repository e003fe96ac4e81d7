-- ===== src/Lib.antt =====
-- Vidalys Flow: the services behind the orders of a shop with several organizations.
--
-- The program is a Django project. Each application under apps/ has tables (models.py), services
-- that change them inside one database transaction (services.py), and policies that say which
-- member of an organization may do what (policies.py). A command of a service carries an
-- idempotency key: the first run writes a receipt, a second run with the same key returns the
-- earlier result. What a command did is written to the history, to the audit trail (apps/audit) and
-- to the outbox (apps/platform), from which tasks publish it.
--
-- The parts and their files:
--   Common, Common/Lists, Common/Tests: names of the libraries, Boolean tests, lists.
--   Numeric: Python's decimal module as the services use it, with half-up quantization to a number
--     of places and the default context of 28 digits. Amounts of money are in cents, quantities in
--     thousandths.
--   Text: Python's str, as code points. The classification of decimal digits (re.sub on \D and int)
--     is a parameter of Customers, since it is a table of Unicode; IsDigitTable says what the code
--     relies on.
--   Transaction: a service under transaction.atomic is a function of the database that commits a
--     result and a new database, or raises and leaves none. Transaction/Keeps: what a service
--     leaves alone.
--   Idempotency: apps/orders/idempotency.py, for every table of receipts; Idempotency/Command is
--     the skeleton that all commands share. The digest of a payload (SHA-256 of its JSON text) is a
--     parameter, a function of the request; that two requests differ is a hypothesis on digests.
--   Organizations: apps/organizations/models.py and policies.py, and apps/orders/policies.py.
--     Organizations/Services: deactivate_membership of services.py; its child Owners holds the theorem.
--   Catalog: the rows of customers and products that orders read.
--   Customers/Normalization: apps/customers/normalization.py.
--   Platform/Tables, Platform/Outbox: apps/platform/services.py, publishers.py and tasks.py, and the
--     write of apps/audit/services.py. Workers that run at the same time are sequences of steps, a
--     step for each transaction.
--   Fulfillment: apps/fulfillment. Tables (models.py), Errors (exceptions.py), Transitions
--     (transitions.py), Allocations (the quantities of services.py), Services (the shared steps of
--     services.py) and Services/Commands (create_fulfillment, replace_allocations,
--     transition_fulfillment) and Services/Events (cancel_from_order_event and
--     consume_order_cancelled_event). Allocations/Held and Bounds, the children Moves and Replay of
--     Services/Commands and Services/Events/Effects hold the theorems.
--   Database: all tables together.
--   Orders: apps/orders. Calculations (calculations.py), Tables (models.py), Errors
--     (exceptions.py), Transitions, Numbering, Snapshots, and Services (services.py) with its
--     children Surcharge, Catalog (the checks of products), Lifecycle (create_order,
--     change_customer, confirm_order, cancel_order) and Items (add_item, update_item, remove_item).
--     The other children hold the theorems.
--   Payments: apps/payments. Tables (models.py), Errors (exceptions.py), Providers (providers.py),
--     Resolution (what a confirmed resource makes of a payment) and Services (services.py) with its
--     children Checkout, Leases, Activation, Providing (callbacks and reconciliation), Cancellation,
--     Closing (reopening, and the event of a cancelled order) and Dispatch (the functions that call
--     a provider between two transactions). Tasks: tasks.py. Steps: the transactions as a relation,
--     in which members, callbacks and workers interleave; Soundness: the constraints of the tables as
--     an invariant. Resolution/Safety, Leases/Exclusion, Providing/Repeats, Closing/Settles and
--     Stored, Tasks/Idle and Resting and the children of Steps hold the theorems. Transaction/Process is code that no single transaction
--     encloses, Transaction/Preserves and Transaction/Returns reason about invariants and results.
--     Parameters: urllib's urlparse, the SHA-256 keys of callbacks and events, the adapters and the
--     setting VIDALYS_DEMO_MODE.
--   Tests: runs at concrete databases.
--
-- Identifiers (UUIDs in the program) are numbers that a transaction takes from a counter, and the
-- clock is a number that does not move inside a transaction. Rows are lists; a save by primary key
-- replaces the rows of that identifier. All recursion is on lists and texts, but for the power of
-- ten that Numeric.excess takes from a number of more than 28 digits: it has a fuel of 28 digits,
-- which is enough for 56, and a product that it rounds has two factors of at most 28.
--
-- Not modelled: views, forms, administration, selectors, settings and migrations, which are
-- requests and display around the services; messaging and integrations; the signatures of
-- callbacks in payments; the tasks that look for the events of cancelled orders in payments and in
-- fulfillment; the services of customers and products; the bootstrap of an organization; the fields
-- of payloads and of the audit trail beyond those listed in the records; the lengths of columns.
pub mod Common
pub mod Numeric
pub mod Text
pub mod Catalog
pub mod Customers
pub mod Database
pub mod Fulfillment
pub mod Idempotency
pub mod Orders
pub mod Organizations
pub mod Payments
pub mod Platform
pub mod Tests
pub mod Transaction
