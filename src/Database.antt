-- ===== src/Database.antt =====
-- The database of the services: the tables of each application.
use vidalys_flow.Organizations.{Directory}
use vidalys_flow.Catalog.{CatalogTables}
use vidalys_flow.Platform.Tables.{Journal}
use vidalys_flow.Orders.Tables.{OrderTables}
use vidalys_flow.Fulfillment.Tables.{FulfillmentTables}
use vidalys_flow.Payments.Tables.{PaymentTables}

pub record Database : Type 0 where
  pub directory : Directory
  pub catalog : CatalogTables
  pub journal : Journal
  pub orders : OrderTables
  pub fulfillment : FulfillmentTables
  pub payments : PaymentTables
