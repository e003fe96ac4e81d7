-- ===== src/Catalog.antt =====
-- What orders read of the customers and the products: rows of apps/customers/models.py and
-- apps/products/models.py.
use vidalys_flow.Common.{ℕ, Bool, true, false, Option, List}
use vidalys_flow.Text.{Text}

pub data ContactKind : Type 0 where
  whatsapp phone email : ContactKind

pub record ContactPoint : Type 0 where
  pub kind : ContactKind
  pub normalized_value : Text
  pub is_primary : Bool
  pub is_active : Bool
  pub created_at : ℕ

-- The fields of an address that a snapshot copies.
pub record AddressFields : Type 0 where
  pub recipient_name : Text
  pub postal_code : Text
  pub street : Text
  pub number : Text
  pub complement : Text
  pub district : Text
  pub city : Text
  pub state : Text
  pub country : Text

pub record CustomerAddress : Type 0 where
  pub fields : AddressFields
  pub is_default_shipping : Bool
  pub is_default_billing : Bool
  pub is_active : Bool

pub record Customer : Type 0 where
  pub id : ℕ
  pub organization : ℕ
  pub display_name : Text
  pub document_normalized : Text
  pub merged_into : Option ℕ
  pub contacts : List ContactPoint
  pub addresses : List CustomerAddress

pub data ProductStatus : Type 0 where
  active inactive archived : ProductStatus

abbrev pub is_active_status : ProductStatus → Bool
is_active_status active = true
is_active_status _ = false

pub record Product : Type 0 where
  pub id : ℕ
  pub organization : ℕ
  pub name : Text
  pub status : ProductStatus
  pub default_unit : Text

pub record ProductVariant : Type 0 where
  pub id : ℕ
  pub organization : ℕ
  pub product : ℕ
  pub name : Text
  pub sku : Text
  pub status : ProductStatus

-- The tables that orders lock and read.
pub record CatalogTables : Type 0 where
  pub customers : List Customer
  pub products : List Product
  pub variants : List ProductVariant
