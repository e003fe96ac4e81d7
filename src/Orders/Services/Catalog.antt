-- ===== src/Orders/Services/Catalog.antt =====
-- `_validate_catalog_item` and `_lock_confirmation_sources` of apps/orders/services.py.
use vidalys_flow.Common.{ℕ, ◌&&◌, Option, none, some, List, [], ◌∷◌, find, ◌==◌}
use vidalys_flow.Catalog.{Product, ProductVariant, is_active_status}
use vidalys_flow.Transaction.{◌>>=◌, ◌>>◌, pure, gets, unless, or_raise}
use vidalys_flow.Orders.Tables.{OrderItem}
use vidalys_flow.Orders.Errors.{
  OrderService, organization_mismatch, invalid_item, confirmation_blocked, integrity_error,
}

-- `product = variant.product` where there is a variant and no product. The foreign key makes the
-- row exist.
abbrev pub resolve_product : Option Product → Option ProductVariant → OrderService (Option Product)
resolve_product none none = pure none
resolve_product none (some v) = do
  p ← or_raise (← gets (λ s. find (λ p. p.id == v.product) s.catalog.products)) integrity_error
  pure (some p)
resolve_product (some p) v = pure (some p)

abbrev pub check_product : ℕ → Option Product → OrderService (Unit {0})
check_product organization none = pure tt
check_product organization (some p) = unless (p.organization == organization) organization_mismatch

abbrev pub check_variant : ℕ → Option ProductVariant → Option Product → OrderService (Unit {0})
check_variant organization none p = pure tt
check_variant organization (some v) none =
    unless (v.organization == organization) organization_mismatch
check_variant organization (some v) (some p) = do
  unless (v.organization == organization) organization_mismatch
  unless (v.product == p.id) invalid_item

abbrev pub check_product_status : Option Product → OrderService (Unit {0})
check_product_status none = pure tt
check_product_status (some p) = unless (is_active_status p.status) confirmation_blocked

abbrev pub check_variant_status : Option ProductVariant → OrderService (Unit {0})
check_variant_status none = pure tt
check_variant_status (some v) = unless (is_active_status v.status) confirmation_blocked

unfoldable pub validate_catalog_item :
    ℕ → Option Product → Option ProductVariant → OrderService (Option Product)
validate_catalog_item organization given variant = do
  product ← resolve_product given variant
  check_product organization product
  check_variant organization variant product
  check_product_status product
  check_variant_status variant
  pure product

-- An item with the rows of its product and variant attached.
pub record SourcedItem : Type 0 where
  pub item : OrderItem
  pub product : Option Product
  pub variant : Option ProductVariant

abbrev pub source_product : ℕ → Option ℕ → OrderService (Option Product)
source_product organization none = pure none
source_product organization (some id) = do
  p ←
      or_raise
        (← gets (λ s. find (λ p. p.organization == organization && p.id == id) s.catalog.products))
        organization_mismatch
  pure (some p)

abbrev pub source_variant : ℕ → Option ℕ → OrderService (Option ProductVariant)
source_variant organization none = pure none
source_variant organization (some id) = do
  v ←
      or_raise
        (← gets (λ s. find (λ v. v.organization == organization && v.id == id) s.catalog.variants))
        organization_mismatch
  pure (some v)

-- The loop that attaches the locked rows.
unfoldable pub source_items : ℕ → List OrderItem → OrderService (List SourcedItem)
source_items organization [] = pure []
source_items organization (i ∷ is) = do
  product ← source_product organization i.product
  variant ← source_variant organization i.variant
  rest ← source_items organization is
  pure (record { item = i; product = product; variant = variant } ∷ rest)
