-- ===== src/Inventory/Stock.antt =====
-- The tables of the inventory (InventoryItem, InventoryReservation, InventoryTransaction of
-- prisma/schema.prisma), with services/inventory-costing.ts and policies/inventory-policy.service.ts.
-- Quantities are in 10^-4 of a unit and money in hundredths; neither is negative.
use coffee_shop_be.Prelude.{
  ℕ, Bool, false, ◌||◌, List, [], ◌∷◌, ◌+◌, ◌*◌, ◌/◌, ◌==◌, ltb, contains, if◌then◌else◌,
}
use coffee_shop_be.Prelude.Http.{Result, ok, err, throw_if, bad_request, conflict}

pub data TxType : Type 0 where
  import export : TxType

-- An item, with whether its category and its unit are deleted.
pub record Item : Type 0 where
  pub id : ℕ
  pub deleted : Bool
  pub category_deleted : Bool
  pub unit_deleted : Bool
  pub stock : ℕ
  pub reserved_stock : ℕ
  pub average_unit_cost : ℕ

pub record Reservation : Type 0 where
  pub order_item_id : ℕ
  pub inventory_item_id : ℕ
  pub quantity : ℕ

pub record Transaction : Type 0 where
  pub inventory_item_id : ℕ
  pub tx_type : TxType
  pub quantity : ℕ
  pub unit_price : ℕ
  pub total_amount : ℕ

-- What an order item consumed; the names that the row copies are left out.
pub record IngredientSnapshot : Type 0 where
  pub order_item_id : ℕ
  pub inventory_item_id : ℕ
  pub quantity_per_item : ℕ
  pub total_quantity : ℕ
  pub unit_cost : ℕ
  pub total_cost : ℕ

pub record Waste : Type 0 where
  pub order_item_id : ℕ
  pub inventory_item_id : ℕ
  pub quantity : ℕ
  pub reason : ℕ
  pub employee_id : ℕ

-- `calculateInventoryValue`, which rounds half up to hundredths.
unfoldable pub calculate_inventory_value : ℕ → ℕ → ℕ
calculate_inventory_value quantity unit_cost = (quantity * unit_cost + 5_000) / 10_000

-- The quotient rounded half up.
abbrev pub div_round : ℕ → ℕ → ℕ
div_round n d = (n + n + d) / (d + d)

unfoldable pub calculate_weighted_average_cost : ℕ → ℕ → ℕ → ℕ → ℕ
calculate_weighted_average_cost stock average_unit_cost imported_quantity imported_unit_cost =
    if (stock + imported_quantity) == 0
    then 0
    else div_round (stock * average_unit_cost + imported_quantity * imported_unit_cost)
        (stock + imported_quantity)

unfoldable pub to_positive_decimal : ℕ → Result ℕ
to_positive_decimal value = if value == 0 then err bad_request else ok value

unfoldable pub assert_bulk_size : ℕ → Result (Unit {0})
assert_bulk_size size = throw_if (ltb size 1 || ltb 100 size) bad_request

abbrev pub has_duplicates : List ℕ → Bool
has_duplicates [] = false
has_duplicates (id ∷ ids) = contains id ids || has_duplicates ids

unfoldable pub assert_no_duplicate_inventory_items : List ℕ → Result (Unit {0})
assert_no_duplicate_inventory_items ids = throw_if (has_duplicates ids) conflict
