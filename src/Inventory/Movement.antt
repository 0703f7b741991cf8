-- ===== src/Inventory/Movement.antt =====
-- services/inventory-movement.service.ts: stock is imported at a price or exported. The audit log
-- and the outbox event are left out.
use coffee_shop_be.Prelude.{
  ℕ, Bool, false, ◌&&◌, ◌||◌, Option, none, some, List, [], ◌∷◌, ◌+◌, ◌-◌, ◌==◌, leb, map, length,
  if◌then◌else◌,
}
use coffee_shop_be.Prelude.Table.{find, update, claim}
use coffee_shop_be.Prelude.Http.{
  Result, ok, err, ◌>>=◌, ◌>>◌, guard, or_throw, bad_request, not_found, conflict,
}
use coffee_shop_be.Inventory.Stock.{
  TxType, import, export, Item, Reservation, Transaction, IngredientSnapshot, Waste,
  calculate_inventory_value, calculate_weighted_average_cost, to_positive_decimal, assert_bulk_size,
  assert_no_duplicate_inventory_items,
}

pub record Db : Type 0 where
  pub active_employees : List ℕ
  pub items : List Item
  pub reservations : List Reservation
  pub transactions : List Transaction
  pub ingredient_snapshots : List IngredientSnapshot
  pub wastes : List Waste

pub record Movement : Type 0 where
  pub inventory_item_id : ℕ
  pub tx_type : TxType
  pub quantity : ℕ
  pub unit_price : Option ℕ

abbrev pub item_key : Item → ℕ
item_key i = i.id

-- `ensureActiveItemExists`.
abbrev pub find_active_item : Db → ℕ → Option Item
find_active_item db id = elim (find item_key id db.items) [
  | none ↦ none
  | some i ↦ if i.deleted then none else some i
]

-- The unit cost of a movement: the price of an import, the average of an export.
abbrev pub unit_cost_of : TxType → Option ℕ → ℕ → Result ℕ
unit_cost_of export price average = ok average
unit_cost_of import none average = err bad_request
unit_cost_of import (some price) average = ok price

-- `updateMany` of an export.
abbrev pub can_export : ℕ → Item → Item → Bool
can_export quantity item r =
    leb (quantity + item.reserved_stock) r.stock && (r.reserved_stock == item.reserved_stock)

unfoldable pub move_items : Movement → ℕ → Item → List Item → Option (List Item)
move_items m unit_cost item items = elim m.tx_type [
  | export ↦
      claim item_key m.inventory_item_id (can_export m.quantity item)
        (λ r. record r { stock = r.stock - m.quantity }) items
  | import ↦ some (
      update item_key m.inventory_item_id
        (λ r. record r {
          stock = r.stock + m.quantity;
          average_unit_cost =
              calculate_weighted_average_cost item.stock item.average_unit_cost m.quantity
                unit_cost;
        })
        items)
]

unfoldable pub apply_movement : Db → Movement → Result Db
unfolding to_positive_decimal move_items
apply_movement db m = do
  item ← or_throw (find_active_item db m.inventory_item_id) not_found
  quantity ← to_positive_decimal m.quantity
  unit_cost ← unit_cost_of m.tx_type m.unit_price item.average_unit_cost
  items ← or_throw (move_items m unit_cost item db.items) conflict
  ok (record db {
    items = items;
    transactions =
        record {
          inventory_item_id = m.inventory_item_id;
          tx_type = m.tx_type;
          quantity = quantity;
          unit_price = unit_cost;
          total_amount = calculate_inventory_value quantity unit_cost;
        }
        ∷ db.transactions;
  })

unfoldable pub apply_movements : Db → List Movement → Result Db
unfolding apply_movement
apply_movements db [] = ok db
apply_movements db (m ∷ ms) = apply_movement db m >>= λ db'. apply_movements db' ms

abbrev pub is_active_employee : ℕ → List ℕ → Bool
is_active_employee id [] = false
is_active_employee id (e ∷ es) = (e == id) || is_active_employee id es

unfoldable pub move_stock : Db → ℕ → List Movement → Result Db
unfolding apply_movements
move_stock db employee_id movements = do
  guard (is_active_employee employee_id db.active_employees) bad_request
  apply_movements db movements

-- A bulk request sorts its movements by item.
abbrev insert_movement : Movement → List Movement → List Movement
insert_movement m [] = m ∷ []
insert_movement m (n ∷ ns) =
    let rest = insert_movement m ns in
    if leb m.inventory_item_id n.inventory_item_id then m ∷ n ∷ ns else n ∷ rest

abbrev sort_movements : List Movement → List Movement
sort_movements [] = []
sort_movements (m ∷ ms) = insert_movement m (sort_movements ms)

unfoldable pub bulk_move : Db → ℕ → TxType → List Movement → Result Db
unfolding assert_bulk_size assert_no_duplicate_inventory_items move_stock
bulk_move db employee_id tx_type movements = do
  assert_bulk_size (length movements)
  assert_no_duplicate_inventory_items (map {A = Movement} (λ m. m.inventory_item_id) movements)
  move_stock db employee_id
      (sort_movements (map {A = Movement} (λ m. record m { tx_type = tx_type }) movements))
