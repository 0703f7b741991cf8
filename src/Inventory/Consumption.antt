-- ===== src/Inventory/Consumption.antt =====
-- services/inventory-consumption.service.ts: the ingredients of an order item leave the stock when
-- its preparation starts, and are recorded as waste when a prepared item is cancelled or remade.
-- The movements that the source returns are the transactions of the new state.
use coffee_shop_be.Prelude.{
  ℕ, Bool, true, not, ◌&&◌, Option, none, some, List, [], ◌∷◌, ◌++◌, ◌+◌, ◌-◌, ◌*◌, ◌==◌, leb, map,
  filter, any, length, if◌then◌else◌,
}
use coffee_shop_be.Prelude.Table.{find, claim}
use coffee_shop_be.Prelude.Http.{Result, ok, ◌>>=◌, ◌>>◌, or_throw, throw_if, conflict}
use coffee_shop_be.Inventory.Stock.{
  Item, Reservation, Transaction, IngredientSnapshot, Waste, export, calculate_inventory_value,
}
use coffee_shop_be.Inventory.Movement.{Db, item_key}
use coffee_shop_be.Inventory.Reservations.{
  Orders, OrderItem, Ingredient, recipe_of, held_by, held_quantity, matches,
}

-- `orderBy: { inventoryItemId: 'asc' }`.
abbrev pub insert_ingredient : Ingredient → List Ingredient → List Ingredient
insert_ingredient i [] = i ∷ []
insert_ingredient i (j ∷ js) =
    let rest = insert_ingredient i js in
    if leb i.inventory_item_id j.inventory_item_id then i ∷ j ∷ js else j ∷ rest

unfoldable pub sort_ingredients : List Ingredient → List Ingredient
sort_ingredients [] = []
sort_ingredients (i ∷ is) = insert_ingredient i (sort_ingredients is)

-- A foreign key makes the item of a row exist.
abbrev pub is_inactive : List Item → Ingredient → Bool
is_inactive items i = elim (find item_key i.inventory_item_id items) [
  | none ↦ true
  | some r ↦ r.deleted
]

abbrev pub cost_in : List Item → ℕ → ℕ
cost_in items id = elim (find item_key id items) [ none ↦ 0 | some r ↦ r.average_unit_cost ]

-- The quantities that an item takes.
abbrev pub totals_of : OrderItem → List Ingredient → List Reservation
totals_of item [] = []
totals_of item (i ∷ is) =
    record {
      order_item_id = item.id;
      inventory_item_id = i.inventory_item_id;
      quantity = i.quantity * item.quantity;
    }
    ∷ totals_of item is

abbrev pub own_quantity : List Reservation → ℕ → ℕ
own_quantity held id = elim (held_quantity id held) [ none ↦ 0 | some q ↦ q ]

abbrev pub can_consume : ℕ → ℕ → Item → Bool
can_consume q own i =
    not i.deleted && leb own i.reserved_stock && leb (i.reserved_stock + q) (i.stock + own)

abbrev pub consumed : ℕ → ℕ → Item → Item
consumed q own i = record i { stock = i.stock - q; reserved_stock = i.reserved_stock - own }

-- The `UPDATE` of each ingredient, in order.
unfoldable pub consume_totals : List Reservation → List Reservation → List Item → Option (List Item)
unfolding held_quantity
consume_totals held [] items = some items
consume_totals held (t ∷ ts) items =
    elim (claim item_key t.inventory_item_id
      (can_consume t.quantity (own_quantity held t.inventory_item_id))
      (consumed t.quantity (own_quantity held t.inventory_item_id)) items) [
        | none ↦ none
        | some items' ↦ consume_totals held ts items'
      ]

abbrev pub export_rows : List Item → List Reservation → List Transaction
export_rows items [] = []
export_rows items (t ∷ ts) =
    record {
      inventory_item_id = t.inventory_item_id;
      tx_type = export;
      quantity = t.quantity;
      unit_price = cost_in items t.inventory_item_id;
      total_amount = calculate_inventory_value t.quantity (cost_in items t.inventory_item_id);
    }
    ∷ export_rows items ts

abbrev snapshot_row : List Item → OrderItem → Ingredient → IngredientSnapshot
snapshot_row items item i = record {
  order_item_id = item.id;
  inventory_item_id = i.inventory_item_id;
  quantity_per_item = i.quantity;
  total_quantity = i.quantity * item.quantity;
  unit_cost = cost_in items i.inventory_item_id;
  total_cost =
      calculate_inventory_value (i.quantity * item.quantity) (cost_in items i.inventory_item_id);
}

abbrev pub without_held : ℕ → List Reservation → List Reservation
without_held order_item_id rows = filter (λ r. not (r.order_item_id == order_item_id)) rows

unfoldable pub consume_order_item : Db → Orders → OrderItem → Result Db
unfolding sort_ingredients matches consume_totals
consume_order_item db orders item = do
  let ingredients = sort_ingredients (recipe_of orders item)
  throw_if (any (is_inactive db.items) ingredients) conflict
  let totals = totals_of item ingredients
  let held = held_by item.id db.reservations
  throw_if (not (length held == 0) && not (matches held totals)) conflict
  items ← or_throw (consume_totals held totals db.items) conflict
  ok (record db {
    items = items;
    reservations = without_held item.id db.reservations;
    ingredient_snapshots =
        map {A = Ingredient} (snapshot_row db.items item) ingredients ++ db.ingredient_snapshots;
    transactions = export_rows db.items totals ++ db.transactions;
  })

abbrev pub waste_rows : ℕ → ℕ → ℕ → List IngredientSnapshot → List Waste
waste_rows id employee_id reason [] = []
waste_rows id employee_id reason (s ∷ ss) =
    let rest = waste_rows id employee_id reason ss in
    if s.order_item_id == id
    then record {
      order_item_id = id;
      inventory_item_id = s.inventory_item_id;
      quantity = s.total_quantity;
      reason = reason;
      employee_id = employee_id;
    }
      ∷ rest
    else rest

unfoldable pub record_waste : Db → ℕ → ℕ → ℕ → Db
record_waste db order_item_id employee_id reason = record db {
  wastes = waste_rows order_item_id employee_id reason db.ingredient_snapshots ++ db.wastes;
}
