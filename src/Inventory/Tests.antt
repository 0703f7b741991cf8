-- ===== src/Inventory/Tests.antt =====
-- A store room with coffee and milk, on which the laws of the inventory are applied.
use coffee_shop_be.Prelude.{
  ℕ, Bool, true, false, none, some, List, [], ◌∷◌, ◌*◌, ◌+◌, ◌≤◌, ◌≡◌, refl, arith, ◌==◌,
}
use coffee_shop_be.Prelude.Table.{find, update, claim}
use coffee_shop_be.Prelude.Http.{Result, ok, err}
use coffee_shop_be.Inventory.Stock.{
  Item, Reservation, import, export, calculate_weighted_average_cost, calculate_inventory_value,
}
use coffee_shop_be.Inventory.Movement.{Db, Movement, move_stock}
use coffee_shop_be.Inventory.Reservations.{OrderItem, Orders, total_requirements}
use coffee_shop_be.Inventory.Totals.{reserved_of, sum_of}
use coffee_shop_be.Inventory.Sound.{
  IsSound, Command, reserve, release, move, history, history-IsSound,
}
use coffee_shop_be.Inventory.Ledger.{stock_of, imported_of, exported_of, move_stock-IsBooked}
use coffee_shop_be.Inventory.Consumption.{consume_order_item}
use coffee_shop_be.Inventory.Portions.{portion}
use coffee_shop_be.Inventory.Consumed.{consume_order_item_lem}
use coffee_shop_be.Inventory.Costing.{average_cost-between}

abbrev coffee : Item
coffee = record {
  id = 1;
  deleted = false;
  category_deleted = false;
  unit_deleted = false;
  stock = 100_000;
  reserved_stock = 0;
  average_unit_cost = 500;
}

abbrev milk : Item
milk = record coffee { id = 2; stock = 50_000; average_unit_cost = 120 }

abbrev room : Db
room = record {
  active_employees = 7 ∷ [];
  items = coffee ∷ milk ∷ [];
  reservations = [];
  transactions = [];
  ingredient_snapshots = [];
  wastes = [];
}

-- Two lattes of 0.2 coffee and 1.5 milk each, and an espresso whose recipe was not copied yet.
abbrev orders : Orders
orders = record {
  order_items =
      record {
        id = 20;
        order_session_id = 9;
        menu_item_id = 31;
        quantity = 2;
        is_pending = true;
        is_snapshotted = true;
      }
      ∷ record {
        id = 21;
        order_session_id = 9;
        menu_item_id = 30;
        quantity = 1;
        is_pending = true;
        is_snapshotted = false;
      }
      ∷ [];
  recipe_ingredients =
      record { owner = 20; inventory_item_id = 2; quantity = 15_000 }
      ∷ record { owner = 20; inventory_item_id = 1; quantity = 2_000 }
      ∷ [];
  menu_ingredients = record { owner = 30; inventory_item_id = 1; quantity = 1_800 } ∷ [];
}

abbrev rows : List Reservation
rows =
    record { order_item_id = 20; inventory_item_id = 2; quantity = 30_000 }
    ∷ record { order_item_id = 20; inventory_item_id = 1; quantity = 4_000 }
    ∷ record { order_item_id = 21; inventory_item_id = 1; quantity = 1_800 }
    ∷ []

totals_are_sorted : total_requirements rows ≡ (1, 5_800) ∷ (2, 30_000) ∷ []
unfolding total_requirements
totals_are_sorted = refl

abbrev all_items : OrderItem → Bool
all_items i = i.order_session_id == 9

abbrev purchase : List Movement
purchase =
    record { inventory_item_id = 1; tx_type = import; quantity = 20_000; unit_price = some 800 }
    ∷ record { inventory_item_id = 2; tx_type = export; quantity = 10_000; unit_price = none }
    ∷ []

-- An export of 3 units of milk when 3 of 5 are reserved.
abbrev too_much : List Movement
too_much =
    record { inventory_item_id = 2; tx_type = export; quantity = 30_000; unit_price = none } ∷ []

abbrev commands : List Command
commands = reserve all_items ∷ move 7 too_much ∷ move 7 purchase ∷ release (20 ∷ []) ∷ []

room-IsSound : IsSound room
unfolding reserved_of sum_of find
room-IsSound = ((λ id. ground arith), (omega arith, (omega arith, tt)))

-- The milk of the lattes is reserved and released, the espresso's coffee stays reserved.
reserved_after :
    reserved_of 1 (history commands (room, orders)).0.items
      ∷ reserved_of 2 (history commands (room, orders)).0.items
      ∷ stock_of 2 (history commands (room, orders)).0.items
      ∷ []
    ≡ 1_800 ∷ 0 ∷ 40_000 ∷ []
unfolding history reserved_of stock_of find update claim calculate_weighted_average_cost
    calculate_inventory_value
reserved_after = refl

abbrev after_purchase : Db
after_purchase = record room {
  items =
      record coffee { stock = 120_000; average_unit_cost = 550 }
      ∷ record milk { stock = 40_000 }
      ∷ [];
  transactions =
      record {
        inventory_item_id = 2;
        tx_type = export;
        quantity = 10_000;
        unit_price = 120;
        total_amount = 120;
      }
      ∷ record {
        inventory_item_id = 1;
        tx_type = import;
        quantity = 20_000;
        unit_price = 800;
        total_amount = 1_600;
      }
      ∷ [];
}

purchase_moves : move_stock room 7 purchase ≡ ok after_purchase
unfolding move_stock find update claim calculate_weighted_average_cost calculate_inventory_value
purchase_moves = refl

history-IsSound_example : IsSound (history commands (room, orders)).0
history-IsSound_example = history-IsSound commands (room, orders) room-IsSound

move_stock-IsBooked_example :
    stock_of 1 after_purchase.items
      + exported_of 1 after_purchase.transactions
      + imported_of 1 room.transactions
    ≡ stock_of 1 room.items
      + exported_of 1 room.transactions
      + imported_of 1 after_purchase.transactions
move_stock-IsBooked_example = move_stock-IsBooked room 7 purchase purchase_moves 1

average_cost-between_example :
    (500 ≤ calculate_weighted_average_cost 100_000 500 20_000 800)
    × (calculate_weighted_average_cost 100_000 500 20_000 800 ≤ 800)
average_cost-between_example =
    average_cost-between 100_000 500 20_000 800 500 800 (omega arith) (omega arith) (omega arith)
      (omega arith) (omega arith)

abbrev settle : Db → Result Db → Db
settle db (err e) = db
settle db (ok db') = db'

abbrev lattes : OrderItem
lattes = record {
  id = 20;
  order_session_id = 9;
  menu_item_id = 31;
  quantity = 2;
  is_pending = true;
  is_snapshotted = true;
}

abbrev brewed : Db
brewed = settle room (consume_order_item room orders lattes)

consume_order_item_lem_example :
    IsSound brewed
    × ((id : ℕ)
        → stock_of id brewed.items + lattes.quantity * portion orders lattes id
          ≡ stock_of id room.items)
    × ((id : ℕ)
        → (exported_of id brewed.transactions
            ≡ lattes.quantity * portion orders lattes id + exported_of id room.transactions)
          × (imported_of id brewed.transactions ≡ imported_of id room.transactions))
unfolding consume_order_item find claim update
consume_order_item_lem_example =
    consume_order_item_lem room orders lattes {db' = brewed} (ground arith) refl room-IsSound
