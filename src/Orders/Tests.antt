-- ===== src/Orders/Tests.antt =====
-- A shop with three tables, on which the laws of the orders are applied.
use coffee_shop_be.Prelude.{
  ℕ, true, false, Option, none, some, List, [], ◌∷◌, ◌+◌, ◌*◌, ◌≤◌, ◌<◌, ◌≡◌, refl, arith, contains,
  map, ap,
}
use coffee_shop_be.Prelude.Table.{find, first, update, claim, update_many}
use coffee_shop_be.Cash.Types
use coffee_shop_be.Cash.Access.{assert_active_employee}
use coffee_shop_be.Inventory.Movement
use coffee_shop_be.Orders.Unique.{unique}
use coffee_shop_be.Orders.Selection.{
  Station, MenuItem, Choice, resolve_menu_selection, max_unit_price,
}
use coffee_shop_be.Orders.Selection.Chosen.{
  price_of, ids_of, HasKeysOnce, resolve_menu_selection_lem,
}
use coffee_shop_be.Orders.Types.{
  Db, empty, occupied, Session, active, OrderItem, Invoice, pending, cooking, ready, paid,
  pickup_code_issued, pickup_code_rotated, pickup_code_revoked, invoice_key,
}
use coffee_shop_be.Orders.Policy.{assert_no_processed_items}
use coffee_shop_be.Inventory.Consumption.{consume_order_item}
use coffee_shop_be.Inventory.Reservations.{release_reservations}
use coffee_shop_be.Orders.Closing.{cancel_session}
use coffee_shop_be.Orders.Serving.{cancel_item, change_item_status}
use coffee_shop_be.Orders.Adding.{add_order_items}
use coffee_shop_be.Orders.Seating.{merge_tables, transfer_table}
use coffee_shop_be.Orders.Seated.{IsSeated, taken}
use coffee_shop_be.Orders.Seated.Moves.{split_table-total}
use coffee_shop_be.Orders.Split.{SplitItem, split_table}
use coffee_shop_be.Orders.Split.Conserved.{Weighing, total}
use coffee_shop_be.Orders.Lines.{AreKept}
use coffee_shop_be.Orders.Floor.{floor, replay, seat, vacate}
use coffee_shop_be.Orders.History.{
  Command, add, change, cancel_line, transfer, merge, split, cancel, settle, history,
  history-IsSeated, history-AreKept, history-replay, events,
}
use coffee_shop_be.Orders.Kitchen.{create_tickets}
use coffee_shop_be.Orders.Kitchen.Routed.{sent, routed, create_tickets-sent}
use coffee_shop_be.Orders.Pickup.{
  PickupCode, provision_pickup_code, revoke_pickup_code, verify_pickup_code,
}
use coffee_shop_be.Orders.Pickup.Codes.{
  IsOpen, provision_pickup_code-verify_pickup_code, rotate_closes, revoke_closes,
}

-- A signature that tells the versions apart.
abbrev sign : ℕ → Option ℕ → ℕ
sign id none = 0
sign id (some version) = version + 1

sign_apart : (v w : Option ℕ) → sign 50 v ≡ sign 50 w → v ≡ w
sign_apart none none e = refl
sign_apart none (some w) e = ground arith
sign_apart (some v) none e = ground arith
sign_apart (some v) (some w) e = ap some (omega (arith, e))

abbrev cash : Types.Db
cash = record {
  next_id = 1;
  employees = record { id = 1; is_active = true; deleted = false } ∷ [];
  funds = [];
  transactions = [];
  shifts = [];
  expenses = [];
  handovers = [];
  logs = [];
  settings = λ key. none;
  imported_funds = [];
}

abbrev room : Movement.Db
room = record {
  active_employees = 1 ∷ [];
  items =
      record {
        id = 1;
        deleted = false;
        category_deleted = false;
        unit_deleted = false;
        stock = 100_000;
        reserved_stock = 0;
        average_unit_cost = 500;
      }
      ∷ [];
  reservations = [];
  transactions = [];
  ingredient_snapshots = [];
  wastes = [];
}

abbrev bar : Station
bar = record { id = 1; prep_sla_seconds = 600; is_active = true; deleted = false }

-- A latte with a size of two to choose from.
abbrev latte : MenuItem
latte = record {
  id = 30;
  price = 4_500;
  is_available = true;
  deleted = false;
  category_deleted = false;
  ingredients = record { inventory_item_id = 1; quantity = 2_000; deleted = false } ∷ [];
  option_groups =
      record {
        name = 400;
        min_selected = 1;
        max_selected = 1;
        options =
            record { id = 41; name = 410; price_delta = 0; ingredients = [] }
            ∷ record {
              id = 42;
              name = 420;
              price_delta = 1_000;
              ingredients = record { inventory_item_id = 1; quantity = 500; deleted = false } ∷ [];
            }
            ∷ [];
      }
      ∷ [];
  kitchen_station = some bar;
}

abbrev large : Choice
large = record {
  selected_ids = [];
  unit_price = 5_500;
  selected_options = record { id = 42; group_name = 400; name = 420; price_delta = 1_000 } ∷ [];
  recipe = (1, 2_500) ∷ [];
}

resolve_menu_selection_lem_example :
    (5_500 ≡ 4_500 + price_of large.selected_options)
    × (5_500 ≤ max_unit_price)
    × ((k : ℕ) → contains k (ids_of large.selected_options) ≡ contains k (42 ∷ []))
    × HasKeysOnce large.recipe
unfolding resolve_menu_selection unique
resolve_menu_selection_lem_example = resolve_menu_selection_lem latte (42 ∷ []) {c = large} refl

abbrev line : ℕ → ℕ → ℕ → OrderItem
line id session_id quantity = record {
  id = id;
  order_session_id = session_id;
  menu_item_id = 30;
  quantity = quantity;
  price_at_time = 4_500;
  selected_options = [];
  is_snapshotted = true;
  serve_status = pending;
  is_paid = false;
  invoice_id = none;
  ready_at = none;
}

abbrev session : ℕ → Option ℕ → Session
session id table_id = record {
  id = id;
  table_id = table_id;
  employee_id = 1;
  shift_id = none;
  guest_count = none;
  is_online = false;
  status = active;
}

-- Line 22 is a paid takeaway line, on invoice 50.
abbrev shop : Db
shop = record {
  next_id = 100;
  cash = cash;
  inventory = room;
  recipe_ingredients = record { owner = 20; inventory_item_id = 1; quantity = 2_000 } ∷ [];
  menu_items = latte ∷ [];
  tables =
      record { id = 1; status = occupied; deleted = false }
      ∷ record { id = 2; status = empty; deleted = false }
      ∷ record { id = 3; status = occupied; deleted = false }
      ∷ [];
  sessions = session 10 (some 1) ∷ session 11 (some 3) ∷ session 12 none ∷ [];
  order_items =
      line 20 10 3
      ∷ line 21 11 1
      ∷ record (line 22 12 1) { is_paid = true; invoice_id = some 50; serve_status = ready }
      ∷ [];
  invoices =
      record {
        id = 50;
        order_session_id = 12;
        payment_status = paid;
        created_at = 1_000;
        pickup_code_version = some 0;
        pickup_code_issued_at = none;
      }
      ∷ [];
  remakes = [];
  tickets = [];
  ticket_items = [];
  logs = [];
}

shop-IsSeated : IsSeated shop
unfolding taken find
shop-IsSeated t = ground arith

abbrev one_latte : List SplitItem
one_latte = record { order_item_id = 20; quantity_to_move = 1; expected_original_quantity = 3 } ∷ []

-- A latte goes to table 2, table 3 joins table 1, more is ordered, and the kitchen starts.
abbrev evening : List (ℕ × Command)
evening =
    (2_000, split 10 2 one_latte 1)
    ∷ (2_100, transfer 10 1 2 1)
    ∷ (2_200, merge (3 ∷ []) 1 (11 ∷ []) 10 1)
    ∷ (
      2_300,
      add 10 (record { menu_item_id = 30; quantity = 2; option_ids = 42 ∷ [] } ∷ []) none none,
    )
    ∷ (2_400, change 20 1 cooking false none)
    ∷ (2_500, cancel_line 21 1 none)
    ∷ (2_600, cancel 10 1)
    ∷ []

history-IsSeated_example : IsSeated (history sign evening shop)
history-IsSeated_example = history-IsSeated sign evening shop shop-IsSeated

history-replay_example :
    floor (history sign evening shop) 2 ≡ replay (events sign evening shop) (floor shop) 2
history-replay_example = history-replay sign evening shop shop-IsSeated 2

-- The split seats session 100 at table 2, the merge empties table 3.
evening-events :
    events sign evening shop ≡ seat 2 100 ∷ vacate (3 ∷ []) ∷ vacate [] ∷ vacate [] ∷ vacate [] ∷ []
unfolding events assert_active_employee find first claim update update_many split_table
    cancel_session cancel_item change_item_status add_order_items merge_tables transfer_table
    consume_order_item release_reservations assert_no_processed_items unique
evening-events = refl

history-AreKept_example : AreKept shop.order_items (history sign evening shop).order_items
history-AreKept_example = history-AreKept sign evening shop shop-IsSeated

-- The transfer to table 2 and the last cancellation are refused.
evening_lines :
    map {A = OrderItem} {B = ℕ × ℕ}
      (λ i. (i.order_session_id, i.quantity))
      (history sign evening shop).order_items
    ≡ (10, 2) ∷ (10, 1) ∷ (12, 1) ∷ (100, 1) ∷ (10, 2) ∷ []
unfolding history assert_active_employee find first claim update update_many split_table
    cancel_session cancel_item change_item_status add_order_items merge_tables transfer_table
    consume_order_item release_reservations assert_no_processed_items
evening_lines = refl

abbrev split_shop : Db
split_shop = settle sign shop (split_table shop 10 2 one_latte 1)

abbrev by_price : Weighing
by_price menu_item_id price options status = price

split_table-total_example : total by_price split_shop.order_items ≡ total by_price shop.order_items
unfolding split_table assert_active_employee find first claim
split_table-total_example = split_table-total shop 10 2 one_latte 1 by_price {db' = split_shop} refl

abbrev invoice : ℕ → Option ℕ → Invoice
invoice version issued_at = record {
  id = 50;
  order_session_id = 12;
  payment_status = paid;
  created_at = 1_000;
  pickup_code_version = some version;
  pickup_code_issued_at = issued_at;
}

abbrev issued : Db × PickupCode
issued = (
  record shop {
    invoices = invoice 1 (some 5_000) ∷ [];
    logs = record { employee_id = 1; action = pickup_code_issued; subject = 50 } ∷ [];
  },
  record { code = 2; expires_at = 259_205_000 },
)

abbrev rotated : Db × PickupCode
rotated = (
  record shop {
    invoices = invoice 2 (some 6_000) ∷ [];
    logs = record { employee_id = 1; action = pickup_code_rotated; subject = 50 } ∷ issued.0.logs;
  },
  record { code = 3; expires_at = 259_206_000 },
)

abbrev revoked : Db
revoked = record shop {
  invoices = invoice 2 none ∷ [];
  logs = record { employee_id = 1; action = pickup_code_revoked; subject = 50 } ∷ issued.0.logs;
}

provision_pickup_code-verify_pickup_code_example :
    IsOpen sign issued.0 50 issued.1 × (5_000 < 259_205_000)
unfolding provision_pickup_code assert_active_employee find claim update
provision_pickup_code-verify_pickup_code_example =
    provision_pickup_code-verify_pickup_code sign 5_000 shop 50 1 none {r = issued} refl

rotate_closes_example :
    (i : Invoice) × (find invoice_key 50 rotated.0.invoices ≡ some i)
    × ((later : ℕ) → verify_pickup_code sign later 50 2 i ≡ none)
unfolding provision_pickup_code assert_active_employee find claim update
rotate_closes_example = rotate_closes sign 6_000 issued.0 50 1 2 {r = rotated} sign_apart refl

revoke_closes_example :
    (i : Invoice) × (find invoice_key 50 revoked.invoices ≡ some i)
    × ((later code : ℕ) → verify_pickup_code sign later 50 code i ≡ none)
unfolding revoke_pickup_code assert_active_employee find claim update
revoke_closes_example = revoke_closes sign 6_000 issued.0 50 2 1 {db' = revoked} refl

abbrev first_line : List OrderItem
first_line = line 20 10 3 ∷ []

abbrev cooking_shop : Db
cooking_shop = settle sign shop (create_tickets 2_000 shop 10 (latte ∷ []) first_line none)

create_tickets-sent_example :
    sent (λ id q. id * q) cooking_shop.ticket_items
    ≡ 0 + routed (λ id q. id * q) (latte ∷ []) first_line
unfolding create_tickets find
create_tickets-sent_example =
    create_tickets-sent (λ id q. id * q) 2_000 shop 10 (latte ∷ []) first_line none
      {db' = cooking_shop} refl
