-- ===== src/Orders/Split.antt =====
-- orders/orders.service.ts, `splitTable`: order lines, or a part of their quantity, move to a new
-- session at an empty table.
pub mod Conserved
use coffee_shop_be.Prelude.{
  ℕ, Bool, true, false, not, ◌&&◌, ◌||◌, Option, none, some, List, [], ◌∷◌, ◌++◌, ◌+◌, ◌-◌, ◌==◌,
  leb, ltb, filter, map, contains, length, is_some, if◌then◌else◌,
}
use coffee_shop_be.Prelude.Table.{find, first, update, claim}
use coffee_shop_be.Prelude.Http.{
  Result, ok, err, ◌>>=◌, ◌>>◌, guard, throw_if, or_throw, bad_request, not_found, conflict,
}
use coffee_shop_be.Cash.Access.{assert_active_employee}
use coffee_shop_be.Inventory.Reservations.{Ingredient, ingredients_of}
use coffee_shop_be.Orders.Types.{
  Db, Session, OrderItem, TicketItem, ServeStatus, pending, table_split, is_empty, is_active,
  same_status, table_key, session_key, order_item_key, ticket_item_key,
}
use coffee_shop_be.Orders.Policy.{seated_at, find_table, is_billed, log}
use coffee_shop_be.Orders.Unique.{unique}
use coffee_shop_be.Orders.Seating.{occupy, new_session}

pub record SplitItem : Type 0 where
  pub order_item_id : ℕ
  pub quantity_to_move : ℕ
  pub expected_original_quantity : ℕ

-- The checks on one line, in the source's order.
unfoldable pub check_line : Db → ℕ → SplitItem → Result (Unit {0})
check_line db source_id p = do
  item ← or_throw (find order_item_key p.order_item_id db.order_items) not_found
  guard (item.order_session_id == source_id) bad_request
  throw_if (is_billed item) bad_request
  throw_if (same_status item.serve_status ServeStatus.cancelled) bad_request
  guard (item.quantity == p.expected_original_quantity) conflict
  throw_if (ltb item.quantity p.quantity_to_move) bad_request
  throw_if (ltb p.quantity_to_move item.quantity && not (same_status item.serve_status pending))
      bad_request
  ok tt

unfoldable pub check_lines : Db → ℕ → List SplitItem → Result (Unit {0})
unfolding check_line
check_lines db source_id [] = ok tt
check_lines db source_id (p ∷ ps) = do check_line db source_id p; check_lines db source_id ps

-- `where` of the two updates of a line.
unfoldable pub is_unchanged : ℕ → SplitItem → OrderItem → OrderItem → Bool
is_unchanged source_id p item r =
    (r.order_session_id == source_id)
    && (r.quantity == p.expected_original_quantity)
    && not (is_billed r)
    && same_status r.serve_status item.serve_status

abbrev pub split_off : ℕ → ℕ → SplitItem → OrderItem → OrderItem
split_off id session_id p item = record {
  id = id;
  order_session_id = session_id;
  menu_item_id = item.menu_item_id;
  quantity = p.quantity_to_move;
  price_at_time = item.price_at_time;
  selected_options = item.selected_options;
  is_snapshotted = item.is_snapshotted;
  serve_status = item.serve_status;
  is_paid = false;
  invoice_id = none;
  ready_at = none;
}

abbrev pub copied_recipe : ℕ → OrderItem → List Ingredient → List Ingredient
copied_recipe id item rows =
    if item.is_snapshotted
    then map {A = Ingredient} (λ r. record r { owner = id }) (ingredients_of item.id rows) ++ rows
    else rows

abbrev pub split_ticket : ℕ → SplitItem → OrderItem → List TicketItem → List TicketItem
split_ticket id p item rows = elim (find ticket_item_key item.id rows) [
  | none ↦ rows
  | some t ↦
      update ticket_item_key item.id
        (λ r. record r { quantity = item.quantity - p.quantity_to_move }) rows
      ++ record t { order_item_id = id; quantity = p.quantity_to_move } ∷ []
]

unfoldable pub move_whole : Db → ℕ → ℕ → SplitItem → OrderItem → Result Db
unfolding is_unchanged
move_whole db source_id session_id p item = do
  items ←
      or_throw
        (claim order_item_key item.id (is_unchanged source_id p item)
          (λ r. record r { order_session_id = session_id }) db.order_items)
        conflict
  ok (record db { order_items = items })

unfoldable pub move_part : Db → ℕ → ℕ → SplitItem → OrderItem → Result Db
unfolding is_unchanged
move_part db source_id session_id p item = do
  items ←
      or_throw
        (claim order_item_key item.id (is_unchanged source_id p item)
          (λ r. record r { quantity = item.quantity - p.quantity_to_move }) db.order_items)
        conflict
  ok (record db {
    next_id = db.next_id + 1;
    order_items = items ++ split_off db.next_id session_id p item ∷ [];
    recipe_ingredients = copied_recipe db.next_id item db.recipe_ingredients;
    ticket_items = split_ticket db.next_id p item db.ticket_items;
  })

-- One line; `item` is the line as it was read.
unfoldable pub move_line : Db → ℕ → ℕ → SplitItem → OrderItem → Result Db
unfolding move_whole move_part
move_line db source_id session_id p item =
    if p.quantity_to_move == item.quantity
    then move_whole db source_id session_id p item
    else move_part db source_id session_id p item

-- `read` are the lines before the loop.
unfoldable pub move_lines : List OrderItem → Db → ℕ → ℕ → List SplitItem → Result Db
unfolding move_line
move_lines read db source_id session_id [] = ok db
move_lines read db source_id session_id (p ∷ ps) = elim (find order_item_key p.order_item_id read) [
  | none ↦ move_lines read db source_id session_id ps
  | some item ↦ move_line db source_id session_id p item >>= λ db'.
      move_lines read db' source_id session_id ps
]

unfoldable pub split_table : Db → ℕ → ℕ → List SplitItem → ℕ → Result Db
unfolding unique find_table check_lines move_lines log
split_table db source_order_session_id destination_table_id items_to_move employee_id = do
  let ids = map {A = SplitItem} (λ p. p.order_item_id) items_to_move
  guard (length (unique ids) == length ids) bad_request
  assert_active_employee db.cash employee_id
  table ← or_throw (find_table db destination_table_id) not_found
  guard (is_empty table.status) bad_request
  source ← or_throw (find session_key source_order_session_id db.sessions) bad_request
  guard (is_active source.status) bad_request
  throw_if source.is_online conflict
  throw_if (is_some (first (seated_at destination_table_id) db.sessions)) conflict
  guard (length (filter (λ i. contains i.id ids) db.order_items) == length ids) not_found
  check_lines db source_order_session_id items_to_move
  tables ←
      or_throw (claim table_key destination_table_id (λ r. is_empty r.status) occupy db.tables)
        conflict
  let session =
      new_session db.next_id (some destination_table_id) source.employee_id source.shift_id none
  db' ←
      move_lines db.order_items
        (record db {
          next_id = db.next_id + 1;
          tables = tables;
          sessions = db.sessions ++ session ∷ [];
        })
        source_order_session_id session.id items_to_move
  ok (log db' employee_id table_split source.id)
