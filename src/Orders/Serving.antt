-- ===== src/Orders/Serving.antt =====
-- orders/orders.service.ts: the serve status of an order line moves on, a line is cancelled, and a
-- served line is made again. The request's idempotency is that of Durable/Idempotency.antt.
use coffee_shop_be.Prelude.{
  ℕ, Bool, true, false, not, ◌&&◌, ◌||◌, Option, none, some, List, [], ◌∷◌, ◌++◌, ◌+◌, ◌==◌, ltb,
  any, filter, map, length, is_some, opt_eq, if◌then◌else◌,
}
use coffee_shop_be.Prelude.Table.{find, first, claim}
use coffee_shop_be.Prelude.Http.{
  Result, ok, err, ◌>>=◌, ◌>>◌, guard, throw_if, or_throw, bad_request, not_found, conflict,
}
use coffee_shop_be.Cash.Access.{assert_active_employee}
use coffee_shop_be.Inventory.Movement
use coffee_shop_be.Inventory.Reservations
use coffee_shop_be.Inventory.Reservations.{Ingredient, ingredients_of, release_reservations}
use coffee_shop_be.Inventory.Stock.{IngredientSnapshot}
use coffee_shop_be.Inventory.Consumption.{consume_order_item, record_waste}
use coffee_shop_be.Orders.Selection.{MenuItem, MenuIngredient}
use coffee_shop_be.Orders.Types.{
  Db, OrderItem, Session, Remake, ServeStatus, pending, cooking, ready, served, item_status_updated,
  item_cancelled, item_remade, is_active, is_completed, is_called_off, is_payment_paid, same_status,
  session_key, order_item_key, invoice_key, ticket_key, ticket_item_key, menu_item_key,
}
use coffee_shop_be.Orders.Policy.{
  is_processed, assert_active_session, assert_no_paid_or_invoiced_items,
  assert_serve_status_transition, assert_pos_order_mutation_allowed, log,
}
use coffee_shop_be.Orders.Kitchen.{create_tickets}
use coffee_shop_be.Orders.Pickup.{verify_pickup_code}

-- `replacementRemake`.
unfoldable pub is_replacement : Db → ℕ → Bool
is_replacement db id = any (λ r. r.replacement_item_id == id) db.remakes

-- The kitchen ticket of a line is not due yet.
abbrev pub ticket_available_at : Db → ℕ → Option ℕ
ticket_available_at db id = elim (find ticket_item_key id db.ticket_items) [
  | none ↦ none
  | some row ↦ elim (find ticket_key row.ticket_id db.tickets) [
    | none ↦ none
    | some t ↦ t.available_at
  ]
]

abbrev pub is_later : Option ℕ → ℕ → Bool
is_later none now = false
is_later (some at) now = ltb now at

-- The line and its recipe as the inventory reads them.
abbrev pub as_stocked : OrderItem → Reservations.OrderItem
as_stocked i = record {
  id = i.id;
  order_session_id = i.order_session_id;
  menu_item_id = i.menu_item_id;
  quantity = i.quantity;
  is_pending = same_status i.serve_status pending;
  is_snapshotted = i.is_snapshotted;
}

abbrev pub menu_rows : List MenuItem → List Ingredient
menu_rows [] = []
menu_rows (m ∷ ms) =
    map {A = MenuIngredient}
      (λ i. record { owner = m.id; inventory_item_id = i.inventory_item_id; quantity = i.quantity })
      m.ingredients
    ++ menu_rows ms

abbrev pub stocked_orders : Db → Reservations.Orders
stocked_orders db = record {
  order_items = map {A = OrderItem} as_stocked db.order_items;
  recipe_ingredients = db.recipe_ingredients;
  menu_ingredients = menu_rows db.menu_items;
}

-- Only the start of the preparation takes ingredients.
unfoldable pub consume_when_cooking : Db → OrderItem → ServeStatus → Result Movement.Db
consume_when_cooking db item cooking =
    consume_order_item db.inventory (stocked_orders db) (as_stocked item)
consume_when_cooking db item _ = ok db.inventory

abbrev pub set_status : ServeStatus → ℕ → OrderItem → OrderItem
set_status ready now i = record i { serve_status = ready; ready_at = some now }
set_status status now i = record i { serve_status = status }

unfoldable pub apply_status : ℕ → Db → OrderItem → ℕ → ServeStatus → Result Db
unfolding assert_serve_status_transition consume_when_cooking log
apply_status now db item employee_id status = do
  assert_serve_status_transition item.serve_status status
  throw_if (same_status status cooking && is_later (ticket_available_at db item.id) now) conflict
  items ←
      or_throw
        (claim order_item_key item.id (λ r. same_status r.serve_status item.serve_status)
          (set_status status now) db.order_items)
        conflict
  inventory ← consume_when_cooking db item status
  ok (
      log (record db { order_items = items; inventory = inventory }) employee_id item_status_updated
        item.id)

abbrev pub is_closed_for : Db → OrderItem → Session → Bool
is_closed_for db item session =
    is_called_off session.status
    || (is_completed session.status
        && not (is_some item.invoice_id)
        && not (is_replacement db item.id))

module _ (sign : ℕ → Option ℕ → ℕ) where
  -- The invoice and the code of a pickup, if the guest shows one.
  unfoldable pub is_pickup_refused : ℕ → Db → OrderItem → Option (ℕ × ℕ) → Bool
  unfolding verify_pickup_code
  is_pickup_refused now db item none = false
  is_pickup_refused now db item (some pickup) =
      not (opt_eq item.invoice_id (some pickup.0))
      || not item.is_paid
      || (elim (find invoice_key pickup.0 db.invoices) [
        | none ↦ true
        | some invoice ↦
            not (is_payment_paid invoice.payment_status)
            || not (is_some (verify_pickup_code sign now pickup.0 pickup.1 invoice))
      ])

  unfoldable pub change_item_status :
      ℕ → Db → ℕ → ℕ → ServeStatus → Bool → Option (ℕ × ℕ) → Result Db
  unfolding is_replacement is_pickup_refused apply_status
  change_item_status now db id employee_id status handoff_only pickup = do
    assert_active_employee db.cash employee_id
    item ← or_throw (find order_item_key id db.order_items) not_found
    session ← or_throw (find session_key item.order_session_id db.sessions) not_found
    throw_if (is_closed_for db item session) bad_request
    throw_if (same_status item.serve_status ServeStatus.cancelled) bad_request
    throw_if
        (same_status status served
          && session.is_online
          && not (is_replacement db id)
          && not (is_some pickup))
        conflict
    throw_if (is_pickup_refused now db item pickup) conflict
    throw_if
        (handoff_only
          && (is_some session.table_id
              || (not (same_status item.serve_status ready)
                  && not (same_status item.serve_status served))))
        conflict
    throw_if (same_status status ready && is_some session.table_id) bad_request
    if same_status item.serve_status status
        then ok db
        else apply_status now db item employee_id status

-- The checks of a line that is no remake, and of a remake.
unfoldable pub assert_cancellable : Db → OrderItem → Session → Result (Unit {0})
unfolding assert_pos_order_mutation_allowed assert_no_paid_or_invoiced_items assert_active_session
assert_cancellable db item session =
    if is_replacement db item.id
    then throw_if (is_called_off session.status || same_status item.serve_status served) conflict
    else (assert_pos_order_mutation_allowed session >>= λ _.
        assert_no_paid_or_invoiced_items (item ∷ []) >>= λ _. assert_active_session session.status)

abbrev pub is_cancellable : Bool → OrderItem → OrderItem → Bool
is_cancellable replacement item r =
    (if replacement then r.is_paid else not r.is_paid)
    && not (is_some r.invoice_id)
    && same_status r.serve_status item.serve_status

abbrev pub wasted : Bool → Option ℕ → ℕ → ℕ → Movement.Db → Movement.Db
wasted true (some reason) id employee_id inventory = record_waste inventory id employee_id reason
wasted true none id employee_id inventory = inventory
wasted false reason id employee_id inventory = inventory

unfoldable pub cancel_item : Db → ℕ → ℕ → Option ℕ → Result Db
unfolding is_replacement assert_cancellable record_waste log
cancel_item db id employee_id reason = do
  assert_active_employee db.cash employee_id
  item ← or_throw (find order_item_key id db.order_items) not_found
  session ← or_throw (find session_key item.order_session_id db.sessions) not_found
  assert_cancellable db item session
  throw_if (same_status item.serve_status ServeStatus.cancelled) bad_request
  let was_prepared = is_processed item.serve_status
  throw_if (was_prepared && not (is_some reason)) bad_request
  items ←
      or_throw
        (claim order_item_key id (is_cancellable (is_replacement db id) item)
          (λ r. record r { serve_status = ServeStatus.cancelled }) db.order_items)
        conflict
  inventory ← release_reservations db.inventory (id ∷ [])
  ok (
      log
        (record db {
          order_items = items;
          inventory = wasted was_prepared reason id employee_id inventory;
        })
        employee_id item_cancelled id)

abbrev pub is_invoice_paid : Db → Option ℕ → Bool
is_invoice_paid db none = false
is_invoice_paid db (some id) = elim (find invoice_key id db.invoices) [
  | none ↦ false
  | some invoice ↦ is_payment_paid invoice.payment_status
]

abbrev pub can_remake : Db → OrderItem → Session → Bool
can_remake db item session =
    item.is_paid
    && same_status item.serve_status served
    && is_invoice_paid db item.invoice_id
    && not (is_called_off session.status)
    && (not (is_some session.table_id) || is_active session.status)

abbrev pub has_station : MenuItem → Bool
has_station m =
    not m.deleted
    && (elim m.kitchen_station [ none ↦ false | some s ↦ not s.deleted && s.is_active ])

abbrev pub snapshots_of : Db → ℕ → List IngredientSnapshot
snapshots_of db id = filter (λ s. s.order_item_id == id) db.inventory.ingredient_snapshots

-- The recipe of the original, given to the replacement.
abbrev pub remade_recipe : Db → OrderItem → ℕ → List Ingredient
remade_recipe db original id =
    if original.is_snapshotted
    then map {A = Ingredient} (λ r. record r { owner = id })
        (ingredients_of original.id db.recipe_ingredients)
    else map {A = IngredientSnapshot}
        (λ s. record {
          owner = id;
          inventory_item_id = s.inventory_item_id;
          quantity = s.quantity_per_item;
        })
        (snapshots_of db original.id)

abbrev pub replacement_of : ℕ → OrderItem → OrderItem
replacement_of id original = record {
  id = id;
  order_session_id = original.order_session_id;
  menu_item_id = original.menu_item_id;
  quantity = original.quantity;
  price_at_time = 0;
  selected_options = original.selected_options;
  is_snapshotted = true;
  serve_status = pending;
  is_paid = true;
  invoice_id = none;
  ready_at = none;
}

-- What is not in the request's body.
pub record RemakeKey : Type 0 where
  pub idempotency_key : ℕ
  pub request_hash : ℕ

unfoldable pub create_remake : ℕ → Db → ℕ → ℕ → ℕ → RemakeKey → Result Db
unfolding is_replacement record_waste create_tickets log
create_remake now db original_item_id employee_id reason request = do
  original ← or_throw (find order_item_key original_item_id db.order_items) not_found
  session ← or_throw (find session_key original.order_session_id db.sessions) not_found
  guard (can_remake db original session) conflict
  throw_if
      (any (λ r. r.original_item_id == original_item_id) db.remakes
        || is_replacement db original_item_id)
      conflict
  menu_item ← or_throw (find menu_item_key original.menu_item_id db.menu_items) not_found
  guard (has_station menu_item) conflict
  throw_if (not original.is_snapshotted && (length (snapshots_of db original.id) == 0)) conflict
  let id = db.next_id
  let replacement = replacement_of id original
  let remake : Remake = record {
    original_item_id = original_item_id;
    replacement_item_id = id;
    employee_id = employee_id;
    reason = reason;
    idempotency_key = request.idempotency_key;
    request_hash = request.request_hash;
  }
  db' ←
      create_tickets now
        (record db {
          next_id = db.next_id + 1;
          order_items = db.order_items ++ replacement ∷ [];
          recipe_ingredients = db.recipe_ingredients ++ remade_recipe db original id;
          remakes = db.remakes ++ remake ∷ [];
          inventory = record_waste db.inventory original_item_id employee_id reason;
        })
        original.order_session_id (menu_item ∷ []) (replacement ∷ []) none
  ok (log db' employee_id item_remade original_item_id)

-- `replay`: the employee used the key before.
unfoldable pub remake_item : ℕ → Db → ℕ → ℕ → ℕ → RemakeKey → Result Db
unfolding create_remake
remake_item now db original_item_id employee_id reason request =
    assert_active_employee db.cash employee_id
    >> (elim (first
        (λ r. (r.employee_id == employee_id) && (r.idempotency_key == request.idempotency_key))
        db.remakes) [
          | some r ↦ if r.request_hash == request.request_hash then ok db else err conflict
          | none ↦ create_remake now db original_item_id employee_id reason request
        ])
