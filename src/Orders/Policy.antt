-- ===== src/Orders/Policy.antt =====
-- orders/order-policy.service.ts and orders/online-order-policy.ts: the checks that the operations on
-- orders share, and the look-ups of rows that are not deleted.
use coffee_shop_be.Prelude.{
  ℕ, Bool, true, false, ◌&&◌, ◌||◌, Option, none, some, List, ◌∷◌, ◌==◌, any, filter, is_some,
  opt_eq, if◌then◌else◌,
}
use coffee_shop_be.Prelude.Table.{find}
use coffee_shop_be.Prelude.Http.{Result, guard, throw_if, bad_request, conflict}
use coffee_shop_be.Orders.Types.{
  ServeStatus, pending, cooking, ready, served, SessionStatus, OrderItem, Session, Table, Action,
  Db, is_active, table_key,
}

unfoldable pub assert_active_session : SessionStatus → Result (Unit {0})
assert_active_session status = guard (is_active status) bad_request

-- `item.isPaid || Boolean(item.invoiceId)`.
abbrev pub is_billed : OrderItem → Bool
is_billed i = i.is_paid || is_some i.invoice_id

unfoldable pub assert_no_paid_or_invoiced_items : List OrderItem → Result (Unit {0})
assert_no_paid_or_invoiced_items items = throw_if (any is_billed items) bad_request

abbrev pub is_processed : ServeStatus → Bool
is_processed cooking = true
is_processed ready = true
is_processed served = true
is_processed _ = false

unfoldable pub assert_no_processed_items : List OrderItem → Result (Unit {0})
assert_no_processed_items items =
    throw_if (any (λ i. is_processed i.serve_status) items) bad_request

abbrev pub is_allowed : ServeStatus → ServeStatus → Bool
is_allowed pending cooking = true
is_allowed cooking ready = true
is_allowed cooking served = true
is_allowed ready served = true
is_allowed _ _ = false

unfoldable pub assert_serve_status_transition : ServeStatus → ServeStatus → Result (Unit {0})
assert_serve_status_transition current next = guard (is_allowed current next) bad_request

unfoldable pub assert_pos_order_mutation_allowed : Session → Result (Unit {0})
assert_pos_order_mutation_allowed session = throw_if session.is_online conflict

-- `where: { tableId, sessionStatus: ACTIVE }`.
abbrev pub seated_at : ℕ → Session → Bool
seated_at table_id s = opt_eq s.table_id (some table_id) && is_active s.status

-- `findUnique` of a table.
unfoldable pub find_table : Db → ℕ → Option Table
find_table db id = elim (find table_key id db.tables) [
  | none ↦ none
  | some t ↦ if t.deleted then none else some t
]

-- The order lines of a session.
abbrev pub items_of : ℕ → List OrderItem → List OrderItem
items_of session_id items = filter (λ i. i.order_session_id == session_id) items

unfoldable pub log : Db → ℕ → Action → ℕ → Db
log db employee_id action subject = record db {
  logs = record { employee_id = employee_id; action = action; subject = subject } ∷ db.logs;
}
