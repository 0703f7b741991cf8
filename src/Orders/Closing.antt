-- ===== src/Orders/Closing.antt =====
-- orders/orders.service.ts: a session is cancelled, or its table is cleared, with all its lines that
-- are neither paid nor prepared.
use coffee_shop_be.Prelude.{
  ℕ, not, ◌&&◌, Option, none, some, List, ◌==◌, filter, map, count, opt_eq,
}
use coffee_shop_be.Prelude.Table.{find, first, update_many}
use coffee_shop_be.Prelude.Http.{
  Result, ok, ◌>>=◌, ◌>>◌, guard, throw_if, or_throw, not_found, conflict,
}
use coffee_shop_be.Cash.Access.{assert_active_employee}
use coffee_shop_be.Inventory.Reservations.{release_reservations}
use coffee_shop_be.Orders.Types.{
  Db, Table, Session, SessionStatus, OrderItem, ServeStatus, session_cancelled, table_cleared,
  is_active, same_status, session_key,
}
use coffee_shop_be.Orders.Policy.{
  seated_at, find_table, items_of, is_billed, assert_active_session,
  assert_no_paid_or_invoiced_items, assert_no_processed_items, log,
}
use coffee_shop_be.Orders.Seating.{release}

abbrev pub cancel_line : OrderItem → OrderItem
cancel_line i = record i { serve_status = ServeStatus.cancelled }

abbrev pub call_off : Session → Session
call_off s = record s { status = SessionStatus.cancelled }

-- The lines whose reservations end.
unfoldable pub open_lines : List OrderItem → List ℕ
open_lines items =
    map {A = OrderItem} (λ i. i.id)
      (filter (λ i. not (same_status i.serve_status ServeStatus.cancelled)) items)

-- The updates that cancelling a session and clearing its table share.
unfoldable pub cancel_lines : Db → ℕ → Result Db
unfolding open_lines
cancel_lines db session_id = do
  let items = items_of session_id db.order_items
  assert_no_paid_or_invoiced_items items
  assert_no_processed_items items
  let closing = λ (s : Session). (s.id == session_id) && is_active s.status
  guard (count closing db.sessions == 1) conflict
  inventory ← release_reservations db.inventory (open_lines items)
  ok (record db {
    inventory = inventory;
    order_items =
        update_many (λ i. (i.order_session_id == session_id) && not (is_billed i)) cancel_line
          db.order_items;
    sessions = update_many closing call_off db.sessions;
  })

abbrev pub empty_tables : Option ℕ → List Table → List Table
empty_tables none tables = tables
empty_tables (some id) tables = update_many (λ r. r.id == id) release tables

unfoldable pub cancel_session : Db → ℕ → ℕ → Result Db
unfolding cancel_lines log
cancel_session db id employee_id = do
  assert_active_employee db.cash employee_id
  session ← or_throw (find session_key id db.sessions) not_found
  assert_active_session session.status
  throw_if session.is_online conflict
  db' ← cancel_lines db id
  ok (
      log (record db' { tables = empty_tables session.table_id db'.tables }) employee_id
        session_cancelled id)

abbrev pub session_id : Option Session → Option ℕ
session_id none = none
session_id (some s) = some s.id

abbrev pub cancel_seated : Db → Option Session → Result Db
cancel_seated db none = ok db
cancel_seated db (some s) = cancel_lines db s.id

unfoldable pub clear_table : Db → ℕ → Option ℕ → ℕ → Result Db
unfolding find_table cancel_lines log
clear_table db table_id expected_order_session_id employee_id = do
  assert_active_employee db.cash employee_id
  table ← or_throw (find_table db table_id) not_found
  let active_session = first (seated_at table_id) db.sessions
  guard (opt_eq (session_id active_session) expected_order_session_id) conflict
  db' ← cancel_seated db active_session
  ok (
      log (record db' { tables = empty_tables (some table_id) db'.tables }) employee_id
        table_cleared table_id)
