-- ===== src/Orders/Seating.antt =====
-- orders/orders.service.ts: a session is opened at a table or for takeaway, moves to another table,
-- absorbs the sessions of other tables, or releases its table when everything is paid and served.
use coffee_shop_be.Prelude.{
  ℕ, Bool, false, not, ◌&&◌, ◌||◌, Option, none, some, List, [], ◌∷◌, ◌++◌, ◌+◌, ◌==◌, any, filter,
  map, count, length, contains, is_some, if◌then◌else◌,
}
use coffee_shop_be.Prelude.Table.{find, first, claim, update_many}
use coffee_shop_be.Prelude.Http.{
  Result, ok, ◌>>=◌, ◌>>◌, guard, throw_if, or_throw, bad_request, not_found, conflict,
}
use coffee_shop_be.Cash.Access.{assert_active_employee, find_open_shift_id}
use coffee_shop_be.Orders.Unique.{unique}
use coffee_shop_be.Orders.Types.{
  Db, Table, empty, occupied, Session, active, completed, OrderItem, served, table_transferred,
  tables_merged, session_completed, is_empty, is_occupied, is_active, is_completed, same_status,
  table_key, session_key, ServeStatus,
}
use coffee_shop_be.Orders.Policy.{
  seated_at, find_table, items_of, is_billed, assert_no_paid_or_invoiced_items, log,
}

abbrev pub occupy : Table → Table
occupy t = record t { status = occupied }

abbrev pub release : Table → Table
release t = record t { status = empty }

unfoldable pub claim_table : Db → Option ℕ → Result (List Table)
unfolding find_table
claim_table db none = ok db.tables
claim_table db (some id) = do
  table ← or_throw (find_table db id) not_found
  or_throw (claim table_key id (λ r. not r.deleted && is_empty r.status) occupy db.tables)
      bad_request

abbrev pub new_session : ℕ → Option ℕ → ℕ → Option ℕ → Option ℕ → Session
new_session id table_id employee_id shift_id guest_count = record {
  id = id;
  table_id = table_id;
  employee_id = employee_id;
  shift_id = shift_id;
  guest_count = guest_count;
  is_online = false;
  status = active;
}

unfoldable pub create_order_session : Db → Option ℕ → ℕ → Option ℕ → Result (Db × Session)
unfolding claim_table
create_order_session db table_id employee_id guest_count = do
  assert_active_employee db.cash employee_id
  let shift_id = find_open_shift_id db.cash employee_id
  tables ← claim_table db table_id
  let session = new_session db.next_id table_id employee_id shift_id guest_count
  ok (
    record db { next_id = db.next_id + 1; tables = tables; sessions = db.sessions ++ session ∷ [] },
    session,
  )

abbrev pub move_to : ℕ → Session → Session
move_to table_id s = record s { table_id = some table_id }

unfoldable pub transfer_table : Db → ℕ → ℕ → ℕ → ℕ → Result Db
unfolding find_table log
transfer_table db source_order_session_id from_table_id to_table_id employee_id = do
  assert_active_employee db.cash employee_id
  from_table ← or_throw (find_table db from_table_id) not_found
  to_table ← or_throw (find_table db to_table_id) not_found
  guard (is_empty to_table.status) bad_request
  active_session ←
      or_throw
        (first (λ s. (s.id == source_order_session_id) && seated_at from_table_id s) db.sessions)
        conflict
  throw_if (is_some (first (seated_at to_table_id) db.sessions)) conflict
  tables ← or_throw (claim table_key to_table_id (λ r. is_empty r.status) occupy db.tables) conflict
  let moved = λ (s : Session). (s.id == active_session.id) && seated_at from_table_id s
  guard (count moved db.sessions == 1) conflict
  ok (
      log
        (record db {
          tables =
              update_many (λ r. (r.id == from_table_id) && is_occupied r.status) release tables;
          sessions = update_many moved (move_to to_table_id) db.sessions;
        })
        employee_id table_transferred active_session.id)

abbrev pub at_any : List ℕ → Session → Bool
at_any tables s = elim s.table_id [ none ↦ false | some t ↦ contains t tables ]

unfoldable pub is_source : List ℕ → List ℕ → Session → Bool
is_source ids tables s = contains s.id ids && (at_any tables s && is_active s.status)

abbrev pub session_ids : List Session → List ℕ
session_ids sessions = map {A = Session} (λ s. s.id) sessions

abbrev pub complete : Session → Session
complete s = record s { status = completed }

unfoldable pub merge_tables : Db → List ℕ → ℕ → List ℕ → ℕ → ℕ → Result Db
unfolding unique is_source log
merge_tables db source_table_ids destination_table_id source_order_session_ids
      destination_order_session_id employee_id =
    do
      assert_active_employee db.cash employee_id
      target ←
          or_throw
            (first (λ s. (s.id == destination_order_session_id) && seated_at destination_table_id s)
              db.sessions)
            conflict
      let source_tables = unique source_table_ids
      let sources = filter (is_source source_order_session_ids source_tables) db.sessions
      guard (length sources == length source_tables) conflict
      let ids = session_ids sources
      assert_no_paid_or_invoiced_items (
          filter (λ i. (i.order_session_id == target.id) || contains i.order_session_id ids)
            db.order_items)
      let closing = λ (s : Session). contains s.id ids && is_active s.status
      guard (count closing db.sessions == length ids) conflict
      ok (
          log
            (record db {
              order_items =
                  update_many (λ i. contains i.order_session_id ids && not (is_billed i))
                    (λ i. record i { order_session_id = target.id }) db.order_items;
              sessions = update_many closing complete db.sessions;
              tables = update_many (λ r. contains r.id source_tables) release db.tables;
            })
            employee_id tables_merged target.id)

-- `serveStatus !== CANCELLED && (!isPaid || serveStatus !== SERVED)`.
abbrev pub is_outstanding : OrderItem → Bool
is_outstanding i =
    not (same_status i.serve_status ServeStatus.cancelled)
    && (not i.is_paid || not (same_status i.serve_status served))

unfoldable pub complete_active : Db → ℕ → Session → ℕ → ℕ → Result Db
unfolding log
complete_active db id session table_id employee_id = do
  throw_if (not (is_active session.status) || any is_outstanding (items_of id db.order_items))
      conflict
  let closing = λ (s : Session). (s.id == id) && is_active s.status
  tables ←
      or_throw (claim table_key table_id (λ r. is_occupied r.status) release db.tables) conflict
  guard (count closing db.sessions == 1) conflict
  ok (
      log (record db { sessions = update_many closing complete db.sessions; tables = tables })
        employee_id session_completed id)

unfoldable pub complete_session : Db → ℕ → ℕ → Result Db
unfolding complete_active
complete_session db id employee_id = do
  assert_active_employee db.cash employee_id
  session ← or_throw (find session_key id db.sessions) not_found
  table_id ← or_throw session.table_id conflict
  if is_completed session.status then ok db else complete_active db id session table_id employee_id
