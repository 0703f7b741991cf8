-- ===== src/Orders/Seated/Moves.antt =====
-- Splitting a session keeps the tables seated and moves every quantity once.
use coffee_shop_be.Prelude.{
  sym, ℕ, none, some, List, [], ◌∷◌, ◌++◌, ◌+◌, ◌==◌, ◌≡◌, refl, ap, subst, arith, count, length,
  filter, contains, is_some, ==_iff,
}
use coffee_shop_be.Prelude.Table.{find, first, claim}
use coffee_shop_be.Prelude.Count.{count-weight, count-append}
use coffee_shop_be.Prelude.Http.{
  ok, ok_injective, >>=-eq_ok, or_throw-eq_ok, guard-eq_ok, throw_if-eq_ok, bad_request, not_found,
  conflict,
}
use coffee_shop_be.Cash.Access.{assert_active_employee}
use coffee_shop_be.Orders.Types.{Db, is_empty, is_active, table_key, session_key}
use coffee_shop_be.Orders.Policy.{seated_at, find_table, log}
use coffee_shop_be.Orders.Unique.{unique, unique-Fresh}
use coffee_shop_be.Orders.Seating.{occupy, new_session}
use coffee_shop_be.Orders.Floor.{seat, IsEvent, seated-IsEvent}
use coffee_shop_be.Orders.Split.{SplitItem, move_lines, check_lines, split_table}
use coffee_shop_be.Orders.Split.Conserved.{
  Weighing, total, ids_of, check_lines-All, move_lines-AreMoved,
}
use coffee_shop_be.Orders.Seated.{Follows, taken, IsSeated, taken-occupy}
use coffee_shop_be.Orders.Seated.Open.{claimed_room}

pub split_table_lem :
    (db : Db) (source table_id : ℕ) (ps : List SplitItem) (employee_id : ℕ) {db' : Db}
    → split_table db source table_id ps employee_id ≡ ok db'
    → (IsSeated db → Follows db (seat table_id db.next_id) db')
      × ((w : Weighing) → total w db'.order_items ≡ total w db.order_items)
unfolding split_table log
split_table_lem db source table_id ps employee_id e =
    let ids = ids_of ps in
    let (p0, e0) = guard-eq_ok (length (unique ids) == length ids) bad_request _ e in
    let (u, p1, e1) = >>=-eq_ok (assert_active_employee db.cash employee_id) _ e0 in
    let (table, p2, e2) = or_throw-eq_ok (find_table db table_id) not_found _ e1 in
    let (p3, e3) = guard-eq_ok (is_empty table.status) bad_request _ e2 in
    let (s, p4, e4) = or_throw-eq_ok (find session_key source db.sessions) bad_request _ e3 in
    let (p5, e5) = guard-eq_ok (is_active s.status) bad_request _ e4 in
    let (p6, e6) = throw_if-eq_ok s.is_online conflict _ e5 in
    let (p7, e7) =
      throw_if-eq_ok (is_some (first (seated_at table_id) db.sessions)) conflict _ e6 in
    let (p8, e8) =
      guard-eq_ok (length (filter (λ i. contains i.id ids) db.order_items) == length ids) not_found
        _ e7 in
    let (u1, p9, e9) = >>=-eq_ok (check_lines db source ps) _ e8 in
    let (tables, claimed, e10) =
      or_throw-eq_ok (claim table_key table_id (λ r. is_empty r.status) occupy db.tables) conflict _
        e9 in
    let session = new_session db.next_id (some table_id) s.employee_id s.shift_id none in
    let (d, moved, e11) =
      >>=-eq_ok
        (move_lines db.order_items
          (record db {
            next_id = db.next_id + 1;
            tables = tables;
            sessions = db.sessions ++ session ∷ [];
          })
          source session.id ps)
        _ e10 in
    let (kept, totals, same_tables, same_sessions) =
      move_lines-AreMoved db.order_items [] _ source session.id ps (check_lines-All db source ps p9)
        (unique-Fresh ids ((==_iff (length (unique ids)) (length ids)).0 p0)) (λ k i unseen e. e)
        moved in
    let (free, now) = taken-occupy table_id (λ r. is_empty r.status) db.tables (λ r h. h) claimed in
    subst
      (λ d.
        (IsSeated db → Follows db (seat table_id db.next_id) d)
        × ((w : Weighing) → total w d.order_items ≡ total w db.order_items))
      (ok_injective e11)
      (
        (λ seated. (
          (λ t.
              let room =
                claimed_room table_id t session (count (seated_at t) db.sessions)
                  (taken table_id db.tables) (taken t db.tables) (taken t tables) refl (seated t)
                  (λ e. ap (λ x. taken x db.tables) e) free (now t) in
              let a = ap (taken t) same_tables in
              let b = ap (count (seated_at t)) same_sessions in
              omega (
                arith,
                room,
                a,
                b,
                count-append (seated_at t) db.sessions (session ∷ []),
                count-weight (seated_at t) session [],
              )),
          kept,
          subst (IsEvent (seat table_id db.next_id) db.sessions) (sym same_sessions) (
              seated-IsEvent table_id session db.sessions refl refl
                (omega (arith, seated table_id, free))),
        )),
        totals,
      )

-- Splitting a session conserves the quantities: whatever weight is given to a line's menu item, price,
-- options and serve status, the weighed quantities of all lines have the same total.
pub split_table-total :
    (db : Db) (source table_id : ℕ) (ps : List SplitItem) (employee_id : ℕ) (w : Weighing)
    {db' : Db}
    → split_table db source table_id ps employee_id ≡ ok db'
    → total w db'.order_items ≡ total w db.order_items
split_table-total db source table_id ps employee_id w e =
    (split_table_lem db source table_id ps employee_id e).1 w
