-- ===== src/Orders/Lines/Write.antt =====
-- Adding and remaking lines, and moving them to another session, keep every line.
use coffee_shop_be.Prelude.{
  ℕ, Bool, not, ◌&&◌, ◌||◌, Option, none, some, List, [], ◌∷◌, ◌==◌, ◌≡◌, ◌⊎◌, refl, sym, subst,
  inl, inr, any, length, map, filter, contains, if◌then◌else◌,
}
use coffee_shop_be.Prelude.Table.{find, first}
use coffee_shop_be.Prelude.Http.{
  Result, ok, err, ok_injective, if-eq_ok, >>=-eq_ok, or_throw-eq_ok, guard-eq_ok, throw_if-eq_ok,
  not_found, conflict,
}
use coffee_shop_be.Cash.Access.{assert_active_employee}
use coffee_shop_be.Orders.Selection.{MenuItem}
use coffee_shop_be.Orders.Types.{Db, OrderItem, Remake, order_item_key, session_key, menu_item_key}
use coffee_shop_be.Orders.Policy.{assert_active_session, log}
use coffee_shop_be.Orders.Kitchen.{Group, has_elapsed, group_items, write_tickets, create_tickets}
use coffee_shop_be.Orders.Adding.{
  NewItem, Quote, Planned, is_orderable, plan, line_of, fits, quotes_of, menu_item_ids,
  add_order_items,
}
use coffee_shop_be.Orders.Serving.{
  is_replacement, can_remake, has_station, snapshots_of, replacement_of, RemakeKey, create_remake,
  remake_item,
}
use coffee_shop_be.Orders.Lines.{IsLineChange, AreKept, AreKept-refl, append-AreKept}

write_tickets-keeps :
    (now : ℕ) (pickup_at : Option ℕ) (session_id : ℕ) (gs : List Group) (db : Db)
    → ((write_tickets now pickup_at session_id gs db).order_items ≡ db.order_items)
      × ((write_tickets now pickup_at session_id gs db).tables ≡ db.tables)
      × ((write_tickets now pickup_at session_id gs db).sessions ≡ db.sessions)
unfolding write_tickets
write_tickets-keeps now pickup_at session_id [] db = (refl, refl, refl)
write_tickets-keeps now pickup_at session_id (g ∷ gs) db =
    write_tickets-keeps now pickup_at session_id gs _

create_tickets-keeps :
    (now : ℕ) (db : Db) (session_id : ℕ) (ms : List MenuItem) (items : List OrderItem)
    (pickup_at : Option ℕ) {db' : Db}
    → create_tickets now db session_id ms items pickup_at ≡ ok db'
    → (db'.order_items ≡ db.order_items) × (db'.tables ≡ db.tables) × (db'.sessions ≡ db.sessions)
unfolding create_tickets
create_tickets-keeps now db session_id ms items pickup_at e =
    let (p, e1) = throw_if-eq_ok (has_elapsed now pickup_at) conflict _ e in
    let (groups, p1, e2) = >>=-eq_ok (group_items pickup_at ms items []) _ e1 in
    elim (if-eq_ok (length groups == 0) (ok db) _ e2) [
      | inl (none_there, e3) ↦
          subst
            (λ (d : Db).
              (d.order_items ≡ db.order_items)
              × (d.tables ≡ db.tables)
              × (d.sessions ≡ db.sessions))
            (ok_injective e3) (refl, refl, refl)
      | inr (some_there, e3) ↦
          let (session, p2, e4) =
            or_throw-eq_ok (find session_key session_id db.sessions) not_found _ e3 in
          subst
            (λ (d : Db).
              (d.order_items ≡ db.order_items)
              × (d.tables ≡ db.tables)
              × (d.sessions ≡ db.sessions))
            (ok_injective e4) (write_tickets-keeps now pickup_at session_id groups db)
    ]

pub add_order_items-IsLineChange :
    (now : ℕ) (db : Db) (id : ℕ) (items : List NewItem) (quotes : Option (List Quote))
    (pickup_at : Option ℕ) {db' : Db}
    → add_order_items now db id items quotes pickup_at ≡ ok db'
    → IsLineChange db db'
unfolding add_order_items
add_order_items-IsLineChange now db id items quotes pickup_at e =
    let ids = menu_item_ids items in
    let (session, p, e1) = or_throw-eq_ok (find session_key id db.sessions) not_found _ e in
    let (u, p1, e2) = >>=-eq_ok (assert_active_session session.status) _ e1 in
    let (p2, e3) = throw_if-eq_ok session.is_online conflict _ e2 in
    let ms = filter (λ m. contains m.id ids && is_orderable m) db.menu_items in
    let (p3, e4) = guard-eq_ok (length ms == length ids) not_found _ e3 in
    let (p4, e5) = guard-eq_ok (fits quotes items) conflict _ e4 in
    let (planned, p5, e6) = >>=-eq_ok (plan ms (quotes_of quotes) db.next_id items) _ e5 in
    let lines = map {A = Planned} (line_of id) planned in
    let (a, b, c) = create_tickets-keeps now _ id ms lines pickup_at e6 in
    (subst (AreKept db.order_items) (sym a) (append-AreKept db.order_items lines), b, c)

create_remake-IsLineChange :
    (now : ℕ) (db : Db) (id employee_id reason : ℕ) (request : RemakeKey) {db' : Db}
    → create_remake now db id employee_id reason request ≡ ok db'
    → IsLineChange db db'
unfolding create_remake log
create_remake-IsLineChange now db id employee_id reason request e =
    let (original, p1, e2) = or_throw-eq_ok (find order_item_key id db.order_items) not_found _ e in
    let (session, p2, e3) =
      or_throw-eq_ok (find session_key original.order_session_id db.sessions) not_found _ e2 in
    let (p3, e4) = guard-eq_ok (can_remake db original session) conflict _ e3 in
    let (p4, e5) =
      throw_if-eq_ok (any (λ r. r.original_item_id == id) db.remakes || is_replacement db id)
        conflict _ e4 in
    let (m, p5, e6) =
      or_throw-eq_ok (find menu_item_key original.menu_item_id db.menu_items) not_found _ e5 in
    let (p6, e7) = guard-eq_ok (has_station m) conflict _ e6 in
    let (p7, e8) =
      throw_if-eq_ok (not original.is_snapshotted && (length (snapshots_of db original.id) == 0))
        conflict _ e7 in
    let replacement = replacement_of db.next_id original in
    let (d, p8, e9) =
      >>=-eq_ok (create_tickets now _ original.order_session_id (m ∷ []) (replacement ∷ []) none) _
        e8 in
    let (a, b, c) =
      create_tickets-keeps now _ original.order_session_id (m ∷ []) (replacement ∷ []) none p8 in
    subst (IsLineChange db) (ok_injective e9) (
      subst (AreKept db.order_items) (sym a) (append-AreKept db.order_items (replacement ∷ [])),
      b,
      c,
    )

replayed :
    {B : Type 0} (o : Option B) (db : Db) (test : B → Bool) (create : Result Db) {db' : Db}
    → (elim o [ some r ↦ if test r then ok db else err conflict | none ↦ create ]) ≡ ok db'
    → (ok db ≡ ok db') ⊎ (create ≡ ok db')
replayed none db test create e = inr e
replayed (some r) db test create e = elim (if-eq_ok (test r) (ok db) (err conflict) e) [
  | inl (same, e1) ↦ inl e1
  | inr (other, e1) ↦ cc
]

pub remake_item-IsLineChange :
    (now : ℕ) (db : Db) (id employee_id reason : ℕ) (request : RemakeKey) {db' : Db}
    → remake_item now db id employee_id reason request ≡ ok db'
    → IsLineChange db db'
unfolding remake_item
remake_item-IsLineChange now db id employee_id reason request e =
    let (u, p, e1) = >>=-eq_ok (assert_active_employee db.cash employee_id) _ e in
    elim (replayed
      (first (λ r. (r.employee_id == employee_id) && (r.idempotency_key == request.idempotency_key))
        db.remakes)
      db (λ (r : Remake). r.request_hash == request.request_hash) _ e1) [
        | inl same ↦
            subst (IsLineChange db) (ok_injective same) (AreKept-refl db.order_items, refl, refl)
        | inr made ↦ create_remake-IsLineChange now db id employee_id reason request made
      ]
