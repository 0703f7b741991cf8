-- ===== src/Inventory/Sound.antt =====
-- The inventory as a whole: reservations, their release and movements of stock keep the reserved
-- stock of every item equal to its reservations, and covered by its stock.
use coffee_shop_be.Prelude.{
  ℕ, Bool, not, ◌&&◌, some, List, [], ◌∷◌, ◌++◌, ◌+◌, ◌-◌, ◌≡◌, ◌⊎◌, refl, sym, ◌∙◌, ap, subst,
  arith, filter, contains, Option-cases, inl, inr,
}
use coffee_shop_be.Prelude.Table.{
  find, update, claim, All, All-find, All-update, find-update, claim-eq_some,
}
use coffee_shop_be.Prelude.Http.{
  ok_injective, Result, ok, err, conflict, bad_request, not_found, or_throw-eq_ok, >>=-eq_ok,
  guard-eq_ok,
}
use coffee_shop_be.Inventory.Stock.{
  Item, Reservation, TxType, import, export, to_positive_decimal, calculate_weighted_average_cost,
}
use coffee_shop_be.Inventory.Movement.{
  Db, Movement, item_key, find_active_item, unit_cost_of, can_export, move_items, apply_movement,
  apply_movements, move_stock, is_active_employee,
}
use coffee_shop_be.Inventory.Reservations.{
  Orders, OrderItem, total_requirements, reserve_totals, release_totals, all_new_reservations,
  reserve_pending_items, release_reservations,
}
use coffee_shop_be.Inventory.Totals.{
  sum_of, reserved_of, IsCovered, total_requirements-total_of, reserve_totals_lem,
  release_totals_lem,
}

-- What is reserved of each item is what its reservations say, and no more than its stock.
abbrev pub IsSound : Db → Type 0
IsSound db =
    ((id : ℕ) → reserved_of id db.items ≡ sum_of id db.reservations) × All IsCovered db.items

sum_of-++ : (id : ℕ) (a b : List Reservation) → sum_of id (a ++ b) ≡ sum_of id a + sum_of id b
unfolding sum_of
sum_of-++ id [] b = ground arith
sum_of-++ id (r ∷ a) b = ground (arith, sum_of-++ id a b)

pub sum_of-filter :
    (id : ℕ) (p : Reservation → Bool) (rows : List Reservation)
    → sum_of id (filter p rows) + sum_of id (filter (λ r. not (p r)) rows) ≡ sum_of id rows
unfolding sum_of
sum_of-filter id p [] = ground arith
sum_of-filter id p (r ∷ rows) = ground (arith, sum_of-filter id p rows)

-- Reserving for the pending items of an order keeps the inventory sound.
pub reserve_pending_items-IsSound :
    (db : Db) (orders : Orders) (where_ : OrderItem → Bool) {db' : Db} {orders' : Orders}
    → reserve_pending_items db orders where_ ≡ ok (db', orders')
    → IsSound db
    → IsSound db'
unfolding reserve_pending_items
reserve_pending_items-IsSound db orders where_ {db'} e s =
    let items = filter (λ i. where_ i && i.is_pending) orders.order_items in
    let (rows, r, e1) = >>=-eq_ok (all_new_reservations db orders items) _ e in
    let (stocked, claimed, e2) =
      or_throw-eq_ok (reserve_totals (total_requirements rows) db.items) conflict _ e1 in
    let written : record db { items = stocked; reservations = rows ++ db.reservations } ≡ db' =
      ground (arith, e2) in
    let (moved, covered) = reserve_totals_lem (total_requirements rows) db.items claimed s.1 in
    subst IsSound written (
      (λ id. ground (
        arith,
        moved id,
        s.0 id,
        total_requirements-total_of id rows,
        sum_of-++ id rows db.reservations,
      )),
      covered,
    )

-- Releasing the reservations of order items keeps the inventory sound.
pub release_reservations-IsSound :
    (db : Db) (order_item_ids : List ℕ) {db' : Db}
    → release_reservations db order_item_ids ≡ ok db'
    → IsSound db
    → IsSound db'
unfolding release_reservations
release_reservations-IsSound db ids {db'} e s =
    let test : Reservation → Bool = λ r. contains r.order_item_id ids in
    let rows = filter test db.reservations in
    let (stocked, claimed, e1) =
      or_throw-eq_ok (release_totals (total_requirements rows) db.items) conflict _ e in
    let written : record db {
      items = stocked;
      reservations = filter (λ r. not (test r)) db.reservations;
    }
        ≡ db' =
      ground (arith, e1) in
    let (moved, covered) = release_totals_lem (total_requirements rows) db.items claimed s.1 in
    subst IsSound written (
      (λ id. ground (
        arith,
        moved id,
        s.0 id,
        total_requirements-total_of id rows,
        sum_of-filter id test db.reservations,
      )),
      covered,
    )

reserved_of-update :
    (id k : ℕ) (f : Item → Item) (items : List Item)
    → ((i : Item) → item_key (f i) ≡ item_key i)
    → ((i : Item) → (f i).reserved_stock ≡ i.reserved_stock)
    → reserved_of id (update item_key k f items) ≡ reserved_of id items
unfolding reserved_of
reserved_of-update id k f items h g =
    let looked = find-update item_key id k f items h in
    elim (Option-cases (find item_key id items)) [
      | inl missing ↦ ground (arith, looked, missing)
      | inr (r, found) ↦ ground (arith, looked, found, g r)
    ]

pub TxType-cases : (t : TxType) → (t ≡ import) ⊎ (t ≡ export)
TxType-cases import = inl refl
TxType-cases export = inr refl

abbrev pub take : ℕ → Item → Item
take q r = record r { stock = r.stock - q }

abbrev pub put : ℕ → ℕ → Item → Item
put q cost r = record r { stock = r.stock + q; average_unit_cost = cost }

move_items_lem :
    (m : Movement) (unit_cost : ℕ) (item : Item) (items : List Item) {items' : List Item}
    → find item_key m.inventory_item_id items ≡ some item
    → move_items m unit_cost item items ≡ some items'
    → All IsCovered items
    → ((id : ℕ) → reserved_of id items' ≡ reserved_of id items) × All IsCovered items'
unfolding move_items
move_items_lem m unit_cost item items {items'} found e c =
    let k = m.inventory_item_id in
    let q = m.quantity in
    elim (TxType-cases m.tx_type) [
      | inl imports ↦
          let cost =
            calculate_weighted_average_cost item.stock item.average_unit_cost q unit_cost in
          let written : update item_key k (put q cost) items ≡ items' =
            ground (arith, e, imports) in
          let covered = All-find IsCovered item_key k items c found in
          (
            (λ id.
                rw (sym written)
                  (reserved_of-update id k (put q cost) items (λ i. refl) (λ i. refl))),
            subst (All IsCovered) written (
                All-update IsCovered item_key k (put q cost) items c found
                  (omega (arith, covered))),
          )
      | inr exports ↦
          let claimed : claim item_key k (can_export q item) (take q) items ≡ some items' =
            ground (arith, e, exports) in
          let (r, at, cond, written) =
            claim-eq_some item_key k (can_export q item) (take q) items claimed in
          (
            (λ id. rw written (reserved_of-update id k (take q) items (λ i. refl) (λ i. refl))),
            rw written (All-update IsCovered item_key k (take q) items c at (ground (arith, cond))),
          )
    ]

apply_movement-IsSound :
    (db : Db) (m : Movement) {db' : Db} → apply_movement db m ≡ ok db' → IsSound db → IsSound db'
unfolding apply_movement
apply_movement-IsSound db m {db'} e s =
    let (item, active, e1) =
      or_throw-eq_ok (find_active_item db m.inventory_item_id) not_found _ e in
    let found : find item_key m.inventory_item_id db.items ≡ some item = ground (arith, active) in
    let (quantity, q, e2) = >>=-eq_ok (to_positive_decimal m.quantity) _ e1 in
    let (unit_cost, u, e3) =
      >>=-eq_ok (unit_cost_of m.tx_type m.unit_price item.average_unit_cost) _ e2 in
    let (moved, w, e4) = or_throw-eq_ok (move_items m unit_cost item db.items) conflict _ e3 in
    let (reserved, covered) = move_items_lem m unit_cost item db.items found w s.1 in
    let items : moved ≡ db'.items = ground (arith, e4) in
    let kept : db.reservations ≡ db'.reservations = ground (arith, e4) in
    (
      (λ id.
          subst (λ x. x ≡ sum_of id db'.reservations) (ap (reserved_of id) items)
            (subst (λ x. reserved_of id moved ≡ sum_of id x) kept (reserved id ∙ s.0 id))),
      subst (All IsCovered) items covered,
    )

apply_movements-IsSound :
    (ms : List Movement) (db : Db) {db' : Db}
    → apply_movements db ms ≡ ok db'
    → IsSound db
    → IsSound db'
unfolding apply_movements
apply_movements-IsSound [] db e s = subst IsSound (ok_injective e) s
apply_movements-IsSound (m ∷ ms) db e s =
    let (db1, first, rest) = >>=-eq_ok (apply_movement db m) _ e in
    apply_movements-IsSound ms db1 rest (apply_movement-IsSound db m first s)

-- A batch of movements keeps the inventory sound: no export takes stock that is reserved.
pub move_stock-IsSound :
    (db : Db) (employee_id : ℕ) (ms : List Movement) {db' : Db}
    → move_stock db employee_id ms ≡ ok db'
    → IsSound db
    → IsSound db'
unfolding move_stock
move_stock-IsSound db employee_id ms e s =
    let (active, e1) =
      guard-eq_ok (is_active_employee employee_id db.active_employees) bad_request _ e in
    apply_movements-IsSound ms db e1 s

-- Requests on the inventory: reservations and releases of the order services, and movements.
pub data Command : Type 0 where
  reserve : (OrderItem → Bool) → Command
  release : List ℕ → Command
  move : (employee_id : ℕ) → List Movement → Command

abbrev with_orders : Orders → Result Db → Result (Db × Orders)
with_orders orders (ok db) = ok (db, orders)
with_orders orders (err e) = err e

unfoldable pub handle : Command → Db × Orders → Result (Db × Orders)
unfolding reserve_pending_items release_reservations move_stock
handle (reserve where_) s = reserve_pending_items s.0 s.1 where_
handle (release ids) s = with_orders s.1 (release_reservations s.0 ids)
handle (move employee_id ms) s = with_orders s.1 (move_stock s.0 employee_id ms)

abbrev after : Db × Orders → Result (Db × Orders) → Db × Orders
after s (ok s') = s'
after s (err e) = s

-- A refused request rolls back.
unfoldable pub history : List Command → Db × Orders → Db × Orders
unfolding handle
history [] s = s
history (c ∷ cs) s = history cs (after s (handle c s))

with_orders-IsSound :
    (orders : Orders) (s : Db × Orders) (r : Result Db)
    → IsSound s.0
    → ((db : Db) → r ≡ ok db → IsSound db)
    → IsSound (after s (with_orders orders r)).0
with_orders-IsSound orders s (ok db) i h = h db refl
with_orders-IsSound orders s (err e) i h = i

after-IsSound :
    (s : Db × Orders) (r : Result (Db × Orders))
    → IsSound s.0
    → ((s' : Db × Orders) → r ≡ ok s' → IsSound s'.0)
    → IsSound (after s r).0
after-IsSound s (ok s') i h = h s' refl
after-IsSound s (err e) i h = i

handle-IsSound : (c : Command) (s : Db × Orders) → IsSound s.0 → IsSound (after s (handle c s)).0
unfolding handle
handle-IsSound (reserve where_) s i =
    after-IsSound s (reserve_pending_items s.0 s.1 where_) i
      (λ s' e. reserve_pending_items-IsSound s.0 s.1 where_ e i)
handle-IsSound (release ids) s i =
    with_orders-IsSound s.1 s (release_reservations s.0 ids) i
      (λ db e. release_reservations-IsSound s.0 ids e i)
handle-IsSound (move employee_id ms) s i =
    with_orders-IsSound s.1 s (move_stock s.0 employee_id ms) i
      (λ db e. move_stock-IsSound s.0 employee_id ms e i)

-- Whatever sequence of reservations, releases and movements is asked for, refused ones included:
-- from a state in which each item has reserved what its reservations say, and no more than its
-- stock, every such state follows.
pub history-IsSound : (cs : List Command) (s : Db × Orders) → IsSound s.0 → IsSound (history cs s).0
unfolding history
history-IsSound [] s i = i
history-IsSound (c ∷ cs) s i = history-IsSound cs (after s (handle c s)) (handle-IsSound c s i)
