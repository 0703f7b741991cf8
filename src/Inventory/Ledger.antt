-- ===== src/Inventory/Ledger.antt =====
-- services/inventory-movement.service.ts: the recorded transactions explain the stock.
use coffee_shop_be.Prelude.{
  ℕ, Bool, true, false, Option, none, some, List, [], ◌∷◌, ◌+◌, ◌≤◌, ◌≡◌, refl, sym, subst, arith,
  ◌==◌, if◌then◌else◌, inl, inr,
}
use coffee_shop_be.Prelude.Table.{find, update, claim, find-update, claim-eq_some}
use coffee_shop_be.Prelude.Http.{
  ok_injective, ok, conflict, bad_request, not_found, or_throw-eq_ok, >>=-eq_ok, guard-eq_ok,
}
use coffee_shop_be.Inventory.Stock.{
  Item, TxType, import, export, Transaction, to_positive_decimal, calculate_weighted_average_cost,
}
use coffee_shop_be.Inventory.Movement.{
  Db, Movement, item_key, find_active_item, unit_cost_of, can_export, move_items, apply_movement,
  apply_movements, move_stock, is_active_employee,
}
use coffee_shop_be.Inventory.Sound.{TxType-cases, take, put}

abbrev is_import : TxType → Bool
is_import import = true
is_import export = false

-- The quantities of one item that were imported, and that were exported.
unfoldable pub imported_of : ℕ → List Transaction → ℕ
imported_of id [] = 0
imported_of id (t ∷ ts) =
    let rest = imported_of id ts in
    if t.inventory_item_id == id
    then (if is_import t.tx_type then t.quantity + rest else rest)
    else rest

unfoldable pub exported_of : ℕ → List Transaction → ℕ
exported_of id [] = 0
exported_of id (t ∷ ts) =
    let rest = exported_of id ts in
    if t.inventory_item_id == id
    then (if is_import t.tx_type then rest else t.quantity + rest)
    else rest

abbrev stock_in : Option Item → ℕ
stock_in none = 0
stock_in (some i) = i.stock

unfoldable pub stock_of : ℕ → List Item → ℕ
stock_of id items = stock_in (find item_key id items)

-- Stock and transactions move together from one state to the next.
abbrev pub IsBooked : Db → Db → Type 0
IsBooked db db' =
    (id : ℕ)
    → stock_of id db'.items + exported_of id db'.transactions + imported_of id db.transactions
      ≡ stock_of id db.items + exported_of id db.transactions + imported_of id db'.transactions

pub stock_of-update :
    (id k : ℕ) (f : Item → Item) (items : List Item) {r : Item}
    → ((i : Item) → item_key (f i) ≡ item_key i)
    → find item_key k items ≡ some r
    → stock_of id (update item_key k f items) ≡ (if k == id then (f r).stock else stock_of id items)
unfolding stock_of
stock_of-update id k f items h e = ground (arith, find-update item_key id k f items h)

pub stock_of-find :
    (k : ℕ) (items : List Item) {r : Item}
    → find item_key k items ≡ some r
    → stock_of k items ≡ r.stock
unfolding stock_of
stock_of-find k items e = rw e refl

move_items-stock :
    (m : Movement) (unit_cost : ℕ) (item : Item) (items : List Item) {items' : List Item} (id : ℕ)
    → find item_key m.inventory_item_id items ≡ some item
    → move_items m unit_cost item items ≡ some items'
    → (m.tx_type ≡ import
        → stock_of id items' ≡ (
            if m.inventory_item_id == id
            then stock_of id items + m.quantity
            else stock_of id items))
      × (m.tx_type ≡ export
          → (if m.inventory_item_id == id
              then stock_of id items' + m.quantity
              else stock_of id items')
            ≡ stock_of id items)
unfolding move_items
move_items-stock m unit_cost item items {items'} id found e =
    let k = m.inventory_item_id in
    let q = m.quantity in
    let at = stock_of-find k items found in
    (
      (λ imports.
          let cost =
            calculate_weighted_average_cost item.stock item.average_unit_cost q unit_cost in
          let written : update item_key k (put q cost) items ≡ items' =
            ground (arith, e, imports) in
          rw (sym written)
            (ground (arith, at, stock_of-update id k (put q cost) items (λ i. refl) found))),
      (λ exports.
          let claimed : claim item_key k (can_export q item) (take q) items ≡ some items' =
            ground (arith, e, exports) in
          let (r, at', cond, written) =
            claim-eq_some item_key k (can_export q item) (take q) items claimed in
          let same = stock_of-find k items at' in
          let enough : q ≤ r.stock = ground (arith, cond) in
          rw written
            (ground (arith, same, enough, stock_of-update id k (take q) items (λ i. refl) at'))),
    )

same_quantity : (v : ℕ) {w : ℕ} → to_positive_decimal v ≡ ok w → v ≡ w
unfolding to_positive_decimal
same_quantity v e = ground arith

-- The arithmetic of one entry, for either type of movement.
entry :
    (id s s' : ℕ) (t : Transaction) (ts : List Transaction)
    → (t.tx_type ≡ import → s' ≡ (if t.inventory_item_id == id then s + t.quantity else s))
    → (t.tx_type ≡ export → (if t.inventory_item_id == id then s' + t.quantity else s') ≡ s)
    → s' + exported_of id (t ∷ ts) + imported_of id ts
      ≡ s + exported_of id ts + imported_of id (t ∷ ts)
unfolding exported_of imported_of
entry id s s' t ts i o = elim (TxType-cases t.tx_type) [
  | inl imports ↦ ground (arith, imports, i imports)
  | inr exports ↦ ground (arith, exports, o exports)
]

apply_movement-IsBooked :
    (db : Db) (m : Movement) {db' : Db} → apply_movement db m ≡ ok db' → IsBooked db db'
unfolding apply_movement
apply_movement-IsBooked db m {db'} e id =
    let (item, active, e1) =
      or_throw-eq_ok (find_active_item db m.inventory_item_id) not_found _ e in
    let found : find item_key m.inventory_item_id db.items ≡ some item = ground (arith, active) in
    let (quantity, q, e2) = >>=-eq_ok (to_positive_decimal m.quantity) _ e1 in
    let same = same_quantity m.quantity q in
    let (unit_cost, u, e3) =
      >>=-eq_ok (unit_cost_of m.tx_type m.unit_price item.average_unit_cost) _ e2 in
    let (moved, w, e4) = or_throw-eq_ok (move_items m unit_cost item db.items) conflict _ e3 in
    let (imports, exports) = move_items-stock m unit_cost item db.items id found w in
    let written = ok_injective e4 in
    subst
      (λ d.
        stock_of id d.items + exported_of id d.transactions + imported_of id db.transactions
        ≡ stock_of id db.items + exported_of id db.transactions + imported_of id d.transactions)
      written
      (entry id (stock_of id db.items) (stock_of id moved) _ db.transactions
        (λ t. rw (sym same) (imports t)) (λ t. rw (sym same) (exports t)))

apply_movements-IsBooked :
    (ms : List Movement) (db : Db) {db' : Db} → apply_movements db ms ≡ ok db' → IsBooked db db'
unfolding apply_movements
apply_movements-IsBooked [] db {db'} e id = rw (ok_injective e) refl
apply_movements-IsBooked (m ∷ ms) db e id =
    let (db1, first, rest) = >>=-eq_ok (apply_movement db m) _ e in
    omega (arith, apply_movement-IsBooked db m first id, apply_movements-IsBooked ms db1 rest id)

-- A batch of movements changes the stock of every item by exactly what it records: its imports
-- less its exports.
pub move_stock-IsBooked :
    (db : Db) (employee_id : ℕ) (ms : List Movement) {db' : Db}
    → move_stock db employee_id ms ≡ ok db'
    → (id : ℕ)
    → stock_of id db'.items + exported_of id db'.transactions + imported_of id db.transactions
      ≡ stock_of id db.items + exported_of id db.transactions + imported_of id db'.transactions
unfolding move_stock
move_stock-IsBooked db employee_id ms e id =
    let (active, e1) =
      guard-eq_ok (is_active_employee employee_id db.active_employees) bad_request _ e in
    apply_movements-IsBooked ms db e1 id
