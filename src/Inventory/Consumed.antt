-- ===== src/Inventory/Consumed.antt =====
-- services/inventory-consumption.service.ts: what the consumption of an order item does to the
-- reserved stock, to the stock and to the transactions of every inventory item.
use coffee_shop_be.Prelude.{
  ℕ, Bool, true, false, not, ◌&&◌, some, List, [], ◌∷◌, ◌++◌, ◌+◌, ◌*◌, ◌==◌, ◌≤◌, ◌≡◌, inl, inr,
  refl, sym, ◌∙◌, subst, arith, any, length, if◌then◌else◌, Option-cases,
}
use coffee_shop_be.Prelude.Table.{claim, All, All-find, All-update, find-update, claim-eq_some}
use coffee_shop_be.Prelude.Http.{ok, conflict, ok_injective, throw_if-eq_ok, or_throw-eq_ok}
use coffee_shop_be.Inventory.Stock.{Item, Reservation, Transaction}
use coffee_shop_be.Inventory.Movement.{Db, item_key}
use coffee_shop_be.Inventory.Reservations.{
  Orders, OrderItem, recipe_of, held_by, held_quantity, is_held, matches, all,
}
use coffee_shop_be.Inventory.Totals.{sum_of, reserved_of, IsCovered}
use coffee_shop_be.Inventory.Sound.{IsSound, sum_of-filter}
use coffee_shop_be.Inventory.Ledger.{
  stock_of, stock_of-update, stock_of-find, imported_of, exported_of,
}
use coffee_shop_be.Inventory.Consumption.{
  sort_ingredients, is_inactive, totals_of, own_quantity, can_consume, consumed, consume_totals,
  export_rows, consume_order_item,
}
use coffee_shop_be.Inventory.Portions.{portion, sum_of-portion}
use coffee_shop_be.Inventory.Held.{
  IsDistinct, AreDistinct, AreHeld, sort-IsDistinct, totals_of-AreDistinct, sum_of-held,
}

-- What the rows take out of the reserved stock of one item.
unfoldable own_sum : List Reservation → ℕ → List Reservation → ℕ
own_sum held id [] = 0
own_sum held id (t ∷ ts) =
    let rest = own_sum held id ts in
    if t.inventory_item_id == id then own_quantity held t.inventory_item_id + rest else rest

-- Of each row, no more is taken from the reserved stock than from the stock.
abbrev IsWithin : List Reservation → List Reservation → Type 0
IsWithin held ts = All (λ t. own_quantity held t.inventory_item_id ≤ t.quantity) ts

consume_one :
    (k q own : ℕ) (items : List Item) {items' : List Item}
    → claim item_key k (can_consume q own) (consumed q own) items ≡ some items'
    → own ≤ q
    → All IsCovered items
    → ((id : ℕ)
        → ((if k == id then reserved_of id items' + own else reserved_of id items')
            ≡ reserved_of id items)
          × ((if k == id then stock_of id items' + q else stock_of id items') ≡ stock_of id items))
      × All IsCovered items'
unfolding reserved_of
consume_one k q own items e le c =
    let (r, found, cond, written) =
      claim-eq_some item_key k (can_consume q own) (consumed q own) items e in
    let held : own ≤ r.reserved_stock = ground (arith, cond) in
    let fits : r.reserved_stock + q ≤ r.stock + own = ground (arith, cond) in
    let covered : r.reserved_stock ≤ r.stock = All-find IsCovered item_key k items c found in
    let enough : q ≤ r.stock = omega (arith, fits, held, covered) in
    let stocked = stock_of-find k items found in
    (
      (λ id. rw written (
        ground (arith, held, found, find-update item_key id k (consumed q own) items (λ i. refl)),
        ground
            (arith, enough, stocked, stock_of-update id k (consumed q own) items (λ i. refl) found),
      )),
      rw written (
          All-update IsCovered item_key k (consumed q own) items c found
            (omega (arith, fits, held, enough))),
    )

consume_totals_lem :
    (held ts : List Reservation) (items : List Item) {items' : List Item}
    → consume_totals held ts items ≡ some items'
    → IsWithin held ts
    → All IsCovered items
    → ((id : ℕ)
        → (reserved_of id items' + own_sum held id ts ≡ reserved_of id items)
          × (stock_of id items' + sum_of id ts ≡ stock_of id items))
      × All IsCovered items'
unfolding consume_totals own_sum sum_of
consume_totals_lem held [] items {items'} e w c =
    let same : items ≡ items' = ground (arith, e) in
    ((λ id. rw same (omega arith, omega arith)), subst (All IsCovered) same c)
consume_totals_lem held (t ∷ ts) items {items'} e w c =
    let k = t.inventory_item_id in
    let own = own_quantity held k in
    elim (Option-cases
      (claim item_key k (can_consume t.quantity own) (consumed t.quantity own) items)) [
        | inl missed ↦ absurd (ground (arith, e, missed))
        | inr (items1, claimed) ↦
            let (first, covered) = consume_one k t.quantity own items claimed w.0 c in
            let more : consume_totals held ts items1 ≡ some items' = ground (arith, e, claimed) in
            let (rest, covered') = consume_totals_lem held ts items1 more w.1 covered in
            (
              (λ id. (ground (arith, first id, rest id), ground (arith, first id, rest id))),
              covered',
            )
      ]

-- Where every row is held, and where none is.
IsWithin-held : (held ts : List Reservation) → AreHeld held ts → IsWithin held ts
IsWithin-held held [] a = tt
IsWithin-held held (t ∷ ts) a = (ground (arith, a.0), IsWithin-held held ts a.1)

own_sum-held :
    (held : List Reservation) (id : ℕ) (ts : List Reservation)
    → AreHeld held ts
    → own_sum held id ts ≡ sum_of id ts
unfolding own_sum sum_of
own_sum-held held id [] a = refl
own_sum-held held id (t ∷ ts) a = ground (arith, a.0, own_sum-held held id ts a.1)

IsWithin-none : (ts : List Reservation) → IsWithin [] ts
unfolding held_quantity
IsWithin-none [] = tt
IsWithin-none (t ∷ ts) = (omega arith, IsWithin-none ts)

own_sum-none : (id : ℕ) (ts : List Reservation) → own_sum [] id ts ≡ 0
unfolding own_sum held_quantity
own_sum-none id [] = refl
own_sum-none id (t ∷ ts) = ground (arith, own_sum-none id ts)

all_held : (held ts : List Reservation) → all (is_held held) ts ≡ true → AreHeld held ts
unfolding is_held
all_held held [] e = tt
all_held held (t ∷ ts) e = (ground (arith, e), all_held held ts (ground (arith, e)))

-- The check before consumption, in terms of sums.
held_cases :
    (held ts : List Reservation)
    → AreDistinct ts
    → (not (length held == 0) && not (matches held ts)) ≡ false
    → IsWithin held ts × ((id : ℕ) → own_sum held id ts ≡ sum_of id held)
unfolding matches sum_of
held_cases [] ts d e = (IsWithin-none ts, λ id. own_sum-none id ts)
held_cases (h ∷ hs) ts d e =
    let same : length (h ∷ hs) ≡ length ts = ground (arith, e) in
    let a = all_held (h ∷ hs) ts (ground (arith, e)) in
    (
      IsWithin-held (h ∷ hs) ts a,
      λ id. own_sum-held (h ∷ hs) id ts a ∙ sym (sum_of-held id (h ∷ hs) ts same d a),
    )

exported_of-rows :
    (id : ℕ) (items : List Item) (ts : List Reservation) (txs : List Transaction)
    → (exported_of id (export_rows items ts ++ txs) ≡ sum_of id ts + exported_of id txs)
      × (imported_of id (export_rows items ts ++ txs) ≡ imported_of id txs)
unfolding exported_of imported_of sum_of
exported_of-rows id items [] txs = (omega arith, refl)
exported_of-rows id items (t ∷ ts) txs = ground (arith, exported_of-rows id items ts txs)

-- An order item whose consumption succeeds, with a recipe of different ingredients, keeps the
-- inventory sound; out of the stock of every item it takes what the rows of the recipe ask of it,
-- summed, times the quantity of the order item, and it records that as exports. The rows are those
-- of the order item's own copy of the recipe if it has one, and else those of the menu item.
pub consume_order_item_lem :
    (db : Db) (orders : Orders) (item : OrderItem) {db' : Db}
    → IsDistinct (recipe_of orders item)
    → consume_order_item db orders item ≡ ok db'
    → IsSound db
    → IsSound db'
      × ((id : ℕ)
          → stock_of id db'.items + item.quantity * portion orders item id ≡ stock_of id db.items)
      × ((id : ℕ)
          → (exported_of id db'.transactions
              ≡ item.quantity * portion orders item id + exported_of id db.transactions)
            × (imported_of id db'.transactions ≡ imported_of id db.transactions))
unfolding consume_order_item
consume_order_item_lem db orders item {db'} distinct e s =
    let ingredients = sort_ingredients (recipe_of orders item) in
    let ts = totals_of item ingredients in
    let test : Reservation → Bool = λ r. r.order_item_id == item.id in
    let held = held_by item.id db.reservations in
    let (active, e1) = throw_if-eq_ok (any (is_inactive db.items) ingredients) conflict _ e in
    let (fits, e2) =
      throw_if-eq_ok (not (length held == 0) && not (matches held ts)) conflict _ e1 in
    let (items, taken, e3) = or_throw-eq_ok (consume_totals held ts db.items) conflict _ e2 in
    let written = ok_injective e3 in
    let apart =
      totals_of-AreDistinct item ingredients (sort-IsDistinct (recipe_of orders item) distinct) in
    let (within, own) = held_cases held ts apart fits in
    let (moved, covered) = consume_totals_lem held ts db.items taken within s.1 in
    let total = λ (id : ℕ). sum_of-portion id orders item in
    let rows = λ (id : ℕ). exported_of-rows id db.items ts db.transactions in
    subst
      (λ d.
        IsSound d
        × ((id : ℕ)
            → stock_of id d.items + item.quantity * portion orders item id ≡ stock_of id db.items)
        × ((id : ℕ)
            → (exported_of id d.transactions
                ≡ item.quantity * portion orders item id + exported_of id db.transactions)
              × (imported_of id d.transactions ≡ imported_of id db.transactions)))
      written
      (
        (
          (λ id. omega (arith, moved id, own id, s.0 id, sum_of-filter id test db.reservations)),
          covered,
        ),
        (λ id. omega (arith, moved id, total id)),
        (λ id. (omega (arith, rows id, total id), omega (arith, rows id))),
      )
