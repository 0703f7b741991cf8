-- ===== src/Inventory/Totals.antt =====
-- services/inventory-consumption.service.ts: what the totals of a batch of rows do to the reserved
-- stock of each item.
use coffee_shop_be.Prelude.{
  ℕ, Bool, ◌&&◌, Option, none, some, List, [], ◌∷◌, ◌+◌, ◌-◌, ◌≤◌, ◌≡◌, refl, subst, arith, ◌==◌,
  leb, if◌then◌else◌, Option-cases, inl, inr,
}
use coffee_shop_be.Prelude.Table.{
  find, update, claim, All, All-find, All-update, find-update, claim-eq_some,
}
use coffee_shop_be.Inventory.Stock.{Item, Reservation}
use coffee_shop_be.Inventory.Movement.{item_key}
use coffee_shop_be.Inventory.Reservations.{
  add_total, collect_totals, insert_total, sort_totals, total_requirements, reserve_totals,
  release_totals, usable,
}

-- The quantity of one item in rows, and in totals.
unfoldable pub sum_of : ℕ → List Reservation → ℕ
sum_of id [] = 0
sum_of id (r ∷ rows) =
    let rest = sum_of id rows in if r.inventory_item_id == id then r.quantity + rest else rest

unfoldable pub total_of : ℕ → List (ℕ × ℕ) → ℕ
total_of id [] = 0
total_of id (t ∷ ts) = let rest = total_of id ts in if t.0 == id then t.1 + rest else rest

abbrev reserved_in : Option Item → ℕ
reserved_in none = 0
reserved_in (some i) = i.reserved_stock

unfoldable pub reserved_of : ℕ → List Item → ℕ
reserved_of id items = reserved_in (find item_key id items)

add_total-total_of :
    (id k q : ℕ) (ts : List (ℕ × ℕ))
    → total_of id (add_total k q ts) ≡ (if k == id then q + total_of id ts else total_of id ts)
unfolding total_of
add_total-total_of id k q [] = ground arith
add_total-total_of id k q (t ∷ ts) = ground (arith, add_total-total_of id k q ts)

collect_totals-total_of :
    (id : ℕ) (totals : List (ℕ × ℕ)) (rows : List Reservation)
    → total_of id (collect_totals totals rows) ≡ total_of id totals + sum_of id rows
unfolding sum_of
collect_totals-total_of id totals [] = ground arith
collect_totals-total_of id totals (r ∷ rows) = ground (
  arith,
  collect_totals-total_of id (add_total r.inventory_item_id r.quantity totals) rows,
  add_total-total_of id r.inventory_item_id r.quantity totals,
)

insert_total-total_of :
    (id : ℕ) (t : ℕ × ℕ) (ts : List (ℕ × ℕ))
    → total_of id (insert_total t ts) ≡ total_of id (t ∷ ts)
unfolding total_of
insert_total-total_of id t [] = ground arith
insert_total-total_of id t (u ∷ us) = ground (arith, insert_total-total_of id t us)

sort_totals-total_of : (id : ℕ) (ts : List (ℕ × ℕ)) → total_of id (sort_totals ts) ≡ total_of id ts
unfolding total_of
sort_totals-total_of id [] = refl
sort_totals-total_of id (t ∷ ts) =
    ground (arith, insert_total-total_of id t (sort_totals ts), sort_totals-total_of id ts)

-- The totals of rows have each item's quantity.
pub total_requirements-total_of :
    (id : ℕ) (rows : List Reservation) → total_of id (total_requirements rows) ≡ sum_of id rows
unfolding total_requirements total_of
total_requirements-total_of id rows =
    ground
      (arith, sort_totals-total_of id (collect_totals [] rows), collect_totals-total_of id [] rows)

-- No item has more reserved than it has in stock.
abbrev pub IsCovered : Item → Type 0
IsCovered i = i.reserved_stock ≤ i.stock

-- A claim that changes only the reserved stock.
abbrev claimed_reserved : ℕ → (Item → ℕ) → List Item → List Item
claimed_reserved k f items = update item_key k (λ i. record i { reserved_stock = f i }) items

reserved_of-claimed :
    (id k : ℕ) (f : Item → ℕ) (items : List Item) {r : Item}
    → find item_key k items ≡ some r
    → reserved_of id (claimed_reserved k f items) ≡ (if k == id then f r else reserved_of id items)
unfolding reserved_of
reserved_of-claimed id k f items e =
    ground
      (arith, find-update item_key id k (λ i. record i { reserved_stock = f i }) items (λ r. refl))

pub reserved_of-find :
    (k : ℕ) (items : List Item) {r : Item}
    → find item_key k items ≡ some r
    → reserved_of k items ≡ r.reserved_stock
unfolding reserved_of
reserved_of-find k items e = rw e refl

abbrev can_reserve : ℕ → Item → Bool
can_reserve q i = usable i && leb (q + i.reserved_stock) i.stock

abbrev raise : ℕ → Item → Item
raise q i = record i { reserved_stock = i.reserved_stock + q }

abbrev can_release : ℕ → Item → Bool
can_release q i = leb q i.reserved_stock

abbrev lower : ℕ → Item → Item
lower q i = record i { reserved_stock = i.reserved_stock - q }

reserve_one :
    (k q : ℕ) (items : List Item) {items' : List Item}
    → claim item_key k (can_reserve q) (raise q) items ≡ some items'
    → All IsCovered items
    → ((id : ℕ)
        → reserved_of id items'
          ≡ (if k == id then reserved_of id items + q else reserved_of id items))
      × All IsCovered items'
reserve_one k q items e c =
    let (r, found, cond, written) = claim-eq_some item_key k (can_reserve q) (raise q) items e in
    let at = reserved_of-find k items found in
    let step = λ (id : ℕ). reserved_of-claimed id k (λ i. i.reserved_stock + q) items found in
    (
      (λ id. rw written (ground (arith, step id, at))),
      rw written (All-update IsCovered item_key k (raise q) items c found (ground (arith, cond))),
    )

release_one :
    (k q : ℕ) (items : List Item) {items' : List Item}
    → claim item_key k (can_release q) (lower q) items ≡ some items'
    → All IsCovered items
    → ((id : ℕ)
        → (if k == id then reserved_of id items' + q else reserved_of id items')
          ≡ reserved_of id items)
      × All IsCovered items'
release_one k q items e c =
    let (r, found, cond, written) = claim-eq_some item_key k (can_release q) (lower q) items e in
    let at = reserved_of-find k items found in
    let step = λ (id : ℕ). reserved_of-claimed id k (λ i. i.reserved_stock - q) items found in
    let le : q ≤ r.reserved_stock = ground (arith, cond) in
    let covered = All-find IsCovered item_key k items c found in
    (
      (λ id. rw written (ground (arith, step id, at, le))),
      rw written (All-update IsCovered item_key k (lower q) items c found (omega (arith, covered))),
    )

-- Every total that was reserved is on its item, and stock still covers what is reserved.
pub reserve_totals_lem :
    (ts : List (ℕ × ℕ)) (items : List Item) {items' : List Item}
    → reserve_totals ts items ≡ some items'
    → All IsCovered items
    → ((id : ℕ) → reserved_of id items' ≡ reserved_of id items + total_of id ts)
      × All IsCovered items'
unfolding reserve_totals total_of
reserve_totals_lem [] items {items'} e c =
    let same : items ≡ items' = ground (arith, e) in
    ((λ id. rw same (omega arith)), subst (All IsCovered) same c)
reserve_totals_lem (t ∷ ts) items {items'} e c =
    elim (Option-cases (claim item_key t.0 (can_reserve t.1) (raise t.1) items)) [
      | inl missed ↦ absurd (ground (arith, e, missed))
      | inr (items1, claimed) ↦
          let (first, covered) = reserve_one t.0 t.1 items claimed c in
          let more : reserve_totals ts items1 ≡ some items' = ground (arith, e, claimed) in
          let (rest, covered') = reserve_totals_lem ts items1 more covered in
          ((λ id. ground (arith, first id, rest id)), covered')
    ]

-- Every total that was released is off its item.
pub release_totals_lem :
    (ts : List (ℕ × ℕ)) (items : List Item) {items' : List Item}
    → release_totals ts items ≡ some items'
    → All IsCovered items
    → ((id : ℕ) → reserved_of id items' + total_of id ts ≡ reserved_of id items)
      × All IsCovered items'
unfolding release_totals total_of
release_totals_lem [] items {items'} e c =
    let same : items ≡ items' = ground (arith, e) in
    ((λ id. rw same (omega arith)), subst (All IsCovered) same c)
release_totals_lem (t ∷ ts) items {items'} e c =
    elim (Option-cases (claim item_key t.0 (can_release t.1) (lower t.1) items)) [
      | inl missed ↦ absurd (ground (arith, e, missed))
      | inr (items1, claimed) ↦
          let (first, covered) = release_one t.0 t.1 items claimed c in
          let more : release_totals ts items1 ≡ some items' = ground (arith, e, claimed) in
          let (rest, covered') = release_totals_lem ts items1 more covered in
          ((λ id. ground (arith, first id, rest id)), covered')
    ]
