-- ===== src/Inventory/Reservations.antt =====
-- services/inventory-consumption.service.ts: ingredients are reserved for pending order items and
-- released again. Rows of one order item have different inventory items (their primary key).
use coffee_shop_be.Prelude.{
  ℕ, Bool, true, false, not, ◌&&◌, Option, none, some, List, [], ◌∷◌, ◌++◌, ◌+◌, ◌-◌, ◌*◌, ◌==◌,
  leb, map, filter, any, opt_eq, length, contains, if◌then◌else◌,
}
use coffee_shop_be.Prelude.Table.{find, claim}
use coffee_shop_be.Prelude.Http.{Result, ok, err, ◌>>=◌, or_throw, conflict}
use coffee_shop_be.Inventory.Stock.{Item, Reservation}
use coffee_shop_be.Inventory.Movement.{Db, item_key}

pub record OrderItem : Type 0 where
  pub id : ℕ
  pub order_session_id : ℕ
  pub menu_item_id : ℕ
  pub quantity : ℕ
  pub is_pending : Bool
  pub is_snapshotted : Bool

-- A row of a recipe; `owner` is an order item in a snapshot and a menu item in the menu.
pub record Ingredient : Type 0 where
  pub owner : ℕ
  pub inventory_item_id : ℕ
  pub quantity : ℕ

pub record Orders : Type 0 where
  pub order_items : List OrderItem
  pub recipe_ingredients : List Ingredient
  pub menu_ingredients : List Ingredient

abbrev pub add_total : ℕ → ℕ → List (ℕ × ℕ) → List (ℕ × ℕ)
add_total id q [] = (id, q) ∷ []
add_total id q (t ∷ ts) =
    let rest = add_total id q ts in if t.0 == id then (t.0, t.1 + q) ∷ ts else t ∷ rest

abbrev pub collect_totals : List (ℕ × ℕ) → List Reservation → List (ℕ × ℕ)
collect_totals totals [] = totals
collect_totals totals (r ∷ rows) =
    collect_totals (add_total r.inventory_item_id r.quantity totals) rows

abbrev pub insert_total : ℕ × ℕ → List (ℕ × ℕ) → List (ℕ × ℕ)
insert_total t [] = t ∷ []
insert_total t (u ∷ us) =
    let rest = insert_total t us in if leb t.0 u.0 then t ∷ u ∷ us else u ∷ rest

abbrev pub sort_totals : List (ℕ × ℕ) → List (ℕ × ℕ)
sort_totals [] = []
sort_totals (t ∷ ts) = insert_total t (sort_totals ts)

unfoldable pub total_requirements : List Reservation → List (ℕ × ℕ)
total_requirements rows = sort_totals (collect_totals [] rows)

abbrev pub usable : Item → Bool
usable i = not i.deleted && not i.category_deleted && not i.unit_deleted

abbrev covers : List Item → ℕ × ℕ → Bool
covers items t = elim (find item_key t.0 items) [
  | none ↦ false
  | some i ↦ usable i && leb (t.1 + i.reserved_stock) i.stock
]

abbrev pub all : {A : Type 0} → (A → Bool) → List A → Bool
all p [] = true
all p (x ∷ xs) = p x && all p xs

unfoldable pub can_fulfill : Db → List Reservation → Bool
unfolding total_requirements
can_fulfill db requirements = all (covers db.items) (total_requirements requirements)

-- The `UPDATE` of each total, in order; `none` is an update of no row.
unfoldable pub reserve_totals : List (ℕ × ℕ) → List Item → Option (List Item)
reserve_totals [] items = some items
reserve_totals (t ∷ ts) items =
    elim (claim item_key t.0 (λ i. usable i && leb (t.1 + i.reserved_stock) i.stock)
      (λ i. record i { reserved_stock = i.reserved_stock + t.1 }) items) [
        | none ↦ none
        | some items' ↦ reserve_totals ts items'
      ]

unfoldable pub release_totals : List (ℕ × ℕ) → List Item → Option (List Item)
release_totals [] items = some items
release_totals (t ∷ ts) items =
    elim (claim item_key t.0 (λ i. leb t.1 i.reserved_stock)
      (λ i. record i { reserved_stock = i.reserved_stock - t.1 }) items) [
        | none ↦ none
        | some items' ↦ release_totals ts items'
      ]

abbrev pub ingredients_of : ℕ → List Ingredient → List Ingredient
ingredients_of owner rows = filter (λ r. r.owner == owner) rows

abbrev pub recipe_of : Orders → OrderItem → List Ingredient
recipe_of orders item =
    if item.is_snapshotted
    then ingredients_of item.id orders.recipe_ingredients
    else ingredients_of item.menu_item_id orders.menu_ingredients

abbrev pub required_by : Orders → OrderItem → List Reservation
required_by orders item =
    map {A = Ingredient}
      (λ r. record {
        order_item_id = item.id;
        inventory_item_id = r.inventory_item_id;
        quantity = r.quantity * item.quantity;
      })
      (recipe_of orders item)

abbrev pub held_by : ℕ → List Reservation → List Reservation
held_by order_item_id rows = filter (λ r. r.order_item_id == order_item_id) rows

-- `held.get(...)?.eq(...)` on the map of the held rows.
unfoldable pub held_quantity : ℕ → List Reservation → Option ℕ
held_quantity id [] = none
held_quantity id (r ∷ rows) =
    let rest = held_quantity id rows in if r.inventory_item_id == id then some r.quantity else rest

unfoldable pub is_held : List Reservation → Reservation → Bool
unfolding held_quantity
is_held held row = opt_eq (held_quantity row.inventory_item_id held) (some row.quantity)

unfoldable pub matches : List Reservation → List Reservation → Bool
unfolding is_held
matches held required = (length held == length required) && all (is_held held) required

-- The rows that an item still needs.
unfoldable pub new_reservations : Db → Orders → OrderItem → Result (List Reservation)
unfolding matches
new_reservations db orders item =
    let held = held_by item.id db.reservations in
    let required = required_by orders item in
    if length held == 0 then ok required else if matches held required then ok [] else err conflict

unfoldable pub all_new_reservations : Db → Orders → List OrderItem → Result (List Reservation)
unfolding new_reservations
all_new_reservations db orders [] = ok []
all_new_reservations db orders (i ∷ is) = do
  rows ← new_reservations db orders i
  more ← all_new_reservations db orders is
  ok (rows ++ more)

abbrev snapshot_rows : Orders → List OrderItem → List Ingredient
snapshot_rows orders [] = []
snapshot_rows orders (i ∷ is) =
    map {A = Ingredient} (λ r. record r { owner = i.id }) (recipe_of orders i)
    ++ snapshot_rows orders is

-- The items whose recipe was not yet copied get a copy of the menu's recipe.
unfoldable pub snapshot_recipes : Orders → List OrderItem → Orders
snapshot_recipes orders legacy = record orders {
  recipe_ingredients = snapshot_rows orders legacy ++ orders.recipe_ingredients;
  order_items =
      map {A = OrderItem}
        (λ i. if any (λ l. l.id == i.id) legacy then record i { is_snapshotted = true } else i)
        orders.order_items;
}

unfoldable pub reserve_pending_items : Db → Orders → (OrderItem → Bool) → Result (Db × Orders)
unfolding all_new_reservations total_requirements reserve_totals snapshot_recipes
reserve_pending_items db orders where_ = do
  let items = filter (λ i. where_ i && i.is_pending) orders.order_items
  reservations ← all_new_reservations db orders items
  stocked ← or_throw (reserve_totals (total_requirements reservations) db.items) conflict
  ok (
    record db { items = stocked; reservations = reservations ++ db.reservations },
    snapshot_recipes orders (filter (λ i. not i.is_snapshotted) items),
  )

unfoldable pub release_reservations : Db → List ℕ → Result Db
unfolding total_requirements release_totals
release_reservations db order_item_ids = do
  let rows = filter (λ r. contains r.order_item_id order_item_ids) db.reservations
  stocked ← or_throw (release_totals (total_requirements rows) db.items) conflict
  ok (record db {
    items = stocked;
    reservations = filter (λ r. not (contains r.order_item_id order_item_ids)) db.reservations;
  })
