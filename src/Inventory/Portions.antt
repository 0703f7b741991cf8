-- ===== src/Inventory/Portions.antt =====
-- services/inventory-consumption.service.ts: what one portion of an order item asks of an inventory
-- item, and that the totals of the order item are that times its quantity.
use coffee_shop_be.Prelude.{
  ℕ, Bool, true, false, ◌&&◌, List, [], ◌∷◌, ◌+◌, ◌*◌, ◌==◌, ◌≡◌, inl, inr, refl, ap, ◌∙◌, arith,
  if◌then◌else◌, Bool-cases,
}
use coffee_shop_be.Inventory.Reservations.{Orders, OrderItem, Ingredient, recipe_of, ingredients_of}
use coffee_shop_be.Inventory.Totals.{sum_of}
use coffee_shop_be.Inventory.Consumption.{sort_ingredients, insert_ingredient, totals_of}

sum_of-insert :
    (id : ℕ) (item : OrderItem) (i : Ingredient) (is : List Ingredient)
    → sum_of id (totals_of item (insert_ingredient i is)) ≡ sum_of id (totals_of item (i ∷ is))
unfolding sum_of
sum_of-insert id item i [] = refl
sum_of-insert id item i (j ∷ js) = ground (arith, sum_of-insert id item i js)

-- What the rows of a recipe ask of one item.
unfoldable per_portion : ℕ → List Ingredient → ℕ
per_portion id [] = 0
per_portion id (i ∷ is) =
    let rest = per_portion id is in if i.inventory_item_id == id then i.quantity + rest else rest

portion_step :
    (b : Bool) (q n s p : ℕ)
    → s ≡ n * p
    → (if b then q * n + s else s) ≡ n * (if b then q + p else p)
portion_step false q n s p e = e
portion_step true q n s p e = rw e (grind arith)

sum_of-totals_of :
    (id : ℕ) (item : OrderItem) (is : List Ingredient)
    → sum_of id (totals_of item is) ≡ item.quantity * per_portion id is
unfolding sum_of per_portion
sum_of-totals_of id item [] = omega arith
sum_of-totals_of id item (i ∷ is) =
    portion_step (i.inventory_item_id == id) i.quantity item.quantity _ _
      (sum_of-totals_of id item is)

sum_of-sort :
    (id : ℕ) (item : OrderItem) (is : List Ingredient)
    → sum_of id (totals_of item (sort_ingredients is)) ≡ sum_of id (totals_of item is)
unfolding sum_of sort_ingredients
sum_of-sort id item [] = refl
sum_of-sort id item (i ∷ is) =
    ground (arith, sum_of-insert id item i (sort_ingredients is), sum_of-sort id item is)

-- What the rows of one owner, in a table of recipes, ask of one item.
unfoldable asked_by : ℕ → ℕ → List Ingredient → ℕ
asked_by owner id [] = 0
asked_by owner id (i ∷ rows) =
    let rest = asked_by owner id rows in
    if (i.owner == owner) && (i.inventory_item_id == id) then i.quantity + rest else rest

-- By the copy of the recipe that the order item has, and by the recipe of the menu item where it
-- has none.
unfoldable pub portion : Orders → OrderItem → ℕ → ℕ
unfolding asked_by
portion orders item id =
    if item.is_snapshotted
    then asked_by item.id id orders.recipe_ingredients
    else asked_by item.menu_item_id id orders.menu_ingredients

per_portion-owner :
    (owner id : ℕ) (rows : List Ingredient)
    → per_portion id (ingredients_of owner rows) ≡ asked_by owner id rows
unfolding per_portion asked_by
per_portion-owner owner id [] = refl
per_portion-owner owner id (i ∷ rows) = ground (arith, per_portion-owner owner id rows)

per_portion-recipe :
    (orders : Orders) (item : OrderItem) (id : ℕ)
    → per_portion id (recipe_of orders item) ≡ portion orders item id
unfolding portion
per_portion-recipe orders item id = elim (Bool-cases item.is_snapshotted) [
  | inl copied ↦ rw copied (per_portion-owner item.id id orders.recipe_ingredients)
  | inr listed ↦ rw listed (per_portion-owner item.menu_item_id id orders.menu_ingredients)
]

pub sum_of-portion :
    (id : ℕ) (orders : Orders) (item : OrderItem)
    → sum_of id (totals_of item (sort_ingredients (recipe_of orders item)))
      ≡ item.quantity * portion orders item id
sum_of-portion id orders item =
    sum_of-sort id item (recipe_of orders item)
    ∙ sum_of-totals_of id item (recipe_of orders item)
    ∙ ap (λ n. item.quantity * n) (per_portion-recipe orders item id)
