-- ===== src/Inventory/Held.antt =====
-- services/inventory-consumption.service.ts: the rows that are held for an order item, against the rows
-- that its recipe needs.
use coffee_shop_be.Prelude.{
  ℕ, suc, some, List, [], ◌∷◌, ◌+◌, ◌==◌, ◌≡◌, ◌≢◌, inl, inr, refl, sym, ◌∙◌, arith, leb, length,
  if◌then◌else◌, Bool-cases,
}
use coffee_shop_be.Prelude.Table.{All}
use coffee_shop_be.Inventory.Stock.{Reservation}
use coffee_shop_be.Inventory.Reservations.{OrderItem, Ingredient, held_quantity}
use coffee_shop_be.Inventory.Totals.{sum_of}
use coffee_shop_be.Inventory.Consumption.{insert_ingredient, sort_ingredients, totals_of}

-- The rows of a recipe have different inventory items, as their primary key says.
abbrev pub IsDistinct : List Ingredient → Type 0
IsDistinct [] = Unit
IsDistinct (i ∷ is) = All (λ j. j.inventory_item_id ≢ i.inventory_item_id) is × IsDistinct is

abbrev pub AreDistinct : List Reservation → Type 0
AreDistinct [] = Unit
AreDistinct (t ∷ ts) = All (λ u. u.inventory_item_id ≢ t.inventory_item_id) ts × AreDistinct ts

insert-All :
    (P : Ingredient → Type 0) (i : Ingredient) (is : List Ingredient)
    → P i
    → All P is
    → All P (insert_ingredient i is)
insert-All P i [] p a = (p, tt)
insert-All P i (j ∷ js) p a = ground (arith, insert-All P i js p a.1)

insert-IsDistinct :
    (i : Ingredient) (is : List Ingredient)
    → All (λ j. j.inventory_item_id ≢ i.inventory_item_id) is
    → IsDistinct is
    → IsDistinct (insert_ingredient i is)
insert-IsDistinct i [] a d = (tt, tt)
insert-IsDistinct i (j ∷ js) a d =
    let rest = insert-IsDistinct i js a.1 d.1 in
    let apart =
      insert-All (λ k. k.inventory_item_id ≢ j.inventory_item_id) i js (λ e. a.0 (sym e)) d.0 in
    elim (Bool-cases (leb i.inventory_item_id j.inventory_item_id)) [
      | inl before ↦ rw before (a, d)
      | inr after ↦ rw after (apart, rest)
    ]

sort-All : (P : Ingredient → Type 0) (is : List Ingredient) → All P is → All P (sort_ingredients is)
unfolding sort_ingredients
sort-All P [] a = tt
sort-All P (i ∷ is) a = insert-All P i (sort_ingredients is) a.0 (sort-All P is a.1)

pub sort-IsDistinct : (is : List Ingredient) → IsDistinct is → IsDistinct (sort_ingredients is)
unfolding sort_ingredients
sort-IsDistinct [] d = tt
sort-IsDistinct (i ∷ is) d =
    insert-IsDistinct i (sort_ingredients is)
      (sort-All (λ j. j.inventory_item_id ≢ i.inventory_item_id) is d.0) (sort-IsDistinct is d.1)

totals_of-All :
    (item : OrderItem) (k : ℕ) (is : List Ingredient)
    → All (λ j. j.inventory_item_id ≢ k) is
    → All (λ u. u.inventory_item_id ≢ k) (totals_of item is)
totals_of-All item k [] a = tt
totals_of-All item k (i ∷ is) a = (a.0, totals_of-All item k is a.1)

pub totals_of-AreDistinct :
    (item : OrderItem) (is : List Ingredient) → IsDistinct is → AreDistinct (totals_of item is)
totals_of-AreDistinct item [] d = tt
totals_of-AreDistinct item (i ∷ is) d =
    (totals_of-All item i.inventory_item_id is d.0, totals_of-AreDistinct item is d.1)

-- Rows without the first one of an item.
unfoldable drop_key : ℕ → List Reservation → List Reservation
drop_key k [] = []
drop_key k (r ∷ rows) =
    let rest = drop_key k rows in if r.inventory_item_id == k then rows else r ∷ rest

sum_of-drop :
    (id k : ℕ) (rows : List Reservation) {q : ℕ}
    → held_quantity k rows ≡ some q
    → sum_of id rows
      ≡ (if k == id then q + sum_of id (drop_key k rows) else sum_of id (drop_key k rows))
unfolding held_quantity drop_key sum_of
sum_of-drop id k [] e = ground arith
sum_of-drop id k (r ∷ rows) {q} e = ground (arith, sum_of-drop id k rows {q = q})

length-drop :
    (k : ℕ) (rows : List Reservation) {q : ℕ}
    → held_quantity k rows ≡ some q
    → length rows ≡ suc (length (drop_key k rows))
unfolding held_quantity drop_key
length-drop k [] e = ground arith
length-drop k (r ∷ rows) {q} e = ground (arith, length-drop k rows {q = q})

held_quantity-drop :
    (j k : ℕ) (rows : List Reservation)
    → j ≢ k
    → held_quantity j (drop_key k rows) ≡ held_quantity j rows
unfolding held_quantity drop_key
held_quantity-drop j k [] h = refl
held_quantity-drop j k (r ∷ rows) h = ground (arith, held_quantity-drop j k rows h)

-- Each row is held with its quantity.
abbrev pub AreHeld : List Reservation → List Reservation → Type 0
AreHeld held ts = All (λ t. held_quantity t.inventory_item_id held ≡ some t.quantity) ts

AreHeld-drop :
    (k : ℕ) (held ts : List Reservation)
    → All (λ u. u.inventory_item_id ≢ k) ts
    → AreHeld held ts
    → AreHeld (drop_key k held) ts
AreHeld-drop k held [] d a = tt
AreHeld-drop k held (t ∷ ts) d a =
    (held_quantity-drop t.inventory_item_id k held d.0 ∙ a.0, AreHeld-drop k held ts d.1 a.1)

-- As many rows are held as are needed, and each needed one is held: they are the same rows.
pub sum_of-held :
    (id : ℕ) (held ts : List Reservation)
    → length held ≡ length ts
    → AreDistinct ts
    → AreHeld held ts
    → sum_of id held ≡ sum_of id ts
unfolding sum_of
sum_of-held id [] [] n d a = refl
sum_of-held id (r ∷ rows) [] n d a = absurd (omega (arith, n))
sum_of-held id held (t ∷ ts) n d a =
    let k = t.inventory_item_id in
    let shorter = length-drop k held a.0 in
    let rest =
      sum_of-held id (drop_key k held) ts (omega (arith, n, shorter)) d.1
        (AreHeld-drop k held ts d.0 a.1) in
    ground (arith, rest, sum_of-drop id k held a.0)
