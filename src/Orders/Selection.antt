-- ===== src/Orders/Selection.antt =====
-- menu/menu-option-selection.ts: the price, the options and the recipe of a menu item with the options
-- that a guest chose. Prices are in cents, quantities in
-- ten-thousandths; names are numbers that stand for the texts, and keys are ordered as numbers.
pub mod Chosen
use coffee_shop_be.Prelude.{
  ℕ, Bool, true, false, not, ◌&&◌, Option, List, [], ◌∷◌, ◌++◌, ◌+◌, ◌==◌, leb, ltb, filter, length,
  contains, if◌then◌else◌,
}
use coffee_shop_be.Prelude.Http.{Result, ok, err, ◌>>=◌, ◌>>◌, guard, throw_if, conflict}
use coffee_shop_be.Inventory.Reservations.{add_total, sort_totals}
use coffee_shop_be.Orders.Unique.{unique}

pub record MenuIngredient : Type 0 where
  pub inventory_item_id : ℕ
  pub quantity : ℕ
  pub deleted : Bool

pub record MenuOption : Type 0 where
  pub id : ℕ
  pub name : ℕ
  pub price_delta : ℕ
  pub ingredients : List MenuIngredient

pub record OptionGroup : Type 0 where
  pub name : ℕ
  pub min_selected : ℕ
  pub max_selected : ℕ
  pub options : List MenuOption

pub record Station : Type 0 where
  pub id : ℕ
  pub prep_sla_seconds : ℕ
  pub is_active : Bool
  pub deleted : Bool

pub record MenuItem : Type 0 where
  pub id : ℕ
  pub price : ℕ
  pub is_available : Bool
  pub deleted : Bool
  pub category_deleted : Bool
  pub ingredients : List MenuIngredient
  pub option_groups : List OptionGroup
  pub kitchen_station : Option Station

pub record SelectedOption : Type 0 where
  pub id : ℕ
  pub group_name : ℕ
  pub name : ℕ
  pub price_delta : ℕ

-- The state of the loop; `selected_ids` are the ids that no option was found for yet.
pub record Choice : Type 0 where
  pub selected_ids : List ℕ
  pub unit_price : ℕ
  pub selected_options : List SelectedOption
  pub recipe : List (ℕ × ℕ)

unfoldable pub add_ingredients : List MenuIngredient → List (ℕ × ℕ) → Result (List (ℕ × ℕ))
add_ingredients [] recipe = ok recipe
add_ingredients (i ∷ is) recipe = do
  throw_if i.deleted conflict
  add_ingredients is (add_total i.inventory_item_id i.quantity recipe)

abbrev pub remove : ℕ → List ℕ → List ℕ
remove id ids = filter (λ k. not (k == id)) ids

abbrev pub selected_option : OptionGroup → MenuOption → SelectedOption
selected_option g o = record {
  id = o.id;
  group_name = g.name;
  name = o.name;
  price_delta = o.price_delta;
}

unfoldable pub add_options : OptionGroup → List MenuOption → Choice → Result Choice
unfolding add_ingredients
add_options g [] c = ok c
add_options g (o ∷ os) c = do
  recipe ← add_ingredients o.ingredients c.recipe
  add_options g os (record {
    selected_ids = remove o.id c.selected_ids;
    unit_price = c.unit_price + o.price_delta;
    selected_options = c.selected_options ++ selected_option g o ∷ [];
    recipe = recipe;
  })

abbrev pub selected_in : Choice → OptionGroup → List MenuOption
selected_in c g = filter (λ o. contains o.id c.selected_ids) g.options

unfoldable pub add_groups : List OptionGroup → Choice → Result Choice
unfolding add_options
add_groups [] c = ok c
add_groups (g ∷ gs) c = do
  let selected = selected_in c g
  guard (leb g.min_selected (length selected) && leb (length selected) g.max_selected) conflict
  c' ← add_options g selected c
  add_groups gs c'

-- 9999999999999999.99.
abbrev pub max_unit_price : ℕ
max_unit_price = 999_999_999_999_999_999

unfoldable pub resolve_menu_selection : MenuItem → List ℕ → Result Choice
unfolding unique add_ingredients add_groups
resolve_menu_selection menu_item option_ids = do
  throw_if (ltb 20 (length option_ids)) conflict
  guard (length (unique option_ids) == length option_ids) conflict
  recipe ← add_ingredients menu_item.ingredients []
  c ← add_groups menu_item.option_groups (record {
    selected_ids = unique option_ids;
    unit_price = menu_item.price;
    selected_options = [];
    recipe = recipe;
  })
  guard (length c.selected_ids == 0) conflict
  throw_if (ltb max_unit_price c.unit_price) conflict
  ok (record c { recipe = sort_totals c.recipe })
