-- ===== src/Orders/Adding.antt =====
-- orders/orders.service.ts: order lines are added to a session, at the price that the menu has now.
use coffee_shop_be.Prelude.{
  ℕ, Bool, true, false, not, ◌&&◌, Option, none, some, List, [], ◌∷◌, ◌++◌, ◌+◌, ◌==◌, filter, map,
  length, contains,
}
use coffee_shop_be.Prelude.Table.{find}
use coffee_shop_be.Prelude.Http.{
  Result, ok, ◌>>=◌, ◌>>◌, guard, throw_if, or_throw, not_found, conflict,
}
use coffee_shop_be.Inventory.Reservations.{Ingredient}
use coffee_shop_be.Orders.Unique.{unique}
use coffee_shop_be.Orders.Selection.{
  Station, MenuItem, SelectedOption, Choice, resolve_menu_selection,
}
use coffee_shop_be.Orders.Types.{Db, OrderItem, pending, session_key, menu_item_key}
use coffee_shop_be.Orders.Policy.{assert_active_session}
use coffee_shop_be.Orders.Kitchen.{create_tickets}

pub record NewItem : Type 0 where
  pub menu_item_id : ℕ
  pub quantity : ℕ
  pub option_ids : List ℕ

-- The price and the options that an online order was placed at.
pub record Quote : Type 0 where
  pub unit_price : ℕ
  pub selected_options : List SelectedOption

pub record Planned : Type 0 where
  pub id : ℕ
  pub item : NewItem
  pub choice : Choice

abbrev pub is_routable : Option Station → Bool
is_routable none = true
is_routable (some s) = s.is_active && not s.deleted

abbrev pub is_orderable : MenuItem → Bool
is_orderable m =
    not m.deleted && m.is_available && not m.category_deleted && is_routable m.kitchen_station

abbrev pub same_options : List SelectedOption → List SelectedOption → Bool
same_options [] [] = true
same_options (a ∷ more) (b ∷ bs) =
    (a.id == b.id)
    && (a.group_name == b.group_name)
    && (a.name == b.name)
    && (a.price_delta == b.price_delta)
    && same_options more bs
same_options [] (b ∷ bs) = false
same_options (a ∷ more) [] = false

abbrev pub agrees : Quote → Choice → Bool
agrees q c = (q.unit_price == c.unit_price) && same_options q.selected_options c.selected_options

abbrev pub quote_agrees : List Quote → Choice → Bool
quote_agrees [] c = true
quote_agrees (q ∷ qs) c = agrees q c

abbrev pub later_quotes : List Quote → List Quote
later_quotes [] = []
later_quotes (q ∷ qs) = qs

-- `id` is the key of the first new line.
unfoldable pub plan : List MenuItem → List Quote → ℕ → List NewItem → Result (List Planned)
plan menu_items quotes id [] = ok []
plan menu_items quotes id (item ∷ items) = do
  menu_item ← or_throw (find menu_item_key item.menu_item_id menu_items) not_found
  choice ← resolve_menu_selection menu_item item.option_ids
  guard (quote_agrees quotes choice) conflict
  rest ← plan menu_items (later_quotes quotes) (id + 1) items
  ok (record { id = id; item = item; choice = choice } ∷ rest)

abbrev pub line_of : ℕ → Planned → OrderItem
line_of session_id p = record {
  id = p.id;
  order_session_id = session_id;
  menu_item_id = p.item.menu_item_id;
  quantity = p.item.quantity;
  price_at_time = p.choice.unit_price;
  selected_options = p.choice.selected_options;
  is_snapshotted = true;
  serve_status = pending;
  is_paid = false;
  invoice_id = none;
  ready_at = none;
}

abbrev pub recipe_rows : List Planned → List Ingredient
recipe_rows [] = []
recipe_rows (p ∷ ps) =
    map {A = ℕ × ℕ} (λ r. record { owner = p.id; inventory_item_id = r.0; quantity = r.1 })
      p.choice.recipe
    ++ recipe_rows ps

-- `quotes && quotes.length !== items.length`.
abbrev pub fits : Option (List Quote) → List NewItem → Bool
fits none items = true
fits (some quotes) items = length quotes == length items

abbrev pub quotes_of : Option (List Quote) → List Quote
quotes_of none = []
quotes_of (some quotes) = quotes

abbrev pub menu_item_ids : List NewItem → List ℕ
menu_item_ids items = unique (map {A = NewItem} (λ i. i.menu_item_id) items)

unfoldable pub add_order_items :
    ℕ → Db → ℕ → List NewItem → Option (List Quote) → Option ℕ → Result Db
unfolding unique assert_active_session resolve_menu_selection plan create_tickets
add_order_items now db session_id items quotes pickup_at = do
  let ids = menu_item_ids items
  session ← or_throw (find session_key session_id db.sessions) not_found
  assert_active_session session.status
  throw_if session.is_online conflict
  let menu_items = filter (λ m. contains m.id ids && is_orderable m) db.menu_items
  guard (length menu_items == length ids) not_found
  guard (fits quotes items) conflict
  planned ← plan menu_items (quotes_of quotes) db.next_id items
  let lines = map {A = Planned} (line_of session_id) planned
  create_tickets now
      (record db {
        next_id = db.next_id + length planned;
        order_items = db.order_items ++ lines;
        recipe_ingredients = db.recipe_ingredients ++ recipe_rows planned;
      })
      session_id menu_items lines pickup_at
