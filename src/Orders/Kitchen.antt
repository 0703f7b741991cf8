-- ===== src/Orders/Kitchen.antt =====
-- kitchen/kitchen-routing.service.ts: the order lines that have a kitchen station are put on a ticket
-- of their station. Times are in milliseconds. The print job of a ticket is left out.
pub mod Routed
use coffee_shop_be.Prelude.{
  ℕ, Bool, true, false, Option, none, some, List, [], ◌∷◌, ◌++◌, ◌+◌, ◌-◌, ◌*◌, ◌==◌, leb, map,
  length, if◌then◌else◌,
}
use coffee_shop_be.Prelude.Table.{find}
use coffee_shop_be.Prelude.Http.{
  Result, ok, err, ◌>>=◌, ◌>>◌, throw_if, or_throw, not_found, conflict,
}
use coffee_shop_be.Orders.Selection.{Station, MenuItem}
use coffee_shop_be.Orders.Types.{Db, OrderItem, Ticket, TicketItem, session_key, menu_item_key}

pub record Group : Type 0 where
  pub station : Station
  pub items : List OrderItem

-- `groups.get(station.id) ?? { station, items: [] }`, and the `set` after it.
abbrev pub add_to_group : Station → OrderItem → List Group → List Group
add_to_group s item [] = record { station = s; items = item ∷ [] } ∷ []
add_to_group s item (g ∷ gs) =
    let rest = add_to_group s item gs in
    if g.station.id == s.id then record g { items = g.items ++ item ∷ [] } ∷ gs else g ∷ rest

abbrev pub station_of : List MenuItem → OrderItem → Option Station
station_of menu_items item = elim (find menu_item_key item.menu_item_id menu_items) [
  | none ↦ none
  | some m ↦ m.kitchen_station
]

unfoldable pub group_items :
    Option ℕ → List MenuItem → List OrderItem → List Group → Result (List Group)
group_items pickup_at menu_items [] groups = ok groups
group_items pickup_at menu_items (item ∷ items) groups = elim (station_of menu_items item) [
  | none ↦ elim pickup_at [
    | none ↦ group_items pickup_at menu_items items groups
    | some at ↦ err conflict
  ]
  | some s ↦ group_items pickup_at menu_items items (add_to_group s item groups)
]

abbrev pub has_elapsed : ℕ → Option ℕ → Bool
has_elapsed now none = false
has_elapsed now (some at) = leb at now

abbrev pub due_at : ℕ → Option ℕ → Station → ℕ
due_at now none s = now + s.prep_sla_seconds * 1_000
due_at now (some at) s = at

-- The larger of now and the time to start; the difference of times stops at 0 there.
abbrev pub available_at : ℕ → Option ℕ → Station → ℕ
available_at now pickup_at s =
    let start = due_at now pickup_at s - s.prep_sla_seconds * 1_000 in
    if leb now start then start else now

abbrev pub ticket_of : ℕ → Option ℕ → ℕ → ℕ → Station → Ticket
ticket_of now pickup_at id session_id s = record {
  id = id;
  station_id = s.id;
  order_session_id = session_id;
  due_at = due_at now pickup_at s;
  available_at = some (available_at now pickup_at s);
  created_at = now;
}

abbrev pub ticket_rows : ℕ → List OrderItem → List TicketItem
ticket_rows ticket_id items =
    map {A = OrderItem}
      (λ i. record {
        order_item_id = i.id;
        ticket_id = ticket_id;
        quantity = i.quantity;
        selected_options = i.selected_options;
      })
      items

abbrev pub write_ticket : ℕ → Option ℕ → ℕ → Group → Db → Db
write_ticket now pickup_at session_id g db = record db {
  next_id = db.next_id + 1;
  tickets = db.tickets ++ ticket_of now pickup_at db.next_id session_id g.station ∷ [];
  ticket_items = db.ticket_items ++ ticket_rows db.next_id g.items;
}

unfoldable pub write_tickets : ℕ → Option ℕ → ℕ → List Group → Db → Db
write_tickets now pickup_at session_id [] db = db
write_tickets now pickup_at session_id (g ∷ gs) db =
    write_tickets now pickup_at session_id gs (write_ticket now pickup_at session_id g db)

unfoldable pub create_tickets : ℕ → Db → ℕ → List MenuItem → List OrderItem → Option ℕ → Result Db
unfolding group_items write_tickets
create_tickets now db session_id menu_items order_items pickup_at = do
  throw_if (has_elapsed now pickup_at) conflict
  groups ← group_items pickup_at menu_items order_items []
  if length groups == 0 then ok db else do
    session ← or_throw (find session_key session_id db.sessions) not_found
    ok (write_tickets now pickup_at session_id groups db)
