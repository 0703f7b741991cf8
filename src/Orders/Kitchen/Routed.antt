-- ===== src/Orders/Kitchen/Routed.antt =====
-- Which order lines the tickets of the kitchen hold.
use coffee_shop_be.Prelude.{
  ℕ, true, Option, none, some, List, [], ◌∷◌, ◌++◌, ◌+◌, ◌==◌, ◌≡◌, refl, ap, arith, inl, inr,
  length, Bool-cases,
}
use coffee_shop_be.Prelude.Table.{find}
use coffee_shop_be.Prelude.Http.{
  Result, ok, err, ok_injective, if-eq_ok, >>=-eq_ok, or_throw-eq_ok, throw_if-eq_ok, not_found,
  conflict,
}
use coffee_shop_be.Orders.Selection.{Station, MenuItem}
use coffee_shop_be.Orders.Types.{Db, OrderItem, TicketItem, session_key}
use coffee_shop_be.Orders.Kitchen.{
  Group, add_to_group, station_of, group_items, has_elapsed, ticket_rows, write_ticket,
  write_tickets, create_tickets,
}

module _ (w : ℕ → ℕ → ℕ) where
  -- The rows of the tickets, weighed by their line and quantity.
  abbrev pub sent : List TicketItem → ℕ
  sent [] = 0
  sent (r ∷ rows) = w r.order_item_id r.quantity + sent rows

  abbrev lines_total : List OrderItem → ℕ
  lines_total [] = 0
  lines_total (i ∷ is) = w i.id i.quantity + lines_total is

  -- The lines whose menu item has a station.
  abbrev pub routed : List MenuItem → List OrderItem → ℕ
  routed ms [] = 0
  routed ms (i ∷ is) = elim (station_of ms i) [
    | none ↦ routed ms is
    | some s ↦ w i.id i.quantity + routed ms is
  ]

  abbrev groups_total : List Group → ℕ
  groups_total [] = 0
  groups_total (g ∷ gs) = lines_total g.items + groups_total gs

  lines_total-append :
      (xs ys : List OrderItem) → lines_total (xs ++ ys) ≡ lines_total xs + lines_total ys
  lines_total-append [] ys = omega arith
  lines_total-append (x ∷ xs) ys = omega (arith, lines_total-append xs ys)

  sent-append : (xs ys : List TicketItem) → sent (xs ++ ys) ≡ sent xs + sent ys
  sent-append [] ys = omega arith
  sent-append (x ∷ xs) ys = omega (arith, sent-append xs ys)

  sent-rows : (id : ℕ) (is : List OrderItem) → sent (ticket_rows id is) ≡ lines_total is
  sent-rows id [] = refl
  sent-rows id (i ∷ is) = omega (arith, sent-rows id is)

  groups_total-add :
      (s : Station) (i : OrderItem) (gs : List Group)
      → groups_total (add_to_group s i gs) ≡ groups_total gs + w i.id i.quantity
  groups_total-add s i [] = omega arith
  groups_total-add s i (g ∷ gs) =
      let ih = groups_total-add s i gs in
      let here = lines_total-append g.items (i ∷ []) in
      elim (Bool-cases (g.station.id == s.id)) [
        | inl same ↦ rw same omega (arith, here)
        | inr other ↦ rw other omega (arith, ih)
      ]

  grouped :
      (o : Option Station) (at : Option ℕ) (i : OrderItem) (gs : List Group) (rest : ℕ)
      (group : List Group → Result (List Group)) {gs' : List Group}
      → ((gs : List Group) → group gs ≡ ok gs' → groups_total gs' ≡ groups_total gs + rest)
      → (elim o [
        | none ↦ elim at [ none ↦ group gs | some t ↦ err conflict ]
        | some s ↦ group (add_to_group s i gs)
      ])
        ≡ ok gs'
      → groups_total gs'
        ≡ groups_total gs + (elim o [ none ↦ rest | some s ↦ w i.id i.quantity + rest ])
  grouped none none i gs rest group h e = h gs e
  grouped none (some t) i gs rest group h e = cc
  grouped (some s) at i gs rest group h e =
      let total = h (add_to_group s i gs) e in omega (arith, total, groups_total-add s i gs)

  group_items-total :
      (pickup_at : Option ℕ) (ms : List MenuItem) (is : List OrderItem) (gs : List Group)
      {gs' : List Group}
      → group_items pickup_at ms is gs ≡ ok gs'
      → groups_total gs' ≡ groups_total gs + routed ms is
  unfolding group_items
  group_items-total pickup_at ms [] gs e =
      let a = ap groups_total (ok_injective e) in omega (arith, a)
  group_items-total pickup_at ms (i ∷ is) gs e =
      grouped (station_of ms i) pickup_at i gs (routed ms is) (group_items pickup_at ms is)
        (λ gs e. group_items-total pickup_at ms is gs e) e

  write_tickets-total :
      (now : ℕ) (pickup_at : Option ℕ) (session_id : ℕ) (gs : List Group) (db : Db)
      → sent (write_tickets now pickup_at session_id gs db).ticket_items
        ≡ sent db.ticket_items + groups_total gs
  unfolding write_tickets
  write_tickets-total now pickup_at session_id [] db = omega arith
  write_tickets-total now pickup_at session_id (g ∷ gs) db =
      let rest =
        write_tickets-total now pickup_at session_id gs
          (write_ticket now pickup_at session_id g db) in
      let here = sent-append db.ticket_items (ticket_rows db.next_id g.items) in
      omega (arith, rest, here, sent-rows db.next_id g.items)

-- Whatever weight is given to a line and its quantity, the tickets that are created for order lines
-- hold exactly the lines whose menu item has a kitchen station, each once with its whole quantity.
pub create_tickets-sent :
    (w : ℕ → ℕ → ℕ) (now : ℕ) (db : Db) (session_id : ℕ) (ms : List MenuItem) (is : List OrderItem)
    (pickup_at : Option ℕ) {db' : Db}
    → create_tickets now db session_id ms is pickup_at ≡ ok db'
    → sent w db'.ticket_items ≡ sent w db.ticket_items + routed w ms is
unfolding create_tickets
create_tickets-sent w now db session_id ms is pickup_at e =
    let (p, e1) = throw_if-eq_ok (has_elapsed now pickup_at) conflict _ e in
    let (groups, p1, e2) = >>=-eq_ok (group_items pickup_at ms is []) _ e1 in
    let all = group_items-total w pickup_at ms is [] p1 in
    elim (if-eq_ok (length groups == 0) (ok db) _ e2) [
      | inl (none_there, e3) ↦
          let same = ap (λ (d : Db). sent w d.ticket_items) (ok_injective e3) in
          let nothing : groups_total w groups ≡ 0 = no_groups w groups none_there in
          omega (arith, same, nothing, all)
      | inr (some_there, e3) ↦
          let (session, p2, e4) =
            or_throw-eq_ok (find session_key session_id db.sessions) not_found _ e3 in
          let same = ap (λ (d : Db). sent w d.ticket_items) (ok_injective e4) in
          let written = write_tickets-total w now pickup_at session_id groups db in
          omega (arith, same, written, all)
    ]
  where
    no_groups : (w : ℕ → ℕ → ℕ) (gs : List Group) → (length gs == 0) ≡ true → groups_total w gs ≡ 0
    no_groups w [] h = refl
    no_groups w (g ∷ gs) h = ground arith
