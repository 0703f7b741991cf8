-- ===== src/Orders/History.antt =====
-- The operations on orders in any sequence. A request that is refused is rolled back, and changes
-- nothing.
use coffee_shop_be.Prelude.{ℕ, Bool, Option, List, [], ◌∷◌, ◌≡◌, sym, ap, subst, arith, count}
use coffee_shop_be.Prelude.Http.{Result, ok, err, ◌>>=◌, ok_injective, >>=-eq_ok}
use coffee_shop_be.Prelude.{◌++◌, ◌∙◌, refl}
use coffee_shop_be.Orders.Unique.{unique}
use coffee_shop_be.Orders.Floor.{
  Event, seat, relocate, vacate, opened, ended, floor, replay, replay-same, replay-append,
  nothing-IsEvent,
}
use coffee_shop_be.Orders.Types.{Db, ServeStatus}
use coffee_shop_be.Orders.Policy.{seated_at}
use coffee_shop_be.Orders.Seating.{
  create_order_session, transfer_table, merge_tables, complete_session,
}
use coffee_shop_be.Orders.Closing.{cancel_session, clear_table}
use coffee_shop_be.Orders.Split.{SplitItem, split_table}
use coffee_shop_be.Orders.Adding.{NewItem, Quote, add_order_items}
use coffee_shop_be.Orders.Serving.{change_item_status, cancel_item, RemakeKey, remake_item}
use coffee_shop_be.Orders.Lines.{AreKept, IsLineChange, AreKept-refl, AreKept-trans}
use coffee_shop_be.Orders.Lines.Serve.{change_item_status-AreKept, cancel_item-AreKept}
use coffee_shop_be.Orders.Lines.Write.{add_order_items-IsLineChange, remake_item-IsLineChange}
use coffee_shop_be.Orders.Seated.{IsSeated, Follows, taken}
use coffee_shop_be.Orders.Seated.Open.{create_order_session-Follows, transfer_table-Follows}
use coffee_shop_be.Orders.Seated.Close.{
  complete_session-Follows, cancel_session-Follows, clear_table-Follows,
}
use coffee_shop_be.Orders.Seated.Merge.{merge_tables-Follows}
use coffee_shop_be.Orders.Seated.Moves.{split_table_lem}

pub data Command : Type 0 where
  open_session : Option ℕ → ℕ → Option ℕ → Command
  add : ℕ → List NewItem → Option (List Quote) → Option ℕ → Command
  change : ℕ → ℕ → ServeStatus → Bool → Option (ℕ × ℕ) → Command
  cancel_line : ℕ → ℕ → Option ℕ → Command
  remake : ℕ → ℕ → ℕ → RemakeKey → Command
  transfer : ℕ → ℕ → ℕ → ℕ → Command
  merge : List ℕ → ℕ → List ℕ → ℕ → ℕ → Command
  split : ℕ → ℕ → List SplitItem → ℕ → Command
  complete : ℕ → ℕ → Command
  cancel : ℕ → ℕ → Command
  clear : ℕ → Option ℕ → ℕ → Command

module _ (sign : ℕ → Option ℕ → ℕ) where
  unfoldable pub step : ℕ → Command → Db → Result Db
  step now (open_session table_id employee_id guest_count) db =
      create_order_session db table_id employee_id guest_count >>= λ r. ok r.0
  step now (add id items quotes pickup_at) db = add_order_items now db id items quotes pickup_at
  step now (change id employee_id status handoff_only pickup) db =
      change_item_status sign now db id employee_id status handoff_only pickup
  step now (cancel_line id employee_id reason) db = cancel_item db id employee_id reason
  step now (remake id employee_id reason request) db =
      remake_item now db id employee_id reason request
  step now (transfer id from to employee_id) db = transfer_table db id from to employee_id
  step now (merge tables table_id ids id employee_id) db =
      merge_tables db tables table_id ids id employee_id
  step now (split id table_id items employee_id) db = split_table db id table_id items employee_id
  step now (complete id employee_id) db = complete_session db id employee_id
  step now (cancel id employee_id) db = cancel_session db id employee_id
  step now (clear table_id expected employee_id) db = clear_table db table_id expected employee_id

  abbrev pub settle : Db → Result Db → Db
  settle db (err e) = db
  settle db (ok db') = db'

  -- Each command has the time of its request.
  unfoldable pub history : List (ℕ × Command) → Db → Db
  unfolding step
  history [] db = db
  history (c ∷ cs) db = history cs (settle db (step c.0 c.1 db))

  -- What a request that succeeds does on the floor.
  unfoldable pub event : Command → Db → Event
  event (open_session table_id employee_id guest_count) db = opened table_id db.next_id
  event (transfer id from to employee_id) db = relocate id from to
  event (merge tables table_id ids id employee_id) db = vacate (unique tables)
  event (split id table_id items employee_id) db = seat table_id db.next_id
  event (complete id employee_id) db = ended db id
  event (cancel id employee_id) db = ended db id
  event (clear table_id expected employee_id) db = vacate (table_id ∷ [])
  event (add id items quotes pickup_at) db = vacate []
  event (change id employee_id status handoff_only pickup) db = vacate []
  event (cancel_line id employee_id reason) db = vacate []
  event (remake id employee_id reason request) db = vacate []

  -- A request that is refused does nothing there.
  abbrev pub happened : Command → Db → Result Db → List Event
  happened c db (err thrown) = []
  happened c db (ok db') = event c db ∷ []

  unfoldable pub events : List (ℕ × Command) → Db → List Event
  unfolding step event
  events [] db = []
  events (c ∷ cs) db = happened c.1 db (step c.0 c.1 db) ++ events cs (settle db (step c.0 c.1 db))

  line_change-Follows :
      (db db' : Db) → IsLineChange db db' → IsSeated db → Follows db (vacate []) db'
  line_change-Follows db db' h seated = (
    (λ t.
        let a = ap (taken t) h.1 in
        let b = ap (count (seated_at t)) h.2 in omega (arith, seated t, a, b)),
    h.0,
    nothing-IsEvent db.sessions h.2,
  )

  step-Follows :
      (now : ℕ) (c : Command) (db : Db) {db' : Db}
      → step now c db ≡ ok db'
      → IsSeated db
      → Follows db (event c db) db'
  unfolding step event
  step-Follows now (open_session table_id employee_id guest_count) db e seated =
      let (r, p, e1) = >>=-eq_ok (create_order_session db table_id employee_id guest_count) _ e in
      subst (Follows db (opened table_id db.next_id)) (ok_injective e1)
        (create_order_session-Follows db table_id employee_id guest_count p seated)
  step-Follows now (add id items quotes pickup_at) db {db'} e seated =
      line_change-Follows db db' (add_order_items-IsLineChange now db id items quotes pickup_at e)
        seated
  step-Follows now (change id employee_id status handoff_only pickup) db {db'} e seated =
      line_change-Follows db db'
        (change_item_status-AreKept sign now db id employee_id status handoff_only pickup e) seated
  step-Follows now (cancel_line id employee_id reason) db {db'} e seated =
      line_change-Follows db db' (cancel_item-AreKept db id employee_id reason e) seated
  step-Follows now (remake id employee_id reason request) db {db'} e seated =
      line_change-Follows db db' (remake_item-IsLineChange now db id employee_id reason request e)
        seated
  step-Follows now (transfer id from to employee_id) db e seated =
      transfer_table-Follows db id from to employee_id e seated
  step-Follows now (merge tables table_id ids id employee_id) db e seated =
      merge_tables-Follows db tables table_id ids id employee_id e seated
  step-Follows now (split id table_id items employee_id) db e seated =
      (split_table_lem db id table_id items employee_id e).0 seated
  step-Follows now (complete id employee_id) db e seated =
      complete_session-Follows db id employee_id e seated
  step-Follows now (cancel id employee_id) db e seated =
      cancel_session-Follows db id employee_id e seated
  step-Follows now (clear table_id expected employee_id) db e seated =
      clear_table-Follows db table_id expected employee_id e seated

  refused_or_done :
      (now : ℕ) (c : Command) (db : Db) (r : Result Db)
      → step now c db ≡ r
      → IsSeated db
      → IsSeated (settle db r)
        × AreKept db.order_items (settle db r).order_items
        × ((x : ℕ) → floor (settle db r) x ≡ replay (happened c db r) (floor db) x)
  unfolding floor replay
  refused_or_done now c db (err thrown) e seated = (seated, AreKept-refl db.order_items, λ x. refl)
  refused_or_done now c db (ok db') e seated = step-Follows now c db e seated

  history-all :
      (cs : List (ℕ × Command)) (db : Db)
      → IsSeated db
      → IsSeated (history cs db)
        × AreKept db.order_items (history cs db).order_items
        × ((x : ℕ) → floor (history cs db) x ≡ replay (events cs db) (floor db) x)
  unfolding history events replay
  history-all [] db seated = (seated, AreKept-refl db.order_items, λ x. refl)
  history-all (c ∷ cs) db seated =
      let r = step c.0 c.1 db in
      let next = settle db r in
      let (seated', kept, shown) = refused_or_done c.0 c.1 db r refl seated in
      let (last, kept', shown') = history-all cs next seated' in
      (
        last,
        AreKept-trans db.order_items next.order_items (history cs next).order_items kept kept',
        λ x.
            shown' x
            ∙ replay-same (events cs next) (floor next) (replay (happened c.1 db r) (floor db))
                shown x
            ∙ sym (replay-append (happened c.1 db r) (events cs next) (floor db) x),
      )

  -- After every sequence of requests on orders, whether they succeed or are refused, at most one active
  -- session sits at a table, and none at a table that is not occupied, if this held before.
  pub history-IsSeated :
      (cs : List (ℕ × Command)) (db : Db) → IsSeated db → IsSeated (history cs db)
  history-IsSeated cs db seated = (history-all cs db seated).0

  -- After every sequence of requests on orders, from a state with seated tables, every order line is
  -- still there: its serve status went along the allowed changes only, its menu item, price, options
  -- and bill are the same, and its quantity is not larger; a line on an invoice is not cancelled
  -- meanwhile and keeps its session and quantity.
  pub history-AreKept :
      (cs : List (ℕ × Command)) (db : Db)
      → IsSeated db
      → AreKept db.order_items (history cs db).order_items
  history-AreKept cs db seated = (history-all cs db seated).1

  -- The sessions at the tables refine the plan of the floor: after every sequence of requests on
  -- orders, from a state with seated tables, the active session at each table is the one that the
  -- plan has after the events of the requests that succeeded, one event for each.
  pub history-replay :
      (cs : List (ℕ × Command)) (db : Db)
      → IsSeated db
      → (x : ℕ) → floor (history cs db) x ≡ replay (events cs db) (floor db) x
  history-replay cs db seated = (history-all cs db seated).2
