-- ===== src/Orders/Seated/Close.antt =====
-- Completing a session, cancelling it and clearing its table keep the tables seated.
use coffee_shop_be.Prelude.{
  [], ◌∷◌, is_some, ℕ, Bool, true, false, not, ◌&&◌, Option, none, some, List, ◌≤◌, ◌==◌, ◌≡◌, ◌≢◌,
  ◌∙◌, refl, sym, ap, subst, inl, inr, arith, count, opt_eq, any, ◌||◌, Bool-cases, ==_iff,
}
use coffee_shop_be.Prelude.Table.{
  find, first, claim, update, update_many, find-update, find-key, claim-eq_some,
}
use coffee_shop_be.Prelude.Count.{
  count-update_many_le, count-update_many_lost, first-meets, first-count, first-none, find-count,
}
use coffee_shop_be.Prelude.Http.{
  ok, ok_injective, if-eq_ok, >>=-eq_ok, or_throw-eq_ok, guard-eq_ok, throw_if-eq_ok, bad_request,
  not_found, conflict,
}
use coffee_shop_be.Cash.Access.{assert_active_employee}
use coffee_shop_be.Inventory.Reservations.{release_reservations}
use coffee_shop_be.Orders.Types.{
  Db, Table, Session, is_occupied, is_active, is_completed, table_key, session_key,
}
use coffee_shop_be.Orders.Policy.{
  is_billed, seated_at, find_table, items_of, log, assert_active_session,
  assert_no_paid_or_invoiced_items, assert_no_processed_items,
}
use coffee_shop_be.Orders.Seating.{
  release, complete, complete_session, complete_active, is_outstanding,
}
use coffee_shop_be.Orders.Closing.{
  cancel_line, cancel_lines, cancel_session, clear_table, open_lines, call_off, session_id,
  cancel_seated, empty_tables,
}
use coffee_shop_be.Orders.Floor.{
  vacate, IsEvent, apply, tables_of, ended, closed-IsEvent, nothing-IsEvent, others_kept,
}
use coffee_shop_be.Orders.Lines.{AreKept, AreKept-refl, update_many-AreKept}
use coffee_shop_be.Orders.Lines.Serve.{cancelled-Later}
use coffee_shop_be.Orders.Seated.{Follows, taken, IsSeated, taken_le, taken-spared}

abbrev pub closing : ℕ → Session → Bool
closing id s = (s.id == id) && is_active s.status

module _ (id : ℕ) (f : Session → Session) (h : (s : Session) → is_active (f s).status ≡ false) where
  -- No table gains a session.
  pub closed_kept :
      (t : ℕ) (sessions : List Session)
      → count (seated_at t) (update_many (closing id) f sessions) ≤ count (seated_at t) sessions
  closed_kept t sessions = count-update_many_le (closing id) f (seated_at t) sessions (λ s.
      elim (Bool-cases (closing id s)) [
        | inl met ↦ rw met ground (arith, h s)
        | inr unmet ↦ rw unmet ground arith
      ])

  -- The table of a session that is closed is vacated.
  pub closed_vacated :
      (t : ℕ) (sessions : List Session)
      → 1 ≤ count (λ s. closing id s && seated_at t s) sessions
      → count (seated_at t) sessions ≤ 1
      → count (seated_at t) (update_many (closing id) f sessions) ≡ 0
  closed_vacated t sessions there full =
      let lost =
        count-update_many_lost (closing id) f (seated_at t) (λ s. closing id s && seated_at t s)
          sessions
          (λ s. elim (Bool-cases (closing id s)) [
            | inl met ↦ rw met ground (arith, h s)
            | inr unmet ↦ rw unmet ground arith
          ]) in
      omega (arith, lost, there, full)

  closing-IsEvent :
      (t : ℕ) (sessions : List Session)
      → count (closing id) sessions ≡ 1
      → 1 ≤ count (λ s. closing id s && seated_at t s) sessions
      → count (seated_at t) sessions ≤ 1
      → IsEvent (vacate (t ∷ [])) sessions (update_many (closing id) f sessions)
  closing-IsEvent t sessions one there full =
      closed-IsEvent (closing id) f (t ∷ []) sessions h
        (λ x c.
          let at : x ≡ t = ground (arith, c) in
          ap (λ y. count (seated_at y) (update_many (closing id) f sessions)) at
          ∙ closed_vacated t sessions there full)
        (λ x c.
          others_kept (closing id) (seated_at x) (seated_at t) sessions one there
            (λ s sits. ground (arith, sits, c)))

  closing_takeaway :
      (sessions : List Session)
      → count (closing id) sessions ≡ 1
      → 1 ≤ count (λ s. closing id s && not (is_some s.table_id)) sessions
      → IsEvent (vacate []) sessions (update_many (closing id) f sessions)
  closing_takeaway sessions one there =
      closed-IsEvent (closing id) f [] sessions h (λ x c. ground (arith, c))
        (λ x c.
          others_kept (closing id) (seated_at x) (λ s. not (is_some s.table_id)) sessions one there
            (λ s away. ground (arith, away)))

taken-released :
    (k t : ℕ) (tables : List Table)
    → t ≢ k
    → taken t (update table_key k release tables) ≡ taken t tables
unfolding taken
taken-released k t tables apart =
    let there = find-update table_key t k release tables (λ x. refl) in ground (arith, there, apart)

complete_active-Follows :
    (db : Db) (id : ℕ) (s : Session) (table_id employee_id : ℕ) {db' : Db}
    → find session_key id db.sessions ≡ some s
    → s.table_id ≡ some table_id
    → complete_active db id s table_id employee_id ≡ ok db'
    → IsSeated db
    → Follows db (vacate (table_id ∷ [])) db' × (is_active s.status ≡ true)
unfolding complete_active log
complete_active-Follows db id s table_id employee_id found at e seated =
    let (p1, e1) =
      throw_if-eq_ok (not (is_active s.status) || any is_outstanding (items_of id db.order_items))
        conflict _ e in
    let (tables, p2, e2) =
      or_throw-eq_ok (claim table_key table_id (λ r. is_occupied r.status) release db.tables)
        conflict _ e1 in
    let (p3, e3) = guard-eq_ok (count (closing id) db.sessions == 1) conflict _ e2 in
    let (r, p4, p5, written) =
      claim-eq_some table_key table_id (λ r. is_occupied r.status) release db.tables p2 in
    let here : is_active s.status ≡ true = ground arith in
    let there =
      find-count session_key id (λ x. closing id x && seated_at table_id x) db.sessions found
        (ground (arith, here, at, find-key session_key id db.sessions found)) in
    (
      subst (Follows db (vacate (table_id ∷ []))) (ok_injective e3) (
        (λ t. elim (Bool-cases (t == table_id)) [
          | inl same ↦
              let full = taken_le table_id db.tables in
              let vacated =
                closed_vacated id complete (λ x. refl) table_id db.sessions there
                  (omega (arith, seated table_id, full)) in
              subst
                (λ x.
                  count (seated_at x) (update_many (closing id) complete db.sessions)
                  ≤ taken x tables)
                (sym ((==_iff t table_id).0 same)) (omega (arith, vacated))
          | inr other ↦
              let kept = closed_kept id complete (λ x. refl) t db.sessions in
              let spare =
                ap (taken t) written
                ∙ taken-released table_id t db.tables (ground (arith, other)) in
              omega (arith, kept, spare, seated t)
        ]),
        AreKept-refl db.order_items,
        closing-IsEvent id complete (λ x. refl) table_id db.sessions
            ((==_iff (count (closing id) db.sessions) 1).0 p3) there
            (omega (arith, seated table_id, taken_le table_id db.tables)),
      ),
      here,
    )

pub complete_session-Follows :
    (db : Db) (id employee_id : ℕ) {db' : Db}
    → complete_session db id employee_id ≡ ok db'
    → IsSeated db
    → Follows db (ended db id) db'
unfolding complete_session
complete_session-Follows db id employee_id {db'} e seated =
    let (u, p, e1) = >>=-eq_ok (assert_active_employee db.cash employee_id) _ e in
    let (s, found, e2) = or_throw-eq_ok (find session_key id db.sessions) not_found _ e1 in
    let (table_id, at, e3) = or_throw-eq_ok s.table_id conflict _ e2 in
    elim (if-eq_ok (is_completed s.status) (ok db) (complete_active db id s table_id employee_id)
      e3) [
        | inl (p1, e4) ↦
            let event : ended db id ≡ vacate [] = ground (arith, found, p1) in
            subst (Follows db (ended db id)) (ok_injective e4) (
              subst (λ v. Follows db v db) (sym event)
                (seated, AreKept-refl db.order_items, nothing-IsEvent db.sessions refl))
        | inr (p1, e4) ↦
            let (follows, here) =
              complete_active-Follows db id s table_id employee_id found at e4 seated in
            let event : ended db id ≡ vacate (table_id ∷ []) = ground (arith, found, here, at) in
            subst (λ v. Follows db v db') (sym event) follows
      ]

cancel_lines-vacates :
    (db : Db) (id : ℕ) {db' : Db}
    → cancel_lines db id ≡ ok db'
    → (db'.tables ≡ db.tables)
      × (db'.sessions ≡ update_many (closing id) call_off db.sessions)
      × AreKept db.order_items db'.order_items
      × (count (closing id) db.sessions ≡ 1)
unfolding cancel_lines
cancel_lines-vacates db id e =
    let items = items_of id db.order_items in
    let (u1, p1, e1) = >>=-eq_ok (assert_no_paid_or_invoiced_items items) _ e in
    let (u2, p2, e2) = >>=-eq_ok (assert_no_processed_items items) _ e1 in
    let (p3, e3) = guard-eq_ok (count (closing id) db.sessions == 1) conflict _ e2 in
    let (inventory, p4, e4) =
      >>=-eq_ok (release_reservations db.inventory (open_lines items)) _ e3 in
    let written = ok_injective e4 in
    (
      ap (λ d. d.tables) (sym written),
      ap (λ d. d.sessions) (sym written),
      subst (λ d. AreKept db.order_items d.order_items) written
          (update_many-AreKept (λ i. (i.order_session_id == id) && not (is_billed i)) cancel_line
            db.order_items (λ r. refl) (λ r met. cancelled-Later r (ground (arith, met)))),
      (==_iff (count (closing id) db.sessions) 1).0 p3,
    )

-- After a session is closed and its table emptied, every table is seated.
emptied :
    (id table_id : ℕ) (db : Db)
    → 1 ≤ count (λ s. closing id s && seated_at table_id s) db.sessions
    → IsSeated db
    → (t : ℕ)
    → count (seated_at t) (update_many (closing id) call_off db.sessions)
      ≤ taken t (update_many (λ r. r.id == table_id) release db.tables)
emptied id table_id db there seated t = elim (Bool-cases (t == table_id)) [
  | inl same ↦
      let full = taken_le table_id db.tables in
      let vacated =
        closed_vacated id call_off (λ x. refl) table_id db.sessions there
          (omega (arith, seated table_id, full)) in
      subst
        (λ x.
          count (seated_at x) (update_many (closing id) call_off db.sessions)
          ≤ taken x (update_many (λ r. r.id == table_id) release db.tables))
        (sym ((==_iff t table_id).0 same)) (omega (arith, vacated))
  | inr other ↦
      let kept = closed_kept id call_off (λ x. refl) t db.sessions in
      let spare =
        taken-spared t (λ r. r.id == table_id) db.tables (λ r e. ground (arith, e, other)) in
      omega (arith, kept, spare, seated t)
]

cancelled_from :
    (db : Db) (id : ℕ) (s : Session) (table_id : Option ℕ)
    → s.table_id ≡ table_id
    → find session_key id db.sessions ≡ some s
    → is_active s.status ≡ true
    → IsSeated db
    → (t : ℕ)
    → count (seated_at t) (update_many (closing id) call_off db.sessions)
      ≤ taken t (empty_tables table_id db.tables)
cancelled_from db id s none at found here seated t =
    omega (arith, closed_kept id call_off (λ x. refl) t db.sessions, seated t)
cancelled_from db id s (some k) at found here seated t =
    emptied id k db
      (find-count session_key id (λ x. closing id x && seated_at k x) db.sessions found
        (ground (arith, here, at, find-key session_key id db.sessions found)))
      seated t

reseated :
    (d : Db) (table_id : Option ℕ) {tables : List Table} {sessions : List Session}
    → d.tables ≡ tables
    → d.sessions ≡ sessions
    → ((t : ℕ) → count (seated_at t) sessions ≤ taken t (empty_tables table_id tables))
    → (t : ℕ) → count (seated_at t) d.sessions ≤ taken t (empty_tables table_id d.tables)
reseated d table_id same_tables same_sessions h t =
    let a = ap (λ x. taken t (empty_tables table_id x)) same_tables in
    let b = ap (count (seated_at t)) same_sessions in omega (arith, h t, a, b)

cancelled-IsEvent :
    (db : Db) (id : ℕ) (s : Session) (table_id : Option ℕ)
    → s.table_id ≡ table_id
    → find session_key id db.sessions ≡ some s
    → is_active s.status ≡ true
    → IsSeated db
    → count (closing id) db.sessions ≡ 1
    → IsEvent
        (vacate (tables_of table_id))
        db.sessions
        (update_many (closing id) call_off db.sessions)
cancelled-IsEvent db id s none at found here seated one =
    closing_takeaway id call_off (λ x. refl) db.sessions one
      (find-count session_key id (λ x. closing id x && not (is_some x.table_id)) db.sessions found
        (ground (arith, here, at, find-key session_key id db.sessions found)))
cancelled-IsEvent db id s (some k) at found here seated one =
    closing-IsEvent id call_off (λ x. refl) k db.sessions one
      (find-count session_key id (λ x. closing id x && seated_at k x) db.sessions found
        (ground (arith, here, at, find-key session_key id db.sessions found)))
      (omega (arith, seated k, taken_le k db.tables))

pub cancel_session-Follows :
    (db : Db) (id employee_id : ℕ) {db' : Db}
    → cancel_session db id employee_id ≡ ok db'
    → IsSeated db
    → Follows db (ended db id) db'
unfolding cancel_session log assert_active_session
cancel_session-Follows db id employee_id e seated =
    let (u, p, e1) = >>=-eq_ok (assert_active_employee db.cash employee_id) _ e in
    let (s, found, e2) = or_throw-eq_ok (find session_key id db.sessions) not_found _ e1 in
    let (here, e3) = guard-eq_ok (is_active s.status) bad_request _ e2 in
    let (p3, e4) = throw_if-eq_ok s.is_online conflict _ e3 in
    let (d, p4, e5) = >>=-eq_ok (cancel_lines db id) _ e4 in
    let (same, sessions, kept, one) = cancel_lines-vacates db id p4 in
    let event : ended db id ≡ vacate (tables_of s.table_id) = ground (arith, found, here) in
    subst (Follows db (ended db id)) (ok_injective e5) (
      reseated d s.table_id same sessions
          (cancelled_from db id s s.table_id refl found here seated),
      kept,
      subst (λ v. IsEvent v db.sessions d.sessions) (sym event)
          (subst (IsEvent (vacate (tables_of s.table_id)) db.sessions) (sym sessions)
            (cancelled-IsEvent db id s s.table_id refl found here seated one)),
    )

cleared :
    (db : Db) (table_id : ℕ) (o : Option Session) {db' : Db}
    → first (seated_at table_id) db.sessions ≡ o
    → cancel_seated db o ≡ ok db'
    → IsSeated db
    → (t : ℕ) → count (seated_at t) db'.sessions ≤ taken t (empty_tables (some table_id) db'.tables)
cleared db table_id none found e seated t =
    subst (λ d. count (seated_at t) d.sessions ≤ taken t (empty_tables (some table_id) d.tables))
      (ok_injective e)
      (elim (Bool-cases (t == table_id)) [
        | inl same ↦
            let vacant =
              ap (λ x. count (seated_at x) db.sessions) ((==_iff t table_id).0 same)
              ∙ first-none (seated_at table_id) db.sessions found in
            omega (arith, vacant)
        | inr other ↦
            let spare =
              taken-spared t (λ r. r.id == table_id) db.tables (λ r e. ground (arith, e, other)) in
            omega (arith, spare, seated t)
      ])
cleared db table_id (some s) {db'} found e seated t =
    let (same, sessions, kept, one) = cancel_lines-vacates db s.id e in
    let met = first-meets (seated_at table_id) db.sessions found in
    let there =
      first-count (seated_at table_id) (λ x. closing s.id x && seated_at table_id x) db.sessions
        found (ground (arith, met)) in
    reseated db' (some table_id) same sessions (emptied s.id table_id db there seated) t

cleared_lines :
    (db : Db) (o : Option Session) {db' : Db}
    → cancel_seated db o ≡ ok db'
    → AreKept db.order_items db'.order_items
cleared_lines db none e =
    subst (λ d. AreKept db.order_items d.order_items) (ok_injective e) (AreKept-refl db.order_items)
cleared_lines db (some s) e = (cancel_lines-vacates db s.id e).2

cleared-IsEvent :
    (db : Db) (table_id : ℕ) (o : Option Session) {db' : Db}
    → first (seated_at table_id) db.sessions ≡ o
    → cancel_seated db o ≡ ok db'
    → IsSeated db
    → IsEvent (vacate (table_id ∷ [])) db.sessions db'.sessions
unfolding apply
cleared-IsEvent db table_id none found e seated =
    subst (λ d. IsEvent (vacate (table_id ∷ [])) db.sessions d.sessions) (ok_injective e)
      (λ x. elim (Bool-cases (x == table_id)) [
        | inl same ↦
            ap (λ y. session_id (first (seated_at y) db.sessions)) ((==_iff x table_id).0 same)
            ∙ ap session_id found
            ∙ ground (arith, same)
        | inr other ↦ ground (arith, other)
      ])
cleared-IsEvent db table_id (some s) e1 e seated =
    let (same, sessions, kept, one) = cancel_lines-vacates db s.id e in
    let met = first-meets (seated_at table_id) db.sessions e1 in
    let there =
      first-count (seated_at table_id) (λ x. closing s.id x && seated_at table_id x) db.sessions e1
        (ground (arith, met)) in
    subst (IsEvent (vacate (table_id ∷ [])) db.sessions) (sym sessions) (
      closing-IsEvent s.id call_off (λ x. refl) table_id db.sessions one there
        (omega (arith, seated table_id, taken_le table_id db.tables)))

pub clear_table-Follows :
    (db : Db) (table_id : ℕ) (expected : Option ℕ) (employee_id : ℕ) {db' : Db}
    → clear_table db table_id expected employee_id ≡ ok db'
    → IsSeated db
    → Follows db (vacate (table_id ∷ [])) db'
unfolding clear_table log
clear_table-Follows db table_id expected employee_id e seated =
    let (u, p, e1) = >>=-eq_ok (assert_active_employee db.cash employee_id) _ e in
    let (table, p1, e2) = or_throw-eq_ok (find_table db table_id) not_found _ e1 in
    let seat = first (seated_at table_id) db.sessions in
    let (p3, e3) = guard-eq_ok (opt_eq (session_id seat) expected) conflict _ e2 in
    let (d, p4, e4) = >>=-eq_ok (cancel_seated db seat) _ e3 in
    subst (Follows db (vacate (table_id ∷ []))) (ok_injective e4) (
      cleared db table_id seat refl p4 seated,
      cleared_lines db seat p4,
      cleared-IsEvent db table_id seat refl p4 seated,
    )
