-- ===== src/Orders/Seated/Open.antt =====
-- Opening a session, moving it to another table and completing it keep the tables seated.
use coffee_shop_be.Prelude.{
  true, false, ◌++◌, ℕ, Bool, false, not, ◌&&◌, Option, none, some, List, [], ◌∷◌, ◌+◌, ◌≤◌, ◌==◌,
  ◌≡◌, ◌≢◌, ◌∙◌, refl, sym, ap, subst, inl, inr, arith, count, is_some, if◌then◌else◌, Bool-cases,
  ==_iff,
}
use coffee_shop_be.Prelude.Table.{first, claim, update_many}
use coffee_shop_be.Prelude.Count.{
  first-none, first-meets, weight, count-weight, count_le, count-update_many_le,
  count-update_many_lost, count-update_many_gained, count-append,
}
use coffee_shop_be.Prelude.Http.{
  ok, ok_injective, >>=-eq_ok, or_throw-eq_ok, or_throw-some, guard-eq_ok, throw_if-eq_ok,
  bad_request, not_found, conflict,
}
use coffee_shop_be.Cash.Access.{assert_active_employee, find_open_shift_id}
use coffee_shop_be.Orders.Types.{is_active, Db, Table, Session, is_empty, is_occupied, table_key}
use coffee_shop_be.Orders.Policy.{seated_at, find_table, log}
use coffee_shop_be.Orders.Seating.{
  occupy, release, move_to, new_session, claim_table, create_order_session, transfer_table,
}
use coffee_shop_be.Orders.Floor.{
  relocate, IsEvent, apply, opened, seated-IsEvent, takeaway-IsEvent, count-none, first-update_many,
  count-update_many_all, session_id-update_many,
}
use coffee_shop_be.Orders.Closing.{session_id}
use coffee_shop_be.Orders.Lines.{AreKept-refl}
use coffee_shop_be.Orders.Seated.{Follows, taken, IsSeated, taken_le, taken-occupy, taken-spared}

pub claimed_room :
    (id : ℕ) (t : ℕ) (s : Session) (n taken_id taken_t taken_t' : ℕ)
    → s.table_id ≡ some id
    → n ≤ taken_t
    → ((t ≡ id) → taken_t ≡ taken_id)
    → taken_id ≡ 0
    → taken_t' ≡ (if t == id then 1 else taken_t)
    → n + weight (seated_at t) s ≤ taken_t'
claimed_room id t s n taken_id taken_t taken_t' at room same free now =
    elim (Bool-cases (t == id)) [
      | inl here ↦ ground (arith, here, room, free, now, same ((==_iff t id).0 here))
      | inr other ↦ ground (arith, other, room, now, at)
    ]

claim_table-taken :
    (db : Db) (table_id : Option ℕ) {tables : List Table}
    → claim_table db table_id ≡ ok tables
    → (s : Session) → s.table_id ≡ table_id
    → IsSeated db
    → (t : ℕ) → count (seated_at t) db.sessions + weight (seated_at t) s ≤ taken t tables
unfolding claim_table
claim_table-taken db none e s at seated t = ground (arith, seated t, at, ok_injective e)
claim_table-taken db (some id) e s at seated t =
    let (table, e1, e2) = or_throw-eq_ok (find_table db id) not_found _ e in
    let claimed =
      or_throw-some (claim table_key id (λ r. not r.deleted && is_empty r.status) occupy db.tables)
        bad_request e2 in
    let (free, now) =
      taken-occupy id (λ r. not r.deleted && is_empty r.status) db.tables (λ r h. ground arith)
        claimed in
    claimed_room id t s (count (seated_at t) db.sessions) (taken id db.tables) (taken t db.tables)
      (taken t _) at (seated t) (λ e. ap (λ x. taken x db.tables) e) free (now t)

claim_table-IsEvent :
    (db : Db) (table_id : Option ℕ) {tables : List Table}
    → claim_table db table_id ≡ ok tables
    → (s : Session) → s.table_id ≡ table_id
    → is_active s.status ≡ true
    → IsSeated db
    → IsEvent (opened table_id s.id) db.sessions (db.sessions ++ s ∷ [])
unfolding claim_table
claim_table-IsEvent db none e s at here seated = takeaway-IsEvent s db.sessions at
claim_table-IsEvent db (some id) e s at here seated =
    let (table, e1, e2) = or_throw-eq_ok (find_table db id) not_found _ e in
    let claimed =
      or_throw-some (claim table_key id (λ r. not r.deleted && is_empty r.status) occupy db.tables)
        bad_request e2 in
    let (free, now) =
      taken-occupy id (λ r. not r.deleted && is_empty r.status) db.tables (λ r h. ground arith)
        claimed in
    seated-IsEvent id s db.sessions at here (omega (arith, seated id, free))

pub create_order_session-Follows :
    (db : Db) (table_id : Option ℕ) (employee_id : ℕ) (guest_count : Option ℕ) {r : Db × Session}
    → create_order_session db table_id employee_id guest_count ≡ ok r
    → IsSeated db
    → Follows db (opened table_id db.next_id) r.0
unfolding create_order_session
create_order_session-Follows db table_id employee_id guest_count e seated =
    let (u, p, e1) = >>=-eq_ok (assert_active_employee db.cash employee_id) _ e in
    let (tables, claimed, e2) = >>=-eq_ok (claim_table db table_id) _ e1 in
    let s =
      new_session db.next_id table_id employee_id (find_open_shift_id db.cash employee_id)
        guest_count in
    subst (λ r. Follows db (opened table_id db.next_id) r.0) (ok_injective e2)
      (
        (λ t. omega (
          arith,
          claim_table-taken db table_id claimed s refl seated t,
          count-append (seated_at t) db.sessions (s ∷ []),
          count-weight (seated_at t) s [],
        )),
        AreKept-refl db.order_items,
        claim_table-IsEvent db table_id claimed s refl refl seated,
      )

abbrev moved_from : ℕ → ℕ → Session → Bool
moved_from id from s = (s.id == id) && seated_at from s

moved_left :
    (id from to : ℕ) (s : Session)
    → from ≢ to
    → weight (seated_at from) (if moved_from id from s then move_to to s else s)
        + weight (moved_from id from) s
      ≤ weight (seated_at from) s
moved_left id from to s apart = elim (Bool-cases (moved_from id from s)) [
  | inl moves ↦ rw moves ground (arith, moves, apart)
  | inr stays ↦ rw stays ground (arith, stays)
]

moved_elsewhere :
    (id from to t : ℕ) (s : Session)
    → t ≢ to
    → weight (seated_at t) (if moved_from id from s then move_to to s else s)
      ≤ weight (seated_at t) s
moved_elsewhere id from to t s apart = elim (Bool-cases (moved_from id from s)) [
  | inl moves ↦ rw moves ground (arith, apart)
  | inr stays ↦ rw stays ground arith
]

spared_from :
    (from t : ℕ)
    → t ≢ from
    → (r : Table) → r.id ≡ t
    → ((r.id == from) && is_occupied r.status) ≡ false
spared_from from t apart r e = ground (arith, apart, e)

transferred :
    (id from to : ℕ) (tables : List Table) (sessions : List Session) {tables' : List Table}
    → claim table_key to (λ r. is_empty r.status) occupy tables ≡ some tables'
    → count (moved_from id from) sessions ≡ 1
    → ((t : ℕ) → count (seated_at t) sessions ≤ taken t tables)
    → (t : ℕ)
    → count (seated_at t) (update_many (moved_from id from) (move_to to) sessions)
      ≤ taken t (update_many (λ r. (r.id == from) && is_occupied r.status) release tables')
transferred id from to tables sessions {tables'} claimed one seated t =
    let cond = λ (r : Table). (r.id == from) && is_occupied r.status in
    let (free, now) = taken-occupy to (λ r. is_empty r.status) tables (λ r h. h) claimed in
    let within = count_le (moved_from id from) (seated_at from) sessions (λ s h. ground arith) in
    let apart : from ≢ to =
      λ e. omega (arith, within, one, seated from, free, ap (λ x. taken x tables) e) in
    elim (Bool-cases (t == to)) [
      | inl there ↦
          let at = (==_iff t to).0 there in
          let spare = taken-spared t cond tables' (spared_from from t (λ e. apart (sym e ∙ at))) in
          let gained =
            count-update_many_gained (moved_from id from) (move_to to) (seated_at t) sessions in
          let one_now : taken t tables' ≡ 1 = ground (arith, now t, there) in
          omega (arith, spare, gained, one, one_now, seated t, free, ap (λ x. taken x tables) at)
      | inr elsewhere ↦
          let off : t ≢ to = ground (arith, elsewhere) in
          let same : taken t tables' ≡ taken t tables = ground (arith, now t, elsewhere) in
          elim (Bool-cases (t == from)) [
            | inl here ↦
                let at = (==_iff t from).0 here in
                let lost =
                  count-update_many_lost (moved_from id from) (move_to to) (seated_at from)
                    (moved_from id from) sessions (λ s. moved_left id from to s apart) in
                let full = taken_le from tables in
                subst
                  (λ x.
                    count (seated_at x) (update_many (moved_from id from) (move_to to) sessions)
                    ≤ taken x (update_many cond release tables'))
                  (sym at) (omega (arith, lost, one, seated from, full))
            | inr other ↦
                let spare =
                  taken-spared t cond tables'
                    (spared_from from t (λ e. ground (arith, other, e))) in
                let kept =
                  count-update_many_le (moved_from id from) (move_to to) (seated_at t) sessions
                    (λ s. moved_elsewhere id from to t s off) in
                omega (arith, spare, kept, seated t, same)
          ]
    ]

absurd_zero : {P : Type 0} → 1 ≤ 0 → P
absurd_zero h = ground arith

moved_same :
    (id from to x : ℕ) (s : Session)
    → (x == to) ≡ false
    → (x == from) ≡ false
    → seated_at x (if moved_from id from s then move_to to s else s) ≡ seated_at x s
moved_same id from to x s off_to off_from = elim (Bool-cases (moved_from id from s)) [
  | inl moves ↦ rw moves ground (arith, moves, off_to, off_from)
  | inr stays ↦ rw stays refl
]

arrived :
    (id from to : ℕ) (sessions : List Session) (o : Option Session)
    → first (seated_at to) (update_many (moved_from id from) (move_to to) sessions) ≡ o
    → count (seated_at to) sessions ≡ 0
    → count (moved_from id from) sessions ≡ 1
    → session_id o ≡ some id
arrived id from to sessions none e free one =
    let there =
      count-update_many_all (moved_from id from) (move_to to) (seated_at to) sessions
        (λ r h. ground (arith, h)) in
    let nobody =
      first-none (seated_at to) (update_many (moved_from id from) (move_to to) sessions) e in
    absurd_zero (omega (arith, there, nobody, one))
arrived id from to sessions (some r) e free one =
    let (s, same, sits, counted) =
      first-update_many (moved_from id from) (move_to to) (seated_at to) sessions e in
    elim (Bool-cases (moved_from id from s)) [
      | inl moves ↦ ground (arith, same, moves)
      | inr stays ↦
          let here : seated_at to s ≡ true = ground (arith, same, sits, stays) in
          absurd_zero (omega (arith, counted here, free))
    ]

transferred-IsEvent :
    (id from to : ℕ) (tables : List Table) (sessions : List Session) {tables' : List Table}
    → claim table_key to (λ r. is_empty r.status) occupy tables ≡ some tables'
    → count (moved_from id from) sessions ≡ 1
    → ((t : ℕ) → count (seated_at t) sessions ≤ taken t tables)
    → IsEvent
        (relocate id from to)
        sessions
        (update_many (moved_from id from) (move_to to) sessions)
unfolding apply
transferred-IsEvent id from to tables sessions claimed one seated x =
    let (free, now) = taken-occupy to (λ r. is_empty r.status) tables (λ r h. h) claimed in
    let within = count_le (moved_from id from) (seated_at from) sessions (λ s h. ground arith) in
    let apart : from ≢ to =
      λ e. omega (arith, within, one, seated from, free, ap (λ x. taken x tables) e) in
    elim (Bool-cases (x == to)) [
      | inl there ↦
          let at = (==_iff x to).0 there in
          let here = arrived id from to sessions _ refl (omega (arith, seated to, free)) one in
          ap
            (λ y.
              session_id
                (first (seated_at y) (update_many (moved_from id from) (move_to to) sessions)))
            at
          ∙ here
          ∙ ground (arith, there)
      | inr elsewhere ↦ elim (Bool-cases (x == from)) [
        | inl here ↦
            let at = (==_iff x from).0 here in
            let lost =
              count-update_many_lost (moved_from id from) (move_to to) (seated_at from)
                (moved_from id from) sessions (λ s. moved_left id from to s apart) in
            let gone =
              count-none (seated_at from) (update_many (moved_from id from) (move_to to) sessions)
                (omega (arith, lost, one, seated from, taken_le from tables)) in
            ap
              (λ y.
                session_id
                  (first (seated_at y) (update_many (moved_from id from) (move_to to) sessions)))
              at
            ∙ ap session_id gone
            ∙ ground (arith, here, elsewhere)
        | inr other ↦
            session_id-update_many (moved_from id from) (move_to to) (seated_at x) sessions
              (λ s. refl) (λ s. moved_same id from to x s elsewhere other)
            ∙ ground (arith, other, elsewhere)
      ]
    ]

pub transfer_table-Follows :
    (db : Db) (id from to employee_id : ℕ) {db' : Db}
    → transfer_table db id from to employee_id ≡ ok db'
    → IsSeated db
    → Follows db (relocate id from to) db'
unfolding transfer_table log
transfer_table-Follows db id from to employee_id e seated =
    let (u, p, e1) = >>=-eq_ok (assert_active_employee db.cash employee_id) _ e in
    let (from_table, p1, e2) = or_throw-eq_ok (find_table db from) not_found _ e1 in
    let (to_table, p2, e3) = or_throw-eq_ok (find_table db to) not_found _ e2 in
    let (p3, e4) = guard-eq_ok (is_empty to_table.status) bad_request _ e3 in
    let (s, p4, e5) = or_throw-eq_ok (first (moved_from id from) db.sessions) conflict _ e4 in
    let (p5, e6) = throw_if-eq_ok (is_some (first (seated_at to) db.sessions)) conflict _ e5 in
    let (tables, p6, e7) =
      or_throw-eq_ok (claim table_key to (λ r. is_empty r.status) occupy db.tables) conflict _ e6 in
    let (p7, e8) = guard-eq_ok (count (moved_from s.id from) db.sessions == 1) conflict _ e7 in
    let met = first-meets (moved_from id from) db.sessions p4 in
    let same : s.id ≡ id = ground (arith, met) in
    subst (Follows db (relocate id from to)) (ok_injective e8) (
      transferred s.id from to db.tables db.sessions p6 (ground (arith, p7)) seated,
      AreKept-refl db.order_items,
      subst
          (λ k.
            IsEvent (relocate k from to) db.sessions
              (update_many (moved_from s.id from) (move_to to) db.sessions))
          same
          (transferred-IsEvent s.id from to db.tables db.sessions p6 (ground (arith, p7)) seated),
    )
