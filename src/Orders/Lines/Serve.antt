-- ===== src/Orders/Lines/Serve.antt =====
-- Serving, cancelling and remaking lines, and closing their sessions, keep every line.
use coffee_shop_be.Prelude.{
  ℕ, Bool, true, false, not, ◌&&◌, ◌||◌, Option, some, [], ◌∷◌, ◌≡◌, refl, sym, subst, arith, inl,
  inr, is_some, Bool-cases,
}
use coffee_shop_be.Prelude.Table.{find, claim}
use coffee_shop_be.Prelude.Http.{
  ok, ok_injective, if-eq_ok, >>=-eq_ok, or_throw-eq_ok, guard-eq_ok, throw_if-eq_ok, bad_request,
  not_found, conflict,
}
use coffee_shop_be.Cash.Access.{assert_active_employee}
use coffee_shop_be.Inventory.Reservations.{release_reservations}
use coffee_shop_be.Orders.Types.{
  Db, OrderItem, ServeStatus, pending, cooking, ready, served, same_status, order_item_key,
  session_key,
}
use coffee_shop_be.Orders.Policy.{is_allowed, is_processed, assert_serve_status_transition, log}
use coffee_shop_be.Orders.Serving.{
  is_replacement, ticket_available_at, is_later, consume_when_cooking, set_status, apply_status,
  is_closed_for, is_pickup_refused, change_item_status, assert_cancellable, is_cancellable,
  cancel_item,
}
use coffee_shop_be.Orders.Lines.{
  Moves, start, finish, serve, hand_over, cancel, Reaches, stay, move, Later, is_invoiced,
  IsLineChange, AreKept-refl, claim-AreKept,
}

allowed_moves : (b : Bool) (s t : ServeStatus) → is_allowed s t ≡ true → Moves b s t
allowed_moves b pending cooking h = start
allowed_moves b cooking ready h = finish
allowed_moves b cooking served h = serve
allowed_moves b ready served h = hand_over
allowed_moves b s t h = cc

same_status_eq : (s t : ServeStatus) → same_status s t ≡ true → s ≡ t
same_status_eq s t h = ground arith

relabelled :
    (i : OrderItem) (t : ServeStatus) (at : Option ℕ)
    → Reaches (is_invoiced i) i.serve_status t
    → Later i (record i { serve_status = t; ready_at = at })
relabelled i t at p = record {
  reaches = p;
  same_item = refl;
  same_price = refl;
  same_options = refl;
  same_paid = refl;
  same_invoice = refl;
  quantity_le = omega arith;
  bound = λ h. (refl, refl);
}

set_status-Later :
    (status : ServeStatus) (now : ℕ) (i : OrderItem)
    → Reaches (is_invoiced i) i.serve_status status
    → Later i (set_status status now i)
set_status-Later pending now i h = relabelled i pending i.ready_at h
set_status-Later cooking now i h = relabelled i cooking i.ready_at h
set_status-Later ready now i h = relabelled i ready (some now) h
set_status-Later served now i h = relabelled i served i.ready_at h
set_status-Later ServeStatus.cancelled now i h = relabelled i ServeStatus.cancelled i.ready_at h

Reaches-cancelled : (b : Bool) (s : ServeStatus) → b ≡ false → Reaches b s ServeStatus.cancelled
Reaches-cancelled b s h =
    subst (λ x. Reaches x s ServeStatus.cancelled) (sym h)
      (elim (Bool-cases (same_status s ServeStatus.cancelled)) [
        | inl same ↦
            subst (λ x. Reaches false x ServeStatus.cancelled)
              (sym (same_status_eq s ServeStatus.cancelled same)) stay
        | inr other ↦ move (cancel other) stay
      ])

pub cancelled-Later :
    (i : OrderItem)
    → is_invoiced i ≡ false
    → Later i (record i { serve_status = ServeStatus.cancelled })
cancelled-Later i h =
    relabelled i ServeStatus.cancelled i.ready_at
      (Reaches-cancelled (is_invoiced i) i.serve_status h)

set_status-id :
    (status : ServeStatus) (now : ℕ) (r : OrderItem) → (set_status status now r).id ≡ r.id
set_status-id status now r = ground arith

apply_status-AreKept :
    (now : ℕ) (db : Db) (item : OrderItem) (employee_id : ℕ) (status : ServeStatus) {db' : Db}
    → apply_status now db item employee_id status ≡ ok db'
    → IsLineChange db db'
unfolding apply_status assert_serve_status_transition log
apply_status-AreKept now db item employee_id status e =
    let (p, e1) = guard-eq_ok (is_allowed item.serve_status status) bad_request _ e in
    let (p1, e2) =
      throw_if-eq_ok (same_status status cooking && is_later (ticket_available_at db item.id) now)
        conflict _ e1 in
    let cond = λ (r : OrderItem). same_status r.serve_status item.serve_status in
    let (items, p2, e3) =
      or_throw-eq_ok (claim order_item_key item.id cond (set_status status now) db.order_items)
        conflict _ e2 in
    let (inventory, p3, e4) = >>=-eq_ok (consume_when_cooking db item status) _ e3 in
    subst (IsLineChange db) (ok_injective e4) (
      claim-AreKept item.id cond (set_status status now) db.order_items (set_status-id status now)
          (λ r there met. set_status-Later status now r (
            move
              (subst (λ s. Moves (is_invoiced r) s status)
                (sym (same_status_eq r.serve_status item.serve_status met))
                (allowed_moves (is_invoiced r) item.serve_status status p))
              stay))
          p2,
      refl,
      refl,
    )

pub change_item_status-AreKept :
    (sign : ℕ → Option ℕ → ℕ) (now : ℕ) (db : Db) (id employee_id : ℕ) (status : ServeStatus)
    (handoff_only : Bool) (pickup : Option (ℕ × ℕ)) {db' : Db}
    → change_item_status sign now db id employee_id status handoff_only pickup ≡ ok db'
    → IsLineChange db db'
unfolding change_item_status
change_item_status-AreKept sign now db id employee_id status handoff_only pickup e =
    let (u, p, e1) = >>=-eq_ok (assert_active_employee db.cash employee_id) _ e in
    let (item, p1, e2) = or_throw-eq_ok (find order_item_key id db.order_items) not_found _ e1 in
    let (session, p2, e3) =
      or_throw-eq_ok (find session_key item.order_session_id db.sessions) not_found _ e2 in
    let (p3, e4) = throw_if-eq_ok (is_closed_for db item session) bad_request _ e3 in
    let (p4, e5) =
      throw_if-eq_ok (same_status item.serve_status ServeStatus.cancelled) bad_request _ e4 in
    let (p5, e6) =
      throw_if-eq_ok
        (same_status status served
          && session.is_online
          && not (is_replacement db id)
          && not (is_some pickup))
        conflict _ e5 in
    let (p6, e7) = throw_if-eq_ok (is_pickup_refused sign now db item pickup) conflict _ e6 in
    let (p7, e8) =
      throw_if-eq_ok
        (handoff_only
          && (is_some session.table_id
              || (not (same_status item.serve_status ready)
                  && not (same_status item.serve_status served))))
        conflict _ e7 in
    let (p8, e9) =
      throw_if-eq_ok (same_status status ready && is_some session.table_id) bad_request _ e8 in
    elim (if-eq_ok (same_status item.serve_status status) (ok db)
      (apply_status now db item employee_id status) e9) [
        | inl (same, e10) ↦
            subst (IsLineChange db) (ok_injective e10) (AreKept-refl db.order_items, refl, refl)
        | inr (other, e10) ↦ apply_status-AreKept now db item employee_id status e10
      ]

pub cancel_item-AreKept :
    (db : Db) (id employee_id : ℕ) (reason : Option ℕ) {db' : Db}
    → cancel_item db id employee_id reason ≡ ok db'
    → IsLineChange db db'
unfolding cancel_item log
cancel_item-AreKept db id employee_id reason e =
    let (u, p, e1) = >>=-eq_ok (assert_active_employee db.cash employee_id) _ e in
    let (item, p1, e2) = or_throw-eq_ok (find order_item_key id db.order_items) not_found _ e1 in
    let (session, p2, e3) =
      or_throw-eq_ok (find session_key item.order_session_id db.sessions) not_found _ e2 in
    let (u1, p3, e4) = >>=-eq_ok (assert_cancellable db item session) _ e3 in
    let (p4, e5) =
      throw_if-eq_ok (same_status item.serve_status ServeStatus.cancelled) bad_request _ e4 in
    let (p5, e6) =
      throw_if-eq_ok (is_processed item.serve_status && not (is_some reason)) bad_request _ e5 in
    let f = λ (r : OrderItem). record r { serve_status = ServeStatus.cancelled } in
    let cond = is_cancellable (is_replacement db id) item in
    let (items, p6, e7) =
      or_throw-eq_ok (claim order_item_key id cond f db.order_items) conflict _ e6 in
    let (inventory, p7, e8) = >>=-eq_ok (release_reservations db.inventory (id ∷ [])) _ e7 in
    subst (IsLineChange db) (ok_injective e8) (
      claim-AreKept id cond f db.order_items (λ r. refl)
          (λ r there met. cancelled-Later r (ground (arith, met))) p6,
      refl,
      refl,
    )
