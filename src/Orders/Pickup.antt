-- ===== src/Orders/Pickup.antt =====
-- orders/takeaway.service.ts: the pickup code of a paid takeaway invoice is issued, rotated, revoked and
-- verified. Times are in milliseconds; `sign` stands for the HMAC of an invoice and a version.
pub mod Codes
use coffee_shop_be.Prelude.{
  ℕ, Bool, true, false, not, ◌&&◌, ◌||◌, Option, none, some, List, [], ◌∷◌, ◌+◌, ◌*◌, ◌==◌, leb,
  any, count, filter, length, is_some, opt_eq, if◌then◌else◌,
}
use coffee_shop_be.Prelude.Table.{find, claim}
use coffee_shop_be.Prelude.Http.{
  Result, ok, err, ◌>>=◌, ◌>>◌, guard, throw_if, or_throw, not_found, conflict,
}
use coffee_shop_be.Cash.Access.{assert_active_employee}
use coffee_shop_be.Orders.Types.{
  Db, Invoice, OrderItem, Session, ServeStatus, Action, pickup_code_issued, pickup_code_rotated,
  pickup_code_revoked, is_payment_paid, is_called_off, same_status, session_key, invoice_key,
}
use coffee_shop_be.Orders.Policy.{log}

abbrev pub pickup_code_ttl_ms : ℕ
pickup_code_ttl_ms = 72 * 60 * 60 * 1_000

abbrev pub max_pickup_code_version : ℕ
max_pickup_code_version = 2_147_483_647

-- The database keeps the version in a signed integer of 32 bits.
unfoldable pub next_pickup_code_version : Option ℕ → Result ℕ
next_pickup_code_version none = ok 1
next_pickup_code_version (some version) =
    if version == max_pickup_code_version then err conflict else ok (version + 1)

unfoldable pub get_pickup_code_expiry : Invoice → Option ℕ
get_pickup_code_expiry invoice = elim invoice.pickup_code_version [
  | none ↦ some (invoice.created_at + pickup_code_ttl_ms)
  | some version ↦ elim invoice.pickup_code_issued_at [
    | none ↦ none
    | some issued_at ↦ some (issued_at + pickup_code_ttl_ms)
  ]
]

abbrev pub invoice_items : Db → ℕ → List OrderItem
invoice_items db id = filter (λ i. opt_eq i.invoice_id (some id)) db.order_items

abbrev pub is_takeaway : Db → Invoice → Bool
is_takeaway db invoice = elim (find session_key invoice.order_session_id db.sessions) [
  | none ↦ false
  | some s ↦ not (is_some s.table_id) && not (is_called_off s.status)
]

unfoldable pub assert_pickup_invoice : Db → ℕ → Result Invoice
assert_pickup_invoice db id = do
  invoice ← or_throw (find invoice_key id db.invoices) not_found
  guard (is_payment_paid invoice.payment_status) not_found
  guard (is_takeaway db invoice) not_found
  throw_if (length (invoice_items db id) == 0) not_found
  throw_if
      (any (λ i. not i.is_paid || same_status i.serve_status ServeStatus.cancelled)
        (invoice_items db id))
      not_found
  ok invoice

abbrev pub is_code_unchanged : Invoice → Invoice → Bool
is_code_unchanged invoice r =
    is_payment_paid r.payment_status
    && opt_eq r.pickup_code_version invoice.pickup_code_version
    && opt_eq r.pickup_code_issued_at invoice.pickup_code_issued_at

abbrev pub set_code : Option ℕ → Option ℕ → Invoice → Invoice
set_code version issued_at r = record r {
  pickup_code_version = version;
  pickup_code_issued_at = issued_at;
}

pub record PickupCode : Type 0 where
  pub code : ℕ
  pub expires_at : ℕ

module _ (sign : ℕ → Option ℕ → ℕ) where
  unfoldable pub verify_pickup_code : ℕ → ℕ → ℕ → Invoice → Option ℕ
  unfolding get_pickup_code_expiry
  verify_pickup_code now invoice_id code invoice = elim (get_pickup_code_expiry invoice) [
    | none ↦ none
    | some expires_at ↦
        if leb expires_at now
        then none
        else if code == sign invoice_id invoice.pickup_code_version
        then some expires_at
        else none
  ]

  -- A code that has not expired, where it may be shown again.
  abbrev pub unexpired : ℕ → Option ℕ → Option ℕ → Option ℕ
  unexpired now none (some expires_at) = if leb expires_at now then none else some expires_at
  unexpired now none none = none
  unexpired now (some current) expires_at = none

  abbrev pub is_current : ℕ → ℕ → Option ℕ → Invoice → Bool
  is_current now invoice_id none invoice = true
  is_current now invoice_id (some current) invoice =
      is_some (verify_pickup_code now invoice_id current invoice)

  abbrev pub provision_action : Option ℕ → Action
  provision_action none = pickup_code_issued
  provision_action (some current) = pickup_code_rotated

  unfoldable pub renew_code : ℕ → Db → ℕ → ℕ → Option ℕ → Invoice → Result (Db × PickupCode)
  unfolding next_pickup_code_version log
  renew_code now db invoice_id employee_id current_code invoice = do
    next_version ← next_pickup_code_version invoice.pickup_code_version
    invoices ←
        or_throw
          (claim invoice_key invoice_id (is_code_unchanged invoice)
            (set_code (some next_version) (some now)) db.invoices)
          conflict
    ok (
      log (record db { invoices = invoices }) employee_id (provision_action current_code)
          invoice_id,
      record { code = sign invoice_id (some next_version); expires_at = now + pickup_code_ttl_ms },
    )

  unfoldable pub provision_pickup_code : ℕ → Db → ℕ → ℕ → Option ℕ → Result (Db × PickupCode)
  unfolding assert_pickup_invoice get_pickup_code_expiry verify_pickup_code renew_code
  provision_pickup_code now db invoice_id employee_id current_code = do
    assert_active_employee db.cash employee_id
    invoice ← assert_pickup_invoice db invoice_id
    guard (is_current now invoice_id current_code invoice) conflict
    elim (unexpired now current_code (get_pickup_code_expiry invoice)) [
      | some expires_at ↦ ok (
        db,
        record { code = sign invoice_id invoice.pickup_code_version; expires_at = expires_at },
      )
      | none ↦ renew_code now db invoice_id employee_id current_code invoice
    ]

  unfoldable pub revoke_pickup_code : ℕ → Db → ℕ → ℕ → ℕ → Result Db
  unfolding assert_pickup_invoice verify_pickup_code next_pickup_code_version log
  revoke_pickup_code now db invoice_id current_code employee_id = do
    assert_active_employee db.cash employee_id
    invoice ← assert_pickup_invoice db invoice_id
    guard (is_some (verify_pickup_code now invoice_id current_code invoice)) conflict
    next_version ← next_pickup_code_version invoice.pickup_code_version
    invoices ←
        or_throw
          (claim invoice_key invoice_id (is_code_unchanged invoice)
            (set_code (some next_version) none) db.invoices)
          conflict
    ok (log (record db { invoices = invoices }) employee_id pickup_code_revoked invoice_id)
