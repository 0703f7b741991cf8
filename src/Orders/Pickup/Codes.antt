-- ===== src/Orders/Pickup/Codes.antt =====
-- What a pickup code that was issued, rotated or revoked opens.
use coffee_shop_be.Prelude.{
  ℕ, true, not, ◌||◌, Option, none, some, ◌+◌, ◌<◌, ◌≤◌, ◌==◌, ◌≡◌, ◌≢◌, ◌∙◌, refl, sym, ap, subst,
  leb, arith, inl, inr, any, is_some, length, if◌then◌else◌, Bool-cases, Option-cases,
  some_injective, ==_refl,
}
use coffee_shop_be.Prelude.Table.{find, claim, find-update_self, claim-eq_some}
use coffee_shop_be.Prelude.Http.{
  ok, err, ok_injective, if-eq_ok, >>=-eq_ok, or_throw-eq_ok, guard-eq_ok, throw_if-eq_ok,
  not_found, conflict,
}
use coffee_shop_be.Cash.Access.{assert_active_employee}
use coffee_shop_be.Orders.Types.{
  Db, Invoice, ServeStatus, is_payment_paid, same_status, invoice_key,
}
use coffee_shop_be.Orders.Policy.{log}
use coffee_shop_be.Orders.Pickup.{
  PickupCode, pickup_code_ttl_ms, max_pickup_code_version, next_pickup_code_version,
  get_pickup_code_expiry, assert_pickup_invoice, invoice_items, is_takeaway, is_code_unchanged,
  set_code, verify_pickup_code, is_current, unexpired, renew_code, provision_pickup_code,
  revoke_pickup_code,
}

assert_pickup_invoice-found :
    (db : Db) (id : ℕ) {invoice : Invoice}
    → assert_pickup_invoice db id ≡ ok invoice
    → find invoice_key id db.invoices ≡ some invoice
unfolding assert_pickup_invoice
assert_pickup_invoice-found db id e =
    let (i, found, e1) = or_throw-eq_ok (find invoice_key id db.invoices) not_found _ e in
    let (p1, e2) = guard-eq_ok (is_payment_paid i.payment_status) not_found _ e1 in
    let (p2, e3) = guard-eq_ok (is_takeaway db i) not_found _ e2 in
    let (p3, e4) = throw_if-eq_ok (length (invoice_items db id) == 0) not_found _ e3 in
    let (p4, e5) =
      throw_if-eq_ok
        (any (λ i. not i.is_paid || same_status i.serve_status ServeStatus.cancelled)
          (invoice_items db id))
        not_found _ e4 in
    found ∙ ap some (ok_injective e5)

next_is_other :
    (version : Option ℕ) {v : ℕ} → next_pickup_code_version version ≡ ok v → some v ≢ version
unfolding next_pickup_code_version
next_is_other none e = λ h. cc
next_is_other (some w) {v} e =
    elim (if-eq_ok (w == max_pickup_code_version) (err conflict) (ok (w + 1)) e) [
      | inl (test, e1) ↦ λ h. cc
      | inr (test, e1) ↦
          λ h. let a = some_injective h in let b = ok_injective e1 in omega (arith, a, b)
    ]

module _ (sign : ℕ → Option ℕ → ℕ) where
  -- A code opens its invoice until it expires.
  pub IsOpen : Db → ℕ → PickupCode → Type 0
  IsOpen db id c =
      (invoice : Invoice) × (find invoice_key id db.invoices ≡ some invoice)
      × ((later : ℕ)
          → later < c.expires_at
          → verify_pickup_code sign later id c.code invoice ≡ some c.expires_at)
      × ((later : ℕ)
          → c.expires_at ≤ later
          → verify_pickup_code sign later id c.code invoice ≡ none)

  signed_opens :
      (id : ℕ) (invoice : Invoice) (expires_at : ℕ)
      → get_pickup_code_expiry invoice ≡ some expires_at
      → ((later : ℕ)
          → later < expires_at
          → verify_pickup_code sign later id (sign id invoice.pickup_code_version) invoice
            ≡ some expires_at)
        × ((later : ℕ)
            → expires_at ≤ later
            → verify_pickup_code sign later id (sign id invoice.pickup_code_version) invoice ≡ none)
  unfolding verify_pickup_code
  signed_opens id invoice expires_at e = (
    (λ later h.
        rw (e, verify_pickup_code) ground
          (arith, h, ==_refl (sign id invoice.pickup_code_version))),
    (λ later h. rw (e, verify_pickup_code) ground (arith, h)),
  )

  renew_code-opens :
      (now : ℕ) (db : Db) (id employee_id : ℕ) (current : Option ℕ) (invoice : Invoice)
      {r : Db × PickupCode}
      → find invoice_key id db.invoices ≡ some invoice
      → renew_code sign now db id employee_id current invoice ≡ ok r
      → IsOpen r.0 id r.1 × (now < r.1.expires_at)
  unfolding renew_code log IsOpen get_pickup_code_expiry
  renew_code-opens now db id employee_id current invoice found e =
      let (v, p1, e1) = >>=-eq_ok (next_pickup_code_version invoice.pickup_code_version) _ e in
      let (invoices, p2, e2) =
        or_throw-eq_ok
          (claim invoice_key id (is_code_unchanged invoice) (set_code (some v) (some now))
            db.invoices)
          conflict _ e1 in
      let (i, p3, p4, written) =
        claim-eq_some invoice_key id (is_code_unchanged invoice) (set_code (some v) (some now))
          db.invoices p2 in
      let written' =
        find-update_self invoice_key id (set_code (some v) (some now)) db.invoices (λ r. refl) p3 in
      subst (λ r. IsOpen r.0 id r.1 × (now < r.1.expires_at)) (ok_injective e2)
        (
          (
            set_code (some v) (some now) i,
            ap (find invoice_key id) written ∙ written',
            (signed_opens id (set_code (some v) (some now) i) (now + pickup_code_ttl_ms) refl).0,
            (signed_opens id (set_code (some v) (some now) i) (now + pickup_code_ttl_ms) refl).1,
          ),
          omega arith,
        )

  verified :
      (now id code : ℕ) (invoice : Invoice)
      → is_some (verify_pickup_code sign now id code invoice) ≡ true
      → code ≡ sign id invoice.pickup_code_version
  unfolding verify_pickup_code
  verified now id code invoice h = elim (Option-cases (get_pickup_code_expiry invoice)) [
    | inl never ↦ ground (arith, h, never)
    | inr (expires_at, e) ↦ ground (arith, h, e)
  ]

  other_closed :
      (now id code : ℕ) (invoice : Invoice)
      → code ≢ sign id invoice.pickup_code_version
      → verify_pickup_code sign now id code invoice ≡ none
  unfolding verify_pickup_code
  other_closed now id code invoice h = elim (Option-cases (get_pickup_code_expiry invoice)) [
    | inl never ↦ ground (arith, h, never)
    | inr (expires_at, e) ↦ ground (arith, h, e)
  ]

  provisioned :
      (now : ℕ) (db : Db) (id employee_id : ℕ) (current : Option ℕ) (invoice : Invoice)
      (expiry : Option ℕ) {r : Db × PickupCode}
      → get_pickup_code_expiry invoice ≡ expiry
      → find invoice_key id db.invoices ≡ some invoice
      → (elim (unexpired sign now current expiry) [
        | some expires_at ↦
            ok (db, record { code = sign id invoice.pickup_code_version; expires_at = expires_at })
        | none ↦ renew_code sign now db id employee_id current invoice
      ])
        ≡ ok r
      → IsOpen r.0 id r.1 × (now < r.1.expires_at)
  unfolding IsOpen
  provisioned now db id employee_id none invoice none h found e =
      renew_code-opens now db id employee_id none invoice found e
  provisioned now db id employee_id (some c) invoice expiry h found e =
      renew_code-opens now db id employee_id (some c) invoice found e
  provisioned now db id employee_id none invoice (some expires_at) {r} h found e =
      elim (Bool-cases (leb expires_at now)) [
        | inl late ↦ renew_code-opens now db id employee_id none invoice found (
            subst
              (λ b.
                (elim (if b then none else some expires_at) [
                  | some expires_at ↦ ok (
                    db,
                    record { code = sign id invoice.pickup_code_version; expires_at = expires_at },
                  )
                  | none ↦ renew_code sign now db id employee_id none invoice
                ])
                ≡ ok r)
              late e)
        | inr early ↦
            let e' : ok (
              db,
              record { code = sign id invoice.pickup_code_version; expires_at = expires_at },
            )
                ≡ ok r =
              (subst
                (λ b.
                  (elim (if b then none else some expires_at) [
                    | some expires_at ↦ ok (
                      db,
                      record {
                        code = sign id invoice.pickup_code_version;
                        expires_at = expires_at;
                      },
                    )
                    | none ↦ renew_code sign now db id employee_id none invoice
                  ])
                  ≡ ok r)
                early e) in
            subst (λ r. IsOpen r.0 id r.1 × (now < r.1.expires_at)) (ok_injective e')
              (
                (
                  invoice,
                  found,
                  (signed_opens id invoice expires_at h).0,
                  (signed_opens id invoice expires_at h).1,
                ),
                ground (arith, early),
              )
      ]

  -- A pickup code that is issued or rotated opens its invoice at every time before the code expires,
  -- and at no later time; it has not expired yet when it is returned.
  pub provision_pickup_code-verify_pickup_code :
      (now : ℕ) (db : Db) (id employee_id : ℕ) (current : Option ℕ) {r : Db × PickupCode}
      → provision_pickup_code sign now db id employee_id current ≡ ok r
      → IsOpen r.0 id r.1 × (now < r.1.expires_at)
  unfolding provision_pickup_code
  provision_pickup_code-verify_pickup_code now db id employee_id current {r} e =
      let (u, p, e1) = >>=-eq_ok (assert_active_employee db.cash employee_id) _ e in
      let (invoice, p1, e2) = >>=-eq_ok (assert_pickup_invoice db id) _ e1 in
      let (p2, e3) = guard-eq_ok (is_current sign now id current invoice) conflict _ e2 in
      let found = assert_pickup_invoice-found db id p1 in
      provisioned now db id employee_id current invoice (get_pickup_code_expiry invoice) refl found
        e3

  -- Where the signatures of different versions differ, a code that was replaced opens nothing.
  pub rotate_closes :
      (now : ℕ) (db : Db) (id employee_id current : ℕ) {r : Db × PickupCode}
      → ((v w : Option ℕ) → sign id v ≡ sign id w → v ≡ w)
      → provision_pickup_code sign now db id employee_id (some current) ≡ ok r
      → (invoice : Invoice) × (find invoice_key id r.0.invoices ≡ some invoice)
        × ((later : ℕ) → verify_pickup_code sign later id current invoice ≡ none)
  unfolding provision_pickup_code renew_code log
  rotate_closes now db id employee_id current {r} apart e =
      let (u, p, e1) = >>=-eq_ok (assert_active_employee db.cash employee_id) _ e in
      let (invoice, p1, e2) = >>=-eq_ok (assert_pickup_invoice db id) _ e1 in
      let (p2, e3) =
        guard-eq_ok (is_some (verify_pickup_code sign now id current invoice)) conflict _ e2 in
      let (v, p3, e4) = >>=-eq_ok (next_pickup_code_version invoice.pickup_code_version) _ e3 in
      let (invoices, p4, e5) =
        or_throw-eq_ok
          (claim invoice_key id (is_code_unchanged invoice) (set_code (some v) (some now))
            db.invoices)
          conflict _ e4 in
      let (i, p5, p6, written) =
        claim-eq_some invoice_key id (is_code_unchanged invoice) (set_code (some v) (some now))
          db.invoices p4 in
      let found =
        find-update_self invoice_key id (set_code (some v) (some now)) db.invoices (λ r. refl) p5 in
      let was = verified now id current invoice p2 in
      (
        set_code (some v) (some now) i,
        ap (λ r. find invoice_key id r.0.invoices) (sym (ok_injective e5))
            ∙ ap (find invoice_key id) written
            ∙ found,
        λ later. other_closed later id current (set_code (some v) (some now) i) (λ same.
            next_is_other invoice.pickup_code_version p3
              (apart (some v) invoice.pickup_code_version (sym same ∙ was))),
      )

  -- After a revocation no code opens the invoice.
  pub revoke_closes :
      (now : ℕ) (db : Db) (id current employee_id : ℕ) {db' : Db}
      → revoke_pickup_code sign now db id current employee_id ≡ ok db'
      → (invoice : Invoice) × (find invoice_key id db'.invoices ≡ some invoice)
        × ((later code : ℕ) → verify_pickup_code sign later id code invoice ≡ none)
  unfolding revoke_pickup_code log verify_pickup_code get_pickup_code_expiry
  revoke_closes now db id current employee_id e =
      let (u, p, e1) = >>=-eq_ok (assert_active_employee db.cash employee_id) _ e in
      let (invoice, p1, e2) = >>=-eq_ok (assert_pickup_invoice db id) _ e1 in
      let (p2, e3) =
        guard-eq_ok (is_some (verify_pickup_code sign now id current invoice)) conflict _ e2 in
      let (v, p3, e4) = >>=-eq_ok (next_pickup_code_version invoice.pickup_code_version) _ e3 in
      let (invoices, p4, e5) =
        or_throw-eq_ok
          (claim invoice_key id (is_code_unchanged invoice) (set_code (some v) none) db.invoices)
          conflict _ e4 in
      let (i, p5, p6, written) =
        claim-eq_some invoice_key id (is_code_unchanged invoice) (set_code (some v) none)
          db.invoices p4 in
      let found =
        find-update_self invoice_key id (set_code (some v) none) db.invoices (λ r. refl) p5 in
      (
        set_code (some v) none i,
        ap (λ d. find invoice_key id d.invoices) (sym (ok_injective e5))
            ∙ ap (find invoice_key id) written
            ∙ found,
        λ later code. refl,
      )
