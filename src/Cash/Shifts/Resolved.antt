-- ===== src/Cash/Shifts/Resolved.antt =====
-- What each review of an expense request writes to the tables.
use coffee_shop_be.Prelude.{ℕ, ◌≡◌, ◌≢◌, refl, true, Option, none, some, ◌∷◌, arith, inl, inr}
use coffee_shop_be.Prelude.Int.{leb_ℤ}
use coffee_shop_be.Prelude.Table.{find, update, claim}
use coffee_shop_be.Prelude.Http.{Result, HttpError, ok, err, Result-cases}
use coffee_shop_be.Cash.Types.{
  Fund, expense, ExpenseRequest, pending, approved, rejected, cancelled, Db,
}
use coffee_shop_be.Cash.Access.{ShiftContext, create_transaction}
use coffee_shop_be.Cash.Shifts.{
  post_movement, approve_expense, find_expense, resolve_request, reject_expense, cancel_expense,
}
use coffee_shop_be.Cash.Shifts.Movements.{moved, post_movement_lem, post_movement-expenses}

module _ (db : Db) (now id employee : ℕ) {r : ExpenseRequest} {db' : Db}
    (found : find_expense db id ≡ some r) where
  pub reject_expense_lem :
      (reason : ℕ)
      → reject_expense db now id employee reason ≡ ok db'
      → (r.status ≡ pending)
        × (r.requested_by ≢ employee)
        × (db'.funds ≡ db.funds)
        × (db'.transactions ≡ db.transactions)
        × (db'.expenses
            ≡ update
                (λ r. r.id)
                id
                (λ r. record r {
                  status = rejected;
                  resolved_at = some now;
                  resolved_by = some employee;
                  resolution_note = some reason;
                })
                db.expenses)
  unfolding reject_expense find_expense claim
  reject_expense_lem reason e = ground arith

  pub cancel_expense_lem :
      (reason : ℕ)
      → cancel_expense db now id employee reason ≡ ok db'
      → (r.status ≡ pending)
        × (r.requested_by ≡ employee)
        × (db'.funds ≡ db.funds)
        × (db'.transactions ≡ db.transactions)
        × (db'.expenses
            ≡ update
                (λ r. r.id)
                id
                (λ r. record r {
                  status = cancelled;
                  resolved_at = some now;
                  resolved_by = some employee;
                  resolution_note = some reason;
                })
                db.expenses)
  unfolding cancel_expense find_expense claim
  cancel_expense_lem reason e = ground arith

-- The entry is posted in the requester's name, on the request's shift and fund.
abbrev pub request_post : Db → ℕ → ExpenseRequest → Result Db
request_post db now r =
    post_movement db now (record { id = r.shift_id; fund_id = r.fund_id }) r.requested_by expense
      r.amount

module _ (db : Db) (now id employee : ℕ) (remark : Option ℕ) {r : ExpenseRequest} {db' : Db}
    (found : find_expense db id ≡ some r)
    (e : approve_expense db now id employee remark ≡ ok db') where
  pub approval_posts : {x : HttpError} → request_post db now r ≢ err x
  unfolding approve_expense find_expense
  approval_posts p = ground arith

  pub approval_state :
      {posted : Db}
      → request_post db now r ≡ ok posted
      → posted.expenses ≡ db.expenses
      → (r.status ≡ pending)
        × (r.requested_by ≢ employee)
        × (db'.funds ≡ posted.funds)
        × (db'.transactions ≡ posted.transactions)
        × (db'.expenses
            ≡ update
                (λ r. r.id)
                id
                (resolve_request approved now employee remark (some db.next_id))
                db.expenses)
  unfolding approve_expense find_expense claim
  approval_state p same = ground arith

  pub approve_expense_steps :
      (r.status ≡ pending)
      × (r.requested_by ≢ employee)
      × ((f : Fund) × (find (λ f. f.id) r.fund_id db.funds ≡ some f)
          × (leb_ℤ r.amount f.balance ≡ true)
          × (db'.funds ≡ update (λ f. f.id) r.fund_id (moved expense r.amount) db.funds))
      × (db'.transactions
          ≡ record {
            id = db.next_id;
            flow = expense;
            amount = r.amount;
            transaction_date = now;
            fund_id = r.fund_id;
            shift_id = some r.shift_id;
            employee_id = r.requested_by;
            invoice_id = none;
          }
            ∷ db.transactions)
      × (db'.expenses
          ≡ update
              (λ r. r.id)
              id
              (resolve_request approved now employee remark (some db.next_id))
              db.expenses)
  unfolding create_transaction
  approve_expense_steps = elim (Result-cases (request_post db now r)) [
    | inl (x, refused) ↦ absurd (approval_posts refused)
    | inr (posted, done) ↦
        let shift : ShiftContext = record { id = r.shift_id; fund_id = r.fund_id } in
        let (p, ne, funds, transactions, expenses) =
          approval_state done
            (post_movement-expenses db now shift r.requested_by expense r.amount done) in
        let (f, held, usable, written) =
          post_movement_lem db now shift r.requested_by expense r.amount done in
        (
          p,
          ne,
          (f, held, ground arith, rw (funds, written) refl),
          rw (transactions, written) refl,
          expenses,
        )
  ]
