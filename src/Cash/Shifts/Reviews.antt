-- ===== src/Cash/Shifts/Reviews.antt =====
-- The review of expense requests: by a second employee, once, while the shift is open.
use coffee_shop_be.Prelude.{
  ℕ, ◌≡◌, ◌≢◌, ◌∙◌, refl, true, false, Option, some, ◌∷◌, arith, inl, inr, is_some,
}
use coffee_shop_be.Prelude.Int.{◌-ℤ◌, ◌≤ℤ◌, leb_ℤ→≤ℤ}
use coffee_shop_be.Prelude.Table.{
  All, All-update, All-find, find, update, find-update, find-update_self,
}
use coffee_shop_be.Prelude.Http.{Result, ok, Result-cases}
use coffee_shop_be.Cash.Types.{
  Fund, CashTransaction, expense, ExpenseRequest, pending, approved, is_pending, is_approved, Db,
}
use coffee_shop_be.Cash.Access.{ShiftContext}
use coffee_shop_be.Cash.Ledger.{basis, basis-eq}
use coffee_shop_be.Cash.Handovers.Duties.{resolution_ok}
use coffee_shop_be.Cash.Shifts.{approve_expense, find_expense, reject_expense, cancel_expense}
use coffee_shop_be.Cash.Shifts.Resolved.{
  reject_expense_lem, cancel_expense_lem, request_post, approval_posts, approval_state,
  approve_expense_steps,
}
use coffee_shop_be.Cash.Shifts.Movements.{moved, post_movement-basis, post_movement-expenses}

-- A pending request is unresolved, a review is by another employee, a cancellation by the
-- requester; and a request has an entry exactly if it is approved.
pub record IsReviewed (r : ExpenseRequest) : Type 0 where
  pub resolution : resolution_ok r.status r.requested_by r.resolved_by ≡ true
  pub entry : is_some r.transaction_id ≡ is_approved r.status

module _ (db : Db) (now id employee : ℕ) (remark : Option ℕ) {r : ExpenseRequest} {db' : Db}
    (found : find_expense db id ≡ some r)
    (e : approve_expense db now id employee remark ≡ ok db') where
  -- A successful approval is by an employee other than the requester, of a pending request. The fund
  -- of the request held the amount and loses it, and every other fund stays as it was; one expense
  -- of the amount is posted on that fund and the shift of the request, under a new id; and the
  -- request is found approved, with the reviewer, the time, the remark and the id of that entry, and
  -- its other fields as they were.
  pub approve_expense_lem :
      (r.status ≡ pending)
      × (r.requested_by ≢ employee)
      × ((f : Fund) × (find (λ f. f.id) r.fund_id db.funds ≡ some f)
          × (r.amount ≤ℤ f.balance)
          × (find (λ f. f.id) r.fund_id db'.funds
              ≡ some (record f { balance = f.balance -ℤ r.amount })))
      × ((k : ℕ) → k ≢ r.fund_id → find (λ f. f.id) k db'.funds ≡ find (λ f. f.id) k db.funds)
      × ((t : CashTransaction) × (db'.transactions ≡ t ∷ db.transactions)
          × (t.id ≡ db.next_id)
          × (t.flow ≡ expense)
          × (t.amount ≡ r.amount)
          × (t.fund_id ≡ r.fund_id)
          × (t.shift_id ≡ some r.shift_id)
          × (t.employee_id ≡ r.requested_by)
          × (find_expense db' id
              ≡ some (record r {
                status = approved;
                resolved_at = some now;
                resolved_by = some employee;
                resolution_note = remark;
                transaction_id = some t.id;
              })))
  unfolding find_expense
  approve_expense_lem =
      let (p, ne, (f, held, enough, funds), posted, written) =
        approve_expense_steps db now id employee remark found e in
      let take = moved expense r.amount in
      (
        p,
        ne,
        (
          f,
          held,
          leb_ℤ→≤ℤ r.amount f.balance enough,
          rw funds (find-update_self (λ f. f.id) r.fund_id take {s = f} db.funds (λ f. refl) held),
        ),
        (λ k other.
            rw funds (
              ground
                (arith, other, find-update (λ f. f.id) k r.fund_id take db.funds (λ f. refl)))),
        (
          _,
          posted,
          refl,
          refl,
          refl,
          refl,
          refl,
          refl,
          rw written (find-update_self (λ r. r.id) id _ {s = r} db.expenses (λ r. refl) found),
        ),
      )

  -- A successful approval leaves the part of every balance that the ledger does not explain as it
  -- was.
  pub approve_expense-basis : (f : ℕ) → basis f db' ≡ basis f db
  approve_expense-basis f = elim (Result-cases (request_post db now r)) [
    | inl (x, refused) ↦ absurd (approval_posts db now id employee remark found e refused)
    | inr (posted, done) ↦
        let shift : ShiftContext = record { id = r.shift_id; fund_id = r.fund_id } in
        let (_, _, funds, transactions, _) =
          approval_state db now id employee remark found e done
            (post_movement-expenses db now shift r.requested_by expense r.amount done) in
        basis-eq f posted db' funds transactions
        ∙ post_movement-basis db now shift r.requested_by expense r.amount done f
  ]

-- The reviews of one request, in any order.
pub data Review : Type 0 where
  approve : ℕ → Option ℕ → Review
  reject cancel : ℕ → ℕ → Review

unfoldable pub review : ℕ → ℕ → Review → Db → Result Db
review now id (approve employee remark) db = approve_expense db now id employee remark
review now id (reject employee reason) db = reject_expense db now id employee reason
review now id (cancel employee reason) db = cancel_expense db now id employee reason

-- The row that a review leaves.
row_after_review :
    (now id : ℕ) (v : Review) (db : Db) {r : ExpenseRequest} {db' : Db}
    → find_expense db id ≡ some r
    → review now id v db ≡ ok db'
    → (f : ExpenseRequest → ExpenseRequest) × (db'.expenses ≡ update (λ r. r.id) id f db.expenses)
      × ((s : ExpenseRequest) → (f s).id ≡ s.id)
      × (r.status ≡ pending)
      × (is_pending (f r).status ≡ false)
      × (IsReviewed r → IsReviewed (f r))
unfolding review
row_after_review now id (approve employee remark) db found e =
    let (p, ne, _, _, written) = approve_expense_steps db now id employee remark found e in
    (_, written, (λ s. refl), p, refl, λ s. ground arith)
row_after_review now id (reject employee reason) db found e =
    let (p, ne, _, _, written) = reject_expense_lem db now id employee found reason e in
    (_, written, (λ s. refl), p, refl, λ s. ground arith)
row_after_review now id (cancel employee reason) db found e =
    let (p, own, _, _, written) = cancel_expense_lem db now id employee found reason e in
    (_, written, (λ s. refl), p, refl, λ s. ground arith)

-- A successful review of a request keeps every request of the table reviewed as the policy says.
pub review-IsReviewed :
    (now id : ℕ) (v : Review) (db : Db) {r : ExpenseRequest} {db' : Db}
    → find_expense db id ≡ some r
    → All IsReviewed db.expenses
    → review now id v db ≡ ok db'
    → All IsReviewed db'.expenses
unfolding find_expense
review-IsReviewed now id v db {r} found a e =
    let (f, written, _, _, _, keeps) = row_after_review now id v db found e in
    rw written (
      All-update IsReviewed (λ r. r.id) id f {s = r} db.expenses a found
        (keeps (All-find IsReviewed (λ r. r.id) id {r = r} db.expenses a found)))

-- A request is reviewed once: after any successful review, no second one succeeds.
pub review_once :
    (now id : ℕ) (v : Review) (db : Db) {r : ExpenseRequest} {db' : Db}
    → find_expense db id ≡ some r
    → review now id v db ≡ ok db'
    → (later : ℕ) (w : Review) {db'' : Db} → review later id w db' ≢ ok db''
unfolding find_expense
review_once now id v db {r} {db'} found e later w again =
    let (f, written, keys, _, done, _) = row_after_review now id v db found e in
    let found' : find_expense db' id ≡ some (f r) =
      rw written (find-update_self (λ r. r.id) id f {s = r} db.expenses keys found) in
    let (_, _, _, still, _, _) = row_after_review later id w db' {r = f r} found' again in
    ground arith
