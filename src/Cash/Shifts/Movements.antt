-- ===== src/Cash/Shifts/Movements.antt =====
-- What the commands of a shift do to balances: every change is posted, and no balance falls below
-- zero.
use coffee_shop_be.Prelude.{
  ℕ, ◌≡◌, ◌≢◌, ◌∙◌, refl, true, false, none, some, arith, inl, inr, ◌||◌, ◌==◌, if◌then◌else◌, not,
  Bool-cases, ◌&&◌, List, ◌∷◌,
}
use coffee_shop_be.Prelude.Int.{ℤ, pos, ◌+ℤ◌, ◌-ℤ◌, ltb_ℤ, leb_ℤ, int_laws}
use coffee_shop_be.Prelude.Table.{find, update, claim-eq_some, find-update}
use coffee_shop_be.Prelude.Http.{
  HttpError, ok, err, internal, or_throw-eq_ok, guard-eq_ok, Result-cases,
}
use coffee_shop_be.Cash.Types.{Fund, CashFlow, income, expense, is_expense, Db}
use coffee_shop_be.Cash.Access.{ShiftContext, create_transaction, require_open_shift}
use coffee_shop_be.Cash.Ledger.{basis, basis-eq, balance_of, posted_to, signed}
use coffee_shop_be.Cash.Shifts.{
  fund_check, post_movement, add_movement, needs_approval, new_request, request_expense,
}

abbrev pub moved : CashFlow → ℤ → Fund → Fund
moved flow amount f = record f {
  balance = if is_expense flow then f.balance -ℤ amount else f.balance +ℤ amount;
}

-- A movement found an active fund, which holds the amount if it is an expense, and changed its
-- balance by the amount, with one entry on top of the ledger.
pub post_movement_lem :
    (db : Db) (now : ℕ) (shift : ShiftContext) (employee : ℕ) (flow : CashFlow) (amount : ℤ)
    {db' : Db}
    → post_movement db now shift employee flow amount ≡ ok db'
    → (r : Fund) × (find (λ f. f.id) shift.fund_id db.funds ≡ some r)
      × ((not r.deleted && (not (is_expense flow) || leb_ℤ amount r.balance)) ≡ true)
      × (db'
          ≡ create_transaction
              (record db { funds = update (λ f. f.id) shift.fund_id (moved flow amount) db.funds })
              flow
              amount
              now
              shift.fund_id
              (some shift.id)
              employee
              none)
unfolding post_movement
post_movement_lem db now shift employee flow amount e =
    let (funds, claims, e1) = or_throw-eq_ok _ _ _ e in
    let (kept, e2) = guard-eq_ok (fund_check shift.fund_id funds) internal _ e1 in
    let (positive, posted) = guard-eq_ok (ltb_ℤ (pos 0) amount) internal _ e2 in
    let (r, found, usable, written) = claim-eq_some (λ f. f.id) _ _ _ db.funds claims in
    (r, found, usable, cc)

balance_of-moved :
    (f k : ℕ) (flow : CashFlow) (amount : ℤ) {r : Fund} (funds : List Fund)
    → find (λ r. r.id) k funds ≡ some r
    → balance_of f (update (λ r. r.id) k (moved flow amount) funds) ≡ (
        if k == f
        then (if is_expense flow
            then balance_of f funds -ℤ amount
            else balance_of f funds +ℤ amount)
        else balance_of f funds)
unfolding balance_of
balance_of-moved f k flow amount funds e =
    ground (arith, find-update (λ r. r.id) f k (moved flow amount) funds (λ r. refl))

module _ (db : Db) (now : ℕ) (shift : ShiftContext) (employee : ℕ) (flow : CashFlow) (amount : ℤ)
    {db' : Db} (e : post_movement db now shift employee flow amount ≡ ok db') where
  pub post_movement-expenses : db'.expenses ≡ db.expenses
  unfolding create_transaction
  post_movement-expenses =
      let (r, found, usable, written) = post_movement_lem db now shift employee flow amount e in
      rw written refl

  pub post_movement-basis : (f : ℕ) → basis f db' ≡ basis f db
  unfolding basis create_transaction posted_to
  post_movement-basis f =
      let (r, found, usable, written) = post_movement_lem db now shift employee flow amount e in
      rw written
        (rw (balance_of-moved f shift.fund_id flow amount {r = r} db.funds found) (posts flow))
    where
      posts :
          (flow : CashFlow)
          → ((if shift.fund_id == f
                then (if is_expense flow
                    then balance_of f db.funds -ℤ amount
                    else balance_of f db.funds +ℤ amount)
                else balance_of f db.funds)
              -ℤ (if shift.fund_id == f
                  then signed flow amount +ℤ posted_to f db.transactions
                  else posted_to f db.transactions))
            ≡ (balance_of f db.funds -ℤ posted_to f db.transactions)
      posts income = grind int_laws
      posts expense = grind int_laws

module _ (db : Db) (now employee expected : ℕ) (flow : CashFlow) (amount : ℤ) {shift : ShiftContext}
    {db' : Db} (opened : require_open_shift db employee ≡ ok shift)
    (e : add_movement db now employee expected flow amount ≡ ok db') where
  -- A movement that succeeded and needs approval moves no money: the funds and the ledger stay, and one pending
  -- request by the cashier, on the fund of the expected shift, is added.
  pub add_movement_requested :
      needs_approval db flow amount ≡ true
      → (shift.id ≡ expected)
        × (db'.funds ≡ db.funds)
        × (db'.transactions ≡ db.transactions)
        × (db'.expenses ≡ new_request db.next_id employee shift amount ∷ db.expenses)
  unfolding add_movement request_expense
  add_movement_requested above = ground arith

  posted_state :
      {posted : Db}
      → needs_approval db flow amount ≡ false
      → post_movement db now shift employee flow amount ≡ ok posted
      → (db'.funds ≡ posted.funds)
        × (db'.transactions ≡ posted.transactions)
        × (db'.expenses ≡ posted.expenses)
  unfolding add_movement
  posted_state below p = ground arith

  posting_done :
      {x : HttpError}
      → needs_approval db flow amount ≡ false
      → post_movement db now shift employee flow amount ≢ err x
  unfolding add_movement
  posting_done below p = ground arith

  -- A movement that succeeded and needs no approval is posted on the cashier's fund, if the fund holds it, and
  -- adds no request.
  pub add_movement_posted :
      needs_approval db flow amount ≡ false
      → (r : Fund) × (find (λ f. f.id) shift.fund_id db.funds ≡ some r)
        × ((not r.deleted && (not (is_expense flow) || leb_ℤ amount r.balance)) ≡ true)
        × (db'.funds ≡ update (λ f. f.id) shift.fund_id (moved flow amount) db.funds)
        × (db'.expenses ≡ db.expenses)
  unfolding create_transaction
  add_movement_posted below =
      elim (Result-cases (post_movement db now shift employee flow amount)) [
        | inl (x, refused) ↦ absurd (posting_done below refused)
        | inr (posted, done) ↦
            let (funds, transactions, expenses) = posted_state below done in
            let (r, found, usable, written) =
              post_movement_lem db now shift employee flow amount done in
            (r, found, usable, rw (funds, written) refl, rw (expenses, written) refl)
      ]

  -- A movement that succeeded, posted or turned into a request, leaves the part of every balance
  -- that the ledger does not explain as it was.
  pub add_movement-basis : (f : ℕ) → basis f db' ≡ basis f db
  add_movement-basis f = elim (Bool-cases (needs_approval db flow amount)) [
    | inl above ↦
        let (_, funds, transactions, _) = add_movement_requested above in
        basis-eq f db db' funds transactions
    | inr below ↦ elim (Result-cases (post_movement db now shift employee flow amount)) [
      | inl (x, refused) ↦ absurd (posting_done below refused)
      | inr (posted, done) ↦
          let (funds, transactions, _) = posted_state below done in
          basis-eq f posted db' funds transactions
          ∙ post_movement-basis db now shift employee flow amount done f
    ]
  ]
