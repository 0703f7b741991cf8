-- ===== src/Cash/Handovers/Balances.antt =====
-- What a handover does to the funds: every change of a balance is posted to the ledger.
use coffee_shop_be.Prelude.{
  ◌∙◌, ℕ, ◌≡◌, ◌≢◌, Bool, true, false, Option, none, some, arith, inl, inr, ◌==◌, if◌then◌else◌,
}
use coffee_shop_be.Prelude.Int.{ℤ, ◌-ℤ◌, ◌+ℤ◌, int_laws, abs_pos, abs_neg, eqb_ℤ→eq}
use coffee_shop_be.Prelude.Http.{HttpError, Result-cases, ok, err, or_throw-eq_ok}
use coffee_shop_be.Prelude.Table.{claim-eq_some, find, update, claim}
use coffee_shop_be.Cash.Types.{CashHandover, Fund, FundType, income, expense, Db, is_bank, bank}
use coffee_shop_be.Cash.Access.{find_fund, create_transaction, set_balance, add_balance}
use coffee_shop_be.Cash.Ledger.{
  basis, balance_of, posted_to, balance_of-set, balance_of-add, balance_of-find, basis-eq,
}
use coffee_shop_be.Cash.Handovers.{
  find_or_throw, find_handover, approve, settle, post_unless, post_destination_entry, post_variance,
}

-- The amounts of a row, as `create` computes them.
pub record IsConsistent (h : CashHandover) : Type 0 where
  pub variance : h.variance_amount ≡ h.counted_cash -ℤ h.expected_cash
  pub transfer : h.transfer_amount ≡ h.counted_cash -ℤ h.retained_cash
  pub distinct : h.source_fund_id ≢ h.destination_fund_id

-- The credit of a fund that a claim found.
credit-basis :
    (f k : ℕ) (db : Db) (amount : ℤ) (date employee : ℕ) {r : Fund}
    → find (λ f. f.id) k db.funds ≡ some r
    → basis f (
        create_transaction
          (record db { funds = update (λ f. f.id) k (add_balance amount) db.funds })
          income
          amount
          date
          k
          none
          employee
          none)
      ≡ basis f db
unfolding basis create_transaction posted_to
credit-basis f k db amount date employee {r} e =
    rw (balance_of-add f k amount {r = r} db.funds e) (grind int_laws)

pub post_destination_entry-basis :
    (f : ℕ) (db : Db) (h : CashHandover) (employee date : ℕ) (t : FundType) {db' : Db}
    → post_destination_entry db h employee date t ≡ ok db'
    → basis f db' ≡ basis f db
unfolding post_destination_entry
post_destination_entry-basis f db h employee date t e =
    let (funds, claims, posted) = or_throw-eq_ok _ _ _ e in
    let (r, found, usable, written) = claim-eq_some (λ f. f.id) _ _ _ db.funds claims in
    cc (credit-basis f h.destination_fund_id db h.transfer_amount date employee found)

post_destination_entry-balance :
    (f : ℕ) (db : Db) (h : CashHandover) (employee date : ℕ) (t : FundType) {db' : Db}
    → post_destination_entry db h employee date t ≡ ok db'
    → balance_of f db'.funds ≡ (
        if h.destination_fund_id == f
        then balance_of f db.funds +ℤ h.transfer_amount
        else balance_of f db.funds)
unfolding post_destination_entry create_transaction
post_destination_entry-balance f db h employee date t e =
    let (funds, claims, posted) = or_throw-eq_ok _ _ _ e in
    let (r, found, usable, written) = claim-eq_some (λ f. f.id) _ _ _ db.funds claims in
    cc (balance_of-add f h.destination_fund_id h.transfer_amount {r = r} db.funds found)

post_variance-parts :
    (f : ℕ) (db : Db) (h : CashHandover) (employee now : ℕ)
    → ((post_variance db h employee now).funds ≡ db.funds)
      × (posted_to f (post_variance db h employee now).transactions ≡ (
          if h.source_fund_id == f
          then posted_to f db.transactions +ℤ h.variance_amount
          else posted_to f db.transactions))
unfolding post_variance posted_to create_transaction
post_variance-parts f db h employee now =
    grind (int_laws, abs_pos h.variance_amount, abs_neg h.variance_amount, eqb_ℤ→eq)

post_unless-basis :
    (f : ℕ) (db : Db) (h : CashHandover) (employee date : ℕ) (requires : Bool) (t : FundType)
    {db' : Db}
    → post_unless requires db h employee date t ≡ ok db'
    → basis f db' ≡ basis f db
unfolding post_unless
post_unless-basis f db h employee date true t e = cc
post_unless-basis f db h employee date false t e =
    post_destination_entry-basis f db h employee date t e

-- The state of `approve` after the source's entries.
sent_of : Db → CashHandover → ℕ → ℕ → Db
sent_of db h employee now =
    create_transaction
      (post_variance
        (record db {
          funds = update (λ f. f.id) h.source_fund_id (set_balance h.retained_cash) db.funds;
        })
        h employee now)
      expense h.transfer_amount now h.source_fund_id none employee none

-- The source pays the variance and the transfer out of what it held.
sent_of-basis :
    (f : ℕ) (db : Db) (h : CashHandover) (employee now : ℕ) {s : Fund}
    → IsConsistent h
    → find (λ f. f.id) h.source_fund_id db.funds ≡ some s
    → s.balance ≡ h.expected_cash
    → basis f (sent_of db h employee now) ≡ basis f db
unfolding sent_of basis create_transaction posted_to
sent_of-basis f db h employee now {s} c source held =
    let after = record db {
      funds = update (λ f. f.id) h.source_fund_id (set_balance h.retained_cash) db.funds;
    } in
    grind (
      int_laws,
      post_variance-parts f after h employee now,
      balance_of-set f h.source_fund_id h.retained_cash {r = s} db.funds source,
      balance_of-find h.source_fund_id {r = s} db.funds source,
      c.variance,
      c.transfer,
    )

-- What an approval has read and posted.
module _ (db : Db) (now id employee : ℕ) (remark : Option ℕ) {h : CashHandover} {s d : Fund}
    {db' : Db} (found : find_handover db id ≡ some h)
    (source : find_fund db h.source_fund_id ≡ some s)
    (destination : find_fund db h.destination_fund_id ≡ some d)
    (e : approve db now id employee remark ≡ ok db') where
  approve_posts :
      {posted : Db}
      → post_unless (is_bank d.fund_type) (sent_of db h employee now) h employee now d.fund_type
        ≡ ok posted
      → (s.balance ≡ h.expected_cash)
        × (db'.funds ≡ posted.funds)
        × (db'.transactions ≡ posted.transactions)
  unfolding approve find_or_throw sent_of claim find_fund
  approve_posts p = ground arith

  approve_needs_posting :
      {x : HttpError}
      → post_unless (is_bank d.fund_type) (sent_of db h employee now) h employee now d.fund_type
        ≢ err x
  unfolding approve find_or_throw sent_of claim find_fund
  approve_needs_posting p = ground arith

  -- A successful approval of a handover whose variance and transfer are those of its amounts, and
  -- whose two funds differ, leaves the part of every balance that the ledger does not explain as it
  -- was.
  pub approve-basis : (f : ℕ) → IsConsistent h → basis f db' ≡ basis f db
  unfolding find_fund
  approve-basis f c =
      elim (Result-cases (
        post_unless (is_bank d.fund_type) (sent_of db h employee now) h employee now d.fund_type)) [
          | inl (x, refused) ↦ absurd (approve_needs_posting refused)
          | inr (posted, p) ↦
              let (held, same_funds, same_transactions) = approve_posts p in
              basis-eq f posted db' same_funds same_transactions
              ∙ post_unless-basis f (sent_of db h employee now) h employee now (is_bank d.fund_type)
                  d.fund_type p
              ∙ sent_of-basis f db h employee now c source held
        ]

-- A settlement credits the bank with the transfer and posts it.
module _ (to_upper_case : ℕ → ℕ) (db : Db) (now id employee reference evidence : ℕ)
    {h : CashHandover} {db' : Db} (found : find_handover db id ≡ some h)
    (e : settle to_upper_case db now id employee reference evidence ≡ ok db') where
  settle_posts :
      {posted : Db}
      → post_destination_entry db h employee now bank ≡ ok posted
      → (db'.funds ≡ posted.funds) × (db'.transactions ≡ posted.transactions)
  unfolding settle find_or_throw
  settle_posts p = ground arith

  settle_needs_posting : {x : HttpError} → post_destination_entry db h employee now bank ≢ err x
  unfolding settle find_or_throw
  settle_needs_posting p = ground arith

  -- A successful settlement raises the destination's balance by the transfer, changes no other balance, and
  -- posts what it changes.
  pub settle_moves :
      (f : ℕ)
      → (balance_of f db'.funds ≡ (
          if h.destination_fund_id == f
          then balance_of f db.funds +ℤ h.transfer_amount
          else balance_of f db.funds))
        × (basis f db' ≡ basis f db)
  settle_moves f = elim (Result-cases (post_destination_entry db h employee now bank)) [
    | inl (x, refused) ↦ absurd (settle_needs_posting refused)
    | inr (posted, p) ↦
        let (same_funds, same_transactions) = settle_posts p in
        (
          rw same_funds (post_destination_entry-balance f db h employee now bank p),
          basis-eq f posted db' same_funds same_transactions
              ∙ post_destination_entry-basis f db h employee now bank p,
        )
  ]
