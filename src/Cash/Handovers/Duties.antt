-- ===== src/Cash/Handovers/Duties.antt =====
-- Who may do what to a handover, and in which state: the constraint that the rows keep.
use coffee_shop_be.Prelude.{
  ℕ, suc, ◌≡◌, ◌≢◌, Bool, true, false, Option, none, some, arith, ◌==◌, ◌&&◌, not, is_some, ◌⊎◌,
  if◌then◌else◌,
}
use coffee_shop_be.Prelude.Int.{pos, eqb_ℤ}
use coffee_shop_be.Prelude.Http.{ok}
use coffee_shop_be.Prelude.Table.{update, claim}
use coffee_shop_be.Cash.Types.{
  CashHandover, Fund, RequestStatus, pending, rejected, approved, cancelled, is_approved,
  SettlementStatus, not_required, awaiting, settled, is_bank, Db,
}
use coffee_shop_be.Cash.Access.{find_fund, settlement_sla_hours, set_balance, create_transaction}
use coffee_shop_be.Cash.Handovers.{
  find_handover, approve_row, settle_row, resolve_row, post_variance, post_unless, approve, reject,
  cancel, settle, register_deposit,
}
use coffee_shop_be.Cash.Handovers.Balances.{IsConsistent}

abbrev by_other : ℕ → Option ℕ → Bool
by_other requester none = false
by_other requester (some e) = not (e == requester)

abbrev by_requester : ℕ → Option ℕ → Bool
by_requester requester none = false
by_requester requester (some e) = e == requester

-- A pending row is unresolved, a review is by another employee, a cancellation by the requester.
abbrev pub resolution_ok : RequestStatus → ℕ → Option ℕ → Bool
resolution_ok pending requester resolver = not (is_some resolver)
resolution_ok approved requester resolver = by_other requester resolver
resolution_ok rejected requester resolver = by_other requester resolver
resolution_ok cancelled requester resolver = by_requester requester resolver

-- A settlement is of an approved row, by another employee, with the bank's reference; the
-- destination has its entry exactly if the row is approved and does not await the bank.
abbrev pub settlement_ok : SettlementStatus → CashHandover → Bool
settlement_ok not_required h =
    not (is_some h.settled_by)
    && not (is_some h.bank_reference)
    && (if is_approved h.status
        then is_some h.destination_transaction_id
        else not (is_some h.destination_transaction_id))
settlement_ok awaiting h =
    is_approved h.status && not (is_some h.settled_by) && not (is_some h.destination_transaction_id)
settlement_ok settled h =
    is_approved h.status
    && by_other h.requested_by h.settled_by
    && is_some h.bank_reference
    && is_some h.destination_transaction_id

pub record IsSound (h : CashHandover) : Type 0 where
  pub amounts : IsConsistent h
  pub resolution : resolution_ok h.status h.requested_by h.resolved_by ≡ true
  pub settlement : settlement_ok h.settlement h ≡ true

-- The row that an approval writes, in terms of the state before it.
abbrev pub approval_row : Db → ℕ → ℕ → CashHandover → Option ℕ → Fund → CashHandover → CashHandover
approval_row db now employee h remark d =
    let adjusted =
      post_variance
        (record db {
          funds = update (λ f. f.id) h.source_fund_id (set_balance h.retained_cash) db.funds;
        })
        h employee now in
    approve_row now employee remark (is_bank d.fund_type) (settlement_sla_hours db) adjusted.next_id
      (if is_bank d.fund_type then none else some (suc adjusted.next_id))
      (if eqb_ℤ h.variance_amount (pos 0) then none else some db.next_id)

module _ (db : Db) (now id employee : ℕ) {h : CashHandover} {db' : Db}
    (found : find_handover db id ≡ some h) where
  -- A rejection is by an employee other than the requester, of a pending row, and writes that row.
  pub reject_lem :
      (reason : ℕ)
      → reject db now id employee reason ≡ ok db'
      → (h.status ≡ pending)
        × (h.requested_by ≢ employee)
        × (db'.handovers
            ≡ update (λ h. h.id) id (resolve_row rejected now employee reason) db.handovers)
  unfolding reject find_handover
  reject_lem reason e = ground arith

  pub cancel_lem :
      (reason : ℕ)
      → cancel db now id employee reason ≡ ok db'
      → (h.status ≡ pending)
        × (h.requested_by ≡ employee)
        × (db'.handovers
            ≡ update (λ h. h.id) id (resolve_row cancelled now employee reason) db.handovers)
  unfolding cancel find_handover
  cancel_lem reason e = ground arith

  pub settle_lem :
      (to_upper_case : ℕ → ℕ) (reference evidence : ℕ)
      → settle to_upper_case db now id employee reference evidence ≡ ok db'
      → (h.status ≡ approved)
        × (h.settlement ≡ awaiting)
        × (h.requested_by ≢ employee)
        × (db'.handovers
            ≡ update
                (λ h. h.id)
                id
                (settle_row now employee (to_upper_case reference) evidence db.next_id)
                db.handovers)
  unfolding settle find_handover claim
  settle_lem to_upper_case reference evidence e = ground arith

  pub register_deposit_lem :
      (to_upper_case : ℕ → ℕ) (reference evidence : ℕ)
      → register_deposit to_upper_case db id employee reference evidence ≡ ok db'
      → (h.status ≡ approved)
        × (h.settlement ≡ awaiting)
        × (h.requested_by ≡ employee)
        × ((db' ≡ db)
            ⊎ (db'.handovers
                ≡ update
                    (λ h. h.id)
                    id
                    (λ h. record h {
                      bank_reference = some (to_upper_case reference);
                      evidence_reference = some evidence;
                    })
                    db.handovers))
  unfolding register_deposit find_handover
  register_deposit_lem to_upper_case reference evidence e = ground arith

  pub approve_lem :
      (remark : Option ℕ) {d : Fund}
      → find_fund db h.destination_fund_id ≡ some d
      → approve db now id employee remark ≡ ok db'
      → (h.status ≡ pending)
        × (h.requested_by ≢ employee)
        × (db'.handovers
            ≡ update (λ h. h.id) id (approval_row db now employee h remark d) db.handovers)
  unfolding approve find_handover find_fund post_variance post_unless create_transaction claim
  approve_lem remark destination e = ground arith
