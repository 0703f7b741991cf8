-- ===== src/Cash/Handovers.antt =====
-- cash-handovers.service.ts: a closed shift's cash is handed over to another fund, reviewed by a
-- second employee, and settled if the destination is a bank. Each operation is the body of its
-- serializable transaction: it returns the new state, or an error and no state. The row that the
-- source returns is the row of the new state.
pub mod Duties
pub mod Soundness
pub mod Lifecycle
pub mod Balances
use coffee_shop_be.Prelude.{
  ℕ, suc, ◌+◌, ◌*◌, Bool, false, ◌&&◌, ◌||◌, not, Option, none, some, ◌∷◌, ◌==◌, any, if◌then◌else◌,
  opt_eq, is_some,
}
use coffee_shop_be.Prelude.Int.{ℤ, pos, ◌-ℤ◌, abs, leb_ℤ, eqb_ℤ}
use coffee_shop_be.Prelude.Table.{find, update, claim}
use coffee_shop_be.Prelude.Http.{
  Result, ok, err, ◌>>=◌, ◌>>◌, guard, throw_if, or_throw, forbidden, conflict, not_found, internal,
}
use coffee_shop_be.Cash.Types.{
  Fund, FundType, bank, income, expense, is_cash, is_bank, same_type, CashierShift, is_open,
  RequestStatus, pending, approved, rejected, cancelled, is_pending, is_approved, not_required,
  awaiting, settled, is_awaiting, CashHandover, handover_requested, handover_approved,
  handover_settled, deposit_registered, handover_rejected, handover_cancelled, Db,
}
use coffee_shop_be.Cash.Access.{
  assert_active_employee, find_fund, find_active_fund, has_open_shift, log, create_transaction,
  add_balance, set_balance, settlement_sla_hours,
}

-- A row with the two funds that it refers to.
pub record HandoverView : Type 0 where
  pub row : CashHandover
  pub source : Fund
  pub destination : Fund

unfoldable pub find_handover : Db → ℕ → Option CashHandover
find_handover db id = find (λ h. h.id) id db.handovers

-- `findOrThrow`; foreign keys make both funds exist.
unfoldable pub find_or_throw : Db → ℕ → Result HandoverView
unfolding find_handover find_fund
find_or_throw db id = do
  h ← or_throw (find_handover db id) not_found
  source ← or_throw (find_fund db h.source_fund_id) not_found
  destination ← or_throw (find_fund db h.destination_fund_id) not_found
  ok (record { row = h; source = source; destination = destination })

-- `assertPending`.
abbrev pub assert_pending : RequestStatus → Result (Unit {0})
assert_pending status = guard (is_pending status) conflict

-- `assertFundsHaveNoOpenShift`: a bank destination has no shift to look for.
unfoldable pub assert_funds_have_no_open_shift : Db → ℕ → Fund → Result (Unit {0})
unfolding has_open_shift
assert_funds_have_no_open_shift db source_fund_id destination =
    throw_if
      (has_open_shift db source_fund_id
        || (is_cash destination.fund_type && has_open_shift db destination.id))
      conflict

abbrev update_handover : ℕ → (CashHandover → CashHandover) → Db → Db
update_handover id f db = record db { handovers = update (λ h. h.id) id f db.handovers }

-- The index `CashHandover_active_shift_key`: one pending or approved handover for a shift.
unfoldable pub has_active_handover : Db → ℕ → Bool
has_active_handover db shift_id =
    any (λ h. (h.shift_id == shift_id) && (is_pending h.status || is_approved h.status))
      db.handovers

-- `CashHandover_amounts_check`, where it does not hold by the way the row is built.
abbrev amounts_check : ℤ → ℤ → ℤ → Bool
amounts_check expected counted retained =
    leb_ℤ (pos 0) expected && leb_ℤ (pos 0) counted && leb_ℤ (pos 0) retained

abbrev new_handover : ℕ → CashierShift → ℕ → ℕ → ℕ → ℤ → ℤ → ℤ → CashHandover
new_handover id shift source destination employee actual reported retained = record {
  id = id;
  shift_id = shift.id;
  source_fund_id = source;
  destination_fund_id = destination;
  requested_by = employee;
  expected_cash = actual;
  counted_cash = reported;
  variance_amount = reported -ℤ actual;
  retained_cash = retained;
  transfer_amount = reported -ℤ retained;
  status = pending;
  resolved_at = none;
  resolved_by = none;
  resolution_note = none;
  settlement = not_required;
  settlement_due_at = none;
  settled_at = none;
  settled_by = none;
  bank_reference = none;
  evidence_reference = none;
  source_transaction_id = none;
  destination_transaction_id = none;
  variance_transaction_id = none;
}

insert_handover : Db → CashHandover → Db
unfolding log
insert_handover db h =
    log (record db { next_id = suc db.next_id; handovers = h ∷ db.handovers }) h.requested_by
      handover_requested h.id

-- `create`
unfoldable pub create : Db → ℕ → ℕ → ℕ → ℤ → Result Db
unfolding assert_active_employee find_fund find_active_fund assert_funds_have_no_open_shift
    insert_handover has_active_handover
create db employee_id shift_id destination_id retained = do
  assert_active_employee db employee_id
  shift ← or_throw (find (λ s. s.id) shift_id db.shifts) not_found
  guard (shift.employee_id == employee_id) forbidden
  throw_if (is_open shift.status) conflict
  source_id ← or_throw shift.fund_id conflict
  source ← or_throw (find_fund db source_id) conflict
  actual ← or_throw shift.actual_ending_cash conflict
  reported ← or_throw shift.reported_ending_cash conflict
  throw_if (source.deleted || not (is_cash source.fund_type)) conflict
  throw_if (source_id == destination_id) conflict
  destination ← or_throw (find_active_fund db destination_id) not_found
  assert_funds_have_no_open_shift db source_id destination
  guard (eqb_ℤ source.balance actual) conflict
  throw_if (leb_ℤ reported retained) conflict
  guard (amounts_check actual reported retained) internal
  throw_if (has_active_handover db shift_id) conflict
  ok (
      insert_handover db (
        new_handover db.next_id shift source_id destination_id employee_id actual reported
          retained))

-- `postDestinationEntry`: the fund is credited if it is active and of the type that was read.
unfoldable pub post_destination_entry : Db → CashHandover → ℕ → ℕ → FundType → Result Db
unfolding create_transaction
post_destination_entry db h employee_id date expected_type = do
  funds ←
      or_throw
        (claim (λ f. f.id) h.destination_fund_id
          (λ f. same_type f.fund_type expected_type && not f.deleted)
          (add_balance h.transfer_amount) db.funds)
        conflict
  ok (
      create_transaction (record db { funds = funds }) income h.transfer_amount date
        h.destination_fund_id none employee_id none)

-- `requiresSettlement ? null : await postDestinationEntry(...)`.
unfoldable pub post_unless : Bool → Db → CashHandover → ℕ → ℕ → FundType → Result Db
unfolding post_destination_entry
post_unless requires db h employee_id date fund_type =
    if requires then ok db else post_destination_entry db h employee_id date fund_type

-- The variance entry of `approve`: none for a variance of zero.
unfoldable pub post_variance : Db → CashHandover → ℕ → ℕ → Db
unfolding create_transaction
post_variance db h employee_id now =
    if eqb_ℤ h.variance_amount (pos 0)
    then db
    else create_transaction db (if leb_ℤ (pos 0) h.variance_amount then income else expense)
        (abs h.variance_amount) now h.source_fund_id none employee_id none

abbrev pub hour_ms : ℕ
hour_ms = 3_600_000

-- The row that `approve` writes.
abbrev approve_row :
    ℕ → ℕ → Option ℕ → Bool → ℕ → ℕ → Option ℕ → Option ℕ → CashHandover → CashHandover
approve_row now employee_id note requires hours source_tx destination_tx variance_tx h = record h {
  status = approved;
  resolved_at = some now;
  resolved_by = some employee_id;
  resolution_note = note;
  settlement = if requires then awaiting else not_required;
  settlement_due_at = if requires then some (now + hours * hour_ms) else none;
  source_transaction_id = some source_tx;
  destination_transaction_id = destination_tx;
  variance_transaction_id = variance_tx;
}

-- `approve`: `requires` is true for a bank destination, which is credited on settlement.
unfoldable pub approve : Db → ℕ → ℕ → ℕ → Option ℕ → Result Db
unfolding assert_active_employee find_or_throw assert_funds_have_no_open_shift post_variance
    create_transaction log
approve db now id employee_id note = do
  assert_active_employee db employee_id
  v ← find_or_throw db id
  assert_pending v.row.status
  throw_if (v.row.requested_by == employee_id) forbidden
  throw_if (v.source.deleted || not (is_cash v.source.fund_type) || v.destination.deleted) conflict
  assert_funds_have_no_open_shift db v.row.source_fund_id v.destination
  funds ←
      or_throw
        (claim (λ f. f.id) v.row.source_fund_id
          (λ f. not f.deleted && eqb_ℤ f.balance v.row.expected_cash)
          (set_balance v.row.retained_cash) db.funds)
        conflict
  let requires = is_bank v.destination.fund_type
  let adjusted = post_variance (record db { funds = funds }) v.row employee_id now
  let variance_tx = if eqb_ℤ v.row.variance_amount (pos 0) then none else some db.next_id
  let sent =
      create_transaction adjusted expense v.row.transfer_amount now v.row.source_fund_id none
        employee_id none
  posted ← post_unless requires sent v.row employee_id now v.destination.fund_type
  let destination_tx = if requires then none else some sent.next_id
  let row =
      approve_row now employee_id note requires (settlement_sla_hours db) adjusted.next_id
        destination_tx variance_tx
  ok (log (update_handover id row posted) employee_id handover_approved id)

-- A reference that was registered and is another one.
abbrev pub differs : Option ℕ → ℕ → Bool
differs none r = false
differs (some a) r = not (a == r)

-- The index `CashHandover_destinationFundId_bankReference_key`.
unfoldable pub reference_taken : Db → CashHandover → ℕ → Bool
reference_taken db h reference =
    any
      (λ g.
        not (g.id == h.id)
        && (g.destination_fund_id == h.destination_fund_id)
        && opt_eq g.bank_reference (some reference))
      db.handovers

abbrev settle_row : ℕ → ℕ → ℕ → ℕ → ℕ → CashHandover → CashHandover
settle_row now employee_id reference evidence tx h = record h {
  settlement = settled;
  settled_at = some now;
  settled_by = some employee_id;
  bank_reference = some reference;
  evidence_reference = some evidence;
  destination_transaction_id = some tx;
}

-- `toUpperCase` of a text is a parameter: texts are numbers here.
module _ (to_upper_case : ℕ → ℕ) where
  -- `settleInTransaction`, with the handling of a violated index by `settle`.
  unfoldable pub settle : Db → ℕ → ℕ → ℕ → ℕ → ℕ → Result Db
  unfolding assert_active_employee find_or_throw post_destination_entry reference_taken log
  settle db now id employee_id bank_reference evidence = do
    assert_active_employee db employee_id
    v ← find_or_throw db id
    guard (is_approved v.row.status && is_awaiting v.row.settlement) conflict
    throw_if (v.row.requested_by == employee_id) forbidden
    throw_if (v.destination.deleted || not (is_bank v.destination.fund_type)) conflict
    let reference = to_upper_case bank_reference
    throw_if (differs v.row.bank_reference reference || differs v.row.evidence_reference evidence)
        conflict
    posted ← post_destination_entry db v.row employee_id now bank
    throw_if (reference_taken db v.row reference) conflict
    ok (
        log (update_handover id (settle_row now employee_id reference evidence db.next_id) posted)
          employee_id handover_settled id)

  -- `registerDeposit`: the same evidence again changes nothing.
  unfoldable pub register_deposit : Db → ℕ → ℕ → ℕ → ℕ → Result Db
  unfolding assert_active_employee find_or_throw reference_taken log
  register_deposit db id employee_id bank_reference evidence = do
    assert_active_employee db employee_id
    v ← find_or_throw db id
    guard (is_approved v.row.status && is_awaiting v.row.settlement) conflict
    guard (v.row.requested_by == employee_id) forbidden
    throw_if (v.destination.deleted || not (is_bank v.destination.fund_type)) conflict
    let reference = to_upper_case bank_reference
    if is_some v.row.bank_reference || is_some v.row.evidence_reference
        then (if opt_eq v.row.bank_reference (some reference)
              && opt_eq v.row.evidence_reference (some evidence)
            then ok db
            else err conflict)
        else (if reference_taken db v.row reference
            then err conflict
            else ok (
                log
                  (update_handover id
                    (λ h. record h {
                      bank_reference = some reference;
                      evidence_reference = some evidence;
                    })
                    db)
                  employee_id deposit_registered id))

abbrev resolve_row : RequestStatus → ℕ → ℕ → ℕ → CashHandover → CashHandover
resolve_row status now employee_id note h = record h {
  status = status;
  resolved_at = some now;
  resolved_by = some employee_id;
  resolution_note = some note;
}

-- `reject`
unfoldable pub reject : Db → ℕ → ℕ → ℕ → ℕ → Result Db
unfolding assert_active_employee find_or_throw log
reject db now id employee_id reason = do
  assert_active_employee db employee_id
  v ← find_or_throw db id
  assert_pending v.row.status
  throw_if (v.row.requested_by == employee_id) forbidden
  ok (
      log (update_handover id (resolve_row rejected now employee_id reason) db) employee_id
        handover_rejected id)

-- `cancel`; the note is the text 'Cancelled by requester'.
unfoldable pub cancel : Db → ℕ → ℕ → ℕ → ℕ → Result Db
unfolding assert_active_employee find_or_throw log
cancel db now id employee_id cancelled_by_requester = do
  assert_active_employee db employee_id
  v ← find_or_throw db id
  assert_pending v.row.status
  guard (v.row.requested_by == employee_id) forbidden
  ok (
      log (update_handover id (resolve_row cancelled now employee_id cancelled_by_requester) db)
        employee_id handover_cancelled id)
