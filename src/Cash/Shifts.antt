-- ===== src/Cash/Shifts.antt =====
-- cashier-shifts.service.ts: a cashier opens a shift on a cash fund, moves cash, asks for expenses
-- that a second employee reviews, and closes the shift. Each operation is the body of its
-- transaction; the idempotent execution around it is Durable/Idempotency.antt.
pub mod Reconciliation
pub mod Movements
pub mod Resolved
pub mod Reviews
pub mod Settled
pub mod Closing
pub mod Reconciled
use coffee_shop_be.Prelude.{
  ℕ, suc, Bool, true, false, ◌&&◌, ◌||◌, not, Option, none, some, List, ◌∷◌, ◌==◌, any, count, ltb,
  if◌then◌else◌, opt_eq, is_some,
}
use coffee_shop_be.Prelude.Int.{ℤ, pos, ◌-ℤ◌, abs, leb_ℤ, ltb_ℤ, eqb_ℤ}
use coffee_shop_be.Prelude.Table.{find, update, claim}
use coffee_shop_be.Prelude.Http.{
  Result, ok, err, ◌>>=◌, ◌>>◌, guard, throw_if, or_throw, forbidden, conflict, not_found,
  bad_request, internal,
}
use coffee_shop_be.Cash.Types.{
  Fund, CashFlow, income, expense, is_expense, is_cash, CashierShift, is_open, open_, closed,
  RequestStatus, pending, approved, rejected, cancelled, is_pending, ExpenseRequest, Action,
  shift_opened, movement_created, shift_closed, expense_requested, expense_approved,
  expense_rejected, expense_cancelled, expense_approval_threshold, shift_discrepancy_note_threshold,
  Db,
}
use coffee_shop_be.Cash.Access.{
  assert_active_employee, find_fund, find_active_fund, log, create_transaction, add_balance,
  cash_control_threshold, ShiftContext, require_open_shift,
}
use coffee_shop_be.Cash.Shifts.Reconciliation.{Sales, calculate_reconciliation}

-- The indexes `CashierShift_one_open_per_employee_idx` and `CashierShift_one_open_per_fund_idx`.
unfoldable pub has_rival : Db → ℕ → ℕ → Bool
has_rival db employee_id fund_id =
    any
      (λ s. is_open s.status && ((s.employee_id == employee_id) || opt_eq s.fund_id (some fund_id)))
      db.shifts

-- The fund is the source of a pending handover.
unfoldable pub source_is_pending : Db → ℕ → Bool
source_is_pending db fund_id =
    any (λ h. (h.source_fund_id == fund_id) && is_pending h.status) db.handovers

abbrev pub new_shift : ℕ → ℕ → Fund → ℤ → CashierShift
new_shift id employee_id fund starting_cash = record {
  id = id;
  employee_id = employee_id;
  fund_id = some fund.id;
  status = open_;
  starting_cash = starting_cash;
  expected_starting_cash = fund.balance;
  opening_difference = starting_cash -ℤ fund.balance;
  reported_ending_cash = none;
  actual_ending_cash = none;
  closed_at = none;
  closing_note = none;
}

-- `open`
unfoldable pub open_shift : Db → ℕ → ℕ → ℤ → Result Db
unfolding assert_active_employee find_fund find_active_fund source_is_pending has_rival log
open_shift db employee_id fund_id starting_cash = do
  assert_active_employee db employee_id
  fund ← or_throw (find_active_fund db fund_id) not_found
  guard (is_cash fund.fund_type) conflict
  throw_if (source_is_pending db fund.id) conflict
  throw_if (has_rival db employee_id fund.id) conflict
  guard (leb_ℤ (pos 0) starting_cash) internal
  ok (
      log
        (record db {
          next_id = suc db.next_id;
          shifts = new_shift db.next_id employee_id fund starting_cash ∷ db.shifts;
        })
        employee_id shift_opened db.next_id)

-- The CHECK constraint `Fund_balance_non_negative_check`, on the fund that was written.
abbrev pub fund_check : ℕ → List Fund → Bool
fund_check id funds = elim (find (λ f. f.id) id funds) [
  | none ↦ true
  | some f ↦ leb_ℤ (pos 0) f.balance
]

-- `postMovement`: an expense needs the balance; the claim is `updateMany` on the fund. The database
-- checks the balance of the fund, and that the amount of an entry is positive.
unfoldable pub post_movement : Db → ℕ → ShiftContext → ℕ → CashFlow → ℤ → Result Db
unfolding create_transaction
post_movement db now shift employee_id flow amount = do
  funds ←
      or_throw
        (claim (λ f. f.id) shift.fund_id
          (λ f. not f.deleted && (not (is_expense flow) || leb_ℤ amount f.balance))
          (λ f. record f {
            balance =
                if is_expense flow then f.balance -ℤ amount else (add_balance amount f).balance;
          })
          db.funds)
        conflict
  guard (fund_check shift.fund_id funds) internal
  guard (ltb_ℤ (pos 0) amount) internal
  ok (
      create_transaction (record db { funds = funds }) flow amount now shift.fund_id (some shift.id)
        employee_id none)

abbrev pub new_request : ℕ → ℕ → ShiftContext → ℤ → ExpenseRequest
new_request id employee_id shift amount = record {
  id = id;
  amount = amount;
  requested_by = employee_id;
  shift_id = shift.id;
  fund_id = shift.fund_id;
  status = pending;
  resolved_at = none;
  resolved_by = none;
  resolution_note = none;
  transaction_id = none;
}

-- An expense from the threshold on needs approval.
unfoldable pub needs_approval : Db → CashFlow → ℤ → Bool
needs_approval db flow amount =
    is_expense flow && leb_ℤ (cash_control_threshold db expense_approval_threshold) amount

unfoldable pub request_expense : Db → ℕ → ShiftContext → ℤ → Db
unfolding log
request_expense db employee_id shift amount =
    log
      (record db {
        next_id = suc db.next_id;
        expenses = new_request db.next_id employee_id shift amount ∷ db.expenses;
      })
      employee_id expense_requested db.next_id

-- `addMovement`
unfoldable pub add_movement : Db → ℕ → ℕ → ℕ → CashFlow → ℤ → Result Db
unfolding assert_active_employee log
add_movement db now employee_id expected_shift_id flow amount = do
  assert_active_employee db employee_id
  shift ← require_open_shift db employee_id
  guard (shift.id == expected_shift_id) conflict
  if needs_approval db flow amount then ok (request_expense db employee_id shift amount) else (do
    posted ← post_movement db now shift employee_id flow amount
    ok (log posted employee_id movement_created db.next_id))

-- `findExpenseRequestOrThrow` and its relations.
unfoldable pub find_expense : Db → ℕ → Option ExpenseRequest
find_expense db id = find (λ r. r.id) id db.expenses

-- The request is still attached to an open shift on its active cash fund.
abbrev pub still_attached : CashierShift → Fund → ExpenseRequest → Bool
still_attached shift fund r =
    is_open shift.status
    && opt_eq shift.fund_id (some r.fund_id)
    && not fund.deleted
    && is_cash fund.fund_type

abbrev pub resolve_request :
    RequestStatus → ℕ → ℕ → Option ℕ → Option ℕ → ExpenseRequest → ExpenseRequest
resolve_request status now employee_id note transaction_id r = record r {
  status = status;
  resolved_at = some now;
  resolved_by = some employee_id;
  resolution_note = note;
  transaction_id = transaction_id;
}

-- `approveExpenseRequest`
unfoldable pub approve_expense : Db → ℕ → ℕ → ℕ → Option ℕ → Result Db
unfolding assert_active_employee find_expense find_fund log
approve_expense db now id employee_id note = do
  assert_active_employee db employee_id
  r ← or_throw (find_expense db id) not_found
  shift ← or_throw (find (λ s. s.id) r.shift_id db.shifts) not_found
  fund ← or_throw (find_fund db r.fund_id) not_found
  guard (is_pending r.status) conflict
  throw_if (r.requested_by == employee_id) forbidden
  guard (still_attached shift fund r) conflict
  posted ←
      post_movement db now (record { id = r.shift_id; fund_id = r.fund_id }) r.requested_by expense
        r.amount
  expenses ←
      or_throw
        (claim (λ r. r.id) id (λ r. is_pending r.status)
          (resolve_request approved now employee_id note (some db.next_id)) posted.expenses)
        conflict
  ok (log (record posted { expenses = expenses }) employee_id expense_approved id)

-- `resolveExpenseRequest`; `by_requester` is `requireRequester`, and its absence
-- `requireDifferentEmployee`.
unfoldable pub resolve_expense : Db → ℕ → ℕ → ℕ → RequestStatus → ℕ → Bool → Action → Result Db
unfolding assert_active_employee find_expense log
resolve_expense db now id employee_id status note by_requester action = do
  assert_active_employee db employee_id
  r ← or_throw (find_expense db id) not_found
  guard (is_pending r.status) conflict
  guard
      (if by_requester then r.requested_by == employee_id else not (r.requested_by == employee_id))
      forbidden
  expenses ←
      or_throw
        (claim (λ r. r.id) id (λ r. is_pending r.status)
          (λ r. record r {
            status = status;
            resolved_at = some now;
            resolved_by = some employee_id;
            resolution_note = some note;
          })
          db.expenses)
        conflict
  ok (log (record db { expenses = expenses }) employee_id action id)

-- `rejectExpenseRequest` and `cancelExpenseRequest`.
unfoldable pub reject_expense : Db → ℕ → ℕ → ℕ → ℕ → Result Db
unfolding resolve_expense
reject_expense db now id employee_id reason =
    resolve_expense db now id employee_id rejected reason false expense_rejected

unfoldable pub cancel_expense : Db → ℕ → ℕ → ℕ → ℕ → Result Db
unfolding resolve_expense
cancel_expense db now id employee_id cancelled_by_requester =
    resolve_expense db now id employee_id cancelled cancelled_by_requester true expense_cancelled

-- The expense requests of the shift that are pending.
unfoldable pub pending_expenses : Db → ℕ → ℕ
pending_expenses db shift_id =
    count (λ r. (r.shift_id == shift_id) && is_pending r.status) db.expenses

unfoldable pub unresolved_payments : Sales → ℕ → ℕ
unresolved_payments sales shift_id =
    count (λ a. opt_eq a.shift_id (some shift_id) && a.unresolved) sales.attempts

unfoldable pub active_sessions : Sales → ℕ → ℕ
active_sessions sales shift_id =
    count (λ s. opt_eq s.shift_id (some shift_id) && s.active) sales.sessions

-- A difference from the threshold on wants a note.
unfoldable pub needs_note : Db → ℤ → Bool
needs_note db difference =
    not (eqb_ℤ difference (pos 0))
    && leb_ℤ (cash_control_threshold db shift_discrepancy_note_threshold) (abs difference)

abbrev pub own_open_shift : ℕ → CashierShift → Bool
own_open_shift employee_id s = (s.employee_id == employee_id) && is_open s.status

abbrev pub close_row : ℕ → ℤ → ℤ → Option ℕ → CashierShift → CashierShift
close_row now reported actual closing_note s = record s {
  status = closed;
  closed_at = some now;
  reported_ending_cash = some reported;
  actual_ending_cash = some actual;
  closing_note = closing_note;
}

-- The CHECK constraint `CashierShift_cash_non_negative_check`, on the cash that a closing writes.
abbrev pub cash_check : ℤ → ℤ → Bool
cash_check reported actual = leb_ℤ (pos 0) reported && leb_ℤ (pos 0) actual

-- `close`
unfoldable pub close_shift : Db → Sales → ℕ → ℕ → ℕ → ℤ → Option ℕ → Result Db
unfolding assert_active_employee log
close_shift db sales now employee_id expected_shift_id reported closing_note = do
  assert_active_employee db employee_id
  shift ← or_throw (find (λ s. s.id) expected_shift_id db.shifts) conflict
  guard (own_open_shift employee_id shift) conflict
  throw_if (ltb 0 (pending_expenses db shift.id)) conflict
  throw_if (ltb 0 (unresolved_payments sales shift.id)) conflict
  throw_if (ltb 0 (active_sessions sales shift.id)) conflict
  let actual = (calculate_reconciliation db sales shift).actual_ending_cash
  let difference = reported -ℤ actual
  throw_if (needs_note db difference && not (is_some closing_note)) bad_request
  shifts ←
      or_throw
        (claim (λ s. s.id) shift.id (λ s. is_open s.status)
          (close_row now reported actual closing_note) db.shifts)
        conflict
  guard (cash_check reported actual) internal
  ok (log (record db { shifts = shifts }) employee_id shift_closed shift.id)
