-- ===== src/Cash/Tests/ShiftTests.antt =====
-- The laws of shifts, expenses and funds at the shop, with a shift of the cashier that is open.
use coffee_shop_be.Prelude.{
  ℕ, ◌≡◌, ◌≢◌, refl, true, false, Option, none, some, [], ◌∷◌, arith, ◌||◌, ◌⊎◌, contains,
}
use coffee_shop_be.Prelude.Int.{pos, ◌+ℤ◌, ◌-ℤ◌, ◌≤ℤ◌, abs, leb_ℤ}
use coffee_shop_be.Prelude.Table.{All, find, claim, update}
use coffee_shop_be.Prelude.Http.{Result, ok, err}
use coffee_shop_be.Cash.Types.{
  Fund, cash, CashierShift, ExpenseRequest, CashTransaction, income, expense, open_, closed,
  approved, rejected, pending, Db, SettingValue, number, SettingKey, expense_approval_threshold,
  shift_discrepancy_note_threshold, handover_settlement_sla_hours,
}
use coffee_shop_be.Cash.Access.{
  find_fund, find_active_fund, require_open_shift, ShiftContext, has_open_shift,
  cash_control_threshold,
}
use coffee_shop_be.Cash.Ledger.{basis, balance_of}
use coffee_shop_be.Cash.Shifts.{
  open_shift, close_shift, pending_expenses, unresolved_payments, active_sessions, needs_note,
  needs_approval, new_request, add_movement, approve_expense, post_movement, request_expense,
  find_expense,
}
use coffee_shop_be.Cash.Shifts.Reconciliation.{
  Sales, paid, calculate_reconciliation, sum_where, is_refund_entry, refunded_in,
}
use coffee_shop_be.Cash.Shifts.Movements.{add_movement-basis}
use coffee_shop_be.Cash.Shifts.Reviews.{
  IsReviewed, approve_expense_lem, approve_expense-basis, approve, reject, review,
  review-IsReviewed, review_once,
}
use coffee_shop_be.Cash.Shifts.Closing.{
  IsExclusive, close_shift_lem, close_shift_blocks, open_shift-IsExclusive,
}
use coffee_shop_be.Cash.Shifts.Reconciled.{IsWellPosted, posted_by, reconciliation-posted_by}
use coffee_shop_be.Cash.Funds.{remove_fund, update_fund, has_pending_handover}
use coffee_shop_be.Cash.Funds.Guards.{remove_fund_lem, update_fund_lem}
use coffee_shop_be.Cash.Tests.{shop, till, account}

abbrev till_shift : CashierShift
till_shift = record {
  id = 21;
  employee_id = 1;
  fund_id = some 10;
  status = open_;
  starting_cash = pos 50_000;
  expected_starting_cash = pos 50_000;
  opening_difference = pos 0;
  reported_ending_cash = none;
  actual_ending_cash = none;
  closed_at = none;
  closing_note = none;
}

abbrev context : ShiftContext
context = record { id = 21; fund_id = 10 }

-- Expenses from 30,000 on need approval, and discrepancies from 500 on a note.
abbrev limits : SettingKey → Option SettingValue
limits expense_approval_threshold = some (number (pos 30_000))
limits shift_discrepancy_note_threshold = some (number (pos 500))
limits handover_settlement_sla_hours = none

abbrev open_shop : Db
open_shop = record shop { shifts = till_shift ∷ []; handovers = []; settings = limits }

abbrev no_sales : Sales
no_sales = record { invoices = []; refunds = []; cash_refunds = []; attempts = []; sessions = [] }

-- The state after a command that succeeds.
abbrev state_of : Db → Result Db → Db
state_of db (ok db') = db'
state_of db (err e) = db

abbrev requested_shop : Db
requested_shop = request_expense open_shop 1 context (pos 40_000)

opened : require_open_shift open_shop 1 ≡ ok context
unfolding require_open_shift find
opened = refl

requested : add_movement open_shop 9 1 21 expense (pos 40_000) ≡ ok requested_shop
unfolding add_movement require_open_shift needs_approval cash_control_threshold request_expense find
requested = refl

abbrev posted_shop : Db
posted_shop = state_of open_shop (add_movement open_shop 9 1 21 expense (pos 2_000))

posted : add_movement open_shop 9 1 21 expense (pos 2_000) ≡ ok posted_shop
unfolding add_movement require_open_shift needs_approval cash_control_threshold post_movement claim
    find update ◌-ℤ◌
posted = refl

add_movement-basis_example : basis 10 posted_shop ≡ basis 10 open_shop
add_movement-basis_example =
    add_movement-basis open_shop 9 1 21 expense (pos 2_000) {shift = context} opened posted 10

abbrev moved_shop : Db
moved_shop = state_of open_shop (post_movement open_shop 9 context 1 expense (pos 50_000))

abbrev request : ExpenseRequest
request = new_request 50 1 context (pos 40_000)

abbrev approved_expense : Db
approved_expense = state_of requested_shop (approve_expense requested_shop 10 50 2 none)

approval : approve_expense requested_shop 10 50 2 none ≡ ok approved_expense
unfolding approve_expense request_expense post_movement claim find update ◌-ℤ◌
approval = refl

approve_expense_lem_example :
    (request.status ≡ pending)
    × (request.requested_by ≢ 2)
    × ((f : Fund) × (find (λ f. f.id) 10 requested_shop.funds ≡ some f)
        × (pos 40_000 ≤ℤ f.balance)
        × (find (λ f. f.id) 10 approved_expense.funds
            ≡ some (record f { balance = f.balance -ℤ pos 40_000 })))
    × ((k : ℕ)
        → k ≢ 10
        → find (λ f. f.id) k approved_expense.funds ≡ find (λ f. f.id) k requested_shop.funds)
    × ((t : CashTransaction) × (approved_expense.transactions ≡ t ∷ requested_shop.transactions)
        × (t.id ≡ requested_shop.next_id)
        × (t.flow ≡ expense)
        × (t.amount ≡ pos 40_000)
        × (t.fund_id ≡ 10)
        × (t.shift_id ≡ some 21)
        × (t.employee_id ≡ 1)
        × (find_expense approved_expense 50
            ≡ some (record request {
              status = approved;
              resolved_at = some 10;
              resolved_by = some 2;
              resolution_note = none;
              transaction_id = some t.id;
            })))
unfolding request_expense find_expense find
approve_expense_lem_example =
    approve_expense_lem requested_shop 10 50 2 none {r = request} refl approval

approve_expense-basis_example : basis 10 approved_expense ≡ basis 10 requested_shop
unfolding request_expense find_expense find
approve_expense-basis_example =
    approve_expense-basis requested_shop 10 50 2 none {r = request} refl approval 10

review-IsReviewed_example : All IsReviewed approved_expense.expenses
unfolding request_expense find_expense find review
review-IsReviewed_example =
    review-IsReviewed 10 50 (approve 2 none) requested_shop {r = request} refl
      (record { resolution = refl; entry = refl }, tt) approval

review_once_example : review 11 50 (reject 2 5) approved_expense ≢ ok shop
unfolding request_expense find_expense find review
review_once_example =
    review_once 10 50 (approve 2 none) requested_shop {r = request} refl approval 11 (reject 2 5)

abbrev quiet_shop : Db
quiet_shop = record open_shop { expenses = [] }

abbrev closed_shop : Db
closed_shop = state_of open_shop (close_shift open_shop no_sales 12 1 21 (pos 49_900) none)

closing : close_shift open_shop no_sales 12 1 21 (pos 49_900) none ≡ ok closed_shop
unfolding close_shift pending_expenses unresolved_payments active_sessions needs_note
    calculate_reconciliation sum_where cash_control_threshold claim find ◌-ℤ◌ ◌+ℤ◌ abs
closing = refl

-- A request that was reviewed before its shift closed.
abbrev reviewed_shop : Db
reviewed_shop = record open_shop {
  expenses = record request { status = rejected; resolved_by = some 2 } ∷ [];
}

abbrev closed_reviewed : Db
closed_reviewed =
    state_of reviewed_shop (close_shift reviewed_shop no_sales 12 1 21 (pos 49_900) none)

closing_reviewed : close_shift reviewed_shop no_sales 12 1 21 (pos 49_900) none ≡ ok closed_reviewed
unfolding close_shift pending_expenses unresolved_payments active_sessions needs_note
    calculate_reconciliation sum_where cash_control_threshold claim find ◌-ℤ◌ ◌+ℤ◌ abs
closing_reviewed = refl

close_shift_blocks_example : approve_expense closed_reviewed 13 50 2 none ≢ ok shop
unfolding find_expense find close_shift pending_expenses unresolved_payments active_sessions
    needs_note calculate_reconciliation sum_where cash_control_threshold claim ◌-ℤ◌ ◌+ℤ◌ abs
close_shift_blocks_example =
    close_shift_blocks reviewed_shop no_sales 12 1 21 (pos 49_900) none {s = till_shift} refl
      closing_reviewed 13 50 2 none {r = record request { status = rejected; resolved_by = some 2 }}
      refl refl

shop-IsExclusive : IsExclusive shop.shifts
shop-IsExclusive = record { employees = λ k. omega arith; funds = λ k. omega arith }

abbrev reopened_shop : Db
reopened_shop = state_of shop (open_shift shop 2 11 (pos 7_000))

reopening : open_shift shop 2 11 (pos 7_000) ≡ ok reopened_shop
unfolding open_shift find
reopening = refl

open_shift-IsExclusive_example : IsExclusive reopened_shop.shifts
open_shift-IsExclusive_example =
    open_shift-IsExclusive shop 2 11 (pos 7_000) shop-IsExclusive reopening

-- One cash sale of 5,000 and one movement of 2,000 out of the till.
abbrev sale_entry : CashTransaction
sale_entry = record {
  id = 40;
  flow = income;
  amount = pos 5_000;
  transaction_date = 8;
  fund_id = 10;
  shift_id = some 21;
  employee_id = 1;
  invoice_id = some 60;
}

abbrev selling_shop : Db
selling_shop = record posted_shop { transactions = sale_entry ∷ posted_shop.transactions }

abbrev one_sale : Sales
one_sale = record no_sales {
  invoices =
      record {
        id = 60;
        shift_id = some 21;
        status = paid;
        by_cash = true;
        total_amount = pos 5_000;
      }
      ∷ [];
}

selling_shop-IsWellPosted : All (IsWellPosted one_sale 21) selling_shop.transactions
unfolding add_movement require_open_shift needs_approval cash_control_threshold post_movement claim
    find is_refund_entry update ◌-ℤ◌
selling_shop-IsWellPosted = ((λ p. refl, λ p. cc), ((λ p. cc, λ p. refl), tt))

reconciliation-posted_by_example :
    (calculate_reconciliation selling_shop one_sale till_shift).actual_ending_cash
    ≡ pos 50_000 +ℤ posted_by 21 selling_shop.transactions
unfolding calculate_reconciliation sum_where refunded_in add_movement require_open_shift
    needs_approval cash_control_threshold post_movement claim find is_refund_entry ◌+ℤ◌ update ◌-ℤ◌
reconciliation-posted_by_example =
    reconciliation-posted_by selling_shop one_sale till_shift selling_shop-IsWellPosted refl refl

abbrev sold_out : Db
sold_out = state_of selling_shop (close_shift selling_shop one_sale 12 1 21 (pos 53_000) none)

selling_closed : close_shift selling_shop one_sale 12 1 21 (pos 53_000) none ≡ ok sold_out
unfolding close_shift pending_expenses unresolved_payments active_sessions needs_note
    calculate_reconciliation sum_where refunded_in add_movement require_open_shift needs_approval
    cash_control_threshold post_movement claim find is_refund_entry ◌-ℤ◌ ◌+ℤ◌ abs update
selling_closed = refl

close_shift_lem_example :
    (till_shift.employee_id ≡ 1)
    × (till_shift.status ≡ open_)
    × (find (λ s. s.id) 21 sold_out.shifts
        ≡ some (record till_shift {
          status = closed;
          closed_at = some 12;
          reported_ending_cash = some (pos 53_000);
          actual_ending_cash = some (pos 50_000 +ℤ posted_by 21 sold_out.transactions);
          closing_note = none;
        }))
    × ((k : ℕ)
        → k ≢ 21
        → find (λ s. s.id) k sold_out.shifts ≡ find (λ s. s.id) k selling_shop.shifts)
    × (sold_out.funds ≡ selling_shop.funds)
    × (sold_out.transactions ≡ selling_shop.transactions)
    × All (λ r. r.shift_id ≡ 21 → r.status ≢ pending) sold_out.expenses
    × All (λ a. a.shift_id ≡ some 21 → a.unresolved ≡ false) one_sale.attempts
    × All (λ o. o.shift_id ≡ some 21 → o.active ≡ false) one_sale.sessions
    × (◌≡◌ {A = Option ℕ} none none
        → let cash = pos 50_000 +ℤ posted_by 21 sold_out.transactions in
          (pos 53_000 ≡ cash)
          ⊎ (leb_ℤ
                (cash_control_threshold selling_shop shift_discrepancy_note_threshold)
                (abs (pos 53_000 -ℤ cash))
              ≡ false))
unfolding calculate_reconciliation sum_where refunded_in add_movement require_open_shift
    needs_approval cash_control_threshold post_movement claim find is_refund_entry ◌+ℤ◌ update ◌-ℤ◌
close_shift_lem_example =
    close_shift_lem selling_shop one_sale 12 1 21 (pos 53_000) none {s = till_shift} refl
      selling_shop-IsWellPosted refl refl selling_closed

abbrev emptied_shop : Db
emptied_shop = state_of open_shop (remove_fund open_shop 12 2)

removal : remove_fund open_shop 12 2 ≡ ok emptied_shop
unfolding remove_fund find
removal = refl

remove_fund_lem_example :
    (account.deleted ≡ false)
    × (account.balance ≡ pos 0)
    × (has_open_shift open_shop 12 ≡ false)
    × (has_pending_handover open_shop 12 ≡ false)
    × (find_active_fund emptied_shop 12 ≡ none)
    × ((k : ℕ) → basis k emptied_shop ≡ basis k open_shop)
unfolding find_fund find
remove_fund_lem_example = remove_fund_lem open_shop 12 2 {f = account} refl removal

abbrev renamed_shop : Db
renamed_shop = state_of open_shop (update_fund (λ n. n) open_shop 10 2 (some 105) none)

renaming : update_fund (λ n. n) open_shop 10 2 (some 105) none ≡ ok renamed_shop
unfolding update_fund find
renaming = refl

update_fund_lem_example :
    ((k : ℕ)
      → (balance_of k renamed_shop.funds ≡ balance_of k open_shop.funds)
        × (basis k renamed_shop ≡ basis k open_shop))
    × ((contains 10 [] || has_pending_handover open_shop 10 || has_open_shift open_shop 10) ≡ true
        → (f' : Fund) × (find_fund renamed_shop 10 ≡ some f') × (f'.fund_type ≡ cash))
unfolding find_fund find
update_fund_lem_example =
    update_fund_lem (λ n. n) open_shop 10 2 (some 105) none {f = till} refl renaming
