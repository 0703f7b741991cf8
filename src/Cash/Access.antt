-- ===== src/Cash/Access.antt =====
-- The queries and the writes that the cash services share: common/prisma/employee.util.ts,
-- cashier-shift-ledger.service.ts and the private helpers of the services.
use coffee_shop_be.Prelude.{
  ℕ, suc, Bool, false, ◌&&◌, not, Option, none, some, List, ◌∷◌, ◌==◌, any, if◌then◌else◌, opt_eq,
  leb, ltb, ◌/◌, ◌%◌,
}
use coffee_shop_be.Prelude.Int.{ℤ, pos, negsuc, ◌+ℤ◌, leb_ℤ}
use coffee_shop_be.Prelude.Table.{find, update}
use coffee_shop_be.Prelude.Http.{Result, ok, ◌>>=◌, ◌>>◌, guard, or_throw, unauthorized, conflict}
use coffee_shop_be.Cash.Types.{
  Fund, CashFlow, CashierShift, is_cash, is_open, income, Action, SettingValue, number, other,
  SettingKey, handover_settlement_sla_hours, Db,
}

-- `assertActiveEmployee`: the employee exists, is active and is not deleted.
unfoldable pub assert_active_employee : Db → ℕ → Result (Unit {0})
assert_active_employee db employee_id =
    guard (any (λ e. (e.id == employee_id) && e.is_active && not e.deleted) db.employees)
      unauthorized

unfoldable pub find_fund : Db → ℕ → Option Fund
find_fund db id = find (λ f. f.id) id db.funds

-- `findFirst({ where: { id, deletedAt: null } })`.
unfoldable pub find_active_fund : Db → ℕ → Option Fund
unfolding find_fund
find_active_fund db id = elim (find_fund db id) [
  | none ↦ none
  | some f ↦ if f.deleted then none else some f
]

-- There is an open shift on one of two funds.
unfoldable pub has_open_shift : Db → ℕ → Bool
has_open_shift db fund_id = any (λ s. is_open s.status && opt_eq s.fund_id (some fund_id)) db.shifts

-- `log`: the details of the entry are its subject's id.
unfoldable pub log : Db → ℕ → Action → ℕ → Db
log db employee_id action subject = record db {
  logs = record { employee_id = employee_id; action = action; subject = subject } ∷ db.logs;
}

-- `tx.cashTransaction.create`; the new row's id is `next_id` of the state before.
unfoldable pub create_transaction : Db → CashFlow → ℤ → ℕ → ℕ → Option ℕ → ℕ → Option ℕ → Db
create_transaction db flow amount date fund_id shift_id employee_id invoice_id = record db {
  next_id = suc db.next_id;
  transactions =
      record {
        id = db.next_id;
        flow = flow;
        amount = amount;
        transaction_date = date;
        fund_id = fund_id;
        shift_id = shift_id;
        employee_id = employee_id;
        invoice_id = invoice_id;
      }
      ∷ db.transactions;
}

abbrev pub add_balance : ℤ → Fund → Fund
add_balance amount f = record f { balance = f.balance +ℤ amount }

abbrev pub set_balance : ℤ → Fund → Fund
set_balance amount f = record f { balance = amount }

-- `getSettlementSlaHours`: a whole number of hours from 1 to 720, and 24 otherwise.
abbrev pub sla_hours_of : Option SettingValue → ℕ
sla_hours_of none = 24
sla_hours_of (some other) = 24
sla_hours_of (some (number (negsuc n))) = 24
sla_hours_of (some (number (pos n))) =
    if ((n % 100) == 0) && (ltb 0 n && leb n 72000) then n / 100 else 24

unfoldable pub settlement_sla_hours : Db → ℕ
settlement_sla_hours db = sla_hours_of (db.settings handover_settlement_sla_hours)

-- `getCashControlThreshold`: the setting, if it is a number and not negative, and 0 otherwise.
abbrev pub threshold_of : Option SettingValue → ℤ
threshold_of none = pos 0
threshold_of (some other) = pos 0
threshold_of (some (number v)) = if leb_ℤ (pos 0) v then v else pos 0

unfoldable pub cash_control_threshold : Db → SettingKey → ℤ
cash_control_threshold db key = threshold_of (db.settings key)

-- `OpenCashierShiftContext`.
pub record ShiftContext : Type 0 where
  pub id : ℕ
  pub fund_id : ℕ

abbrev pub first_open_shift : ℕ → List CashierShift → Option CashierShift
first_open_shift employee_id List.[] = none
first_open_shift employee_id (s ∷ shifts) =
    if (s.employee_id == employee_id) && is_open s.status
    then some s
    else first_open_shift employee_id shifts

-- `findOpenShiftId`.
unfoldable pub find_open_shift_id : Db → ℕ → Option ℕ
find_open_shift_id db employee_id = elim (first_open_shift employee_id db.shifts) [
  | none ↦ none
  | some s ↦ some s.id
]

abbrev usable_fund : Option Fund → Bool
usable_fund none = false
usable_fund (some f) = not f.deleted && is_cash f.fund_type

-- `requireOpenShift`.
unfoldable pub require_open_shift : Db → ℕ → Result ShiftContext
unfolding find_fund
require_open_shift db employee_id = do
  shift ← or_throw (first_open_shift employee_id db.shifts) conflict
  fund_id ← or_throw shift.fund_id conflict
  guard (usable_fund (find_fund db fund_id)) conflict
  ok (record { id = shift.id; fund_id = fund_id })

-- `recordCashInvoice`.
unfoldable pub record_cash_invoice : Db → ℕ → ShiftContext → ℕ → ℕ → ℤ → Db
unfolding create_transaction
record_cash_invoice db now shift invoice_id employee_id amount =
    let posted =
      create_transaction db income amount now shift.fund_id (some shift.id) employee_id
        (some invoice_id) in
    record posted { funds = update (λ f. f.id) shift.fund_id (add_balance amount) posted.funds }
