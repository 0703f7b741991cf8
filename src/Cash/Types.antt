-- ===== src/Cash/Types.antt =====
-- The tables that the cash services read and write (prisma/schema.prisma), as one state.
-- Ids, names and references are only compared, so they are numbers; money is in hundredths;
-- times are milliseconds. New rows stand in front and take the next free id.
use coffee_shop_be.Prelude.{ℕ, Bool, true, false, Option, List}
use coffee_shop_be.Prelude.Int.{ℤ}

pub record Employee : Type 0 where
  pub id : ℕ
  pub is_active : Bool
  pub deleted : Bool

pub data FundType : Type 0 where
  cash bank : FundType

abbrev pub is_cash : FundType → Bool
is_cash cash = true
is_cash bank = false

abbrev pub is_bank : FundType → Bool
is_bank cash = false
is_bank bank = true

abbrev pub same_type : FundType → FundType → Bool
same_type cash cash = true
same_type bank bank = true
same_type cash bank = false
same_type bank cash = false

pub record Fund : Type 0 where
  pub id : ℕ
  pub name : ℕ
  pub fund_type : FundType
  pub balance : ℤ
  pub deleted : Bool

pub data CashFlow : Type 0 where
  income expense : CashFlow

abbrev pub is_expense : CashFlow → Bool
is_expense income = false
is_expense expense = true

pub record CashTransaction : Type 0 where
  pub id : ℕ
  pub flow : CashFlow
  pub amount : ℤ
  pub transaction_date : ℕ
  pub fund_id : ℕ
  pub shift_id : Option ℕ
  pub employee_id : ℕ
  pub invoice_id : Option ℕ

pub data ShiftStatus : Type 0 where
  open_ closed : ShiftStatus

abbrev pub is_open : ShiftStatus → Bool
is_open open_ = true
is_open closed = false

pub record CashierShift : Type 0 where
  pub id : ℕ
  pub employee_id : ℕ
  pub fund_id : Option ℕ
  pub status : ShiftStatus
  pub starting_cash : ℤ
  pub expected_starting_cash : ℤ
  pub opening_difference : ℤ
  pub reported_ending_cash : Option ℤ
  pub actual_ending_cash : Option ℤ
  pub closed_at : Option ℕ
  pub closing_note : Option ℕ

-- `CashExpenseRequestStatus` and `CashHandoverStatus` have the same members.
pub data RequestStatus : Type 0 where
  pending approved rejected cancelled : RequestStatus

abbrev pub is_pending : RequestStatus → Bool
is_pending pending = true
is_pending approved = false
is_pending rejected = false
is_pending cancelled = false

abbrev pub is_approved : RequestStatus → Bool
is_approved pending = false
is_approved approved = true
is_approved rejected = false
is_approved cancelled = false

pub record ExpenseRequest : Type 0 where
  pub id : ℕ
  pub amount : ℤ
  pub requested_by : ℕ
  pub shift_id : ℕ
  pub fund_id : ℕ
  pub status : RequestStatus
  pub resolved_at : Option ℕ
  pub resolved_by : Option ℕ
  pub resolution_note : Option ℕ
  pub transaction_id : Option ℕ

pub data SettlementStatus : Type 0 where
  not_required awaiting settled : SettlementStatus

abbrev pub is_awaiting : SettlementStatus → Bool
is_awaiting not_required = false
is_awaiting awaiting = true
is_awaiting settled = false

pub record CashHandover : Type 0 where
  pub id : ℕ
  pub shift_id : ℕ
  pub source_fund_id : ℕ
  pub destination_fund_id : ℕ
  pub requested_by : ℕ
  pub expected_cash : ℤ
  pub counted_cash : ℤ
  pub variance_amount : ℤ
  pub retained_cash : ℤ
  pub transfer_amount : ℤ
  pub status : RequestStatus
  pub resolved_at : Option ℕ
  pub resolved_by : Option ℕ
  pub resolution_note : Option ℕ
  pub settlement : SettlementStatus
  pub settlement_due_at : Option ℕ
  pub settled_at : Option ℕ
  pub settled_by : Option ℕ
  pub bank_reference : Option ℕ
  pub evidence_reference : Option ℕ
  pub source_transaction_id : Option ℕ
  pub destination_transaction_id : Option ℕ
  pub variance_transaction_id : Option ℕ

-- The action types of the audit log.
pub data Action : Type 0 where
  handover_requested handover_approved handover_settled deposit_registered : Action
  handover_rejected handover_cancelled : Action
  shift_opened movement_created shift_closed : Action
  expense_requested expense_approved expense_rejected expense_cancelled : Action
  fund_created fund_updated fund_deleted : Action

pub record ActionLog : Type 0 where
  pub employee_id : ℕ
  pub action : Action
  pub subject : ℕ

-- A value of a system setting: a number in hundredths, or any other JSON value.
pub data SettingValue : Type 0 where
  number : ℤ → SettingValue
  other : SettingValue

pub data SettingKey : Type 0 where
  expense_approval_threshold shift_discrepancy_note_threshold : SettingKey
  handover_settlement_sla_hours : SettingKey

pub record Db : Type 0 where
  pub next_id : ℕ
  pub employees : List Employee
  pub funds : List Fund
  pub transactions : List CashTransaction
  pub shifts : List CashierShift
  pub expenses : List ExpenseRequest
  pub handovers : List CashHandover
  pub logs : List ActionLog
  pub settings : SettingKey → Option SettingValue
  -- Funds that have a row in `BankStatementImport`.
  pub imported_funds : List ℕ
