-- ===== src/Cash/Tests.antt =====
-- A small shop on which the laws of cash control are applied: a cashier 1, a manager 2, a till 10,
-- a safe 11 and a bank account 12.
mod ShiftTests
use coffee_shop_be.Prelude.{
  ℕ, ◌+◌, ◌*◌, ◌≡◌, ◌≢◌, refl, Bool, true, false, Option, none, some, List, [], ◌∷◌, arith, ◌==◌,
  if◌then◌else◌, ◌||◌, ◌⊎◌, is_some, count, ◌≤◌, contains,
}
use mathlib.Core.Option
use coffee_shop_be.Prelude.Int.{ℤ, pos, negsuc, ◌+ℤ◌, ◌-ℤ◌, ◌≤ℤ◌, abs, leb_ℤ}
use coffee_shop_be.Prelude.Table.{All, find, update, claim}
use coffee_shop_be.Prelude.Http.{Result, ok, err}
use coffee_shop_be.Cash.Types.{
  Employee, Fund, FundType, cash, bank, CashHandover, CashierShift, ExpenseRequest, CashTransaction,
  income, expense, is_expense, open_, closed, pending, approved, rejected, not_required, awaiting,
  settled, Db, SettingValue,
}
use coffee_shop_be.Cash.Access.{
  find_fund, find_active_fund, settlement_sla_hours, require_open_shift, ShiftContext,
  has_open_shift,
}
use coffee_shop_be.Cash.Ledger.{basis, balance_of, posted_to}
use coffee_shop_be.Cash.Handovers
use coffee_shop_be.Cash.Handovers.{find_handover}
use coffee_shop_be.Cash.Handovers.Balances.{IsConsistent, approve-basis, settle_moves}
use coffee_shop_be.Cash.Handovers.Duties.{IsSound}
use coffee_shop_be.Cash.Handovers.Soundness.{
  Command, create, approve, settle, register_deposit, reject, cancel, run, run-IsSound,
}
use coffee_shop_be.Cash.Handovers.Lifecycle.{Follows, run-Follows}

abbrev employees : List Employee
employees =
    record { id = 1; is_active = true; deleted = false }
    ∷ record { id = 2; is_active = true; deleted = false }
    ∷ record { id = 3; is_active = false; deleted = false }
    ∷ []

abbrev till : Fund
till = record { id = 10; name = 100; fund_type = cash; balance = pos 50_000; deleted = false }

abbrev safe : Fund
safe = record { id = 11; name = 101; fund_type = cash; balance = pos 7_000; deleted = false }

abbrev account : Fund
account = record { id = 12; name = 102; fund_type = bank; balance = pos 0; deleted = false }

abbrev closed_shift : CashierShift
closed_shift = record {
  id = 20;
  employee_id = 1;
  fund_id = some 10;
  status = closed;
  starting_cash = pos 20_000;
  expected_starting_cash = pos 20_000;
  opening_difference = pos 0;
  reported_ending_cash = some (pos 49_000);
  actual_ending_cash = some (pos 50_000);
  closed_at = some 1_000;
  closing_note = some 7;
}

-- A handover of the till to the bank, short by 1,000, that keeps 10,000 back.
abbrev to_bank : CashHandover
to_bank = record {
  id = 30;
  shift_id = 20;
  source_fund_id = 10;
  destination_fund_id = 12;
  requested_by = 1;
  expected_cash = pos 50_000;
  counted_cash = pos 49_000;
  variance_amount = negsuc 999;
  retained_cash = pos 10_000;
  transfer_amount = pos 39_000;
  status = pending;
  resolved_at = none;
  resolved_by = none;
  resolution_note = none;
  settlement = not_required;
  settlement_due_at = none;
  settled_at = none;
  settled_by = none;
  bank_reference = none;
  evidence_reference = none;
  source_transaction_id = none;
  destination_transaction_id = none;
  variance_transaction_id = none;
}

abbrev shop : Db
shop = record {
  next_id = 50;
  employees = employees;
  funds = till ∷ safe ∷ account ∷ [];
  transactions = [];
  shifts = closed_shift ∷ [];
  expenses = [];
  handovers = to_bank ∷ [];
  logs = [];
  settings = λ key. none;
  imported_funds = [];
}

abbrev upper : ℕ → ℕ
upper n = n

to_bank-IsConsistent : IsConsistent to_bank
unfolding ◌-ℤ◌
to_bank-IsConsistent = record { variance = refl; transfer = refl; distinct = omega arith }

to_bank-IsSound : IsSound to_bank
to_bank-IsSound = record { amounts = to_bank-IsConsistent; resolution = refl; settlement = refl }

abbrev commands : List (ℕ × Command)
commands =
    (2_000, approve 30 1 none)
    ∷ (2_001, approve 30 2 none)
    ∷ (2_002, cancel 30 1 9)
    ∷ (2_003, register_deposit 30 1 77 78)
    ∷ (2_004, settle 30 2 77 78)
    ∷ []

-- The cashier's own approval and the late cancellation are refused; the rest goes through.
commands_settle :
    let db = run upper commands shop in
    (balance_of 10 db.funds ≡ pos 10_000)
    × (balance_of 12 db.funds ≡ pos 39_000)
    × (Option.map (λ h. h.settlement) (find_handover db 30) ≡ some settled)
unfolding run Handovers.approve Handovers.post_unless Handovers.cancel Handovers.register_deposit
    Handovers.settle find_handover balance_of claim find update ◌+ℤ◌ abs settlement_sla_hours
commands_settle = (refl, refl, refl)

run-IsSound_example : All IsSound (run upper commands shop).handovers
run-IsSound_example = run-IsSound upper commands shop (to_bank-IsSound, tt)

run-Follows_example :
    (h' : CashHandover) × (find_handover (run upper commands shop) 30 ≡ some h')
    × Follows to_bank h'
unfolding find_handover find
run-Follows_example = run-Follows upper commands shop 30 {h = to_bank} (omega arith) refl

-- The state after the manager's approval.
abbrev approved_shop : Db
approved_shop = run upper ((2_001, approve 30 2 none) ∷ []) shop

approval : Handovers.approve shop 2_001 30 2 none ≡ ok approved_shop
unfolding run Handovers.approve Handovers.post_unless claim find update
approval = refl

approve-basis_example : basis 10 approved_shop ≡ basis 10 shop
unfolding find_handover find_fund find
approve-basis_example =
    approve-basis shop 2_001 30 2 none {h = to_bank} {s = till} {d = account} refl refl refl
      approval 10 to_bank-IsConsistent

abbrev settled_shop : Db
settled_shop = run upper ((2_001, approve 30 2 none) ∷ (2_004, settle 30 2 77 78) ∷ []) shop

abbrev approved_row : CashHandover
approved_row = record to_bank {
  status = approved;
  resolved_at = some 2_001;
  resolved_by = some 2;
  settlement = awaiting;
  settlement_due_at = some (2_001 + 24 * 3_600_000);
  source_transaction_id = some 51;
  variance_transaction_id = some 50;
}

settlement : Handovers.settle upper approved_shop 2_004 30 2 77 78 ≡ ok settled_shop
unfolding run Handovers.approve Handovers.post_unless Handovers.settle claim find update
settlement = refl

settle_moves_example :
    (balance_of 12 settled_shop.funds ≡ (
      if 12 == 12
      then balance_of 12 approved_shop.funds +ℤ pos 39_000
      else balance_of 12 approved_shop.funds))
    × (basis 12 settled_shop ≡ basis 12 approved_shop)
unfolding run Handovers.approve Handovers.post_unless claim find_handover find update
    settlement_sla_hours
settle_moves_example =
    settle_moves upper approved_shop 2_004 30 2 77 78 {h = approved_row} refl settlement 12
