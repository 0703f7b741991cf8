-- ===== src/Cash/Shifts/Closing.antt =====
-- Opening and closing: one open shift for an employee and for a fund, and what a closed shift has
-- settled.
use coffee_shop_be.Prelude.{
  ℕ, ◌≡◌, ◌≢◌, ◌≤◌, sym, subst, ap, ◌∙◌, refl, Bool, true, false, Option, none, some, arith, inl,
  inr, ◌==◌, ◌⊎◌, ◌&&◌, ◌||◌, is_some, List, [], ◌∷◌, opt_eq, any, count, Option-cases,
}
use coffee_shop_be.Prelude.Int.{ℤ, pos, ◌+ℤ◌, ◌-ℤ◌, abs, leb_ℤ}
use coffee_shop_be.Prelude.Table.{All, find, update, claim, find-update, find-update_self, find-key}
use coffee_shop_be.Prelude.Http.{ok}
use coffee_shop_be.Cash.Types.{
  CashierShift, ExpenseRequest, is_open, open_, closed, pending, shift_discrepancy_note_threshold,
  Fund, Db,
}
use coffee_shop_be.Cash.Access.{find_active_fund, cash_control_threshold}
use coffee_shop_be.Cash.Shifts.Reconciliation.{Sales, sum_where, calculate_reconciliation}
use coffee_shop_be.Cash.Shifts.Reconciled.{
  IsWellPosted, is_sale_entry, is_repaid_entry, posted_by, reconciliation-posted_by,
}
use coffee_shop_be.Cash.Shifts.Settled.{no_pending, no_unresolved, no_active, small_difference}
use coffee_shop_be.Cash.Shifts.{
  open_shift, close_shift, close_row, own_open_shift, pending_expenses, unresolved_payments,
  active_sessions, new_shift, needs_note, approve_expense, find_expense, has_rival,
}

module _ (db : Db) (sales : Sales) (now employee id : ℕ) (reported : ℤ) (closing_note : Option ℕ)
    {s : CashierShift} {db' : Db} (found : find (λ s. s.id) id db.shifts ≡ some s)
    (e : close_shift db sales now employee id reported closing_note ≡ ok db') where
  close_shift_steps :
      let actual = (calculate_reconciliation db sales s).actual_ending_cash in
      (own_open_shift employee s ≡ true)
      × (pending_expenses db s.id ≡ 0)
      × (unresolved_payments sales s.id ≡ 0)
      × (active_sessions sales s.id ≡ 0)
      × ((needs_note db (reported -ℤ actual) ≡ false) ⊎ (is_some closing_note ≡ true))
      × (leb_ℤ (pos 0) actual ≡ true)
      × (db'.shifts
          ≡ update (λ s. s.id) s.id (close_row now reported actual closing_note) db.shifts)
      × (db'.expenses ≡ db.expenses)
      × (db'.funds ≡ db.funds)
      × (db'.transactions ≡ db.transactions)
  unfolding close_shift claim
  close_shift_steps = ground arith

  -- Once a shift is closed, no expense request of the shift can be approved.
  pub close_shift_blocks :
      (later request reviewer : ℕ) (remark : Option ℕ) {r : ExpenseRequest} {db'' : Db}
      → find_expense db' request ≡ some r
      → r.shift_id ≡ id
      → approve_expense db' later request reviewer remark ≢ ok db''
  unfolding approve_expense find_expense
  close_shift_blocks later request reviewer remark {r} held own again =
      let actual = (calculate_reconciliation db sales s).actual_ending_cash in
      let (_, _, _, _, _, _, written, _, _, _) = close_shift_steps in
      let same : s.id ≡ r.shift_id = find-key (λ s. s.id) id {s = s} db.shifts found ∙ sym own in
      let row = close_row now reported actual closing_note in
      let now_closed : find (λ s. s.id) s.id db'.shifts ≡ some (row s) = rw written (
        find-update_self (λ s. s.id) s.id row {s = s} db.shifts (λ r. refl)
          (subst (λ k. find (λ s. s.id) k db.shifts ≡ some s)
            (sym (find-key (λ s. s.id) id {s = s} db.shifts found)) found)) in
      let closed_row : find (λ s. s.id) r.shift_id db'.shifts ≡ some (row s) =
        subst (λ k. find (λ s. s.id) k db'.shifts ≡ some (row s)) same now_closed in
      ground arith

-- The open shifts of an employee, and those on a fund.
abbrev pub open_of : ℕ → CashierShift → Bool
open_of employee s = is_open s.status && (s.employee_id == employee)

abbrev pub open_on : ℕ → CashierShift → Bool
open_on fund s = is_open s.status && opt_eq s.fund_id (some fund)

-- At most one open shift for each employee, and for each fund.
pub record IsExclusive (shifts : List CashierShift) : Type 0 where
  pub employees : (employee : ℕ) → count (open_of employee) shifts ≤ 1
  pub funds : (fund : ℕ) → count (open_on fund) shifts ≤ 1

-- No rival in the table leaves nothing to count, for the employee and for the fund.
no_rival :
    (shifts : List CashierShift) (employee fund : ℕ)
    → any
        (λ s. is_open s.status && ((s.employee_id == employee) || opt_eq s.fund_id (some fund)))
        shifts
      ≡ false
    → (count (open_of employee) shifts ≡ 0) × (count (open_on fund) shifts ≡ 0)
no_rival [] employee fund h = (refl, refl)
no_rival (s ∷ shifts) employee fund h = ground (arith, no_rival shifts employee fund)

open_shift_lem :
    (db : Db) (employee fund : ℕ) (starting : ℤ) {f : Fund} {db' : Db}
    → find_active_fund db fund ≡ some f
    → open_shift db employee fund starting ≡ ok db'
    → (has_rival db employee f.id ≡ false)
      × (db'.shifts ≡ new_shift db.next_id employee f starting ∷ db.shifts)
unfolding open_shift
open_shift_lem db employee fund starting found e = ground arith

-- Opening a shift keeps at most one open shift for each employee and for each fund.
pub open_shift-IsExclusive :
    (db : Db) (employee fund : ℕ) (starting : ℤ) {db' : Db}
    → IsExclusive db.shifts
    → open_shift db employee fund starting ≡ ok db'
    → IsExclusive db'.shifts
unfolding open_shift has_rival
open_shift-IsExclusive db employee fund starting x e =
    elim (Option-cases (find_active_fund db fund)) [
      | inl missing ↦ absurd (ground arith)
      | inr (f, found) ↦
          let (free, added) = open_shift_lem db employee fund starting {f = f} found e in
          let (idle, unused) = no_rival db.shifts employee f.id free in
          rw added (record {
            employees = λ k. ground (arith, x.employees k, idle);
            funds = λ k. ground (arith, x.funds k, unused);
          })
    ]

-- The own open shift of the employee, as it is found once it is closed: its row has the cash that
-- was reported, and as actual cash what the shift was expected to start with and the signed entries
-- that the ledger has of the shift; nothing else of the row changes, nor any other shift, nor the
-- funds and the ledger. No expense request of the shift is pending, no payment of it unresolved, no
-- session of it active; without a note the cash agrees or the difference is below the threshold.
-- This is for a ledger whose entries of the shift are well posted, sales that are the sale entries
-- of the shift and cash refunds that are its repayments.
pub close_shift_lem :
    (db : Db) (sales : Sales) (now employee id : ℕ) (reported : ℤ) (closing_note : Option ℕ)
    {s : CashierShift} {db' : Db}
    → find (λ s. s.id) id db.shifts ≡ some s
    → All (IsWellPosted sales s.id) db.transactions
    → (calculate_reconciliation db sales s).cash_sales
      ≡ sum_where (is_sale_entry s.id) (λ t. t.amount) db.transactions
    → (calculate_reconciliation db sales s).cash_refund_amount
      ≡ sum_where (is_repaid_entry sales s.id) (λ t. t.amount) db.transactions
    → close_shift db sales now employee id reported closing_note ≡ ok db'
    → (s.employee_id ≡ employee)
      × (s.status ≡ open_)
      × (find (λ s. s.id) id db'.shifts
          ≡ some (record s {
            status = closed;
            closed_at = some now;
            reported_ending_cash = some reported;
            actual_ending_cash = some (s.expected_starting_cash +ℤ posted_by id db'.transactions);
            closing_note = closing_note;
          }))
      × ((k : ℕ) → k ≢ id → find (λ s. s.id) k db'.shifts ≡ find (λ s. s.id) k db.shifts)
      × (db'.funds ≡ db.funds)
      × (db'.transactions ≡ db.transactions)
      × All (λ r. r.shift_id ≡ id → r.status ≢ pending) db'.expenses
      × All (λ a. a.shift_id ≡ some id → a.unresolved ≡ false) sales.attempts
      × All (λ o. o.shift_id ≡ some id → o.active ≡ false) sales.sessions
      × (closing_note ≡ none
          → let cash = s.expected_starting_cash +ℤ posted_by id db'.transactions in
            (reported ≡ cash)
            ⊎ (leb_ℤ
                  (cash_control_threshold db shift_discrepancy_note_threshold)
                  (abs (reported -ℤ cash))
                ≡ false))
unfolding pending_expenses unresolved_payments active_sessions
close_shift_lem db sales now employee id reported closing_note {s} {db'} found well p q e =
    let actual = (calculate_reconciliation db sales s).actual_ending_cash in
    let row = close_row now reported actual closing_note in
    let (own, quiet, settled, idle, noted, _, written, expenses, funds, transactions) =
      close_shift_steps db sales now employee id reported closing_note found e in
    let same : s.id ≡ id = find-key (λ s. s.id) id {s = s} db.shifts found in
    let cash : actual ≡ s.expected_starting_cash +ℤ posted_by id db'.transactions =
      reconciliation-posted_by db sales s well p q
      ∙ ap (λ k. s.expected_starting_cash +ℤ posted_by k db.transactions) same
      ∙ ap (λ ts. s.expected_starting_cash +ℤ posted_by id ts) (sym transactions) in
    let stored : db'.shifts ≡ update (λ s. s.id) id row db.shifts =
      written ∙ ap (λ k. update (λ s. s.id) k row db.shifts) same in
    (
      ground arith,
      ground arith,
      ap (λ ss. find (λ s. s.id) id ss) stored
          ∙ find-update_self (λ s. s.id) id row {s = s} db.shifts (λ r. refl) found
          ∙ ap (λ c. some (close_row now reported c closing_note s)) cash,
      (λ k other.
          rw stored
            (ground (arith, other, find-update (λ s. s.id) k id row db.shifts (λ r. refl)))),
      funds,
      transactions,
      rw expenses (no_pending id db.expenses (subst (λ k. pending_expenses db k ≡ 0) same quiet)),
      no_unresolved id sales.attempts (subst (λ k. unresolved_payments sales k ≡ 0) same settled),
      no_active id sales.sessions (subst (λ k. active_sessions sales k ≡ 0) same idle),
      (λ missing.
          small_difference db reported _ closing_note
            (subst (λ c. (needs_note db (reported -ℤ c) ≡ false) ⊎ (is_some closing_note ≡ true))
              cash noted)
            missing),
    )
