-- ===== src/Cash/Shifts/Reconciliation.antt =====
-- `calculateReconciliation` of cashier-shifts.service.ts: what a shift should end with. The tables
-- of the sales side are only read here; sums by group are sums over the rows of the group.
use coffee_shop_be.Prelude.{
  ℕ, Bool, true, false, ◌&&◌, not, Option, some, List, [], ◌∷◌, ◌==◌, if◌then◌else◌, opt_eq, any,
  is_some,
}
use coffee_shop_be.Prelude.Int.{ℤ, pos, ◌+ℤ◌, ◌-ℤ◌}
use coffee_shop_be.Cash.Types.{CashTransaction, CashierShift, is_expense, Db}

-- `paymentStatus` of an invoice; the reconciliation counts the last three.
pub data PaymentStatus : Type 0 where
  unpaid void paid partially_refunded refunded : PaymentStatus

abbrev was_paid : PaymentStatus → Bool
was_paid unpaid = false
was_paid void = false
was_paid paid = true
was_paid partially_refunded = true
was_paid refunded = true

pub record Invoice : Type 0 where
  pub id : ℕ
  pub shift_id : Option ℕ
  pub status : PaymentStatus
  pub by_cash : Bool
  pub total_amount : ℤ

pub record PaymentRefund : Type 0 where
  pub attempt_shift_id : Option ℕ
  pub succeeded : Bool
  pub amount : ℤ

pub record CashRefund : Type 0 where
  pub transaction_id : ℕ
  pub amount : ℤ

pub record PaymentAttempt : Type 0 where
  pub shift_id : Option ℕ
  pub unresolved : Bool

pub record OrderSession : Type 0 where
  pub shift_id : Option ℕ
  pub active : Bool

pub record Sales : Type 0 where
  pub invoices : List Invoice
  pub refunds : List PaymentRefund
  pub cash_refunds : List CashRefund
  pub attempts : List PaymentAttempt
  pub sessions : List OrderSession

-- `_sum` over the rows that a condition selects.
unfoldable pub sum_where : {A : Type 0} → (A → Bool) → (A → ℤ) → List A → ℤ
sum_where p amount [] = pos 0
sum_where p amount (r ∷ rows) =
    let rest = sum_where p amount rows in if p r then amount r +ℤ rest else rest

abbrev pub sold_in : ℕ → Invoice → Bool
sold_in shift i = opt_eq i.shift_id (some shift) && was_paid i.status

-- The entry has a row in `CashRefund`.
unfoldable pub is_refund_entry : Sales → CashTransaction → Bool
is_refund_entry sales t = any (λ r. r.transaction_id == t.id) sales.cash_refunds

abbrev pub of_shift : ℕ → CashTransaction → Bool
of_shift shift t = opt_eq t.shift_id (some shift)

abbrev pub is_manual : Sales → ℕ → CashTransaction → Bool
is_manual sales shift t =
    of_shift shift t && not (is_some t.invoice_id) && not (is_refund_entry sales t)

-- The cash refunds whose entry is of the shift.
unfoldable pub refunded_in : ℕ → List CashTransaction → CashRefund → Bool
refunded_in shift transactions r =
    any (λ t. (t.id == r.transaction_id) && opt_eq t.shift_id (some shift)) transactions

pub record Reconciliation : Type 0 where
  pub cash_sales : ℤ
  pub non_cash_sales : ℤ
  pub total_sales : ℤ
  pub manual_income : ℤ
  pub manual_expense : ℤ
  pub cash_refund_amount : ℤ
  pub actual_ending_cash : ℤ

unfoldable pub calculate_reconciliation : Db → Sales → CashierShift → Reconciliation
calculate_reconciliation db sales shift =
    let cash_sales =
      sum_where (λ i. sold_in shift.id i && i.by_cash) (λ i. i.total_amount) sales.invoices in
    let other_sales =
      sum_where (λ i. sold_in shift.id i && not i.by_cash) (λ i. i.total_amount) sales.invoices in
    let all_sales = sum_where (sold_in shift.id) (λ i. i.total_amount) sales.invoices in
    let refunds =
      sum_where (λ r. r.succeeded && opt_eq r.attempt_shift_id (some shift.id)) (λ r. r.amount)
        sales.refunds in
    let manual_income =
      sum_where (λ t. is_manual sales shift.id t && not (is_expense t.flow)) (λ t. t.amount)
        db.transactions in
    let manual_expense =
      sum_where (λ t. is_manual sales shift.id t && is_expense t.flow) (λ t. t.amount)
        db.transactions in
    let cash_refund_amount =
      sum_where (refunded_in shift.id db.transactions) (λ r. r.amount) sales.cash_refunds in
    record {
      cash_sales = cash_sales;
      non_cash_sales = other_sales -ℤ refunds;
      total_sales = all_sales -ℤ refunds;
      manual_income = manual_income;
      manual_expense = manual_expense;
      cash_refund_amount = cash_refund_amount;
      actual_ending_cash =
          shift.expected_starting_cash +ℤ cash_sales +ℤ manual_income -ℤ manual_expense
          -ℤ cash_refund_amount;
    }
