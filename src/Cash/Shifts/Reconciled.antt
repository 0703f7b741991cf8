-- ===== src/Cash/Shifts/Reconciled.antt =====
-- The reconciliation against the ledger: the cash that a shift should end with is what it started
-- with and the signed entries of the shift.
use coffee_shop_be.Prelude.{
  ℕ, ◌≡◌, refl, Bool, true, false, if◌then◌else◌, not, ◌&&◌, is_some, List, [], ◌∷◌,
}
use coffee_shop_be.Prelude.Int.{ℤ, pos, ◌+ℤ◌, ◌-ℤ◌, int_laws}
use coffee_shop_be.Prelude.Table.{All}
use coffee_shop_be.Cash.Types.{
  CashTransaction, CashierShift, income, expense, is_expense, CashFlow, Db,
}
use coffee_shop_be.Cash.Ledger.{signed}
use coffee_shop_be.Cash.Shifts.Reconciliation.{
  Sales, Invoice, sum_where, sold_in, of_shift, is_manual, is_refund_entry,
  calculate_reconciliation,
}

-- The signed entries of a shift.
unfoldable pub posted_by : ℕ → List CashTransaction → ℤ
posted_by shift [] = pos 0
posted_by shift (t ∷ ts) =
    let rest = posted_by shift ts in
    if of_shift shift t then signed t.flow t.amount +ℤ rest else rest

-- The entries that `recordCashInvoice` posts, and those of cash refunds.
abbrev pub is_sale_entry : ℕ → CashTransaction → Bool
is_sale_entry shift t = of_shift shift t && is_some t.invoice_id

abbrev pub is_repaid_entry : Sales → ℕ → CashTransaction → Bool
is_repaid_entry sales shift t =
    of_shift shift t && not (is_some t.invoice_id) && is_refund_entry sales t

-- A sale is an income and a repayment an expense.
abbrev pub IsWellPosted : Sales → ℕ → CashTransaction → Type 0
IsWellPosted sales shift t =
    (is_sale_entry shift t ≡ true → is_expense t.flow ≡ false)
    × (is_repaid_entry sales shift t ≡ true → is_expense t.flow ≡ true)

-- One entry on top of sums that agree. `o`, `i` and `r` say whether it is of the shift, has an
-- invoice, and is a refund's.
entry_split :
    (o i r : Bool) (flow : CashFlow) (a p s g x b : ℤ)
    → ((o && i) ≡ true → is_expense flow ≡ false)
    → ((o && not i && r) ≡ true → is_expense flow ≡ true)
    → p ≡ s +ℤ g -ℤ x -ℤ b
    → (if o then signed flow a +ℤ p else p)
      ≡ (if o && i then a +ℤ s else s)
        +ℤ (if (o && not i && not r) && not (is_expense flow) then a +ℤ g else g)
        -ℤ (if (o && not i && not r) && is_expense flow then a +ℤ x else x)
        -ℤ (if o && not i && r then a +ℤ b else b)
entry_split false i r flow a p s g x b h k e = e
entry_split true true r income a p s g x b h k e = rw e (omega int_laws)
entry_split true true r expense a p s g x b h k e = cc (h refl)
entry_split true false true income a p s g x b h k e = cc (k refl)
entry_split true false true expense a p s g x b h k e = rw e (omega int_laws)
entry_split true false false income a p s g x b h k e = rw e (omega int_laws)
entry_split true false false expense a p s g x b h k e = rw e (omega int_laws)

-- The entries of a shift are sales, manual movements and repayments.
posted_by-split :
    (sales : Sales) (shift : ℕ) (ts : List CashTransaction)
    → All (IsWellPosted sales shift) ts
    → posted_by shift ts
      ≡ sum_where (is_sale_entry shift) (λ t. t.amount) ts
        +ℤ sum_where (λ t. is_manual sales shift t && not (is_expense t.flow)) (λ t. t.amount) ts
        -ℤ sum_where (λ t. is_manual sales shift t && is_expense t.flow) (λ t. t.amount) ts
        -ℤ sum_where (is_repaid_entry sales shift) (λ t. t.amount) ts
unfolding posted_by sum_where
posted_by-split sales shift [] h = omega int_laws
posted_by-split sales shift (t ∷ ts) h =
    entry_split (of_shift shift t) (is_some t.invoice_id) (is_refund_entry sales t) t.flow t.amount
      _ _ _ _ _ h.0.0 h.0.1 (posted_by-split sales shift ts h.1)

-- Where the entries of the shift are well posted, the cash sales are the sale entries of the shift and the cash refunds its repayments, the
-- reconciled cash is the expected starting cash and the signed entries of the shift.
pub reconciliation-posted_by :
    (db : Db) (sales : Sales) (s : CashierShift)
    → All (IsWellPosted sales s.id) db.transactions
    → (calculate_reconciliation db sales s).cash_sales
      ≡ sum_where (is_sale_entry s.id) (λ t. t.amount) db.transactions
    → (calculate_reconciliation db sales s).cash_refund_amount
      ≡ sum_where (is_repaid_entry sales s.id) (λ t. t.amount) db.transactions
    → (calculate_reconciliation db sales s).actual_ending_cash
      ≡ s.expected_starting_cash +ℤ posted_by s.id db.transactions
unfolding calculate_reconciliation
reconciliation-posted_by db sales s well p q =
    rw (posted_by-split sales s.id db.transactions well, ← p, ← q) (omega int_laws)

add_split :
    (sold cash : Bool) (a t c n : ℤ)
    → t ≡ c +ℤ n
    → (if sold then a +ℤ t else t)
      ≡ (if sold && cash then a +ℤ c else c) +ℤ (if sold && not cash then a +ℤ n else n)
add_split false cash a t c n e = e
add_split true true a t c n e = rw e (omega int_laws)
add_split true false a t c n e = rw e (omega int_laws)

sum_where-split :
    (shift : ℕ) (invoices : List Invoice)
    → sum_where (sold_in shift) (λ i. i.total_amount) invoices
      ≡ sum_where (λ i. sold_in shift i && i.by_cash) (λ i. i.total_amount) invoices
        +ℤ sum_where (λ i. sold_in shift i && not i.by_cash) (λ i. i.total_amount) invoices
unfolding sum_where
sum_where-split shift [] = omega int_laws
sum_where-split shift (i ∷ rest) =
    add_split (sold_in shift i) i.by_cash i.total_amount _ _ _ (sum_where-split shift rest)

-- The sales of a shift are its cash sales and its other sales, refunds taken off.
pub total_sales-split :
    (db : Db) (sales : Sales) (s : CashierShift)
    → (calculate_reconciliation db sales s).total_sales
      ≡ (calculate_reconciliation db sales s).cash_sales
        +ℤ (calculate_reconciliation db sales s).non_cash_sales
unfolding calculate_reconciliation
total_sales-split db sales s = rw (sum_where-split s.id sales.invoices) (omega int_laws)
