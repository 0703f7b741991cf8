-- ===== src/Cash/Shifts/Settled.antt =====
-- The guards of a closing: nothing of the shift is unresolved, and a large difference has a note.
use coffee_shop_be.Prelude.{
  ℕ, ◌≡◌, ◌≢◌, true, false, Option, none, some, arith, inl, inr, ◌==◌, ◌⊎◌, ◌&&◌, is_some, List, [],
  ◌∷◌, opt_eq, count, Bool-cases,
}
use coffee_shop_be.Prelude.Int.{ℤ, pos, ◌-ℤ◌, abs, leb_ℤ, eqb_ℤ, eq_of_parts, -ℤ_parts}
use coffee_shop_be.Prelude.Table.{All}
use coffee_shop_be.Cash.Types.{
  ExpenseRequest, pending, is_pending, shift_discrepancy_note_threshold, Db,
}
use coffee_shop_be.Cash.Access.{cash_control_threshold}
use coffee_shop_be.Cash.Shifts.Reconciliation.{PaymentAttempt, OrderSession}
use coffee_shop_be.Cash.Shifts.{needs_note}

-- A shift whose count of unresolved rows is zero has none.
pub no_pending :
    (id : ℕ) (rows : List ExpenseRequest)
    → count (λ r. (r.shift_id == id) && is_pending r.status) rows ≡ 0
    → All (λ r. r.shift_id ≡ id → r.status ≢ pending) rows
no_pending id [] h = tt
no_pending id (r ∷ rows) h = (λ own p. ground arith, no_pending id rows (ground arith))

pub no_unresolved :
    (id : ℕ) (rows : List PaymentAttempt)
    → count (λ a. opt_eq a.shift_id (some id) && a.unresolved) rows ≡ 0
    → All (λ a. a.shift_id ≡ some id → a.unresolved ≡ false) rows
no_unresolved id [] h = tt
no_unresolved id (a ∷ rows) h = (λ own. ground arith, no_unresolved id rows (ground arith))

pub no_active :
    (id : ℕ) (rows : List OrderSession)
    → count (λ s. opt_eq s.shift_id (some id) && s.active) rows ≡ 0
    → All (λ s. s.shift_id ≡ some id → s.active ≡ false) rows
no_active id [] h = tt
no_active id (a ∷ rows) h = (λ own. ground arith, no_active id rows (ground arith))

pub small_difference :
    (db : Db) (reported cash : ℤ) (closing_note : Option ℕ)
    → (needs_note db (reported -ℤ cash) ≡ false) ⊎ (is_some closing_note ≡ true)
    → closing_note ≡ none
    → (reported ≡ cash)
      ⊎ (leb_ℤ (cash_control_threshold db shift_discrepancy_note_threshold) (abs (reported -ℤ cash))
          ≡ false)
unfolding needs_note
small_difference db reported cash closing_note (inr noted) e = absurd (ground arith)
small_difference db reported cash closing_note (inl h) e =
    elim (Bool-cases (eqb_ℤ (reported -ℤ cash) (pos 0))) [
      | inl zero ↦ inl (eq_of_parts reported cash (ground (arith, -ℤ_parts reported cash, zero)))
      | inr other ↦ inr (ground (arith, other, h))
    ]
