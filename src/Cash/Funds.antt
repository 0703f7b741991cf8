-- ===== src/Cash/Funds.antt =====
-- funds.service.ts: a fund is created with an opening balance, renamed or given another type, and
-- deleted by a mark. Names are normalised by the index `Fund_active_name_unique_idx`
-- (`lower(btrim(name))`), which is a parameter here.
pub mod Guards
use coffee_shop_be.Prelude.{
  ℕ, suc, Bool, true, false, ◌&&◌, ◌||◌, not, Option, none, some, ◌∷◌, ◌==◌, any, contains,
  if◌then◌else◌, opt_eq,
}
use coffee_shop_be.Prelude.Int.{ℤ, pos, eqb_ℤ}
use coffee_shop_be.Prelude.Table.{update}
use coffee_shop_be.Prelude.Http.{
  Result, ok, err, ◌>>=◌, ◌>>◌, guard, throw_if, or_throw, conflict, not_found,
}
use coffee_shop_be.Cash.Types.{
  Fund, FundType, same_type, is_open, is_pending, is_awaiting, fund_created, fund_updated,
  fund_deleted, Db,
}
use coffee_shop_be.Cash.Access.{
  assert_active_employee, find_fund, find_active_fund, has_open_shift, log,
}

-- A handover that awaits its review or its bank, on either side of which the fund stands.
unfoldable pub has_pending_handover : Db → ℕ → Bool
has_pending_handover db id =
    any
      (λ h.
        (is_pending h.status || is_awaiting h.settlement)
        && ((h.source_fund_id == id) || (h.destination_fund_id == id)))
      db.handovers

-- The type that an update asks for, if it is another one.
abbrev pub changes_type : Fund → Option FundType → Bool
changes_type f none = false
changes_type f (some t) = not (same_type t f.fund_type)

abbrev pub or_old : {A : Type 0} → Option A → A → A
or_old none a = a
or_old (some b) a = b

module _ (normalised : ℕ → ℕ) where
  -- Another active fund has the name.
  unfoldable pub name_taken : Db → ℕ → ℕ → Bool
  name_taken db id name =
      any (λ f. not f.deleted && not (f.id == id) && (normalised f.name == normalised name))
        db.funds

  -- `create`
  unfoldable pub create_fund : Db → ℕ → ℕ → FundType → ℤ → Result Db
  unfolding assert_active_employee name_taken log
  create_fund db employee_id name fund_type opening_balance = do
    assert_active_employee db employee_id
    throw_if (name_taken db db.next_id name) conflict
    ok (
        log
          (record db {
            next_id = suc db.next_id;
            funds =
                record {
                  id = db.next_id;
                  name = name;
                  fund_type = fund_type;
                  balance = opening_balance;
                  deleted = false;
                }
                ∷ db.funds;
          })
          employee_id fund_created db.next_id)

  -- `update`: the type stays while statements, pending handovers or an open shift rely on it.
  unfoldable pub update_fund : Db → ℕ → ℕ → Option ℕ → Option FundType → Result Db
  unfolding assert_active_employee find_fund find_active_fund has_pending_handover has_open_shift
      name_taken log
  update_fund db id employee_id name fund_type = do
    assert_active_employee db employee_id
    existing ← or_throw (find_active_fund db id) not_found
    throw_if
        (changes_type existing fund_type
          && (contains id db.imported_funds || has_pending_handover db id || has_open_shift db id))
        conflict
    throw_if (name_taken db id (or_old name existing.name)) conflict
    ok (
        log
          (record db {
            funds =
                update (λ f. f.id) id
                  (λ f. record f {
                    name = or_old name f.name;
                    fund_type = or_old fund_type f.fund_type;
                  })
                  db.funds;
          })
          employee_id fund_updated id)

-- `remove`
unfoldable pub remove_fund : Db → ℕ → ℕ → Result Db
unfolding assert_active_employee find_fund find_active_fund has_pending_handover has_open_shift log
remove_fund db id employee_id = do
  assert_active_employee db employee_id
  fund ← or_throw (find_active_fund db id) not_found
  guard (eqb_ℤ fund.balance (pos 0)) conflict
  throw_if (has_open_shift db id) conflict
  throw_if (has_pending_handover db id) conflict
  ok (
      log (record db { funds = update (λ f. f.id) id (λ f. record f { deleted = true }) db.funds })
        employee_id fund_deleted id)
