-- ===== src/Cash/Funds/Guards.antt =====
-- What protects a fund that other records rely on.
use coffee_shop_be.Prelude.{
  ℕ, ◌≡◌, refl, true, false, Option, none, some, arith, ◌∷◌, contains, ◌||◌, ◌&&◌, List, [],
  Bool-cases, ◌==◌, inl, inr,
}
use coffee_shop_be.Prelude.Int.{pos, eqb_ℤ→eq, eqb_ℤ}
use coffee_shop_be.Prelude.Table.{find, update, find-update_self}
use coffee_shop_be.Prelude.Http.{ok}
use coffee_shop_be.Cash.Types.{Fund, FundType, Db}
use coffee_shop_be.Cash.Access.{find_fund, find_active_fund, has_open_shift}
use coffee_shop_be.Cash.Ledger.{basis, balance_of}
use coffee_shop_be.Cash.Funds.{update_fund, remove_fund, changes_type, or_old, has_pending_handover}

-- Balances do not change where rows are rewritten that keep them.
balance_of-keep :
    (k id : ℕ) (g : Fund → Fund) (funds : List Fund)
    → ((f : Fund) → (g f).id ≡ f.id)
    → ((f : Fund) → (g f).balance ≡ f.balance)
    → balance_of k (update (λ f. f.id) id g funds) ≡ balance_of k funds
unfolding balance_of update find
balance_of-keep k id g [] keys same = refl
balance_of-keep k id g (f ∷ funds) keys same = elim (Bool-cases (f.id == id)) [
  | inl hit ↦ rw hit (elim (Bool-cases (f.id == k)) [
    | inl e ↦ rw (keys f, e) (same f)
    | inr e ↦ rw (keys f, e) refl
  ])
  | inr miss ↦ rw miss (elim (Bool-cases (f.id == k)) [
    | inl e ↦ rw e refl
    | inr e ↦ rw e (balance_of-keep k id g funds keys same)
  ])
]

abbrev mark_deleted : Fund → Fund
mark_deleted f = record f { deleted = true }

remove_fund_guards :
    (db : Db) (id employee : ℕ) {f : Fund} {db' : Db}
    → find_fund db id ≡ some f
    → remove_fund db id employee ≡ ok db'
    → (f.deleted ≡ false)
      × (eqb_ℤ f.balance (pos 0) ≡ true)
      × (has_open_shift db id ≡ false)
      × (has_pending_handover db id ≡ false)
      × (db'.funds ≡ update (λ f. f.id) id mark_deleted db.funds)
      × (db'.transactions ≡ db.transactions)
unfolding remove_fund find_fund
remove_fund_guards db id employee found e = ground arith

gone :
    (db' : Db) (id : ℕ) (funds : List Fund) (f : Fund)
    → db'.funds ≡ update (λ f. f.id) id mark_deleted funds
    → find (λ f. f.id) id (update (λ f. f.id) id mark_deleted funds) ≡ some (mark_deleted f)
    → find_active_fund db' id ≡ none
unfolding find_active_fund find_fund
gone db' id funds f p q = ground arith

-- A deleted fund was active and empty, with no open shift and no pending handover; it can no
-- longer be found, and its ledger is as it was.
pub remove_fund_lem :
    (db : Db) (id employee : ℕ) {f : Fund} {db' : Db}
    → find_fund db id ≡ some f
    → remove_fund db id employee ≡ ok db'
    → (f.deleted ≡ false)
      × (f.balance ≡ pos 0)
      × (has_open_shift db id ≡ false)
      × (has_pending_handover db id ≡ false)
      × (find_active_fund db' id ≡ none)
      × ((k : ℕ) → basis k db' ≡ basis k db)
unfolding find_active_fund find_fund basis
remove_fund_lem db id employee {f} {db'} found e =
    let (active, empty, idle, settled, funds, entries) =
      remove_fund_guards db id employee {f = f} found e in
    (
      active,
      eqb_ℤ→eq f.balance (pos 0) empty,
      idle,
      settled,
      gone db' id db.funds f funds
          (find-update_self (λ f. f.id) id mark_deleted {s = f} db.funds (λ r. refl) found),
      λ k.
          rw (funds, entries, balance_of-keep k id mark_deleted db.funds (λ r. refl) (λ r. refl))
            refl,
    )

abbrev rewrite_fund : Option ℕ → Option FundType → Fund → Fund
rewrite_fund name fund_type f = record f {
  name = or_old name f.name;
  fund_type = or_old fund_type f.fund_type;
}

update_fund_guards :
    (normalised : ℕ → ℕ) (db : Db) (id employee : ℕ) (name : Option ℕ) (fund_type : Option FundType)
    {f : Fund} {db' : Db}
    → find_fund db id ≡ some f
    → update_fund normalised db id employee name fund_type ≡ ok db'
    → (f.deleted ≡ false)
      × ((changes_type f fund_type
            && (contains id db.imported_funds
                || has_pending_handover db id
                || has_open_shift db id))
          ≡ false)
      × (db'.funds ≡ update (λ f. f.id) id (rewrite_fund name fund_type) db.funds)
      × (db'.transactions ≡ db.transactions)
unfolding update_fund find_fund
update_fund_guards normalised db id employee name fund_type found e = ground arith

-- The type after an update, where the update does not change it.
kept_type :
    (f : Fund) (t : Option FundType) → changes_type f t ≡ false → or_old t f.fund_type ≡ f.fund_type
kept_type f none h = refl
kept_type f (some t) h = ground arith

-- An update moves no money; and a fund that a bank statement, a pending handover or an open shift
-- relies on keeps its type.
pub update_fund_lem :
    (normalised : ℕ → ℕ) (db : Db) (id employee : ℕ) (name : Option ℕ) (fund_type : Option FundType)
    {f : Fund} {db' : Db}
    → find_fund db id ≡ some f
    → update_fund normalised db id employee name fund_type ≡ ok db'
    → ((k : ℕ) → (balance_of k db'.funds ≡ balance_of k db.funds) × (basis k db' ≡ basis k db))
      × ((contains id db.imported_funds || has_pending_handover db id || has_open_shift db id)
            ≡ true
          → (f' : Fund) × (find_fund db' id ≡ some f') × (f'.fund_type ≡ f.fund_type))
unfolding find_fund basis
update_fund_lem normalised db id employee name fund_type {f} found e =
    let (active, fixed, funds, entries) =
      update_fund_guards normalised db id employee name fund_type {f = f} found e in
    let g = rewrite_fund name fund_type in
    (
      (λ k. (
        rw funds (balance_of-keep k id g db.funds (λ r. refl) (λ r. refl)),
        rw (funds, entries, balance_of-keep k id g db.funds (λ r. refl) (λ r. refl)) refl,
      )),
      λ relied. (
        g f,
        rw funds (find-update_self (λ f. f.id) id g {s = f} db.funds (λ r. refl) found),
        kept_type f fund_type (ground arith),
      ),
    )
