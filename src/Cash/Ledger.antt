-- ===== src/Cash/Ledger.antt =====
-- The ledger behind a fund: the signed entries that were posted to it, and the part of its balance
-- that they do not explain. `posted_to` and `basis` are the specification that the services meet.
use coffee_shop_be.Prelude.{
  ℕ, Option, none, some, List, [], ◌∷◌, ◌==◌, if◌then◌else◌, ◌≡◌, refl, arith,
}
use coffee_shop_be.Prelude.Int.{ℤ, pos, ◌+ℤ◌, ◌-ℤ◌}
use coffee_shop_be.Prelude.Table.{find, update, find-update}
use coffee_shop_be.Cash.Types.{Fund, CashFlow, income, expense, CashTransaction, Db}
use coffee_shop_be.Cash.Access.{create_transaction, add_balance, set_balance}

abbrev pub signed : CashFlow → ℤ → ℤ
signed income amount = amount
signed expense amount = pos 0 -ℤ amount

-- The sum of the entries of one fund.
unfoldable pub posted_to : ℕ → List CashTransaction → ℤ
posted_to f [] = pos 0
posted_to f (t ∷ ts) =
    let rest = posted_to f ts in if t.fund_id == f then signed t.flow t.amount +ℤ rest else rest

abbrev balance_in : Option Fund → ℤ
balance_in none = pos 0
balance_in (some f) = f.balance

unfoldable pub balance_of : ℕ → List Fund → ℤ
balance_of f funds = balance_in (find (λ r. r.id) f funds)

-- What a fund holds beyond its entries: its opening balance.
unfoldable pub basis : ℕ → Db → ℤ
basis f db = balance_of f db.funds -ℤ posted_to f db.transactions

pub basis-eq :
    (f : ℕ) (db db' : Db)
    → db'.funds ≡ db.funds
    → db'.transactions ≡ db.transactions
    → basis f db' ≡ basis f db
unfolding basis
basis-eq f db db' p q = rw (p, q) refl

pub posted_to-create_transaction :
    (f : ℕ) (db : Db) (flow : CashFlow) (amount : ℤ) (date fund : ℕ) (shift : Option ℕ)
    (employee : ℕ) (invoice : Option ℕ)
    → posted_to f (create_transaction db flow amount date fund shift employee invoice).transactions
      ≡ (if fund == f
          then signed flow amount +ℤ posted_to f db.transactions
          else posted_to f db.transactions)
unfolding posted_to create_transaction
posted_to-create_transaction f db flow amount date fund shift employee invoice = refl

pub balance_of-set :
    (f k : ℕ) (b : ℤ) {r : Fund} (funds : List Fund)
    → find (λ r. r.id) k funds ≡ some r
    → balance_of f (update (λ r. r.id) k (set_balance b) funds)
      ≡ (if k == f then b else balance_of f funds)
unfolding balance_of
balance_of-set f k b funds e =
    ground (arith, find-update (λ r. r.id) f k (set_balance b) funds (λ r. refl))

pub balance_of-add :
    (f k : ℕ) (a : ℤ) {r : Fund} (funds : List Fund)
    → find (λ r. r.id) k funds ≡ some r
    → balance_of f (update (λ r. r.id) k (add_balance a) funds)
      ≡ (if k == f then balance_of f funds +ℤ a else balance_of f funds)
unfolding balance_of
balance_of-add f k a funds e =
    ground (arith, find-update (λ r. r.id) f k (add_balance a) funds (λ r. refl))

pub balance_of-find :
    (k : ℕ) {r : Fund} (funds : List Fund)
    → find (λ r. r.id) k funds ≡ some r
    → balance_of k funds ≡ r.balance
unfolding balance_of
balance_of-find k funds e = rw e
