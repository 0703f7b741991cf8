-- ===== src/Orders/Seated.antt =====
-- At most one active session sits at a table, and none at a table that is not occupied.
pub mod Open
pub mod Close
pub mod Merge
pub mod Moves
use coffee_shop_be.Prelude.{
  ℕ, Bool, true, false, not, ◌&&◌, Option, none, some, List, [], ◌∷◌, ◌++◌, ◌+◌, ◌≤◌, ◌==◌, ◌≡◌,
  ◌≢◌, ◌∙◌, refl, sym, ap, subst, inl, inr, arith, count, contains, opt_eq, is_some, if◌then◌else◌,
  Bool-cases, Option-cases, ==_iff, ==_refl,
}
use mathlib.Core.Option
use coffee_shop_be.Prelude.Table.{
  find, first, claim, update, find-key, update_many, find-update, find-update_many, claim-eq_some,
}
use coffee_shop_be.Prelude.Http.{
  Result, ok, ok_injective, >>=-eq_ok, or_throw-eq_ok, guard-eq_ok, throw_if-eq_ok, bad_request,
  not_found, conflict,
}
use coffee_shop_be.Orders.Floor.{Event, IsEvent}
use coffee_shop_be.Orders.Lines.{AreKept}
use coffee_shop_be.Orders.Types.{Db, Table, Session, is_empty, is_occupied, is_active, table_key}
use coffee_shop_be.Orders.Policy.{seated_at, find_table}
use coffee_shop_be.Orders.Seating.{occupy, release, new_session}

abbrev pub taken_option : Option Table → ℕ
taken_option none = 0
taken_option (some r) = if is_occupied r.status then 1 else 0

unfoldable pub taken : ℕ → List Table → ℕ
taken t tables = taken_option (find table_key t tables)

abbrev pub IsSeated : Db → Type 0
IsSeated db = (t : ℕ) → count (seated_at t) db.sessions ≤ taken t db.tables

-- What every operation on a session shows: the tables are still seated, and the lines kept.
abbrev pub Follows : Db → Event → Db → Type 0
Follows db e db' =
    IsSeated db' × AreKept db.order_items db'.order_items × IsEvent e db.sessions db'.sessions

taken_option_le : (o : Option Table) → taken_option o ≤ 1
taken_option_le none = omega arith
taken_option_le (some r) = ground arith

pub taken_le : (t : ℕ) (tables : List Table) → taken t tables ≤ 1
unfolding taken
taken_le t tables = taken_option_le (find table_key t tables)

empty_free : (r : Table) → is_empty r.status ≡ true → taken_option (some r) ≡ 0
empty_free r h = ground arith

pub taken-claimed :
    (k : ℕ) (tables : List Table) {r : Table}
    → find table_key k tables ≡ some r
    → (t : ℕ) → taken t (update table_key k occupy tables) ≡ (if t == k then 1 else taken t tables)
unfolding taken
taken-claimed k tables {r} found t =
    let there = find-update table_key t k occupy tables (λ x. refl) in
    elim (Bool-cases (t == k)) [
      | inl same ↦ ground (arith, there, same, found)
      | inr other ↦ ground (arith, there, other)
    ]

-- A table that is claimed was not occupied, and is occupied then; other tables stay as they are.
pub taken-occupy :
    (k : ℕ) (cond : Table → Bool) (tables : List Table) {tables' : List Table}
    → ((r : Table) → cond r ≡ true → is_empty r.status ≡ true)
    → claim table_key k cond occupy tables ≡ some tables'
    → (taken k tables ≡ 0) × ((t : ℕ) → taken t tables' ≡ (if t == k then 1 else taken t tables))
unfolding taken
taken-occupy k cond tables {tables'} h e =
    let (r, found, met, written) = claim-eq_some table_key k cond occupy tables e in
    (
      ap taken_option found ∙ empty_free r (h r met),
      λ t. ap (taken t) written ∙ taken-claimed k tables found t,
    )

spared :
    (cond : Table → Bool) (o : Option Table)
    → ((r : Table) → o ≡ some r → cond r ≡ false)
    → taken_option (Option.map (λ r. if cond r then release r else r) o) ≡ taken_option o
spared cond none h = refl
spared cond (some r) h = rw (h r refl) refl

-- A table whose row is not released.
pub taken-spared :
    (t : ℕ) (cond : Table → Bool) (tables : List Table)
    → ((r : Table) → r.id ≡ t → cond r ≡ false)
    → taken t (update_many cond release tables) ≡ taken t tables
unfolding taken
taken-spared t cond tables h =
    ap taken_option (find-update_many table_key t cond release tables (λ r. refl))
    ∙ spared cond (find table_key t tables) (λ r e. h r (find-key table_key t tables e))

freed :
    (cond : Table → Bool) (o : Option Table)
    → ((r : Table) → o ≡ some r → cond r ≡ true)
    → taken_option (Option.map (λ r. if cond r then release r else r) o) ≡ 0
freed cond none h = refl
freed cond (some r) h = rw (h r refl) refl

-- A table whose row is released.
pub taken-freed :
    (t : ℕ) (cond : Table → Bool) (tables : List Table)
    → ((r : Table) → r.id ≡ t → cond r ≡ true)
    → taken t (update_many cond release tables) ≡ 0
unfolding taken
taken-freed t cond tables h =
    ap taken_option (find-update_many table_key t cond release tables (λ r. refl))
    ∙ freed cond (find table_key t tables) (λ r e. h r (find-key table_key t tables e))
