-- ===== src/Promotions/Service.antt =====
-- promotions.service.ts and repositories/promotions.repository.ts: the life of a promotion. The
-- comparison of names that the database makes without regard to case is a parameter.
use coffee_shop_be.Prelude.{
  ℕ, suc, Bool, true, false, ◌&&◌, not, Option, none, some, List, ◌∷◌, ◌==◌, any, count,
  if◌then◌else◌, leb, ltb, ◌||◌, is_some, ◌+◌, ◌*◌, ◌/◌,
}
use coffee_shop_be.Prelude.Table.{find, update}
use coffee_shop_be.Prelude.Http.{
  Result, ok, ◌>>=◌, ◌>>◌, guard, throw_if, or_throw, bad_request, not_found, conflict, internal,
}
use coffee_shop_be.Promotions.Policy.{
  DiscountType, is_percentage, Terms, Promotion, to_positive_decimal, assert_date_range_valid,
  assert_discount_value_valid, assert_promotion_can_be_updated, assert_promotion_can_be_deleted,
  assert_promotion_can_be_restored, assert_financial_fields_not_changed_when_used,
}

pub record Employee : Type 0 where
  pub id : ℕ
  pub is_active : Bool

pub data Action : Type 0 where
  promotion_created promotion_updated promotion_deleted promotion_restored storefront_updated :
      Action

pub record LogEntry : Type 0 where
  pub employee_id : ℕ
  pub action : Action
  pub promotion_id : ℕ

-- `invoice_promotions` holds the promotion of each invoice that has one.
pub record Db : Type 0 where
  pub next_id : ℕ
  pub employees : List Employee
  pub promotions : List Promotion
  pub invoice_promotions : List ℕ
  pub logs : List LogEntry

pub record CreateDto : Type 0 where
  pub name : ℕ
  pub start_date : ℕ
  pub end_date : ℕ
  pub terms : Terms

pub record UpdateDto : Type 0 where
  pub name : Option ℕ
  pub start_date : Option ℕ
  pub end_date : Option ℕ
  pub discount_type : Option DiscountType
  pub discount_value : Option ℕ
  pub max_discount : Option (Option ℕ)

abbrev pub or_else : {A : Type 0} → Option A → A → A
or_else none a = a
or_else (some b) a = b

unfoldable pub assert_active_employee : Db → ℕ → Result (Unit {0})
assert_active_employee db employee_id =
    guard (any (λ e. (e.id == employee_id) && e.is_active) db.employees) bad_request

abbrev pub find_promotion : Db → ℕ → Option Promotion
find_promotion db id = find (λ p. p.id) id db.promotions

-- A column of two decimals rounds half up.
abbrev pub stored : ℕ → ℕ
stored v = (v + 50) / 100 * 100

abbrev pub stored_terms : Terms → Terms
stored_terms t = record {
  discount_type = t.discount_type;
  discount_value = stored t.discount_value;
  max_discount = elim t.max_discount [ none ↦ none | some m ↦ some (stored m) ];
}

abbrev pub log : Db → ℕ → Action → ℕ → Db
log db employee_id action id = record db {
  logs = record { employee_id = employee_id; action = action; promotion_id = id } ∷ db.logs;
}

abbrev pub positive_option : Option ℕ → Result (Option ℕ)
positive_option none = ok none
positive_option (some m) = to_positive_decimal m >>= λ v. ok (some v)

unfoldable pub normalize_terms : Terms → Result Terms
unfolding to_positive_decimal
normalize_terms t = do
  discount_value ← to_positive_decimal t.discount_value
  max_discount ← positive_option t.max_discount
  ok (record {
    discount_type = t.discount_type;
    discount_value = discount_value;
    max_discount = max_discount;
  })

abbrev pub merged_value : Option ℕ → ℕ → Result ℕ
merged_value none existing = ok existing
merged_value (some v) existing = to_positive_decimal v

abbrev pub merged_maximum : Option (Option ℕ) → Option ℕ → Result (Option ℕ)
merged_maximum none existing = ok existing
merged_maximum (some m) existing = positive_option m

unfoldable pub merge_promotion_input : Promotion → UpdateDto → Result Promotion
unfolding to_positive_decimal
merge_promotion_input existing dto = do
  discount_value ← merged_value dto.discount_value existing.terms.discount_value
  max_discount ← merged_maximum dto.max_discount existing.terms.max_discount
  ok (record existing {
    name = or_else dto.name existing.name;
    start_date = or_else dto.start_date existing.start_date;
    end_date = or_else dto.end_date existing.end_date;
    terms = record {
      discount_type = or_else dto.discount_type existing.terms.discount_type;
      discount_value = discount_value;
      max_discount = max_discount;
    };
  })

unfoldable pub count_invoices_using_promotion : Db → ℕ → ℕ
count_invoices_using_promotion db id = count (λ p. p == id) db.invoice_promotions

abbrev pub not_excluded : Option ℕ → ℕ → Bool
not_excluded none id = true
not_excluded (some e) id = not (e == id)

abbrev pub name_changes : Option ℕ → ℕ → Bool
name_changes none name = false
name_changes (some n) name = not (n == name)

-- The soft-delete extension hides a deleted row from `findActiveById`.
abbrev pub find_active_by_id : Db → ℕ → Option Promotion
find_active_by_id db id = elim (find_promotion db id) [
  | none ↦ none
  | some p ↦ if is_some p.deleted_at then none else some p
]

abbrev pub write_input : Promotion → ℕ → Promotion → Promotion
write_input next now p = record p {
  name = next.name;
  start_date = next.start_date;
  end_date = next.end_date;
  terms = stored_terms next.terms;
  updated_at = now;
}

abbrev pub new_promotion : ℕ → ℕ → CreateDto → Terms → Promotion
new_promotion id now dto terms = record {
  id = id;
  terms = stored_terms terms;
  name = dto.name;
  start_date = dto.start_date;
  end_date = dto.end_date;
  deleted_at = none;
  updated_at = now;
  show_on_storefront = false;
  storefront_description = none;
}

abbrev pub positive_maximum : Option ℕ → Bool
positive_maximum none = true
positive_maximum (some m) = ltb 0 m

-- The CHECK constraints of the table, which the database tests on the stored row.
abbrev pub row_checks : Promotion → Bool
row_checks p =
    ltb p.start_date p.end_date
    && ltb 0 p.terms.discount_value
    && positive_maximum p.terms.max_discount
    && (not (is_percentage p.terms.discount_type) || leb p.terms.discount_value 1_000_000)

module _ (same_name : ℕ → ℕ → Bool) where
  unfoldable pub ensure_name_available : Db → ℕ → Option ℕ → Result (Unit {0})
  ensure_name_available db name exclude =
      throw_if
        (any (λ p. same_name p.name name && not (is_some p.deleted_at) && not_excluded exclude p.id)
          db.promotions)
        conflict

  unfoldable pub create : Db → ℕ → ℕ → CreateDto → Result Db
  unfolding normalize_terms assert_date_range_valid assert_discount_value_valid
      assert_active_employee ensure_name_available
  create db now employee_id dto = do
    terms ← normalize_terms dto.terms
    assert_date_range_valid dto.start_date dto.end_date
    assert_discount_value_valid terms
    assert_active_employee db employee_id
    ensure_name_available db dto.name none
    let row = new_promotion db.next_id now dto terms
    throw_if (not (row_checks row)) internal
    ok (
        log (record db { next_id = suc db.next_id; promotions = row ∷ db.promotions }) employee_id
          promotion_created db.next_id)

  unfoldable pub update_promotion : Db → ℕ → ℕ → ℕ → UpdateDto → Result Db
  unfolding assert_active_employee assert_promotion_can_be_updated count_invoices_using_promotion
      merge_promotion_input assert_date_range_valid assert_discount_value_valid
      assert_financial_fields_not_changed_when_used ensure_name_available
  update_promotion db now id employee_id dto = do
    assert_active_employee db employee_id
    existing ← or_throw (find_active_by_id db id) not_found
    assert_promotion_can_be_updated (some existing)
    next ← merge_promotion_input existing dto
    assert_date_range_valid next.start_date next.end_date
    assert_discount_value_valid next.terms
    assert_financial_fields_not_changed_when_used (count_invoices_using_promotion db id)
        existing.terms next.terms
    if name_changes dto.name existing.name
        then ensure_name_available db next.name (some id)
        else ok tt
    throw_if (not (row_checks (write_input next now existing))) internal
    ok (
        log (record db { promotions = update (λ p. p.id) id (write_input next now) db.promotions })
          employee_id promotion_updated id)

  -- The new `updatedAt` is later than the expected one.
  unfoldable pub update_storefront : Db → ℕ → ℕ → ℕ → Bool → Option ℕ → ℕ → Result Db
  unfolding assert_active_employee
  update_storefront db now id employee_id show description expected = do
    assert_active_employee db employee_id
    existing ← or_throw (find_active_by_id db id) not_found
    throw_if (show && leb existing.end_date now) conflict
    guard (existing.updated_at == expected) conflict
    ok (
        log
          (record db {
            promotions =
                update (λ p. p.id) id
                  (λ p. record p {
                    show_on_storefront = show;
                    storefront_description = description;
                    updated_at = if leb now expected then suc expected else now;
                  })
                  db.promotions;
          })
          employee_id storefront_updated id)

  unfoldable pub remove : Db → ℕ → ℕ → ℕ → Result Db
  unfolding assert_active_employee assert_promotion_can_be_deleted
  remove db now id employee_id = do
    assert_active_employee db employee_id
    assert_promotion_can_be_deleted (find_promotion db id)
    ok (
        log
          (record db {
            promotions =
                update (λ p. p.id) id
                  (λ p. record p {
                    deleted_at = some now;
                    show_on_storefront = false;
                    updated_at = now;
                  })
                  db.promotions;
          })
          employee_id promotion_deleted id)

  unfoldable pub restore : Db → ℕ → ℕ → ℕ → Result Db
  unfolding assert_active_employee assert_promotion_can_be_restored assert_date_range_valid
      ensure_name_available
  restore db now id employee_id = do
    assert_active_employee db employee_id
    assert_promotion_can_be_restored (find_promotion db id)
    existing ← or_throw (find_promotion db id) bad_request
    assert_date_range_valid existing.start_date existing.end_date
    ensure_name_available db existing.name (some id)
    ok (
        log
          (record db {
            promotions =
                update (λ p. p.id) id (λ p. record p { deleted_at = none; updated_at = now })
                  db.promotions;
          })
          employee_id promotion_restored id)
