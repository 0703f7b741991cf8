-- ===== src/Promotions/Policy.antt =====
-- policies/promotion-policy.service.ts: the guards on promotions. Amounts are numbers of
-- ten-thousandths, to which `toPositiveDecimal` rounds; times are milliseconds.
use coffee_shop_be.Prelude.{
  ℕ, Bool, true, false, ◌&&◌, ◌||◌, not, Option, none, some, ◌==◌, ltb, leb, if◌then◌else◌, is_some,
  ◌≡◌, ◌≢◌, ◌⊎◌, ◌≤◌, ◌<◌, arith,
}
use coffee_shop_be.Prelude.Http.{Result, ok, err, ◌>>◌, guard, throw_if, bad_request, conflict}

pub data DiscountType : Type 0 where
  percentage fixed_amount : DiscountType

abbrev pub is_percentage : DiscountType → Bool
is_percentage percentage = true
is_percentage fixed_amount = false

abbrev pub same_discount : DiscountType → DiscountType → Bool
same_discount percentage percentage = true
same_discount fixed_amount fixed_amount = true
same_discount percentage fixed_amount = false
same_discount fixed_amount percentage = false

-- The terms of a promotion, and the row.
pub record Terms : Type 0 where
  pub discount_type : DiscountType
  pub discount_value : ℕ
  pub max_discount : Option ℕ

pub record Promotion : Type 0 where
  pub id : ℕ
  pub terms : Terms
  pub name : ℕ
  pub start_date : ℕ
  pub end_date : ℕ
  pub deleted_at : Option ℕ
  pub updated_at : ℕ
  pub show_on_storefront : Bool
  pub storefront_description : Option ℕ

unfoldable pub to_positive_decimal : ℕ → Result ℕ
to_positive_decimal value = if value == 0 then err bad_request else ok value

unfoldable pub assert_date_range_valid : ℕ → ℕ → Result (Unit {0})
assert_date_range_valid start_date end_date = throw_if (leb end_date start_date) bad_request

-- 100 percent is 1,000,000 ten-thousandths.
abbrev pub not_positive : Option ℕ → Bool
not_positive none = false
not_positive (some m) = m == 0

unfoldable pub assert_discount_value_valid : Terms → Result (Unit {0})
assert_discount_value_valid t = do
  throw_if (is_percentage t.discount_type && ltb 1_000_000 t.discount_value) bad_request
  throw_if (t.discount_value == 0) bad_request
  throw_if (not_positive t.max_discount) bad_request

unfoldable pub assert_promotion_can_be_applied : Option Promotion → ℕ → Result (Unit {0})
assert_promotion_can_be_applied none at = err bad_request
assert_promotion_can_be_applied (some p) at = do
  throw_if (is_some p.deleted_at) bad_request
  throw_if (ltb at p.start_date) bad_request
  throw_if (leb p.end_date at) bad_request

unfoldable pub assert_promotion_can_be_updated : Option Promotion → Result (Unit {0})
assert_promotion_can_be_updated none = err bad_request
assert_promotion_can_be_updated (some p) = throw_if (is_some p.deleted_at) bad_request

unfoldable pub assert_promotion_can_be_deleted : Option Promotion → Result (Unit {0})
assert_promotion_can_be_deleted none = err bad_request
assert_promotion_can_be_deleted (some p) = throw_if (is_some p.deleted_at) conflict

unfoldable pub assert_promotion_can_be_restored : Option Promotion → Result (Unit {0})
assert_promotion_can_be_restored none = err bad_request
assert_promotion_can_be_restored (some p) = guard (is_some p.deleted_at) conflict

unfoldable pub optional_decimal_equals : Option ℕ → Option ℕ → Bool
optional_decimal_equals none none = true
optional_decimal_equals none (some b) = false
optional_decimal_equals (some a) none = false
optional_decimal_equals (some a) (some b) = a == b

unfoldable pub financial_fields_changed : Terms → Terms → Bool
unfolding optional_decimal_equals
financial_fields_changed before after =
    not (same_discount before.discount_type after.discount_type)
    || not (before.discount_value == after.discount_value)
    || not (optional_decimal_equals before.max_discount after.max_discount)

unfoldable pub assert_financial_fields_not_changed_when_used : ℕ → Terms → Terms → Result (Unit {0})
unfolding financial_fields_changed
assert_financial_fields_not_changed_when_used used_invoice_count before after =
    if used_invoice_count == 0
    then ok tt
    else throw_if (financial_fields_changed before after) conflict

-- A promotion applies exactly in its window: from the start on and before the end, if it exists
-- and is not deleted.
pub can_be_applied_iff :
    (p : Promotion) (at : ℕ)
    → (assert_promotion_can_be_applied (some p) at ≡ ok tt
        → (p.deleted_at ≡ none) × (p.start_date ≤ at) × (at < p.end_date))
      × (p.deleted_at ≡ none
          → p.start_date ≤ at
          → at < p.end_date
          → assert_promotion_can_be_applied (some p) at ≡ ok tt)
unfolding assert_promotion_can_be_applied
can_be_applied_iff p at = (ground arith, ground arith)

-- Of update, delete and restore, exactly one of delete and restore is open to an existing
-- promotion, and an update is open exactly when a delete is.
pub lifecycle_exclusive :
    (p : Promotion)
    → ((assert_promotion_can_be_deleted (some p) ≡ ok tt)
        × (assert_promotion_can_be_updated (some p) ≡ ok tt)
        × (assert_promotion_can_be_restored (some p) ≡ err conflict))
      ⊎ ((assert_promotion_can_be_deleted (some p) ≡ err conflict)
          × (assert_promotion_can_be_updated (some p) ≡ err bad_request)
          × (assert_promotion_can_be_restored (some p) ≡ ok tt))
unfolding assert_promotion_can_be_deleted assert_promotion_can_be_updated
    assert_promotion_can_be_restored
lifecycle_exclusive p = ground arith

-- Once an invoice has used a promotion, the guard passes exactly for unchanged terms.
pub terms_frozen_iff :
    (n : ℕ) (before after : Terms)
    → n ≢ 0
    → (assert_financial_fields_not_changed_when_used n before after ≡ ok tt → before ≡ after)
      × (before ≡ after → assert_financial_fields_not_changed_when_used n before after ≡ ok tt)
unfolding assert_financial_fields_not_changed_when_used
terms_frozen_iff n before after h = (ground arith, ground arith)
