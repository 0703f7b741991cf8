-- ===== src/Promotions/Tests.antt =====
-- A table with one promotion that an invoice uses, on which the laws of promotions are applied.
use coffee_shop_be.Prelude.{
  ℕ, true, none, some, List, [], ◌∷◌, ◌==◌, ◌≡◌, ◌≤◌, ◌*◌, ◌+◌, refl, arith,
}
use coffee_shop_be.Prelude.Table.{find}
use coffee_shop_be.Prelude.Http.{ok, err, bad_request, conflict, internal}
use coffee_shop_be.Promotions.Policy.{
  percentage, fixed_amount, Terms, Promotion, assert_financial_fields_not_changed_when_used,
  terms_frozen_iff,
}
use coffee_shop_be.Promotions.Calculator.{
  calculate_discount_amount, whole_cents_never_refused, half_cent_refused,
}
use coffee_shop_be.Promotions.Service.{
  Db, UpdateDto, CreateDto, find_promotion, count_invoices_using_promotion,
}
use coffee_shop_be.Promotions.Runs.{
  Command, create, update_promotion, remove, restore, update_storefront, run, handle, IsWellFormed,
  run-KeepsTerms,
}

-- 10 percent, at most 50.00.
abbrev ten_percent : Terms
ten_percent = record {
  discount_type = percentage;
  discount_value = 100_000;
  max_discount = some 500_000;
}

-- 2.00 off.
abbrev two_off : Terms
two_off = record { discount_type = fixed_amount; discount_value = 20_000; max_discount = none }

abbrev summer : Promotion
summer = record {
  id = 5;
  terms = ten_percent;
  name = 70;
  start_date = 1_000;
  end_date = 2_000;
  deleted_at = none;
  updated_at = 900;
  show_on_storefront = true;
  storefront_description = none;
}

abbrev shop : Db
shop = record {
  next_id = 6;
  employees = record { id = 1; is_active = true } ∷ [];
  promotions = summer ∷ [];
  invoice_promotions = 5 ∷ [];
  logs = [];
}

abbrev no_change : UpdateDto
no_change = record {
  name = none;
  start_date = none;
  end_date = some 3_000;
  discount_type = none;
  discount_value = none;
  max_discount = none;
}

-- A new value of 25.
abbrev new_value : UpdateDto
new_value = record no_change { discount_value = some 250_000 }

abbrev commands : List Command
commands =
    update_promotion 1_100 5 1 new_value
    ∷ update_promotion 1_200 5 1 no_change
    ∷ create 1_300 1 (record { name = 71; start_date = 1; end_date = 9; terms = two_off })
    ∷ remove 1_400 5 1
    ∷ restore 1_500 5 1
    ∷ update_storefront 1_600 5 1 true (some 4) 1_500
    ∷ []

frozen : handle (λ a b. a == b) (update_promotion 1_100 5 1 new_value) shop ≡ err conflict
unfolding handle find
frozen = refl

shop-IsWellFormed : IsWellFormed shop
shop-IsWellFormed = (((omega arith, (λ k. omega arith), refl), tt), (omega arith, tt))

-- A value of 0.0049 passes the service's check that it is positive, would be stored as 0, and is
-- refused by the table's constraint.
vanishing : CreateDto
vanishing = record {
  name = 72;
  start_date = 1;
  end_date = 9;
  terms = record { discount_type = fixed_amount; discount_value = 49; max_discount = none };
}

vanishing_refused : handle (λ a b. a == b) (create 0 1 vanishing) shop ≡ err internal
unfolding handle vanishing
vanishing_refused = refl

terms_frozen_iff_example :
    (assert_financial_fields_not_changed_when_used 1 ten_percent two_off ≡ ok tt
      → ten_percent ≡ two_off)
    × (ten_percent ≡ two_off
        → assert_financial_fields_not_changed_when_used 1 ten_percent two_off ≡ ok tt)
terms_frozen_iff_example = terms_frozen_iff 1 ten_percent two_off (omega arith)

-- 10 percent of 123.456 is 12.35.
rounded_up : calculate_discount_amount ten_percent 1_234_560 ≡ ok 1_235
unfolding calculate_discount_amount
rounded_up = refl

whole_cents_never_refused_example :
    (discount : ℕ) × (calculate_discount_amount ten_percent (12_345 * 100) ≡ ok discount)
    × (discount ≤ 12_345)
    × ((m : ℕ) → ten_percent.max_discount ≡ some (m * 100) → discount ≤ m)
    × ((v : ℕ)
        → ten_percent.discount_type ≡ fixed_amount
        → ten_percent.discount_value ≡ v * 100
        → discount ≤ v)
whole_cents_never_refused_example = whole_cents_never_refused ten_percent 12_345

half_cent_refused_example : calculate_discount_amount two_off (150 * 100 + 50) ≡ err bad_request
half_cent_refused_example = half_cent_refused two_off 150 refl refl (omega arith)

run-KeepsTerms_example :
    (p' : Promotion) × (find_promotion (run (λ a b. a == b) commands shop) 5 ≡ some p')
    × (p'.terms ≡ ten_percent)
unfolding count_invoices_using_promotion find
run-KeepsTerms_example =
    run-KeepsTerms (λ a b. a == b) commands shop shop-IsWellFormed 5 (omega arith) summer refl
