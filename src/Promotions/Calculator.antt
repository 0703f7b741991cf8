-- ===== src/Promotions/Calculator.antt =====
-- services/promotion-calculator.service.ts: the discount of a promotion on a subtotal. Exact
-- decimals are numbers in a unit of 10^-10, which holds a percentage of a subtotal exactly: the
-- subtotal and the terms are in 10^-4. The result is in hundredths.
use coffee_shop_be.Prelude.{
  ℕ, Bool, false, Option, none, some, ltb, if◌then◌else◌, ◌≡◌, refl, ◌≤◌, ◌+◌, ◌*◌, ◌/◌, min, arith,
}
use coffee_shop_be.Prelude.Http.{Result, ok, err, ◌>>◌, bad_request, not_found}
use coffee_shop_be.Promotions.Policy.{
  DiscountType, percentage, fixed_amount, Terms, Promotion, assert_promotion_can_be_applied,
}

-- Hundredths in the exact unit, and `toDecimalPlaces(2)`, which rounds half up.
abbrev pub cents : ℕ → ℕ
cents m = m * 100_000_000

abbrev pub round_cents : ℕ → ℕ
round_cents x = (x + 50_000_000) / 100_000_000

abbrev pub raw_discount : DiscountType → ℕ → ℕ → ℕ
raw_discount percentage discount_value sub_total = sub_total * discount_value
raw_discount fixed_amount discount_value sub_total = discount_value * 1_000_000

abbrev pub capped_by_promotion : Option ℕ → ℕ → ℕ
capped_by_promotion none raw = raw
capped_by_promotion (some m) raw = min raw (m * 1_000_000)

-- `sub_total * 1_000_000` is the subtotal in the exact unit.
unfoldable pub calculate_discount_amount : Terms → ℕ → Result ℕ
calculate_discount_amount t sub_total =
    let raw = raw_discount t.discount_type t.discount_value sub_total in
    let discount =
      round_cents (min (capped_by_promotion t.max_discount raw) (sub_total * 1_000_000)) in
    if ltb (sub_total * 1_000_000) (cents discount) then err bad_request else ok discount

unfoldable pub calculate_discount_tx : Option Promotion → ℕ → ℕ → Result ℕ
unfolding assert_promotion_can_be_applied calculate_discount_amount
calculate_discount_tx none sub_total at = err not_found
calculate_discount_tx (some p) sub_total at = do
  assert_promotion_can_be_applied (some p) at
  calculate_discount_amount p.terms sub_total

-- A discount that is returned is at most the subtotal.
pub discount_bounded :
    (t : Terms) (sub_total : ℕ) {discount : ℕ}
    → calculate_discount_amount t sub_total ≡ ok discount
    → cents discount ≤ sub_total * 1_000_000
unfolding calculate_discount_amount
discount_bounded t sub_total e = ground arith

round_cents-capped : (x c : ℕ) → x ≤ cents c → round_cents x ≤ c
round_cents-capped x c h = omega arith

min-le : (a b : ℕ) → min a b ≤ b
min-le a b = ground arith

round_cents-min : (x y c : ℕ) → x ≤ cents c → round_cents (min x y) ≤ c
round_cents-min x y c h = ground (arith, round_cents-capped (min x y) c)

capped-maximum :
    (o : Option ℕ) (raw m : ℕ) → o ≡ some (m * 100) → capped_by_promotion o raw ≤ cents m
capped-maximum o raw m e = ground (arith, min-le raw (m * 100 * 1_000_000))

capped-fixed :
    (o : Option ℕ) (k : DiscountType) (v s : ℕ)
    → k ≡ fixed_amount
    → capped_by_promotion o (raw_discount k (v * 100) s) ≤ cents v
capped-fixed o k v s e = ground arith

refuse_above : (b : Bool) (d : ℕ) → b ≡ false → (if b then err bad_request else ok d) ≡ ok d
refuse_above b d h = rw h refl

-- A subtotal of whole cents is never refused, whatever the terms: there is a discount, it is at
-- most the subtotal, at most a maximum of whole cents when there is one, and at most a fixed
-- discount's value of whole cents.
pub whole_cents_never_refused :
    (t : Terms) (c : ℕ)
    → (discount : ℕ) × (calculate_discount_amount t (c * 100) ≡ ok discount)
      × (discount ≤ c)
      × ((m : ℕ) → t.max_discount ≡ some (m * 100) → discount ≤ m)
      × ((v : ℕ) → t.discount_type ≡ fixed_amount → t.discount_value ≡ v * 100 → discount ≤ v)
unfolding calculate_discount_amount
whole_cents_never_refused t c =
    let raw = raw_discount t.discount_type t.discount_value (c * 100) in
    let capped = capped_by_promotion t.max_discount raw in
    let discount = round_cents (min capped (c * 100 * 1_000_000)) in
    let le : discount ≤ c =
      round_cents-capped _ c (ground (arith, min-le capped (c * 100 * 1_000_000))) in
    (
      discount,
      refuse_above (ltb (c * 100 * 1_000_000) (cents discount)) discount (ground arith),
      le,
      (λ m e.
          round_cents-min capped (c * 100 * 1_000_000) m (capped-maximum t.max_discount raw m e)),
      (λ v e w.
          round_cents-min capped (c * 100 * 1_000_000) v
            (rw w (capped-fixed t.max_discount t.discount_type v (c * 100) e))),
    )

-- A promotion of a fixed amount without a maximum, whose value is at least `c + 1` cents, is refused
-- on a subtotal of `c` cents and a half: rounding comes after the cap.
pub half_cent_refused :
    (t : Terms) (c : ℕ)
    → t.discount_type ≡ fixed_amount
    → t.max_discount ≡ none
    → c * 100 + 100 ≤ t.discount_value
    → calculate_discount_amount t (c * 100 + 50) ≡ err bad_request
unfolding calculate_discount_amount
half_cent_refused t c p q h = rw (p, q) (ground arith)
