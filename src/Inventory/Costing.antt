-- ===== src/Inventory/Costing.antt =====
-- services/inventory-costing.ts: the average cost after an import.
use Prim.Native.Nat.{ℕ, suc, ◌+◌, ◌*◌, ◌/◌, ◌≤◌, ◌<◌}
use native.Mathlib.Nat.{div-lt_iff_lt-mul, le-div_iff_mul-le, mul-le-mul_left}
use coffee_shop_be.Prelude.{arith, ◌≡◌}
use coffee_shop_be.Inventory.Stock.{calculate_weighted_average_cost, div_round}

div_round-le : (n d high : ℕ) → 0 < d → n ≤ high * d → div_round n d ≤ high
div_round-le n d high p h =
    let product : suc high * (d + d) ≡ high * d + high * d + d + d = omega arith in
    let below : (n + n + d) / (d + d) < suc high =
      (div-lt_iff_lt-mul {k = d + d} (omega (arith, p))).1 (omega (arith, product, h, p)) in
    omega (arith, below)

div_round-ge : (n d low : ℕ) → 0 < d → low * d ≤ n → low ≤ div_round n d
div_round-ge n d low p h =
    let product : low * (d + d) ≡ low * d + low * d = omega arith in
    (le-div_iff_mul-le {k = d + d} (omega (arith, p))).1 (omega (arith, product, h))

-- The average cost after an import lies between any two bounds of the average before it and the
-- price of the import.
pub average_cost-between :
    (stock average quantity price low high : ℕ)
    → 0 < quantity
    → low ≤ average
    → low ≤ price
    → average ≤ high
    → price ≤ high
    → (low ≤ calculate_weighted_average_cost stock average quantity price)
      × (calculate_weighted_average_cost stock average quantity price ≤ high)
unfolding calculate_weighted_average_cost
average_cost-between stock average quantity price low high p la lp ah ph =
    let n = stock * average + quantity * price in
    let d = stock + quantity in
    let pos : 0 < d = omega (arith, p) in
    let bounds : (low * d ≤ n) × (n ≤ high * d) = (
      omega (arith, mul-le-mul_left stock la, mul-le-mul_left quantity lp),
      omega (arith, mul-le-mul_left stock ah, mul-le-mul_left quantity ph),
    ) in
    (
      ground (arith, pos, div_round-ge n d low pos bounds.0),
      ground (arith, pos, div_round-le n d high pos bounds.1),
    )
