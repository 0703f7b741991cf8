-- ===== src/Prelude/Count.antt =====
-- How many rows of a table meet a condition, before and after an update.
use coffee_shop_be.Prelude.Tests.{Bool-cases, count, if◌then◌else◌}
use coffee_shop_be.Prelude.Table.{find, first, update_many}
use Prim.Native.Nat.{ℕ, ◌+◌, ◌≤◌}
use mathlib.Core.Path.{◌≡◌, refl}
use mathlib.Core.Bool.{Bool, true}
use mathlib.Core.Logic.{inl, inr}
use mathlib.Core.Option.{none, some}
use mathlib.Core.List.{List, [], ◌∷◌, ◌++◌}
use native.Mathlib.Omega.{arith}

abbrev pub weight : {A : Type 0} → (A → Bool) → A → ℕ
weight p r = if p r then 1 else 0

module _ {A : Type 0} where
  pub count-weight :
      (p : A → Bool) (r : A) (rows : List A) → count p (r ∷ rows) ≡ weight p r + count p rows
  count-weight p r rows = ground arith

  pub count-update_many_gained :
      (cond : A → Bool) (f : A → A) (p : A → Bool) (rows : List A)
      → count p (update_many cond f rows) ≤ count p rows + count cond rows
  unfolding update_many
  count-update_many_gained cond f p [] = omega arith
  count-update_many_gained cond f p (r ∷ rows) =
      let ih = count-update_many_gained cond f p rows in
      elim (Bool-cases (cond r)) [
        | inl met ↦ ground (arith, ih, met)
        | inr unmet ↦ ground (arith, ih, unmet)
      ]

  pub count_le :
      (p q : A → Bool) (rows : List A)
      → ((r : A) → p r ≡ true → q r ≡ true)
      → count p rows ≤ count q rows
  count_le p q [] h = omega arith
  count_le p q (r ∷ rows) h = ground (arith, h r, count_le p q rows h)

  pub count-update_many_le :
      (cond : A → Bool) (f : A → A) (p : A → Bool) (rows : List A)
      → ((r : A) → weight p (if cond r then f r else r) ≤ weight p r)
      → count p (update_many cond f rows) ≤ count p rows
  unfolding update_many
  count-update_many_le cond f p [] h = omega arith
  count-update_many_le cond f p (r ∷ rows) h =
      let ih = count-update_many_le cond f p rows h in
      let here = h r in
      elim (Bool-cases (cond r)) [
        | inl met ↦ ground (arith, ih, here, met)
        | inr unmet ↦ ground (arith, ih, here, unmet)
      ]

  -- Rows that no longer meet `p` are lost to its count.
  pub count-update_many_lost :
      (cond : A → Bool) (f : A → A) (p q : A → Bool) (rows : List A)
      → ((r : A) → weight p (if cond r then f r else r) + weight q r ≤ weight p r)
      → count p (update_many cond f rows) + count q rows ≤ count p rows
  unfolding update_many
  count-update_many_lost cond f p q [] h = omega arith
  count-update_many_lost cond f p q (r ∷ rows) h =
      let ih = count-update_many_lost cond f p q rows h in
      let here = h r in
      elim (Bool-cases (cond r)) [
        | inl met ↦ ground (arith, ih, here, met)
        | inr unmet ↦ ground (arith, ih, here, unmet)
      ]

  pub count-append : (p : A → Bool) (xs ys : List A) → count p (xs ++ ys) ≡ count p xs + count p ys
  count-append p [] ys = omega arith
  count-append p (x ∷ xs) ys = ground (arith, count-append p xs ys)

  pub first-meets :
      (cond : A → Bool) {r : A} (rows : List A) → first cond rows ≡ some r → cond r ≡ true
  unfolding first
  first-meets cond {r} [] e = ground arith
  first-meets cond {r} (x ∷ rows) e = elim (Bool-cases (cond x)) [
    | inl met ↦ ground (arith, met)
    | inr unmet ↦ ground (arith, unmet, first-meets cond {r = r} rows)
  ]

  pub first-count :
      (cond q : A → Bool) {r : A} (rows : List A)
      → first cond rows ≡ some r
      → q r ≡ true
      → 1 ≤ count q rows
  unfolding first
  first-count cond q {r} [] e h = ground arith
  first-count cond q {r} (x ∷ rows) e h = ground (arith, first-count cond q {r = r} rows)

  pub first-none : (cond : A → Bool) (rows : List A) → first cond rows ≡ none → count cond rows ≡ 0
  unfolding first
  first-none cond [] e = refl
  first-none cond (x ∷ rows) e = ground (arith, first-none cond rows)

  pub find-count :
      (key : A → ℕ) (k : ℕ) (p : A → Bool) {r : A} (rows : List A)
      → find key k rows ≡ some r
      → p r ≡ true
      → 1 ≤ count p rows
  unfolding find
  find-count key k p {r} [] e h = ground arith
  find-count key k p {r} (x ∷ rows) e h = ground (arith, find-count key k p {r = r} rows)
