-- ===== src/Prelude/Table.antt =====
-- Tables of a database as lists of rows with a primary key, and the queries of the ORM on them.
use Prim.Native.Nat.{ℕ}
use mathlib.Core.Path.{◌≡◌, refl, subst, sym}
use mathlib.Core.Bool.{true, Bool}
use mathlib.Core.Logic.{inl, inr}
use mathlib.Core.Option
use mathlib.Core.Option.{Option, none, some}
use mathlib.Core.List.{List, [], ◌∷◌, ◌++◌}
use native.Mathlib.Omega.{arith}
use coffee_shop_be.Prelude.Tests.{◌==◌, if◌then◌else◌, Bool-cases}

-- `findFirst` on other columns.
unfoldable pub first : {A : Type 0} → (A → Bool) → List A → Option A
first cond [] = none
first cond (r ∷ rows) = if cond r then some r else first cond rows

-- `updateMany`; the rows that meet the condition are its count.
unfoldable pub update_many : {A : Type 0} → (A → Bool) → (A → A) → List A → List A
update_many cond f [] = []
update_many cond f (r ∷ rows) =
    let rest = update_many cond f rows in if cond r then f r ∷ rest else r ∷ rest

module _ {A : Type 0} (key : A → ℕ) where
  -- `findUnique` by primary key.
  unfoldable pub find : ℕ → List A → Option A
  find k [] = none
  find k (r ∷ rows) = if key r == k then some r else find k rows

  -- `update` by primary key, which is unique: the row that `find` finds.
  unfoldable pub update : ℕ → (A → A) → List A → List A
  update k f [] = []
  update k f (r ∷ rows) = let rest = update k f rows in if key r == k then f r ∷ rows else r ∷ rest

  -- `updateMany` on one key and more conditions; `none` is a count other than 1.
  unfoldable pub claim : ℕ → (A → Bool) → (A → A) → List A → Option (List A)
  claim k cond f rows = elim (find k rows) [
    | none ↦ none
    | some r ↦ if cond r then some (update k f rows) else none
  ]

  pub find-update_many :
      (k : ℕ) (cond : A → Bool) (f : A → A) (rows : List A)
      → ((r : A) → key (f r) ≡ key r)
      → find k (update_many cond f rows) ≡ Option.map (λ r. if cond r then f r else r) (find k rows)
  unfolding find update_many
  find-update_many k cond f [] h = refl
  find-update_many k cond f (r ∷ rows) h = ground (arith, h r, find-update_many k cond f rows h)

  -- A new row at the end shadows no row.
  pub find-append :
      (k : ℕ) {s : A} (rows more : List A) → find k rows ≡ some s → find k (rows ++ more) ≡ some s
  unfolding find
  find-append k {s} [] more e = ground arith
  find-append k {s} (r ∷ rows) more e = ground (arith, find-append k {s = s} rows more)

  pub find-update :
      (j k : ℕ) (f : A → A) (rows : List A)
      → ((r : A) → key (f r) ≡ key r)
      → find j (update k f rows) ≡ (if j == k then Option.map f (find j rows) else find j rows)
  unfolding find update
  find-update j k f [] h = ground arith
  find-update j k f (r ∷ rows) h = ground (arith, h r, find-update j k f rows h)

  pub find-update_self :
      (k : ℕ) (f : A → A) {s : A} (rows : List A)
      → ((r : A) → key (f r) ≡ key r)
      → find k rows ≡ some s
      → find k (update k f rows) ≡ some (f s)
  unfolding find update
  find-update_self k f {s} [] h e = ground arith
  find-update_self k f {s} (r ∷ rows) h e = ground (arith, h r, find-update_self k f {s = s} rows h)

  -- A row that is found has the key that was looked up.
  pub find-key : (k : ℕ) {s : A} (rows : List A) → find k rows ≡ some s → key s ≡ k
  unfolding find
  find-key k {s} [] e = ground arith
  find-key k {s} (r ∷ rows) e = ground (arith, find-key k {s = s} rows)

-- Every row of a table satisfies `P`.
abbrev pub All : {A : Type 0} → (A → Type 0) → List A → Type 0
All P [] = Unit
All P (r ∷ rows) = P r × All P rows

module _ {A : Type 0} (P : A → Type 0) where
  pub All-find :
      (key : A → ℕ) (k : ℕ) {r : A} (rows : List A) → All P rows → find key k rows ≡ some r → P r
  unfolding find
  All-find key k {r} [] a e = ground arith
  All-find key k {r} (x ∷ rows) a e = ground (arith, All-find key k {r = r} rows a.1)

  pub All-update :
      (key : A → ℕ) (k : ℕ) (f : A → A) {s : A} (rows : List A)
      → All P rows
      → find key k rows ≡ some s
      → P (f s)
      → All P (update key k f rows)
  unfolding update find
  All-update key k f [] a e h = tt
  All-update key k f {s} (x ∷ rows) a e h = elim (Bool-cases (key x == k)) [
    | inl same ↦ rw same (let e' : x ≡ s = ground arith in (subst (λ y. P (f y)) (sym e') h, a.1))
    | inr other ↦ rw other (a.0, All-update key k f {s = s} rows a.1 (ground arith) h)
  ]

-- A claim that succeeds found a row that met its condition, and updated it.
claimed :
    {A B : Type 0} (cond : A → Bool) (o : Option A) (v : B) {w : B}
    → (elim o [ none ↦ none | some r ↦ if cond r then some v else none ]) ≡ some w
    → (r : A) × (o ≡ some r) × (cond r ≡ true) × (w ≡ v)
claimed cond none v e = cc
claimed cond (some r) v e = (r, refl, ground arith, ground arith)

pub claim-eq_some :
    {A : Type 0} (key : A → ℕ) (k : ℕ) (cond : A → Bool) (f : A → A) (rows : List A)
    {rows' : List A}
    → claim key k cond f rows ≡ some rows'
    → (r : A) × (find key k rows ≡ some r) × (cond r ≡ true) × (rows' ≡ update key k f rows)
unfolding claim
claim-eq_some key k cond f rows e = claimed cond (find key k rows) (update key k f rows) e
