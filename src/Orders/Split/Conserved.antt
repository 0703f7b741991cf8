-- ===== src/Orders/Split/Conserved.antt =====
-- Moving lines to another session neither loses nor makes any quantity.
use coffee_shop_be.Prelude.{
  ℕ, false, Option, none, some, List, [], ◌∷◌, ◌++◌, ◌+◌, ◌-◌, ◌*◌, ◌≤◌, ◌==◌, ◌≡◌, ◌∙◌, refl, sym,
  ap, subst, inl, inr, arith, ltb, map, contains, Bool-cases, some_injective,
}
use coffee_shop_be.Prelude.Table.{
  find, claim, update, All, find-append, find-update, find-key, claim-eq_some,
}
use coffee_shop_be.Prelude.Http.{
  Result, ok, ok_injective, if-eq_ok, >>=-eq_ok, or_throw-eq_ok, guard-eq_ok, throw_if-eq_ok,
  bad_request, not_found, conflict,
}
use coffee_shop_be.Orders.Unique.{Fresh}
use coffee_shop_be.Orders.Selection.{SelectedOption}
use coffee_shop_be.Orders.Types.{Db, OrderItem, ServeStatus, same_status, order_item_key}
use coffee_shop_be.Orders.Policy.{is_billed}
use coffee_shop_be.Orders.Split.{
  SplitItem, check_line, check_lines, is_unchanged, split_off, move_whole, move_part, move_line,
  move_lines,
}
use coffee_shop_be.Orders.Lines.{
  reduced, rejoined, AreKept, AreKept-refl, AreKept-trans, append-AreKept, claim-AreKept,
}

-- A weight of what a line is: its menu item, price, options and serve status.
abbrev pub Weighing : Type 0
Weighing = ℕ → ℕ → List SelectedOption → ServeStatus → ℕ

abbrev pub value_of : Weighing → OrderItem → ℕ
value_of w i = i.quantity * w i.menu_item_id i.price_at_time i.selected_options i.serve_status

-- The quantities of all lines, weighed.
unfoldable pub total : Weighing → List OrderItem → ℕ
total w [] = 0
total w (i ∷ is) = value_of w i + total w is

total-append :
    (w : Weighing) (xs ys : List OrderItem) → total w (xs ++ ys) ≡ total w xs + total w ys
unfolding total
total-append w [] ys = omega arith
total-append w (x ∷ xs) ys = omega (arith, total-append w xs ys)

total-update :
    (w : Weighing) (k : ℕ) (f : OrderItem → OrderItem) (rows : List OrderItem) {i : OrderItem}
    → find order_item_key k rows ≡ some i
    → total w (update order_item_key k f rows) + value_of w i ≡ total w rows + value_of w (f i)
unfolding total find update
total-update w k f [] e = cc
total-update w k f (r ∷ rows) {i} e = elim (Bool-cases (r.id == k)) [
  | inl here ↦
      let same : r ≡ i = ground (arith, e, here) in
      let a = ap (value_of w) same in
      let b = ap (λ x. value_of w (f x)) same in rw here omega (arith, a, b)
  | inr there ↦
      let ih = total-update w k f rows {i = i} (ground (arith, e, there)) in
      rw there omega (arith, ih)
]

-- What `check_line` leaves of a line.
abbrev pub IsChecked : List OrderItem → ℕ → SplitItem → Type 0
IsChecked read source_id p =
    (i : OrderItem) × (find order_item_key p.order_item_id read ≡ some i)
    × (is_billed i ≡ false)
    × (p.quantity_to_move ≤ i.quantity)

check_line-IsChecked :
    (db : Db) (source_id : ℕ) (p : SplitItem) {u : Unit {0}}
    → check_line db source_id p ≡ ok u
    → IsChecked db.order_items source_id p
unfolding check_line
check_line-IsChecked db source_id p e =
    let (i, found, e1) =
      or_throw-eq_ok (find order_item_key p.order_item_id db.order_items) not_found _ e in
    let (p1, e2) = guard-eq_ok (i.order_session_id == source_id) bad_request _ e1 in
    let (p2, e3) = throw_if-eq_ok (is_billed i) bad_request _ e2 in
    let (p3, e4) =
      throw_if-eq_ok (same_status i.serve_status ServeStatus.cancelled) bad_request _ e3 in
    let (p4, e5) = guard-eq_ok (i.quantity == p.expected_original_quantity) conflict _ e4 in
    let (p5, e6) = throw_if-eq_ok (ltb i.quantity p.quantity_to_move) bad_request _ e5 in
    (i, found, p2, ground (arith, p5))

pub check_lines-All :
    (db : Db) (source_id : ℕ) (ps : List SplitItem) {u : Unit {0}}
    → check_lines db source_id ps ≡ ok u
    → All (IsChecked db.order_items source_id) ps
unfolding check_lines
check_lines-All db source_id [] e = tt
check_lines-All db source_id (p ∷ ps) e =
    let (u, p1, e1) = >>=-eq_ok (check_line db source_id p) _ e in
    (check_line-IsChecked db source_id p p1, check_lines-All db source_id ps e1)

parted : (n q w : ℕ) → q ≤ n → (n - q) * w + q * w ≡ n * w
parted n q w h = grind arith

total-one : (w : Weighing) (i : OrderItem) → total w (i ∷ []) ≡ value_of w i
unfolding total
total-one w i = omega arith

-- What a move of lines shows.
abbrev pub AreMoved : Db → Db → Type 0
AreMoved db db' =
    AreKept db.order_items db'.order_items
    × ((w : Weighing) → total w db'.order_items ≡ total w db.order_items)
    × (db'.tables ≡ db.tables)
    × (db'.sessions ≡ db.sessions)

-- The lines that no step has moved yet are as they were read.
abbrev pub Agrees : List OrderItem → List OrderItem → List ℕ → Type 0
Agrees read rows seen =
    (k : ℕ) (i : OrderItem)
    → contains k seen ≡ false
    → find order_item_key k read ≡ some i
    → find order_item_key k rows ≡ some i

module _ (source_id session_id : ℕ) (p : SplitItem) (item : OrderItem) where
  move_whole-AreMoved :
      (read : List OrderItem) (seen : List ℕ) (db : Db) {db' : Db}
      → find order_item_key p.order_item_id db.order_items ≡ some item
      → Agrees read db.order_items seen
      → move_whole db source_id session_id p item ≡ ok db'
      → AreMoved db db' × Agrees read db'.order_items (p.order_item_id ∷ seen)
  unfolding move_whole is_unchanged
  move_whole-AreMoved read seen db {db'} found agrees e =
      let f = λ (r : OrderItem). record r { order_session_id = session_id } in
      let cond = is_unchanged source_id p item in
      let (items, p1, e1) =
        or_throw-eq_ok (claim order_item_key item.id cond f db.order_items) conflict _ e in
      let (r, found_r, met, written) =
        claim-eq_some order_item_key item.id cond f db.order_items p1 in
      let key = find-key order_item_key p.order_item_id db.order_items found in
      subst (λ d. AreMoved db d × Agrees read d.order_items (p.order_item_id ∷ seen))
        (ok_injective e1)
        (
          (
            claim-AreKept item.id cond f db.order_items (λ r. refl)
                (λ r there met. rejoined r session_id (ground (arith, met))) p1,
            (λ w.
                let t = total-update w item.id f db.order_items found_r in
                let a = ap (total w) written in omega (arith, t, a)),
            refl,
            refl,
          ),
          (λ k i unseen e.
              let off : (k == item.id) ≡ false = ground (arith, unseen, key) in
              let old = agrees k i (ground (arith, unseen)) e in
              let there = find-update order_item_key k item.id f db.order_items (λ r. refl) in
              ap (find order_item_key k) written ∙ ground (arith, there, off, old)),
        )

  move_part-AreMoved :
      (read : List OrderItem) (seen : List ℕ) (db : Db) {db' : Db}
      → find order_item_key p.order_item_id db.order_items ≡ some item
      → p.quantity_to_move ≤ item.quantity
      → Agrees read db.order_items seen
      → move_part db source_id session_id p item ≡ ok db'
      → AreMoved db db' × Agrees read db'.order_items (p.order_item_id ∷ seen)
  unfolding move_part is_unchanged
  move_part-AreMoved read seen db {db'} found le agrees e =
      let f = λ (r : OrderItem). record r { quantity = item.quantity - p.quantity_to_move } in
      let cond = is_unchanged source_id p item in
      let (items, p1, e1) =
        or_throw-eq_ok (claim order_item_key item.id cond f db.order_items) conflict _ e in
      let (r, found_r, met, written) =
        claim-eq_some order_item_key item.id cond f db.order_items p1 in
      let key = find-key order_item_key p.order_item_id db.order_items found in
      let new = split_off db.next_id session_id p item in
      let here = ap (λ x. find order_item_key x db.order_items) key ∙ found in
      let same = λ (s : OrderItem) (t : find order_item_key item.id db.order_items ≡ some s).
        some_injective {a = s} (sym t ∙ here) in
      subst (λ d. AreMoved db d × Agrees read d.order_items (p.order_item_id ∷ seen))
        (ok_injective e1)
        (
          (
            AreKept-trans db.order_items items (items ++ new ∷ [])
                (claim-AreKept item.id cond f db.order_items (λ r. refl)
                  (λ r there met.
                    reduced r r.order_session_id (item.quantity - p.quantity_to_move)
                      (ground (arith, met))
                      (let q = ap (λ (x : OrderItem). x.quantity) (same r there) in
                        omega (arith, q)))
                  p1)
                (append-AreKept items (new ∷ [])),
            (λ w.
                let t = total-update w item.id f db.order_items here in
                let a = ap (total w) written in
                let b = total-append w items (new ∷ []) in
                let c = total-one w new in
                let d =
                  parted item.quantity p.quantity_to_move
                    (w item.menu_item_id item.price_at_time item.selected_options item.serve_status)
                    le in
                omega (arith, t, a, b, c, d)),
            refl,
            refl,
          ),
          (λ k i unseen e.
              let off : (k == item.id) ≡ false = ground (arith, unseen, key) in
              let old = agrees k i (ground (arith, unseen)) e in
              let there = find-update order_item_key k item.id f db.order_items (λ r. refl) in
              find-append order_item_key k items (new ∷ [])
                (ap (find order_item_key k) written ∙ ground (arith, there, off, old))),
        )

move_line-AreMoved :
    (read : List OrderItem) (seen : List ℕ) (db : Db) (source_id session_id : ℕ) (p : SplitItem)
    (item : OrderItem) {db' : Db}
    → find order_item_key p.order_item_id db.order_items ≡ some item
    → p.quantity_to_move ≤ item.quantity
    → Agrees read db.order_items seen
    → move_line db source_id session_id p item ≡ ok db'
    → AreMoved db db' × Agrees read db'.order_items (p.order_item_id ∷ seen)
unfolding move_line
move_line-AreMoved read seen db source_id session_id p item found le agrees e =
    elim (if-eq_ok (p.quantity_to_move == item.quantity) (move_whole db source_id session_id p item)
      (move_part db source_id session_id p item) e) [
        | inl (whole, e1) ↦
            move_whole-AreMoved source_id session_id p item read seen db found agrees e1
        | inr (part, e1) ↦
            move_part-AreMoved source_id session_id p item read seen db found le agrees e1
      ]

AreMoved-trans : (a b c : Db) → AreMoved a b → AreMoved b c → AreMoved a c
AreMoved-trans a b c p q = (
  AreKept-trans a.order_items b.order_items c.order_items p.0 q.0,
  (λ w. q.1 w ∙ p.1 w),
  q.2 ∙ p.2,
  q.3 ∙ p.3,
)

move_read :
    (o : Option OrderItem) (skip : Result Db) (step : OrderItem → Result Db) {item : OrderItem}
    {db' : Db}
    → o ≡ some item
    → (elim o [ none ↦ skip | some item ↦ step item ]) ≡ ok db'
    → step item ≡ ok db'
move_read none skip step e h = cc
move_read (some i) skip step {db'} e h = subst (λ x. step x ≡ ok db') (some_injective e) h

abbrev pub ids_of : List SplitItem → List ℕ
ids_of ps = map {A = SplitItem} (λ p. p.order_item_id) ps

pub move_lines-AreMoved :
    (read : List OrderItem) (seen : List ℕ) (db : Db) (source_id session_id : ℕ)
    (ps : List SplitItem) {db' : Db}
    → All (IsChecked read source_id) ps
    → Fresh seen (ids_of ps)
    → Agrees read db.order_items seen
    → move_lines read db source_id session_id ps ≡ ok db'
    → AreMoved db db'
unfolding move_lines
move_lines-AreMoved read seen db source_id session_id [] checked fresh agrees e =
    subst (AreMoved db) (ok_injective e) (AreKept-refl db.order_items, (λ w. refl), refl, refl)
move_lines-AreMoved read seen db source_id session_id (p ∷ ps) {db'} checked fresh agrees e =
    let (item, found, unbilled, le) = checked.0 in
    let e1 = move_read (find order_item_key p.order_item_id read) _ _ found e in
    let (d, p1, e2) = >>=-eq_ok (move_line db source_id session_id p item) _ e1 in
    let (moved, rest) =
      move_line-AreMoved read seen db source_id session_id p item
        (agrees p.order_item_id item fresh.0 found) le agrees p1 in
    AreMoved-trans db d db' moved (
      move_lines-AreMoved read (p.order_item_id ∷ seen) d source_id session_id ps checked.1 fresh.1
        rest e2)
