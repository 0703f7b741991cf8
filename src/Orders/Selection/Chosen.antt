-- ===== src/Orders/Selection/Chosen.antt =====
-- What a resolved selection costs, which options it has, and that its recipe names no ingredient twice.
use coffee_shop_be.Prelude.{
  ℕ, true, false, ◌&&◌, ◌||◌, List, [], ◌∷◌, ◌++◌, ◌+◌, ◌≤◌, ◌==◌, ◌≡◌, ◌≢◌, ◌∙◌, refl, sym, ap,
  subst, arith, inl, inr, leb, ltb, filter, map, length, contains, Bool-cases, ==_iff,
}
use coffee_shop_be.Prelude.Table.{All}
use coffee_shop_be.Prelude.Http.{ok, ok_injective, >>=-eq_ok, guard-eq_ok, throw_if-eq_ok, conflict}
use coffee_shop_be.Inventory.Reservations.{add_total, insert_total, sort_totals}
use coffee_shop_be.Orders.Unique.{unique, contains-unique}
use coffee_shop_be.Orders.Selection.{
  MenuIngredient, MenuOption, OptionGroup, MenuItem, SelectedOption, selected_option, Choice,
  add_ingredients, remove, add_options, selected_in, add_groups, max_unit_price,
  resolve_menu_selection,
}

-- The keys of a recipe are different.
abbrev pub HasKeysOnce : List (ℕ × ℕ) → Type 0
HasKeysOnce [] = Unit
HasKeysOnce (t ∷ ts) = All (λ u. u.0 ≢ t.0) ts × HasKeysOnce ts

abbrev pub price_of : List SelectedOption → ℕ
price_of [] = 0
price_of (o ∷ os) = o.price_delta + price_of os

abbrev pub ids_of : List SelectedOption → List ℕ
ids_of os = map {A = SelectedOption} (λ o. o.id) os

module _ (P : ℕ → Type 0) where
  add_total-All :
      (id q : ℕ) (ts : List (ℕ × ℕ))
      → P id
      → All (λ u. P u.0) ts
      → All (λ u. P u.0) (add_total id q ts)
  add_total-All id q [] p a = (p, tt)
  add_total-All id q (t ∷ ts) p a = elim (Bool-cases (t.0 == id)) [
    | inl same ↦ rw same a
    | inr other ↦ rw other (a.0, add_total-All id q ts p a.1)
  ]

  insert_total-All :
      (t : ℕ × ℕ) (ts : List (ℕ × ℕ))
      → P t.0
      → All (λ u. P u.0) ts
      → All (λ u. P u.0) (insert_total t ts)
  insert_total-All t [] p a = (p, tt)
  insert_total-All t (u ∷ us) p a = elim (Bool-cases (leb t.0 u.0)) [
    | inl before ↦ rw before (p, a)
    | inr after ↦ rw after (a.0, insert_total-All t us p a.1)
  ]

  sort_totals-All : (ts : List (ℕ × ℕ)) → All (λ u. P u.0) ts → All (λ u. P u.0) (sort_totals ts)
  sort_totals-All [] a = tt
  sort_totals-All (t ∷ ts) a = insert_total-All t (sort_totals ts) a.0 (sort_totals-All ts a.1)

add_total-HasKeysOnce :
    (id q : ℕ) (ts : List (ℕ × ℕ)) → HasKeysOnce ts → HasKeysOnce (add_total id q ts)
add_total-HasKeysOnce id q [] h = (tt, tt)
add_total-HasKeysOnce id q (t ∷ ts) h = elim (Bool-cases (t.0 == id)) [
  | inl same ↦ rw same h
  | inr other ↦ rw other (
    add_total-All (λ k. k ≢ t.0) id q ts (ground (arith, other)) h.0,
    add_total-HasKeysOnce id q ts h.1,
  )
]

insert_total-HasKeysOnce :
    (t : ℕ × ℕ) (ts : List (ℕ × ℕ))
    → All (λ u. u.0 ≢ t.0) ts
    → HasKeysOnce ts
    → HasKeysOnce (insert_total t ts)
insert_total-HasKeysOnce t [] a h = (tt, tt)
insert_total-HasKeysOnce t (u ∷ us) a h = elim (Bool-cases (leb t.0 u.0)) [
  | inl before ↦ rw before (a, h)
  | inr after ↦ rw after (
    insert_total-All (λ k. k ≢ u.0) t us (λ e. a.0 (sym e)) h.0,
    insert_total-HasKeysOnce t us a.1 h.1,
  )
]

sort_totals-HasKeysOnce : (ts : List (ℕ × ℕ)) → HasKeysOnce ts → HasKeysOnce (sort_totals ts)
sort_totals-HasKeysOnce [] h = tt
sort_totals-HasKeysOnce (t ∷ ts) h =
    insert_total-HasKeysOnce t (sort_totals ts) (sort_totals-All (λ k. k ≢ t.0) ts h.0)
      (sort_totals-HasKeysOnce ts h.1)

add_ingredients-HasKeysOnce :
    (is : List MenuIngredient) (recipe : List (ℕ × ℕ)) {recipe' : List (ℕ × ℕ)}
    → add_ingredients is recipe ≡ ok recipe'
    → HasKeysOnce recipe
    → HasKeysOnce recipe'
unfolding add_ingredients
add_ingredients-HasKeysOnce [] recipe e h = subst HasKeysOnce (ok_injective e) h
add_ingredients-HasKeysOnce (i ∷ is) recipe e h =
    let (p, e1) = throw_if-eq_ok i.deleted conflict _ e in
    add_ingredients-HasKeysOnce is (add_total i.inventory_item_id i.quantity recipe) e1
      (add_total-HasKeysOnce i.inventory_item_id i.quantity recipe h)

contains-remove :
    (k id : ℕ) (ids : List ℕ) → (k == id) ≡ false → contains k (remove id ids) ≡ contains k ids
contains-remove k id [] h = refl
contains-remove k id (j ∷ ids) h = ground (arith, contains-remove k id ids h, h)

ids_of-append :
    (k : ℕ) (o : SelectedOption) (os : List SelectedOption)
    → contains k (ids_of (os ++ o ∷ [])) ≡ (contains k (ids_of os) || (k == o.id))
ids_of-append k o [] = ground arith
ids_of-append k o (p ∷ os) = ground (arith, ids_of-append k o os)

price_of-append :
    (o : SelectedOption) (os : List SelectedOption)
    → price_of (os ++ o ∷ []) ≡ price_of os + o.price_delta
price_of-append o [] = omega arith
price_of-append o (p ∷ os) = omega (arith, price_of-append o os)

module _ (requested : List ℕ) (price : ℕ) where
  -- What holds of the loop's state.
  IsChosen : Choice → Type 0
  IsChosen c =
      (c.unit_price ≡ price + price_of c.selected_options)
      × ((k : ℕ)
          → (contains k c.selected_ids || contains k (ids_of c.selected_options))
            ≡ contains k requested)
      × HasKeysOnce c.recipe

  chosen_ids :
      (o : SelectedOption) (selected : List ℕ) (os : List SelectedOption)
      → contains o.id requested ≡ true
      → ((k : ℕ) → (contains k selected || contains k (ids_of os)) ≡ contains k requested)
      → (k : ℕ)
      → (contains k (remove o.id selected) || contains k (ids_of (os ++ o ∷ [])))
        ≡ contains k requested
  chosen_ids o selected os c h k = elim (Bool-cases (k == o.id)) [
    | inl same ↦
        let there = ap (λ x. contains x requested) ((==_iff k o.id).0 same) in
        ground (arith, ids_of-append k o os, same, there, c)
    | inr other ↦
        ground (arith, ids_of-append k o os, contains-remove k o.id selected other, other, h k)
  ]

  add_options-IsChosen :
      (g : OptionGroup) (os : List MenuOption) (c : Choice) {c' : Choice}
      → All (λ o. contains o.id requested ≡ true) os
      → add_options g os c ≡ ok c'
      → IsChosen c
      → IsChosen c'
  unfolding add_options IsChosen
  add_options-IsChosen g [] c a e h = subst IsChosen (ok_injective e) h
  add_options-IsChosen g (o ∷ os) c a e h =
      let (recipe, p, e1) = >>=-eq_ok (add_ingredients o.ingredients c.recipe) _ e in
      let s = selected_option g o in
      add_options-IsChosen g os _ a.1 e1 (
        omega (arith, h.0, price_of-append s c.selected_options),
        chosen_ids s c.selected_ids c.selected_options a.0 h.1,
        add_ingredients-HasKeysOnce o.ingredients c.recipe p h.2,
      )

  selected_in-requested :
      (ids : List ℕ) (os : List MenuOption)
      → ((k : ℕ) → contains k ids ≡ true → contains k requested ≡ true)
      → All (λ o. contains o.id requested ≡ true) (filter (λ o. contains o.id ids) os)
  selected_in-requested ids [] h = tt
  selected_in-requested ids (o ∷ os) h = elim (Bool-cases (contains o.id ids)) [
    | inl met ↦ rw met (h o.id met, selected_in-requested ids os h)
    | inr unmet ↦ rw unmet (selected_in-requested ids os h)
  ]

  add_groups-IsChosen :
      (gs : List OptionGroup) (c : Choice) {c' : Choice}
      → add_groups gs c ≡ ok c'
      → IsChosen c
      → IsChosen c'
  unfolding add_groups IsChosen
  add_groups-IsChosen [] c e h = subst IsChosen (ok_injective e) h
  add_groups-IsChosen (g ∷ gs) c e h =
      let selected = selected_in c g in
      let (p, e1) =
        guard-eq_ok (leb g.min_selected (length selected) && leb (length selected) g.max_selected)
          conflict _ e in
      let (c', p1, e2) = >>=-eq_ok (add_options g selected c) _ e1 in
      let within = λ (k : ℕ) (m : contains k c.selected_ids ≡ true).
        sym (h.1 k) ∙ ap (λ b. b || contains k (ids_of c.selected_options)) m in
      add_groups-IsChosen gs c' e2 (
        add_options-IsChosen g selected c (selected_in-requested c.selected_ids g.options within) p1
          h)

none_left : (k : ℕ) (ids : List ℕ) → (length ids == 0) ≡ true → contains k ids ≡ false
none_left k [] h = refl
none_left k (x ∷ ids) h = ground arith

-- A selection that is resolved costs the price of the menu item and of its options together, at most
-- the largest price; its options are exactly the requested ones, and its recipe names no ingredient
-- twice.
pub resolve_menu_selection_lem :
    (menu_item : MenuItem) (option_ids : List ℕ) {c : Choice}
    → resolve_menu_selection menu_item option_ids ≡ ok c
    → (c.unit_price ≡ menu_item.price + price_of c.selected_options)
      × (c.unit_price ≤ max_unit_price)
      × ((k : ℕ) → contains k (ids_of c.selected_options) ≡ contains k option_ids)
      × HasKeysOnce c.recipe
unfolding resolve_menu_selection IsChosen
resolve_menu_selection_lem menu_item option_ids e =
    let (p1, e1) = throw_if-eq_ok (ltb 20 (length option_ids)) conflict _ e in
    let (p2, e2) = guard-eq_ok (length (unique option_ids) == length option_ids) conflict _ e1 in
    let (recipe, p3, e3) = >>=-eq_ok (add_ingredients menu_item.ingredients []) _ e2 in
    let (c, p4, e4) = >>=-eq_ok (add_groups menu_item.option_groups _) _ e3 in
    let (p5, e5) = guard-eq_ok (length c.selected_ids == 0) conflict _ e4 in
    let (p6, e6) = throw_if-eq_ok (ltb max_unit_price c.unit_price) conflict _ e5 in
    let kept =
      add_groups-IsChosen (unique option_ids) menu_item.price menu_item.option_groups _ p4 (
        omega arith,
        (λ k. ground arith),
        add_ingredients-HasKeysOnce menu_item.ingredients [] p3 tt,
      ) in
    subst
      (λ (c : Choice).
        (c.unit_price ≡ menu_item.price + price_of c.selected_options)
        × (c.unit_price ≤ max_unit_price)
        × ((k : ℕ) → contains k (ids_of c.selected_options) ≡ contains k option_ids)
        × HasKeysOnce c.recipe)
      (ok_injective e6)
      (
        kept.0,
        ground (arith, p6),
        (λ k.
            ap (λ b. b || contains k (ids_of c.selected_options))
              (sym (none_left k c.selected_ids p5))
            ∙ kept.1 k
            ∙ contains-unique k option_ids),
        sort_totals-HasKeysOnce c.recipe kept.2,
      )
