-- ===== src/Promotions/Lawful.antt =====
-- promotions.service.ts: what holds of every promotion of the table, and what a used promotion
-- keeps.
use coffee_shop_be.Prelude.{
  ℕ, suc, Bool, not, ◌&&◌, Option, none, some, ◌∷◌, ◌==◌, if◌then◌else◌, leb, ◌≡◌, ◌≢◌, ◌<◌, ◌≤◌,
  refl, arith, sym, subst, ap,
}
use coffee_shop_be.Prelude.Table.{update}
use coffee_shop_be.Prelude.Http.{
  ok_injective, ok, bad_request, not_found, conflict, internal, >>=-eq_ok, or_throw-eq_ok,
  guard-eq_ok, throw_if-eq_ok,
}
use coffee_shop_be.Promotions.Policy.{
  terms_frozen_iff, percentage, Terms, Promotion, assert_date_range_valid,
  assert_discount_value_valid, assert_promotion_can_be_updated, assert_promotion_can_be_deleted,
  assert_promotion_can_be_restored, assert_financial_fields_not_changed_when_used,
}
use coffee_shop_be.Promotions.Service.{
  Db, CreateDto, UpdateDto, stored, stored_terms, find_promotion, normalize_terms,
  merge_promotion_input, count_invoices_using_promotion, ensure_name_available, create,
  update_promotion, name_changes, write_input, find_active_by_id, update_storefront, remove,
  restore, assert_active_employee, row_checks, new_promotion,
}

-- The dates are in order, a percentage is at most 100, and the amounts have two decimals.
abbrev pub IsLawful : Promotion → Type 0
IsLawful p =
    (p.start_date < p.end_date)
    × (p.terms.discount_type ≡ percentage → p.terms.discount_value ≤ 1_000_000)
    × (stored_terms p.terms ≡ p.terms)

abbrev key : Promotion → ℕ
key p = p.id

stored_twice : (v : ℕ) → stored (stored v) ≡ stored v
stored_twice v = omega arith

stored_terms_twice : (t : Terms) → stored_terms (stored_terms t) ≡ stored_terms t
stored_terms_twice t = ground arith

discount_value_valid :
    (t : Terms)
    → assert_discount_value_valid t ≡ ok tt
    → (t.discount_type ≡ percentage → t.discount_value ≤ 1_000_000)
unfolding assert_discount_value_valid
discount_value_valid t e = ground arith

stored_bound : (v : ℕ) → v ≤ 1_000_000 → stored v ≤ 1_000_000
stored_bound v h = omega arith

date_range_valid : (s e : ℕ) → assert_date_range_valid s e ≡ ok tt → s < e
unfolding assert_date_range_valid
date_range_valid s e h = ground arith

-- What a request does to the table: it adds a lawful row under a new id, or it changes one row
-- in a way that keeps it lawful and keeps its terms if an invoice uses it.
pub data Change (db db' : Db) : Type 0 where
  added :
      (p : Promotion)
      → db'.promotions ≡ p ∷ db.promotions
      → p.id ≡ db.next_id
      → IsLawful p
      → db'.next_id ≡ suc db.next_id
      → Change db db'
  changed :
      (id : ℕ) (f : Promotion → Promotion) (r : Promotion)
      → db'.promotions ≡ update key id f db.promotions
      → find_promotion db id ≡ some r
      → ((p : Promotion) → key (f p) ≡ key p)
      → (IsLawful r → IsLawful (f r))
      → (count_invoices_using_promotion db id ≢ 0 → IsLawful r → (f r).terms ≡ r.terms)
      → db'.next_id ≡ db.next_id
      → Change db db'

find_active :
    (db : Db) (id : ℕ) {p : Promotion}
    → find_active_by_id db id ≡ some p
    → find_promotion db id ≡ some p
find_active db id e = ground arith

frozen_terms :
    (n : ℕ) (r next : Terms)
    → assert_financial_fields_not_changed_when_used n r next ≡ ok tt
    → n ≢ 0
    → stored_terms r ≡ r
    → stored_terms next ≡ r
frozen_terms n r next e h w = subst (λ t. stored_terms t ≡ r) ((terms_frozen_iff n r next h).0 e) w

deleted_found :
    (o : Option Promotion)
    → assert_promotion_can_be_deleted o ≡ ok tt
    → (p : Promotion) × (o ≡ some p)
unfolding assert_promotion_can_be_deleted
deleted_found none e = cc
deleted_found (some p) e = (p, refl)

normalized : (t : Terms) {t' : Terms} → normalize_terms t ≡ ok t' → t' ≡ t
unfolding normalize_terms
normalized t e = ground arith

module _ (same_name : ℕ → ℕ → Bool) where
  pub update_promotion_lem :
      (db : Db) (now id employee_id : ℕ) (dto : UpdateDto) {db' : Db}
      → update_promotion same_name db now id employee_id dto ≡ ok db'
      → Change db db' × (db'.invoice_promotions ≡ db.invoice_promotions)
  unfolding update_promotion
  update_promotion_lem db now id employee_id dto e =
      let (u, p, e1) = >>=-eq_ok (assert_active_employee db employee_id) _ e in
      let (existing, found, e2) = or_throw-eq_ok (find_active_by_id db id) not_found _ e1 in
      let (u, p, e3) = >>=-eq_ok (assert_promotion_can_be_updated (some existing)) _ e2 in
      let (next, merged, e4) = >>=-eq_ok (merge_promotion_input existing dto) _ e3 in
      let (u, dates, e5) = >>=-eq_ok (assert_date_range_valid next.start_date next.end_date) _ e4 in
      let (u, valid, e6) = >>=-eq_ok (assert_discount_value_valid next.terms) _ e5 in
      let used = count_invoices_using_promotion db id in
      let (u, frozen, e7) =
        >>=-eq_ok (assert_financial_fields_not_changed_when_used used existing.terms next.terms) _
          e6 in
      let (u, p, e8) =
        >>=-eq_ok
          (if name_changes dto.name existing.name
            then ensure_name_available same_name db next.name (some id)
            else ok tt)
          _ e7 in
      let (checked, e9) =
        throw_if-eq_ok (not (row_checks (write_input next now existing))) internal _ e8 in
      let written = ok_injective e9 in
      (
        changed id (write_input next now) existing (ap (λ d. d.promotions) (sym written))
            (find_active db id found) (λ p. refl)
            (λ l. (
              date_range_valid _ _ dates,
              (λ k. stored_bound _ (discount_value_valid next.terms valid k)),
              stored_terms_twice next.terms,
            ))
            (λ h l. frozen_terms used existing.terms next.terms frozen h l.2)
            (ap (λ d. d.next_id) (sym written)),
        ap (λ d. d.invoice_promotions) (sym written),
      )

  pub create_lem :
      (db : Db) (now employee_id : ℕ) (dto : CreateDto) {db' : Db}
      → create same_name db now employee_id dto ≡ ok db'
      → Change db db' × (db'.invoice_promotions ≡ db.invoice_promotions)
  unfolding create
  create_lem db now employee_id dto e =
      let (terms, p, e1) = >>=-eq_ok (normalize_terms dto.terms) _ e in
      let (u, dates, e2) = >>=-eq_ok (assert_date_range_valid dto.start_date dto.end_date) _ e1 in
      let (u, valid, e3) = >>=-eq_ok (assert_discount_value_valid terms) _ e2 in
      let (u, p, e4) = >>=-eq_ok (assert_active_employee db employee_id) _ e3 in
      let (u, p, e5) = >>=-eq_ok (ensure_name_available same_name db dto.name none) _ e4 in
      let row = new_promotion db.next_id now dto terms in
      let (checked, e6) = throw_if-eq_ok (not (row_checks row)) internal _ e5 in
      let written = ok_injective e6 in
      (
        added _ (ap (λ d. d.promotions) (sym written)) refl
            (
              date_range_valid _ _ dates,
              (λ k. stored_bound _ (discount_value_valid terms valid k)),
              stored_terms_twice terms,
            )
            (ap (λ d. d.next_id) (sym written)),
        ap (λ d. d.invoice_promotions) (sym written),
      )

  pub update_storefront_lem :
      (db : Db) (now id employee_id : ℕ) (show : Bool) (description : Option ℕ) (expected : ℕ)
      {db' : Db}
      → update_storefront same_name db now id employee_id show description expected ≡ ok db'
      → Change db db' × (db'.invoice_promotions ≡ db.invoice_promotions)
  unfolding update_storefront
  update_storefront_lem db now id employee_id show description expected e =
      let (u, p, e1) = >>=-eq_ok (assert_active_employee db employee_id) _ e in
      let (existing, found, e2) = or_throw-eq_ok (find_active_by_id db id) not_found _ e1 in
      let (p, e3) = throw_if-eq_ok (show && leb existing.end_date now) conflict _ e2 in
      let (p, e4) = guard-eq_ok (existing.updated_at == expected) conflict _ e3 in
      let written = ok_injective e4 in
      (
        changed id _ existing (ap (λ d. d.promotions) (sym written)) (find_active db id found)
            (λ p. refl) (λ l. l) (λ h l. refl) (ap (λ d. d.next_id) (sym written)),
        ap (λ d. d.invoice_promotions) (sym written),
      )

  pub remove_lem :
      (db : Db) (now id employee_id : ℕ) {db' : Db}
      → remove same_name db now id employee_id ≡ ok db'
      → Change db db' × (db'.invoice_promotions ≡ db.invoice_promotions)
  unfolding remove
  remove_lem db now id employee_id e =
      let (u, p, e1) = >>=-eq_ok (assert_active_employee db employee_id) _ e in
      let (u, can, e2) = >>=-eq_ok (assert_promotion_can_be_deleted (find_promotion db id)) _ e1 in
      let (existing, found) = deleted_found (find_promotion db id) can in
      let written = ok_injective e2 in
      (
        changed id _ existing (ap (λ d. d.promotions) (sym written)) found (λ p. refl) (λ l. l)
            (λ h l. refl) (ap (λ d. d.next_id) (sym written)),
        ap (λ d. d.invoice_promotions) (sym written),
      )

  pub restore_lem :
      (db : Db) (now id employee_id : ℕ) {db' : Db}
      → restore same_name db now id employee_id ≡ ok db'
      → Change db db' × (db'.invoice_promotions ≡ db.invoice_promotions)
  unfolding restore
  restore_lem db now id employee_id e =
      let (u, p, e1) = >>=-eq_ok (assert_active_employee db employee_id) _ e in
      let (u, p, e2) = >>=-eq_ok (assert_promotion_can_be_restored (find_promotion db id)) _ e1 in
      let (existing, found, e3) = or_throw-eq_ok (find_promotion db id) bad_request _ e2 in
      let (u, p, e4) =
        >>=-eq_ok (assert_date_range_valid existing.start_date existing.end_date) _ e3 in
      let (u, p, e5) =
        >>=-eq_ok (ensure_name_available same_name db existing.name (some id)) _ e4 in
      let written = ok_injective e5 in
      (
        changed id _ existing (ap (λ d. d.promotions) (sym written)) found (λ p. refl) (λ l. l)
            (λ h l. refl) (ap (λ d. d.next_id) (sym written)),
        ap (λ d. d.invoice_promotions) (sym written),
      )
