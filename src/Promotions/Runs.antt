-- ===== src/Promotions/Runs.antt =====
-- promotions.service.ts: sequences of requests on the table of promotions.
use coffee_shop_be.Prelude.{
  ℕ, suc, Bool, true, Option, some, List, [], ◌∷◌, ◌==◌, ◌≡◌, ◌≢◌, ◌⊎◌, inl, inr, ◌<◌, refl, arith,
  sym, subst, ◌∙◌, ap, Bool-cases,
}
use coffee_shop_be.Prelude.Table.{
  find, update, All, All-find, All-update, find-update, find-update_self, find-key,
}
use coffee_shop_be.Prelude.Http.{Result, ok, err, Result-cases}
use coffee_shop_be.Promotions.Policy.{Promotion}
use coffee_shop_be.Promotions.Service.{
  Db, CreateDto, UpdateDto, find_promotion, count_invoices_using_promotion,
}
use coffee_shop_be.Promotions.Service
use coffee_shop_be.Promotions.Lawful.{
  IsLawful, Change, added, changed, create_lem, update_promotion_lem, update_storefront_lem,
  remove_lem, restore_lem,
}

-- A request with the time of its handling.
pub data Command : Type 0 where
  create : (now employee_id : ℕ) (dto : CreateDto) → Command
  update_promotion : (now id employee_id : ℕ) (dto : UpdateDto) → Command
  update_storefront :
      (now id employee_id : ℕ) (show : Bool) (description : Option ℕ) (expected : ℕ) → Command
  remove restore : (now id employee_id : ℕ) → Command

abbrev key : Promotion → ℕ
key p = p.id

-- The rows are lawful, and their ids come before the next one.
abbrev pub IsWellFormed : Db → Type 0
IsWellFormed db = All IsLawful db.promotions × All (λ p. p.id < db.next_id) db.promotions

-- `p` keeps its terms from one state to the next.
abbrev pub KeepsTerms : ℕ → Db → Db → Type 0
KeepsTerms id db db' =
    (p : Promotion)
    → find_promotion db id ≡ some p
    → (p' : Promotion) × (find_promotion db' id ≡ some p') × (p'.terms ≡ p.terms)

count-uses :
    (db db' : Db) (id : ℕ)
    → db'.invoice_promotions ≡ db.invoice_promotions
    → count_invoices_using_promotion db' id ≡ count_invoices_using_promotion db id
unfolding count_invoices_using_promotion
count-uses db db' id e = rw e refl

All-suc : (n : ℕ) (ps : List Promotion) → All (λ p. p.id < n) ps → All (λ p. p.id < suc n) ps
All-suc n [] a = tt
All-suc n (p ∷ ps) a = (omega (arith, a.0), All-suc n ps a.1)

Change-IsWellFormed : (db db' : Db) → Change db db' → IsWellFormed db → IsWellFormed db'
Change-IsWellFormed db db' (added p e k l n) w = (
  rw e (l, w.0),
  subst (λ m. All (λ r. r.id < m) db'.promotions) (sym n)
      (rw e (omega (arith, k), All-suc db.next_id db.promotions w.1)),
)
Change-IsWellFormed db db' (changed id f r e at k l t n) w =
    let lawful = All-find IsLawful key id db.promotions w.0 at in
    let old = All-find (λ p. p.id < db.next_id) key id db.promotions w.1 at in
    (
      rw e (All-update IsLawful key id f db.promotions w.0 at (l lawful)),
      subst (λ m. All (λ r. r.id < m) db'.promotions) (sym n)
          (rw e (All-update (λ p. p.id < db.next_id) key id f db.promotions w.1 at (rw (k r) old))),
    )

find-fresh :
    (q : Promotion) (ps : List Promotion) (id : ℕ)
    → q.id ≢ id
    → find key id (q ∷ ps) ≡ find key id ps
unfolding find
find-fresh q ps id h = ground arith

Changed-KeepsTerms :
    (db db' : Db) (id : ℕ) (f : Promotion → Promotion) (r : Promotion)
    → db'.promotions ≡ update key id f db.promotions
    → find_promotion db id ≡ some r
    → ((p : Promotion) → key (f p) ≡ key p)
    → (count_invoices_using_promotion db id ≢ 0 → IsLawful r → (f r).terms ≡ r.terms)
    → IsWellFormed db
    → count_invoices_using_promotion db id ≢ 0
    → KeepsTerms id db db'
Changed-KeepsTerms db db' id f r e at k t w u p found =
    let same : r ≡ p = ground (arith, at, found) in
    (
      f r,
      rw e (find-update_self key id f db.promotions k at),
      t u (All-find IsLawful key id db.promotions w.0 at) ∙ ap (λ x. x.terms) same,
    )

Change-KeepsTerms :
    (db db' : Db) (id : ℕ)
    → Change db db'
    → IsWellFormed db
    → count_invoices_using_promotion db id ≢ 0
    → KeepsTerms id db db'
Change-KeepsTerms db db' id (added q e k l n) w u p found =
    let old = All-find (λ p. p.id < db.next_id) key id db.promotions w.1 found in
    let fresh : q.id ≢ id = omega (arith, k, old, find-key key id db.promotions found) in
    (p, rw e (find-fresh q db.promotions id fresh ∙ found), refl)
Change-KeepsTerms db db' id (changed i f r e at k l t n) w u p found =
    let looked = find-update key id i f db.promotions k in
    let i≡id : ((i == id) ≡ true) → i ≡ id = λ same. ground arith in
    elim (Bool-cases (i == id)) [
      | inl same ↦
          Changed-KeepsTerms db db' id f r
            (subst (λ j. db'.promotions ≡ update key j f db.promotions) (i≡id same) e)
            (subst (λ j. find_promotion db j ≡ some r) (i≡id same) at) k
            (subst
              (λ j. count_invoices_using_promotion db j ≢ 0 → IsLawful r → (f r).terms ≡ r.terms)
              (i≡id same) t)
            w u p found
      | inr other ↦ (p, rw e (ground (arith, looked)), refl)
    ]

module _ (same_name : ℕ → ℕ → Bool) where
  unfoldable pub handle : Command → Db → Result Db
  unfolding Service.create Service.update_promotion Service.update_storefront Service.remove
      Service.restore
  handle (create now employee_id dto) db = Service.create same_name db now employee_id dto
  handle (update_promotion now id employee_id dto) db =
      Service.update_promotion same_name db now id employee_id dto
  handle (update_storefront now id employee_id show description expected) db =
      Service.update_storefront same_name db now id employee_id show description expected
  handle (remove now id employee_id) db = Service.remove same_name db now id employee_id
  handle (restore now id employee_id) db = Service.restore same_name db now id employee_id

  handle_lem :
      (c : Command) (db : Db) {db' : Db}
      → handle c db ≡ ok db'
      → Change db db' × (db'.invoice_promotions ≡ db.invoice_promotions)
  unfolding handle
  handle_lem (create now employee_id dto) db e = create_lem same_name db now employee_id dto e
  handle_lem (update_promotion now id employee_id dto) db e =
      update_promotion_lem same_name db now id employee_id dto e
  handle_lem (update_storefront now id employee_id show description expected) db e =
      update_storefront_lem same_name db now id employee_id show description expected e
  handle_lem (remove now id employee_id) db e = remove_lem same_name db now id employee_id e
  handle_lem (restore now id employee_id) db e = restore_lem same_name db now id employee_id e

  abbrev commit : Db → Result Db → Db
  commit db (ok db') = db'
  commit db (err e) = db

  commit-cases :
      (c : Command) (db : Db)
      → (commit db (handle c db) ≡ db)
        ⊎ (Change db (commit db (handle c db))
            × ((commit db (handle c db)).invoice_promotions ≡ db.invoice_promotions))
  commit-cases c db = elim (Result-cases (handle c db)) [
    | inl (x, e) ↦ inl (ap (commit db) e)
    | inr (d, e) ↦ inr (
        subst
          (λ r.
            Change db (commit db r) × ((commit db r).invoice_promotions ≡ db.invoice_promotions))
          (sym e) (handle_lem c db e))
  ]

  -- A refused request leaves the table as it was.
  unfoldable pub run : List Command → Db → Db
  unfolding handle
  run [] db = db
  run (c ∷ cs) db = run cs (commit db (handle c db))

  -- A promotion that an invoice uses keeps its terms, whatever requests come after, and it stays
  -- in the table.
  pub run-KeepsTerms :
      (cs : List Command) (db : Db)
      → IsWellFormed db
      → (id : ℕ) → count_invoices_using_promotion db id ≢ 0
      → (p : Promotion) → find_promotion db id ≡ some p
      → (p' : Promotion) × (find_promotion (run cs db) id ≡ some p') × (p'.terms ≡ p.terms)
  unfolding run
  run-KeepsTerms [] db w id u p found = (p, found, refl)
  run-KeepsTerms (c ∷ cs) db w id u p found = elim (commit-cases c db) [
    | inl same ↦
        subst
          (λ d. (p' : Promotion) × (find_promotion (run cs d) id ≡ some p') × (p'.terms ≡ p.terms))
          (sym same) (run-KeepsTerms cs db w id u p found)
    | inr (change, uses) ↦
        let db1 = commit db (handle c db) in
        let (q, at, terms) = Change-KeepsTerms db db1 id change w u p found in
        let used : count_invoices_using_promotion db1 id ≢ 0 =
          λ z. u (sym (count-uses db db1 id uses) ∙ z) in
        let (p', at', terms') =
          run-KeepsTerms cs db1 (Change-IsWellFormed db db1 change w) id used q at in
        (p', at', terms' ∙ terms)
  ]
