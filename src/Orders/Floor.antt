-- ===== src/Orders/Floor.antt =====
-- The plan of the floor, as a waiter sees it: which active session sits at which table. It is the
-- specification of the operations that seat, move and close sessions.
use coffee_shop_be.Prelude.{
  ℕ, Bool, true, false, Option, none, some, List, [], ◌∷◌, ◌++◌, ◌==◌, ◌≡◌, ◌≤◌, ◌+◌, ◌∙◌, refl,
  sym, ap, subst, arith, inl, inr, count, ◌&&◌, contains, ==_iff, if◌then◌else◌, Bool-cases,
}
use coffee_shop_be.Prelude.Table.{find, first, update_many}
use coffee_shop_be.Orders.Types.{Db, Session, is_active, session_key}
use coffee_shop_be.Orders.Policy.{seated_at}
use coffee_shop_be.Orders.Closing.{session_id}

abbrev pub Plan : Type 0
Plan = ℕ → Option ℕ

-- The session at a table of the database.
unfoldable pub floor : Db → Plan
floor db t = session_id (first (seated_at t) db.sessions)

pub data Event : Type 0 where
  seat : ℕ → ℕ → Event
  relocate : ℕ → ℕ → ℕ → Event
  vacate : List ℕ → Event

-- `relocate id from to`.
unfoldable pub apply : Event → Plan → Plan
apply (seat t id) plan x = if x == t then some id else plan x
apply (relocate id from to) plan x = if x == to then some id else if x == from then none else plan x
apply (vacate ts) plan x = if contains x ts then none else plan x

module _ {A : Type 0} where
  pub count-none : (p : A → Bool) (rows : List A) → count p rows ≡ 0 → first p rows ≡ none
  unfolding first
  count-none p [] e = refl
  count-none p (r ∷ rows) e = ground (arith, count-none p rows)

  pub first-append :
      (p : A → Bool) (xs ys : List A)
      → first p (xs ++ ys) ≡ (elim (first p xs) [ none ↦ first p ys | some r ↦ some r ])
  unfolding first
  first-append p [] ys = refl
  first-append p (x ∷ xs) ys = ground (arith, first-append p xs ys)

  -- The row that is found comes from a row before.
  pub first-update_many :
      (cond : A → Bool) (f : A → A) (p : A → Bool) (rows : List A) {r : A}
      → first p (update_many cond f rows) ≡ some r
      → (s : A) × (r ≡ (if cond s then f s else s)) × (p r ≡ true) × (p s ≡ true → 1 ≤ count p rows)
  unfolding first update_many
  first-update_many cond f p [] e = cc
  first-update_many cond f p (x ∷ rows) {r} e = elim (Bool-cases (p (if cond x then f x else x))) [
    | inl met ↦ (x, ground (arith, met), ground (arith, met), λ h. ground (arith, h))
    | inr unmet ↦
        let (s, same, there, counted) =
          first-update_many cond f p rows {r = r} (ground (arith, unmet)) in
        (s, same, there, λ h. ground (arith, counted h))
  ]

  pub count_disjoint :
      (p q u : A → Bool) (rows : List A)
      → ((r : A) → p r ≡ true → (q r ≡ false) × (u r ≡ true))
      → ((r : A) → q r ≡ true → u r ≡ true)
      → count p rows + count q rows ≤ count u rows
  count_disjoint p q u [] h k = omega arith
  count_disjoint p q u (r ∷ rows) h k =
      let ih = count_disjoint p q u rows h k in
      elim (Bool-cases (p r)) [
        | inl met ↦ let (a, b) = h r met in ground (arith, ih, met, a, b)
        | inr unmet ↦ ground (arith, ih, unmet, k r)
      ]

  -- Every row that is updated meets `p` then.
  pub count-update_many_all :
      (cond : A → Bool) (f : A → A) (p : A → Bool) (rows : List A)
      → ((r : A) → cond r ≡ true → p (f r) ≡ true)
      → count cond rows ≤ count p (update_many cond f rows)
  unfolding update_many
  count-update_many_all cond f p [] h = omega arith
  count-update_many_all cond f p (r ∷ rows) h =
      let ih = count-update_many_all cond f p rows h in
      elim (Bool-cases (cond r)) [
        | inl met ↦ let a = h r met in ground (arith, ih, met, a)
        | inr unmet ↦ ground (arith, ih, unmet)
      ]

unfoldable pub replay : List Event → Plan → Plan
unfolding apply
replay [] plan = plan
replay (e ∷ es) plan = replay es (apply e plan)

apply_same : (e : Event) (p q : Plan) → ((x : ℕ) → p x ≡ q x) → (x : ℕ) → apply e p x ≡ apply e q x
unfolding apply
apply_same (seat t id) p q h x = ground (arith, h x)
apply_same (relocate id from to) p q h x = ground (arith, h x)
apply_same (vacate ts) p q h x = ground (arith, h x)

pub replay-same :
    (es : List Event) (p q : Plan) → ((x : ℕ) → p x ≡ q x) → (x : ℕ) → replay es p x ≡ replay es q x
unfolding replay
replay-same [] p q h x = h x
replay-same (e ∷ es) p q h x = replay-same es (apply e p) (apply e q) (apply_same e p q h) x

pub replay-append :
    (es fs : List Event) (p : Plan) (x : ℕ) → replay (es ++ fs) p x ≡ replay fs (replay es p) x
unfolding replay
replay-append [] fs p x = refl
replay-append (e ∷ es) fs p x = replay-append es fs (apply e p) x

-- A table at which no session arrives or leaves.
pub session_id-update_many :
    (cond : Session → Bool) (f : Session → Session) (p : Session → Bool) (rows : List Session)
    → ((s : Session) → (f s).id ≡ s.id)
    → ((s : Session) → p (if cond s then f s else s) ≡ p s)
    → session_id (first p (update_many cond f rows)) ≡ session_id (first p rows)
unfolding first update_many
session_id-update_many cond f p [] key same = refl
session_id-update_many cond f p (s ∷ rows) key same =
    let ih = session_id-update_many cond f p rows key same in
    let here = same s in
    let id = key s in
    elim (Bool-cases (cond s)) [
      | inl met ↦ ground (arith, ih, here, id, met)
      | inr unmet ↦ ground (arith, ih, here, id, unmet)
    ]

-- Rows that meet `p` are not updated, and no row meets it by the update.
pub session_id-untouched :
    (cond : Session → Bool) (f : Session → Session) (p : Session → Bool) (rows : List Session)
    → ((s : Session) → p (f s) ≡ false)
    → count (λ s. cond s && p s) rows ≡ 0
    → session_id (first p (update_many cond f rows)) ≡ session_id (first p rows)
unfolding first update_many
session_id-untouched cond f p [] gone e = refl
session_id-untouched cond f p (s ∷ rows) gone e = elim (Bool-cases (cond s)) [
  | inl met ↦
      let off : p s ≡ false = ground (arith, e, met) in
      let ih = session_id-untouched cond f p rows gone (ground (arith, e, off)) in
      ground (arith, ih, met, off, gone s)
  | inr unmet ↦
      let ih = session_id-untouched cond f p rows gone (ground (arith, e, unmet)) in
      ground (arith, ih, unmet)
]

first_one : (p : Session → Bool) (s : Session) → p s ≡ true → first p (s ∷ []) ≡ some s
unfolding first
first_one p s h = ground (arith, h)

first_other : (p : Session → Bool) (s : Session) → p s ≡ false → first p (s ∷ []) ≡ none
unfolding first
first_other p s h = ground (arith, h)

-- What an event shows of the sessions before and after.
abbrev pub IsEvent : Event → List Session → List Session → Type 0
IsEvent e sessions sessions' =
    (x : ℕ)
    → session_id (first (seated_at x) sessions')
      ≡ apply e (λ t. session_id (first (seated_at t) sessions)) x

pub seated-IsEvent :
    (t : ℕ) (s : Session) (sessions : List Session)
    → s.table_id ≡ some t
    → is_active s.status ≡ true
    → count (seated_at t) sessions ≡ 0
    → IsEvent (seat t s.id) sessions (sessions ++ s ∷ [])
unfolding apply
seated-IsEvent t s sessions at here free x =
    let there = first-append (seated_at x) sessions (s ∷ []) in
    elim (Bool-cases (x == t)) [
      | inl same ↦
          let vacant =
            count-none (seated_at x) sessions
              (subst (λ y. count (seated_at y) sessions ≡ 0) (sym ((==_iff x t).0 same)) free) in
          let sits : seated_at x s ≡ true = ground (arith, at, here, same) in
          let one = first_one (seated_at x) s sits in
          ap session_id there ∙ ground (arith, vacant, one, same)
      | inr other ↦
          let off : seated_at x s ≡ false = ground (arith, at, other) in
          let no = first_other (seated_at x) s off in
          ap session_id there ∙ ground (arith, no, other)
    ]

pub takeaway-IsEvent :
    (s : Session) (sessions : List Session)
    → s.table_id ≡ none
    → IsEvent (vacate []) sessions (sessions ++ s ∷ [])
unfolding apply
takeaway-IsEvent s sessions at x =
    let off : seated_at x s ≡ false = ground (arith, at) in
    let no = first_other (seated_at x) s off in
    ap session_id (first-append (seated_at x) sessions (s ∷ [])) ∙ ground (arith, no)

-- Sessions that are closed leave their tables.
pub closed-IsEvent :
    (cond : Session → Bool) (f : Session → Session) (ts : List ℕ) (sessions : List Session)
    → ((s : Session) → is_active (f s).status ≡ false)
    → ((x : ℕ) → contains x ts ≡ true → count (seated_at x) (update_many cond f sessions) ≡ 0)
    → ((x : ℕ) → contains x ts ≡ false → count (λ s. cond s && seated_at x s) sessions ≡ 0)
    → IsEvent (vacate ts) sessions (update_many cond f sessions)
unfolding apply
closed-IsEvent cond f ts sessions gone emptied kept x = elim (Bool-cases (contains x ts)) [
  | inl there ↦
      let vacant = count-none (seated_at x) (update_many cond f sessions) (emptied x there) in
      ap session_id vacant ∙ ground (arith, there)
  | inr elsewhere ↦
      session_id-untouched cond f (seated_at x) sessions (λ s. ground (arith, gone s))
        (kept x elsewhere)
      ∙ ground (arith, elsewhere)
]

-- Where one row meets `cond` and it meets `q`, no row that meets `p` instead does.
pub others_kept :
    (cond p q : Session → Bool) (sessions : List Session)
    → count cond sessions ≡ 1
    → 1 ≤ count (λ s. cond s && q s) sessions
    → ((s : Session) → q s ≡ true → p s ≡ false)
    → count (λ s. cond s && p s) sessions ≡ 0
others_kept cond p q sessions one there apart =
    let split =
      count_disjoint (λ s. cond s && q s) (λ s. cond s && p s) cond sessions
        (λ s h.
          let b : p s ≡ false = apart s (ground (arith, h)) in
          (ground (arith, b), ground (arith, h)))
        (λ s h. ground (arith, h)) in
    omega (arith, split, one, there)

-- The event of a session that is opened, and of one that ends.
abbrev pub opened : Option ℕ → ℕ → Event
opened none id = vacate []
opened (some t) id = seat t id

abbrev pub tables_of : Option ℕ → List ℕ
tables_of none = []
tables_of (some t) = t ∷ []

abbrev pub left : Session → Event
left s = vacate (if is_active s.status then tables_of s.table_id else [])

abbrev pub ended : Db → ℕ → Event
ended db id = elim (find session_key id db.sessions) [ none ↦ vacate [] | some s ↦ left s ]

pub nothing-IsEvent :
    (sessions : List Session) {sessions' : List Session}
    → sessions' ≡ sessions
    → IsEvent (vacate []) sessions sessions'
unfolding apply
nothing-IsEvent sessions e x = ap (λ r. session_id (first (seated_at x) r)) e
