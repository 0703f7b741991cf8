-- ===== src/Orders/Seated/Merge.antt =====
-- Merging the sessions of several tables into one keeps the tables seated: as many sessions were read
-- as there are source tables, so that no session remains at any of them.
use coffee_shop_be.Prelude.{
  false, ℕ, Bool, true, not, ◌&&◌, some, List, [], ◌∷◌, ◌+◌, ◌≤◌, ◌==◌, ◌≡◌, refl, ap, subst, inl,
  inr, arith, count, length, filter, contains, ◌||◌, Bool-cases, Option-cases, ==_iff, ==_refl,
}
use coffee_shop_be.Prelude.Table.{first, update_many}
use coffee_shop_be.Prelude.Count.{weight, count-weight, count_le, count-update_many_lost}
use coffee_shop_be.Prelude.Http.{ok, ok_injective, >>=-eq_ok, or_throw-eq_ok, guard-eq_ok, conflict}
use coffee_shop_be.Cash.Access.{assert_active_employee}
use coffee_shop_be.Orders.Types.{Db, Table, Session, is_active}
use coffee_shop_be.Orders.Policy.{is_billed, seated_at, log, assert_no_paid_or_invoiced_items}
use coffee_shop_be.Orders.Unique.{unique}
use coffee_shop_be.Orders.Seating.{release, complete, at_any, is_source, session_ids, merge_tables}
use coffee_shop_be.Orders.Floor.{vacate, closed-IsEvent, count_disjoint}
use coffee_shop_be.Orders.Lines.{rejoined, update_many-AreKept}
use coffee_shop_be.Orders.Seated.{Follows, taken, IsSeated, taken_le, taken-spared, taken-freed}

module _ (src : Session → Bool) where
  abbrev source_at : ℕ → Session → Bool
  source_at t s = src s && seated_at t s

  -- The sources at each of the tables, together.
  abbrev total_at : List ℕ → List Session → ℕ
  total_at [] sessions = 0
  total_at (t ∷ ts) sessions = count (source_at t) sessions + total_at ts sessions

  abbrev hits : List ℕ → Session → ℕ
  hits [] s = 0
  hits (t ∷ ts) s = weight (source_at t) s + hits ts s

  total_at-nil : (ts : List ℕ) → total_at ts [] ≡ 0
  total_at-nil [] = refl
  total_at-nil (t ∷ ts) = omega (arith, total_at-nil ts)

  total_at-cons :
      (ts : List ℕ) (s : Session) (sessions : List Session)
      → total_at ts (s ∷ sessions) ≡ hits ts s + total_at ts sessions
  total_at-cons [] s sessions = omega arith
  total_at-cons (t ∷ ts) s sessions =
      omega (arith, total_at-cons ts s sessions, count-weight (source_at t) s sessions)

  -- A source sits at one of the tables.
  hits-source :
      (ts : List ℕ) (s : Session) (k : ℕ)
      → src s ≡ true
      → is_active s.status ≡ true
      → s.table_id ≡ some k
      → contains k ts ≡ true
      → 1 ≤ hits ts s
  hits-source [] s k h a at c = ground arith
  hits-source (t ∷ ts) s k h a at c = elim (Bool-cases (k == t)) [
    | inl same ↦ ground (arith, h, a, at, same)
    | inr other ↦ ground (arith, hits-source ts s k h a at (ground (arith, other, c)))
  ]

  hits-any :
      (ts : List ℕ) (s : Session)
      → src s ≡ true
      → is_active s.status ≡ true
      → at_any ts s ≡ true
      → 1 ≤ hits ts s
  hits-any ts s h a c = elim (Option-cases s.table_id) [
    | inl nowhere ↦ ground (arith, nowhere, c)
    | inr (k, at) ↦ hits-source ts s k h a at (ground (arith, at, c))
  ]

  sources_counted :
      (ts : List ℕ) (sessions : List Session)
      → ((s : Session) → src s ≡ true → (is_active s.status ≡ true) × (at_any ts s ≡ true))
      → length (filter src sessions) ≤ total_at ts sessions
  sources_counted ts [] h = omega (arith, total_at-nil ts)
  sources_counted ts (s ∷ sessions) h =
      let ih = sources_counted ts sessions h in
      let step = total_at-cons ts s sessions in
      elim (Bool-cases (src s)) [
        | inl met ↦
            let (a, at) = h s met in
            let hit = hits-any ts s met a at in ground (arith, ih, step, hit, met)
        | inr unmet ↦ ground (arith, ih, step, unmet)
      ]

  -- With at most one source at each table, a table without one is missing in the total.
  total_bound :
      (ts : List ℕ) (sessions : List Session)
      → ((t : ℕ) → count (source_at t) sessions ≤ 1)
      → total_at ts sessions ≤ length ts
  total_bound [] sessions h = omega arith
  total_bound (t ∷ ts) sessions h = omega (arith, h t, total_bound ts sessions h)

  each_table :
      (ts : List ℕ) (sessions : List Session) (t : ℕ)
      → ((x : ℕ) → count (source_at x) sessions ≤ 1)
      → length ts ≤ total_at ts sessions
      → contains t ts ≡ true
      → 1 ≤ count (source_at t) sessions
  each_table [] sessions t h full c = ground arith
  each_table (x ∷ ts) sessions t h full c =
      let rest = total_bound ts sessions h in
      elim (Bool-cases (t == x)) [
        | inl same ↦
            let e : count (source_at t) sessions ≡ count (source_at x) sessions =
              ap (λ y. count (source_at y) sessions) ((==_iff t x).0 same) in
            omega (arith, e, full, rest)
        | inr other ↦
            each_table ts sessions t h (omega (arith, full, h x)) (ground (arith, other, c))
      ]

  -- Every source is among the sessions that are closed.
  sources_close :
      (ids : List ℕ) (t : ℕ) (sessions : List Session)
      → ((id : ℕ) → contains id (session_ids (filter src sessions)) ≡ true → contains id ids ≡ true)
      → count (source_at t) sessions
        ≤ count (λ s. (contains s.id ids && is_active s.status) && seated_at t s) sessions
  sources_close ids t [] h = omega arith
  sources_close ids t (s ∷ sessions) h = elim (Bool-cases (src s)) [
    | inl met ↦
        let ih = sources_close ids t sessions (λ id c. h id (rw met ground (arith, c))) in
        let here = h s.id (rw met ground (arith, ==_refl s.id)) in ground (arith, ih, here)
    | inr unmet ↦
        let ih = sources_close ids t sessions (λ id c. h id (rw unmet c)) in
        ground (arith, ih, unmet)
  ]

  -- The sources, counted among the sessions that are closed at one of the tables.
  sources_leave :
      (ids ts : List ℕ) (sessions : List Session)
      → ((s : Session) → src s ≡ true → (is_active s.status ≡ true) × (at_any ts s ≡ true))
      → ((id : ℕ) → contains id (session_ids (filter src sessions)) ≡ true → contains id ids ≡ true)
      → length (filter src sessions)
        ≤ count (λ s. (contains s.id ids && is_active s.status) && at_any ts s) sessions
  sources_leave ids ts [] a h = omega arith
  sources_leave ids ts (s ∷ sessions) a h = elim (Bool-cases (src s)) [
    | inl met ↦
        let ih = sources_leave ids ts sessions a (λ id c. h id (rw met ground (arith, c))) in
        let here = h s.id (rw met ground (arith, ==_refl s.id)) in
        let (active, at) = a s met in ground (arith, ih, here, active, at, met)
    | inr unmet ↦
        let ih = sources_leave ids ts sessions a (λ id c. h id (rw unmet c)) in
        ground (arith, ih, unmet)
  ]

merged :
    (source_ids ts : List ℕ) (tables : List Table) (sessions : List Session)
    → length (filter (is_source source_ids ts) sessions) ≡ length ts
    → ((t : ℕ) → count (seated_at t) sessions ≤ taken t tables)
    → (t : ℕ)
    → count (seated_at t) (
        update_many
          (λ s.
            contains s.id (session_ids (filter (is_source source_ids ts) sessions))
            && is_active s.status)
          complete
          sessions)
      ≤ taken t (update_many (λ r. contains r.id ts) release tables)
unfolding is_source
merged source_ids ts tables sessions all_read seated t =
    let src = is_source source_ids ts in
    let ids = session_ids (filter src sessions) in
    let closing = λ (s : Session). contains s.id ids && is_active s.status in
    let full = taken_le t tables in
    let lost =
      count-update_many_lost closing complete (seated_at t) (λ s. closing s && seated_at t s)
        sessions
        (λ s. elim (Bool-cases (closing s)) [
          | inl met ↦ rw met ground arith
          | inr unmet ↦ rw unmet ground arith
        ]) in
    elim (Bool-cases (contains t ts)) [
      | inl emptied ↦
          let bound =
            λ (x : ℕ). count_le (source_at src x) (seated_at x) sessions (λ s h. ground arith) in
          let one : (x : ℕ) → count (source_at src x) sessions ≤ 1 =
            λ x. omega (arith, bound x, seated x, taken_le x tables) in
          let counted = sources_counted src ts sessions (λ s h. (ground arith, ground arith)) in
          let there = each_table src ts sessions t one (omega (arith, counted, all_read)) emptied in
          let close = sources_close src ids t sessions (λ id c. c) in
          omega (arith, lost, there, close, seated t, full)
      | inr other ↦
          let spare = taken-spared t (λ r. contains r.id ts) tables (λ r e. rw e other) in
          omega (arith, lost, spare, seated t)
    ]

session_ids-length : (ss : List Session) → length (session_ids ss) ≡ length ss
session_ids-length [] = refl
session_ids-length (s ∷ ss) = omega (arith, session_ids-length ss)

not_both :
    (ts : List ℕ) (x : ℕ) (s : Session) (closes : Bool)
    → contains x ts ≡ false
    → at_any ts s ≡ true
    → (closes && seated_at x s) ≡ false
not_both ts x s closes off at = elim (Option-cases s.table_id) [
  | inl nowhere ↦ ground (arith, nowhere, at)
  | inr (k, here) ↦ elim (Bool-cases (k == x)) [
    | inl same ↦
        let there = ap (λ y. contains y ts) ((==_iff k x).0 same) in
        ground (arith, here, at, off, there)
    | inr other ↦ ground (arith, here, other)
  ]
]

-- Elsewhere no session is closed.
away :
    (source_ids ts : List ℕ) (sessions : List Session) (x : ℕ)
    → length (filter (is_source source_ids ts) sessions) ≡ length ts
    → count
        (λ s.
          contains s.id (session_ids (filter (is_source source_ids ts) sessions))
          && is_active s.status)
        sessions
      ≡ length (session_ids (filter (is_source source_ids ts) sessions))
    → contains x ts ≡ false
    → count
        (λ s.
          (contains s.id (session_ids (filter (is_source source_ids ts) sessions))
            && is_active s.status)
          && seated_at x s)
        sessions
      ≡ 0
unfolding is_source
away source_ids ts sessions x all_read closed off =
    let src = is_source source_ids ts in
    let ids = session_ids (filter src sessions) in
    let cond = λ (s : Session). contains s.id ids && is_active s.status in
    let leave =
      sources_leave src ids ts sessions (λ s h. (ground (arith, h), ground (arith, h)))
        (λ id c. c) in
    let split =
      count_disjoint (λ s. cond s && at_any ts s) (λ s. cond s && seated_at x s) cond sessions
        (λ s h. (not_both ts x s (cond s) off (ground (arith, h)), ground (arith, h)))
        (λ s h. ground (arith, h)) in
    let same = session_ids-length (filter src sessions) in omega (arith, split, leave, closed, same)

pub merge_tables-Follows :
    (db : Db) (source_table_ids : List ℕ) (table_id : ℕ) (source_ids : List ℕ) (id employee_id : ℕ)
    {db' : Db}
    → merge_tables db source_table_ids table_id source_ids id employee_id ≡ ok db'
    → IsSeated db
    → Follows db (vacate (unique source_table_ids)) db'
unfolding merge_tables log
merge_tables-Follows db source_table_ids table_id source_ids id employee_id e seated =
    let (u, p, e1) = >>=-eq_ok (assert_active_employee db.cash employee_id) _ e in
    let (target, p1, e2) =
      or_throw-eq_ok (first (λ s. (s.id == id) && seated_at table_id s) db.sessions) conflict _
        e1 in
    let ts = unique source_table_ids in
    let sources = filter (is_source source_ids ts) db.sessions in
    let (p3, e3) = guard-eq_ok (length sources == length ts) conflict _ e2 in
    let ids = session_ids sources in
    let (u1, p4, e4) =
      >>=-eq_ok
        (assert_no_paid_or_invoiced_items (
          filter (λ i. (i.order_session_id == target.id) || contains i.order_session_id ids)
            db.order_items))
        _ e3 in
    let (p5, e5) =
      guard-eq_ok
        (count (λ (s : Session). contains s.id ids && is_active s.status) db.sessions == length ids)
        conflict _ e4 in
    subst (Follows db (vacate (unique source_table_ids))) (ok_injective e5) (
      merged source_ids ts db.tables db.sessions ((==_iff (length sources) (length ts)).0 p3)
          seated,
      update_many-AreKept (λ i. contains i.order_session_id ids && not (is_billed i))
          (λ i. record i { order_session_id = target.id }) db.order_items (λ r. refl)
          (λ r met. rejoined r target.id (ground (arith, met))),
      closed-IsEvent (λ s. contains s.id ids && is_active s.status) complete ts db.sessions
          (λ s. refl)
          (λ x c.
            let room =
              merged source_ids ts db.tables db.sessions
                ((==_iff (length sources) (length ts)).0 p3) seated x in
            let free = taken-freed x (λ r. contains r.id ts) db.tables (λ r e. rw e c) in
            omega (arith, room, free))
          (λ x c.
            away source_ids ts db.sessions x ((==_iff (length sources) (length ts)).0 p3)
              ((==_iff
                  (count (λ (s : Session). contains s.id ids && is_active s.status) db.sessions)
                  (length ids)).0
                p5)
              c),
    )
