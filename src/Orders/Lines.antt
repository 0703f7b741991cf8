-- ===== src/Orders/Lines.antt =====
-- How an order line changes: its serve status moves on, and what it costs, what it is and its bill stay.
pub mod Serve
pub mod Write
use coffee_shop_be.Prelude.{
  ℕ, Bool, true, false, not, ◌&&◌, Option, none, some, List, [], ◌∷◌, ◌++◌, ◌≤◌, ◌==◌, ◌≡◌, ◌∙◌,
  refl, sym, ap, subst, arith, inl, inr, is_some, if◌then◌else◌, Bool-cases, Option-cases,
  some_injective, ==_iff,
}
use mathlib.Core.Option
use coffee_shop_be.Prelude.Table.{
  find, update, claim, update_many, find-append, find-update, find-update_many, claim-eq_some,
}
use coffee_shop_be.Orders.Types.{
  Db, OrderItem, ServeStatus, pending, cooking, ready, served, order_item_key, same_status,
}
use coffee_shop_be.Orders.Policy.{is_allowed}

-- One change of the serve status of a line that is on an invoice or not.
pub data Moves : Bool → ServeStatus → ServeStatus → Type 0 where
  start : {b : Bool} → Moves b pending cooking
  finish : {b : Bool} → Moves b cooking ready
  serve : {b : Bool} → Moves b cooking served
  hand_over : {b : Bool} → Moves b ready served
  cancel :
      {s : ServeStatus}
      → same_status s ServeStatus.cancelled ≡ false
      → Moves false s ServeStatus.cancelled

pub data Reaches : Bool → ServeStatus → ServeStatus → Type 0 where
  stay : {b : Bool} {s : ServeStatus} → Reaches b s s
  move : {b : Bool} {s t u : ServeStatus} → Moves b s t → Reaches b t u → Reaches b s u

pub join : {b : Bool} {s t u : ServeStatus} → Reaches b s t → Reaches b t u → Reaches b s u
join stay q = q
join (move m p) q = move m (join p q)

abbrev pub is_invoiced : OrderItem → Bool
is_invoiced i = is_some i.invoice_id

-- A line later: on an invoice it keeps its session and quantity, and is not cancelled.
pub record Later (i j : OrderItem) : Type 0 where
  pub reaches : Reaches (is_invoiced i) i.serve_status j.serve_status
  pub same_item : i.menu_item_id ≡ j.menu_item_id
  pub same_price : i.price_at_time ≡ j.price_at_time
  pub same_options : i.selected_options ≡ j.selected_options
  pub same_paid : i.is_paid ≡ j.is_paid
  pub same_invoice : i.invoice_id ≡ j.invoice_id
  pub quantity_le : j.quantity ≤ i.quantity
  pub bound :
      is_invoiced i ≡ true → (i.order_session_id ≡ j.order_session_id) × (i.quantity ≡ j.quantity)

pub Later-refl : (i : OrderItem) → Later i i
Later-refl i = record {
  reaches = stay;
  same_item = refl;
  same_price = refl;
  same_options = refl;
  same_paid = refl;
  same_invoice = refl;
  quantity_le = omega arith;
  bound = λ h. (refl, refl);
}

-- A line that is not invoiced may change its session, and lose a part of its quantity.
pub reduced :
    (i : OrderItem) (session_id quantity : ℕ)
    → is_invoiced i ≡ false
    → quantity ≤ i.quantity
    → Later i (record i { order_session_id = session_id; quantity = quantity })
reduced i session_id quantity h le = record {
  reaches = stay;
  same_item = refl;
  same_price = refl;
  same_options = refl;
  same_paid = refl;
  same_invoice = refl;
  quantity_le = le;
  bound = λ b. cc;
}

pub rejoined :
    (i : OrderItem) (session_id : ℕ)
    → is_invoiced i ≡ false
    → Later i (record i { order_session_id = session_id })
rejoined i session_id h = reduced i session_id i.quantity h (omega arith)

pub Later-trans : {i j k : OrderItem} → Later i j → Later j k → Later i k
Later-trans {i} {j} {k} p q = record {
  reaches = join p.reaches (
      subst (λ (b : Option ℕ). Reaches (is_some b) j.serve_status k.serve_status)
        (sym p.same_invoice) q.reaches);
  same_item = p.same_item ∙ q.same_item;
  same_price = p.same_price ∙ q.same_price;
  same_options = p.same_options ∙ q.same_options;
  same_paid = p.same_paid ∙ q.same_paid;
  same_invoice = p.same_invoice ∙ q.same_invoice;
  quantity_le = omega (arith, p.quantity_le, q.quantity_le);
  bound = λ h.
      let h' = subst (λ (b : Option ℕ). is_some b ≡ true) p.same_invoice h in
      ((p.bound h).0 ∙ (q.bound h').0, (p.bound h).1 ∙ (q.bound h').1);
}

-- Every line of a table is still there, later.
pub AreKept : List OrderItem → List OrderItem → Type 0
AreKept rows rows' =
    (id : ℕ) (i : OrderItem)
    → find order_item_key id rows ≡ some i
    → (j : OrderItem) × (find order_item_key id rows' ≡ some j) × Later i j

-- An operation on lines: it keeps them, and leaves tables and sessions alone.
abbrev pub IsLineChange : Db → Db → Type 0
IsLineChange db db' =
    AreKept db.order_items db'.order_items × (db'.tables ≡ db.tables) × (db'.sessions ≡ db.sessions)

pub AreKept-refl : (rows : List OrderItem) → AreKept rows rows
unfolding AreKept
AreKept-refl rows id i e = (i, e, Later-refl i)

pub AreKept-trans : (xs ys zs : List OrderItem) → AreKept xs ys → AreKept ys zs → AreKept xs zs
unfolding AreKept
AreKept-trans xs ys zs p q id i e =
    let (j, found, later) = p id i e in
    let (k, found', later') = q id j found in (k, found', Later-trans later later')

pub append-AreKept : (rows more : List OrderItem) → AreKept rows (rows ++ more)
unfolding AreKept
append-AreKept rows more id i e = (i, find-append order_item_key id rows more e, Later-refl i)

pub update_many-AreKept :
    (cond : OrderItem → Bool) (f : OrderItem → OrderItem) (rows : List OrderItem)
    → ((r : OrderItem) → (f r).id ≡ r.id)
    → ((r : OrderItem) → cond r ≡ true → Later r (f r))
    → AreKept rows (update_many cond f rows)
unfolding AreKept
update_many-AreKept cond f rows key h id i e =
    let there =
      find-update_many order_item_key id cond f rows key
      ∙ ap (Option.map (λ r. if cond r then f r else r)) e in
    (
      if cond i then f i else i,
      there,
      elim (Bool-cases (cond i)) [
        | inl met ↦ rw met (h i met)
        | inr unmet ↦ rw unmet (Later-refl i)
      ],
    )

pub claim-AreKept :
    (k : ℕ) (cond : OrderItem → Bool) (f : OrderItem → OrderItem) (rows : List OrderItem)
    {rows' : List OrderItem}
    → ((r : OrderItem) → (f r).id ≡ r.id)
    → ((r : OrderItem) → find order_item_key k rows ≡ some r → cond r ≡ true → Later r (f r))
    → claim order_item_key k cond f rows ≡ some rows'
    → AreKept rows rows'
unfolding AreKept
claim-AreKept k cond f rows {rows'} key h e id i found =
    let (r, found_r, met, written) = claim-eq_some order_item_key k cond f rows e in
    let there = ap (find order_item_key id) written ∙ find-update order_item_key id k f rows key in
    elim (Bool-cases (id == k)) [
      | inl same ↦
          let here = ap (λ x. find order_item_key x rows) (sym ((==_iff id k).0 same)) in
          let eq : r ≡ i = some_injective (sym found_r ∙ here ∙ found) in
          (
            f i,
            ground (arith, there, same, found),
            h i (subst (λ x. find order_item_key k rows ≡ some x) eq found_r)
                (subst (λ x. cond x ≡ true) eq met),
          )
      | inr other ↦ (i, ground (arith, there, other, found), Later-refl i)
    ]
