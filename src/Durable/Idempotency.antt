-- ===== src/Durable/Idempotency.antt =====
-- idempotency.service.ts: requests that carry a key run at most once. The hash of a request, the
-- JSON of a result (`none` is the JSON null) and the state that an operation works on are
-- parameters.
use coffee_shop_be.Prelude.{
  ℕ, suc, Bool, true, false, ◌&&◌, Option, none, some, List, [], ◌∷◌, ◌==◌, if◌then◌else◌,
}
use coffee_shop_be.Prelude.Table.{update}
use coffee_shop_be.Prelude.Http.{Result, ok, err, ◌>>=◌, conflict, internal}

-- `completed` is the status COMPLETED against PROCESSING.
pub record Row (R : Type 0) : Type 0 where
  pub id : ℕ
  pub employee_id : ℕ
  pub operation : ℕ
  pub key : ℕ
  pub request_hash : ℕ
  pub completed : Bool
  pub response : Option R

pub record Store (S R : Type 0) : Type 0 where
  pub next_id : ℕ
  pub requests : List (Row R)
  pub state : S

-- The input, with the hash of its request.
pub record Input : Type 0 where
  pub employee_id : ℕ
  pub operation : ℕ
  pub key : ℕ
  pub request_hash : ℕ

module _ {R : Type 0} where
  abbrev pub has_key : Input → Row R → Bool
  has_key i r = (r.employee_id == i.employee_id) && (r.operation == i.operation) && (r.key == i.key)

  unfoldable pub find_existing : Input → List (Row R) → Option (Row R)
  find_existing i [] = none
  find_existing i (r ∷ rs) = if has_key i r then some r else find_existing i rs

  abbrev pub replayed : Option R → Bool → Result R
  replayed none completed = err conflict
  replayed (some response) completed = if completed then ok response else err conflict

  unfoldable pub replay : Row R → Input → Result R
  replay r i =
      if r.request_hash == i.request_hash then replayed r.response r.completed else err conflict

  abbrev pub processing : ℕ → Input → Row R
  processing id i = record {
    id = id;
    employee_id = i.employee_id;
    operation = i.operation;
    key = i.key;
    request_hash = i.request_hash;
    completed = false;
    response = none;
  }

module _ {S R : Type 0} (to_json : R → Option R) where
  -- The body of the transaction; an error rolls the store back.
  unfoldable pub in_transaction : Input → (S → Result (R × S)) → Store S R → Result (R × Store S R)
  unfolding find_existing replay
  in_transaction i operation db = elim (find_existing i db.requests) [
    | some r ↦ replay r i >>= λ response. ok (response, db)
    | none ↦ operation db.state >>= λ result. ok (
      result.0,
      record {
        next_id = suc db.next_id;
        requests =
            update (λ r. r.id) db.next_id
              (λ r. record r { completed = true; response = to_json result.0 })
              (processing db.next_id i ∷ db.requests);
        state = result.1;
      },
    )
  ]

  -- `seen` is the store when the request looks first, `db` when its transaction runs. `collides`
  -- says that the insert met a row of another transaction, which `after` then holds.
  unfoldable pub execute :
      Input
      → (S → Result (R × S))
      → Store S R
      → Bool
      → Store S R
      → Store S R
      → Result (R × Store S R)
  unfolding in_transaction
  execute i operation seen collides db after = elim (find_existing i seen.requests) [
    | some r ↦ replay r i >>= λ response. ok (response, db)
    | none ↦
        if collides
        then (elim (find_existing i after.requests) [
          | none ↦ err internal
          | some r ↦ replay r i >>= λ response. ok (response, after)
        ])
        else in_transaction i operation db
  ]

  -- One request on its own: a refused one leaves the store as it was.
  abbrev pub store_after : Store S R → Result (R × Store S R) → Store S R
  store_after db (ok result) = result.1
  store_after db (err e) = db

  unfoldable pub serve : Input × (S → Result (R × S)) → Store S R → Store S R
  unfolding execute
  serve c db = store_after db (execute c.0 c.1 db false db db)

  unfoldable pub serve_all : List (Input × (S → Result (R × S))) → Store S R → Store S R
  unfolding serve
  serve_all [] db = db
  serve_all (c ∷ cs) db = serve_all cs (serve c db)
