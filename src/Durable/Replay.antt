-- ===== src/Durable/Replay.antt =====
-- idempotency.service.ts: a request with a key that was used is answered from its row, whatever
-- requests came between.
use coffee_shop_be.Prelude.{
  ℕ, true, false, Option, none, some, List, [], ◌∷◌, if◌then◌else◌, ◌≡◌, inl, inr, refl, arith, ◌≢◌,
  ◌∙◌, Option-cases,
}
use coffee_shop_be.Prelude.Table.{update}
use coffee_shop_be.Prelude.Http.{Result, ok, err, ◌>>=◌, conflict, Result-cases}
use coffee_shop_be.Durable.Idempotency.{
  Row, Store, Input, has_key, find_existing, replay, processing, in_transaction, execute,
  store_after, serve, serve_all,
}

abbrev SameKey : Input → Input → Type 0
SameKey i j = (i.employee_id ≡ j.employee_id) × (i.operation ≡ j.operation) × (i.key ≡ j.key)

same_key :
    (R : Type 0) (i j : Input) (n : ℕ) → has_key {R = R} i (processing n j) ≡ true → SameKey i j
same_key R i j n e = ground arith

module _ {R : Type 0} where
  find-same :
      (i j : Input) (rows : List (Row R))
      → SameKey i j
      → find_existing i rows ≡ find_existing j rows
  unfolding find_existing
  find-same i j [] h = refl
  find-same i j (r ∷ rows) h = rw (h.0, h.1, h.2, find-same i j rows h) refl

  -- What the transaction leaves under a new key.
  find-written :
      (i j : Input) (n : ℕ) (response : Option R) (rows : List (Row R))
      → find_existing i (
          update
            (λ r. r.id)
            n
            (λ r. record r { completed = true; response = response })
            (processing n j ∷ rows))
        ≡ (if has_key {R = R} i (processing n j)
            then some (record (processing n j) { completed = true; response = response })
            else find_existing i rows)
  unfolding find_existing update
  find-written i j n response rows = ground arith

module _ {S R : Type 0} (to_json : R → Option R) where
  -- What a first request leaves: its result, and a completed row with the JSON of the result.
  executed :
      (i : Input) (operation : S → Result (R × S)) (db : Store S R) {result : R} {db' : Store S R}
      → find_existing i db.requests ≡ none
      → in_transaction to_json i operation db ≡ ok (result, db')
      → (operation db.state ≡ ok (result, db'.state))
        × (db'.requests
            ≡ update
                (λ r. r.id)
                db.next_id
                (λ r. record r { completed = true; response = to_json result })
                (processing db.next_id i ∷ db.requests))
  unfolding in_transaction
  executed i operation db fresh e = ground arith

  replayed-store :
      (db : Store S R) (m : Result R)
      → store_after to_json db (m >>= λ response. ok (response, db)) ≡ db
  replayed-store db (ok response) = refl
  replayed-store db (err e) = refl

  serve-again :
      (c : Input × (S → Result (R × S))) (db : Store S R) {r : Row R}
      → find_existing c.0 db.requests ≡ some r
      → serve to_json c db ≡ db
  unfolding serve execute
  serve-again c db {r} e = ground (arith, e, replayed-store db (replay r c.0))

  serve-fresh :
      (c : Input × (S → Result (R × S))) (db : Store S R)
      → find_existing c.0 db.requests ≡ none
      → serve to_json c db ≡ store_after to_json db (in_transaction to_json c.0 c.1 db)
  unfolding serve execute
  serve-fresh c db e = ground (arith, e)

  -- A row that is there stays.
  serve-keeps :
      (c : Input × (S → Result (R × S))) (db : Store S R) (i : Input) {r : Row R}
      → find_existing i db.requests ≡ some r
      → find_existing i (serve to_json c db).requests ≡ some r
  serve-keeps c db i {r} e = elim (Option-cases (find_existing c.0 db.requests)) [
    | inr (r', found) ↦ rw (serve-again c db found) e
    | inl fresh ↦ elim (Result-cases (in_transaction to_json c.0 c.1 db)) [
      | inl (x, failed) ↦ rw (serve-fresh c db fresh, failed) e
      | inr ((result, db'), worked) ↦
          let written = executed c.0 c.1 db fresh worked in
          let same : ((has_key {R = R} i (processing db.next_id c.0)) ≡ true)
              → find_existing i db.requests ≡ find_existing c.0 db.requests =
            λ k. find-same i c.0 db.requests (same_key R i c.0 db.next_id k) in
          rw (serve-fresh c db fresh, worked, written.1)
            (ground
              (arith, find-written i c.0 db.next_id (to_json result) db.requests, same, fresh, e))
    ]
  ]

  serve_all-keeps :
      (cs : List (Input × (S → Result (R × S)))) (db : Store S R) (i : Input) {r : Row R}
      → find_existing i db.requests ≡ some r
      → find_existing i (serve_all to_json cs db).requests ≡ some r
  unfolding serve_all
  serve_all-keeps [] db i e = e
  serve_all-keeps (c ∷ cs) db i e = serve_all-keeps cs (serve to_json c db) i (serve-keeps c db i e)

  answer_same :
      (i : Input) (operation : S → Result (R × S)) (db : Store S R) (r : Row R) {v : R}
      → find_existing i db.requests ≡ some r
      → i.request_hash ≡ r.request_hash
      → r.completed ≡ true
      → r.response ≡ some v
      → execute to_json i operation db false db db ≡ ok (v, db)
  unfolding execute replay
  answer_same i operation db r e h c v = ground (arith, e, h, c, v)

  answer_other :
      (i : Input) (operation : S → Result (R × S)) (db : Store S R) (r : Row R)
      → find_existing i db.requests ≡ some r
      → i.request_hash ≢ r.request_hash
      → execute to_json i operation db false db db ≡ err conflict
  unfolding execute replay
  answer_other i operation db r e h = ground (arith, e, h)

  -- A request that succeeded under a new key ran its operation once, on the state it found. Then,
  -- after any further requests, the same key with the same hash is answered with the JSON of that
  -- result, and with another hash it is refused; either way its operation does not run.
  pub replay_once :
      (i : Input) (operation : S → Result (R × S)) (db : Store S R) (result : R) (db' : Store S R)
      (response : R)
      → find_existing i db.requests ≡ none
      → execute to_json i operation db false db db ≡ ok (result, db')
      → to_json result ≡ some response
      → (cs : List (Input × (S → Result (R × S)))) (hash : ℕ) (again : S → Result (R × S))
      → (operation db.state ≡ ok (result, db'.state))
        × (hash ≡ i.request_hash
            → execute to_json
                (record i { request_hash = hash })
                again
                (serve_all to_json cs db')
                false
                (serve_all to_json cs db')
                (serve_all to_json cs db')
              ≡ ok (response, serve_all to_json cs db'))
        × (hash ≢ i.request_hash
            → execute to_json
                (record i { request_hash = hash })
                again
                (serve_all to_json cs db')
                false
                (serve_all to_json cs db')
                (serve_all to_json cs db')
              ≡ err conflict)
  unfolding execute
  replay_once i operation db result db' response fresh e json cs hash again =
      let ran : in_transaction to_json i operation db ≡ ok (result, db') =
        ground (arith, e, fresh) in
      let (worked, written) = executed i operation db fresh ran in
      let i' = record i { request_hash = hash } in
      let row = record (processing db.next_id i) { completed = true; response = to_json result } in
      let here : find_existing i' db'.requests ≡ some row =
        rw written (find-written i' i db.next_id (to_json result) db.requests ∙ ground arith) in
      let there = serve_all-keeps cs db' i' here in
      (
        worked,
        (λ h. answer_same i' again (serve_all to_json cs db') row there h refl json),
        (λ h. answer_other i' again (serve_all to_json cs db') row there h),
      )
