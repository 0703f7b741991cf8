-- ===== src/Durable/Tests.antt =====
-- A counter behind the idempotency layer, and a database that fails twice.
use coffee_shop_be.Prelude.{
  ℕ, suc, Bool, true, false, Option, none, some, List, [], ◌∷◌, ◌==◌, if◌then◌else◌, ◌≡◌, ◌≢◌, ◌⊎◌,
  ◌≤◌, ◌<◌, ◌+◌, refl, arith, ltb,
}
use coffee_shop_be.Prelude.Http.{Result, ok, err, conflict}
use coffee_shop_be.Durable.Transaction.{
  Attempt, committed, failed, write_conflict, DecidedBy, run_serializable_transaction,
  run_serializable_transaction_lem,
}
use coffee_shop_be.Durable.Idempotency.{Store, Input, execute, find_existing, serve_all}
use coffee_shop_be.Durable.Replay.{replay_once}

abbrev flaky : ℕ → Attempt ℕ
flaky attempt = if ltb attempt 3 then failed write_conflict else committed 7

third_attempt_commits : run_serializable_transaction flaky false 3 25 ≡ (committed 7, 25 ∷ 50 ∷ [])
unfolding run_serializable_transaction
third_attempt_commits = refl

run_serializable_transaction_lem_example :
    (k : ℕ) × DecidedBy flaky false 1 3 k (run_serializable_transaction flaky false 3 25).0
run_serializable_transaction_lem_example =
    run_serializable_transaction_lem flaky false 3 25 (omega arith)

abbrev add_5 : ℕ → Result (ℕ × ℕ)
add_5 n = ok (n + 5, n + 5)

abbrev input : Input
input = record { employee_id = 1; operation = 2; key = 3; request_hash = 99 }

abbrev other_input : Input
other_input = record { employee_id = 1; operation = 2; key = 4; request_hash = 98 }

abbrev empty : Store ℕ ℕ
empty = record { next_id = 0; requests = []; state = 10 }

abbrev after_first : Store ℕ ℕ
after_first = record {
  next_id = 1;
  requests =
      record {
        id = 0;
        employee_id = 1;
        operation = 2;
        key = 3;
        request_hash = 99;
        completed = true;
        response = some 15;
      }
      ∷ [];
  state = 15;
}

abbrev json : ℕ → Option ℕ
json n = some n

abbrev later : Store ℕ ℕ
later = serve_all json ((other_input, add_5) ∷ (input, add_5) ∷ []) after_first

first_runs : execute json input add_5 empty false empty empty ≡ ok (15, after_first)
unfolding execute coffee_shop_be.Prelude.Table.update
first_runs = refl

replay_once_example :
    (add_5 10 ≡ ok (15, 15))
    × (other_input.request_hash ≡ input.request_hash
        → execute json (record input { request_hash = 98 }) add_5 later false later later
          ≡ ok (15, later))
    × (other_input.request_hash ≢ input.request_hash
        → execute json (record input { request_hash = 98 }) add_5 later false later later
          ≡ err conflict)
unfolding find_existing
replay_once_example =
    replay_once json input add_5 empty 15 after_first 15 refl first_runs refl
      ((other_input, add_5) ∷ (input, add_5) ∷ []) 98 add_5
