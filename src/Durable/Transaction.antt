-- ===== src/Durable/Transaction.antt =====
-- common/prisma/transaction.util.ts: the retry loop around a serializable transaction. What the
-- database answers to each attempt is a parameter.
use coffee_shop_be.Prelude.{
  ℕ, suc, zero, Bool, true, false, ◌&&◌, List, [], ◌∷◌, ◌+◌, ◌*◌, ◌≤◌, ◌<◌, ◌≡◌, ◌⊎◌, inl, inr,
  refl, arith, if◌then◌else◌, Bool-cases, ltb, subst, ◌∙◌,
}

-- The codes of the errors that the loop tells apart: P2034, P2010 with the code of the database,
-- P2002, and the rest.
pub data DbError : Type 0 where
  write_conflict serialization_failure deadlock raw_query unique_violation application : DbError

pub data Attempt (A : Type 0) : Type 0 where
  committed : A → Attempt A
  failed : DbError → Attempt A
  -- The `ConflictException` behind the loop.
  exhausted : Attempt A

abbrev pub is_retryable_error : DbError → Bool → Bool
is_retryable_error write_conflict retry_unique_violations = true
is_retryable_error serialization_failure retry_unique_violations = true
is_retryable_error deadlock retry_unique_violations = true
is_retryable_error unique_violation retry_unique_violations = retry_unique_violations
is_retryable_error raw_query retry_unique_violations = false
is_retryable_error application retry_unique_violations = false

module _ {A : Type 0} (transaction : ℕ → Attempt A) (retry_unique_violations : Bool) where
  abbrev pub retryable : Attempt A → Bool
  retryable (committed a) = false
  retryable (failed e) = is_retryable_error e retry_unique_violations
  retryable exhausted = false

  -- The loop from `attempt` on; `left` is `maxRetries - attempt + 1`. The second result lists the
  -- delays that were waited.
  unfoldable pub loop : ℕ → ℕ → ℕ → Attempt A × List ℕ
  loop base_delay attempt zero = (exhausted, [])
  loop base_delay attempt (suc left) =
      let (result, delays) = loop base_delay (suc attempt) left in
      if retryable (transaction attempt) && ltb 0 left
      then (result, attempt * base_delay ∷ delays)
      else (transaction attempt, [])

  unfoldable pub run_serializable_transaction : ℕ → ℕ → Attempt A × List ℕ
  unfolding loop
  run_serializable_transaction max_retries base_delay = loop base_delay 1 max_retries

  -- The attempt `k` decided, from attempt `first` on with `last` the last one.
  abbrev pub DecidedBy : ℕ → ℕ → ℕ → Attempt A → Type 0
  DecidedBy first last k result =
      (first ≤ k)
      × (k ≤ last)
      × (result ≡ transaction k)
      × ((j : ℕ) → first ≤ j → j < k → retryable (transaction j) ≡ true)
      × ((k ≡ last) ⊎ (retryable (transaction k) ≡ false))

  loop-last : (base_delay attempt : ℕ) → (loop base_delay attempt 1).0 ≡ transaction attempt
  unfolding loop
  loop-last base_delay attempt = ground arith

  loop-again :
      (base_delay attempt left : ℕ)
      → retryable (transaction attempt) ≡ true
      → (loop base_delay attempt (suc (suc left))).0 ≡ (loop base_delay (suc attempt) (suc left)).0
  unfolding loop
  loop-again base_delay attempt left h = ground (arith, h)

  loop-stops :
      (base_delay attempt left : ℕ)
      → retryable (transaction attempt) ≡ false
      → (loop base_delay attempt (suc left)).0 ≡ transaction attempt
  unfolding loop
  loop-stops base_delay attempt left h = rw h refl

  loop-DecidedBy :
      (base_delay attempt left : ℕ)
      → (k : ℕ) × DecidedBy attempt (attempt + left) k (loop base_delay attempt (suc left)).0
  loop-DecidedBy base_delay attempt zero = (
    attempt,
    (
      omega arith,
      omega arith,
      loop-last base_delay attempt,
      (λ j a b. absurd (omega (arith, a, b))),
      inl (omega arith),
    ),
  )
  loop-DecidedBy base_delay attempt (suc left) =
      elim (Bool-cases (retryable (transaction attempt))) [
        | inl again ↦
            let (k, (a, b, e, before, last)) = loop-DecidedBy base_delay (suc attempt) left in
            (
              k,
              (
                omega (arith, a),
                omega (arith, b),
                loop-again base_delay attempt left again ∙ e,
                (λ j c d. elim (Bool-cases (ltb attempt j)) [
                  | inl later ↦ before j (ground arith) d
                  | inr now ↦
                      let here : attempt ≡ j = ground (arith, c) in
                      subst (λ i. retryable (transaction i) ≡ true) here again
                ]),
                elim last [ inl l ↦ inl (omega (arith, l)) | inr l ↦ inr l ],
              ),
            )
        | inr stops ↦ (
          attempt,
          (
            omega arith,
            omega arith,
            loop-stops base_delay attempt (suc left) stops,
            (λ j a b. absurd (omega (arith, a, b))),
            inr stops,
          ),
        )
      ]

  -- With at least one attempt allowed, the result is that of one attempt among them: every attempt
  -- before it failed with an error that is retried, and it is the last one allowed or its own
  -- outcome is not retried.
  pub run_serializable_transaction_lem :
      (max_retries base_delay : ℕ)
      → 1 ≤ max_retries
      → (k : ℕ) × DecidedBy 1 max_retries k (run_serializable_transaction max_retries base_delay).0
  unfolding run_serializable_transaction
  run_serializable_transaction_lem (suc left) base_delay h =
      subst (λ n. (k : ℕ) × DecidedBy 1 n k (loop base_delay 1 (suc left)).0) (omega arith)
        (loop-DecidedBy base_delay 1 left)
  run_serializable_transaction_lem zero base_delay h = absurd (omega (arith, h))
