-- ===== src/Cash/Handovers/Soundness.antt =====
-- Every operation of the service, in any order, keeps the table of handovers sound.
use coffee_shop_be.Prelude.{ℕ, ◌≡◌, ◌≢◌, Option, some, arith, inl, inr, Option-cases, List, [], ◌∷◌}
use coffee_shop_be.Prelude.Int.{ℤ}
use coffee_shop_be.Prelude.Http.{Result, ok, err, Result-cases}
use coffee_shop_be.Prelude.Table.{All, All-find, All-update, update}
use coffee_shop_be.Cash.Types.{
  CashHandover, Fund, pending, rejected, approved, cancelled, awaiting, Db,
}
use coffee_shop_be.Cash.Access.{find_fund}
use coffee_shop_be.Cash.Handovers
use coffee_shop_be.Cash.Handovers.{find_handover, settle_row, resolve_row}
use coffee_shop_be.Cash.Handovers.Duties.{
  IsSound, reject_lem, cancel_lem, settle_lem, register_deposit_lem, approve_lem, approval_row,
}

-- One row.
module _ (h : CashHandover) (sound : IsSound h) (now employee : ℕ) where
  reject_row-IsSound :
      (reason : ℕ)
      → h.status ≡ pending
      → h.requested_by ≢ employee
      → IsSound (resolve_row rejected now employee reason h)
  reject_row-IsSound reason p ne = ground arith

  cancel_row-IsSound :
      (reason : ℕ)
      → h.status ≡ pending
      → h.requested_by ≡ employee
      → IsSound (resolve_row cancelled now employee reason h)
  cancel_row-IsSound reason p ne = ground arith

  settle_row-IsSound :
      (reference evidence tx : ℕ)
      → h.status ≡ approved
      → h.settlement ≡ awaiting
      → h.requested_by ≢ employee
      → IsSound (settle_row now employee reference evidence tx h)
  settle_row-IsSound reference evidence tx p q ne = ground arith

  register_row-IsSound :
      (reference evidence : ℕ)
      → h.settlement ≡ awaiting
      → IsSound (record h { bank_reference = some reference; evidence_reference = some evidence })
  register_row-IsSound reference evidence p = ground arith

  approval_row-IsSound :
      (db : Db) (remark : Option ℕ) (d : Fund)
      → h.status ≡ pending
      → h.requested_by ≢ employee
      → IsSound (approval_row db now employee h remark d h)
  approval_row-IsSound db remark d p ne = ground arith

-- The table, with a row that was found written anew.
module _ (db db' : Db) (id : ℕ) (sound : All IsSound db.handovers) where
  rewrite-IsSound :
      (f : CashHandover → CashHandover) {h : CashHandover}
      → find_handover db id ≡ some h
      → db'.handovers ≡ update (λ h. h.id) id f db.handovers
      → (IsSound h → IsSound (f h))
      → All IsSound db'.handovers
  unfolding find_handover
  rewrite-IsSound f {h} found written keeps = rw written (
      All-update IsSound (λ h. h.id) id f {s = h} db.handovers sound found
        (keeps (All-find IsSound (λ h. h.id) id {r = h} db.handovers sound found)))

module _ (db : Db) (now id employee : ℕ) {db' : Db} (sound : All IsSound db.handovers) where
  pub reject-IsSound :
      (reason : ℕ) → Handovers.reject db now id employee reason ≡ ok db' → All IsSound db'.handovers
  unfolding Handovers.reject
  reject-IsSound reason e = elim (Option-cases (find_handover db id)) [
    | inl missing ↦ absurd (ground arith)
    | inr (h, found) ↦
        let (p, ne, written) = reject_lem db now id employee found reason e in
        rewrite-IsSound db db' id sound _ {h = h} found written
          (λ s. reject_row-IsSound h s now employee reason p ne)
  ]

  pub cancel-IsSound :
      (reason : ℕ) → Handovers.cancel db now id employee reason ≡ ok db' → All IsSound db'.handovers
  unfolding Handovers.cancel
  cancel-IsSound reason e = elim (Option-cases (find_handover db id)) [
    | inl missing ↦ absurd (ground arith)
    | inr (h, found) ↦
        let (p, own, written) = cancel_lem db now id employee found reason e in
        rewrite-IsSound db db' id sound _ {h = h} found written
          (λ s. cancel_row-IsSound h s now employee reason p own)
  ]

  pub approve-IsSound :
      (remark : Option ℕ)
      → Handovers.approve db now id employee remark ≡ ok db'
      → All IsSound db'.handovers
  unfolding Handovers.approve
  approve-IsSound remark e = elim (Option-cases (find_handover db id)) [
    | inl missing ↦ absurd (ground arith)
    | inr (h, found) ↦ elim (Option-cases (find_fund db h.destination_fund_id)) [
      | inl missing ↦ absurd (ground arith)
      | inr (d, destination) ↦
          let (p, ne, written) =
            approve_lem db now id employee found remark {d = d} destination e in
          rewrite-IsSound db db' id sound _ {h = h} found written
            (λ s. approval_row-IsSound h s now employee db remark d p ne)
    ]
  ]

  pub create-IsSound :
      (shift destination : ℕ) (retained : ℤ)
      → Handovers.create db employee shift destination retained ≡ ok db'
      → All IsSound db'.handovers
  unfolding Handovers.create
  create-IsSound shift destination retained e = ground arith

  module _ (to_upper_case : ℕ → ℕ) (reference evidence : ℕ) where
    pub settle-IsSound :
        Handovers.settle to_upper_case db now id employee reference evidence ≡ ok db'
        → All IsSound db'.handovers
    unfolding Handovers.settle
    settle-IsSound e = elim (Option-cases (find_handover db id)) [
      | inl missing ↦ absurd (ground arith)
      | inr (h, found) ↦
          let (p, q, ne, written) =
            settle_lem db now id employee found to_upper_case reference evidence e in
          rewrite-IsSound db db' id sound _ {h = h} found written (λ s.
            settle_row-IsSound h s now employee (to_upper_case reference) evidence db.next_id p q
              ne)
    ]

    pub register_deposit-IsSound :
        Handovers.register_deposit to_upper_case db id employee reference evidence ≡ ok db'
        → All IsSound db'.handovers
    unfolding Handovers.register_deposit
    register_deposit-IsSound e = elim (Option-cases (find_handover db id)) [
      | inl missing ↦ absurd (ground arith)
      | inr (h, found) ↦
          let (p, q, own, written) =
            register_deposit_lem db now id employee found to_upper_case reference evidence e in
          elim written [
            | inl same ↦ rw same sound
            | inr w ↦
                rewrite-IsSound db db' id sound _ {h = h} found w
                  (λ s. register_row-IsSound h s now employee (to_upper_case reference) evidence q)
          ]
    ]

-- The commands of the service.
pub data Command : Type 0 where
  create : ℕ → ℕ → ℕ → ℤ → Command
  approve : ℕ → ℕ → Option ℕ → Command
  settle register_deposit : ℕ → ℕ → ℕ → ℕ → Command
  reject cancel : ℕ → ℕ → ℕ → Command

abbrev pub after : Db → Result Db → Db
after db (ok db') = db'
after db (err e) = db

module _ (to_upper_case : ℕ → ℕ) where
  unfoldable pub perform : ℕ → Command → Db → Result Db
  perform now (create employee shift destination retained) db =
      Handovers.create db employee shift destination retained
  perform now (approve id employee remark) db = Handovers.approve db now id employee remark
  perform now (settle id employee reference evidence) db =
      Handovers.settle to_upper_case db now id employee reference evidence
  perform now (register_deposit id employee reference evidence) db =
      Handovers.register_deposit to_upper_case db id employee reference evidence
  perform now (reject id employee reason) db = Handovers.reject db now id employee reason
  perform now (cancel id employee reason) db = Handovers.cancel db now id employee reason

  perform-IsSound :
      (now : ℕ) (c : Command) (db : Db) {db' : Db}
      → All IsSound db.handovers
      → perform now c db ≡ ok db'
      → All IsSound db'.handovers
  unfolding perform
  perform-IsSound now (create employee shift destination retained) db s e =
      create-IsSound db now 0 employee s shift destination retained e
  perform-IsSound now (approve id employee remark) db s e =
      approve-IsSound db now id employee s remark e
  perform-IsSound now (settle id employee reference evidence) db s e =
      settle-IsSound db now id employee s to_upper_case reference evidence e
  perform-IsSound now (register_deposit id employee reference evidence) db s e =
      register_deposit-IsSound db now id employee s to_upper_case reference evidence e
  perform-IsSound now (reject id employee reason) db s e =
      reject-IsSound db now id employee s reason e
  perform-IsSound now (cancel id employee reason) db s e =
      cancel-IsSound db now id employee s reason e

  -- One transaction after the other; one that throws leaves the state as it was.
  unfoldable pub run : List (ℕ × Command) → Db → Db
  unfolding perform
  run [] db = db
  run ((now, c) ∷ rest) db = run rest (after db (perform now c db))

  -- Whatever commands are run, in any order and by any employees, a sound table of handovers stays
  -- sound: the variance and the transfer of a row are those of its amounts, and every resolution
  -- and settlement is by an employee whom the separation of duties allows.
  pub run-IsSound :
      (commands : List (ℕ × Command)) (db : Db)
      → All IsSound db.handovers
      → All IsSound (run commands db).handovers
  unfolding run
  run-IsSound [] db s = s
  run-IsSound ((now, c) ∷ rest) db s =
      run-IsSound rest (after db (perform now c db)) (elim (Result-cases (perform now c db)) [
        | inl (x, refused) ↦ rw (refused, after) s
        | inr (db', done) ↦ rw (done, after) (perform-IsSound now c db {db' = db'} s done)
      ])
