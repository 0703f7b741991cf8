-- ===== src/Cash/Handovers/Lifecycle.antt =====
-- What later commands can do to a handover: its amounts are fixed when it is requested, a
-- resolution is final, and a settlement only follows an approval that awaits the bank.
use coffee_shop_be.Prelude.{
  ℕ, ◌≡◌, ◌<◌, ◌≤◌, refl, Bool, true, false, Option, some, arith, inl, inr, Option-cases, List, [],
  ◌∷◌, subst, Bool-cases, ◌==◌,
}
use coffee_shop_be.Prelude.Int.{ℤ}
use coffee_shop_be.Prelude.Http.{ok, Result-cases}
use coffee_shop_be.Prelude.Table.{find, update, find-update}
use coffee_shop_be.Cash.Types.{
  CashHandover, RequestStatus, pending, rejected, approved, cancelled, SettlementStatus,
  not_required, awaiting, settled, Db,
}
use coffee_shop_be.Cash.Access.{find_fund}
use coffee_shop_be.Cash.Handovers
use coffee_shop_be.Cash.Handovers.{find_handover, settle_row, resolve_row}
use coffee_shop_be.Cash.Handovers.Duties.{
  reject_lem, cancel_lem, settle_lem, register_deposit_lem, approve_lem,
}
use coffee_shop_be.Cash.Handovers.Soundness.{
  Command, create, approve, settle, register_deposit, reject, cancel, perform, run, after,
}

abbrev pub may_become : RequestStatus → RequestStatus → Bool
may_become pending s = true
may_become approved approved = true
may_become rejected rejected = true
may_become cancelled cancelled = true
may_become approved s = false
may_become rejected s = false
may_become cancelled s = false

abbrev pub may_settle : RequestStatus → SettlementStatus → SettlementStatus → Bool
may_settle pending s t = true
may_settle s awaiting awaiting = true
may_settle s awaiting settled = true
may_settle s awaiting not_required = false
may_settle s settled settled = true
may_settle s settled t = false
may_settle s not_required not_required = true
may_settle s not_required t = false

pub record Follows (h h' : CashHandover) : Type 0 where
  pub requester : h'.requested_by ≡ h.requested_by
  pub source : h'.source_fund_id ≡ h.source_fund_id
  pub destination : h'.destination_fund_id ≡ h.destination_fund_id
  pub expected : h'.expected_cash ≡ h.expected_cash
  pub counted : h'.counted_cash ≡ h.counted_cash
  pub retained : h'.retained_cash ≡ h.retained_cash
  pub transfer : h'.transfer_amount ≡ h.transfer_amount
  pub variance : h'.variance_amount ≡ h.variance_amount
  pub shift : h'.shift_id ≡ h.shift_id
  pub status : may_become h.status h'.status ≡ true
  pub settlement : may_settle h.status h.settlement h'.settlement ≡ true

Follows-refl : (h : CashHandover) → Follows h h
Follows-refl h = ground arith

Follows-trans : (a b c : CashHandover) → Follows a b → Follows b c → Follows a c
Follows-trans a b c p q = ground arith

-- A row that was found, written anew, seen from any row.
rewrite-Follows :
    (db db' : Db) (id j : ℕ) (f : CashHandover → CashHandover) {g h : CashHandover}
    → ((r : CashHandover) → (f r).id ≡ r.id)
    → find_handover db id ≡ some g
    → db'.handovers ≡ update (λ h. h.id) id f db.handovers
    → Follows g (f g)
    → find_handover db j ≡ some h
    → (h' : CashHandover) × (find_handover db' j ≡ some h') × Follows h h'
unfolding find_handover
rewrite-Follows db db' id j f {g} {h} keeps found written step held = elim (Bool-cases (j == id)) [
  | inl same ↦
      let same_row : g ≡ h = ground arith in
      (
        f g,
        rw (written, find-update (λ h. h.id) j id f db.handovers keeps) (ground arith),
        subst (λ r. Follows r (f g)) same_row step,
      )
  | inr other ↦ (
    h,
    rw (written, find-update (λ h. h.id) j id f db.handovers keeps) (ground arith),
    Follows-refl h,
  )
]

module _ (db : Db) (now id employee j : ℕ) {db' : Db} {h : CashHandover}
    (held : find_handover db j ≡ some h) where
  reject-Follows :
      (reason : ℕ)
      → Handovers.reject db now id employee reason ≡ ok db'
      → (h' : CashHandover) × (find_handover db' j ≡ some h') × Follows h h'
  unfolding Handovers.reject
  reject-Follows reason e = elim (Option-cases (find_handover db id)) [
    | inl missing ↦ absurd (ground arith)
    | inr (g, found) ↦
        let (p, ne, written) = reject_lem db now id employee found reason e in
        rewrite-Follows db db' id j _ {g = g} {h = h} (λ r. refl) found written (ground arith) held
  ]

  cancel-Follows :
      (reason : ℕ)
      → Handovers.cancel db now id employee reason ≡ ok db'
      → (h' : CashHandover) × (find_handover db' j ≡ some h') × Follows h h'
  unfolding Handovers.cancel
  cancel-Follows reason e = elim (Option-cases (find_handover db id)) [
    | inl missing ↦ absurd (ground arith)
    | inr (g, found) ↦
        let (p, own, written) = cancel_lem db now id employee found reason e in
        rewrite-Follows db db' id j _ {g = g} {h = h} (λ r. refl) found written (ground arith) held
  ]

  approve-Follows :
      (remark : Option ℕ)
      → Handovers.approve db now id employee remark ≡ ok db'
      → (h' : CashHandover) × (find_handover db' j ≡ some h') × Follows h h'
  unfolding Handovers.approve
  approve-Follows remark e = elim (Option-cases (find_handover db id)) [
    | inl missing ↦ absurd (ground arith)
    | inr (g, found) ↦ elim (Option-cases (find_fund db g.destination_fund_id)) [
      | inl missing ↦ absurd (ground arith)
      | inr (d, destination) ↦
          let (p, ne, written) =
            approve_lem db now id employee found remark {d = d} destination e in
          rewrite-Follows db db' id j _ {g = g} {h = h} (λ r. refl) found written (ground arith)
            held
    ]
  ]

  create-Follows :
      (shift destination : ℕ) (retained : ℤ)
      → j < db.next_id
      → Handovers.create db employee shift destination retained ≡ ok db'
      → (h' : CashHandover) × (find_handover db' j ≡ some h') × Follows h h'
  unfolding Handovers.create find_handover find
  create-Follows shift destination retained old e = (h, ground arith, Follows-refl h)

  module _ (to_upper_case : ℕ → ℕ) (reference evidence : ℕ) where
    settle-Follows :
        Handovers.settle to_upper_case db now id employee reference evidence ≡ ok db'
        → (h' : CashHandover) × (find_handover db' j ≡ some h') × Follows h h'
    unfolding Handovers.settle
    settle-Follows e = elim (Option-cases (find_handover db id)) [
      | inl missing ↦ absurd (ground arith)
      | inr (g, found) ↦
          let (p, q, ne, written) =
            settle_lem db now id employee found to_upper_case reference evidence e in
          rewrite-Follows db db' id j _ {g = g} {h = h} (λ r. refl) found written (ground arith)
            held
    ]

    register_deposit-Follows :
        Handovers.register_deposit to_upper_case db id employee reference evidence ≡ ok db'
        → (h' : CashHandover) × (find_handover db' j ≡ some h') × Follows h h'
    unfolding Handovers.register_deposit
    register_deposit-Follows e = elim (Option-cases (find_handover db id)) [
      | inl missing ↦ absurd (ground arith)
      | inr (g, found) ↦
          let (p, q, own, written) =
            register_deposit_lem db now id employee found to_upper_case reference evidence e in
          elim written [
            | inl same ↦ (h, rw same held, Follows-refl h)
            | inr w ↦
                rewrite-Follows db db' id j _ {g = g} {h = h} (λ r. refl) found w (ground arith)
                  held
          ]
    ]

module _ (to_upper_case : ℕ → ℕ) where
  perform-Follows :
      (now : ℕ) (c : Command) (db : Db) (j : ℕ) {h : CashHandover} {db' : Db}
      → j < db.next_id
      → find_handover db j ≡ some h
      → perform to_upper_case now c db ≡ ok db'
      → (h' : CashHandover) × (find_handover db' j ≡ some h') × Follows h h'
  unfolding perform
  perform-Follows now (create employee shift destination retained) db j old held e =
      create-Follows db now 0 employee j held shift destination retained old e
  perform-Follows now (approve id employee remark) db j old held e =
      approve-Follows db now id employee j held remark e
  perform-Follows now (settle id employee reference evidence) db j old held e =
      settle-Follows db now id employee j held to_upper_case reference evidence e
  perform-Follows now (register_deposit id employee reference evidence) db j old held e =
      register_deposit-Follows db now id employee j held to_upper_case reference evidence e
  perform-Follows now (reject id employee reason) db j old held e =
      reject-Follows db now id employee j held reason e
  perform-Follows now (cancel id employee reason) db j old held e =
      cancel-Follows db now id employee j held reason e

  perform-next_id :
      (now : ℕ) (c : Command) (db : Db) {db' : Db}
      → perform to_upper_case now c db ≡ ok db'
      → db.next_id ≤ db'.next_id
  unfolding perform Handovers.create Handovers.approve Handovers.settle Handovers.register_deposit
      Handovers.reject Handovers.cancel Handovers.post_unless
  perform-next_id now (create employee shift destination retained) db e = ground arith
  perform-next_id now _ db e = ground arith

  -- Whatever commands follow, a handover that exists under an id already given out keeps its funds, its amounts and its
  -- requester; once resolved its status never changes; and its settlement moves only from awaiting
  -- to settled.
  pub run-Follows :
      (commands : List (ℕ × Command)) (db : Db) (j : ℕ) {h : CashHandover}
      → j < db.next_id
      → find_handover db j ≡ some h
      → (h' : CashHandover) × (find_handover (run to_upper_case commands db) j ≡ some h')
        × Follows h h'
  unfolding run
  run-Follows [] db j {h} old held = (h, held, Follows-refl h)
  run-Follows ((now, c) ∷ rest) db j {h} old held =
      elim (Result-cases (perform to_upper_case now c db)) [
        | inl (x, refused) ↦ rw (refused, after) (run-Follows rest db j {h = h} old held)
        | inr (db', done) ↦
            let (h', held', first) = perform-Follows now c db j {h = h} {db' = db'} old held done in
            let (h'', held'', later) =
              run-Follows rest db' j {h = h'}
                (omega (arith, perform-next_id now c db {db' = db'} done)) held' in
            rw (done, after) (h'', held'', Follows-trans h h' h'' first later)
      ]
