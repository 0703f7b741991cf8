-- ===== src/OnlineOrders/Pickup.antt =====
-- pickup-schedule.ts: the times at which an online order can be picked up. Times are milliseconds
-- since the epoch; local time is seven hours ahead of UTC.
use coffee_shop_be.Prelude.{
  ℕ, suc, zero, Bool, true, false, ◌&&◌, ◌||◌, not, Option, none, some, List, [], ◌∷◌, ◌+◌, ◌*◌,
  ◌/◌, ◌%◌, ◌==◌, ◌≤◌, ◌<◌, ltb, leb, if◌then◌else◌, ◌≡◌, refl, arith, ◌≢◌, contains, sym, subst,
  ◌⊎◌, inl, inr, Bool-cases,
}
use coffee_shop_be.Prelude.Table.{All}
use coffee_shop_be.Prelude.Http.{Result, ok, err, throw_if, conflict}

pub record PickupSchedule : Type 0 where
  pub capacity : ℕ
  pub open_minute : ℕ
  pub close_minute : ℕ
  pub lead_minutes : ℕ
  pub days_ahead : ℕ

-- `getUTCHours` and its kin.
abbrev pub utc_hours : ℕ → ℕ
utc_hours t = t / 3_600_000 % 24

abbrev pub utc_minutes : ℕ → ℕ
utc_minutes t = t / 60_000 % 60

abbrev pub utc_seconds : ℕ → ℕ
utc_seconds t = t / 1_000 % 60

abbrev pub utc_milliseconds : ℕ → ℕ
utc_milliseconds t = t % 1_000

abbrev pub local_minute : ℕ → ℕ
local_minute t = (utc_hours t * 60 + utc_minutes t + 420) % 1_440

unfoldable pub assert_pickup_at : ℕ → Option PickupSchedule → ℕ → Result (Unit {0})
assert_pickup_at time none now = err conflict
assert_pickup_at time (some s) now =
    throw_if
      (ltb time (now + s.lead_minutes * 60_000)
        || ltb (now + s.days_ahead * 86_400_000) time
        || ltb (local_minute time) s.open_minute
        || leb s.close_minute (local_minute time)
        || not ((local_minute time % 15) == 0)
        || not (utc_seconds time == 0)
        || not (utc_milliseconds time == 0))
      conflict

abbrev pub in_window : PickupSchedule → ℕ → ℕ → Bool
in_window s now t = leb (now + s.lead_minutes * 60_000) t && leb t (now + s.days_ahead * 86_400_000)

-- The loop from `minute` on; `left` is the number of its rounds.
unfoldable pub slots_from : ℕ → PickupSchedule → ℕ → ℕ → ℕ → List ℕ
slots_from midnight s now minute zero = []
slots_from midnight s now minute (suc left) =
    let rest = slots_from midnight s now (minute + 15) left in
    let pickup_at = midnight + minute * 60_000 in
    if ltb minute s.close_minute
    then (if in_window s now pickup_at then pickup_at ∷ rest else rest)
    else []

-- The local midnight of a day, in milliseconds: 17:00 UTC of the day before.
abbrev pub midnight_of : ℕ → ℕ
midnight_of day = day * 86_400_000 + 61_200_000

-- `close_minute` rounds are enough.
unfoldable pub pickup_slots_for_date : ℕ → PickupSchedule → ℕ → List ℕ
unfolding slots_from
pickup_slots_for_date day s now = slots_from (midnight_of day) s now s.open_minute s.close_minute

local_minute-slot :
    (day minute : ℕ) → minute < 1_440 → local_minute (midnight_of day + minute * 60_000) ≡ minute
local_minute-slot day minute h = omega arith

on_the_minute :
    (day minute : ℕ)
    → ((midnight_of day + minute * 60_000) / 1_000 % 60 ≡ 0)
      × ((midnight_of day + minute * 60_000) % 1_000 ≡ 0)
on_the_minute day minute = (omega arith, omega arith)

accepts :
    (s : PickupSchedule) (now t : ℕ)
    → now + s.lead_minutes * 60_000 ≤ t
    → t ≤ now + s.days_ahead * 86_400_000
    → s.open_minute ≤ local_minute t
    → local_minute t < s.close_minute
    → local_minute t % 15 ≡ 0
    → utc_seconds t ≡ 0
    → utc_milliseconds t ≡ 0
    → assert_pickup_at t (some s) now ≡ ok tt
unfolding assert_pickup_at
accepts s now t a b c d e f g = ground (arith, a, b, c, d, e, f, g)

slot_accepted :
    (day minute : ℕ) (s : PickupSchedule) (now : ℕ)
    → s.close_minute ≤ 1_440
    → s.open_minute ≤ minute
    → minute < s.close_minute
    → minute % 15 ≡ 0
    → now + s.lead_minutes * 60_000 ≤ midnight_of day + minute * 60_000
    → midnight_of day + minute * 60_000 ≤ now + s.days_ahead * 86_400_000
    → assert_pickup_at (midnight_of day + minute * 60_000) (some s) now ≡ ok tt
slot_accepted day minute s now c o m z a b =
    let local = local_minute-slot day minute (omega (arith, c, m)) in
    let (seconds, milliseconds) = on_the_minute day minute in
    accepts s now (midnight_of day + minute * 60_000) a b (omega (arith, local, o))
      (omega (arith, local, m)) (omega (arith, local, z)) seconds milliseconds

All-kept :
    (P : ℕ → Type 0) (open_ kept : Bool) (t : ℕ) (rest : List ℕ)
    → All P rest
    → (open_ ≡ true → kept ≡ true → P t)
    → All P (if open_ then (if kept then t ∷ rest else rest) else [])
All-kept P true true t rest a h = (h refl refl, a)
All-kept P true false t rest a h = a
All-kept P false kept t rest a h = tt

contains-kept :
    (k : ℕ) (open_ kept : Bool) (t : ℕ) (rest : List ℕ)
    → open_ ≡ true
    → ((kept ≡ true) × (k ≡ t)) ⊎ (contains k rest ≡ true)
    → contains k (if open_ then (if kept then t ∷ rest else rest) else []) ≡ true
contains-kept k true true t rest o (inl (e, h)) = ground (arith, h)
contains-kept k true false t rest o (inl (e, h)) = cc
contains-kept k true true t rest o (inr h) = ground (arith, h)
contains-kept k true false t rest o (inr h) = h
contains-kept k false kept t rest o h = cc

slots_from-Accepted :
    (day : ℕ) (s : PickupSchedule) (now minute left : ℕ)
    → s.close_minute ≤ 1_440
    → s.open_minute ≤ minute
    → minute % 15 ≡ 0
    → All
        (λ t. assert_pickup_at t (some s) now ≡ ok tt)
        (slots_from (midnight_of day) s now minute left)
unfolding slots_from
slots_from-Accepted day s now minute zero c o z = tt
slots_from-Accepted day s now minute (suc left) c o z =
    All-kept (λ t. assert_pickup_at t (some s) now ≡ ok tt) (ltb minute s.close_minute) _
      (midnight_of day + minute * 60_000) _
      (slots_from-Accepted day s now (minute + 15) left c (omega (arith, o)) (omega (arith, z)))
      (λ p q.
        slot_accepted day minute s now c o (ground (arith, p)) z (ground (arith, q))
          (ground (arith, q)))

slots_from-contains :
    (midnight : ℕ) (s : PickupSchedule) (now minute left m : ℕ)
    → minute ≤ m
    → m < minute + left * 15
    → minute % 15 ≡ 0
    → m % 15 ≡ 0
    → m < s.close_minute
    → now + s.lead_minutes * 60_000 ≤ midnight + m * 60_000
    → midnight + m * 60_000 ≤ now + s.days_ahead * 86_400_000
    → contains (midnight + m * 60_000) (slots_from midnight s now minute left) ≡ true
unfolding slots_from
slots_from-contains midnight s now minute zero m a b y z c l u = absurd (omega (arith, a, b))
slots_from-contains midnight s now minute (suc left) m a b y z c l u =
    contains-kept (midnight + m * 60_000) (ltb minute s.close_minute)
      (in_window s now (midnight + minute * 60_000)) (midnight + minute * 60_000)
      (slots_from midnight s now (minute + 15) left) (ground (arith, a, c))
      (elim (Bool-cases (minute == m)) [
        | inl same ↦
            let e : minute ≡ m = ground (arith, same) in inl (ground (arith, e, l, u), rw e refl)
        | inr other ↦
            let ne : minute ≢ m = ground (arith, other) in
            let later : minute + 15 ≤ m = omega (arith, a, y, z, ne) in
            inr (
              slots_from-contains midnight s now (minute + 15) left m later (omega (arith, b))
                (omega (arith, y)) z c l u)
      ])

accepted_parts :
    (s : PickupSchedule) (now t : ℕ)
    → assert_pickup_at t (some s) now ≡ ok tt
    → (now + s.lead_minutes * 60_000 ≤ t)
      × (t ≤ now + s.days_ahead * 86_400_000)
      × (s.open_minute ≤ local_minute t)
      × (local_minute t < s.close_minute)
      × (local_minute t % 15 ≡ 0)
      × (utc_seconds t ≡ 0)
      × (utc_milliseconds t ≡ 0)
unfolding assert_pickup_at
accepted_parts s now t e = ground arith

on_slot :
    (day t : ℕ)
    → midnight_of day ≤ t
    → t < midnight_of (suc day)
    → utc_seconds t ≡ 0
    → utc_milliseconds t ≡ 0
    → t ≡ midnight_of day + local_minute t * 60_000
on_slot day t a b c d = omega (arith, a, b, c, d)

-- Every slot that is offered for a day is accepted as a pickup time, where the shop opens on a
-- quarter of an hour and closes before midnight.
pub offered_accepted :
    (day : ℕ) (s : PickupSchedule) (now : ℕ)
    → s.open_minute % 15 ≡ 0
    → s.close_minute ≤ 1_440
    → All (λ t. assert_pickup_at t (some s) now ≡ ok tt) (pickup_slots_for_date day s now)
unfolding pickup_slots_for_date
offered_accepted day s now z c =
    slots_from-Accepted day s now s.open_minute s.close_minute c (omega arith) z

-- Every time of a day that is accepted is among the slots offered for the day, where the shop opens
-- on a quarter of an hour.
pub accepted_offered :
    (day : ℕ) (s : PickupSchedule) (now t : ℕ)
    → s.open_minute % 15 ≡ 0
    → midnight_of day ≤ t
    → t < midnight_of (suc day)
    → assert_pickup_at t (some s) now ≡ ok tt
    → contains t (pickup_slots_for_date day s now) ≡ true
unfolding pickup_slots_for_date
accepted_offered day s now t y a b e =
    let (l, u, o, c, z, sec, ms) = accepted_parts s now t e in
    let at = on_slot day t a b sec ms in
    subst (λ x. contains x (slots_from (midnight_of day) s now s.open_minute s.close_minute) ≡ true)
      (sym at)
      (slots_from-contains (midnight_of day) s now s.open_minute s.close_minute (local_minute t) o
        (omega (arith, c)) y z c (subst (λ x. now + s.lead_minutes * 60_000 ≤ x) at l)
        (subst (λ x. x ≤ now + s.days_ahead * 86_400_000) at u))
