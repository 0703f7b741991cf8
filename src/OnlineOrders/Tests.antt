-- ===== src/OnlineOrders/Tests.antt =====
-- A shop that takes orders from 8:00 to 9:00, four slots a day.
use coffee_shop_be.Prelude.{ℕ, some, [], ◌∷◌, ◌≡◌, true, refl, arith, contains, ◌+◌, ◌*◌}
use coffee_shop_be.Prelude.Table.{All}
use coffee_shop_be.Prelude.Http.{ok}
use coffee_shop_be.OnlineOrders.Pickup.{
  PickupSchedule, assert_pickup_at, pickup_slots_for_date, midnight_of, offered_accepted,
  accepted_offered,
}

abbrev morning : PickupSchedule
morning = record {
  capacity = 3;
  open_minute = 480;
  close_minute = 540;
  lead_minutes = 45;
  days_ahead = 7;
}

-- 7:20 of local day 20,001.
abbrev now : ℕ
now = midnight_of 20_000 + 440 * 60_000

first_slot_is_too_soon :
    pickup_slots_for_date 20_000 morning now
    ≡ (midnight_of 20_000 + 495 * 60_000)
      ∷ (midnight_of 20_000 + 510 * 60_000)
      ∷ (midnight_of 20_000 + 525 * 60_000)
      ∷ []
unfolding pickup_slots_for_date
first_slot_is_too_soon = refl

slot_is_accepted : assert_pickup_at (midnight_of 20_000 + 510 * 60_000) (some morning) now ≡ ok tt
unfolding assert_pickup_at
slot_is_accepted = refl

offered_accepted_example :
    All
      (λ t. assert_pickup_at t (some morning) now ≡ ok tt)
      (pickup_slots_for_date 20_000 morning now)
offered_accepted_example = offered_accepted 20_000 morning now refl (omega arith)

accepted_offered_example :
    contains (midnight_of 20_000 + 510 * 60_000) (pickup_slots_for_date 20_000 morning now) ≡ true
accepted_offered_example =
    accepted_offered 20_000 morning now (midnight_of 20_000 + 510 * 60_000) refl (omega arith)
      (omega arith) slot_is_accepted
