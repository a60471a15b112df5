-- ===== src/Entitlements/Tests.antt =====
-- The loss of a slot at concrete audit rows.
use online_observatory.Common.{
  ◌-◌, ◌*◌, ◌≤◌, ◌<◌, ◌≡◌, ◌↔◌, refl, arith, Option, some, List, [], ◌∷◌,
}
use online_observatory.Mission.{failed, mount_fault}
use online_observatory.Entitlements.{
  Interval, weather, observatory_fault, is_weather, lost_within, sum_edges, sum_gaps, loss_of,
  slot_stop, slot_loss, EndedMission, AvailabilityRow, weather_hold_set, weather_hold_cleared,
  evaluate, open_entitlement, round_minutes,
}
use online_observatory.Entitlements.Union.{every}
use online_observatory.Entitlements.Endings.{IsTheirs}
use online_observatory.Entitlements.Reference.{
  unusable_ms, lost_ms, lost_within-counts, lost_within-bounded, evaluate-slot_loss,
}

-- A hold and an outage that overlap
abbrev bad_night : List Interval
bad_night =
    record { from = 0; to = 1200000; cause = weather }
    ∷ record { from = 900000; to = 1500000; cause = observatory_fault }
    ∷ []

-- Ten minutes of the hold fall within the slot, and five more of the outage.
bad_night_loss :
    lost_within bad_night 600000 2400000 ≡ record { minutes_lost = 15; loss_cause = some weather }
unfolding lost_within sum_edges sum_gaps
bad_night_loss = refl

lost_within-counts_example :
    lost_within bad_night 600000 2400000
    ≡ loss_of (
      lost_ms is_weather bad_night 600000 2400000,
      lost_ms every bad_night 600000 2400000 - lost_ms is_weather bad_night 600000 2400000,
    )
lost_within-counts_example = lost_within-counts bad_night 600000 2400000 (omega arith)

lost_within-bounded_example : (lost_within bad_night 600000 (slot_stop 600000 30)).minutes_lost ≤ 30
lost_within-bounded_example = lost_within-bounded bad_night 600000 30

abbrev broken : Option EndedMission
broken =
    some (record { state = failed; failure_reason = some mount_fault; last_event_at = some 900000 })

abbrev held : List AvailabilityRow
held =
    record { action = weather_hold_set; created_at = 100 }
    ∷ record { action = weather_hold_cleared; created_at = 700000 }
    ∷ []

evaluate-slot_loss_example :
    ((evaluate (slot_loss broken held 600000 30) 30 5000000).outcome ≡ open_entitlement) ↔ (
      (¬ IsTheirs broken)
      × (0 < unusable_ms broken held 600000 (slot_stop 600000 30))
      × (30 ≤ round_minutes (unusable_ms broken held 600000 (slot_stop 600000 30)) * 2))
evaluate-slot_loss_example =
    evaluate-slot_loss broken held 600000 30 5000000 (omega arith, (omega arith, tt))
