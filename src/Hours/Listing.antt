-- ===== src/Hours/Listing.antt =====
-- The list of a night's slots, apps/api/src/features/booking/slots.ts (`listSlotsForDate`), and
-- the search of a reservation for the slot it names, apps/api/src/features/booking/reserve.ts
-- (`findGeneratedSlot`). The two tables that the list reads are lists of rows.
pub mod Bookable
pub mod Found
use online_observatory.Common.{
  ℕ, ◌+◌, ◌*◌, Bool, true, false, ◌&&◌, Option, none, some, List, [], ◌∷◌, map, select, flat_map,
  ltb, leb, ◌==◌, if◌then◌else◌,
}
use online_observatory.Refunds.{BookingStatus, confirmed, pending_payment}
use online_observatory.Slots.{
  NightWindow, HeldBooking, SlotAvailabilityInput, Slot, generate_slots, slot_turnaround_minutes,
}
use online_observatory.Hours.{LocalWindow, Calendar, open_intervals}

abbrev pub held_lookback_ms : ℕ
held_lookback_ms = 86400000

pub data WaitlistEntryStatus : Type 0 where
  waiting offered claimed lapsed ended left : WaitlistEntryStatus

pub record BookableObservatory : Type 0 where
  pub id : ℕ
  pub windows : List LocalWindow
  -- `observatory.status === "ONLINE"`
  pub is_online : Bool
  pub weather_hold : Bool

-- The columns that the queries read, here and in the waitlist.
pub record BookedRow : Type 0 where
  pub id : ℕ
  pub user_id : ℕ
  pub observatory_id : ℕ
  pub slot_start_at : ℕ
  pub duration_minutes : ℕ
  pub status : BookingStatus
  pub hold_expires_at : Option ℕ

pub record WaitlistRow : Type 0 where
  pub user_id : ℕ
  pub observatory_id : ℕ
  pub slot_start_at : ℕ
  pub duration_minutes : ℕ
  pub status : WaitlistEntryStatus
  pub offer_expires_at : Option ℕ

-- SQL's `gt`, which no NULL meets.
abbrev pub is_after : ℕ → Option ℕ → Bool
is_after now none = false
is_after now (some t) = ltb now t

-- The `OR` of the query for bookings.
abbrev pub holds_slot : ℕ → BookingStatus → Option ℕ → Bool
holds_slot now confirmed t = true
holds_slot now pending_payment t = is_after now t
holds_slot now _ t = false

abbrev pub is_offer : ℕ → WaitlistEntryStatus → Option ℕ → Bool
is_offer now offered t = is_after now t
is_offer now _ t = false

abbrev pub booked_span : BookedRow → HeldBooking
booked_span r = record { slot_start_at = r.slot_start_at; duration_minutes = r.duration_minutes }

abbrev pub offered_span : WaitlistRow → HeldBooking
offered_span r = record { slot_start_at = r.slot_start_at; duration_minutes = r.duration_minutes }

-- The starts that the queries look at, around the night.
abbrev pub is_near : NightWindow → HeldBooking → Bool
is_near night b =
    ltb night.dusk_at (b.slot_start_at + held_lookback_ms)
    && ltb b.slot_start_at (night.dawn_at + slot_turnaround_minutes * 60000)

module _ (o : BookableObservatory) (now : ℕ) where
  abbrev pub is_booked : BookedRow → Bool
  is_booked r = (r.observatory_id == o.id) && holds_slot now r.status r.hold_expires_at

  abbrev pub is_offered_slot : WaitlistRow → Bool
  is_offered_slot r = (r.observatory_id == o.id) && is_offer now r.status r.offer_expires_at

  abbrev pub held_near : NightWindow → List BookedRow → List HeldBooking
  held_near night rows =
      map booked_span (select (λ r. is_booked r && is_near night (booked_span r)) rows)

  abbrev pub offers_near : NightWindow → List WaitlistRow → List HeldBooking
  offers_near night rows =
      map offered_span (select (λ r. is_offered_slot r && is_near night (offered_span r)) rows)

  -- The argument of `generateSlots` for one open interval.
  abbrev pub interval_input :
      {F : Type 0}
      → ℕ
      → List HeldBooking
      → Option (List HeldBooking)
      → Option (ℕ → ℕ → F)
      → NightWindow
      → SlotAvailabilityInput F
  interval_input duration held offers forecast_for interval = record {
    observatory_id = o.id;
    window = interval;
    now = now;
    online = o.is_online;
    weather_hold_active = o.weather_hold;
    held = held;
    offers = offers;
    forecast_for = forecast_for;
    duration_minutes = some duration;
  }

module _ {D F : Type 0} (c : Calendar D) (night_window : D → Option NightWindow) (unknown : F) where
  -- The items of the list, from the rows, the forecast and the night, if it gets dark.
  unfoldable pub list_slots :
      BookableObservatory
      → ℕ
      → ℕ
      → List BookedRow
      → List WaitlistRow
      → (ℕ → ℕ → F)
      → Option NightWindow
      → List (Slot F)
  list_slots o now duration rows entries forecast_for none = []
  list_slots o now duration rows entries forecast_for (some night) =
      let held = held_near o now night rows in
      let offers = some (offers_near o now night entries) in
      flat_map
        (λ interval.
          generate_slots unknown
            (interval_input o now duration held offers (some forecast_for) interval))
        (open_intervals c night o.windows)

  -- `listSlotsForDate`, of an observatory that is bookable
  unfoldable pub list_slots_for_date :
      BookableObservatory
      → D
      → ℕ
      → ℕ
      → List BookedRow
      → List WaitlistRow
      → (ℕ → ℕ → F)
      → List (Slot F)
  list_slots_for_date o date now duration rows entries forecast_for =
      list_slots o now duration rows entries forecast_for (night_window date)

  -- `Array.find` by the start.
  abbrev pub find_start : ℕ → List (Slot F) → Option (Slot F)
  find_start t [] = none
  find_start t (s ∷ ss) = let rest = find_start t ss in if s.start_at == t then some s else rest

  abbrev pub or_else : {A : Type 0} → Option A → Option A → Option A
  or_else none b = b
  or_else (some a) b = some a

  -- The loop over the open intervals, and then the rest of the search.
  abbrev pub find_in :
      BookableObservatory → ℕ → ℕ → ℕ → List NightWindow → Option (Slot F) → Option (Slot F)
  find_in o now duration t [] rest = rest
  find_in o now duration t (interval ∷ is) rest =
      or_else
        (find_start t
          (generate_slots unknown (interval_input o now duration [] none none interval)))
        (find_in o now duration t is rest)

  abbrev pub find_on :
      BookableObservatory → ℕ → ℕ → ℕ → Option NightWindow → Option (Slot F) → Option (Slot F)
  find_on o now duration t none rest = rest
  find_on o now duration t (some night) rest =
      find_in o now duration t (open_intervals c night o.windows) rest

  -- `findGeneratedSlot`
  unfoldable pub find_generated_slot : BookableObservatory → ℕ → ℕ → ℕ → Option (Slot F)
  find_generated_slot o now duration t =
      let on = c.local_date t in
      find_on o now duration t (night_window (c.previous_date on))
        (find_on o now duration t (night_window on) none)
