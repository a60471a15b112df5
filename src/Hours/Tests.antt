-- ===== src/Hours/Tests.antt =====
-- A Sunday night at a telescope four hours ahead of UTC, offered from six in the evening to two.
use online_observatory.Common.{
  ℕ, suc, ◌+◌, ◌-◌, ◌*◌, ◌/◌, ◌%◌, ◌<◌, ◌≡◌, refl, Bool, true, false, not, ◌&&◌, ◌||◌, Option, none,
  some, List, [], ◌∷◌, any, ltb, if◌then◌else◌, ◌==◌, arith, ℤ, pos, negsuc,
}
use online_observatory.Refunds.{confirmed, pending_payment}
use online_observatory.Slots.{NightWindow, is_none}
use online_observatory.Hours.{
  LocalWindow, Calendar, is_usable, dates_of, open_intervals, merge, overlap, instants_for,
  local_wall_clock_to_utc,
}
use online_observatory.Hours.Merge.{covers, is_open, AreApart}
use online_observatory.Hours.Open.{is_offered_on, open_intervals-is_open, open_intervals-AreApart}
use online_observatory.Hours.Listing.{
  BookableObservatory, BookedRow, WaitlistRow, offered, list_slots, list_slots_for_date,
  find_generated_slot, is_booked, is_offered_slot, booked_span, offered_span,
}
use online_observatory.Hours.Listing.Found.{is_grid_start, find_generated_slot-listed}
use online_observatory.Hours.Listing.Bookable.{clashes, list_slots-available}

abbrev hour : ℕ
hour = 3600000

-- Days are counted from the epoch, a Thursday.
abbrev calendar : Calendar ℕ
calendar = record {
  utc = λ d h. d * 86400000 + h * 3600000;
  zone_offset_milliseconds = λ t. pos 14400000;
  local_date = λ t. (t + 14400000) / 86400000;
  next_date = λ d. suc d;
  previous_date = λ d. d - 1;
  weekday_of = λ d. (d + 4) % 7;
}

abbrev night : NightWindow
night = record { dusk_at = 256 * hour; dawn_at = 265 * hour }

-- Only the night of the tenth day gets dark.
abbrev if_tenth : Bool → Option NightWindow
if_tenth true = some night
if_tenth false = none

abbrev night_window : ℕ → Option NightWindow
night_window d = if_tenth (d == 10)

abbrev window : ℕ → ℤ → ℤ → LocalWindow
window w s e = record { weekday = w; start_minute = s; end_minute = e }

abbrev windows : List LocalWindow
windows =
    window 1 (pos 0) (pos 120)
    ∷ window 0 (pos 1380) (pos 1440)
    ∷ window 0 (pos 1080) (pos 1380)
    ∷ window 0 (negsuc 59) (pos 600)
    ∷ []

abbrev observatory : BookableObservatory
observatory = record { id = 5; windows = windows; is_online = true; weather_hold = false }

abbrev unknown : ℕ
unknown = 0

abbrev rows : List BookedRow
rows =
    record {
      id = 1;
      user_id = 21;
      observatory_id = 5;
      slot_start_at = 257 * hour;
      duration_minutes = 60;
      status = confirmed;
      hold_expires_at = none;
    }
    ∷ record {
      id = 2;
      user_id = 22;
      observatory_id = 5;
      slot_start_at = 260 * hour;
      duration_minutes = 60;
      status = pending_payment;
      hold_expires_at = some 5;
    }
    ∷ []

abbrev entries : List WaitlistRow
entries =
    record {
      user_id = 23;
      observatory_id = 5;
      slot_start_at = 259 * hour;
      duration_minutes = 15;
      status = offered;
      offer_expires_at = some (300 * hour);
    }
    ∷ []

-- The three windows are one run from dusk to two in the morning.
one_run :
    open_intervals calendar night windows
    ≡ record { dusk_at = 256 * hour; dawn_at = 262 * hour } ∷ []
unfolding open_intervals merge overlap instants_for local_wall_clock_to_utc
one_run = refl

whole_night : open_intervals calendar night [] ≡ night ∷ []
unfolding open_intervals
whole_night = refl

daylight_only : open_intervals calendar night (window 0 (pos 600) (pos 720) ∷ []) ≡ []
unfolding open_intervals merge overlap instants_for local_wall_clock_to_utc
daylight_only = refl

open_intervals-is_open_example : is_open (258 * hour) (open_intervals calendar night windows) ≡ (
    covers (258 * hour) night
    && (not (any is_usable windows)
        || any
            (λ date.
              any (λ w. is_usable w && is_offered_on calendar night (258 * hour) date w) windows)
            (dates_of calendar night)))
open_intervals-is_open_example = open_intervals-is_open calendar night windows (258 * hour)

night_is_long : night.dusk_at < night.dawn_at
night_is_long = omega arith

open_intervals-AreApart_example : AreApart (open_intervals calendar night windows)
open_intervals-AreApart_example = open_intervals-AreApart calendar night windows night_is_long

find_generated_slot-listed_example :
    not (is_none (find_generated_slot calendar night_window unknown observatory 7 60 (261 * hour)))
    ≡ any
        (λ date.
          any
            (λ s. s.start_at == 261 * hour)
            (list_slots_for_date calendar night_window unknown observatory date 8 60 rows entries
              (λ a b. 1)))
        (calendar.previous_date (calendar.local_date (261 * hour))
          ∷ calendar.local_date (261 * hour)
          ∷ [])
find_generated_slot-listed_example =
    find_generated_slot-listed calendar night_window unknown observatory 7 8 60 (261 * hour) rows
      entries (λ a b. 1)

list_slots-available_example :
    any
      (λ s. (s.start_at == 261 * hour) && s.available)
      (list_slots calendar night_window unknown observatory 7 60 rows entries
        (λ a b. 1)
        (some night))
    ≡ (any (is_grid_start (261 * hour) 60) (open_intervals calendar night observatory.windows)
        && ltb 7 (261 * hour)
        && not
            (any (λ r. is_booked observatory 7 r && clashes (261 * hour) 60 (booked_span r)) rows)
        && not (
            any
              (λ r. is_offered_slot observatory 7 r && clashes (261 * hour) 60 (offered_span r))
              entries)
        && not observatory.weather_hold
        && observatory.is_online)
list_slots-available_example =
    list_slots-available calendar night_window unknown observatory 7 60 (261 * hour) rows entries
      (λ a b. 1) night (omega arith) (omega arith, (omega arith, tt)) (omega arith, tt)

-- At one in the morning the telescope can be booked, at nine in the evening it is taken.
one_is_free : any (is_grid_start (261 * hour) 60) (open_intervals calendar night windows) ≡ true
unfolding open_intervals merge overlap instants_for local_wall_clock_to_utc
one_is_free = refl

nine_is_taken :
    any (λ r. is_booked observatory 7 r && clashes (257 * hour) 60 (booked_span r)) rows ≡ true
nine_is_taken = refl

-- The clocks go forward at one in the morning: the hour from three is opened from three hours after
-- midnight, when the clock shows four.
abbrev spring : Calendar ℕ
spring = record calendar {
  zone_offset_milliseconds = λ t. if ltb t (261 * hour) then pos (4 * hour) else pos (5 * hour);
}

spring_forward :
    open_intervals spring night (window 1 (pos 180) (pos 240) ∷ [])
    ≡ record { dusk_at = 263 * hour; dawn_at = 264 * hour } ∷ []
unfolding open_intervals merge overlap instants_for local_wall_clock_to_utc
spring_forward = refl
