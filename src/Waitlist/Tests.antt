-- ===== src/Waitlist/Tests.antt =====
-- A slot at 70 minutes past the epoch, one booking that holds it and one that has lapsed.
use online_observatory.Common.{
  ◌≡◌, refl, true, false, ◌&&◌, none, some, List, [], ◌∷◌, any, arith, map, select,
}
use online_observatory.Refunds.{confirmed, pending_payment}
use online_observatory.Slots.{overlaps, span}
use online_observatory.Hours.Listing.{
  BookableObservatory, BookedRow, WaitlistRow, offered, is_booked, booked_span, offered_span,
}
use online_observatory.Hours.Listing.Bookable.{clashes}
use online_observatory.Waitlist.{
  WantedSlot, bookings_holding, offers_around, is_open_offer, wanted_span, span_of,
}
use online_observatory.Waitlist.Around.{anything, bookings_holding-clashes, offers_around-overlaps}

abbrev observatory : BookableObservatory
observatory = record { id = 5; windows = []; is_online = true; weather_hold = false }

abbrev slot : WantedSlot
slot = record { observatory_id = 5; slot_start_at = 4200000; duration_minutes = 30 }

abbrev rows : List BookedRow
rows =
    record {
      id = 1;
      user_id = 7;
      observatory_id = 5;
      slot_start_at = 1800000;
      duration_minutes = 45;
      status = confirmed;
      hold_expires_at = none;
    }
    ∷ record {
      id = 2;
      user_id = 8;
      observatory_id = 5;
      slot_start_at = 4200000;
      duration_minutes = 30;
      status = pending_payment;
      hold_expires_at = some 90;
    }
    ∷ []

abbrev entries : List WaitlistRow
entries =
    record {
      user_id = 7;
      observatory_id = 5;
      slot_start_at = 4200000;
      duration_minutes = 30;
      status = offered;
      offer_expires_at = some 5000;
    }
    ∷ []

-- The first booking holds the telescope up to minute 85, with its turnaround.
one_holder : bookings_holding slot 100 rows ≡ record { id = 1; user_id = 7 } ∷ []
unfolding bookings_holding overlaps span
one_holder = refl

own_offer : offers_around slot 100 (some 7) entries ≡ []
unfolding offers_around overlaps span
own_offer = refl

bookings_holding-clashes_example :
    any anything (bookings_holding slot 100 rows)
    ≡ any (λ r. is_booked observatory 100 r && clashes 4200000 30 (booked_span r)) rows
bookings_holding-clashes_example =
    bookings_holding-clashes observatory 100 4200000 30 rows (omega arith, (omega arith, tt))

offers_around-overlaps_example :
    offers_around slot 100 (some 8) entries
    ≡ map offered_span (
        select
          (λ r.
            is_open_offer slot 100 (some 8) r
            && overlaps (wanted_span slot) (span_of (offered_span r)))
          entries)
offers_around-overlaps_example = offers_around-overlaps slot 100 (some 8) entries (omega arith, tt)
