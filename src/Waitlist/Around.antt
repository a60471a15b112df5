-- ===== src/Waitlist/Around.antt =====
-- The waitlist's queries miss nothing, and see the clashes that the list of a night sees.
use online_observatory.Common.{
  ℕ, ◌≤◌, ◌≡◌, ◌∙◌, refl, ap, inl, inr, Bool, true, ◌&&◌, Option, List, [], ◌∷◌, map, select,
  select-select, select-ext, any, All, arith, Bool-cases, any-map, any-select, any-ext,
}
use online_observatory.Slots.{HeldBooking, span, overlaps, session_max_minutes}
use online_observatory.Hours.Listing.{
  BookableObservatory, BookedRow, WaitlistRow, is_booked, booked_span, offered_span,
}
use online_observatory.Hours.Listing.Bookable.{clashes, AreShort}
use online_observatory.Waitlist.{
  WantedSlot, holder_of, holds_telescope, is_in_sight, wanted_span, span_of, bookings_holding,
  is_open_offer, offers_around,
}

overlaps-clashes :
    (slot : WantedSlot) (b : HeldBooking)
    → overlaps (wanted_span slot) (span_of b) ≡ clashes slot.slot_start_at slot.duration_minutes b
unfolding overlaps span
overlaps-clashes slot b = ground arith

module _ {R : Type 0} (row_span : R → HeldBooking) (q : R → Bool) (slot : WantedSlot) where
  -- A row that the query does not look at does not overlap the slot.
  seen :
      (r : R)
      → (row_span r).duration_minutes ≤ session_max_minutes
      → ((q r && is_in_sight slot (row_span r))
          && overlaps (wanted_span slot) (span_of (row_span r)))
        ≡ (q r && overlaps (wanted_span slot) (span_of (row_span r)))
  unfolding overlaps span
  seen r short = elim (Bool-cases (overlaps (wanted_span slot) (span_of (row_span r)))) [
    | inr clear ↦ rw clear (ground arith)
    | inl meets ↦
        let near : is_in_sight slot (row_span r) ≡ true = ground arith in
        rw (meets, near) (ground arith)
  ]

  each_seen :
      (rows : List R)
      → AreShort row_span rows
      → All
          (λ r.
            ((q r && is_in_sight slot (row_span r))
              && overlaps (wanted_span slot) (span_of (row_span r)))
            ≡ (q r && overlaps (wanted_span slot) (span_of (row_span r))))
          rows
  each_seen [] short = tt
  each_seen (r ∷ rows) short = (seen r short.0, each_seen rows short.1)

  -- What the query and the filter leave of a table without overlong rows.
  overlapping :
      (rows : List R)
      → AreShort row_span rows
      → select
          (λ r. overlaps (wanted_span slot) (span_of (row_span r)))
          (select (λ r. q r && is_in_sight slot (row_span r)) rows)
        ≡ select (λ r. q r && overlaps (wanted_span slot) (span_of (row_span r))) rows
  overlapping rows short =
      select-select (λ r. overlaps (wanted_span slot) (span_of (row_span r)))
        (λ r. q r && is_in_sight slot (row_span r)) rows
      ∙ select-ext
          (λ r.
            (q r && is_in_sight slot (row_span r))
            && overlaps (wanted_span slot) (span_of (row_span r)))
          (λ r. q r && overlaps (wanted_span slot) (span_of (row_span r))) rows
          (each_seen rows short)

abbrev pub anything : {A : Type 0} → A → Bool
anything a = true

any-map-select :
    {R B : Type 0} (f : R → B) (p q : R → Bool) (rows : List R)
    → ((r : R) → p r ≡ q r)
    → any anything (map f (select p rows)) ≡ any q rows
any-map-select f p q rows same =
    any-map f anything (select p rows)
    ∙ any-select (λ r. true) p rows
    ∙ any-ext (λ r. p r && true) q rows (λ r. rw (same r) (ground arith))

-- If no booking is longer than the longest session, the waitlist finds a holder of a slot exactly
-- when, by the rule of the list of a night, some booking of the whole table that holds a slot of
-- the observatory clashes with it.
pub bookings_holding-clashes :
    (o : BookableObservatory) (now t duration : ℕ) (rows : List BookedRow)
    → AreShort booked_span rows
    → any anything (
        bookings_holding
          (record { observatory_id = o.id; slot_start_at = t; duration_minutes = duration })
          now
          rows)
      ≡ any (λ r. is_booked o now r && clashes t duration (booked_span r)) rows
unfolding bookings_holding
bookings_holding-clashes o now t duration rows short =
    let slot : WantedSlot = record {
      observatory_id = o.id;
      slot_start_at = t;
      duration_minutes = duration;
    } in
    let kept = overlapping booked_span (holds_telescope slot now) slot rows short in
    ap (λ rs. any anything (map holder_of rs)) kept
    ∙ any-map-select holder_of
        (λ r. holds_telescope slot now r && overlaps (wanted_span slot) (span_of (booked_span r)))
        (λ r. is_booked o now r && clashes t duration (booked_span r)) rows
        (λ r. rw (overlaps-clashes slot (booked_span r)) refl)

-- If no place is for longer than the longest session, the offers around a slot are the open offers
-- of the whole waitlist that overlap it and are for somebody else than the one excepted.
pub offers_around-overlaps :
    (slot : WantedSlot) (now : ℕ) (except : Option ℕ) (rows : List WaitlistRow)
    → AreShort offered_span rows
    → offers_around slot now except rows
      ≡ map offered_span (
          select
            (λ r.
              is_open_offer slot now except r
              && overlaps (wanted_span slot) (span_of (offered_span r)))
            rows)
unfolding offers_around
offers_around-overlaps slot now except rows short =
    ap (map offered_span) (overlapping offered_span (is_open_offer slot now except) slot rows short)
