-- ===== src/Entitlements/Reference.antt =====
-- The loss of a slot, and what it entitles to, by counting the milliseconds that are lost.
use online_observatory.Common.{
  ℕ, ◌+◌, ◌-◌, ◌*◌, ◌≤◌, ◌<◌, ◌≡◌, ◌↔◌, inl, inr, refl, ◌∙◌, Bool, true, false, List, [], ◌∷◌, ◌++◌,
  Option, none, ◌==◌, arith, Bool-cases, any-++, ◌&&◌, ◌||◌,
}
use online_observatory.Entitlements.{
  Interval, is_weather, clip, edges_of, sum_edges, lost_within, round_minutes, loss_of, slot_stop,
  slot_loss, EndedMission, AvailabilityRow, customer_ended, unavailable, our_ending, SlotLoss,
  evaluate, is_entitled, open_entitlement,
}
use online_observatory.Entitlements.Timeline.{is_down, IsInOrder, unavailable-is_down}
use online_observatory.Entitlements.Endings.{
  IsTheirs, is_over, customer_ended-IsTheirs, our_ending-is_over,
}
use online_observatory.Entitlements.Measure.{count, count-bounded, count-ext, count-implied}
use online_observatory.Entitlements.Union.{is_lost, every, holds_at}
use online_observatory.Entitlements.Edges.{edges_of-IsSortedFrom, edges-ends}
use online_observatory.Entitlements.Losses.{
  sums, gaps_of, gaps_of-count, clip-lost, clip-IsWithin, edges_of-IsBounded,
}

-- The milliseconds of the slot at which an interval of the kind holds
abbrev pub lost_ms : (Interval → Bool) → List Interval → (start stop : ℕ) → ℕ
lost_ms q is start stop = count (is_lost q is) start (stop - start)

gaps-lost_ms :
    (q : Interval → Bool) (is : List Interval) (start stop : ℕ)
    → ((i : Interval) (f u : ℕ) → q (record i { from = f; to = u }) ≡ q i)
    → start ≤ stop
    → gaps_of q (clip start stop is) (edges_of (clip start stop is)) ≡ lost_ms q is start stop
gaps-lost_ms q is start stop k le =
    let c = clip start stop is in
    gaps_of-count q c start stop (edges_of c) le (edges_of-IsSortedFrom c) (edges-ends c)
      (edges_of-IsBounded start stop c (clip-IsWithin start stop is))
    ∙ count-ext (is_lost q c) (is_lost q is) start (stop - start)
        (λ t low high. clip-lost q start stop is t k low (omega arith))

edge_sums :
    (c : List Interval) (es : List ℕ)
    → ((sum_edges c es).0 ≡ gaps_of is_weather c es)
      × ((sum_edges c es).0 + (sum_edges c es).1 ≡ gaps_of every c es)
unfolding sum_edges
edge_sums c [] = (refl, omega arith)
edge_sums c (e ∷ es) = sums c e es

-- What is lost of a slot is the milliseconds of it at which any interval holds, each counted once
-- however many do, and those at which a weather interval holds count as weather.
pub lost_within-counts :
    (is : List Interval) (start stop : ℕ)
    → start ≤ stop
    → lost_within is start stop
      ≡ loss_of (
        lost_ms is_weather is start stop,
        lost_ms every is start stop - lost_ms is_weather is start stop,
      )
unfolding lost_within
lost_within-counts is start stop le =
    let c = clip start stop is in
    let (wet, all) = edge_sums c (edges_of c) in
    let wet_is = wet ∙ gaps-lost_ms is_weather is start stop (λ i f u. refl) le in
    let all_is = all ∙ gaps-lost_ms every is start stop (λ i f u. refl) le in
    let fault_is : (sum_edges c (edges_of c)).1
        ≡ lost_ms every is start stop - lost_ms is_weather is start stop =
      omega (arith, wet_is, all_is) in
    rw (lost_within, wet_is, fault_is) refl

round_bounded : (ms d : ℕ) → ms ≤ d * 60000 → round_minutes ms ≤ d
round_bounded ms d h = omega arith

loss_bounded : (wet fault d : ℕ) → wet + fault ≤ d * 60000 → (loss_of (wet, fault)).minutes_lost ≤ d
loss_bounded wet fault d h = elim (Bool-cases (wet + fault == 0)) [
  | inl none_lost ↦ rw none_lost (omega arith)
  | inr some_lost ↦ rw some_lost (round_bounded (wet + fault) d h)
]

-- No more minutes are lost than the slot has.
pub lost_within-bounded :
    (is : List Interval) (start duration : ℕ)
    → (lost_within is start (slot_stop start duration)).minutes_lost ≤ duration
lost_within-bounded is start duration =
    let stop = slot_stop start duration in
    let wet_few = count-bounded (is_lost is_weather is) start (stop - start) in
    let few = count-bounded (is_lost every is) start (stop - start) in
    rw (lost_within-counts is start stop (omega arith)) (
      loss_bounded (lost_ms is_weather is start stop)
        (lost_ms every is start stop - lost_ms is_weather is start stop) duration (omega arith))

weather_lost :
    (is : List Interval) (t : ℕ) → is_lost is_weather is t ≡ true → is_lost every is t ≡ true
weather_lost [] t h = h
weather_lost (i ∷ is) t h = ground (arith, weather_lost is t)

weather-every :
    (is : List Interval) (start stop : ℕ)
    → lost_ms is_weather is start stop ≤ lost_ms every is start stop
weather-every is start stop =
    count-implied (is_lost is_weather is) (is_lost every is) start (stop - start) (weather_lost is)

loss_entitles :
    (wet all d : ℕ)
    → wet ≤ all
    → (is_entitled (loss_of (wet, all - wet)) d ≡ true) ↔ ((0 < all) × (d ≤ round_minutes all * 2))
loss_entitles wet all d h =
    let sum : wet + (all - wet) ≡ all = omega arith in
    elim (Bool-cases (all == 0)) [
      | inl nothing ↦ rw (sum, nothing) (λ e. absurd (cc), λ e. absurd (ground arith))
      | inr lost ↦ rw (sum, lost) (λ e. (ground arith, ground arith), λ e. ground (arith, e.0, e.1))
    ]

evaluate-open :
    (loss : SlotLoss) (d now : ℕ)
    → ((evaluate loss d now).outcome ≡ open_entitlement) ↔ (is_entitled loss d ≡ true)
unfolding evaluate
evaluate-open loss d now = elim (Bool-cases (is_entitled loss d)) [
  | inl e ↦ rw e (λ h. refl, λ h. refl)
  | inr e ↦ rw e (λ h. absurd (cc), λ h. absurd (cc))
]

-- The milliseconds of the slot at which a weather hold or an outage was in force, or the mission had
-- ended on our side
abbrev pub unusable_ms : Option EndedMission → List AvailabilityRow → (start stop : ℕ) → ℕ
unusable_ms mission rows start stop =
    count (λ t. is_down t false false rows || is_over t mission) start (stop - start)

lost-unusable_ms :
    (mission : Option EndedMission) (rows : List AvailabilityRow) (start stop : ℕ)
    → IsInOrder 0 rows
    → start ≤ stop
    → lost_ms every (unavailable none none stop rows ++ our_ending mission stop) start stop
      ≡ unusable_ms mission rows start stop
lost-unusable_ms mission rows start stop order le =
    count-ext (is_lost every (unavailable none none stop rows ++ our_ending mission stop))
      (λ t. is_down t false false rows || is_over t mission) start (stop - start)
      (λ t low high.
        any-++ (λ i. holds_at t i && every i) (unavailable none none stop rows)
          (our_ending mission stop)
        ∙ rw
            (
              unavailable-is_down stop t rows (omega arith) order,
              our_ending-is_over mission stop t (omega arith),
            )
            refl)

entitled_by_loss :
    (mission : Option EndedMission) (rows : List AvailabilityRow) (start d now : ℕ)
    → (let stop = slot_stop start d in
        let lost =
          lost_ms every (unavailable none none stop rows ++ our_ending mission stop) start stop in
        (((evaluate (slot_loss mission rows start d) d now).outcome ≡ open_entitlement)
          ↔ ((customer_ended mission ≡ false) × (0 < lost) × (d ≤ round_minutes lost * 2))))
unfolding evaluate slot_loss
entitled_by_loss mission rows start d now =
    let stop = slot_stop start d in
    let is = unavailable none none stop rows ++ our_ending mission stop in
    let counts = lost_within-counts is start stop (omega arith) in
    let (to, back) =
      loss_entitles (lost_ms is_weather is start stop) (lost_ms every is start stop) d
        (weather-every is start stop) in
    elim (Bool-cases (customer_ended mission)) [
      | inl theirs ↦ rw theirs (λ h. absurd (cc), λ h. absurd (cc))
      | inr ours ↦
          let loss = loss_of (
            lost_ms is_weather is start stop,
            lost_ms every is start stop - lost_ms is_weather is start stop,
          ) in
          let loss_is : slot_loss mission rows start d ≡ loss = rw (slot_loss, ours) counts in
          let (opened, opens) = evaluate-open loss d now in
          rw loss_is (
            λ h. let (some_lost, half) = to (opened h) in (ours, some_lost, half),
            λ h. opens (back (h.1, h.2)),
          )
    ]

-- Over the observatory's audit rows in order: an entitlement is open exactly when the mission was not
-- ended by the customer's cancellation or for want of payment, and at least half of the slot, in
-- whole minutes and some of it, are milliseconds at which a weather hold or an outage was in force by
-- the rows up to then, or the mission had ended early after it was started, each counted once.
pub evaluate-slot_loss :
    (mission : Option EndedMission) (rows : List AvailabilityRow) (start d now : ℕ)
    → IsInOrder 0 rows
    → (let lost = unusable_ms mission rows start (slot_stop start d) in
        (((evaluate (slot_loss mission rows start d) d now).outcome ≡ open_entitlement)
          ↔ ((¬ IsTheirs mission) × (0 < lost) × (d ≤ round_minutes lost * 2))))
evaluate-slot_loss mission rows start d now order =
    let stop = slot_stop start d in
    let same = lost-unusable_ms mission rows start stop order (omega arith) in
    let (to, back) = entitled_by_loss mission rows start d now in
    let (theirs, not_ours) = customer_ended-IsTheirs mission in
    (
      λ h.
          let (ours, some_lost, half) = to h in
          (λ e. let e' = not_ours e in absurd (cc), rw⁻¹ same some_lost, rw⁻¹ same half),
      λ (ours, some_lost, half). back (
        elim (Bool-cases (customer_ended mission)) [ inl e ↦ absurd (ours (theirs e)) | inr e ↦ e ],
        rw same some_lost,
        rw same half,
      ),
    )
