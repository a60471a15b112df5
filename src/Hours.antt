-- ===== src/Hours.antt =====
-- The hours that an observatory's owner offers: apps/api/src/lib/slots/availability.ts, and the
-- clock of apps/api/src/lib/slots/darkness.ts that it reads. Instants are milliseconds after the
-- epoch; minutes of a window are signed, as its columns are.
pub mod Merge
pub mod Open
pub mod Listing
mod Tests
use online_observatory.Common.{
  ℕ, suc, ◌+◌, ◌-◌, ◌*◌, max, min, Bool, true, false, ◌&&◌, Option, none, some, List, [], ◌∷◌,
  select, ltb, leb, ◌==◌, if◌then◌else◌, ℤ, pos, negsuc, ltb_ℤ, leb_ℤ,
}
use online_observatory.Slots.{NightWindow}

pub record LocalWindow : Type 0 where
  pub weekday : ℕ
  pub start_minute : ℤ
  pub end_minute : ℤ

abbrev pub minutes_per_day : ℕ
minutes_per_day = 1440

-- What `Date` and `Intl` tell of calendar dates and of the observatory's zone.
pub record Calendar (Day : Type 0) : Type 0 where
  pub utc : Day → (hour : ℕ) → ℕ
  pub zone_offset_milliseconds : ℕ → ℤ
  pub local_date : ℕ → Day
  pub next_date : Day → Day
  pub previous_date : Day → Day
  pub weekday_of : Day → ℕ

abbrev pub later : ℕ → ℤ → ℕ
later t (pos n) = t + n
later t (negsuc n) = t - suc n

abbrev pub earlier : ℕ → ℤ → ℕ
earlier t (pos n) = t - n
earlier t (negsuc n) = t + suc n

abbrev pub milliseconds : ℤ → ℤ
milliseconds (pos n) = pos (n * 60000)
milliseconds (negsuc n) = negsuc (n * 60000 + 59999)

-- `localWallClockToUtc`, on a date that it can read.
unfoldable pub local_wall_clock_to_utc : {D : Type 0} → Calendar D → D → ℕ → ℕ
local_wall_clock_to_utc c date hour =
    let guess = c.utc date hour in
    let corrected = earlier guess (c.zone_offset_milliseconds guess) in
    earlier guess (c.zone_offset_milliseconds corrected)

-- `instantsFor`
unfoldable pub instants_for : {D : Type 0} → Calendar D → LocalWindow → D → NightWindow
instants_for c window date =
    let midnight = local_wall_clock_to_utc c date 0 in
    record {
      dusk_at = later midnight (milliseconds window.start_minute);
      dawn_at = later midnight (milliseconds window.end_minute);
    }

unfoldable pub overlap : NightWindow → NightWindow → Option NightWindow
overlap a b =
    let start = max a.dusk_at b.dusk_at in
    let end = min a.dawn_at b.dawn_at in
    if leb end start then none else some (record { dusk_at = start; dawn_at = end })

-- The sort by dusk, which keeps the order of equal ones.
abbrev pub insert_by_dusk : NightWindow → List NightWindow → List NightWindow
insert_by_dusk i [] = i ∷ []
insert_by_dusk i (j ∷ js) =
    let rest = insert_by_dusk i js in if leb i.dusk_at j.dusk_at then i ∷ j ∷ js else j ∷ rest

abbrev pub sort_by_dusk : List NightWindow → List NightWindow
sort_by_dusk [] = []
sort_by_dusk (i ∷ is) = insert_by_dusk i (sort_by_dusk is)

-- The last merged interval after one that touches it.
abbrev pub extend : NightWindow → NightWindow → NightWindow
extend last interval = record last {
  dawn_at = if ltb last.dawn_at interval.dawn_at then interval.dawn_at else last.dawn_at;
}

-- The loop of `merge`, whose last entry is held apart from those that it leaves behind.
abbrev pub merge_into : NightWindow → List NightWindow → List NightWindow
merge_into last [] = last ∷ []
merge_into last (interval ∷ is) =
    let joined = merge_into (extend last interval) is in
    let apart = merge_into interval is in
    if leb interval.dusk_at last.dawn_at then joined else last ∷ apart

abbrev pub merge_sorted : List NightWindow → List NightWindow
merge_sorted [] = []
merge_sorted (i ∷ is) = merge_into i is

unfoldable pub merge : List NightWindow → List NightWindow
merge intervals = merge_sorted (sort_by_dusk intervals)

-- The filter of `openIntervals`.
abbrev pub is_usable : LocalWindow → Bool
is_usable w =
    ltb_ℤ w.start_minute w.end_minute
    && leb_ℤ (pos 0) w.start_minute
    && leb_ℤ w.end_minute (pos minutes_per_day)

abbrev pub usable_of : List LocalWindow → List LocalWindow
usable_of windows = select is_usable windows

abbrev pub push : {A : Type 0} → Option A → List A → List A
push none is = is
push (some i) is = i ∷ is

module _ {D : Type 0} (c : Calendar D) (night : NightWindow) where
  -- The inner loop of `openIntervals`, in front of what the later dates add.
  abbrev pub intersections_on : D → List LocalWindow → List NightWindow → List NightWindow
  intersections_on date [] rest = rest
  intersections_on date (w ∷ ws) rest =
      let others = intersections_on date ws rest in
      if w.weekday == c.weekday_of date
      then push (overlap night (instants_for c w date)) others
      else others

  abbrev pub intersections : List D → List LocalWindow → List NightWindow
  intersections [] ws = []
  intersections (date ∷ dates) ws = intersections_on date ws (intersections dates ws)

  -- The dates whose weekdays contribute.
  abbrev pub dates_of : List D
  dates_of = let evening = c.local_date night.dusk_at in evening ∷ c.next_date evening ∷ []

  abbrev pub open_usable : List LocalWindow → List NightWindow
  open_usable [] = night ∷ []
  open_usable (w ∷ ws) = merge (intersections dates_of (w ∷ ws))

  -- `openIntervals`
  unfoldable pub open_intervals : List LocalWindow → List NightWindow
  open_intervals windows = open_usable (usable_of windows)
