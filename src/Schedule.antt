-- ===== src/Schedule.antt =====
-- src/chc_rental/notification_schedule.py: when a profile is due, and when a message may go out. The
-- database of time zones is a parameter; that a time has no zone is excluded by its type.
pub mod Quiet
pub mod Tests
use chc_rental.Base.{
  ℕ, ◌+◌, ◌*◌, ◌/◌, String, Bool, true, false, ◌&&◌, ◌||◌, not, Option, none, some, leb, ◌==◌,
  clock_ltb, if◌then◌else◌,
}
use Prim.Native.Nat.{◌%◌}
use chc_rental.Models.{DeliveryMode, daily, immediate, Profile, Settings}

-- What the clock of a zone shows at an instant, and an instant at which it shows that; a local time
-- is a count of microseconds as well.
pub record Zones : Type 0 where
  pub to_local : String → ℕ → ℕ
  pub to_utc : String → ℕ → ℕ

abbrev pub day_of : ℕ → ℕ
day_of t = t / 86_400_000_000

abbrev pub clock_of : ℕ → ℕ × ℕ
clock_of t = (t % 86_400_000_000 / 3_600_000_000, t % 3_600_000_000 / 60_000_000)

-- `datetime.combine`
abbrev pub combine : ℕ → ℕ × ℕ → ℕ
combine day (h, m) = day * 86_400_000_000 + h * 3_600_000_000 + m * 60_000_000

unfoldable pub is_profile_due : Zones → Profile → ℕ → Option ℕ → Bool
is_profile_due z p now last_sent_at =
    let local_now = z.to_local p.timezone now in
    if clock_ltb (clock_of local_now) p.delivery_time then false else elim last_sent_at [
      | none ↦ true
      | some last ↦ not (day_of (z.to_local p.timezone last) == day_of local_now)
    ]

unfoldable pub local_day_window_utc : Zones → Profile → ℕ → ℕ × ℕ
local_day_window_utc z p now =
    let day = day_of (z.to_local p.timezone now) in
    (z.to_utc p.timezone (combine day (0, 0)), z.to_utc p.timezone (combine (day + 1) (0, 0)))

unfoldable pub push_precedes_scrape : Zones → Profile → Settings → ℕ → Bool
push_precedes_scrape z p st day =
    leb (z.to_utc p.timezone (combine day p.delivery_time))
      (z.to_utc st.scrape_timezone (combine day st.scrape_time))

-- The next time of a daily delivery.
unfoldable pub next_delivery : Zones → Profile → ℕ → ℕ
next_delivery z p now =
    let local_now = z.to_local p.timezone now in
    let target = combine (day_of local_now) p.delivery_time in
    z.to_utc p.timezone
      (if leb target local_now then combine (day_of local_now + 1) p.delivery_time else target)

-- The day on which quiet hours end that a clock time of a day lies in.
unfoldable pub quiet_until : ℕ × ℕ → ℕ × ℕ → ℕ × ℕ → ℕ → Option ℕ
quiet_until start_ end_ current day =
    if clock_ltb start_ end_
    then (if clock_ltb current start_ || not (clock_ltb current end_) then none else some day)
    else if not (clock_ltb current start_)
    then some (day + 1)
    else if clock_ltb current end_
    then some day
    else none

abbrev pub or_end : Zones → Profile → ℕ → ℕ × ℕ → Option ℕ → ℕ
or_end z p now end_ none = now
or_end z p now end_ (some day) = z.to_utc p.timezone (combine day end_)

unfoldable pub after_quiet : Zones → Profile → ℕ → ℕ × ℕ → ℕ × ℕ → ℕ
after_quiet z p now start_ end_ =
    let local_now = z.to_local p.timezone now in
    or_end z p now end_ (quiet_until start_ end_ (clock_of local_now) (day_of local_now))

-- `quiet_hours_start`, `quiet_hours_end`, if both are set.
abbrev pub both_set : Option (ℕ × ℕ) → Option (ℕ × ℕ) → Option ((ℕ × ℕ) × (ℕ × ℕ))
both_set none e = none
both_set (some s) none = none
both_set (some s) (some e) = some (s, e)

unfoldable pub notification_not_before : Zones → Profile → ℕ → ℕ
notification_not_before z p now = elim p.delivery_mode [
  | daily ↦ next_delivery z p now
  | immediate ↦ elim (both_set p.quiet_hours_start p.quiet_hours_end) [
    | none ↦ now
    | some q ↦ after_quiet z p now q.0 q.1
  ]
]
