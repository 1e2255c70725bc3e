-- ===== src/Schedule/Tests.antt =====
-- The schedule at concrete inputs.
use chc_rental.Base.{ℕ, ◌+◌, ◌-◌, ◌≡◌, refl, ap, some, arith, ltb, if◌then◌else◌}
use chc_rental.Models.{Profile}
use chc_rental.Planner.Tests.{sample_person}
use chc_rental.Schedule.{Zones, notification_not_before}
use chc_rental.Schedule.Quiet.{not_before-twice}

-- A zone five hours behind whose clock skips the hour from two to three on the day 0.
abbrev eastern : Zones
eastern = record {
  to_local = λ zone t. if ltb t 25_200_000_000 then t - 18_000_000_000 else t - 14_400_000_000;
  to_utc = λ zone t. if ltb t 7_200_000_000 then t + 18_000_000_000 else t + 14_400_000_000;
}

abbrev night_owl : Profile
night_owl = record (sample_person.profile) {
  quiet_hours_start = some (22, 0);
  quiet_hours_end = some (7, 30);
}

not_before-twice_example :
    notification_not_before eastern night_owl
      (notification_not_before eastern night_owl 100_000_000_000)
    ≡ notification_not_before eastern night_owl 100_000_000_000
not_before-twice_example =
    not_before-twice eastern night_owl 100_000_000_000 refl
      (
        (omega arith, omega arith),
        λ e. let wrong : 22 ≡ 7 = ap (λ (c : ℕ × ℕ). c.0) e in omega arith,
      )
      (λ s e day at_s at_e until. ground arith)
