-- ===== src/Schedule/Quiet.antt =====
-- What quiet hours do to a message for a profile of immediate delivery.
use chc_rental.Base.{
  ℕ, ◌<◌, ◌≡◌, ◌≢◌, refl, sym, ap, ◌∙◌, true, false, Option, none, some, arith, Bool-cases, inl,
  inr, clock_ltb,
}
use chc_rental.Models.{immediate, Profile}
use chc_rental.Schedule.{
  Zones, day_of, clock_of, combine, quiet_until, or_end, after_quiet, notification_not_before,
}

-- A time of the day, as the validators of a profile let it through.
abbrev pub IsClock : ℕ × ℕ → Type 0
IsClock c = (c.0 < 24) × (c.1 < 60)

hour-combine : (day h m : ℕ) → h < 24 → m < 60 → (clock_of (combine day (h, m))).0 ≡ h
hour-combine day h m hh mm = omega arith

minute-combine : (day h m : ℕ) → h < 24 → m < 60 → (clock_of (combine day (h, m))).1 ≡ m
minute-combine day h m hh mm = omega arith

clock-combine : (day : ℕ) (c : ℕ × ℕ) → IsClock c → clock_of (combine day c) ≡ c
clock-combine day (h, m) v = rw (hour-combine day h m v.0 v.1, minute-combine day h m v.0 v.1) refl

clock_irrefl : (c : ℕ × ℕ) → clock_ltb c c ≡ false
clock_irrefl (h, m) = ground arith

clock_total : (c d : ℕ × ℕ) → clock_ltb c d ≡ false → c ≢ d → clock_ltb d c ≡ true
clock_total (h, m) (h', m') c_not_d differ = elim (Bool-cases (clock_ltb (h', m') (h, m))) [
  | inl e ↦ e
  | inr d_not_c ↦
      let hours : h ≡ h' = ground arith in
      let minutes : m ≡ m' = ground arith in absurd (differ (rw (hours, minutes) refl))
]

-- The end of quiet hours is not in them.
quiet_until-end :
    (start_ end_ : ℕ × ℕ) (day : ℕ) → start_ ≢ end_ → quiet_until start_ end_ end_ day ≡ none
unfolding quiet_until
quiet_until-end start_ end_ day differ = elim (Bool-cases (clock_ltb start_ end_)) [
  | inl later ↦
      let at_end = clock_irrefl end_ in
      rw (later, at_end)
        (elim (Bool-cases (clock_ltb end_ start_)) [ inl e ↦ rw e refl | inr e ↦ rw e refl ])
  | inr overnight ↦ rw (overnight, clock_total start_ end_ overnight differ, clock_irrefl end_) refl
]

abbrev pub AreQuiet : Option (ℕ × ℕ) → Option (ℕ × ℕ) → Type 0
AreQuiet (some s) (some e) = IsClock e × (s ≢ e)
AreQuiet (some s) none = Unit
AreQuiet none e = Unit

after_quiet-twice :
    (z : Zones) (p : Profile) (now : ℕ) (start_ end_ : ℕ × ℕ)
    → ((day : ℕ)
        → quiet_until start_ end_
            (clock_of (z.to_local p.timezone now))
            (day_of (z.to_local p.timezone now))
          ≡ some day
        → z.to_local p.timezone (z.to_utc p.timezone (combine day end_)) ≡ combine day end_)
    → IsClock end_
    → start_ ≢ end_
    → after_quiet z p (after_quiet z p now start_ end_) start_ end_
      ≡ after_quiet z p now start_ end_
unfolding after_quiet
after_quiet-twice z p now start_ end_ no_gap valid differ =
    ap (λ t. after_quiet z p t start_ end_) first ∙ again _ refl ∙ sym first
  where
    day_at : ℕ → Option ℕ
    day_at t =
        quiet_until start_ end_ (clock_of (z.to_local p.timezone t))
          (day_of (z.to_local p.timezone t))

    first : after_quiet z p now start_ end_ ≡ or_end z p now end_ (day_at now)
    first = refl

    again :
        (o : Option ℕ)
        → day_at now ≡ o
        → after_quiet z p (or_end z p now end_ o) start_ end_ ≡ or_end z p now end_ o
    again none e = ap (or_end z p now end_) e
    again (some day) e =
        ap
          (λ t.
            or_end z p (z.to_utc p.timezone (combine day end_)) end_
              (quiet_until start_ end_ (clock_of t) (day_of t)))
          (no_gap day e)
        ∙ ap
            (λ c.
              or_end z p (z.to_utc p.timezone (combine day end_)) end_
                (quiet_until start_ end_ c (day_of (combine day end_))))
            (clock-combine day end_ valid)
        ∙ ap (or_end z p (z.to_utc p.timezone (combine day end_)) end_)
            (quiet_until-end start_ end_ _ differ)

-- A message for a profile of immediate delivery that is put off to the end of the quiet hours is not
-- put off again when it is due, if the quiet hours end at a time of the day that is not the one they
-- start at, and the end of the quiet hours on the day to which the message is put off is a time that
-- the local clock shows: it is not in a gap that a change of the clock skips. Other times may be.
pub not_before-twice :
    (z : Zones) (p : Profile) (now : ℕ)
    → p.delivery_mode ≡ immediate
    → AreQuiet p.quiet_hours_start p.quiet_hours_end
    → ((s e : ℕ × ℕ) (day : ℕ)
        → p.quiet_hours_start ≡ some s
        → p.quiet_hours_end ≡ some e
        → quiet_until s e
            (clock_of (z.to_local p.timezone now))
            (day_of (z.to_local p.timezone now))
          ≡ some day
        → z.to_local p.timezone (z.to_utc p.timezone (combine day e)) ≡ combine day e)
    → notification_not_before z p (notification_not_before z p now)
      ≡ notification_not_before z p now
unfolding notification_not_before after_quiet
not_before-twice z p now at_once valid no_gap =
    rw at_once (by_hours p.quiet_hours_start p.quiet_hours_end refl refl valid)
  where
    by_hours :
        (s e : Option (ℕ × ℕ))
        → p.quiet_hours_start ≡ s
        → p.quiet_hours_end ≡ e
        → AreQuiet s e
        → notification_not_before z
            (record p { delivery_mode = immediate; quiet_hours_start = s; quiet_hours_end = e })
            (notification_not_before z
              (record p { delivery_mode = immediate; quiet_hours_start = s; quiet_hours_end = e })
              now)
          ≡ notification_not_before z
              (record p { delivery_mode = immediate; quiet_hours_start = s; quiet_hours_end = e })
              now
    by_hours none e at_s at_e v = refl
    by_hours (some s) none at_s at_e v = refl
    by_hours (some s) (some e) at_s at_e v =
        after_quiet-twice z p now s e (λ day. no_gap s e day at_s at_e) v.0 v.1
