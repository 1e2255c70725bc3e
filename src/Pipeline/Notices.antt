-- ===== src/Pipeline/Notices.antt =====
-- The notices of src/chc_rental/pipeline.py: `send_routine_notice`, the end of `deliver` and
-- `deliver_source_outage_notices`.
use chc_rental.Base.{
  ℕ, ◌+◌, String, Bool, true, false, ◌&&◌, not, Option, none, some, List, [], ◌∷◌, ◌==◌,
  if◌then◌else◌,
}
use chc_rental.Base.Raise.{Result, ok, err}
use chc_rental.Models.{AllowlistEntry, Allowlist, is_allowlisted}
use chc_rental.Schedule.{is_profile_due}
use chc_rental.Journal.{notice}
use chc_rental.Journal.Seen.{last_sent_at, mark_notified}
use chc_rental.Pipeline.Plan.{PipelinePlan}
use chc_rental.Pipeline.Send.{
  Outcome, sent, already_sent, refused, unsure, Post, Sender, Sent, send_attempt,
}
use chc_rental.Pipeline.Deliver.{
  Mail, Office, Turn, attempt_for, tallied, suppressed, doubtful, on_bank, attempted,
  allowed_person, next_read, then_turn, by_recipient, deliver_groups,
}

-- `send_routine_notice`
unfoldable pub send_routine_notice :
    Mail → Sender → AllowlistEntry → String → Option String → ℕ → Post → Sent
send_routine_notice m sender person message discriminator now p =
    send_attempt sender (attempt_for m person notice message [] discriminator now) now p

abbrev pub after_notice : Mail → ℕ → ℕ → Result Outcome → Office → Turn
after_notice m now id (err e) o = (err e, o)
after_notice m now id (ok (sent message_id chat_id)) o = (
  ok tt,
  tallied (λ t. record t { notices_sent = t.notices_sent + 1 })
      (on_bank id (mark_notified m.isoformat now) o),
)
after_notice m now id (ok already_sent) o = (ok tt, tallied suppressed o)
after_notice m now id (ok unsure) o = (ok tt, tallied doubtful o)
after_notice m now id (ok refused) o =
    (ok tt, tallied (λ t. record t { notices_failed = t.notices_failed + 1 }) o)

abbrev pub no_results_notice : String
no_results_notice = "No new rentals matched your searches today."

unfoldable pub notify : Mail → Sender → ℕ → ℕ → Office → Turn
notify m sender now id o = elim (allowed_person (m.allowlist_at o.reads) id) [
  | none ↦ (ok tt, next_read o)
  | some person ↦
      if not (is_profile_due m.zones person.profile now (last_sent_at (o.posts id).bank))
      then (ok tt, tallied suppressed (next_read o))
      else let r =
          attempted id (send_routine_notice m sender person no_results_notice none now (o.posts id))
            (next_read o) in
        after_notice m now id r.0 r.1
]

unfoldable pub notify_all : Mail → Sender → ℕ → List ℕ → Office → Turn
notify_all m sender now [] o = (ok tt, o)
notify_all m sender now (id ∷ ids) o =
    then_turn (notify m sender now id o) (notify_all m sender now ids)

-- `deliver`, which does nothing in a dry run.
unfoldable pub deliver : Mail → Bool → PipelinePlan → ℕ → Office → Turn
deliver m live plan now o = elim m.sender [
  | none ↦ (ok tt, o)
  | some sender ↦
      if not (live && m.settings.live_push_enabled)
      then (ok tt, o)
      else then_turn (deliver_groups m sender now (by_recipient plan.planned []) o)
          (notify_all m sender now plan.no_results_for)
]

abbrev pub source_outage_notice : String
source_outage_notice =
    "CHC Rental could not check listings today — the rental source was unavailable. Your saved searches are unchanged; you will get the next update as soon as the source is back."

-- The tally of the outage notices, by what became of each.
pub record OutageTally : Type 0 where
  pub sent : ℕ
  pub failed : ℕ
  pub uncertain : ℕ
  pub already_sent : ℕ

abbrev pub count_outage : Outcome → OutageTally → OutageTally
count_outage (sent message_id chat_id) t = record t { sent = t.sent + 1 }
count_outage already_sent t = record t { already_sent = t.already_sent + 1 }
count_outage unsure t = record t { uncertain = t.uncertain + 1 }
count_outage refused t = record t { failed = t.failed + 1 }

abbrev pub Outage : Type 0
Outage = Result OutageTally × (ℕ → Post)

unfoldable pub outage_to : Mail → Sender → ℕ → AllowlistEntry → (ℕ → Post) → Sent
outage_to m sender now person posts =
    send_routine_notice m sender person source_outage_notice (some "source-outage") now
      (posts person.telegram_id)

abbrev pub wants_outage : Mail → ℕ → Allowlist → AllowlistEntry → (ℕ → Post) → Bool
wants_outage m now allowlist person posts =
    is_allowlisted allowlist person.telegram_id
    && person.profile.notify_on_no_results
    && is_profile_due m.zones person.profile now (last_sent_at (posts person.telegram_id).bank)

unfoldable pub outage_people :
    Mail → Sender → ℕ → Allowlist → List AllowlistEntry → OutageTally → (ℕ → Post) → Outage
outage_people m sender now allowlist [] t posts = (ok t, posts)
outage_people m sender now allowlist (person ∷ people) t posts =
    elim (wants_outage m now allowlist person posts) [
      | false ↦ outage_people m sender now allowlist people t posts
      | true ↦
          let r = outage_to m sender now person posts in
          let posts' : ℕ → Post = λ n. if n == person.telegram_id then r.1 else posts n in
          elim r.0 as (λ r. Outage) [
            | err e ↦ (err e, posts')
            | ok outcome ↦
                outage_people m sender now allowlist people (count_outage outcome t) posts'
          ]
    ]

-- `deliver_source_outage_notices`
unfoldable pub deliver_source_outage_notices : Mail → Bool → ℕ → (ℕ → Post) → Outage
deliver_source_outage_notices m live now posts =
    let t : OutageTally = record { sent = 0; failed = 0; uncertain = 0; already_sent = 0 } in
    elim m.sender [
      | none ↦ (ok t, posts)
      | some sender ↦
          if not (live && m.settings.live_push_enabled)
          then (ok t, posts)
          else outage_people m sender now (m.allowlist_at 0) (m.allowlist_at 0).people t posts
    ]
