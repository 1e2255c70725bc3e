-- ===== src/Pipeline/Tests.antt =====
-- The daily delivery at concrete inputs.
use chc_rental.Base.{none, ◌≤◌, refl, true, some, [], ◌∷◌, ◌≡◌, length}
use chc_rental.Base.Table.{count_where, All}
use chc_rental.Base.Table.Distinct.{Distinct}
use chc_rental.Models.{active_searches}
use chc_rental.Schedule.{Zones}
use chc_rental.Ledger.Outbox.Tests.{sample_listing}
use chc_rental.Models.Tests.{sample_settings}
use chc_rental.Planner.Tests.{sample_person, sample_allowlist}
use chc_rental.Journal.Tests.{sample_attempt, empty_journal}
use chc_rental.Pipeline.Plan.{Planning, PlannedPush, person_items, plan_pushes}
use chc_rental.Pipeline.Send.{receipt, Post, Sender}
use chc_rental.Pipeline.Deliver.{Mail, Office, deliver_item}
use chc_rental.Pipeline.Planned.{
  same_key, caps, is_for_someone, person_items-Capped, plan_pushes-Sound,
}
use chc_rental.Pipeline.Repeats.{is_message, send_all, sent_once}
use chc_rental.Pipeline.Items.{Hands, deliver_item-Hands}

abbrev sample_sender : Sender
sample_sender = record { send = λ out. receipt (some "77") (some "9"); chat_text = λ n. "9" }

abbrev sample_post : Post
sample_post = record { bank = record { journal = empty_journal; seen = none }; outgoing = [] }

-- The same attempt twice.
sent_once_example :
    count_where
      (is_message 3 "routine-1")
      (send_all sample_sender ((sample_attempt, 5) ∷ (sample_attempt, 6) ∷ []) sample_post).outgoing
    ≤ 1
unfolding count_where
sent_once_example =
    sent_once sample_sender 3 "routine-1" ((sample_attempt, 5) ∷ (sample_attempt, 6) ∷ [])
      sample_post (λ out m h. refl) refl

abbrev utc : Zones
utc = record { to_local = λ zone t. t; to_utc = λ zone t. t }

abbrev sample_planning : Planning
sample_planning = record {
  allowlist = sample_allowlist;
  banks = λ id. sample_post.bank;
  seen_retention_days = 90;
  zones = utc;
  now = 300_000_000_000;
  dedup_key = λ l. l.url;
  upgrade_seen_key = λ key. key;
}

plan_pushes-Sound_example :
    All
      (λ i. is_for_someone sample_planning i ≡ true)
      (plan_pushes sample_planning (sample_listing ∷ sample_listing ∷ []) true).planned
plan_pushes-Sound_example =
    plan_pushes-Sound sample_planning (sample_listing ∷ sample_listing ∷ []) true

person_items-Capped_example :
    Distinct same_key
      (person_items sample_planning (sample_listing ∷ sample_listing ∷ []) sample_person)
    × (length (person_items sample_planning (sample_listing ∷ sample_listing ∷ []) sample_person)
        ≤ caps (active_searches sample_person.profile))
person_items-Capped_example =
    person_items-Capped sample_planning sample_person (sample_listing ∷ sample_listing ∷ [])

abbrev sample_mail : Mail
sample_mail = record {
  settings = sample_settings;
  sender = some sample_sender;
  formats = record {
    of_text = λ t. "x";
    with_commas = λ n. "1,500";
    plain = λ n. "1";
    baths = λ n. "1";
  };
  allowlist_at = λ n. sample_allowlist;
  upgrade_seen_key = λ key. key;
  zones = utc;
  isoformat = λ day. "1970-01-04";
  digest = λ id day kind text keys discriminator. ("routine-1", "1");
}

abbrev sample_push : PlannedPush
sample_push = record {
  telegram_id = 9;
  display_name = [];
  search_name = [];
  key = "v3:1";
  listing = sample_listing;
}

abbrev sample_office : Office
sample_office = record {
  posts = λ id. sample_post;
  reads = 0;
  tally = record {
    sent = 0;
    failed = 0;
    uncertain = 0;
    notices_sent = 0;
    notices_failed = 0;
    suppressed_after_plan = 0;
    bank_repairs_needed = 0;
  };
}

deliver_item-Hands_example :
    Hands sample_mail sample_sender 5 sample_push sample_office
      (deliver_item sample_mail sample_sender 5 sample_push sample_office).1
deliver_item-Hands_example =
    deliver_item-Hands sample_mail sample_sender 5 sample_push sample_office
