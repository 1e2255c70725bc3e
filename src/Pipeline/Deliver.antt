-- ===== src/Pipeline/Deliver.antt =====
-- The listings that `deliver` of src/chc_rental/pipeline.py sends.
-- The files of each recipient are a function of the id; the digest of an attempt and how Python writes numbers and texts are fields of `Mail`.
use chc_rental.Base.{
  ℕ, ◌+◌, String, append, false, Option, none, some, List, [], ◌∷◌, ◌++◌, map, ◌==◌, if◌then◌else◌,
}
use chc_rental.Base.Raise.{Result, ok, err}
use chc_rental.Text.{Text}
use chc_rental.Schedule.{Zones, day_of}
use chc_rental.Models.{AllowlistEntry, Allowlist, get, is_allowlisted, Settings}
use chc_rental.Journal.{DeliveryKind, listing, scheduled, RoutineDeliveryItem}
use chc_rental.Journal.Store.{Attempt}
use chc_rental.Journal.Seen.{
  Bank, Delivery, active_seen_keys, record_delivery, reconcile_routine_seen,
}
use chc_rental.Pipeline.Plan.{PlannedPush, is_listed}
use chc_rental.Pipeline.Send.{
  Outcome, sent, already_sent, refused, unsure, Post, Sender, Sent, send_attempt,
}

-- How Python writes what goes into a message.
pub record Formats : Type 0 where
  pub of_text : Text → String
  pub with_commas : ℕ → String
  pub plain : ℕ → String
  pub baths : ℕ → String

-- What a delivery reads. The allowlist is read anew at each turn, so it has the number of the read.
pub record Mail : Type 0 where
  pub settings : Settings
  pub sender : Option Sender
  pub formats : Formats
  pub allowlist_at : ℕ → Allowlist
  pub upgrade_seen_key : String → String
  pub zones : Zones
  pub isoformat : ℕ → String
  pub digest : ℕ → ℕ → DeliveryKind → String → List String → Option String → String × String

-- The counts of `PipelineResult` and of `deliver`.
pub record Tally : Type 0 where
  pub sent : ℕ
  pub failed : ℕ
  pub uncertain : ℕ
  pub notices_sent : ℕ
  pub notices_failed : ℕ
  pub suppressed_after_plan : ℕ
  pub bank_repairs_needed : ℕ

pub record Office : Type 0 where
  pub posts : ℕ → Post
  pub reads : ℕ
  pub tally : Tally

abbrev pub Turn : Type 0
Turn = Result (Unit {0}) × Office

-- `PlannedPush.render`
unfoldable pub render : Formats → PlannedPush → String
render f p =
    let l = p.listing in
    append "[" (
      append (f.of_text p.search_name) (
        append "] " (
          append (f.of_text l.address) (
            append " | " (
              append (f.of_text l.city) (
                append
                  (elim l.district as (λ o. String) [
                    | none ↦ ""
                    | some [] ↦ ""
                    | some (c ∷ d) ↦ append " / " (f.of_text (c ∷ d))
                  ])
                  (append " | $" (
                    append (f.with_commas l.price) (
                      append " | " (
                        append (f.plain l.beds) (
                          append " bed | " (
                            append (f.baths l.baths) (
                              append " bath" (
                                append
                                  (elim l.sqft as (λ o. String) [
                                    | none ↦ ""
                                    | some n ↦ append " | " (append (f.plain n) " sqft")
                                  ])
                                  (append "\n" l.url)))))))))))))))

-- `_routine_item`
abbrev pub routine_item : PlannedPush → RoutineDeliveryItem
routine_item p = record {
  key = p.key;
  search_name = p.search_name;
  url = p.listing.url;
  address = some p.listing.address;
  unit = p.listing.unit;
  city = some p.listing.city;
  district = p.listing.district;
  price = some p.listing.price;
  beds = some p.listing.beds;
  baths = some p.listing.baths;
  sqft = p.listing.sqft;
  source = some p.listing.source;
}

-- What `prepare_routine_delivery` is called with, and the id that `_routine_attempt_identity` makes.
abbrev pub attempt_for :
    Mail
    → AllowlistEntry
    → DeliveryKind
    → String
    → List RoutineDeliveryItem
    → Option String
    → ℕ
    → Attempt
attempt_for m person kind text items discriminator now =
    let day = day_of (m.zones.to_local person.profile.timezone now) in
    let ids = m.digest person.telegram_id day kind text (map (λ i. i.key) items) discriminator in
    record {
      attempt_id = ids.0;
      attempt_key = ids.1;
      telegram_id = person.telegram_id;
      payload = record {
        display_name = person.display_name;
        timezone = person.profile.timezone;
        local_date = day;
        kind = kind;
        message_text = text;
        items = items;
        legacy = false;
        channel = scheduled;
      };
    }

abbrev pub set_post : ℕ → Post → Office → Office
set_post id p o = record o { posts = λ n. if n == id then p else o.posts n }

abbrev pub tallied : (Tally → Tally) → Office → Office
tallied f o = record o { tally = f o.tally }

abbrev pub suppressed : Tally → Tally
suppressed t = record t { suppressed_after_plan = t.suppressed_after_plan + 1 }

abbrev pub doubtful : Tally → Tally
doubtful t = record t { uncertain = t.uncertain + 1 }

abbrev pub to_repair : Tally → Tally
to_repair t = record t { bank_repairs_needed = t.bank_repairs_needed + 1 }

-- A call on the files of a recipient that came back; if it raised, a repair is counted.
abbrev pub after_bank {ℓ} : {A : Type ℓ} → ℕ → Result A × Bank → Office → Office
after_bank id (ok a, b) o = set_post id (record (o.posts id) { bank = b }) o
after_bank id (err e, b) o = tallied to_repair (set_post id (record (o.posts id) { bank = b }) o)

abbrev pub on_bank {ℓ} : {A : Type ℓ} → ℕ → (Bank → Result A × Bank) → Office → Office
on_bank id f o = after_bank id (f (o.posts id).bank) o

abbrev pub retention : Mail → ℕ
retention m = m.settings.seen_retention_days

abbrev pub seen_delivery : PlannedPush → Option String → Option String → Delivery
seen_delivery p message_id chat_id = record {
  key = p.key;
  search_name = p.search_name;
  url = p.listing.url;
  channel = scheduled;
  telegram_message_id = message_id;
  chat_id = chat_id;
  repeat_override = false;
}

-- What follows an attempt to send a listing.
abbrev pub after_item : Mail → ℕ → PlannedPush → Result Outcome → Office → Turn
after_item m now p (err e) o = (err e, o)
after_item m now p (ok refused) o = (ok tt, tallied (λ t. record t { failed = t.failed + 1 }) o)
after_item m now p (ok unsure) o = (ok tt, tallied doubtful o)
after_item m now p (ok already_sent) o =
    (ok tt, tallied suppressed (on_bank p.telegram_id (reconcile_routine_seen (retention m) now) o))
after_item m now p (ok (sent message_id chat_id)) o = (
  ok tt,
  tallied (λ t. record t { sent = t.sent + 1 })
      (on_bank p.telegram_id
        (record_delivery (retention m) (seen_delivery p message_id chat_id) now) o),
)

-- An attempt, with the files of its recipient.
abbrev pub attempted : ℕ → Sent → Office → Result Outcome × Office
attempted id (r, p) o = (r, set_post id p o)

-- `active_seen_keys`, in today's form of keys.
unfoldable pub already_seen : Mail → ℕ → Post → List String
already_seen m now p = map m.upgrade_seen_key (active_seen_keys (retention m) now p.bank)

-- An item for a person who is allowlisted at this read.
unfoldable pub send_item : Mail → Sender → ℕ → PlannedPush → AllowlistEntry → Office → Turn
send_item m sender now p person o =
    if is_listed p.key (already_seen m now (o.posts p.telegram_id))
    then (ok tt, tallied suppressed o)
    else let a = attempt_for m person listing (render m.formats p) (routine_item p ∷ []) none now in
      let r = attempted p.telegram_id (send_attempt sender a now (o.posts p.telegram_id)) o in
      after_item m now p r.0 r.1

-- The person of an id, if the allowlist of a read has them as active.
unfoldable pub allowed_person : Allowlist → ℕ → Option AllowlistEntry
allowed_person allowlist id = if is_allowlisted allowlist id then get allowlist id else none

abbrev pub next_read : Office → Office
next_read o = record o { reads = o.reads + 1 }

unfoldable pub deliver_item : Mail → Sender → ℕ → PlannedPush → Office → Turn
deliver_item m sender now p o = elim (allowed_person (m.allowlist_at o.reads) p.telegram_id) [
  | none ↦ (ok tt, next_read o)
  | some person ↦ send_item m sender now p person (next_read o)
]

-- The next turn, unless the last one raised.
abbrev pub then_turn : Turn → (Office → Turn) → Turn
then_turn (ok u, o) f = f o
then_turn (err e, o) f = (err e, o)

unfoldable pub deliver_items : Mail → Sender → ℕ → List PlannedPush → Office → Turn
deliver_items m sender now [] o = (ok tt, o)
deliver_items m sender now (p ∷ items) o =
    then_turn (deliver_item m sender now p o) (deliver_items m sender now items)

-- `by_recipient.setdefault(item.telegram_id, []).append(item)`
unfoldable pub add_item : PlannedPush → List (ℕ × List PlannedPush) → List (ℕ × List PlannedPush)
add_item p [] = (p.telegram_id, p ∷ []) ∷ []
add_item p ((id, items) ∷ groups) =
    let rest = add_item p groups in
    if id == p.telegram_id then (id, items ++ p ∷ []) ∷ groups else (id, items) ∷ rest

unfoldable pub by_recipient :
    List PlannedPush → List (ℕ × List PlannedPush) → List (ℕ × List PlannedPush)
by_recipient [] groups = groups
by_recipient (p ∷ planned) groups = by_recipient planned (add_item p groups)

unfoldable pub deliver_groups : Mail → Sender → ℕ → List (ℕ × List PlannedPush) → Office → Turn
deliver_groups m sender now [] o = (ok tt, o)
deliver_groups m sender now ((id, items) ∷ groups) o =
    then_turn
      (deliver_items m sender now items (on_bank id (reconcile_routine_seen (retention m) now) o))
      (deliver_groups m sender now groups)
