-- ===== src/Models.antt =====
-- src/chc_rental/models.py: the typed shapes. Money is in whole dollars as in the source; a number
-- of baths is a float there and a count of hundredths here; a time is a count of microseconds.
pub mod Tests
use chc_rental.Base.{ℕ, String, Bool, false, Option, none, some, List, ◌==◌, str_eq}
use chc_rental.Base.Table.{find_where, rows_where}
use chc_rental.Text.{Text}

pub data PropertyType : Type 0 where
  apartment house condo townhouse studio room single_family multi_family : PropertyType
  manufactured land other : PropertyType

-- The strings in `_PROPERTY_TYPE_GROUPS`.
pub data Group : Type 0 where
  apartment condo townhouse single_family multi_family manufactured land other : Group

unfoldable pub property_type_group : PropertyType → Group
property_type_group PropertyType.apartment = Group.apartment
property_type_group PropertyType.studio = Group.apartment
property_type_group PropertyType.room = Group.apartment
property_type_group PropertyType.condo = Group.condo
property_type_group PropertyType.townhouse = Group.townhouse
property_type_group PropertyType.house = Group.single_family
property_type_group PropertyType.single_family = Group.single_family
property_type_group PropertyType.multi_family = Group.multi_family
property_type_group PropertyType.manufactured = Group.manufactured
property_type_group PropertyType.land = Group.land
property_type_group PropertyType.other = Group.other

pub data DeliveryMode : Type 0 where
  daily immediate : DeliveryMode

pub record Search : Type 0 where
  pub search_id : Option String
  pub name : Text
  pub active : Bool
  pub city : Text
  pub state : Option Text
  pub district : Option Text
  pub price_min : ℕ
  pub price_max : ℕ
  pub property_types : List PropertyType
  pub bed_min : ℕ
  pub bed_max : ℕ
  pub bath_min : ℕ
  pub bath_max : ℕ
  pub sqft_min : Option ℕ
  pub sqft_max : Option ℕ
  pub required_features : List Text
  pub excluded_features : List Text
  pub daily_cap : ℕ

-- Clock times of a profile are pairs of an hour and a minute, as `_clock` reads them.
pub record Profile : Type 0 where
  pub delivery_time : ℕ × ℕ
  pub timezone : String
  pub delivery_mode : DeliveryMode
  pub quiet_hours_start : Option (ℕ × ℕ)
  pub quiet_hours_end : Option (ℕ × ℕ)
  pub notify_on_no_results : Bool
  pub searches : List Search

unfoldable pub active_searches : Profile → List Search
active_searches p = rows_where (λ s. s.active) p.searches

pub record AllowlistEntry : Type 0 where
  pub telegram_id : ℕ
  pub display_name : Text
  pub active : Bool
  pub profile : Profile

pub record Allowlist : Type 0 where
  pub schema_version : ℕ
  pub people : List AllowlistEntry

-- `Allowlist.get`
unfoldable pub get : Allowlist → ℕ → Option AllowlistEntry
get a telegram_id = find_where (λ p. p.telegram_id == telegram_id) a.people

unfoldable pub is_allowlisted : Allowlist → ℕ → Bool
unfolding get
is_allowlisted a telegram_id = elim (get a telegram_id) [
  | none ↦ false
  | some person ↦ person.active
]

unfoldable pub active_people : Allowlist → List AllowlistEntry
active_people a = rows_where (λ p. p.active) a.people

pub record Listing : Type 0 where
  pub source : String
  pub source_listing_id : Option String
  pub url : String
  pub address : Text
  pub unit : Option Text
  pub city : Text
  pub state : Option Text
  pub postal_code : Option String
  pub district : Option Text
  pub price : ℕ
  pub property_type : PropertyType
  pub beds : ℕ
  pub baths : ℕ
  pub sqft : Option ℕ
  pub features : List Text
  pub first_seen_at : Option ℕ

-- The settings that the modelled components read. Money is in millionths of a dollar and a share in
-- hundredths; the clock times are pairs of an hour and a minute.
pub record Settings : Type 0 where
  pub scrape_timezone : String
  pub scrape_time : ℕ × ℕ
  pub global_daily_request_budget : ℕ
  pub per_source_daily_request_budget : ℕ
  pub source_daily_request_budgets : List (String × ℕ)
  pub zillow_enabled : Bool
  pub zillow_actor : String
  pub zillow_results_limit : ℕ
  pub zillow_max_charge_usd : ℕ
  pub zillow_price_per_result_usd : ℕ
  pub zillow_budget_target_share : ℕ
  pub zillow_min_results_floor : ℕ
  pub live_push_enabled : Bool
  pub incremental_alerts_enabled : Bool
  pub incremental_active_start : ℕ × ℕ
  pub incremental_active_end : ℕ × ℕ
  pub incremental_scheduler_tick_minutes : ℕ
  pub incremental_query_lease_minutes : ℕ
  pub incremental_max_new_starts_per_cycle : ℕ
  pub incremental_event_retention_days : ℕ
  pub incremental_source_breaker_failures : ℕ
  pub incremental_source_breaker_cooldown_minutes : ℕ
  pub zillow_incremental_interval_minutes : ℕ
  pub incremental_canary_telegram_ids : List ℕ
  pub incremental_monthly_budget_usd : Option ℕ
  pub operator_alert_telegram_id : Option ℕ
  pub seen_retention_days : ℕ

-- `source_request_budget`, of a source that is stripped and in lower case already.
unfoldable pub source_request_budget : Settings → String → ℕ
source_request_budget s source =
    elim (find_where (λ b. str_eq b.0 source) s.source_daily_request_budgets) [
      | none ↦ s.per_source_daily_request_budget
      | some b ↦ b.1
    ]
