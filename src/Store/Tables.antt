-- ===== src/Store/Tables.antt =====
-- The tables of internal/db/migrations, one row type for each, and the database: lists of rows in
-- insertion order. Instants are nanoseconds from a fixed origin, calendar dates are days.
-- The columns that no query reads (`sort_injected`, `users.settings`, `onboarded_at`, `first_seen_at`,
-- `updated_at`, `created_at` of users and searches) are left out.
use property_search.Prelude.{ℕ, Text, Bool, Option, none, List, []}
use property_search.Model.{Float, Snapshot}

-- `users.state`: the five values that the program writes, and any other text.
pub data State : Type 0 where
  idle await_url await_label ready stopped : State
  other : Text → State

-- `search_urls.validation_status`, likewise.
pub data Validation : Type 0 where
  pending retrying valid valid_empty invalid failed : Validation
  other : Text → Validation

-- `deliveries.status`
pub data DeliveryStatus : Type 0 where
  sent baseline rated : DeliveryStatus

-- `digests.status`
pub data RunStatus : Type 0 where
  pending running done error : RunStatus

pub record UserRow : Type 0 where
  pub user_id : ℕ
  pub chat_id : ℕ
  pub state : State
  pub state_data : List (Text × Text)
  pub active : Bool
  pub active_model_version : ℕ

pub record SearchRow : Type 0 where
  pub id : ℕ
  pub user_id : ℕ
  pub label : Text
  pub url : Text
  pub url_norm : Text
  pub validation_status : Validation
  pub attempts : ℕ
  pub next_check_at : Option ℕ
  pub last_fetch_status : Option ℕ
  pub last_card_count : Option ℕ
  pub last_checked_at : Option ℕ

pub record ListingRow : Type 0 where
  pub id : ℕ
  pub zonaprop_id : Text
  pub canonical_url : Text
  pub operation_type : Option Text
  pub currency : Option Text
  pub features : Snapshot
  pub recency_rank : Option ℕ
  pub first_indexed_at : ℕ
  pub last_indexed_at : ℕ

pub record SourceRow : Type 0 where
  pub listing_id : ℕ
  pub search_url_id : ℕ

pub record DeliveryRow : Type 0 where
  pub user_id : ℕ
  pub listing_id : ℕ
  pub message_id : Option ℕ
  pub position : Option ℕ
  pub score : Option Float
  pub model_version : ℕ
  pub features : Snapshot
  pub status : DeliveryStatus
  pub attempts : ℕ
  pub sent_at : Option ℕ

pub record RatingRow : Type 0 where
  pub user_id : ℕ
  pub listing_id : ℕ
  pub label : ℕ
  pub created_at : ℕ

pub record WeightsRow : Type 0 where
  pub user_id : ℕ
  pub feature : Text
  pub value : Text
  pub ups : ℕ
  pub downs : ℕ
  pub model_version : ℕ

pub record DigestRow : Type 0 where
  pub user_id : ℕ
  pub run_date : ℕ
  pub status : RunStatus
  pub started_at : Option ℕ
  pub finished_at : Option ℕ
  pub sent : ℕ
  pub error : Option Text

pub record ContactRow : Type 0 where
  pub listing_id : ℕ
  pub phone : Option Text
  pub email : Option Text
  pub street_address : Option Text
  pub neighbourhood : Option Text
  pub fetched_at : ℕ

pub record BotState : Type 0 where
  pub last_update_id : ℕ
  pub poll_lease_holder : Option Text
  pub poll_lease_expires_at : Option ℕ

pub record SettingRow : Type 0 where
  pub key : Text
  pub value : Text

-- `next_search_id` and `next_listing_id` are the sequences behind the BIGSERIAL keys.
pub record Db : Type 0 where
  pub users : List UserRow
  pub search_urls : List SearchRow
  pub listings : List ListingRow
  pub listing_sources : List SourceRow
  pub deliveries : List DeliveryRow
  pub ratings : List RatingRow
  pub model_weights : List WeightsRow
  pub digests : List DigestRow
  pub listing_contacts : List ContactRow
  pub bot_state : BotState
  pub settings : List SettingRow
  pub next_search_id : ℕ
  pub next_listing_id : ℕ

-- The database after the migrations.
abbrev pub empty_db : Db
empty_db = record {
  users = [];
  search_urls = [];
  listings = [];
  listing_sources = [];
  deliveries = [];
  ratings = [];
  model_weights = [];
  digests = [];
  listing_contacts = [];
  bot_state = record { last_update_id = 0; poll_lease_holder = none; poll_lease_expires_at = none };
  settings = [];
  next_search_id = 1;
  next_listing_id = 1;
}
