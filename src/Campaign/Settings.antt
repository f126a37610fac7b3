-- ===== src/Campaign/Settings.antt =====
-- app/domain/campaign.py: `CampaignSettings` and its validators. A time of day is in microseconds.
-- `bulk_approve_min_confidence` (a float that only the dashboard reads) is left out.
pub mod Valid
use outreach_automation.Prelude.{
  ℕ, ◌+◌, ◌-◌, ◌*◌, ◌/◌, Bool, true, false, not, ◌&&◌, List, [], ◌∷◌, Option, none, some, String,
  elem, all, length, ltb, leb, if◌then◌else◌,
}
use outreach_automation.Time.{weekday, second}

pub data ApprovalMode : Type 0 where
  review_all auto_send_if_confidence : ApprovalMode

pub data SearchPolicy : Type 0 where
  never when_thin always : SearchPolicy

pub data ThinResearchPolicy : Type 0 where
  review_flag skip : ThinResearchPolicy

pub record CampaignSettings : Type 0 where
  pub timezone : String
  pub send_days : List ℕ
  pub window_start : ℕ
  pub window_end : ℕ
  pub holidays : List ℕ
  pub daily_cap : ℕ
  pub followup_after_days : ℕ
  pub max_followups : ℕ
  pub final_wait_days : ℕ
  pub followup_max_delay_days : ℕ
  pub attach_initial : Bool
  pub attach_followups : Bool
  pub approval_mode : ApprovalMode
  pub search_policy : SearchPolicy
  pub thin_research_policy : ThinResearchPolicy
  pub regen_attempts_max : ℕ

abbrev pub default_settings : CampaignSettings
default_settings = record {
  timezone = "Asia/Kolkata";
  send_days = 0 ∷ 1 ∷ 2 ∷ 3 ∷ 4 ∷ [];
  window_start = 36000000000;
  window_end = 63000000000;
  holidays = [];
  daily_cap = 100;
  followup_after_days = 3;
  max_followups = 1;
  final_wait_days = 5;
  followup_max_delay_days = 3;
  attach_initial = true;
  attach_followups = false;
  approval_mode = review_all;
  search_policy = when_thin;
  thin_research_policy = review_flag;
  regen_attempts_max = 3;
}

between : ℕ → ℕ → ℕ → Bool
between lo hi n = leb lo n && leb n hi

-- `sorted(set(v))`: insertion into a list in strictly ascending order.
insert_day : ℕ → List ℕ → List ℕ
insert_day d [] = d ∷ []
insert_day d (x ∷ xs) =
    if ltb d x then d ∷ x ∷ xs else if ltb x d then x ∷ insert_day d xs else x ∷ xs

unfoldable pub sorted_days : List ℕ → List ℕ
unfolding insert_day
sorted_days [] = []
sorted_days (d ∷ ds) = insert_day d (sorted_days ds)

-- The bounds that the fields declare.
unfoldable pub in_bounds : CampaignSettings → Bool
unfolding between
in_bounds s =
    all (λ d. leb d 6) s.send_days
    && leb (length s.holidays) 100
    && between 1 2000 s.daily_cap
    && between 1 60 s.followup_after_days
    && between 0 5 s.max_followups
    && between 1 90 s.final_wait_days
    && between 1 30 s.followup_max_delay_days
    && between 1 10 s.regen_attempts_max

pub data Invalid : Type 0 where
  out_of_bounds unknown_timezone no_send_days empty_window auto_send : Invalid

pub data Validated : Type 0 where
  valid : CampaignSettings → Validated
  invalid : Invalid → Validated

unfoldable pub is_review_all : ApprovalMode → Bool
is_review_all review_all = true
is_review_all auto_send_if_confidence = false

unfoldable pub is_empty : List ℕ → Bool
is_empty [] = true
is_empty (d ∷ ds) = false

-- `model_validate` on settings already of the right types: the fields' bounds, the field
-- validators, then the model validators; the model names the first error, where the source lists
-- those of all the fields. `zone_exists` is the lookup in the zone database.
unfoldable pub validate : (String → Bool) → CampaignSettings → Validated
validate zone_exists s =
    let s' : CampaignSettings = record s { send_days = sorted_days s.send_days } in
    if not (in_bounds s)
    then invalid out_of_bounds
    else if not (zone_exists s.timezone)
    then invalid unknown_timezone
    else if is_empty s.send_days
    then invalid no_send_days
    else if leb s.window_end s.window_start
    then invalid empty_window
    else if is_review_all s.approval_mode
    then valid s'
    else invalid auto_send

-- The seconds of a time of day are dropped, as the source drops them.
unfoldable pub window_seconds : CampaignSettings → ℕ
window_seconds s =
    let start = s.window_start / 60000000 * 60 in
    let stop = s.window_end / 60000000 * 60 in stop - start

unfoldable pub is_send_day : ℕ → CampaignSettings → Bool
is_send_day date s = elem (weekday date) s.send_days && not (elem date s.holidays)
