-- ===== src/Db.antt =====
-- app/db/models.py: the rows that the modelled code reads and writes, and the tables of a database.
-- An id is a number; a text whose characters the code looks at is a list of code points; a JSON
-- column is a list of named values. Columns that no modelled function uses are left out.
pub mod Table
pub mod Unique
use outreach_automation.Prelude.{ℕ, Bool, true, false, List, [], Option, String, ◌==◌, ◌&&◌}
use outreach_automation.Lead.State.{LeadState}
use outreach_automation.Campaign.Settings.{CampaignSettings}
use outreach_automation.Campaign.Status.{CampaignStatus}

pub data Value : Type 0 where
  id : ℕ → Value
  number : ℕ → Value
  text : String → Value
  chars : List ℕ → Value
  flag : Bool → Value
  state : LeadState → Value
  null : Value

abbrev pub Json : Type 0
Json = List (String × Value)

pub record Lead : Type 0 where
  pub id : ℕ
  pub org_id : ℕ
  pub campaign_id : ℕ
  pub email_norm : List ℕ
  pub state : LeadState
  pub state_changed_at : ℕ
  pub followups_sent : ℕ
  pub next_action_at : Option ℕ
  pub last_message_at : Option ℕ
  pub flags : List String
  pub paused : Bool
  pub mailbox_id : Option ℕ
  pub created_at : ℕ

pub data Actor : Type 0 where
  user system llm : Actor

pub record Event : Type 0 where
  pub org_id : ℕ
  pub campaign_id : Option ℕ
  pub lead_id : Option ℕ
  pub actor : Actor
  pub actor_id : Option String
  pub type : String
  pub from_state : Option LeadState
  pub to_state : Option LeadState
  pub data_ : Json

-- The part of a persona that signs an e-mail.
pub record Persona : Type 0 where
  pub sender_name : List ℕ
  pub agency_name : List ℕ
  pub agency_url : Option (List ℕ)
  pub postal_address : Option (List ℕ)

-- `settings` and `persona` are `none` where the stored JSON does not validate.
pub record Campaign : Type 0 where
  pub id : ℕ
  pub org_id : ℕ
  pub mailbox_id : Option ℕ
  pub status : CampaignStatus
  pub settings : Option CampaignSettings
  pub persona : Option Persona
  pub paused : Bool
  pub starts_at : Option ℕ
  pub ends_at : Option ℕ
  pub created_at : ℕ

pub record Mailbox : Type 0 where
  pub id : ℕ
  pub org_id : ℕ
  pub from_email : List ℕ
  pub paused : Bool
  pub pause_reason : Option (List ℕ)
  pub from_name : List ℕ
  pub reply_to : Option (List ℕ)
  pub daily_cap : ℕ
  pub warmup_started_on : Option ℕ
  pub warmup_start : ℕ
  pub warmup_step : ℕ
  pub warmup_step_days : ℕ
  pub next_send_at : Option ℕ
  pub created_at : ℕ

pub record Org : Type 0 where
  pub id : ℕ
  pub paused : Bool

-- A mailbox that a campaign may send from besides its own.
pub record CampaignMailbox : Type 0 where
  pub org_id : ℕ
  pub campaign_id : ℕ
  pub mailbox_id : ℕ
  pub weight : ℕ

pub data Direction : Type 0 where
  outbound inbound : Direction

pub data MessageKind : Type 0 where
  initial followup reply : MessageKind

pub data MessageStatus : Type 0 where
  sending sent failed unknown received : MessageStatus

-- `idempotency_key` is the text `lead_id:kind:sequence`, kept as its three parts.
pub record Message : Type 0 where
  pub id : ℕ
  pub org_id : ℕ
  pub lead_id : Option ℕ
  pub mailbox_id : Option ℕ
  pub draft_id : Option ℕ
  pub direction : Direction
  pub kind : MessageKind
  pub message_id_hdr : Option (List ℕ)
  pub in_reply_to : Option (List ℕ)
  pub references_hdr : Option (List ℕ)
  pub subject : Option (List ℕ)
  pub body_text : Option (List ℕ)
  pub from_addr : Option (List ℕ)
  pub to_addr : Option (List ℕ)
  pub status : MessageStatus
  pub idempotency_key : Option (ℕ × MessageKind × ℕ)
  pub smtp_response : Option (List ℕ)
  pub sent_at : Option ℕ
  pub received_at : Option ℕ
  pub created_at : ℕ

pub data JobKind : Type 0 where
  enrich_lead research_lead draft_lead draft_followup validate_draft classify_reply : JobKind
  draft_reply send_message poll_ats_feed tailor_resume render_resume_pdf : JobKind

pub data JobStatus : Type 0 where
  queued running succeeded dead cancelled : JobStatus

-- A dedupe key is a text such as `followup:lead:number`, kept as its prefix and its numbers.
pub record Key : Type 0 where
  pub prefix : String
  pub parts : List ℕ

pub record Job : Type 0 where
  pub id : ℕ
  pub org_id : ℕ
  pub kind : JobKind
  pub lead_id : Option ℕ
  pub payload : Json
  pub status : JobStatus
  pub priority : ℕ
  pub run_after : ℕ
  pub attempts : ℕ
  pub max_attempts : ℕ
  pub locked_by : Option ℕ
  pub locked_until : Option ℕ
  pub last_error : Option (List ℕ)
  pub dedupe_key : Option Key
  pub created_at : ℕ
  pub finished_at : Option ℕ

pub data SuppressionKind : Type 0 where
  email domain email_hash : SuppressionKind

pub data SuppressionReason : Type 0 where
  opt_out bounce manual complaint : SuppressionReason

pub record Suppression : Type 0 where
  pub org_id : ℕ
  pub kind : SuppressionKind
  pub value : List ℕ
  pub reason : SuppressionReason
  pub source_message_id : Option ℕ

pub data DraftStatus : Type 0 where
  generated validated validation_failed pending_review approved rejected superseded sent :
      DraftStatus

-- One assertion of a draft, and the evidence it names.
pub record DraftClaim : Type 0 where
  pub text : List ℕ
  pub evidence_ref : List ℕ

-- The `validation` of a draft: what `DraftResult.validation_payload` stores, and the mark of an
-- edit, which is `false` where the key is missing.
pub record Checks : Type 0 where
  pub attempts : ℕ
  pub prompt_version : String
  pub claims_checked : Bool
  pub passed : Bool
  pub failures : List (List ℕ)
  pub warnings : List (List ℕ)
  pub rejected_attempts : List (List (List ℕ) × Option (List ℕ))
  pub human_edited : Bool

pub record Draft : Type 0 where
  pub id : ℕ
  pub org_id : ℕ
  pub lead_id : ℕ
  pub kind : MessageKind
  pub version : ℕ
  pub subject : List ℕ
  pub body : List ℕ
  pub claims : List DraftClaim
  pub validation : Checks
  pub status : DraftStatus
  pub feedback : Option (List ℕ)
  pub prompt_version : Option String
  pub attach : Option Bool
  pub derived_from_id : Option ℕ
  pub created_by : Option String
  pub approved_by : Option String
  pub approved_at : Option ℕ
  pub created_at : ℕ

-- A confidence, which the source keeps as a float, is a number in some unit.
pub record Research : Type 0 where
  pub lead_id : ℕ
  pub hooks : List Json
  pub confidence : ℕ
  pub thin : Bool

pub record Attachment : Type 0 where
  pub org_id : ℕ
  pub campaign_id : ℕ
  pub filename : List ℕ

pub record Db : Type 0 where
  pub leads : List Lead
  pub events : List Event
  pub campaigns : List Campaign
  pub mailboxes : List Mailbox
  pub messages : List Message
  pub jobs : List Job
  pub suppressions : List Suppression
  pub drafts : List Draft
  pub researches : List Research
  pub attachments : List Attachment
  pub orgs : List Org
  pub campaign_mailboxes : List CampaignMailbox
