-- ===== src/Queue/Types.antt =====
-- frontend/src/features/queue/types/api.ts and types/events.ts: the posts, their attempts, the
-- realtime envelope. A time is the text that the server sends.
use affiliate_platform_api.Prelude.{Bool, Option, String, includes, ℕ, ◌∷◌, []}

pub data QueueStatus : Type 0 where
  draft queued scheduled published failed : QueueStatus

pub QueueStatus-discrete : Discrete QueueStatus
QueueStatus-discrete = hlevel

abbrev pub status_text : QueueStatus → String
status_text draft = "draft"
status_text queued = "queued"
status_text scheduled = "scheduled"
status_text published = "published"
status_text failed = "failed"

-- `status` of an attempt is any text; "failed" is the one that the client looks for.
pub record QueuePublishAttempt : Type 0 where
  pub attempt_number : ℕ
  pub status : String
  pub provider : String
  pub occurred_at : String
  pub error_code : Option String
  pub error_message : Option String

-- `last_attempt` and `failure_reason` are null or undefined alike: every reader treats them so.
pub record QueueItem : Type 0 where
  pub id : String
  pub title : Option String
  pub content : String
  pub status : QueueStatus
  pub scheduled_at : Option String
  pub published_at : Option String
  pub channel_id : Option String
  pub product_id : Option String
  pub image_url : Option String
  pub button_text : Option String
  pub button_url : Option String
  pub created_at : String
  pub updated_at : String
  pub last_attempt : Option QueuePublishAttempt
  pub failure_reason : Option String
  pub retry_count : ℕ

-- `QueueUpdate`, as far as the client fills it in: a field that is left out is `none`.
pub record QueueUpdate : Type 0 where
  pub status : Option QueueStatus
  pub scheduled_at : Option String
  pub channel_id : Option String

pub data QueueHealthStatus : Type 0 where
  ready missing_schedule missing_channel publishing published error : QueueHealthStatus

pub data QueueWorkspaceSort : Type 0 where
  newest oldest schedule_asc schedule_desc status : QueueWorkspaceSort

pub record QueuePublishFailure : Type 0 where
  pub message : String
  pub occurred_at : String

-- `QUEUE_EVENT_NAMES`
abbrev pub status_changed : String
status_changed = "queue.status_changed"

abbrev pub deleted : String
deleted = "queue.deleted"

abbrev pub attempt_started : String
attempt_started = "queue.attempt_started"

abbrev pub attempt_succeeded : String
attempt_succeeded = "queue.attempt_succeeded"

abbrev pub attempt_failed : String
attempt_failed = "queue.attempt_failed"

-- An envelope off the wire: `event` is `none` where it is no text, `queue_id` and `workspace_id`
-- where they are null or missing.
pub record QueueEventEnvelope : Type 0 where
  pub event : Option String
  pub version : ℕ
  pub id : String
  pub occurred_at : String
  pub workspace_id : Option String
  pub queue_id : Option String

unfoldable pub is_queue_event_name : String → Bool
is_queue_event_name value =
    includes (status_changed ∷ deleted ∷ attempt_started ∷ attempt_succeeded ∷ attempt_failed ∷ [])
      value
