-- ===== src/Queue/Operations.antt =====
-- frontend/src/features/queue/lib/operations.ts and lib/retry.ts: what the list of posts shows of
-- each post. The clock and the calendar of the runtime are parameters. The Arabic texts stand here
-- in English.
pub mod Laws
mod Tests
use affiliate_platform_api.Prelude.{
  Bool, Dict, List, Option, String, [], arith, false, get, if◌then◌else◌, is_some, length, none,
  nonempty, not, or_else, get_or, refl, select, some, true, ℕ, ◌+◌, ◌==◌, ◌&&◌, ◌||◌, ◌≤◌, ◌≡◌, ◌∷◌,
  ◌↔◌, ◌⊎◌, inl, inr, Bool-cases, ◌≢◌, subst, sym, ◌∙◌, length-select, length-select-cons, one_if,
}
use affiliate_platform_api.Queue.Types.{
  QueueHealthStatus, QueueItem, QueuePublishAttempt, QueuePublishFailure, QueueStatus, QueueUpdate,
  draft, error, failed, missing_channel, missing_schedule, publishing, published, queued, ready,
  scheduled,
}

abbrev pub is_status : QueueStatus → QueueStatus → Bool
is_status draft draft = true
is_status queued queued = true
is_status scheduled scheduled = true
is_status published published = true
is_status failed failed = true
is_status _ _ = false

abbrev pub failed_publishing : String
failed_publishing = "Publishing failed"

-- The failure of an item without a failed attempt.
abbrev pub failure_of_reason : Option String → String → Option QueuePublishFailure
failure_of_reason none occurred_at = none
failure_of_reason (some reason) occurred_at =
    some (record { message = reason; occurred_at = occurred_at })

abbrev pub failure_of_attempt : QueueItem → Option QueuePublishAttempt → Option QueuePublishFailure
failure_of_attempt item none = failure_of_reason (nonempty item.failure_reason) item.updated_at
failure_of_attempt item (some attempt) =
    if attempt.status == "failed"
    then some (record {
      message = get_or (or_else item.failure_reason attempt.error_message) failed_publishing;
      occurred_at = attempt.occurred_at;
    })
    else failure_of_reason (nonempty item.failure_reason) attempt.occurred_at

unfoldable pub failure_from_queue_item : QueueItem → Option QueuePublishFailure
failure_from_queue_item item = failure_of_attempt item item.last_attempt

unfoldable pub resolve_queue_failure :
    QueueItem → Option QueuePublishFailure → Option QueuePublishFailure
unfolding failure_from_queue_item
resolve_queue_failure item client_fallback = or_else (failure_from_queue_item item) client_fallback

-- `getQueueHealth`; `has_failure` is `Boolean(context.failure)`.
abbrev pub health_of : QueueStatus → Bool → Bool → Option String → Option String → QueueHealthStatus
health_of published _ _ _ _ = published
health_of failed _ _ _ _ = error
health_of status in_flight has_failure channel_id scheduled_at =
    if in_flight
    then publishing
    else if has_failure
    then error
    else if not (is_some (nonempty channel_id))
    then missing_channel
    else if is_status status draft
        || (is_status status scheduled && not (is_some (nonempty scheduled_at)))
    then missing_schedule
    else ready

unfoldable pub get_queue_health : QueueItem → Bool → Option QueuePublishFailure → QueueHealthStatus
get_queue_health item in_flight failure =
    health_of item.status in_flight (is_some failure) item.channel_id item.scheduled_at

pub record OperationalStats : Type 0 where
  pub queued : ℕ
  pub scheduled : ℕ
  pub publishing : ℕ
  pub published_today : ℕ
  pub failed_today : ℕ

abbrev pub or_updated_at : QueueItem → Option QueuePublishFailure → Option String
or_updated_at item none = if is_status item.status failed then some item.updated_at else none
or_updated_at item (some failure) = some failure.occurred_at

module _ (falls_on_today : String → Bool) where
  abbrev pub is_today : Option String → Bool
  is_today none = false
  is_today (some value) = not (value == "") && falls_on_today value

  abbrev pub failed_today : Dict QueuePublishFailure → QueueItem → Bool
  failed_today client_failures item =
      let failure : Option QueuePublishFailure =
        resolve_queue_failure item (get item.id client_failures) in
      (is_status item.status failed || is_some failure) && is_today (or_updated_at item failure)

  abbrev pub published_today : QueueItem → Bool
  published_today item = is_status item.status published && is_today item.published_at

  unfoldable pub get_queue_operational_stats :
      List QueueItem → ℕ → Dict QueuePublishFailure → OperationalStats
  get_queue_operational_stats items publishing_ids client_failures = record {
    queued = length (select (λ item. is_status item.status queued) items);
    scheduled = length (select (λ item. is_status item.status scheduled) items);
    publishing = publishing_ids;
    published_today = length (select published_today items);
    failed_today = length (select (failed_today client_failures) items);
  }

-- `nextStatusAfterFailedRetry`; `is_future` is `new Date(value).getTime() > Date.now()`.
abbrev pub retry_update : (String → Bool) → Option String → QueueUpdate
retry_update is_future none = record {
  status = some queued;
  scheduled_at = none;
  channel_id = none;
}
retry_update is_future (some value) =
    if is_future value
    then record { status = some scheduled; scheduled_at = some value; channel_id = none }
    else record { status = some queued; scheduled_at = none; channel_id = none }

unfoldable pub next_status_after_failed_retry : (String → Bool) → QueueItem → QueueUpdate
next_status_after_failed_retry is_future item = retry_update is_future (nonempty item.scheduled_at)

abbrev pub attempt_label : String → String
attempt_label status =
    if status == "started"
    then "Started"
    else if status == "succeeded"
    then "Succeeded"
    else if status == "failed"
    then "Failed"
    else status

-- The days and hours of a calendar, as `formatQueueSchedule` writes them.
pub record Calendar : Type 0 where
  pub on_today : String → Bool
  pub on_tomorrow : String → Bool
  pub short_date : String → String
  pub short_time : String → String

unfoldable pub format_queue_schedule : Calendar → QueueItem → String × Option String
format_queue_schedule calendar item =
    elim (nonempty (or_else item.scheduled_at item.published_at)) [
      | none ↦ ("Not scheduled", none)
      | some value ↦ (
        if calendar.on_today value
            then "Today"
            else if calendar.on_tomorrow value
            then "Tomorrow"
            else calendar.short_date value,
        some (calendar.short_time value),
      )
    ]
