-- ===== src/Queue/Operations/Tests.antt =====
-- A failed post with a time in the future, and the laws at it.
use affiliate_platform_api.Prelude.{[], ◌∷◌, Bool, String, false, none, refl, some, true, ◌==◌, ◌≡◌}
use affiliate_platform_api.Queue.Types.{QueueItem, failed}
use affiliate_platform_api.Queue.Operations.{
  get_queue_operational_stats, resolve_queue_failure, attempt_label, failure_from_queue_item,
  format_queue_schedule,
}

abbrev pub broken : QueueItem
broken = record {
  id = "q1";
  title = some "Lamp";
  content = "A lamp";
  status = failed;
  scheduled_at = some "2030-01-01";
  published_at = none;
  channel_id = some "c1";
  product_id = none;
  image_url = none;
  button_text = none;
  button_url = none;
  created_at = "2026-01-01";
  updated_at = "2026-01-02";
  last_attempt = some (record {
    attempt_number = 1;
    status = "failed";
    provider = "telegram";
    occurred_at = "2026-01-02";
    error_code = none;
    error_message = none;
  });
  failure_reason = none;
  retry_count = 1;
}

broken_failure :
    failure_from_queue_item broken
    ≡ some (record { message = "Publishing failed"; occurred_at = "2026-01-02" })
unfolding failure_from_queue_item
broken_failure = refl

broken_time :
    (format_queue_schedule
      (record {
        on_today = λ s. false;
        on_tomorrow = λ s. true;
        short_date = λ s. s;
        short_time = λ s. s;
      })
      broken).0
    ≡ "Tomorrow"
unfolding format_queue_schedule
broken_time = refl

label_of_other : attempt_label "skipped" ≡ "skipped"
label_of_other = refl

abbrev on_that_day : String → Bool
on_that_day s = s == "2026-01-02"

-- The failed attempt counts on its day.
broken_count : (get_queue_operational_stats on_that_day (broken ∷ []) 2 []).failed_today ≡ 1
unfolding get_queue_operational_stats resolve_queue_failure failure_from_queue_item
broken_count = refl
