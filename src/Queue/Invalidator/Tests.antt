-- ===== src/Queue/Invalidator/Tests.antt =====
-- Runs of the debounced invalidator, and its laws at them.
use affiliate_platform_api.Prelude.{All, List, [], false, true, none, some, refl, ◌≡◌, ◌∷◌, ◌||◌}
use affiliate_platform_api.Workspace.{normalize_workspace_id, workspace_scoped_query_key}
use affiliate_platform_api.Queue.Types.{QueueEventEnvelope, is_queue_event_name}
use affiliate_platform_api.Queue.Keys.{NoRepeat, has_key, queue_attempts_key, queue_key}
use affiliate_platform_api.Queue.Events.{keys_of_event, query_keys_for_queue_event}
use affiliate_platform_api.Queue.Invalidator.{
  Action, act, create, event_arrives, flush, flushed, handle, handle_keys, run,
}
use affiliate_platform_api.Queue.Invalidator.Laws.{
  IsTimed, asked, create-IsTimed, invalidated, run-IsTimed, run_keeps,
}

abbrev failed_attempt : QueueEventEnvelope
failed_attempt = record {
  event = some "queue.attempt_failed";
  version = 1;
  id = "e1";
  occurred_at = "2026-01-01T00:00:00Z";
  workspace_id = none;
  queue_id = some "q1";
}

-- The second event replaces the timeout of the first; a flush leaves the timeout of the second.
abbrev burst : List Action
burst =
    event_arrives (some "w1") (some failed_attempt)
    ∷ event_arrives (some "w1") (some failed_attempt)
    ∷ flushed
    ∷ []

burst-run : run true burst create ≡ (
  record { pending = []; timer = none; timeouts = 2 ∷ []; next_timeout = 3; disposed = false },
  [] ∷ [] ∷ (queue_key "w1" ∷ queue_attempts_key "w1" "q1" ∷ []) ∷ [],
)
unfolding run act handle handle_keys flush create query_keys_for_queue_event keys_of_event queue_key
    queue_attempts_key workspace_scoped_query_key is_queue_event_name normalize_workspace_id
burst-run = refl

run_keeps_example :
    (invalidated (run true burst create).1 (queue_key "w1")
      || has_key (run true burst create).0.pending (queue_key "w1"))
    ≡ (has_key create.pending (queue_key "w1") || asked burst (queue_key "w1"))
unfolding create
run_keeps_example = run_keeps true burst create (queue_key "w1") refl

run-IsTimed_example : All NoRepeat (run true burst create).1 × IsTimed (run true burst create).0
run-IsTimed_example = run-IsTimed burst create create-IsTimed
