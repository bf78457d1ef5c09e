-- ===== src/Queue/Realtime/Tests.antt =====
-- A live session that is lost and found again, twice.
use affiliate_platform_api.Prelude.{
  ℕ, none, not, ◌&&◌, List, [], false, true, some, refl, ◌≡◌, ◌∷◌, length,
}
use affiliate_platform_api.Queue.Stream.{
  Event, Options, Stream, answered, fetching, raw_message, run, step, streaming,
}
use affiliate_platform_api.Queue.Realtime.Status.{
  garbled, is_connected, is_streaming, status-Agrees, status_after,
}
use affiliate_platform_api.Queue.Realtime.{
  on_stream_effect, QueueEventStreamStatus, Realtime, connected, connecting, disconnected,
  on_status, on_statuses,
}

abbrev first_sight : Realtime
first_sight = record {
  saw_connecting = true;
  established = false;
  polling_enabled = false;
  refetched = [];
}

abbrev flaky : List QueueEventStreamStatus
flaky =
    connected ∷ disconnected ∷ connecting ∷ connected ∷ disconnected ∷ connecting ∷ connected ∷ []

flaky_refetched : length (on_statuses flaky true (some "w") first_sight).refetched ≡ 2
unfolding on_statuses on_status
flaky_refetched = refl

abbrev settings : Options
settings = record {
  token = "t";
  workspace_id = "w";
  initial_backoff_ms = 1000;
  max_backoff_ms = 30000;
}

abbrev asking : Stream
asking = record {
  phase = fetching;
  aborted = false;
  last_event_id = "";
  consecutive_failures = 0;
  server_retry_ms = none;
}

-- The stream opens, and an event that cannot be read arrives.
abbrev unreadable : List (Event × ℕ)
unreadable = (answered 200 true, 0) ∷ (raw_message "7" "{" none, 0) ∷ []

unreadable-run :
    (status_after connecting (run settings unreadable asking).1 ≡ disconnected)
    × ((run settings unreadable asking).0.phase ≡ streaming)
unfolding run step on_stream_effect
unreadable-run = (refl, refl)

status-Agrees_example :
    is_connected (status_after connecting (run settings unreadable asking).1) ≡ (
      is_streaming (run settings unreadable asking).0.phase
      && not (garbled false (run settings unreadable asking).1))
status-Agrees_example = status-Agrees settings unreadable asking connecting false refl refl refl
