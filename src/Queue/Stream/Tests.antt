-- ===== src/Queue/Stream/Tests.antt =====
-- A stream that is refused once, opens, delivers an id, and is interrupted; and a refused login.
use affiliate_platform_api.Prelude.{List, [], false, true, none, some, refl, ℕ, ◌≡◌, ◌∷◌, nonempty}
use Prim.Native.String
use affiliate_platform_api.Queue.Stream.{
  Event, Options, Stream, answered, body_ends, compute_reconnect_delay_ms, done, fetched, fetching,
  id_received, run, sleep_ends, step, streaming,
}
use affiliate_platform_api.Queue.Stream.Laws.{failures_after, run-failures_after}
use affiliate_platform_api.Queue.Stream.Requests.{run-fatal}
use affiliate_platform_api.Queue.Stream.Resume.{
  Part, id_line, last_id, message_end, part_events, reopened, resume-last_id, retry_line,
}

abbrev options : Options
options = record {
  token = "t";
  workspace_id = "w";
  initial_backoff_ms = 1000;
  max_backoff_ms = 30000;
}

abbrev asking : Stream
asking = record {
  phase = fetching;
  aborted = false;
  last_event_id = "";
  consecutive_failures = 0;
  server_retry_ms = none;
}

abbrev bumpy : List (Event × ℕ)
bumpy =
    (answered 500 true, 250)
    ∷ (sleep_ends, 0)
    ∷ (answered 200 true, 0)
    ∷ (id_received "7", 0)
    ∷ (body_ends, 500)
    ∷ []

run-failures_after_example :
    (run options bumpy asking).0.consecutive_failures
    ≡ failures_after 0 (run options bumpy asking).1
run-failures_after_example = run-failures_after options bumpy asking

bumpy-run : (run options bumpy asking).0.consecutive_failures ≡ 1
unfolding run step compute_reconnect_delay_ms
bumpy-run = refl

late_delay : compute_reconnect_delay_ms 5 1000 30000 500 ≡ 30000
unfolding compute_reconnect_delay_ms
late_delay = refl

abbrev turned_away : List (Event × ℕ)
turned_away = (answered 401 true, 0) ∷ []

run-fatal_example :
    ((run options turned_away asking).0.phase ≡ done)
    × ((run options bumpy (run options turned_away asking).0).1 ≡ [])
unfolding run step
run-fatal_example = run-fatal options turned_away bumpy asking refl

abbrev reading : Stream
reading = record asking { phase = streaming }

abbrev parts : List Part
parts = id_line "7" ∷ retry_line 2000 ∷ id_line "8" ∷ message_end "" none ∷ id_line "" ∷ []

resume-last_id_example :
    reopened options 10 20 (run options (part_events "" parts) reading).0
    ≡ fetched (record {
      authorization = String.◌++◌ "Bearer " options.token;
      workspace = options.workspace_id;
      last_event_id = nonempty (some (last_id "" parts));
    })
      ∷ []
resume-last_id_example =
    resume-last_id options parts 10 20 reading ""
      (record { phase = refl; going = refl; remembered = refl; failures = refl })
