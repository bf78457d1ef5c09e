-- ===== src/Queue/Stream.antt =====
-- `createQueueEventStream` of frontend/src/features/queue/lib/sse-client.ts: the loop that keeps the
-- stream of queue events open. Each `await` is a phase, and what ends it is an event: the sleep is
-- over, the server answers, the body ends, something is thrown. The parser of the wire format, which
-- is third-party code, is seen through its three callbacks. `jitter` is
-- `Math.round(random() * initialMs)`: its addend in the source is a whole number, so that rounding
-- the sum is rounding the jitter. The Arabic messages stand here in English.
pub mod Outcomes
pub mod Laws
pub mod Requests
pub mod Resume
mod Tests
use Prim.Native.String
use affiliate_platform_api.Prelude.{
  Bool, List, Option, String, [], false, if◌then◌else◌, min, none, not, some, true, truthy, ℕ, ◌+◌,
  ◌*◌, ◌^◌, ◌++◌, ◌-◌, ◌=?◌, ◌==◌, ◌||◌, ◌&&◌, leb, ◌∷◌, zero, suc, get_or, nonempty,
}
use affiliate_platform_api.Workspace.{is_usable_workspace_id}
use affiliate_platform_api.Queue.Types.{QueueEventEnvelope}

pub data QueueSseErrorKind : Type 0 where
  auth network server abort parse : QueueSseErrorKind

pub record QueueSseError : Type 0 where
  pub kind : QueueSseErrorKind
  pub message : String
  pub status : Option ℕ
  pub fatal : Bool

abbrev pub default_initial_backoff_ms : ℕ
default_initial_backoff_ms = 1000

abbrev pub default_max_backoff_ms : ℕ
default_max_backoff_ms = 30000

unfoldable pub compute_reconnect_delay_ms : ℕ → ℕ → ℕ → ℕ → ℕ
compute_reconnect_delay_ms attempt_index initial_ms max_ms jitter =
    min (min (initial_ms * 2 ^ attempt_index) max_ms + jitter) max_ms

-- `workspace_id` is a usable one: the function returns at once for any other.
pub record Options : Type 0 where
  pub token : String
  pub workspace_id : String
  pub initial_backoff_ms : ℕ
  pub max_backoff_ms : ℕ

-- The headers of the request that opens the stream.
pub record StreamHeaders : Type 0 where
  pub authorization : String
  pub workspace : String
  pub last_event_id : Option String

pub data Effect : Type 0 where
  opened : Effect
  delivered : QueueEventEnvelope → Effect
  errored : QueueSseError → Effect
  reconnecting : ℕ → ℕ → Effect
  fetched : StreamHeaders → Effect

pub data Phase : Type 0 where
  sleeping fetching streaming done : Phase

pub record Stream : Type 0 where
  pub phase : Phase
  pub aborted : Bool
  pub last_event_id : String
  pub consecutive_failures : ℕ
  pub server_retry_ms : Option ℕ

-- `answered` has the status and whether there is a body; `threw` whether it is an abort error and
-- the message, if it is an `Error`; `raw_message` the id, the data and the event that they parse to.
pub data Event : Type 0 where
  signal_aborts : Event
  sleep_ends : Event
  answered : ℕ → Bool → Event
  threw : Bool → Option String → Event
  id_received : String → Event
  retry_received : ℕ → Event
  raw_message : String → String → Option QueueEventEnvelope → Event
  body_ends : Event

abbrev pub error_of : QueueSseErrorKind → String → Option ℕ → Bool → Effect
error_of kind message status fatal =
    errored (record { kind = kind; message = message; status = status; fatal = fatal })

abbrev pub finish : Stream → Stream
finish s = record s { phase = done }

abbrev pub open_request : Options → Stream → Stream × List Effect
open_request o s = (
  record s { phase = fetching },
  fetched (record {
    authorization = String.◌++◌ "Bearer " o.token;
    workspace = o.workspace_id;
    last_event_id = nonempty (some s.last_event_id);
  })
      ∷ [],
)

-- The head of the `while` loop.
abbrev pub attempt : Options → ℕ → ℕ → Stream → Stream × List Effect
attempt o jitter zero s = open_request o s
attempt o jitter (suc n) s =
    let delay : ℕ =
      get_or s.server_retry_ms
        (compute_reconnect_delay_ms n o.initial_backoff_ms o.max_backoff_ms jitter) in
    (record s { phase = sleeping; server_retry_ms = none }, reconnecting (suc n) delay ∷ [])

abbrev pub loop : Options → ℕ → Stream → Stream × List Effect
loop o jitter s = if s.aborted then (finish s, []) else attempt o jitter s.consecutive_failures s

-- `consecutiveFailures += 1`, the report, and the next turn of the loop.
abbrev pub fail : Options → ℕ → Effect → Stream → Stream × List Effect
fail o jitter report s =
    let (s', es) = loop o jitter (record s { consecutive_failures = s.consecutive_failures + 1 }) in
    (s', report ∷ es)

-- `response.ok`
abbrev pub is_ok : ℕ → Bool
is_ok status = leb 200 status && leb status 299

abbrev pub on_answer : Options → ℕ → ℕ → Bool → Stream → Stream × List Effect
on_answer o jitter status has_body s =
    if status =? 401
    then (finish s, error_of auth "The session has expired." (some status) true ∷ [])
    else if status =? 403
    then (finish s, error_of auth "The stream is not allowed." (some status) true ∷ [])
    else if not (is_ok status)
    then fail o jitter (error_of server "The stream failed." (some status) false) s
    else if not has_body
    then fail o jitter (error_of network "The answer has no body." none false) s
    else (record s { phase = streaming; consecutive_failures = 0 }, opened ∷ [])

abbrev pub on_throw : Options → ℕ → Bool → Option String → Stream → Stream × List Effect
on_throw o jitter is_abort_error message s =
    if s.aborted || is_abort_error
    then (finish s, error_of abort "The stream was aborted." none true ∷ [])
    else fail o jitter
        (error_of network (get_or message "The stream cannot be reached.") none false) s

abbrev pub remember_id : String → Stream → Stream
remember_id id s = if id == "" then s else record s { last_event_id = id }

abbrev pub on_raw_message :
    String → String → Option QueueEventEnvelope → Stream → Stream × List Effect
on_raw_message id content parsed s = if content == "" then (s, []) else (
  remember_id id s,
  elim parsed [
    | none ↦ error_of parse "The event cannot be read." none false ∷ []
    | some event ↦ delivered event ∷ []
  ],
)

abbrev pub on_body_end : Options → ℕ → Stream → Stream × List Effect
on_body_end o jitter s =
    if s.aborted
    then (finish s, [])
    else fail o jitter (error_of network "The stream was interrupted." none false) s

-- An event that the phase does not wait for changes nothing.
unfoldable pub step : Options → ℕ → Phase → Event → Stream → Stream × List Effect
unfolding compute_reconnect_delay_ms
step o jitter _ signal_aborts s = (record s { aborted = true }, [])
step o jitter sleeping sleep_ends s = if s.aborted then (finish s, []) else open_request o s
step o jitter fetching (answered status has_body) s = on_answer o jitter status has_body s
step o jitter fetching (threw is_abort_error message) s = on_throw o jitter is_abort_error message s
step o jitter streaming (id_received id) s = (remember_id id s, [])
step o jitter streaming (retry_received retry) s = (record s { server_retry_ms = some retry }, [])
step o jitter streaming (raw_message id content parsed) s = on_raw_message id content parsed s
step o jitter streaming body_ends s = on_body_end o jitter s
step o jitter streaming (threw is_abort_error message) s =
    on_throw o jitter is_abort_error message s
step o jitter _ _ s = (s, [])

-- A run of the loop; each event comes with the jitter that is drawn if it leads to a reconnection.
unfoldable pub run : Options → List (Event × ℕ) → Stream → Stream × List Effect
unfolding step
run o [] s = (s, [])
run o ((event, jitter) ∷ events) s =
    let (s', es) = step o jitter s.phase event s in
    let (s'', rest) = run o events s' in (s'', es ++ rest)

abbrev pub missing_workspace : Effect
missing_workspace = error_of auth "No workspace is selected." none true

-- The start of `createQueueEventStream`.
unfoldable pub create_queue_event_stream : Options → ℕ → String → Bool → Stream × List Effect
unfolding compute_reconnect_delay_ms
create_queue_event_stream o jitter last_event_id aborted =
    let s : Stream = record {
      phase = fetching;
      aborted = aborted;
      last_event_id = last_event_id;
      consecutive_failures = 0;
      server_retry_ms = none;
    } in
    if is_usable_workspace_id o.workspace_id
    then loop o jitter s
    else (finish s, missing_workspace ∷ [])
