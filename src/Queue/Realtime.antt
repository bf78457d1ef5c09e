-- ===== src/Queue/Realtime.antt =====
-- frontend/src/features/queue/hooks/useQueueEventStream.ts and useQueueRealtimeInvalidation.ts: the
-- status of the stream as the page sees it, what a change of it refetches, and when the page falls
-- back on polling. The effects of a hook run in their order, once for each status that is rendered.
pub mod Laws
pub mod Status
mod Tests
use affiliate_platform_api.Prelude.{
  Bool, List, Option, String, [], false, if◌then◌else◌, none, some, true, ◌++◌, ◌&&◌, ◌||◌, ◌∷◌,
  not, nonempty,
}
use affiliate_platform_api.Workspace.{QueryKey}
use affiliate_platform_api.Queue.Keys.{queue_key}
use affiliate_platform_api.Queue.Stream.{
  Effect, QueueSseError, QueueSseErrorKind, abort, auth, delivered, errored, fetched, network,
  opened, parse, reconnecting, server,
}

pub data QueueEventStreamStatus : Type 0 where
  connecting connected disconnected error : QueueEventStreamStatus

-- The status at the first rendering, and the one that the effect starts with.
abbrev pub initial_status : Bool → QueueEventStreamStatus
initial_status true = connecting
initial_status false = disconnected

abbrev pub started_status : Bool → Option String → Option String → QueueEventStreamStatus
started_status enabled token workspace_id =
    if not enabled then disconnected else elim (nonempty token) [
      | none ↦ error
      | some _ ↦ elim (nonempty workspace_id) [ none ↦ error | some _ ↦ connecting ]
    ]

abbrev pub is_abort : QueueSseErrorKind → Bool
is_abort abort = true
is_abort _ = false

abbrev pub status_on_error : QueueSseError → QueueEventStreamStatus → QueueEventStreamStatus
status_on_error e status =
    if is_abort e.kind then status else if e.fatal then error else disconnected

-- The callbacks that the hook hands to the stream; `live` is `active && !controller.signal.aborted`.
unfoldable pub on_stream_effect : Bool → Effect → QueueEventStreamStatus → QueueEventStreamStatus
on_stream_effect false _ status = status
on_stream_effect true opened status = connected
on_stream_effect true (reconnecting n d) status = connecting
on_stream_effect true (errored e) status = status_on_error e status
on_stream_effect true (delivered e) status = status
on_stream_effect true (fetched h) status = status

-- `sawConnectingRef`, `establishedConnectionRef` and `pollingEnabled`; `refetched` are the keys that
-- were invalidated after a reconnection.
pub record Realtime : Type 0 where
  pub saw_connecting : Bool
  pub established : Bool
  pub polling_enabled : Bool
  pub refetched : List QueryKey

-- The effect that follows the workspace.
unfoldable pub on_workspace : Realtime → Realtime
on_workspace r = record r { saw_connecting = false; established = false; polling_enabled = false }

abbrev pub key_of : Option String → List QueryKey
key_of none = []
key_of (some workspace_id) = queue_key workspace_id ∷ []

-- The effect that refetches after a reconnection.
abbrev pub recover : QueueEventStreamStatus → Option String → Realtime → Realtime
recover connecting workspace_id r = record r { saw_connecting = true }
recover connected workspace_id r =
    if not r.saw_connecting
    then r
    else if not r.established
    then record r { established = true }
    else record r { refetched = r.refetched ++ key_of (nonempty workspace_id) }
recover _ workspace_id r = r

abbrev pub fallback : QueueEventStreamStatus → Bool → Bool
fallback connected established = false
fallback error established = false
fallback disconnected established = true
fallback connecting established = established

-- The effect that switches polling on and off.
abbrev pub switch_polling : QueueEventStreamStatus → Bool → Option String → Realtime → Realtime
switch_polling status enabled none r = record r {
  saw_connecting = false;
  established = false;
  polling_enabled = false;
}
switch_polling status enabled (some workspace_id) r =
    if enabled
    then record r { polling_enabled = fallback status r.established }
    else record r { saw_connecting = false; established = false; polling_enabled = false }

unfoldable pub on_status : QueueEventStreamStatus → Bool → Option String → Realtime → Realtime
on_status status enabled workspace_id r =
    switch_polling status enabled (nonempty workspace_id) (recover status workspace_id r)

-- The statuses that are rendered one after the other.
unfoldable pub on_statuses :
    List QueueEventStreamStatus → Bool → Option String → Realtime → Realtime
unfolding on_status
on_statuses [] enabled workspace_id r = r
on_statuses (status ∷ rest) enabled workspace_id r =
    on_statuses rest enabled workspace_id (on_status status enabled workspace_id r)
