-- ===== src/Queue/Stream/Outcomes.antt =====
-- What a step of the stream's loop can come to, so that a law is shown of each outcome once.
use affiliate_platform_api.Prelude.{
  Bool, List, Option, String, [], false, if◌then◌else◌, none, not, refl, some, true, ℕ, ◌==◌, ◌||◌,
  ◌≡◌, ◌∷◌, ◌=?◌,
}
use affiliate_platform_api.Queue.Types.{QueueEventEnvelope}
use affiliate_platform_api.Queue.Stream.{
  loop, Effect, Event, Options, Phase, QueueSseErrorKind, Stream, answered, attempt, body_ends,
  delivered, error_of, fail, fetching, finish, id_received, is_ok, network, on_answer,
  on_raw_message, on_throw, open_request, opened, parse, raw_message, remember_id, retry_received,
  server, signal_aborts, sleep_ends, sleeping, step, streaming, threw,
}

-- The failures in a row count these kinds of errors.
abbrev pub counts_as_failure : QueueSseErrorKind → Bool
counts_as_failure network = true
counts_as_failure server = true
counts_as_failure _ = false

module _ (P : Stream × List Effect → Type 0) where
  pub if-both : (b : Bool) {r q : Stream × List Effect} → P r → P q → P (if b then r else q)
  if-both true h k = h
  if-both false h k = k

pub loop-outcome :
    (P : Stream × List Effect → Type 0) (o : Options) (jitter : ℕ) (s : Stream)
    → P (finish s, [])
    → P (attempt o jitter s.consecutive_failures s)
    → P (loop o jitter s)
loop-outcome P o jitter s h k = if-both P s.aborted h k

-- A property of what a step from `s` answers, shown of each outcome.
pub record EveryOutcome (o : Options) (jitter : ℕ) (s : Stream) (P : Stream × List Effect → Type 0)
    : Type 0 where
  pub at_abort : P (record s { aborted = true }, [])
  pub at_nothing : P (s, [])
  pub at_end : P (finish s, [])
  pub at_fatal :
      (k : QueueSseErrorKind) (m : String) (st : Option ℕ)
      → counts_as_failure k ≡ false
      → P (finish s, error_of k m st true ∷ [])
  pub at_request : P (open_request o s)
  pub at_failure :
      (k : QueueSseErrorKind) (m : String) (st : Option ℕ)
      → counts_as_failure k ≡ true
      → P (fail o jitter (error_of k m st false) s)
  pub at_open : P (record s { phase = streaming; consecutive_failures = 0 }, opened ∷ [])
  pub at_id : (id : String) → P (remember_id id s, [])
  pub at_retry : (retry : ℕ) → P (record s { server_retry_ms = some retry }, [])
  pub at_parse : (id m : String) → P (remember_id id s, error_of parse m none false ∷ [])
  pub at_event : (id : String) (e : QueueEventEnvelope) → P (remember_id id s, delivered e ∷ [])

module _ (o : Options) (jitter : ℕ) (s : Stream) (P : Stream × List Effect → Type 0)
    (all : EveryOutcome o jitter s P) where
  thrown-outcome : (b : Bool) (m : Option String) → P (on_throw o jitter b m s)
  thrown-outcome b m =
      if-both P (s.aborted || b) (all.at_fatal _ _ _ refl) (all.at_failure _ _ _ refl)

  answer-outcome : (status : ℕ) (has_body : Bool) → P (on_answer o jitter status has_body s)
  answer-outcome status has_body = if-both P (status =? 401) (all.at_fatal _ _ _ refl) (
      if-both P (status =? 403) (all.at_fatal _ _ _ refl) (
        if-both P (not (is_ok status)) (all.at_failure _ _ _ refl)
          (if-both P (not has_body) (all.at_failure _ _ _ refl) all.at_open)))

  message-outcome :
      (id content : String) (parsed : Option QueueEventEnvelope)
      → P (on_raw_message id content parsed s)
  message-outcome id content none = if-both P (content == "") all.at_nothing (all.at_parse id _)
  message-outcome id content (some e) = if-both P (content == "") all.at_nothing (all.at_event id e)

  pub step-outcome : (ph : Phase) (e : Event) → P (step o jitter ph e s)
  unfolding step
  step-outcome ph signal_aborts = all.at_abort
  step-outcome sleeping sleep_ends = if-both P s.aborted all.at_end all.at_request
  step-outcome fetching (answered status has_body) = answer-outcome status has_body
  step-outcome fetching (threw b m) = thrown-outcome b m
  step-outcome streaming (id_received id) = all.at_id id
  step-outcome streaming (retry_received retry) = all.at_retry retry
  step-outcome streaming (raw_message id content parsed) = message-outcome id content parsed
  step-outcome streaming body_ends = if-both P s.aborted all.at_end (all.at_failure _ _ _ refl)
  step-outcome streaming (threw b m) = thrown-outcome b m
  step-outcome _ _ = all.at_nothing
