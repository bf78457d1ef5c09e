-- ===== src/Queue/Realtime/Status.antt =====
-- The status that the page shows and the phase that the stream is in.
use affiliate_platform_api.Prelude.{
  Bool, Bool-cases, List, Option, String, [], arith, false, get_or, if◌then◌else◌, inl, inr, none,
  not, refl, some, true, ℕ, ◌+◌, ◌++◌, ◌&&◌, ◌||◌, ◌=?◌, ◌==◌, ◌≡◌, ◌∷◌, ap, sym, ◌∙◌, false≢true,
  suc, zero, subst,
}
use affiliate_platform_api.Queue.Types.{QueueEventEnvelope}
use affiliate_platform_api.Queue.Stream.{
  Effect, Event, Options, Phase, QueueSseErrorKind, Stream, answered, attempt, body_ends, delivered,
  error_of, errored, fail, fetched, fetching, id_received, is_ok, auth, finish, network, server,
  abort, on_body_end, on_answer, on_raw_message, on_throw, opened, open_request, parse, raw_message,
  reconnecting, remember_id, retry_received, run, signal_aborts, sleep_ends, sleeping, step,
  streaming, threw,
}
use affiliate_platform_api.Queue.Stream.Outcomes.{counts_as_failure, if-both}
use affiliate_platform_api.Queue.Realtime.{
  QueueEventStreamStatus, connected, disconnected, on_stream_effect,
}

-- The callbacks of a mounted page, one for each effect.
abbrev pub status_after : QueueEventStreamStatus → List Effect → QueueEventStreamStatus
status_after status [] = status
status_after status (e ∷ es) = status_after (on_stream_effect true e status) es

abbrev pub is_connected : QueueEventStreamStatus → Bool
is_connected connected = true
is_connected _ = false

abbrev pub is_streaming : Phase → Bool
is_streaming streaming = true
is_streaming _ = false

abbrev pub is_parse : QueueSseErrorKind → Bool
is_parse parse = true
is_parse _ = false

-- An event that could not be read has come since the stream was opened.
abbrev pub garbled : Bool → List Effect → Bool
garbled g [] = g
garbled g (opened ∷ es) = garbled false es
garbled g (errored e ∷ es) = garbled (g || is_parse e.kind) es
garbled g (delivered e ∷ es) = garbled g es
garbled g (reconnecting n d ∷ es) = garbled g es
garbled g (fetched h ∷ es) = garbled g es

-- The page is mounted and nothing is aborted.
abbrev pub is_ordinary : Event → Bool
is_ordinary signal_aborts = false
is_ordinary (threw is_abort_error message) = not is_abort_error
is_ordinary _ = true

status_after-append :
    (status : QueueEventStreamStatus) (es fs : List Effect)
    → status_after status (es ++ fs) ≡ status_after (status_after status es) fs
status_after-append status [] fs = refl
status_after-append status (e ∷ es) fs = status_after-append (on_stream_effect true e status) es fs

garbled-append : (g : Bool) (es fs : List Effect) → garbled g (es ++ fs) ≡ garbled (garbled g es) fs
garbled-append g [] fs = refl
garbled-append g (opened ∷ es) fs = garbled-append false es fs
garbled-append g (errored e ∷ es) fs = garbled-append (g || is_parse e.kind) es fs
garbled-append g (delivered e ∷ es) fs = garbled-append g es fs
garbled-append g (reconnecting n d ∷ es) fs = garbled-append g es fs
garbled-append g (fetched h ∷ es) fs = garbled-append g es fs

abbrev Agrees : QueueEventStreamStatus → Bool → Phase → Type 0
Agrees status g ph = is_connected status ≡ (is_streaming ph && not g)

abbrev StepAgrees : QueueEventStreamStatus → Bool → Stream × List Effect → Type 0
StepAgrees status g r =
    Agrees (status_after status r.1) (garbled g r.1) r.0.phase × (r.0.aborted ≡ false)

loop-StepAgrees :
    (o : Options) (j n : ℕ) (s : Stream) (status : QueueEventStreamStatus) (g : Bool)
    → s.aborted ≡ false
    → is_connected status ≡ false
    → StepAgrees status g (attempt o j n s)
unfolding on_stream_effect
loop-StepAgrees o j zero s status g h k = (k, h)
loop-StepAgrees o j (suc n) s status g h k = (refl, h)

looped :
    (o : Options) (j : ℕ) (s : Stream) (status : QueueEventStreamStatus) (g b : Bool)
    → s.aborted ≡ b
    → s.aborted ≡ false
    → is_connected status ≡ false
    → StepAgrees status g (if b then (finish s, []) else attempt o j s.consecutive_failures s)
looped o j s status g true h live k = absurd (false≢true (sym live ∙ h))
looped o j s status g false h live k = loop-StepAgrees o j s.consecutive_failures s status g live k

fail-StepAgrees :
    (o : Options) (j : ℕ) (k : QueueSseErrorKind) (m : String) (st : Option ℕ) (s : Stream)
    (status : QueueEventStreamStatus) (g : Bool)
    → counts_as_failure k ≡ true
    → s.aborted ≡ false
    → StepAgrees status g (fail o j (error_of k m st false) s)
unfolding on_stream_effect
fail-StepAgrees o j network m st s status g h live =
    looped o j (record s { consecutive_failures = s.consecutive_failures + 1 }) disconnected
      (g || false) s.aborted refl live refl
fail-StepAgrees o j server m st s status g h live =
    looped o j (record s { consecutive_failures = s.consecutive_failures + 1 }) disconnected
      (g || false) s.aborted refl live refl
fail-StepAgrees o j auth m st s status g h live = cc
fail-StepAgrees o j abort m st s status g h live = cc
fail-StepAgrees o j parse m st s status g h live = cc

module _ (P : Stream × List Effect → Type 0) (o : Options) (j : ℕ) (s : Stream)
    (failed : (k : QueueSseErrorKind) (m : String) (st : Option ℕ)
      → counts_as_failure k ≡ true
      → P (fail o j (error_of k m st false) s)) where
  answered-cases :
      (status : ℕ) (has_body : Bool)
      → ((m : String) (st : Option ℕ) → P (finish s, error_of auth m st true ∷ []))
      → P (record s { phase = streaming; consecutive_failures = 0 }, opened ∷ [])
      → P (on_answer o j status has_body s)
  answered-cases status has_body refused accepted = if-both P (status =? 401) (refused _ _) (
      if-both P (status =? 403) (refused _ _) (
        if-both P (not (is_ok status)) (failed _ _ _ refl)
          (if-both P (not has_body) (failed _ _ _ refl) accepted)))

  ended-cases : s.aborted ≡ false → P (on_body_end o j s)
  ended-cases live = go s.aborted refl
    where
      go :
          (b : Bool)
          → s.aborted ≡ b
          → P (
              if b
              then (finish s, [])
              else fail o j (error_of network "The stream was interrupted." none false) s)
      go true h = absurd (false≢true (sym live ∙ h))
      go false h = failed _ _ _ refl

  thrown-cases :
      (is_abort_error : Bool) (m : Option String)
      → not is_abort_error ≡ true
      → s.aborted ≡ false
      → P (on_throw o j is_abort_error m s)
  thrown-cases true m h live = absurd (false≢true h)
  thrown-cases false m h live = go (s.aborted || false) refl
    where
      go :
          (b : Bool)
          → (s.aborted || false) ≡ b
          → P (
              if b
              then (finish s, error_of abort "The stream was aborted." none true ∷ [])
              else fail o j
                  (error_of network (get_or m "The stream cannot be reached.") none false)
                  s)
      go true e = absurd (false≢true (ground (arith, live, e)))
      go false e = failed _ _ _ refl

woken-cases :
    (P : Stream × List Effect → Type 0) (o : Options) (s : Stream)
    → P (finish s, [])
    → P (open_request o s)
    → P (if s.aborted then (finish s, []) else open_request o s)
woken-cases P o s h k = if-both P s.aborted h k

remember_id-kept :
    (id : String) (s : Stream)
    → ((remember_id id s).phase ≡ s.phase) × ((remember_id id s).aborted ≡ s.aborted)
remember_id-kept id s = elim (Bool-cases (id == "")) [
  | inl empty ↦ rw empty (refl, refl)
  | inr other ↦ rw other (refl, refl)
]

message-StepAgrees :
    (id content : String) (parsed : Option QueueEventEnvelope) (s : Stream)
    (status : QueueEventStreamStatus) (g : Bool)
    → s.aborted ≡ false
    → Agrees status g s.phase
    → StepAgrees status g (on_raw_message id content parsed s)
unfolding on_stream_effect
message-StepAgrees id content none s status g h a = ground (arith, remember_id-kept id s)
message-StepAgrees id content (some e) s status g h a = ground (arith, remember_id-kept id s)

step-StepAgrees :
    (o : Options) (j : ℕ) (ph : Phase) (e : Event) (s : Stream) (status : QueueEventStreamStatus)
    (g : Bool)
    → is_ordinary e ≡ true
    → s.aborted ≡ false
    → s.phase ≡ ph
    → Agrees status g s.phase
    → StepAgrees status g (step o j ph e s)
unfolding step on_stream_effect
step-StepAgrees o j ph signal_aborts s status g h live p a = absurd (false≢true h)
step-StepAgrees o j sleeping sleep_ends s status g h live p a =
    let asleep : is_connected status ≡ false = subst (Agrees status g) p a in
    woken-cases (StepAgrees status g) o s (asleep, live) (asleep, live)
step-StepAgrees o j fetching (answered st b) s status g h live p a =
    answered-cases (StepAgrees status g) o j s
      (λ k m n c. fail-StepAgrees o j k m n s status g c live) st b (λ m n. (refl, live))
      (refl, live)
step-StepAgrees o j fetching (threw b m) s status g h live p a =
    thrown-cases (StepAgrees status g) o j s
      (λ k n st c. fail-StepAgrees o j k n st s status g c live) b m h live
step-StepAgrees o j streaming (id_received id) s status g h live p a =
    ground (arith, remember_id-kept id s)
step-StepAgrees o j streaming (retry_received retry) s status g h live p a = (a, live)
step-StepAgrees o j streaming (raw_message id content parsed) s status g h live p a =
    message-StepAgrees id content parsed s status g live a
step-StepAgrees o j streaming body_ends s status g h live p a =
    ended-cases (StepAgrees status g) o j s
      (λ k m st c. fail-StepAgrees o j k m st s status g c live) live
step-StepAgrees o j streaming (threw b m) s status g h live p a =
    thrown-cases (StepAgrees status g) o j s
      (λ k n st c. fail-StepAgrees o j k n st s status g c live) b m h live
step-StepAgrees o j _ _ s status g h live p a = (a, live)

abbrev pub all_ordinary : List (Event × ℕ) → Bool
all_ordinary [] = true
all_ordinary ((e, j) ∷ events) = is_ordinary e && all_ordinary events

-- While the page is mounted and nothing is aborted: the page shows the stream as connected exactly
-- when the stream is open and every event since it was opened could be read. An event that cannot
-- be read makes it show an open stream as disconnected until the next reconnection.
pub status-Agrees :
    (o : Options) (events : List (Event × ℕ)) (s : Stream) (status : QueueEventStreamStatus)
    (g : Bool)
    → all_ordinary events ≡ true
    → s.aborted ≡ false
    → is_connected status ≡ (is_streaming s.phase && not g)
    → is_connected (status_after status (run o events s).1)
      ≡ (is_streaming (run o events s).0.phase && not (garbled g (run o events s).1))
unfolding run
status-Agrees o [] s status g h live a = a
status-Agrees o ((e, j) ∷ events) s status g h live a =
    let (s', es) = step o j s.phase e s in
    let (now, still) = step-StepAgrees o j s.phase e s status g (ground (arith, h)) live refl a in
    let rest =
      status-Agrees o events s' (status_after status es) (garbled g es) (ground (arith, h)) still
        now in
    ap is_connected (status_after-append status es (run o events s').1)
    ∙ rest
    ∙ ap (λ b. is_streaming (run o events s').0.phase && not b)
        (sym (garbled-append g es (run o events s').1))
