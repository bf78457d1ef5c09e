-- ===== src/Queue/Stream/Requests.antt =====
-- The requests of the stream's loop: their headers, the waits between them, their end, and the id
-- from which the server goes on.
use Prim.Native.String
use affiliate_platform_api.Prelude.{
  All, All-append, Bool, Bool-cases, List, [], arith, false, inl, inr, min, not, refl, some?, suc,
  true, zero, ℕ, ◌+◌, ◌*◌, ◌^◌, ◌++◌, ◌||◌, ◌&&◌, ◌≡◌, ◌≤◌, ◌∷◌, ap₂, false≢true, sym, ◌∙◌, subst,
}
use affiliate_platform_api.Queue.Stream.Outcomes.{
  EveryOutcome, counts_as_failure, loop-outcome, step-outcome,
}
use affiliate_platform_api.Queue.Stream.{
  Effect, Event, Options, Phase, Stream, answered, attempt, body_ends, compute_reconnect_delay_ms,
  done, errored, fetched, fetching, id_received, loop, raw_message, reconnecting, retry_received,
  run, signal_aborts, sleep_ends, sleeping, step, streaming, threw,
}

-- The wait before the n-th attempt, without the jitter.
abbrev pub backoff : ℕ → ℕ → ℕ → ℕ
backoff n initial_ms max_ms = min (initial_ms * 2 ^ n) max_ms

-- The wait is at least the doubled backoff, exceeds it by the jitter at most, and never exceeds the
-- maximum.
pub reconnect_delay-bounds :
    (n initial_ms max_ms jitter : ℕ)
    → (let d : ℕ = compute_reconnect_delay_ms n initial_ms max_ms jitter in
        (backoff n initial_ms max_ms ≤ d)
        × (d ≤ backoff n initial_ms max_ms + jitter)
        × (d ≤ max_ms))
unfolding compute_reconnect_delay_ms
reconnect_delay-bounds n i m j = (ground arith, ground arith, ground arith)

-- What a request and a reconnection look like.
abbrev pub RightEffect : Options → Effect → Type 0
RightEffect o (fetched h) =
    (h.authorization ≡ String.◌++◌ "Bearer " o.token) × (h.workspace ≡ o.workspace_id)
RightEffect o (reconnecting n d) = 1 ≤ n
RightEffect o (errored e) = (counts_as_failure e.kind && e.fatal) ≡ false
RightEffect o _ = Unit

abbrev AllRight : Options → Stream × List Effect → Type 0
AllRight o r = All (RightEffect o) r.1

attempt-AllRight : (o : Options) (j n : ℕ) (s : Stream) → AllRight o (attempt o j n s)
attempt-AllRight o j zero s = ((refl, refl), tt)
attempt-AllRight o j (suc n) s = (omega arith, tt)

all-AllRight : (o : Options) (j : ℕ) (s : Stream) → EveryOutcome o j s (AllRight o)
all-AllRight o j s = record {
  at_abort = tt;
  at_nothing = tt;
  at_end = tt;
  at_fatal = λ k m st h. (rw h refl, tt);
  at_request = ((refl, refl), tt);
  at_failure = λ k m st h. (
    rw h refl,
    loop-outcome (AllRight o) o j (record s { consecutive_failures = s.consecutive_failures + 1 })
        tt
        (attempt-AllRight o j (s.consecutive_failures + 1)
          (record s { consecutive_failures = s.consecutive_failures + 1 })),
  );
  at_open = (tt, tt);
  at_id = λ id. tt;
  at_retry = λ retry. tt;
  at_parse = λ id m. (refl, tt);
  at_event = λ id e. (tt, tt);
}

-- Whatever happens to the stream: every request carries the token and the workspace of the options,
-- no wait is announced before a failure, and no network or server error is reported as fatal, so
-- that the loop goes on after it.
pub run-AllRight :
    (o : Options) (events : List (Event × ℕ)) (s : Stream) → All (RightEffect o) (run o events s).1
unfolding run
run-AllRight o [] s = tt
run-AllRight o ((e, j) ∷ events) s =
    let (s', es) = step o j s.phase e s in
    All-append (RightEffect o) es (run o events s').1
      (step-outcome o j s (AllRight o) (all-AllRight o j s) s.phase e) (run-AllRight o events s')

abbrev pub is_fatal : Effect → Bool
is_fatal (errored e) = e.fatal
is_fatal _ = false

abbrev pub is_done : Phase → Bool
is_done done = true
is_done _ = false

is_done-done : (ph : Phase) → is_done ph ≡ true → ph ≡ done
is_done-done done h = refl
is_done-done sleeping h = cc
is_done-done fetching h = cc
is_done-done streaming h = cc

some?-append :
    (p : Effect → Bool) (es fs : List Effect) → some? p (es ++ fs) ≡ (some? p es || some? p fs)
some?-append p [] fs = refl
some?-append p (e ∷ es) fs = ground (arith, some?-append p es fs)

-- A fatal report comes with the end of the loop.
abbrev Ends : Stream × List Effect → Type 0
Ends r = (not (some? is_fatal r.1) || is_done r.0.phase) ≡ true

attempt-Ends : (o : Options) (j n : ℕ) (s : Stream) → some? is_fatal (attempt o j n s).1 ≡ false
attempt-Ends o j zero s = refl
attempt-Ends o j (suc n) s = refl

fail-Ends : (o : Options) (j : ℕ) (s : Stream) → some? is_fatal (loop o j s).1 ≡ false
fail-Ends o j s =
    loop-outcome (λ r. some? is_fatal r.1 ≡ false) o j s refl
      (attempt-Ends o j s.consecutive_failures s)

all-Ends : (o : Options) (j : ℕ) (s : Stream) → EveryOutcome o j s Ends
all-Ends o j s = record {
  at_abort = refl;
  at_nothing = refl;
  at_end = refl;
  at_fatal = λ k m st h. refl;
  at_request = refl;
  at_failure = λ k m st h.
      ground
        (arith, fail-Ends o j (record s { consecutive_failures = s.consecutive_failures + 1 }));
  at_open = refl;
  at_id = λ id. refl;
  at_retry = λ retry. refl;
  at_parse = λ id m. refl;
  at_event = λ id e. refl;
}

step-done :
    (o : Options) (j : ℕ) (e : Event) (s : Stream)
    → ((step o j done e s).1 ≡ []) × ((step o j done e s).0.phase ≡ s.phase)
unfolding step
step-done o j signal_aborts s = (refl, refl)
step-done o j sleep_ends s = (refl, refl)
step-done o j (answered st b) s = (refl, refl)
step-done o j (threw b m) s = (refl, refl)
step-done o j (id_received id) s = (refl, refl)
step-done o j (retry_received r) s = (refl, refl)
step-done o j (raw_message id c p) s = (refl, refl)
step-done o j body_ends s = (refl, refl)

run-done :
    (o : Options) (events : List (Event × ℕ)) (s : Stream)
    → s.phase ≡ done
    → ((run o events s).1 ≡ []) × ((run o events s).0.phase ≡ done)
unfolding run
run-done o [] s h = (refl, h)
run-done o ((e, j) ∷ events) s h =
    let (silent, still) =
      subst (λ ph. ((step o j ph e s).1 ≡ []) × ((step o j ph e s).0.phase ≡ s.phase)) (sym h)
        (step-done o j e s) in
    let (quiet, end) = run-done o events (step o j s.phase e s).0 (still ∙ h) in
    (ap₂ ◌++◌ silent quiet, end)

run-Ends :
    (o : Options) (events : List (Event × ℕ)) (s : Stream)
    → some? is_fatal (run o events s).1 ≡ true
    → (run o events s).0.phase ≡ done
unfolding run
run-Ends o [] s h = absurd (false≢true h)
run-Ends o ((e, j) ∷ events) s h =
    let (s', es) = step o j s.phase e s in
    let rest = (run o events s').1 in
    elim (Bool-cases (some? is_fatal es)) [
      | inl fatal ↦
          let over = step-outcome o j s Ends (all-Ends o j s) s.phase e in
          (run-done o events s' (is_done-done s'.phase (ground (arith, over)))).1
      | inr other ↦ run-Ends o events s' (ground (arith, some?-append is_fatal es rest))
    ]

-- Once a run has reported a fatal error, such as a refused login or an abort, the loop is over:
-- whatever happens afterwards, nothing is requested, delivered or reported any more.
pub run-fatal :
    (o : Options) (events later : List (Event × ℕ)) (s : Stream)
    → some? is_fatal (run o events s).1 ≡ true
    → ((run o events s).0.phase ≡ done) × ((run o later (run o events s).0).1 ≡ [])
run-fatal o events later s h =
    let over = run-Ends o events s h in (over, (run-done o later (run o events s).0 over).0)
