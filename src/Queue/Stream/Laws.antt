-- ===== src/Queue/Stream/Laws.antt =====
-- The loop of the stream: the count of failures, the end of the loop, the delays, the headers of
-- each request, and the id from which the server goes on.
use affiliate_platform_api.Prelude.{
  List, Option, String, [], arith, false, if◌then◌else◌, refl, suc, true, zero, ℕ, ◌+◌, ◌++◌, ◌≡◌,
  ◌∷◌, ap, sym, ◌∙◌,
}
use affiliate_platform_api.Queue.Stream.Outcomes.{
  EveryOutcome, counts_as_failure, loop-outcome, step-outcome,
}
use affiliate_platform_api.Queue.Stream.{
  Effect, Event, Options, QueueSseErrorKind, Stream, attempt, delivered, error_of, errored, fail,
  fetched, loop, opened, reconnecting, remember_id, run, step,
}

-- The failures in a row that the reports amount to: a stream that opens ends the row.
abbrev pub failures_after : ℕ → List Effect → ℕ
failures_after n [] = n
failures_after n (opened ∷ es) = failures_after 0 es
failures_after n (errored e ∷ es) =
    if counts_as_failure e.kind then failures_after (n + 1) es else failures_after n es
failures_after n (delivered e ∷ es) = failures_after n es
failures_after n (reconnecting k d ∷ es) = failures_after n es
failures_after n (fetched h ∷ es) = failures_after n es

failures_after-append :
    (n : ℕ) (es fs : List Effect)
    → failures_after n (es ++ fs) ≡ failures_after (failures_after n es) fs
failures_after-append n [] fs = refl
failures_after-append n (opened ∷ es) fs = failures_after-append 0 es fs
failures_after-append n (errored e ∷ es) fs =
    ground (arith, failures_after-append (n + 1) es fs, failures_after-append n es fs)
failures_after-append n (delivered e ∷ es) fs = failures_after-append n es fs
failures_after-append n (reconnecting k d ∷ es) fs = failures_after-append n es fs
failures_after-append n (fetched h ∷ es) fs = failures_after-append n es fs

-- A step whose reports agree with the count.
abbrev Counted : ℕ → Stream × List Effect → Type 0
Counted n r = r.0.consecutive_failures ≡ failures_after n r.1

attempt-Counted :
    (o : Options) (j n : ℕ) (s : Stream) → Counted s.consecutive_failures (attempt o j n s)
attempt-Counted o j zero s = refl
attempt-Counted o j (suc n) s = refl

loop-Counted : (o : Options) (j : ℕ) (s : Stream) → Counted s.consecutive_failures (loop o j s)
loop-Counted o j s =
    loop-outcome (Counted s.consecutive_failures) o j s refl
      (attempt-Counted o j s.consecutive_failures s)

fail-Counted :
    (o : Options) (j : ℕ) (k : QueueSseErrorKind) (m : String) (st : Option ℕ) (s : Stream)
    → counts_as_failure k ≡ true
    → Counted s.consecutive_failures (fail o j (error_of k m st false) s)
fail-Counted o j k m st s h =
    ground
      (arith, loop-Counted o j (record s { consecutive_failures = s.consecutive_failures + 1 }))

remember_id-failures :
    (id : String) (s : Stream) → (remember_id id s).consecutive_failures ≡ s.consecutive_failures
remember_id-failures id s = ground arith

all-Counted :
    (o : Options) (j : ℕ) (s : Stream) → EveryOutcome o j s (Counted s.consecutive_failures)
all-Counted o j s = record {
  at_abort = refl;
  at_nothing = refl;
  at_end = refl;
  at_fatal = λ k m st h. rw h refl;
  at_request = refl;
  at_failure = λ k m st h. fail-Counted o j k m st s h;
  at_open = refl;
  at_id = λ id. remember_id-failures id s;
  at_retry = λ retry. refl;
  at_parse = λ id m. remember_id-failures id s;
  at_event = λ id e. remember_id-failures id s;
}

-- Whatever happens to the stream, in whatever order: the count of failures in a row, which decides
-- how long the next wait is, is the number of network and server errors reported since the stream
-- was opened the last time, on top of the count at the start if it was not opened.
pub run-failures_after :
    (o : Options) (events : List (Event × ℕ)) (s : Stream)
    → (run o events s).0.consecutive_failures
      ≡ failures_after s.consecutive_failures (run o events s).1
unfolding run
run-failures_after o [] s = refl
run-failures_after o ((e, j) ∷ events) s =
    let (s', es) = step o j s.phase e s in
    let now = step-outcome o j s (Counted s.consecutive_failures) (all-Counted o j s) s.phase e in
    run-failures_after o events s'
    ∙ ap (λ n. failures_after n (run o events s').1) now
    ∙ sym (failures_after-append s.consecutive_failures es (run o events s').1)
