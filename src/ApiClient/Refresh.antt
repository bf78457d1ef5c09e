-- ===== src/ApiClient/Refresh.antt =====
-- The response interceptor over any sequence of events: the shared refresh and the answers to the
-- callers.
use affiliate_platform_api.Prelude.{
  Bool, List, Option, String, [], arith, false, if◌then◌else◌, inl, inr, none, nonempty, not, refl,
  some, true, ℕ, ◌+◌, ◌++◌, ◌=?◌, ◌≡◌, ◌∷◌, ap,
}
use affiliate_platform_api.Session.{get_refresh_token}
use affiliate_platform_api.ApiClient.{
  ApiError, Client, Effect, Failure, Request, Response, Waiter, axios, give_up,
  is_auth_session_request, is_retried, normalize_axios_error, on_refresh_settled, on_response_error,
  other, refresh_access_token, reject,
}
use affiliate_platform_api.ApiClient.Answers.{
  Event, IsIdleOrRefreshing, answers, answers-append, answers-give_up, failed,
  on_refresh_settled-Served, posts, posts-append, posts-give_up, settled, waits, waits-append,
}

abbrev pub flights : Client → ℕ
flights c = if c.refreshing then 1 else 0

waits_after_give_up :
    (p q : ℕ) (e : ApiError) (c : Client) → waits p (give_up q e c).0.waiting ≡ waits p c.waiting
unfolding give_up
waits_after_give_up p q e c = refl

flights_after_give_up : (q : ℕ) (e : ApiError) (c : Client) → flights (give_up q e c).0 ≡ flights c
unfolding give_up
flights_after_give_up q e c = refl

refresh-answers :
    (p : ℕ) (w : Waiter) (token : String) (c : Client)
    → answers p (refresh_access_token w token c).1
        + waits p (refresh_access_token w token c).0.waiting
      ≡ waits p c.waiting + (if p =? w.promise then 1 else 0)
unfolding refresh_access_token
refresh-answers p w token c = ground (arith, waits-append p c.waiting (w ∷ []))

refresh-posts :
    (w : Waiter) (token : String) (c : Client)
    → posts (refresh_access_token w token c).1 + flights c
      ≡ flights (refresh_access_token w token c).0
unfolding refresh_access_token
refresh-posts w token c = ground arith

module _ (url_pathname : Option String → String → Option String) where
  -- Only a refresh that was posted is answered.
  unfoldable pub step : Event → Client → Client × List Effect
  step (failed promise failure) c = on_response_error url_pathname promise failure c
  step (settled tokens) c = if c.refreshing then on_refresh_settled tokens c else (c, [])

  unfoldable pub run : List Event → Client → Client × List Effect
  run [] c = (c, [])
  run (e ∷ es) c = let (c', done) = step e c in let (c'', rest) = run es c' in (c'', done ++ rest)

  pub step_settled-cases :
      (P : Client × List Effect → Type 0) (t : Option (String × String)) (c : Client)
      → P (on_refresh_settled t c)
      → (c.refreshing ≡ false → P (c, []))
      → P (step (settled t) c)
  unfolding step
  step_settled-cases P t c busy idle = go c.refreshing refl
    where
      go : (b : Bool) → c.refreshing ≡ b → P (if b then on_refresh_settled t c else (c, []))
      go true e = busy
      go false e = idle e

  settled-posts :
      (t : Option (String × String)) (c : Client)
      → (posts (step (settled t) c).1 ≡ 0) × (flights (step (settled t) c).0 ≡ 0)
  settled-posts t c =
      let (_, _, off, nothing) = on_refresh_settled-Served t c in
      step_settled-cases (λ r. (posts r.1 ≡ 0) × (flights r.0 ≡ 0)) t c
        (nothing, ap (λ b. if b then 1 else 0) off)
        (λ idle. (refl, ap (λ b. if b then 1 else 0) idle))

  -- How often the promise `p` failed.
  abbrev pub failures : ℕ → List Event → ℕ
  failures p [] = 0
  failures p (failed q f ∷ es) = (if p =? q then 1 else 0) + failures p es
  failures p (settled t ∷ es) = failures p es

  -- What holds of the three ways in which a failed request is answered holds of each answer.
  pub on_response_error-cases :
      (P : Client × List Effect → Type 0) (q : ℕ) (original : Option Request)
      (response : Option Response) (c : Client)
      → P (c, reject q (normalize_axios_error response) ∷ [])
      → P (give_up q (normalize_axios_error response) c)
      → ((token : String)
          → P (
              refresh_access_token
                (record {
                  promise = q;
                  original = original;
                  error = normalize_axios_error response;
                })
                token
                c))
      → P (on_response_error url_pathname q (axios original response) c)
  unfolding on_response_error
  on_response_error-cases P q original response c rejected gave_up refreshed =
      go (not ((normalize_axios_error response).status =? 401)) (is_retried original)
        (is_auth_session_request url_pathname original) (nonempty (get_refresh_token c.session))
    where
      go :
          (other_status retried session_request : Bool) (token : Option String)
          → P (
              if other_status
              then (c, reject q (normalize_axios_error response) ∷ [])
              else if retried
              then give_up q (normalize_axios_error response) c
              else if session_request
              then (c, reject q (normalize_axios_error response) ∷ [])
              else elim token [
                | none ↦ give_up q (normalize_axios_error response) c
                | some t ↦
                    refresh_access_token
                      (record {
                        promise = q;
                        original = original;
                        error = normalize_axios_error response;
                      })
                      t
                      c
              ])
      go true r a t = rejected
      go false true a t = gave_up
      go false false true t = rejected
      go false false false none = gave_up
      go false false false (some t) = refreshed t

  failed-answers :
      (p q : ℕ) (f : Failure) (c : Client)
      → answers p (on_response_error url_pathname q f c).1
          + waits p (on_response_error url_pathname q f c).0.waiting
        ≡ waits p c.waiting + (if p =? q then 1 else 0)
  failed-answers p q other c = unfold on_response_error in omega arith
  failed-answers p q (axios original response) c =
      on_response_error-cases
        (λ r. answers p r.1 + waits p r.0.waiting ≡ waits p c.waiting + (if p =? q then 1 else 0)) q
        original response c (omega arith)
        (omega (
          arith,
          answers-give_up p q (normalize_axios_error response) c,
          waits_after_give_up p q (normalize_axios_error response) c,
        ))
        (λ token.
          refresh-answers p
            (record { promise = q; original = original; error = normalize_axios_error response })
            token c)

  step-answers :
      (p : ℕ) (e : Event) (c : Client)
      → answers p (step e c).1 + waits p (step e c).0.waiting
        ≡ waits p c.waiting + failures p (e ∷ [])
  unfolding step
  step-answers p (failed q f) c = omega (arith, failed-answers p q f c)
  step-answers p (settled tokens) c =
      let (answered, none_waits, _, _) = on_refresh_settled-Served tokens c in
      step_settled-cases
        (λ r.
          answers p r.1 + waits p r.0.waiting
          ≡ waits p c.waiting + failures p (settled tokens ∷ []))
        tokens c (omega (arith, answered p, ap (waits p) none_waits)) (λ idle. omega arith)

  failures-cons :
      (p : ℕ) (e : Event) (es : List Event)
      → failures p (e ∷ es) ≡ failures p (e ∷ []) + failures p es
  failures-cons p (failed q f) es = omega arith
  failures-cons p (settled t) es = omega arith

  -- No caller is lost and none is answered twice: for each promise, its answers and those that it
  -- waits for at the end are as many as those that it waited for at the start and its failures.
  run-answers :
      (p : ℕ) (es : List Event) (c : Client)
      → answers p (run es c).1 + waits p (run es c).0.waiting ≡ waits p c.waiting + failures p es
  unfolding run
  run-answers p [] c = omega arith
  run-answers p (e ∷ es) c = omega (
    arith,
    answers-append p (step e c).1 (run es (step e c).0).1,
    step-answers p e c,
    run-answers p es (step e c).0,
    failures-cons p e es,
  )

  failed-idle :
      (q : ℕ) (f : Failure) (c : Client)
      → IsIdleOrRefreshing c
      → IsIdleOrRefreshing (on_response_error url_pathname q f c).0
  failed-idle q other c i = unfold on_response_error in i
  failed-idle q (axios original response) c i =
      on_response_error-cases (λ r. IsIdleOrRefreshing r.0) q original response c i
        (unfold give_up in i) (λ token. unfold refresh_access_token in inl refl)

  step-idle : (e : Event) (c : Client) → IsIdleOrRefreshing c → IsIdleOrRefreshing (step e c).0
  unfolding step
  step-idle (failed q f) c i = failed-idle q f c i
  step-idle (settled tokens) c i =
      let (_, none_waits, _, _) = on_refresh_settled-Served tokens c in
      step_settled-cases (λ r. IsIdleOrRefreshing r.0) tokens c (inr none_waits) (λ idle. i)

  run-idle : (es : List Event) (c : Client) → IsIdleOrRefreshing c → IsIdleOrRefreshing (run es c).0
  unfolding run
  run-idle [] c i = i
  run-idle (e ∷ es) c i = run-idle es (step e c).0 (step-idle e c i)

  -- From a client with no caller waiting, let any requests fail and any refreshes be answered, in
  -- any order, until no refresh is under way: each promise has had exactly one answer (a rejection
  -- or its request sent again) for each of its failures.
  pub run-quiescent :
      (p : ℕ) (es : List Event) (c : Client)
      → c.waiting ≡ []
      → (run es c).0.refreshing ≡ false
      → answers p (run es c).1 ≡ failures p es
  run-quiescent p es c start quiet = elim (run-idle es c (inr start)) [
    | inl busy ↦ cc
    | inr served ↦ omega (arith, run-answers p es c, ap (waits p) start, ap (waits p) served)
  ]

  failed-posts :
      (q : ℕ) (f : Failure) (c : Client)
      → posts (on_response_error url_pathname q f c).1 + flights c
        ≡ flights (on_response_error url_pathname q f c).0
  failed-posts q other c = unfold on_response_error in omega arith
  failed-posts q (axios original response) c =
      let error = normalize_axios_error response in
      on_response_error-cases (λ r. posts r.1 + flights c ≡ flights r.0) q original response c
        (omega arith) (omega (arith, posts-give_up q error c, flights_after_give_up q error c))
        (λ token.
          refresh-posts
            (record { promise = q; original = original; error = normalize_axios_error response })
            token c)

  failed_step-posts :
      (q : ℕ) (f : Failure) (c : Client)
      → posts (step (failed q f) c).1 + flights c ≡ flights (step (failed q f) c).0
  unfolding step
  failed_step-posts q f c = failed-posts q f c

  -- How many of the events answer a refresh that is under way.
  unfoldable pub refreshes_answered : List Event → Client → ℕ
  refreshes_answered [] c = 0
  refreshes_answered (failed q f ∷ es) c = refreshes_answered es (step (failed q f) c).0
  refreshes_answered (settled t ∷ es) c = flights c + refreshes_answered es (step (settled t) c).0

  -- Refreshes never overlap: over any events, the refreshes posted and the one under way at the
  -- start are as many as the refreshes answered and the one under way at the end.
  pub run-posts :
      (es : List Event) (c : Client)
      → posts (run es c).1 + flights c ≡ flights (run es c).0 + refreshes_answered es c
  unfolding run refreshes_answered
  run-posts [] c = omega arith
  run-posts (failed q f ∷ es) c =
      let e : Event = failed q f in
      omega (
        arith,
        posts-append (step e c).1 (run es (step e c).0).1,
        failed_step-posts q f c,
        run-posts es (step e c).0,
      )
  run-posts (settled t ∷ es) c =
      let e : Event = settled t in
      omega (
        arith,
        posts-append (step e c).1 (run es (step e c).0).1,
        settled-posts t c,
        run-posts es (step e c).0,
      )
