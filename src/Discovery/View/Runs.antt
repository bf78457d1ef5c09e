-- ===== src/Discovery/View/Runs.antt =====
-- A run of a search, from the draft to its end.
use affiliate_platform_api.Prelude.{
  Bool, Bool-cases, Option, String, [], arith, false, get_or, inl, inr, is_some, ltb, none, not,
  refl, some, true, ◌+◌, ◌&&◌, ◌≡◌, if◌then◌else◌, subst, sym,
}
use affiliate_platform_api.Discovery.Types.{
  DiscoveryMode, DiscoveryParams, DiscoveryResponse, category, deals, error, general, hot,
  recommended, running, success, trending,
}
use affiliate_platform_api.Discovery.Session.{mark_error, mark_running, mark_success}
use affiliate_platform_api.Discovery.Api.{
  Sent, discover_mode, discover_products, get_products, get_recommendations, is_category_mode,
  lacks_category, throws, validate_discovery_draft,
}
use affiliate_platform_api.Discovery.View.{
  Page, Query, found_or, image_search_active, next_params, on_discovery, run_checked, run_discovery,
  should_fetch,
}
use affiliate_platform_api.Discovery.View.Screen.{show_loading}

abbrev pub is_thrown : Sent → Bool
is_thrown (get_recommendations query) = false
is_thrown (get_products path query) = false
is_thrown (throws message) = true

mode_sends :
    (mode : DiscoveryMode) (params : DiscoveryParams)
    → (is_category_mode mode && lacks_category params.category_id) ≡ false
    → is_thrown (discover_mode mode params) ≡ false
mode_sends general params h = refl
mode_sends hot params h = refl
mode_sends deals params h = refl
mode_sends trending params h = refl
mode_sends recommended params h = refl
mode_sends category params h = rw h refl

checked_sends :
    (mode : Option DiscoveryMode) (params : DiscoveryParams)
    → (is_category_mode (get_or mode hot) && lacks_category params.category_id) ≡ false
    → is_thrown (discover_mode (get_or mode general) params) ≡ false
checked_sends none params h = refl
checked_sends (some mode) params h = mode_sends mode params h

-- What a run leaves: the message of a draft that is refused, or a run that has begun.
abbrev pub RunOutcome : Option String → DiscoveryParams → Page → Page → Type 0
RunOutcome (some message) params p p' = p' ≡ record p { action_error = some message }
RunOutcome none params p p' =
    (should_fetch p' ≡ true)
    × (p'.session.committed_params ≡ some (next_params params))
    × (p'.session.last_run_status ≡ running)
    × (p'.selected_ids ≡ [])
    × (is_thrown (discover_products (next_params params)) ≡ false)

run_starts :
    (params : DiscoveryParams) (p : Page)
    → (is_category_mode (get_or params.mode hot) && lacks_category params.category_id) ≡ false
    → RunOutcome none params p (run_checked none params p)
unfolding mark_running discover_products
run_starts params p h =
    (ground (arith), refl, refl, refl, checked_sends params.mode (next_params params) h)

-- To run a search: a draft by category without a category is refused, and then nothing changes on the
-- page but its message; any other draft is committed, with a page and a size, its query is enabled,
-- the selection is emptied and the run is shown as running, and the request that the query sends is
-- one that the client does not refuse for a missing category.
pub run_discovery_lem :
    (params : DiscoveryParams) (p : Page)
    → RunOutcome (validate_discovery_draft params) params p (run_discovery params p)
unfolding run_discovery validate_discovery_draft
run_discovery_lem params p =
    elim (Bool-cases
      (is_category_mode (get_or params.mode hot) && lacks_category params.category_id)) [
        | inl missing ↦ rw missing refl
        | inr complete ↦ rw complete (run_starts params p complete)
      ]

-- What the page holds once a query has brought results, or an error.
abbrev pub EndOutcome : Option DiscoveryResponse → Query → Page → Type 0
EndOutcome (some response) discovery p =
    (p.session.last_run_status ≡ success)
    × (p.session.last_response ≡ some response)
    × (p.session.last_error ≡ none)
EndOutcome none discovery p =
    (p.session.last_run_status ≡ error) × (p.session.last_error ≡ some discovery.message)

ended :
    (now : String) (params : DiscoveryParams) (discovery image_search : Query) (r : Page)
    (noted brought failed : Bool) (found : Option DiscoveryResponse)
    → noted ≡ true
    → brought ≡ is_some found
    → failed ≡ not (is_some found)
    → discovery.is_fetching ≡ false
    → image_search_active r ≡ false
    → (let p' : Page =
          if noted
          then record r {
            session = found_or now params discovery.message brought found failed r.session;
          }
          else r in
        EndOutcome found discovery p' × (show_loading discovery image_search p' ≡ false))
unfolding mark_success mark_error
ended now params discovery i r false b e found h k l m n = cc
ended now params discovery i r true true e (some response) h k l m n =
    ((refl, refl, refl), ground (arith))
ended now params discovery i r true false true none h k l m n = ((refl, refl), ground (arith))
ended now params discovery i r true false false none h k l m n = cc
ended now params discovery i r true true e none h k l m n = cc
ended now params discovery i r true false e (some response) h k l m n = cc

-- A run that was begun ends: as soon as its query is no longer fetching and has brought results, or
-- an error when there are none, the page notes it. The status is then that of a success, with these
-- results and no message, or that of an error, with its message; nothing is shown as loading.
pub run_ends :
    (now : String) (params : DiscoveryParams) (discovery image_search : Query) (p : Page)
    → validate_discovery_draft params ≡ none
    → discovery.is_fetching ≡ false
    → discovery.is_success ≡ is_some discovery.found
    → discovery.is_error ≡ not (is_some discovery.found)
    → (let p' : Page = on_discovery now discovery (run_discovery params p) in
        EndOutcome discovery.found discovery p' × (show_loading discovery image_search p' ≡ false))
unfolding run_discovery mark_running
run_ends now params discovery image_search p valid idle_now brought failed_now =
    let P = λ (r : Page).
      (let p' : Page = on_discovery now discovery r in
        EndOutcome discovery.found discovery p'
        × (show_loading discovery image_search p' ≡ false)) in
    subst (λ v. P (run_checked v params p)) (sym valid)
      (ended now (next_params params) discovery image_search (run_checked none params p)
        (not discovery.is_fetching && ltb 0 (p.run_token + 1)) discovery.is_success
        discovery.is_error discovery.found (ground (arith)) brought failed_now idle_now refl)
