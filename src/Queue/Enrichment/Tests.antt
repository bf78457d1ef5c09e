-- ===== src/Queue/Enrichment/Tests.antt =====
-- A failed post and a published one, a second list of the published one alone, and late answers.
use affiliate_platform_api.Prelude.{List, [], none, refl, some, true, false, ◌≡◌, ◌∷◌, String}
use affiliate_platform_api.Queue.Types.{QueueItem, QueueStatus, failed, published}
use affiliate_platform_api.Queue.Concurrency.{answer, start, start_workers, take_next}
use affiliate_platform_api.Queue.Enrichment.{
  Event, Summary, answers, answers_older, enriched_items, initial_enrichment, list_changes,
  on_event, on_list,
}
use affiliate_platform_api.Queue.Enrichment.Laws.{IsSound}
use affiliate_platform_api.Queue.Enrichment.Answers.{run_events, run_events-IsSound}

abbrev post : String → QueueStatus → QueueItem
post id status = record {
  id = id;
  title = none;
  content = "A lamp";
  status = status;
  scheduled_at = none;
  published_at = none;
  channel_id = none;
  product_id = none;
  image_url = none;
  button_text = none;
  button_url = none;
  created_at = "1";
  updated_at = "1";
  last_attempt = none;
  failure_reason = none;
  retry_count = 0;
}

abbrev both : List QueueItem
both = post "broken" failed ∷ post "done" published ∷ []

abbrev refused_twice : Summary
refused_twice = record { last_attempt = none; failure_reason = some "refused"; retry_count = 2 }

-- The answer to the first list comes after the second list.
abbrev events : List Event
events =
    list_changes both
    ∷ answers_older 0 0 none
    ∷ list_changes both
    ∷ answers_older 0 0 (some refused_twice)
    ∷ []

first_IsSound : IsSound [] initial_enrichment
first_IsSound = record { latest_targets = refl; agrees = (refl, λ j. refl); older_cancelled = tt }

run_events-IsSound_example : IsSound both (run_events events initial_enrichment)
run_events-IsSound_example = run_events-IsSound events [] initial_enrichment first_IsSound

stays_enriching : (run_events events initial_enrichment).enriching ≡ true
unfolding on_event on_list start start_workers take_next answer
stays_enriching = refl

shown :
    enriched_items both
      (run_events (list_changes both ∷ answers 0 (some refused_twice) ∷ []) initial_enrichment)
    ≡ record (post "broken" failed) { failure_reason = some "refused"; retry_count = 2 }
      ∷ post "done" published
      ∷ []
unfolding enriched_items on_event on_list start start_workers take_next answer
shown = refl

ends : (run_events (list_changes both ∷ answers 0 none ∷ []) initial_enrichment).enriching ≡ false
unfolding on_event on_list start start_workers take_next answer
ends = refl
