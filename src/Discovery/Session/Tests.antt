-- ===== src/Discovery/Session/Tests.antt =====
-- A session of a search that has found a lamp, and the laws at it. The storage keeps what it is given.
use affiliate_platform_api.Prelude.{
  List, Option, String, [], false, none, refl, some, true, ℕ, ◌≡◌, ◌∷◌,
}
use affiliate_platform_api.Discovery.Types.{
  DiscoveryProduct, DiscoveryResponse, DiscoverySessionSnapshot, hot, no_params, orders_desc,
  success,
}
use affiliate_platform_api.Discovery.Normalize.{
  missing, normalize_discovery_response, numeric, text,
}
use affiliate_platform_api.Discovery.Session.{
  Codec, StoredSession, clear_discovery_session, empty_session, load_discovery_session,
  save_discovery_session, store_session,
}
use affiliate_platform_api.Discovery.Session.Laws.{
  IsSound, Operation, empty_session-IsSound, errs, imports, load-save_discovery_session,
  operate_all, operate_all-IsSound, reloads, runs, last_run_of, never,
}

abbrev plain : Codec StoredSession
plain = record { is_blank = λ t. false; stringify = store_session; parse = λ t. some t }

abbrev digits : String → Option ℕ
digits s = none

abbrev lamp : DiscoveryProduct
lamp = record {
  id = none;
  aliexpress_product_id = "1005";
  title = "Lamp";
  description = none;
  price = 1250;
  original_price = none;
  discount = 10;
  rating = 480;
  sales = 77;
  reviews = 3;
  image_url = "https://i";
  product_url = "https://p";
  affiliate_url = none;
  commission_rate = some 7;
  score = 90;
}

abbrev one_lamp : DiscoveryResponse
one_lamp = record {
  items = lamp ∷ [];
  total = 1;
  skip = 0;
  limit = 20;
  page = 1;
  total_pages = 1;
  mode = hot;
  order = orders_desc;
  persisted_count = 0;
}

abbrev searched : DiscoverySessionSnapshot
searched = record empty_session {
  committed_params = some no_params;
  last_response = some one_lamp;
  last_run_status = success;
  imported_ids = "1004" ∷ [];
}

cleared-load :
    load_discovery_session plain digits true
      (clear_discovery_session plain true (some (store_session searched)))
    ≡ empty_session
unfolding load_discovery_session
cleared-load = refl

raw_numbers :
    (normalize_discovery_response
      (λ s. some 5)
      (record {
        items = [];
        total = text "5";
        skip = missing;
        limit = text "";
        page = missing;
        total_pages = numeric 3;
        mode = hot;
        order = orders_desc;
        persisted_count = missing;
      })).page
    ≡ 1
unfolding normalize_discovery_response
raw_numbers = refl

load-save_discovery_session_example :
    load_discovery_session plain digits true (save_discovery_session plain true searched none)
    ≡ searched
load-save_discovery_session_example =
    load-save_discovery_session plain digits searched none (record { reads = refl; writes = refl })
      refl

abbrev history : List Operation
history = runs no_params ∷ reloads ∷ errs "12:00" "No network" ∷ imports ("1" ∷ "1" ∷ []) ∷ []

operate_all-IsSound_example :
    IsSound (last_run_of history never) (operate_all plain digits history empty_session)
operate_all-IsSound_example =
    operate_all-IsSound plain digits history never empty_session
      (λ t. record { reads = refl; writes = refl }) empty_session-IsSound
