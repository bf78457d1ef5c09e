-- ===== src/Queue/Publishing/Tests.antt =====
-- A batch of three posts: accepted, refused as a conflict, refused by the network.
use affiliate_platform_api.Prelude.{
  List, String, [], get, if◌then◌else◌, includes, none, not, refl, some, ◌&&◌, ◌==◌, ◌≡◌, ◌∷◌,
}
use affiliate_platform_api.Queue.Publishing.{
  Answer, Publishing, accepted, publish_each, publish_items, refused,
}
use affiliate_platform_api.Queue.Publishing.Laws.{failure_after, publish_items-failures}

abbrev answers : String → Answer
answers id =
    if id == "a"
    then accepted
    else if id == "b"
    then refused (record { message = some "Already published"; status = some 409 })
    else refused (record { message = some ""; status = some 0 })

abbrev noon : String → String
noon id = "12:00"

abbrev three : List String
three = "a" ∷ "b" ∷ "a" ∷ "c" ∷ []

abbrev idle : Publishing
idle = record {
  publishing_ids = "z" ∷ [];
  failures = ("a", record { message = "old"; occurred_at = "11:00" }) ∷ [];
  invalidated = [];
}

three_run : (publish_items none answers noon three idle).1 ≡ record {
  publishing_ids = "z" ∷ [];
  failures =
      ("c", record { message = "The post cannot be published."; occurred_at = "12:00" }) ∷ [];
  invalidated = [];
}
unfolding publish_items publish_each
three_run = refl

publish_items-failures_example :
    (let p' : Publishing = (publish_items none answers noon three idle).1 in
      (get "c" p'.failures ≡ (
        if includes three "c"
        then failure_after (answers "c") (noon "c") (get "c" idle.failures)
        else get "c" idle.failures))
      × (includes p'.publishing_ids "c"
          ≡ (includes idle.publishing_ids "c" && not (includes three "c"))))
publish_items-failures_example = publish_items-failures none answers noon three idle "c"
