-- ===== src/Queue/Concurrency/Tests.antt =====
-- Three items, two workers, answers out of order.
use affiliate_platform_api.Prelude.{List, [], refl, some, ℕ, ◌+◌, ◌≡◌, ◌∷◌}
use affiliate_platform_api.Queue.Concurrency.{answer, answer_all, start, start_workers, take_next}

abbrev three : List ℕ
three = 10 ∷ 20 ∷ 30 ∷ []

abbrev twice : ℕ → ℕ
twice n = n + n

abbrev out_of_order : List ℕ
out_of_order = 1 ∷ 2 ∷ 0 ∷ []

three-results :
    (answer_all three twice out_of_order (start three twice 2)).results
    ≡ some 20 ∷ some 40 ∷ some 60 ∷ []
unfolding answer_all answer start start_workers take_next
three-results = refl
