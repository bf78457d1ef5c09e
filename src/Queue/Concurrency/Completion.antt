-- ===== src/Queue/Concurrency/Completion.antt =====
-- The end of `mapWithConcurrency`: the results, and the number of workers that wait.
use affiliate_platform_api.Prelude.{
  Bool, List, Option, [], arith, false, false≢true, get_elem?, if◌then◌else◌, inl, inr, length,
  length-append, ltb, map, min, refl, set, some, suc, true, zero, ℕ, ◌+◌, ◌++◌, ◌<◌, ◌≡◌, ◌≢◌, ◌≤◌,
  ◌⊎◌, ◌∷◌, ap, ap₂, sym, ◌∙◌,
}
use affiliate_platform_api.Queue.Concurrency.{
  Pool, answer, answer_all, empty_pool, has_index, result_of, start, start_workers, take_next,
  without_index,
}
use affiliate_platform_api.Queue.Concurrency.Laws.{
  IsPool, answer-IsPool, length-without, mapped-IsPool, start-IsPool,
}

module _ {A R : Type 0} (items : List A) (mapper : A → R) where
  -- At most `w` workers wait, and all `w` of them while items are left.
  pub record IsBusy (w : ℕ) (p : Pool R) : Type 0 where
    pub bounded : length p.in_flight ≤ w
    pub busy : (p.next_index ≡ length items) ⊎ (length p.in_flight ≡ w)

  -- A worker that has just answered, of `w`, goes on.
  resumed :
      (w : ℕ) (more : Bool) (p : Pool R)
      → ltb p.next_index (length items) ≡ more
      → p.next_index ≤ length items
      → length p.in_flight + 1 ≤ w
      → (p.next_index ≡ length items) ⊎ (length p.in_flight + 1 ≡ w)
      → IsBusy w (
          if more
          then record p {
            next_index = p.next_index + 1;
            in_flight = p.in_flight ++ p.next_index ∷ [];
          }
          else p)
  resumed w true p h b room (inl full) = absurd (ground (arith, h, full))
  resumed w true p h b room (inr one_free) = record {
    bounded = omega (arith, room, length-append p.in_flight (p.next_index ∷ []));
    busy = inr (omega (arith, one_free, length-append p.in_flight (p.next_index ∷ [])));
  }
  resumed w false p h b room busy = record {
    bounded = omega (arith, room);
    busy = inl (ground (arith, h, b));
  }

  answer-IsBusy :
      (w i : ℕ) (p : Pool R)
      → IsPool items mapper p
      → IsBusy w p
      → IsBusy w (answer items mapper i p)
  unfolding answer take_next
  answer-IsBusy w i p q b = go (has_index p.in_flight i) refl
    where
      go :
          (held : Bool)
          → has_index p.in_flight i ≡ held
          → IsBusy w (
              if held
              then take_next items mapper (record p {
                in_flight = without_index i p.in_flight;
                results = set p.results i (result_of items mapper (get_elem? items i));
              })
              else p)
      go false h = b
      go true h =
          let shorter = length-without i p.in_flight q.distinct h in
          resumed w (ltb p.next_index (length items))
            (record p {
              in_flight = without_index i p.in_flight;
              results = set p.results i (result_of items mapper (get_elem? items i));
            })
            refl q.below (omega (arith, shorter, b.bounded))
            (elim b.busy [ inl full ↦ inl full | inr all ↦ inr (omega (arith, shorter, all)) ])

  answer_all-IsBusy :
      (w : ℕ) (answers : List ℕ) (p : Pool R)
      → IsPool items mapper p
      → IsBusy w p
      → IsBusy w (answer_all items mapper answers p)
  unfolding answer_all
  answer_all-IsBusy w [] p q b = b
  answer_all-IsBusy w (i ∷ is) p q b =
      answer_all-IsBusy w is (answer items mapper i p) (answer-IsPool items mapper i p q)
        (answer-IsBusy w i p q b)

  -- The first items are taken one for each worker.
  taken-length :
      (p : Pool R)
      → p.next_index < length items
      → ((take_next items mapper p).next_index ≡ p.next_index + 1)
        × (length (take_next items mapper p).in_flight ≡ length p.in_flight + 1)
  unfolding take_next
  taken-length p h = ground (arith, h, length-append p.in_flight (p.next_index ∷ []))

  start_workers-length :
      (n k : ℕ) (p : Pool R)
      → p.next_index ≡ k
      → length p.in_flight ≡ k
      → n + k ≤ length items
      → length (start_workers items mapper n p).in_flight ≡ n + k
  unfolding start_workers
  start_workers-length zero k p e l room = omega (arith, l)
  start_workers-length (suc n) k p e l room =
      let (e', l') = taken-length p (omega (arith, e, room)) in
      start_workers-length n (k + 1) (take_next items mapper p) (omega (arith, e, e'))
        (omega (arith, l, l')) (omega (arith, room))
      ∙ omega arith

  start-IsBusy :
      (concurrency : ℕ) → IsBusy (min concurrency (length items)) (start items mapper concurrency)
  unfolding start
  start-IsBusy concurrency =
      let w = min concurrency (length items) in
      let all = start_workers-length w 0 (empty_pool items mapper) refl refl (omega arith) in
      record { bounded = omega (arith, all); busy = inr (omega (arith, all)) }

  mapped :
      (items' : List A) (results : List (Option R))
      → length results ≡ length items'
      → ((i : ℕ)
          → i < length items'
          → get_elem? results i ≡ some (result_of items mapper (get_elem? items' i)))
      → results ≡ map (λ x. some (mapper x)) items'
  mapped [] [] e h = refl
  mapped [] (r ∷ results) e h = absurd (omega (arith, e))
  mapped (x ∷ xs) [] e h = absurd (omega (arith, e))
  mapped (x ∷ xs) (r ∷ results) e h =
      ap₂ (λ y ys. y ∷ ys) (some_inj (h 0 (omega arith)))
        (mapped xs results (omega (arith, e)) (λ i k. h (suc i) (omega (arith, k))))
    where
      some_inj : {a b : Option R} → some a ≡ some b → a ≡ b
      some_inj k = cc

  -- With at least one worker: whatever answers arrive in whatever order, never do more workers wait
  -- than were asked for, and if none waits any longer, every item has been mapped, and the results
  -- stand in the order of the items.
  pub mapped-results :
      (concurrency : ℕ) (answers : List ℕ)
      → 1 ≤ concurrency
      → (let p : Pool R = answer_all items mapper answers (start items mapper concurrency) in
          (length p.in_flight ≤ concurrency)
          × ((p.in_flight ≢ []) ⊎ (p.results ≡ map (λ x. some (mapper x)) items)))
  mapped-results concurrency answers positive =
      let q = mapped-IsPool items mapper concurrency answers in
      let b =
        answer_all-IsBusy (min concurrency (length items)) answers (start items mapper concurrency)
          (start-IsPool items mapper concurrency) (start-IsBusy concurrency) in
      (ground (arith, b.bounded), finished _ q b (_) refl)
    where
      finished :
          (p : Pool R)
          → IsPool items mapper p
          → IsBusy (min concurrency (length items)) p
          → (js : List ℕ) → p.in_flight ≡ js
          → (p.in_flight ≢ []) ⊎ (p.results ≡ map (λ x. some (mapper x)) items)
      finished p q b (j ∷ js) h = inl (λ e. cc)
      finished p q b [] h = inr (
          mapped items p.results q.sized (λ i k. elim (q.placed i) [
            | inl (late, free) ↦ absurd (elim b.busy [
              | inl full ↦ omega (arith, late, full, k)
              | inr all ↦ omega (arith, all, ap length h, positive, k)
            ])
            | inr (inl (early, held)) ↦
                absurd (false≢true (ap (λ js. has_index js i) (sym h) ∙ held))
            | inr (inr (early, free, there)) ↦ there
          ]))
