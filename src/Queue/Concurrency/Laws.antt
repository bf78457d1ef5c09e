-- ===== src/Queue/Concurrency/Laws.antt =====
-- The workers of `mapWithConcurrency`: the places of the items.
use affiliate_platform_api.Prelude.{
  Bool, Bool-cases, List, Option, [], arith, false, false≢true, get_elem?, if◌then◌else◌, inl, inr,
  length, ltb, min, none, not, refl, replicate, set, some, suc, true, zero, ℕ, =?_iff, ◌+◌, ◌++◌,
  ◌&&◌, ◌<◌, ◌=?◌, ◌||◌, ◌≡◌, ◌≤◌, ◌⊎◌, ◌∷◌, ap, sym, ◌∙◌, subst,
}
use affiliate_platform_api.Queue.Concurrency.{
  Pool, answer, answer_all, has_index, result_of, start, start_workers, take_next, without_index,
}

has_index-append :
    (js ks : List ℕ) (i : ℕ) → has_index (js ++ ks) i ≡ (has_index js i || has_index ks i)
has_index-append [] ks i = refl
has_index-append (j ∷ js) ks i = ground (arith, has_index-append js ks i)

has_index-without :
    (i j : ℕ) (js : List ℕ) → has_index (without_index i js) j ≡ (not (i =? j) && has_index js j)
has_index-without i j [] = ground arith
has_index-without i j (k ∷ js) =
    ground (arith, has_index-without i j js, =?_iff i j, =?_iff k i, =?_iff k j)

abbrev pub Distinct : List ℕ → Type 0
Distinct [] = Unit
Distinct (j ∷ js) = (has_index js j ≡ false) × Distinct js

Distinct-without : (i : ℕ) (js : List ℕ) → Distinct js → Distinct (without_index i js)
Distinct-without i [] h = tt
Distinct-without i (j ∷ js) (fresh, h) =
    ground (arith, Distinct-without i js h, has_index-without i j js)

Distinct-concat :
    (js : List ℕ) (i : ℕ) → Distinct js → has_index js i ≡ false → Distinct (js ++ i ∷ [])
Distinct-concat [] i h k = (refl, tt)
Distinct-concat (j ∷ js) i (fresh, h) k = (
  ground (arith, has_index-append js (i ∷ []) j, =?_iff j i, =?_iff i j),
  Distinct-concat js i h (ground arith),
)

length-without_missing :
    (i : ℕ) (js : List ℕ) → has_index js i ≡ false → length (without_index i js) ≡ length js
length-without_missing i [] h = refl
length-without_missing i (j ∷ js) h = ground (arith, length-without_missing i js)

pub length-without :
    (i : ℕ) (js : List ℕ)
    → Distinct js
    → has_index js i ≡ true
    → length (without_index i js) + 1 ≡ length js
length-without i [] d h = absurd (false≢true h)
length-without i (j ∷ js) (fresh, d) h = elim (Bool-cases (j =? i)) [
  | inl same ↦
      let e : j ≡ i = (=?_iff j i).0 same in
      let gone : has_index js i ≡ false = subst (λ k. has_index js k ≡ false) e fresh in
      ground (arith, length-without_missing i js gone)
  | inr other ↦ ground (arith, length-without i js d (ground arith))
]

module _ {A : Type 0} where
  length-set : (xs : List A) (i : ℕ) (v : A) → length (set xs i v) ≡ length xs
  length-set [] i v = refl
  length-set (x ∷ xs) zero v = refl
  length-set (x ∷ xs) (suc i) v = ap suc (length-set xs i v)

  get_elem?-set_same :
      (xs : List A) (i : ℕ) (v : A) → i < length xs → get_elem? (set xs i v) i ≡ some v
  get_elem?-set_same [] i v h = absurd (omega (arith, h))
  get_elem?-set_same (x ∷ xs) zero v h = refl
  get_elem?-set_same (x ∷ xs) (suc i) v h = get_elem?-set_same xs i v (omega (arith, h))

  get_elem?-set_other :
      (xs : List A) (i j : ℕ) (v : A) → (i =? j) ≡ false → get_elem? (set xs i v) j ≡ get_elem? xs j
  get_elem?-set_other [] i j v h = refl
  get_elem?-set_other (x ∷ xs) zero zero v h = absurd (false≢true (sym h ∙ (=?_iff 0 0).1 refl))
  get_elem?-set_other (x ∷ xs) zero (suc j) v h = refl
  get_elem?-set_other (x ∷ xs) (suc i) zero v h = refl
  get_elem?-set_other (x ∷ xs) (suc i) (suc j) v h =
      get_elem?-set_other xs i j v (ground (arith, h, =?_iff i j, =?_iff (suc i) (suc j)))

module _ {A R : Type 0} (items : List A) (mapper : A → R) where
  -- Where an index is: not taken yet, in flight, or answered.
  abbrev pub Where : Pool R → ℕ → Type 0
  Where p i =
      ((p.next_index ≤ i) × (has_index p.in_flight i ≡ false))
      ⊎ (((i < p.next_index) × (has_index p.in_flight i ≡ true))
          ⊎ ((i < p.next_index)
              × (has_index p.in_flight i ≡ false)
              × (get_elem? p.results i ≡ some (result_of items mapper (get_elem? items i)))))

  pub record IsPool (p : Pool R) : Type 0 where
    pub sized : length p.results ≡ length items
    pub below : p.next_index ≤ length items
    pub distinct : Distinct p.in_flight
    pub placed : (i : ℕ) → Where p i

  taken :
      (more : Bool) (p : Pool R)
      → ltb p.next_index (length items) ≡ more
      → IsPool p
      → IsPool (
          if more
          then record p {
            next_index = p.next_index + 1;
            in_flight = p.in_flight ++ p.next_index ∷ [];
          }
          else p)
  taken false p h i = i
  taken true p h i = record {
    sized = i.sized;
    below = ground (arith, h);
    distinct = Distinct-concat p.in_flight p.next_index i.distinct (elim (i.placed p.next_index) [
      | inl (late, free) ↦ free
      | inr (inl (early, held)) ↦ absurd (omega (arith, early))
      | inr (inr (early, free, there)) ↦ free
    ]);
    placed = λ j. elim (i.placed j) [
      | inl (late, free) ↦ elim (Bool-cases (p.next_index =? j)) [
        | inl same ↦ inr (
            inl (
              ground (arith, =?_iff p.next_index j),
              ground (arith, has_index-append p.in_flight (p.next_index ∷ []) j),
            ))
        | inr other ↦ inl (
          ground (arith, late, =?_iff p.next_index j),
          ground (arith, has_index-append p.in_flight (p.next_index ∷ []) j),
        )
      ]
      | inr (inl (early, held)) ↦ inr (
          inl (
            omega (arith, early),
            ground (arith, has_index-append p.in_flight (p.next_index ∷ []) j),
          ))
      | inr (inr (early, free, there)) ↦ inr (
          inr (
            omega (arith, early),
            ground (
              arith,
              early,
              has_index-append p.in_flight (p.next_index ∷ []) j,
              =?_iff p.next_index j,
            ),
            there,
          ))
    ];
  }

  take_next-IsPool : (p : Pool R) → IsPool p → IsPool (take_next items mapper p)
  unfolding take_next
  take_next-IsPool p i = taken (ltb p.next_index (length items)) p refl i

  held-early : (p : Pool R) (i : ℕ) → IsPool p → has_index p.in_flight i ≡ true → i < p.next_index
  held-early p i q h = elim (q.placed i) [
    | inl (late, free) ↦ absurd (false≢true (sym free ∙ h))
    | inr (inl (early, held)) ↦ early
    | inr (inr (early, free, there)) ↦ early
  ]

  answered-IsPool :
      (p : Pool R) (i : ℕ)
      → IsPool p
      → has_index p.in_flight i ≡ true
      → IsPool (record p {
        in_flight = without_index i p.in_flight;
        results = set p.results i (result_of items mapper (get_elem? items i));
      })
  answered-IsPool p i q h =
      let early = held-early p i q h in
      let value = result_of items mapper (get_elem? items i) in
      let room : i < length p.results = omega (arith, early, q.sized, q.below) in
      record {
        sized = length-set p.results i value ∙ q.sized;
        below = q.below;
        distinct = Distinct-without i p.in_flight q.distinct;
        placed = λ j. elim (Bool-cases (i =? j)) [
          | inl same ↦
              subst
                (Where (record p {
                  in_flight = without_index i p.in_flight;
                  results = set p.results i value;
                }))
                ((=?_iff i j).0 same)
                (inr (
                  inr (
                    early,
                    ground (arith, has_index-without i i p.in_flight, (=?_iff i i).1 refl),
                    get_elem?-set_same p.results i value room,
                  )))
          | inr other ↦ elim (q.placed j) [
            | inl (late, free) ↦ inl (late, ground (arith, has_index-without i j p.in_flight))
            | inr (inl (soon, held)) ↦
                inr (inl (soon, ground (arith, has_index-without i j p.in_flight)))
            | inr (inr (soon, free, there)) ↦ inr (
                inr (
                  soon,
                  ground (arith, has_index-without i j p.in_flight),
                  get_elem?-set_other p.results i j value other ∙ there,
                ))
          ]
        ];
      }

  pub answer-IsPool : (i : ℕ) (p : Pool R) → IsPool p → IsPool (answer items mapper i p)
  unfolding answer
  answer-IsPool i p q = go (has_index p.in_flight i) refl
    where
      go :
          (b : Bool)
          → has_index p.in_flight i ≡ b
          → IsPool (
              if b
              then take_next items mapper (record p {
                in_flight = without_index i p.in_flight;
                results = set p.results i (result_of items mapper (get_elem? items i));
              })
              else p)
      go true h = take_next-IsPool _ (answered-IsPool p i q h)
      go false h = q

  answer_all-IsPool : (is : List ℕ) (p : Pool R) → IsPool p → IsPool (answer_all items mapper is p)
  unfolding answer_all
  answer_all-IsPool [] p q = q
  answer_all-IsPool (i ∷ is) p q =
      answer_all-IsPool is (answer items mapper i p) (answer-IsPool i p q)

  start_workers-IsPool : (n : ℕ) (p : Pool R) → IsPool p → IsPool (start_workers items mapper n p)
  unfolding start_workers
  start_workers-IsPool zero p q = q
  start_workers-IsPool (suc n) p q =
      start_workers-IsPool n (take_next items mapper p) (take_next-IsPool p q)

  length-replicate : (n : ℕ) (v : Option R) → length (replicate n v) ≡ n
  length-replicate zero v = refl
  length-replicate (suc n) v = ap suc (length-replicate n v)

  pub start-IsPool : (concurrency : ℕ) → IsPool (start items mapper concurrency)
  unfolding start
  start-IsPool concurrency = start_workers-IsPool (min concurrency (length items)) _ (record {
    sized = length-replicate (length items) none;
    below = omega arith;
    distinct = tt;
    placed = λ j. inl (omega arith, refl);
  })

  -- From the start on, whatever answers arrive in whatever order: every index is either not taken
  -- yet, or held by exactly one worker, or answered once and for all with the result of its item.
  pub mapped-IsPool :
      (concurrency : ℕ) (answers : List ℕ)
      → IsPool (answer_all items mapper answers (start items mapper concurrency))
  mapped-IsPool concurrency answers =
      answer_all-IsPool answers (start items mapper concurrency) (start-IsPool concurrency)
