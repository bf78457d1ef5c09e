-- ===== src/Queue/Keys.antt =====
-- `queueKey` and `queueAttemptsKey` of frontend/src/features/queue/hooks/useQueue.ts, and the
-- comparison of keys: `JSON.stringify` tells keys apart exactly when their parts differ.
use affiliate_platform_api.Prelude.{
  Bool, Bool-cases, List, String, [], arith, eq_iff, false, inl, inr, refl, true, ◌&&◌, ◌++◌, ◌=?◌,
  ◌==◌, ◌↔◌, ◌≡◌, ◌∷◌, =?_iff, ap, ap₂, and-split, subst, sym, ◌∙◌, false≢true, ◌||◌, if◌then◌else◌,
}
use affiliate_platform_api.Workspace.{
  KeyPart, QueryKey, number, text, undefined, workspace_scoped_query_key,
}

unfoldable pub queue_key : String → QueryKey
unfolding workspace_scoped_query_key
queue_key workspace_id = workspace_scoped_query_key "queue" workspace_id []

unfoldable pub queue_attempts_key : String → String → QueryKey
unfolding queue_key
queue_attempts_key workspace_id id = queue_key workspace_id ++ (text "attempts" ∷ text id ∷ [])

abbrev pub same_part : KeyPart → KeyPart → Bool
same_part (text s) (text t) = s == t
same_part (number m) (number n) = m =? n
same_part undefined undefined = true
same_part _ _ = false

abbrev pub same_key : QueryKey → QueryKey → Bool
same_key [] [] = true
same_key (a ∷ k) (b ∷ l) = same_part a b && same_key k l
same_key _ _ = false

same_part_sound : (a b : KeyPart) → same_part a b ≡ true → a ≡ b
same_part_sound (text s) (text t) h = ap text ((eq_iff s t).0 h)
same_part_sound (number m) (number n) h = ap number ((=?_iff m n).0 h)
same_part_sound undefined undefined h = refl
same_part_sound (text s) (number n) h = cc
same_part_sound (text s) undefined h = cc
same_part_sound (number m) (text t) h = cc
same_part_sound (number m) undefined h = cc
same_part_sound undefined (text t) h = cc
same_part_sound undefined (number n) h = cc

same_part_refl : (a : KeyPart) → same_part a a ≡ true
same_part_refl (text s) = (eq_iff s s).1 refl
same_part_refl (number m) = (=?_iff m m).1 refl
same_part_refl undefined = refl

same_key_sound : (k l : QueryKey) → same_key k l ≡ true → k ≡ l
same_key_sound [] [] h = refl
same_key_sound [] (b ∷ l) h = cc
same_key_sound (a ∷ k) [] h = cc
same_key_sound (a ∷ k) (b ∷ l) h =
    let (p, q) = and-split (same_part a b) (same_key k l) h in
    ap₂ ◌∷◌ (same_part_sound a b p) (same_key_sound k l q)

pub same_key_refl : (k : QueryKey) → same_key k k ≡ true
same_key_refl [] = refl
same_key_refl (a ∷ k) = ground (arith, same_part_refl a, same_key_refl k)

pub same_key_iff : (k l : QueryKey) → (same_key k l ≡ true) ↔ (k ≡ l)
same_key_iff k l = (same_key_sound k l, λ e. subst (λ m. same_key k m ≡ true) e (same_key_refl k))

-- The keys of a `Map`, in the order of insertion.
abbrev pub has_key : List QueryKey → QueryKey → Bool
has_key [] k = false
has_key (l ∷ ls) k = same_key l k || has_key ls k

-- `pending.set(JSON.stringify(key), key)`
abbrev pub add_key : List QueryKey → QueryKey → List QueryKey
add_key ls k = if has_key ls k then ls else ls ++ k ∷ []

abbrev pub add_keys : List QueryKey → List QueryKey → List QueryKey
add_keys ls [] = ls
add_keys ls (k ∷ ks) = add_keys (add_key ls k) ks

abbrev pub NoRepeat : List QueryKey → Type 0
NoRepeat [] = Unit
NoRepeat (l ∷ ls) = (has_key ls l ≡ false) × NoRepeat ls

has_key-append :
    (ls ks : List QueryKey) (k : QueryKey) → has_key (ls ++ ks) k ≡ (has_key ls k || has_key ks k)
has_key-append [] ks k = refl
has_key-append (l ∷ ls) ks k = ground (arith, has_key-append ls ks k)

has_key-add_key :
    (ls : List QueryKey) (k j : QueryKey)
    → has_key (add_key ls k) j ≡ (has_key ls j || same_key k j)
has_key-add_key ls k j = elim (Bool-cases (has_key ls k)) [
  | inl old ↦ elim (Bool-cases (same_key k j)) [
    | inl same ↦ let e : k ≡ j = same_key_sound k j same in ground (arith, ap (has_key ls) e)
    | inr other ↦ ground arith
  ]
  | inr new ↦ ground (arith, has_key-append ls (k ∷ []) j)
]

pub has_key-add_keys :
    (ls ks : List QueryKey) (j : QueryKey)
    → has_key (add_keys ls ks) j ≡ (has_key ls j || has_key ks j)
has_key-add_keys ls [] j = ground arith
has_key-add_keys ls (k ∷ ks) j =
    ground (arith, has_key-add_keys (add_key ls k) ks j, has_key-add_key ls k j)

same_key_sym : (k l : QueryKey) → same_key k l ≡ false → same_key l k ≡ false
same_key_sym k l h = elim (Bool-cases (same_key l k)) [
  | inl same ↦
      let e : l ≡ k = same_key_sound l k same in
      absurd (false≢true (sym h ∙ (same_key_iff k l).1 (sym e)))
  | inr other ↦ other
]

NoRepeat-concat :
    (ls : List QueryKey) (k : QueryKey)
    → NoRepeat ls
    → has_key ls k ≡ false
    → NoRepeat (ls ++ k ∷ [])
NoRepeat-concat [] k h n = (refl, tt)
NoRepeat-concat (l ∷ ls) k (fresh, h) n = (
  ground (arith, has_key-append ls (k ∷ []) l, same_key_sym l k),
  NoRepeat-concat ls k h (ground arith),
)

pub NoRepeat-add_keys : (ls ks : List QueryKey) → NoRepeat ls → NoRepeat (add_keys ls ks)
NoRepeat-add_keys ls [] h = h
NoRepeat-add_keys ls (k ∷ ks) h = NoRepeat-add_keys (add_key ls k) ks (added (has_key ls k) refl)
  where
    added : (b : Bool) → has_key ls k ≡ b → NoRepeat (if b then ls else ls ++ k ∷ [])
    added true e = h
    added false e = NoRepeat-concat ls k h e
