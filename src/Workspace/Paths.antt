-- ===== src/Workspace/Paths.antt =====
-- Which request paths belong to a workspace, and which cached queries a change of workspace drops.
use Prim.Native.Char.{code}
use Prim.Native.String
use text.Mathlib.TextEquality.{Char-path}
use text.Mathlib.TextLemmas.{nil-append, cons-append, append_assoc, append-nil}
use affiliate_platform_api.Prelude.{
  All-includes, Bool, List, String, [], false, some, true, ◌∷◌, ◌≡◌, arith, eq_iff, refl,
  Bool-cases, inl, inr, ap, ◌==◌, ◌=?◌, Option-cases, ◌⊎◌, ◌↔◌, some?, sym, ◌∙◌, includes, =?_iff,
  eq_refl,
}
use affiliate_platform_api.Workspace.{
  is_scoped_pathname, is_under, starts_with, strip_prefix, without_api_root,
  workspace_scoped_prefixes,
}

infixr 65 ◌++◌
abbrev pub ◌++◌ : String → String → String
s ++ t = String.◌++◌ s t

strip_prefix_sound : (p s r : String) → strip_prefix p s ≡ some r → s ≡ p ++ r
strip_prefix_sound String.[] s r h = rw nil-append (cc)
strip_prefix_sound (String.◌∷◌ c p) String.[] r h = cc
strip_prefix_sound (String.◌∷◌ c p) (String.◌∷◌ d s) r h = elim (Bool-cases (code c =? code d)) [
  | inl same ↦
      let e : c ≡ d = Char-path c d ((=?_iff _ _).0 same) in
      rw (cons-append, ← e, strip_prefix_sound p s r (ground arith)) refl
  | inr other ↦ ground arith
]

strip_prefix-append : (p r : String) → strip_prefix p (p ++ r) ≡ some r
strip_prefix-append String.[] r = rw nil-append refl
strip_prefix-append (String.◌∷◌ c p) r =
    rw (cons-append, (=?_iff (code c) (code c)).1 refl) (strip_prefix-append p r)

starts_with_sound : (p s : String) → starts_with p s ≡ true → (r : String) × (s ≡ p ++ r)
starts_with_sound p s h = elim (Option-cases (strip_prefix p s)) [
  | inl missed ↦ ground arith
  | inr (r, found) ↦ (r, strip_prefix_sound p s r found)
]

starts_with-append : (p r : String) → starts_with p (p ++ r) ≡ true
starts_with-append p r = rw (strip_prefix-append p r)

-- A path at a prefix or below it.
abbrev pub Under : String → String → Type 0
Under prefix path = (path ≡ prefix) ⊎ ((rest : String) × (path ≡ prefix ++ "/" ++ rest))

is_under_iff : (path prefix : String) → (is_under path prefix ≡ true) ↔ Under prefix path
is_under_iff path prefix = (sound, complete)
  where
    sound : is_under path prefix ≡ true → Under prefix path
    sound h = elim (Bool-cases (path == prefix)) [
      | inl same ↦ inl ((eq_iff path prefix).0 same)
      | inr other ↦
          let (r, e) = starts_with_sound (prefix ++ "/") path (ground arith) in
          inr (r, e ∙ append_assoc prefix "/" r)
    ]

    complete : Under prefix path → is_under path prefix ≡ true
    complete (inl e) = ground (arith, eq_iff path prefix)
    complete (inr (r, e)) =
        let s : starts_with (prefix ++ "/") path ≡ true =
          rw (e, ← append_assoc) (starts_with-append (prefix ++ "/") r) in
        ground (arith, s)

-- A path in the scope of a workspace: at or below one of the five prefixes, by itself or behind the
-- root of the API.
abbrev pub InScope : String → Type 0
InScope path =
    (q : String) × (prefix : String) × (includes workspace_scoped_prefixes prefix ≡ true)
    × ((path ≡ q) ⊎ (path ≡ "/api/v1" ++ q))
    × Under prefix q

some?-sound :
    (p : String → Bool) (xs : List String)
    → some? p xs ≡ true
    → (x : String) × (includes xs x ≡ true) × (p x ≡ true)
some?-sound p [] h = cc
some?-sound p (x ∷ xs) h = elim (Bool-cases (p x)) [
  | inl here ↦ (x, ground (arith, eq_refl x), here)
  | inr there ↦ let (y, listed, holds) = some?-sound p xs (ground arith) in (y, ground arith, holds)
]

some?-complete :
    (p : String → Bool) (xs : List String) (x : String)
    → includes xs x ≡ true
    → p x ≡ true
    → some? p xs ≡ true
some?-complete p [] x h k = cc
some?-complete p (y ∷ xs) x h k = elim (Bool-cases (y == x)) [
  | inl same ↦ let e : y ≡ x = (eq_iff y x).0 same in ground (arith, ap p e)
  | inr other ↦ ground (arith, some?-complete p xs x (ground arith) k)
]

without_api_root_sound :
    (path : String) → (path ≡ without_api_root path) ⊎ (path ≡ "/api/v1" ++ without_api_root path)
unfolding without_api_root
without_api_root_sound path = elim (Option-cases (strip_prefix "/api/v1" path)) [
  | inl e ↦ elim (Bool-cases (starts_with "/api/v1/" path)) [
    | inl b ↦ rw (b, e) (inl refl)
    | inr b ↦ rw b (inl refl)
  ]
  | inr (r, e) ↦ elim (Bool-cases (starts_with "/api/v1/" path)) [
    | inl b ↦ rw (b, e) (inr (strip_prefix_sound "/api/v1" path r e))
    | inr b ↦ rw b (inl refl)
  ]
]

-- No path below a prefix stands behind the root of the API.
not_api_root :
    (prefix rest : String)
    → includes workspace_scoped_prefixes prefix ≡ true
    → starts_with "/api/v1/" (prefix ++ rest) ≡ false
not_api_root prefix rest h =
    All-includes (λ p. starts_with "/api/v1/" (p ++ rest) ≡ false) workspace_scoped_prefixes prefix
      (
        rw (cons-append, cons-append) refl,
        (
          rw (cons-append, cons-append) refl,
          (
            rw (cons-append, cons-append) refl,
            (rw (cons-append, cons-append) refl, (rw (cons-append, cons-append) refl, tt)),
          ),
        ),
      )
      h

slash_first :
    (prefix : String)
    → includes workspace_scoped_prefixes prefix ≡ true
    → (t : String) × (prefix ≡ "/" ++ t)
slash_first prefix h =
    All-includes (λ p. (t : String) × (p ≡ "/" ++ t)) workspace_scoped_prefixes prefix
      (
        ("queues", refl),
        (
          ("channels", refl),
          (("facebook", refl), (("dashboard", refl), (("workspace-settings", refl), tt))),
        ),
      )
      h

-- A path below a prefix is the prefix with a rest, the empty one included.
Under-append : (prefix q : String) → Under prefix q → (rest : String) × (q ≡ prefix ++ rest)
Under-append prefix q (inl e) = ("", e ∙ sym (append-nil prefix))
Under-append prefix q (inr (rest, e)) = ("/" ++ rest, e)

without_api_root_self :
    (q prefix : String)
    → includes workspace_scoped_prefixes prefix ≡ true
    → Under prefix q
    → without_api_root q ≡ q
unfolding without_api_root
without_api_root_self q prefix h u =
    let (rest, e) = Under-append prefix q u in
    let no_root : starts_with "/api/v1/" q ≡ false = rw e (not_api_root prefix rest h) in rw no_root

without_api_root-strip :
    (q prefix : String)
    → includes workspace_scoped_prefixes prefix ≡ true
    → Under prefix q
    → without_api_root ("/api/v1" ++ q) ≡ q
unfolding without_api_root
without_api_root-strip q prefix h u =
    let (rest, e) = Under-append prefix q u in
    let (t, first) = slash_first prefix h in
    let behind : "/api/v1" ++ q ≡ "/api/v1/" ++ (t ++ rest) =
      ap (λ x. "/api/v1" ++ x) (e ∙ (rw (first, append_assoc) refl))
      ∙ sym (append_assoc "/api/v1" "/" (t ++ rest)) in
    let root : starts_with "/api/v1/" ("/api/v1" ++ q) ≡ true =
      rw behind (starts_with-append "/api/v1/" (t ++ rest)) in
    rw (root, strip_prefix-append "/api/v1" q)

-- A path name is in the scope of a workspace exactly when it is one of the five prefixes or stands
-- below one, by itself or behind "/api/v1".
pub is_scoped_pathname_iff : (path : String) → (is_scoped_pathname path ≡ true) ↔ InScope path
unfolding is_scoped_pathname
is_scoped_pathname_iff path = (sound, complete)
  where
    sound : some? (is_under (without_api_root path)) workspace_scoped_prefixes ≡ true → InScope path
    sound h =
        let (prefix, listed, under) =
          some?-sound (is_under (without_api_root path)) workspace_scoped_prefixes h in
        (
          without_api_root path,
          prefix,
          listed,
          without_api_root_sound path,
          (is_under_iff (without_api_root path) prefix).0 under,
        )

    complete :
        InScope path → some? (is_under (without_api_root path)) workspace_scoped_prefixes ≡ true
    complete (q, prefix, listed, inl e, u) =
        rw (e, without_api_root_self q prefix listed u)
          (some?-complete (is_under q) workspace_scoped_prefixes prefix listed
            ((is_under_iff q prefix).1 u))
    complete (q, prefix, listed, inr e, u) =
        rw (e, without_api_root-strip q prefix listed u)
          (some?-complete (is_under q) workspace_scoped_prefixes prefix listed
            ((is_under_iff q prefix).1 u))
