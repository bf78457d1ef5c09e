-- ===== src/Workspace/Active.antt =====
-- Which workspace is active: what `normalizeWorkspaceId` lets through, and the way through the
-- session.
use Prim.Native.Char.{Char, code}
use affiliate_platform_api.Prelude.{
  List, Option, String, [], false, is_space, none, or_else, some, trim, trim_end, trim_start, true,
  ◌∷◌, ◌≡◌, arith, eq_iff, get-put, get-delete, refl, Bool-cases, inl, inr, and-split, ℕ, ◌==◌,
  ◌=?◌, Option-cases,
}
use text.Mathlib.TextLemmas.{cons≢nil}
use affiliate_platform_api.Session.{
  Session, active_workspace_key, clear_active_workspace_id, get_active_workspace_id,
  set_active_workspace_id,
}
use affiliate_platform_api.Workspace.{
  Slot, active_workspace_id, dash, fits, fits_all, hex, is_usable_workspace_id, is_uuid,
  normalize_workspace_id, is_hex, lower_char, lowers_to, store_active_workspace_id,
  store_normalized, uuid_slots,
}

NoSpace : String → Type 0
NoSpace String.[] = Unit
NoSpace (String.◌∷◌ c s) = (is_space (code c) ≡ false) × NoSpace s

trim_start-NoSpace : (s : String) → NoSpace s → trim_start s ≡ s
unfolding trim_start NoSpace
trim_start-NoSpace String.[] h = refl
trim_start-NoSpace (String.◌∷◌ c s) (h, k) = rw h

trim_end-NoSpace : (s : String) → NoSpace s → trim_end s ≡ s
unfolding trim_end NoSpace
trim_end-NoSpace String.[] h = refl
trim_end-NoSpace (String.◌∷◌ c String.[]) (h, k) = rw h
trim_end-NoSpace (String.◌∷◌ c (String.◌∷◌ d s)) (h, k) = rw (trim_end-NoSpace (String.◌∷◌ d s) k)

trim-NoSpace : (s : String) → NoSpace s → trim s ≡ s
unfolding trim
trim-NoSpace s h = rw (trim_start-NoSpace s h) (trim_end-NoSpace s h)

fits-space : (p : Slot) (n : ℕ) → fits p n ≡ true → is_space n ≡ false
fits-space hex n h = ground arith
fits-space dash n h = ground arith

fits_all-NoSpace : (ps : List Slot) (s : String) → fits_all ps s ≡ true → NoSpace s
unfolding fits_all NoSpace
fits_all-NoSpace [] String.[] h = tt
fits_all-NoSpace [] (String.◌∷◌ c s) h = cc
fits_all-NoSpace (p ∷ ps) String.[] h = tt
fits_all-NoSpace (p ∷ ps) (String.◌∷◌ c s) h =
    let (a, b) = and-split (fits p (code c)) (fits_all ps s) h in
    (fits-space p (code c) a, fits_all-NoSpace ps s b)

cons-ne-empty : (c : Char) (s : String) → (String.◌∷◌ c s == "") ≡ false
cons-ne-empty c s = elim (Bool-cases (String.◌∷◌ c s == "")) [
  | inl same ↦ absurd (cons≢nil ((eq_iff _ _).0 same))
  | inr other ↦ other
]

hex-ne-u : (n : ℕ) → is_hex n ≡ true → (lower_char n =? 117) ≡ false
hex-ne-u n h = ground arith

hex-ne-n : (n : ℕ) → is_hex n ≡ true → (lower_char n =? 110) ≡ false
hex-ne-n n h = ground arith

lowers_to-undefined :
    (c : Char) (s : String)
    → is_hex (code c) ≡ true
    → lowers_to (String.◌∷◌ c s) "undefined" ≡ false
lowers_to-undefined c s h = rw (hex-ne-u (code c) h)

lowers_to-null :
    (c : Char) (s : String) → is_hex (code c) ≡ true → lowers_to (String.◌∷◌ c s) "null" ≡ false
lowers_to-null c s h = rw (hex-ne-n (code c) h)

is_usable-is_uuid : (w : String) → is_uuid w ≡ true → is_usable_workspace_id w ≡ true
unfolding is_usable_workspace_id is_uuid
is_usable-is_uuid String.[] h = cc
is_usable-is_uuid (String.◌∷◌ c s) h =
    let first = (and-split (is_hex (code c)) _ h).0 in
    rw (trim-NoSpace (String.◌∷◌ c s) (fits_all-NoSpace uuid_slots (String.◌∷◌ c s) h)) (
      ground (arith, h, cons-ne-empty c s, lowers_to-undefined c s first, lowers_to-null c s first))

is_uuid-trim : (v : String) → is_usable_workspace_id v ≡ true → is_uuid (trim v) ≡ true
unfolding is_usable_workspace_id
is_uuid-trim v h = ground arith

normalize_of_is_uuid : (w : String) → is_uuid w ≡ true → normalize_workspace_id (some w) ≡ some w
unfolding normalize_workspace_id is_uuid
normalize_of_is_uuid w h =
    rw (is_usable-is_uuid w h, trim-NoSpace w (fits_all-NoSpace uuid_slots w h))

-- Every id that normalisation lets through is a UUID, has no white space round it, and is let through
-- unchanged when it is normalised again.
pub normalize_workspace_id-is_uuid :
    (value : Option String) {w : String}
    → normalize_workspace_id value ≡ some w
    → (is_uuid w ≡ true) × (trim w ≡ w) × (normalize_workspace_id (some w) ≡ some w)
unfolding normalize_workspace_id
normalize_workspace_id-is_uuid none h = cc
normalize_workspace_id-is_uuid (some v) {w} h = elim (Bool-cases (is_usable_workspace_id v)) [
  | inl ok ↦
      let e : trim v ≡ w = ground arith in
      let u : is_uuid w ≡ true = rw e at (is_uuid-trim v ok) in
      (
        u,
        unfold is_uuid in trim-NoSpace w (fits_all-NoSpace uuid_slots w u),
        normalize_of_is_uuid w u,
      )
  | inr bad ↦ ground arith
]

stored_after_clear :
    (s : Session) → s.browser ≡ true → get_active_workspace_id (clear_active_workspace_id s) ≡ none
unfolding get_active_workspace_id clear_active_workspace_id
stored_after_clear s b =
    ground (arith, get-delete active_workspace_key active_workspace_key s.storage)

stored_after_set :
    (w : String) (s : Session)
    → s.browser ≡ true
    → get_active_workspace_id (set_active_workspace_id w s) ≡ some w
unfolding get_active_workspace_id set_active_workspace_id
stored_after_set w s b =
    ground (arith, get-put active_workspace_key active_workspace_key w s.storage)

active_after_store :
    (env n : Option String) (s : Session)
    → s.browser ≡ true
    → normalize_workspace_id n ≡ n
    → active_workspace_id env (store_normalized n s) ≡ or_else n (normalize_workspace_id env)
unfolding active_workspace_id
active_after_store env none s b h = rw (stored_after_clear s b, h) refl
active_after_store env (some w) s b h = rw (stored_after_set w s b, h) refl

normalize_twice :
    (value : Option String)
    → normalize_workspace_id (normalize_workspace_id value) ≡ normalize_workspace_id value
normalize_twice value = elim (Option-cases (normalize_workspace_id value)) [
  | inl bad ↦ rw bad (unfold normalize_workspace_id in refl)
  | inr (w, good) ↦ rw good (normalize_workspace_id-is_uuid value good).2
]

-- In a browser, storing a workspace and asking for the active one answers the normalised id, and
-- the default of the build (normalised) where the stored value is no usable id.
pub active_workspace_id-store :
    (env : Option String) (value : String) (s : Session)
    → s.browser ≡ true
    → active_workspace_id env (store_active_workspace_id value s)
      ≡ or_else (normalize_workspace_id (some value)) (normalize_workspace_id env)
unfolding store_active_workspace_id
active_workspace_id-store env value s b =
    active_after_store env (normalize_workspace_id (some value)) s b (normalize_twice (some value))
