-- ===== src/Workspace.antt =====
-- frontend/src/lib/workspace.ts and lib/workspace-query-sync.tsx: which workspace is active, which
-- paths and which cached queries belong to a workspace.
-- `new URL(url, base).pathname` is the browser's: the parameter `url_pathname` takes the base, if
-- one is given, and answers `none` where the constructor throws.
pub mod Active
pub mod Paths
pub mod Cache
mod Tests
use Prim.Native.Char.{Char, code}
use Prim.Native.String
use affiliate_platform_api.Prelude.{
  Bool, List, Option, String, [], false, get_or, if◌then◌else◌, includes, is_some, leb, none,
  nonempty, not, or_else, replicate, same_text, select, some, some?, trim, true, ℕ, ◌&&◌, ◌+◌, ◌++◌,
  ◌=?◌, ◌==◌, ◌||◌, ◌∷◌,
}
use affiliate_platform_api.Session.{
  Session, clear_active_workspace_id, get_active_workspace_id, set_active_workspace_id,
}

abbrev pub workspace_header : String
workspace_header = "X-Workspace-Id"

-- `UUID_RE`: a place of the pattern is a hexadecimal digit of either case or a dash.
pub data Slot : Type 0 where
  hex dash : Slot

abbrev pub is_hex : ℕ → Bool
is_hex c = leb b'0' c && leb c b'9' || leb b'a' c && leb c b'f' || leb b'A' c && leb c b'F'

abbrev pub fits : Slot → ℕ → Bool
fits hex c = is_hex c
fits dash c = c =? b'-'

abbrev pub uuid_slots : List Slot
uuid_slots =
    replicate 8 hex
    ++ (dash ∷ replicate 4 hex)
    ++ (dash ∷ replicate 4 hex)
    ++ (dash ∷ replicate 4 hex)
    ++ (dash ∷ replicate 12 hex)

unfoldable pub fits_all : List Slot → String → Bool
fits_all [] String.[] = true
fits_all (p ∷ ps) (String.◌∷◌ c s) = fits p (code c) && fits_all ps s
fits_all _ _ = false

unfoldable pub is_uuid : String → Bool
unfolding fits_all
is_uuid s = fits_all uuid_slots s

-- `s.toLowerCase() === word` for a lower-case ASCII word. Only ASCII letters are lowered: no other
-- character lowers to a letter of the two words below.
abbrev pub lower_char : ℕ → ℕ
lower_char c = if leb b'A' c && leb c b'Z' then c + 32 else c

abbrev pub lowers_to : String → String → Bool
lowers_to String.[] String.[] = true
lowers_to (String.◌∷◌ c s) (String.◌∷◌ d t) = lower_char (code c) =? code d && lowers_to s t
lowers_to _ _ = false

-- `isUsableWorkspaceId`, after the test that the value is a text.
unfoldable pub is_usable_workspace_id : String → Bool
unfolding is_uuid trim
is_usable_workspace_id value =
    let trimmed = trim value in
    if trimmed == ""
    then false
    else if lowers_to trimmed "undefined" || lowers_to trimmed "null"
    then false
    else is_uuid trimmed

-- `none` is a value that is no text: null or undefined.
unfoldable pub normalize_workspace_id : Option String → Option String
unfolding is_usable_workspace_id
normalize_workspace_id none = none
normalize_workspace_id (some value) =
    if is_usable_workspace_id value then some (trim value) else none

-- `getActiveWorkspaceId`; `env` is NEXT_PUBLIC_WORKSPACE_ID.
unfoldable pub active_workspace_id : Option String → Session → Option String
active_workspace_id env s =
    or_else (normalize_workspace_id (get_active_workspace_id s)) (normalize_workspace_id env)

abbrev pub store_normalized : Option String → Session → Session
store_normalized none s = clear_active_workspace_id s
store_normalized (some normalized) s = set_active_workspace_id normalized s

unfoldable pub store_active_workspace_id : String → Session → Session
store_active_workspace_id workspace_id s =
    store_normalized (normalize_workspace_id (some workspace_id)) s

unfoldable pub apply_default_workspace_from_user : Option String → Session → Session
unfolding store_active_workspace_id
apply_default_workspace_from_user default_workspace_id s =
    elim (normalize_workspace_id default_workspace_id) [
      | none ↦ s
      | some id ↦ store_active_workspace_id id s
    ]

-- The rest of the text behind a prefix. `s.startsWith(p)` is `starts_with p s`.
abbrev pub strip_prefix : String → String → Option String
strip_prefix String.[] s = some s
strip_prefix (String.◌∷◌ c p) String.[] = none
strip_prefix (String.◌∷◌ c p) (String.◌∷◌ d s) =
    let rest = strip_prefix p s in if code c =? code d then rest else none

abbrev pub starts_with : String → String → Bool
starts_with p s = is_some (strip_prefix p s)

-- `path.replace(/\/+$/, "")`
abbrev slash_cons : Char → String → String
slash_cons c String.[] = if code c =? b'/' then String.[] else String.◌∷◌ c String.[]
slash_cons c (String.◌∷◌ d s) = String.◌∷◌ c (String.◌∷◌ d s)

unfoldable pub strip_slashes : String → String
strip_slashes String.[] = String.[]
strip_slashes (String.◌∷◌ c s) = slash_cons c (strip_slashes s)

-- `s || d`
abbrev pub or_text : String → String → String
or_text s d = if s == "" then d else s

module _ (url_pathname : Option String → String → Option String) where
  unfoldable pub request_pathname : Option String → String
  unfolding strip_slashes
  request_pathname url = elim (nonempty url) [
    | none ↦ ""
    | some u ↦
        let base : Option String =
          if starts_with "http://" u || starts_with "https://" u
          then none
          else some "http://local.invalid" in
        elim (url_pathname base u) [
          | some pathname ↦ or_text (strip_slashes pathname) "/"
          | none ↦ or_text (strip_slashes u) u
        ]
  ]

abbrev pub workspace_scoped_prefixes : List String
workspace_scoped_prefixes =
    "/queues" ∷ "/channels" ∷ "/facebook" ∷ "/dashboard" ∷ "/workspace-settings" ∷ []

-- `normalized === prefix || normalized.startsWith(`${prefix}/`)`
abbrev pub is_under : String → String → Bool
is_under path prefix = path == prefix || starts_with (String.◌++◌ prefix "/") path

unfoldable pub without_api_root : String → String
without_api_root path =
    if starts_with "/api/v1/" path then get_or (strip_prefix "/api/v1" path) path else path

unfoldable pub is_scoped_pathname : String → Bool
unfolding without_api_root
is_scoped_pathname path = some? (is_under (without_api_root path)) workspace_scoped_prefixes

module _ (url_pathname : Option String → String → Option String) where
  unfoldable pub is_workspace_scoped_path : Option String → Bool
  unfolding request_pathname is_scoped_pathname
  is_workspace_scoped_path url = is_scoped_pathname (request_pathname url_pathname url)

-- A part of a query key: a text, a number or `undefined`.
pub data KeyPart : Type 0 where
  text : String → KeyPart
  number : ℕ → KeyPart
  undefined : KeyPart

abbrev pub QueryKey : Type 0
QueryKey = List KeyPart

abbrev pub workspace_scoped_query_roots : List String
workspace_scoped_query_roots =
    "queue" ∷ "channels" ∷ "facebook" ∷ "dashboard" ∷ "workspace-settings" ∷ []

unfoldable pub workspace_scoped_query_key : String → String → QueryKey → QueryKey
workspace_scoped_query_key root workspace_id rest = text root ∷ text workspace_id ∷ rest

unfoldable pub is_workspace_scoped_query_key : QueryKey → Bool
is_workspace_scoped_query_key (text root ∷ rest) = includes workspace_scoped_query_roots root
is_workspace_scoped_query_key _ = false

-- The keys of the cached queries; what they hold does not matter here.
unfoldable pub remove_workspace_scoped_queries : List QueryKey → List QueryKey
unfolding is_workspace_scoped_query_key
remove_workspace_scoped_queries cache = select (λ k. not (is_workspace_scoped_query_key k)) cache

-- The effect of `WorkspaceQuerySync`, run when the active workspace changes: the workspace that it
-- saw before is `previous`.
pub record QuerySync : Type 0 where
  pub previous : Option String
  pub cache : List QueryKey

unfoldable pub workspace_query_sync : Option String → QuerySync → QuerySync
unfolding remove_workspace_scoped_queries
workspace_query_sync workspace_id s = record {
  previous = workspace_id;
  cache =
      if is_some s.previous && not (same_text s.previous workspace_id)
      then remove_workspace_scoped_queries s.cache
      else s.cache;
}
