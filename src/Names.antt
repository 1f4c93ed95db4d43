-- ===== src/Names.antt =====
-- src/resolve.rs: what a workspace name of the command line stands for.
pub mod Targets
use lunar_fs.Base.{
  ℕ, zero, suc, ◌≡◌, Bool, true, false, not, ◌&&◌, ◌||◌, Option, none, some, List, [], ◌∷◌, ◌++◌,
  Bytes, Outcome, ok, err, panic, ◌>>=◌, assert, ok_or, ◌==◌, list_eq, nat_eq, leb, length,
  if◌then◌else◌, ◌=ℕ=◌,
}
use lunar_fs.Base.Dict.{Dict, get}
use lunar_fs.Base.Text.{ascii, slash, is_empty, starts_with, strip_prefix}

pub record Config : Type 0 where
  pub server : Option Bytes
  pub org : Option Bytes
  pub token : Option Bytes

pub record ResolvedTarget : Type 0 where
  pub server : Bytes
  pub org : Bytes
  pub workspace : Bytes
  pub token : Bytes

-- The messages are dropped; each `bail!` has its own constructor.
pub data NameError : Type 0 where
  empty_name empty_segment scheme_segments no_org segment_count no_token trailing_slash : NameError

abbrev pub Env : Type 0
Env = Dict Bytes Bytes

abbrev pub env_server : Bytes
env_server = ascii "LUNAR_BASE_URL"

abbrev pub env_org : Bytes
env_org = ascii "LUNAR_ORG"

abbrev pub env_token : Bytes
env_token = ascii "LUNAR_TOKEN"

abbrev pub https : Bytes
https = ascii "https://"

abbrev pub http : Bytes
http = ascii "http://"

-- `split('/')`: at least one segment.
unfoldable pub split : Bytes → List Bytes
split [] = [] ∷ []
split (c ∷ s) =
    let more = split s in
    if c =ℕ= slash
    then [] ∷ more
    else elim more [ [] ↦ (c ∷ []) ∷ [] | first ∷ rest ↦ (c ∷ first) ∷ rest ]

-- `.filter(|s| !s.is_empty())`
abbrev pub nonempty : Option Bytes → Option Bytes
nonempty none = none
nonempty (some s) = if is_empty s then none else some s

unfoldable pub env_nonempty : Env → Bytes → Option Bytes
env_nonempty env key = nonempty (get env key)

abbrev pub or_else : Option Bytes → Option Bytes → Option Bytes
or_else none b = b
or_else (some a) b = some a

unfoldable pub extract_scheme : Bytes → Option Bytes × Bytes
extract_scheme name = elim (strip_prefix name https) [
  | some rest ↦ (some https, rest)
  | none ↦ elim (strip_prefix name http) [ some rest ↦ (some http, rest) | none ↦ (none, name) ]
]

unfoldable pub normalize_host : Bytes → Outcome NameError Bytes
normalize_host host = assert (not (is_empty host)) (ok (https ++ host))

unfoldable pub any_empty : List Bytes → Bool
any_empty [] = false
any_empty (s ∷ rest) = is_empty s || any_empty rest

abbrev pub default_host : Bytes
default_host = ascii "https://cloud.lunarfs.com"

unfoldable pub server_precedence : Config → Env → Bytes
unfolding env_nonempty
server_precedence cfg env = elim (or_else (env_nonempty env env_server) (nonempty cfg.server)) [
  | some s ↦ s
  | none ↦ default_host
]

unfoldable pub host_server : Option Bytes → Bytes → Outcome NameError Bytes
unfolding normalize_host
host_server scheme host =
    elim scheme [ some p ↦ ok (p ++ host) | none ↦ normalize_host host ] >>= λ server.
    assert (starts_with server http || starts_with server https) (ok server)

-- The server, the organisation and the workspace of a name's segments.
unfoldable pub by_segments :
    Config → Env → Option Bytes → List Bytes → Outcome NameError (Bytes × (Bytes × Bytes))
unfolding host_server server_precedence
by_segments cfg env scheme (ws ∷ []) =
    ok_or (or_else (env_nonempty env env_org) (nonempty cfg.org)) no_org >>= λ org.
    ok (server_precedence cfg env, (org, ws))
by_segments cfg env scheme (org ∷ ws ∷ []) = ok (server_precedence cfg env, (org, ws))
by_segments cfg env scheme (host ∷ org ∷ ws ∷ []) =
    host_server scheme host >>= λ server. ok (server, (org, ws))
by_segments cfg env scheme [] = err segment_count
by_segments cfg env scheme (a ∷ b ∷ c ∷ d ∷ rest) = err segment_count

abbrev pub scheme_mismatch : Option Bytes → List Bytes → Bool
scheme_mismatch none segments = false
scheme_mismatch (some p) segments = not (length segments =ℕ= 3)

unfoldable pub resolve_workspace : Bytes → Config → Env → Outcome NameError ResolvedTarget
unfolding by_segments extract_scheme
resolve_workspace name cfg env =
    let bare = extract_scheme name in
    let segments = split bare.1 in
    if is_empty name
    then err empty_name
    else if any_empty segments
    then err empty_segment
    else if scheme_mismatch bare.0 segments
    then err scheme_segments
    else by_segments cfg env bare.0 segments >>= λ (server, (org, workspace)).
        ok_or (or_else (env_nonempty env env_token) (nonempty cfg.token)) no_token >>= λ token.
        assert (not (is_empty server)) (
          assert (not (is_empty workspace))
            (ok (record { server = server; org = org; workspace = workspace; token = token })))

unfoldable pub last : List Bytes → Option Bytes
last [] = none
last (s ∷ []) = some s
last (s ∷ t ∷ rest) = last (t ∷ rest)

unfoldable pub parse_workspace_segment : Bytes → Outcome NameError Bytes
unfolding last
parse_workspace_segment name =
    let segments = split name in
    if is_empty name
    then err empty_name
    else if not (leb (length segments) 3)
    then err segment_count
    else elim (last segments) [
      | none ↦ panic
      | some s ↦ if is_empty s then err trailing_slash else ok s
    ]
