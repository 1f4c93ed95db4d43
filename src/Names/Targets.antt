-- ===== src/Names/Targets.antt =====
-- Which names resolve, and to what.
use lunar_fs.Base.{
  ◌≡◌, refl, ◌∙◌, ap, false, not, Option, none, some, List, [], ◌∷◌, ◌++◌, Bytes, Outcome, ok, err,
  panic, ◌>>=◌, assert, ok_or, list_eq, nat_eq, arith, Bool-cases, Option-cases, inl, inr, ◌⊎◌,
}
use lunar_fs.Base.Dict.{get}
use lunar_fs.Base.Text.{is_empty, starts_with, strip_prefix}
use lunar_fs.Names.{
  Config, ResolvedTarget, NameError, Env, env_token, env_org, https, http, split, nonempty,
  env_nonempty, or_else, extract_scheme, normalize_host, any_empty, server_precedence, host_server,
  by_segments, scheme_mismatch, resolve_workspace,
}

-- The prefix is one of the two schemes.
abbrev pub IsScheme : Option Bytes → Type 0
IsScheme none = Unit
IsScheme (some p) = (p ≡ https) ⊎ (p ≡ http)

extract_scheme-IsScheme : (name : Bytes) → IsScheme (extract_scheme name).0
unfolding extract_scheme strip_prefix
extract_scheme-IsScheme name = elim (Option-cases (strip_prefix name https)) [
  | inr (rest, e) ↦ rw e (inl refl)
  | inl no_ ↦ elim (Option-cases (strip_prefix name http)) [
    | inr (rest, e) ↦ rw (no_, e) (inr refl)
    | inl neither ↦ rw (no_, neither) tt
  ]
]

server_precedence-ne : (cfg : Config) (env : Env) → is_empty (server_precedence cfg env) ≡ false
unfolding server_precedence env_nonempty is_empty
server_precedence-ne cfg env = ground arith

host_server-ok :
    (scheme : Option Bytes) (host : Bytes)
    → IsScheme scheme
    → is_empty host ≡ false
    → (server : Bytes) × ((host_server scheme host ≡ ok server) × (is_empty server ≡ false))
unfolding host_server normalize_host starts_with is_empty
host_server-ok none host s h = (https ++ host, (rw h refl, refl))
host_server-ok (some p) host (inl e) h = (https ++ host, (rw e refl, refl))
host_server-ok (some p) host (inr e) h = (http ++ host, (rw e refl, refl))

-- What the segments come to: an error, or a server and a workspace that are not empty.
abbrev pub IsSettled : Outcome NameError (Bytes × (Bytes × Bytes)) → Type 0
IsSettled (ok (server, (org, ws))) =
    (is_empty server ≡ false) × (is_empty org ≡ false) × (is_empty ws ≡ false)
IsSettled (err e) = Unit
IsSettled panic = ⊥

nonempty-ne : (o : Option Bytes) (s : Bytes) → nonempty o ≡ some s → is_empty s ≡ false
nonempty-ne none s h = absurd (ground arith)
nonempty-ne (some t) s h = elim (Bool-cases (is_empty t)) [
  | inl e ↦ absurd (ground arith)
  | inr e ↦ let same : t ≡ s = ground arith in rw (← same) e
]

or_else-ne :
    (a b : Option Bytes) (s : Bytes)
    → or_else (nonempty a) (nonempty b) ≡ some s
    → is_empty s ≡ false
or_else-ne a b s h = elim (Option-cases (nonempty a)) [
  | inl no_ ↦ nonempty-ne b s (rw no_ at h)
  | inr (t, e) ↦ let same : t ≡ s = ground arith in nonempty-ne a s (e ∙ ap some same)
]

by_segments-IsSettled :
    (cfg : Config) (env : Env) (scheme : Option Bytes) (segments : List Bytes)
    → IsScheme scheme
    → any_empty segments ≡ false
    → IsSettled (by_segments cfg env scheme segments)
unfolding by_segments any_empty env_nonempty
by_segments-IsSettled cfg env scheme [] s h = tt
by_segments-IsSettled cfg env scheme (ws ∷ []) s h =
    elim (Option-cases (or_else (nonempty (get env env_org)) (nonempty cfg.org))) [
      | inl no_ ↦ rw no_ tt
      | inr (org, e) ↦
          rw e
            (server_precedence-ne cfg env, or_else-ne (get env env_org) cfg.org org e, ground arith)
    ]
by_segments-IsSettled cfg env scheme (org ∷ ws ∷ []) s h =
    (server_precedence-ne cfg env, ground arith, ground arith)
by_segments-IsSettled cfg env scheme (host ∷ org ∷ ws ∷ []) s h =
    let (server, (e, ne)) = host_server-ok scheme host s (ground arith) in
    rw e (ne, ground arith, ground arith)
by_segments-IsSettled cfg env scheme (a ∷ b ∷ c ∷ d ∷ rest) s h = tt

-- A target that can be used: none of its parts is empty.
abbrev pub IsComplete : Outcome NameError ResolvedTarget → Type 0
IsComplete (ok t) =
    (is_empty t.server ≡ false)
    × (is_empty t.org ≡ false)
    × (is_empty t.workspace ≡ false)
    × (is_empty t.token ≡ false)
IsComplete (err e) = Unit
IsComplete panic = ⊥

settle :
    (cfg : Config) (env : Env) (m : Outcome NameError (Bytes × (Bytes × Bytes)))
    → IsSettled m
    → IsComplete (
        ◌>>=◌ {B = ResolvedTarget} m (λ (server, (org, workspace)).
          ok_or (or_else (env_nonempty env env_token) (nonempty cfg.token)) NameError.no_token
          >>= λ token. assert (not (is_empty server)) (
              assert (not (is_empty workspace)) (
                ok (record { server = server; org = org; workspace = workspace; token = token })))))
unfolding env_nonempty
settle cfg env panic s = elim s [ ]
settle cfg env (err e) s = tt
settle cfg env (ok (server, (org, ws))) (a, b, c) =
    elim (Option-cases (or_else (nonempty (get env env_token)) (nonempty cfg.token))) [
      | inl no_ ↦ rw no_ tt
      | inr (token, e) ↦ rw (e, a, c) (a, b, c, or_else-ne (get env env_token) cfg.token token e)
    ]

-- Resolving a name never panics: it is an error, or a target with a server, an organisation, a
-- workspace and a token that are not empty, whatever the name, configuration and environment.
pub resolve_workspace-IsComplete :
    (name : Bytes) (cfg : Config) (env : Env) → IsComplete (resolve_workspace name cfg env)
unfolding resolve_workspace
resolve_workspace-IsComplete name cfg env = elim (Bool-cases (is_empty name)) [
  | inl e ↦ rw e tt
  | inr named ↦ elim (Bool-cases (any_empty (split (extract_scheme name).1))) [
    | inl e ↦ rw (named, e) tt
    | inr full ↦
        elim (Bool-cases
          (scheme_mismatch (extract_scheme name).0 (split (extract_scheme name).1))) [
            | inl e ↦ rw (named, full, e) tt
            | inr fits ↦
                rw (named, full, fits)
                  (settle cfg env
                    (by_segments cfg env (extract_scheme name).0 (split (extract_scheme name).1))
                    (by_segments-IsSettled cfg env (extract_scheme name).0
                      (split (extract_scheme name).1) (extract_scheme-IsScheme name) full))
          ]
  ]
]
