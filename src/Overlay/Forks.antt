-- ===== src/Overlay/Forks.antt =====
-- A fork shares the root of its base and starts with an empty overlay.
use lunar_fs.Base.{
  ℕ, ◌+◌, ◌≤◌, ◌<◌, ◌≡◌, refl, sym, ◌∙◌, ap, ◌≢◌, Option, none, some, ◌++◌, ◌∷◌, [], ==-self, Bytes,
  Outcome, ok, err, panic, >>=-eq-ok, ok_or, ok_or-eq-ok, arith, list_eq, nat_eq, pair_eq, le→leb,
  length,
}
use lunar_fs.Base.Dict.{get, insert, get-insert}
use lunar_fs.Base.Text.{ascii}
use lunar_fs.Auth
use lunar_fs.Auth.{AuthDb, Principal}
use lunar_fs.Overlay.{
  Resolution, OverlayStore, OverlayError, resolve, fork, create_workspace_root, workspace_root,
  fork_workspace, fork_authorized, WorkspaceHandle, root_path, from_auth,
}

-- No row belongs to an agent that is not allocated yet.
abbrev pub IsFresh : OverlayStore → Type 0
IsFresh s = (agent : ℕ) (path : Bytes) → s.last_agent < agent → get s.rows (agent, path) ≡ none

fork-fresh :
    (s s' : OverlayStore) (ws agent : ℕ)
    → fork s ws ≡ ok (agent, s')
    → (agent ≡ s.last_agent + 1)
      × (s'.last_agent ≡ agent)
      × (s'.rows ≡ s.rows)
      × (s'.roots ≡ s.roots)
      × (s'.agents ≡ insert s.agents agent ws)
unfolding fork
fork-fresh s s' ws agent h = ground arith

create-roots :
    (s s' : OverlayStore) (ws : ℕ) (root : Bytes)
    → create_workspace_root s ws root ≡ ok s'
    → (get s.roots ws ≡ none)
      × (s'.roots ≡ insert s.roots ws root)
      × (s'.rows ≡ s.rows)
      × (s'.last_agent ≡ s.last_agent)
      × (s'.agents ≡ s.agents)
unfolding create_workspace_root
create-roots s s' ws root h = ground arith

workspace_root-ok :
    (s : OverlayStore) (ws : ℕ) (root : Option Bytes)
    → workspace_root s ws ≡ ok root
    → get s.roots ws ≡ root
unfolding workspace_root
workspace_root-ok s ws root h = ground arith

resolve_base :
    (s : OverlayStore) (agent : ℕ) (path : Bytes)
    → length path ≤ 4096
    → get s.rows (agent, path) ≡ none
    → resolve s agent path ≡ ok Resolution.base
unfolding resolve
resolve_base s agent path short h = rw (le→leb _ _ short, h)

-- The grant that a fork makes: to its principal, of writing everywhere in the new workspace.
abbrev pub fork_grant : AuthDb → Principal → ℕ → ℕ → Auth.Grant
fork_grant db p new_ws now = record {
  id = db.last_grant + 1;
  principal_kind = p.kind;
  principal_id = p.id;
  workspace_id = new_ws;
  path_prefix = ascii "/";
  permission = Auth.Permission.write;
  created_at = now;
  revoked_at = none;
}

-- What a fork promises: the root of the base under the new workspace, a new agent of it that sees
-- the base everywhere, and one new grant, which lets the principal write in the new workspace; every
-- row, every other root, every other agent, every other grant and every membership as they were.
pub record IsForkOf (s s' : OverlayStore) (db db' : AuthDb) (base_ws new_ws now : ℕ) (p : Principal)
    (handle : WorkspaceHandle) : Type 0 where
  pub workspace : handle.workspace_id ≡ new_ws
  pub of_base : get s.roots base_ws ≡ some handle.root_hash
  pub was_free : get s.roots new_ws ≡ none
  pub shares : get s'.roots new_ws ≡ some handle.root_hash
  pub others : (ws : ℕ) → ws ≢ new_ws → get s'.roots ws ≡ get s.roots ws
  pub rows_kept : s'.rows ≡ s.rows
  pub new_agent : s.last_agent < handle.agent_id
  pub agent_of : get s'.agents handle.agent_id ≡ some new_ws
  pub other_agents :
      (agent : ℕ) → agent ≢ handle.agent_id → get s'.agents agent ≡ get s.agents agent
  pub granted : db'.grants ≡ db.grants ++ (fork_grant db p new_ws now ∷ [])
  pub next_grant : db'.last_grant ≡ db.last_grant + 1
  pub members : db'.memberships ≡ db.memberships
  pub sees_base :
      (path : Bytes) → length path ≤ 4096 → resolve s' handle.agent_id path ≡ ok Resolution.base

from_auth-ok :
    (o : Outcome Auth.AuthError (ℕ × AuthDb)) {v : ℕ × AuthDb} → from_auth o ≡ ok v → o ≡ ok v
from_auth-ok (ok w) h = ground arith
from_auth-ok (err e) h = absurd (ground arith)
from_auth-ok panic h = absurd (ground arith)

grant-row :
    (db db' : AuthDb) (kind : Auth.PrincipalKind) (id : Bytes) (ws : ℕ) (prefix : Bytes)
    (permission : Auth.Permission) (now row : ℕ)
    → Auth.grant db kind id ws prefix permission now ≡ ok (row, db')
    → (db'.grants
        ≡ db.grants
          ++ (record {
            id = db.last_grant + 1;
            principal_kind = kind;
            principal_id = id;
            workspace_id = ws;
            path_prefix = prefix;
            permission = permission;
            created_at = now;
            revoked_at = none;
          }
              ∷ []))
      × (db'.last_grant ≡ db.last_grant + 1)
      × (db'.memberships ≡ db.memberships)
unfolding Auth.grant
grant-row db db' kind id ws prefix permission now row h = ground arith

fork_authorized-IsForkOf :
    (s s' : OverlayStore) (db db' : AuthDb) (base_ws new_ws now : ℕ) (p : Principal)
    (handle : WorkspaceHandle)
    → IsFresh s
    → fork_authorized s db base_ws new_ws p now ≡ ok (handle, (s', db'))
    → IsForkOf s s' db db' base_ws new_ws now p handle
unfolding fork_authorized
fork_authorized-IsForkOf s s' db db' base_ws new_ws now p handle fresh h =
    let (root, r, h₁) = >>=-eq-ok (workspace_root s base_ws) _ h in
    let (base_root, q, h₂) = >>=-eq-ok (ok_or root OverlayError.no_root) _ h₁ in
    let (s₁, c, h₃) = >>=-eq-ok (create_workspace_root s new_ws base_root) _ h₂ in
    let ((agent, s₂), f, h₄) = >>=-eq-ok (fork s₁ new_ws) _ h₃ in
    let ((row, db₂), g, e) =
      >>=-eq-ok (from_auth (Auth.grant db p.kind p.id new_ws root_path Auth.Permission.write now)) _
        h₄ in
    let found : get s.roots base_ws ≡ root = workspace_root-ok s base_ws root r in
    let created = create-roots s s₁ new_ws base_root c in
    let forked = fork-fresh s₁ s₂ new_ws agent f in
    let made =
      grant-row db db₂ p.kind p.id new_ws root_path Auth.Permission.write now row
        (from_auth-ok _ g) in
    let same_db : db₂ ≡ db' = ground arith in
    let registered : s'.agents ≡ insert s.agents handle.agent_id new_ws = ground arith in
    let stored : base_root ≡ handle.root_hash = ground arith in
    record {
      workspace = ground arith;
      of_base = found ∙ (ok_or-eq-ok root _ q ∙ ap some stored);
      was_free = created.0;
      shares = ground (arith, get-insert s.roots new_ws new_ws base_root);
      others = λ ws ne. ground (arith, get-insert s.roots new_ws ws base_root);
      rows_kept = ground arith;
      new_agent = ground arith;
      agent_of =
          ap (λ a. get a handle.agent_id) registered
          ∙ (get-insert s.agents handle.agent_id handle.agent_id new_ws
              ∙ rw (==-self handle.agent_id) refl);
      other_agents = λ a ne.
          ap (λ x. get x a) registered
          ∙ ground (arith, get-insert s.agents handle.agent_id a new_ws);
      granted = ap (λ d. d.grants) (sym same_db) ∙ made.0;
      next_grant = ap (λ d. d.last_grant) (sym same_db) ∙ made.1;
      members = ap (λ d. d.memberships) (sym same_db) ∙ made.2;
      sees_base = λ path short.
          resolve_base s' handle.agent_id path short (ground (arith, fresh handle.agent_id path));
    }

-- A fork that succeeds was made for a principal that may read the base workspace, and it is one
-- that shares the base and starts empty, provided that no overlay row belongs to an agent not yet
-- allocated: beside the new root, the new agent and one grant, which lets the principal write in the
-- new workspace, nothing of the stores has changed.
pub fork_workspace-IsForkOf :
    (s s' : OverlayStore) (db db' : AuthDb) (base_ws new_ws now : ℕ) (p : Principal)
    (handle : WorkspaceHandle)
    → IsFresh s
    → fork_workspace s db base_ws new_ws p now ≡ ok (handle, (s', db'))
    → (Auth.authorize db p base_ws root_path Auth.Permission.read ≡ ok Auth.allow)
      × IsForkOf s s' db db' base_ws new_ws now p handle
unfolding fork_workspace
fork_workspace-IsForkOf s s' db db' base_ws new_ws now p handle fresh h =
    let parts : (Auth.authorize db p base_ws root_path Auth.Permission.read ≡ ok Auth.allow)
        × (fork_authorized s db base_ws new_ws p now ≡ ok (handle, (s', db'))) =
      ground arith in
    (parts.0, fork_authorized-IsForkOf s s' db db' base_ws new_ws now p handle fresh parts.1)
