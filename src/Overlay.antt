-- ===== src/Overlay.antt =====
-- src/overlay.rs: the writes and deletions of each agent, over a shared base.
-- The tables are maps, and every statement is answered; ids are not negative. The time stamps of
-- the rows are left out.
pub mod Isolation
pub mod Forks
use lunar_fs.Base.{
  ℕ, suc, ◌+◌, Bool, true, false, not, ◌&&◌, Option, none, some, List, [], ◌∷◌, ◌++◌, Bytes,
  Outcome, ok, err, panic, ◌>>=◌, assert, ok_or, ◌==◌, list_eq, nat_eq, pair_eq, leb, ltb, ◌=ℕ=◌,
  length, if◌then◌else◌,
}
use lunar_fs.Base.Dict.{Dict, get, insert}
use lunar_fs.Base.Text.{is_empty, slash}
use lunar_fs.Tree.{bytes_leb}
use lunar_fs.Auth
use lunar_fs.Auth.{AuthDb, AuthError, Principal, Decision}

-- A row of `agent_overlay` besides its key; no hash is a tombstone.
pub record Row : Type 0 where
  pub workspace_id : ℕ
  pub blob_hash : Option Bytes

pub record OverlayEntry : Type 0 where
  pub workspace_id : ℕ
  pub agent_id : ℕ
  pub path : Bytes
  pub blob_hash : Option Bytes

pub data Resolution : Type 0 where
  overlay : Bytes → Resolution
  base : Resolution
  tombstone : Resolution

-- The tables `agents` (with the last id of its AUTOINCREMENT), `agent_overlay` and
-- `workspace_roots`.
pub record OverlayStore : Type 0 where
  pub last_agent : ℕ
  pub agents : Dict ℕ ℕ
  pub rows : Dict (ℕ × Bytes) Row
  pub roots : Dict ℕ Bytes

pub data OverlayError : Type 0 where
  forbidden no_root duplicate_root : OverlayError
  auth : AuthError → OverlayError

unfoldable pub create_workspace_root : OverlayStore → ℕ → Bytes → Outcome OverlayError OverlayStore
create_workspace_root s ws root_hash = assert (ltb 0 ws) (
    assert (not (is_empty root_hash)) (elim (get s.roots ws) [
      | some old ↦ err duplicate_root
      | none ↦ ok (record s { roots = insert s.roots ws root_hash })
    ]))

unfoldable pub workspace_root : OverlayStore → ℕ → Outcome OverlayError (Option Bytes)
workspace_root s ws = assert (ltb 0 ws) (ok (get s.roots ws))

unfoldable pub fork : OverlayStore → ℕ → Outcome OverlayError (ℕ × OverlayStore)
fork s workspace = assert (ltb 0 workspace) (
    let id = s.last_agent + 1 in
    ok (id, record s { last_agent = id; agents = insert s.agents id workspace }))

-- What a row says.
abbrev pub resolution : Option Row → Resolution
resolution none = base
resolution (some row) = elim row.blob_hash [ some hash ↦ overlay hash | none ↦ tombstone ]

unfoldable pub resolve : OverlayStore → ℕ → Bytes → Outcome OverlayError Resolution
resolve s agent path = assert (leb (length path) 4096) (ok (resolution (get s.rows (agent, path))))

unfoldable pub capture_write :
    OverlayStore → ℕ → ℕ → Bytes → Bytes → Outcome OverlayError OverlayStore
capture_write s agent workspace path hash = assert (ltb 0 agent) (
    assert (not (is_empty hash)) (
      ok (record s {
        rows =
            insert s.rows (agent, path)
              (record { workspace_id = workspace; blob_hash = some hash });
      })))

unfoldable pub capture_delete : OverlayStore → ℕ → ℕ → Bytes → Outcome OverlayError OverlayStore
capture_delete s agent workspace path = assert (ltb 0 agent) (
    assert (ltb 0 workspace) (
      ok (record s {
        rows = insert s.rows (agent, path) (record { workspace_id = workspace; blob_hash = none });
      })))

-- `WHERE agent_id = ?`
unfoldable pub rows_of : ℕ → Dict (ℕ × Bytes) Row → List OverlayEntry
rows_of agent [] = []
rows_of agent (((a, path), row) ∷ rest) =
    let others = rows_of agent rest in
    if a =ℕ= agent
    then record {
      workspace_id = row.workspace_id;
      agent_id = a;
      path = path;
      blob_hash = row.blob_hash;
    }
      ∷ others
    else others

-- `ORDER BY path`
unfoldable pub insert_by_path : OverlayEntry → List OverlayEntry → List OverlayEntry
insert_by_path e [] = e ∷ []
insert_by_path e (f ∷ rest) =
    let later = insert_by_path e rest in if bytes_leb e.path f.path then e ∷ f ∷ rest else f ∷ later

unfoldable pub order_by_path : List OverlayEntry → List OverlayEntry
unfolding insert_by_path
order_by_path [] = []
order_by_path (e ∷ rest) = insert_by_path e (order_by_path rest)

unfoldable pub entries_for_agent : OverlayStore → ℕ → Outcome OverlayError (List OverlayEntry)
unfolding rows_of order_by_path
entries_for_agent s agent =
    let entries = order_by_path (rows_of agent s.rows) in
    assert (leb (length entries) 1_000_000) (ok entries)

pub record WorkspaceHandle : Type 0 where
  pub workspace_id : ℕ
  pub agent_id : ℕ
  pub root_hash : Bytes

-- `?` on a result of the auth module.
abbrev pub from_auth {ℓ} : {A : Type ℓ} → Outcome AuthError A → Outcome OverlayError A
from_auth (ok a) = ok a
from_auth (err e) = err (auth e)
from_auth panic = panic

abbrev pub root_path : Bytes
root_path = slash ∷ []

-- Steps 2 to 5, once the principal is authorized.
unfoldable pub fork_authorized :
    OverlayStore
    → AuthDb
    → ℕ
    → ℕ
    → Principal
    → ℕ
    → Outcome OverlayError (WorkspaceHandle × (OverlayStore × AuthDb))
fork_authorized s db base_ws new_ws p now = workspace_root s base_ws >>= λ root.
    ok_or root no_root >>= λ base_root. create_workspace_root s new_ws base_root >>= λ s₁.
    fork s₁ new_ws >>= λ (agent, s₂).
    from_auth (Auth.grant db p.kind p.id new_ws root_path Auth.Permission.write now) >>= λ (_, db').
    ok (record { workspace_id = new_ws; agent_id = agent; root_hash = base_root }, (s₂, db'))

unfoldable pub fork_workspace :
    OverlayStore
    → AuthDb
    → ℕ
    → ℕ
    → Principal
    → ℕ
    → Outcome OverlayError (WorkspaceHandle × (OverlayStore × AuthDb))
fork_workspace s db base_ws new_ws p now = assert (ltb 0 base_ws) (
    assert (ltb 0 new_ws) (
      assert (not (base_ws =ℕ= new_ws)) (
        from_auth (Auth.authorize db p base_ws root_path Auth.Permission.read) >>= λ decision.
        elim decision [
          | Auth.allow ↦ fork_authorized s db base_ws new_ws p now
          | Auth.deny ↦ err forbidden
        ])))
