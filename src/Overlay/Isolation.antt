-- ===== src/Overlay/Isolation.antt =====
-- Each agent sees its own latest write or deletion of a path, and no other agent's.
use lunar_fs.Base.{
  ℕ, ◌≤◌, ◌≡◌, none, some, Bytes, ok, arith, ◌==◌, list_eq, nat_eq, pair_eq, le→leb, length,
  if◌then◌else◌,
}
use lunar_fs.Base.Dict.{get-insert}
use lunar_fs.Overlay.{Row, overlay, tombstone, OverlayStore, resolve, capture_write, capture_delete}

module _ (s s' : OverlayStore) (agent workspace other : ℕ) (path q : Bytes)
    (short : length q ≤ 4096) where
  -- After a write, its agent resolves its path to the written hash; every other path, and every
  -- path of another agent, resolves as before.
  pub resolve-capture_write :
      (hash : Bytes)
      → capture_write s agent workspace path hash ≡ ok s'
      → resolve s' other q ≡ (
          if ◌==◌ {A = ℕ × Bytes} (agent, path) (other, q)
          then ok (overlay hash)
          else resolve s other q)
  unfolding resolve capture_write
  resolve-capture_write hash h =
      let row : Row = record { workspace_id = workspace; blob_hash = some hash } in
      ground (arith, get-insert s.rows (agent, path) (other, q) row, le→leb (length q) 4096 short)

  -- After a deletion, its agent resolves its path to a tombstone; all else resolves as before.
  pub resolve-capture_delete :
      capture_delete s agent workspace path ≡ ok s'
      → resolve s' other q ≡ (
          if ◌==◌ {A = ℕ × Bytes} (agent, path) (other, q) then ok tombstone else resolve s other q)
  unfolding resolve capture_delete
  resolve-capture_delete h =
      let row : Row = record { workspace_id = workspace; blob_hash = none } in
      ground (arith, get-insert s.rows (agent, path) (other, q) row, le→leb (length q) 4096 short)
