-- ===== src/Nfs/Renames.antt =====
-- What a renaming of a file leaves at its two paths, in src/nfs/fs.rs.
use lunar_fs.Base.{◌≤◌, ◌≡◌, Bytes, ok, list_eq, nat_eq, pair_eq, length}
use lunar_fs.Cas.{Hash, mem_store, mem_put, hash_to_hex}
use lunar_fs.Overlay.{OverlayStore, overlay, capture_write, capture_delete}
use lunar_fs.Nfs.{Mount, CasNfs}
use lunar_fs.Nfs.Files.{full_content}

module _ (hash_bytes : Bytes → Hash) (m : Mount) where
  -- The steps of a renaming that returned, as they change the overlay and the blobs.
  record Moved (s s' : CasNfs (mem_store hash_bytes)) (src dst : Bytes) : Type 0 where
    bytes : Bytes
    mid : OverlayStore
    src_len : length src ≤ 4096
    dst_len : length dst ≤ 4096
    was : full_content m s src ≡ ok (bytes, s)
    put : capture_write s.overlay m.agent m.workspace dst (hash_to_hex (hash_bytes bytes)) ≡ ok mid
    gone : capture_delete mid m.agent m.workspace src ≡ ok s'.overlay
    stored : (mem_put hash_bytes s.blobs bytes).1 ≡ s'.blobs
