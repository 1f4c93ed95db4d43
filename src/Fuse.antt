-- ===== src/Fuse.antt =====
-- src/fuse.rs: reads, writes and deletions of one agent, through its overlay to the base.
pub mod Translate
pub mod Resolve
pub mod ReadPaths
pub mod Errors
pub mod Sizes
use lunar_fs.Base.{
  ℕ, ◌+◌, ◌-◌, ◌*◌, Bool, true, false, not, Option, none, some, List, [], ◌∷◌, Bytes, Outcome, ok,
  err, panic, ◌>>=◌, assert, ok_or, leb, ltb, length, take, drop, min, if◌then◌else◌,
}
use lunar_fs.Base.Text.{is_empty}
use lunar_fs.Cas.{Hash, IoError, Store, hex_to_hash, hash_to_hex}
use lunar_fs.Index.{Index, lookup}
use lunar_fs.Overlay.{
  OverlayStore, OverlayError, Resolution, overlay, base, tombstone, resolve, capture_write,
  capture_delete,
}

-- `io::Error::other`
abbrev pub as_io {ℓ} : {A : Type ℓ} → Outcome OverlayError A → Outcome IoError A
as_io (ok a) = ok a
as_io (err e) = err IoError.other
as_io panic = panic

abbrev pub mib128 : ℕ
mib128 = 128 * 1024 * 1024

-- `data[start..end]`, where `start <= end <= data.len()`.
abbrev pub slice : ℕ → ℕ → Bytes → Bytes
slice start end bytes = take (end - start) (drop start bytes)

module _ (S : Store) where
  -- `store.get(hash)?.ok_or_else(..)`
  unfoldable pub get_blob : S.State → Hash → Outcome IoError (Bytes × S.State)
  get_blob st hash =
      S.get st hash >>= λ (found, st'). ok_or found IoError.not_found >>= λ blob. ok (blob, st')

  -- The blob of a path of the base index, or none where the index has no such path.
  unfoldable pub base_blob : S.State → Option Hash → Outcome IoError (Option Bytes × S.State)
  base_blob st none = ok (none, st)
  base_blob st (some hash) = get_blob st hash >>= λ (blob, st'). ok (some blob, st')

  -- The blob of a resolved path, or none where there is no such file.
  unfoldable pub resolved_blob :
      S.State → Index → Bytes → Resolution → Outcome IoError (Option Bytes × S.State)
  resolved_blob st index path tombstone = ok (none, st)
  resolved_blob st index path (overlay hex) =
      hex_to_hash hex >>= λ hash. get_blob st hash >>= λ (blob, st'). ok (some blob, st')
  resolved_blob st index path base = base_blob st (lookup index path)

  -- `offset + size` is below 2^64 for the callers, whose offsets are file positions.
  abbrev pub window : ℕ → ℕ → Bytes → Bytes
  window offset size blob =
      slice (min offset (length blob)) (min (offset + size) (length blob)) blob

  unfoldable pub route_read :
      S.State → Index → OverlayStore → ℕ → Bytes → ℕ → ℕ → Outcome IoError (Option Bytes × S.State)
  route_read st index ov agent path offset size = assert (leb (length path) 4096) (
      assert (leb size mib128) (
        as_io (resolve ov agent path) >>= λ r. resolved_blob st index path r >>= λ (blob, st').
        elim blob [ none ↦ ok (none, st') | some b ↦ ok (some (window offset size b), st') ]))

  unfoldable pub route_write :
      S.State
      → OverlayStore
      → ℕ
      → ℕ
      → Bytes
      → Bytes
      → Outcome IoError (Hash × (S.State × OverlayStore))
  route_write st ov agent workspace path bytes = assert (ltb 0 agent) (
      assert (not (is_empty path)) (
        S.put st bytes >>= λ (hash, st').
        as_io (capture_write ov agent workspace path (hash_to_hex hash)) >>= λ ov'.
        ok (hash, (st', ov'))))

unfoldable pub route_delete : OverlayStore → ℕ → ℕ → Bytes → Outcome IoError OverlayStore
route_delete ov agent workspace path =
    assert (ltb 0 agent)
      (assert (not (is_empty path)) (as_io (capture_delete ov agent workspace path)))

-- On any error of the overlay the file is not hidden; a panic stays one.
unfoldable pub is_tombstoned {ℓ} : {E : Type ℓ} → OverlayStore → ℕ → Bytes → Outcome E Bool
is_tombstoned ov agent path = elim (resolve ov agent path) [
  | ok r ↦ elim r [ tombstone ↦ ok true | _ ↦ ok false ]
  | err e ↦ ok false
  | panic ↦ panic
]
