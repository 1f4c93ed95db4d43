-- ===== src/Nfs/Files.antt =====
-- src/nfs/fs.rs: what the handlers do with a file's bytes, its attributes and its name.
use lunar_fs.Base.{
  ℕ, zero, suc, ◌+◌, ◌-◌, ◌^◌, ◌%◌, Bool, true, false, not, ◌&&◌, Option, none, some, List, [], ◌∷◌,
  ◌++◌, Bytes, Outcome, ok, ◌>>=◌, assert, list_eq, nat_eq, contains, leb, length, take, drop,
  filter, if◌then◌else◌,
}
use lunar_fs.Base.Dict.{get, insert, remove, keys}
use lunar_fs.Base.Calls.{reads, updates, returns, asserts, ◌>>>◌}
use lunar_fs.Base.Text.{starts_with}
use lunar_fs.Cas.{IoError, Store, Hash, hex_to_hash}
use lunar_fs.Index
use lunar_fs.Overlay
use lunar_fs.Overlay.{OverlayEntry, Resolution, entries_for_agent}
use lunar_fs.Fuse.{route_write, route_delete, as_io}
use lunar_fs.Fuse.Translate.{NodeKind, file, below}
use lunar_fs.Ids.{IdTable, Never, intern, forget, rename_path, is_hidden}
use lunar_fs.Ids.Subtree.{rename_subtree, dynamic_dir_children_of, moved}
use lunar_fs.Nfs.{
  NfsStat, Mount, CasNfs, Handler, Sattr, SetMtime, dont_change, set_to_server_time,
  set_to_client_time, NfsTime, AttrOverride, or_io, of_ids, or_none, default_time,
}

-- `Vec::resize`: more than `isize::MAX` bytes are a panic.
unfoldable pub zeros : ℕ → Bytes
zeros zero = []
zeros (suc n) = 0 ∷ zeros n

unfoldable pub resize : ℕ → Bytes → Bytes
unfolding zeros
resize n bytes = take n bytes ++ zeros (n - length bytes)

abbrev pub isize_max : ℕ
isize_max = 2 ^ 63 - 1

abbrev pub u64_max : ℕ
u64_max = 2 ^ 64 - 1

-- `buf[start..start + data.len()].copy_from_slice(data)`, within the buffer.
unfoldable pub splice : ℕ → Bytes → Bytes → Bytes
splice start new_bytes buf = take start buf ++ (new_bytes ++ drop (start + length new_bytes) buf)

abbrev pub new_mtime : Mount → SetMtime → Option NfsTime → Option NfsTime
new_mtime m (set_to_client_time t) old = some t
new_mtime m set_to_server_time old = some (default_time m)
new_mtime m dont_change old = old

abbrev pub new_mode : Option ℕ → Option ℕ → Option ℕ
new_mode (some mode) old = some (mode % 0o10000)
new_mode none old = old

-- `entry(path).or_insert(..)`, and the fields that the request sets.
unfoldable pub overridden : Mount → Sattr → Option AttrOverride → AttrOverride
overridden m attr none = record {
  mode = new_mode attr.mode none;
  mtime = new_mtime m attr.mtime none;
}
overridden m attr (some o) = record {
  mode = new_mode attr.mode o.mode;
  mtime = new_mtime m attr.mtime o.mtime;
}

abbrev pub is_written_below : Bytes → OverlayEntry → Bool
is_written_below path e =
    (elim e.blob_hash [ none ↦ false | some hash ↦ true ]) && starts_with e.path (below path)

abbrev pub is_nil {ℓ} : {A : Type ℓ} → List A → Bool
is_nil [] = true
is_nil (x ∷ xs) = false

-- The loop over the overlay's rows, with the paths that are collected already.
unfoldable pub add_written_below : Bytes → List OverlayEntry → List Bytes → List Bytes
add_written_below src [] paths = paths
add_written_below src (e ∷ rest) paths = add_written_below src rest (
    if is_written_below src e && not (contains paths e.path) then paths ++ (e.path ∷ []) else paths)

module _ (S : Store) (m : Mount) where
  -- `store.get(&hash)?.unwrap_or_default()`
  unfoldable pub blob_or_empty : S.State → Hash → Outcome IoError (Bytes × S.State)
  blob_or_empty blobs hash =
      S.get blobs hash >>= λ (found, blobs'). ok (elim found [ none ↦ [] | some b ↦ b ], blobs')

  unfoldable pub content : S.State → Bytes → Resolution → Outcome IoError (Bytes × S.State)
  unfolding blob_or_empty
  content blobs path Resolution.tombstone = ok ([], blobs)
  content blobs path (Resolution.overlay hex) = hex_to_hash hex >>= λ hash. blob_or_empty blobs hash
  content blobs path Resolution.base = elim (Index.lookup m.index path) [
    | none ↦ ok ([], blobs)
    | some hash ↦ blob_or_empty blobs hash
  ]

module _ {S : Store} where
  unfoldable pub forget_size : Bytes → Handler S (Unit {0})
  forget_size path = updates λ s. ok (tt, record s { sizes = remove s.sizes path })

  unfoldable pub intern_path : Bytes → NodeKind → Handler S ℕ
  intern_path path kind =
      updates
        λ s. of_ids (intern s.ids path kind) >>= λ (id, ids'). ok (id, record s { ids = ids' })

  -- A call that changes the numbers.
  unfoldable pub on_ids : (IdTable → Outcome Never IdTable) → Handler S (Unit {0})
  on_ids f = updates λ s. of_ids (f s.ids) >>= λ ids'. ok (tt, record s { ids = ids' })

  unfoldable pub forget_path : Bytes → Handler S (Unit {0})
  unfolding on_ids
  forget_path path = on_ids (λ t. forget t path)

module _ {S : Store} (m : Mount) where
  unfoldable pub full_content : CasNfs S → Bytes → Outcome IoError (Bytes × CasNfs S)
  unfolding content
  full_content s path = assert (leb (length path) 4096) (
      as_io (Overlay.resolve s.overlay m.agent path) >>= λ r.
      content S m s.blobs path r >>= λ (bytes, blobs'). ok (bytes, record s { blobs = blobs' }))

  -- The whole of a file, or nothing where there is none; `map_err` of the callers included.
  unfoldable pub read_full_for_rmw : Bytes → Handler S Bytes
  unfolding full_content
  read_full_for_rmw path = updates λ s. or_io (full_content s path)

  unfoldable pub written : Bytes → Bytes → CasNfs S → Outcome IoError (Unit {0} × CasNfs S)
  written path new_bytes s =
      route_write S s.blobs s.overlay m.agent m.workspace path new_bytes
      >>= λ (hash, (blobs', ov')). ok (
        tt,
        record s { blobs = blobs'; overlay = ov'; sizes = insert s.sizes path (length new_bytes) },
      )

  unfoldable pub do_route_write : Bytes → Bytes → Handler S (Unit {0})
  unfolding written
  do_route_write path new_bytes =
      asserts (leb (length path) 4096) (updates λ s. or_io (written path new_bytes s))

  -- `fuse::route_delete`, and what the callers do with its error.
  unfoldable pub delete_path : Bytes → Handler S (Unit {0})
  delete_path path = updates λ s. or_io (route_delete s.overlay m.agent m.workspace path) >>= λ ov'.
      ok (tt, record s { overlay = ov' })

  unfoldable pub apply_sattr_overrides : Bytes → Sattr → Handler S (Unit {0})
  unfolding overridden
  apply_sattr_overrides path attr = updates λ s. ok (
    tt,
    record s { overrides = insert s.overrides path (overridden m attr (get s.overrides path)) },
  )

  -- The base paths below a directory that are not hidden.
  unfoldable pub base_below : CasNfs S → Bytes → List Bytes
  base_below s path =
      filter (λ p. starts_with p (below path) && not (is_hidden s.ids p)) (keys m.index)

  unfoldable pub has_children : CasNfs S → Bytes → Outcome NfsStat Bool
  unfolding base_below
  has_children s path = assert (leb (length path) 4096) (
      if not (is_nil (base_below s path))
      then ok true
      else (or_none (entries_for_agent s.overlay m.agent) >>= λ entries. ok (
          if not (is_nil (filter (is_written_below path) entries))
          then true
          else not (is_nil (dynamic_dir_children_of s.ids path)))))

  -- One file's bytes go to another path, and its own path is deleted.
  unfoldable pub move_bytes : Bytes → Bytes → Handler S (Unit {0})
  unfolding read_full_for_rmw do_route_write delete_path forget_size
  move_bytes src dst = read_full_for_rmw src >>> λ bytes.
      do_route_write dst bytes >>> λ _. delete_path src >>> λ _. forget_size src

  unfoldable pub rename_file : Bytes → Bytes → Handler S (Unit {0})
  unfolding move_bytes on_ids
  rename_file src dst = asserts (leb (length src) 4096) (
      asserts (leb (length dst) 4096)
        (move_bytes src dst >>> λ _. on_ids (λ t. rename_path t src dst file)))

  unfoldable pub paths_below : CasNfs S → Bytes → Outcome NfsStat (List Bytes)
  unfolding base_below add_written_below
  paths_below s src = or_none (entries_for_agent s.overlay m.agent) >>= λ entries.
      ok (add_written_below src entries (base_below s src))

  unfoldable pub move_all : Bytes → Bytes → List Bytes → Handler S (Unit {0})
  unfolding move_bytes
  move_all src dst [] = returns tt
  move_all src dst (p ∷ rest) =
      let later = move_all src dst rest in
      if leb (length (moved src dst p)) 4096
      then (move_bytes p (moved src dst p) >>> λ _. later)
      else later

  unfoldable pub rename_dir : Bytes → Bytes → Handler S (Unit {0})
  unfolding paths_below move_all on_ids
  rename_dir src dst = asserts (leb (length src) 4096) (
      asserts (leb (length dst) 4096) (
        reads (λ s. paths_below s src) >>> λ paths. move_all src dst paths >>> λ _.
        on_ids (λ t. rename_subtree m.base_order m.dyn_order t src dst)))
