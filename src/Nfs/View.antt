-- ===== src/Nfs/View.antt =====
-- src/nfs/overlay_view.rs, and its snapshot in src/nfs/fs.rs: the files that one agent sees.
use lunar_fs.Base.{
  ℕ, Bool, true, false, not, ◌&&◌, Option, none, some, List, [], ◌∷◌, ◌++◌, Bytes, Outcome, ok,
  ◌>>=◌, assert, list_eq, nat_eq, contains, ltb, length, filter, if◌then◌else◌,
}
use lunar_fs.Base.Dict.{Dict, get, insert, keys}
use lunar_fs.Cas.{Store}
use lunar_fs.Index
use lunar_fs.Index.{Index}
use lunar_fs.Overlay.{OverlayEntry, entries_for_agent}
use lunar_fs.Fuse.Translate.{NodeMeta, IndexSeam, file}
use lunar_fs.Nfs.{NfsStat, Mount, CasNfs, or_none}

-- The paths that the agent has written, with their sizes, and those that it has deleted.
pub record OverlayView : Type 0 where
  pub index : Index
  pub written : Dict Bytes ℕ
  pub tombstoned : List Bytes

abbrev pub file_meta : Option (List ℕ) → ℕ → NodeMeta
file_meta hash size = record { kind = file; size = size; mode = 0o100644; hash = hash }

-- Its `assert!` on the length of the path is that of every caller.
unfoldable pub lookup : OverlayView → Bytes → Option NodeMeta
lookup v path = if contains v.tombstoned path then none else elim (get v.written path) [
  | some size ↦ some (file_meta none size)
  | none ↦ elim (Index.lookup_entry v.index path) [
    | none ↦ none
    | some (hash, size) ↦ some (file_meta (some hash) size)
  ]
]

abbrev pub is_new : OverlayView → Bytes → Bool
is_new v path =
    not (contains v.tombstoned path)
    && (elim (Index.lookup v.index path) [ none ↦ true | some hash ↦ false ])

-- `order` is that in which the `HashMap` gives its keys.
unfoldable pub file_paths : (List Bytes → List Bytes) → OverlayView → List Bytes
file_paths order v =
    filter (λ p. not (contains v.tombstoned p)) (keys v.index)
    ++ filter (is_new v) (order (keys v.written))

abbrev pub seam : (List Bytes → List Bytes) → OverlayView → IndexSeam
seam order v = record { lookup = lookup v; file_paths = file_paths order v }

-- The loop over the rows of the overlay.
unfoldable pub split_rows :
    Dict Bytes ℕ → List OverlayEntry → Dict Bytes ℕ → List Bytes → Dict Bytes ℕ × List Bytes
split_rows sizes [] written tombstoned = (written, tombstoned)
split_rows sizes (e ∷ rest) written tombstoned = elim e.blob_hash [
  | none ↦ split_rows sizes rest written (e.path ∷ tombstoned)
  | some hash ↦
      split_rows sizes rest
        (insert written e.path (elim (get sizes e.path) [ some n ↦ n | none ↦ 0 ])) tombstoned
]

unfoldable pub make_overlay_view : {S : Store} → Mount → CasNfs S → Outcome NfsStat OverlayView
unfolding split_rows
make_overlay_view m s = or_none (entries_for_agent s.overlay m.agent) >>= λ entries.
    let split : Dict Bytes ℕ × List Bytes = split_rows s.sizes entries [] [] in
    assert (ltb (length split.0) 1_000_000)
      (ok (record { index = m.index; written = split.0; tombstoned = split.1 }))
