-- ===== src/Fuse/Translate.antt =====
-- src/fuse/translate.rs: attributes and listings over an index of files; directories are inferred.
use lunar_fs.Base.{
  ℕ, ◌+◌, ◌-◌, ◌*◌, Bool, false, not, ◌||◌, Option, none, some, List, [], ◌∷◌, ◌++◌, Bytes, Outcome,
  ok, err, ◌>>=◌, assert, ok_or, list_eq, nat_eq, contains, leb, length, take, drop, min,
  if◌then◌else◌, ◌=ℕ=◌,
}
use lunar_fs.Base.Text.{is_empty, starts_with, strip_prefix, has_byte, slash, ascii}
use lunar_fs.Cas.{Hash}

pub data NodeKind : Type 0 where
  file dir : NodeKind

pub record NodeMeta : Type 0 where
  pub kind : NodeKind
  pub size : ℕ
  pub mode : ℕ
  pub hash : Option Hash

pub record Attributes : Type 0 where
  pub kind : NodeKind
  pub size : ℕ
  pub mode : ℕ

pub record DirEntry : Type 0 where
  pub name : Bytes
  pub kind : NodeKind

-- The message of an I/O error is dropped.
pub data FsError : Type 0 where
  not_found not_a_dir is_a_dir io_error access_denied : FsError

-- The trait `IndexSeam`.
pub record IndexSeam : Type 0 where
  pub lookup : Bytes → Option NodeMeta
  pub file_paths : List Bytes

-- The trait `StoreSeam`.
abbrev pub StoreSeam : Type 0
StoreSeam = Hash → Option Bytes

abbrev pub dir_meta : NodeMeta
dir_meta = record { kind = dir; size = 0; mode = 0o040755; hash = none }

abbrev pub below : Bytes → Bytes
below path = path ++ (slash ∷ [])

-- `file_paths().iter().any(|p| p.starts_with(prefix))`
unfoldable pub any_starts_with : Bytes → List Bytes → Bool
any_starts_with prefix [] = false
any_starts_with prefix (p ∷ rest) = starts_with p prefix || any_starts_with prefix rest

unfoldable pub resolve_path : IndexSeam → Bytes → Outcome FsError NodeMeta
resolve_path index path = assert (leb (length path) 4096) (elim (index.lookup path) [
  | some meta ↦ ok meta
  | none ↦
      if is_empty path
      then ok dir_meta
      else if any_starts_with (below path) index.file_paths
      then ok dir_meta
      else err not_found
])

unfoldable pub attr_for : IndexSeam → Bytes → Outcome FsError Attributes
unfolding resolve_path
attr_for index path = resolve_path index path >>= λ meta.
    ok (record { kind = meta.kind; size = meta.size; mode = meta.mode })

-- The clamped part of a blob; past its end nothing is read.
unfoldable pub clamp_read : ℕ → ℕ → Bytes → Bytes
clamp_read offset size bytes =
    if leb (length bytes) offset || (size =ℕ= 0)
    then []
    else take (min (offset + size) (length bytes) - offset) (drop offset bytes)

unfoldable pub read_slice : IndexSeam → StoreSeam → Bytes → ℕ → ℕ → Outcome FsError Bytes
unfolding resolve_path clamp_read
read_slice index store path offset size = assert (leb (length path) 4096) (
    assert (leb size (128 * 1024 * 1024)) (
      resolve_path index path >>= λ meta. elim meta.kind [
        | dir ↦ err is_a_dir
        | file ↦ ok_or meta.hash io_error >>= λ hash.
            ok_or (store hash) io_error >>= λ bytes. ok (clamp_read offset size bytes)
      ]))

-- `rest.split('/').next()`
unfoldable pub first_component : Bytes → Bytes
first_component [] = []
first_component (c ∷ s) = let more = first_component s in if c =ℕ= slash then [] else c ∷ more

abbrev pub strip : Bytes → Bytes → Option Bytes
strip prefix path = if is_empty prefix then some path else strip_prefix path prefix

-- The loop over the file paths, with the names that are listed already.
unfoldable pub list_children : Bytes → List Bytes → List Bytes → List DirEntry
list_children prefix seen [] = []
list_children prefix seen (path ∷ paths) =
    let skip = list_children prefix seen paths in
    elim (strip prefix path) [
      | none ↦ skip
      | some rest ↦
          let name = first_component rest in
          let listed =
            record { name = name; kind = if has_byte slash rest then dir else file }
            ∷ list_children prefix (name ∷ seen) paths in
          if is_empty name then skip else if contains seen name then skip else listed
    ]

abbrev pub dot : Bytes
dot = ascii "."

abbrev pub dot_dot : Bytes
dot_dot = ascii ".."

abbrev pub all_children : IndexSeam → Bytes → List DirEntry
all_children index prefix =
    record { name = dot; kind = dir }
    ∷ record { name = dot_dot; kind = dir }
    ∷ list_children prefix (dot_dot ∷ dot ∷ []) index.file_paths

unfoldable pub read_dir : IndexSeam → Bytes → Outcome FsError (List DirEntry)
unfolding list_children any_starts_with
read_dir index path = assert (leb (length path) 4096) (
    if is_empty path then ok (all_children index []) else elim (index.lookup path) [
      | some meta ↦ err not_a_dir
      | none ↦
          if not (any_starts_with (below path) index.file_paths)
          then err not_found
          else ok (all_children index (below path))
    ])

-- The magnitudes of libc's error constants are those of the platform: a parameter.
pub record Errno : Type 0 where
  pub enoent : ℕ
  pub enotdir : ℕ
  pub eisdir : ℕ
  pub eio : ℕ
  pub eacces : ℕ

-- The magnitude of the (negative) result.
unfoldable pub errno_for : Errno → FsError → ℕ
errno_for c not_found = c.enoent
errno_for c not_a_dir = c.enotdir
errno_for c is_a_dir = c.eisdir
errno_for c io_error = c.eio
errno_for c access_denied = c.eacces
