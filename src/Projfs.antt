-- ===== src/Projfs.antt =====
-- src/backend/projfs_logic.rs: what the Windows backend answers, over the same file system calls.
pub mod Agreement
use lunar_fs.Base.{
  ℕ, ◌+◌, ◌*◌, ◌^◌, ◌-◌, Bool, true, false, not, ◌||◌, Option, none, some, List, [], ◌∷◌, ◌++◌,
  Bytes, Outcome, ok, err, panic, ◌>>=◌, assert, ok_or, lift, ◌==◌, list_eq, nat_eq, leb, length,
  min, if◌then◌else◌, ◌=ℕ=◌,
}
use lunar_fs.Acl
use lunar_fs.Acl.{AclDecision, decide}
use lunar_fs.Cas.{Store}
use lunar_fs.Index.{Index, join}
use lunar_fs.Tree.{bytes_leb}
use lunar_fs.Overlay.{OverlayStore}
use lunar_fs.Fuse.{route_write, route_delete}
use lunar_fs.Fuse.Translate.{
  NodeKind, file, dir, Attributes, DirEntry, FsError, not_found, not_a_dir, is_a_dir, io_error,
  access_denied, dot, dot_dot,
}
use lunar_fs.Fuse.Resolve.{
  Caller, as_fs, seam, resolve_attr, resolve_readdir, resolve_read, resolve_size, in_bounds,
}

abbrev pub file_attribute_directory : ℕ
file_attribute_directory = 0x10

abbrev pub file_attribute_normal : ℕ
file_attribute_normal = 0x80

pub record PlaceholderMeta : Type 0 where
  pub is_directory : Bool
  pub file_size : ℕ
  pub file_attributes : ℕ

unfoldable pub placeholder_from_attr : Attributes → Outcome FsError PlaceholderMeta
placeholder_from_attr attr = assert (leb attr.size (2 ^ 63 - 1)) (elim attr.kind [
  | dir ↦
      ok (record { is_directory = true; file_size = 0; file_attributes = file_attribute_directory })
  | file ↦ ok (record {
    is_directory = false;
    file_size = attr.size;
    file_attributes = file_attribute_normal;
  })
])

pub record ProjFsDirEntry : Type 0 where
  pub name : Bytes
  pub is_dir : Bool
  pub size : ℕ

pub record ProjFsAttrs : Type 0 where
  pub is_dir : Bool
  pub size : ℕ

pub data ProjFsWriteOp : Type 0 where
  write delete : ProjFsWriteOp

abbrev pub kind_is_dir : NodeKind → Bool
kind_is_dir dir = true
kind_is_dir file = false

abbrev pub max_read : ℕ
max_read = 128 * 1024 * 1024

-- `to_lowercase` is the standard library's, over Unicode: a parameter.
module _ (to_lowercase : Bytes → Bytes) where
  unfoldable pub insert_entry : ProjFsDirEntry → List ProjFsDirEntry → List ProjFsDirEntry
  insert_entry e [] = e ∷ []
  insert_entry e (f ∷ rest) =
      let later = insert_entry e rest in
      if bytes_leb (to_lowercase e.name) (to_lowercase f.name) then e ∷ f ∷ rest else f ∷ later

  -- `sort_by_key`, which is stable.
  unfoldable pub sort_entries : List ProjFsDirEntry → List ProjFsDirEntry
  unfolding insert_entry
  sort_entries [] = []
  sort_entries (e ∷ rest) = insert_entry e (sort_entries rest)

module _ (S : Store) where
  -- `resolve_size(..).unwrap_or(0)`: a size that is not found leaves the store as it was.
  unfoldable pub size_or_zero : S.State → Index → Caller → Bytes → Outcome FsError (ℕ × S.State)
  size_or_zero st index c path = elim (resolve_size S st index c path) [
    | ok r ↦ ok r
    | err e ↦ ok (0, st)
    | panic ↦ panic
  ]

  unfoldable pub entry_size :
      S.State → Index → Caller → Bytes → DirEntry → Outcome FsError (ℕ × S.State)
  unfolding size_or_zero
  entry_size st index c path entry = elim entry.kind [
    | dir ↦ ok (0, st)
    | file ↦ size_or_zero st index c (join path entry.name)
  ]

  -- The loop over the listing; the dot entries are passed over.
  unfoldable pub sized :
      S.State
      → Index
      → Caller
      → Bytes
      → List DirEntry
      → Outcome FsError (List ProjFsDirEntry × S.State)
  unfolding entry_size
  sized st index c path [] = ok ([], st)
  sized st index c path (entry ∷ rest) =
      let skip = sized st index c path rest in
      if (entry.name == dot) || (entry.name == dot_dot)
      then skip
      else entry_size st index c path entry >>= λ (size, st').
          sized st' index c path rest >>= λ (out, st'').
          ok
            (record { name = entry.name; is_dir = kind_is_dir entry.kind; size = size } ∷ out, st'')

  unfoldable pub enumerate_dir :
      (Bytes → Bytes)
      → S.State
      → Index
      → Caller
      → Bytes
      → Outcome FsError (List ProjFsDirEntry × S.State)
  unfolding sized sort_entries
  enumerate_dir to_lowercase st index c path = in_bounds c path (
      resolve_readdir (seam index) c path >>= λ raw.
      sized st index c path raw >>= λ (out, st'). ok (sort_entries to_lowercase out, st'))

  unfoldable pub placeholder_info :
      S.State → Index → Caller → Bytes → Outcome FsError (ProjFsAttrs × S.State)
  placeholder_info st index c path = in_bounds c path (
      resolve_attr (seam index) c path >>= λ attrs.
      resolve_size S st index c path >>= λ (size, st').
      ok (record { is_dir = kind_is_dir attrs.kind; size = size }, st'))

  unfoldable pub read_file_data :
      S.State → Index → Caller → Bytes → ℕ → ℕ → Outcome FsError (Bytes × S.State)
  read_file_data st index c path offset wanted = in_bounds c path (
      let read = resolve_read S st index c path offset (min wanted max_read) in
      if wanted =ℕ= 0 then ok ([], st) else read)

  -- The caller's overlay is the one given; its own field is not read here.
  unfoldable pub apply_write_notification :
      S.State
      → OverlayStore
      → Caller
      → ℕ
      → Bytes
      → ProjFsWriteOp
      → Option Bytes
      → Outcome FsError (S.State × OverlayStore)
  apply_write_notification st ov c workspace path op bytes = in_bounds c path (
      lift (decide c.acl path c.principal c.now Acl.Permission.write) >>= λ d. elim d [
        | Acl.refuse ↦ err access_denied
        | Acl.allow ↦ elim op [
          | write ↦ ok_or bytes io_error >>= λ data_.
              as_fs (route_write S st ov c.agent workspace path data_) >>= λ (hash, (st', ov')).
              ok (st', ov')
          | delete ↦ as_fs (route_delete ov c.agent workspace path) >>= λ ov'. ok (st, ov')
        ]
      ])

unfoldable pub fs_error_to_win32 : FsError → ℕ
fs_error_to_win32 not_found = 0x8007_0002
fs_error_to_win32 not_a_dir = 0x8007_0003
fs_error_to_win32 is_a_dir = 0x8007_0015
fs_error_to_win32 access_denied = 0x8007_0005
fs_error_to_win32 io_error = 0x8007_001F
