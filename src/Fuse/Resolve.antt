-- ===== src/Fuse/Resolve.antt =====
-- src/fuse/resolve.rs: what the file system answers, the access rules first.
use lunar_fs.Base.{
  ℕ, Bool, false, Option, none, some, List, Bytes, Outcome, ok, err, panic, ◌>>=◌, assert, ok_or,
  lift, leb, length, if◌then◌else◌,
}
use lunar_fs.Base.Int.{ℤ}
use lunar_fs.Base.Dict.{keys}
use lunar_fs.Acl
use lunar_fs.Acl.{AclEntry, AclDecision, decide}
use lunar_fs.Cas.{Store, hex_to_hash}
use lunar_fs.Index
use lunar_fs.Index.{Index, lookup_entry, lookup_size}
use lunar_fs.Overlay
use lunar_fs.Overlay.{OverlayStore, OverlayError, Resolution}
use lunar_fs.Fuse.{route_read, is_tombstoned}
use lunar_fs.Fuse.Translate.{
  file, dir, Attributes, DirEntry, FsError, not_found, is_a_dir, io_error, access_denied, IndexSeam,
  attr_for, read_dir, clamp_read,
}

-- `impl IndexSeam for Index`
unfoldable pub seam : Index → IndexSeam
seam index = record {
  lookup = λ path. elim (lookup_entry index path) [
    | none ↦ none
    | some (hash, size) ↦
        some (record { kind = file; size = size; mode = 0o100644; hash = some hash })
  ];
  file_paths = keys index;
}

-- `map_err(|e| FsError::IoError(..))`
abbrev pub as_fs {ℓ κ} : {E : Type ℓ} {A : Type κ} → Outcome E A → Outcome FsError A
as_fs (ok a) = ok a
as_fs (err e) = err io_error
as_fs panic = panic

-- What every call is about: the rules, the caller, and its overlay, if one is configured.
pub record Caller : Type 0 where
  pub acl : List AclEntry
  pub overlay : Option OverlayStore
  pub agent : ℕ
  pub principal : Bytes
  pub now : ℤ

unfoldable pub check_acl : Caller → Bytes → Outcome FsError (Unit {0})
check_acl c path = assert (leb (length c.acl) 1_000_000) (
    lift (decide c.acl path c.principal c.now Acl.Permission.read) >>= λ d. elim d [
      | Acl.refuse ↦ err access_denied
      | Acl.allow ↦ ok tt
    ])

abbrev pub in_bounds {ℓ} : {A : Type ℓ} → Caller → Bytes → Outcome FsError A → Outcome FsError A
in_bounds c path k = assert (leb (length path) 4096) (assert (leb (length c.principal) 256) k)

unfoldable pub hidden : Caller → Bytes → Outcome FsError Bool
hidden c path = elim c.overlay [ none ↦ ok false | some ov ↦ is_tombstoned ov c.agent path ]

unfoldable pub resolve_attr : IndexSeam → Caller → Bytes → Outcome FsError Attributes
unfolding check_acl hidden
resolve_attr index c path = in_bounds c path (
    check_acl c path >>= λ _.
    hidden c path >>= λ gone. if gone then err not_found else attr_for index path)

unfoldable pub resolve_open : IndexSeam → Caller → Bytes → Outcome FsError Attributes
unfolding resolve_attr
resolve_open index c path =
    resolve_attr index c path >>= λ a. elim a.kind [ file ↦ ok a | dir ↦ err is_a_dir ]

unfoldable pub resolve_readdir : IndexSeam → Caller → Bytes → Outcome FsError (List DirEntry)
unfolding check_acl
resolve_readdir index c path = in_bounds c path (check_acl c path >>= λ _. read_dir index path)

module _ (S : Store) where
  -- Without an overlay: the base file, clamped.
  unfoldable pub read_base : S.State → Index → Bytes → ℕ → ℕ → Outcome FsError (Bytes × S.State)
  unfolding clamp_read
  read_base st index path offset size = ok_or (Index.lookup index path) not_found >>= λ hash.
      as_fs (S.get st hash) >>= λ (found, st').
      ok_or found io_error >>= λ blob. ok (clamp_read offset size blob, st')

  unfoldable pub resolve_read :
      S.State → Index → Caller → Bytes → ℕ → ℕ → Outcome FsError (Bytes × S.State)
  unfolding check_acl read_base
  resolve_read st index c path offset size = in_bounds c path (
      check_acl c path >>= λ _. elim c.overlay [
        | none ↦ read_base st index path offset size
        | some ov ↦ as_fs (route_read S st index ov c.agent path offset size) >>= λ (blob, st').
            ok_or blob not_found >>= λ b. ok (b, st')
      ])

  -- The size in the base: 0 for a directory, the cached length for a file.
  unfoldable pub base_size : Index → Bytes → Outcome FsError ℕ
  base_size index path = attr_for (seam index) path >>= λ a. elim a.kind [
    | dir ↦ ok 0
    | file ↦ ok_or (lookup_size index path) not_found
  ]

  unfoldable pub resolved_size :
      S.State → Index → Bytes → Resolution → Outcome FsError (ℕ × S.State)
  unfolding base_size
  resolved_size st index path Resolution.tombstone = err not_found
  resolved_size st index path (Resolution.overlay hex) = as_fs (hex_to_hash hex) >>= λ hash.
      as_fs (S.get st hash) >>= λ (found, st').
      ok_or found io_error >>= λ blob. ok (length blob, st')
  resolved_size st index path Resolution.base = base_size index path >>= λ n. ok (n, st)

  unfoldable pub resolve_size : S.State → Index → Caller → Bytes → Outcome FsError (ℕ × S.State)
  unfolding check_acl resolved_size
  resolve_size st index c path = in_bounds c path (
      check_acl c path >>= λ _. elim c.overlay [
        | none ↦ base_size index path >>= λ n. ok (n, st)
        | some ov ↦ as_fs (Overlay.resolve ov c.agent path) >>= λ r. resolved_size st index path r
      ])
