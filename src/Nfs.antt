-- ===== src/Nfs.antt =====
-- src/nfs/fs.rs: the NFS server over the base index, the overlay of one agent and the numbers that
-- stand for paths. One request is answered at a time.
-- The user and group ids, the time of the mount and the order in which the hash maps give their
-- keys are not determined by the code: they are fields of `Mount`.
pub mod View
pub mod Files
pub mod Handlers
pub mod Requests
pub mod Preserved
pub mod Numbers
pub mod Effects
pub mod Errors
pub mod Buffers
pub mod Reads
pub mod Renames
pub mod Caches
use lunar_fs.Base.{
  ℕ, ◌%◌, Option, none, some, List, [], Bytes, Outcome, ok, err, panic, ◌>>=◌, assert, list_eq,
  nat_eq, leb, ltb, length, if◌then◌else◌,
}
use lunar_fs.Base.Dict.{Dict, get}
use lunar_fs.Base.Calls.{Call}
use lunar_fs.Cas.{IoError, Store}
use lunar_fs.Index
use lunar_fs.Index.{Index}
use lunar_fs.Overlay.{OverlayStore, OverlayError}
use lunar_fs.Fuse.Translate.{NodeKind, file, dir, FsError}
use lunar_fs.Fuse.Translate
use lunar_fs.Ids.{IdTable, Never}

-- The statuses that the handlers give.
pub data NfsStat : Type 0 where
  noent io_failed not_dir is_dir inval exists not_empty not_supp acces : NfsStat

pub record NfsTime : Type 0 where
  pub seconds : ℕ
  pub nseconds : ℕ

pub data SetMtime : Type 0 where
  dont_change set_to_server_time : SetMtime
  set_to_client_time : NfsTime → SetMtime

-- The fields of `sattr3` that the handlers read.
pub record Sattr : Type 0 where
  pub mode : Option ℕ
  pub size : Option ℕ
  pub mtime : SetMtime

pub record AttrOverride : Type 0 where
  pub mode : Option ℕ
  pub mtime : Option NfsTime

pub record Fattr : Type 0 where
  pub ftype : NodeKind
  pub mode : ℕ
  pub nlink : ℕ
  pub uid : ℕ
  pub gid : ℕ
  pub size : ℕ
  pub used : ℕ
  pub fsid : ℕ
  pub fileid : ℕ
  pub atime : NfsTime
  pub mtime : NfsTime
  pub ctime : NfsTime

-- The fields of `CasNfs` that never change.
pub record Mount : Type 0 where
  pub index : Index
  pub agent : ℕ
  pub workspace : ℕ
  pub uid : ℕ
  pub gid : ℕ
  pub mount_time : ℕ
  pub base_order : Dict Bytes ℕ → Dict Bytes ℕ
  pub dyn_order : List Bytes → List Bytes
  pub written_order : List Bytes → List Bytes

-- The fields of `CasNfs` that change, with the blobs of its store.
pub record CasNfs (S : Store) : Type 0 where
  pub ids : IdTable
  pub overlay : OverlayStore
  pub blobs : S.State
  pub sizes : Dict Bytes ℕ
  pub overrides : Dict Bytes AttrOverride

abbrev pub Handler : Store → Type 0 → Type 0
Handler S A = Call NfsStat (CasNfs S) A

abbrev pub fsid : ℕ
fsid = 0x0CA5_1234

-- `map_err(|_| NFS3ERR_IO)`
abbrev pub or_io {ℓ κ} : {E : Type ℓ} {A : Type κ} → Outcome E A → Outcome NfsStat A
or_io (ok a) = ok a
or_io (err e) = err io_failed
or_io panic = panic

-- A call on the table of numbers has no error.
abbrev pub of_ids {κ} : {A : Type κ} → Outcome Never A → Outcome NfsStat A
of_ids (ok a) = ok a
of_ids (err e) = elim e [ ]
of_ids panic = panic

-- `unwrap_or_default()`
abbrev pub or_none {ℓ κ} : {E : Type ℓ} {A : Type κ} → Outcome E (List A) → Outcome NfsStat (List A)
or_none (ok a) = ok a
or_none (err e) = ok []
or_none panic = panic

unfoldable pub fserr_to_nfs : FsError → NfsStat
fserr_to_nfs Translate.not_found = noent
fserr_to_nfs Translate.not_a_dir = not_dir
fserr_to_nfs Translate.is_a_dir = is_dir
fserr_to_nfs Translate.io_error = io_failed
fserr_to_nfs Translate.access_denied = acces

abbrev pub default_time : Mount → NfsTime
default_time m = record { seconds = m.mount_time; nseconds = 0 }

module _ {S : Store} (m : Mount) where
  -- The size of a file: that of the last write through this server, or that of the base.
  unfoldable pub file_size : CasNfs S → Bytes → ℕ
  file_size s path = elim (get s.sizes path) [
    | some n ↦ n
    | none ↦ elim (Index.lookup_size m.index path) [ some n ↦ n | none ↦ 0 ]
  ]

  abbrev pub mode_override : CasNfs S → Bytes → ℕ
  mode_override s path = elim (get s.overrides path) [
    | none ↦ 0o100644
    | some o ↦ elim o.mode [ some mode ↦ mode | none ↦ 0o100644 ]
  ]

  abbrev pub mtime_override : CasNfs S → Bytes → NfsTime
  mtime_override s path = elim (get s.overrides path) [
    | none ↦ default_time m
    | some o ↦ elim o.mtime [ some t ↦ t | none ↦ default_time m ]
  ]

  -- `mode & 0o7777` is `mode % 0o10000`.
  unfoldable pub fattr_for : CasNfs S → ℕ → Bytes → NodeKind → Fattr
  unfolding file_size
  fattr_for s id path dir = record {
    ftype = dir;
    mode = 0o040755 % 0o10000;
    nlink = 2;
    uid = m.uid;
    gid = m.gid;
    size = 0;
    used = 0;
    fsid = fsid;
    fileid = id;
    atime = default_time m;
    mtime = default_time m;
    ctime = default_time m;
  }
  fattr_for s id path file = record {
    ftype = file;
    mode = mode_override s path % 0o10000;
    nlink = 1;
    uid = m.uid;
    gid = m.gid;
    size = file_size s path;
    used = file_size s path;
    fsid = fsid;
    fileid = id;
    atime = mtime_override s path;
    mtime = mtime_override s path;
    ctime = mtime_override s path;
  }

-- `CasNfs::with_overlay`, over the store and the overlay that it is given.
unfoldable pub with_overlay :
    {S : Store} → Mount → S.State → OverlayStore → Outcome NfsStat (CasNfs S)
with_overlay m blobs ov = assert (ltb 0 m.agent) (
    assert (ltb 0 m.workspace) (
      of_ids (lunar_fs.Ids.build m.index) >>= λ ids.
      assert (ltb 0 m.mount_time)
        (ok (record { ids = ids; overlay = ov; blobs = blobs; sizes = []; overrides = [] }))))
