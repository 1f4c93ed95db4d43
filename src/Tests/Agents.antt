-- ===== src/Tests/Agents.antt =====
-- Two agents over one base, and their file system calls.
use lunar_fs.Base.{
  take, drop, ℕ, ◌≤◌, ◌<◌, ◌≡◌, refl, sym, ◌∙◌, ap, Bool, true, false, Bool-cases, inl, inr, Option,
  none, some, List, [], ◌∷◌, Bytes, Outcome, ok, err, arith, All, length, list_eq, nat_eq, list_dec,
  pair_dec, pair_eq, ◌==◌, ==-sound, ==-self, if◌then◌else◌,
}
use lunar_fs.Base.Int.{pos}
use lunar_fs.Base.Dict.{get, insert}
use lunar_fs.Base.Text.{ascii, is_empty}
use lunar_fs.Acl
use lunar_fs.Acl.{AclEntry, decide}
use lunar_fs.Auth
use lunar_fs.Auth.{AuthDb, Principal, Grant, authorize}
use lunar_fs.Cas.{Hash, IoError, Blobs, mem_store, mem_put, hash_to_hex, hex_to_hash}
use lunar_fs.Cas.Hydration.{IsAddressed}
use lunar_fs.Index.{Index}
use lunar_fs.Overlay
use lunar_fs.Overlay.{
  OverlayStore, Row, resolve, capture_write, WorkspaceHandle, fork_workspace, root_path,
}
use lunar_fs.Overlay.Forks.{IsFresh, IsForkOf, fork_workspace-IsForkOf}
use lunar_fs.Fuse.{route_read, route_write}
use lunar_fs.Fuse.ReadPaths.{IsHash32, read_own_write, read_other_write}
use lunar_fs.Fuse.Translate.{FsError, access_denied, not_found, IndexSeam}
use lunar_fs.Fuse.Resolve.{
  Caller, seam, resolve_attr, resolve_open, resolve_readdir, resolve_read, resolve_size,
}
use lunar_fs.Fuse.Errors.{IsBounded, refused_everywhere, deleted_is_not_found}
use lunar_fs.Fuse.Sizes.{resolve_size-resolve_read}
use lunar_fs.Projfs.{ProjFsDirEntry, enumerate_dir}
use lunar_fs.Projfs.Agreement.{IsNamed, IsOrdered, enumerate_dir-IsOrdered}

abbrev pub hi : Bytes
hi = ascii "hi"

abbrev pub hash_of_hi : Hash
hash_of_hi = ascii "11111111111111111111111111111111"

abbrev hash_of_rest : Hash
hash_of_rest = ascii "00000000000000000000000000000000"

-- A hash function with which nothing else collides with "hi".
unfoldable pub marked : Bytes → Hash
marked bytes = if bytes == hi then hash_of_hi else hash_of_rest

pub marked-IsHash32 : IsHash32 marked
unfolding marked
marked-IsHash32 x = elim (Bool-cases (x == hi)) [
  | inl e ↦ rw e (refl, ground arith)
  | inr e ↦ rw e (refl, ground arith)
]

marked-hi : marked hi ≡ hash_of_hi
unfolding marked
marked-hi = rw (==-self hi) refl

pub marked_unique : (y : Bytes) → marked y ≡ marked hi → y ≡ hi
unfolding marked
marked_unique y h = elim (Bool-cases (y == hi)) [
  | inl e ↦ ==-sound y hi e
  | inr e ↦
      let apart : hash_of_rest ≡ hash_of_hi = sym (rw e refl) ∙ (h ∙ marked-hi) in
      absurd (ground arith)
]

pub no_blobs : IsAddressed marked []
unfolding get
no_blobs h x e = cc

abbrev file_path : Bytes
file_path = ascii "f"

abbrev pub empty_overlay : OverlayStore
empty_overlay = record {
  last_agent = 2;
  agents = (1, 1) ∷ (2, 1) ∷ [];
  rows = [];
  roots = (1, ascii "r") ∷ [];
}

abbrev written_row : Row
written_row = record { workspace_id = 1; blob_hash = some (hash_to_hex hash_of_hi) }

abbrev deleted_row : Row
deleted_row = record { workspace_id = 1; blob_hash = none }

abbrev written_overlay : OverlayStore
written_overlay = record empty_overlay { rows = ((1, file_path), written_row) ∷ [] }

abbrev hi_blobs : Blobs
hi_blobs = (hash_of_hi, hi) ∷ []

writes :
    route_write (mem_store marked) [] empty_overlay 1 1 file_path hi
    ≡ ok (hash_of_hi, (hi_blobs, written_overlay))
unfolding route_write is_empty capture_write hash_to_hex mem_put marked list_dec
    native.Mathlib.Decide.ℕ_discrete get insert
writes = refl

read_own_write_example :
    route_read (mem_store marked) hi_blobs [] written_overlay 1 file_path 0 9
    ≡ ok (some (take 9 (drop 0 hi)), hi_blobs)
read_own_write_example =
    read_own_write marked [] hi_blobs [] empty_overlay written_overlay 1 1 file_path hi hash_of_hi 0
      9 marked-IsHash32 no_blobs marked_unique (omega arith) (omega arith) writes

absent : route_read (mem_store marked) [] [] empty_overlay 2 file_path 0 9 ≡ ok (none, [])
unfolding route_read resolve lunar_fs.Fuse.resolved_blob get lunar_fs.Fuse.base_blob
    lunar_fs.Index.lookup
absent = refl

read_other_write_example :
    route_read (mem_store marked) hi_blobs [] written_overlay 2 file_path 0 9 ≡ ok (none, hi_blobs)
unfolding pair_dec native.Mathlib.Decide.ℕ_discrete
read_other_write_example =
    read_other_write marked [] hi_blobs [] empty_overlay written_overlay 1 2 1 file_path file_path
      hi hash_of_hi 0 9 none [] refl writes absent

captures : capture_write empty_overlay 1 1 file_path (hash_to_hex hash_of_hi) ≡ ok written_overlay
unfolding capture_write is_empty hash_to_hex insert
captures = refl

-- Eve may not read; Ann may, through an overlay with a file written or deleted.
abbrev no_eve : List AclEntry
no_eve =
    record {
      path_prefix = [];
      principal = ascii "eve";
      permission = Acl.Permission.deny;
      expires_at = none;
    }
    ∷ []

abbrev eve : Caller
eve = record {
  acl = no_eve;
  overlay = some written_overlay;
  agent = 1;
  principal = ascii "eve";
  now = pos 0;
}

abbrev ann : OverlayStore → Caller
ann ov = record { acl = no_eve; overlay = some ov; agent = 1; principal = ascii "ann"; now = pos 0 }

eve-IsBounded : IsBounded eve file_path
eve-IsBounded = record {
  path_len = omega arith;
  principal_len = omega arith;
  acl_len = omega arith;
}

eve_refused : decide eve.acl file_path eve.principal eve.now Acl.Permission.read ≡ ok Acl.refuse
unfolding decide Acl.applies list_dec native.Mathlib.Decide.ℕ_discrete
eve_refused = refl

refused_everywhere_example :
    (resolve_attr (seam []) eve file_path ≡ err access_denied)
    × (resolve_open (seam []) eve file_path ≡ err access_denied)
    × (resolve_readdir (seam []) eve file_path ≡ err access_denied)
    × (resolve_read (mem_store marked) hi_blobs [] eve file_path 0 9 ≡ err access_denied)
    × (resolve_size (mem_store marked) hi_blobs [] eve file_path ≡ err access_denied)
refused_everywhere_example =
    refused_everywhere (mem_store marked) hi_blobs [] (seam []) eve file_path 0 9 eve-IsBounded
      eve_refused

abbrev deleted_overlay : OverlayStore
deleted_overlay = record empty_overlay { rows = ((1, file_path), deleted_row) ∷ [] }

ann-IsBounded : IsBounded (ann deleted_overlay) file_path
ann-IsBounded = record {
  path_len = omega arith;
  principal_len = omega arith;
  acl_len = omega arith;
}

ann_allowed : decide no_eve file_path (ascii "ann") (pos 0) Acl.Permission.read ≡ ok Acl.allow
unfolding decide Acl.applies list_dec native.Mathlib.Decide.ℕ_discrete
ann_allowed = refl

is_gone : resolve deleted_overlay 1 file_path ≡ ok Overlay.Resolution.tombstone
unfolding resolve get pair_dec native.Mathlib.Decide.ℕ_discrete list_dec
is_gone = refl

deleted_is_not_found_example :
    (resolve_attr (seam []) (ann deleted_overlay) file_path ≡ err not_found)
    × (resolve_open (seam []) (ann deleted_overlay) file_path ≡ err not_found)
    × (resolve_read (mem_store marked) hi_blobs [] (ann deleted_overlay) file_path 0 9
        ≡ err not_found)
    × (resolve_size (mem_store marked) hi_blobs [] (ann deleted_overlay) file_path ≡ err not_found)
deleted_is_not_found_example =
    deleted_is_not_found (mem_store marked) hi_blobs [] (seam []) (ann deleted_overlay)
      deleted_overlay file_path 0 9 ann-IsBounded (omega arith) ann_allowed refl is_gone

size_reported :
    resolve_size (mem_store marked) hi_blobs [] (ann written_overlay) file_path ≡ ok (2, hi_blobs)
unfolding resolve_size decide Acl.applies list_dec native.Mathlib.Decide.ℕ_discrete resolve get
    pair_dec hex_to_hash hash_to_hex lunar_fs.Cas.parse_pairs lunar_fs.Cas.from_str_radix
    lunar_fs.Base.Text.hex_digit
size_reported = refl

is_written :
    resolve written_overlay 1 file_path ≡ ok (Overlay.Resolution.overlay (hash_to_hex hash_of_hi))
unfolding resolve get pair_dec native.Mathlib.Decide.ℕ_discrete list_dec
is_written = refl

resolve_size-resolve_read_example :
    (b : Bytes) × ((resolve_read (mem_store marked) hi_blobs [] (ann written_overlay) file_path 0 9
        ≡ ok (b, hi_blobs))
      × (length b ≡ 2))
resolve_size-resolve_read_example =
    resolve_size-resolve_read (mem_store marked) hi_blobs hi_blobs [] (ann written_overlay)
      written_overlay file_path (hash_to_hex hash_of_hi) 2 9 refl is_written (omega arith)
      (omega arith) size_reported

reads_one :
    resolve_read (mem_store marked) hi_blobs [] (ann written_overlay) file_path 0 1
    ≡ ok (ascii "h", hi_blobs)
unfolding resolve_read decide Acl.applies list_dec native.Mathlib.Decide.ℕ_discrete route_read
    resolve lunar_fs.Fuse.resolved_blob get pair_dec hex_to_hash hash_to_hex
    lunar_fs.Cas.parse_pairs lunar_fs.Cas.from_str_radix lunar_fs.Base.Text.hex_digit
    lunar_fs.Fuse.get_blob
reads_one = refl

eve_write_refused :
    decide eve.acl file_path eve.principal eve.now Acl.Permission.write ≡ ok Acl.refuse
unfolding decide Acl.applies list_dec native.Mathlib.Decide.ℕ_discrete
eve_write_refused = refl

-- Two files, listed by Ann.
abbrev two_files : Index
two_files = (ascii "b", (hash_of_hi, 2)) ∷ (ascii "a", (hash_of_hi, 2)) ∷ []

abbrev listing : List ProjFsDirEntry
listing =
    record { name = ascii "a"; is_dir = false; size = 2 }
    ∷ record { name = ascii "b"; is_dir = false; size = 2 }
    ∷ []

abbrev as_it_is : Bytes → Bytes
as_it_is name = name

lists :
    enumerate_dir (mem_store marked) as_it_is hi_blobs two_files (ann empty_overlay) []
    ≡ ok (listing, hi_blobs)
unfolding enumerate_dir resolve_readdir decide Acl.applies list_dec native.Mathlib.Decide.ℕ_discrete
    lunar_fs.Fuse.Translate.read_dir seam lunar_fs.Fuse.Translate.first_component
    lunar_fs.Base.Text.has_byte resolve_size resolve get lunar_fs.Fuse.Translate.attr_for
    lunar_fs.Index.lookup_entry lunar_fs.Index.lookup_size lunar_fs.Tree.Order.bytes_leb
lists = refl

enumerate_dir-IsOrdered_example : IsOrdered as_it_is listing × All IsNamed listing
enumerate_dir-IsOrdered_example =
    enumerate_dir-IsOrdered as_it_is (mem_store marked) hi_blobs hi_blobs two_files
      (ann empty_overlay) [] listing lists

-- User 7 may read workspace 1, and forks it as workspace 5.
abbrev grant_of_user : Grant
grant_of_user = record {
  id = 1;
  principal_kind = Auth.PrincipalKind.user;
  principal_id = ascii "7";
  workspace_id = 1;
  path_prefix = [];
  permission = Auth.Permission.read;
  created_at = 0;
  revoked_at = none;
}

abbrev grant_of_fork : Grant
grant_of_fork = record {
  id = 2;
  principal_kind = Auth.PrincipalKind.user;
  principal_id = ascii "7";
  workspace_id = 5;
  path_prefix = root_path;
  permission = Auth.Permission.write;
  created_at = 3;
  revoked_at = none;
}

abbrev user_7 : Principal
user_7 = record { kind = Auth.PrincipalKind.user; id = ascii "7" }

abbrev db : AuthDb
db = record { grants = grant_of_user ∷ []; last_grant = 1; memberships = [] }

abbrev db_forked : AuthDb
db_forked = record { grants = grant_of_user ∷ grant_of_fork ∷ []; last_grant = 2; memberships = [] }

abbrev forked_overlay : OverlayStore
forked_overlay = record {
  last_agent = 3;
  agents = (3, 5) ∷ (1, 1) ∷ (2, 1) ∷ [];
  rows = [];
  roots = (5, ascii "r") ∷ (1, ascii "r") ∷ [];
}

abbrev fork_handle : WorkspaceHandle
fork_handle = record { workspace_id = 5; agent_id = 3; root_hash = ascii "r" }

forks : fork_workspace empty_overlay db 1 5 user_7 3 ≡ ok (fork_handle, (forked_overlay, db_forked))
unfolding fork_workspace authorize Auth.active_grants lunar_fs.Base.filter Auth.path_matches_prefix
    is_empty Auth.trim_end Auth.permission_satisfies Auth.principal_matches list_dec
    native.Mathlib.Decide.ℕ_discrete Overlay.fork_authorized Overlay.workspace_root get
    Overlay.create_workspace_root Overlay.fork Auth.grant insert lunar_fs.Base.Dict.remove
forks = refl

empty_overlay-IsFresh : IsFresh empty_overlay
unfolding get
empty_overlay-IsFresh agent path later = refl

fork_workspace-IsForkOf_example :
    (authorize db user_7 1 root_path Auth.Permission.read ≡ ok Auth.allow)
    × IsForkOf empty_overlay forked_overlay db db_forked 1 5 3 user_7 fork_handle
fork_workspace-IsForkOf_example =
    fork_workspace-IsForkOf empty_overlay forked_overlay db db_forked 1 5 3 user_7 fork_handle
      empty_overlay-IsFresh forks
