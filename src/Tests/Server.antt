-- ===== src/Tests/Server.antt =====
-- An NFS server over one base file.
use lunar_fs.Base.{
  ℕ, ◌+◌, ◌≤◌, ◌≡◌, refl, sym, ◌∙◌, ap, false, ◌⊎◌, Option, none, some, List, [], ◌∷◌, Bytes,
  Outcome, ok, err, arith, length, list_eq, nat_eq, list_dec, leb, min,
}
use lunar_fs.Base.Text.{ascii, is_empty}
use lunar_fs.Cas.{mem_store, hash_to_hex}
use lunar_fs.Fuse.Translate.{file}
use lunar_fs.Ids.{path_of}
use lunar_fs.Ids.Bijection.{Kept}
use lunar_fs.Ids.Build.{build-IsBijection}
use lunar_fs.Overlay
use lunar_fs.Nfs.{NfsStat, not_dir, io_failed, Mount, CasNfs, Fattr, with_overlay}
use lunar_fs.Nfs.Files.{full_content, rename_file, u64_max}
use lunar_fs.Nfs.Handlers.{write, read, patched}
use lunar_fs.Nfs.Requests.{Request, handle, serve}
use lunar_fs.Nfs.Numbers.{serve-Kept}
use lunar_fs.Nfs.Errors.{handle-err_clean}
use lunar_fs.Nfs.Caches.{SizesAgree, serve-SizesAgree}
use lunar_fs.Nfs.Reads.{write_then_read}
use lunar_fs.Tests.Agents.{
  hi, hash_of_hi, marked, marked-IsHash32, marked_unique, no_blobs, empty_overlay,
}
use lunar_fs.Tests.Numbers.{mounted, table, a_file, builds}

abbrev mount : Mount
mount = record {
  index = mounted;
  agent = 1;
  workspace = 1;
  uid = 501;
  gid = 20;
  mount_time = 7;
  base_order = λ d. d;
  dyn_order = λ ps. ps;
  written_order = λ ps. ps;
}

abbrev started : CasNfs (mem_store marked)
started = record { ids = table; overlay = empty_overlay; blobs = []; sizes = []; overrides = [] }

starts : with_overlay mount [] empty_overlay ≡ ok started
unfolding with_overlay lunar_fs.Ids.build lunar_fs.Base.Dict.get lunar_fs.Base.Dict.insert list_dec
    native.Mathlib.Decide.ℕ_discrete lunar_fs.Tree.Order.bytes_leb
starts = refl

abbrev session : List Request
session = Request.write 3 0 hi ∷ Request.remove 2 (ascii "f") ∷ []

serve-Kept_example : Kept table (serve mount session started).ids
serve-Kept_example = serve-Kept mount session started (build-IsBijection mounted table builds)

serve-SizesAgree_example : SizesAgree marked mount (serve mount session started)
serve-SizesAgree_example = serve-SizesAgree marked mount [] empty_overlay started session starts

looked_in_file : (handle mount (Request.lookup 3 (ascii "x")) started).0 ≡ err not_dir
unfolding handle lunar_fs.Base.Calls.◌>>>◌ lunar_fs.Nfs.Handlers.lookup lunar_fs.Base.Calls.reads
    path_of lunar_fs.Ids.node_at lunar_fs.Base.Dict.get lunar_fs.Ids.is_hidden
looked_in_file = refl

handle-err_clean_example :
    (not_dir ≡ io_failed) ⊎ ((handle mount (Request.lookup 3 (ascii "x")) started).1 ≡ started)
handle-err_clean_example =
    handle-err_clean mount (Request.lookup 3 (ascii "x")) started not_dir looked_in_file

abbrev attr_of_hi : Fattr
attr_of_hi = record {
  ftype = file;
  mode = 0o644;
  nlink = 1;
  uid = 501;
  gid = 20;
  size = 2;
  used = 2;
  fsid = 0x0CA5_1234;
  fileid = 3;
  atime = record { seconds = 7; nseconds = 0 };
  mtime = record { seconds = 7; nseconds = 0 };
  ctime = record { seconds = 7; nseconds = 0 };
}

writes_hi : write mount 3 0 hi started ≡ (ok attr_of_hi, (write mount 3 0 hi started).1)
unfolding write lunar_fs.Base.Calls.◌>>>◌ lunar_fs.Base.Calls.reads path_of lunar_fs.Ids.node_at
    lunar_fs.Base.Dict.get lunar_fs.Ids.is_hidden lunar_fs.Base.Calls.asserts
    lunar_fs.Nfs.Files.read_full_for_rmw lunar_fs.Base.Calls.updates Overlay.resolve
    lunar_fs.Index.lookup list_dec native.Mathlib.Decide.ℕ_discrete
    lunar_fs.Nfs.Files.do_route_write lunar_fs.Fuse.route_write is_empty Overlay.capture_write
    hash_to_hex lunar_fs.Cas.mem_put marked lunar_fs.Base.Dict.insert lunar_fs.Ids.intern
    lunar_fs.Nfs.fattr_for lunar_fs.Nfs.Files.intern_path lunar_fs.Nfs.Files.splice
    lunar_fs.Nfs.Files.resize lunar_fs.Ids.number_of
writes_hi = refl

was_empty : full_content mount started a_file ≡ ok ([], started)
unfolding full_content Overlay.resolve lunar_fs.Base.Dict.get lunar_fs.Index.lookup list_dec
    native.Mathlib.Decide.ℕ_discrete
was_empty = refl

seen_file : path_of table 3 ≡ some (a_file, file)
unfolding path_of lunar_fs.Ids.node_at lunar_fs.Base.Dict.get lunar_fs.Ids.is_hidden
seen_file = refl

first_bytes : (buf : Bytes) → full_content mount started a_file ≡ ok (buf, started) → [] ≡ buf
first_bytes buf h = let same = sym was_empty ∙ h in ground arith

patched-empty : patched 0 hi [] ≡ hi
unfolding patched is_empty lunar_fs.Nfs.Files.splice lunar_fs.Nfs.Files.resize
patched-empty = refl

hi_stays :
    (buf y : Bytes)
    → full_content mount started a_file ≡ ok (buf, started)
    → marked y ≡ marked (patched 0 hi buf)
    → y ≡ patched 0 hi buf
hi_stays buf y was h =
    let new : patched 0 hi buf ≡ hi =
      ap (patched 0 hi) (sym (first_bytes buf was)) ∙ patched-empty in
    marked_unique y (h ∙ ap marked new) ∙ sym new

write_then_read_example :
    read mount 3 0 2 (write mount 3 0 hi started).1
    ≡ (ok (hi, leb attr_of_hi.size (min (0 + length hi) u64_max)), (write mount 3 0 hi started).1)
unfolding is_empty
write_then_read_example =
    write_then_read marked mount started (write mount 3 0 hi started).1 3 a_file 0 hi attr_of_hi
      marked-IsHash32 no_blobs (build-IsBijection mounted table builds) seen_file refl (omega arith)
      (omega arith) hi_stays writes_hi

-- A server whose file has been written.
abbrev holding : CasNfs (mem_store marked)
holding = record started {
  overlay = record empty_overlay {
    rows =
        ((1, a_file), record { workspace_id = 1; blob_hash = some (hash_to_hex hash_of_hi) }) ∷ [];
  };
  blobs = (hash_of_hi, hi) ∷ [];
}

abbrev new_path : Bytes
new_path = ascii "g"

abbrev renamed : CasNfs (mem_store marked)
renamed = (rename_file mount a_file new_path holding).1
