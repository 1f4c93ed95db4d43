-- ===== src/Nfs/Handlers.antt =====
-- src/nfs/fs.rs: the requests of an NFS client.
use lunar_fs.Base.{
  ℕ, suc, ◌+◌, Bool, true, false, not, ◌&&◌, Option, none, some, List, [], ◌∷◌, ◌++◌, Bytes,
  Outcome, ok, err, panic, ◌>>=◌, assert, ok_or, ◌==◌, list_eq, nat_eq, contains, leb, ltb, length,
  drop, min, if◌then◌else◌,
}
use lunar_fs.Base.Calls.{reads, updates, returns, fails, asserts, ◌>>>◌}
use lunar_fs.Base.Text.{is_empty, rfind, slash}
use lunar_fs.Cas.{Store}
use lunar_fs.Index.{join}
use lunar_fs.Tree.Utf8.{utf8_valid}
use lunar_fs.Fuse.{route_read, mib128}
use lunar_fs.Fuse.Translate.{NodeKind, file, dir, DirEntry, not_found, read_dir, dot, dot_dot}
use lunar_fs.Ids.{Node, path_of, id_of}
use lunar_fs.Ids.Subtree.{dynamic_dir_children_of}
use lunar_fs.Nfs.{
  NfsStat, noent, not_dir, is_dir, inval, exists, not_empty, not_supp, Mount, CasNfs, Handler,
  Sattr, Fattr, or_io, file_size, fattr_for, fserr_to_nfs,
}
use lunar_fs.Nfs.View.{seam, make_overlay_view}
use lunar_fs.Nfs.Files.{
  resize, zeros, splice, isize_max, u64_max, read_full_for_rmw, do_route_write, delete_path,
  forget_size, intern_path, forget_path, apply_sattr_overrides, has_children, rename_file,
  rename_dir,
}

-- A child of a listed directory: number, path, name and kind.
pub record Child : Type 0 where
  pub fileid : ℕ
  pub path : Bytes
  pub name : Bytes
  pub kind : NodeKind

pub record ListedEntry : Type 0 where
  pub fileid : ℕ
  pub name : Bytes
  pub attr : Fattr

pub record ReadDirResult : Type 0 where
  pub entries : List ListedEntry
  pub end : Bool

-- `rsplit('/').next()`
abbrev pub last_component : Bytes → Bytes
last_component path = elim (rfind slash path) [ none ↦ path | some i ↦ drop (suc i) path ]

unfoldable pub insert_child : Child → List Child → List Child
insert_child c [] = c ∷ []
insert_child c (d ∷ rest) =
    let later = insert_child c rest in if leb c.fileid d.fileid then c ∷ d ∷ rest else d ∷ later

-- `sort_by_key`, which is stable.
unfoldable pub sort_children : List Child → List Child
unfolding insert_child
sort_children [] = []
sort_children (c ∷ rest) = insert_child c (sort_children rest)

abbrev pub names : List Child → List Bytes
names [] = []
names (c ∷ rest) = c.name ∷ names rest

-- The buffer of a write: the file's bytes, with zeros up to the end of the data.
abbrev pub new_end : ℕ → Bytes → ℕ
new_end offset bytes = min (offset + length bytes) u64_max

unfoldable pub patched : ℕ → Bytes → Bytes → Bytes
patched offset bytes buf =
    let wide =
      if ltb (length buf) (new_end offset bytes) then resize (new_end offset bytes) buf else buf in
    if is_empty bytes then wide else splice offset bytes wide

unfoldable pub initial_size : Sattr → ℕ
initial_size attr = elim attr.size [ none ↦ 0 | some n ↦ n ]

module _ {S : Store} where
  -- `path_of(id).ok_or(NFS3ERR_NOENT)`
  unfoldable pub node_of : ℕ → Handler S Node
  node_of id = reads λ s. ok_or (path_of s.ids id) noent

  unfoldable pub only_dir : Bytes → NodeKind → Handler S Bytes
  only_dir path dir = returns path
  only_dir path file = fails not_dir

  unfoldable pub dir_of : ℕ → Handler S Bytes
  unfolding node_of only_dir
  dir_of id = node_of id >>> λ (path, kind). only_dir path kind

  unfoldable pub named : Bytes → Handler S (Unit {0})
  named name = if utf8_valid name then asserts (not (is_empty name)) (returns tt) else fails inval

  -- The path of a name in a directory, as every handler but `lookup` computes it.
  unfoldable pub child_of : ℕ → Bytes → Handler S Bytes
  unfolding dir_of named
  child_of dirid name = dir_of dirid >>> λ path.
      named name >>> λ _. asserts (leb (length (join path name)) 4096) (returns (join path name))

  unfoldable pub number_of_path : Bytes → Handler S ℕ
  number_of_path path = reads λ s. ok_or (id_of s.ids path) noent

  unfoldable pub lookup : ℕ → Bytes → Handler S ℕ
  unfolding dir_of named number_of_path
  lookup dirid name = dir_of dirid >>> λ path. named name >>> λ _. number_of_path (join path name)

  unfoldable pub or_intern : Bytes → NodeKind → Option ℕ → Handler S ℕ
  or_intern path kind (some id) = returns id
  or_intern path kind none = intern_path path kind

  -- `id_of(&path).unwrap_or_else(|| intern(&path, kind))`
  unfoldable pub number_child : Bytes → NodeKind → Handler S ℕ
  unfolding or_intern
  number_child path kind = reads (λ s. ok (id_of s.ids path)) >>> or_intern path kind

  -- The loop over the entries that the files make.
  unfoldable pub list_entries : Bytes → List DirEntry → Handler S (List Child)
  unfolding number_child
  list_entries dir_path [] = returns []
  list_entries dir_path (e ∷ rest) =
      let later = list_entries dir_path rest in
      let path = join dir_path e.name in
      if (e.name == dot)
      then later
      else if e.name == dot_dot
      then later
      else (number_child path e.kind >>> λ id. later >>> λ children.
          returns (record { fileid = id; path = path; name = e.name; kind = e.kind } ∷ children))

  -- The loop over the directories that were made while mounted, with the names seen.
  unfoldable pub list_dynamic : List Bytes → List Node → Handler S (List Child)
  unfolding number_child
  list_dynamic seen [] = returns []
  list_dynamic seen ((path, kind) ∷ rest) =
      let name = last_component path in
      let skip = list_dynamic seen rest in
      let later = list_dynamic (name ∷ seen) rest in
      if contains seen name
      then skip
      else (number_child path kind >>> λ id. later >>> λ children.
          returns (record { fileid = id; path = path; name = name; kind = kind } ∷ children))

module _ {S : Store} (m : Mount) where
  unfoldable pub getattr : ℕ → Handler S Fattr
  unfolding node_of
  getattr id = node_of id >>> λ (path, kind). reads λ s. ok (fattr_for m s id path kind)

  -- `route_read(..)?.ok_or(NFS3ERR_NOENT)`; where there is no file the store is not called.
  -- The end of the read is computed in `route_read` as `offset + size`, once there is a blob.
  unfoldable pub read_file : Bytes → ℕ → ℕ → CasNfs S → Outcome NfsStat (Bytes × CasNfs S)
  read_file path offset size s =
      or_io (route_read S s.blobs m.index s.overlay m.agent path offset size) >>= λ (found, blobs').
      ok_or found noent >>= λ bytes.
      assert (leb (offset + size) u64_max) (ok (bytes, record s { blobs = blobs' }))

  unfoldable pub read_node : Bytes → NodeKind → ℕ → ℕ → Handler S (Bytes × Bool)
  unfolding read_file
  read_node path dir offset count = fails is_dir
  read_node path file offset count = updates (read_file path offset (min count mib128)) >>> λ bytes.
      reads λ s. ok (bytes, leb (file_size m s path) (min (offset + length bytes) u64_max))

  unfoldable pub read : ℕ → ℕ → ℕ → Handler S (Bytes × Bool)
  unfolding node_of read_node
  read id offset count = node_of id >>> λ (path, kind). read_node path kind offset count

  -- The entries of the directory, where a directory without files has none.
  unfoldable pub raw_entries : CasNfs S → Bytes → Outcome NfsStat (List DirEntry)
  raw_entries s path = make_overlay_view m s >>= λ view.
      elim (read_dir (seam m.written_order view) path) [
        | ok entries ↦ ok entries
        | err e ↦ elim e [ not_found ↦ ok [] | other ↦ err (fserr_to_nfs other) ]
        | panic ↦ panic
      ]

  -- The loop over the sorted children: those up to `start_after` are skipped, and at most
  -- `max_entries` are given. `count` is how many there are so far.
  unfoldable pub page : CasNfs S → ℕ → ℕ → ℕ → List Child → ReadDirResult
  page s start_after max_entries count [] = record { entries = []; end = true }
  page s start_after max_entries count (c ∷ rest) =
      let skip = page s start_after max_entries count rest in
      let later = page s start_after max_entries (suc count) rest in
      if leb c.fileid start_after
      then skip
      else if leb max_entries count
      then record { entries = []; end = false }
      else record {
        entries =
            record { fileid = c.fileid; name = c.name; attr = fattr_for m s c.fileid c.path c.kind }
            ∷ later.entries;
        end = later.end;
      }

  unfoldable pub list_children : Bytes → Handler S (List Child)
  unfolding raw_entries list_entries list_dynamic
  list_children path = reads (λ s. raw_entries s path) >>> λ raw.
      list_entries path raw >>> λ children.
      reads (λ s. ok (dynamic_dir_children_of s.ids path)) >>> λ nodes.
      list_dynamic (names children) nodes >>> λ dirs. returns (children ++ dirs)

  unfoldable pub readdir : ℕ → ℕ → ℕ → Handler S ReadDirResult
  unfolding dir_of list_children page sort_children
  readdir dirid start_after max_entries = dir_of dirid >>> λ path.
      list_children path >>> λ children.
      asserts (leb (length children) 65_536)
        (reads λ s. ok (page s start_after max_entries 0 (sort_children children)))

  -- A buffer of more than `isize::MAX` bytes is a panic.
  unfoldable pub write_node : ℕ → Bytes → NodeKind → ℕ → Bytes → Handler S Fattr
  unfolding patched
  write_node id path dir offset bytes = fails is_dir
  write_node id path file offset bytes = read_full_for_rmw m path >>> λ buf.
      asserts (leb (new_end offset bytes) isize_max) (
        do_route_write m path (patched offset bytes buf) >>> λ _.
        intern_path path file >>> λ _. reads λ s. ok (fattr_for m s id path file))

  unfoldable pub write : ℕ → ℕ → Bytes → Handler S Fattr
  unfolding node_of write_node
  write id offset bytes = node_of id >>> λ (path, kind).
      asserts (leb (length path) 4096) (write_node id path kind offset bytes)

  unfoldable pub create : ℕ → Bytes → Sattr → Handler S (ℕ × Fattr)
  unfolding child_of initial_size
  create dirid name attr = child_of dirid name >>> λ path.
      asserts (leb (initial_size attr) isize_max) (
        do_route_write m path (zeros (initial_size attr)) >>> λ _.
        apply_sattr_overrides m path attr >>> λ _.
        intern_path path file >>> λ id. reads λ s. ok (id, fattr_for m s id path file))

  -- `if id_of(&path).is_some() { return Err(NFS3ERR_EXIST) }`
  unfoldable pub absent : Bytes → Handler S (Unit {0})
  absent path = reads λ s. elim (id_of s.ids path) [ none ↦ ok tt | some id ↦ err exists ]

  unfoldable pub create_exclusive : ℕ → Bytes → Handler S ℕ
  unfolding child_of absent
  create_exclusive dirid name = child_of dirid name >>> λ path.
      absent path >>> λ _. do_route_write m path [] >>> λ _. intern_path path file

  unfoldable pub mkdir : ℕ → Bytes → Handler S (ℕ × Fattr)
  unfolding child_of absent
  mkdir dirid name = child_of dirid name >>> λ path. absent path >>> λ _.
      intern_path path dir >>> λ id. reads λ s. ok (id, fattr_for m s id path dir)

  unfoldable pub remove_node : Bytes → NodeKind → Handler S (Unit {0})
  remove_node path dir = reads (λ s. has_children m s path) >>> λ full.
      if full then fails not_empty else forget_path path
  remove_node path file = delete_path m path >>> λ _. forget_path path >>> λ _. forget_size path

  unfoldable pub remove : ℕ → Bytes → Handler S (Unit {0})
  unfolding child_of number_of_path node_of remove_node
  remove dirid name = child_of dirid name >>> λ path.
      number_of_path path >>> λ id. node_of id >>> λ (p, kind). remove_node path kind

  unfoldable pub rename_node : Bytes → Bytes → NodeKind → Handler S (Unit {0})
  rename_node src dst file = rename_file m src dst
  rename_node src dst dir = rename_dir m src dst

  unfoldable pub rename : ℕ → Bytes → ℕ → Bytes → Handler S (Unit {0})
  unfolding dir_of number_of_path node_of rename_node
  rename from_dirid from_name to_dirid to_name = dir_of from_dirid >>> λ from_dir.
      dir_of to_dirid >>> λ to_dir.
      if not (utf8_valid from_name && utf8_valid to_name)
      then fails inval
      else asserts (not (is_empty from_name)) (
          asserts (not (is_empty to_name)) (
            asserts (leb (length (join from_dir from_name)) 4096) (
              asserts (leb (length (join to_dir to_name)) 4096) (
                number_of_path (join from_dir from_name) >>> λ id. node_of id >>> λ (p, kind).
                rename_node (join from_dir from_name) (join to_dir to_name) kind))))

  -- The size that a request sets.
  unfoldable pub set_size : Bytes → NodeKind → Option ℕ → Handler S (Unit {0})
  set_size path kind none = returns tt
  set_size path dir (some n) = fails is_dir
  set_size path file (some n) = read_full_for_rmw m path >>> λ buf.
      asserts (leb n isize_max) (do_route_write m path (resize n buf))

  unfoldable pub setattr : ℕ → Sattr → Handler S Fattr
  unfolding node_of set_size
  setattr id attr = node_of id >>> λ (path, kind). asserts (leb (length path) 4096) (
      set_size path kind attr.size >>> λ _.
      apply_sattr_overrides m path attr >>> λ _. reads λ s. ok (fattr_for m s id path kind))

unfoldable pub symlink : {S : Store} → ℕ → Bytes → Bytes → Sattr → Handler S (ℕ × Fattr)
symlink dirid name target attr = fails not_supp

unfoldable pub readlink : {S : Store} → ℕ → Handler S Bytes
readlink id = fails not_supp
