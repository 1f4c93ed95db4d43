-- ===== src/Nfs/Preserved.antt =====
-- What every request keeps, if the steps do that its handler is made of.
use lunar_fs.Base.{
  ℕ, ◌≤◌, ◌≡◌, ap, Option, none, some, List, [], ◌∷◌, Bytes, ok, arith, min, leb, leb→le, length,
}
use lunar_fs.Base.Calls.{
  Keeps, Keeps-bind_returned, >>>-eq-ok, asserts-eq-ok, Keeps-reads, Keeps-bind, keeps_rules, reads,
  updates,
}
use lunar_fs.Cas.{Store}
use lunar_fs.Fuse.{mib128}
use lunar_fs.Index.{join}
use lunar_fs.Fuse.Translate.{NodeKind, file, dir, DirEntry}
use lunar_fs.Ids.{Node, rename_path}
use lunar_fs.Ids.Subtree.{rename_subtree}
use lunar_fs.Nfs.{Mount, CasNfs, Sattr}
use lunar_fs.Nfs.Files.{
  read_full_for_rmw, do_route_write, intern_path, forget_path, on_ids, apply_sattr_overrides,
  move_bytes, rename_file, rename_dir, move_all,
}
use lunar_fs.Nfs.Handlers.{
  or_intern, number_child, list_entries, list_dynamic, list_children, last_component, only_dir,
  node_of, dir_of, named, child_of, number_of_path, remove_node, rename_node, set_size, absent,
  read_file, read_node, write_node,
}
use lunar_fs.Nfs.Handlers
use lunar_fs.Nfs.Requests.{Request, handle, serve}

-- The steps of the handlers that change the state.
pub record KeepsSteps {S : Store} (m : Mount) (P : CasNfs S → Type 0) : Type 0 where
  pub interned : (path : Bytes) (kind : NodeKind) → Keeps P (intern_path path kind)
  pub forgotten : (path : Bytes) → Keeps P (forget_path path)
  pub renamed : (src dst : Bytes) → Keeps P (on_ids (λ u. rename_path u src dst file))
  pub moved_below :
      (src dst : Bytes) → Keeps P (on_ids (λ u. rename_subtree m.base_order m.dyn_order u src dst))
  pub full_read : (path : Bytes) → Keeps P (read_full_for_rmw m path)
  pub read_part :
      (path : Bytes) (offset size : ℕ) → Keeps P (updates (read_file m path offset size))
  pub stored : (path bytes : Bytes) → Keeps P (do_route_write m path bytes)
  pub overridden : (path : Bytes) (attr : Sattr) → Keeps P (apply_sattr_overrides m path attr)
  pub moved : (src dst : Bytes) → Keeps P (move_bytes m src dst)
  pub removed : (path : Bytes) → length path ≤ 4096 → Keeps P (remove_node m path file)

pair_eta : {A B : Type 0} {a : A} (r : A × B) → r.0 ≡ a → r ≡ (a, r.1)
pair_eta r h = ap (λ x. (x, r.1)) h

module _ {S : Store} {m : Mount} {P : CasNfs S → Type 0} (k : KeepsSteps m P) where
  move_all-Keeps : (src dst : Bytes) (paths : List Bytes) → Keeps P (move_all m src dst paths)
  unfolding move_all
  move_all-Keeps src dst [] = Keeps-reads _
  move_all-Keeps src dst (p ∷ rest) =
      let later = move_all-Keeps src dst rest in search (keeps_rules, k.moved)

  rename_file-Keeps : (src dst : Bytes) → Keeps P (rename_file m src dst)
  unfolding rename_file
  rename_file-Keeps src dst = search (keeps_rules, k.moved, k.renamed)

  rename_dir-Keeps : (src dst : Bytes) → Keeps P (rename_dir m src dst)
  unfolding rename_dir
  rename_dir-Keeps src dst = search (keeps_rules, move_all-Keeps, k.moved_below)

  or_intern-Keeps :
      (path : Bytes) (kind : NodeKind) (known : Option ℕ) → Keeps P (or_intern path kind known)
  unfolding or_intern
  or_intern-Keeps path kind (some id) = Keeps-reads _
  or_intern-Keeps path kind none = k.interned path kind

  number_child-Keeps : (path : Bytes) (kind : NodeKind) → Keeps P (number_child path kind)
  unfolding number_child
  number_child-Keeps path kind = search (keeps_rules, or_intern-Keeps)

  list_entries-Keeps : (path : Bytes) (es : List DirEntry) → Keeps P (list_entries path es)
  unfolding list_entries
  list_entries-Keeps path [] = Keeps-reads _
  list_entries-Keeps path (e ∷ rest) =
      let later = list_entries-Keeps path rest in search (keeps_rules, number_child-Keeps)

  list_dynamic-Keeps : (seen : List Bytes) (nodes : List Node) → Keeps P (list_dynamic seen nodes)
  unfolding list_dynamic
  list_dynamic-Keeps seen [] = Keeps-reads _
  list_dynamic-Keeps seen ((path, kind) ∷ rest) =
      let skip = list_dynamic-Keeps seen rest in
      let later = list_dynamic-Keeps (last_component path ∷ seen) rest in
      search (keeps_rules, number_child-Keeps)

  list_children-Keeps : (path : Bytes) → Keeps P (list_children m path)
  unfolding list_children
  list_children-Keeps path = search (keeps_rules, list_entries-Keeps, list_dynamic-Keeps)

  only_dir-Keeps : (path : Bytes) (kind : NodeKind) → Keeps P (only_dir path kind)
  unfolding only_dir
  only_dir-Keeps path dir = Keeps-reads _
  only_dir-Keeps path file = Keeps-reads _

  dir_of-Keeps : (id : ℕ) → Keeps P (dir_of id)
  unfolding dir_of
  dir_of-Keeps id = search (keeps_rules, only_dir-Keeps)

  named-Keeps : (name : Bytes) → Keeps P (named name)
  unfolding named
  named-Keeps name = search keeps_rules

  child_of-Keeps : (id : ℕ) (name : Bytes) → Keeps P (child_of id name)
  unfolding child_of
  child_of-Keeps id name = search (keeps_rules, dir_of-Keeps, named-Keeps)

  read_node-Keeps :
      (path : Bytes) (kind : NodeKind) (offset count : ℕ)
      → Keeps P (read_node m path kind offset count)
  unfolding read_node read_file
  read_node-Keeps path dir offset count = Keeps-reads _
  read_node-Keeps path file offset count =
      Keeps-bind _ _ (k.read_part path offset (min count mib128)) (λ bytes. Keeps-reads _)

  write_node-Keeps :
      (id : ℕ) (path : Bytes) (kind : NodeKind) (offset : ℕ) (bytes : Bytes)
      → Keeps P (write_node m id path kind offset bytes)
  unfolding write_node
  write_node-Keeps id path dir offset bytes = Keeps-reads _
  write_node-Keeps id path file offset bytes =
      search (keeps_rules, k.full_read, k.stored, k.interned)

  remove_node-Keeps :
      (path : Bytes) (kind : NodeKind) → length path ≤ 4096 → Keeps P (remove_node m path kind)
  unfolding remove_node
  remove_node-Keeps path file short = k.removed path short
  remove_node-Keeps path dir short = search (keeps_rules, k.forgotten)

  rename_node-Keeps : (src dst : Bytes) (kind : NodeKind) → Keeps P (rename_node m src dst kind)
  unfolding rename_node
  rename_node-Keeps src dst file = rename_file-Keeps src dst
  rename_node-Keeps src dst dir = rename_dir-Keeps src dst

  set_size-Keeps :
      (path : Bytes) (kind : NodeKind) (size : Option ℕ) → Keeps P (set_size m path kind size)
  unfolding set_size
  set_size-Keeps path kind none = Keeps-reads _
  set_size-Keeps path dir (some n) = Keeps-reads _
  set_size-Keeps path file (some n) = search (keeps_rules, k.full_read, k.stored)

  child_of-short :
      (id : ℕ) (name : Bytes) (s : CasNfs S) (path : Bytes)
      → (child_of id name s).0 ≡ ok path
      → length path ≤ 4096
  unfolding child_of reads
  child_of-short id name s path h =
      let (up, s1, e1, k1) = >>>-eq-ok (dir_of id) _ s (pair_eta (child_of id name s) h) in
      let (unit, s2, e2, k2) = >>>-eq-ok (named name) _ s1 k1 in
      let (fits, e3) = asserts-eq-ok (leb (length (join up name)) 4096) _ s2 k2 in
      let same : join up name ≡ path = ground arith in
      rw (← same) (leb→le (length (join up name)) 4096 fits)

  remove-Keeps : (dirid : ℕ) (name : Bytes) → Keeps P (Handlers.remove m dirid name)
  unfolding Handlers.remove
  remove-Keeps dirid name =
      Keeps-bind_returned (child_of dirid name) _ (child_of-Keeps dirid name) λ s path e.
        let short = child_of-short dirid name s path e in search (keeps_rules, remove_node-Keeps)

  lookup-Keeps : (dirid : ℕ) (name : Bytes) → Keeps P (Handlers.lookup dirid name)
  unfolding Handlers.lookup
  lookup-Keeps dirid name = search (keeps_rules, dir_of-Keeps, named-Keeps)

  getattr-Keeps : (id : ℕ) → Keeps P (Handlers.getattr m id)
  unfolding Handlers.getattr
  getattr-Keeps id = search (keeps_rules)

  read-Keeps : (id offset count : ℕ) → Keeps P (Handlers.read m id offset count)
  unfolding Handlers.read
  read-Keeps id offset count = search (keeps_rules, read_node-Keeps)

  readdir-Keeps : (id start_after n : ℕ) → Keeps P (Handlers.readdir m id start_after n)
  unfolding Handlers.readdir
  readdir-Keeps id start_after n = search (keeps_rules, dir_of-Keeps, list_children-Keeps)

  write-Keeps : (id offset : ℕ) (bytes : Bytes) → Keeps P (Handlers.write m id offset bytes)
  unfolding Handlers.write
  write-Keeps id offset bytes = search (keeps_rules, write_node-Keeps)

  create-Keeps :
      (dirid : ℕ) (name : Bytes) (attr : Sattr) → Keeps P (Handlers.create m dirid name attr)
  unfolding Handlers.create
  create-Keeps dirid name attr =
      search (keeps_rules, child_of-Keeps, k.stored, k.overridden, k.interned) depth 10

  create_exclusive-Keeps :
      (dirid : ℕ) (name : Bytes) → Keeps P (Handlers.create_exclusive m dirid name)
  unfolding Handlers.create_exclusive
  create_exclusive-Keeps dirid name = search (keeps_rules, child_of-Keeps, k.stored, k.interned)

  mkdir-Keeps : (dirid : ℕ) (name : Bytes) → Keeps P (Handlers.mkdir m dirid name)
  unfolding Handlers.mkdir
  mkdir-Keeps dirid name = search (keeps_rules, child_of-Keeps, k.interned)

  rename-Keeps :
      (from_dirid : ℕ) (from_name : Bytes) (to_dirid : ℕ) (to_name : Bytes)
      → Keeps P (Handlers.rename m from_dirid from_name to_dirid to_name)
  unfolding Handlers.rename
  rename-Keeps from_dirid from_name to_dirid to_name =
      search (keeps_rules, dir_of-Keeps, rename_node-Keeps) depth 10

  setattr-Keeps : (id : ℕ) (attr : Sattr) → Keeps P (Handlers.setattr m id attr)
  unfolding Handlers.setattr
  setattr-Keeps id attr = search (keeps_rules, set_size-Keeps, k.overridden)

  pub handle-Keeps : (r : Request) → Keeps P (handle m r)
  unfolding handle Handlers.symlink Handlers.readlink
  handle-Keeps (Request.lookup dirid name) = search (keeps_rules, lookup-Keeps)
  handle-Keeps (Request.getattr id) = search (keeps_rules, getattr-Keeps)
  handle-Keeps (Request.read id offset count) = search (keeps_rules, read-Keeps)
  handle-Keeps (Request.readdir id start_after n) = search (keeps_rules, readdir-Keeps)
  handle-Keeps (Request.write id offset bytes) = search (keeps_rules, write-Keeps)
  handle-Keeps (Request.create dirid name attr) = search (keeps_rules, create-Keeps)
  handle-Keeps (Request.create_exclusive dirid name) = search (keeps_rules, create_exclusive-Keeps)
  handle-Keeps (Request.mkdir dirid name) = search (keeps_rules, mkdir-Keeps)
  handle-Keeps (Request.remove dirid name) = remove-Keeps dirid name
  handle-Keeps (Request.rename from_dirid from_name to_dirid to_name) =
      rename-Keeps from_dirid from_name to_dirid to_name
  handle-Keeps (Request.setattr id attr) = search (keeps_rules, setattr-Keeps)
  handle-Keeps (Request.symlink dirid name target attr) = search keeps_rules
  handle-Keeps (Request.readlink id) = search keeps_rules

  pub serve-keeps : (requests : List Request) (s : CasNfs S) → P s → P (serve m requests s)
  unfolding serve
  serve-keeps [] s h = h
  serve-keeps (r ∷ rest) s h = serve-keeps rest (handle m r s).1 ((handle-Keeps r).at s h)
