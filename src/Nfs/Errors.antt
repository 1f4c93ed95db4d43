-- ===== src/Nfs/Errors.antt =====
-- What the requests of src/nfs/fs.rs change when they fail.
use lunar_fs.Base.{ℕ, ◌≡◌, ◌⊎◌, Option, none, some, List, ◌++◌, Bytes, Outcome, ok, err}
use lunar_fs.Base.Calls.{
  Still, Still-reads, Only, Only-asserts, Only-bind, Clean, Clean-asserts, Clean-reads,
  Clean-updates, Clean-bind, Clean-Still, Clean-Only, still_rules, only_rules, clean_rules, reads,
  returns, ◌>>>◌,
}
use lunar_fs.Cas.{Store}
use lunar_fs.Fuse.Translate.{NodeKind, file, dir, DirEntry}
use lunar_fs.Ids.{Node}
use lunar_fs.Ids.Subtree.{dynamic_dir_children_of}
use lunar_fs.Index.{join}
use lunar_fs.Nfs.{NfsStat, io_failed, Mount, CasNfs, Handler, Sattr}
use lunar_fs.Nfs.Handlers.{
  or_intern, number_child, list_entries, list_dynamic, list_children, last_component, only_dir,
  node_of, dir_of, named, child_of, number_of_path, remove_node, rename_node, set_size, absent,
  read_file, read_node, write_node, names,
}
use lunar_fs.Nfs.Handlers
use lunar_fs.Nfs.Requests.{Request, handle, done}
use lunar_fs.Nfs.Effects.{
  Only-ok, intern_path-Only, forget_path-Only, forget_size-Only, read_full_for_rmw-Only,
  do_route_write-Only, delete_path-Only, overrides-Only, rename_node-Only, list_entries-Only,
  list_dynamic-Only,
}

-- Before a handler changes anything, it only reads.
module _ {S : Store} (m : Mount) where
  abbrev CleanButIo : {A : Type 0} → (CasNfs S → Outcome NfsStat A × CasNfs S) → Type 0
  CleanButIo call = Clean io_failed call

  Clean-io :
      {A : Type 0} (call : CasNfs S → Outcome NfsStat A × CasNfs S)
      → Only io_failed call
      → CleanButIo call
  Clean-io call k = Clean-Only io_failed call k

  only_dir-Still : (path : Bytes) (kind : NodeKind) → Still (only_dir {S = S} path kind)
  unfolding only_dir
  only_dir-Still path dir = Still-reads _
  only_dir-Still path file = Still-reads _

  dir_of-Still : (id : ℕ) → Still (dir_of {S = S} id)
  unfolding dir_of
  dir_of-Still id = search (still_rules, only_dir-Still)

  named-Still : (name : Bytes) → Still (named {S = S} name)
  unfolding named
  named-Still name = search still_rules

  child_of-Still : (id : ℕ) (name : Bytes) → Still (child_of {S = S} id name)
  unfolding child_of
  child_of-Still id name = search (still_rules, dir_of-Still, named-Still)

  lookup-Still : (id : ℕ) (name : Bytes) → Still (Handlers.lookup {S = S} id name)
  unfolding Handlers.lookup
  lookup-Still id name = search (still_rules, dir_of-Still, named-Still)

  getattr-Still : (id : ℕ) → Still (Handlers.getattr {S = S} m id)
  unfolding Handlers.getattr
  getattr-Still id = search still_rules

  Clean-first :
      {A B : Type 0} (call : CasNfs S → Outcome NfsStat A × CasNfs S)
      (f : A → CasNfs S → Outcome NfsStat B × CasNfs S)
      → Still call
      → ((a : A) → CleanButIo (f a))
      → CleanButIo (call >>> f)
  Clean-first call f k kf = Clean-Still io_failed call f k kf

  read_node-Clean :
      (path : Bytes) (kind : NodeKind) (offset count : ℕ)
      → CleanButIo (read_node m path kind offset count)
  unfolding read_node
  read_node-Clean path dir offset count = Clean-reads io_failed _
  read_node-Clean path file offset count =
      Clean-bind io_failed _ _ (Clean-updates io_failed _) (λ bytes. Only-ok m _)

  list_children-Only :
      (path : Bytes) (raw : List DirEntry)
      → Only io_failed (
          list_entries {S = S} path raw >>> λ children.
          reads (λ s. ok (dynamic_dir_children_of s.ids path)) >>> λ nodes.
          list_dynamic (names children) nodes >>> λ dirs. returns (children ++ dirs))
  list_children-Only path raw = Only-bind io_failed _ _ (list_entries-Only m path raw) λ children.
      Only-bind io_failed _ _ (Only-ok m _) λ nodes.
        Only-bind io_failed _ _ (list_dynamic-Only m (names children) nodes) λ dirs. Only-ok m _

  list_children-Clean : (path : Bytes) → CleanButIo (list_children m path)
  unfolding list_children
  list_children-Clean path =
      Clean-first _ _ (Still-reads _) (λ raw. Clean-io _ (list_children-Only path raw))

  readdir-Clean : (id start_after n : ℕ) → CleanButIo (Handlers.readdir m id start_after n)
  unfolding Handlers.readdir
  readdir-Clean id start_after n = Clean-first _ _ (dir_of-Still id) λ path.
      Clean-bind io_failed _ _ (list_children-Clean path)
        (λ children. Only-asserts io_failed _ _ (Only-ok m _))

  write_node-Clean :
      (id : ℕ) (path : Bytes) (kind : NodeKind) (offset : ℕ) (bytes : Bytes)
      → CleanButIo (write_node m id path kind offset bytes)
  unfolding write_node
  write_node-Clean id path dir offset bytes = Clean-reads io_failed _
  write_node-Clean id path file offset bytes = Clean-io _ (
      search
        (only_rules, Only-ok m, read_full_for_rmw-Only m, do_route_write-Only m, intern_path-Only m)
        depth 10)

  create-Clean :
      (id : ℕ) (name : Bytes) (attr : Sattr) → CleanButIo (Handlers.create m id name attr)
  unfolding Handlers.create
  create-Clean id name attr = Clean-first _ _ (child_of-Still id name) λ path. Clean-io _ (
      search (only_rules, Only-ok m, do_route_write-Only m, overrides-Only m, intern_path-Only m)
        depth 10)

  create_exclusive-Clean :
      (id : ℕ) (name : Bytes) → CleanButIo (Handlers.create_exclusive m id name)
  unfolding Handlers.create_exclusive absent
  create_exclusive-Clean id name = Clean-first _ _ (child_of-Still id name) λ path.
      Clean-first _ _ (Still-reads _)
        λ unit. Clean-io _ (search (only_rules, do_route_write-Only m, intern_path-Only m))

  mkdir-Clean : (id : ℕ) (name : Bytes) → CleanButIo (Handlers.mkdir m id name)
  unfolding Handlers.mkdir absent
  mkdir-Clean id name = Clean-first _ _ (child_of-Still id name) λ path.
      Clean-first _ _ (Still-reads _)
        λ unit. Clean-io _ (search (only_rules, Only-ok m, intern_path-Only m))

  remove_node-Clean : (path : Bytes) (kind : NodeKind) → CleanButIo (remove_node m path kind)
  unfolding remove_node
  remove_node-Clean path file =
      Clean-io _ (search (only_rules, delete_path-Only m, forget_path-Only m, forget_size-Only m))
  remove_node-Clean path dir =
      Clean-first _ _ (Still-reads _)
        λ full. let gone = Clean-io _ (forget_path-Only m path) in search clean_rules

  remove-Clean : (id : ℕ) (name : Bytes) → CleanButIo (Handlers.remove m id name)
  unfolding Handlers.remove
  remove-Clean id name = Clean-first _ _ (child_of-Still id name) λ path.
      Clean-first _ _ (Still-reads _)
        λ n. Clean-first _ _ (Still-reads _) λ node. remove_node-Clean path node.1

  rename-Clean :
      (from_dirid : ℕ) (from_name : Bytes) (to_dirid : ℕ) (to_name : Bytes)
      → CleanButIo (Handlers.rename m from_dirid from_name to_dirid to_name)
  unfolding Handlers.rename
  rename-Clean from_dirid from_name to_dirid to_name =
      Clean-first _ _ (dir_of-Still from_dirid) λ from_dir.
        Clean-first _ _ (dir_of-Still to_dirid) λ to_dir.
          let after : (node : Node)
              → CleanButIo (rename_node m (join from_dir from_name) (join to_dir to_name) node.1) =
            λ node. Clean-io _ (rename_node-Only m _ _ node.1) in
          let found = Clean-first (node_of 0) _ (Still-reads _) after in
          search (clean_rules, Clean-first, Still-reads, after) depth 10

  set_size-Clean :
      (path : Bytes) (kind : NodeKind) (size : Option ℕ) → CleanButIo (set_size m path kind size)
  unfolding set_size
  set_size-Clean path kind none = Clean-reads io_failed _
  set_size-Clean path dir (some n) = Clean-reads io_failed _
  set_size-Clean path file (some n) =
      Clean-io _ (search (only_rules, read_full_for_rmw-Only m, do_route_write-Only m))

  setattr-Clean : (id : ℕ) (attr : Sattr) → CleanButIo (Handlers.setattr m id attr)
  unfolding Handlers.setattr
  setattr-Clean id attr = Clean-first _ _ (Still-reads _) λ node. Clean-asserts io_failed _ _ (
      Clean-bind io_failed _ _ (set_size-Clean node.0 node.1 attr.size)
        λ unit. Only-bind io_failed _ _ (overrides-Only m node.0 attr) λ unit. Only-ok m _)

  done-Clean : {A : Type 0} (call : Handler S A) → CleanButIo call → CleanButIo (done m call)
  done-Clean call k = Clean-bind io_failed _ _ k (λ a. Only-ok m _)

  handle-Clean : (r : Request) → CleanButIo (handle m r)
  unfolding handle Handlers.read Handlers.write Handlers.symlink Handlers.readlink
  handle-Clean (Request.lookup id name) =
      search (clean_rules, done-Clean, Clean-Still, lookup-Still)
  handle-Clean (Request.getattr id) = search (done-Clean, Clean-Still, getattr-Still, Clean-reads)
  handle-Clean (Request.read id offset count) =
      done-Clean _
        (Clean-first _ _ (Still-reads _) λ node. read_node-Clean node.0 node.1 offset count)
  handle-Clean (Request.readdir id start_after n) = done-Clean _ (readdir-Clean id start_after n)
  handle-Clean (Request.write id offset bytes) = done-Clean _ (
      Clean-first _ _ (Still-reads _)
        λ node. Clean-asserts io_failed _ _ (write_node-Clean id node.0 node.1 offset bytes))
  handle-Clean (Request.create id name attr) = done-Clean _ (create-Clean id name attr)
  handle-Clean (Request.create_exclusive id name) = done-Clean _ (create_exclusive-Clean id name)
  handle-Clean (Request.mkdir id name) = done-Clean _ (mkdir-Clean id name)
  handle-Clean (Request.remove id name) = remove-Clean id name
  handle-Clean (Request.rename from_dirid from_name to_dirid to_name) =
      rename-Clean from_dirid from_name to_dirid to_name
  handle-Clean (Request.setattr id attr) = done-Clean _ (setattr-Clean id attr)
  handle-Clean (Request.symlink id name target attr) = done-Clean _ (Clean-reads io_failed _)
  handle-Clean (Request.readlink id) = done-Clean _ (Clean-reads io_failed _)

-- A request that is answered with a status other than the I/O error has changed nothing: not the
-- numbers, the overlay, the blobs, the sizes or the attributes.
pub handle-err_clean :
    {S : Store} (m : Mount) (r : Request) (s : CasNfs S) (e : NfsStat)
    → (handle m r s).0 ≡ err e
    → (e ≡ io_failed) ⊎ ((handle m r s).1 ≡ s)
handle-err_clean m r s e h = (handle-Clean m r).at s e h
