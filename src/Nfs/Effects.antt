-- ===== src/Nfs/Effects.antt =====
-- The steps of src/nfs/fs.rs that change the state fail only with the I/O status.
use lunar_fs.Base.{
  ℕ, ◌≡◌, Option, none, some, List, [], ◌∷◌, Bytes, Outcome, ok, err, panic, ◌>>=◌, arith,
}
use lunar_fs.Base.Calls.{Only, Only-asserts, Only-reads, Only-updates, only_rules, reads}
use lunar_fs.Cas.{Store}
use lunar_fs.Fuse.Translate.{NodeKind, file, dir, DirEntry}
use lunar_fs.Ids.{Node, IdTable, Never}
use lunar_fs.Nfs.{NfsStat, io_failed, Mount, CasNfs, Sattr, or_io, of_ids, or_none}
use lunar_fs.Nfs.Files.{
  read_full_for_rmw, do_route_write, delete_path, forget_size, intern_path, forget_path, on_ids,
  apply_sattr_overrides, move_bytes, rename_file, rename_dir, move_all, paths_below,
}
use lunar_fs.Nfs.Handlers.{
  or_intern, number_child, list_entries, list_dynamic, last_component, rename_node,
}

or_io-err {ℓ κ} :
    {E : Type ℓ} {A : Type κ} (o : Outcome E A) (e : NfsStat) → or_io o ≡ err e → e ≡ io_failed
or_io-err (ok a) e h = absurd (ground arith)
or_io-err (err d) e h = ground arith
or_io-err panic e h = absurd (ground arith)

of_ids_bind-err {κ} :
    {A B : Type κ} (o : Outcome Never A) (f : A → B) (e : NfsStat)
    → (of_ids o >>= λ a. ok (f a)) ≡ err e
    → e ≡ io_failed
of_ids_bind-err (ok a) f e h = absurd (ground arith)
of_ids_bind-err (err d) f e h = elim d [ ]
of_ids_bind-err panic f e h = absurd (ground arith)

or_io_bind-err {ℓ κ} :
    {E : Type ℓ} {A B : Type κ} (o : Outcome E A) (f : A → B) (e : NfsStat)
    → (or_io o >>= λ a. ok (f a)) ≡ err e
    → e ≡ io_failed
or_io_bind-err (ok a) f e h = absurd (ground arith)
or_io_bind-err (err d) f e h = ground arith
or_io_bind-err panic f e h = absurd (ground arith)

or_none_bind-err {ℓ κ} :
    {E : Type ℓ} {A B : Type κ} (o : Outcome E (List A)) (f : List A → B) (e : NfsStat)
    → (or_none o >>= λ a. ok (f a)) ≡ err e
    → e ≡ io_failed
or_none_bind-err (ok a) f e h = absurd (ground arith)
or_none_bind-err (err d) f e h = absurd (ground arith)
or_none_bind-err panic f e h = absurd (ground arith)

module _ {S : Store} (m : Mount) where
  abbrev pub OnlyIo : {A : Type 0} → (CasNfs S → Outcome NfsStat A × CasNfs S) → Type 0
  OnlyIo call = Only io_failed call

  pub Only-ok : {A : Type 0} (f : CasNfs S → A) → OnlyIo (reads λ s. ok (f s))
  Only-ok f = Only-reads io_failed _ (λ s e h. absurd (ground arith))

  pub intern_path-Only : (path : Bytes) (kind : NodeKind) → OnlyIo (intern_path path kind)
  unfolding intern_path
  intern_path-Only path kind = Only-updates io_failed _ (λ s e. of_ids_bind-err _ _ e)

  pub on_ids-Only : (f : IdTable → Outcome Never IdTable) → OnlyIo (on_ids f)
  unfolding on_ids
  on_ids-Only f = Only-updates io_failed _ (λ s e. of_ids_bind-err _ _ e)

  pub forget_path-Only : (path : Bytes) → OnlyIo (forget_path path)
  unfolding forget_path
  forget_path-Only path = on_ids-Only _

  pub forget_size-Only : (path : Bytes) → OnlyIo (forget_size path)
  unfolding forget_size
  forget_size-Only path = Only-updates io_failed _ (λ s e h. absurd (ground arith))

  pub read_full_for_rmw-Only : (path : Bytes) → OnlyIo (read_full_for_rmw m path)
  unfolding read_full_for_rmw
  read_full_for_rmw-Only path = Only-updates io_failed _ (λ s e. or_io-err _ e)

  pub do_route_write-Only : (path bytes : Bytes) → OnlyIo (do_route_write m path bytes)
  unfolding do_route_write
  do_route_write-Only path bytes =
      Only-asserts io_failed _ _ (Only-updates io_failed _ (λ s e. or_io-err _ e))

  pub delete_path-Only : (path : Bytes) → OnlyIo (delete_path m path)
  unfolding delete_path
  delete_path-Only path = Only-updates io_failed _ (λ s e. or_io_bind-err _ _ e)

  pub overrides-Only : (path : Bytes) (attr : Sattr) → OnlyIo (apply_sattr_overrides m path attr)
  unfolding apply_sattr_overrides
  overrides-Only path attr = Only-updates io_failed _ (λ s e h. absurd (ground arith))

  ruleset io_rules = (
    only_rules, Only-ok, intern_path-Only, on_ids-Only, forget_path-Only, forget_size-Only,
    read_full_for_rmw-Only, do_route_write-Only, delete_path-Only, overrides-Only,
  )

  move_bytes-Only : (src dst : Bytes) → OnlyIo (move_bytes m src dst)
  unfolding move_bytes
  move_bytes-Only src dst = search io_rules

  move_all-Only : (src dst : Bytes) (paths : List Bytes) → OnlyIo (move_all m src dst paths)
  unfolding move_all
  move_all-Only src dst [] = Only-ok (λ s. tt)
  move_all-Only src dst (p ∷ rest) =
      let later = move_all-Only src dst rest in search (only_rules, move_bytes-Only)

  paths_below-Only : (src : Bytes) → OnlyIo (reads λ s. paths_below m s src)
  unfolding paths_below
  paths_below-Only src = Only-reads io_failed _ (λ s e. or_none_bind-err _ _ e)

  pub rename_node-Only : (src dst : Bytes) (kind : NodeKind) → OnlyIo (rename_node m src dst kind)
  unfolding rename_node rename_file rename_dir
  rename_node-Only src dst file = search (io_rules, move_bytes-Only)
  rename_node-Only src dst dir = search (io_rules, paths_below-Only, move_all-Only) depth 10

  or_intern-Only :
      (path : Bytes) (kind : NodeKind) (known : Option ℕ)
      → OnlyIo (or_intern {S = S} path kind known)
  unfolding or_intern
  or_intern-Only path kind (some id) = Only-ok (λ s. id)
  or_intern-Only path kind none = intern_path-Only path kind

  number_child-Only : (path : Bytes) (kind : NodeKind) → OnlyIo (number_child path kind)
  unfolding number_child
  number_child-Only path kind = search (only_rules, Only-ok, or_intern-Only)

  pub list_entries-Only : (path : Bytes) (es : List DirEntry) → OnlyIo (list_entries path es)
  unfolding list_entries
  list_entries-Only path [] = Only-ok (λ s. [])
  list_entries-Only path (e ∷ rest) =
      let later = list_entries-Only path rest in search (only_rules, Only-ok, number_child-Only)

  pub list_dynamic-Only : (seen : List Bytes) (nodes : List Node) → OnlyIo (list_dynamic seen nodes)
  unfolding list_dynamic
  list_dynamic-Only seen [] = Only-ok (λ s. [])
  list_dynamic-Only seen ((path, kind) ∷ rest) =
      let skip = list_dynamic-Only seen rest in
      let later = list_dynamic-Only (last_component path ∷ seen) rest in
      search (only_rules, Only-ok, number_child-Only)
