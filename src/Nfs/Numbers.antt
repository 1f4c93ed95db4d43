-- ===== src/Nfs/Numbers.antt =====
-- The file numbers of src/nfs/ids.rs, through the requests of src/nfs/fs.rs.
use lunar_fs.Base.{◌≡◌, List, Bytes, Outcome, ok, err, panic, >>=-eq-ok, arith}
use lunar_fs.Base.Calls.{Keeps, Keeps-updates, Keeps-asserts, keeps_rules}
use lunar_fs.Cas.{Store}
use lunar_fs.Fuse.Translate.{NodeKind, file}
use lunar_fs.Ids.{IdTable, Never, intern, rename_path}
use lunar_fs.Ids.Bijection.{
  IsBijection, Kept, Kept-trans, intern-Kept, forget-Kept, rename_path-Kept, rename_subtree-Kept,
}
use lunar_fs.Ids.Subtree.{rename_subtree}
use lunar_fs.Nfs.{Mount, CasNfs, Sattr, or_io, of_ids}
use lunar_fs.Nfs.Files.{
  full_content, read_full_for_rmw, written, do_route_write, delete_path, forget_size, intern_path,
  forget_path, on_ids, apply_sattr_overrides, move_bytes,
}
use lunar_fs.Nfs.Preserved.{KeepsSteps, serve-keeps}
use lunar_fs.Nfs.Handlers.{remove_node, read_file}
use lunar_fs.Nfs.Requests.{Request, serve}

pub of_ids-eq-ok {κ} : {A : Type κ} (o : Outcome Never A) {a : A} → of_ids o ≡ ok a → o ≡ ok a
of_ids-eq-ok (ok a) h = ground arith
of_ids-eq-ok (err e) h = elim e [ ]
of_ids-eq-ok panic h = absurd (ground arith)

pub or_io-eq-ok {ℓ κ} :
    {E : Type ℓ} {A : Type κ} (o : Outcome E A) {a : A} → or_io o ≡ ok a → o ≡ ok a
or_io-eq-ok (ok a) h = ground arith
or_io-eq-ok (err e) h = absurd (ground arith)
or_io-eq-ok panic h = absurd (ground arith)

module _ {S : Store} (m : Mount) (t : IdTable) where
  abbrev KeptFrom : CasNfs S → Type 0
  KeptFrom s = Kept t s.ids

  intern_path-Kept : (path : Bytes) (kind : NodeKind) → Keeps KeptFrom (intern_path path kind)
  unfolding intern_path
  intern_path-Kept path kind = Keeps-updates _ λ s s' id k h.
      let ((id', ids'), e, same) = >>=-eq-ok (of_ids (intern s.ids path kind)) _ h in
      let (kept, _) =
        intern-Kept s.ids ids' path kind id' k.0 (of_ids-eq-ok (intern s.ids path kind) e) in
      Kept-trans t s.ids s'.ids k (ground arith)

  on_ids-Kept :
      (f : IdTable → Outcome Never IdTable)
      → ((u u' : IdTable) → IsBijection u → f u ≡ ok u' → Kept u u')
      → Keeps KeptFrom (on_ids f)
  unfolding on_ids
  on_ids-Kept f keeps = Keeps-updates _ λ s s' id k h.
      let (ids', e, same) = >>=-eq-ok (of_ids (f s.ids)) _ h in
      let kept = keeps s.ids ids' k.0 (of_ids-eq-ok (f s.ids) e) in
      Kept-trans t s.ids s'.ids k (ground arith)

  forget_path-Kept : (path : Bytes) → Keeps KeptFrom (forget_path path)
  unfolding forget_path
  forget_path-Kept path = on_ids-Kept _ (λ u u' b. forget-Kept u u' path b)

  forget_size-Kept : (path : Bytes) → Keeps KeptFrom (forget_size path)
  unfolding forget_size
  forget_size-Kept path = Keeps-updates _ λ s s' id k h. ground arith

  read_full_for_rmw-Kept : (path : Bytes) → Keeps KeptFrom (read_full_for_rmw m path)
  unfolding read_full_for_rmw full_content
  read_full_for_rmw-Kept path = Keeps-updates _ λ s s' b k h. ground arith

  do_route_write-Kept : (path bytes : Bytes) → Keeps KeptFrom (do_route_write m path bytes)
  unfolding do_route_write written
  do_route_write-Kept path bytes = Keeps-asserts _ _ (Keeps-updates _ λ s s' b k h. ground arith)

  delete_path-Kept : (path : Bytes) → Keeps KeptFrom (delete_path m path)
  unfolding delete_path
  delete_path-Kept path = Keeps-updates _ λ s s' b k h. ground arith

  overrides-Kept :
      (path : Bytes) (attr : Sattr) → Keeps KeptFrom (apply_sattr_overrides m path attr)
  unfolding apply_sattr_overrides
  overrides-Kept path attr = Keeps-updates _ λ s s' b k h. ground arith

  move_bytes-Kept : (src dst : Bytes) → Keeps KeptFrom (move_bytes m src dst)
  unfolding move_bytes
  move_bytes-Kept src dst =
      search (
        keeps_rules, read_full_for_rmw-Kept, do_route_write-Kept, delete_path-Kept,
        forget_size-Kept,
      )

  remove_node-Kept : (path : Bytes) → Keeps KeptFrom (remove_node m path file)
  unfolding remove_node
  remove_node-Kept path = search (keeps_rules, delete_path-Kept, forget_path-Kept, forget_size-Kept)

  steps-Kept : KeepsSteps m KeptFrom
  unfolding read_file
  steps-Kept = record {
    interned = intern_path-Kept;
    forgotten = forget_path-Kept;
    renamed = λ src dst.
        on_ids-Kept (λ u. rename_path u src dst file)
          (λ u u' b. rename_path-Kept u u' src dst file b);
    moved_below = λ src dst.
        on_ids-Kept (λ u. rename_subtree m.base_order m.dyn_order u src dst)
          (λ u u' b. rename_subtree-Kept m.base_order m.dyn_order u u' src dst b);
    full_read = read_full_for_rmw-Kept;
    read_part = λ path offset size. Keeps-updates _ (λ s s' b k h. ground arith);
    stored = do_route_write-Kept;
    overridden = overrides-Kept;
    moved = move_bytes-Kept;
    removed = λ path short. remove_node-Kept path;
  }

-- Whatever requests are served, with their results and their errors: numbers and paths still
-- determine each other, and a number that was given out stands for the same node.
pub serve-Kept :
    {S : Store} (m : Mount) (requests : List Request) (s : CasNfs S)
    → IsBijection s.ids
    → Kept s.ids (serve m requests s).ids
serve-Kept m requests s b = serve-keeps (steps-Kept m s.ids) requests s (b, λ id node was. was)
