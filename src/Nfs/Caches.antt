-- ===== src/Nfs/Caches.antt =====
-- The cache of sizes in src/nfs/fs.rs.
use lunar_fs.Base.{
  ℕ, ◌≤◌, ◌≡◌, refl, sym, ap, ◌∙◌, false, none, some, List, [], Bytes, Outcome, ok, err, panic,
  >>=-eq-ok, arith, ◌==◌, list_eq, nat_eq, pair_eq, le→leb, length, if◌then◌else◌, Bool-cases, inl,
  inr,
}
use lunar_fs.Base.Dict.{Dict, get, insert, remove, get-insert, get-remove, get-nil}
use lunar_fs.Base.Calls.{Keeps, Keeps-updates, Keeps-asserts, Keeps-bind, updates, ◌>>>◌}
use lunar_fs.Cas.{IoError, Hash, Blobs, mem_store, hash_to_hex}
use lunar_fs.Fuse.{route_write, route_delete}
use lunar_fs.Fuse.Translate.{NodeKind, file}
use lunar_fs.Fuse.ReadPaths.{route_write-parts, mem_put-hash}
use lunar_fs.Ids.{IdTable, Never, intern, forget}
use lunar_fs.Overlay.{OverlayStore, Row, overlay, resolution, capture_write, capture_delete}
use lunar_fs.Nfs.{with_overlay, Mount, CasNfs, Sattr, of_ids}
use lunar_fs.Nfs.Files.{
  full_content, read_full_for_rmw, written, do_route_write, delete_path, forget_size, intern_path,
  forget_path, on_ids, apply_sattr_overrides, move_bytes,
}
use lunar_fs.Nfs.Handlers.{remove_node, read_file}
use lunar_fs.Nfs.Numbers.{or_io-eq-ok}
use lunar_fs.Nfs.Preserved.{KeepsSteps, serve-keeps}
use lunar_fs.Nfs.Requests.{Request, serve}

module _ (hash_bytes : Bytes → Hash) (m : Mount) where
  -- Some bytes of that length were written at the path last.
  abbrev pub IsWritten : OverlayStore → Bytes → ℕ → Type 0
  IsWritten ov path n =
      (x : Bytes) × (length x ≡ n)
      × (resolution (get ov.rows (m.agent, path)) ≡ overlay (hash_to_hex (hash_bytes x)))

  abbrev pub AgreeOn : OverlayStore → Dict Bytes ℕ → Type 0
  AgreeOn ov sizes = (path : Bytes) (n : ℕ) → get sizes path ≡ some n → IsWritten ov path n

  -- The sizes are those of the blobs that the overlay names.
  abbrev pub SizesAgree : CasNfs (mem_store hash_bytes) → Type 0
  SizesAgree s = AgreeOn s.overlay s.sizes

  agree_at :
      (ov ov' : OverlayStore) (sizes sizes' : Dict Bytes ℕ)
      → ov ≡ ov'
      → sizes ≡ sizes'
      → AgreeOn ov sizes
      → AgreeOn ov' sizes'
  agree_at ov ov' sizes sizes' f e agree path n h =
      let (x, len, row) = agree path n (rw e h) in (x, len, rw (← f) row)

  same_caches :
      (s s' : CasNfs (mem_store hash_bytes))
      → s.sizes ≡ s'.sizes
      → s.overlay ≡ s'.overlay
      → SizesAgree s
      → SizesAgree s'
  same_caches s s' e f agree = agree_at s.overlay s'.overlay s.sizes s'.sizes f e agree

  row_of_write :
      (ov ov' : OverlayStore) (path q hex : Bytes)
      → capture_write ov m.agent m.workspace path hex ≡ ok ov'
      → resolution (get ov'.rows (m.agent, q))
        ≡ (if path == q then overlay hex else resolution (get ov.rows (m.agent, q)))
  unfolding capture_write
  row_of_write ov ov' path q hex h =
      let row : Row = record { workspace_id = m.workspace; blob_hash = some hex } in
      ground (arith, get-insert ov.rows (m.agent, path) (m.agent, q) row)

  row_of_delete :
      (ov ov' : OverlayStore) (path q : Bytes)
      → route_delete ov m.agent m.workspace path ≡ ok ov'
      → (path == q) ≡ false
      → get ov'.rows (m.agent, q) ≡ get ov.rows (m.agent, q)
  unfolding route_delete capture_delete
  row_of_delete ov ov' path q h other =
      let row : Row = record { workspace_id = m.workspace; blob_hash = none } in
      ground (arith, get-insert ov.rows (m.agent, path) (m.agent, q) row)

  agree-write :
      (ov ov' : OverlayStore) (sizes : Dict Bytes ℕ) (path bytes : Bytes)
      → AgreeOn ov sizes
      → capture_write ov m.agent m.workspace path (hash_to_hex (hash_bytes bytes)) ≡ ok ov'
      → AgreeOn ov' (insert sizes path (length bytes))
  agree-write ov ov' sizes path bytes agree h q n cached =
      let row = row_of_write ov ov' path q (hash_to_hex (hash_bytes bytes)) h in
      let size = get-insert sizes path q (length bytes) in
      elim (Bool-cases (path == q)) [
        | inl here ↦ (bytes, ground arith, row ∙ rw here)
        | inr there ↦ let (x, len, old) = agree q n (ground arith) in (x, len, row ∙ (rw there old))
      ]

  agree-delete :
      (ov ov' : OverlayStore) (sizes : Dict Bytes ℕ) (path : Bytes)
      → AgreeOn ov sizes
      → route_delete ov m.agent m.workspace path ≡ ok ov'
      → AgreeOn ov' (remove sizes path)
  agree-delete ov ov' sizes path agree h q n cached =
      let size = get-remove sizes path q in
      let other : (path == q) ≡ false = ground arith in
      let (x, len, old) = agree q n (ground arith) in
      (x, len, ap resolution (row_of_delete ov ov' path q h other) ∙ old)

  written_caches :
      (s s' : CasNfs (mem_store hash_bytes)) (path bytes : Bytes) (unit : Unit {0})
      → SizesAgree s
      → written m path bytes s ≡ ok (unit, s')
      → SizesAgree s'
  unfolding written
  written_caches s s' path bytes unit agree h =
      let ((hash, (blobs', ov')), e, same) =
        >>=-eq-ok
          (route_write (mem_store hash_bytes) s.blobs s.overlay m.agent m.workspace path bytes) _
          h in
      let (named, stored, captured) =
        route_write-parts hash_bytes s.blobs blobs' s.overlay ov' m.agent m.workspace path bytes
          hash e in
      let full : hash ≡ hash_bytes bytes = named ∙ mem_put-hash hash_bytes s.blobs bytes in
      let agree' = agree-write s.overlay ov' s.sizes path bytes agree (
        ap (λ x. capture_write s.overlay m.agent m.workspace path (hash_to_hex x)) (sym full)
        ∙ captured) in
      let sizes' : insert s.sizes path (length bytes) ≡ s'.sizes = ground arith in
      let ov'' : ov' ≡ s'.overlay = ground arith in
      agree_at ov' s'.overlay _ s'.sizes ov'' sizes' agree'

  intern_path-agree : (path : Bytes) (kind : NodeKind) → Keeps SizesAgree (intern_path path kind)
  unfolding intern_path
  intern_path-agree path kind = Keeps-updates _ λ s s' u agree h.
      let (ids', e, same) = >>=-eq-ok (of_ids (intern s.ids path kind)) _ h in
      same_caches s s' (ground arith) (ground arith) agree

  on_ids-agree : (f : IdTable → Outcome Never IdTable) → Keeps SizesAgree (on_ids f)
  unfolding on_ids
  on_ids-agree f = Keeps-updates _ λ s s' u agree h.
      let (ids', e, same) = >>=-eq-ok (of_ids (f s.ids)) _ h in
      same_caches s s' (ground arith) (ground arith) agree

  full_read-agree : (path : Bytes) → Keeps SizesAgree (read_full_for_rmw m path)
  unfolding read_full_for_rmw full_content
  full_read-agree path =
      Keeps-updates _ λ s s' u agree h. same_caches s s' (ground arith) (ground arith) agree

  read_part-agree :
      (path : Bytes) (offset size : ℕ) → Keeps SizesAgree (updates (read_file m path offset size))
  unfolding read_file
  read_part-agree path offset size =
      Keeps-updates _ λ s s' u agree h. same_caches s s' (ground arith) (ground arith) agree

  overrides-agree :
      (path : Bytes) (attr : Sattr) → Keeps SizesAgree (apply_sattr_overrides m path attr)
  unfolding apply_sattr_overrides
  overrides-agree path attr =
      Keeps-updates _ λ s s' u agree h. same_caches s s' (ground arith) (ground arith) agree

  stored-agree : (path bytes : Bytes) → Keeps SizesAgree (do_route_write m path bytes)
  unfolding do_route_write
  stored-agree path bytes = Keeps-asserts _ _ (
      Keeps-updates _ λ s s' u agree h.
        written_caches s s' path bytes u agree (or_io-eq-ok (written m path bytes s) h))

  -- A deletion, and the size that is forgotten with it.
  delete-agree : (path : Bytes) → Keeps SizesAgree (delete_path m path >>> λ _. forget_size path)
  unfolding delete_path forget_size ◌>>>◌ updates
  delete-agree path = record {
    at = λ s agree. after s agree (route_delete s.overlay m.agent m.workspace path) refl;
  }
    where
      after :
          (s : CasNfs (mem_store hash_bytes))
          → SizesAgree s
          → (o : Outcome IoError OverlayStore) → route_delete s.overlay m.agent m.workspace path ≡ o
          → SizesAgree ((delete_path m path >>> λ _. forget_size path) s).1
      after s agree (ok ov') h = rw h (agree-delete s.overlay ov' s.sizes path agree h)
      after s agree (err e) h = rw h agree
      after s agree panic h = rw h agree

  move-agree : (src dst : Bytes) → Keeps SizesAgree (move_bytes m src dst)
  unfolding move_bytes
  move-agree src dst =
      Keeps-bind _ _ (full_read-agree src)
        λ bytes. Keeps-bind _ _ (stored-agree dst bytes) λ unit. delete-agree src

  remove-agree : (path : Bytes) → length path ≤ 4096 → Keeps SizesAgree (remove_node m path file)
  unfolding remove_node delete_path forget_path on_ids forget forget_size ◌>>>◌ updates
  remove-agree path short = record {
    at = λ s agree. after s agree (route_delete s.overlay m.agent m.workspace path) refl;
  }
    where
      after :
          (s : CasNfs (mem_store hash_bytes))
          → SizesAgree s
          → (o : Outcome IoError OverlayStore) → route_delete s.overlay m.agent m.workspace path ≡ o
          → SizesAgree (remove_node m path file s).1
      after s agree (ok ov') h =
          rw (h, le→leb (length path) 4096 short) (agree-delete s.overlay ov' s.sizes path agree h)
      after s agree (err e) h = rw h agree
      after s agree panic h = rw h agree

  steps-agree : KeepsSteps m SizesAgree
  unfolding forget_path
  steps-agree = record {
    interned = intern_path-agree;
    forgotten = λ path. on_ids-agree _;
    renamed = λ src dst. on_ids-agree _;
    moved_below = λ src dst. on_ids-agree _;
    full_read = full_read-agree;
    read_part = read_part-agree;
    stored = stored-agree;
    overridden = overrides-agree;
    moved = move-agree;
    removed = remove-agree;
  }

  -- A server that has been mounted over an in-memory store, whatever requests it has served: a size
  -- in its cache is the length of bytes whose hash the agent's overlay has at that path, so that no
  -- size outlives the file it was of.
  pub serve-SizesAgree :
      (blobs : Blobs) (ov : OverlayStore) (s : CasNfs (mem_store hash_bytes))
      (requests : List Request)
      → with_overlay m blobs ov ≡ ok s
      → SizesAgree (serve m requests s)
  unfolding with_overlay
  serve-SizesAgree blobs ov s requests mounted = serve-keeps steps-agree requests s λ path n h.
      let empty : s.sizes ≡ [] = ground arith in absurd (ground (arith, get-nil {V = ℕ} path))
