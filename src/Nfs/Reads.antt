-- ===== src/Nfs/Reads.antt =====
-- What a client of src/nfs/fs.rs reads after it has written.
use lunar_fs.Base.{
  ℕ, ◌+◌, ◌≤◌, ◌≡◌, refl, sym, ap, ◌∙◌, false, Option, some, Bytes, Outcome, ok, >>=-eq-ok,
  assert-eq-ok, arith, leb, leb→le, le→leb, length, min, take, drop, Option-cases, inl, inr,
}
use lunar_fs.Base.Text.{is_empty}
use lunar_fs.Base.Calls.{
  >>>-eq-ok, >>>-ok, asserts-eq-ok, updates-eq-ok, updates-ok, reads, updates,
}
use lunar_fs.Cas.{Hash, IoError, Blobs, mem_store, hex_to_hash}
use lunar_fs.Cas.Hydration.{IsAddressed}
use lunar_fs.Index
use lunar_fs.Fuse.{route_read, route_write, mib128, as_io}
use lunar_fs.Fuse.ReadPaths.{IsHash32, read_own_write}
use lunar_fs.Fuse.Translate.{file}
use lunar_fs.Ids.{IdTable, intern, path_of}
use lunar_fs.Ids.Bijection.{IsBijection}
use lunar_fs.Ids.Handles.{intern_keeps_kind, path_of-eq-some}
use lunar_fs.Overlay
use lunar_fs.Overlay.{Resolution}
use lunar_fs.Nfs.{Mount, CasNfs, Fattr, of_ids, fattr_for}
use lunar_fs.Nfs.Buffers.{read-patched}
use lunar_fs.Nfs.Files.{
  blob_or_empty, content, full_content, read_full_for_rmw, written, do_route_write, intern_path,
  isize_max, u64_max,
}
use lunar_fs.Nfs.Handlers.{patched, new_end, node_of, write, write_node, read, read_node, read_file}
use lunar_fs.Nfs.Numbers.{or_io-eq-ok, of_ids-eq-ok}

module _ (hash_bytes : Bytes → Hash) (m : Mount) where
  abbrev Server : Type 0
  Server = CasNfs (mem_store hash_bytes)

  blob_or_empty-still :
      (blobs blobs' : Blobs) (hash : Hash) (b : Bytes)
      → blob_or_empty (mem_store hash_bytes) m blobs hash ≡ ok (b, blobs')
      → blobs ≡ blobs'
  unfolding blob_or_empty
  blob_or_empty-still blobs blobs' hash b h = ground arith

  content-still :
      (blobs blobs' : Blobs) (path : Bytes) (r : Resolution) (b : Bytes)
      → content (mem_store hash_bytes) m blobs path r ≡ ok (b, blobs')
      → blobs ≡ blobs'
  unfolding content
  content-still blobs blobs' path Resolution.tombstone b h = ground arith
  content-still blobs blobs' path (Resolution.overlay hex) b h =
      let (hash, e, k) = >>=-eq-ok (hex_to_hash hex) _ h in
      blob_or_empty-still blobs blobs' hash b k
  content-still blobs blobs' path Resolution.base b h =
      elim (Option-cases (Index.lookup m.index path)) [
        | inl no_ ↦ ground arith
        | inr (hash, found) ↦ blob_or_empty-still blobs blobs' hash b (rw (content, found) at h)
      ]

  pub full_content-still :
      (s s' : Server) (path b : Bytes) → full_content m s path ≡ ok (b, s') → s ≡ s'
  unfolding full_content
  full_content-still s s' path b h =
      let (short, k1) = assert-eq-ok (leb (length path) 4096) h in
      let (r, e, k2) = >>=-eq-ok (as_io (Overlay.resolve s.overlay m.agent path)) _ k1 in
      let ((c, blobs'), f, k3) = >>=-eq-ok (content (mem_store hash_bytes) m s.blobs path r) _ k2 in
      let same = content-still s.blobs blobs' path r c f in
      ap (λ blobs. record s { blobs = blobs }) same ∙ ground arith

  -- The steps of a write that returned.
  record Written (s s' : Server) (id : ℕ) (path : Bytes) (offset : ℕ) (bytes : Bytes) (attr : Fattr)
      : Type 0 where
    buf : Bytes
    mid : Server
    short : length path ≤ 4096
    was : full_content m s path ≡ ok (buf, s)
    put : written m path (patched offset bytes buf) s ≡ ok (tt, mid)
    num : ℕ
    named : intern mid.ids path file ≡ ok (num, s'.ids)
    kept : record mid { ids = s'.ids } ≡ s'
    shown : fattr_for m s' id path file ≡ attr

  write-Written :
      (s s' : Server) (id : ℕ) (path : Bytes) (offset : ℕ) (bytes : Bytes) (attr : Fattr)
      → path_of s.ids id ≡ some (path, file)
      → write m id offset bytes s ≡ (ok attr, s')
      → Written s s' id path offset bytes attr
  unfolding write write_node node_of read_full_for_rmw do_route_write intern_path reads
  write-Written s s' id path offset bytes attr at h =
      let k0 = sym (>>>-ok (node_of id) _ s {a = (path, file)} {u = s} (rw at refl)) ∙ h in
      let (short, k1) = asserts-eq-ok (leb (length path) 4096) _ s k0 in
      let (buf, s1, e1, k2) = >>>-eq-ok (read_full_for_rmw m path) _ s k1 in
      let (roomy, k3) = asserts-eq-ok (leb (new_end offset bytes) isize_max) _ s1 k2 in
      let (unit, mid, e2, k4) =
        >>>-eq-ok (do_route_write m path (patched offset bytes buf)) _ s1 k3 in
      let (num, s3, e3, k5) = >>>-eq-ok (intern_path path file) _ mid k4 in
      let was = or_io-eq-ok (full_content m s path) (updates-eq-ok _ s e1) in
      let same : s ≡ s1 = full_content-still s s1 path buf was in
      let (fits, e4) = asserts-eq-ok (leb (length path) 4096) _ s1 e2 in
      let put =
        or_io-eq-ok (written m path (patched offset bytes buf) s1) (updates-eq-ok _ s1 e4) in
      let ((num', ids'), e5, k6) =
        >>=-eq-ok (of_ids (intern mid.ids path file)) _ (updates-eq-ok _ mid e3) in
      let last : s3 ≡ s' = ground arith in
      let ids : record mid { ids = ids' } ≡ s3 = ground arith in
      let named = of_ids-eq-ok (intern mid.ids path file) e5 in
      record {
        buf = buf;
        mid = mid;
        short = leb→le (length path) 4096 short;
        was = was ∙ ap (λ x. ok (buf, x)) (sym same);
        put = ap (written m path (patched offset bytes buf)) same ∙ put;
        num = num';
        named = named ∙ ap (λ x. ok (num', x)) (ap (λ x. x.ids) (ids ∙ last));
        kept = ap (λ x. record mid { ids = x.ids }) (sym (ids ∙ last)) ∙ (ids ∙ last);
        shown = ground arith;
      }

  pub written-route :
      (s mid : Server) (path bytes : Bytes)
      → written m path bytes s ≡ ok (tt, mid)
      → (hash : Hash) × (route_write
            (mem_store hash_bytes)
            s.blobs
            s.overlay
            m.agent
            m.workspace
            path
            bytes
          ≡ ok (hash, (mid.blobs, mid.overlay)))
        × (s.ids ≡ mid.ids)
  unfolding written
  written-route s mid path bytes h =
      let ((hash, (blobs', ov')), e, k) =
        >>=-eq-ok
          (route_write (mem_store hash_bytes) s.blobs s.overlay m.agent m.workspace path bytes) _
          h in
      let same : blobs' ≡ mid.blobs = ground arith in
      let same' : ov' ≡ mid.overlay = ground arith in
      (
        hash,
        e ∙ ap (λ x. ok (hash, (x, ov'))) same ∙ ap (λ y. ok (hash, (mid.blobs, y))) same',
        ground arith,
      )

  -- Once a file's number is interned again it stands for the file.
  path_of-intern :
      (t t' : IdTable) (id num : ℕ) (path : Bytes)
      → IsBijection t
      → length path ≤ 4096
      → path_of t id ≡ some (path, file)
      → intern t path file ≡ ok (num, t')
      → path_of t' id ≡ some (path, file)
  path_of-intern t t' id num path b short at h =
      let (node, shown) = path_of-eq-some t id path file at in
      let (t'', (e, seen)) =
        intern_keeps_kind t path file file id short (b.number_at id path file node) node in
      let same : t'' ≡ t' = ground arith in ap (λ x. path_of x id) (sym same) ∙ seen

  read_file_of_route :
      (s : Server) (path : Bytes) (offset count : ℕ) (bytes : Bytes)
      → offset + count ≤ isize_max
      → route_read (mem_store hash_bytes) s.blobs m.index s.overlay m.agent path offset count
        ≡ ok (some bytes, s.blobs)
      → read_file m path offset count s ≡ ok (bytes, s)
  unfolding read_file
  read_file_of_route s path offset count bytes fits h =
      rw (h, le→leb (offset + count) u64_max (omega arith)) refl

  -- A client that has written bytes, not none, to a file's number reads them back at that offset,
  -- together with whether the size that the write reported is reached. The server's blobs are
  -- addressed by 32-byte hashes, and no other bytes collide with the file's new content.
  pub write_then_read :
      (s s' : CasNfs (mem_store hash_bytes)) (id : ℕ) (path : Bytes) (offset : ℕ) (bytes : Bytes)
      (attr : Fattr)
      → IsHash32 hash_bytes
      → IsAddressed hash_bytes s.blobs
      → IsBijection s.ids
      → path_of s.ids id ≡ some (path, file)
      → is_empty bytes ≡ false
      → length bytes ≤ mib128
      → offset + length bytes ≤ isize_max
      → ((buf y : Bytes)
          → full_content m s path ≡ ok (buf, s)
          → hash_bytes y ≡ hash_bytes (patched offset bytes buf)
          → y ≡ patched offset bytes buf)
      → write m id offset bytes s ≡ (ok attr, s')
      → read m id offset (length bytes) s'
        ≡ (ok (bytes, leb attr.size (min (offset + length bytes) u64_max)), s')
  unfolding read node_of read_node reads fattr_for
  write_then_read s s' id path offset bytes attr h32 addressed b at some_bytes small fits unique h =
      let w = write-Written s s' id path offset bytes attr at h in
      let new = patched offset bytes w.buf in
      let (hash, routed, ids) = written-route s w.mid path new w.put in
      let named : intern s.ids path file ≡ ok (w.num, s'.ids) =
        ap (λ t. intern t path file) ids ∙ w.named in
      let at' = path_of-intern s.ids s'.ids id w.num path b w.short at named in
      let seen =
        read_own_write hash_bytes s.blobs w.mid.blobs m.index s.overlay w.mid.overlay m.agent
          m.workspace path new hash offset (length bytes) h32 addressed (λ y. unique w.buf y w.was)
          w.short small routed in
      let look : Server → ℕ → Outcome IoError (Option Bytes × Blobs) =
        λ t n. route_read (mem_store hash_bytes) t.blobs m.index t.overlay m.agent path offset n in
      let count : min (length bytes) mib128 ≡ length bytes = omega arith in
      let content : take (length bytes) (drop offset new) ≡ bytes =
        read-patched offset bytes w.buf some_bytes fits in
      let found : look s' (length bytes) ≡ ok (some bytes, s'.blobs) =
        ap (λ t. look t (length bytes)) (sym w.kept)
        ∙ (seen
            ∙ (ap (λ x. ok (some x, w.mid.blobs)) content
                ∙ ap (λ t. ok (some bytes, t.blobs)) w.kept)) in
      let part =
        read_file_of_route s' path offset (min (length bytes) mib128) bytes (omega arith)
          (ap (look s') count ∙ found) in
      >>>-ok (node_of id) _ s' {a = (path, file)} {u = s'} (rw at' refl)
      ∙ (>>>-ok (updates (read_file m path offset (min (length bytes) mib128))) _ s'
            (updates-ok _ s' part)
          ∙ ap (λ a. (ok (bytes, leb a.size (min (offset + length bytes) u64_max)), s')) w.shown)
