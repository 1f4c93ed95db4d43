-- ===== src/Fuse/ReadPaths.antt =====
-- What an agent reads after its own writes and deletions, and after those of others.
use lunar_fs.Base.{
  ℕ, ◌≤◌, ◌<◌, ◌≡◌, refl, ◌∙◌, ap, false, Option, none, some, Bytes, Outcome, ok, ◌>>=◌, >>=-eq-ok,
  assert-eq-ok, leb→le, All, arith, ◌==◌, list_eq, nat_eq, pair_eq, leb, le→leb, length, take, drop,
  take-drop_clipped, ==-self, Option-cases, inl, inr,
}
use lunar_fs.Base.Dict.{get}
use lunar_fs.Cas.{Hash, IoError, Blobs, mem_store, mem_put, hash_to_hex, hex_to_hash}
use lunar_fs.Cas.Hex.{hex_to_hash-hash_to_hex}
use lunar_fs.Cas.Hydration.{IsAddressed, get-mem_put, get-mem_put_old}
use lunar_fs.Index.{Index, lookup}
use lunar_fs.Overlay.{
  OverlayStore, Resolution, overlay, base, tombstone, resolve, capture_write, capture_delete,
}
use lunar_fs.Overlay.Isolation.{resolve-capture_write, resolve-capture_delete}
use lunar_fs.Fuse.{
  get_blob, base_blob, resolved_blob, window, route_read, route_write, route_delete, mib128, as_io,
}

-- What the code relies on from BLAKE3: 32 bytes.
abbrev pub IsHash32 : (Bytes → Hash) → Type 0
IsHash32 hash_bytes = (x : Bytes) → (length (hash_bytes x) ≡ 32) × All (λ b. b < 256) (hash_bytes x)

module _ (hash_bytes : Bytes → Hash) where
  module _ (blobs : Blobs) (index : Index) (ov : OverlayStore) (agent : ℕ) (path : Bytes)
      (offset size : ℕ) (short : length path ≤ 4096) (small : size ≤ mib128) where
    read_of_overlay :
        (hash : Hash) (b : Bytes)
        → length hash ≡ 32
        → All (λ c. c < 256) hash
        → resolve ov agent path ≡ ok (overlay (hash_to_hex hash))
        → get blobs hash ≡ some b
        → route_read (mem_store hash_bytes) blobs index ov agent path offset size
          ≡ ok (some (window (mem_store hash_bytes) offset size b), blobs)
    unfolding route_read resolved_blob get_blob
    read_of_overlay hash b len bytes r found = rw (
      le→leb (length path) 4096 short,
      le→leb size mib128 small,
      r,
      hex_to_hash-hash_to_hex hash len bytes,
      found,
    )

    read_of_tombstone :
        resolve ov agent path ≡ ok tombstone
        → route_read (mem_store hash_bytes) blobs index ov agent path offset size ≡ ok (none, blobs)
    unfolding route_read resolved_blob
    read_of_tombstone r = rw (le→leb (length path) 4096 short, le→leb size mib128 small, r)

  pub mem_put-hash : (blobs : Blobs) (x : Bytes) → (mem_put hash_bytes blobs x).0 ≡ hash_bytes x
  unfolding mem_put
  mem_put-hash blobs x = refl

  some_blob : (blobs : Blobs) (hash : Hash) → Outcome IoError (Option Bytes × Blobs)
  some_blob blobs hash =
      get_blob (mem_store hash_bytes) blobs hash >>= λ (blob, st'). ok (some blob, st')

  get_blob-kept :
      (blobs : Blobs) (x : Bytes) (hash : Hash) (b : Option Bytes) (st : Blobs)
      → some_blob blobs hash ≡ ok (b, st)
      → some_blob (mem_put hash_bytes blobs x).1 hash ≡ ok (b, (mem_put hash_bytes blobs x).1)
  unfolding some_blob get_blob
  get_blob-kept blobs x hash b st h = elim (Option-cases (get blobs hash)) [
    | inl miss ↦ absurd (ground arith)
    | inr (y, hit) ↦
        let kept : get (mem_put hash_bytes blobs x).1 hash ≡ some y =
          get-mem_put_old hash_bytes blobs hash x y hit in
        ground arith
  ]

  none_blob :
      {st st' : Blobs} (b : Option Bytes)
      → ◌≡◌ {A = Outcome IoError (Option Bytes × Blobs)} (ok (none, st)) (ok (b, st'))
      → none ≡ b
  none_blob b h = ground arith

  pub route_write-parts :
      (blobs blobs' : Blobs) (ov ov' : OverlayStore) (agent workspace : ℕ) (path bytes : Bytes)
      (hash : Hash)
      → route_write (mem_store hash_bytes) blobs ov agent workspace path bytes
        ≡ ok (hash, (blobs', ov'))
      → (hash ≡ (mem_put hash_bytes blobs bytes).0)
        × (blobs' ≡ (mem_put hash_bytes blobs bytes).1)
        × (capture_write ov agent workspace path (hash_to_hex hash) ≡ ok ov')
  unfolding route_write
  route_write-parts blobs blobs' ov ov' agent workspace path bytes hash h = ground arith

  window_lem :
      (offset size : ℕ) (b : Bytes)
      → window (mem_store hash_bytes) offset size b ≡ take size (drop offset b)
  window_lem offset size b = take-drop_clipped offset size _ _ b refl refl

  -- Over an in-memory store that keeps each blob under its 32-byte hash, an agent that has written
  -- bytes with which no others collide reads at their path as many of these bytes from the offset on
  -- as it asks for, or as there are.
  pub read_own_write :
      (blobs blobs' : Blobs) (index : Index) (ov ov' : OverlayStore) (agent workspace : ℕ)
      (path bytes : Bytes) (hash : Hash) (offset size : ℕ)
      → IsHash32 hash_bytes
      → IsAddressed hash_bytes blobs
      → ((y : Bytes) → hash_bytes y ≡ hash_bytes bytes → y ≡ bytes)
      → length path ≤ 4096
      → size ≤ mib128
      → route_write (mem_store hash_bytes) blobs ov agent workspace path bytes
        ≡ ok (hash, (blobs', ov'))
      → route_read (mem_store hash_bytes) blobs' index ov' agent path offset size
        ≡ ok (some (take size (drop offset bytes)), blobs')
  read_own_write blobs blobs' index ov ov' agent workspace path bytes hash offset size h32 addressed
        unique short small h =
      let (e, stored, captured) =
        route_write-parts blobs blobs' ov ov' agent workspace path bytes hash h in
      let named : hash ≡ hash_bytes bytes = e ∙ mem_put-hash blobs bytes in
      read_of_overlay blobs' index ov' agent path offset size short small hash bytes
        (rw named (h32 bytes).0) (rw named (h32 bytes).1)
        (resolve-capture_write ov ov' agent workspace agent path path short (hash_to_hex hash)
            captured
          ∙ rw (==-self {A = ℕ × Bytes} (agent, path)))
        (rw (stored, e) (get-mem_put hash_bytes blobs bytes addressed unique))
      ∙ ap (λ x. ok (some x, blobs')) (window_lem offset size bytes)

  -- A deleted path reads as absent for the agent that deleted it.
  pub read_own_delete :
      (blobs : Blobs) (index : Index) (ov ov' : OverlayStore) (agent workspace : ℕ) (path : Bytes)
      (offset size : ℕ)
      → length path ≤ 4096
      → size ≤ mib128
      → route_delete ov agent workspace path ≡ ok ov'
      → route_read (mem_store hash_bytes) blobs index ov' agent path offset size ≡ ok (none, blobs)
  unfolding route_delete
  read_own_delete blobs index ov ov' agent workspace path offset size short small h =
      let captured : capture_delete ov agent workspace path ≡ ok ov' = ground arith in
      read_of_tombstone blobs index ov' agent path offset size short small (
        resolve-capture_delete ov ov' agent workspace agent path path short captured
        ∙ rw (==-self {A = ℕ × Bytes} (agent, path)))

  base_blob-kept :
      (blobs : Blobs) (x : Bytes) (found : Option Hash) (b : Option Bytes) (st : Blobs)
      → base_blob (mem_store hash_bytes) blobs found ≡ ok (b, st)
      → base_blob (mem_store hash_bytes) (mem_put hash_bytes blobs x).1 found
        ≡ ok (b, (mem_put hash_bytes blobs x).1)
  unfolding base_blob some_blob
  base_blob-kept blobs x none b st h =
      ap (λ o. ok (o, (mem_put hash_bytes blobs x).1)) (none_blob b h)
  base_blob-kept blobs x (some hash) b st h = get_blob-kept blobs x hash b st h

  resolved_blob-kept :
      (blobs : Blobs) (x : Bytes) (index : Index) (path : Bytes) (r : Resolution) (b : Option Bytes)
      (st : Blobs)
      → resolved_blob (mem_store hash_bytes) blobs index path r ≡ ok (b, st)
      → resolved_blob (mem_store hash_bytes) (mem_put hash_bytes blobs x).1 index path r
        ≡ ok (b, (mem_put hash_bytes blobs x).1)
  unfolding resolved_blob some_blob
  resolved_blob-kept blobs x index path tombstone b st h = ground arith
  resolved_blob-kept blobs x index path (overlay hex) b st h =
      let (hash, e, k) = >>=-eq-ok (hex_to_hash hex) _ h in rw e (get_blob-kept blobs x hash b st k)
  resolved_blob-kept blobs x index path base b st h =
      base_blob-kept blobs x (lookup index path) b st h

  resolve-route_write :
      (blobs blobs' : Blobs) (ov ov' : OverlayStore) (writer agent workspace : ℕ)
      (written path bytes : Bytes) (hash : Hash)
      → length path ≤ 4096
      → ◌==◌ {A = ℕ × Bytes} (writer, written) (agent, path) ≡ false
      → route_write (mem_store hash_bytes) blobs ov writer workspace written bytes
        ≡ ok (hash, (blobs', ov'))
      → resolve ov' agent path ≡ resolve ov agent path
  resolve-route_write blobs blobs' ov ov' writer agent workspace written path bytes hash short other
        h =
      let (e, stored, captured) =
        route_write-parts blobs blobs' ov ov' writer workspace written bytes hash h in
      resolve-capture_write ov ov' writer workspace agent written path short (hash_to_hex hash)
        captured
      ∙ rw other

  -- What an agent reads at a path does not change when a different agent writes, or the same agent
  -- at a different path: a read that gave a result gives the same one after the write.
  pub read_other_write :
      (blobs blobs' : Blobs) (index : Index) (ov ov' : OverlayStore) (writer agent workspace : ℕ)
      (written path bytes : Bytes) (hash : Hash) (offset size : ℕ) (b : Option Bytes) (st : Blobs)
      → ◌==◌ {A = ℕ × Bytes} (writer, written) (agent, path) ≡ false
      → route_write (mem_store hash_bytes) blobs ov writer workspace written bytes
        ≡ ok (hash, (blobs', ov'))
      → route_read (mem_store hash_bytes) blobs index ov agent path offset size ≡ ok (b, st)
      → route_read (mem_store hash_bytes) blobs' index ov' agent path offset size ≡ ok (b, blobs')
  unfolding route_read
  read_other_write blobs blobs' index ov ov' writer agent workspace written path bytes hash offset
        size b st other h read =
      let (e, stored, captured) =
        route_write-parts blobs blobs' ov ov' writer workspace written bytes hash h in
      let (short, k1) = assert-eq-ok (leb (length path) 4096) read in
      let (small, k2) = assert-eq-ok (leb size mib128) k1 in
      let (r, resolved, k3) = >>=-eq-ok (as_io (resolve ov agent path)) _ k2 in
      let ((found, st'), blob, k4) =
        >>=-eq-ok (resolved_blob (mem_store hash_bytes) blobs index path r) _ k3 in
      let same =
        resolve-route_write blobs blobs' ov ov' writer agent workspace written path bytes hash
          (leb→le (length path) 4096 short) other h in
      let kept = resolved_blob-kept blobs bytes index path r found st' blob in
      rw (short, small, same, resolved, stored, kept) (ground arith)
