-- ===== src/Live/Mounts.antt =====
-- What a client of src/live_sync.rs has mounted.
use lunar_fs.Base.{
  ◌≡◌, refl, sym, ap, ◌∙◌, true, false, Bool-cases, Option-cases, inl, inr, Option, none, some,
  List, [], ◌∷◌, Bytes, ok, arith, ◌==◌, ==-self, ==-sound, list_eq, nat_eq, contains, All,
}
use lunar_fs.Base.Dict.{get}
use lunar_fs.Base.Text.{is_empty}
use lunar_fs.Live.{
  LiveSnapshot, MemServerState, ClientState, ReconcileResult, values, get_blob, get_snapshot,
  get_ref, partition, fetch_all, add_all, is_at, mount_snapshot, reconcile, settle_tick, is_seen,
  tick,
}

-- A blob that the server has.
abbrev pub IsFetchable : MemServerState → Bytes → Type 0
IsFetchable s hash = (is_empty hash ≡ false) × ((b : Bytes) × (get s.blobs hash ≡ some b))

abbrev pub IsCached : List Bytes → Bytes → Type 0
IsCached cache hash = contains cache hash ≡ true

fetch_all-ok :
    (s : MemServerState) (hashes : List Bytes)
    → All (IsFetchable s) hashes
    → fetch_all s hashes ≡ ok hashes
unfolding fetch_all get_blob
fetch_all-ok s [] all = refl
fetch_all-ok s (hash ∷ rest) ((some_hash, (b, found)), all) =
    rw (some_hash, found, fetch_all-ok s rest all) refl

partition-All :
    (P : Bytes → Type 0) (cache hashes : List Bytes)
    → All P hashes
    → All P (partition cache hashes).0
unfolding partition
partition-All P cache [] all = tt
partition-All P cache (hash ∷ rest) all = elim (Bool-cases (contains cache hash)) [
  | inl e ↦ rw e (partition-All P cache rest all.1)
  | inr e ↦ rw e (all.0, partition-All P cache rest all.1)
]

add_all-grows :
    (xs cache : List Bytes) (h : Bytes) → IsCached cache h → IsCached (add_all xs cache) h
unfolding add_all
add_all-grows [] cache h in_ = in_
add_all-grows (x ∷ rest) cache h in_ = elim (Bool-cases (contains cache x)) [
  | inl e ↦ rw e (add_all-grows rest cache h in_)
  | inr e ↦ rw e (add_all-grows rest (x ∷ cache) h (ground arith))
]

partition-hit :
    (cache rest : List Bytes) (hash : Bytes)
    → IsCached cache hash
    → (partition cache (hash ∷ rest)).0 ≡ (partition cache rest).0
unfolding partition
partition-hit cache rest hash e = rw e refl

partition-miss :
    (cache rest : List Bytes) (hash : Bytes)
    → contains cache hash ≡ false
    → (partition cache (hash ∷ rest)).0 ≡ hash ∷ (partition cache rest).0
unfolding partition
partition-miss cache rest hash e = rw e refl

add_all-first :
    (rest cache : List Bytes) (hash : Bytes)
    → (grown : List Bytes) × (add_all (hash ∷ rest) cache ≡ add_all rest grown)
      × IsCached grown hash
      × ((h : Bytes) → IsCached cache h → IsCached grown h)
unfolding add_all
add_all-first rest cache hash = elim (Bool-cases (contains cache hash)) [
  | inl e ↦ (cache, rw e refl, e, λ h in_. in_)
  | inr e ↦ (hash ∷ cache, rw e refl, ground (arith, ==-self hash), λ h in_. ground arith)
]

-- Once what was missing is added, all is there.
fetched-IsCached :
    (cache grown hashes : List Bytes)
    → ((h : Bytes) → IsCached cache h → IsCached grown h)
    → All (IsCached (add_all (partition cache hashes).0 grown)) hashes
fetched-IsCached cache grown [] within = tt
fetched-IsCached cache grown (hash ∷ rest) within = elim (Bool-cases (contains cache hash)) [
  | inl e ↦
      let same = partition-hit cache rest hash e in
      coe 1 0 (i. All (IsCached (add_all (same i) grown)) (hash ∷ rest)) (
        add_all-grows (partition cache rest).0 grown hash (within hash e),
        fetched-IsCached cache grown rest within,
      )
  | inr e ↦
      let (wider, same, there, more) = add_all-first (partition cache rest).0 grown hash in
      let all_ = ap (λ xs. add_all xs grown) (partition-miss cache rest hash e) ∙ same in
      coe 1 0 (i. All (IsCached (all_ i)) (hash ∷ rest)) (
        add_all-grows (partition cache rest).0 wider hash there,
        fetched-IsCached cache wider rest (λ h in_. more h (within h in_)),
      )
]

-- A client whose mount is the snapshot of its id, with every blob in its cache, and whose polling
-- has seen no ref but that of the mount.
pub record IsFollowing (s : MemServerState) (c : ClientState) (last : Option Bytes) : Type 0 where
  pub complete : All (IsCached c.blob_cache) (values c.mount.entries)
  pub known :
      (id : Bytes) (snapshot : LiveSnapshot)
      → c.mount.snapshot_id ≡ some id
      → get s.snapshots id ≡ some snapshot
      → snapshot.entries ≡ c.mount.entries
  pub seen : (id : Bytes) → last ≡ some id → c.mount.snapshot_id ≡ some id

seen_last : {id : Bytes} (last : Option Bytes) → is_seen last id ≡ true → last ≡ some id
seen_last none h = absurd (ground arith)
seen_last {id = id} (some x) h = ap (λ y. some y) (==-sound x id h)

-- A client that has mounted the snapshot with an id, completely.
abbrev pub Mounted : Bytes → LiveSnapshot → ClientState → Type 0
Mounted id snapshot c =
    (c.mount.snapshot_id ≡ some id)
    × (c.mount.entries ≡ snapshot.entries)
    × All (IsCached c.blob_cache) (values c.mount.entries)

module _ (s : MemServerState) (c : ClientState) (ws id : Bytes) (snapshot : LiveSnapshot)
    (some_ws : is_empty ws ≡ false) (some_id : is_empty id ≡ false)
    (found : get s.snapshots id ≡ some snapshot)
    (fetchable : All (IsFetchable s) (values snapshot.entries)) where
  pub entries_of :
      (j : Bytes) (other : LiveSnapshot)
      → ◌≡◌ {A = Option Bytes} (some id) (some j)
      → get s.snapshots j ≡ some other
      → other.entries ≡ snapshot.entries
  entries_of j other same stored =
      let at : id ≡ j = ground arith in
      let both : ◌≡◌ {A = Option LiveSnapshot} (some other) (some snapshot) =
        sym stored ∙ (ap (get s.snapshots) (sym at) ∙ found) in
      let it : other ≡ snapshot = ground arith in ap (λ x. x.entries) it

  is_at-some : is_at c id ≡ true → c.mount.snapshot_id ≡ some id
  unfolding is_at
  is_at-some h = elim (Option-cases c.mount.snapshot_id) [
    | inl no_ ↦ absurd (ground arith)
    | inr (current, e) ↦
        let same : (current == id) ≡ true = ground arith in
        e ∙ ap (λ x. some x) (==-sound current id same)
  ]

  abbrev mount_result : ReconcileResult
  mount_result = record {
    snapshot_id = id;
    fetched_blobs = (partition c.blob_cache (values snapshot.entries)).0;
    skipped_blobs = (partition c.blob_cache (values snapshot.entries)).1;
  }

  abbrev mount_state : ClientState
  mount_state = record {
    mount = record { snapshot_id = some id; entries = snapshot.entries };
    blob_cache = add_all (partition c.blob_cache (values snapshot.entries)).0 c.blob_cache;
  }

  mounts : mount_snapshot s c id snapshot ≡ ok (mount_result, mount_state)
  unfolding mount_snapshot
  mounts =
      rw
        (fetch_all-ok s (partition c.blob_cache (values snapshot.entries)).0
          (partition-All (IsFetchable s) c.blob_cache (values snapshot.entries) fetchable))
        refl

  -- A reconcile to a snapshot that the server has with its blobs returns and mounts it.
  pub reconcile_mounts :
      (last : Option Bytes)
      → IsFollowing s c last
      → (r : ReconcileResult) × (c' : ClientState) × (reconcile s c ws id ≡ ok (r, c'))
        × Mounted id snapshot c'
  unfolding reconcile get_snapshot
  reconcile_mounts last f = elim (Bool-cases (is_at c id)) [
    | inl here ↦
        let at = is_at-some here in
        (
          record { snapshot_id = id; fetched_blobs = []; skipped_blobs = values c.mount.entries },
          c,
          rw (some_ws, some_id, here) refl,
          (at, sym (f.known id snapshot at found), f.complete),
        )
    | inr away ↦ (
      mount_result,
      mount_state,
      rw (some_ws, some_id, away, found) mounts,
      (
        refl,
        refl,
        fetched-IsCached c.blob_cache c.blob_cache (values snapshot.entries) (λ h in_. in_),
      ),
    )
  ]

  -- One poll by a client that follows the server, of a ref whose snapshot the server has with all
  -- its blobs: the client then has mounted exactly that snapshot, with every blob in its cache, and
  -- follows the server still.
  pub tick_follows :
      (last : Option Bytes)
      → IsFollowing s c last
      → get s.refs ws ≡ some id
      → (r : Option ReconcileResult) × (c' : ClientState) × (tick s ws c last
          ≡ ok (r, (c', some id)))
        × Mounted id snapshot c'
        × IsFollowing s c' (some id)
  unfolding tick get_ref settle_tick
  tick_follows last f ref = elim (Bool-cases (is_seen last id)) [
    | inl old ↦
        let same = seen_last last old in
        let at = f.seen id same in
        (
          none,
          c,
          rw (some_ws, ref, old, same) refl,
          (at, sym (f.known id snapshot at found), f.complete),
          record { complete = f.complete; known = f.known; seen = λ i e. f.seen i (same ∙ e) },
        )
    | inr new_ ↦
        let (r, c', run, (at, entries, complete)) = reconcile_mounts last f in
        (
          some r,
          c',
          rw (some_ws, ref, new_, run) refl,
          (at, entries, complete),
          record {
            complete = complete;
            known = λ i other e stored. entries_of i other (sym at ∙ e) stored ∙ sym entries;
            seen = λ i e. at ∙ e;
          },
        )
  ]
