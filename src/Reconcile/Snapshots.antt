-- ===== src/Reconcile/Snapshots.antt =====
-- src/reconcile.rs: the snapshot stores.
use lunar_fs.Base.{
  ℕ, ◌+◌, ◌%◌, ◌^◌, ◌≡◌, refl, ◌≢◌, [], ◌∷◌, not, Option, some, ◌++◌, Bytes, Outcome, ok, assert,
  list_eq, nat_eq, arith,
}
use lunar_fs.Base.Dict.{Dict, get, insert, get-insert}
use lunar_fs.Base.Text.{is_empty, is_empty_of_ne, ascii, hex_pad}
use lunar_fs.Merge.{Snapshot}

-- The trait `SnapshotStore`, over the state that its implementation keeps.
pub record SnapshotStore : Type 1 where
  pub State : Type 0
  pub fetch : State → Bytes → Outcome ⊥ (Option Snapshot)
  pub commit : State → Snapshot → Bytes × State

-- "A stored identifier must always resolve to exactly the snapshot that was committed under it."
pub record IsLawful (S : SnapshotStore) : Type 0 where
  pub fetch-commit :
      (s : S.State) (snap : Snapshot)
      → S.fetch (S.commit s snap).1 (S.commit s snap).0 ≡ ok (some snap)

pub record MemSnapshots : Type 0 where
  pub snaps : Dict Bytes Snapshot
  pub counter : ℕ

unfoldable pub seed : MemSnapshots → Bytes → Snapshot → Outcome ⊥ MemSnapshots
unfolding is_empty
seed s root snap = assert (not (is_empty root)) (ok (record s { snaps = insert s.snaps root snap }))

unfoldable pub fetch : MemSnapshots → Bytes → Outcome ⊥ (Option Snapshot)
unfolding is_empty
fetch s root = assert (not (is_empty root)) (ok (get s.snaps root))

-- The counter is a `u64`. The source releases its lock before it inserts the snapshot; one step here.
unfoldable pub snapshot_id : ℕ → Bytes
unfolding hex_pad
snapshot_id c = ascii "snap-" ++ hex_pad 16 c

unfoldable pub commit : MemSnapshots → Snapshot → Bytes × MemSnapshots
commit s snap =
    let c = (s.counter + 1) % 2 ^ 64 in
    let id = snapshot_id c in (id, record { snaps = insert s.snaps id snap; counter = c })

abbrev pub mem_snapshot_store : SnapshotStore
mem_snapshot_store = record { State = MemSnapshots; fetch = fetch; commit = commit }

pub snapshot_id-ne-nil : (c : ℕ) → snapshot_id c ≢ []
unfolding snapshot_id
snapshot_id-ne-nil c h = cc

-- A committed snapshot is what its identifier resolves to.
pub mem_snapshot_store-IsLawful : IsLawful mem_snapshot_store
unfolding fetch commit
mem_snapshot_store-IsLawful = record {
  fetch-commit = λ s snap.
      let id = snapshot_id ((s.counter + 1) % 2 ^ 64) in
      ground (
        arith,
        get-insert s.snaps id id snap,
        is_empty_of_ne (snapshot_id-ne-nil ((s.counter + 1) % 2 ^ 64)),
      );
}

pub fetch-eq :
    (s : MemSnapshots) {root : Bytes} {snap : Snapshot}
    → root ≢ []
    → get s.snaps root ≡ some snap
    → fetch s root ≡ ok (some snap)
unfolding fetch
fetch-eq s {root = []} named h = absurd (named refl)
fetch-eq s {root = c ∷ root} named h = ground arith
