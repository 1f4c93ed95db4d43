-- ===== src/Reconcile.antt =====
-- src/reconcile.rs: merge and try again after a rejected advance.
-- Other writers act on the stores between the calls of the loop: `others` is what they do before
-- a call, given the number of attempts that are left.
pub mod Snapshots
pub mod Safety
pub mod Progress
use lunar_fs.Base.{
  ℕ, zero, suc, ◌≡◌, Bool, true, false, not, Option, none, some, List, Bytes, Outcome, ok, err,
  panic, assert, ok_or, lift, ◌>>=◌, leb,
}
use lunar_fs.Base.Text.{is_empty}
use lunar_fs.Merge.{Snapshot, MergeResult, merge_snapshots}
use lunar_fs.RefAdvance.{CasResult, committed, mismatch, RefStore}
use Snapshots.{SnapshotStore}

pub data ReconcileError : Type 0 where
  ref_not_found : ReconcileError
  snapshot_not_found : Bytes → ReconcileError
  max_retries_exceeded : ℕ → ReconcileError

-- The calls before which other writers may act.
pub data Point : Type 0 where
  before_read before_fetch before_commit before_advance : Point

module _ (R : RefStore) (S : SnapshotStore) where
  abbrev pub World : Type 0
  World = R.State × S.State

  abbrev pub Others : Type 0
  Others = Point → ℕ → World → World

  module _ (others : Others) (order : Snapshot → Snapshot → Snapshot → List Bytes)
      (ref_name suffix : Bytes) (local_overlay : Snapshot) where
    -- Commit the merged snapshot, and advance the ref to it.
    unfoldable pub publish :
        ℕ → Bytes → Snapshot → World → Outcome ReconcileError (CasResult × World)
    publish n winner_root merged w =
        let w₂ : World = others before_commit n w in
        let (merged_root, snaps₃) = S.commit w₂.1 merged in
        let w₄ : World = others before_advance n (w₂.0, snaps₃) in
        lift (R.advance w₄.0 ref_name (some winner_root) merged_root) >>= λ (c, refs₅).
        ok (c, (refs₅, w₄.1))

    unfoldable pub merge_with : Snapshot → Snapshot → Outcome ReconcileError MergeResult
    merge_with base winner =
        lift (merge_snapshots base winner local_overlay suffix (order base winner local_overlay))

    unfoldable pub fetch_root : Bytes → S.State → Outcome ReconcileError Snapshot
    fetch_root root snaps =
        lift (S.fetch snaps root) >>= λ found. ok_or found (snapshot_not_found root)

    -- One round of the loop.
    unfoldable pub attempt :
        Snapshot → ℕ → Bytes → World → Outcome ReconcileError (CasResult × World)
    unfolding fetch_root merge_with publish
    attempt base n winner_root w =
        let w₁ : World = others before_fetch n w in
        fetch_root winner_root w₁.1 >>= λ winner.
        merge_with base winner >>= λ m. publish n winner_root m.merged w₁

    -- The loop, with the rounds left; `max_retries` is for the error.
    unfoldable pub attempts :
        ℕ → Snapshot → ℕ → Bytes → World → Outcome ReconcileError (Bytes × World)
    unfolding attempt
    attempts max_retries base zero winner_root w = err (max_retries_exceeded max_retries)
    attempts max_retries base (suc n) winner_root w = attempt base n winner_root w >>= λ (c, w').
        elim c [
          | committed value ↦ ok (value, w')
          | mismatch current ↦ attempts max_retries base n current w'
        ]

    -- From the read of the ref on.
    unfoldable pub begin : ℕ → Snapshot → World → Outcome ReconcileError (Bytes × World)
    unfolding attempts
    begin max_retries base w =
        let w' : World = others before_read max_retries w in
        lift (R.read w'.0 ref_name) >>= λ current. ok_or current ref_not_found >>= λ winner_root.
        attempts max_retries base max_retries winner_root w'

    unfoldable pub reconcile : Bytes → ℕ → World → Outcome ReconcileError (Bytes × World)
    unfolding begin fetch_root
    reconcile base_root max_retries w = assert (not (is_empty ref_name)) (
        assert (not (is_empty base_root)) (
          assert (not (is_empty suffix)) (
            assert (leb 1 max_retries) (
              assert (leb max_retries 100)
                (fetch_root base_root w.1 >>= λ base. begin max_retries base w)))))
