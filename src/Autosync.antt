-- ===== src/Autosync.antt =====
-- src/autosync.rs: the engine that publishes a workspace once its files are quiet.
-- The clock, the watcher, the snapshots of the file system and the server are not the engine's:
-- they are a record of operations on a world, `Seams`. Elapsed times are left out of its results.
pub mod Noise
pub mod Debounce
pub mod Pipeline
use lunar_fs.Base.{
  ℕ, zero, suc, ◌-◌, Bool, true, false, not, ◌||◌, Option, none, some, List, [], ◌∷◌, Bytes,
  Outcome, ok, err, panic, ◌>>=◌, assert, list_eq, nat_eq, contains, leb, ltb, length,
  if◌then◌else◌,
}
use lunar_fs.Base.Calls.{Call, reads, updates, returns, fails, asserts, ◌>>>◌}
use lunar_fs.Base.Text.{is_empty}

pub data WorkspaceKind : Type 0 where
  human shared agent : WorkspaceKind

pub data PushOutcome : Type 0 where
  landed : ℕ → PushOutcome
  conflict : Bytes → PushOutcome

-- The messages are dropped.
pub data SyncError : Type 0 where
  snapshot_failed push_failed rebase_failed empty_root retries_exhausted sync_disabled : SyncError

-- The traits `Clock`, `WatchSource`, `Snapshotter` and `BlobUploader`. Of the events only the
-- paths are read.
pub record Seams (W : Type 0) : Type 0 where
  pub now_ms : W → ℕ
  pub drain : W → List Bytes × W
  pub snapshot : W → Outcome SyncError (Bytes × W)
  pub push : W → Bytes → Bytes → Option Bytes → Outcome SyncError (PushOutcome × W)
  pub rebase : W → Bytes → Outcome SyncError (Bytes × W)

pub record DebounceGate : Type 0 where
  pub debounce_ms : ℕ
  pub last_event_ms : Option ℕ
  pub settled : Bool

unfoldable pub new_gate {ℓ} : {E : Type ℓ} → ℕ → Outcome E DebounceGate
new_gate debounce_ms = assert (ltb 0 debounce_ms) (
    assert (leb debounce_ms 3_600_000)
      (ok (record { debounce_ms = debounce_ms; last_event_ms = none; settled = false })))

unfoldable pub on_event : ℕ → DebounceGate → DebounceGate
on_event now gate = record gate { last_event_ms = some now; settled = false }

unfoldable pub check_settle : ℕ → DebounceGate → Bool × DebounceGate
check_settle now gate = elim gate.last_event_ms [
  | none ↦ (false, gate)
  | some last ↦
      if gate.settled
      then (false, gate)
      else if leb gate.debounce_ms (now - last)
      then (true, record gate { settled = true })
      else (false, gate)
]

unfoldable pub reset_after_settle : DebounceGate → DebounceGate
reset_after_settle gate = record gate { last_event_ms = none; settled = false }

pub record SyncResult : Type 0 where
  pub root : Bytes
  pub uploaded : ℕ
  pub changed_files : ℕ

-- The fields of `AutoSyncEngine` that change, with the world.
pub record Engine (W : Type 0) : Type 0 where
  pub world : W
  pub gate : DebounceGate
  pub expected_root : Option Bytes
  pub pending_paths : List Bytes

-- The fields that do not.
pub record Settings : Type 0 where
  pub workspace : Bytes
  pub kind : WorkspaceKind
  pub disabled : Bool

abbrev pub Run : Type 0 → Type 0 → Type 0
Run W A = Call SyncError (Engine W) A

abbrev pub is_off : Settings → Bool
is_off c = c.disabled || (elim c.kind [ agent ↦ true | _ ↦ false ])

-- `HashSet::insert`
abbrev pub add_path : Bytes → List Bytes → List Bytes
add_path path paths = if contains paths path then paths else path ∷ paths

module _ {W : Type 0} (k : Seams W) (c : Settings) where
  -- The loop of `tick` over the events.
  unfoldable pub note_events : ℕ → List Bytes → Engine W → Engine W
  unfolding on_event
  note_events now [] e = e
  note_events now (path ∷ rest) e =
      note_events now rest
        (record e { gate = on_event now e.gate; pending_paths = add_path path e.pending_paths })

  unfoldable pub take_snapshot : Run W Bytes
  take_snapshot = updates λ e. k.snapshot e.world >>= λ (root, w).
      if is_empty root then err empty_root else ok (root, record e { world = w })

  unfoldable pub push_root : Bytes → Run W PushOutcome
  push_root root = updates λ e. k.push e.world c.workspace root e.expected_root >>= λ (outcome, w).
      ok (outcome, record e { world = w })

  unfoldable pub expect_root : Bytes → Run W (Unit {0})
  expect_root root = updates λ e. ok (tt, record e { expected_root = some root })

  unfoldable pub rebase_root : Run W Bytes
  rebase_root =
      updates λ e. k.rebase e.world c.workspace >>= λ (root, w). ok (root, record e { world = w })

  -- What follows a push: the result, or the next attempt, after a conflict.
  unfoldable pub after_push : Bytes → Run W SyncResult → PushOutcome → Run W SyncResult
  unfolding expect_root rebase_root
  after_push root again (landed uploaded) = expect_root root >>> λ _.
      returns (record { root = root; uploaded = uploaded; changed_files = 0 })
  after_push root again (conflict current_root) =
      rebase_root >>> λ new_root. expect_root new_root >>> λ _. again

  -- The loop of `pipeline_inner`, with the attempts that are left.
  unfoldable pub attempts : ℕ → Run W SyncResult
  unfolding take_snapshot push_root after_push
  attempts zero = fails retries_exhausted
  attempts (suc n) =
      let again = attempts n in take_snapshot >>> λ root. push_root root >>> after_push root again

  abbrev pub max_conflict_retries : ℕ
  max_conflict_retries = 3

  unfoldable pub pipeline_inner : Run W SyncResult
  unfolding attempts
  pipeline_inner = asserts (not (is_empty c.workspace)) (attempts max_conflict_retries)

  unfoldable pub run_once : Run W SyncResult
  unfolding pipeline_inner
  run_once = asserts (not (is_empty c.workspace)) (
      if is_off c
      then fails sync_disabled
      else (pipeline_inner >>> λ r. returns (record r { changed_files = r.uploaded })))

  -- A pipeline that returned, or one that failed, whose error is only logged.
  abbrev pub settle_result :
      Outcome SyncError SyncResult × Engine W → Outcome SyncError (Option SyncResult) × Engine W
  settle_result (ok r, e) = (
    ok (some (record r { changed_files = length e.pending_paths })),
    record e { gate = reset_after_settle e.gate; pending_paths = [] },
  )
  settle_result (err x, e) = (ok none, e)
  settle_result (panic, e) = (panic, e)

  -- The events that are drained, and whether the gate fires.
  unfoldable pub observe : Engine W → Bool × Engine W
  unfolding note_events check_settle
  observe e =
      let now = k.now_ms e.world in
      let drained : List Bytes × W = k.drain e.world in
      let noted : Engine W = note_events now drained.0 (record e { world = drained.1 }) in
      let checked : Bool × DebounceGate = check_settle now noted.gate in
      (checked.0, record noted { gate = checked.1 })

  abbrev pub tick_on : Bool × Engine W → Outcome SyncError (Option SyncResult) × Engine W
  tick_on (false, e) = (ok none, e)
  tick_on (true, e) = settle_result (pipeline_inner e)

  unfoldable pub tick : Run W (Option SyncResult)
  unfolding observe pipeline_inner reset_after_settle
  tick =
      asserts (not (is_empty c.workspace))
        (if is_off c then returns none else (λ e. tick_on (observe e)))
