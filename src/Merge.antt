-- ===== src/Merge.antt =====
-- src/merge.rs: the three-way merge of flat snapshots, file by file.
-- A `HashSet` is iterated in an order that the source does not fix, so the order in which the
-- paths are visited is an argument of the loop.
mod Naming
pub mod Paths
pub mod Copies
unfoldable pub use Naming.{copy_name, conflict_copy_path}
use lunar_fs.Base.{
  ◌+◌, Bool, true, false, not, ◌&&◌, Option, none, some, List, [], ◌∷◌, ◌++◌, Bytes, Eq, ◌==◌,
  list_eq, nat_eq, leb, length, Outcome, ok, panic, ◌>>=◌, assert, if◌then◌else◌, contains, ◌≡◌,
  refl, ap, arith,
}
use lunar_fs.Base.Dict.{Dict, get, insert, keys}
use lunar_fs.Base.Text.{is_empty}
use mathlib.Core.Logic.{dite}

pub data FileState : Type 0 where
  present : Bytes → FileState
  deleted : FileState

present_eq : {a b : Bytes} → present a ≡ present b → a ≡ b
present_eq h = ground arith

present-ne-deleted : (a : Bytes) → ¬ (present a ≡ deleted)
present-ne-deleted a h = cc

deleted-ne-present : (a : Bytes) → ¬ (deleted ≡ present a)
deleted-ne-present a h = cc

-- `#[derive(PartialEq)]`
unfoldable pub state_dec : Discrete FileState
unfolding present_eq present-ne-deleted deleted-ne-present
state_dec (present a) (present b) =
    dite (list_eq.dec a b) (λ p. yes (ap present p)) (λ n. no (λ p. n (present_eq p)))
state_dec (present a) deleted = no (present-ne-deleted a)
state_dec deleted (present b) = no (deleted-ne-present b)
state_dec deleted deleted = yes refl

instance abbrev pub state_eq : Eq FileState
state_eq = record { dec = state_dec }

abbrev pub Snapshot : Type 0
Snapshot = Dict Bytes FileState

pub data MergeAction : Type 0 where
  take_winner take_local unchanged : MergeAction
  conflict_copy : Bytes → MergeAction

pub record PathOutcome : Type 0 where
  pub path : Bytes
  pub action : MergeAction

pub record MergeResult : Type 0 where
  pub merged : Snapshot
  pub outcomes : List PathOutcome
  pub conflicts : List Bytes

-- `get(path).unwrap_or(absent)`
abbrev pub state_at : Snapshot → Bytes → FileState
state_at d p = elim (get d p) [ none ↦ deleted | some s ↦ s ]

abbrev pub put : Bytes → FileState → MergeResult → MergeResult
put p s r = record r { merged = insert r.merged p s }

-- `if s != absent { merged.insert(path, s) }`
abbrev pub put_present : Bytes → FileState → MergeResult → MergeResult
put_present p deleted r = r
put_present p (present c) r = put p (present c) r

abbrev pub Step : Type 0
Step = Outcome ⊥ (MergeAction × MergeResult)

-- The copy that both conflicting branches of `apply_conflict` make.
unfoldable pub keep_copy : Bytes → Bytes → Bytes → MergeResult → Step
unfolding conflict_copy_path
keep_copy path suffix content r = conflict_copy_path path suffix >>= λ copy. ok (
  conflict_copy copy,
  record (put copy (present content) r) { conflicts = r.conflicts ++ (path ∷ []) },
)

unfoldable pub resolve_states : Bytes → FileState → FileState → Bytes → MergeResult → Step
unfolding keep_copy
resolve_states path (present w) deleted suffix r = ok (take_winner, put path (present w) r)
resolve_states path deleted (present l) suffix r = keep_copy path suffix l r
resolve_states path (present w) (present l) suffix r =
    keep_copy path suffix l (put path (present w) r)
resolve_states path deleted deleted suffix r = panic

unfoldable pub apply_conflict : Bytes → FileState → FileState → Bytes → MergeResult → Step
unfolding resolve_states is_empty
apply_conflict path win_s loc_s suffix r = assert (not (is_empty path)) (
    if win_s == loc_s
    then ok (take_winner, put_present path win_s r)
    else resolve_states path win_s loc_s suffix r)

-- The body of the loop over `all_paths`, before the outcome is pushed.
unfoldable pub decide_path : FileState → FileState → FileState → Bytes → Bytes → MergeResult → Step
unfolding apply_conflict
decide_path base_s win_s loc_s path suffix r =
    let winner_changed = not (win_s == base_s) in
    let local_changed = not (loc_s == base_s) in
    if not winner_changed && not local_changed
    then ok (unchanged, put_present path win_s r)
    else if winner_changed && not local_changed
    then ok (take_winner, put_present path win_s r)
    else if not winner_changed && local_changed
    then ok (take_local, put_present path loc_s r)
    else apply_conflict path win_s loc_s suffix r

abbrev pub push_outcome : Bytes → MergeAction → MergeResult → MergeResult
push_outcome path action r = record r {
  outcomes = r.outcomes ++ (record { path = path; action = action } ∷ []);
}

module _ (base winner local : Snapshot) (suffix : Bytes) where
  unfoldable pub merge_path : Bytes → MergeResult → Outcome ⊥ MergeResult
  unfolding decide_path
  merge_path path r =
      decide_path (state_at base path) (state_at winner path) (state_at local path) path suffix r
      >>= λ (action, r'). ok (push_outcome path action r')

  unfoldable pub merge_paths : List Bytes → MergeResult → Outcome ⊥ MergeResult
  unfolding merge_path
  merge_paths [] r = ok r
  merge_paths (path ∷ rest) r = merge_path path r >>= λ r'. merge_paths rest r'

abbrev pub empty_result : MergeResult
empty_result = record { merged = []; outcomes = []; conflicts = [] }

-- `order` is the order in which `all_paths` is iterated.
unfoldable pub merge_snapshots :
    Snapshot → Snapshot → Snapshot → Bytes → List Bytes → Outcome ⊥ MergeResult
unfolding merge_paths
merge_snapshots base winner local suffix order = assert (not (is_empty suffix)) (
    assert (leb (length base + length winner + length local) 3_000_000)
      (merge_paths base winner local suffix order empty_result))
