-- ===== src/Merge/Paths.antt =====
-- What a merge leaves at a path of the three snapshots.
use lunar_fs.Base.{
  ◌≡◌, refl, ◌≢◌, ◌||◌, Option, none, some, List, [], ◌∷◌, Bytes, arith, ok, panic, >>=-eq-ok,
  ok_of_ne_panic, All, contains, ◌==◌, list_eq, nat_eq, if◌then◌else◌, length, ◌≤◌, ◌+◌,
}
use lunar_fs.Base.Dict.{get, insert, get-insert, get-nil, contains_key}
use lunar_fs.Merge.{
  FileState, present, deleted, Snapshot, MergeResult, state_at, state_eq, merge_path, merge_paths,
  merge_snapshots, empty_result, decide_path, copy_name, MergeAction, push_outcome,
}

-- The rule of a three-way merge: a side that did not change yields to the other, and the winner
-- keeps the path where both changed.
abbrev pub merged_state : FileState → FileState → FileState → FileState
merged_state base_s win_s loc_s = if win_s == base_s then loc_s else win_s

-- A deleted file has no entry.
abbrev pub entry : FileState → Option FileState → Option FileState
entry deleted old = old
entry (present c) old = some (present c)

decide_path-get :
    (b w l : FileState) (path suffix q : Bytes) (r : MergeResult) {a : MergeAction}
    {r' : MergeResult}
    → copy_name path suffix ≢ q
    → decide_path b w l path suffix r ≡ ok (a, r')
    → get r'.merged q
      ≡ (if path == q then entry (merged_state b w l) (get r.merged q) else get r.merged q)
unfolding decide_path
decide_path-get b deleted deleted path suffix q r fresh h = ground arith
decide_path-get b (present w) deleted path suffix q r fresh h =
    ground (arith, get-insert r.merged path q (present w))
decide_path-get b deleted (present l) path suffix q r fresh h = ground (
  arith,
  get-insert r.merged path q (present l),
  get-insert r.merged (copy_name path suffix) q (present l),
)
decide_path-get b (present w) (present l) path suffix q r fresh h = ground (
  arith,
  get-insert r.merged path q (present w),
  get-insert r.merged path q (present l),
  get-insert (insert r.merged path (present w)) (copy_name path suffix) q (present l),
)

module _ (base winner local : Snapshot) (suffix q : Bytes) where
  abbrev expected : Option FileState → Option FileState
  expected old = entry (merged_state (state_at base q) (state_at winner q) (state_at local q)) old

  pub merge_path-get :
      (path : Bytes) (r r' : MergeResult)
      → copy_name path suffix ≢ q
      → merge_path base winner local suffix path r ≡ ok r'
      → get r'.merged q ≡ (if path == q then expected (get r.merged q) else get r.merged q)
  unfolding merge_path
  merge_path-get path r r' fresh h =
      let ((a, s), found, stored) = >>=-eq-ok (decide_path _ _ _ path suffix r) _ h in
      ground (
        arith,
        decide_path-get (state_at base path) (state_at winner path) (state_at local path) path
            suffix q r {a = a} {r' = s} fresh found,
      )

  merge_paths-get :
      (order : List Bytes) (r r' : MergeResult)
      → All (λ p. copy_name p suffix ≢ q) order
      → merge_paths base winner local suffix order r ≡ ok r'
      → get r'.merged q ≡ (if contains order q then expected (get r.merged q) else get r.merged q)
  unfolding merge_paths
  merge_paths-get [] r r' fresh h = ground arith
  merge_paths-get (path ∷ rest) r r' fresh h =
      let (s, first, later) = >>=-eq-ok (merge_path base winner local suffix path r) _ h in
      ground (arith, merge_path-get path r s fresh.0 first, merge_paths-get rest s r' fresh.1 later)

-- `order` lists the keys of the three snapshots, as `all_paths` does.
abbrev pub Lists : Snapshot → Snapshot → Snapshot → List Bytes → Type 0
Lists base winner local order =
    (p : Bytes)
    → contains order p ≡ (contains_key base p || (contains_key winner p || contains_key local p))

module _ (base winner local : Snapshot) (suffix : Bytes) (order : List Bytes) where
  -- At a path that no conflict copy is named after, in whatever order the paths were visited, the
  -- merge holds the local state if the winner left the base's state there, and the winner's
  -- state otherwise; a deleted state is no entry.
  pub merge_snapshots-get :
      (q : Bytes) (r : MergeResult)
      → Lists base winner local order
      → All (λ p. copy_name p suffix ≢ q) order
      → merge_snapshots base winner local suffix order ≡ ok r
      → get r.merged q
        ≡ entry (merged_state (state_at base q) (state_at winner q) (state_at local q)) none
  unfolding merge_snapshots
  merge_snapshots-get q r lists fresh h = ground (
    arith,
    lists q,
    get-nil {V = FileState} q,
    merge_paths-get base winner local suffix q order empty_result r fresh (ground arith),
  )

decide_path-ne-panic :
    (b w l : FileState) (path suffix : Bytes) (r : MergeResult)
    → suffix ≢ []
    → path ≢ []
    → decide_path b w l path suffix r ≢ panic
unfolding decide_path
decide_path-ne-panic b w l [] suffix r s p h = p refl
decide_path-ne-panic b w l (c ∷ path) [] r s p h = s refl
decide_path-ne-panic b (present w) (present l) (c ∷ path) (d ∷ suffix) r s p h = ground arith
decide_path-ne-panic b (present w) deleted (c ∷ path) (d ∷ suffix) r s p h = ground arith
decide_path-ne-panic b deleted (present l) (c ∷ path) (d ∷ suffix) r s p h = ground arith
decide_path-ne-panic b deleted deleted (c ∷ path) (d ∷ suffix) r s p h = ground arith

module _ (base winner local : Snapshot) (suffix : Bytes) (s : suffix ≢ []) where
  merge_paths-ne-panic :
      (order : List Bytes) (r : MergeResult)
      → All (λ p. p ≢ []) order
      → merge_paths base winner local suffix order r ≢ panic
  unfolding merge_paths
  merge_paths-ne-panic [] r named h = cc
  merge_paths-ne-panic (path ∷ rest) r named h =
      let ((a, r'), e) =
        ok_of_ne_panic
          (decide_path (state_at base path) (state_at winner path) (state_at local path) path suffix
            r)
          (decide_path-ne-panic _ _ _ path suffix r s named.0) in
      merge_paths-ne-panic rest (push_outcome path a r') named.1 (ground arith)

  -- With a suffix, and no empty path, a merge of at most three million entries returns.
  pub merge_snapshots_total :
      (order : List Bytes)
      → All (λ p. p ≢ []) order
      → length base + length winner + length local ≤ 3_000_000
      → (r : MergeResult) × (merge_snapshots base winner local suffix order ≡ ok r)
  unfolding merge_snapshots
  merge_snapshots_total order named small =
      ok_of_ne_panic (merge_snapshots base winner local suffix order)
        (λ e. merge_paths-ne-panic order empty_result named (ground arith))
