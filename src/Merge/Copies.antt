-- ===== src/Merge/Copies.antt =====
-- What a merge does with a local edit that meets an edit or a deletion of the winner.
use lunar_fs.Base.{
  ◌≡◌, ◌⊎◌, inl, inr, Bool, true, false, not, ◌&&◌, some, List, [], ◌∷◌, ◌++◌, Bytes, arith, ok,
  >>=-eq-ok, All, contains, ◌==◌, list_eq, nat_eq, if◌then◌else◌, filter,
}
use mathlib.Core.List.{append-nil, append_assoc}
use lunar_fs.Base.Dict.{get, insert, get-insert}
use lunar_fs.Merge.{
  FileState, present, deleted, Snapshot, MergeResult, MergeAction, state_at, state_eq, merge_path,
  merge_paths, merge_snapshots, empty_result, decide_path, copy_name,
}
use lunar_fs.Merge.Paths.{merge_path-get}

-- Both sides changed the file, to different states, and the local side still has it.
abbrev pub conflicted : FileState → FileState → FileState → Bool
conflicted b w deleted = false
conflicted b w (present l) = not (w == b) && (not (present l == b) && not (w == present l))

decide_path-copy :
    (b w : FileState) (l path suffix : Bytes) (r : MergeResult) {a : MergeAction} {r' : MergeResult}
    → conflicted b w (present l) ≡ true
    → decide_path b w (present l) path suffix r ≡ ok (a, r')
    → get r'.merged (copy_name path suffix) ≡ some (present l)
unfolding decide_path
decide_path-copy b deleted l path suffix r c h =
    ground (arith, get-insert r.merged (copy_name path suffix) (copy_name path suffix) (present l))
decide_path-copy b (present w) l path suffix r c h = ground (
  arith,
  get-insert (insert r.merged path (present w)) (copy_name path suffix) (copy_name path suffix)
      (present l),
)

decide_path-conflicts :
    (b w l : FileState) (path suffix : Bytes) (r : MergeResult) {a : MergeAction} {r' : MergeResult}
    → decide_path b w l path suffix r ≡ ok (a, r')
    → r'.conflicts ≡ r.conflicts ++ (if conflicted b w l then path ∷ [] else [])
unfolding decide_path
decide_path-conflicts b deleted deleted path suffix r h = ground (arith, append-nil r.conflicts)
decide_path-conflicts b (present w) deleted path suffix r h = ground (arith, append-nil r.conflicts)
decide_path-conflicts b deleted (present l) path suffix r h = ground (arith, append-nil r.conflicts)
decide_path-conflicts b (present w) (present l) path suffix r h =
    ground (arith, append-nil r.conflicts)

module _ (base winner local : Snapshot) (suffix : Bytes) where
  abbrev pub conflicted_at : Bytes → Bool
  conflicted_at p = conflicted (state_at base p) (state_at winner p) (state_at local p)

  merge_path-conflicts :
      (path : Bytes) (r r' : MergeResult)
      → merge_path base winner local suffix path r ≡ ok r'
      → r'.conflicts ≡ r.conflicts ++ (if conflicted_at path then path ∷ [] else [])
  unfolding merge_path
  merge_path-conflicts path r r' h =
      let ((a, s), found, stored) = >>=-eq-ok (decide_path _ _ _ path suffix r) _ h in
      ground (
        arith,
        decide_path-conflicts (state_at base path) (state_at winner path) (state_at local path) path
            suffix r {a = a} {r' = s} found,
      )

  merge_paths-conflicts :
      (order : List Bytes) (r r' : MergeResult)
      → merge_paths base winner local suffix order r ≡ ok r'
      → r'.conflicts ≡ r.conflicts ++ filter conflicted_at order
  unfolding merge_paths filter
  merge_paths-conflicts [] r r' h = ground (arith, append-nil r.conflicts)
  merge_paths-conflicts (path ∷ rest) r r' h =
      let (s, first, later) = >>=-eq-ok (merge_path base winner local suffix path r) _ h in
      ground (
        arith,
        merge_path-conflicts path r s first,
        merge_paths-conflicts rest s r' later,
        append_assoc r.conflicts (path ∷ []) (filter conflicted_at rest),
        append-nil r.conflicts,
      )

  module _ (p l : Bytes) (edit : state_at local p ≡ present l) (c : conflicted_at p ≡ true) where
    abbrev copy : Bytes
    copy = copy_name p suffix

    merge_path-copy_self :
        (r r' : MergeResult)
        → merge_path base winner local suffix p r ≡ ok r'
        → get r'.merged copy ≡ some (present l)
    unfolding merge_path
    merge_path-copy_self r r' h =
        let ((a, s), found, stored) = >>=-eq-ok (decide_path _ _ _ p suffix r) _ h in
        ground (
          arith,
          decide_path-copy (state_at base p) (state_at winner p) l p suffix r {a = a} {r' = s}
              (rw edit at c) (rw edit at found),
        )

    merge_paths-copy :
        (order : List Bytes) (r r' : MergeResult)
        → contains order copy ≡ false
        → All (λ x. copy_name x suffix ≡ copy → x ≡ p) order
        → merge_paths base winner local suffix order r ≡ ok r'
        → (contains order p ≡ true) ⊎ (get r.merged copy ≡ some (present l))
        → get r'.merged copy ≡ some (present l)
    unfolding merge_paths
    merge_paths-copy [] r r' out only h (inl m) = cc
    merge_paths-copy [] r r' out only h (inr e) = ground arith
    merge_paths-copy (x ∷ rest) r r' out only h either =
        let (s, first, later) = >>=-eq-ok (merge_path base winner local suffix x r) _ h in
        merge_paths-copy rest s r' (ground arith) only.1 later (elim (list_eq.dec x p) [
          | yes e ↦ inr (merge_path-copy_self r s (rw e at first))
          | no n ↦
              let kept =
                merge_path-get base winner local suffix copy x r s (λ e. n (only.0 e)) first in
              elim either [ inl m ↦ inl (ground arith) | inr e ↦ inr (ground arith) ]
        ])

module _ (base winner local : Snapshot) (suffix : Bytes) (order : List Bytes) where
  -- The paths reported as conflicts are, in the order of the visit, those where both sides changed
  -- the base to different states and the local side still has the file.
  pub merge_snapshots-conflicts :
      (r : MergeResult)
      → merge_snapshots base winner local suffix order ≡ ok r
      → r.conflicts ≡ filter (conflicted_at base winner local suffix) order
  unfolding merge_snapshots
  merge_snapshots-conflicts r h =
      merge_paths-conflicts base winner local suffix order empty_result r (ground arith)

  -- The local content of a conflicting path is kept under the name of its copy, if the merge
  -- visits no file of that name and no other path has a copy of that name.
  pub merge_snapshots-keeps_edit :
      (p l : Bytes) (r : MergeResult)
      → contains order p ≡ true
      → state_at local p ≡ present l
      → conflicted_at base winner local suffix p ≡ true
      → contains order (copy_name p suffix) ≡ false
      → All (λ x. copy_name x suffix ≡ copy_name p suffix → x ≡ p) order
      → merge_snapshots base winner local suffix order ≡ ok r
      → get r.merged (copy_name p suffix) ≡ some (present l)
  unfolding merge_snapshots
  merge_snapshots-keeps_edit p l r m edit c out only h =
      merge_paths-copy base winner local suffix p l edit c order empty_result r out only
        (ground arith) (inl m)
