-- ===== src/Patch/Changes.antt =====
-- What the changes between two trees say, in src/patch.rs.
use lunar_fs.Base.{
  ℕ, zero, suc, ◌≡◌, refl, ap, ◌∙◌, Bool-cases, inl, inr, List, [], ◌∷◌, Bytes, Outcome, ok,
  >>=-eq-ok, arith, ◌==◌, list_eq, nat_eq, All,
}
use lunar_fs.Cas.{Hash, Blobs, mem_store}
use lunar_fs.Patch.{PatchError}
use lunar_fs.Patch.Trees.{
  Change, WorkItem, diff, Progress, step, diff_loop, diff_trees_inner, diff_trees, max_diff_iters,
}
use lunar_fs.Patch.Sides.{top, IsSound}
use lunar_fs.Patch.Steps.{Sound, Good, step-Good}

module _ (hash_bytes : Bytes → Hash) (order : List Bytes → List Bytes) (blobs : Blobs)
    (old_root new_root : Hash) where
  Good-ok :
      (o : Outcome PatchError (Progress × Blobs)) {p : Progress} {st : Blobs}
      → Good hash_bytes order blobs old_root new_root o
      → o ≡ ok (p, st)
      → Sound hash_bytes order blobs old_root new_root p × (blobs ≡ st)
  Good-ok o good h = rw h at good

  diff_loop-Sound :
      (iters : ℕ) (stack : List WorkItem) (changes changes' : List Change) (st st' : Blobs)
      → Sound hash_bytes order blobs old_root new_root (stack, changes)
      → blobs ≡ st
      → diff_loop (mem_store hash_bytes) order iters stack changes st ≡ ok (changes', st')
      → All (IsSound blobs old_root new_root) changes'
  unfolding diff_loop
  diff_loop-Sound iters [] changes changes' st st' (placed, sound) same h =
      let e : changes ≡ changes' = ground arith in rw (← e) sound
  diff_loop-Sound zero (item ∷ stack) changes changes' st st' sound same h = absurd (ground arith)
  diff_loop-Sound (suc iters) (item ∷ stack) changes changes' st st' ((here, placed), sound) same
        h =
      let (((stack1, changes1), st1), e, k) =
        >>=-eq-ok (step (mem_store hash_bytes) order item (stack, changes) st) _ h in
      let first = ap (step (mem_store hash_bytes) order item (stack, changes)) same ∙ e in
      let (sound', same') =
        Good-ok _
          (step-Good hash_bytes order blobs old_root new_root item (stack, changes) here
            (placed, sound))
          first in
      diff_loop-Sound iters stack1 changes1 changes' st1 st' sound' same' k

  diff_trees_inner-Sound :
      (iters : ℕ) (st : Blobs) (changes : List Change)
      → diff_trees_inner (mem_store hash_bytes) order iters blobs old_root new_root
        ≡ ok (changes, st)
      → All (IsSound blobs old_root new_root) changes
  unfolding diff_trees_inner
  diff_trees_inner-Sound iters st changes h = elim (Bool-cases (old_root == new_root)) [
    | inl same ↦ let none_ : [] ≡ changes = ground arith in rw (← none_) tt
    | inr apart ↦
        diff_loop-Sound iters (diff [] old_root new_root ∷ []) [] changes blobs st
          (((top, top), tt), tt) refl (rw apart at h)
  ]

-- Over an in-memory store, each change between two trees has the sides that its kind says: an old
-- one is a file that the tree of the old root has at the change's path, a new one a file that the
-- tree of the new root has there, with its stored blob and the length of it as the size; the sides of
-- a modification have different hashes. Whatever the order in which the names of a directory are
-- visited.
pub diff_trees-IsSound :
    (hash_bytes : Bytes → Hash) (order : List Bytes → List Bytes) (blobs st : Blobs)
    (old new : Hash) (changes : List Change)
    → diff_trees (mem_store hash_bytes) order blobs old new ≡ ok (changes, st)
    → All (IsSound blobs old new) changes
diff_trees-IsSound hash_bytes order blobs st old new changes h =
    diff_trees_inner-Sound hash_bytes order blobs old new max_diff_iters st changes h
