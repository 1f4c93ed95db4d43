-- ===== src/Tests/Merging.antt =====
-- Merges, races and reconciles of small snapshots.
use lunar_fs.Base.{
  ℕ, ◌≡◌, refl, sym, ◌∙◌, ap, Bool, false, ◌||◌, none, some, List, [], ◌∷◌, Bytes, ok, arith,
  filter, pair_eq, list_eq, nat_eq, list_dec, ◌==◌,
}
use lunar_fs.Base.Dict.{get, insert, remove, contains_key, contains-keys}
use lunar_fs.Base.Text.{ascii, is_empty}
use lunar_fs.Merge.{
  present, state_dec, Snapshot, MergeResult, merge_snapshots, copy_name, state_at, take_winner,
  conflict_copy,
}
use lunar_fs.Merge.Paths.{Lists, merge_snapshots-get, merge_snapshots_total, merged_state, entry}
use lunar_fs.Merge.Copies.{conflicted_at, merge_snapshots-conflicts, merge_snapshots-keeps_edit}
use lunar_fs.RefAdvance.{Refs, mem_ref_store, mem_ref_store-IsAtomic, advance, swap, read}
use lunar_fs.Reconcile.{reconcile}
use lunar_fs.Reconcile.Snapshots.{
  MemSnapshots, mem_snapshot_store, mem_snapshot_store-IsLawful, fetch,
}
use lunar_fs.Reconcile.Safety.{Keeps, Swung, reconcile-Swung}
use lunar_fs.Reconcile.Progress.{
  alone, next_id, published, IsPublished, reconcile-published, reconcile-alone,
}
use lunar_fs.RefAdvance.Races.{race, race_has_one_winner}

abbrev path_a : Bytes
path_a = ascii "a"

abbrev path_b : Bytes
path_b = ascii "b"

abbrev old : Snapshot
old = (path_a, present (ascii "0")) ∷ []

abbrev theirs : Snapshot
theirs = (path_a, present (ascii "1")) ∷ (path_b, present (ascii "3")) ∷ []

abbrev ours : Snapshot
ours = (path_a, present (ascii "2")) ∷ []

abbrev tag : Bytes
tag = ascii "me"

abbrev visited : List Bytes
visited = path_a ∷ path_b ∷ []

-- What comes of it: the winner's files, and a copy of the local edit.
abbrev merged_result : MergeResult
merged_result = record {
  merged =
      (path_b, present (ascii "3"))
      ∷ (ascii "a (conflicted copy me)", present (ascii "2"))
      ∷ (path_a, present (ascii "1"))
      ∷ [];
  outcomes =
      record { path = path_a; action = conflict_copy (ascii "a (conflicted copy me)") }
      ∷ record { path = path_b; action = take_winner }
      ∷ [];
  conflicts = path_a ∷ [];
}

merges : merge_snapshots old theirs ours tag visited ≡ ok merged_result
unfolding merge_snapshots state_dec list_dec insert remove get copy_name is_empty
    native.Mathlib.Decide.ℕ_discrete
merges = refl

either :
    (x y : Bool) → (x || (y || false)) ≡ ((x || false) || ((x || (y || false)) || (x || false)))
either x y = ground arith

visited-Lists : Lists old theirs ours visited
visited-Lists p =
    either (p == path_a) (p == path_b)
    ∙ rw (contains-keys old p, contains-keys theirs p)
        (ap (λ b. contains_key old p || (contains_key theirs p || b))
          (sym (contains-keys old p) ∙ contains-keys ours p))

merge_snapshots-get_example :
    get merged_result.merged path_b
    ≡ entry
        (merged_state (state_at old path_b) (state_at theirs path_b) (state_at ours path_b))
        none
unfolding copy_name
merge_snapshots-get_example =
    merge_snapshots-get old theirs ours tag visited path_b merged_result visited-Lists
      ((λ h. cc), ((λ h. cc), tt)) merges

merge_snapshots_total_example :
    (r : MergeResult) × (merge_snapshots old theirs ours tag visited ≡ ok r)
merge_snapshots_total_example =
    merge_snapshots_total old theirs ours tag (λ h. cc) visited ((λ h. cc), ((λ h. cc), tt))
      (omega arith)

merge_snapshots-conflicts_example :
    merged_result.conflicts ≡ filter (conflicted_at old theirs ours tag) visited
merge_snapshots-conflicts_example =
    merge_snapshots-conflicts old theirs ours tag visited merged_result merges

merge_snapshots-keeps_edit_example :
    get merged_result.merged (copy_name path_a tag) ≡ some (present (ascii "2"))
unfolding get list_dec state_dec copy_name native.Mathlib.Decide.ℕ_discrete
merge_snapshots-keeps_edit_example =
    merge_snapshots-keeps_edit old theirs ours tag visited path_a (ascii "2") merged_result refl
      refl refl refl ((λ h. refl), ((λ h. cc), tt)) merges

abbrev main_ref : Bytes
main_ref = ascii "main"

abbrev refs_0 : Refs
refs_0 = (main_ref, ascii "r0") ∷ []

abbrev refs_1 : Refs
refs_1 = (main_ref, ascii "r1") ∷ []

one_wins : race main_ref (some (ascii "r0")) (ascii "r1" ∷ ascii "r2" ∷ []) refs_0 ≡ ok (1, refs_1)
unfolding race advance swap get insert remove list_dec is_empty native.Mathlib.Decide.ℕ_discrete
one_wins = refl

race_has_one_winner_example : (◌≡◌ {A = ℕ} 1 1) × (get refs_1 main_ref ≡ some (ascii "r1"))
unfolding get list_dec native.Mathlib.Decide.ℕ_discrete
race_has_one_winner_example =
    race_has_one_winner main_ref (some (ascii "r0")) (ascii "r1") (ascii "r2" ∷ []) refs_0 refs_1 1
      refl (λ h. ground arith) one_wins

abbrev refs_2 : Refs
refs_2 = (main_ref, ascii "r2") ∷ []

two_win : race main_ref (some (ascii "r0")) (ascii "r0" ∷ ascii "r2" ∷ []) refs_0 ≡ ok (2, refs_2)
unfolding race advance swap get insert remove list_dec is_empty native.Mathlib.Decide.ℕ_discrete
two_win = refl

-- The same merge, published: the winner is under "r0", the base under "r9".
abbrev stores : Refs × MemSnapshots
stores = (refs_0, record { snaps = (ascii "r0", theirs) ∷ (ascii "r9", old) ∷ []; counter = 0 })

abbrev fixed_order : Snapshot → Snapshot → Snapshot → List Bytes
fixed_order base winner local_side = visited

abbrev the_root : Bytes
the_root = next_id stores.1

abbrev the_stores : Refs × MemSnapshots
the_stores = published fixed_order main_ref tag ours merged_result.merged stores

reconcile-alone_example :
    (w' : Refs × MemSnapshots) × (reconcile mem_ref_store mem_snapshot_store alone fixed_order
        main_ref tag ours
        (ascii "r9")
        3
        stores
      ≡ ok (the_root, w'))
    × IsPublished fixed_order main_ref tag ours merged_result.merged the_root stores w'
unfolding get list_dec native.Mathlib.Decide.ℕ_discrete fetch read is_empty
reconcile-alone_example =
    reconcile-alone fixed_order main_ref tag ours 3 old theirs merged_result (ascii "r9")
      (ascii "r0") stores (λ h. cc) (λ h. cc) (λ h. cc) (λ h. cc) (omega arith) (omega arith) refl
      refl refl merges

reconciles :
    reconcile mem_ref_store mem_snapshot_store alone fixed_order main_ref tag ours
      (ascii "r9")
      3
      stores
    ≡ ok (the_root, the_stores)
unfolding get list_dec native.Mathlib.Decide.ℕ_discrete
reconciles =
    reconcile-published fixed_order main_ref tag ours 3 old theirs merged_result (ascii "r9")
      (ascii "r0") stores (λ h. cc) (λ h. cc) (λ h. cc) (λ h. cc) (omega arith) (omega arith) refl
      refl refl merges

alone-Keeps : Keeps mem_ref_store mem_snapshot_store alone
alone-Keeps p n w root x h = h

reconcile-Swung_example :
    (base : Snapshot) × (fetch stores.1 (ascii "r9") ≡ ok (some base))
    × Swung mem_ref_store mem_snapshot_store alone fixed_order main_ref tag ours base 3 the_root
        stores the_stores
reconcile-Swung_example =
    reconcile-Swung mem_ref_store mem_snapshot_store alone fixed_order main_ref tag ours
      mem_ref_store-IsAtomic mem_snapshot_store-IsLawful alone-Keeps (ascii "r9") 3 stores
      the_stores the_root reconciles
