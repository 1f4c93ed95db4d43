-- ===== src/Patch/Trees.antt =====
-- src/patch.rs: the changes between two trees.
-- The order in which the `HashMap`s give their names is not specified: `order`, on the names.
use lunar_fs.Base.{
  ℕ, zero, suc, Bool, false, not, Option, none, some, List, [], ◌∷◌, ◌++◌, Bytes, Outcome, ok, err,
  panic, ◌>>=◌, assert, ◌==◌, list_eq, nat_eq, leb, ◌=ℕ=◌, length, filter, if◌then◌else◌,
}
use lunar_fs.Base.Dict.{Dict, get, insert, keys, contains_key}
use lunar_fs.Base.Text.{is_empty, starts_with, slash}
use lunar_fs.Cas.{Hash, IoError, Store}
use lunar_fs.Tree.{TreeEntry, deserialize_tree, mode_dir}
use lunar_fs.Patch.{
  PatchError, missing, bad_tree, too_deep, from_store, max_entries, bytes_of, append_file_diff,
  hex_of,
}

pub data ChangeKind : Type 0 where
  added modified deleted : ChangeKind

pub record Change : Type 0 where
  pub path : Bytes
  pub kind : ChangeKind
  pub old_size : Option ℕ
  pub new_size : Option ℕ
  pub old_blob : Option Hash
  pub new_blob : Option Hash

pub data WorkItem : Type 0 where
  diff : Bytes → Hash → Hash → WorkItem
  add_all : Bytes → Hash → WorkItem
  delete_all : Bytes → Hash → WorkItem

abbrev pub ends_in_slash : Bytes → Bool
ends_in_slash [] = false
ends_in_slash (c ∷ []) = c =ℕ= slash
ends_in_slash (c ∷ d ∷ s) = ends_in_slash (d ∷ s)

-- `PathBuf::join`, on Unix.
unfoldable pub join_path : Bytes → Bytes → Bytes
join_path prefix name =
    if starts_with name (slash ∷ [])
    then name
    else if is_empty prefix
    then name
    else if ends_in_slash prefix
    then prefix ++ name
    else prefix ++ (slash ∷ name)

abbrev pub max_diff_iters : ℕ
max_diff_iters = 262_144

abbrev pub is_dir : TreeEntry → Bool
is_dir e = e.mode =ℕ= mode_dir

-- `into_iter().map(..).collect()`: of entries with one name the last stays.
unfoldable pub by_name : Dict Bytes TreeEntry → List TreeEntry → Dict Bytes TreeEntry
by_name entries [] = entries
by_name entries (e ∷ rest) = by_name (insert entries e.name e) rest

abbrev pub entry_error : Outcome IoError (List TreeEntry) → Outcome PatchError (List TreeEntry)
entry_error (ok es) = ok es
entry_error (err e) = err bad_tree
entry_error panic = panic

-- The stack (its top is the head), and the changes so far.
abbrev pub Progress : Type 0
Progress = List WorkItem × List Change

abbrev pub pushed : WorkItem → Progress → Progress
pushed item (stack, changes) = (item ∷ stack, changes)

abbrev pub changed : Change → Progress → Progress
changed c (stack, changes) = (stack, changes ++ (c ∷ []))

abbrev pub added_blob : Bytes → Hash → ℕ → Change
added_blob path hash size = record {
  path = path;
  kind = added;
  old_size = none;
  new_size = some size;
  old_blob = none;
  new_blob = some hash;
}

abbrev pub deleted_blob : Bytes → Hash → ℕ → Change
deleted_blob path hash size = record {
  path = path;
  kind = deleted;
  old_size = some size;
  new_size = none;
  old_blob = some hash;
  new_blob = none;
}

abbrev pub modified_blob : Bytes → Hash → Hash → ℕ → ℕ → Change
modified_blob path old new old_size new_size = record {
  path = path;
  kind = modified;
  old_size = some old_size;
  new_size = some new_size;
  old_blob = some old;
  new_blob = some new;
}

module _ (S : Store) (order : List Bytes → List Bytes) where
  -- `CasLoader::load_tree`
  unfoldable pub load_tree : S.State → Hash → Outcome PatchError (List TreeEntry × S.State)
  load_tree st hash = from_store (S.get st hash) >>= λ (found, st'). elim found [
    | none ↦ err missing
    | some b ↦ entry_error (deserialize_tree b) >>= λ entries. ok (entries, st')
  ]

  -- `CasLoader::blob_size`
  unfoldable pub blob_size : S.State → Hash → Outcome PatchError (ℕ × S.State)
  blob_size st hash = from_store (S.get st hash) >>= λ (found, st'). elim found [
    | none ↦ err missing
    | some b ↦ ok (length b, st')
  ]

  abbrev pub Step : Type 0
  Step = Outcome PatchError (Progress × S.State)

  -- A path that only the new side has, and one that only the old side has.
  unfoldable pub add_entry : Bytes → TreeEntry → Progress → S.State → Step
  unfolding blob_size
  add_entry path e p st =
      if is_dir e
      then ok (pushed (add_all path e.hash) p, st)
      else (blob_size st e.hash >>= λ (size, st').
          ok (changed (added_blob path e.hash size) p, st'))

  unfoldable pub delete_entry : Bytes → TreeEntry → Progress → S.State → Step
  unfolding blob_size
  delete_entry path e p st =
      if is_dir e
      then ok (pushed (delete_all path e.hash) p, st)
      else (blob_size st e.hash >>= λ (size, st').
          ok (changed (deleted_blob path e.hash size) p, st'))

  -- A path that both sides have, with different hashes.
  unfoldable pub modify_entry : Bytes → TreeEntry → TreeEntry → Progress → S.State → Step
  unfolding blob_size
  modify_entry path old new p st =
      if is_dir old
      then (if is_dir new
          then ok (pushed (diff path old.hash new.hash) p, st)
          else (blob_size st new.hash >>= λ (size, st').
              ok (
                changed (added_blob path new.hash size) (pushed (delete_all path old.hash) p),
                st',
              )))
      else (if is_dir new
          then (blob_size st old.hash >>= λ (size, st').
              ok
                (pushed (add_all path new.hash) (changed (deleted_blob path old.hash size) p), st'))
          else (blob_size st old.hash >>= λ (old_size, st').
              blob_size st' new.hash >>= λ (new_size, st'').
              ok (changed (modified_blob path old.hash new.hash old_size new_size) p, st'')))

  unfoldable pub both_entry : Bytes → TreeEntry → TreeEntry → Progress → S.State → Step
  unfolding modify_entry
  both_entry path old new p st =
      if (old.hash == new.hash) then ok (p, st) else modify_entry path old new p st

  -- What a name of the two maps comes to, as the loops visit it: `names` are in the order of the
  -- three loops.
  unfoldable pub visit :
      Bytes → Bytes → Option TreeEntry → Option TreeEntry → Progress → S.State → Step
  unfolding add_entry delete_entry both_entry
  visit prefix name (some old) (some new) p st = both_entry (join_path prefix name) old new p st
  visit prefix name (some old) none p st = delete_entry (join_path prefix name) old p st
  visit prefix name none (some new) p st = add_entry (join_path prefix name) new p st
  visit prefix name none none p st = ok (p, st)

  unfoldable pub visit_names :
      Bytes → Dict Bytes TreeEntry → Dict Bytes TreeEntry → List Bytes → Progress → S.State → Step
  unfolding visit
  visit_names prefix olds news [] p st = ok (p, st)
  visit_names prefix olds news (name ∷ rest) p st =
      visit prefix name (get olds name) (get news name) p st >>= λ (p', st').
      visit_names prefix olds news rest p' st'

  -- The names on both sides, then those of the old side alone, then those of the new side alone.
  abbrev pub loop_names : Dict Bytes TreeEntry → Dict Bytes TreeEntry → List Bytes
  loop_names olds news =
      filter (contains_key news) (order (keys olds))
      ++ (filter (λ n. not (contains_key news n)) (order (keys olds))
          ++ filter (λ n. not (contains_key olds n)) (order (keys news)))

  unfoldable pub diff_level : Bytes → Hash → Hash → Progress → S.State → Step
  unfolding load_tree visit_names
  diff_level prefix old new p st =
      if (old == new)
      then ok (p, st)
      else (load_tree st old >>= λ (old_entries, st'). load_tree st' new >>= λ (new_entries, st'').
          assert (leb (length old_entries) 65_536) (
            assert (leb (length new_entries) 65_536) (
              let olds = by_name [] old_entries in
              let news = by_name [] new_entries in
              visit_names prefix olds news (loop_names olds news) p st'')))

  -- The loops of `AddAll` and `DeleteAll`.
  unfoldable pub add_entries : Bytes → List TreeEntry → Progress → S.State → Step
  unfolding add_entry
  add_entries prefix [] p st = ok (p, st)
  add_entries prefix (e ∷ rest) p st =
      add_entry (join_path prefix e.name) e p st >>= λ (p', st'). add_entries prefix rest p' st'

  unfoldable pub delete_entries : Bytes → List TreeEntry → Progress → S.State → Step
  unfolding delete_entry
  delete_entries prefix [] p st = ok (p, st)
  delete_entries prefix (e ∷ rest) p st =
      delete_entry (join_path prefix e.name) e p st >>= λ (p', st').
      delete_entries prefix rest p' st'

  unfoldable pub step : WorkItem → Progress → S.State → Step
  unfolding diff_level add_entries delete_entries
  step (diff prefix old new) p st = diff_level prefix old new p st
  step (add_all prefix hash) p st =
      load_tree st hash >>= λ (entries, st'). add_entries prefix entries p st'
  step (delete_all prefix hash) p st =
      load_tree st hash >>= λ (entries, st'). delete_entries prefix entries p st'

  -- The loop over the stack, with the number of items that it may still take.
  unfoldable pub diff_loop :
      ℕ → List WorkItem → List Change → S.State → Outcome PatchError (List Change × S.State)
  unfolding step
  diff_loop iters [] changes st = ok (changes, st)
  diff_loop zero (item ∷ stack) changes st = err too_deep
  diff_loop (suc iters) (item ∷ stack) changes st =
      step item (stack, changes) st >>= λ ((stack', changes'), st').
      diff_loop iters stack' changes' st'

  -- `diff_trees_inner`, with the number of items of the stack that it may take.
  unfoldable pub diff_trees_inner :
      ℕ → S.State → Hash → Hash → Outcome PatchError (List Change × S.State)
  unfolding diff_loop
  diff_trees_inner iters st old_root new_root =
      if (old_root == new_root)
      then ok ([], st)
      else diff_loop iters (diff [] old_root new_root ∷ []) [] st

  abbrev pub diff_trees : S.State → Hash → Hash → Outcome PatchError (List Change × S.State)
  diff_trees st old_root new_root = diff_trees_inner max_diff_iters st old_root new_root

-- The loop of `render_patch`.
unfoldable pub render_changes :
    (Bytes → Bytes)
    → (S : Store) → S.State
    → Bytes
    → List Change
    → Outcome PatchError (Bytes × S.State)
unfolding bytes_of append_file_diff
render_changes lossy S st out [] = ok (out, st)
render_changes lossy S st out (c ∷ rest) = bytes_of lossy S st c.old_blob >>= λ (old_bytes, st').
    bytes_of lossy S st' c.new_blob >>= λ (new_bytes, st'').
    append_file_diff lossy out (lossy c.path) (hex_of c.old_blob) (hex_of c.new_blob) old_bytes
      new_bytes
    >>= λ out'. render_changes lossy S st'' out' rest

unfoldable pub render_patch :
    (Bytes → Bytes) → (S : Store) → S.State → List Change → Outcome PatchError (Bytes × S.State)
unfolding render_changes
render_patch lossy S st changes =
    assert (leb (length changes) max_entries) (render_changes lossy S st [] changes)
