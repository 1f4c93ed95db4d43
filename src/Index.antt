-- ===== src/Index.antt =====
-- src/index.rs: the files of a tree, by path, with hash and length.
pub mod Walks
use lunar_fs.Base.{
  ℕ, zero, suc, ◌+◌, ◌≡◌, Bool, true, false, Option, none, some, List, [], ◌∷◌, ◌++◌, Bytes,
  Outcome, ok, err, panic, ◌>>=◌, ok_or, list_eq, nat_eq, ◌=ℕ=◌, length, if◌then◌else◌, map,
}
use mathlib.Core.Option
use lunar_fs.Base.Dict.{Dict, get, insert}
use lunar_fs.Base.Text.{is_empty, slash}
use lunar_fs.Cas.{Hash, IoError, Store}
use lunar_fs.Tree.{TreeEntry, deserialize_tree, mode_dir}

abbrev pub Index : Type 0
Index = Dict Bytes (Hash × ℕ)

-- `format!("{}/{}", prefix, name)`, or the name at the root.
abbrev pub join : Bytes → Bytes → Bytes
join prefix name = if is_empty prefix then name else prefix ++ (slash ∷ name)

abbrev pub Stack : Type 0
Stack = List (Hash × Bytes)

module _ (S : Store) where
  unfoldable pub fetch : S.State → Hash → Outcome IoError (Bytes × S.State)
  fetch st hash =
      S.get st hash >>= λ (found, st'). ok_or found IoError.not_found >>= λ b. ok (b, st')

  -- The loop over the entries of one tree: directories are pushed, files are indexed.
  unfoldable pub add_entries :
      Bytes → List TreeEntry → Stack → Index → S.State → Outcome IoError (Stack × (Index × S.State))
  unfolding fetch is_empty
  add_entries prefix [] stack index st = ok (stack, (index, st))
  add_entries prefix (e ∷ rest) stack index st =
      let descend = add_entries prefix rest ((e.hash, join prefix e.name) ∷ stack) index st in
      let file = fetch st e.hash >>= λ (blob, st').
      add_entries prefix rest stack (insert index (join prefix e.name) (e.hash, length blob)) st' in
      if e.mode =ℕ= mode_dir then descend else file

  -- The walk, with the number of trees that it may still visit. The stack's top is the head.
  unfoldable pub walk : ℕ → Stack → Index → S.State → Outcome IoError (Index × S.State)
  unfolding add_entries
  walk iters [] index st = ok (index, st)
  walk zero (top ∷ stack) index st = err IoError.other
  walk (suc iters) ((tree_hash, prefix) ∷ stack) index st = fetch st tree_hash >>= λ (blob, st').
      deserialize_tree blob >>= λ entries.
      add_entries prefix entries stack index st' >>= λ (stack', (index', st'')).
      walk iters stack' index' st''

  unfoldable pub build : S.State → Hash → Outcome IoError (Index × S.State)
  unfolding walk
  build st root = walk 65_536 ((root, []) ∷ []) [] st

unfoldable pub lookup : Index → Bytes → Option Hash
lookup index path = elim (get index path) [ none ↦ none | some (hash, size) ↦ some hash ]

unfoldable pub lookup_size : Index → Bytes → Option ℕ
lookup_size index path = elim (get index path) [ none ↦ none | some (hash, size) ↦ some size ]

unfoldable pub lookup_entry : Index → Bytes → Option (Hash × ℕ)
lookup_entry index path = get index path
