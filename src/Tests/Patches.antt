-- ===== src/Tests/Patches.antt =====
-- Two small trees, and a blob of two lines.
use lunar_fs.Base.{
  ◌≡◌, refl, sym, ap, ◌∙◌, false, List, [], ◌∷◌, ◌++◌, Bytes, Outcome, ok, All, list_eq, nat_eq,
  list_dec, none, some,
}
use lunar_fs.Base.Text.{ascii, has_byte}
use lunar_fs.Cas.{Hash, Blobs, mem_store}
use lunar_fs.Patch.{newline, split_lines, raw_lines}
use lunar_fs.Patch.Lines.{join_lines, last_newline, split_lines_rejoin}
use lunar_fs.Patch.Trees.{Change, added_blob, diff_trees}
use lunar_fs.Patch.Sides.{IsSound}
use lunar_fs.Patch.Changes.{diff_trees-IsSound}
use lunar_fs.Tests.Agents.{hi, hash_of_hi, marked}

abbrev empty_tree : Hash
empty_tree = ascii "e"

abbrev new_tree : Hash
new_tree = ascii "n"

abbrev new_tree_bytes : Bytes
new_tree_bytes = (164 ∷ 129 ∷ 0 ∷ 0 ∷ 1 ∷ 0 ∷ 0 ∷ 0 ∷ b'f' ∷ []) ++ hash_of_hi

abbrev trees : Blobs
trees = (empty_tree, []) ∷ (new_tree, new_tree_bytes) ∷ (hash_of_hi, hi) ∷ []

abbrev one_added : List Change
one_added = added_blob (ascii "f") hash_of_hi 2 ∷ []

differs :
    diff_trees (mem_store marked) (λ names. names) trees empty_tree new_tree ≡ ok (one_added, trees)
unfolding lunar_fs.Patch.Trees.diff_trees_inner list_dec native.Mathlib.Decide.ℕ_discrete
    lunar_fs.Base.Dict.get lunar_fs.Tree.deserialize_tree lunar_fs.Tree.read_entries
    lunar_fs.Tree.read_entry lunar_fs.Tree.read_body lunar_fs.Tree.from_le_bytes
    lunar_fs.Tree.Utf8.utf8_valid lunar_fs.Base.filter lunar_fs.Patch.Trees.by_name
    lunar_fs.Base.Dict.insert lunar_fs.Patch.Trees.join_path lunar_fs.Base.Text.starts_with
    lunar_fs.Base.Text.is_empty
differs = refl

diff_trees-IsSound_example : All (IsSound trees empty_tree new_tree) one_added
diff_trees-IsSound_example =
    diff_trees-IsSound marked (λ names. names) trees trees empty_tree new_tree one_added differs

split_lines_rejoin_example :
    (join_lines (split_lines (λ l. l) (ascii "a\nb")).0
        ++ last_newline (split_lines (λ l. l) (ascii "a\nb")).1
      ≡ ascii "a\nb")
    × All (λ l. has_byte newline l ≡ false) (split_lines (λ l. l) (ascii "a\nb")).0
unfolding raw_lines
split_lines_rejoin_example = split_lines_rejoin (λ l. l) b'a' (ascii "\nb") (refl, (refl, tt))
