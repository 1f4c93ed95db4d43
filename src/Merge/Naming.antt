-- ===== src/Merge/Naming.antt =====
-- src/merge.rs: the names of conflict copies.
use lunar_fs.Base.{
  zero, suc, ◌≡◌, refl, not, none, some, [], ◌++◌, Bytes, take, drop, Outcome, ok, assert,
}
use lunar_fs.Base.Text.{ascii, is_empty, rfind, slash}

-- `&path[..=i]` and `&path[i + 1..]` at the last '/'
unfoldable pub split_dir : Bytes → Bytes × Bytes
split_dir path = elim (rfind slash path) [
  | some i ↦ (take (suc i) path, drop (suc i) path)
  | none ↦ ([], path)
]

-- A dot at position 0 starts no extension.
unfoldable pub split_ext : Bytes → Bytes × Bytes
split_ext name = elim (rfind b'.' name) [
  | some zero ↦ (name, [])
  | some (suc i) ↦ (take (suc i) name, drop (suc i) name)
  | none ↦ (name, [])
]

unfoldable pub copy_name : Bytes → Bytes → Bytes
unfolding split_dir split_ext rfind
copy_name path suffix =
    let (dir, name) = split_dir path in
    let (stem, ext) = split_ext name in
    dir ++ (stem ++ (ascii " (conflicted copy " ++ (suffix ++ (ascii ")" ++ ext))))

unfoldable pub conflict_copy_path : Bytes → Bytes → Outcome ⊥ Bytes
unfolding is_empty
conflict_copy_path path suffix =
    assert (not (is_empty path)) (assert (not (is_empty suffix)) (ok (copy_name path suffix)))

abbrev test_suffix : Bytes
test_suffix = ascii "s"

with_extension :
    conflict_copy_path (ascii "dir/foo.txt") test_suffix
    ≡ ok (ascii "dir/foo (conflicted copy s).txt")
unfolding conflict_copy_path copy_name
with_extension = refl

hidden_file :
    conflict_copy_path (ascii ".hidden") test_suffix ≡ ok (ascii ".hidden (conflicted copy s)")
unfolding conflict_copy_path copy_name
hidden_file = refl
