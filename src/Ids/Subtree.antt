-- ===== src/Ids/Subtree.antt =====
-- src/nfs/ids.rs, on directories: the renaming of all that lies below one, and the children that
-- were made while mounted.
use lunar_fs.Base.{
  ℕ, ◌-◌, Bool, false, not, ◌&&◌, ◌||◌, Option, none, some, List, [], ◌∷◌, ◌++◌, Bytes, Outcome, ok,
  panic, ◌>>=◌, assert, ◌==◌, list_eq, nat_eq, leb, length, drop, get_elem?, if◌then◌else◌,
}
use lunar_fs.Base.Dict.{Dict, keys}
use lunar_fs.Base.Text.{is_empty, starts_with, strip_prefix, has_byte}
use lunar_fs.Base.Text
use lunar_fs.Fuse.Translate.{NodeKind, file, dir, below}
use lunar_fs.Ids.{Node, IdTable, Never, swap_path, is_hidden}

pub record Renaming : Type 0 where
  pub old_path : Bytes
  pub new_path : Bytes
  pub kind : NodeKind

-- The directory itself, or a path below it.
unfoldable pub is_within : Bytes → Bytes → Bool
is_within prefix path = (path == prefix) || starts_with path (below prefix)

abbrev pub moved : Bytes → Bytes → Bytes → Bytes
moved old_prefix new_prefix path = new_prefix ++ drop (length old_prefix) path

-- The renamings of the base paths; an index out of the base's range panics.
unfoldable pub base_renames : IdTable → Bytes → Bytes → Dict Bytes ℕ → Outcome Never (List Renaming)
unfolding is_within
base_renames t old_prefix new_prefix [] = ok []
base_renames t old_prefix new_prefix ((path, id) ∷ rest) =
    let later = base_renames t old_prefix new_prefix rest in
    let to = moved old_prefix new_prefix path in
    if not (is_within old_prefix path)
    then later
    else if not (leb (length to) 4096)
    then later
    else elim (get_elem? t.base_id_to_node (id - 1)) [
      | none ↦ panic
      | some node ↦ later >>= λ renames.
          ok (record { old_path = path; new_path = to; kind = node.1 } ∷ renames)
    ]

-- `id_to_node.values().find(|(path, _)| path == p)`
unfoldable pub kind_at : Dict ℕ Node → Bytes → Option NodeKind
kind_at [] p = none
kind_at ((id, (path, kind)) ∷ rest) p = if path == p then some kind else kind_at rest p

unfoldable pub dyn_snapshot : Dict ℕ Node → Bytes → List Bytes → List Node
unfolding is_within kind_at
dyn_snapshot nodes old_prefix [] = []
dyn_snapshot nodes old_prefix (p ∷ rest) =
    let later = dyn_snapshot nodes old_prefix rest in
    if is_within old_prefix p
    then elim (kind_at nodes p) [ none ↦ later | some kind ↦ (p, kind) ∷ later ]
    else later

unfoldable pub renames_from : Bytes → List Renaming → Bool
renames_from path [] = false
renames_from path (r ∷ rest) = (r.old_path == path) || renames_from path rest

unfoldable pub add_dynamic : Bytes → Bytes → List Node → List Renaming → List Renaming
unfolding renames_from
add_dynamic old_prefix new_prefix [] renames = renames
add_dynamic old_prefix new_prefix ((path, kind) ∷ rest) renames =
    let to = moved old_prefix new_prefix path in
    let grown = renames ++ (record { old_path = path; new_path = to; kind = kind } ∷ []) in
    add_dynamic old_prefix new_prefix rest (
      if renames_from path renames
      then renames
      else if leb (length to) 4096
      then grown
      else renames)

unfoldable pub apply_renames : List Renaming → IdTable → Outcome Never IdTable
apply_renames [] t = ok t
apply_renames (r ∷ rest) t =
    swap_path t r.old_path r.new_path r.kind >>= λ t'. apply_renames rest t'

-- `base_order` and `dyn_order` are the two maps' entries and keys in the order in which the
-- `HashMap`s give them, which is not specified.
unfoldable pub rename_subtree :
    (Dict Bytes ℕ → Dict Bytes ℕ)
    → (List Bytes → List Bytes)
    → IdTable
    → Bytes
    → Bytes
    → Outcome Never IdTable
unfolding base_renames dyn_snapshot add_dynamic apply_renames
rename_subtree base_order dyn_order t old_prefix new_prefix =
    assert (leb (length old_prefix) 4096) (
      assert (leb (length new_prefix) 4096) (
        base_renames t old_prefix new_prefix (base_order t.base_path_to_id) >>= λ renames.
        apply_renames
          (add_dynamic old_prefix new_prefix
            (dyn_snapshot t.dyn_maps.id_to_node old_prefix (dyn_order (keys t.dyn_maps.path_to_id)))
            renames)
          t))

-- What is left of a path below a parent; the root has every path below it.
abbrev pub rest_below : Bytes → Bytes → Option Bytes
rest_below parent path = if is_empty parent then some path else strip_prefix path (below parent)

unfoldable pub is_child : Bytes → Bytes → Bool
is_child parent path = elim (rest_below parent path) [
  | none ↦ false
  | some rest ↦ not (is_empty rest) && not (has_byte Text.slash rest)
]

unfoldable pub children_in : IdTable → Bytes → Dict ℕ Node → List Node
unfolding is_child
children_in t parent [] = []
children_in t parent ((id, (path, file)) ∷ rest) = children_in t parent rest
children_in t parent ((id, (path, dir)) ∷ rest) =
    let later = children_in t parent rest in
    if is_hidden t path then later else if is_child parent path then (path, dir) ∷ later else later

unfoldable pub dynamic_dir_children_of : IdTable → Bytes → List Node
unfolding children_in
dynamic_dir_children_of t parent = children_in t parent t.dyn_maps.id_to_node
