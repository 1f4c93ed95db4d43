-- ===== src/Ids.antt =====
-- src/nfs/ids.rs: the numbers that stand for paths on the NFS side.
pub mod Bijection
pub mod Build
pub mod Subtree
pub mod Handles
use lunar_fs.Base.{
  ℕ, zero, suc, ◌+◌, ◌-◌, ◌≡◌, Bool, true, false, not, ◌&&◌, ◌||◌, Option, none, some, List, [],
  ◌∷◌, ◌++◌, Bytes, Outcome, ok, err, panic, ◌>>=◌, assert, ◌==◌, list_eq, nat_eq, contains, leb,
  ltb, length, take, drop, get_elem?, filter, if◌then◌else◌, ◌=ℕ=◌,
}
use lunar_fs.Base.Dict.{Dict, get, insert, keys, contains_key}
use lunar_fs.Base.Text.{is_empty, starts_with, strip_prefix, has_byte, slash}
use lunar_fs.Index.{Index}
use lunar_fs.Tree.{bytes_leb}
use lunar_fs.Fuse.Translate.{NodeKind, file, dir}

abbrev pub Node : Type 0
Node = Bytes × NodeKind

abbrev pub max_nodes : ℕ
max_nodes = 2_000_000

abbrev pub max_dynamic_nodes : ℕ
max_dynamic_nodes = 1_000_000

pub record DynamicMaps : Type 0 where
  pub next_id : ℕ
  pub id_to_node : Dict ℕ Node
  pub path_to_id : Dict Bytes ℕ
  pub tombstones : List Bytes

pub record IdTable : Type 0 where
  pub base_id_to_node : List Node
  pub base_path_to_id : Dict Bytes ℕ
  pub dyn_maps : DynamicMaps

-- Nothing here fails but by a panic.
pub data Never : Type 0 where

-- `entry(path).or_insert(kind)`, and the cap that is asserted after it.
unfoldable pub or_insert :
    Dict Bytes NodeKind → Bytes → NodeKind → Outcome Never (Dict Bytes NodeKind)
or_insert nodes path kind =
    let nodes' = if contains_key nodes path then nodes else insert nodes path kind in
    assert (leb (length nodes') max_nodes) (ok nodes')

-- The directories above a file: the part of its path before each slash. `before` is the part that
-- the loop has passed.
unfoldable pub add_ancestors :
    Bytes → Bytes → Dict Bytes NodeKind → Outcome Never (Dict Bytes NodeKind)
unfolding or_insert
add_ancestors before [] nodes = ok nodes
add_ancestors before (c ∷ after) nodes =
    (if c =ℕ= slash then or_insert nodes before dir else ok nodes) >>= λ nodes'.
    add_ancestors (before ++ (c ∷ [])) after nodes'

unfoldable pub add_files :
    ℕ → List Bytes → Dict Bytes NodeKind → Outcome Never (Dict Bytes NodeKind)
unfolding add_ancestors or_insert
add_files count [] nodes = ok nodes
add_files count (path ∷ rest) nodes = assert (leb (suc count) 65_536) (
    assert (leb (length path) 4096) (
      add_ancestors [] path nodes >>= λ nodes'.
      or_insert nodes' path file >>= λ nodes''. add_files (suc count) rest nodes''))

unfoldable pub insert_node : Node → List Node → List Node
insert_node n [] = n ∷ []
insert_node n (m ∷ rest) =
    let later = insert_node n rest in if bytes_leb n.0 m.0 then n ∷ m ∷ rest else m ∷ later

unfoldable pub sort_nodes : List Node → List Node
unfolding insert_node
sort_nodes [] = []
sort_nodes (n ∷ rest) = insert_node n (sort_nodes rest)

-- The loop that numbers the sorted paths, from 1.
unfoldable pub number : ℕ → List Node → Dict Bytes ℕ → Dict Bytes ℕ
number idx [] ids = ids
number idx ((path, kind) ∷ rest) ids = number (suc idx) rest (insert ids path (idx + 1))

-- The table of a sorted list of nodes.
unfoldable pub table_of : List Node → IdTable
unfolding number
table_of sorted = record {
  base_id_to_node = sorted;
  base_path_to_id = number 0 sorted [];
  dyn_maps = record {
    next_id = length sorted + 1;
    id_to_node = [];
    path_to_id = [];
    tombstones = [];
  };
}

unfoldable pub build : Index → Outcome Never IdTable
unfolding add_files sort_nodes table_of
build index =
    add_files 0 (keys index) (insert [] [] dir) >>= λ nodes. ok (table_of (sort_nodes nodes))

abbrev pub root : ℕ
root = 1

-- The node of a number, tombstones aside: the dynamic range first, then the base range.
unfoldable pub node_at : IdTable → ℕ → Option Node
node_at t zero = none
node_at t (suc idx) = elim (get t.dyn_maps.id_to_node (suc idx)) [
  | some node ↦ some node
  | none ↦ get_elem? t.base_id_to_node idx
]

unfoldable pub is_hidden : IdTable → Bytes → Bool
is_hidden t path = contains t.dyn_maps.tombstones path

unfoldable pub path_of : IdTable → ℕ → Option Node
path_of t id = elim (node_at t id) [
  | none ↦ none
  | some (path, kind) ↦ if is_hidden t path then none else some (path, kind)
]

-- The number of a path, tombstones aside: that of the base, then the dynamic one.
unfoldable pub number_of : IdTable → Bytes → Option ℕ
number_of t path = elim (get t.base_path_to_id path) [
  | some id ↦ some id
  | none ↦ get t.dyn_maps.path_to_id path
]

unfoldable pub id_of : IdTable → Bytes → Option ℕ
id_of t path = if is_hidden t path then none else number_of t path

unfoldable pub untombstone : Bytes → List Bytes → List Bytes
untombstone path tombstones = filter (λ q. not (q == path)) tombstones

unfoldable pub tombstone : Bytes → List Bytes → List Bytes
tombstone path tombstones = if contains tombstones path then tombstones else path ∷ tombstones

abbrev pub with_tombstones : IdTable → List Bytes → IdTable
with_tombstones t tombstones = record {
  base_id_to_node = t.base_id_to_node;
  base_path_to_id = t.base_path_to_id;
  dyn_maps = record {
    next_id = t.dyn_maps.next_id;
    id_to_node = t.dyn_maps.id_to_node;
    path_to_id = t.dyn_maps.path_to_id;
    tombstones = tombstones;
  };
}

-- A fresh number for a path.
unfoldable pub allocate : IdTable → Bytes → NodeKind → IdTable
allocate t path kind =
    let m = t.dyn_maps in
    record {
      base_id_to_node = t.base_id_to_node;
      base_path_to_id = t.base_path_to_id;
      dyn_maps = record {
        next_id = m.next_id + 1;
        id_to_node = insert m.id_to_node m.next_id (path, kind);
        path_to_id = insert m.path_to_id path m.next_id;
        tombstones = m.tombstones;
      };
    }

unfoldable pub intern : IdTable → Bytes → NodeKind → Outcome Never (ℕ × IdTable)
intern t path kind = assert (leb (length path) 4096) (
    let shown = with_tombstones t (untombstone path t.dyn_maps.tombstones) in
    elim (number_of shown path) [
      | some id ↦ ok (id, shown)
      | none ↦
          assert (ltb (length t.dyn_maps.id_to_node) max_dynamic_nodes)
            (assert (ltb 0 t.dyn_maps.next_id) (ok (t.dyn_maps.next_id, allocate shown path kind)))
    ])

unfoldable pub forget : IdTable → Bytes → Outcome Never IdTable
forget t path =
    assert (leb (length path) 4096) (ok (with_tombstones t (tombstone path t.dyn_maps.tombstones)))

-- The tombstone of the old path and the number of the new one, in one critical section:
-- `intern_in_lock` does what `intern` does, and drops the number.
unfoldable pub swap_path : IdTable → Bytes → Bytes → NodeKind → Outcome Never IdTable
unfolding intern
swap_path t old new_path kind =
    intern (with_tombstones t (tombstone old t.dyn_maps.tombstones)) new_path kind >>= λ (id, t').
    ok t'

unfoldable pub rename_path : IdTable → Bytes → Bytes → NodeKind → Outcome Never IdTable
unfolding swap_path
rename_path t old new_path kind =
    assert (leb (length old) 4096)
      (assert (leb (length new_path) 4096) (swap_path t old new_path kind))
