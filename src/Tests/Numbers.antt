-- ===== src/Tests/Numbers.antt =====
-- File numbers while files come and go.
use lunar_fs.Base.{
  ℕ, ◌≤◌, ◌≡◌, ◌⊎◌, refl, ◌≢◌, Bool, true, false, Option, none, some, List, [], ◌∷◌, Bytes, Outcome,
  ok, arith, length, list_eq, nat_eq, list_dec, ◌==◌, if◌then◌else◌,
}
use lunar_fs.Base.Text.{ascii}
use lunar_fs.Index.{Index}
use lunar_fs.Fuse.Translate.{file, dir}
use lunar_fs.Ids.{
  Node, IdTable, DynamicMaps, build, id_of, path_of, number_of, node_at, intern, forget,
  rename_path,
}
use lunar_fs.Ids.Bijection.{forgotten, done, next}
use lunar_fs.Ids.Handles.{IsConsistent, build-Steps, handle_stays, intern_keeps_kind}

abbrev pub a_file : Bytes
a_file = ascii "d/f"

abbrev pub mounted : Index
mounted = (a_file, (ascii "h", 4)) ∷ []

abbrev sorted_nodes : List Node
sorted_nodes = ([], dir) ∷ (ascii "d", dir) ∷ (a_file, file) ∷ []

abbrev pub table : IdTable
table = record {
  base_id_to_node = sorted_nodes;
  base_path_to_id = (a_file, 3) ∷ (ascii "d", 2) ∷ ([], 1) ∷ [];
  dyn_maps = record { next_id = 4; id_to_node = []; path_to_id = []; tombstones = [] };
}

pub builds : build mounted ≡ ok table
unfolding build lunar_fs.Base.Dict.get lunar_fs.Base.Dict.insert list_dec
    native.Mathlib.Decide.ℕ_discrete lunar_fs.Tree.Order.bytes_leb
builds = refl

abbrev without_file : IdTable
without_file = record table {
  dyn_maps = record { next_id = 4; id_to_node = []; path_to_id = []; tombstones = a_file ∷ [] };
}

forgets : forget table a_file ≡ ok without_file
unfolding forget lunar_fs.Ids.tombstone
forgets = refl

build-Steps_example : IsConsistent without_file
build-Steps_example = build-Steps mounted table without_file builds (
    next table without_file without_file (forgotten table without_file a_file forgets)
      (done without_file))

seen_first : path_of table 3 ≡ some (a_file, file)
unfolding path_of node_at lunar_fs.Base.Dict.get lunar_fs.Ids.is_hidden
seen_first = refl

handle_stays_example :
    (path_of without_file 3 ≡ some (a_file, file)) ⊎ (path_of without_file 3 ≡ none)
handle_stays_example =
    handle_stays mounted table table without_file 3 (a_file, file) builds (done table)
      (next table without_file without_file (forgotten table without_file a_file forgets)
        (done without_file))
      seen_first

has_number : number_of without_file a_file ≡ some 3
unfolding number_of lunar_fs.Base.Dict.get list_dec native.Mathlib.Decide.ℕ_discrete
has_number = refl

stands_for : node_at without_file 3 ≡ some (a_file, file)
unfolding node_at lunar_fs.Base.Dict.get
stands_for = refl

-- The removed file is made again as a directory, and is a file to the client.
intern_keeps_kind_example :
    (t' : IdTable) × ((intern without_file a_file dir ≡ ok (3, t'))
      × (path_of t' 3 ≡ some (a_file, file)))
intern_keeps_kind_example =
    intern_keeps_kind without_file a_file file dir 3 (omega arith) has_number stands_for

abbrev g_file : Bytes
g_file = ascii "g"

abbrev renamed_table : IdTable
renamed_table = record table {
  dyn_maps = record {
    next_id = 5;
    id_to_node = (4, (g_file, file)) ∷ [];
    path_to_id = (g_file, 4) ∷ [];
    tombstones = a_file ∷ [];
  };
}

renames : rename_path table a_file g_file file ≡ ok renamed_table
unfolding rename_path number_of lunar_fs.Base.Dict.get list_dec native.Mathlib.Decide.ℕ_discrete
    lunar_fs.Ids.allocate lunar_fs.Base.Dict.insert lunar_fs.Ids.untombstone lunar_fs.Base.filter
    lunar_fs.Ids.tombstone
renames = refl
