-- ===== src/Patch/Sides.antt =====
-- What the changes between two trees are changes of, in src/patch.rs.
use lunar_fs.Base.{
  ℕ, ◌≡◌, ◌≢◌, ◌⊎◌, refl, sym, ap, ◌∙◌, Any, ==-sound, true, false, Bool-cases, inl, inr, Option,
  none, some, List, [], ◌∷◌, ◌++◌, Bytes, ok, arith, ◌==◌, list_eq, nat_eq, length, All,
}
use lunar_fs.Base.Dict.{Dict, get, insert, get-insert}
use lunar_fs.Cas.{Hash, Blobs}
use lunar_fs.Tree.{TreeEntry, deserialize_tree}
use lunar_fs.Patch.Trees.{Change, ChangeKind, added, modified, deleted, is_dir, join_path, by_name}

-- The entries of a stored directory, and one of them.
abbrev pub ListsEntries : Blobs → Hash → List TreeEntry → Type 0
ListsEntries blobs tree es = (b : Bytes) × (get blobs tree ≡ some b) × (deserialize_tree b ≡ ok es)

abbrev pub HasEntry : Blobs → Hash → TreeEntry → Type 0
HasEntry blobs tree e = (es : List TreeEntry) × ListsEntries blobs tree es × Any (λ x. x ≡ e) es

-- The directories of the tree with a root, each at its path.
pub data Below (blobs : Blobs) (root : Hash) : Bytes → Hash → Type 0 where
  top : Below blobs root [] root
  child :
      {prefix : Bytes} {tree : Hash} (e : TreeEntry)
      → Below blobs root prefix tree
      → HasEntry blobs tree e
      → is_dir e ≡ true
      → Below blobs root (join_path prefix e.name) e.hash

-- An entry of a directory of the tree with a root, at the path that its name gives it.
pub record EntryAt (blobs : Blobs) (root : Hash) (path : Bytes) (e : TreeEntry) : Type 0 where
  pub prefix : Bytes
  pub tree : Hash
  pub below : Below blobs root prefix tree
  pub listed : HasEntry blobs tree e
  pub joined : join_path prefix e.name ≡ path

-- The tree with a root has a file at a path, with a hash.
abbrev pub HasFile : Blobs → Hash → Bytes → Hash → Type 0
HasFile blobs root path hash =
    (e : TreeEntry) × EntryAt blobs root path e × (is_dir e ≡ false) × (e.hash ≡ hash)

-- A side of a change: nothing, or a file of that side's tree at the path, whose blob is stored and has
-- the size.
abbrev pub SideOf : Blobs → Hash → Bytes → Option Hash → Option ℕ → Type 0
SideOf blobs root path none none = Unit
SideOf blobs root path (some hash) (some size) =
    HasFile blobs root path hash × ((b : Bytes) × (get blobs hash ≡ some b) × (size ≡ length b))
SideOf blobs root path none (some size) = ⊥
SideOf blobs root path (some hash) none = ⊥

-- The sides that a kind of change has; those of a modification differ.
abbrev pub HasSides : ChangeKind → Option Hash → Option Hash → Type 0
HasSides added none (some new) = Unit
HasSides deleted (some old) none = Unit
HasSides modified (some old) (some new) = old ≢ new
HasSides added none none = ⊥
HasSides added (some old) new = ⊥
HasSides deleted none new = ⊥
HasSides deleted (some old) (some new) = ⊥
HasSides modified none new = ⊥
HasSides modified (some old) none = ⊥

-- A change that has the sides of its kind, from the tree of the old root and from that of the new.
abbrev pub IsSound : Blobs → Hash → Hash → Change → Type 0
IsSound blobs old new c =
    HasSides c.kind c.old_blob c.new_blob
    × SideOf blobs old c.path c.old_blob c.old_size
    × SideOf blobs new c.path c.new_blob c.new_size

pub EntryAt-Below :
    {blobs : Blobs} {root : Hash} (path : Bytes) (e : TreeEntry)
    → EntryAt blobs root path e
    → is_dir e ≡ true
    → Below blobs root path e.hash
EntryAt-Below {blobs = blobs} {root = root} path e at dir =
    coe 0 1 (i. Below blobs root (at.joined i) e.hash) (child e at.below at.listed dir)

-- An entry that the map of a directory gives is in the directory, under its name.
pub by_name-Any :
    (acc : Dict Bytes TreeEntry) (es : List TreeEntry) (name : Bytes) (e : TreeEntry)
    → get (by_name acc es) name ≡ some e
    → (get acc name ≡ some e) ⊎ ((e.name ≡ name) × Any (λ x. x ≡ e) es)
unfolding by_name
by_name-Any acc [] name e h = inl h
by_name-Any acc (x ∷ rest) name e h = elim (by_name-Any (insert acc x.name x) rest name e h) [
  | inr (named, there) ↦ inr (named, inr there)
  | inl here ↦ elim (Bool-cases (x.name == name)) [
    | inl same ↦
        let both : ◌≡◌ {A = Option TreeEntry} (some x) (some e) =
          sym (get-insert acc x.name name x ∙ rw same refl) ∙ here in
        let it : x ≡ e = ground arith in
        inr (ap (λ y. y.name) (sym it) ∙ ==-sound x.name name same, inl it)
    | inr apart ↦ inl (sym (get-insert acc x.name name x ∙ rw apart refl) ∙ here)
  ]
]

pub All-snoc :
    (P : Change → Type 0) (xs : List Change) (x : Change) → All P xs → P x → All P (xs ++ (x ∷ []))
All-snoc P [] x all px = (px, tt)
All-snoc P (y ∷ ys) x all px = (all.0, All-snoc P ys x all.1 px)
