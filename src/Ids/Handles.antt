-- ===== src/Ids/Handles.antt =====
-- What a client holds while files come and go: numbers that keep their meaning.
use lunar_fs.Base.{
  ℕ, ◌≤◌, ◌≡◌, refl, ◌∙◌, ap, ◌≢◌, true, false, ◌||◌, Option, none, some, List, [], ◌∷◌, Bytes, ok,
  ◌==◌, ==-self, ==-sound, contains, list_eq, nat_eq, leb, le→leb, length, if◌then◌else◌, filter,
  arith, >>=-eq-ok, assert-eq-ok, Bool-cases, Option-cases, inl, inr, ◌⊎◌,
}
use lunar_fs.Index.{Index}
use lunar_fs.Fuse.Translate.{NodeKind}
use lunar_fs.Ids.{
  Node, IdTable, node_at, number_of, id_of, path_of, is_hidden, intern, forget, swap_path,
  rename_path, build, with_tombstones, untombstone, tombstone, allocate,
}
use lunar_fs.Ids.Bijection.{
  IsBijection, Steps, Steps-Kept, intern-Kept, hide-IsBijection, hide-node_at, hide-number_of,
}
use lunar_fs.Ids.Build.{build-IsBijection}

-- The visible numbers and paths determine each other.
abbrev pub IsConsistent : IdTable → Type 0
IsConsistent t =
    ((path : Bytes) (id : ℕ)
      → id_of t path ≡ some id
      → (kind : NodeKind) × (path_of t id ≡ some (path, kind)))
    × ((id : ℕ) (path : Bytes) (kind : NodeKind)
        → path_of t id ≡ some (path, kind)
        → id_of t path ≡ some id)

pub path_of-eq-some :
    (t : IdTable) (id : ℕ) (path : Bytes) (kind : NodeKind)
    → path_of t id ≡ some (path, kind)
    → (node_at t id ≡ some (path, kind)) × (is_hidden t path ≡ false)
unfolding path_of
path_of-eq-some t id path kind h = elim (Option-cases (node_at t id)) [
  | inl no_ ↦ absurd (ground arith)
  | inr ((q, k), at) ↦ elim (Bool-cases (is_hidden t q)) [
    | inl gone ↦ absurd (ground arith)
    | inr shown ↦
        let same : ◌≡◌ {A = Option Node} (some (q, k)) (some (path, kind)) = ground arith in
        let p : q ≡ path = ground arith in (at ∙ same, rw (← p) shown)
  ]
]

path_of-shown :
    (t : IdTable) (id : ℕ) (path : Bytes) (kind : NodeKind)
    → node_at t id ≡ some (path, kind)
    → is_hidden t path ≡ false
    → path_of t id ≡ some (path, kind)
unfolding path_of
path_of-shown t id path kind at shown = ground arith

path_of-hidden :
    (t : IdTable) (id : ℕ) (path : Bytes) (kind : NodeKind)
    → node_at t id ≡ some (path, kind)
    → is_hidden t path ≡ true
    → path_of t id ≡ none
unfolding path_of
path_of-hidden t id path kind at gone = ground arith

IsBijection-IsConsistent : (t : IdTable) → IsBijection t → IsConsistent t
unfolding id_of
IsBijection-IsConsistent t b = (
  (λ path id h.
      let shown : is_hidden t path ≡ false = ground arith in
      let number : number_of t path ≡ some id = ground arith in
      let (kind, at) = b.node_of path id number in (kind, path_of-shown t id path kind at shown)),
  (λ id path kind h.
      let (at, shown) = path_of-eq-some t id path kind h in rw shown (b.number_at id path kind at)),
)

-- Whatever calls have been made on a table since it was built, a path with a number is the path of
-- that number, and the path of a number has that number.
pub build-Steps : (index : Index) (t u : IdTable) → build index ≡ ok t → Steps t u → IsConsistent u
build-Steps index t u h steps =
    IsBijection-IsConsistent u (Steps-Kept steps (build-IsBijection index t h)).0

-- A number that a client was given for a node of a built table stands, after any later calls, for
-- the same node or for none, never for another.
pub handle_stays :
    (index : Index) (t u v : IdTable) (id : ℕ) (node : Node)
    → build index ≡ ok t
    → Steps t u
    → Steps u v
    → path_of u id ≡ some node
    → (path_of v id ≡ some node) ⊎ (path_of v id ≡ none)
handle_stays index t u v id (path, kind) h first later seen =
    let b = (Steps-Kept first (build-IsBijection index t h)).0 in
    let (at, shown) = path_of-eq-some u id path kind seen in
    let still = (Steps-Kept later b).1 id (path, kind) at in
    elim (Bool-cases (is_hidden v path)) [
      | inl gone ↦ inr (path_of-hidden v id path kind still gone)
      | inr here ↦ inl (path_of-shown v id path kind still here)
    ]

contains-untombstone :
    (path q : Bytes) (ts : List Bytes)
    → contains (untombstone path ts) q ≡ (if q == path then false else contains ts q)
unfolding untombstone filter
contains-untombstone path q [] = ground arith
contains-untombstone path q (x ∷ ts) = ground (
  arith,
  contains-untombstone path q ts,
  ==-sound x path,
  ==-sound q x,
  ==-self q,
  ==-sound q path,
)

contains-tombstone :
    (path q : Bytes) (ts : List Bytes)
    → contains (tombstone path ts) q ≡ (q == path || contains ts q)
unfolding tombstone
contains-tombstone path q ts = ground (arith, ==-sound q path, ==-self q)

intern-tombstones :
    (t t' : IdTable) (path : Bytes) (kind : NodeKind) (id : ℕ)
    → intern t path kind ≡ ok (id, t')
    → t'.dyn_maps.tombstones ≡ untombstone path t.dyn_maps.tombstones
unfolding intern allocate
intern-tombstones t t' path kind id h = ground arith

-- A call of `intern` on a table whose numbers and paths determine each other makes its path
-- visible under the number that it returns.
pub intern_shows :
    (t t' : IdTable) (path : Bytes) (kind : NodeKind) (id : ℕ)
    → IsBijection t
    → intern t path kind ≡ ok (id, t')
    → (id_of t' path ≡ some id) × ((k : NodeKind) × (path_of t' id ≡ some (path, k)))
unfolding is_hidden
intern_shows t t' path kind id b h =
    let ((b', _), (k, at)) = intern-Kept t t' path kind id b h in
    let shown : is_hidden t' path ≡ false =
      ap (λ ts. contains ts path) (intern-tombstones t t' path kind id h)
      ∙ (contains-untombstone path path t.dyn_maps.tombstones ∙ rw (==-self path) refl) in
    let seen = path_of-shown t' id path k at shown in
    ((IsBijection-IsConsistent t' b').1 id path k seen, (k, seen))

-- Interning a path that has a number returns that number and leaves its node as it was, whatever
-- kind is given: a directory made where a file was removed keeps the kind of the file.
pub intern_keeps_kind :
    (t : IdTable) (path : Bytes) (old kind : NodeKind) (id : ℕ)
    → length path ≤ 4096
    → number_of t path ≡ some id
    → node_at t id ≡ some (path, old)
    → (t' : IdTable) × ((intern t path kind ≡ ok (id, t')) × (path_of t' id ≡ some (path, old)))
unfolding intern is_hidden
intern_keeps_kind t path old kind id short number at =
    let hidden = untombstone path t.dyn_maps.tombstones in
    let t' : IdTable = with_tombstones t hidden in
    let shown : is_hidden t' path ≡ false =
      contains-untombstone path path t.dyn_maps.tombstones ∙ rw (==-self path) refl in
    let at' : node_at t' id ≡ some (path, old) = hide-node_at t hidden id ∙ at in
    let number' : number_of t' path ≡ some id = hide-number_of t hidden path ∙ number in
    (
      t',
      (rw (le→leb (length path) 4096 short, number') refl, path_of-shown t' id path old at' shown),
    )

-- `forget` hides its path and no other.
pub forget-id_of :
    (t t' : IdTable) (path q : Bytes)
    → forget t path ≡ ok t'
    → id_of t' q ≡ (if q == path then none else id_of t q)
unfolding forget id_of is_hidden
forget-id_of t t' path q h =
    let (short, body) = assert-eq-ok (leb (length path) 4096) h in
    let same : with_tombstones t (tombstone path t.dyn_maps.tombstones) ≡ t' = ground arith in
    rw (← same) (
      ground (
        arith,
        contains-tombstone path q t.dyn_maps.tombstones,
        hide-number_of t (tombstone path t.dyn_maps.tombstones) q,
      ))

-- A renaming to another path hides the old path and shows the new one, which has a number then.
pub rename_path_moves :
    (t t' : IdTable) (old new_path : Bytes) (kind : NodeKind)
    → old ≢ new_path
    → IsBijection t
    → rename_path t old new_path kind ≡ ok t'
    → (id_of t' old ≡ none)
      × ((id : ℕ) × ((id_of t' new_path ≡ some id)
            × ((k : NodeKind) × (path_of t' id ≡ some (new_path, k)))))
unfolding rename_path swap_path id_of is_hidden
rename_path_moves t t' old new_path kind ne b h =
    let (short, body) = assert-eq-ok (leb (length old) 4096) h in
    let (short', body') = assert-eq-ok (leb (length new_path) 4096) body in
    let ts = tombstone old t.dyn_maps.tombstones in
    let ((id, u), e, last) = >>=-eq-ok (intern (with_tombstones t ts) new_path kind) _ body' in
    let same : u ≡ t' = ground arith in
    let hid : contains u.dyn_maps.tombstones old ≡ true =
      ap (λ l. contains l old) (intern-tombstones (with_tombstones t ts) u new_path kind id e)
      ∙ (contains-untombstone new_path old ts
          ∙ ground (
            arith,
            ==-sound old new_path,
            contains-tombstone old old t.dyn_maps.tombstones,
            ==-self old,
          )) in
    rw (← same) (
      ground arith,
      (id, intern_shows (with_tombstones t ts) u new_path kind id (hide-IsBijection t ts b) e),
    )
