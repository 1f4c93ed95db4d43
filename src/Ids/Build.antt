-- ===== src/Ids/Build.antt =====
-- The table that is built at mount time gives each path one number.
use lunar_fs.Base.{
  ℕ, zero, suc, ◌+◌, ◌≤◌, ◌≡◌, refl, sym, ◌∙◌, ap, false, none, some, List, [], ◌∷◌, ◌++◌, Bytes,
  ok, ◌==◌, ==-self, ==-sound, list_eq, nat_eq, leb, length, if◌then◌else◌, arith, >>=-eq-ok,
  assert-eq-ok, Bool-cases, inl, inr, ◌⊎◌, get_elem?, ◌=ℕ=◌,
}
use lunar_fs.Base.Dict.{Dict, get, insert, remove, keys, get-insert, get-remove, contains_key}
use lunar_fs.Base.Text.{slash}
use lunar_fs.Index.{Index}
use lunar_fs.Tree.{bytes_leb}
use lunar_fs.Fuse.Translate.{NodeKind, file, dir}
use lunar_fs.Ids.{
  Node, IdTable, node_at, number_of, number, table_of, insert_node, sort_nodes, or_insert,
  add_ancestors, add_files, build,
}
use lunar_fs.Ids.Bijection.{IsBijection}

-- No path stands twice.
abbrev pub Unique : List Node → Type 0
Unique [] = Unit
Unique ((path, kind) ∷ rest) = (get rest path ≡ none) × Unique rest

number-skip :
    (idx : ℕ) (nodes : List Node) (ids : Dict Bytes ℕ) (p : Bytes)
    → get nodes p ≡ none
    → get (number idx nodes ids) p ≡ get ids p
unfolding number get
number-skip idx [] ids p h = refl
number-skip idx ((path, kind) ∷ rest) ids p h =
    let other : (path == p) ≡ false = ground arith in
    let later : get rest p ≡ none = ground arith in
    number-skip (suc idx) rest (insert ids path (idx + 1)) p later
    ∙ (get-insert ids path p (idx + 1) ∙ rw other)

number_complete :
    (idx : ℕ) (nodes : List Node) (ids : Dict Bytes ℕ) (i : ℕ) (p : Bytes) (k : NodeKind)
    → Unique nodes
    → get_elem? nodes i ≡ some (p, k)
    → get (number idx nodes ids) p ≡ some (idx + i + 1)
unfolding number
number_complete idx [] ids i p k u h = absurd (ground arith)
number_complete idx ((path, kind) ∷ rest) ids zero p k u h =
    let same : path ≡ p = ground arith in
    rw (← same) (
      number-skip (suc idx) rest (insert ids path (idx + 1)) path u.0
      ∙ (get-insert ids path path (idx + 1) ∙ rw (==-self path) (ap some (omega arith))))
number_complete idx ((path, kind) ∷ rest) ids (suc i) p k u h =
    number_complete (suc idx) rest (insert ids path (idx + 1)) i p k u.1 h ∙ ap some (omega arith)

number_sound :
    (idx : ℕ) (nodes : List Node) (ids : Dict Bytes ℕ) (p : Bytes) (id : ℕ)
    → get (number idx nodes ids) p ≡ some id
    → ((i : ℕ) × ((k : NodeKind) × ((get_elem? nodes i ≡ some (p, k)) × (id ≡ idx + i + 1))))
      ⊎ (get ids p ≡ some id)
unfolding number
number_sound idx [] ids p id h = inr h
number_sound idx ((path, kind) ∷ rest) ids p id h =
    elim (number_sound (suc idx) rest (insert ids path (idx + 1)) p id h) [
      | inl (i, (k, (at, e))) ↦ inl (suc i, (k, (at, omega arith)))
      | inr new ↦ elim (Bool-cases (path == p)) [
        | inl same ↦
            let e = rw same at (sym (get-insert ids path p (idx + 1)) ∙ new) in
            inl (0, (kind, (ap (λ q. some (q, kind)) (==-sound path p same), ground arith)))
        | inr other ↦ inr (sym (get-insert ids path p (idx + 1) ∙ rw other) ∙ new)
      ]
    ]

get_elem?-none : (nodes : List Node) (i : ℕ) → length nodes ≤ i → get_elem? nodes i ≡ none
get_elem?-none [] i le = refl
get_elem?-none (n ∷ rest) zero le = absurd (omega arith)
get_elem?-none (n ∷ rest) (suc i) le = get_elem?-none rest i (omega arith)

module _ (nodes : List Node) where
  table-number_of : (p : Bytes) → number_of (table_of nodes) p ≡ get (number 0 nodes []) p
  unfolding table_of number_of get
  table-number_of p = ground arith

  table-node_at : (i : ℕ) → node_at (table_of nodes) (suc i) ≡ get_elem? nodes i
  unfolding table_of node_at get
  table-node_at i = refl

  table-node_of :
      (path : Bytes) (id : ℕ)
      → number_of (table_of nodes) path ≡ some id
      → (k : NodeKind) × (node_at (table_of nodes) id ≡ some (path, k))
  unfolding get
  table-node_of path id h =
      elim (number_sound 0 nodes [] path id (sym (table-number_of path) ∙ h)) [
        | inl (i, (k, (at, e))) ↦
            let e' : id ≡ suc i = omega arith in (k, rw e' (table-node_at i ∙ at))
        | inr empty ↦ absurd (ground arith)
      ]

  table-number_at :
      (id : ℕ) (path : Bytes) (k : NodeKind)
      → Unique nodes
      → node_at (table_of nodes) id ≡ some (path, k)
      → number_of (table_of nodes) path ≡ some id
  unfolding node_at
  table-number_at zero path k u h = absurd (ground arith)
  table-number_at (suc i) path k u h =
      table-number_of path
      ∙ (number_complete 0 nodes [] i path k u (sym (table-node_at i) ∙ h) ∙ ap some (omega arith))

  table-unused :
      (id : ℕ) → (table_of nodes).dyn_maps.next_id ≤ id → node_at (table_of nodes) id ≡ none
  unfolding node_at table_of get
  table-unused zero le = refl
  table-unused (suc i) le = get_elem?-none nodes i (omega arith)

  pub table_of-IsBijection : Unique nodes → IsBijection (table_of nodes)
  table_of-IsBijection u = record {
    node_of = table-node_of;
    number_at = λ id path k h. table-number_at id path k u h;
    unused = table-unused;
  }

insert_node-get :
    (n : Node) (nodes : List Node) (q : Bytes)
    → get nodes n.0 ≡ none
    → get (insert_node n nodes) q ≡ (if n.0 == q then some n.1 else get nodes q)
unfolding insert_node get
insert_node-get n [] q new = refl
insert_node-get n (m ∷ rest) q new =
    ground (arith, insert_node-get n rest q, ==-sound n.0 q, ==-sound m.0 q, ==-self q)

get-cons_none :
    (m : Node) (rest : List Node) (p : Bytes)
    → get (m ∷ rest) p ≡ none
    → ((m.0 == p) ≡ false) × (get rest p ≡ none)
unfolding get
get-cons_none m rest p h = ground arith

insert_node-Unique :
    (n : Node) (nodes : List Node)
    → get nodes n.0 ≡ none
    → Unique nodes
    → Unique (insert_node n nodes)
unfolding insert_node
insert_node-Unique n [] new u = (new, u)
insert_node-Unique n (m ∷ rest) new u = elim (Bool-cases (bytes_leb n.0 m.0)) [
  | inl first ↦ rw first (new, u)
  | inr later ↦
      let (apart, absent) = get-cons_none m rest n.0 new in
      let kept = insert_node-get n rest m.0 absent in
      let apart' : (n.0 == m.0) ≡ false = ground (arith, ==-sound n.0 m.0, ==-self m.0) in
      rw later (kept ∙ rw apart' u.0, insert_node-Unique n rest absent u.1)
]

sort_nodes-get :
    (nodes : List Node) (q : Bytes) → Unique nodes → get (sort_nodes nodes) q ≡ get nodes q
unfolding sort_nodes get
sort_nodes-get [] q u = refl
sort_nodes-get ((p, k) ∷ rest) q u =
    insert_node-get (p, k) (sort_nodes rest) q (sort_nodes-get rest p u.1 ∙ u.0)
    ∙ rw (sort_nodes-get rest q u.1) refl

sort_nodes-Unique : (nodes : List Node) → Unique nodes → Unique (sort_nodes nodes)
unfolding sort_nodes
sort_nodes-Unique [] u = u
sort_nodes-Unique ((p, k) ∷ rest) u =
    insert_node-Unique (p, k) (sort_nodes rest) (sort_nodes-get rest p u.1 ∙ u.0)
      (sort_nodes-Unique rest u.1)

remove-Unique : (nodes : List Node) (p : Bytes) → Unique nodes → Unique (remove nodes p)
unfolding remove
remove-Unique [] p u = u
remove-Unique ((q, k) ∷ rest) p u = elim (Bool-cases (q == p)) [
  | inl same ↦ rw same (remove-Unique rest p u.1)
  | inr other ↦
      let absent : get (remove rest p) q ≡ none = get-remove rest p q ∙ ground (arith, u.0) in
      rw other (absent, remove-Unique rest p u.1)
]

insert-Unique :
    (nodes : List Node) (p : Bytes) (k : NodeKind) → Unique nodes → Unique (insert nodes p k)
unfolding insert
insert-Unique nodes p k u = (get-remove nodes p p ∙ rw (==-self p) refl, remove-Unique nodes p u)

or_insert-Unique :
    (nodes nodes' : List Node) (p : Bytes) (k : NodeKind)
    → Unique nodes
    → or_insert nodes p k ≡ ok nodes'
    → Unique nodes'
unfolding or_insert
or_insert-Unique nodes nodes' p k u h = elim (Bool-cases (contains_key nodes p)) [
  | inl old ↦ let same : nodes ≡ nodes' = ground arith in rw (← same) u
  | inr new ↦
      let same : insert nodes p k ≡ nodes' = ground arith in rw (← same) (insert-Unique nodes p k u)
]

add_ancestors-Unique :
    (before after : Bytes) (nodes nodes' : List Node)
    → Unique nodes
    → add_ancestors before after nodes ≡ ok nodes'
    → Unique nodes'
unfolding add_ancestors
add_ancestors-Unique before [] nodes nodes' u h =
    let same : nodes ≡ nodes' = ground arith in rw (← same) u
add_ancestors-Unique before (c ∷ after) nodes nodes' u h =
    let (grown, e, later) =
      >>=-eq-ok (if c =ℕ= slash then or_insert nodes before dir else ok nodes) _ h in
    let unique : Unique grown = elim (Bool-cases (c =ℕ= slash)) [
      | inl yes_ ↦ or_insert-Unique nodes grown before dir u (rw yes_ at e)
      | inr no_ ↦ let same : nodes ≡ grown = ground arith in rw (← same) u
    ] in
    add_ancestors-Unique (before ++ (c ∷ [])) after grown nodes' unique later

add_files-Unique :
    (count : ℕ) (paths : List Bytes) (nodes nodes' : List Node)
    → Unique nodes
    → add_files count paths nodes ≡ ok nodes'
    → Unique nodes'
unfolding add_files
add_files-Unique count [] nodes nodes' u h =
    let same : nodes ≡ nodes' = ground arith in rw (← same) u
add_files-Unique count (path ∷ rest) nodes nodes' u h =
    let (few, k1) = assert-eq-ok (leb (suc count) 65_536) h in
    let (short, k2) = assert-eq-ok (leb (length path) 4096) k1 in
    let (above, e1, k3) = >>=-eq-ok (add_ancestors [] path nodes) _ k2 in
    let (grown, e2, later) = >>=-eq-ok (or_insert above path file) _ k3 in
    let unique = add_ancestors-Unique [] path nodes above u e1 in
    add_files-Unique (suc count) rest grown nodes'
      (or_insert-Unique above grown path file unique e2) later

pub build-IsBijection : (index : Index) (t : IdTable) → build index ≡ ok t → IsBijection t
unfolding build
build-IsBijection index t h =
    let start : List Node = insert [] [] dir in
    let (nodes, e, last) = >>=-eq-ok (add_files 0 (keys index) start) _ h in
    let same : table_of (sort_nodes nodes) ≡ t = ground arith in
    let unique = add_files-Unique 0 (keys index) start nodes (insert-Unique [] [] dir tt) e in
    rw (← same) (table_of-IsBijection (sort_nodes nodes) (sort_nodes-Unique nodes unique))
