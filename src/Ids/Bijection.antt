-- ===== src/Ids/Bijection.antt =====
-- No operation takes a number from its path or gives one path two numbers.
use lunar_fs.Base.{
  ℕ, zero, suc, ◌<◌, ◌≤◌, ◌≡◌, refl, sym, ◌∙◌, ap, Option, none, some, List, [], ◌∷◌, Bytes,
  Outcome, ok, ◌==◌, list_eq, nat_eq, ==-self, ==-sound, ltb→lt, leb, ltb, length, if◌then◌else◌,
  arith, >>=-eq-ok, assert-eq-ok, Option-cases, Bool-cases, inl, inr,
}
use lunar_fs.Base.Dict.{Dict, get-insert}
use lunar_fs.Fuse.Translate.{NodeKind}
use lunar_fs.Ids.{
  Node, IdTable, Never, node_at, number_of, intern, forget, swap_path, rename_path, allocate,
  max_dynamic_nodes, with_tombstones, untombstone, tombstone,
}
use lunar_fs.Ids.Subtree.{base_renames, Renaming, apply_renames, rename_subtree}

-- Tombstones aside, numbers and paths determine each other, and no number from `next_id` on is in
-- use.
pub record IsBijection (t : IdTable) : Type 0 where
  pub node_of :
      (path : Bytes) (id : ℕ)
      → number_of t path ≡ some id
      → (kind : NodeKind) × (node_at t id ≡ some (path, kind))
  pub number_at :
      (id : ℕ) (path : Bytes) (kind : NodeKind)
      → node_at t id ≡ some (path, kind)
      → number_of t path ≡ some id
  pub unused : (id : ℕ) → t.dyn_maps.next_id ≤ id → node_at t id ≡ none

-- Every number of the first table stands for the same node in the second.
abbrev pub Extends : IdTable → IdTable → Type 0
Extends t t' = (id : ℕ) (node : Node) → node_at t id ≡ some node → node_at t' id ≡ some node

pub hide-node_at :
    (t : IdTable) (hidden : List Bytes) (id : ℕ)
    → node_at (with_tombstones t hidden) id ≡ node_at t id
unfolding node_at
hide-node_at t hidden zero = refl
hide-node_at t hidden (suc idx) = refl

pub hide-number_of :
    (t : IdTable) (hidden : List Bytes) (path : Bytes)
    → number_of (with_tombstones t hidden) path ≡ number_of t path
unfolding number_of
hide-number_of t hidden path = refl

pub hide-IsBijection :
    (t : IdTable) (hidden : List Bytes) → IsBijection t → IsBijection (with_tombstones t hidden)
hide-IsBijection t hidden b = record {
  node_of = λ path id h.
      let (kind, at) = b.node_of path id (sym (hide-number_of t hidden path) ∙ h) in
      (kind, hide-node_at t hidden id ∙ at);
  number_at = λ id path kind h.
      hide-number_of t hidden path ∙ b.number_at id path kind (sym (hide-node_at t hidden id) ∙ h);
  unused = λ id le. hide-node_at t hidden id ∙ b.unused id le;
}

hide-Extends : (t : IdTable) (hidden : List Bytes) → Extends t (with_tombstones t hidden)
hide-Extends t hidden id node h = hide-node_at t hidden id ∙ h

allocate-node_at :
    (t : IdTable) (path : Bytes) (kind : NodeKind) (id : ℕ)
    → 0 < t.dyn_maps.next_id
    → node_at (allocate t path kind) id
      ≡ (if t.dyn_maps.next_id == id then some (path, kind) else node_at t id)
unfolding node_at allocate
allocate-node_at t path kind zero pos = ground arith
allocate-node_at t path kind (suc idx) pos =
    ground (arith, get-insert t.dyn_maps.id_to_node t.dyn_maps.next_id (suc idx) (path, kind))

allocate-number_of :
    (t : IdTable) (path q : Bytes) (kind : NodeKind)
    → number_of t path ≡ none
    → number_of (allocate t path kind) q
      ≡ (if path == q then some t.dyn_maps.next_id else number_of t q)
unfolding number_of allocate
allocate-number_of t path q kind new =
    ground (arith, get-insert t.dyn_maps.path_to_id path q t.dyn_maps.next_id)

same_node :
    (p q : Bytes) (j k : NodeKind)
    → ◌≡◌ {A = Option Node} (some (p, j)) (some (q, k))
    → (p ≡ q) × (j ≡ k)
same_node p q j k h = ground arith

same_result :
    (i j : ℕ) (s t : IdTable)
    → ◌≡◌ {A = Outcome Never (ℕ × IdTable)} (ok (i, s)) (ok (j, t))
    → (i ≡ j) × (s ≡ t)
same_result i j s t h = ground arith

-- A fresh number: it was unused, and the path had none.
module _ (t : IdTable) (path : Bytes) (kind : NodeKind) (b : IsBijection t)
    (pos : 0 < t.dyn_maps.next_id) (new : number_of t path ≡ none) where
  allocate-Extends : Extends t (allocate t path kind)
  allocate-Extends id node h =
      let at = allocate-node_at t path kind id pos in let free = b.unused id in ground arith

  allocate-node_of :
      (q : Bytes) (id : ℕ)
      → number_of (allocate t path kind) q ≡ some id
      → (k : NodeKind) × (node_at (allocate t path kind) id ≡ some (q, k))
  allocate-node_of q id h = elim (Bool-cases (path == q)) [
    | inl same ↦
        let e : t.dyn_maps.next_id ≡ id = ground (arith, allocate-number_of t path q kind new) in
        (kind, allocate-node_at t path kind id pos ∙ ground arith)
    | inr other ↦
        let old : number_of t q ≡ some id = ground (arith, allocate-number_of t path q kind new) in
        let (k, at) = b.node_of q id old in (k, allocate-Extends id (q, k) at)
  ]

  allocate-number_at :
      (id : ℕ) (q : Bytes) (k : NodeKind)
      → node_at (allocate t path kind) id ≡ some (q, k)
      → number_of (allocate t path kind) q ≡ some id
  allocate-number_at id q k h = elim (Bool-cases (t.dyn_maps.next_id == id)) [
    | inl same ↦
        let node = sym (rw same at (allocate-node_at t path kind id pos)) ∙ h in
        let (p, _) = same_node path q kind k node in
        allocate-number_of t path q kind new
        ∙ rw (p, ==-self q) (ap some (==-sound t.dyn_maps.next_id id same))
    | inr other ↦
        let old : node_at t id ≡ some (q, k) =
          ground (arith, allocate-node_at t path kind id pos) in
        let at = b.number_at id q k old in allocate-number_of t path q kind new ∙ ground (arith)
  ]

  allocate-unused :
      (id : ℕ)
      → (allocate t path kind).dyn_maps.next_id ≤ id
      → node_at (allocate t path kind) id ≡ none
  unfolding allocate
  allocate-unused id le = allocate-node_at t path kind id pos ∙ ground (arith, b.unused id)

  allocate-IsBijection : IsBijection (allocate t path kind)
  allocate-IsBijection = record {
    node_of = allocate-node_of;
    number_at = allocate-number_at;
    unused = allocate-unused;
  }

hide-next :
    (t : IdTable) (hidden : List Bytes)
    → (with_tombstones t hidden).dyn_maps.next_id ≡ t.dyn_maps.next_id
hide-next t hidden = refl

-- What the operations preserve.
abbrev pub Kept : IdTable → IdTable → Type 0
Kept t t' = IsBijection t' × Extends t t'

pub intern-Kept :
    (t t' : IdTable) (path : Bytes) (kind : NodeKind) (id : ℕ)
    → IsBijection t
    → intern t path kind ≡ ok (id, t')
    → Kept t t' × ((k : NodeKind) × (node_at t' id ≡ some (path, k)))
unfolding intern
intern-Kept t t' path kind id b h =
    let (short, body) = assert-eq-ok (leb (length path) 4096) h in
    let hidden = untombstone path t.dyn_maps.tombstones in
    let shown : IdTable = with_tombstones t hidden in
    let b' : IsBijection shown = hide-IsBijection t hidden b in
    elim (Option-cases (number_of shown path)) [
      | inr (old, e) ↦
          let (i, s) = same_result old id shown t' (rw e at body) in
          rw (← s, ← i) ((b', hide-Extends t hidden), b'.node_of path old e)
      | inl new ↦
          let (room, body2) =
            assert-eq-ok (ltb (length t.dyn_maps.id_to_node) max_dynamic_nodes) (rw new at body) in
          let (pos, body3) = assert-eq-ok (ltb 0 t.dyn_maps.next_id) body2 in
          let (i, s) = same_result t.dyn_maps.next_id id (allocate shown path kind) t' body3 in
          let some_id : 0 < t.dyn_maps.next_id = ltb→lt 0 t.dyn_maps.next_id pos in
          let at = allocate-node_at shown path kind t.dyn_maps.next_id some_id in
          rw (← s, ← i)
            (
              (
                allocate-IsBijection shown path kind b' some_id new,
                λ j node was.
                    allocate-Extends shown path kind b' some_id new j node
                      (hide-Extends t hidden j node was),
              ),
              (kind, at ∙ rw (==-self t.dyn_maps.next_id) refl),
            )
    ]

pub Kept-trans : (t u v : IdTable) → Kept t u → Kept u v → Kept t v
Kept-trans t u v h k = (k.0, λ id node was. k.1 id node (h.1 id node was))

hide-Kept : (t : IdTable) (hidden : List Bytes) → IsBijection t → Kept t (with_tombstones t hidden)
hide-Kept t hidden b = (hide-IsBijection t hidden b, hide-Extends t hidden)

pub forget-Kept :
    (t t' : IdTable) (path : Bytes) → IsBijection t → forget t path ≡ ok t' → Kept t t'
unfolding forget
forget-Kept t t' path b h =
    let (short, body) = assert-eq-ok (leb (length path) 4096) h in
    let same : with_tombstones t (tombstone path t.dyn_maps.tombstones) ≡ t' = ground arith in
    rw (← same) (hide-Kept t (tombstone path t.dyn_maps.tombstones) b)

swap_path-Kept :
    (t t' : IdTable) (old new_path : Bytes) (kind : NodeKind)
    → IsBijection t
    → swap_path t old new_path kind ≡ ok t'
    → Kept t t'
unfolding swap_path
swap_path-Kept t t' old new_path kind b h =
    let hidden = tombstone old t.dyn_maps.tombstones in
    let ((id, u), e, last) = >>=-eq-ok (intern (with_tombstones t hidden) new_path kind) _ h in
    let same : u ≡ t' = ground arith in
    let first = hide-Kept t hidden b in
    rw (← same) (
      Kept-trans t (with_tombstones t hidden) u first
        (intern-Kept _ u new_path kind id first.0 e).0)

pub rename_path-Kept :
    (t t' : IdTable) (old new_path : Bytes) (kind : NodeKind)
    → IsBijection t
    → rename_path t old new_path kind ≡ ok t'
    → Kept t t'
unfolding rename_path
rename_path-Kept t t' old new_path kind b h =
    let (short, body) = assert-eq-ok (leb (length old) 4096) h in
    let (short', body') = assert-eq-ok (leb (length new_path) 4096) body in
    swap_path-Kept t t' old new_path kind b body'

apply_renames-Kept :
    (renames : List Renaming) (t t' : IdTable)
    → IsBijection t
    → apply_renames renames t ≡ ok t'
    → Kept t t'
unfolding apply_renames
apply_renames-Kept [] t t' b h =
    let same : t ≡ t' = ground arith in rw (← same) (b, λ id node was. was)
apply_renames-Kept (r ∷ rest) t t' b h =
    let (u, first, later) = >>=-eq-ok (swap_path t r.old_path r.new_path r.kind) _ h in
    let kept = swap_path-Kept t u r.old_path r.new_path r.kind b first in
    Kept-trans t u t' kept (apply_renames-Kept rest u t' kept.0 later)

pub rename_subtree-Kept :
    (base_order : Dict Bytes ℕ → Dict Bytes ℕ) (dyn_order : List Bytes → List Bytes)
    (t t' : IdTable) (old new : Bytes)
    → IsBijection t
    → rename_subtree base_order dyn_order t old new ≡ ok t'
    → Kept t t'
unfolding rename_subtree
rename_subtree-Kept base_order dyn_order t t' old new b h =
    let (short, body) = assert-eq-ok (leb (length old) 4096) h in
    let (short', body') = assert-eq-ok (leb (length new) 4096) body in
    let (renames, e, applied) =
      >>=-eq-ok (base_renames t old new (base_order t.base_path_to_id)) _ body' in
    apply_renames-Kept _ t t' b applied

-- One call of the table.
pub data Step : IdTable → IdTable → Type 0 where
  interned :
      (t t' : IdTable) (path : Bytes) (kind : NodeKind) (id : ℕ)
      → intern t path kind ≡ ok (id, t')
      → Step t t'
  forgotten : (t t' : IdTable) (path : Bytes) → forget t path ≡ ok t' → Step t t'
  renamed :
      (t t' : IdTable) (old new_path : Bytes) (kind : NodeKind)
      → rename_path t old new_path kind ≡ ok t'
      → Step t t'
  moved_below :
      (base_order : Dict Bytes ℕ → Dict Bytes ℕ) (dyn_order : List Bytes → List Bytes)
      (t t' : IdTable) (old_prefix new_prefix : Bytes)
      → rename_subtree base_order dyn_order t old_prefix new_prefix ≡ ok t'
      → Step t t'

pub data Steps : IdTable → IdTable → Type 0 where
  done : (t : IdTable) → Steps t t
  next : (t u v : IdTable) → Step t u → Steps u v → Steps t v

Step-Kept : {t u : IdTable} → Step t u → IsBijection t → Kept t u
Step-Kept (interned t u path kind id h) b = (intern-Kept t u path kind id b h).0
Step-Kept (forgotten t u path h) b = forget-Kept t u path b h
Step-Kept (renamed t u old new_path kind h) b = rename_path-Kept t u old new_path kind b h
Step-Kept (moved_below f g t u old new h) b = rename_subtree-Kept f g t u old new b h

pub Steps-Kept : {t u : IdTable} → Steps t u → IsBijection t → Kept t u
Steps-Kept (done t) b = (b, λ id node was. was)
Steps-Kept (next t u v s rest) b =
    let first = Step-Kept s b in Kept-trans t u v first (Steps-Kept rest first.0)
