-- ===== src/Reconcile/Safety.antt =====
-- Whatever other writers do in between, a reconcile that returns has merged the very root that its
-- advance replaced.
use lunar_fs.Base.{
  ℕ, zero, suc, ◌≡◌, ◌≢◌, sym, ◌∙◌, ap, some, List, Bytes, Outcome, ok, ok_or, lift, lift-eq-ok,
  ok_or-eq-ok, >>=-eq-ok, arith,
}
use lunar_fs.Merge.{Snapshot, MergeResult, merge_snapshots}
use lunar_fs.RefAdvance.{CasResult, committed, mismatch, RefStore, IsAtomic}
use lunar_fs.Reconcile.Snapshots.{SnapshotStore, IsLawful}
use lunar_fs.Reconcile.{
  World, Others, Point, before_fetch, before_commit, before_advance, publish, merge_with,
  fetch_root, attempt, attempts, begin, reconcile, ref_not_found, before_read, ReconcileError,
}

-- Other writers never lose a stored snapshot.
abbrev pub Keeps : (R : RefStore) (S : SnapshotStore) → Others R S → Type 0
Keeps R S others =
    (p : Point) (n : ℕ) (w : World R S) (root : Bytes) (x : Snapshot)
    → S.fetch w.1 root ≡ ok (some x)
    → S.fetch (others p n w).1 root ≡ ok (some x)

module _ (R : RefStore) (S : SnapshotStore) (others : Others R S)
    (order : Snapshot → Snapshot → Snapshot → List Bytes) (ref_name suffix : Bytes)
    (local_overlay : Snapshot) where
  -- The worlds of a round with `n` rounds after it, from the world that it begins in: at its fetch,
  -- its commit, after the commit, and at its advance. Other writers act before each call.
  abbrev pub at_fetch : ℕ → World R S → World R S
  at_fetch n v = others before_fetch n v

  abbrev pub at_commit : ℕ → World R S → World R S
  at_commit n v = others before_commit n (at_fetch n v)

  abbrev pub at_advance : ℕ → World R S → Snapshot → World R S
  at_advance n v merged =
      others before_advance n ((at_commit n v).0, (S.commit (at_commit n v).1 merged).1)

  -- The worlds that the rounds of a reconcile begin in, with the rounds that are left: the first
  -- begins after the read of the ref, and each other one where the advance of the one before missed,
  -- which has changed nothing.
  pub data Begins (max_retries : ℕ) (w : World R S) : ℕ → World R S → Type 0 where
    first : Begins max_retries w max_retries (others before_read max_retries w)
    again :
        {n : ℕ} {v : World R S} (merged : Snapshot)
        → Begins max_retries w (suc n) v
        → Begins max_retries w n (at_advance n v merged)

  -- How the returned root came about, in the last round: the winner is the root that the ref had at
  -- the round's advance, its snapshot as it was at the round's fetch was merged with the base and the
  -- local one, and the advance has changed no more than the ref, from that winner to the name under
  -- which the merged snapshot was committed.
  pub record Swung (base : Snapshot) (max_retries : ℕ) (root : Bytes) (w w' : World R S)
      : Type 0 where
    pub rest : ℕ
    pub begun : World R S
    pub begins : Begins max_retries w (suc rest) begun
    pub winner_root : Bytes
    pub winner : Snapshot
    pub result : MergeResult
    pub fetched : S.fetch (at_fetch rest begun).1 winner_root ≡ ok (some winner)
    pub merged :
        merge_snapshots base winner local_overlay suffix (order base winner local_overlay)
        ≡ ok result
    pub replaced : R.read (at_advance rest begun result.merged).0 ref_name ≡ ok (some winner_root)
    pub named : root ≡ (S.commit (at_commit rest begun).1 result.merged).0
    pub points : R.read w'.0 ref_name ≡ ok (some root)
    pub other_refs :
        (name : Bytes)
        → name ≢ ref_name
        → R.read w'.0 name ≡ R.read (at_advance rest begun result.merged).0 name
    pub snapshots : w'.1 ≡ (at_advance rest begun result.merged).1
    pub resolves : S.fetch w'.1 root ≡ ok (some result.merged)

  fetch_root-ok :
      (root : Bytes) (snaps : S.State) {x : Snapshot}
      → fetch_root R S others order ref_name suffix local_overlay root snaps ≡ ok x
      → S.fetch snaps root ≡ ok (some x)
  unfolding fetch_root
  fetch_root-ok root snaps h =
      let (found, f, e) = >>=-eq-ok (lift (S.fetch snaps root)) _ h in
      lift-eq-ok _ f ∙ ap ok (ok_or-eq-ok found _ e)

  module _ (atomic : IsAtomic R) (lawful : IsLawful S) (keeps : Keeps R S others) where
    -- What the calls of a publication came to.
    publish-parts :
        (n : ℕ) (winner_root : Bytes) (x : Snapshot) (v v' : World R S) (c : CasResult)
        → publish R S others order ref_name suffix local_overlay n winner_root x (at_fetch n v)
          ≡ ok (c, v')
        → (R.advance
              (at_advance n v x).0
              ref_name
              (some winner_root)
              (S.commit (at_commit n v).1 x).0
            ≡ ok (c, v'.0))
          × ((at_advance n v x).1 ≡ v'.1)
    unfolding publish
    publish-parts n winner_root x v v' c h =
        let ((d, refs₅), a, e) =
          >>=-eq-ok
            (lift (
              R.advance (at_advance n v x).0 ref_name (some winner_root)
                (S.commit (at_commit n v).1 x).0))
            _ h in
        (lift-eq-ok _ a ∙ ground arith, ground arith)

    -- What the calls of a round came to.
    attempt-parts :
        (base : Snapshot) (n : ℕ) (winner_root : Bytes) (v v' : World R S) (c : CasResult)
        → attempt R S others order ref_name suffix local_overlay base n winner_root v ≡ ok (c, v')
        → (winner : Snapshot) × (m : MergeResult) × (S.fetch (at_fetch n v).1 winner_root
            ≡ ok (some winner))
          × (merge_snapshots base winner local_overlay suffix (order base winner local_overlay)
              ≡ ok m)
          × (R.advance
                (at_advance n v m.merged).0
                ref_name
                (some winner_root)
                (S.commit (at_commit n v).1 m.merged).0
              ≡ ok (c, v'.0))
          × ((at_advance n v m.merged).1 ≡ v'.1)
    unfolding attempt
    attempt-parts base n winner_root v v' c h =
        let (winner, f, h₁) =
          >>=-eq-ok
            (fetch_root R S others order ref_name suffix local_overlay winner_root (at_fetch n v).1)
            _ h in
        let (m, g, h₂) =
          >>=-eq-ok (merge_with R S others order ref_name suffix local_overlay base winner) _ h₁ in
        let (a, e) = publish-parts n winner_root m.merged v v' c h₂ in
        (winner, m, fetch_root-ok winner_root (at_fetch n v).1 f, lift-eq-ok _ g, a, e)

    attempt-Swung :
        (base : Snapshot) (max n : ℕ) (winner_root : Bytes) (w v w' : World R S) (root : Bytes)
        → Begins max w (suc n) v
        → attempt R S others order ref_name suffix local_overlay base n winner_root v
          ≡ ok (committed root, w')
        → Swung base max root w w'
    attempt-Swung base max n winner_root w v w' root b h =
        let (winner, m, f, g, a, e) = attempt-parts base n winner_root v w' (committed root) h in
        let (named, was, now, alone_) =
          atomic.advance-committed (at_advance n v m.merged).0 w'.0 ref_name
            (S.commit (at_commit n v).1 m.merged).0 root (some winner_root) a in
        record {
          rest = n;
          begun = v;
          begins = b;
          winner_root = winner_root;
          winner = winner;
          result = m;
          fetched = f;
          merged = g;
          replaced = was;
          named = named;
          points = now ∙ ap (λ x. ok (some x)) (sym named);
          other_refs = alone_;
          snapshots = sym e;
          resolves =
              ap (λ x. S.fetch x root) (sym e)
              ∙ (ap (S.fetch (at_advance n v m.merged).1) named
                  ∙ keeps before_advance n
                      ((at_commit n v).0, (S.commit (at_commit n v).1 m.merged).1)
                      (S.commit (at_commit n v).1 m.merged).0 m.merged
                      (lawful.fetch-commit (at_commit n v).1 m.merged));
        }

    attempt-Begins :
        (base : Snapshot) (max n : ℕ) (winner_root current : Bytes) (w v v' : World R S)
        → Begins max w (suc n) v
        → attempt R S others order ref_name suffix local_overlay base n winner_root v
          ≡ ok (mismatch current, v')
        → Begins max w n v'
    attempt-Begins base max n winner_root current w v v' b h =
        let (winner, m, f, g, a, e) = attempt-parts base n winner_root v v' (mismatch current) h in
        let (same, missed, told) =
          atomic.advance-mismatch (at_advance n v m.merged).0 v'.0 ref_name
            (S.commit (at_commit n v).1 m.merged).0 current (some winner_root) a in
        coe 0 1 (i. Begins max w n (sym same i, e i)) (again m.merged b)

    attempts-Swung :
        (max : ℕ) (base : Snapshot) (n : ℕ) (winner_root : Bytes) (w v w' : World R S)
        (root : Bytes)
        → Begins max w n v
        → attempts R S others order ref_name suffix local_overlay max base n winner_root v
          ≡ ok (root, w')
        → Swung base max root w w'
    unfolding attempts
    attempts-Swung max base zero winner_root w v w' root b h = absurd (ground arith)
    attempts-Swung max base (suc n) winner_root w v w' root b h =
        let ((c, u), a, h₁) =
          >>=-eq-ok (attempt R S others order ref_name suffix local_overlay base n winner_root v) _
            h in
        after c u (λ current now e. attempts-Swung max base n current w u w' root now e) a h₁
      where
        after :
            (c : CasResult) (u : World R S)
            → ((current : Bytes)
                → Begins max w n u
                → attempts R S others order ref_name suffix local_overlay max base n current u
                  ≡ ok (root, w')
                → Swung base max root w w')
            → attempt R S others order ref_name suffix local_overlay base n winner_root v
              ≡ ok (c, u)
            → (elim c as (λ _. Outcome ReconcileError (Bytes × World R S)) [
              | committed value ↦ ok (value, u)
              | mismatch current ↦
                  attempts R S others order ref_name suffix local_overlay max base n current u
            ])
              ≡ ok (root, w')
            → Swung base max root w w'
        after (committed value) u retry a e =
            attempt-Swung base max n winner_root w v w' root b (a ∙ ground arith)
        after (mismatch current) u retry a e =
            retry current (attempt-Begins base max n winner_root current w v u b a) e

    -- A reconcile that returns has, in its last round, merged with the base and the local snapshot
    -- the snapshot of the very root that the ref had when it was advanced. The advance has changed
    -- that ref alone, to the returned root, under which the merged snapshot was committed, and which
    -- resolves to it. The rounds before have changed no ref. Other writers may do anything to the
    -- refs before each call, and to the snapshots anything but losing one.
    pub reconcile-Swung :
        (base_root : Bytes) (max_retries : ℕ) (w w' : World R S) (root : Bytes)
        → reconcile R S others order ref_name suffix local_overlay base_root max_retries w
          ≡ ok (root, w')
        → (base : Snapshot) × (S.fetch w.1 base_root ≡ ok (some base))
          × Swung base max_retries root w w'
    unfolding reconcile
    reconcile-Swung base_root max_retries w w' root h =
        let (base, f, h₁) =
          >>=-eq-ok (fetch_root R S others order ref_name suffix local_overlay base_root w.1)
            (λ base. begin R S others order ref_name suffix local_overlay max_retries base w)
            (ground arith) in
        let w₁ : World R S = others before_read max_retries w in
        let (current, r, h₂) = >>=-eq-ok (lift (R.read w₁.0 ref_name)) _ h₁ in
        let (winner_root, e, h₃) = >>=-eq-ok (ok_or current ref_not_found) _ h₂ in
        (
          base,
          fetch_root-ok base_root w.1 f,
          attempts-Swung max_retries base max_retries winner_root w w₁ w' root first h₃,
        )
