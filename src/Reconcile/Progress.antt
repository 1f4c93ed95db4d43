-- ===== src/Reconcile/Progress.antt =====
-- A reconcile over the in-memory stores that no other writer disturbs.
use lunar_fs.Base.{
  ℕ, zero, suc, ◌+◌, ◌%◌, ◌^◌, ◌≤◌, ◌≡◌, refl, sym, ap, ◌∙◌, ==-self, ◌≢◌, some, List, [], Bytes,
  ok, arith, le→leb, list_eq, nat_eq,
}
use lunar_fs.Base.Dict.{get, insert, get-insert}
use lunar_fs.Base.Text.{is_empty_of_ne}
use lunar_fs.Merge.{Snapshot, MergeResult, merge_snapshots}
use lunar_fs.RefAdvance.{mem_ref_store, committed, advance-eq, read-eq, Refs, read}
use lunar_fs.Reconcile.Snapshots.{
  mem_snapshot_store, mem_snapshot_store-IsLawful, MemSnapshots, commit, fetch, snapshot_id,
  snapshot_id-ne-nil, fetch-eq,
}
use lunar_fs.Reconcile.{
  World, Others, publish, merge_with, fetch_root, attempt, attempts, begin, reconcile,
}

abbrev Stores : Type 0
Stores = World mem_ref_store mem_snapshot_store

-- No other writer acts.
abbrev pub alone : Others mem_ref_store mem_snapshot_store
alone p n w = w

abbrev pub next_id : MemSnapshots → Bytes
next_id s = snapshot_id ((s.counter + 1) % 2 ^ 64)

module _ (order : Snapshot → Snapshot → Snapshot → List Bytes) (ref_name suffix : Bytes)
    (local_overlay : Snapshot) where
  -- The stores after one merged snapshot is committed and the ref points to it.
  abbrev pub published : Snapshot → Stores → Stores
  published merged w = (insert w.0 ref_name (next_id w.1), (commit w.1 merged).1)

  publish-alone :
      (n : ℕ) (winner_root : Bytes) (merged : Snapshot) (w : Stores)
      → ref_name ≢ []
      → get w.0 ref_name ≡ some winner_root
      → publish mem_ref_store mem_snapshot_store alone order ref_name suffix local_overlay n
          winner_root merged w
        ≡ ok (committed (next_id w.1), published merged w)
  unfolding publish commit
  publish-alone n winner_root merged w named points = rw (
      advance-eq w.0 ref_name (next_id w.1) winner_root named
        (snapshot_id-ne-nil ((w.1.counter + 1) % 2 ^ 64)) points)

  attempts-alone :
      (max n : ℕ) (base winner : Snapshot) (m : MergeResult) (winner_root : Bytes) (w : Stores)
      → ref_name ≢ []
      → winner_root ≢ []
      → get w.0 ref_name ≡ some winner_root
      → get w.1.snaps winner_root ≡ some winner
      → merge_snapshots base winner local_overlay suffix (order base winner local_overlay) ≡ ok m
      → attempts mem_ref_store mem_snapshot_store alone order ref_name suffix local_overlay max base
          (suc n)
          winner_root
          w
        ≡ ok (next_id w.1, published m.merged w)
  unfolding attempts attempt fetch_root merge_with
  attempts-alone max n base winner m winner_root w named rooted points found merged =
      rw (fetch-eq w.1 rooted found, merged, publish-alone n winner_root m.merged w named points)

  pub reconcile-published :
      (max_retries : ℕ) (base winner : Snapshot) (m : MergeResult) (base_root winner_root : Bytes)
      (w : Stores)
      → ref_name ≢ []
      → base_root ≢ []
      → suffix ≢ []
      → winner_root ≢ []
      → 1 ≤ max_retries
      → max_retries ≤ 100
      → get w.1.snaps base_root ≡ some base
      → get w.0 ref_name ≡ some winner_root
      → get w.1.snaps winner_root ≡ some winner
      → merge_snapshots base winner local_overlay suffix (order base winner local_overlay) ≡ ok m
      → reconcile mem_ref_store mem_snapshot_store alone order ref_name suffix local_overlay
          base_root max_retries w
        ≡ ok (next_id w.1, published m.merged w)
  unfolding reconcile begin fetch_root
  reconcile-published zero base winner m base_root winner_root w named based sfx rooted low high b p
        f mg =
      absurd (omega arith)
  reconcile-published (suc k) base winner m base_root winner_root w named based sfx rooted low high
        b p f mg =
      rw (
        is_empty_of_ne named,
        is_empty_of_ne based,
        is_empty_of_ne sfx,
        le→leb 1 (suc k) low,
        le→leb (suc k) 100 high,
        fetch-eq w.1 based b,
        read-eq w.0 ref_name named,
        p,
        attempts-alone (suc k) k base winner m winner_root w named rooted p f mg,
      )

  -- What a successful reconcile promises of the stores: the ref points to the returned root, which
  -- resolves to the merged snapshot, and no other ref and no other root has changed.
  pub record IsPublished (merged : Snapshot) (root : Bytes) (w w' : Stores) : Type 0 where
    pub points : read w'.0 ref_name ≡ ok (some root)
    pub resolves : fetch w'.1 root ≡ ok (some merged)
    pub other_refs : (name : Bytes) → name ≢ ref_name → read w'.0 name ≡ read w.0 name
    pub other_roots : (other : Bytes) → other ≢ root → fetch w'.1 other ≡ fetch w.1 other

  commit-others :
      (s : MemSnapshots) (merged : Snapshot) (other : Bytes)
      → other ≢ next_id s
      → fetch (commit s merged).1 other ≡ fetch s other
  unfolding commit fetch
  commit-others s merged other apart = ground (arith, get-insert s.snaps (next_id s) other merged)

  insert-others :
      (refs : Refs) (root name : Bytes)
      → name ≢ ref_name
      → read (insert refs ref_name root) name ≡ read refs name
  unfolding read
  insert-others refs root name apart = ground (arith, get-insert refs ref_name name root)

  commit-root : (s : MemSnapshots) (merged : Snapshot) → (commit s merged).0 ≡ next_id s
  unfolding commit
  commit-root s merged = refl

  published-IsPublished :
      (merged : Snapshot) (w : Stores)
      → ref_name ≢ []
      → IsPublished merged (next_id w.1) w (published merged w)
  published-IsPublished merged w named = record {
    points =
        read-eq (insert w.0 ref_name (next_id w.1)) ref_name named
        ∙ ap ok (get-insert w.0 ref_name ref_name (next_id w.1) ∙ rw (==-self ref_name) refl);
    resolves =
        ap (fetch (commit w.1 merged).1) (sym (commit-root w.1 merged))
        ∙ mem_snapshot_store-IsLawful.fetch-commit w.1 merged;
    other_refs = insert-others w.0 (next_id w.1);
    other_roots = commit-others w.1 merged;
  }

  -- Where no other writer acts, the snapshots of the base and of the ref's root are stored, and
  -- their merge with the local one returns, the first attempt succeeds with the name of the next
  -- number: the ref points to it, it resolves to the merged snapshot, and no other ref and no other
  -- root has changed.
  pub reconcile-alone :
      (max_retries : ℕ) (base winner : Snapshot) (m : MergeResult) (base_root winner_root : Bytes)
      (w : Stores)
      → ref_name ≢ []
      → base_root ≢ []
      → suffix ≢ []
      → winner_root ≢ []
      → 1 ≤ max_retries
      → max_retries ≤ 100
      → fetch w.1 base_root ≡ ok (some base)
      → read w.0 ref_name ≡ ok (some winner_root)
      → fetch w.1 winner_root ≡ ok (some winner)
      → merge_snapshots base winner local_overlay suffix (order base winner local_overlay) ≡ ok m
      → (w' : Stores) × (reconcile mem_ref_store mem_snapshot_store alone order ref_name suffix
            local_overlay base_root max_retries w
          ≡ ok (snapshot_id ((w.1.counter + 1) % 2 ^ 64), w'))
        × IsPublished m.merged (snapshot_id ((w.1.counter + 1) % 2 ^ 64)) w w'
  unfolding fetch read
  reconcile-alone max base winner m base_root winner_root w named based sfx rooted low high b p f
        mg =
      (
        published m.merged w,
        reconcile-published max base winner m base_root winner_root w named based sfx rooted low
            high (ground arith) (ground arith) (ground arith) mg,
        published-IsPublished m.merged w named,
      )
