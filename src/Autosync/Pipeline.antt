-- ===== src/Autosync/Pipeline.antt =====
-- What a run of the pipeline of src/autosync.rs comes to.
use lunar_fs.Base.{
  ℕ, suc, ◌≡◌, ◌≢◌, inl, inr, refl, sym, ap, ◌∙◌, false, none, some, Bytes, ok, ◌==◌, ==-self,
  ==-sound, list_eq, nat_eq, Bool-cases, Option-cases, arith,
}
use lunar_fs.Base.Calls.{updates-ok, >>>-ok, asserts, reads, updates, ◌>>>◌}
use lunar_fs.Base.Text.{is_empty}
use lunar_fs.Autosync.{
  Seams, Engine, Settings, SyncResult, PushOutcome, landed, conflict, Run, take_snapshot, push_root,
  expect_root, rebase_root, after_push, attempts, pipeline_inner,
}

-- A server that no one else writes to while the pipeline runs, over files that do not change:
-- `remote` is the root that it has, `local` that of the files. A push is a compare-and-swap, or is
-- unconditional without an expected root.
pub record IsQuiet {W : Type 0} (k : Seams W) (workspace : Bytes) (remote : W → Bytes)
    (local : Bytes) : Type 0 where
  pub snapshot : (w : W) → (w' : W) × (k.snapshot w ≡ ok (local, w')) × (remote w' ≡ remote w)
  pub push_expected :
      (w : W) (root : Bytes)
      → (n : ℕ) × (w' : W) × (k.push w workspace root (some (remote w)) ≡ ok (landed n, w'))
        × (remote w' ≡ root)
  pub push_first :
      (w : W) (root : Bytes)
      → (n : ℕ) × (w' : W) × (k.push w workspace root none ≡ ok (landed n, w')) × (remote w' ≡ root)
  pub push_stale :
      (w : W) (root stale : Bytes)
      → remote w ≢ stale
      → (w' : W) × (k.push w workspace root (some stale) ≡ ok (conflict (remote w), w'))
        × (remote w' ≡ remote w)
  pub rebase :
      (w : W) → (w' : W) × (k.rebase w workspace ≡ ok (remote w, w')) × (remote w' ≡ remote w)

module _ {W : Type 0} (k : Seams W) (c : Settings) (remote : W → Bytes) (local : Bytes)
    (quiet : IsQuiet k c.workspace remote local) (some_root : is_empty local ≡ false) where
  -- A run that published the files: they are the server's root, and the one expected next.
  abbrev pub Published : Run W SyncResult → Engine W → Type 0
  Published run e =
      (r : SyncResult) × (e' : Engine W) × (run e ≡ (ok r, e'))
      × (r.root ≡ local)
      × (remote e'.world ≡ local)
      × (e'.expected_root ≡ some local)

  snapshot_taken :
      (e : Engine W)
      → (w : W) × (take_snapshot k c e ≡ (ok local, record e { world = w }))
        × (remote w ≡ remote e.world)
  unfolding take_snapshot
  snapshot_taken e =
      let (w, taken, same) = quiet.snapshot e.world in
      (w, updates-ok _ e (rw (taken, some_root) refl), same)

  pushes :
      (root : Bytes) (e : Engine W) (w : W) (outcome : PushOutcome)
      → k.push e.world c.workspace root e.expected_root ≡ ok (outcome, w)
      → push_root k c root e ≡ (ok outcome, record e { world = w })
  unfolding push_root updates
  pushes root e w outcome h = rw h refl

  rebases_to :
      (e : Engine W) (w : W) (root : Bytes)
      → k.rebase e.world c.workspace ≡ ok (root, w)
      → rebase_root k c e ≡ (ok root, record e { world = w })
  unfolding rebase_root updates
  rebases_to e w root h = rw h refl

  lands :
      (n uploaded : ℕ) (e : Engine W) (w1 w2 : W)
      → take_snapshot k c e ≡ (ok local, record e { world = w1 })
      → k.push w1 c.workspace local e.expected_root ≡ ok (landed uploaded, w2)
      → remote w2 ≡ local
      → Published (attempts k c (suc n)) e
  unfolding attempts push_root after_push expect_root ◌>>>◌ updates reads
  lands n uploaded e w1 w2 taken pushed now =
      let e1 : Engine W = record e { world = w1 } in
      let e2 : Engine W = record e { world = w2 } in
      let e3 : Engine W = record e { world = w2; expected_root = some local } in
      let again = attempts k c n in
      (
        record { root = local; uploaded = uploaded; changed_files = 0 },
        e3,
        >>>-ok (take_snapshot k c) _ e taken
            ∙ (>>>-ok (push_root k c local) (after_push k c local again) e1 {a = landed uploaded}
                  {u = e2} (pushes local e1 w2 _ pushed)
                ∙ refl),
        refl,
        now,
        refl,
      )

  rebases :
      (n : ℕ) (e : Engine W) (w1 w2 w3 : W) (current new_root : Bytes)
      → take_snapshot k c e ≡ (ok local, record e { world = w1 })
      → k.push w1 c.workspace local e.expected_root ≡ ok (conflict current, w2)
      → k.rebase w2 c.workspace ≡ ok (new_root, w3)
      → attempts k c (suc n) e
        ≡ attempts k c n (record e { world = w3; expected_root = some new_root })
  unfolding attempts push_root after_push expect_root rebase_root ◌>>>◌ updates reads
  rebases n e w1 w2 w3 current new_root taken pushed rebased =
      let e1 : Engine W = record e { world = w1 } in
      let e2 : Engine W = record e { world = w2 } in
      let e3 : Engine W = record e { world = w3 } in
      let again = attempts k c n in
      >>>-ok (take_snapshot k c) _ e taken
      ∙ (>>>-ok (push_root k c local) (after_push k c local again) e1 {a = conflict current}
            {u = e2} (pushes local e1 w2 _ pushed)
          ∙ (>>>-ok (rebase_root k c) (λ root. expect_root k c root >>> λ _. again) e2
                {a = new_root} {u = e3} (rebases_to e2 w3 new_root rebased)
              ∙ refl))

  lands_expected :
      (n : ℕ) (e : Engine W)
      → e.expected_root ≡ some (remote e.world)
      → Published (attempts k c (suc n)) e
  lands_expected n e expected =
      let (w1, taken, same) = snapshot_taken e in
      let (uploaded, w2, pushed, now) = quiet.push_expected w1 local in
      let known : e.expected_root ≡ some (remote w1) = expected ∙ ap (λ r. some r) (sym same) in
      lands n uploaded e w1 w2 taken (ap (k.push w1 c.workspace local) known ∙ pushed) now

  lands_first : (n : ℕ) (e : Engine W) → e.expected_root ≡ none → Published (attempts k c (suc n)) e
  lands_first n e unknown =
      let (w1, taken, same) = snapshot_taken e in
      let (uploaded, w2, pushed, now) = quiet.push_first w1 local in
      lands n uploaded e w1 w2 taken (ap (k.push w1 c.workspace local) unknown ∙ pushed) now

  lands_after_conflict :
      (n : ℕ) (e : Engine W) (stale : Bytes)
      → e.expected_root ≡ some stale
      → remote e.world ≢ stale
      → Published (attempts k c (suc (suc n))) e
  lands_after_conflict n e stale expected apart =
      let (w1, taken, same) = snapshot_taken e in
      let (w2, pushed, same2) = quiet.push_stale w1 local stale (λ x. apart (sym same ∙ x)) in
      let (w3, rebased, same3) = quiet.rebase w2 in
      let e3 : Engine W = record e { world = w3; expected_root = some (remote w2) } in
      let (r, e', run, root, now, next) = lands_expected n e3 (ap (λ x. some x) (sym same3)) in
      (
        r,
        e',
        rebases (suc n) e w1 w2 w3 (remote w1) (remote w2) taken
              (ap (k.push w1 c.workspace local) expected ∙ pushed) rebased
            ∙ run,
        root,
        now,
        next,
      )

  -- With a server that no one else writes to in the meantime, the pipeline publishes the files
  -- that it finds, whatever the engine expected the server's root to be: also where the server had
  -- another root than the one expected, which is then replaced and not merged.
  pub pipeline_publishes :
      (e : Engine W) → is_empty c.workspace ≡ false → Published (pipeline_inner k c) e
  unfolding pipeline_inner asserts
  pipeline_publishes e named = elim (Option-cases e.expected_root) [
    | inl unknown ↦ rw named (lands_first 2 e unknown)
    | inr (root, expected) ↦ elim (Bool-cases (remote e.world == root)) [
      | inl fresh ↦ rw named (
          lands_expected 2 e
            (expected ∙ ap (λ x. some x) (sym (==-sound (remote e.world) root fresh))))
      | inr stale ↦
          rw named
            (lands_after_conflict 1 e root expected (λ same. absurd (ground (arith, ==-self root))))
    ]
  ]
