-- ===== src/Live/Broadcast.antt =====
-- An advanced ref of src/live_sync.rs, and the clients that subscribe to its workspace.
use lunar_fs.Base.{
  ℕ, ◌≡◌, refl, false, Bool-cases, inl, inr, Option, none, some, List, [], ◌∷◌, Bytes, Outcome, ok,
  arith, ◌==◌, ==-self, ==-sound, All, nat_eq, list_eq, sym, ◌∙◌,
}
use lunar_fs.Base.Dict.{Dict, get, insert, get-insert}
use lunar_fs.Base.Text.{is_empty}
use lunar_fs.Live.{
  LiveSnapshot, MemServerState, ClientState, Channel, ReconcileResult, handlers_of, reconcile,
  run_handler, run_handlers, publish, advance_ref, values,
}
use lunar_fs.Live.Mounts.{IsFetchable, IsFollowing, Mounted, reconcile_mounts, entries_of}

-- A subscription of a client that there is.
abbrev pub HasClient : Dict ℕ ClientState → ℕ × ℕ → Type 0
HasClient clients sub = (c : ClientState) × (get clients sub.1 ≡ some c)

-- Every client follows the server.
abbrev pub AllFollow : MemServerState → Dict ℕ ClientState → Type 0
AllFollow s clients = (k : ℕ) (c : ClientState) → get clients k ≡ some c → IsFollowing s c none

-- The client of a subscription has mounted the snapshot.
abbrev pub HasMounted : Bytes → LiveSnapshot → Dict ℕ ClientState → ℕ × ℕ → Type 0
HasMounted id snapshot clients sub =
    (c : ClientState) × (get clients sub.1 ≡ some c) × Mounted id snapshot c

-- An update of one key, for a property of what stands at the keys.
insert-keeps :
    (P : ℕ → ClientState → Type 0) (clients : Dict ℕ ClientState) (k j : ℕ) (new_ c : ClientState)
    → P k new_
    → get (insert clients k new_) j ≡ some c
    → ((c : ClientState) → get clients j ≡ some c → P j c)
    → P j c
insert-keeps P clients k j new_ c at h old = elim (Bool-cases (k == j)) [
  | inl e ↦
      let same : k ≡ j = ==-sound k j e in
      let is : new_ ≡ c =
        let both : ◌≡◌ {A = Option ClientState} (some new_) (some c) =
          sym (get-insert clients k j new_ ∙ rw e refl) ∙ h in
        ground arith in
      coe 0 1 (i. P (same i) (is i)) at
  | inr e ↦ old c (sym (get-insert clients k j new_ ∙ rw e refl) ∙ h)
]

insert-has :
    (P : ClientState → Type 0) (clients : Dict ℕ ClientState) (k j : ℕ) (new_ : ClientState)
    → P new_
    → (c : ClientState) × (get clients j ≡ some c) × P c
    → (c : ClientState) × (get (insert clients k new_) j ≡ some c) × P c
insert-has P clients k j new_ at (c, there, p) = elim (Bool-cases (k == j)) [
  | inl e ↦ (new_, get-insert clients k j new_ ∙ rw e refl, at)
  | inr e ↦ (c, get-insert clients k j new_ ∙ (rw e there), p)
]

module _ (s : MemServerState) (ws id : Bytes) (snapshot : LiveSnapshot)
    (some_ws : is_empty ws ≡ false) (some_id : is_empty id ≡ false)
    (found : get s.snapshots id ≡ some snapshot)
    (fetchable : All (IsFetchable s) (values snapshot.entries)) where
  Mounted-IsFollowing : (c : ClientState) → Mounted id snapshot c → IsFollowing s c none
  Mounted-IsFollowing c (at, entries, complete) = record {
    complete = complete;
    known = λ i other e stored.
        entries_of s c ws id snapshot some_ws some_id found fetchable i other (sym at ∙ e) stored
        ∙ sym entries;
    seen = λ i e. absurd (ground arith);
  }

  run_handler-eq {ℓ} :
      {E : Type ℓ} (k : ℕ) (clients : Dict ℕ ClientState) (c c' : ClientState) (r : ReconcileResult)
      → get clients k ≡ some c
      → reconcile s c ws id ≡ ok (r, c')
      → ◌≡◌ {A = Outcome E (Dict ℕ ClientState)}
          (run_handler s ws id k clients)
          (ok (insert clients k c'))
  unfolding run_handler
  run_handler-eq k clients c c' r there run = rw (there, run, run_handler) refl

  run_handler_mounts {ℓ} :
      {E : Type ℓ} (k : ℕ) (clients : Dict ℕ ClientState) (c : ClientState)
      → get clients k ≡ some c
      → IsFollowing s c none
      → (c' : ClientState) × (◌≡◌ {A = Outcome E (Dict ℕ ClientState)}
          (run_handler s ws id k clients)
          (ok (insert clients k c')))
        × Mounted id snapshot c'
  run_handler_mounts k clients c there f =
      let (r, c', run, at) =
        reconcile_mounts s c ws id snapshot some_ws some_id found fetchable none f in
      (c', run_handler-eq k clients c c' r there run, at)

  clients_remain :
      (subs : List (ℕ × ℕ)) (clients clients' : Dict ℕ ClientState)
      → ((sub : ℕ × ℕ) → HasClient clients sub → HasClient clients' sub)
      → All (HasClient clients) subs
      → All (HasClient clients') subs
  clients_remain [] clients clients' more all = tt
  clients_remain (sub ∷ rest) clients clients' more all =
      (more sub all.0, clients_remain rest clients clients' more all.1)

  -- What a run of handlers comes to: its clients follow the server, and a client that has mounted
  -- the snapshot keeps it.
  abbrev Ran : Dict ℕ ClientState → Dict ℕ ClientState → Type 0
  Ran clients clients' =
      AllFollow s clients'
      × ((sub : ℕ × ℕ) → HasMounted id snapshot clients sub → HasMounted id snapshot clients' sub)

  run_handlers_mount {ℓ} :
      {E : Type ℓ} (subs : List (ℕ × ℕ)) (clients : Dict ℕ ClientState)
      → AllFollow s clients
      → All (HasClient clients) subs
      → (clients' : Dict ℕ ClientState) × (◌≡◌ {A = Outcome E (Dict ℕ ClientState)}
          (run_handlers s ws id subs clients)
          (ok clients'))
        × All (HasMounted id snapshot clients') subs
        × Ran clients clients'
  unfolding run_handlers
  run_handlers_mount [] clients follow all = (clients, refl, tt, (follow, λ sub at. at))
  run_handlers_mount {E = E} ((n, k) ∷ rest) clients follow ((c, there), all) =
      let (c', run, at) = run_handler_mounts {E = E} k clients c there (follow k c there) in
      let follow' : AllFollow s (insert clients k c') = λ j d h.
        insert-keeps (λ j d. IsFollowing s d none) clients k j c' d (Mounted-IsFollowing c' at) h
          (λ d old. follow j d old) in
      let all' =
        clients_remain rest clients (insert clients k c')
          (λ sub (d, old).
            let (d', new_, u) = insert-has (λ d. Unit) clients k sub.1 c' tt (d, old, tt) in
            (d', new_))
          all in
      let (clients', later, mounted, (last, keep)) =
        run_handlers_mount {E = E} rest (insert clients k c') follow' all' in
      (
        clients',
        rw (run, later) refl,
        (keep (n, k) (c', get-insert clients k k c' ∙ rw (==-self k) refl, at), mounted),
        (last, λ sub old. keep sub (insert-has (Mounted id snapshot) clients k sub.1 c' at old)),
      )

moved-IsFetchable :
    (s : MemServerState) (refs : Dict Bytes Bytes) (hashes : List Bytes)
    → All (IsFetchable s) hashes
    → All (IsFetchable (record s { refs = refs })) hashes
moved-IsFetchable s refs [] all = tt
moved-IsFetchable s refs (hash ∷ rest) all = (all.0, moved-IsFetchable s refs rest all.1)

moved-IsFollowing :
    (s : MemServerState) (refs : Dict Bytes Bytes) (c : ClientState)
    → IsFollowing s c none
    → IsFollowing (record s { refs = refs }) c none
moved-IsFollowing s refs c f = record { complete = f.complete; known = f.known; seen = f.seen }

-- A ref is advanced to a snapshot that the server has with all its blobs, over an open channel, and
-- every client follows the server: the call returns, the ref is at the snapshot, the client of every
-- subscription to the workspace has mounted it with every blob in its cache, and all still follow.
pub advance_ref_reaches {ℓ} :
    {E : Type ℓ} (s : MemServerState) (ch : Channel) (ws id : Bytes) (snapshot : LiveSnapshot)
    (clients : Dict ℕ ClientState)
    → is_empty ws ≡ false
    → is_empty id ≡ false
    → get s.snapshots id ≡ some snapshot
    → All (IsFetchable s) (values snapshot.entries)
    → ch.closed ≡ false
    → AllFollow s clients
    → All (HasClient clients) (handlers_of ch ws)
    → (s' : MemServerState) × (clients' : Dict ℕ ClientState) × (◌≡◌
        {A = Outcome E (MemServerState × Dict ℕ ClientState)}
        (advance_ref s ch ws id clients)
        (ok (s', clients')))
      × (get s'.refs ws ≡ some id)
      × All (HasMounted id snapshot clients') (handlers_of ch ws)
      × AllFollow s' clients'
unfolding advance_ref publish
advance_ref_reaches {E = E} s ch ws id snapshot clients some_ws some_id found fetchable not_closed
      follow all =
    let s' : MemServerState = record s { refs = insert s.refs ws id } in
    let (clients', run, mounted, (last, keep)) =
      run_handlers_mount s' ws id snapshot some_ws some_id found
        (moved-IsFetchable s (insert s.refs ws id) (values snapshot.entries) fetchable) {E = E}
        (handlers_of ch ws) clients
        (λ k c there. moved-IsFollowing s (insert s.refs ws id) c (follow k c there)) all in
    (
      s',
      clients',
      rw (some_ws, some_id, not_closed, run) refl,
      get-insert s.refs ws ws id ∙ rw (==-self ws) refl,
      mounted,
      last,
    )
