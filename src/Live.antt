-- ===== src/Live.antt =====
-- src/live_sync.rs: clients that follow a ref, by its events or by polling.
-- The handlers of the channel are those that `subscribe_live` makes: each stands for a client. A
-- lock that is held for a part of a call is held for all of it here.
pub mod Broadcast
pub mod Mounts
use lunar_fs.Base.{
  ℕ, ◌+◌, Bool, true, false, not, Option, none, some, List, [], ◌∷◌, ◌++◌, Bytes, Outcome, ok, err,
  panic, ◌>>=◌, assert, ok_or, ◌==◌, list_eq, nat_eq, contains, ◌=ℕ=◌, filter, if◌then◌else◌,
}
use lunar_fs.Base.Dict.{Dict, get, insert}
use lunar_fs.Base.Text.{is_empty}

-- A map from paths to hashes, which are texts.
abbrev pub Entries : Type 0
Entries = Dict Bytes Bytes

pub record LiveSnapshot : Type 0 where
  pub id : Bytes
  pub entries : Entries

pub record RefMoveEvent : Type 0 where
  pub workspace_id : Bytes
  pub snapshot_id : Bytes

pub record ClientMount : Type 0 where
  pub snapshot_id : Option Bytes
  pub entries : Entries

pub record ReconcileResult : Type 0 where
  pub snapshot_id : Bytes
  pub fetched_blobs : List Bytes
  pub skipped_blobs : List Bytes

pub data ReconcileError : Type 0 where
  snapshot_not_found : Bytes → ReconcileError
  blob_fetch_failed : Bytes → ReconcileError

-- `MemServerState`
pub record MemServerState : Type 0 where
  pub refs : Dict Bytes Bytes
  pub snapshots : Dict Bytes LiveSnapshot
  pub blobs : Dict Bytes Bytes

pub record ClientState : Type 0 where
  pub mount : ClientMount
  pub blob_cache : List Bytes

abbrev pub new_client : ClientState
new_client = record { mount = record { snapshot_id = none; entries = [] }; blob_cache = [] }

-- `entries.values()`, in the order in which the map gives them.
abbrev pub values : Entries → List Bytes
values [] = []
values ((path, hash) ∷ rest) = hash ∷ values rest

unfoldable pub get_ref {ℓ} : {E : Type ℓ} → MemServerState → Bytes → Outcome E (Option Bytes)
get_ref s ws = assert (not (is_empty ws)) (ok (get s.refs ws))

unfoldable pub get_snapshot {ℓ} :
    {E : Type ℓ} → MemServerState → Bytes → Outcome E (Option LiveSnapshot)
get_snapshot s id = assert (not (is_empty id)) (ok (get s.snapshots id))

unfoldable pub get_blob {ℓ} : {E : Type ℓ} → MemServerState → Bytes → Outcome E (Option Bytes)
get_blob s hash = assert (not (is_empty hash)) (ok (get s.blobs hash))

-- The hashes that are not in the cache, and those that are.
unfoldable pub partition : List Bytes → List Bytes → List Bytes × List Bytes
partition cache [] = ([], [])
partition cache (hash ∷ rest) =
    let later : List Bytes × List Bytes = partition cache rest in
    if contains cache hash then (later.0, hash ∷ later.1) else (hash ∷ later.0, later.1)

-- The loop that fetches.
unfoldable pub fetch_all : MemServerState → List Bytes → Outcome ReconcileError (List Bytes)
unfolding get_blob
fetch_all s [] = ok []
fetch_all s (hash ∷ rest) = get_blob s hash >>= λ found.
    ok_or found (blob_fetch_failed hash) >>= λ bytes.
    fetch_all s rest >>= λ fetched. ok (hash ∷ fetched)

unfoldable pub add_all : List Bytes → List Bytes → List Bytes
add_all [] cache = cache
add_all (hash ∷ rest) cache =
    let grown = if contains cache hash then cache else hash ∷ cache in add_all rest grown

-- `mount.snapshot_id.as_deref() == Some(id)`
unfoldable pub is_at : ClientState → Bytes → Bool
is_at c id = elim c.mount.snapshot_id [ none ↦ false | some current ↦ current == id ]

-- From a snapshot to the mount of it.
unfoldable pub mount_snapshot :
    MemServerState
    → ClientState
    → Bytes
    → LiveSnapshot
    → Outcome ReconcileError (ReconcileResult × ClientState)
unfolding partition fetch_all add_all
mount_snapshot s c id snapshot =
    let split : List Bytes × List Bytes = partition c.blob_cache (values snapshot.entries) in
    fetch_all s split.0 >>= λ fetched. ok (
      record { snapshot_id = id; fetched_blobs = fetched; skipped_blobs = split.1 },
      record {
        mount = record { snapshot_id = some id; entries = snapshot.entries };
        blob_cache = add_all fetched c.blob_cache;
      },
    )

-- `ClientReconciler::reconcile`
unfoldable pub reconcile :
    MemServerState
    → ClientState
    → Bytes
    → Bytes
    → Outcome ReconcileError (ReconcileResult × ClientState)
unfolding is_at get_snapshot mount_snapshot
reconcile s c ws id = assert (not (is_empty ws)) (
    assert (not (is_empty id)) (
      if is_at c id
      then ok (
        record { snapshot_id = id; fetched_blobs = []; skipped_blobs = values c.mount.entries },
        c,
      )
      else (get_snapshot s id >>= λ found.
          ok_or found (snapshot_not_found id) >>= λ snapshot. mount_snapshot s c id snapshot)))

-- `InProcessNotifyChannel`: of each workspace, the ids of the subscriptions with their clients.
pub record Channel : Type 0 where
  pub next_id : ℕ
  pub handlers : Dict Bytes (List (ℕ × ℕ))
  pub closed : Bool

abbrev pub handlers_of : Channel → Bytes → List (ℕ × ℕ)
handlers_of ch ws = elim (get ch.handlers ws) [ none ↦ [] | some subs ↦ subs ]

unfoldable pub subscribe {ℓ} : {E : Type ℓ} → Channel → Bytes → ℕ → Outcome E (ℕ × Channel)
subscribe ch ws client = assert (not (is_empty ws)) (
    assert (not ch.closed) (
      ok (
        ch.next_id,
        record ch {
          next_id = ch.next_id + 1;
          handlers = insert ch.handlers ws (handlers_of ch ws ++ ((ch.next_id, client) ∷ []));
        },
      )))

-- What dropping the guard of a subscription does.
unfoldable pub unsubscribe : Channel → Bytes → ℕ → Channel
unsubscribe ch ws sub_id = elim (get ch.handlers ws) [
  | none ↦ ch
  | some subs ↦ record ch {
    handlers = insert ch.handlers ws (filter (λ s. not (s.0 =ℕ= sub_id)) subs);
  }
]

unfoldable pub close : Channel → Channel
close ch = record ch { handlers = []; closed = true }

-- A handler: an error is only logged.
abbrev pub logged {ℓ} :
    {E : Type ℓ}
    → ClientState
    → Outcome ReconcileError (ReconcileResult × ClientState)
    → Outcome E ClientState
logged c (ok (result, c')) = ok c'
logged c (err e) = ok c
logged c panic = panic

-- The handler of one client.
unfoldable pub run_handler {ℓ} :
    {E : Type ℓ}
    → MemServerState
    → Bytes
    → Bytes
    → ℕ
    → Dict ℕ ClientState
    → Outcome E (Dict ℕ ClientState)
unfolding reconcile
run_handler s ws id client clients = elim (get clients client) [
  | none ↦ ok clients
  | some c ↦ logged c (reconcile s c ws id) >>= λ c'. ok (insert clients client c')
]

-- The loop of `publish` over the handlers.
unfoldable pub run_handlers {ℓ} :
    {E : Type ℓ}
    → MemServerState
    → Bytes
    → Bytes
    → List (ℕ × ℕ)
    → Dict ℕ ClientState
    → Outcome E (Dict ℕ ClientState)
unfolding run_handler
run_handlers s ws id [] clients = ok clients
run_handlers s ws id ((sub, client) ∷ rest) clients =
    run_handler s ws id client clients >>= λ clients'. run_handlers s ws id rest clients'

unfoldable pub publish {ℓ} :
    {E : Type ℓ}
    → MemServerState
    → Channel
    → RefMoveEvent
    → Dict ℕ ClientState
    → Outcome E (Dict ℕ ClientState)
unfolding run_handlers
publish s ch event clients = assert (not (is_empty event.workspace_id)) (
    assert (not (is_empty event.snapshot_id)) (
      if ch.closed
      then ok clients
      else run_handlers s event.workspace_id event.snapshot_id (handlers_of ch event.workspace_id)
          clients))

-- `MemServerApi::advance_ref`, with the clients that hear of it.
unfoldable pub advance_ref {ℓ} :
    {E : Type ℓ}
    → MemServerState
    → Channel
    → Bytes
    → Bytes
    → Dict ℕ ClientState
    → Outcome E (MemServerState × Dict ℕ ClientState)
unfolding publish
advance_ref s ch ws id clients = assert (not (is_empty ws)) (
    assert (not (is_empty id)) (
      let s' : MemServerState = record s { refs = insert s.refs ws id } in
      publish s' ch (record { workspace_id = ws; snapshot_id = id }) clients >>= λ clients'.
      ok (s', clients')))

-- `PollingFallback::tick`, over a client and the ref that was seen last; an error is only logged.
unfoldable pub settle_tick :
    Bytes
    → ClientState
    → Option Bytes
    → Outcome ReconcileError (ReconcileResult × ClientState)
    → Outcome ReconcileError (Option ReconcileResult × (ClientState × Option Bytes))
settle_tick current c last (ok (result, c')) = ok (some result, (c', some current))
settle_tick current c last (err e) = ok (none, (c, last))
settle_tick current c last panic = panic

abbrev pub is_seen : Option Bytes → Bytes → Bool
is_seen none current = false
is_seen (some last) current = last == current

unfoldable pub tick :
    MemServerState
    → Bytes
    → ClientState
    → Option Bytes
    → Outcome ReconcileError (Option ReconcileResult × (ClientState × Option Bytes))
unfolding get_ref settle_tick reconcile
tick s ws c last = assert (not (is_empty ws)) (
    get_ref s ws >>= λ found. elim found [
      | none ↦ ok (none, (c, last))
      | some current ↦
          if is_seen last current
          then ok (none, (c, last))
          else settle_tick current c last (reconcile s c ws current)
    ])
