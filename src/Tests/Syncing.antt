-- ===== src/Tests/Syncing.antt =====
-- An engine whose server has a root that it does not expect.
use lunar_fs.Base.{
  ℕ, ◌≡◌, refl, sym, ◌∙◌, ◌≢◌, false, Bool-cases, inl, inr, Option, none, some, [], ◌∷◌, Bytes,
  Outcome, ok, ◌==◌, ==-self, ==-sound, All, arith, list_eq, nat_eq, if◌then◌else◌,
}
use lunar_fs.Base.Text.{ascii, is_empty}
use lunar_fs.Base.Dict.{Dict, get}
use lunar_fs.Live.{
  LiveSnapshot, MemServerState, ClientState, ReconcileError, ReconcileResult, new_client, values,
  tick, Channel, handlers_of, advance_ref,
}
use lunar_fs.Live.Broadcast.{AllFollow, HasClient, HasMounted, advance_ref_reaches}
use lunar_fs.Live.Mounts.{IsFetchable, IsFollowing, Mounted, tick_follows}
use lunar_fs.Autosync.{
  Seams, Engine, Settings, SyncError, PushOutcome, landed, conflict, human, DebounceGate, on_event,
  pipeline_inner,
}
use lunar_fs.Autosync.Debounce.{fires, is_reached, fires-on_event}
use lunar_fs.Autosync.Pipeline.{IsQuiet, Published, pipeline_publishes}

abbrev ours : Bytes
ours = ascii "ours"

-- The world is the server's root.
unfoldable swap_root : Bytes → Bytes → Option Bytes → Outcome SyncError (PushOutcome × Bytes)
swap_root remote root none = ok (landed 1, root)
swap_root remote root (some expected) =
    if (remote == expected) then ok (landed 1, root) else ok (conflict remote, remote)

abbrev server : Seams Bytes
server = record {
  now_ms = λ w. 9;
  drain = λ w. ([], w);
  snapshot = λ w. ok (ours, w);
  push = λ w workspace root expected. swap_root w root expected;
  rebase = λ w workspace. ok (w, w);
}

swap-same : (w root : Bytes) → swap_root w root (some w) ≡ ok (landed 1, root)
unfolding swap_root
swap-same w root = rw (==-self w) refl

swap-stale : (w root stale : Bytes) → w ≢ stale → swap_root w root (some stale) ≡ ok (conflict w, w)
unfolding swap_root
swap-stale w root stale apart = elim (Bool-cases (w == stale)) [
  | inl e ↦ absurd (apart (==-sound w stale e))
  | inr e ↦ rw e refl
]

abbrev settings : Settings
settings = record { workspace = ascii "w"; kind = human; disabled = false }

server-IsQuiet : IsQuiet server settings.workspace (λ w. w) ours
unfolding swap_root
server-IsQuiet = record {
  snapshot = λ w. (w, refl, refl);
  push_expected = λ w root. (1, root, swap-same w root, refl);
  push_first = λ w root. (1, root, refl, refl);
  push_stale = λ w root stale apart. (w, swap-stale w root stale apart, refl);
  rebase = λ w. (w, refl, refl);
}

abbrev quiet_gate : DebounceGate
quiet_gate = record { debounce_ms = 300; last_event_ms = none; settled = false }

abbrev engine : Engine Bytes
engine = record {
  world = ascii "theirs";
  gate = quiet_gate;
  expected_root = some (ascii "old");
  pending_paths = [];
}

ours_is_some : is_empty ours ≡ false
unfolding is_empty
ours_is_some = refl

named : is_empty settings.workspace ≡ false
unfolding is_empty
named = refl

pipeline_publishes_example :
    Published server settings
      (λ w. w)
      ours
      server-IsQuiet
      ours_is_some
      (pipeline_inner server settings)
      engine
pipeline_publishes_example =
    pipeline_publishes server settings (λ w. w) ours server-IsQuiet ours_is_some engine named

fires-on_event_example :
    fires (200 ∷ 400 ∷ 900 ∷ []) (on_event 50 quiet_gate)
    ≡ (if is_reached 300 50 (200 ∷ 400 ∷ 900 ∷ []) then 1 else 0)
fires-on_event_example = fires-on_event (200 ∷ 400 ∷ 900 ∷ []) 50 quiet_gate

abbrev the_snapshot : LiveSnapshot
the_snapshot = record { id = ascii "s"; entries = (ascii "f", ascii "h") ∷ [] }

abbrev live_server : MemServerState
live_server = record {
  refs = (ascii "w", ascii "s") ∷ [];
  snapshots = (ascii "s", the_snapshot) ∷ [];
  blobs = (ascii "h", ascii "hi") ∷ [];
}

w_is_some : is_empty (ascii "w") ≡ false
unfolding is_empty
w_is_some = refl

s_is_some : is_empty (ascii "s") ≡ false
unfolding is_empty
s_is_some = refl

has_snapshot : get live_server.snapshots (ascii "s") ≡ some the_snapshot
unfolding get lunar_fs.Base.list_dec native.Mathlib.Decide.ℕ_discrete
has_snapshot = refl

has_ref : get live_server.refs (ascii "w") ≡ some (ascii "s")
unfolding get lunar_fs.Base.list_dec native.Mathlib.Decide.ℕ_discrete
has_ref = refl

has_blobs : All (IsFetchable live_server) (values the_snapshot.entries)
unfolding is_empty get lunar_fs.Base.list_dec native.Mathlib.Decide.ℕ_discrete
has_blobs = ((refl, (ascii "hi", refl)), tt)

new_client-IsFollowing : IsFollowing live_server new_client none
new_client-IsFollowing = record {
  complete = tt;
  known = λ id snapshot at stored. absurd (ground arith);
  seen = λ id h. absurd (ground arith);
}

tick_follows_example :
    (r : Option ReconcileResult) × (c' : ClientState) × (tick live_server
        (ascii "w")
        new_client
        none
      ≡ ok (r, (c', some (ascii "s"))))
    × Mounted (ascii "s") the_snapshot c'
    × IsFollowing live_server c' (some (ascii "s"))
tick_follows_example =
    tick_follows live_server new_client (ascii "w") (ascii "s") the_snapshot w_is_some s_is_some
      has_snapshot has_blobs none new_client-IsFollowing has_ref

-- A workspace with two subscribers, whose ref is not yet at the snapshot.
abbrev live_channel : Channel
live_channel = record {
  next_id = 2;
  handlers = (ascii "v", (0, 7) ∷ (1, 8) ∷ []) ∷ [];
  closed = false;
}

abbrev live_clients : Dict ℕ ClientState
live_clients = (7, new_client) ∷ (8, new_client) ∷ []

v_is_some : is_empty (ascii "v") ≡ false
unfolding is_empty
v_is_some = refl

has_clients : All (HasClient live_clients) (handlers_of live_channel (ascii "v"))
unfolding get lunar_fs.Base.list_dec native.Mathlib.Decide.ℕ_discrete
has_clients = ((new_client, refl), ((new_client, refl), tt))

only_new_clients : (k : ℕ) (c : ClientState) → get live_clients k ≡ some c → new_client ≡ c
unfolding get
only_new_clients k c h = elim (Bool-cases (7 == k)) [
  | inl e ↦
      let both : ◌≡◌ {A = Option ClientState} (some new_client) (some c) = sym (rw e refl) ∙ h in
      ground arith
  | inr e ↦ elim (Bool-cases (8 == k)) [
    | inl f ↦
        let both : ◌≡◌ {A = Option ClientState} (some new_client) (some c) =
          sym (rw (e, f) refl) ∙ h in
        ground arith
    | inr f ↦
        let no_ : ◌≡◌ {A = Option ClientState} none (some c) = sym (rw (e, f) refl) ∙ h in
        absurd (ground arith)
  ]
]

live_clients-AllFollow : AllFollow live_server live_clients
live_clients-AllFollow k c h =
    coe 0 1 (i. IsFollowing live_server (only_new_clients k c h i) none) new_client-IsFollowing

advance_ref_reaches_example :
    (s' : MemServerState) × (clients' : Dict ℕ ClientState) × (◌≡◌
      {A = Outcome ReconcileError (MemServerState × Dict ℕ ClientState)}
      (advance_ref live_server live_channel (ascii "v") (ascii "s") live_clients)
      (ok (s', clients')))
    × (get s'.refs (ascii "v") ≡ some (ascii "s"))
    × All (HasMounted (ascii "s") the_snapshot clients') (handlers_of live_channel (ascii "v"))
    × AllFollow s' clients'
advance_ref_reaches_example =
    advance_ref_reaches live_server live_channel (ascii "v") (ascii "s") the_snapshot live_clients
      v_is_some s_is_some has_snapshot has_blobs refl live_clients-AllFollow has_clients
