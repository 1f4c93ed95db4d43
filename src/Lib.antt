-- ===== src/Lib.antt =====
-- LunarFS: a content-addressed file system for agents, each of which sees a shared base through its
-- own overlay of writes and deletions.
--
-- Parts and files. Files of the source are named from the repository's root.
--   Blobs and trees. Cas models src/cas.rs (`hash_to_hex`, `hex_to_hash`, `MemStore`,
--     `HydratingStore::get`), Tree models src/tree.rs (`serialize_tree`, `deserialize_tree`), Index
--     models src/index.rs (`Index::build` and the lookups). An index is built from a tree of the
--     blob store; a store is a record of operations on a state, and the index and the routes take
--     any store.
--   Overlays. Overlay models src/overlay.rs: the tables `agents`, `agent_overlay` and
--     `workspace_roots` are maps of the record `OverlayStore`; each method is a function of the
--     same name, and `fork_workspace` runs over an overlay and the grants of Auth.
--   Access. Acl models the decision of src/acl.rs, Acl.Table its table of rules, Auth models src/auth/acl.rs with `role_of` of
--     src/auth/repo.rs.
--   File system calls. Fuse models src/fuse.rs (`route_read`, `route_write`, `route_delete`,
--     `is_tombstoned`), Fuse.Translate models src/fuse/translate.rs, Fuse.Resolve models
--     src/fuse/resolve.rs, which asks Acl first, then the overlay, then the index and the store.
--     Projfs models src/backend/projfs_logic.rs over these calls, and Ids, with Ids.Subtree, models
--     the file numbers of src/nfs/ids.rs.
--   Merging. Merge and Merge.Naming model src/merge.rs, RefAdvance models src/ref_advance.rs, and
--     Reconcile, with Reconcile.Snapshots, models src/reconcile.rs: the loop that merges and
--     advances a ref until no other writer is in between.
--   NFS. Nfs models src/nfs/fs.rs over Ids, Overlay and Fuse: the record `Mount` has the fields of
--     `CasNfs` that never change, the record `CasNfs` those that do, with the blobs of its store.
--     Nfs.View models src/nfs/overlay_view.rs, Nfs.Files the helpers on bytes, attributes and names,
--     Nfs.Handlers the handlers of the trait, and Nfs.Requests a sequence of requests. A handler is
--     a `Call` of Base.Calls: the state comes back beside its result, also beside an error.
--   Patches. Patch models the text of src/patch.rs (`extract_patch`, `append_file_diff`), Patch.Trees
--     its `diff_trees` and `render_patch`.
--   Automatic synchronization. Autosync models the gate and the engine of src/autosync.rs over a
--     record of operations on a world, `Seams`, for its four traits; Autosync.Noise models
--     `is_noise_path`.
--   Live clients. Live models src/live_sync.rs: `MemServerApi`, `InProcessNotifyChannel`,
--     `ClientReconciler` and `PollingFallback`. A subscription stands for the client that
--     `subscribe_live` makes it for.
--   Names. Names models src/resolve.rs, with the default host and the record of options of
--     src/config.rs.
--   Base holds what they share: outcomes (`ok`, `err`, or `panic` for a failed assertion), lists,
--     association lists, text as bytes, integers. Tests holds runs on concrete inputs.
--   The other files of a directory prove what their first line says of the part above them.
--
-- How the code is modelled.
--   Numbers are natural numbers; times that are compared are integers. Row ids and the times that
--     are only stored are not negative, as the source asserts. The snapshot counter wraps at 2^64;
--     in `route_read` the sum of an offset and a size, and the next file number, are taken to stay
--     below it, and the NFS read, whose offsets are the client's, panics where the sum does not.
--   A `HashMap` is an association list. Where the order in which one is iterated shows in the
--     result, that order is an argument: of `merge_snapshots`, of `reconcile`, of `rename_subtree`, of
--     `diff_trees`, and of the record `Mount`; so is the order in which a query without one gives the
--     rows of the table of rules.
--   A call that holds a lock throughout is one step on the state. In `reconcile`, whose calls lock
--     one by one, `others` acts on the stores between the calls. The NFS server answers one request
--     at a time. A step of a handler that fails inside a called function leaves the state as before
--     that step.
--   BLAKE3, the remote blob source, `to_lowercase`, `from_utf8_lossy` and the constants of libc are parameters. What is
--     asked of them stands in each theorem: that a hash has 32 bytes, that one byte string has no
--     collision.
--   Messages of errors are dropped. The database answers every statement.
--   Bounds are the source's: `reconcile` tries at most `max_retries` times, at most 100;
--     `deserialize_tree` reads at most 65536 entries, `Index::build` visits at most 65536 trees,
--     `diff_trees` takes at most 262144 items, and the engine pushes at most 3 times. These limits
--     are the fuel of `attempts`, `read_entries`, `walk`, `diff_loop` and `Autosync.attempts`, which
--     end with the error that the source gives. `Patch.digits` has more steps than a number has
--     digits. Every other loop is structural.
--
-- Not modelled: file and network I/O (`FsStore`, src/sync.rs, src/remote.rs, src/serve.rs,
-- the watcher of src/autosync.rs, the sockets of src/live_sync.rs), users, organisations
-- and tokens but for `role_of`, the mounts and their foreign functions
-- (src/fuse/ops.rs, src/fuse_t, src/backend, src/nfs/serve.rs), ingestion, the differences of
-- workspaces, and the command line.
pub mod Base
pub mod Merge
pub mod RefAdvance
pub mod Reconcile
pub mod Acl
pub mod Cas
pub mod Tree
pub mod Auth
pub mod Overlay
pub mod Index
pub mod Fuse
pub mod Ids
pub mod Projfs
pub mod Names
pub mod Nfs
pub mod Patch
pub mod Autosync
pub mod Live
mod Tests
