-- ===== src/Patch/Steps.antt =====
-- The steps of the comparison of two trees, in src/patch.rs: each adds changes of the two trees.
use lunar_fs.Base.{
  ℕ, ◌≡◌, ◌≢◌, refl, sym, ap, ◌∙◌, Any, Bool, true, false, inl, inr, Option, none, some, List, [],
  ◌∷◌, Bytes, Outcome, ok, err, panic, ◌>>=◌, assert, arith, ◌==◌, ==-self, list_eq, nat_eq, leb,
  length, All, if◌then◌else◌,
}
use lunar_fs.Base.Dict.{Dict, get, get-nil}
use lunar_fs.Cas.{Hash, IoError, Blobs, mem_store}
use lunar_fs.Tree.{TreeEntry, deserialize_tree}
use lunar_fs.Patch.{PatchError}
use lunar_fs.Patch.Trees.{
  WorkItem, diff, add_all, delete_all, Progress, blob_size, load_tree, add_entry, delete_entry,
  modify_entry, both_entry, visit, visit_names, diff_level, add_entries, delete_entries, step,
  is_dir, join_path, entry_error, by_name, loop_names,
}
use lunar_fs.Patch.Sides.{
  ListsEntries, Below, EntryAt, SideOf, IsSound, EntryAt-Below, by_name-Any, All-snoc,
}

module _ (hash_bytes : Bytes → Hash) (order : List Bytes → List Bytes) (blobs : Blobs)
    (old_root new_root : Hash) where
  -- A directory on the stack is in the tree that its kind says.
  abbrev pub Placed : WorkItem → Type 0
  Placed (diff prefix old new) = Below blobs old_root prefix old × Below blobs new_root prefix new
  Placed (add_all prefix tree) = Below blobs new_root prefix tree
  Placed (delete_all prefix tree) = Below blobs old_root prefix tree

  abbrev pub Sound : Progress → Type 0
  Sound p = All Placed p.0 × All (IsSound blobs old_root new_root) p.1

  -- A step that has not changed the blobs and has sound changes, if it returned.
  abbrev pub Good : Outcome PatchError (Progress × Blobs) → Type 0
  Good (ok (p, st)) = Sound p × (blobs ≡ st)
  Good (err e) = Unit {0}
  Good panic = Unit {0}

  Good-bind :
      (o : Outcome PatchError (Progress × Blobs))
      (f : Progress × Blobs → Outcome PatchError (Progress × Blobs))
      → Good o
      → ((p : Progress) → Sound p → Good (f (p, blobs)))
      → Good (o >>= f)
  Good-bind (ok (p, st)) f good k = rw (← good.1) (k p good.0)
  Good-bind (err e) f good k = tt
  Good-bind panic f good k = tt

  Good-size :
      (hash : Hash) (f : ℕ × Blobs → Outcome PatchError (Progress × Blobs))
      → ((b : Bytes) → get blobs hash ≡ some b → Good (f (length b, blobs)))
      → Good (blob_size (mem_store hash_bytes) order blobs hash >>= f)
  unfolding blob_size
  Good-size hash f k = after (get blobs hash) refl
    where
      after :
          (found : Option Bytes)
          → get blobs hash ≡ found
          → Good (blob_size (mem_store hash_bytes) order blobs hash >>= f)
      after none e = rw e tt
      after (some b) e = rw e (k b e)

  Good-load :
      (hash : Hash) (f : List TreeEntry × Blobs → Outcome PatchError (Progress × Blobs))
      → ((entries : List TreeEntry) → ListsEntries blobs hash entries → Good (f (entries, blobs)))
      → Good (load_tree (mem_store hash_bytes) order blobs hash >>= f)
  unfolding load_tree
  Good-load hash f k = after (get blobs hash) refl
    where
      parsed :
          (b : Bytes) (o : Outcome IoError (List TreeEntry))
          → get blobs hash ≡ some b
          → deserialize_tree b ≡ o
          → Good (
              ◌>>=◌ {B = List TreeEntry × Blobs} (entry_error o) (λ entries. ok (entries, blobs))
              >>= f)
      parsed b (ok entries) e d = k entries (b, e, d)
      parsed b (err x) e d = tt
      parsed b panic e d = tt

      after :
          (found : Option Bytes)
          → get blobs hash ≡ found
          → Good (load_tree (mem_store hash_bytes) order blobs hash >>= f)
      after none e = rw e tt
      after (some b) e = rw e (parsed b (deserialize_tree b) e refl)

  Good-if :
      (b : Bool) (x y : Outcome PatchError (Progress × Blobs))
      → (b ≡ true → Good x)
      → (b ≡ false → Good y)
      → Good (if b then x else y)
  Good-if true x y gx gy = gx refl
  Good-if false x y gx gy = gy refl

  Good-assert : (b : Bool) (x : Outcome PatchError (Progress × Blobs)) → Good x → Good (assert b x)
  Good-assert true x g = g
  Good-assert false x g = tt

  -- A change to what is at a path, of an entry that is a file there.
  SideOf-file :
      {root : Hash} (path : Bytes) (e : TreeEntry) (b : Bytes)
      → EntryAt blobs root path e
      → is_dir e ≡ false
      → get blobs e.hash ≡ some b
      → SideOf blobs root path (some e.hash) (some (length b))
  SideOf-file path e b at file found = ((e, at, file, refl), (b, found, refl))

  add_entry-Good :
      (path : Bytes) (e : TreeEntry) (p : Progress)
      → EntryAt blobs new_root path e
      → Sound p
      → Good (add_entry (mem_store hash_bytes) order path e p blobs)
  unfolding add_entry
  add_entry-Good path e p at (placed, sound) =
      Good-if (is_dir e) _ _ (λ d. (((EntryAt-Below path e at d, placed), sound), refl))
        λ f. Good-size e.hash _ λ b found. (
          (
            placed,
            All-snoc (IsSound blobs old_root new_root) p.1 _ sound
                (tt, tt, SideOf-file path e b at f found),
          ),
          refl,
        )

  delete_entry-Good :
      (path : Bytes) (e : TreeEntry) (p : Progress)
      → EntryAt blobs old_root path e
      → Sound p
      → Good (delete_entry (mem_store hash_bytes) order path e p blobs)
  unfolding delete_entry
  delete_entry-Good path e p at (placed, sound) =
      Good-if (is_dir e) _ _ (λ d. (((EntryAt-Below path e at d, placed), sound), refl))
        λ f. Good-size e.hash _ λ b found. (
          (
            placed,
            All-snoc (IsSound blobs old_root new_root) p.1 _ sound
                (tt, SideOf-file path e b at f found, tt),
          ),
          refl,
        )

  modify_entry-Good :
      (path : Bytes) (old new : TreeEntry) (p : Progress)
      → EntryAt blobs old_root path old
      → EntryAt blobs new_root path new
      → Sound p
      → old.hash ≢ new.hash
      → Good (modify_entry (mem_store hash_bytes) order path old new p blobs)
  unfolding modify_entry
  modify_entry-Good path old new p was now (placed, sound) apart =
      Good-if (is_dir old) _ _
        (λ d.
          Good-if (is_dir new) _ _
            (λ e. (
              (((EntryAt-Below path old was d, EntryAt-Below path new now e), placed), sound),
              refl,
            ))
            (λ e. Good-size new.hash _ λ b found. (
              (
                (EntryAt-Below path old was d, placed),
                All-snoc (IsSound blobs old_root new_root) p.1 _ sound
                    (tt, tt, SideOf-file path new b now e found),
              ),
              refl,
            )))
        (λ d.
          Good-if (is_dir new) _ _
            (λ e. Good-size old.hash _ λ b found. (
              (
                (EntryAt-Below path new now e, placed),
                All-snoc (IsSound blobs old_root new_root) p.1 _ sound
                    (tt, SideOf-file path old b was d found, tt),
              ),
              refl,
            ))
            (λ e. Good-size old.hash _ λ b there. Good-size new.hash _ λ c found. (
              (
                placed,
                All-snoc (IsSound blobs old_root new_root) p.1 _ sound
                    (apart, SideOf-file path old b was d there, SideOf-file path new c now e found),
              ),
              refl,
            )))

  both_entry-Good :
      (path : Bytes) (old new : TreeEntry) (p : Progress)
      → EntryAt blobs old_root path old
      → EntryAt blobs new_root path new
      → Sound p
      → Good (both_entry (mem_store hash_bytes) order path old new p blobs)
  unfolding both_entry
  both_entry-Good path old new p was now sound =
      Good-if (old.hash == new.hash) _ _ (λ e. (sound, refl))
        λ e.
          modify_entry-Good path old new p was now sound
            (λ same. absurd (ground (arith, ==-self old.hash)))

  -- What a map of a directory gives is in the tree with a root, below a path.
  abbrev Maps : Hash → Bytes → Dict Bytes TreeEntry → Type 0
  Maps root prefix d =
      (name : Bytes) (e : TreeEntry)
      → get d name ≡ some e
      → EntryAt blobs root (join_path prefix name) e

  by_name-Maps :
      {root : Hash} (prefix : Bytes) (tree : Hash) (es : List TreeEntry)
      → Below blobs root prefix tree
      → ListsEntries blobs tree es
      → Maps root prefix (by_name [] es)
  by_name-Maps prefix tree es below lists name e h = elim (by_name-Any [] es name e h) [
    | inl no_ ↦ absurd (let miss = sym (get-nil name) ∙ no_ in ground arith)
    | inr (named, there) ↦ record {
      prefix = prefix;
      tree = tree;
      below = below;
      listed = (es, lists, there);
      joined = ap (join_path prefix) named;
    }
  ]

  visit-Good :
      (prefix name : Bytes) (old new : Option TreeEntry) (p : Progress)
      → ((e : TreeEntry) → old ≡ some e → EntryAt blobs old_root (join_path prefix name) e)
      → ((e : TreeEntry) → new ≡ some e → EntryAt blobs new_root (join_path prefix name) e)
      → Sound p
      → Good (visit (mem_store hash_bytes) order prefix name old new p blobs)
  unfolding visit
  visit-Good prefix name (some old) (some new) p was now sound =
      both_entry-Good (join_path prefix name) old new p (was old refl) (now new refl) sound
  visit-Good prefix name (some old) none p was now sound =
      delete_entry-Good (join_path prefix name) old p (was old refl) sound
  visit-Good prefix name none (some new) p was now sound =
      add_entry-Good (join_path prefix name) new p (now new refl) sound
  visit-Good prefix name none none p was now sound = (sound, refl)

  visit_names-Good :
      (prefix : Bytes) (olds news : Dict Bytes TreeEntry) (names : List Bytes) (p : Progress)
      → Maps old_root prefix olds
      → Maps new_root prefix news
      → Sound p
      → Good (visit_names (mem_store hash_bytes) order prefix olds news names p blobs)
  unfolding visit_names
  visit_names-Good prefix olds news [] p was now sound = (sound, refl)
  visit_names-Good prefix olds news (name ∷ rest) p was now sound =
      Good-bind _ _
        (visit-Good prefix name (get olds name) (get news name) p (was name) (now name) sound)
        λ p' sound'. visit_names-Good prefix olds news rest p' was now sound'

  -- The entries of a directory of the tree with a root, below a path.
  abbrev Listed : Hash → Bytes → List TreeEntry → Type 0
  Listed root prefix es = All (λ e. EntryAt blobs root (join_path prefix e.name) e) es

  Listed-from :
      {root : Hash} (prefix : Bytes) (tree : Hash) (all es : List TreeEntry)
      → Below blobs root prefix tree
      → ListsEntries blobs tree all
      → ((e : TreeEntry) → Any (λ x. x ≡ e) es → Any (λ x. x ≡ e) all)
      → Listed root prefix es
  Listed-from prefix tree all [] below lists within = tt
  Listed-from prefix tree all (e ∷ rest) below lists within = (
    record {
      prefix = prefix;
      tree = tree;
      below = below;
      listed = (all, lists, within e (inl refl));
      joined = refl;
    },
    Listed-from prefix tree all rest below lists (λ x there. within x (inr there)),
  )

  add_entries-Good :
      (prefix : Bytes) (es : List TreeEntry) (p : Progress)
      → Listed new_root prefix es
      → Sound p
      → Good (add_entries (mem_store hash_bytes) order prefix es p blobs)
  unfolding add_entries
  add_entries-Good prefix [] p listed sound = (sound, refl)
  add_entries-Good prefix (e ∷ rest) p listed sound =
      Good-bind _ _ (add_entry-Good (join_path prefix e.name) e p listed.0 sound)
        λ p' sound'. add_entries-Good prefix rest p' listed.1 sound'

  delete_entries-Good :
      (prefix : Bytes) (es : List TreeEntry) (p : Progress)
      → Listed old_root prefix es
      → Sound p
      → Good (delete_entries (mem_store hash_bytes) order prefix es p blobs)
  unfolding delete_entries
  delete_entries-Good prefix [] p listed sound = (sound, refl)
  delete_entries-Good prefix (e ∷ rest) p listed sound =
      Good-bind _ _ (delete_entry-Good (join_path prefix e.name) e p listed.0 sound)
        λ p' sound'. delete_entries-Good prefix rest p' listed.1 sound'

  pub step-Good :
      (item : WorkItem) (p : Progress)
      → Placed item
      → Sound p
      → Good (step (mem_store hash_bytes) order item p blobs)
  unfolding step diff_level
  step-Good (diff prefix old new) p (was, now) sound =
      Good-if (old == new) _ _ (λ e. (sound, refl))
        λ e. Good-load old _ λ olds in_old. Good-load new _ λ news in_new.
          let names = loop_names (mem_store hash_bytes) order (by_name [] olds) (by_name [] news) in
          let loops : Outcome PatchError (Progress × Blobs) =
            visit_names (mem_store hash_bytes) order prefix (by_name [] olds) (by_name [] news)
              names p blobs in
          Good-assert (leb (length olds) 65_536) (assert (leb (length news) 65_536) loops) (
            Good-assert (leb (length news) 65_536) loops (
              visit_names-Good prefix (by_name [] olds) (by_name [] news) names p
                (by_name-Maps prefix old olds was in_old) (by_name-Maps prefix new news now in_new)
                sound))
  step-Good (add_all prefix tree) p now sound = Good-load tree _ λ entries lists.
      add_entries-Good prefix entries p
        (Listed-from prefix tree entries entries now lists (λ e there. there)) sound
  step-Good (delete_all prefix tree) p was sound = Good-load tree _ λ entries lists.
      delete_entries-Good prefix entries p
        (Listed-from prefix tree entries entries was lists (λ e there. there)) sound
