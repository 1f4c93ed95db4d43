-- ===== src/Projfs/Agreement.antt =====
-- The Windows backend's answers against those of the calls it stands on.
use lunar_fs.Base.{
  ℕ, ◌≤◌, ◌≡◌, refl, inl, inr, Bool, true, false, ◌||◌, Option, List, [], ◌∷◌, Bytes, ok, err,
  >>=-eq-ok, assert-eq-ok, ◌==◌, list_eq, nat_eq, leb, le→leb, length, min, All, arith, Bool-cases,
  ◌=ℕ=◌,
}
use lunar_fs.Acl
use lunar_fs.Acl.{decide}
use lunar_fs.Cas.{Store}
use lunar_fs.Index.{Index}
use lunar_fs.Tree.{bytes_leb}
use lunar_fs.Tree.Order.{bytes_leb_total, bytes_leb_trans}
use lunar_fs.Overlay.{OverlayStore}
use lunar_fs.Fuse.Translate.{DirEntry, access_denied, dot, dot_dot}
use lunar_fs.Fuse.Resolve.{Caller, seam, resolve_readdir}
use lunar_fs.Fuse.Sizes.{resolve_read-length}
use lunar_fs.Projfs.{
  ProjFsDirEntry, ProjFsWriteOp, insert_entry, sort_entries, entry_size, sized, enumerate_dir,
  read_file_data, apply_write_notification, max_read, kind_is_dir,
}

-- `read_file_data` returns at most as many bytes as were asked for, and at most 128 MiB.
pub read_file_data-length :
    (S : Store) (st st' : S.State) (index : Index) (c : Caller) (path b : Bytes) (offset wanted : ℕ)
    → read_file_data S st index c path offset wanted ≡ ok (b, st')
    → (length b ≤ wanted) × (length b ≤ max_read)
unfolding read_file_data
read_file_data-length S st st' index c path b offset wanted h =
    let (p, k1) = assert-eq-ok (leb (length path) 4096) h in
    let (q, k2) = assert-eq-ok (leb (length c.principal) 256) k1 in
    elim (Bool-cases (wanted =ℕ= 0)) [
      | inl zero_ ↦ let e : [] ≡ b = ground arith in rw (← e) (omega arith, omega arith)
      | inr more ↦
          let bound =
            resolve_read-length S st index path offset (min wanted max_read) c b st'
              (rw more at k2) in
          (omega (arith, bound), omega (arith, bound))
    ]

-- A write or deletion that the rules refuse is answered by a refusal whatever else is given, so
-- that neither the store nor the overlay is replaced.
pub write_refused :
    (S : Store) (st : S.State) (ov : OverlayStore) (c : Caller) (workspace : ℕ) (path : Bytes)
    (op : ProjFsWriteOp) (bytes : Option Bytes)
    → length path ≤ 4096
    → length c.principal ≤ 256
    → decide c.acl path c.principal c.now Acl.Permission.write ≡ ok Acl.refuse
    → apply_write_notification S st ov c workspace path op bytes ≡ err access_denied
unfolding apply_write_notification
write_refused S st ov c workspace path op bytes short short' refused =
    rw (le→leb (length path) 4096 short, le→leb (length c.principal) 256 short', refused) refl

module _ (to_lowercase : Bytes → Bytes) where
  -- Each entry's name is, in lower case, at most the next one's.
  abbrev pub IsOrdered : List ProjFsDirEntry → Type 0
  IsOrdered [] = Unit
  IsOrdered (e ∷ rest) =
      All (λ f. bytes_leb (to_lowercase e.name) (to_lowercase f.name) ≡ true) rest × IsOrdered rest

  insert_entry-All :
      (P : ProjFsDirEntry → Type 0) (e : ProjFsDirEntry) (es : List ProjFsDirEntry)
      → P e
      → All P es
      → All P (insert_entry to_lowercase e es)
  unfolding insert_entry
  insert_entry-All P e [] p ps = (p, tt)
  insert_entry-All P e (f ∷ rest) p ps =
      elim (Bool-cases (bytes_leb (to_lowercase e.name) (to_lowercase f.name))) [
        | inl first ↦ rw first (p, ps)
        | inr later ↦ rw later (ps.0, insert_entry-All P e rest p ps.1)
      ]

  sort_entries-All :
      (P : ProjFsDirEntry → Type 0) (es : List ProjFsDirEntry)
      → All P es
      → All P (sort_entries to_lowercase es)
  unfolding sort_entries
  sort_entries-All P [] ps = tt
  sort_entries-All P (e ∷ rest) ps = insert_entry-All P e _ ps.0 (sort_entries-All P rest ps.1)

  All-below :
      (e f : ProjFsDirEntry) (es : List ProjFsDirEntry)
      → bytes_leb (to_lowercase e.name) (to_lowercase f.name) ≡ true
      → All (λ g. bytes_leb (to_lowercase f.name) (to_lowercase g.name) ≡ true) es
      → All (λ g. bytes_leb (to_lowercase e.name) (to_lowercase g.name) ≡ true) es
  All-below e f [] h hs = tt
  All-below e f (g ∷ rest) h hs = (
    bytes_leb_trans (to_lowercase e.name) (to_lowercase f.name) (to_lowercase g.name) h hs.0,
    All-below e f rest h hs.1,
  )

  insert_entry-IsOrdered :
      (e : ProjFsDirEntry) (es : List ProjFsDirEntry)
      → IsOrdered es
      → IsOrdered (insert_entry to_lowercase e es)
  unfolding insert_entry
  insert_entry-IsOrdered e [] o = (tt, tt)
  insert_entry-IsOrdered e (f ∷ rest) o =
      elim (Bool-cases (bytes_leb (to_lowercase e.name) (to_lowercase f.name))) [
        | inl first ↦ rw first ((first, All-below e f rest first o.0), o)
        | inr later ↦ rw later (
          insert_entry-All _ e rest
              (bytes_leb_total (to_lowercase e.name) (to_lowercase f.name) later) o.0,
          insert_entry-IsOrdered e rest o.1,
        )
      ]

  sort_entries-IsOrdered : (es : List ProjFsDirEntry) → IsOrdered (sort_entries to_lowercase es)
  unfolding sort_entries
  sort_entries-IsOrdered [] = tt
  sort_entries-IsOrdered (e ∷ rest) = insert_entry-IsOrdered e _ (sort_entries-IsOrdered rest)

-- Neither of the dot entries.
abbrev pub IsNamed : ProjFsDirEntry → Type 0
IsNamed e = ((e.name == dot) ≡ false) × ((e.name == dot_dot) ≡ false)

or_false : (a b : Bool) → (a || b) ≡ false → (a ≡ false) × (b ≡ false)
or_false a b h = ground arith

sized-IsNamed :
    (S : Store) (st st' : S.State) (index : Index) (c : Caller) (path : Bytes) (raw : List DirEntry)
    (out : List ProjFsDirEntry)
    → sized S st index c path raw ≡ ok (out, st')
    → All IsNamed out
unfolding sized
sized-IsNamed S st st' index c path [] out h = let e : [] ≡ out = ground arith in rw (← e) tt
sized-IsNamed S st st' index c path (entry ∷ rest) out h =
    elim (Bool-cases ((entry.name == dot) || (entry.name == dot_dot))) [
      | inl dots ↦ sized-IsNamed S st st' index c path rest out (rw dots at h)
      | inr named ↦
          let ((size, st1), e1, k1) =
            >>=-eq-ok (entry_size S st index c path entry) _ (rw named at h) in
          let ((more, st2), e2, k2) = >>=-eq-ok (sized S st1 index c path rest) _ k1 in
          let e : record { name = entry.name; is_dir = kind_is_dir entry.kind; size = size } ∷ more
              ≡ out =
            ground arith in
          rw (← e) (
            or_false (entry.name == dot) (entry.name == dot_dot) named,
            sized-IsNamed S st1 st2 index c path rest more e2,
          )
    ]

-- The entries of a directory come in the order of their lower-case names, and none is "." or "..".
pub enumerate_dir-IsOrdered :
    (to_lowercase : Bytes → Bytes) (S : Store) (st st' : S.State) (index : Index) (c : Caller)
    (path : Bytes) (out : List ProjFsDirEntry)
    → enumerate_dir S to_lowercase st index c path ≡ ok (out, st')
    → IsOrdered to_lowercase out × All IsNamed out
unfolding enumerate_dir
enumerate_dir-IsOrdered to_lowercase S st st' index c path out h =
    let (p, k1) = assert-eq-ok (leb (length path) 4096) h in
    let (q, k2) = assert-eq-ok (leb (length c.principal) 256) k1 in
    let (raw, e1, k3) = >>=-eq-ok (resolve_readdir (seam index) c path) _ k2 in
    let ((es, st1), e2, k4) = >>=-eq-ok (sized S st index c path raw) _ k3 in
    let e : sort_entries to_lowercase es ≡ out = ground arith in
    rw (← e) (
      sort_entries-IsOrdered to_lowercase es,
      sort_entries-All to_lowercase IsNamed es (sized-IsNamed S st st1 index c path raw es e2),
    )
