-- ===== src/Fuse/Errors.antt =====
-- What the access rules and the tombstones of the overlay hide.
use lunar_fs.Base.{
  ℕ, ◌+◌, ◌-◌, ◌≤◌, ◌≡◌, refl, true, some, Bytes, Outcome, ok, err, >>=-eq-ok, assert-eq-ok, leb,
  le→leb, length, min, take, drop, length-take, length-drop, arith, Option-cases, inl, inr,
}
use lunar_fs.Acl
use lunar_fs.Acl.{AclEntry, AclDecision, decide}
use lunar_fs.Cas.{Store}
use lunar_fs.Index.{Index}
use lunar_fs.Overlay
use lunar_fs.Overlay.{OverlayStore}
use lunar_fs.Fuse.{as_io, route_read, resolved_blob, window, is_tombstoned, mib128}
use lunar_fs.Fuse.Translate.{FsError, not_found, access_denied, IndexSeam}
use lunar_fs.Fuse.Resolve.{
  Caller, check_acl, hidden, in_bounds, resolve_attr, resolve_open, resolve_readdir, resolve_read,
  resolve_size, resolved_size,
}

-- The lengths that every call asserts.
pub record IsBounded (c : Caller) (path : Bytes) : Type 0 where
  pub path_len : length path ≤ 4096
  pub principal_len : length c.principal ≤ 256
  pub acl_len : length c.acl ≤ 1_000_000

in_bounds-eq {ℓ} :
    {A : Type ℓ} (c : Caller) (path : Bytes) (k : Outcome FsError A)
    → IsBounded c path
    → in_bounds c path k ≡ k
in_bounds-eq c path k b =
    rw (le→leb (length path) 4096 b.path_len, le→leb (length c.principal) 256 b.principal_len) refl

module _ (c : Caller) (path : Bytes) (b : IsBounded c path) where
  pub check_acl-refuse :
      decide c.acl path c.principal c.now Acl.Permission.read ≡ ok Acl.refuse
      → check_acl c path ≡ err access_denied
  unfolding check_acl
  check_acl-refuse refused = rw (le→leb (length c.acl) 1_000_000 b.acl_len, refused) refl

  pub check_acl-allow :
      decide c.acl path c.principal c.now Acl.Permission.read ≡ ok Acl.allow
      → check_acl c path ≡ ok tt
  unfolding check_acl
  check_acl-allow allowed = rw (le→leb (length c.acl) 1_000_000 b.acl_len, allowed) refl

-- Where the rules refuse reading, every call is answered by a refusal, whatever the index, the
-- store and the overlay hold.
pub refused_everywhere :
    (S : Store) (st : S.State) (index : Index) (seam' : IndexSeam) (c : Caller) (path : Bytes)
    (offset size : ℕ)
    → IsBounded c path
    → decide c.acl path c.principal c.now Acl.Permission.read ≡ ok Acl.refuse
    → (resolve_attr seam' c path ≡ err access_denied)
      × (resolve_open seam' c path ≡ err access_denied)
      × (resolve_readdir seam' c path ≡ err access_denied)
      × (resolve_read S st index c path offset size ≡ err access_denied)
      × (resolve_size S st index c path ≡ err access_denied)
unfolding resolve_attr resolve_open resolve_readdir resolve_read resolve_size
refused_everywhere S st index seam' c path offset size b refused =
    let no = check_acl-refuse c path b refused in
    let p = le→leb (length path) 4096 b.path_len in
    let q = le→leb (length c.principal) 256 b.principal_len in
    (
      rw (p, q, no) refl,
      rw (p, q, no) refl,
      rw (p, q, no) refl,
      rw (p, q, no) refl,
      rw (p, q, no) refl,
    )

hidden-tombstone :
    (c : Caller) (ov : OverlayStore) (path : Bytes)
    → c.overlay ≡ some ov
    → Overlay.resolve ov c.agent path ≡ ok Overlay.Resolution.tombstone
    → hidden c path ≡ ok true
unfolding hidden is_tombstoned
hidden-tombstone c ov path some_ov gone = ground arith

-- A path that its agent has deleted is not found by a call for attributes, an opening, a read or
-- a call for its size, where the rules allow reading it.
pub deleted_is_not_found :
    (S : Store) (st : S.State) (index : Index) (seam' : IndexSeam) (c : Caller) (ov : OverlayStore)
    (path : Bytes) (offset size : ℕ)
    → IsBounded c path
    → size ≤ mib128
    → decide c.acl path c.principal c.now Acl.Permission.read ≡ ok Acl.allow
    → c.overlay ≡ some ov
    → Overlay.resolve ov c.agent path ≡ ok Overlay.Resolution.tombstone
    → (resolve_attr seam' c path ≡ err not_found)
      × (resolve_open seam' c path ≡ err not_found)
      × (resolve_read S st index c path offset size ≡ err not_found)
      × (resolve_size S st index c path ≡ err not_found)
unfolding resolve_attr resolve_open resolve_read resolve_size route_read resolved_blob resolved_size
deleted_is_not_found S st index seam' c ov path offset size b small allowed some_ov gone =
    let yes_ = check_acl-allow c path b allowed in
    let p = le→leb (length path) 4096 b.path_len in
    let q = le→leb (length c.principal) 256 b.principal_len in
    let r = le→leb size mib128 small in
    let away = hidden-tombstone c ov path some_ov gone in
    (
      rw (p, q, yes_, away) refl,
      rw (p, q, yes_, away) refl,
      rw (p, q, yes_, some_ov, p, r, gone) refl,
      rw (p, q, yes_, some_ov, gone) refl,
    )

pub length-window :
    (offset size : ℕ) (b : Bytes)
    → length (
        take
          (min (offset + size) (length b) - min offset (length b))
          (drop (min offset (length b)) b))
      ≤ size
length-window offset size b = omega (
  arith,
  length-take (min (offset + size) (length b) - min offset (length b))
      (drop (min offset (length b)) b),
  length-drop (min offset (length b)) b,
)

module _ (S : Store) (st : S.State) (index : Index) (ov : OverlayStore) (agent : ℕ)
    (path : Bytes) where
  -- A read through the overlay is no longer than what was asked for.
  pub route_read-length :
      (offset size : ℕ) (b : Bytes) (st' : S.State)
      → route_read S st index ov agent path offset size ≡ ok (some b, st')
      → length b ≤ size
  unfolding route_read
  route_read-length offset size b st' h =
      let (short, k1) = assert-eq-ok (leb (length path) 4096) h in
      let (small, k2) = assert-eq-ok (leb size mib128) k1 in
      let (r, e1, k3) = >>=-eq-ok (as_io (Overlay.resolve ov agent path)) _ k2 in
      let ((found, st1), e2, k4) = >>=-eq-ok (resolved_blob S st index path r) _ k3 in
      elim (Option-cases found) [
        | inl no_ ↦ absurd (ground arith)
        | inr (y, some_y) ↦
            let e : window S offset size y ≡ b = ground arith in
            rw (← e) (length-window offset size y)
      ]
