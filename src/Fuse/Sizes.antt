-- ===== src/Fuse/Sizes.antt =====
-- How many bytes a read returns, and the size that is reported for a written file.
use lunar_fs.Base.{
  ℕ, ◌+◌, ◌-◌, ◌≤◌, ◌≡◌, refl, ◌∙◌, ap, true, Option, none, some, Bytes, Outcome, ok, err, panic,
  >>=-eq-ok, assert-eq-ok, ok_or, leb, le→leb, length, min, drop, length-take, length-drop, arith,
  Option-cases, Bool-cases, inl, inr, ◌||◌, ◌=ℕ=◌,
}
use lunar_fs.Index
use lunar_fs.Index.{Index}
use lunar_fs.Overlay
use lunar_fs.Overlay.{OverlayStore}
use lunar_fs.Fuse.{route_read, resolved_blob, get_blob, window, mib128}
use lunar_fs.Cas.{Hash, Store, hex_to_hash}
use lunar_fs.Fuse.Translate.{not_found, io_error, clamp_read}
use lunar_fs.Fuse.Resolve.{
  Caller, as_fs, check_acl, read_base, resolve_read, resolve_size, resolved_size,
}
use lunar_fs.Fuse.Errors.{route_read-length}

clamp_read-length : (offset size : ℕ) (b : Bytes) → length (clamp_read offset size b) ≤ size
unfolding clamp_read
clamp_read-length offset size b = elim (Bool-cases (leb (length b) offset || (size =ℕ= 0))) [
  | inl past ↦ rw past (omega arith)
  | inr within ↦ rw within (
      omega (
        arith,
        length-take (min (offset + size) (length b) - offset) (drop offset b),
        length-drop offset b,
      ))
]

as_fs-eq-ok {ℓ κ} : {E : Type ℓ} {A : Type κ} {a : A} (m : Outcome E A) → as_fs m ≡ ok a → m ≡ ok a
as_fs-eq-ok (ok x) h = ground arith
as_fs-eq-ok (err e) h = absurd (ground arith)
as_fs-eq-ok panic h = absurd (ground arith)

ok_or-some {ℓ κ} :
    {E : Type ℓ} {A : Type κ} {a : A} (o : Option A) (e : E) → ok_or o e ≡ ok a → o ≡ some a
ok_or-some none e h = absurd (ground arith)
ok_or-some (some x) e h = ground arith

module _ (S : Store) (st : S.State) (index : Index) (path : Bytes) (offset size : ℕ) where
  read_base-length :
      (b : Bytes) (st' : S.State)
      → read_base S st index path offset size ≡ ok (b, st')
      → length b ≤ size
  unfolding read_base
  read_base-length b st' h =
      let (hash, e1, k1) = >>=-eq-ok (ok_or (Index.lookup index path) not_found) _ h in
      let ((found, st1), e2, k2) = >>=-eq-ok (as_fs (S.get st hash)) _ k1 in
      let (blob, e3, k3) = >>=-eq-ok (ok_or found io_error) _ k2 in
      let e : clamp_read offset size blob ≡ b = ground arith in
      rw (← e) (clamp_read-length offset size blob)

  -- A read returns at most as many bytes as were asked for, with an overlay or without.
  pub resolve_read-length :
      (c : Caller) (b : Bytes) (st' : S.State)
      → resolve_read S st index c path offset size ≡ ok (b, st')
      → length b ≤ size
  unfolding resolve_read
  resolve_read-length c b st' h =
      let (p, k1) = assert-eq-ok (leb (length path) 4096) h in
      let (q, k2) = assert-eq-ok (leb (length c.principal) 256) k1 in
      let (unit, e, k3) = >>=-eq-ok (check_acl c path) _ k2 in
      elim (Option-cases c.overlay) [
        | inl none_ ↦ read_base-length b st' (rw none_ at k3)
        | inr (ov, some_ov) ↦
            let ((found, st1), e1, k4) =
              >>=-eq-ok (as_fs (route_read S st index ov c.agent path offset size)) _
                (rw some_ov at k3) in
            let (y, e2, k5) = >>=-eq-ok (ok_or found not_found) _ k4 in
            let same : y ≡ b = ground arith in
            let some_b : found ≡ some b = ok_or-some found not_found e2 ∙ ap some same in
            route_read-length S st index ov c.agent path offset size b st1 (
              as_fs-eq-ok (route_read S st index ov c.agent path offset size) e1
              ∙ ap (λ o. ok (o, st1)) some_b)
      ]

read_of_written :
    (S : Store) (st st1 : S.State) (index : Index) (c : Caller) (ov : OverlayStore)
    (path hex : Bytes) (hash : Hash) (blob : Bytes) (size : ℕ) (unit : Unit {0})
    → leb (length path) 4096 ≡ true
    → leb (length c.principal) 256 ≡ true
    → check_acl c path ≡ ok unit
    → c.overlay ≡ some ov
    → Overlay.resolve ov c.agent path ≡ ok (Overlay.Resolution.overlay hex)
    → size ≤ mib128
    → hex_to_hash hex ≡ ok hash
    → S.get st hash ≡ ok (some blob, st1)
    → resolve_read S st index c path 0 size ≡ ok (window S 0 size blob, st1)
unfolding resolve_read route_read resolved_blob get_blob
read_of_written S st st1 index c ov path hex hash blob size unit p q e some_ov own small named
      stored =
    rw (p, q, e, some_ov, p, le→leb size mib128 small, own, named, stored) refl

-- The size that is reported for a file that the caller has written is the number of bytes that a
-- read of at least so many from its start returns.
pub resolve_size-resolve_read :
    (S : Store) (st st' : S.State) (index : Index) (c : Caller) (ov : OverlayStore)
    (path hex : Bytes) (n size : ℕ)
    → c.overlay ≡ some ov
    → Overlay.resolve ov c.agent path ≡ ok (Overlay.Resolution.overlay hex)
    → n ≤ size
    → size ≤ mib128
    → resolve_size S st index c path ≡ ok (n, st')
    → (b : Bytes) × ((resolve_read S st index c path 0 size ≡ ok (b, st')) × (length b ≡ n))
unfolding resolve_size resolved_size
resolve_size-resolve_read S st st' index c ov path hex n size some_ov own enough small h =
    let (p, k1) = assert-eq-ok (leb (length path) 4096) h in
    let (q, k2) = assert-eq-ok (leb (length c.principal) 256) k1 in
    let (unit, e, k3) = >>=-eq-ok (check_acl c path) _ k2 in
    let k4 : resolved_size S st index path (Overlay.Resolution.overlay hex) ≡ ok (n, st') =
      rw (some_ov, own) at k3 in
    let (hash, e1, k5) = >>=-eq-ok (as_fs (hex_to_hash hex)) _ k4 in
    let ((found, st1), e2, k6) = >>=-eq-ok (as_fs (S.get st hash)) _ k5 in
    let (blob, e3, k7) = >>=-eq-ok (ok_or found io_error) _ k6 in
    let len : length blob ≡ n = ground arith in
    let same : st1 ≡ st' = ground arith in
    let b : Bytes = window S 0 size blob in
    let some_blob = ok_or-some found io_error e3 in
    (
      b,
      (
        read_of_written S st st1 index c ov path hex hash blob size unit p q e some_ov own small
              (as_fs-eq-ok (hex_to_hash hex) e1)
              (as_fs-eq-ok (S.get st hash) e2 ∙ ap (λ o. ok (o, st1)) some_blob)
            ∙ ap (λ u. ok (b, u)) same,
        omega (
          arith,
          len,
          length-take (min (0 + size) (length blob) - min 0 (length blob))
              (drop (min 0 (length blob)) blob),
          length-drop (min 0 (length blob)) blob,
        ),
      ),
    )
