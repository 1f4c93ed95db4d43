-- ===== src/Cas/Hydration.antt =====
-- A blob that comes out of a hydrating store has the hash that was asked for.
use lunar_fs.Base.{
  ◌≡◌, ◌∙◌, ap, ◌≢◌, Option, none, some, Bytes, Outcome, ok, err, arith, list_eq, nat_eq,
  Option-cases, inl, inr, >>=-eq-ok,
}
use lunar_fs.Base.Dict.{get, get-insert}
use lunar_fs.Cas.{Hash, IoError, Blobs, mem_put, mem_store, verify, fetch_missing, hydrating_get}

module _ (hash_bytes : Bytes → Hash) where
  -- Every blob is stored under its hash.
  abbrev pub IsAddressed : Blobs → Type 0
  IsAddressed blobs = (h : Hash) (x : Bytes) → get blobs h ≡ some x → hash_bytes x ≡ h

  pub mem_put-IsAddressed :
      (blobs : Blobs) (x : Bytes) → IsAddressed blobs → IsAddressed (mem_put hash_bytes blobs x).1
  unfolding mem_put
  mem_put-IsAddressed blobs x addressed h y e =
      ground (arith, addressed h y, get-insert blobs (hash_bytes x) h x)

  -- A stored blob keeps its content whatever is put later.
  pub get-mem_put_old :
      (blobs : Blobs) (h : Hash) (x y : Bytes)
      → get blobs h ≡ some y
      → get (mem_put hash_bytes blobs x).1 h ≡ some y
  unfolding mem_put
  get-mem_put_old blobs h x y e = ground (arith, get-insert blobs (hash_bytes x) h x)

  fresh_put :
      (blobs : Blobs) (x : Bytes) (h : Hash)
      → hash_bytes x ≡ h
      → get blobs h ≡ none
      → get (mem_put hash_bytes blobs x).1 h ≡ some x
  unfolding mem_put
  fresh_put blobs x h e absent = ground (arith, get-insert blobs (hash_bytes x) h x)

  -- What was put is found under the returned hash, if no stored blob collides with it.
  pub get-mem_put :
      (blobs : Blobs) (x : Bytes)
      → IsAddressed blobs
      → ((y : Bytes) → hash_bytes y ≡ hash_bytes x → y ≡ x)
      → get (mem_put hash_bytes blobs x).1 (mem_put hash_bytes blobs x).0 ≡ some x
  unfolding mem_put
  get-mem_put blobs x addressed unique = elim (Option-cases (get blobs (hash_bytes x))) [
    | inl fresh ↦ ground (arith, get-insert blobs (hash_bytes x) (hash_bytes x) x)
    | inr (y, e) ↦ ground (arith, unique y, addressed (hash_bytes x) y)
  ]

  module _ (fetch_blob : Hash → Outcome IoError (Option Bytes)) where
    abbrev read : Blobs → Hash → Outcome IoError (Option Bytes × Blobs)
    read = hydrating_get hash_bytes (mem_store hash_bytes) fetch_blob

    fetch_missing-stored :
        (blobs blobs' : Blobs) (h : Hash) (x : Bytes)
        → fetch_missing hash_bytes (mem_store hash_bytes) fetch_blob h blobs ≡ ok (some x, blobs')
        → (hash_bytes x ≡ h) × (blobs' ≡ (mem_put hash_bytes blobs x).1)
    unfolding fetch_missing
    fetch_missing-stored blobs blobs' h x e =
        let (answer, a, r) = >>=-eq-ok (fetch_blob h) _ e in after answer r
      where
        after :
            (answer : Option Bytes)
            → (elim answer as (λ _. Outcome IoError (Option Bytes × Blobs)) [
              | none ↦ ok (none, blobs)
              | some bytes ↦ verify hash_bytes (mem_store hash_bytes) fetch_blob h bytes blobs
            ])
              ≡ ok (some x, blobs')
            → (hash_bytes x ≡ h) × (blobs' ≡ (mem_put hash_bytes blobs x).1)
        after none r = absurd (ground arith)
        after (some bytes) r = ground arith

    -- Over an in-memory store that keeps each blob under its hash, whatever the remote answers: a
    -- read returns only bytes with the hash asked for, which the store then holds; it loses no
    -- blob, and still keeps each under its hash.
    pub hydrating_get-verified :
        (blobs blobs' : Blobs) (h : Hash) (x : Bytes)
        → IsAddressed blobs
        → read blobs h ≡ ok (some x, blobs')
        → (hash_bytes x ≡ h)
          × (get blobs' h ≡ some x)
          × IsAddressed blobs'
          × ((k : Hash) (y : Bytes) → get blobs k ≡ some y → get blobs' k ≡ some y)
    unfolding hydrating_get
    hydrating_get-verified blobs blobs' h x addressed e = elim (Option-cases (get blobs h)) [
      | inr (y, hit) ↦
          let same : (y ≡ x) × (blobs ≡ blobs') = ground arith in
          (
            addressed h x (hit ∙ ap some same.0),
            rw same.1 at (hit ∙ ap some same.0),
            rw same.1 at addressed,
            (λ k z q. rw same.1 at q),
          )
      | inl miss ↦
          let (right, stored) = fetch_missing-stored blobs blobs' h x (rw miss at e) in
          (
            right,
            rw stored (fresh_put blobs x h right miss),
            rw stored (mem_put-IsAddressed blobs x addressed),
            (λ k z q. rw stored (get-mem_put_old blobs k x z q)),
          )
    ]

    -- Bytes of another hash are refused as invalid data, and nothing is stored.
    pub hydrating_get_corrupt :
        (blobs : Blobs) (h : Hash) (x : Bytes)
        → get blobs h ≡ none
        → fetch_blob h ≡ ok (some x)
        → hash_bytes x ≢ h
        → read blobs h ≡ err IoError.invalid_data
    unfolding hydrating_get
    hydrating_get_corrupt blobs h x absent answer wrong = ground arith
