-- ===== src/Index/Walks.antt =====
-- What the walk over a tree puts into the index.
use lunar_fs.Base.{
  ℕ, zero, suc, ◌≡◌, refl, sym, ◌∙◌, ap, Option, some, List, [], ◌∷◌, Bytes, ok, >>=-eq-ok, ◌==◌,
  list_eq, nat_eq, ◌=ℕ=◌, length, arith, Bool-cases, inl, inr,
}
use lunar_fs.Base.Dict.{get, insert, get-insert, get-nil}
use lunar_fs.Cas.{Hash, Blobs, mem_store}
use lunar_fs.Tree.{TreeEntry, deserialize_tree, mode_dir}
use lunar_fs.Index.{Index, Stack, join, fetch, add_entries, walk, build}

-- Every indexed hash is that of a stored blob, whose length is indexed beside it.
abbrev pub IsSized : Blobs → Index → Type 0
IsSized blobs index =
    (path : Bytes) (hash : Hash) (size : ℕ)
    → get index path ≡ some (hash, size)
    → (blob : Bytes) × ((get blobs hash ≡ some blob) × (length blob ≡ size))

module _ (hash_bytes : Bytes → Hash) where
  fetch-stored :
      (blobs blobs' : Blobs) (hash : Hash) (blob : Bytes)
      → fetch (mem_store hash_bytes) blobs hash ≡ ok (blob, blobs')
      → (get blobs hash ≡ some blob) × (blobs ≡ blobs')
  unfolding fetch
  fetch-stored blobs blobs' hash blob h = (ground arith, ground arith)

  insert-IsSized :
      (blobs : Blobs) (index : Index) (path : Bytes) (hash : Hash) (blob : Bytes)
      → get blobs hash ≡ some blob
      → IsSized blobs index
      → IsSized blobs (insert index path (hash, length blob))
  insert-IsSized blobs index path hash blob stored sized q other size h =
      elim (Bool-cases (path == q)) [
        | inl same ↦
            let e : ◌≡◌ {A = Option (Hash × ℕ)} (some (hash, length blob)) (some (other, size)) =
              sym (get-insert index path q (hash, length blob) ∙ rw same refl) ∙ h in
            let named : hash ≡ other = ground arith in (blob, (rw (← named) stored, ground arith))
        | inr apart ↦
            sized q other size
              (sym (get-insert index path q (hash, length blob) ∙ rw apart refl) ∙ h)
      ]

  add_entries-IsSized :
      (prefix : Bytes) (entries : List TreeEntry) (stack stack' : Stack) (index index' : Index)
      (blobs blobs' : Blobs)
      → IsSized blobs index
      → add_entries (mem_store hash_bytes) prefix entries stack index blobs
        ≡ ok (stack', (index', blobs'))
      → IsSized blobs index' × (blobs ≡ blobs')
  unfolding add_entries
  add_entries-IsSized prefix [] stack stack' index index' blobs blobs' sized h =
      let e : index ≡ index' = ground arith in (rw (← e) sized, ground arith)
  add_entries-IsSized prefix (e ∷ rest) stack stack' index index' blobs blobs' sized h =
      elim (Bool-cases (e.mode =ℕ= mode_dir)) [
        | inl folder ↦
            add_entries-IsSized prefix rest ((e.hash, join prefix e.name) ∷ stack) stack' index
              index' blobs blobs' sized (rw folder at h)
        | inr plain ↦
            let ((blob, blobs1), e1, k1) =
              >>=-eq-ok (fetch (mem_store hash_bytes) blobs e.hash) _ (rw plain at h) in
            let (stored, same) = fetch-stored blobs blobs1 e.hash blob e1 in
            let k2 : add_entries (mem_store hash_bytes) prefix rest stack
                  (insert index (join prefix e.name) (e.hash, length blob)) blobs
                ≡ ok (stack', (index', blobs')) =
              ap
                (λ b.
                  add_entries (mem_store hash_bytes) prefix rest stack
                    (insert index (join prefix e.name) (e.hash, length blob)) b)
                same
              ∙ k1 in
            add_entries-IsSized prefix rest stack stack'
              (insert index (join prefix e.name) (e.hash, length blob)) index' blobs blobs'
              (insert-IsSized blobs index (join prefix e.name) e.hash blob stored sized) k2
      ]

  walk-IsSized :
      (iters : ℕ) (stack : Stack) (index index' : Index) (blobs blobs' : Blobs)
      → IsSized blobs index
      → walk (mem_store hash_bytes) iters stack index blobs ≡ ok (index', blobs')
      → IsSized blobs index' × (blobs ≡ blobs')
  unfolding walk
  walk-IsSized zero [] index index' blobs blobs' sized h =
      let e : index ≡ index' = ground arith in (rw (← e) sized, ground arith)
  walk-IsSized (suc iters) [] index index' blobs blobs' sized h =
      let e : index ≡ index' = ground arith in (rw (← e) sized, ground arith)
  walk-IsSized zero (top ∷ stack) index index' blobs blobs' sized h = absurd (ground arith)
  walk-IsSized (suc iters) ((root, prefix) ∷ stack) index index' blobs blobs' sized h =
      let ((blob, blobs1), e1, k1) = >>=-eq-ok (fetch (mem_store hash_bytes) blobs root) _ h in
      let (entries, e2, k2) = >>=-eq-ok (deserialize_tree blob) _ k1 in
      let ((stack1, (index1, blobs2)), e3, k3) =
        >>=-eq-ok (add_entries (mem_store hash_bytes) prefix entries stack index blobs1) _ k2 in
      let same = (fetch-stored blobs blobs1 root blob e1).1 in
      let e4 : add_entries (mem_store hash_bytes) prefix entries stack index blobs
          ≡ ok (stack1, (index1, blobs2)) =
        ap (λ b. add_entries (mem_store hash_bytes) prefix entries stack index b) same ∙ e3 in
      let (sized1, same2) =
        add_entries-IsSized prefix entries stack stack1 index index1 blobs blobs2 sized e4 in
      let k4 : walk (mem_store hash_bytes) iters stack1 index1 blobs ≡ ok (index', blobs') =
        ap (λ b. walk (mem_store hash_bytes) iters stack1 index1 b) same2 ∙ k3 in
      walk-IsSized iters stack1 index1 index' blobs blobs' sized1 k4

  -- Every path that `build` indexes over an in-memory store comes with the hash of a stored blob
  -- and the length of that blob; the store is left as it was.
  pub build-IsSized :
      (blobs blobs' : Blobs) (root : Hash) (index : Index)
      → build (mem_store hash_bytes) blobs root ≡ ok (index, blobs')
      → IsSized blobs index × (blobs ≡ blobs')
  unfolding build
  build-IsSized blobs blobs' root index h =
      walk-IsSized 65_536 ((root, []) ∷ []) [] index blobs blobs'
        (λ path hash size none_. absurd (ground (arith, get-nil {V = Hash × ℕ} path))) h
