-- ===== src/Tree/Roundtrip.antt =====
-- What is serialized reads back as the entries in the order of their names.
use lunar_fs.Base.{
  ℕ, zero, suc, ◌+◌, ◌^◌, ◌<◌, ◌≤◌, ◌≡◌, refl, ◌∙◌, ap, true, false, List, [], ◌∷◌, ◌++◌, Bytes, ok,
  err, ◌>>=◌, All, ltb, length, length-append, take-append_at, drop-append_at, arith, Bool-cases,
  inl, inr,
}
use mathlib.Core.List.{append_assoc}
use lunar_fs.Cas.{invalid_data}
use lunar_fs.Tree.{
  TreeEntry, to_le_bytes, from_le_bytes, insert_sorted, sort_by_name, encode_entry, encode_entries,
  serialize_tree, read_body, read_entry, read_entries, deserialize_tree, max_entries, utf8_valid,
  bytes_leb,
}

-- What an entry that the source builds is like: a `u32` mode, a `String` name, a 32-byte hash.
pub record IsEntry (e : TreeEntry) : Type 0 where
  pub mode_range : e.mode < 2 ^ 32
  pub name_range : length e.name < 2 ^ 32
  pub name_text : utf8_valid e.name ≡ true
  pub hash_size : length e.hash ≡ 32

from_le_bytes-to_le_bytes : (n : ℕ) → n < 2 ^ 32 → from_le_bytes (to_le_bytes n) ≡ n
unfolding from_le_bytes to_le_bytes
from_le_bytes-to_le_bytes n h = omega arith

read_body-append :
    (mode : ℕ) (name hash rest : Bytes)
    → utf8_valid name ≡ true
    → length hash ≡ 32
    → read_body mode (length name) ((name ++ hash) ++ rest)
      ≡ ok (record { mode = mode; name = name; hash = hash }, rest)
unfolding read_body
read_body-append mode name hash rest text size =
    let enough : ltb (length (name ++ (hash ++ rest))) (length name + 32) ≡ false =
      rw (length-append name (hash ++ rest), length-append hash rest) (ground arith) in
    rw (
      append_assoc name hash rest,
      enough,
      take-append_at (length name) name (hash ++ rest) refl,
      drop-append_at (length name) name (hash ++ rest) refl,
      text,
      take-append_at 32 hash rest size,
      drop-append_at 32 hash rest size,
    )

read_entry-header :
    (n k : ℕ) (body : Bytes)
    → read_entry (to_le_bytes n ++ (to_le_bytes k ++ body))
      ≡ read_body (from_le_bytes (to_le_bytes n)) (from_le_bytes (to_le_bytes k)) body
unfolding read_entry to_le_bytes
read_entry-header n k body = ground arith

read_entry-encode_entry :
    (e : TreeEntry) (rest : Bytes) → IsEntry e → read_entry (encode_entry e ++ rest) ≡ ok (e, rest)
unfolding encode_entry
read_entry-encode_entry e rest v =
    rw
      (
        append_assoc (to_le_bytes e.mode) (to_le_bytes (length e.name) ++ (e.name ++ e.hash)) rest,
        append_assoc (to_le_bytes (length e.name)) (e.name ++ e.hash) rest,
        read_entry-header e.mode (length e.name) ((e.name ++ e.hash) ++ rest),
        from_le_bytes-to_le_bytes e.mode v.mode_range,
        from_le_bytes-to_le_bytes (length e.name) v.name_range,
      )
      (read_body-append e.mode e.name e.hash rest v.name_text v.hash_size)

-- An encoded entry is not empty.
encode_entry-cons : (e : TreeEntry) → (b : ℕ) × (bs : Bytes) × (encode_entry e ≡ b ∷ bs)
unfolding encode_entry to_le_bytes
encode_entry-cons e = (_, _, refl)

read_entries_step :
    (room : ℕ) (bytes : Bytes) (e : TreeEntry) (rest : Bytes)
    → (b : ℕ) × (bs : Bytes) × (bytes ≡ b ∷ bs)
    → read_entry bytes ≡ ok (e, rest)
    → read_entries (suc room) bytes ≡ (read_entries room rest >>= λ es. ok (e ∷ es))
unfolding read_entries
read_entries_step room [] e rest (b, bs, q) h = cc
read_entries_step room (b ∷ bs) e rest q h = rw h

-- `sort_by_name` keeps every entry.
insert_sorted-All :
    (P : TreeEntry → Type 0) (e : TreeEntry) (es : List TreeEntry)
    → P e
    → All P es
    → All P (insert_sorted e es)
unfolding insert_sorted
insert_sorted-All P e [] p ps = (p, tt)
insert_sorted-All P e (f ∷ es) p ps = elim (Bool-cases (bytes_leb e.name f.name)) [
  | inl before ↦ rw before (p, ps)
  | inr behind ↦ rw behind (ps.0, insert_sorted-All P e es p ps.1)
]

sort_by_name-All :
    (P : TreeEntry → Type 0) (es : List TreeEntry) → All P es → All P (sort_by_name es)
unfolding sort_by_name
sort_by_name-All P [] ps = tt
sort_by_name-All P (e ∷ es) ps = insert_sorted-All P e _ ps.0 (sort_by_name-All P es ps.1)

length-insert_sorted :
    (e : TreeEntry) (es : List TreeEntry) → length (insert_sorted e es) ≡ suc (length es)
unfolding insert_sorted
length-insert_sorted e [] = refl
length-insert_sorted e (f ∷ es) = ground (arith, length-insert_sorted e es)

length-sort_by_name : (es : List TreeEntry) → length (sort_by_name es) ≡ length es
unfolding sort_by_name
length-sort_by_name [] = refl
length-sort_by_name (e ∷ es) = length-insert_sorted e _ ∙ ap suc (length-sort_by_name es)

read_entries-encode_entries :
    (room : ℕ) (es : List TreeEntry)
    → All IsEntry es
    → length es ≤ room
    → read_entries room (encode_entries es) ≡ ok es
unfolding read_entries encode_entries
read_entries-encode_entries zero [] v h = refl
read_entries-encode_entries (suc room) [] v h = refl
read_entries-encode_entries zero (e ∷ es) v h = absurd (omega arith)
read_entries-encode_entries (suc room) (e ∷ es) v h =
    read_entries_step room (encode_entry e ++ encode_entries es) e (encode_entries es)
      (let (b, bs, q) = encode_entry-cons e in (b, bs ++ encode_entries es, rw q))
      (read_entry-encode_entry e (encode_entries es) v.0)
    ∙ rw (read_entries-encode_entries room es v.1 (omega arith))

read_entries_overfull :
    (room : ℕ) (es : List TreeEntry)
    → All IsEntry es
    → room < length es
    → read_entries room (encode_entries es) ≡ err invalid_data
unfolding encode_entries
read_entries_overfull room [] v h = absurd (omega arith)
read_entries_overfull zero (e ∷ es) v h =
    let (b, bs, q) = encode_entry-cons e in rw q (unfold read_entries in refl)
read_entries_overfull (suc room) (e ∷ es) v h =
    read_entries_step room (encode_entry e ++ encode_entries es) e (encode_entries es)
      (let (b, bs, q) = encode_entry-cons e in (b, bs ++ encode_entries es, rw q))
      (read_entry-encode_entry e (encode_entries es) v.0)
    ∙ rw (read_entries_overfull room es v.1 (omega arith))

-- A directory of at most 65536 entries, each with a `u32` mode, a UTF-8 name and a 32-byte hash,
-- reads back from its bytes as the same entries sorted by name.
pub deserialize_tree-serialize_tree :
    (es : List TreeEntry)
    → All IsEntry es
    → length es ≤ max_entries
    → deserialize_tree (serialize_tree es) ≡ ok (sort_by_name es)
unfolding deserialize_tree serialize_tree
deserialize_tree-serialize_tree es v few =
    read_entries-encode_entries max_entries (sort_by_name es) (sort_by_name-All IsEntry es v)
      (rw (length-sort_by_name es) few)

-- Such a directory of more than 65536 entries is written all the same, and its bytes are refused
-- as invalid data when they are read.
pub deserialize_tree_too_many :
    (es : List TreeEntry)
    → All IsEntry es
    → max_entries < length es
    → deserialize_tree (serialize_tree es) ≡ err invalid_data
unfolding deserialize_tree serialize_tree
deserialize_tree_too_many es v many =
    read_entries_overfull max_entries (sort_by_name es) (sort_by_name-All IsEntry es v)
      (rw (length-sort_by_name es) many)
