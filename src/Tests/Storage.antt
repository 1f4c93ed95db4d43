-- ===== src/Tests/Storage.antt =====
-- Hashes, blobs, trees and indexes.
use lunar_fs.Base.{
  ℕ, zero, suc, ◌<◌, ◌≡◌, refl, ap, Option, some, List, [], ◌∷◌, Bytes, Outcome, ok, err, arith,
  All, length, list_eq, nat_eq, list_dec,
}
use mathlib.Core.List.{Permᴰ}
use lunar_fs.Base.Dict.{get, insert, remove}
use lunar_fs.Base.Text.{ascii}
use lunar_fs.Cas.{
  Hash, IoError, invalid_data, Blobs, mem_store, hash_to_hex, hex_to_hash, hydrating_get,
}
use lunar_fs.Cas.Hydration.{IsAddressed, hydrating_get-verified}
use lunar_fs.Tree.{
  TreeEntry, serialize_tree, deserialize_tree, sort_by_name, max_entries, utf8_valid, mode_file,
}
use lunar_fs.Tree.Roundtrip.{IsEntry, deserialize_tree-serialize_tree, deserialize_tree_too_many}
use lunar_fs.Tree.Determinism.{serialize_tree-perm}
use lunar_fs.Index.{Index, build}
use lunar_fs.Index.Walks.{IsSized, build-IsSized}

abbrev zero_hash : Hash
zero_hash = ascii "00000000000000000000000000000000"

zero_hash-All : All (λ b. b < 256) zero_hash
zero_hash-All = ground arith

-- Each byte string as its own hash.
abbrev itself : Bytes → Hash
itself bytes = bytes

abbrev honest : Hash → Outcome IoError (Option Bytes)
honest hash = ok (some hash)

abbrev lying : Hash → Outcome IoError (Option Bytes)
lying hash = ok (some (0 ∷ hash))

nothing_stored : IsAddressed itself []
unfolding get
nothing_stored h x e = cc

hydrates :
    hydrating_get itself (mem_store itself) honest [] (ascii "x")
    ≡ ok (some (ascii "x"), (ascii "x", ascii "x") ∷ [])
unfolding hydrating_get get insert remove list_dec native.Mathlib.Decide.ℕ_discrete
    lunar_fs.Cas.mem_put
hydrates = refl

hydrating_get-verified_example :
    (ascii "x" ≡ ascii "x")
    × (get ((ascii "x", ascii "x") ∷ []) (ascii "x") ≡ some (ascii "x"))
    × IsAddressed itself ((ascii "x", ascii "x") ∷ [])
    × ((k : Hash) (y : Bytes) → get [] k ≡ some y → get ((ascii "x", ascii "x") ∷ []) k ≡ some y)
hydrating_get-verified_example =
    hydrating_get-verified itself honest [] ((ascii "x", ascii "x") ∷ []) (ascii "x") (ascii "x")
      nothing_stored hydrates

abbrev file_b : TreeEntry
file_b = record { mode = mode_file; name = ascii "b"; hash = zero_hash }

abbrev file_a : TreeEntry
file_a = record { mode = mode_file; name = ascii "a"; hash = zero_hash }

file_a-IsEntry : IsEntry file_a
unfolding utf8_valid
file_a-IsEntry = record {
  mode_range = omega arith;
  name_range = omega arith;
  name_text = refl;
  hash_size = refl;
}

file_b-IsEntry : IsEntry file_b
unfolding utf8_valid
file_b-IsEntry = record {
  mode_range = omega arith;
  name_range = omega arith;
  name_text = refl;
  hash_size = refl;
}

deserialize_tree-serialize_tree_example :
    deserialize_tree (serialize_tree (file_b ∷ file_a ∷ []))
    ≡ ok (sort_by_name (file_b ∷ file_a ∷ []))
deserialize_tree-serialize_tree_example =
    deserialize_tree-serialize_tree (file_b ∷ file_a ∷ []) (file_b-IsEntry, (file_a-IsEntry, tt))
      (omega arith)

-- A directory of many entries.
copies : ℕ → List TreeEntry
copies zero = []
copies (suc n) = file_a ∷ copies n

copies-IsEntry : (n : ℕ) → All IsEntry (copies n)
unfolding copies
copies-IsEntry zero = tt
copies-IsEntry (suc n) = (file_a-IsEntry, copies-IsEntry n)

length-copies : (n : ℕ) → length (copies n) ≡ n
unfolding copies
length-copies zero = refl
length-copies (suc n) = ap suc (length-copies n)

too_many : max_entries < length (copies 65_537)
too_many = rw (length-copies 65_537) (omega arith)

deserialize_tree_too_many_example :
    deserialize_tree (serialize_tree (copies 65_537)) ≡ err invalid_data
deserialize_tree_too_many_example =
    deserialize_tree_too_many (copies 65_537) (copies-IsEntry 65_537) too_many

serialize_tree-perm_example :
    serialize_tree (file_b ∷ file_a ∷ []) ≡ serialize_tree (file_a ∷ file_b ∷ [])
serialize_tree-perm_example =
    serialize_tree-perm (file_b ∷ file_a ∷ []) (file_a ∷ file_b ∷ []) (∣ Permᴰ.swap refl refl ∣₁)
      (((λ h. ground arith), tt), (tt, tt))

-- A tree of one file, stored under the hash "t".
abbrev tree_hash : Hash
tree_hash = ascii "t"

abbrev one_tree : Blobs
one_tree = (tree_hash, serialize_tree (file_a ∷ [])) ∷ (zero_hash, ascii "xyz") ∷ []

abbrev one_index : Index
one_index = (ascii "a", (zero_hash, 3)) ∷ []

builds : build (mem_store itself) one_tree tree_hash ≡ ok (one_index, one_tree)
unfolding build get list_dec native.Mathlib.Decide.ℕ_discrete deserialize_tree
    lunar_fs.Tree.read_entries serialize_tree lunar_fs.Tree.encode_entries sort_by_name
    lunar_fs.Tree.encode_entry lunar_fs.Tree.to_le_bytes lunar_fs.Tree.read_entry
    lunar_fs.Tree.read_body lunar_fs.Tree.from_le_bytes utf8_valid insert
builds = refl

build-IsSized_example : IsSized one_tree one_index × (one_tree ≡ one_tree)
build-IsSized_example = build-IsSized itself one_tree one_tree tree_hash one_index builds
