-- ===== src/Tree.antt =====
-- src/tree.rs: the bytes of a directory tree.
-- Each entry: mode (u32, little-endian), name length (u32, little-endian), name, 32-byte hash.
pub mod Utf8
pub mod Order
pub mod Roundtrip
pub mod Determinism
unfoldable pub use Utf8.{utf8_valid}
unfoldable pub use Order.{bytes_leb}
use lunar_fs.Base.{
  ℕ, zero, suc, ◌+◌, ◌*◌, ◌/◌, ◌%◌, ◌^◌, Bool, true, false, List, [], ◌∷◌, ◌++◌, Bytes, Outcome, ok,
  err, ◌>>=◌, ltb, length, take, drop, if◌then◌else◌,
}
use lunar_fs.Cas.{Hash, IoError, invalid_data}

pub record TreeEntry : Type 0 where
  pub mode : ℕ
  pub name : Bytes
  pub hash : Hash

abbrev pub mode_dir : ℕ
mode_dir = 0o040000

abbrev pub mode_file : ℕ
mode_file = 0o100644

abbrev pub mode_exec : ℕ
mode_exec = 0o100755

-- `u32::to_le_bytes`, of the value modulo 2^32.
unfoldable pub to_le_bytes : ℕ → Bytes
to_le_bytes n = n % 256 ∷ n / 256 % 256 ∷ n / 65_536 % 256 ∷ n / 16_777_216 % 256 ∷ []

unfoldable pub from_le_bytes : Bytes → ℕ
from_le_bytes [] = 0
from_le_bytes (b ∷ bs) = b + 256 * from_le_bytes bs

-- `sort_by_key` is a stable sort.
unfoldable pub insert_sorted : TreeEntry → List TreeEntry → List TreeEntry
insert_sorted e [] = e ∷ []
insert_sorted e (f ∷ rest) =
    let later = insert_sorted e rest in if bytes_leb e.name f.name then e ∷ f ∷ rest else f ∷ later

unfoldable pub sort_by_name : List TreeEntry → List TreeEntry
unfolding insert_sorted
sort_by_name [] = []
sort_by_name (e ∷ rest) = insert_sorted e (sort_by_name rest)

-- The body of the loop of `serialize_tree`.
unfoldable pub encode_entry : TreeEntry → Bytes
encode_entry e = to_le_bytes e.mode ++ (to_le_bytes (length e.name) ++ (e.name ++ e.hash))

unfoldable pub encode_entries : List TreeEntry → Bytes
encode_entries [] = []
encode_entries (e ∷ rest) = encode_entry e ++ encode_entries rest

unfoldable pub serialize_tree : List TreeEntry → Bytes
serialize_tree entries = encode_entries (sort_by_name entries)

-- The name and the hash, behind a header that has been read.
unfoldable pub read_body : ℕ → ℕ → Bytes → Outcome IoError (TreeEntry × Bytes)
read_body mode name_len rest =
    let name = take name_len rest in
    let tail = drop name_len rest in
    if ltb (length rest) (name_len + 32)
    then err invalid_data
    else if utf8_valid name
    then ok (record { mode = mode; name = name; hash = take 32 tail }, drop 32 tail)
    else err invalid_data

-- One round of the loop of `deserialize_tree`, on the bytes from `pos` on.
unfoldable pub read_entry : Bytes → Outcome IoError (TreeEntry × Bytes)
read_entry rest =
    if ltb (length rest) 8
    then err invalid_data
    else read_body (from_le_bytes (take 4 rest)) (from_le_bytes (take 4 (drop 4 rest)))
        (drop 8 rest)

-- The loop, with the number of entries that are still allowed.
unfoldable pub read_entries : ℕ → Bytes → Outcome IoError (List TreeEntry)
read_entries room [] = ok []
read_entries zero (b ∷ rest) = err invalid_data
read_entries (suc room) (b ∷ rest) =
    read_entry (b ∷ rest) >>= λ (e, rest'). read_entries room rest' >>= λ es. ok (e ∷ es)

abbrev pub max_entries : ℕ
max_entries = 65_536

unfoldable pub deserialize_tree : Bytes → Outcome IoError (List TreeEntry)
deserialize_tree bytes = read_entries max_entries bytes
