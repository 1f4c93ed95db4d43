-- ===== src/Patch.antt =====
-- src/patch.rs: the changes of an agent, and those between two trees, as a text in git's format.
-- `String::from_utf8_lossy` is the standard library's: a parameter, `lossy`. Strings are bytes.
pub mod Lines
pub mod Trees
pub mod Sides
pub mod Steps
pub mod Changes
use lunar_fs.Base.{
  ℕ, zero, suc, ◌+◌, ◌-◌, ◌/◌, ◌%◌, Bool, true, false, not, ◌&&◌, ◌||◌, Option, none, some, List,
  [], ◌∷◌, ◌++◌, Bytes, Outcome, ok, err, panic, ◌>>=◌, assert, leb, ltb, ◌=ℕ=◌, length, take, map,
  if◌then◌else◌,
}
use lunar_fs.Base.Text.{ascii, has_byte, is_empty}
use lunar_fs.Cas.{Hash, IoError, Store, hash_to_hex, hex_to_hash}
use lunar_fs.Index.{Index, lookup}
use lunar_fs.Overlay.{OverlayStore, OverlayEntry, OverlayError, entries_for_agent}

-- The messages are dropped.
pub data PatchError : Type 0 where
  overlay_failed store_failed bad_hash missing bad_tree too_deep : PatchError

abbrev pub max_entries : ℕ
max_entries = 1_000_000

abbrev pub newline : ℕ
newline = b'\n'

-- `{}` of a number, with more steps than it has digits.
unfoldable pub digits : ℕ → ℕ → Bytes
digits zero n = []
digits (suc steps) n =
    let more = digits steps (n / 10) in
    if ltb n 10 then (b'0' + n) ∷ [] else more ++ ((b'0' + n % 10) ∷ [])

abbrev pub decimal : ℕ → Bytes
decimal n = digits (suc n) n

unfoldable pub is_binary : Bytes → Bool
is_binary bytes = has_byte 0 bytes

unfoldable pub abbreviated : Bytes → Bytes
abbreviated hex = if leb 7 (length hex) then take 7 hex else hex

abbrev pub zeros : Bytes
zeros = ascii "0000000"

-- `replace('\\', "\\\\").replace('"', "\\\"")`
unfoldable pub escaped : Bytes → Bytes
escaped [] = []
escaped (c ∷ s) =
    let rest = escaped s in if (c =ℕ= b'\\') || (c =ℕ= b'"') then b'\\' ∷ c ∷ rest else c ∷ rest

unfoldable pub wants_quotes : Bytes → Bool
wants_quotes path =
    has_byte b' ' path || has_byte b'\t' path || has_byte b'"' path || has_byte b'\\' path

unfoldable pub git_path : Bytes → Bytes
unfolding escaped wants_quotes
git_path path = if wants_quotes path then b'"' ∷ (escaped path ++ (b'"' ∷ [])) else path

unfoldable pub hunk_pos : ℕ → ℕ → Bytes
hunk_pos start zero = decimal start ++ ascii ",0"
hunk_pos start (suc zero) = decimal start
hunk_pos start (suc (suc n)) = decimal start ++ (b',' ∷ decimal (suc (suc n)))

-- `split(|&b| b == b'\n')`: `line` is the part of the current line that was read.
unfoldable pub split_on_newline : Bytes → Bytes → List Bytes
split_on_newline line [] = line ∷ []
split_on_newline line (c ∷ s) =
    let more = split_on_newline [] s in
    let longer = split_on_newline (line ++ (c ∷ [])) s in
    if c =ℕ= newline then line ∷ more else longer

-- The bytes without a last newline, and whether there was one.
unfoldable pub strip_newline : Bytes → Bytes × Bool
strip_newline [] = ([], false)
strip_newline (c ∷ []) = if c =ℕ= newline then ([], true) else (c ∷ [], false)
strip_newline (c ∷ d ∷ s) = let rest : Bytes × Bool = strip_newline (d ∷ s) in (c ∷ rest.0, rest.1)

unfoldable pub raw_lines : Bytes → List Bytes × Bool
unfolding split_on_newline strip_newline
raw_lines [] = ([], true)
raw_lines (c ∷ s) =
    let stripped : Bytes × Bool = strip_newline (c ∷ s) in
    (split_on_newline [] stripped.0, stripped.1)

-- The loop over the lines of one side: `mark` is before each.
unfoldable pub mark_lines : ℕ → Bool → List Bytes → Bytes
mark_lines mark ends [] = []
mark_lines mark ends (line ∷ []) =
    mark ∷ (line ++ (newline ∷ (if ends then [] else ascii "\\ No newline at end of file\n")))
mark_lines mark ends (line ∷ next ∷ rest) =
    mark ∷ (line ++ (newline ∷ mark_lines mark ends (next ∷ rest)))

abbrev pub is_some {ℓ} : {A : Type ℓ} → Option A → Bool
is_some none = false
is_some (some a) = true

abbrev pub side : Bytes → Bytes → Option Bytes → Bytes
side prefix qp none = ascii "/dev/null"
side prefix qp (some hex) = prefix ++ qp

abbrev pub short : Option Bytes → Bytes
short none = zeros
short (some hex) = abbreviated hex

-- The lines on the mode and the hashes.
unfoldable pub mode_lines : Option Bytes → Option Bytes → Bytes
unfolding abbreviated
mode_lines none after =
    ascii "new file mode 100644\nindex " ++ (zeros ++ (ascii ".." ++ (short after ++ ascii "\n")))
mode_lines (some before) none =
    ascii "deleted file mode 100644\nindex "
    ++ (abbreviated before ++ (ascii ".." ++ (zeros ++ ascii "\n")))
mode_lines (some before) (some after) =
    ascii "index "
    ++ (abbreviated before ++ (ascii ".." ++ (abbreviated after ++ ascii " 100644\n")))

abbrev pub start_of : Option Bytes → ℕ
start_of none = 0
start_of (some hex) = 1

unfoldable pub hunk : Option Bytes → Option Bytes → List Bytes × Bool → List Bytes × Bool → Bytes
unfolding hunk_pos mark_lines
hunk before after (olds, old_ends) (news, new_ends) =
    ascii "@@ -"
    ++ (hunk_pos (start_of before) (length olds)
        ++ (ascii " +"
            ++ (hunk_pos (start_of after) (length news)
                ++ (ascii " @@\n"
                    ++ (mark_lines b'-' old_ends olds ++ mark_lines b'+' new_ends news)))))

abbrev pub from_store {ℓ} : {A : Type ℓ} → Outcome IoError A → Outcome PatchError A
from_store (ok a) = ok a
from_store (err e) = err store_failed
from_store panic = panic

abbrev parsed : Outcome IoError Hash → Outcome PatchError Hash
parsed (ok hash) = ok hash
parsed (err e) = err bad_hash
parsed panic = panic

abbrev from_overlay {ℓ} : {A : Type ℓ} → Outcome OverlayError A → Outcome PatchError A
from_overlay (ok a) = ok a
from_overlay (err e) = err overlay_failed
from_overlay panic = panic

abbrev pub hex_of : Option Hash → Option Bytes
hex_of none = none
hex_of (some hash) = some (hash_to_hex hash)

module _ (lossy : Bytes → Bytes) where
  unfoldable pub split_lines : Bytes → List Bytes × Bool
  unfolding raw_lines
  split_lines bytes =
      let split : List Bytes × Bool = raw_lines bytes in (map lossy split.0, split.1)

  unfoldable pub body : Bytes → Option Bytes → Option Bytes → Bytes → Bytes → Bytes
  unfolding is_binary hunk split_lines
  body qp before after old_bytes new_bytes =
      let from = side (ascii "a/") qp before in
      let to = side (ascii "b/") qp after in
      let olds = split_lines old_bytes in
      let news = split_lines new_bytes in
      if is_binary old_bytes || is_binary new_bytes
      then ascii "Binary files " ++ (from ++ (ascii " and " ++ (to ++ ascii " differ\n")))
      else ascii "--- "
        ++ (from
            ++ (ascii "\n+++ "
                ++ (to
                    ++ (ascii "\n"
                        ++ (if ltb 0 (length olds.0) || ltb 0 (length news.0)
                            then hunk before after olds news
                            else [])))))

  unfoldable pub file_diff : Bytes → Option Bytes → Option Bytes → Bytes → Bytes → Bytes
  unfolding git_path mode_lines body
  file_diff path before after old_bytes new_bytes =
      let qp = git_path path in
      ascii "diff --git a/"
      ++ (qp
          ++ (ascii " b/"
              ++ (qp
                  ++ (ascii "\n"
                      ++ (mode_lines before after ++ body qp before after old_bytes new_bytes)))))

  unfoldable pub append_file_diff :
      Bytes → Bytes → Option Bytes → Option Bytes → Bytes → Bytes → Outcome PatchError Bytes
  unfolding file_diff
  append_file_diff out path before after old_bytes new_bytes =
      assert (is_some before || is_some after)
        (ok (out ++ file_diff path before after old_bytes new_bytes))

  module _ (S : Store) where
    -- `match hash { Some(h) => cas.get(&h)?.unwrap_or_default(), None => vec![] }`
    unfoldable pub bytes_of : S.State → Option Hash → Outcome PatchError (Bytes × S.State)
    bytes_of st none = ok ([], st)
    bytes_of st (some hash) = from_store (S.get st hash) >>= λ (found, st').
        ok (elim found [ none ↦ [] | some b ↦ b ], st')

    -- One entry that is not skipped: `base` is the hash of its path in the base.
    unfoldable pub entry_patch :
        S.State → Bytes → Bytes → Option Hash → Option Bytes → Outcome PatchError (Bytes × S.State)
    unfolding bytes_of append_file_diff
    entry_patch st out path base none = bytes_of st base >>= λ (old_bytes, st').
        append_file_diff out path (hex_of base) none old_bytes [] >>= λ out'. ok (out', st')
    entry_patch st out path base (some hex) = bytes_of st base >>= λ (old_bytes, st').
        parsed (hex_to_hash hex) >>= λ hash. bytes_of st' (some hash) >>= λ (new_bytes, st'').
        append_file_diff out path (hex_of base) (some hex) old_bytes new_bytes >>= λ out'.
        ok (out', st'')

    -- The loop of `extract_patch`.
    unfoldable pub patch_entries :
        S.State → Index → Bytes → List OverlayEntry → Outcome PatchError (Bytes × S.State)
    unfolding entry_patch
    patch_entries st base out [] = ok (out, st)
    patch_entries st base out (e ∷ rest) =
        let skip = patch_entries st base out rest in
        if not (is_some e.blob_hash) && not (is_some (lookup base e.path))
        then skip
        else (entry_patch st out e.path (lookup base e.path) e.blob_hash >>= λ (out', st').
            patch_entries st' base out' rest)

    unfoldable pub extract_patch :
        S.State → OverlayStore → Index → ℕ → Outcome PatchError (Bytes × S.State)
    unfolding patch_entries
    extract_patch st overlay base agent =
        from_overlay (entries_for_agent overlay agent) >>= λ entries.
        assert (leb (length entries) max_entries) (patch_entries st base [] entries)
