-- ===== src/Autosync/Noise.antt =====
-- src/autosync.rs: the paths whose changes do not count.
-- A path is its bytes; the lossy decoding of a component changes none of the tests.
use lunar_fs.Base.{
  Bool, true, false, not, ◌&&◌, ◌||◌, Option, none, some, List, [], ◌∷◌, ◌++◌, Bytes, ◌==◌, list_eq,
  nat_eq, leb, ltb, ◌=ℕ=◌, length, drop, ◌-◌, filter, contains, if◌then◌else◌,
}
use lunar_fs.Base.Text.{ascii, is_empty, starts_with, slash}

-- `split('/')`: `part` is what was read of the current component.
unfoldable pub split_slash : Bytes → Bytes → List Bytes
split_slash part [] = part ∷ []
split_slash part (c ∷ s) =
    let more = split_slash [] s in
    let longer = split_slash (part ++ (c ∷ [])) s in if c =ℕ= slash then part ∷ more else longer

-- `Path::components`, without the root and the dots.
unfoldable pub components : Bytes → List Bytes
unfolding split_slash
components path = filter (λ p. not (is_empty p || (p == ascii "."))) (split_slash [] path)

abbrev pub last : List Bytes → Option Bytes
last [] = none
last (p ∷ []) = some p
last (p ∷ q ∷ rest) = last (q ∷ rest)

-- `Path::file_name`: none where the path ends in `..`.
unfoldable pub file_name : Bytes → Option Bytes
unfolding components
file_name path = elim (last (components path)) [
  | none ↦ none
  | some p ↦ if (p == ascii "..") then none else some p
]

unfoldable pub ends_with : Bytes → Bytes → Bool
ends_with s suffix = leb (length suffix) (length s) && (drop (length s - length suffix) s == suffix)

unfoldable pub all_digits : Bytes → Bool
all_digits [] = true
all_digits (c ∷ s) = (leb b'0' c && leb c b'9') && all_digits s

unfoldable pub is_noise_name : Bytes → Bool
unfolding ends_with all_digits
is_noise_name name =
    ends_with name (ascii ".swp")
    || ends_with name (ascii "~")
    || ends_with name (ascii ".tmp")
    || ends_with name (ascii ".sock")
    || (not (is_empty name) && all_digits name)
    || starts_with name (ascii ".#")
    || (starts_with name (ascii "#") && (ends_with name (ascii "#") && ltb 1 (length name)))

unfoldable pub is_noise_path : Bytes → Bool
unfolding components file_name is_noise_name
is_noise_path path =
    contains (components path) (ascii ".git")
    || contains (components path) (ascii ".lunar")
    || (elim (file_name path) [ none ↦ false | some name ↦ is_noise_name name ])
