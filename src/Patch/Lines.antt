-- ===== src/Patch/Lines.antt =====
-- The lines of a blob in src/patch.rs.
use lunar_fs.Base.{
  ℕ, ◌≡◌, refl, sym, ap, ◌∙◌, Bool, true, false, Bool-cases, inl, inr, List, [], ◌∷◌, ◌++◌, Bytes,
  All, map, arith, ◌=ℕ=◌, ◌||◌,
}
use lunar_fs.Base.Text.{has_byte}
use lunar_fs.Patch.{newline, split_on_newline, strip_newline, raw_lines, split_lines}

-- A newline between the lines.
unfoldable pub join_lines : List Bytes → Bytes
join_lines [] = []
join_lines (line ∷ []) = line
join_lines (line ∷ next ∷ rest) = line ++ (newline ∷ join_lines (next ∷ rest))

abbrev pub last_newline : Bool → Bytes
last_newline true = newline ∷ []
last_newline false = []

append_assoc : (x y z : Bytes) → (x ++ y) ++ z ≡ x ++ (y ++ z)
append_assoc [] y z = refl
append_assoc (c ∷ x) y z = ap (λ t. c ∷ t) (append_assoc x y z)

append_nil : (x : Bytes) → x ++ [] ≡ x
append_nil [] = refl
append_nil (c ∷ x) = ap (λ t. c ∷ t) (append_nil x)

-- There is always a first line.
split_cons : (line s : Bytes) → (h : Bytes) × (t : List Bytes) × (split_on_newline line s ≡ h ∷ t)
unfolding split_on_newline
split_cons line [] = (line, [], refl)
split_cons line (c ∷ s) = elim (Bool-cases (c =ℕ= newline)) [
  | inl e ↦ (line, split_on_newline [] s, rw e refl)
  | inr e ↦ let (h, t, same) = split_cons (line ++ (c ∷ [])) s in (h, t, rw e same)
]

join_first :
    (line : Bytes) (lines : List Bytes) (h : Bytes) (t : List Bytes)
    → lines ≡ h ∷ t
    → join_lines (line ∷ lines) ≡ line ++ (newline ∷ join_lines lines)
unfolding join_lines
join_first line lines h t e = rw e refl

join-split_on_newline : (line s : Bytes) → join_lines (split_on_newline line s) ≡ line ++ s
unfolding split_on_newline join_lines
join-split_on_newline line [] = sym (append_nil line)
join-split_on_newline line (c ∷ s) = elim (Bool-cases (c =ℕ= newline)) [
  | inl e ↦
      let (h, t, same) = split_cons [] s in
      let at : newline ≡ c = ground arith in
      rw e (
        join_first line (split_on_newline [] s) h t same
        ∙ (ap (λ x. line ++ (newline ∷ x)) (join-split_on_newline [] s)
            ∙ ap (λ n. line ++ (n ∷ s)) at))
  | inr e ↦ rw e (join-split_on_newline (line ++ (c ∷ [])) s ∙ append_assoc line (c ∷ []) s)
]

strip_newline_parts : (s : Bytes) → (strip_newline s).0 ++ last_newline (strip_newline s).1 ≡ s
unfolding strip_newline
strip_newline_parts [] = refl
strip_newline_parts (c ∷ []) = elim (Bool-cases (c =ℕ= newline)) [
  | inl e ↦ let at : newline ≡ c = ground arith in rw e (ap (λ n. n ∷ []) at)
  | inr e ↦ rw e refl
]
strip_newline_parts (c ∷ d ∷ s) = ap (λ t. c ∷ t) (strip_newline_parts (d ∷ s))

has_byte-append : (n : ℕ) (x y : Bytes) → has_byte n (x ++ y) ≡ (has_byte n x || has_byte n y)
unfolding has_byte
has_byte-append n [] y = refl
has_byte-append n (c ∷ x) y = ground (arith, has_byte-append n x y)

lines_have_none :
    (line s : Bytes)
    → has_byte newline line ≡ false
    → All (λ l. has_byte newline l ≡ false) (split_on_newline line s)
unfolding split_on_newline has_byte
lines_have_none line [] none = (none, tt)
lines_have_none line (c ∷ s) none = elim (Bool-cases (c =ℕ= newline)) [
  | inl e ↦ rw e (none, lines_have_none [] s refl)
  | inr e ↦ rw e (
      lines_have_none (line ++ (c ∷ [])) s
        (has_byte-append newline line (c ∷ []) ∙ (rw (none, e) refl)))
]

map_same : (f : Bytes → Bytes) (xs : List Bytes) → All (λ x. f x ≡ x) xs → map f xs ≡ xs
map_same f [] all = refl
map_same f (x ∷ xs) all = ap (λ y. y ∷ map f xs) all.0 ∙ ap (λ t. x ∷ t) (map_same f xs all.1)

-- A blob that is not empty is the lines that a patch shows, with newlines between them and one at
-- the end where the patch says that there is one; no line has a newline in it. The decoding of
-- UTF-8 leaves these lines as they are.
pub split_lines_rejoin :
    (lossy : Bytes → Bytes) (c : ℕ) (s : Bytes)
    → All (λ l. lossy l ≡ l) (raw_lines (c ∷ s)).0
    → (join_lines (split_lines lossy (c ∷ s)).0 ++ last_newline (split_lines lossy (c ∷ s)).1
        ≡ c ∷ s)
      × All (λ l. has_byte newline l ≡ false) (split_lines lossy (c ∷ s)).0
unfolding split_lines raw_lines has_byte
split_lines_rejoin lossy c s text =
    let stripped = strip_newline (c ∷ s) in
    let same = map_same lossy (split_on_newline [] stripped.0) text in
    (
      ap (λ ls. join_lines ls ++ last_newline stripped.1) same
          ∙ (ap (λ t. t ++ last_newline stripped.1) (join-split_on_newline [] stripped.0)
              ∙ strip_newline_parts (c ∷ s)),
      rw same (lines_have_none [] stripped.0 refl),
    )
