-- ===== src/Nfs/Buffers.antt =====
-- The buffer of a write in src/nfs/fs.rs.
use lunar_fs.Base.{
  ℕ, zero, suc, ◌+◌, ◌-◌, ◌≤◌, ◌≡◌, refl, ap, ◌∙◌, false, ◌++◌, Bytes, ltb, length, take, drop,
  length-append, length-take, length-drop, drop-append_at, take-append_length, Bool-cases, inl, inr,
  arith, if◌then◌else◌,
}
use lunar_fs.Base.Text.{is_empty}
use lunar_fs.Nfs.Files.{zeros, resize, splice, isize_max}
use lunar_fs.Nfs.Handlers.{patched, new_end}

length-zeros : (n : ℕ) → length (zeros n) ≡ n
unfolding zeros
length-zeros zero = refl
length-zeros (suc n) = omega (arith, length-zeros n)

pub length-resize : (n : ℕ) (b : Bytes) → length (resize n b) ≡ n
unfolding resize
length-resize n b =
    let app = length-append (take n b) (zeros (n - length b)) in
    omega (arith, app, length-take n b, length-zeros (n - length b))

length-splice :
    (start : ℕ) (x buf : Bytes)
    → start + length x ≤ length buf
    → length (splice start x buf) ≡ length buf
unfolding splice
length-splice start x buf fits =
    let tail = drop (start + length x) buf in
    let outer = length-append (take start buf) (x ++ tail) in
    let inner = length-append x tail in
    omega (arith, outer, inner, length-take start buf, length-drop (start + length x) buf)

read-splice :
    (start : ℕ) (x buf : Bytes)
    → start + length x ≤ length buf
    → take (length x) (drop start (splice start x buf)) ≡ x
unfolding splice
read-splice start x buf fits =
    let tail = drop (start + length x) buf in
    let head : length (take start buf) ≡ start = omega (arith, length-take start buf) in
    ap (take (length x)) (drop-append_at start (take start buf) (x ++ tail) head)
    ∙ take-append_length x tail

-- The buffer before the bytes are copied into it.
abbrev wide : ℕ → Bytes → Bytes → Bytes
wide offset x buf =
    if ltb (length buf) (new_end offset x) then resize (new_end offset x) buf else buf

length-wide :
    (offset : ℕ) (x buf : Bytes)
    → (new_end offset x ≤ length (wide offset x buf)) × (length buf ≤ length (wide offset x buf))
length-wide offset x buf = elim (Bool-cases (ltb (length buf) (new_end offset x))) [
  | inl short ↦
      let len = length-resize (new_end offset x) buf in
      (rw short (omega (arith, len)), rw short (ground (arith, len)))
  | inr long ↦ (rw long (ground arith), rw long (omega arith))
]

module _ (offset : ℕ) (x buf : Bytes) (some_bytes : is_empty x ≡ false)
    (fits : offset + length x ≤ isize_max) where
  patched-splice : patched offset x buf ≡ splice offset x (wide offset x buf)
  unfolding patched
  patched-splice = rw some_bytes refl

  end_of_write : new_end offset x ≡ offset + length x
  end_of_write = omega arith

  pub read-patched : take (length x) (drop offset (patched offset x buf)) ≡ x
  read-patched =
      let (reach, _) = length-wide offset x buf in
      ap (λ b. take (length x) (drop offset b)) patched-splice
      ∙ read-splice offset x (wide offset x buf) (omega (arith, end_of_write))

  pub length-patched : offset + length x ≤ length (patched offset x buf)
  length-patched =
      let (reach, _) = length-wide offset x buf in
      let len = length-splice offset x (wide offset x buf) (omega (arith, end_of_write)) in
      omega (arith, end_of_write, ap length patched-splice)
