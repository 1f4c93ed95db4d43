-- ===== src/Tree/Utf8.antt =====
-- `String::from_utf8`: the well-formed byte sequences of UTF-8.
use lunar_fs.Base.{ℕ, Bool, true, ◌&&◌, [], ◌∷◌, Bytes, leb, ◌=ℕ=◌, if◌then◌else◌}

abbrev within : ℕ → ℕ → ℕ → Bool
within lo hi b = leb lo b && leb b hi

-- The second byte of a sequence, by its first.
second_byte : ℕ → ℕ → Bool
second_byte b c =
    if b =ℕ= 0xE0
    then within 0xA0 0xBF c
    else if b =ℕ= 0xED
    then within 0x80 0x9F c
    else if b =ℕ= 0xF0
    then within 0x90 0xBF c
    else if b =ℕ= 0xF4
    then within 0x80 0x8F c
    else within 0x80 0xBF c

-- The number of bytes that follow the first.
sequence_tail : ℕ → ℕ
sequence_tail b =
    if within 0xC2 0xDF b
    then 1
    else if within 0xE0 0xEF b
    then 2
    else if within 0xF0 0xF4 b
    then 3
    else 0

abbrev tail_byte : ℕ → Bool
tail_byte = within 0x80 0xBF

unfoldable pub utf8_valid : Bytes → Bool
unfolding second_byte sequence_tail
utf8_valid [] = true
utf8_valid (b ∷ []) = leb b 0x7F
utf8_valid (b ∷ c ∷ []) =
    let one = utf8_valid (c ∷ []) in
    if leb b 0x7F then one else (sequence_tail b =ℕ= 1) && second_byte b c
utf8_valid (b ∷ c ∷ d ∷ []) =
    let one = utf8_valid (c ∷ d ∷ []) in
    let two = utf8_valid (d ∷ []) in
    if leb b 0x7F
    then one
    else if sequence_tail b =ℕ= 1
    then second_byte b c && two
    else (sequence_tail b =ℕ= 2) && (second_byte b c && tail_byte d)
utf8_valid (b ∷ c ∷ d ∷ e ∷ rest) =
    let one = utf8_valid (c ∷ d ∷ e ∷ rest) in
    let two = utf8_valid (d ∷ e ∷ rest) in
    let three = utf8_valid (e ∷ rest) in
    let four = utf8_valid rest in
    if leb b 0x7F
    then one
    else if sequence_tail b =ℕ= 1
    then second_byte b c && two
    else if sequence_tail b =ℕ= 2
    then second_byte b c && (tail_byte d && three)
    else (sequence_tail b =ℕ= 3) && (second_byte b c && (tail_byte d && (tail_byte e && four)))
