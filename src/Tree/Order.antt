-- ===== src/Tree/Order.antt =====
-- The order of byte strings, as of `&[u8]`.
use lunar_fs.Base.{◌≡◌, refl, Bool, true, false, [], ◌∷◌, Bytes, ltb, ◌=ℕ=◌, if◌then◌else◌, arith}

unfoldable pub bytes_leb : Bytes → Bytes → Bool
bytes_leb [] t = true
bytes_leb (b ∷ s) [] = false
bytes_leb (b ∷ s) (c ∷ t) =
    let rest = bytes_leb s t in if ltb b c then true else if b =ℕ= c then rest else false

pub bytes_leb_total : (s t : Bytes) → bytes_leb s t ≡ false → bytes_leb t s ≡ true
unfolding bytes_leb
bytes_leb_total [] t h = cc
bytes_leb_total (b ∷ s) [] h = refl
bytes_leb_total (b ∷ s) (c ∷ t) h = ground (arith, bytes_leb_total s t)

pub bytes_leb_antisym : (s t : Bytes) → bytes_leb s t ≡ true → bytes_leb t s ≡ true → s ≡ t
unfolding bytes_leb
bytes_leb_antisym [] [] h k = refl
bytes_leb_antisym [] (c ∷ t) h k = cc
bytes_leb_antisym (b ∷ s) [] h k = cc
bytes_leb_antisym (b ∷ s) (c ∷ t) h k = ground (arith, bytes_leb_antisym s t)

pub bytes_leb_trans :
    (s t u : Bytes) → bytes_leb s t ≡ true → bytes_leb t u ≡ true → bytes_leb s u ≡ true
unfolding bytes_leb
bytes_leb_trans [] t u h k = refl
bytes_leb_trans (b ∷ s) [] u h k = cc
bytes_leb_trans (b ∷ s) (c ∷ t) [] h k = cc
bytes_leb_trans (b ∷ s) (c ∷ t) (d ∷ u) h k = ground (arith, bytes_leb_trans s t u)
