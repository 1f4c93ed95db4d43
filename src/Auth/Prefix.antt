-- ===== src/Auth/Prefix.antt =====
-- The boundary check of grants against that of the rules of src/acl.rs.
use lunar_fs.Base.{◌≡◌, refl, ◌&&◌, [], ◌∷◌, ◌++◌, Bytes, arith, list_eq, nat_eq, ltb, length}
use lunar_fs.Base.Text.{starts_with, slash}
use lunar_fs.Acl
use lunar_fs.Auth.{trim_end, path_matches_prefix, slash_at}

-- The test on the byte behind the prefix is the test of the prefix with a slash.
starts_with-slash :
    (path prefix : Bytes)
    → (ltb (length prefix) (length path)
        && (starts_with path prefix && slash_at path (length prefix)))
      ≡ starts_with path (prefix ++ (slash ∷ []))
unfolding starts_with
starts_with-slash [] [] = refl
starts_with-slash [] (p ∷ ps) = ground arith
starts_with-slash (c ∷ path) [] = ground arith
starts_with-slash (c ∷ path) (p ∷ ps) = ground (arith, starts_with-slash path ps)

-- A grant's prefix covers the paths that a rule with that prefix, less its trailing slashes, covers.
pub path_matches_prefix-trim_end :
    (path stored : Bytes)
    → path_matches_prefix path stored ≡ Acl.path_matches_prefix path (trim_end stored)
unfolding path_matches_prefix Acl.path_matches_prefix
path_matches_prefix-trim_end path stored = rw (starts_with-slash path (trim_end stored))
