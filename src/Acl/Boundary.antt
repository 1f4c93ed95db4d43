-- ===== src/Acl/Boundary.antt =====
-- A prefix covers itself and what lies below it, at a path boundary.
use lunar_fs.Base.{
  ◌≡◌, refl, sym, ◌∙◌, ◌↔◌, ◌⊎◌, inl, inr, true, [], ◌∷◌, ◌++◌, Bytes, arith, list_eq, nat_eq,
}
use mathlib.Core.List.{append_assoc}
use lunar_fs.Base.Text.{starts_with, starts_with_sound, starts_with-append, slash}
use lunar_fs.Acl.{path_matches_prefix}

-- `prefix` is empty, is the path, or is an ancestor of it.
abbrev Covers : Bytes → Bytes → Type 0
Covers prefix path =
    (prefix ≡ []) ⊎ (path ≡ prefix) ⊎ ((rest : Bytes) × (path ≡ prefix ++ slash ∷ rest))

starts_with_covers :
    (path prefix : Bytes)
    → starts_with path (prefix ++ slash ∷ []) ≡ true
    → (rest : Bytes) × (path ≡ prefix ++ slash ∷ rest)
starts_with_covers path prefix h =
    let (rest, e) = starts_with_sound path (prefix ++ slash ∷ []) h in
    (rest, e ∙ append_assoc prefix (slash ∷ []) rest)

-- A rule's prefix matches a path exactly if it is empty, is that path, or is followed in it by a slash.
path_matches_prefix_iff :
    (path prefix : Bytes) → (path_matches_prefix path prefix ≡ true) ↔ Covers prefix path
unfolding path_matches_prefix
path_matches_prefix_iff path [] = (λ _. inl refl, λ _. refl)
path_matches_prefix_iff path (c ∷ cs) = (
  λ h. elim (list_eq.dec path (c ∷ cs)) [
    | yes e ↦ inr (inl e)
    | no n ↦ inr (inr (starts_with_covers path (c ∷ cs) (ground arith)))
  ],
  λ v. elim v [
    | inl e ↦ cc
    | inr (inl e) ↦ ground arith
    | inr (inr (rest, e)) ↦
        let covered : starts_with path ((c ∷ cs) ++ slash ∷ []) ≡ true =
          rw (e ∙ sym (append_assoc (c ∷ cs) (slash ∷ []) rest))
            (starts_with-append ((c ∷ cs) ++ slash ∷ []) rest) in
        ground arith
  ],
)
