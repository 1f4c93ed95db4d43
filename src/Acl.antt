-- ===== src/Acl.antt =====
-- src/acl.rs: the access rules of an overlay mount.
-- Times are `i64` values: the integers of `Base.Int`.
pub mod Longest
pub mod Boundary
pub mod Reordered
pub mod Table
use lunar_fs.Base.{
  ℕ, Bool, true, false, not, ◌&&◌, ◌||◌, Option, none, some, List, [], ◌∷◌, ◌++◌, Bytes, Outcome,
  ok, assert, ◌==◌, list_eq, nat_eq, ltb, leb, ◌=ℕ=◌, length, if◌then◌else◌, String,
}
use lunar_fs.Base.Int.{ℤ, ltb_ℤ}
use lunar_fs.Base.Text.{is_empty, ascii, starts_with, slash}

pub data Permission : Type 0 where
  read write deny : Permission

pub record AclEntry : Type 0 where
  pub path_prefix : Bytes
  pub principal : Bytes
  pub permission : Permission
  pub expires_at : Option ℤ

pub data AclDecision : Type 0 where
  allow refuse : AclDecision

unfoldable pub path_matches_prefix : Bytes → Bytes → Bool
unfolding is_empty
path_matches_prefix path prefix =
    if is_empty prefix
    then true
    else if path == prefix
    then true
    else starts_with path (prefix ++ (slash ∷ []))

unfoldable pub principal_matches : Bytes → Bytes → Bool
principal_matches entry_principal principal =
    entry_principal == ascii "*" || entry_principal == principal

unfoldable pub is_live : AclEntry → ℤ → Bool
is_live entry now = elim entry.expires_at [ none ↦ true | some exp ↦ ltb_ℤ now exp ]

-- The three tests that both loops make first.
unfoldable pub applies : Bytes → Bytes → ℤ → AclEntry → Bool
unfolding is_live path_matches_prefix principal_matches
applies path principal now entry =
    is_live entry now
    && (path_matches_prefix path entry.path_prefix && principal_matches entry.principal principal)

-- A write grants a read.
abbrev pub grants : Permission → Permission → Bool
grants write want = true
grants read read = true
grants read want = false
grants deny want = false

module _ (path principal : Bytes) (now : ℤ) where
  -- The first loop, from the best length so far.
  unfoldable pub best_length : List AclEntry → Option ℕ → Option ℕ
  best_length [] best = best
  best_length (entry ∷ rest) best = best_length rest (
      if applies path principal now entry
      then (elim best [
        | none ↦ some (length entry.path_prefix)
        | some b ↦
            if ltb b (length entry.path_prefix) then some (length entry.path_prefix) else some b
      ])
      else best)

  module _ (want : Permission) where
    -- The second loop; a `deny` at the best length ends it.
    unfoldable pub decide_at : ℕ → List AclEntry → Bool → AclDecision
    decide_at best [] has_allow = if has_allow then allow else refuse
    decide_at best (entry ∷ rest) has_allow =
        let skip = decide_at best rest has_allow in
        let next = decide_at best rest (grants entry.permission want || has_allow) in
        if applies path principal now entry && (length entry.path_prefix =ℕ= best)
        then (elim entry.permission [ deny ↦ refuse | _ ↦ next ])
        else skip

unfoldable pub decide : List AclEntry → Bytes → Bytes → ℤ → Permission → Outcome ⊥ AclDecision
unfolding best_length decide_at
decide entries path principal now want = assert (leb (length entries) 1_000_000) (
    assert (leb (length path) 4096) (
      ok (elim (best_length path principal now entries none) [
        | none ↦ allow
        | some best ↦ decide_at path principal now want best entries false
      ])))
