-- ===== src/Tests/Access.antt =====
-- Access rules, grants and workspace names.
use mathlib.Core.List.{Perm, reverse, reverse_perm}
use lunar_fs.Base.{
  ℕ, ◌≡◌, ◌↔◌, ◌⊎◌, refl, true, false, none, some, List, [], ◌∷◌, ◌++◌, Bytes, ok, ◌>>=◌, arith,
  All, Any, filter, list_eq, nat_eq, list_dec, pair_eq,
}
use lunar_fs.Base.Int.{pos}
use lunar_fs.Base.Text.{ascii, is_empty, starts_with}
use lunar_fs.Acl.Table.{AclStore, insert_all, load_all, load_all-insert_all}
use lunar_fs.Acl
use lunar_fs.Acl.{AclEntry, decide}
use lunar_fs.Acl.Longest.{AtMost, Reaches, NoneApplies, NoneDenies, SomeGrants, decide-allow_iff}
use lunar_fs.Auth
use lunar_fs.Auth.{
  AuthDb, Principal, Grant, authorize, revoke, active_grants, list_for_workspace, trim_end, stamp,
  any_grant,
}
use lunar_fs.Auth.Decisions.{
  Allows, covers, other_than, authorize-allow, authorize-deny, revoke-list_for_workspace,
}
use lunar_fs.Names.{resolve_workspace}
use lunar_fs.Names.Targets.{IsComplete, resolve_workspace-IsComplete}

-- Everyone reads below "docs", and "eve" does not read "docs/private".
abbrev rules : List AclEntry
rules =
    record {
      path_prefix = ascii "docs";
      principal = ascii "*";
      permission = Acl.Permission.read;
      expires_at = none;
    }
    ∷ record {
      path_prefix = ascii "docs/private";
      principal = ascii "eve";
      permission = Acl.Permission.deny;
      expires_at = some (pos 9);
    }
    ∷ []

abbrev asked : Bytes
asked = ascii "docs/a"

abbrev eve : Bytes
eve = ascii "eve"

decide-allow_iff_example : (decide rules asked eve (pos 5) Acl.Permission.read ≡ ok Acl.allow) ↔ (
    NoneApplies asked eve (pos 5) rules
    ⊎ ((best : ℕ) × AtMost asked eve (pos 5) best rules
        × Reaches asked eve (pos 5) best rules
        × NoneDenies asked eve (pos 5) Acl.Permission.read best rules
        × SomeGrants asked eve (pos 5) Acl.Permission.read best rules))
decide-allow_iff_example =
    decide-allow_iff asked eve (pos 5) Acl.Permission.read rules (omega arith) (omega arith)

-- User 7 has the workspace 1; the organisation 2, of which user 8 is a member, has it too.
abbrev grant_of_user : Grant
grant_of_user = record {
  id = 1;
  principal_kind = Auth.PrincipalKind.user;
  principal_id = ascii "7";
  workspace_id = 1;
  path_prefix = ascii "docs/";
  permission = Auth.Permission.write;
  created_at = 0;
  revoked_at = none;
}

abbrev db : AuthDb
db = record { grants = grant_of_user ∷ []; last_grant = 1; memberships = [] }

abbrev user_7 : Principal
user_7 = record { kind = Auth.PrincipalKind.user; id = ascii "7" }

abbrev user_8 : Principal
user_8 = record { kind = Auth.PrincipalKind.user; id = ascii "8" }

allowed : authorize db user_7 1 asked Auth.Permission.read ≡ ok Auth.allow
unfolding authorize active_grants filter Auth.path_matches_prefix is_empty trim_end list_dec
    native.Mathlib.Decide.ℕ_discrete starts_with Auth.permission_satisfies Auth.principal_matches
allowed = refl

denied : authorize db user_8 1 asked Auth.Permission.read ≡ ok Auth.deny
unfolding authorize active_grants filter Auth.path_matches_prefix is_empty trim_end list_dec
    native.Mathlib.Decide.ℕ_discrete starts_with Auth.permission_satisfies Auth.principal_matches
denied = refl

authorize-allow_example : Any (Allows db user_7 asked Auth.Permission.read) (active_grants db 1)
authorize-allow_example = authorize-allow db user_7 asked Auth.Permission.read 1 allowed

authorize-deny_example :
    All
      (λ g.
        covers db user_8 asked Auth.Permission.read g ≡ true
        → Auth.principal_matches db g.principal_kind user_8 g.principal_id ≡ ok false)
      (active_grants db 1)
authorize-deny_example = authorize-deny db user_8 asked Auth.Permission.read 1 denied

abbrev db_after : AuthDb
db_after = record {
  grants = record grant_of_user { revoked_at = some 5 } ∷ [];
  last_grant = 1;
  memberships = [];
}

revokes : revoke db 1 5 ≡ ok db_after
unfolding revoke
revokes = refl

revoke-list_for_workspace_example :
    list_for_workspace db_after 1
    ≡ (list_for_workspace db 1 >>= λ gs. ok (filter (other_than 1 5) gs))
revoke-list_for_workspace_example = revoke-list_for_workspace 1 5 db db_after 1 revokes

resolve_workspace-IsComplete_example : IsComplete (
    resolve_workspace
      (ascii "acme/site")
      (record { server = none; org = none; token = some (ascii "t") })
      [])
resolve_workspace-IsComplete_example =
    resolve_workspace-IsComplete (ascii "acme/site")
      (record { server = none; org = none; token = some (ascii "t") }) []

abbrev kept_rule : AclEntry
kept_rule = record {
  path_prefix = ascii "src";
  principal = ascii "agent:1";
  permission = Acl.Permission.write;
  expires_at = none;
}

abbrev newest_first : AclStore → AclStore
newest_first rows = reverse rows

load_all-insert_all_example :
    (rows' : AclStore) × (insert_all [] (kept_rule ∷ rules) ≡ ok rows')
    × Perm (load_all newest_first rows') (load_all newest_first [] ++ (kept_rule ∷ rules))
    × (decide (load_all newest_first rows') asked eve (pos 5) Acl.Permission.read
        ≡ decide
            (load_all newest_first [] ++ (kept_rule ∷ rules))
            asked
            eve
            (pos 5)
            Acl.Permission.read)
load_all-insert_all_example =
    load_all-insert_all newest_first [] (kept_rule ∷ rules) asked eve (pos 5) Acl.Permission.read
      (λ rs. reverse_perm rs) (omega arith, (omega arith, (omega arith, tt)))
