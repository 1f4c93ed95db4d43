-- ===== src/Auth.antt =====
-- src/auth/acl.rs and `role_of` of src/auth/repo.rs: grants on workspaces, kept in a database.
-- The tables are lists of typed rows, and every statement is answered; ids are not negative.
pub mod Prefix
pub mod Decisions
use lunar_fs.Base.{
  ℕ, zero, suc, ◌+◌, ◌-◌, ◌*◌, ◌^◌, Bool, true, false, not, ◌&&◌, ◌||◌, Option, none, some, List,
  [], ◌∷◌, ◌++◌, Bytes, Outcome, ok, err, panic, ◌>>=◌, assert, ◌==◌, list_eq, nat_eq, pair_eq,
  option_eq, contains, leb, ltb, ◌=ℕ=◌, length, get_elem?, filter, if◌then◌else◌,
}
use lunar_fs.Base.Int.{ℤ, pos, negsuc, int_eq, ltb_ℤ}
use lunar_fs.Base.Text.{is_empty, starts_with, slash}

pub data PrincipalKind : Type 0 where
  user org token : PrincipalKind

pub data Permission : Type 0 where
  read write : Permission

pub data Decision : Type 0 where
  allow deny : Decision

pub record Principal : Type 0 where
  pub kind : PrincipalKind
  pub id : Bytes

pub record Grant : Type 0 where
  pub id : ℕ
  pub principal_kind : PrincipalKind
  pub principal_id : Bytes
  pub workspace_id : ℕ
  pub path_prefix : Bytes
  pub permission : Permission
  pub created_at : ℕ
  pub revoked_at : Option ℕ

-- The tables `acl_grants` and `memberships`; a membership is a user and an organisation.
pub record AuthDb : Type 0 where
  pub grants : List Grant
  pub last_grant : ℕ
  pub memberships : List (ℤ × ℤ)

-- The errors: a grant that is not there, or is revoked.
pub data AuthError : Type 0 where
  no_such_grant : AuthError

-- `trim_end_matches('/')`
unfoldable pub trim_end : Bytes → Bytes
trim_end [] = []
trim_end (c ∷ s) = let rest = trim_end s in if (c =ℕ= slash) && is_empty rest then [] else c ∷ rest

-- `path.as_bytes()[i] == b'/'`, where the byte is there.
abbrev pub slash_at : Bytes → ℕ → Bool
slash_at path i = elim (get_elem? path i) [ none ↦ false | some c ↦ c =ℕ= slash ]

unfoldable pub path_matches_prefix : Bytes → Bytes → Bool
path_matches_prefix path stored =
    let prefix = trim_end stored in
    if is_empty prefix
    then true
    else if path == prefix
    then true
    else ltb (length prefix) (length path)
      && (starts_with path prefix && slash_at path (length prefix))

unfoldable pub permission_satisfies : Permission → Permission → Bool
permission_satisfies write needed = true
permission_satisfies read read = true
permission_satisfies read write = false

-- The digits of `str::parse::<i64>`.
unfoldable pub parse_digits : ℕ → Bytes → Option ℕ
parse_digits n [] = some n
parse_digits n (c ∷ s) =
    let rest = parse_digits (n * 10 + (c - b'0')) s in
    if leb b'0' c && leb c b'9' then rest else none

abbrev pub negate : ℕ → ℤ
negate zero = pos 0
negate (suc n) = negsuc n

abbrev pub signed : Bool → Option ℕ → Option ℤ
signed true none = none
signed false none = none
signed true (some n) = if leb n (2 ^ 63) then some (negate n) else none
signed false (some n) = if leb n (2 ^ 63 - 1) then some (pos n) else none

-- `str::parse::<i64>`
unfoldable pub parse_i64 : Bytes → Option ℤ
unfolding parse_digits
parse_i64 [] = none
parse_i64 (c ∷ s) =
    if c =ℕ= b'-'
    then (if is_empty s then none else signed true (parse_digits 0 s))
    else if c =ℕ= b'+'
    then (if is_empty s then none else signed false (parse_digits 0 s))
    else signed false (parse_digits 0 (c ∷ s))

unfoldable pub role_of : AuthDb → ℤ → ℤ → Outcome AuthError Bool
role_of db user_id org_id =
    assert (ltb_ℤ (pos 0) user_id)
      (assert (ltb_ℤ (pos 0) org_id) (ok (contains db.memberships (user_id, org_id))))

unfoldable pub org_matches : AuthDb → Bytes → Bytes → Outcome AuthError Bool
org_matches db user_id org_id = elim (parse_i64 user_id) [
  | none ↦ ok false
  | some u ↦ elim (parse_i64 org_id) [ none ↦ ok false | some o ↦ role_of db u o ]
]

unfoldable pub principal_matches :
    AuthDb → PrincipalKind → Principal → Bytes → Outcome AuthError Bool
principal_matches db user p id = elim p.kind [ user ↦ ok (id == p.id) | _ ↦ ok false ]
principal_matches db token p id = elim p.kind [ token ↦ ok (id == p.id) | _ ↦ ok false ]
principal_matches db org p id = elim p.kind [ user ↦ org_matches db p.id id | _ ↦ ok false ]

unfoldable pub grant :
    AuthDb → PrincipalKind → Bytes → ℕ → Bytes → Permission → ℕ → Outcome AuthError (ℕ × AuthDb)
grant db kind id workspace path_prefix permission created_at = assert (not (is_empty id)) (
    assert (ltb 0 workspace) (
      assert (leb (length path_prefix) 4096) (
        let row_id = db.last_grant + 1 in
        let row : Grant = record {
          id = row_id;
          principal_kind = kind;
          principal_id = id;
          workspace_id = workspace;
          path_prefix = path_prefix;
          permission = permission;
          created_at = created_at;
          revoked_at = none;
        } in
        ok (row_id, record db { grants = db.grants ++ (row ∷ []); last_grant = row_id }))))

abbrev pub is_active : Grant → Bool
is_active g = elim g.revoked_at [ none ↦ true | some t ↦ false ]

-- `UPDATE … WHERE id = ? AND revoked_at IS NULL`, with the number of rows that it changed.
unfoldable pub stamp : ℕ → ℕ → List Grant → ℕ × List Grant
stamp grant_id now [] = (0, [])
stamp grant_id now (g ∷ rest) =
    let (n, rest') = stamp grant_id now rest in
    if (g.id =ℕ= grant_id) && is_active g
    then (suc n, record g { revoked_at = some now } ∷ rest')
    else (n, g ∷ rest')

unfoldable pub revoke : AuthDb → ℕ → ℕ → Outcome AuthError AuthDb
unfolding stamp
revoke db grant_id revoked_at = assert (ltb 0 grant_id) (
    let (rows, grants) = stamp grant_id revoked_at db.grants in
    if rows =ℕ= 0 then err no_such_grant else ok (record db { grants = grants }))

-- `SELECT … WHERE workspace_id = ? AND revoked_at IS NULL`
unfoldable pub active_grants : AuthDb → ℕ → List Grant
active_grants db workspace = filter (λ g. (g.workspace_id =ℕ= workspace) && is_active g) db.grants

unfoldable pub list_for_workspace : AuthDb → ℕ → Outcome AuthError (List Grant)
list_for_workspace db workspace = assert (ltb 0 workspace) (ok (active_grants db workspace))

module _ (db : AuthDb) (p : Principal) (path : Bytes) (needed : Permission) where
  -- The loop of `authorize`.
  unfoldable pub any_grant : List Grant → Outcome AuthError Decision
  any_grant [] = ok deny
  any_grant (g ∷ rest) =
      let next = any_grant rest in
      if not (path_matches_prefix path g.path_prefix)
      then next
      else if not (permission_satisfies g.permission needed)
      then next
      else (principal_matches db g.principal_kind p g.principal_id >>= λ m.
          if m then ok allow else next)

unfoldable pub authorize : AuthDb → Principal → ℕ → Bytes → Permission → Outcome AuthError Decision
unfolding any_grant list_for_workspace
authorize db p workspace path needed = assert (ltb 0 workspace) (
    assert (leb (length path) 4096) (
      list_for_workspace db workspace >>= λ grants.
      assert (leb (length grants) 1_000_000) (any_grant db p path needed grants)))
