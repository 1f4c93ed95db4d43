-- ===== src/Auth/Decisions.antt =====
-- What grants and revocations do to the decisions.
use lunar_fs.Base.{
  ℕ, ◌≡◌, refl, sym, ◌∙◌, ap, inl, inr, Bool, true, false, not, ◌&&◌, List, [], ◌∷◌, Bytes, ok, err,
  ◌>>=◌, >>=-eq-ok, All, Any, ◌=ℕ=◌, filter, if◌then◌else◌, Bool-cases, arith, list_eq, nat_eq,
}
use lunar_fs.Auth.{
  AuthDb, AuthError, Principal, Permission, allow, deny, Grant, is_active, any_grant, authorize,
  revoke, stamp, active_grants, list_for_workspace, path_matches_prefix, permission_satisfies,
  principal_matches,
}

module _ (db : AuthDb) (p : Principal) (path : Bytes) (needed : Permission) where
  -- A grant that covers the path and the permission, as the loop tests it.
  abbrev pub covers : Grant → Bool
  covers g = path_matches_prefix path g.path_prefix && permission_satisfies g.permission needed

  abbrev pub Allows : Grant → Type 0
  Allows g = (covers g ≡ true) × (principal_matches db g.principal_kind p g.principal_id ≡ ok true)

  skip_step :
      (g : Grant) (gs : List Grant)
      → covers g ≡ false
      → any_grant db p path needed (g ∷ gs) ≡ any_grant db p path needed gs
  unfolding any_grant
  skip_step g gs off = ground arith

  ask_step :
      (g : Grant) (gs : List Grant)
      → covers g ≡ true
      → any_grant db p path needed (g ∷ gs) ≡ (
          principal_matches db g.principal_kind p g.principal_id >>= λ m.
          if m then ok allow else any_grant db p path needed gs)
  unfolding any_grant
  ask_step g gs on = ground arith

  any_grant-allow : (gs : List Grant) → any_grant db p path needed gs ≡ ok allow → Any Allows gs
  any_grant-allow [] h = unfold any_grant in cc
  any_grant-allow (g ∷ gs) h = elim (Bool-cases (covers g)) [
    | inr off ↦ inr (any_grant-allow gs (sym (skip_step g gs off) ∙ h))
    | inl on ↦
        let (m, asked, r) =
          >>=-eq-ok (principal_matches db g.principal_kind p g.principal_id) _
            (sym (ask_step g gs on) ∙ h) in
        elim (Bool-cases m) [
          | inl t ↦ inl (on, asked ∙ ap ok t)
          | inr f ↦ inr (any_grant-allow gs (rw f at r))
        ]
  ]

  any_grant-deny :
      (gs : List Grant)
      → any_grant db p path needed gs ≡ ok deny
      → All
          (λ g. covers g ≡ true → principal_matches db g.principal_kind p g.principal_id ≡ ok false)
          gs
  any_grant-deny [] h = tt
  any_grant-deny (g ∷ gs) h = elim (Bool-cases (covers g)) [
    | inr off ↦ ((λ on. cc), any_grant-deny gs (sym (skip_step g gs off) ∙ h))
    | inl on ↦
        let (m, asked, r) =
          >>=-eq-ok (principal_matches db g.principal_kind p g.principal_id) _
            (sym (ask_step g gs on) ∙ h) in
        elim (Bool-cases m) [
          | inl t ↦ cc (rw t at r)
          | inr f ↦ ((λ _. asked ∙ ap ok f), any_grant-deny gs (rw f at r))
        ]
  ]

  module _ (workspace : ℕ) where
    -- An allowed request has an active grant of the workspace that covers the path and
    -- satisfies the permission, for the principal or an organisation of which it is a member.
    pub authorize-allow :
        authorize db p workspace path needed ≡ ok allow → Any Allows (active_grants db workspace)
    unfolding authorize
    authorize-allow h = any_grant-allow (active_grants db workspace) (ground arith)

    -- A denied request has no active grant of the workspace that covers the path, satisfies the
    -- permission and matches the principal.
    pub authorize-deny :
        authorize db p workspace path needed ≡ ok deny
        → All
            (λ g.
              covers g ≡ true → principal_matches db g.principal_kind p g.principal_id ≡ ok false)
            (active_grants db workspace)
    unfolding authorize
    authorize-deny h = any_grant-deny (active_grants db workspace) (ground arith)

module _ (grant_id now : ℕ) where
  abbrev pub other_than : Grant → Bool
  other_than g = not (g.id =ℕ= grant_id)

  stamp-filter :
      (workspace : ℕ) (gs : List Grant)
      → filter (λ g. (g.workspace_id =ℕ= workspace) && is_active g) (stamp grant_id now gs).1
        ≡ filter other_than (filter (λ g. (g.workspace_id =ℕ= workspace) && is_active g) gs)
  unfolding stamp filter
  stamp-filter workspace [] = refl
  stamp-filter workspace (g ∷ gs) = ground (arith, stamp-filter workspace gs)

  -- A revocation that succeeds takes the grant, and no other, out of the active grants of every
  -- workspace.
  pub revoke-list_for_workspace :
      (db db' : AuthDb) (workspace : ℕ)
      → revoke db grant_id now ≡ ok db'
      → list_for_workspace db' workspace
        ≡ (list_for_workspace db workspace >>= λ gs. ok (filter other_than gs))
  unfolding revoke active_grants list_for_workspace
  revoke-list_for_workspace db db' workspace h = ground (arith, stamp-filter workspace db.grants)

  stamp-again : (gs : List Grant) (t : ℕ) → (stamp grant_id t (stamp grant_id now gs).1).0 ≡ 0
  unfolding stamp
  stamp-again [] t = refl
  stamp-again (g ∷ gs) t = ground (arith, stamp-again gs t)

  -- A grant cannot be revoked twice.
  pub revoke_twice :
      (db db' : AuthDb) (later : ℕ)
      → revoke db grant_id now ≡ ok db'
      → revoke db' grant_id later ≡ err AuthError.no_such_grant
  unfolding revoke
  revoke_twice db db' later h = ground (arith, stamp-again db.grants later)
