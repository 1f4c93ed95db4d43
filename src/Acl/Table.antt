-- ===== src/Acl/Table.antt =====
-- src/acl.rs: the table of rules, `AclStore`.
-- The table is the list of its rows; every statement is answered.
use mathlib.Core.List.{Perm, map-append}
use mathlib.Core.List.Perm
use lunar_fs.Base.{
  ◌≤◌, le→leb, All, ◌≡◌, refl, sym, ap, ◌∙◌, List, [], ◌∷◌, ◌++◌, Bytes, Option, Outcome, ok, ◌>>=◌,
  assert, arith, ◌==◌, list_eq, nat_eq, leb, length, if◌then◌else◌, map,
}
use lunar_fs.Base.Int.{ℤ}
use lunar_fs.Base.Text.{ascii}
use lunar_fs.Cas.{IoError}
use lunar_fs.Acl.Reordered.{decide-Perm}
use lunar_fs.Acl.{decide, AclEntry, Permission, read, write, deny}

pub record AclRow : Type 0 where
  pub path_prefix : Bytes
  pub principal : Bytes
  pub permission : Bytes
  pub expires_at : Option ℤ

abbrev pub AclStore : Type 0
AclStore = List AclRow

unfoldable pub permission_to_str : Permission → Bytes
permission_to_str read = ascii "read"
permission_to_str write = ascii "write"
permission_to_str deny = ascii "deny"

unfoldable pub str_to_permission : Bytes → Permission
str_to_permission s =
    if (s == ascii "write") then write else if (s == ascii "deny") then deny else read

unfoldable pub row_of : AclEntry → AclRow
unfolding permission_to_str
row_of e = record {
  path_prefix = e.path_prefix;
  principal = e.principal;
  permission = permission_to_str e.permission;
  expires_at = e.expires_at;
}

unfoldable pub entry_of : AclRow → AclEntry
unfolding str_to_permission
entry_of r = record {
  path_prefix = r.path_prefix;
  principal = r.principal;
  permission = str_to_permission r.permission;
  expires_at = r.expires_at;
}

unfoldable pub insert : AclStore → AclEntry → Outcome IoError AclStore
unfolding row_of
insert rows e = assert (leb (length e.path_prefix) 4096) (ok (rows ++ (row_of e ∷ [])))

-- The query asks for no order: `order` is that of its rows.
unfoldable pub load_all : (AclStore → AclStore) → AclStore → List AclEntry
unfolding entry_of
load_all order rows = map entry_of (order rows)

unfoldable pub insert_all : AclStore → List AclEntry → Outcome IoError AclStore
unfolding insert
insert_all rows [] = ok rows
insert_all rows (e ∷ rest) = insert rows e >>= λ rows'. insert_all rows' rest

permission-roundtrip : (p : Permission) → str_to_permission (permission_to_str p) ≡ p
unfolding str_to_permission permission_to_str native.Mathlib.Decide.ℕ_discrete
    lunar_fs.Base.list_dec
permission-roundtrip read = refl
permission-roundtrip write = refl
permission-roundtrip deny = refl

entry_of-row_of : (e : AclEntry) → entry_of (row_of e) ≡ e
unfolding entry_of row_of
entry_of-row_of e = ap (λ p. record e { permission = p }) (permission-roundtrip e.permission)

entries-rows : (entries : List AclEntry) → map entry_of (map row_of entries) ≡ entries
entries-rows [] = refl
entries-rows (e ∷ rest) =
    ap (λ x. x ∷ map entry_of (map row_of rest)) (entry_of-row_of e)
    ∙ ap (λ t. e ∷ t) (entries-rows rest)

rows_nil : (rows : AclStore) → rows ++ [] ≡ rows
rows_nil [] = refl
rows_nil (r ∷ rows) = ap (λ t. r ∷ t) (rows_nil rows)

rows_snoc :
    (rows : AclStore) (r : AclRow) (rest : AclStore)
    → (rows ++ (r ∷ [])) ++ rest ≡ rows ++ (r ∷ rest)
rows_snoc [] r rest = refl
rows_snoc (x ∷ rows) r rest = ap (λ t. x ∷ t) (rows_snoc rows r rest)

insert_all-ok :
    (rows : AclStore) (entries : List AclEntry)
    → All (λ e. length e.path_prefix ≤ 4096) entries
    → insert_all rows entries ≡ ok (rows ++ map row_of entries)
unfolding insert_all insert
insert_all-ok rows [] short = ap ok (sym (rows_nil rows))
insert_all-ok rows (e ∷ rest) short = rw (le→leb (length e.path_prefix) 4096 short.0) (
    insert_all-ok (rows ++ (row_of e ∷ [])) rest short.1
    ∙ ap ok (rows_snoc rows (row_of e) (map row_of rest)))

-- Rules whose prefixes are not too long are all inserted, and are then loaded as they were, beside
-- those that were loaded before, in whatever order the query gives the rows; the loaded rules decide
-- as the inserted ones do.
pub load_all-insert_all :
    (order : AclStore → AclStore) (rows : AclStore) (entries : List AclEntry)
    (path principal : Bytes) (now : ℤ) (want : Permission)
    → ((rs : AclStore) → Perm (order rs) rs)
    → All (λ e. length e.path_prefix ≤ 4096) entries
    → (rows' : AclStore) × (insert_all rows entries ≡ ok rows')
      × Perm (load_all order rows') (load_all order rows ++ entries)
      × (decide (load_all order rows') path principal now want
          ≡ decide (load_all order rows ++ entries) path principal now want)
unfolding load_all
load_all-insert_all order rows entries path principal now want same short =
    let rows' : AclStore = rows ++ map row_of entries in
    let split : map entry_of rows' ≡ map entry_of rows ++ entries =
      map-append entry_of rows (map row_of entries)
      ∙ ap (λ t. map entry_of rows ++ t) (entries-rows entries) in
    let before : Perm (map entry_of rows ++ entries) (map entry_of (order rows) ++ entries) =
      Perm.append_right entries (Perm.map entry_of (Perm.symm (same rows))) in
    let all_ : Perm (map entry_of (order rows')) (map entry_of (order rows) ++ entries) =
      Perm.trans (Perm.map entry_of (same rows'))
        (coe 1 0 (i. Perm (split i) (map entry_of (order rows) ++ entries)) before) in
    (
      rows',
      insert_all-ok rows entries short,
      all_,
      decide-Perm (map entry_of (order rows')) (map entry_of (order rows) ++ entries) path principal
          now want all_,
    )
