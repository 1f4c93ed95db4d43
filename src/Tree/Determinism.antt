-- ===== src/Tree/Determinism.antt =====
-- The bytes of a directory do not depend on the order in which its entries were listed.
use lunar_fs.Base.{◌≡◌, ◌≢◌, refl, sym, ◌∙◌, ap, List, [], ◌∷◌, All, arith}
use mathlib.Core.Path.{subst}
use mathlib.Core.List.{Perm, Permᴰ}
use mathlib.Core.Logic.{∥∥₁_elim}
use lunar_fs.Tree.{TreeEntry, insert_sorted, sort_by_name, serialize_tree}
use lunar_fs.Tree.Order.{bytes_leb_total, bytes_leb_antisym, bytes_leb_trans}

-- No two entries share a name.
abbrev pub Distinct : List TreeEntry → Type 0
Distinct [] = Unit
Distinct (e ∷ es) = All (λ f. e.name ≢ f.name) es × Distinct es

insert_comm :
    (a b : TreeEntry) (es : List TreeEntry)
    → a.name ≢ b.name
    → insert_sorted a (insert_sorted b es) ≡ insert_sorted b (insert_sorted a es)
unfolding insert_sorted
insert_comm a b [] ne = ground (
  arith,
  bytes_leb_total a.name b.name,
  bytes_leb_total b.name a.name,
  bytes_leb_antisym a.name b.name,
)
insert_comm a b (f ∷ es) ne = ground (
  arith,
  insert_comm a b es ne,
  bytes_leb_total a.name b.name,
  bytes_leb_total b.name a.name,
  bytes_leb_antisym a.name b.name,
  bytes_leb_trans a.name b.name f.name,
  bytes_leb_trans b.name a.name f.name,
)

All-Permᴰ : (P : TreeEntry → Type 0) {es fs : List TreeEntry} → Permᴰ es fs → All P es → All P fs
All-Permᴰ P Permᴰ.nil h = tt
All-Permᴰ P (Permᴰ.cons e p) h = (subst P e h.0, All-Permᴰ P p h.1)
All-Permᴰ P (Permᴰ.swap e f) h = (subst P f h.1.0, (subst P e h.0, h.1.1))
All-Permᴰ P (Permᴰ.trans p q) h = All-Permᴰ P q (All-Permᴰ P p h)

Distinct-Permᴰ : {es fs : List TreeEntry} → Permᴰ es fs → Distinct es → Distinct fs
Distinct-Permᴰ Permᴰ.nil h = tt
Distinct-Permᴰ (Permᴰ.cons {l₂ = fs} e p) h =
    (subst (λ x. All (λ f. x.name ≢ f.name) fs) e (All-Permᴰ _ p h.0), Distinct-Permᴰ p h.1)
Distinct-Permᴰ (Permᴰ.swap {l = l} e f) h = (
  (
    (λ q. h.0.0 (ap (λ x. x.name) e ∙ (sym q ∙ sym (ap (λ x. x.name) f)))),
    subst (λ x. All (λ g. x.name ≢ g.name) l) f h.1.0,
  ),
  (subst (λ x. All (λ g. x.name ≢ g.name) l) e h.0.1, h.1.1),
)
Distinct-Permᴰ (Permᴰ.trans p q) h = Distinct-Permᴰ q (Distinct-Permᴰ p h)

sort_by_name-Permᴰ :
    {es fs : List TreeEntry} → Permᴰ es fs → Distinct es → sort_by_name es ≡ sort_by_name fs
unfolding sort_by_name
sort_by_name-Permᴰ Permᴰ.nil h = refl
sort_by_name-Permᴰ (Permᴰ.cons e p) h = rw (e, sort_by_name-Permᴰ p h.1)
sort_by_name-Permᴰ (Permᴰ.swap {l = l} e f) h =
    rw (e, f)
      (insert_comm _ _ (sort_by_name l)
        (λ q. h.0.0 (ap (λ x. x.name) e ∙ (q ∙ sym (ap (λ x. x.name) f)))))
sort_by_name-Permᴰ (Permᴰ.trans p q) h =
    sort_by_name-Permᴰ p h ∙ sort_by_name-Permᴰ q (Distinct-Permᴰ p h)

entries_set : IsSet (List TreeEntry)
entries_set = hlevel

-- Two listings of the same entries, no two of one name, are serialized to the same bytes.
pub serialize_tree-perm :
    (es fs : List TreeEntry) → Perm es fs → Distinct es → serialize_tree es ≡ serialize_tree fs
unfolding serialize_tree
serialize_tree-perm es fs p distinct = rw (
    ∥∥₁_elim p (entries_set (sort_by_name es) (sort_by_name fs))
      (λ d. sort_by_name-Permᴰ d distinct))
