-- ===== src/Acl/Longest.antt =====
-- The decision is that of the longest matching prefix.
use lunar_fs.Base.{
  ℕ, ◌≤◌, ◌≡◌, refl, sym, ◌∙◌, ap, ◌≢◌, ◌↔◌, ◌⊎◌, inl, inr, Bool, true, false, ◌&&◌, ◌||◌, none,
  some, List, [], ◌∷◌, Bytes, Outcome, ok, All, Any, length, ltb, ◌=ℕ=◌, Bool-cases, Option-cases,
  arith, le→leb,
}
use mathlib.Core.Path.{subst}
use lunar_fs.Base.Int.{ℤ}
use lunar_fs.Acl.{
  Permission, read, write, deny, AclEntry, AclDecision, allow, refuse, applies, best_length, grants,
  decide_at, decide,
}

le_antisymm : {a b : ℕ} → a ≤ b → b ≤ a → a ≡ b
le_antisymm h k = omega arith

ok_injective : {a b : AclDecision} → ◌≡◌ {A = Outcome ⊥ AclDecision} (ok a) (ok b) → a ≡ b
ok_injective h = cc

deny? : (p : Permission) → Dec (p ≡ deny)
deny? read = no (λ h. cc)
deny? write = no (λ h. cc)
deny? deny = yes refl

module _ (path principal : Bytes) (now : ℤ) where
  -- No entry that applies has a prefix longer than `best`.
  abbrev pub AtMost : ℕ → List AclEntry → Type 0
  AtMost best = All (λ e. applies path principal now e ≡ true → length e.path_prefix ≤ best)

  abbrev pub Reaches : ℕ → List AclEntry → Type 0
  Reaches best = Any (λ e. (applies path principal now e ≡ true) × (length e.path_prefix ≡ best))

  abbrev pub NoneApplies : List AclEntry → Type 0
  NoneApplies = All (λ e. applies path principal now e ≡ false)

  best_from :
      (entries : List AclEntry) (b best : ℕ)
      → best_length path principal now entries (some b) ≡ some best
      → (b ≤ best) × AtMost best entries × ((b ≡ best) ⊎ Reaches best entries)
  unfolding best_length
  best_from [] b best h = (ground arith, tt, inl (ground arith))
  best_from (e ∷ rest) b best h = elim (Bool-cases (applies path principal now e)) [
    | inl on ↦ elim (Bool-cases (ltb b (length e.path_prefix))) [
      | inl longer ↦
          let (low, most, hit) =
            best_from rest (length e.path_prefix) best (rw (on, longer) at h) in
          (ground arith, ((λ _. low), most), inr (elim hit [ inl q ↦ inl (on, q) | inr r ↦ inr r ]))
      | inr not_longer ↦
          let (low, most, hit) = best_from rest b best (rw (on, not_longer) at h) in
          (low, ((λ _. ground arith), most), elim hit [ inl q ↦ inl q | inr r ↦ inr (inr r) ])
    ]
    | inr off ↦
        let (low, most, hit) = best_from rest b best (rw off at h) in
        (low, ((λ on. cc), most), elim hit [ inl q ↦ inl q | inr r ↦ inr (inr r) ])
  ]

  best_from_some :
      (entries : List AclEntry) (b : ℕ) → best_length path principal now entries (some b) ≢ none
  unfolding best_length
  best_from_some [] b h = cc
  best_from_some (e ∷ rest) b h =
      ground (arith, best_from_some rest b, best_from_some rest (length e.path_prefix))

  best_length-some :
      (entries : List AclEntry) (best : ℕ)
      → best_length path principal now entries none ≡ some best
      → AtMost best entries × Reaches best entries
  unfolding best_length
  best_length-some [] best h = cc
  best_length-some (e ∷ rest) best h = elim (Bool-cases (applies path principal now e)) [
    | inl on ↦
        let (low, most, hit) = best_from rest (length e.path_prefix) best (rw on at h) in
        (((λ _. low), most), elim hit [ inl q ↦ inl (on, q) | inr r ↦ inr r ])
    | inr off ↦
        let (most, hit) = best_length-some rest best (rw off at h) in (((λ on. cc), most), inr hit)
  ]

  best_length-none :
      (entries : List AclEntry)
      → best_length path principal now entries none ≡ none
      → NoneApplies entries
  unfolding best_length
  best_length-none [] h = tt
  best_length-none (e ∷ rest) h = elim (Bool-cases (applies path principal now e)) [
    | inl on ↦ absurd (best_from_some rest (length e.path_prefix) (rw on at h))
    | inr off ↦ (off, best_length-none rest (rw off at h))
  ]

  Reaches-le : (entries : List AclEntry) (x y : ℕ) → Reaches x entries → AtMost y entries → x ≤ y
  Reaches-le [] x y r m = absurd r
  Reaches-le (e ∷ rest) x y (inl (on, q)) m = omega (arith, m.0 on)
  Reaches-le (e ∷ rest) x y (inr r) m = Reaches-le rest x y r m.1

  Reaches-applies : (entries : List AclEntry) (x : ℕ) → Reaches x entries → NoneApplies entries → ⊥
  Reaches-applies [] x r n = r
  Reaches-applies (e ∷ rest) x (inl (on, _)) n = cc (n.0)
  Reaches-applies (e ∷ rest) x (inr r) n = Reaches-applies rest x r n.1

  module _ (want : Permission) where
    -- Of the entries at the length `best`, none denies and one grants.
    abbrev pub NoneDenies : ℕ → List AclEntry → Type 0
    NoneDenies best = All (λ e.
        applies path principal now e ≡ true → length e.path_prefix ≡ best → e.permission ≢ deny)

    abbrev pub SomeGrants : ℕ → List AclEntry → Type 0
    SomeGrants best = Any (λ e.
        (applies path principal now e ≡ true)
        × (length e.path_prefix ≡ best)
        × (grants e.permission want ≡ true))

    module _ (best : ℕ) (e : AclEntry) (rest : List AclEntry) (has : Bool) where
      abbrev at_best : Bool
      at_best = applies path principal now e && (length e.path_prefix =ℕ= best)

      skip_step :
          at_best ≡ false
          → decide_at path principal now want best (e ∷ rest) has
            ≡ decide_at path principal now want best rest has
      unfolding decide_at
      skip_step off = rw off

      deny_step :
          at_best ≡ true
          → e.permission ≡ deny
          → decide_at path principal now want best (e ∷ rest) has ≡ refuse
      unfolding decide_at
      deny_step on d = ground arith

      next_step :
          at_best ≡ true
          → e.permission ≢ deny
          → decide_at path principal now want best (e ∷ rest) has
            ≡ decide_at path principal now want best rest (grants e.permission want || has)
      unfolding decide_at
      next_step on d = ground arith

      here : at_best ≡ true → (applies path principal now e ≡ true) × (length e.path_prefix ≡ best)
      here on = ground arith

      away : at_best ≡ false → applies path principal now e ≡ true → length e.path_prefix ≢ best
      away off on = ground arith

    decide_at_sound :
        (best : ℕ) (entries : List AclEntry) (has : Bool)
        → decide_at path principal now want best entries has ≡ allow
        → NoneDenies best entries × ((has ≡ true) ⊎ SomeGrants best entries)
    decide_at_sound best [] has h = (tt, unfold decide_at in ground arith)
    decide_at_sound best (e ∷ rest) has h = elim (Bool-cases (at_best best e rest has)) [
      | inr off ↦
          let (clean, some_on) =
            decide_at_sound best rest has (sym (skip_step best e rest has off) ∙ h) in
          (
            ((λ on q _. away best e rest has off on q), clean),
            elim some_on [ inl t ↦ inl t | inr g ↦ inr (inr g) ],
          )
      | inl on ↦ elim (deny? e.permission) [
        | yes d ↦ cc (deny_step best e rest has on d)
        | no n ↦
            let (clean, some_on) =
              decide_at_sound best rest (grants e.permission want || has)
                (sym (next_step best e rest has on n) ∙ h) in
            let at : (applies path principal now e ≡ true) × (length e.path_prefix ≡ best) =
              here best e rest has on in
            (
              ((λ _ _. n), clean),
              elim some_on [
                | inr g ↦ inr (inr g)
                | inl t ↦ elim (Bool-cases (grants e.permission want)) [
                  | inl yes_ ↦ inr (inl (at.0, at.1, yes_))
                  | inr no_ ↦ inl (ground arith)
                ]
              ],
            )
      ]
    ]

    decide_at_complete :
        (best : ℕ) (entries : List AclEntry) (has : Bool)
        → NoneDenies best entries
        → (has ≡ true) ⊎ SomeGrants best entries
        → decide_at path principal now want best entries has ≡ allow
    decide_at_complete best [] has d (inl t) = unfold decide_at in ground arith
    decide_at_complete best [] has d (inr g) = absurd g
    decide_at_complete best (e ∷ rest) has d g = elim (Bool-cases (at_best best e rest has)) [
      | inr off ↦
          skip_step best e rest has off
          ∙ decide_at_complete best rest has d.1 (elim g [
            | inl t ↦ inl t
            | inr (inl (a, q, _)) ↦ absurd (away best e rest has off a q)
            | inr (inr r) ↦ inr r
          ])
      | inl on ↦
          let at : (applies path principal now e ≡ true) × (length e.path_prefix ≡ best) =
            here best e rest has on in
          next_step best e rest has on (d.0 at.0 at.1)
          ∙ decide_at_complete best rest (grants e.permission want || has) d.1 (elim g [
            | inl t ↦ inl (ground arith)
            | inr (inl (_, _, y)) ↦ inl (ground arith)
            | inr (inr r) ↦ inr r
          ])
    ]

    module _ (entries : List AclEntry) (few : length entries ≤ 1_000_000)
        (short : length path ≤ 4096) where
      decide-none :
          best_length path principal now entries none ≡ none
          → decide entries path principal now want ≡ ok allow
      unfolding decide
      decide-none h = rw (le→leb _ _ few, le→leb _ _ short, h)

      decide-some :
          (best : ℕ)
          → best_length path principal now entries none ≡ some best
          → decide entries path principal now want
            ≡ ok (decide_at path principal now want best entries false)
      unfolding decide
      decide-some best h = rw (le→leb _ _ few, le→leb _ _ short, h)

    -- Access is allowed exactly if no live entry matches the path and the principal, or if, of
    -- the entries with the longest prefix among those that do, none denies and one grants the
    -- permission asked for.
    pub decide-allow_iff :
        (entries : List AclEntry)
        → length entries ≤ 1_000_000
        → length path ≤ 4096
        → (decide entries path principal now want ≡ ok allow) ↔ (
            NoneApplies entries
            ⊎ ((best : ℕ) × AtMost best entries
                × Reaches best entries
                × NoneDenies best entries
                × SomeGrants best entries))
    decide-allow_iff entries few short =
        elim (Option-cases (best_length path principal now entries none)) [
          | inl n ↦
              ((λ _. inl (best_length-none entries n)), (λ _. decide-none entries few short n))
          | inr (b, h) ↦
              let (most, hit) = best_length-some entries b h in
              (
                (λ d.
                    let (clean, some_on) =
                      decide_at_sound b entries false
                        (ok_injective (sym (decide-some entries few short b h) ∙ d)) in
                    inr (b, most, hit, clean, elim some_on [ inl t ↦ cc | inr g ↦ g ])),
                (λ v. elim v [
                  | inl none_on ↦ absurd (Reaches-applies entries b hit none_on)
                  | inr (best, m, r, clean, g) ↦
                      let e : best ≡ b =
                        le_antisymm (Reaches-le entries best b r most)
                          (Reaches-le entries b best hit m) in
                      decide-some entries few short b h
                      ∙ ap ok (
                          decide_at_complete b entries false
                            (subst (λ k. NoneDenies k entries) e clean)
                            (inr (subst (λ k. SomeGrants k entries) e g)))
                ]),
              )
        ]
