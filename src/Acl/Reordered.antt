-- ===== src/Acl/Reordered.antt =====
-- The decision does not depend on the order of the rules.
use mathlib.Core.List.{Perm, Permᴰ}
use mathlib.Core.Path.{fun_ext}
use mathlib.Core.Logic.{∥∥₁_elim}
use lunar_fs.Base.{
  ℕ, suc, ◌≡◌, refl, sym, ap, ◌∙◌, ok, assert, leb, Bool, true, false, ◌&&◌, ◌||◌, Option, none,
  some, List, ◌∷◌, Bytes, Outcome, length, ltb, ◌=ℕ=◌, arith, if◌then◌else◌,
}
use lunar_fs.Base.Int.{ℤ}
use lunar_fs.Acl.{
  Permission, read, write, deny, AclEntry, AclDecision, allow, refuse, applies, best_length, grants,
  decide_at, decide,
}

-- How one rule changes the best length, and the decision of the rest.
abbrev longer : Bool → ℕ → Option ℕ → Option ℕ
longer false n best = best
longer true n none = some n
longer true n (some b) = if ltb b n then some n else some b

longer_comm :
    (a b : Bool) (n m : ℕ) (best : Option ℕ)
    → longer b m (longer a n best) ≡ longer a n (longer b m best)
longer_comm false b n m best = refl
longer_comm true false n m best = refl
longer_comm true true n m none = ground arith
longer_comm true true n m (some k) = ground arith

-- How one rule of the best length changes the decision.
abbrev judge : Permission → Bool → Permission → (Bool → AclDecision) → Bool → AclDecision
judge want false p k has_allow = k has_allow
judge want true deny k has_allow = refuse
judge want true read k has_allow = k (grants read want || has_allow)
judge want true write k has_allow = k (grants write want || has_allow)

judge-eq :
    (want : Permission) (b : Bool) (p : Permission) (k : Bool → AclDecision) (h : Bool)
    → (let next = k (grants p want || h) in
        if b then (elim p [ deny ↦ refuse | _ ↦ next ]) else k h)
      ≡ judge want b p k h
judge-eq want false p k h = refl
judge-eq want true deny k h = refl
judge-eq want true read k h = refl
judge-eq want true write k h = refl

judge-cong :
    (want : Permission) (b : Bool) (p : Permission) (k l : Bool → AclDecision) (h : Bool)
    → ((h : Bool) → k h ≡ l h)
    → judge want b p k h ≡ judge want b p l h
judge-cong want false p k l h same = same h
judge-cong want true deny k l h same = refl
judge-cong want true read k l h same = same _
judge-cong want true write k l h same = same _

or_swap : (a b c : Bool) → (a || (b || c)) ≡ (b || (a || c))
or_swap true true c = refl
or_swap true false c = refl
or_swap false b c = refl

judge_comm :
    (want : Permission) (a b : Bool) (p q : Permission) (k : Bool → AclDecision) (h : Bool)
    → judge want a p (judge want b q k) h ≡ judge want b q (judge want a p k) h
judge_comm want false b p q k h = refl
judge_comm want true false deny q k h = refl
judge_comm want true false read q k h = refl
judge_comm want true false write q k h = refl
judge_comm want true true deny deny k h = refl
judge_comm want true true deny read k h = refl
judge_comm want true true deny write k h = refl
judge_comm want true true read deny k h = refl
judge_comm want true true write deny k h = refl
judge_comm want true true read read k h = refl
judge_comm want true true read write k h = ap k (or_swap (grants write want) (grants read want) h)
judge_comm want true true write read k h = ap k (or_swap (grants read want) (grants write want) h)
judge_comm want true true write write k h = refl

module _ (path principal : Bytes) (now : ℤ) where
  best_length-cons :
      (e : AclEntry) (rest : List AclEntry) (best : Option ℕ)
      → best_length path principal now (e ∷ rest) best
        ≡ best_length path principal now rest
            (longer (applies path principal now e) (length e.path_prefix) best)
  unfolding best_length
  best_length-cons e rest none = ground arith
  best_length-cons e rest (some b) = ground arith

  best_length-Permᴰ :
      {es fs : List AclEntry}
      → Permᴰ es fs
      → (best : Option ℕ)
      → best_length path principal now es best ≡ best_length path principal now fs best
  best_length-Permᴰ Permᴰ.nil best = refl
  best_length-Permᴰ (Permᴰ.cons {a = x} {b = y} {l₁ = es} {l₂ = fs} same p) best =
      best_length-cons x es best
      ∙ (rw same (best_length-Permᴰ p _) ∙ sym (best_length-cons y fs best))
  best_length-Permᴰ (Permᴰ.swap {a = a} {b = b} {a' = a'} {b' = b'} {l = l} e f) best =
      best_length-cons a (b ∷ l) best
      ∙ (best_length-cons b l _
          ∙ (ap (best_length path principal now l) (
                rw (e, f)
                  (longer_comm (applies path principal now b') (applies path principal now a')
                    (length b'.path_prefix) (length a'.path_prefix) best))
              ∙ sym (best_length-cons a' (b' ∷ l) best ∙ best_length-cons b' l _)))
  best_length-Permᴰ (Permᴰ.trans p q) best = best_length-Permᴰ p best ∙ best_length-Permᴰ q best

  module _ (want : Permission) (best : ℕ) where
    abbrev counts : AclEntry → Bool
    counts e = applies path principal now e && (length e.path_prefix =ℕ= best)

    decide_at-cons :
        (e : AclEntry) (rest : List AclEntry) (has_allow : Bool)
        → decide_at path principal now want best (e ∷ rest) has_allow
          ≡ judge want
              (counts e)
              e.permission
              (decide_at path principal now want best rest)
              has_allow
    unfolding decide_at
    decide_at-cons e rest has_allow =
        judge-eq want (counts e) e.permission (decide_at path principal now want best rest)
          has_allow

    decide_at-Permᴰ :
        {es fs : List AclEntry}
        → Permᴰ es fs
        → (has_allow : Bool)
        → decide_at path principal now want best es has_allow
          ≡ decide_at path principal now want best fs has_allow
    decide_at-Permᴰ Permᴰ.nil h = refl
    decide_at-Permᴰ (Permᴰ.cons {a = x} {b = y} {l₁ = es} {l₂ = fs} same p) h =
        decide_at-cons x es h
        ∙ (rw same (judge-cong want (counts y) y.permission _ _ h (decide_at-Permᴰ p))
            ∙ sym (decide_at-cons y fs h))
    decide_at-Permᴰ (Permᴰ.swap {a = a} {b = b} {a' = a'} {b' = b'} {l = l} e f) h =
        decide_at-two a b l h
        ∙ (rw (e, f)
              (judge_comm want (counts b') (counts a') b'.permission a'.permission
                (decide_at path principal now want best l) h)
            ∙ sym (decide_at-two a' b' l h))
      where
        decide_at-two :
            (x y : AclEntry) (l : List AclEntry) (h : Bool)
            → decide_at path principal now want best (x ∷ y ∷ l) h
              ≡ judge want
                  (counts x)
                  x.permission
                  (judge want (counts y) y.permission (decide_at path principal now want best l))
                  h
        decide_at-two x y l h =
            decide_at-cons x (y ∷ l) h
            ∙ judge-cong want (counts x) x.permission _ _ h (decide_at-cons y l)
    decide_at-Permᴰ (Permᴰ.trans p q) h = decide_at-Permᴰ p h ∙ decide_at-Permᴰ q h

length-Permᴰ : {es fs : List AclEntry} → Permᴰ es fs → length es ≡ length fs
length-Permᴰ Permᴰ.nil = refl
length-Permᴰ (Permᴰ.cons e p) = ap suc (length-Permᴰ p)
length-Permᴰ (Permᴰ.swap e f) = refl
length-Permᴰ (Permᴰ.trans p q) = length-Permᴰ p ∙ length-Permᴰ q

outcome_set : IsSet (Outcome ⊥ AclDecision)
outcome_set = hlevel

-- Two orders of the same rules decide alike.
decide-Permᴰ :
    (es fs : List AclEntry) (path principal : Bytes) (now : ℤ) (want : Permission)
    → Permᴰ es fs
    → decide es path principal now want ≡ decide fs path principal now want
unfolding decide
decide-Permᴰ es fs path principal now want p =
    rw (length-Permᴰ p, best_length-Permᴰ path principal now p none)
      (ap
        (λ d. assert (leb (length fs) 1_000_000) (
          assert (leb (length path) 4096) (
            ok (elim (best_length path principal now fs none) [
              | none ↦ allow
              | some best ↦ d best
            ]))))
        (fun_ext λ best. decide_at-Permᴰ path principal now want best p false))

pub decide-Perm :
    (es fs : List AclEntry) (path principal : Bytes) (now : ℤ) (want : Permission)
    → Perm es fs
    → decide es path principal now want ≡ decide fs path principal now want
decide-Perm es fs path principal now want p =
    ∥∥₁_elim p (outcome_set (decide es path principal now want) (decide fs path principal now want))
      (decide-Permᴰ es fs path principal now want)
