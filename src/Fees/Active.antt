-- ===== src/Fees/Active.antt =====
-- One rule is in force in each scope (fees.service.ts).
use finstack.Base.{
  ℕ, ◌≡◌, ◌≢◌, refl, sym, ◌∙◌, ap, inl, inr, Bool, true, false, Option, none, some, List, [], ◌∷◌,
  map, ◌==◌, arith, Bool-cases, Option-cases, ==_iff,
}
use mathlib.Core.Path.{subst}
use finstack.Base.Lists.{All, All-map, find_by, find_by-All}
use finstack.Base.Text.{Text, text_eq, text_eq_iff}
use finstack.Limits.Rules.{same_organization}
use finstack.Fees.Rules.{
  FeeOperation, on_payment, on_payout, on_transfer, same_fee_operation, FeeRule, in_scope,
  is_active_in, active_in, superseded, supersede,
}

same_fee_operation-eq : (a b : FeeOperation) → same_fee_operation a b ≡ true → a ≡ b
same_fee_operation-eq on_payment on_payment h = refl
same_fee_operation-eq on_payout on_payout h = refl
same_fee_operation-eq on_transfer on_transfer h = refl
same_fee_operation-eq on_payment on_payout h = cc
same_fee_operation-eq on_payment on_transfer h = cc
same_fee_operation-eq on_payout on_payment h = cc
same_fee_operation-eq on_payout on_transfer h = cc
same_fee_operation-eq on_transfer on_payment h = cc
same_fee_operation-eq on_transfer on_payout h = cc

same_organization-eq : (a b : Option ℕ) → same_organization a b ≡ true → a ≡ b
same_organization-eq none none h = refl
same_organization-eq none (some b) h = cc
same_organization-eq (some a) none h = cc
same_organization-eq (some a) (some b) h = ap some ((==_iff a b).0 h)

pub in_scope-eq :
    (o : FeeOperation) (c : Text) (g : Option ℕ) (r : FeeRule)
    → in_scope o c g r ≡ true
    → (r.operation ≡ o) × (r.currency ≡ c) × (r.organization_id ≡ g)
in_scope-eq o c g r h =
    let a : same_fee_operation r.operation o ≡ true = ground arith in
    let b : text_eq r.currency c ≡ true = ground arith in
    let d : same_organization r.organization_id g ≡ true = ground arith in
    (
      same_fee_operation-eq r.operation o a,
      (text_eq_iff r.currency c).0 b,
      same_organization-eq r.organization_id g d,
    )

-- No two rules have one id.
abbrev pub UniqueIds : List FeeRule → Type 0
UniqueIds [] = Unit
UniqueIds (r ∷ rs) = All (λ s. s.id ≢ r.id) rs × UniqueIds rs

-- No later rule is active in the scope of an active one.
abbrev pub Apart : FeeRule → FeeRule → Type 0
Apart r s =
    (o : FeeOperation) (c : Text) (g : Option ℕ)
    → is_active_in o c g r ≡ true
    → is_active_in o c g s ≡ false

abbrev pub OnePerScope : List FeeRule → Type 0
OnePerScope [] = Unit
OnePerScope (r ∷ rs) = All (λ s. Apart r s) rs × OnePerScope rs

module _ (o : FeeOperation) (c : Text) (g : Option ℕ) (now : ℕ) where
  -- Superseding only ends a rule.
  pub superseded-inactive :
      (id : ℕ) (r : FeeRule)
      → is_active_in o c g r ≡ false
      → is_active_in o c g (superseded id now r) ≡ false
  superseded-inactive id r h = elim (Bool-cases (r.id == id)) [
    | inl hit ↦ rw hit (ground arith)
    | inr miss ↦ rw miss h
  ]

  superseded-ended : (r : FeeRule) → is_active_in o c g (superseded r.id now r) ≡ false
  superseded-ended r = rw ((==_iff r.id r.id).1 refl) (ground arith)

  map-none :
      (id : ℕ) (rs : List FeeRule)
      → All (λ r. is_active_in o c g r ≡ false) rs
      → active_in o c g (map (superseded id now) rs) ≡ none
  map-none id [] h = refl
  map-none id (r ∷ rs) (h, hs) = rw (superseded-inactive id r h, map-none id rs hs) refl

  -- Once the active rule of a scope is superseded, there is none.
  pub supersede-none :
      (rs : List FeeRule)
      → OnePerScope rs
      → active_in o c g (supersede (active_in o c g rs) now rs) ≡ none
  supersede-none rs h = elim (Option-cases (active_in o c g rs)) [
    | inl missing ↦ ap (λ x. active_in o c g (supersede x now rs)) missing ∙ missing
    | inr (p, found) ↦ rw found (ended rs p h found)
  ]
    where
      ended :
          (qs : List FeeRule) (p : FeeRule)
          → OnePerScope qs
          → active_in o c g qs ≡ some p
          → active_in o c g (map (superseded p.id now) qs) ≡ none
      ended [] p k found = refl
      ended (q ∷ qs) p (k, ks) found = elim (Bool-cases (is_active_in o c g q)) [
        | inl hit ↦
            let same : q ≡ p = ground arith in
            let off =
              All-map (λ s. Apart q s) (λ s. is_active_in o c g s ≡ false) qs (λ s f. f o c g hit)
                k in
            subst (λ x. active_in o c g (map (superseded x.id now) (q ∷ qs)) ≡ none) same
              (rw (superseded-ended q, map-none q.id qs off) refl)
        | inr miss ↦ rw (superseded-inactive p.id q miss) (ended qs p ks (ground arith))
      ]

-- The rule of a scope is the only one with its id.
pub found_only :
    (t : FeeRule → Bool) (rs : List FeeRule) (p : FeeRule)
    → UniqueIds rs
    → find_by t rs ≡ some p
    → All (λ r. (r.id ≡ p.id → r ≡ p)) rs
found_only t [] p h found = tt
found_only t (r ∷ rs) p (h, hs) found = elim (Bool-cases (t r)) [
  | inl hit ↦
      let same : r ≡ p = ground arith in
      (
        (λ e. same),
        All-map (λ s. s.id ≢ r.id) (λ s. (s.id ≡ p.id → s ≡ p)) rs
            (λ s other e. absurd (other (e ∙ sym (ap (λ x. x.id) same)))) h,
      )
  | inr miss ↦
      let later : find_by t rs ≡ some p = ground arith in
      (
        (λ e. absurd (find_by-All (λ s. s.id ≢ r.id) t rs p h later (sym e))),
        found_only t rs p hs later,
      )
]

-- A rule of another scope stays as it is.
pub supersede-other :
    (o : FeeOperation) (c : Text) (g : Option ℕ) (now : ℕ) (p : FeeRule) (rs : List FeeRule)
    → is_active_in o c g p ≡ false
    → All (λ r. (r.id ≡ p.id → r ≡ p)) rs
    → active_in o c g (map (superseded p.id now) rs) ≡ active_in o c g rs
supersede-other o c g now p [] h k = refl
supersede-other o c g now p (r ∷ rs) h (k, ks) = elim (Bool-cases (is_active_in o c g r)) [
  | inl active ↦ elim (Bool-cases (r.id == p.id)) [
    | inl hit ↦
        let same : r ≡ p = k ((==_iff r.id p.id).0 hit) in
        let not_active = subst (λ x. is_active_in o c g x ≡ false) (sym same) h in absurd (cc)
    | inr miss ↦ rw (miss, active) refl
  ]
  | inr off ↦
      rw (superseded-inactive o c g now p.id r off, off) (supersede-other o c g now p rs h ks)
]
