-- ===== src/Fees/InForce.antt =====
-- What `setRule` puts in force (fees.service.ts).
use finstack.Base.{
  ℕ, ◌≡◌, refl, sym, ◌∙◌, ap, inl, inr, Bool, true, false, Option, none, some, List, [], ◌∷◌, ◌++◌,
  ◌+◌, if◌then◌else◌, arith, Bool-cases, Option-cases,
}
use finstack.Base.Lists.{find_by, any_by, find_by-append_new, find_by-passes}
use finstack.Base.Text.{Text}
use finstack.Base.Result.{ok}
use finstack.Fees.Rules.{
  FeeOperation, FeeRule, FeeTable, NewFeeRule, in_scope, is_active_in, active_in, check_row,
  supersede, new_rule, set_rule,
}
use finstack.Fees.Active.{
  in_scope-eq, UniqueIds, OnePerScope, supersede-none, found_only, supersede-other,
}

none-any_by : (t : FeeRule → Bool) (rs : List FeeRule) → find_by t rs ≡ none → any_by t rs ≡ false
none-any_by t [] h = refl
none-any_by t (r ∷ rs) h = elim (Bool-cases (t r)) [
  | inl hit ↦ absurd (ground arith)
  | inr miss ↦ ground (arith, none-any_by t rs)
]

find_by-snoc_other :
    (t : FeeRule → Bool) (rs : List FeeRule) (r : FeeRule)
    → t r ≡ false
    → find_by t (rs ++ r ∷ []) ≡ find_by t rs
find_by-snoc_other t [] r h = ground arith
find_by-snoc_other t (q ∷ rs) r h = ground (arith, find_by-snoc_other t rs r h)

-- The rules of two scopes that share a rule are the same.
same_scope :
    (o : FeeOperation) (c : Text) (g : Option ℕ) (q r : FeeRule)
    → in_scope q.operation q.currency q.organization_id r ≡ true
    → in_scope o c g r ≡ in_scope o c g q
same_scope o c g q r h =
    let (a, b, d) = in_scope-eq q.operation q.currency q.organization_id r h in rw (a, b, d) refl

module _ (admin_id : ℕ) (input : NewFeeRule) (t : FeeTable) where
  abbrev pub added : FeeRule
  added = new_rule admin_id input t

  abbrev pub rules_left : List FeeRule
  rules_left =
      supersede (active_in input.operation input.currency input.organization_id t.rules) t.clock
        t.rules

  left-other :
      (o : FeeOperation) (c : Text) (g : Option ℕ)
      → UniqueIds t.rules
      → in_scope o c g added ≡ false
      → active_in o c g rules_left ≡ active_in o c g t.rules
  left-other o c g h apart =
      elim (Option-cases (active_in input.operation input.currency input.organization_id t.rules)) [
        | inl missing ↦ ap (λ x. active_in o c g (supersede x t.clock t.rules)) missing
        | inr (p, found) ↦
            let passes =
              find_by-passes (is_active_in input.operation input.currency input.organization_id)
                t.rules p found in
            let scoped : in_scope input.operation input.currency input.organization_id p ≡ true =
              ground arith in
            let off : in_scope o c g p ≡ false = same_scope o c g added p scoped ∙ apart in
            ap (λ x. active_in o c g (supersede x t.clock t.rules)) found
            ∙ supersede-other o c g t.clock p t.rules (ground arith) (
                found_only (is_active_in input.operation input.currency input.organization_id)
                  t.rules p h found)
      ]

  -- The indexes on active rules never refuse a rule.
  pub left-free :
      OnePerScope t.rules
      → any_by (is_active_in input.operation input.currency input.organization_id) rules_left
        ≡ false
  left-free h =
      none-any_by (is_active_in input.operation input.currency input.organization_id) rules_left
        (supersede-none input.operation input.currency input.organization_id t.clock t.rules h)

  pub set_rule-added :
      OnePerScope t.rules
      → check_row added t.organizations ≡ ok tt
      → set_rule admin_id input t
        ≡ (ok added, record t { rules = rules_left ++ added ∷ []; next_id = t.next_id + 1 })
  unfolding set_rule
  set_rule-added h valid = rw (valid, left-free h, set_rule) refl

  -- In the scope of the new rule that one is in force, and elsewhere what was.
  pub set_rule-active_in :
      (o : FeeOperation) (c : Text) (g : Option ℕ)
      → UniqueIds t.rules
      → OnePerScope t.rules
      → active_in o c g (rules_left ++ added ∷ [])
        ≡ (if in_scope o c g added then some added else active_in o c g t.rules)
  set_rule-active_in o c g ids h = elim (Bool-cases (in_scope o c g added)) [
    | inl here ↦
        let (a, b, d) = in_scope-eq o c g added here in
        let free : active_in o c g rules_left ≡ none =
          rw (sym a, sym b, sym d)
            (supersede-none input.operation input.currency input.organization_id t.clock t.rules
              h) in
        find_by-append_new (is_active_in o c g) rules_left (added ∷ []) free ∙ rw here refl
    | inr apart ↦ rw apart (
        find_by-snoc_other (is_active_in o c g) rules_left added (ground arith)
        ∙ left-other o c g ids apart)
  ]
