-- ===== src/Fees/Reached.antt =====
-- The table of fee rules after any sequence of `setRule` and `retire` (fees.service.ts).
use finstack.Base.{
  ℕ, ◌⊎◌, ◌≡◌, ◌≢◌, ◌<◌, refl, inl, inr, false, ◌&&◌, not, Option, none, some, List, [], ◌∷◌, ◌==◌,
  ◌+◌, if◌then◌else◌, arith, Bool-cases,
}
use finstack.Base.Lists.{All, All-map, All-snoc, any_by, is_some}
use finstack.Base.Text.{Text}
use finstack.Base.Result.{Result, ok, err, Error}
use finstack.Fees.Rules.{
  FeeOperation, FeeRule, FeeTable, NewFeeRule, in_scope, is_active_in, active_in, check_row,
  superseded, supersede, new_rule, set_rule, retire,
}
use finstack.Fees.Active.{UniqueIds, OnePerScope, superseded-inactive}
use finstack.Fees.InForce.{added, rules_left, left-free, set_rule-added, set_rule-active_in}
use finstack.Fees.Changes.{
  IsSound, All-ids, UniqueIds-map, OnePerScope-map, All-none, UniqueIds-snoc, OnePerScope-snoc,
}

superseded-same_id : (id now : ℕ) (r : FeeRule) → (superseded id now r).id ≡ r.id
superseded-same_id id now r = elim (Bool-cases (r.id == id)) [
  | inl hit ↦ rw hit refl
  | inr miss ↦ rw miss refl
]

module _ (n now : ℕ) where
  supersede-UniqueIds :
      (p : Option FeeRule) (rs : List FeeRule) → UniqueIds rs → UniqueIds (supersede p now rs)
  supersede-UniqueIds none rs h = h
  supersede-UniqueIds (some p) rs h =
      UniqueIds-map (superseded p.id now) (superseded-same_id p.id now)
        (λ o c g r k. superseded-inactive o c g now p.id r k) rs h

  supersede-OnePerScope :
      (p : Option FeeRule) (rs : List FeeRule) → OnePerScope rs → OnePerScope (supersede p now rs)
  supersede-OnePerScope none rs h = h
  supersede-OnePerScope (some p) rs h =
      OnePerScope-map (superseded p.id now) (superseded-same_id p.id now)
        (λ o c g r k. superseded-inactive o c g now p.id r k) rs h

  supersede-bounded :
      (p : Option FeeRule) (rs : List FeeRule)
      → All (λ r. r.id < n) rs
      → All (λ r. r.id < n) (supersede p now rs)
  supersede-bounded none rs h = h
  supersede-bounded (some p) rs h =
      All-ids (superseded p.id now) (superseded-same_id p.id now)
        (λ o c g r k. superseded-inactive o c g now p.id r k) (λ i. i < n) rs h

check-cases : (r : Result (Unit {0})) → (r ≡ ok tt) ⊎ ((x : Error) × (r ≡ err x))
check-cases (ok tt) = inl refl
check-cases (err x) = inr (x, refl)

set_rule-IsSound :
    (admin_id : ℕ) (input : NewFeeRule) (t : FeeTable)
    → IsSound t
    → IsSound (set_rule admin_id input t).1
unfolding set_rule
set_rule-IsSound admin_id input t h =
    elim (check-cases (check_row (added admin_id input t) t.organizations)) [
      | inr (x, refused) ↦ rw (refused, set_rule) h
      | inl valid ↦
          rw (valid, free, set_rule)
            (record {
              unique =
                  UniqueIds-snoc left new
                    (supersede-UniqueIds t.next_id t.clock previous t.rules h.unique)
                    (All-map (λ r. r.id < t.next_id) (λ r. r.id ≢ t.next_id) left
                      (λ r k e. omega arith) bounded);
              one =
                  OnePerScope-snoc left new
                    (supersede-OnePerScope t.next_id t.clock previous t.rules h.one)
                    (All-none (is_active_in new.operation new.currency new.organization_id) left
                      free);
              bounded =
                  All-snoc (λ r. r.id < t.next_id + 1) left new
                    (All-map (λ r. r.id < t.next_id) (λ r. r.id < t.next_id + 1) left
                      (λ r k. omega arith) bounded)
                    (omega arith);
            })
    ]
  where
    new : FeeRule
    new = added admin_id input t

    left : List FeeRule
    left = rules_left admin_id input t

    previous : Option FeeRule
    previous = active_in input.operation input.currency input.organization_id t.rules

    free : any_by (is_active_in input.operation input.currency input.organization_id) left ≡ false
    free = left-free admin_id input t h.one

    bounded : All (λ r. r.id < t.next_id) left
    bounded = supersede-bounded t.next_id t.clock previous t.rules h.bounded

retire-IsSound : (id : ℕ) (t : FeeTable) → IsSound t → IsSound (retire id t).1
unfolding retire
retire-IsSound id t h = elim (Bool-cases (any_by (λ r. r.id == id) t.rules)) [
  | inr missing ↦ rw missing h
  | inl found ↦
      elim (Bool-cases (any_by (λ r. r.id == id && not (is_some r.superseded_at)) t.rules)) [
        | inr ended ↦ rw (found, ended) h
        | inl active ↦
            rw (found, active)
              (record {
                unique = UniqueIds-map retired same_id ends t.rules h.unique;
                one = OnePerScope-map retired same_id ends t.rules h.one;
                bounded = All-ids retired same_id ends (λ i. i < t.next_id) t.rules h.bounded;
              })
      ]
]
  where
    retired : FeeRule → FeeRule
    retired r =
        if r.id == id && not (is_some r.superseded_at)
        then record r { superseded_at = some t.clock }
        else r

    same_id : (r : FeeRule) → (retired r).id ≡ r.id
    same_id r = elim (Bool-cases (r.id == id && not (is_some r.superseded_at))) [
      | inl hit ↦ rw hit refl
      | inr miss ↦ rw miss refl
    ]

    ends :
        (o : FeeOperation) (c : Text) (g : Option ℕ) (r : FeeRule)
        → is_active_in o c g r ≡ false
        → is_active_in o c g (retired r) ≡ false
    ends o c g r k = elim (Bool-cases (r.id == id && not (is_some r.superseded_at))) [
      | inl hit ↦ rw hit (ground arith)
      | inr miss ↦ rw miss k
    ]

pub data Change : Type 0 where
  sets : ℕ → NewFeeRule → Change
  retires : ℕ → Change

unfoldable pub change : Change → FeeTable → FeeTable
unfolding set_rule retire
change (sets admin_id input) t = (set_rule admin_id input t).1
change (retires id) t = (retire id t).1

-- Each at some time after the one before.
unfoldable pub run_changes : List (ℕ × Change) → FeeTable → FeeTable
unfolding change
run_changes [] t = t
run_changes ((ms, c) ∷ cs) t = run_changes cs (change c (record t { clock = t.clock + ms }))

abbrev pub empty_table : List ℕ → FeeTable
empty_table organizations = record {
  rules = [];
  organizations = organizations;
  next_id = 0;
  clock = 0;
}

change-IsSound : (c : Change) (t : FeeTable) → IsSound t → IsSound (change c t)
unfolding change
change-IsSound (sets admin_id input) t h = set_rule-IsSound admin_id input t h
change-IsSound (retires id) t h = retire-IsSound id t h

run_changes-IsSound :
    (cs : List (ℕ × Change)) (t : FeeTable) → IsSound t → IsSound (run_changes cs t)
unfolding run_changes
run_changes-IsSound [] t h = h
run_changes-IsSound ((ms, c) ∷ cs) t h =
    let later : FeeTable = record t { clock = t.clock + ms } in
    let kept : IsSound later = record { unique = h.unique; one = h.one; bounded = h.bounded } in
    run_changes-IsSound cs (change c later) (change-IsSound c later kept)

-- After any sequence of `setRule` and `retire` on a table without rules, at any times, `setRule` of a rule
-- that the constraints accept (the ranges of its amounts, the CHECKs, and the foreign key to its
-- organization) is not refused by an index on active rules: it returns the new
-- rule. Then the new rule is the active one of its own operation, currency and organization, and
-- every other such scope has the active rule that it had, or none as before.
pub run_changes-set_rule :
    (organizations : List ℕ) (cs : List (ℕ × Change)) (admin_id : ℕ) (input : NewFeeRule)
    (o : FeeOperation) (c : Text) (g : Option ℕ)
    → check_row
        (new_rule admin_id input (run_changes cs (empty_table organizations)))
        (run_changes cs (empty_table organizations)).organizations
      ≡ ok tt
    → ((set_rule admin_id input (run_changes cs (empty_table organizations))).0
        ≡ ok (new_rule admin_id input (run_changes cs (empty_table organizations))))
      × (active_in o c g
            (set_rule admin_id input (run_changes cs (empty_table organizations))).1.rules
          ≡ (if in_scope o c g
                (new_rule admin_id input (run_changes cs (empty_table organizations)))
              then some (new_rule admin_id input (run_changes cs (empty_table organizations)))
              else active_in o c g (run_changes cs (empty_table organizations)).rules))
run_changes-set_rule organizations cs admin_id input o c g valid =
    let t = run_changes cs (empty_table organizations) in
    let sound : IsSound t =
      run_changes-IsSound cs (empty_table organizations)
        (record { unique = tt; one = tt; bounded = tt }) in
    let ended = set_rule-added admin_id input t sound.one valid in
    rw ended (refl, set_rule-active_in admin_id input t o c g sound.unique sound.one)
