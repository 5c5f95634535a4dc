-- ===== src/Tests/Fees.antt =====
-- Changes of the fee rules of one currency, with a rule of an organization's own.
use finstack.Base.{◌≡◌, refl, none, some, [], ◌∷◌, List, if◌then◌else◌, ℕ}
use finstack.Base.Int.{pos}
use finstack.Base.Text.{codes}
use finstack.Base.Result.{ok, err, Error}
use finstack.Fees.Schedule.{FeeSchedule}
use finstack.Fees.Rules.{
  on_transfer, NewFeeRule, new_rule, check_row, set_rule, active_in, in_scope, quote, quote_covered,
}
use finstack.Fees.Reached.{Change, sets, retires, run_changes, empty_table, run_changes-set_rule}

abbrev one_percent : FeeSchedule
one_percent = record {
  fixed_amount = 0;
  percentage_bps = 100;
  min_amount = 10;
  max_amount = some 2000;
}

abbrev default_fee : NewFeeRule
default_fee = record {
  operation = on_transfer;
  currency = codes "NGN";
  organization_id = none;
  schedule = one_percent;
}

abbrev own_fee : NewFeeRule
own_fee = record default_fee { organization_id = some 3 }

abbrev fee_changes : List (ℕ × Change)
fee_changes = (5, sets 1 default_fee) ∷ (5, sets 1 own_fee) ∷ (5, retires 0) ∷ []

run_changes-set_rule_example :
    ((set_rule 2 own_fee (run_changes fee_changes (empty_table (3 ∷ [])))).0
      ≡ ok (new_rule 2 own_fee (run_changes fee_changes (empty_table (3 ∷ [])))))
    × (active_in on_transfer
          (codes "NGN")
          none
          (set_rule 2 own_fee (run_changes fee_changes (empty_table (3 ∷ [])))).1.rules
        ≡ (if in_scope on_transfer
              (codes "NGN")
              none
              (new_rule 2 own_fee (run_changes fee_changes (empty_table (3 ∷ []))))
            then some (new_rule 2 own_fee (run_changes fee_changes (empty_table (3 ∷ []))))
            else active_in on_transfer
                (codes "NGN")
                none
                (run_changes fee_changes (empty_table (3 ∷ []))).rules))
unfolding check_row run_changes
run_changes-set_rule_example =
    run_changes-set_rule (3 ∷ []) fee_changes 2 own_fee on_transfer (codes "NGN") none refl

quote-own :
    quote on_transfer
      (codes "NGN")
      (pos 5000)
      (some 3)
      (run_changes fee_changes (empty_table (3 ∷ []))).rules
    ≡ ok (record { amount = 50; currency = codes "NGN"; rule_id = some 1 })
unfolding quote run_changes check_row
quote-own = refl

-- The default is retired.
quote-default :
    quote on_transfer
      (codes "NGN")
      (pos 5000)
      (some 4)
      (run_changes fee_changes (empty_table (3 ∷ []))).rules
    ≡ ok (record { amount = 0; currency = codes "NGN"; rule_id = none })
unfolding quote run_changes check_row
quote-default = refl

quote_covered-small :
    quote_covered on_transfer
      (codes "NGN")
      (pos 10)
      (some 3)
      (run_changes fee_changes (empty_table (3 ∷ []))).rules
    ≡ err Error.amount_below_fee
unfolding quote_covered run_changes check_row
quote_covered-small = refl

-- No row of an organization that is not there, and no amount that a bigint does not hold.
set_rule-unknown_organization :
    (set_rule 1 own_fee (empty_table [])).0 ≡ err Error.foreign_key_violation
unfolding set_rule check_row
set_rule-unknown_organization = refl

set_rule-too_large :
    (set_rule 1
      (record default_fee { schedule = record one_percent { fixed_amount = 9223372036854775808 } })
      (empty_table [])).0
    ≡ err Error.out_of_range
unfolding set_rule check_row
set_rule-too_large = refl
