-- ===== src/Fees/Rules.antt =====
-- fees/fees.service.ts on the table of fee-rule.entity.ts: `quote`, `quoteCovered`, `setRule`, `retire`.
use finstack.Base.{
  ℕ, Bool, true, false, ◌&&◌, not, Option, none, some, List, [], ◌∷◌, ◌++◌, map, ◌==◌, ◌+◌, leb,
  ltb, if◌then◌else◌,
}
use finstack.Base.Int.{ℤ, pos, leb_ℤ}
use finstack.Base.Lists.{find_by, any_by, is_some}
use finstack.Base.Text.{Text, text_eq}
use finstack.Base.Result.{Result, ok, err, Error, ◌>>=◌, ◌>>◌, throw_if}
use finstack.Base.Action.{Action}
use finstack.Limits.Rules.{same_organization}
use finstack.Fees.Schedule.{FeeSchedule, calculate_fee}

pub data FeeOperation : Type 0 where
  on_payment on_payout on_transfer : FeeOperation

abbrev pub same_fee_operation : FeeOperation → FeeOperation → Bool
same_fee_operation on_payment on_payment = true
same_fee_operation on_payout on_payout = true
same_fee_operation on_transfer on_transfer = true
same_fee_operation a b = false

-- The four amounts are the schedule.
pub record FeeRule : Type 0 where
  pub id : ℕ
  pub operation : FeeOperation
  pub currency : Text
  pub organization_id : Option ℕ
  pub schedule : FeeSchedule
  pub created_by_user_id : Option ℕ
  pub superseded_at : Option ℕ

-- `organizations` are the ids in the table of organizations.
pub record FeeTable : Type 0 where
  pub rules : List FeeRule
  pub organizations : List ℕ
  pub next_id : ℕ
  pub clock : ℕ

pub record FeeQuote : Type 0 where
  pub amount : ℕ
  pub currency : Text
  pub rule_id : Option ℕ

pub record NewFeeRule : Type 0 where
  pub operation : FeeOperation
  pub currency : Text
  pub organization_id : Option ℕ
  pub schedule : FeeSchedule

abbrev pub in_scope : FeeOperation → Text → Option ℕ → FeeRule → Bool
in_scope operation currency organization_id rule =
    same_fee_operation rule.operation operation
    && (text_eq rule.currency currency && same_organization rule.organization_id organization_id)

abbrev pub is_active_in : FeeOperation → Text → Option ℕ → FeeRule → Bool
is_active_in operation currency organization_id rule =
    in_scope operation currency organization_id rule && not (is_some rule.superseded_at)

abbrev pub active_in : FeeOperation → Text → Option ℕ → List FeeRule → Option FeeRule
active_in operation currency organization_id =
    find_by (is_active_in operation currency organization_id)

-- An organization's own rule, else the default.
abbrev pub fee_rule_for : FeeOperation → Text → Option ℕ → List FeeRule → Option FeeRule
fee_rule_for operation currency none rules = active_in operation currency none rules
fee_rule_for operation currency (some organization_id) rules =
    elim (active_in operation currency (some organization_id) rules) [
      | some own ↦ some own
      | none ↦ active_in operation currency none rules
    ]

abbrev pub quote_under : Text → ℤ → Option FeeRule → Result FeeQuote
quote_under currency amount none = ok (record { amount = 0; currency = currency; rule_id = none })
quote_under currency amount (some rule) = do
  fee ← calculate_fee amount rule.schedule
  ok (record { amount = fee; currency = currency; rule_id = some rule.id })

unfoldable pub quote : FeeOperation → Text → ℤ → Option ℕ → List FeeRule → Result FeeQuote
unfolding calculate_fee text_eq
quote operation currency amount organization_id rules =
    quote_under currency amount (fee_rule_for operation currency organization_id rules)

unfoldable pub quote_covered : FeeOperation → Text → ℤ → Option ℕ → List FeeRule → Result FeeQuote
unfolding quote
quote_covered operation currency amount organization_id rules = do
  fee ← quote operation currency amount organization_id rules
  throw_if (leb_ℤ amount (pos fee.amount) && ltb 0 fee.amount) Error.amount_below_fee
  ok fee

abbrev pub is_upper : ℕ → Bool
is_upper c = leb 65 c && leb c 90

-- chk_fee_rules_currency
abbrev pub is_code : Text → Bool
is_code (a ∷ b ∷ c ∷ []) = is_upper a && (is_upper b && is_upper c)
is_code other = false

abbrev pub within_max : Option ℕ → ℕ → Bool
within_max none n = true
within_max (some max) n = leb n max

-- What a bigint column holds; a larger amount is out of range for the database.
abbrev pub fits_bigint : ℕ → Bool
fits_bigint n = ltb n 9223372036854775808

abbrev pub fits_if_set : Option ℕ → Bool
fits_if_set none = true
fits_if_set (some n) = fits_bigint n

abbrev pub fits_columns : FeeSchedule → Bool
fits_columns s =
    fits_bigint s.fixed_amount && (fits_bigint s.min_amount && fits_if_set s.max_amount)

-- fk_fee_rules_organization
abbrev pub has_organization : Option ℕ → List ℕ → Bool
has_organization none ids = true
has_organization (some organization_id) ids = any_by (λ id. id == organization_id) ids

-- With chk_fee_rules_amounts and chk_fee_rules_percentage.
abbrev pub is_valid_rule : FeeRule → Bool
is_valid_rule rule =
    is_code rule.currency
    && (within_max rule.schedule.max_amount rule.schedule.min_amount
        && leb rule.schedule.percentage_bps 10000)

abbrev pub superseded : ℕ → ℕ → FeeRule → FeeRule
superseded id now rule = if rule.id == id then record rule { superseded_at = some now } else rule

abbrev pub supersede : Option FeeRule → ℕ → List FeeRule → List FeeRule
supersede none now rules = rules
supersede (some previous) now rules = map (superseded previous.id now) rules

abbrev pub new_rule : ℕ → NewFeeRule → FeeTable → FeeRule
new_rule admin_id input t = record {
  id = t.next_id;
  operation = input.operation;
  currency = input.currency;
  organization_id = input.organization_id;
  schedule = input.schedule;
  created_by_user_id = some admin_id;
  superseded_at = none;
}

-- The columns' ranges, the CHECKs and the foreign key.
unfoldable pub check_row : FeeRule → List ℕ → Result (Unit {0})
check_row rule organizations = do
  throw_if (not (fits_columns rule.schedule)) Error.out_of_range
  throw_if (not (is_valid_rule rule)) Error.fee_rule_check
  throw_if (not (has_organization rule.organization_id organizations)) Error.foreign_key_violation

-- INSERT, with these and the two unique indexes on active rules; a refusal takes `setRule` back.
abbrev pub insert_checked : Result (Unit {0}) → FeeRule → List FeeRule → Action FeeTable FeeRule
insert_checked (err x) rule rules t = (err x, t)
insert_checked (ok u) rule rules t =
    if any_by (is_active_in rule.operation rule.currency rule.organization_id) rules
    then (err Error.unique_fee_rule, t)
    else (ok rule, record t { rules = rules ++ rule ∷ []; next_id = t.next_id + 1 })

abbrev pub insert_rule : FeeRule → List FeeRule → Action FeeTable FeeRule
insert_rule rule rules t = insert_checked (check_row rule t.organizations) rule rules t

unfoldable pub set_rule : ℕ → NewFeeRule → Action FeeTable FeeRule
unfolding text_eq
set_rule admin_id input t =
    let previous = active_in input.operation input.currency input.organization_id t.rules in
    insert_rule (new_rule admin_id input t) (supersede previous t.clock t.rules) t

abbrev pub read_rule : ℕ → List FeeRule → Result FeeRule
read_rule id rules = elim (find_by (λ r. r.id == id) rules) [
  | none ↦ err Error.entity_not_found
  | some rule ↦ ok rule
]

unfoldable pub retire : ℕ → Action FeeTable FeeRule
retire id t =
    let rules =
      map
        (λ r.
          if r.id == id && not (is_some r.superseded_at)
          then record r { superseded_at = some t.clock }
          else r)
        t.rules in
    if not (any_by (λ r. r.id == id) t.rules)
    then (err Error.fee_rule_not_found, t)
    else if any_by (λ r. r.id == id && not (is_some r.superseded_at)) t.rules
    then (read_rule id rules, record t { rules = rules })
    else (err Error.fee_rule_already_retired, t)
