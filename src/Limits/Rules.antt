-- ===== src/Limits/Rules.antt =====
-- limits/limits.service.ts: `LimitsService`, and `usageWithin` of
-- transactions/transactions.service.ts. The per-owner lock makes the check and the insert that
-- follows it one step.
use finstack.Base.{
  ℕ, suc, ◌+◌, ◌-◌, Bool, true, false, ◌&&◌, not, Option, none, some, List, [], ◌∷◌, ltb, leb, ◌==◌,
  if◌then◌else◌,
}
use finstack.Base.Lists.{find_by, is_some}
use finstack.Owners.{Owner, user, organization, same_owner}
use finstack.Base.Text.{Text, text_eq}
use finstack.Base.Result.{Result, ok, err, Error, ◌>>◌, throw_if}
use finstack.Transactions.Status.{TransactionStatus, failed, cancelled, expired}

-- transactions/transaction.types.ts
pub data TransactionType : Type 0 where
  transfer deposit withdrawal payment refund fee reversal conversion : TransactionType

abbrev pub same_type : TransactionType → TransactionType → Bool
same_type transfer transfer = true
same_type deposit deposit = true
same_type withdrawal withdrawal = true
same_type payment payment = true
same_type refund refund = true
same_type fee fee = true
same_type reversal reversal = true
same_type conversion conversion = true
same_type a b = false

pub data LimitOperation : Type 0 where
  payment_operation payout_operation transfer_operation : LimitOperation

abbrev pub same_operation : LimitOperation → LimitOperation → Bool
same_operation payment_operation payment_operation = true
same_operation payout_operation payout_operation = true
same_operation transfer_operation transfer_operation = true
same_operation a b = false

abbrev pub transaction_types : LimitOperation → TransactionType
transaction_types payment_operation = payment
transaction_types payout_operation = withdrawal
transaction_types transfer_operation = transfer

pub record LimitRule : Type 0 where
  pub id : ℕ
  pub operation : LimitOperation
  pub currency : Text
  pub organization_id : Option ℕ
  pub max_per_transaction : Option ℕ
  pub max_daily_amount : Option ℕ
  pub max_daily_count : Option ℕ
  pub max_monthly_amount : Option ℕ
  pub superseded_at : Option ℕ

pub record TransactionRow : Type 0 where
  pub owner : Owner
  pub type : TransactionType
  pub currency : Text
  pub amount : ℕ
  pub status : TransactionStatus
  pub created_at : ℕ

abbrev pub day_ms : ℕ
day_ms = 86400000

abbrev pub month_ms : ℕ
month_ms = 2592000000

abbrev pub never_happened : TransactionStatus → Bool
never_happened failed = true
never_happened cancelled = true
never_happened expired = true
never_happened other = false

abbrev pub counted : Owner → TransactionType → Text → ℕ → TransactionRow → Bool
counted owner type currency since row =
    same_owner row.owner owner
    && same_type row.type type
    && text_eq row.currency currency
    && leb since row.created_at
    && not (never_happened row.status)

-- SUM(amount) and COUNT(*) of the rows that count.
unfoldable pub usage_within : Owner → TransactionType → Text → ℕ → List TransactionRow → ℕ × ℕ
unfolding text_eq
usage_within owner type currency since [] = (0, 0)
usage_within owner type currency since (row ∷ rows) =
    let (amount, count) = usage_within owner type currency since rows in
    if counted owner type currency since row
    then (row.amount + amount, suc count)
    else (amount, count)

abbrev pub same_organization : Option ℕ → Option ℕ → Bool
same_organization none none = true
same_organization (some a) (some b) = a == b
same_organization a b = false

abbrev pub is_active : LimitOperation → Text → Option ℕ → LimitRule → Bool
is_active operation currency organization_id rule =
    same_operation rule.operation operation
    && text_eq rule.currency currency
    && same_organization rule.organization_id organization_id
    && not (is_some rule.superseded_at)

-- An organization's own rule, else the default.
unfoldable pub active_rule : LimitOperation → Text → Owner → List LimitRule → Option LimitRule
unfolding text_eq
active_rule operation currency (user id) rules = find_by (is_active operation currency none) rules
active_rule operation currency (organization id) rules =
    elim (find_by (is_active operation currency (some id)) rules) [
      | some own ↦ some own
      | none ↦ find_by (is_active operation currency none) rules
    ]

abbrev pub exceeds : ℕ → Option ℕ → Bool
exceeds value none = false
exceeds value (some max) = ltb max value

-- The checks that read the usage.
unfoldable pub assert_usage : LimitRule → Owner → ℕ → ℕ → List TransactionRow → Result (Unit {0})
unfolding usage_within
assert_usage rule owner amount now rows =
    let type = transaction_types rule.operation in
    let daily = usage_within owner type rule.currency (now - day_ms) rows in
    let monthly = usage_within owner type rule.currency (now - month_ms) rows in
    do
      throw_if (exceeds (daily.1 + 1) rule.max_daily_count) Error.limit_exceeded
      throw_if (exceeds (daily.0 + amount) rule.max_daily_amount) Error.limit_exceeded
      throw_if (exceeds (monthly.0 + amount) rule.max_monthly_amount) Error.limit_exceeded

unfoldable pub assert_within_rule :
    LimitRule → Owner → ℕ → ℕ → List TransactionRow → Result (Unit {0})
unfolding assert_usage
assert_within_rule rule owner amount now rows =
    if exceeds amount rule.max_per_transaction
    then err Error.limit_exceeded
    else if not (is_some rule.max_daily_amount)
        && not (is_some rule.max_daily_count)
        && not (is_some rule.max_monthly_amount)
    then ok tt
    else assert_usage rule owner amount now rows

unfoldable pub assert_within_limits :
    List LimitRule → Owner → LimitOperation → Text → ℕ → ℕ → List TransactionRow → Result (Unit {0})
unfolding active_rule assert_within_rule
assert_within_limits rules owner operation currency amount now rows =
    elim (active_rule operation currency owner rules) [
      | none ↦ ok tt
      | some rule ↦ assert_within_rule rule owner amount now rows
    ]
