-- ===== src/Transactions/Table.antt =====
-- transactions/transactions.service.ts on the table of transaction.entity.ts, with the trigger of
-- database/migrations/1790274459925-AddTransactionStatusTransitions.ts.
use finstack.Base.{
  ℕ, Bool, false, ◌&&◌, ◌||◌, not, Option, none, some, List, [], ◌∷◌, ◌++◌, map, ◌==◌,
  if◌then◌else◌,
}
use finstack.Base.Int.{ℤ, pos, leb_ℤ, eqb_ℤ}
use finstack.Base.Lists.{find_by, any_by, is_some}
use finstack.Base.Text.{Text, text_eq}
use finstack.Base.Result.{ok, err, Error}
use finstack.Base.Action.{Action, ◌>>=◌, ◌>>◌, lift}
use finstack.Owners.{Owner, same_owner, user}
use finstack.Limits.Rules.{TransactionType}
use finstack.Transactions.Status.{
  TransactionStatus, pending, processing, successful, failed, reversed, cancelled, expired,
  same_status, assert_transition,
}

-- `metadata` is written and not read by the modelled code. The owner stands for the two columns of
-- which exactly one is set.
pub record Transaction : Type 0 where
  pub id : ℕ
  pub reference : Text
  pub type : TransactionType
  pub status : TransactionStatus
  pub owner : Owner
  pub counterparty_user_id : Option ℕ
  pub source_wallet_id : Option ℕ
  pub destination_wallet_id : Option ℕ
  pub amount : ℤ
  pub currency : Text
  pub fee_amount : ℤ
  pub fee_currency : Option Text
  pub fee_rule_id : Option ℕ
  pub ledger_transaction_id : Option ℕ
  pub provider_reference : Option Text
  pub idempotency_key : Option Text
  pub description : Option Text
  pub failure_code : Option Text
  pub failure_reason : Option Text
  pub created_at : ℕ
  pub completed_at : Option ℕ

-- A field that is left out keeps its column; one that is null clears it.
pub record TransitionPatch : Type 0 where
  pub ledger_transaction_id : Option (Option ℕ)
  pub provider_reference : Option (Option Text)
  pub failure_code : Option (Option Text)
  pub failure_reason : Option (Option Text)
  pub completed_at : Option (Option ℕ)

abbrev pub no_patch : TransitionPatch
no_patch = record {
  ledger_transaction_id = none;
  provider_reference = none;
  failure_code = none;
  failure_reason = none;
  completed_at = none;
}

abbrev pub Table : Type 0
Table = List Transaction

abbrev pub has_transaction_id : ℕ → Transaction → Bool
has_transaction_id id t = t.id == id

abbrev pub find_row : ℕ → Table → Option Transaction
find_row id = find_by (has_transaction_id id)

-- chk_transactions_successful_has_ledger
abbrev pub has_ledger : Transaction → Bool
has_ledger t =
    not (same_status t.status successful || same_status t.status reversed)
    || is_some t.ledger_transaction_id

-- chk_transactions_fee
abbrev pub has_fee : Transaction → Bool
has_fee t = leb_ℤ (pos 0) t.fee_amount && (eqb_ℤ t.fee_amount (pos 0) || is_some t.fee_currency)

abbrev pub same_key : Option Text → Option Text → Bool
same_key (some a) (some b) = text_eq a b
same_key a b = false

-- uq_transactions_user_idempotency_key and uq_transactions_org_idempotency_key; NULLs never clash.
abbrev pub same_request : Transaction → Transaction → Bool
same_request t s = same_owner t.owner s.owner && same_key t.idempotency_key s.idempotency_key

-- INSERT INTO transactions, of a row that the database has given its id and time, and the caller its
-- random reference.
unfoldable pub create : Transaction → Action Table Transaction
unfolding text_eq
create t rows =
    if leb_ℤ t.amount (pos 0)
    then (err Error.amount_positive_check, rows)
    else if not (has_fee t)
    then (err Error.fee_check, rows)
    else if not (has_ledger t)
    then (err Error.ledger_required_check, rows)
    else if any_by (λ s. same_request s t) rows
    then (err Error.unique_idempotency_key, rows)
    else (ok t, rows ++ t ∷ [])

abbrev pub or_transaction_not_found : Option Transaction → Action Table Transaction
or_transaction_not_found none rows = (err Error.transaction_not_found, rows)
or_transaction_not_found (some t) rows = (ok t, rows)

abbrev pub get_by_id : ℕ → Action Table Transaction
get_by_id id rows = or_transaction_not_found (find_row id rows) rows

-- The row lock serialises the callers, which here run one after another.
abbrev pub lock_within : ℕ → Action Table Transaction
lock_within id rows = or_transaction_not_found (find_row id rows) rows

-- `transactions_check_status_transition`
unfoldable pub trigger_allows : TransactionStatus → TransactionStatus → Bool
trigger_allows old new =
    same_status new old
    || (same_status old pending
          && any_by (same_status new) (processing ∷ successful ∷ failed ∷ cancelled ∷ expired ∷ [])
        || (same_status old processing && any_by (same_status new) (successful ∷ failed ∷ [])
            || same_status old successful && same_status new reversed))

abbrev pub patched : {A : Type 0} → Option (Option A) → Option A → Option A
patched none column = column
patched (some value) column = value

abbrev pub apply_patch : TransactionStatus → TransitionPatch → Transaction → Transaction
apply_patch to p t = record t {
  status = to;
  ledger_transaction_id = patched p.ledger_transaction_id t.ledger_transaction_id;
  provider_reference = patched p.provider_reference t.provider_reference;
  failure_code = patched p.failure_code t.failure_code;
  failure_reason = patched p.failure_reason t.failure_reason;
  completed_at = patched p.completed_at t.completed_at;
}

-- `manager.update(Transaction, id, …)`: the trigger, then the constraint, on the row that there is.
unfoldable pub update_row :
    ℕ → TransactionStatus → TransitionPatch → Transaction → Action Table (Unit {0})
unfolding trigger_allows
update_row id to p current rows =
    if not (trigger_allows current.status to)
    then (err Error.status_transition_check, rows)
    else if not (has_ledger (apply_patch to p current))
    then (err Error.ledger_required_check, rows)
    else (ok tt, map (λ t. if has_transaction_id id t then apply_patch to p t else t) rows)

-- `findOneByOrFail`
abbrev pub read_back : ℕ → Action Table Transaction
read_back id rows = elim (find_row id rows) [
  | none ↦ (err Error.entity_not_found, rows)
  | some t ↦ (ok t, rows)
]

unfoldable pub transition : ℕ → TransactionStatus → TransitionPatch → Action Table Transaction
unfolding assert_transition update_row
transition id to p = do
  current ← lock_within id
  lift (assert_transition current.status to)
  update_row id to p current
  read_back id

unfoldable pub find_by_idempotency_key : Owner → Text → Table → Option Transaction
unfolding text_eq
find_by_idempotency_key owner key =
    find_by (λ t. same_owner t.owner owner && same_key t.idempotency_key (some key))

unfoldable pub get_for_organization : ℕ → ℕ → Action Table Transaction
get_for_organization organization_id id rows =
    or_transaction_not_found
      (find_by
        (λ t. has_transaction_id id t && same_owner t.owner (Owner.organization organization_id))
        rows)
      rows

abbrev pub is_counterparty : ℕ → Transaction → Bool
is_counterparty user_id t = elim t.counterparty_user_id [ none ↦ false | some id ↦ id == user_id ]

-- Visible to the initiator and the counterparty.
unfoldable pub get_for_user : ℕ → ℕ → Action Table Transaction
get_for_user user_id id rows =
    or_transaction_not_found
      (find_by
        (λ t.
          has_transaction_id id t
          && (same_owner t.owner (user user_id) || is_counterparty user_id t))
        rows)
      rows
