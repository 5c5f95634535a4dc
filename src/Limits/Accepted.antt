-- ===== src/Limits/Accepted.antt =====
-- limits/limits.service.ts: the operations that a rule lets pass, and how those that were recorded
-- count.
use finstack.Base.{
  ℕ, if◌then◌else◌, leb, ◌+◌, ◌≤◌, ◌≡◌, refl, inl, inr, true, List, [], ◌∷◌, arith, Bool-cases,
}
use finstack.Base.Text.{text_eq_refl}
use finstack.Base.Result.{ok, err, Error}
use finstack.Transactions.Status.{pending}
use finstack.Owners.{Owner, same_owner_refl}
use finstack.Limits.Rules.{
  LimitRule, TransactionRow, TransactionType, transfer, deposit, withdrawal, payment, refund, fee,
  reversal, conversion, same_type, counted, transaction_types, usage_within, assert_within_rule,
}

-- An operation that is recorded if the check passes.
pub record Operation : Type 0 where
  pub amount : ℕ
  pub time : ℕ

abbrev pub operation_row : LimitRule → Owner → Operation → TransactionRow
operation_row rule owner o = record {
  owner = owner;
  type = transaction_types rule.operation;
  currency = rule.currency;
  amount = o.amount;
  status = pending;
  created_at = o.time;
}

-- The operations that the check of the rule lets pass, each of which is then recorded.
unfoldable pub accepted : LimitRule → Owner → List Operation → List TransactionRow → List Operation
unfolding assert_within_rule
accepted rule owner [] rows = []
accepted rule owner (o ∷ os) rows =
    let with_it = accepted rule owner os (operation_row rule owner o ∷ rows) in
    let without = accepted rule owner os rows in
    elim (assert_within_rule rule owner o.amount o.time rows) [
      | ok u ↦ o ∷ with_it
      | err x ↦ without
    ]

abbrev pub amount_since : ℕ → Operation → ℕ
amount_since since o = if leb since o.time then o.amount else 0

-- What the operations from `since` on amount to.
abbrev pub total_since : ℕ → List Operation → ℕ
total_since since [] = 0
total_since since (o ∷ os) = amount_since since o + total_since since os

-- The times of the operations do not go back.
abbrev pub InOrder : ℕ → List Operation → Type 0
InOrder now [] = Unit
InOrder now (o ∷ os) = (now ≤ o.time) × InOrder o.time os

abbrev pub last_time : ℕ → List Operation → ℕ
last_time now [] = now
last_time now (o ∷ os) = last_time o.time os

pub accepted_passed :
    (rule : LimitRule) (owner : Owner) (o : Operation) (os : List Operation)
    (rows : List TransactionRow)
    → assert_within_rule rule owner o.amount o.time rows ≡ ok tt
    → accepted rule owner (o ∷ os) rows
      ≡ o ∷ accepted rule owner os (operation_row rule owner o ∷ rows)
unfolding accepted
accepted_passed rule owner o os rows h = rw (h, accepted) refl

pub accepted_refused :
    (rule : LimitRule) (owner : Owner) (o : Operation) (os : List Operation)
    (rows : List TransactionRow) (x : Error)
    → assert_within_rule rule owner o.amount o.time rows ≡ err x
    → accepted rule owner (o ∷ os) rows ≡ accepted rule owner os rows
unfolding accepted
accepted_refused rule owner o os rows x h = rw (h, accepted) refl

same_type_refl : (t : TransactionType) → same_type t t ≡ true
same_type_refl transfer = refl
same_type_refl deposit = refl
same_type_refl withdrawal = refl
same_type_refl payment = refl
same_type_refl refund = refl
same_type_refl fee = refl
same_type_refl reversal = refl
same_type_refl conversion = refl

-- An operation that was recorded counts, from its time on.
pub usage-recorded :
    (rule : LimitRule) (owner : Owner) (o : Operation) (since : ℕ) (rows : List TransactionRow)
    → (usage_within owner
        (transaction_types rule.operation)
        rule.currency
        since
        (operation_row rule owner o ∷ rows)).0
      ≡ amount_since since o
        + (usage_within owner (transaction_types rule.operation) rule.currency since rows).0
unfolding usage_within
usage-recorded rule owner o since rows =
    let mine : counted owner (transaction_types rule.operation) rule.currency since
          (operation_row rule owner o)
        ≡ leb since o.time =
      rw
        (
          same_owner_refl owner,
          same_type_refl (transaction_types rule.operation),
          text_eq_refl rule.currency,
        )
        (ground arith) in
    elim (Bool-cases (leb since o.time)) [
      | inl recent ↦ ground (arith, mine)
      | inr old ↦ ground (arith, mine)
    ]
