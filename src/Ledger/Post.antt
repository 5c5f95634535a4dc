-- ===== src/Ledger/Post.antt =====
-- ledger.service.ts: `post`, which opens its own database transaction, and `reverse`.
use finstack.Base.{ℕ, Bool, true, false, none, some, if◌then◌else◌}
use finstack.Base.Text.{Text}
use finstack.Base.Result.{Result, ok, err, Error}
use finstack.Base.Action.{Action, ◌>>◌, pure, lift}
use finstack.Ledger.Posting.{PostingInput, Uuids, validate_posting}
use finstack.Ledger.Store.{Ledger, find_transaction, finish}
use finstack.Ledger.Service.{PostedTransaction}
use finstack.Ledger.PostWithin.{post_within, replay, reversal_input}

-- isUniqueViolation(error, 'uq_ledger_transactions_reference')
abbrev pub clashes_on_reference : Error → Bool
clashes_on_reference Error.unique_reference = true
clashes_on_reference x = false

-- isUniqueViolation(error, 'uq_ledger_transactions_reversal_of_id')
abbrev pub clashes_on_reversal : Error → Bool
clashes_on_reversal Error.unique_reversal = true
clashes_on_reversal x = false

module _ ⦃u : Uuids⦄ where
  -- The catch clause: a clash with a concurrent posting on one of the two unique indexes.
  abbrev pub on_unique_violation :
      PostingInput → Result PostedTransaction × Ledger → Result PostedTransaction × Ledger
  on_unique_violation input (ok p, l) = (ok p, l)
  on_unique_violation input (err x, l) =
      if clashes_on_reference x
      then replay input l
      else if clashes_on_reversal x
      then (err Error.transaction_already_reversed, l)
      else (err x, l)

  -- `before_post` is `options.beforePost`, which runs first in the transaction.
  unfoldable pub post : Action Ledger (Unit {0}) → PostingInput → Action Ledger PostedTransaction
  unfolding validate_posting finish post_within replay
  post before_post input = do
    lift (validate_posting input)
    λ l. on_unique_violation input (finish l ((before_post >> post_within input) l))

  unfoldable pub reverse : ℕ → Text → Text → Action Ledger PostedTransaction
  unfolding post reversal_input
  reverse id reference description l = elim (find_transaction id l.transactions) [
    | none ↦ (err Error.entity_not_found, l)
    | some original ↦ post (pure tt) (reversal_input reference description original l) l
  ]
