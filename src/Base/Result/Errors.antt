-- ===== src/Base/Result/Errors.antt =====
-- The exceptions of the modelled modules, one constructor for each exception class, and the
-- constraints and triggers of the database that can refuse a statement.

-- The reasons of `InvalidPostingError` (ledger/posting.ts, ledger/ledger.service.ts).
pub data PostingFault : Type 0 where
  bad_reference unsupported_currency too_few_entries non_positive_amount : PostingFault
  one_sided unbalanced no_entries : PostingFault

pub data Error : Type 0 where
  -- ledger/ledger.errors.ts
  invalid_posting : PostingFault → Error
  insufficient_funds currency_mismatch ledger_reference_conflict : Error
  transaction_already_reversed ledger_account_not_found : Error
  -- TypeORM's EntityNotFoundError, of `findOneByOrFail`
  entity_not_found : Error
  -- database constraints and triggers
  account_guard entry_currency_check non_negative_check amount_positive_check unbalanced_commit :
      Error
  unique_reference unique_reversal unique_code unique_wallet_currency unique_wallet_primary
        immutable_row status_transition_check ledger_required_check fee_check :
      Error
  -- RangeError and InvalidRateError of the money arithmetic
  range_error invalid_rate : Error
  -- transactions
  transaction_not_found invalid_transaction_state unique_idempotency_key : Error
  -- wallets
  wallet_not_found wallet_not_active wallet_already_exists wallet_currency_not_allowed : Error
  -- fees and limits
  amount_below_fee fee_rule_not_found fee_rule_already_retired unique_fee_rule fee_rule_check :
      Error
  out_of_range foreign_key_violation : Error
  limit_exceeded limit_rule_not_found limit_rule_already_retired : Error
  -- payments, refunds and payouts
  payment_not_found payment_already_refunded payment_not_refundable : Error
  refund_exceeds_remaining refund_not_found payout_not_found : Error
  payment_provider_unavailable : Error
  -- idempotency keys
  idempotency_key_reused idempotency_request_in_progress : Error
  -- refresh tokens
  invalid_refresh_token : Error
  -- fx
  fx_quote_not_found fx_quote_already_used fx_quote_expired : Error
  -- proposals
  proposal_not_found proposal_already_decided proposal_expired : Error
