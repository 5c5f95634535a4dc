-- ===== src/Payouts/Submit.antt =====
-- payouts.service.ts, step 2: `submit` and `claimSubmission`, with the provider's answers
-- (payment-providers/payment-provider.ts) as an argument.
use finstack.Base.{
  ℕ, Bool, true, false, ◌&&◌, ◌||◌, Option, none, some, [], ◌∷◌, ◌++◌, map, ◌==◌, ◌+◌, ltb,
  if◌then◌else◌,
}
use finstack.Base.Lists.{find_by, any_by, is_some}
use finstack.Base.Text.{Text, codes, text_eq}
use finstack.Base.Result.{ok, err, Error}
use finstack.Base.Action.{Action, ◌>>=◌, ◌>>◌, pure, throw}
use finstack.Ledger.Posting.{Uuids}
use finstack.Transactions.Table.{Transaction, get_by_id}
use finstack.Payouts.Desk.{Payout, Desk, on_table}
use finstack.Payouts.Settle.{is_processing, is_successful, complete, fail, reverse}

pub data ProviderPayoutStatus : Type 0 where
  still_pending was_successful has_failed was_reversed : ProviderPayoutStatus

pub record PayoutResult : Type 0 where
  pub provider_reference : Text
  pub status : ProviderPayoutStatus
  pub failure_reason : Option Text

-- What a call of a provider ends with: an answer, a `PaymentProviderError` that is not retryable, or
-- any other failure, after which the outcome is unknown.
pub data Answer (A : Type 0) : Type 0 where
  answered : A → Answer A
  rejected : Text → Answer A
  unknown : Answer A

-- The answers that a provider gives during one call of `submit`: to `find`, and to `initiate`.
pub record Provider : Type 0 where
  pub find : Text → Option Text → Answer (Option PayoutResult)
  pub initiate : Payout → Answer PayoutResult

-- RESUBMIT_AFTER_MS
abbrev pub resubmit_after_ms : ℕ
resubmit_after_ms = 300000

abbrev pub has_payout_id : ℕ → Payout → Bool
has_payout_id id p = p.id == id

-- `submitted_at IS NULL OR submitted_at < now() - …`
abbrev pub may_submit : ℕ → Payout → Bool
may_submit now p = elim p.submitted_at [ none ↦ true | some at ↦ ltb (at + resubmit_after_ms) now ]

unfoldable pub claim_submission : ℕ → Action Desk Bool
claim_submission id d = (
  ok (any_by (λ p. has_payout_id id p && may_submit d.clock p) d.payouts),
  record d {
    payouts =
        map
          (λ p.
            if has_payout_id id p && may_submit d.clock p
            then record p { submitted_at = some d.clock }
            else p)
          d.payouts;
  },
)

-- The payout of `view`, with its transaction.
unfoldable pub view : ℕ → Action Desk (Payout × Transaction)
view id d = elim (find_by (has_payout_id id) d.payouts) [
  | none ↦ (err Error.payout_not_found, d)
  | some p ↦ (on_table (get_by_id p.transaction_id) >>= λ t. pure (p, t)) d
]

abbrev pub same_reference : Option Text → Text → Bool
same_reference none r = false
same_reference (some s) r = text_eq s r

abbrev pub keep_reference : Payout → Text → Action Desk Payout
keep_reference payout r d = if same_reference payout.provider_reference r then (ok payout, d) else (
  ok (record payout { provider_reference = some r }),
  record d {
    payouts =
        map (λ p. if has_payout_id payout.id p then record p { provider_reference = some r } else p)
          d.payouts;
  },
)

abbrev pub or_text : Option Text → Text → Text
or_text none t = t
or_text (some s) t = s

-- `initiate` is called: from here on the provider may have the payout.
abbrev pub send : Text → Action Desk (Unit {0})
send reference d = (ok tt, record d { sent = d.sent ++ reference ∷ [] })

module _ ⦃u : Uuids⦄ where
  abbrev pub act_on : Payout → PayoutResult → ProviderPayoutStatus → Action Desk (Unit {0})
  act_on payout result still_pending = pure tt
  act_on payout result was_successful = complete payout
  act_on payout result has_failed =
      fail payout (codes "PAYOUT_FAILED")
        (or_text result.failure_reason (codes "The provider reported the payout as failed"))
  act_on payout result was_reversed =
      fail payout (codes "PAYOUT_REVERSED") (codes "The provider reversed the payout")
      >> reverse payout

  -- The part of `submit` after a result is known.
  abbrev pub settle_result : Payout → PayoutResult → Action Desk (Unit {0})
  settle_result payout result = do
    kept ← keep_reference payout result.provider_reference
    act_on kept result result.status

  -- The catch clause: `payout` is the row as it was read.
  abbrev pub on_rejected : Payout → Text → Action Desk (Unit {0})
  on_rejected payout message =
      if is_some payout.submitted_at
      then pure tt
      else fail payout (codes "PROVIDER_REJECTED") message

  abbrev pub on_initiated : Payout → Answer PayoutResult → Action Desk (Unit {0})
  on_initiated payout (answered result) = settle_result payout result
  on_initiated payout (rejected message) = on_rejected payout message
  on_initiated payout unknown = pure tt

  -- The provider does not know the payout.
  abbrev pub send_claimed : Provider → Payout → Bool → Action Desk (Unit {0})
  send_claimed provider payout false = pure tt
  send_claimed provider payout true =
      send payout.reference >> on_initiated payout (provider.initiate payout)

  abbrev pub on_found :
      Provider → Payout → Transaction → Answer (Option PayoutResult) → Action Desk (Unit {0})
  on_found provider payout t (answered (some result)) = settle_result payout result
  on_found provider payout t (answered none) =
      if is_processing t
      then claim_submission payout.id >>= send_claimed provider payout
      else pure tt
  on_found provider payout t (rejected message) = on_rejected payout message
  on_found provider payout t unknown = pure tt

  abbrev pub asked : Provider → Payout → Answer (Option PayoutResult)
  asked provider payout =
      if is_some payout.submitted_at
      then provider.find payout.reference payout.provider_reference
      else answered none

  -- `this.providers.payoutsOf`
  abbrev pub with_provider : Option Provider → Payout → Transaction → Action Desk (Unit {0})
  with_provider none payout t = throw Error.payment_provider_unavailable
  with_provider (some provider) payout t = on_found provider payout t (asked provider payout)

  -- A failed or reversed payout has nothing left to learn.
  abbrev pub submit_open : (Text → Option Provider) → Payout → Transaction → Action Desk (Unit {0})
  submit_open payouts_of payout t =
      if is_processing t || is_successful t
      then with_provider (payouts_of payout.provider) payout t
      else pure tt

  unfoldable pub submit : (Text → Option Provider) → ℕ → Action Desk (Unit {0})
  unfolding complete fail reverse claim_submission view text_eq
  submit payouts_of id = do seen ← view id; submit_open payouts_of seen.0 seen.1
