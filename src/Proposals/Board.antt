-- ===== src/Proposals/Board.antt =====
-- proposals/proposals.service.ts on the table of action-proposal.entity.ts. The outcome of
-- `payouts.request` is an argument of `approve`.
use finstack.Base.{
  ℕ, Bool, true, false, ◌&&◌, Option, none, some, List, [], ◌∷◌, ◌++◌, map, ◌==◌, ◌+◌, leb,
  if◌then◌else◌,
}
use finstack.Base.Int.{ℤ}
use finstack.Base.Lists.{find_by, any_by, take}
use finstack.Base.Text.{Text}
use finstack.Base.Result.{Result, ok, err, Error}
use finstack.Base.Action.{Action, ◌>>=◌, ◌>>◌, pure, throw, gets, lift}

pub data ProposalStatus : Type 0 where
  pending was_rejected executed has_failed has_expired : ProposalStatus

abbrev pub is_pending : ProposalStatus → Bool
is_pending pending = true
is_pending other = false

pub record PayoutProposalParams : Type 0 where
  pub destination_id : ℕ
  pub amount : ℤ
  pub wallet_id : Option ℕ
  pub narration : Option Text

pub record Proposer : Type 0 where
  pub user_id : Option ℕ
  pub api_key_id : Option ℕ

-- `result` is the id and the reference of the payout. `kind` has one value, and `evidence` is not
-- read.
pub record ActionProposal : Type 0 where
  pub id : ℕ
  pub organization_id : ℕ
  pub params : PayoutProposalParams
  pub summary : Text
  pub reasoning : Text
  pub status : ProposalStatus
  pub proposed_by : Proposer
  pub decided_by_user_id : Option ℕ
  pub decided_at : Option ℕ
  pub decision_note : Option Text
  pub result : Option (ℕ × Text)
  pub failure_reason : Option Text
  pub expires_at : ℕ

-- `requested` are the proposals for which `payouts.request` was called: it has its own database
-- transactions, so that no rollback here takes it back.
pub record Board : Type 0 where
  pub proposals : List ActionProposal
  pub requested : List ℕ
  pub next_id : ℕ
  pub clock : ℕ

-- PROPOSAL_TTL_MS
abbrev pub proposal_ttl_ms : ℕ
proposal_ttl_ms = 86400000

-- How `payouts.request` ends: with a payout, with an `AppException` of a status below 500, or with
-- any other failure.
pub data RequestOutcome : Type 0 where
  created : ℕ → Text → RequestOutcome
  refused : Text → RequestOutcome
  outage : Error → RequestOutcome

abbrev pub is_proposal : ℕ → ℕ → ActionProposal → Bool
is_proposal organization_id id p = (p.id == id) && (p.organization_id == organization_id)

-- How `destinations.getActive` ends is an argument.
unfoldable pub propose :
    Result (Unit {0})
    → ℕ
    → Proposer
    → PayoutProposalParams
    → Text
    → Text
    → Action Board ActionProposal
propose active organization_id proposer params summary reasoning = lift active >>= λ _ b.
    let proposal : ActionProposal = record {
      id = b.next_id;
      organization_id = organization_id;
      params = params;
      summary = summary;
      reasoning = reasoning;
      status = pending;
      proposed_by = proposer;
      decided_by_user_id = none;
      decided_at = none;
      decision_note = none;
      result = none;
      failure_reason = none;
      expires_at = b.clock + proposal_ttl_ms;
    } in
    (ok proposal, record b { proposals = b.proposals ++ proposal ∷ []; next_id = b.next_id + 1 })

unfoldable pub get : ℕ → ℕ → Action Board ActionProposal
get organization_id id b = elim (find_by (is_proposal organization_id id) b.proposals) [
  | none ↦ (err Error.proposal_not_found, b)
  | some p ↦ (ok p, b)
]

abbrev pub is_due : ℕ → ActionProposal → Bool
is_due now p = is_pending p.status && leb p.expires_at now

abbrev pub expired_row : ℕ → ActionProposal → ActionProposal
expired_row now p = record p { status = has_expired; decided_at = some now }

-- Its own commit, also where it throws.
unfoldable pub expire_if_due : ℕ → ℕ → Action Board (Unit {0})
expire_if_due organization_id id b =
    if any_by (λ p. is_proposal organization_id id p && is_due b.clock p) b.proposals
    then (
      err Error.proposal_expired,
      record b {
        proposals =
            map
              (λ p.
                if is_proposal organization_id id p && is_due b.clock p
                then expired_row b.clock p
                else p)
              b.proposals;
      },
    )
    else (ok tt, b)

abbrev pub pending_only : ActionProposal → Action Board ActionProposal
pending_only p = if is_pending p.status then pure p else throw Error.proposal_already_decided

unfoldable pub lock_pending : ℕ → ℕ → Action Board ActionProposal
unfolding get
lock_pending organization_id id = get organization_id id >>= pending_only

-- `manager.save(proposal)`
abbrev pub save_proposal : ActionProposal → Action Board ActionProposal
save_proposal p b =
    (ok p, record b { proposals = map (λ q. if q.id == p.id then p else q) b.proposals })

abbrev pub decided : ℕ → Option Text → ℕ → ActionProposal → ActionProposal
decided user_id remark now p = record p {
  decided_by_user_id = some user_id;
  decided_at = some now;
  decision_note = remark;
}

abbrev pub request_made : ℕ → Action Board (Unit {0})
request_made id b = (ok tt, record b { requested = b.requested ++ id ∷ [] })

-- After the request has ended.
abbrev pub conclude :
    RequestOutcome → ℕ → Option Text → ActionProposal → Action Board ActionProposal
conclude (created payout_id reference) user_id remark p b =
    save_proposal
      (decided user_id remark b.clock
        (record p { status = executed; result = some (payout_id, reference) }))
      b
conclude (refused detail) user_id remark p b =
    save_proposal
      (decided user_id remark b.clock
        (record p { status = has_failed; failure_reason = some (take 500 detail) }))
      b
conclude (outage e) user_id remark p b = (err e, b)

unfoldable pub approve : RequestOutcome → ℕ → ℕ → ℕ → Option Text → Action Board ActionProposal
unfolding expire_if_due lock_pending
approve outcome organization_id id user_id remark = do
  expire_if_due organization_id id
  p ← lock_pending organization_id id
  request_made p.id
  conclude outcome user_id remark p

unfoldable pub reject : ℕ → ℕ → ℕ → Option Text → Action Board ActionProposal
unfolding lock_pending
reject organization_id id user_id remark = do
  p ← lock_pending organization_id id
  now ← gets (λ b. b.clock)
  save_proposal (decided user_id remark now (record p { status = was_rejected }))
