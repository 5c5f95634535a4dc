-- ===== src/Tests/Proposals.antt =====
-- Decisions on a proposal that has been rejected.
use finstack.Base.{◌≡◌, refl, none, some, [], ◌∷◌, inl}
use finstack.Base.Int.{pos}
use finstack.Base.Text.{codes}
use finstack.Base.Result.{ok}
use finstack.Proposals.Board.{ActionProposal, Board, created, was_rejected, pending, reject}
use finstack.Proposals.Decided.{Stands, approves, rejects, decide_all, decide_all-Stands}

abbrev waiting : ActionProposal
waiting = record {
  id = 7;
  organization_id = 1;
  params = record { destination_id = 4; amount = pos 500; wallet_id = none; narration = none };
  summary = codes "Pay Ada";
  reasoning = codes "October";
  status = pending;
  proposed_by = record { user_id = none; api_key_id = some 3 };
  decided_by_user_id = none;
  decided_at = none;
  decision_note = none;
  result = none;
  failure_reason = none;
  expires_at = 90000;
}

abbrev board : Board
board = record { proposals = waiting ∷ []; requested = []; next_id = 8; clock = 1000 }

abbrev rejected_proposal : ActionProposal
rejected_proposal = record waiting {
  status = was_rejected;
  decided_by_user_id = some 2;
  decided_at = some 1000;
}

abbrev after_reject : Board
after_reject = record board { proposals = rejected_proposal ∷ [] }

reject-waiting : reject 1 7 2 none board ≡ (ok rejected_proposal, after_reject)
unfolding reject
reject-waiting = refl

decide_all-Stands_example : Stands rejected_proposal after_reject (
    decide_all
      ((5, approves (created 30 (codes "ref")) 1 7 2 none) ∷ (99999, rejects 1 7 2 none) ∷ [])
      after_reject)
decide_all-Stands_example =
    decide_all-Stands rejected_proposal refl
      ((5, approves (created 30 (codes "ref")) 1 7 2 none) ∷ (99999, rejects 1 7 2 none) ∷ [])
      after_reject (inl (refl, tt))
