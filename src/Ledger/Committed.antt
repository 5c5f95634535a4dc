-- ===== src/Ledger/Committed.antt =====
-- ledger.service.ts: `post` and `reverse` as whole database transactions.
use finstack.Base.{◌≡◌, refl, sym, ap, ◌∙◌, arith}
use mathlib.Core.Path.{subst}
use finstack.Base.Int.{ℤ}
use finstack.Base.Result.{Result, ok, err}
use finstack.Base.Action.{Action, ◌>>◌, after-ok}
use finstack.Ledger.Posting.{PostingInput, Uuids, validate_posting}
use finstack.Ledger.Store.{Ledger, finish}
use finstack.Ledger.Commit.{IsConsistent, finish-IsConsistent}
use finstack.Ledger.Service.{PostedTransaction}
use finstack.Ledger.PostWithin.{post_within, replay}
use finstack.Ledger.Keeps.{Keeps, post_within-Keeps, bind-Keeps}
use finstack.Ledger.Post.{post, on_unique_violation}

module _ ⦃u : Uuids⦄ where
  on_unique_violation-writes :
      (input : PostingInput) (r : Result PostedTransaction × Ledger)
      → (on_unique_violation input r).1 ≡ r.1
  unfolding replay
  on_unique_violation-writes input (ok p, l) = refl
  on_unique_violation-writes input (err x, l) = ground arith

  -- The method post keeps the tables consistent, whether it returns or throws, where what runs
  -- before the posting in its transaction keeps them sound and only adds rows.
  pub post-IsConsistent :
      (before_post : Action Ledger (Unit {0})) (input : PostingInput) (l : Ledger)
      → Keeps before_post
      → IsConsistent l
      → IsConsistent (post before_post input l).1
  unfolding post
  post-IsConsistent before_post input l keeps h = with_amount (validate_posting input) refl
    where
      body : Action Ledger PostedTransaction
      body = before_post >> post_within input

      with_amount :
          (r : Result ℤ) → validate_posting input ≡ r → IsConsistent (post before_post input l).1
      with_amount (err x) e = rw e h
      with_amount (ok amount) e =
          let kept = (bind-Keeps keeps (λ _. post_within-Keeps input)).on l h.sound in
          let run =
            after-ok (validate_posting input, l)
              (λ _ k. on_unique_violation input (finish k (body k))) (ap (λ r. (r, l)) e) in
          let left = ap (λ r. r.1) run ∙ on_unique_violation-writes input (finish l (body l)) in
          subst IsConsistent (sym left) (finish-IsConsistent l (body l) h kept.0 kept.1)
