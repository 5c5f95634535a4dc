-- ===== src/Payouts/Once.antt =====
-- A payout is not sent twice while the provider may still have it (`submit` and `claimSubmission` of
-- payouts.service.ts).
use finstack.Base.{
  ℕ, ◌≡◌, ◌≤◌, refl, sym, ◌∙◌, ap, ◌⊎◌, inl, inr, Bool, true, false, ◌||◌, Option, none, some, List,
  [], ◌∷◌, ◌++◌, ◌+◌, arith, Bool-cases, Option-cases, ==_iff,
}
use mathlib.Core.Path.{subst}
use finstack.Base.Lists.{find_by, find_by-passes}
use finstack.Base.Text.{Text}
use finstack.Base.Result.{ok, err, Error}
use finstack.Base.Action.{after, after-ok}
use finstack.Ledger.Posting.{Uuids}
use finstack.Payouts.Desk.{Payout, Desk}
use finstack.Payouts.Submit.{
  Provider, PayoutResult, Answer, answered, rejected, unknown, claim_submission, has_payout_id,
  resubmit_after_ms, submit, submit_open, view, send_claimed, on_found, asked, with_provider,
  on_initiated,
}
use finstack.Payouts.Settle.{is_processing, is_successful}
use finstack.Payouts.Gentle.{Only, Recent, Leaves, Leaves-refl}
use finstack.Payouts.Replies.{settle_result-IsGentle, on_rejected-IsGentle, on_initiated-IsGentle}
use finstack.Transactions.Table.{Transaction, find_row}
use finstack.Payouts.Claims.{claim_submission-early, claim_submission-sent, claim_submission-cases}

-- What one call of `submit` has done: it has not sent the payout; or it has, and may not again for
-- five minutes.
pub record IsSent (id : ℕ) (d e : Desk) : Type 0 where
  pub reference : Text
  pub sent : e.sent ≡ d.sent ++ reference ∷ []
  pub clock : e.clock ≡ d.clock
  pub recent : Recent id (d.clock + resubmit_after_ms) e.payouts

view-cases :
    (id : ℕ) (d : Desk)
    → ((x : Error) × (view id d ≡ (err x, d)))
      ⊎ ((p : Payout) × (t : Transaction) × (p.id ≡ id) × (view id d ≡ (ok (p, t), d)))
unfolding view
view-cases id d = elim (Option-cases (find_by (has_payout_id id) d.payouts)) [
  | inl missing ↦ inl (Error.payout_not_found, rw (view, missing) refl)
  | inr (p, found) ↦ elim (Option-cases (find_row p.transaction_id d.transactions)) [
    | inl no_row ↦ inl (Error.transaction_not_found, rw (view, found, no_row) refl)
    | inr (t, row) ↦ inr (
      p,
      t,
      (==_iff p.id id).0 (find_by-passes (has_payout_id id) d.payouts p found),
      rw (view, found, row) refl,
    )
  ]
]

module _ ⦃u : Uuids⦄ where
  -- Within the five minutes nothing is sent.
  on_found-early :
      (provider : Provider) (p : Payout) (t : Transaction) (a : Answer (Option PayoutResult))
      (d : Desk) (until : ℕ)
      → Recent p.id until d.payouts
      → d.clock ≤ until
      → Leaves d (on_found provider p t a d).1
  on_found-early provider p t (answered (some r)) d until h le = (settle_result-IsGentle p r).on d
  on_found-early provider p t (answered none) d until h le = elim (Bool-cases (is_processing t)) [
    | inl open_row ↦
        let refused : after (claim_submission p.id d) (send_claimed provider p) ≡ (ok tt, d) =
          rw (claim_submission-early p.id until d h le) refl in
        rw open_row (rw refused (Leaves-refl d))
    | inr closed ↦ rw closed (Leaves-refl d)
  ]
  on_found-early provider p t (rejected m) d until h le = (on_rejected-IsGentle p m).on d
  on_found-early provider p t unknown d until h le = Leaves-refl d

  Outcome : ℕ → Desk → Desk → Type 0
  Outcome id d e = Leaves d e ⊎ IsSent id d e

  claimed-Outcome :
      (provider : Provider) (p : Payout) (d : Desk)
      → Only p.id d.payouts
      → Outcome p.id d (after (claim_submission p.id d) (send_claimed provider p)).1
  unfolding Outcome
  claimed-Outcome provider p d only = elim (claim_submission-cases p.id d only) [
    | inl refused ↦
        let end : after (claim_submission p.id d) (send_claimed provider p) ≡ (ok tt, d) =
          rw refused refl in
        inl (rw end (Leaves-refl d))
    | inr (granted, recent) ↦
        let e = (claim_submission p.id d).1 in
        let k = record e { sent = e.sent ++ p.reference ∷ [] } in
        let (same_sent, same_clock) = claim_submission-sent p.id d in
        let end : after (claim_submission p.id d) (send_claimed provider p)
            ≡ on_initiated p (provider.initiate p) k =
          after-ok (claim_submission p.id d) (send_claimed provider p) (ap (λ r. (r, e)) granted) in
        let gentle = (on_initiated-IsGentle p (provider.initiate p)).on k in
        inr (
          rw end (record {
            reference = p.reference;
            sent = gentle.sent ∙ ap (λ xs. xs ++ p.reference ∷ []) same_sent;
            clock = gentle.clock ∙ same_clock;
            recent = gentle.recent p.id (d.clock + resubmit_after_ms) recent;
          }))
  ]

  on_found-Outcome :
      (provider : Provider) (p : Payout) (t : Transaction) (a : Answer (Option PayoutResult))
      (d : Desk)
      → Only p.id d.payouts
      → Outcome p.id d (on_found provider p t a d).1
  unfolding Outcome
  on_found-Outcome provider p t (answered (some r)) d only = inl ((settle_result-IsGentle p r).on d)
  on_found-Outcome provider p t (answered none) d only = elim (Bool-cases (is_processing t)) [
    | inl open_row ↦ rw open_row (claimed-Outcome provider p d only)
    | inr closed ↦ rw closed (inl (Leaves-refl d))
  ]
  on_found-Outcome provider p t (rejected m) d only = inl ((on_rejected-IsGentle p m).on d)
  on_found-Outcome provider p t unknown d only = inl (Leaves-refl d)

  -- The parts of `submit` before the provider's answer read only.
  submit-lifts :
      (payouts_of : Text → Option Provider) (id : ℕ) (d : Desk) (Q : Desk → Type 0)
      → Q d
      → ((provider : Provider) (p : Payout) (t : Transaction) (a : Answer (Option PayoutResult))
          → p.id ≡ id
          → Q (on_found provider p t a d).1)
      → Q (submit payouts_of id d).1
  unfolding submit
  submit-lifts payouts_of id d Q same found = elim (view-cases id d) [
    | inl (x, missing) ↦
        subst (λ r. Q (after r (λ seen. submit_open payouts_of seen.0 seen.1)).1) (sym missing) same
    | inr (p, t, named, seen) ↦
        subst (λ r. Q (after r (λ seen. submit_open payouts_of seen.0 seen.1)).1) (sym seen)
          (opened p t named (is_processing t || is_successful t) refl)
  ]
    where
      provided :
          (o : Option Provider) (p : Payout) (t : Transaction)
          → p.id ≡ id
          → Q (with_provider o p t d).1
      provided none p t named = same
      provided (some provider) p t named = found provider p t (asked provider p) named

      opened :
          (p : Payout) (t : Transaction)
          → p.id ≡ id
          → (b : Bool) → (is_processing t || is_successful t) ≡ b
          → Q (submit_open payouts_of p t d).1
      opened p t named true e = rw e (provided (payouts_of p.provider) p t named)
      opened p t named false e = rw e same

  submit-early :
      (payouts_of : Text → Option Provider) (id : ℕ) (d : Desk) (until : ℕ)
      → Recent id until d.payouts
      → d.clock ≤ until
      → Leaves d (submit payouts_of id d).1
  submit-early payouts_of id d until h le =
      submit-lifts payouts_of id d (Leaves d) (Leaves-refl d) (λ provider p t a named.
        on_found-early provider p t a d until (subst (λ i. Recent i until d.payouts) (sym named) h)
          le)

  submit-Outcome :
      (payouts_of : Text → Option Provider) (id : ℕ) (d : Desk)
      → Only id d.payouts
      → Outcome id d (submit payouts_of id d).1
  submit-Outcome payouts_of id d only =
      submit-lifts payouts_of id d (Outcome id d) (unfold Outcome in inl (Leaves-refl d))
        (λ provider p t a named.
          subst (λ i. Outcome i d (on_found provider p t a d).1) named
            (on_found-Outcome provider p t a d (subst (λ i. Only i d.payouts) (sym named) only)))

  -- Calls of `submit` for one payout, by the request, by webhooks and by the sweep, each so many
  -- milliseconds after the one before, with the providers' answers to each.
  unfoldable pub run_submits : ℕ → List (ℕ × (Text → Option Provider)) → Desk → Desk
  unfolding submit
  run_submits id [] d = d
  run_submits id ((ms, payouts_of) ∷ calls) d =
      run_submits id calls (submit payouts_of id (record d { clock = d.clock + ms })).1

  abbrev pub duration : List (ℕ × (Text → Option Provider)) → ℕ
  duration [] = 0
  duration ((ms, payouts_of) ∷ calls) = ms + duration calls

  run_submits-early :
      (id : ℕ) (calls : List (ℕ × (Text → Option Provider))) (d : Desk) (until : ℕ)
      → Recent id until d.payouts
      → d.clock + duration calls ≤ until
      → (run_submits id calls d).sent ≡ d.sent
  unfolding run_submits
  run_submits-early id [] d until h le = refl
  run_submits-early id ((ms, payouts_of) ∷ calls) d until h le =
      let k = record d { clock = d.clock + ms } in
      let step = submit-early payouts_of id k until h (omega (arith, le)) in
      run_submits-early id calls (submit payouts_of id k).1 until (step.recent id until h)
        (rw step.clock (omega (arith, le)))
      ∙ step.sent

  -- However often `submit` runs for a payout within five minutes, whatever the providers answer and
  -- whether it returns or throws, the payout is sent to its provider once at most, where its id is
  -- its own.
  pub run_submits-once :
      (id : ℕ) (calls : List (ℕ × (Text → Option Provider))) (d : Desk)
      → Only id d.payouts
      → duration calls ≤ resubmit_after_ms
      → ((run_submits id calls d).sent ≡ d.sent)
        ⊎ ((reference : Text) × ((run_submits id calls d).sent ≡ d.sent ++ reference ∷ []))
  unfolding run_submits Outcome
  run_submits-once id [] d only le = inl refl
  run_submits-once id ((ms, payouts_of) ∷ calls) d only le =
      let k = record d { clock = d.clock + ms } in
      elim (submit-Outcome payouts_of id k only) [
        | inl quiet ↦
            elim (run_submits-once id calls (submit payouts_of id k).1 (quiet.only id only)
              (omega (arith, le))) [
                | inl none_sent ↦ inl (none_sent ∙ quiet.sent)
                | inr (reference, one) ↦
                    inr (reference, one ∙ ap (λ xs. xs ++ reference ∷ []) quiet.sent)
              ]
        | inr out ↦ inr (
          out.reference,
          run_submits-early id calls (submit payouts_of id k).1 (k.clock + resubmit_after_ms)
                out.recent (rw out.clock (omega (arith, le)))
              ∙ out.sent,
        )
      ]
