-- ===== src/Payouts/Replies.antt =====
-- How `submit` of payouts.service.ts takes a provider's answer, with what it leaves as it is.
use finstack.Base.{
  ℕ, ◌≡◌, refl, sym, ◌∙◌, ap, inl, inr, false, List, [], ◌∷◌, map, ◌==◌, arith, Bool-cases,
}
use finstack.Base.Lists.{All, is_some}
use finstack.Base.Text.{Text, codes}
use finstack.Base.Action.{pure}
use finstack.Ledger.Posting.{Uuids}
use finstack.Payouts.Desk.{Payout}
use finstack.Payouts.Submit.{
  PayoutResult, ProviderPayoutStatus, still_pending, was_successful, has_failed, was_reversed,
  Answer, answered, rejected, unknown, has_payout_id, keep_reference, same_reference, act_on,
  settle_result, on_rejected, on_initiated,
}
use finstack.Payouts.Gentle.{
  Only, Recent, IsGentle, Leaves-refl, pure-IsGentle, bind-IsGentle, if-IsGentle, complete-IsGentle,
  fail-IsGentle, reverse-IsGentle,
}

-- Rows changed in neither their id nor their time of sending.
module _ (f : Payout → Payout)
    (same : (p : Payout) → ((f p).id ≡ p.id) × ((f p).submitted_at ≡ p.submitted_at)) where
  map-Only : (id : ℕ) (ps : List Payout) → Only id ps → Only id (map f ps)
  map-Only id [] h = tt
  map-Only id (p ∷ ps) (here, rest) =
      (λ e. others ps (here (sym (ap (λ i. i == id) (same p).0) ∙ e)), map-Only id ps rest)
    where
      others :
          (qs : List Payout)
          → All (λ q. has_payout_id id q ≡ false) qs
          → All (λ q. has_payout_id id q ≡ false) (map f qs)
      others [] h = tt
      others (q ∷ qs) h = (ap (λ i. i == id) (same q).0 ∙ h.0, others qs h.1)

  map-Recent : (id t : ℕ) (ps : List Payout) → Recent id t ps → Recent id t (map f ps)
  map-Recent id t [] h = tt
  map-Recent id t (p ∷ ps) (here, rest) = (
    λ e.
        let (s, at, le) = here (sym (ap (λ i. i == id) (same p).0) ∙ e) in (s, (same p).1 ∙ at, le),
    map-Recent id t ps rest,
  )

keep_reference-IsGentle : (p : Payout) (r : Text) → IsGentle (keep_reference p r)
keep_reference-IsGentle p r = record {
  on = λ d. elim (Bool-cases (same_reference p.provider_reference r)) [
    | inl known ↦ rw known (Leaves-refl d)
    | inr new ↦ rw new (record {
      sent = refl;
      clock = refl;
      only = λ id h. map-Only _ (λ q. (ground arith, ground arith)) id d.payouts h;
      recent = λ id t h. map-Recent _ (λ q. (ground arith, ground arith)) id t d.payouts h;
    })
  ];
}

module _ ⦃u : Uuids⦄ where
  act_on-IsGentle :
      (p : Payout) (r : PayoutResult) (s : ProviderPayoutStatus) → IsGentle (act_on p r s)
  act_on-IsGentle p r still_pending = pure-IsGentle tt
  act_on-IsGentle p r was_successful = complete-IsGentle p
  act_on-IsGentle p r has_failed = fail-IsGentle p _ _
  act_on-IsGentle p r was_reversed =
      bind-IsGentle
        (fail-IsGentle p (codes "PAYOUT_REVERSED") (codes "The provider reversed the payout"))
        (λ _. reverse-IsGentle p)

  pub settle_result-IsGentle : (p : Payout) (r : PayoutResult) → IsGentle (settle_result p r)
  settle_result-IsGentle p r =
      bind-IsGentle (keep_reference-IsGentle p r.provider_reference)
        (λ k. act_on-IsGentle k r r.status)

  pub on_rejected-IsGentle : (p : Payout) (message : Text) → IsGentle (on_rejected p message)
  on_rejected-IsGentle p message =
      if-IsGentle {m = pure tt} (is_some p.submitted_at) (pure-IsGentle tt)
        (fail-IsGentle p (codes "PROVIDER_REJECTED") message)

  pub on_initiated-IsGentle : (p : Payout) (a : Answer PayoutResult) → IsGentle (on_initiated p a)
  on_initiated-IsGentle p (answered r) = settle_result-IsGentle p r
  on_initiated-IsGentle p (rejected message) = on_rejected-IsGentle p message
  on_initiated-IsGentle p unknown = pure-IsGentle tt
