-- ===== src/Payouts/Claims.antt =====
-- `claimSubmission` of payouts.service.ts: who may send a payout.
use finstack.Base.{
  ℕ, ◌≡◌, ◌≤◌, refl, ◌∙◌, ap, ◌⊎◌, inl, inr, Bool, true, false, ◌&&◌, some, List, [], ◌∷◌, map, ◌+◌,
  if◌then◌else◌, arith, Bool-cases,
}
use finstack.Base.Lists.{All, any_by}
use finstack.Base.Result.{ok}
use finstack.Payouts.Desk.{Payout, Desk}
use finstack.Payouts.Submit.{claim_submission, has_payout_id, may_submit, resubmit_after_ms}
use finstack.Payouts.Gentle.{Only, Recent}

abbrev claimed : ℕ → ℕ → Payout → Payout
claimed id now p =
    if has_payout_id id p && may_submit now p then record p { submitted_at = some now } else p

-- None may be sent: none is claimed.
claimed_none :
    (id now t : ℕ) (ps : List Payout)
    → Recent id t ps
    → now ≤ t
    → (any_by (λ p. has_payout_id id p && may_submit now p) ps ≡ false)
      × (map (claimed id now) ps ≡ ps)
claimed_none id now t [] h le = (refl, refl)
claimed_none id now t (p ∷ ps) (here, rest) le =
    let (none_left, same) = claimed_none id now t ps rest le in
    let kept = kept_here (has_payout_id id p) refl in
    (
      ground (arith, none_left, kept),
      ap (λ q. q ∷ map (claimed id now) ps) (as_it_was kept) ∙ ap (λ qs. p ∷ qs) same,
    )
  where
    kept_here :
        (b : Bool) → has_payout_id id p ≡ b → (has_payout_id id p && may_submit now p) ≡ false
    kept_here true e =
        let (s, at, late) = here e in
        let not_yet : may_submit now p ≡ false = rw at (ground (arith, late, le)) in
        ground (arith, not_yet)
    kept_here false e = ground (arith, e)

    as_it_was : (has_payout_id id p && may_submit now p) ≡ false → claimed id now p ≡ p
    as_it_was h = rw h refl

others_claimed :
    (id now t : ℕ) (ps : List Payout)
    → All (λ q. has_payout_id id q ≡ false) ps
    → (any_by (λ p. has_payout_id id p && may_submit now p) ps ≡ false)
      × Recent id t (map (claimed id now) ps)
others_claimed id now t [] h = (refl, tt)
others_claimed id now t (p ∷ ps) (here, rest) =
    let (none_left, later) = others_claimed id now t ps rest in
    (ground (arith, none_left, here), (λ e. absurd (ground (arith, e, here)), later))

-- The row that was claimed may not be sent again until five minutes have passed.
claimed-Recent :
    (id now : ℕ) (ps : List Payout)
    → Only id ps
    → any_by (λ p. has_payout_id id p && may_submit now p) ps ≡ true
    → Recent id (now + resubmit_after_ms) (map (claimed id now) ps)
claimed-Recent id now [] h e = absurd (ground arith)
claimed-Recent id now (p ∷ ps) (only, rest) e = elim (Bool-cases (has_payout_id id p)) [
  | inl mine ↦
      let (none_left, later) = others_claimed id now (now + resubmit_after_ms) ps (only mine) in
      let free : (has_payout_id id p && may_submit now p) ≡ true = ground (arith, e, none_left) in
      (λ _. (now, submitted free, omega arith), later)
  | inr other ↦ (
    λ k. absurd (ground (arith, k, other)),
    claimed-Recent id now ps rest (ground (arith, e, other)),
  )
]
  where
    submitted :
        (has_payout_id id p && may_submit now p) ≡ true → (claimed id now p).submitted_at ≡ some now
    submitted h = rw h refl

pub claim_submission-early :
    (id t : ℕ) (d : Desk)
    → Recent id t d.payouts
    → d.clock ≤ t
    → claim_submission id d ≡ (ok false, d)
unfolding claim_submission
claim_submission-early id t d h le =
    let (none_left, same) = claimed_none id d.clock t d.payouts h le in
    rw none_left (ap (λ ps. (ok false, record d { payouts = ps })) same)

none_claimed :
    (id now : ℕ) (ps : List Payout)
    → any_by (λ p. has_payout_id id p && may_submit now p) ps ≡ false
    → map (claimed id now) ps ≡ ps
none_claimed id now [] h = refl
none_claimed id now (p ∷ ps) h =
    let here : (has_payout_id id p && may_submit now p) ≡ false = ground (arith, h) in
    let rest = none_claimed id now ps (ground (arith, h)) in
    ap (λ q. q ∷ map (claimed id now) ps) (as_it_was here) ∙ ap (λ qs. p ∷ qs) rest
  where
    as_it_was : (has_payout_id id p && may_submit now p) ≡ false → claimed id now p ≡ p
    as_it_was k = rw k refl

pub claim_submission-sent :
    (id : ℕ) (d : Desk)
    → ((claim_submission id d).1.sent ≡ d.sent) × ((claim_submission id d).1.clock ≡ d.clock)
unfolding claim_submission
claim_submission-sent id d = (refl, refl)

-- A claim that is refused changes nothing, and one that is granted stands for five minutes.
pub claim_submission-cases :
    (id : ℕ) (d : Desk)
    → Only id d.payouts
    → (claim_submission id d ≡ (ok false, d))
      ⊎ (((claim_submission id d).0 ≡ ok true)
          × Recent id (d.clock + resubmit_after_ms) (claim_submission id d).1.payouts)
unfolding claim_submission
claim_submission-cases id d only =
    elim (Bool-cases (any_by (λ p. has_payout_id id p && may_submit d.clock p) d.payouts)) [
      | inl free ↦ inr (ap ok free, claimed-Recent id d.clock d.payouts only free)
      | inr taken ↦ inl (
          rw taken (
            ap (λ ps. (ok false, record d { payouts = ps }))
              (none_claimed id d.clock d.payouts taken)))
    ]
